-- ===== src/Formats/Cbor/Json.antt =====
-- The JSON values that the encoder takes: nlohmann::json with its value types.
use sygaldreye.Common.{ℕ, suc, List, [], ◌∷◌, Bool, true, false, ltb, ◌==◌, eq_bytes, if◌then◌else◌}

-- An int64_t: `negative n` is -(n + 1).
pub data Int64 : Type 0 where
  nonnegative negative : ℕ → Int64

-- A double is its 64 bits. An object is the entries of its std::map, in the order of the map.
mutual
  pub data Json : Type 0 where
    null : Json
    boolean : Bool → Json
    unsigned : ℕ → Json
    integer : Int64 → Json
    floating : ℕ → Json
    string : List ℕ → Json
    array : Items → Json
    object : Fields → Json
    binary : List ℕ → Json

  pub data Items : Type 0 where
    nil : Items
    cons : Json → Items → Items

  pub data Fields : Type 0 where
    end : Fields
    field : List ℕ → Json → Fields → Fields

abbrev pub size_items : Items → ℕ
size_items nil = 0
size_items (cons v xs) = suc (size_items xs)

abbrev pub size_fields : Fields → ℕ
size_fields end = 0
size_fields (field k v fs) = suc (size_fields fs)

-- `a < b` on std::string: the first byte that differs decides, then the length.
unfoldable pub lex_less : List ℕ → List ℕ → Bool
lex_less xs [] = false
lex_less [] (y ∷ ys) = true
lex_less (x ∷ xs) (y ∷ ys) =
    let rest = lex_less xs ys in if ltb x y then true else if x == y then rest else false

-- `object[k] = v` on the sorted map.
unfoldable pub put_field : List ℕ → Json → Fields → Fields
put_field k v end = field k v end
put_field k v (field j w fs) =
    let rest = put_field k v fs in
    if lex_less k j
    then field k v (field j w fs)
    else if eq_bytes k j
    then field j v fs
    else field j w rest

-- The special form of an object with the one key "/".
abbrev pub slash : List ℕ
slash = b'/' ∷ []

abbrev pub link_object : List ℕ → Fields
link_object text = field slash (string text) end
