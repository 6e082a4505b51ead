-- ===== src/Formats/Cbor/Encode.antt =====
-- `encode`, as the bytes that it appends.
use sygaldreye.Common.{
  ℕ, zero, suc, ◌+◌, ◌*◌, ◌%◌, ◌^◌, List, [], ◌∷◌, ◌++◌, Bool, true, false, ltb, ◌==◌, bit_or,
  get_or, length, eq_bytes, codes, if◌then◌else◌,
}
use sygaldreye.Common.Bits.{shr}
use sygaldreye.Common.Outcome.{
  Outcome, ok, throws, ◌>>=◌, nan_forbidden, malformed_escape, reserved_key, unencodable,
  not_a_bytes_escape,
}
use sygaldreye.Formats.Base32.{cid_from_text}
use sygaldreye.Formats.Base64.{base64_encode, base64_decode}
use sygaldreye.Formats.Cbor.Json.{
  Int64, nonnegative, negative, Json, Items, Fields, null, boolean, unsigned, integer, floating,
  string, array, object, binary, nil, cons, end, field, size_items, lex_less, slash,
}

-- The low `count` bytes of a number, highest first.
unfoldable pub big_endian : ℕ → ℕ → List ℕ
big_endian zero arg = []
big_endian (suc i) arg = shr arg (8 * i) % 256 ∷ big_endian i arg

abbrev pub extra_bytes : ℕ → ℕ
extra_bytes arg =
    if ltb arg (2 ^ 8) then 1 else if ltb arg (2 ^ 16) then 2 else if ltb arg (2 ^ 32) then 4 else 8

abbrev pub additional_info : List ℕ
additional_info = 0 ∷ 24 ∷ 25 ∷ 0 ∷ 26 ∷ 0 ∷ 0 ∷ 0 ∷ 27 ∷ []

unfoldable pub head : ℕ → ℕ → List ℕ
head major arg =
    if ltb arg 24
    then bit_or (major * 2 ^ 5) arg % 256 ∷ []
    else bit_or (major * 2 ^ 5) (get_or additional_info (extra_bytes arg) 0) % 256
      ∷ big_endian (extra_bytes arg) arg

-- isnan or isinf: all bits of the exponent are set.
abbrev pub not_finite : ℕ → Bool
not_finite u = shr u 52 % 2 ^ 11 == 2047

-- What an object is to the encoder: an escape, by its one key "/", or a map.
pub data Shape : Type 0 where
  link : List ℕ → Shape
  byte_string : List ℕ → Shape
  malformed plain : Shape

abbrev pub bytes_key : List ℕ
bytes_key = codes "bytes"

abbrev pub escape_shape : Json → Shape
escape_shape (string text) = link text
escape_shape (object (field k (string text) end)) =
    if eq_bytes k bytes_key then byte_string text else malformed
escape_shape v = malformed

abbrev pub shape_of : Fields → Shape
shape_of (field k v end) = if eq_bytes k slash then escape_shape v else plain
shape_of fs = plain

-- The order of map keys: by length, then bytewise.
unfoldable pub key_less : List ℕ → List ℕ → Bool
unfolding lex_less
key_less a b = if length a == length b then lex_less a b else ltb (length a) (length b)

-- std::sort of the items by their keys, which are distinct: any sort gives this list.
module _ {ℓ} {A : Type ℓ} (key : A → List ℕ) where
  unfoldable pub insert_by_key : A → List A → List A
  insert_by_key a [] = a ∷ []
  insert_by_key a (b ∷ rest) =
      let behind = insert_by_key a rest in
      if key_less (key a) (key b) then a ∷ b ∷ rest else b ∷ behind

  unfoldable pub sort_by_key : List A → List A
  unfolding insert_by_key
  sort_by_key [] = []
  sort_by_key (a ∷ rest) = insert_by_key a (sort_by_key rest)

-- A key with its value's encoding.
abbrev pub Item : Type 0
Item = List ℕ × Outcome (List ℕ)

abbrev pub item_key : Item → List ℕ
item_key item = item.0

unfoldable pub has_slash : List Item → Bool
has_slash [] = false
has_slash ((k, v) ∷ items) = if eq_bytes k slash then true else has_slash items

-- The loop over the sorted items.
unfoldable pub append_items : List Item → Outcome (List ℕ)
unfolding head
append_items [] = ok []
append_items ((k, v) ∷ items) = do
  bytes ← v
  rest ← append_items items
  ok (head 3 (length k) ++ (k ++ (bytes ++ rest)))

unfoldable pub map_bytes : List Item → Outcome (List ℕ)
unfolding has_slash append_items sort_by_key head
map_bytes items =
    if has_slash items
    then throws reserved_key
    else do rest ← append_items (sort_by_key item_key items); ok (head 5 (length items) ++ rest)

unfoldable pub object_bytes : Shape → List Item → Outcome (List ℕ)
unfolding map_bytes head
object_bytes (link text) items = do
  cid ← cid_from_text text
  ok (head 6 42 ++ (head 2 (length cid + 1) ++ (0x00 ∷ cid)))
object_bytes (byte_string text) items = do
  bytes ← base64_decode text
  ok (head 2 (length bytes) ++ bytes)
object_bytes malformed items = throws malformed_escape
object_bytes plain items = map_bytes items

unfoldable pub integer_bytes : Int64 → List ℕ
unfolding head
integer_bytes (nonnegative n) = head 0 n
integer_bytes (negative n) = head 1 n

unfoldable pub float_bytes : ℕ → Outcome (List ℕ)
unfolding big_endian
float_bytes u = if not_finite u then throws nan_forbidden else ok (0xfb ∷ big_endian 8 u)

unfoldable mutual
  unfolding head integer_bytes float_bytes object_bytes

  pub encode : Json → Outcome (List ℕ)
  encode null = ok (0xf6 ∷ [])
  encode (boolean b) = ok ((if b then 0xf5 else 0xf4) ∷ [])
  encode (unsigned n) = ok (head 0 n)
  encode (integer i) = ok (integer_bytes i)
  encode (floating u) = float_bytes u
  encode (string s) = ok (head 3 (length s) ++ s)
  encode (array xs) = do rest ← encode_items xs; ok (head 4 (size_items xs) ++ rest)
  encode (object fs) = object_bytes (shape_of fs) (encode_fields fs)
  encode (binary b) = throws unencodable

  pub encode_items : Items → Outcome (List ℕ)
  encode_items nil = ok []
  encode_items (cons v xs) = do bytes ← encode v; rest ← encode_items xs; ok (bytes ++ rest)

  pub encode_fields : Fields → List Item
  encode_fields end = []
  encode_fields (field k v fs) = (k, encode v) ∷ encode_fields fs

-- `bytes_of_projection` and `projection_of_bytes`. The first asks no size of the inner object.
abbrev pub find_field : List ℕ → Fields → Json
find_field k end = null
find_field k (field j v fs) = if eq_bytes j k then v else find_field k fs

abbrev pub bytes_text : Json → Outcome (List ℕ)
bytes_text (object fs) = elim (find_field bytes_key fs) [
  | string text ↦ base64_decode text
  | _ ↦ throws not_a_bytes_escape
]
bytes_text v = throws not_a_bytes_escape

unfoldable pub bytes_of_projection : Json → Outcome (List ℕ)
bytes_of_projection (object (field k v end)) =
    if eq_bytes k slash then bytes_text v else throws not_a_bytes_escape
bytes_of_projection v = throws not_a_bytes_escape

unfoldable pub projection_of_bytes : List ℕ → Json
projection_of_bytes b =
    object (field slash (object (field bytes_key (string (base64_encode b)) end)) end)
