-- ===== src/Formats/Cbor/Entries.antt =====
-- Maps: written in the encoder's order, and read back in any.
use sygaldreye.Common.{
  ℕ, zero, suc, ◌+◌, ◌*◌, ◌^◌, ◌≤◌, ◌<◌, ◌≡◌, refl, ap, sym, ◌∙◌, List, [], ◌∷◌, ◌++◌, map, arith,
  length, length-append, false, eq_bytes,
}
use mathlib.Core.List.{append_assoc}
use sygaldreye.Common.Outcome.{ok}
use sygaldreye.Formats.Cbor.Json.{Json, Fields, slash, put_field}
use sygaldreye.Formats.Cbor.Encode.{head, Item, has_slash, append_items}
use sygaldreye.Formats.Cbor.Decode.{entries}
use sygaldreye.Formats.Cbor.Sorting.{puts}
use sygaldreye.Formats.Cbor.Canonical.{Coded}
use sygaldreye.Formats.Cbor.Leaves.{string-Reads}

-- An entry of a map, with the way back of its value.
pub record Entry : Type 0 where
  pub key : List ℕ
  pub content : Json
  pub coded : Coded content
  pub small : length key < 2 ^ 64
  pub unreserved : eq_bytes key slash ≡ false

abbrev pub item_of : Entry → Item
item_of e = (e.key, ok e.coded.bytes)

abbrev key_bytes : Entry → List ℕ
key_bytes e = head 3 (length e.key) ++ e.key

-- What the encoder appends for sorted entries.
abbrev pub flat : List Entry → List ℕ
flat [] = []
flat (e ∷ es) = key_bytes e ++ (e.coded.bytes ++ flat es)

pub append_items-map : (es : List Entry) → append_items (map item_of es) ≡ ok (flat es)
unfolding append_items
append_items-map [] = refl
append_items-map (e ∷ es) =
    rw (append_items-map es)
      (ap (λ l. ok l) (sym (append_assoc (head 3 (length e.key)) e.key (e.coded.bytes ++ flat es))))

pub has_slash-map : (es : List Entry) → has_slash (map item_of es) ≡ false
unfolding has_slash
has_slash-map [] = refl
has_slash-map (e ∷ es) = rw e.unreserved (has_slash-map es)

abbrev pub written : List Entry → Fields → Fields
written = puts (λ e. e.key) (λ e. e.content)

pub entries-flat :
    (es : List Entry) (out : Fields) (rest : List ℕ) (fuel limit : ℕ)
    → 2 * length (flat es) + 1 < fuel
    → length (flat es ++ rest) ≤ limit
    → limit < 2 ^ 64
    → entries fuel limit (length es) out (flat es ++ rest) ≡ ok (written es out, rest)
unfolding entries
entries-flat es out rest zero limit enough i b = absurd (omega arith)
entries-flat [] out rest (suc fuel) limit enough i b = refl
entries-flat (e ∷ es) out rest (suc fuel) limit enough i b =
    rw
      (
        split,
        string-Reads e.key e.small behind fuel limit (omega (arith, enough, long, long'))
            (omega (arith, i, whole)) b,
        e.coded.reads (flat es ++ rest) fuel limit (omega (arith, enough, long, long'))
            (omega (arith, i, whole, length-append (key_bytes e) behind)) b,
      )
      (entries-flat es (put_field e.key e.content out) rest fuel limit
        (omega (arith, enough, long, long', e.coded.nonempty))
        (omega (
          arith,
          i,
          whole,
          length-append (key_bytes e) behind,
          length-append e.coded.bytes (flat es ++ rest),
        ))
        b)
  where
    behind : List ℕ
    behind = e.coded.bytes ++ (flat es ++ rest)

    split : flat (e ∷ es) ++ rest ≡ key_bytes e ++ behind
    split =
        append_assoc (key_bytes e) (e.coded.bytes ++ flat es) rest
        ∙ ap (λ l. key_bytes e ++ l) (append_assoc e.coded.bytes (flat es) rest)

    whole : length (flat (e ∷ es) ++ rest) ≡ length (key_bytes e ++ behind)
    whole = ap (λ l. length l) split

    long : length (flat (e ∷ es)) ≡ length (key_bytes e) + length (e.coded.bytes ++ flat es)
    long = length-append (key_bytes e) (e.coded.bytes ++ flat es)

    long' : length (e.coded.bytes ++ flat es) ≡ length e.coded.bytes + length (flat es)
    long' = length-append e.coded.bytes (flat es)
