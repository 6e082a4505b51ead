-- ===== src/Formats/Cbor/RoundTrip.antt =====
-- Every canonical value comes back from its encoding.
use sygaldreye.Common.{
  ℕ, suc, ◌+◌, ◌*◌, ◌^◌, ◌≤◌, ◌<◌, ◌≡◌, refl, ap, sym, ◌∙◌, List, [], ◌∷◌, ◌++◌, map, arith, All,
  length, length-append, length-map, false, eq_bytes,
}
use mathlib.Core.Path.{subst}
use mathlib.Core.List.{append-nil}
use sygaldreye.Common.Outcome.{ok}
use sygaldreye.Formats.Cbor.Json.{Json, Items, Fields, object, end, field, size_fields, slash}
use sygaldreye.Formats.Cbor.Encode.{
  head, item_key, map_bytes, object_bytes, shape_of, plain, sort_by_key, encode, encode_fields,
}
use sygaldreye.Formats.Cbor.Decode.{value, decode_to_projection}
use sygaldreye.Formats.Cbor.Keys.{IsBelow}
use sygaldreye.Formats.Cbor.Sorting.{
  sort_by_key-map, length-sort_by_key, of_entries, IsAscending, puts_sorted,
}
use sygaldreye.Formats.Cbor.Canonical.{
  Canonical, is_null, is_boolean, is_unsigned, is_negative, is_floating, is_string, is_array,
  is_map, is_link, is_bytes, CanonicalItems, none_left, one_more, CanonicalFields, no_field,
  one_field, IsBefore, Coded,
}
use sygaldreye.Formats.Cbor.Reading.{length-head, value-object}
use sygaldreye.Formats.Cbor.Leaves.{
  Coded-null, Coded-boolean, Coded-unsigned, Coded-negative, Coded-floating, Coded-string,
  Coded-bytes, Coded-link,
}
use sygaldreye.Formats.Cbor.Elements.{behind_head}
use sygaldreye.Formats.Cbor.Elements.{CodedItems, CodedItems-nil, Coded-cons, Coded-array}
use sygaldreye.Formats.Cbor.Entries.{
  Entry, item_of, flat, append_items-map, has_slash-map, written, entries-flat,
}

abbrev key_of : Entry → List ℕ
key_of e = e.key

abbrev content_of : Entry → Json
content_of e = e.content

-- The entries of a map.
record CodedFields (fs : Fields) : Type 0 where
  entries : List Entry
  spells : of_entries key_of content_of entries ≡ fs
  writes : encode_fields fs ≡ map item_of entries
  ascending : IsAscending key_of content_of entries
  counted : length entries ≡ size_fields fs

IsBefore-entries :
    (k : List ℕ) (es : List Entry)
    → IsBefore k (of_entries key_of content_of es)
    → All (λ e. IsBelow k (key_of e)) es
IsBefore-entries k [] h = tt
IsBefore-entries k (e ∷ es) h = (h.0, IsBefore-entries k es h.1)

CodedFields-end : CodedFields end
unfolding encode
CodedFields-end = record {
  entries = [];
  spells = refl;
  writes = refl;
  ascending = tt;
  counted = refl;
}

Coded-field :
    {v : Json} {fs : Fields} (k : List ℕ)
    → length k < 2 ^ 64
    → eq_bytes k slash ≡ false
    → IsBefore k fs
    → Coded v
    → CodedFields fs
    → CodedFields (field k v fs)
unfolding encode
Coded-field {v} {fs} k small unreserved before c cs = record {
  entries = e ∷ cs.entries;
  spells = ap (field k v) cs.spells;
  writes = rw (c.writes, cs.writes);
  ascending = (
    IsBefore-entries k cs.entries (subst (λ gs. IsBefore k gs) (sym cs.spells) before),
    cs.ascending,
  );
  counted = ap suc cs.counted;
}
  where
    e : Entry
    e = record { key = k; content = v; coded = c; small = small; unreserved = unreserved }

shape_of-plain : (es : List Entry) → shape_of (of_entries key_of content_of es) ≡ plain
shape_of-plain [] = refl
shape_of-plain (e ∷ []) = rw e.unreserved
shape_of-plain (e ∷ e' ∷ es) = refl

Coded-object : (fs : Fields) → size_fields fs < 2 ^ 64 → CodedFields fs → Coded (object fs)
unfolding encode object_bytes map_bytes
Coded-object fs fits c = record {
  bytes = head 5 (length c.entries) ++ flat sorted;
  writes = writes;
  nonempty = omega (
    arith,
    length-head 5 (length c.entries) (omega arith),
    length-append (head 5 (length c.entries)) (flat sorted),
  );
  reads = behind_head 5 (length c.entries) (flat sorted) (omega arith) reads;
}
  where
    short : length c.entries < 2 ^ 64
    short = omega (arith, c.counted)

    sorted : List Entry
    sorted = sort_by_key key_of c.entries

    back : written sorted end ≡ fs
    back = puts_sorted key_of content_of c.entries c.ascending ∙ c.spells

    reads :
        (rest : List ℕ) (fuel limit : ℕ)
        → 2 * length (flat sorted) + 1 < fuel
        → length (flat sorted ++ rest) ≤ limit
        → limit < 2 ^ 64
        → value (suc fuel) limit (head 5 (length c.entries) ++ (flat sorted ++ rest))
          ≡ ok (object fs, rest)
    reads rest fuel limit e i b =
        value-object fuel limit (length c.entries) (flat sorted ++ rest) short fs rest (
          rw (← length-sort_by_key key_of c.entries) (entries-flat sorted end rest fuel limit e i b)
          ∙ ap (λ gs. ok (gs, rest)) back)

    writes : encode (object fs) ≡ ok (head 5 (length c.entries) ++ flat sorted)
    writes = rw (
      c.writes,
      ap shape_of (sym c.spells) ∙ shape_of-plain c.entries,
      has_slash-map c.entries,
      sort_by_key-map item_key item_of c.entries,
      append_items-map sorted,
      length-map item_of c.entries,
    )

mutual
  coded : {v : Json} → Canonical v → Coded v
  coded is_null = Coded-null
  coded (is_boolean b) = Coded-boolean b
  coded (is_unsigned n h) = Coded-unsigned n h
  coded (is_negative n h) = Coded-negative n h
  coded (is_floating u h k) = Coded-floating u h k
  coded (is_string s h) = Coded-string s h
  coded (is_array xs h c) = Coded-array xs h (coded_items c)
  coded (is_map fs h c) = Coded-object fs h (coded_fields c)
  coded (is_link cid h k) = Coded-link cid h k
  coded (is_bytes b h k) = Coded-bytes b h k

  coded_items : {xs : Items} → CanonicalItems xs → CodedItems xs
  coded_items none_left = CodedItems-nil
  coded_items (one_more c cs) = Coded-cons (coded c) (coded_items cs)

  coded_fields : {fs : Fields} → CanonicalFields fs → CodedFields fs
  coded_fields no_field = CodedFields-end
  coded_fields (one_field k h u b c cs) = Coded-field k h u b (coded c) (coded_fields cs)

-- A canonical value has an encoding.
pub encode-Canonical : {v : Json} → Canonical v → (bytes : List ℕ) × (encode v ≡ ok bytes)
encode-Canonical h = let c = coded h in (c.bytes, c.writes)

-- A buffer that holds just the encoding of a canonical value, anywhere in memory, is read back as the
-- value.
pub decode_to_projection-encode :
    {v : Json} (bytes : List ℕ) (limit : ℕ)
    → Canonical v
    → encode v ≡ ok bytes
    → length bytes ≤ limit
    → limit < 2 ^ 64
    → decode_to_projection limit bytes ≡ ok v
unfolding decode_to_projection
decode_to_projection-encode {v} bytes limit h e i b = rw whole
  where
    c : Coded v
    c = coded h

    same : c.bytes ≡ bytes
    same = cc (c.writes, e)

    reads : value (2 * length c.bytes + 1) limit (c.bytes ++ []) ≡ ok (v, [])
    reads =
        c.reads [] (2 * length c.bytes + 1) limit (omega arith)
          (omega (arith, i, ap (λ l. length l) same, ap (λ l. length l) (append-nil c.bytes))) b

    whole : value (2 * length bytes + 1) limit bytes ≡ ok (v, [])
    whole =
        subst (λ l. value (2 * length l + 1) limit l ≡ ok (v, [])) same
          (subst (λ l. value (2 * length c.bytes + 1) limit l ≡ ok (v, [])) (append-nil c.bytes)
            reads)

-- Canonical values with one encoding, of a length below 2^64, are equal.
pub encode_injective :
    {v w : Json} (bytes : List ℕ)
    → Canonical v
    → Canonical w
    → encode v ≡ ok bytes
    → encode w ≡ ok bytes
    → length bytes < 2 ^ 64
    → v ≡ w
encode_injective {v} {w} bytes hv hw ev ew small = ok_injective (
    sym (decode_to_projection-encode bytes (length bytes) hv ev (omega arith) small)
    ∙ decode_to_projection-encode bytes (length bytes) hw ew (omega arith) small)
  where
    ok_injective : ok v ≡ ok w → v ≡ w
    ok_injective e = cc
