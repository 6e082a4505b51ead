-- ===== src/Formats/Cbor/Leaves.antt =====
-- Values that hold no other value: their encodings, and the way back.
use sygaldreye.Common.{
  ℕ, zero, suc, ◌+◌, ◌*◌, ◌^◌, ◌≤◌, ◌<◌, ◌≡◌, refl, ap, List, [], ◌∷◌, ◌++◌, arith, All, IsByte,
  length, length-append, Bool, true, false,
}
use mathlib.Core.List.{append_assoc}
use sygaldreye.Common.Outcome.{ok}
use sygaldreye.Formats.Base32.{cid_to_text}
use sygaldreye.Formats.Base64.RoundTrip.{base64_decode-base64_encode}
use sygaldreye.Formats.Cbor.Json.{
  Json, null, boolean, unsigned, integer, floating, string, object, negative, link_object,
}
use sygaldreye.Formats.Cbor.Encode.{
  head, big_endian, not_finite, float_bytes, integer_bytes, object_bytes, encode,
  projection_of_bytes,
}
use sygaldreye.Formats.Cbor.Decode.{value_of, value, byte, simple}
use sygaldreye.Formats.Cbor.Canonical.{Reads, Coded}
use sygaldreye.Formats.Cbor.Reading.{
  length-head, value-unsigned, value-negative, value-floating, value-string, value-bytes,
  value-link, cid_from_text-cid_to_text,
}

-- A reader with fuel left.
pub with_fuel :
    {v : Json} (bytes : List ℕ)
    → ((rest : List ℕ) (fuel limit : ℕ)
        → 2 * length bytes < suc fuel
        → length (bytes ++ rest) ≤ limit
        → limit < 2 ^ 64
        → value (suc fuel) limit (bytes ++ rest) ≡ ok (v, rest))
    → Reads v bytes
with_fuel bytes h rest zero limit enough inside bounded = absurd (omega arith)
with_fuel bytes h rest (suc fuel) limit enough inside bounded =
    h rest fuel limit enough inside bounded

pub Coded-null : Coded null
unfolding encode value value_of byte simple
Coded-null = record {
  bytes = 0xf6 ∷ [];
  writes = refl;
  nonempty = omega arith;
  reads = with_fuel (0xf6 ∷ []) (λ rest fuel limit e i b. refl);
}

pub Coded-boolean : (b : Bool) → Coded (boolean b)
unfolding encode value value_of byte simple
Coded-boolean true = record {
  bytes = 0xf5 ∷ [];
  writes = refl;
  nonempty = omega arith;
  reads = with_fuel (0xf5 ∷ []) (λ rest fuel limit e i b. refl);
}
Coded-boolean false = record {
  bytes = 0xf4 ∷ [];
  writes = refl;
  nonempty = omega arith;
  reads = with_fuel (0xf4 ∷ []) (λ rest fuel limit e i b. refl);
}

pub Coded-unsigned : (n : ℕ) → n < 2 ^ 64 → Coded (unsigned n)
unfolding encode
Coded-unsigned n h = record {
  bytes = head 0 n;
  writes = refl;
  nonempty = length-head 0 n (omega arith);
  reads = with_fuel _ (λ rest fuel limit e i b. value-unsigned fuel limit n rest h);
}

pub Coded-negative : (n : ℕ) → n < 2 ^ 63 → Coded (integer (negative n))
unfolding encode integer_bytes
Coded-negative n h = record {
  bytes = head 1 n;
  writes = refl;
  nonempty = length-head 1 n (omega arith);
  reads = with_fuel _ (λ rest fuel limit e i b. value-negative fuel limit n rest (omega arith) h);
}

pub Coded-floating : (u : ℕ) → u < 2 ^ 64 → not_finite u ≡ false → Coded (floating u)
unfolding encode float_bytes
Coded-floating u h finite = record {
  bytes = 0xfb ∷ big_endian 8 u;
  writes = rw finite;
  nonempty = omega arith;
  reads =
      with_fuel (0xfb ∷ big_endian 8 u)
        (λ rest fuel limit e i b. value-floating fuel limit u rest h);
}

-- The bytes of a head and a span, as the reader meets them.
span-Reads :
    {v : Json} (major : ℕ) (s : List ℕ)
    → ((fuel limit : ℕ) (rest : List ℕ)
        → length (s ++ rest) ≤ limit
        → limit < 2 ^ 64
        → value (suc fuel) limit (head major (length s) ++ (s ++ rest)) ≡ ok (v, rest))
    → Reads v (head major (length s) ++ s)
span-Reads {v} major s h = with_fuel _ (λ rest fuel limit e i b.
    rw (append_assoc (head major (length s)) s rest) (
      h fuel limit rest
        (omega (
          arith,
          i,
          length-append (head major (length s)) (s ++ rest),
          ap (λ l. length l) (append_assoc (head major (length s)) s rest),
        ))
        b))

pub string-Reads : (s : List ℕ) → length s < 2 ^ 64 → Reads (string s) (head 3 (length s) ++ s)
string-Reads s h = span-Reads 3 s (λ fuel limit rest i b. value-string fuel limit s rest h i b)

pub Coded-string : (s : List ℕ) → length s < 2 ^ 64 → Coded (string s)
unfolding encode
Coded-string s h = record {
  bytes = head 3 (length s) ++ s;
  writes = refl;
  nonempty =
      omega (arith, length-head 3 (length s) (omega arith), length-append (head 3 (length s)) s);
  reads = string-Reads s h;
}

pub Coded-bytes : (b : List ℕ) → length b < 2 ^ 64 → All IsByte b → Coded (projection_of_bytes b)
unfolding encode object_bytes projection_of_bytes
Coded-bytes b h k = record {
  bytes = head 2 (length b) ++ b;
  writes = rw (base64_decode-base64_encode b k);
  nonempty =
      omega (arith, length-head 2 (length b) (omega arith), length-append (head 2 (length b)) b);
  reads = span-Reads 2 b (λ fuel limit rest i d. value-bytes fuel limit b rest h i d);
}

-- A link's bytes behind the tag.
abbrev span_of : List ℕ → List ℕ
span_of cid = head 2 (suc (length cid)) ++ (0x00 ∷ cid)

pub Coded-link :
    (cid : List ℕ)
    → length cid + 1 < 2 ^ 64
    → All IsByte cid
    → Coded (object (link_object (cid_to_text cid)))
unfolding encode object_bytes
Coded-link cid h k = record {
  bytes = head 6 42 ++ span_of cid;
  writes = rw (cid_from_text-cid_to_text cid k, counted);
  nonempty = omega (arith, length-head 6 42 (omega arith), length-append (head 6 42) (span_of cid));
  reads = with_fuel (head 6 42 ++ span_of cid) reads;
}
  where
    counted : length cid + 1 ≡ suc (length cid)
    counted = omega arith

    inner : Reads (projection_of_bytes (0 ∷ cid)) (span_of cid)
    inner =
        span-Reads 2 (0 ∷ cid)
          (λ fuel limit rest i d. value-bytes fuel limit (0 ∷ cid) rest (omega arith) i d)

    reads :
        (rest : List ℕ) (fuel limit : ℕ)
        → 2 * length (head 6 42 ++ span_of cid) < suc fuel
        → length ((head 6 42 ++ span_of cid) ++ rest) ≤ limit
        → limit < 2 ^ 64
        → value (suc fuel) limit ((head 6 42 ++ span_of cid) ++ rest)
          ≡ ok (object (link_object (cid_to_text cid)), rest)
    reads rest fuel limit e i b = rw (append_assoc (head 6 42) (span_of cid) rest) (
        value-link fuel limit cid (span_of cid ++ rest) rest k (
          inner rest fuel limit
            (omega
              (arith, e, length-head 6 42 (omega arith), length-append (head 6 42) (span_of cid)))
            (omega (
              arith,
              i,
              length-append (head 6 42) (span_of cid ++ rest),
              ap (λ l. length l) (append_assoc (head 6 42) (span_of cid) rest),
            ))
            b))
