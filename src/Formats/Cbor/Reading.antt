-- ===== src/Formats/Cbor/Reading.antt =====
-- The reader on one item, after the writer.
use sygaldreye.Common.{
  ℕ, suc, ◌^◌, ◌≤◌, ◌<◌, ◌≡◌, ap, List, ◌∷◌, ◌++◌, arith, All, IsByte, length, lt→ltb,
}
use sygaldreye.Common.Outcome.{ok, truncated_bytes, truncated_string}
use sygaldreye.Formats.Base32.{cid_to_text, cid_from_text}
use sygaldreye.Formats.Base32.RoundTrip.{mb32_decode-mb32_encode}
use sygaldreye.Formats.Base64.RoundTrip.{base64_decode-base64_encode}
use sygaldreye.Formats.Cbor.Json.{
  Items, Fields, unsigned, integer, floating, string, array, object, negative, link_object, end,
}
use sygaldreye.Formats.Cbor.Encode.{head, bytes_of_projection, projection_of_bytes, big_endian}
use sygaldreye.Formats.Cbor.Decode.{
  byte, read_big_endian, arg, negated, simple, value_of, value, elements, entries,
}
use sygaldreye.Formats.Cbor.Heads.{
  head-cons, head_first-major, arg-head, read_big_endian-big_endian, read_span-append,
}

pub length-head : (major n : ℕ) → major < 8 → 1 ≤ length (head major n)
length-head major n h = rw (head-cons major n h) (omega arith)

module _ (fuel limit n : ℕ) (rest : List ℕ) (fits : n < 2 ^ 64) where
  pub value-unsigned : value (suc fuel) limit (head 0 n ++ rest) ≡ ok (unsigned n, rest)
  unfolding value value_of byte
  value-unsigned = rw (head-cons 0 n (omega arith), head_first-major 0 n, arg-head 0 n rest fits)

  pub value-negative :
      n < 2 ^ 63 → value (suc fuel) limit (head 1 n ++ rest) ≡ ok (integer (negative n), rest)
  unfolding value value_of byte negated
  value-negative h = rw (
    head-cons 1 n (omega arith),
    head_first-major 1 n,
    arg-head 1 n rest fits,
    lt→ltb n (2 ^ 63) h,
  )

  pub value-array :
      (xs : Items) (after : List ℕ)
      → elements fuel limit n rest ≡ ok (xs, after)
      → value (suc fuel) limit (head 4 n ++ rest) ≡ ok (array xs, after)
  unfolding value value_of byte
  value-array xs after e =
      rw (head-cons 4 n (omega arith), head_first-major 4 n, arg-head 4 n rest fits, e)

  pub value-object :
      (fs : Fields) (after : List ℕ)
      → entries fuel limit n end rest ≡ ok (fs, after)
      → value (suc fuel) limit (head 5 n ++ rest) ≡ ok (object fs, after)
  unfolding value value_of byte
  value-object fs after e =
      rw (head-cons 5 n (omega arith), head_first-major 5 n, arg-head 5 n rest fits, e)

pub value-floating :
    (fuel limit u : ℕ) (rest : List ℕ)
    → u < 2 ^ 64
    → value (suc fuel) limit (0xfb ∷ (big_endian 8 u ++ rest)) ≡ ok (floating u, rest)
unfolding value value_of byte simple
value-floating fuel limit u rest h =
    rw (read_big_endian-big_endian 8 0 u rest (omega arith))
      (ap (λ (t : ℕ). ok (floating t, rest)) (omega arith))

-- A span behind its head.
module _ (fuel limit : ℕ) (s rest : List ℕ) (fits : length s < 2 ^ 64)
    (inside : length (s ++ rest) ≤ limit) (bounded : limit < 2 ^ 64) where
  pub value-string : value (suc fuel) limit (head 3 (length s) ++ (s ++ rest)) ≡ ok (string s, rest)
  unfolding value value_of byte
  value-string = rw (
    head-cons 3 (length s) (omega arith),
    head_first-major 3 (length s),
    arg-head 3 (length s) (s ++ rest) fits,
    read_span-append limit truncated_string s rest inside bounded,
  )

  pub value-bytes :
      value (suc fuel) limit (head 2 (length s) ++ (s ++ rest)) ≡ ok (projection_of_bytes s, rest)
  unfolding value value_of byte
  value-bytes = rw (
    head-cons 2 (length s) (omega arith),
    head_first-major 2 (length s),
    arg-head 2 (length s) (s ++ rest) fits,
    read_span-append limit truncated_bytes s rest inside bounded,
  )

pub bytes_of_projection-projection_of_bytes :
    (b : List ℕ) → All IsByte b → bytes_of_projection (projection_of_bytes b) ≡ ok b
unfolding bytes_of_projection projection_of_bytes
bytes_of_projection-projection_of_bytes b h = base64_decode-base64_encode b h

pub cid_from_text-cid_to_text :
    (cid : List ℕ) → All IsByte cid → cid_from_text (cid_to_text cid) ≡ ok cid
unfolding cid_from_text cid_to_text
cid_from_text-cid_to_text cid h = mb32_decode-mb32_encode cid h

pub value-link :
    (fuel limit : ℕ) (cid bytes rest : List ℕ)
    → All IsByte cid
    → value fuel limit bytes ≡ ok (projection_of_bytes (0 ∷ cid), rest)
    → value (suc fuel) limit (head 6 42 ++ bytes)
      ≡ ok (object (link_object (cid_to_text cid)), rest)
unfolding value value_of byte head big_endian arg read_big_endian
value-link fuel limit cid bytes rest h e =
    rw (e, bytes_of_projection-projection_of_bytes (0 ∷ cid) (omega arith, h))
