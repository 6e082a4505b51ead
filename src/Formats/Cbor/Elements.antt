-- ===== src/Formats/Cbor/Elements.antt =====
-- Arrays, and what arrays and maps share.
use sygaldreye.Common.{
  ℕ, zero, suc, ◌+◌, ◌*◌, ◌^◌, ◌≤◌, ◌<◌, ◌≡◌, refl, ap, List, [], ◌++◌, arith, length,
  length-append,
}
use mathlib.Core.List.{append_assoc}
use sygaldreye.Common.Outcome.{ok}
use sygaldreye.Formats.Cbor.Json.{Json, Items, array, nil, cons, size_items}
use sygaldreye.Formats.Cbor.Encode.{head, encode, encode_items}
use sygaldreye.Formats.Cbor.Decode.{value, elements}
use sygaldreye.Formats.Cbor.Canonical.{Reads, Coded}
use sygaldreye.Formats.Cbor.Reading.{length-head, value-array}
use sygaldreye.Formats.Cbor.Leaves.{with_fuel}

-- The elements of an array.
pub record CodedItems (xs : Items) : Type 0 where
  pub bytes : List ℕ
  pub writes : encode_items xs ≡ ok bytes
  pub reads :
      (rest : List ℕ) (fuel limit : ℕ)
      → 2 * length bytes + 1 < fuel
      → length (bytes ++ rest) ≤ limit
      → limit < 2 ^ 64
      → elements fuel limit (size_items xs) (bytes ++ rest) ≡ ok (xs, rest)

pub CodedItems-nil : CodedItems nil
unfolding encode elements
CodedItems-nil = record { bytes = []; writes = refl; reads = reads }
  where
    reads :
        (rest : List ℕ) (fuel limit : ℕ)
        → 1 < fuel
        → length rest ≤ limit
        → limit < 2 ^ 64
        → elements fuel limit 0 rest ≡ ok (nil, rest)
    reads rest zero limit e i b = absurd (omega arith)
    reads rest (suc fuel) limit e i b = refl

pub Coded-cons : {v : Json} {xs : Items} → Coded v → CodedItems xs → CodedItems (cons v xs)
unfolding encode elements
Coded-cons {v} {xs} c cs = record {
  bytes = c.bytes ++ cs.bytes;
  writes = rw (c.writes, cs.writes);
  reads = reads;
}
  where
    reads :
        (rest : List ℕ) (fuel limit : ℕ)
        → 2 * length (c.bytes ++ cs.bytes) + 1 < fuel
        → length ((c.bytes ++ cs.bytes) ++ rest) ≤ limit
        → limit < 2 ^ 64
        → elements fuel limit (suc (size_items xs)) ((c.bytes ++ cs.bytes) ++ rest)
          ≡ ok (cons v xs, rest)
    reads rest zero limit e i b = absurd (omega arith)
    reads rest (suc fuel) limit e i b = rw (
      append_assoc c.bytes cs.bytes rest,
      c.reads (cs.bytes ++ rest) fuel limit (omega (arith, e, long)) (omega (arith, i, whole)) b,
      cs.reads rest fuel limit (omega (arith, e, long, c.nonempty))
          (omega (arith, i, whole, length-append c.bytes (cs.bytes ++ rest))) b,
    )
      where
        long : length (c.bytes ++ cs.bytes) ≡ length c.bytes + length cs.bytes
        long = length-append c.bytes cs.bytes

        whole : length ((c.bytes ++ cs.bytes) ++ rest) ≡ length (c.bytes ++ (cs.bytes ++ rest))
        whole = ap (λ l. length l) (append_assoc c.bytes cs.bytes rest)

-- A counted sequence behind its head.
pub behind_head :
    {v : Json} (major n : ℕ) (body : List ℕ)
    → major < 8
    → ((rest : List ℕ) (fuel limit : ℕ)
        → 2 * length body + 1 < fuel
        → length (body ++ rest) ≤ limit
        → limit < 2 ^ 64
        → value (suc fuel) limit (head major n ++ (body ++ rest)) ≡ ok (v, rest))
    → Reads v (head major n ++ body)
behind_head {v} major n body small h = with_fuel (head major n ++ body) (λ rest fuel limit e i b.
    rw (append_assoc (head major n) body rest) (
      h rest fuel limit
        (omega (arith, e, length-head major n small, length-append (head major n) body))
        (omega (
          arith,
          i,
          length-append (head major n) (body ++ rest),
          ap (λ l. length l) (append_assoc (head major n) body rest),
        ))
        b))

pub Coded-array : (xs : Items) → size_items xs < 2 ^ 64 → CodedItems xs → Coded (array xs)
unfolding encode
Coded-array xs h c = record {
  bytes = head 4 (size_items xs) ++ c.bytes;
  writes = rw c.writes;
  nonempty = omega (
    arith,
    length-head 4 (size_items xs) (omega arith),
    length-append (head 4 (size_items xs)) c.bytes,
  );
  reads = behind_head 4 (size_items xs) c.bytes (omega arith) (λ rest fuel limit e i b.
      value-array fuel limit (size_items xs) (c.bytes ++ rest) h xs rest
        (c.reads rest fuel limit e i b));
}
