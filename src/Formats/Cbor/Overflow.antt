-- ===== src/Formats/Cbor/Overflow.antt =====
-- The two places where the reader's machine arithmetic leaves the numbers.
use sygaldreye.Common.{
  ℕ, suc, ◌+◌, ◌-◌, ◌*◌, ◌%◌, ◌^◌, ◌≤◌, ◌<◌, ◌≡◌, List, [], ◌∷◌, ◌++◌, arith, length, le→ltb_false,
  lt→leb_false,
}
use sygaldreye.Common.Outcome.{ok, fault, Error}
use sygaldreye.Formats.Cbor.Json.{nonnegative, integer}
use sygaldreye.Formats.Cbor.Encode.{head}
use sygaldreye.Formats.Cbor.Decode.{byte, negated, read_span, value_of, value, decode_to_projection}
use sygaldreye.Formats.Cbor.Heads.{head_first, head_tail, head-cons, head_first-major, arg-head}
use mathlib.Core.List.{append-nil}

-- The head of a negative integer below -2^63 is read as a number that is not negative.
pub decode_to_projection-below_int64 :
    (limit n : ℕ)
    → 2 ^ 63 ≤ n
    → n < 2 ^ 64
    → decode_to_projection limit (head 1 n) ≡ ok (integer (nonnegative (2 ^ 64 - 1 - n)))
unfolding decode_to_projection value value_of byte negated
decode_to_projection-below_int64 limit n big fits = rw (
  head-cons 1 n (omega arith),
  fuel_left,
  head_first-major 1 n,
  read,
  le→ltb_false n (2 ^ 63) big,
)
  where
    fuel_left : 2 * length (head_first 1 n ∷ head_tail n) + 1 ≡ suc (2 * length (head_tail n) + 2)
    fuel_left = omega arith

    read : sygaldreye.Formats.Cbor.Decode.arg (head_first 1 n) (head_tail n) ≡ ok (n, [])
    read = rw (← append-nil (head_tail n)) (arg-head 1 n [] fits)

read_span_wraps :
    (limit : ℕ) (e : Error) (n : ℕ) (rest : List ℕ)
    → length rest ≤ limit
    → limit < 2 ^ 64
    → n < 2 ^ 64
    → 2 ^ 64 ≤ limit - length rest + n
    → read_span limit e n rest ≡ fault
unfolding read_span
read_span_wraps limit e n rest inside bounded fits wraps =
    rw (le→ltb_false limit _ low, lt→leb_false n (length rest) (omega arith))
  where
    low : (limit - length rest + n) % 2 ^ 64 ≤ limit
    low = omega arith

-- A byte string whose length carries the pointer past 2^64 passes the check of its end, and the
-- read runs out of the buffer.
pub decode_to_projection-wraps :
    (limit n : ℕ) (rest : List ℕ)
    → length rest ≤ limit
    → limit < 2 ^ 64
    → n < 2 ^ 64
    → 2 ^ 64 ≤ limit - length rest + n
    → decode_to_projection limit (head 2 n ++ rest) ≡ fault
unfolding decode_to_projection value value_of byte
decode_to_projection-wraps limit n rest inside bounded fits wraps = rw (
  head-cons 2 n (omega arith),
  fuel_left,
  head_first-major 2 n,
  arg-head 2 n rest fits,
  read_span_wraps limit _ n rest inside bounded fits wraps,
)
  where
    fuel_left :
        2 * length (head_first 2 n ∷ (head_tail n ++ rest)) + 1
        ≡ suc (2 * length (head_tail n ++ rest) + 2)
    fuel_left = omega arith
