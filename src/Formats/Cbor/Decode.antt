-- ===== src/Formats/Cbor/Decode.antt =====
-- The reader. Its pointers are addresses of 64 bits: `limit` is that of the end of the buffer, and
-- the bytes left give that of `p`.
use sygaldreye.Common.{
  ℕ, zero, suc, ◌+◌, ◌-◌, ◌*◌, ◌/◌, ◌%◌, ◌^◌, List, [], ◌∷◌, true, false, ltb, leb, ◌==◌, bit_or,
  bit_and, length, take, drop, if◌then◌else◌,
}
use sygaldreye.Common.Bits.{shl}
use sygaldreye.Common.Outcome.{
  Outcome, Error, ok, throws, fault, stuck, ◌>>=◌, require, ◌>>◌, truncated, truncated_bytes,
  truncated_string, indefinite_length, non_string_key, only_tag_42, no_identity_prefix,
  unsupported_simple, trailing_bytes,
}
use sygaldreye.Formats.Base32.{cid_to_text}
use sygaldreye.Formats.Cbor.Json.{
  Int64, nonnegative, negative, Json, Items, Fields, null, boolean, unsigned, integer, floating,
  string, array, object, nil, cons, end, put_field, link_object,
}
use sygaldreye.Formats.Cbor.Encode.{bytes_of_projection, projection_of_bytes}

-- A reader's result: a value, and the bytes left.
abbrev pub Read {ℓ} : Type ℓ → Type ℓ
Read A = Outcome (A × List ℕ)

unfoldable pub byte : List ℕ → Read ℕ
byte [] = throws truncated
byte (b ∷ rest) = ok (b, rest)

-- `for (i < count) v = v << 8 | byte();`
unfoldable pub read_big_endian : ℕ → ℕ → List ℕ → Read ℕ
unfolding byte
read_big_endian zero v bytes = ok (v, bytes)
read_big_endian (suc count) v bytes = do
  (b, rest) ← byte bytes
  read_big_endian count (bit_or (shl 64 v 8) b) rest

unfoldable pub arg : ℕ → List ℕ → Read ℕ
unfolding read_big_endian
arg head bytes =
    let ai = bit_and head 0x1f in
    if ltb ai 24
    then ok (ai, bytes)
    else if ai == 24
    then read_big_endian 1 0 bytes
    else if ai == 25
    then read_big_endian 2 0 bytes
    else if ai == 26
    then read_big_endian 4 0 bytes
    else if ai == 27
    then read_big_endian 8 0 bytes
    else throws indefinite_length

-- `-1 - static_cast<int64_t>(n)`: from 2^63 on, the cast is negative.
unfoldable pub negated : ℕ → Int64
negated n = if ltb n (2 ^ 63) then negative n else nonnegative (2 ^ 64 - 1 - n)

-- `if (p + n > end) throw …;` and the read of `n` bytes behind it. The sum wraps at 2^64, and the
-- read then runs out of the buffer.
unfoldable pub read_span : ℕ → Error → ℕ → List ℕ → Read (List ℕ)
read_span limit e n bytes =
    if ltb limit ((limit - length bytes + n) % 2 ^ 64)
    then throws e
    else if leb n (length bytes)
    then ok (take n bytes, drop n bytes)
    else fault

abbrev pub key_text : Json → Outcome (List ℕ)
key_text (string k) = ok k
key_text v = throws non_string_key

abbrev pub link_of : List ℕ → Outcome Json
link_of [] = throws no_identity_prefix
link_of (z ∷ cid) =
    if z == 0x00 then ok (object (link_object (cid_to_text cid))) else throws no_identity_prefix

unfoldable pub simple : ℕ → List ℕ → Read Json
unfolding read_big_endian
simple head bytes =
    if head == 0xf6
    then ok (null, bytes)
    else if head == 0xf5
    then ok (boolean true, bytes)
    else if head == 0xf4
    then ok (boolean false, bytes)
    else if head == 0xfb
    then (do (u, rest) ← read_big_endian 8 0 bytes; ok (floating u, rest))
    else throws unsupported_simple

-- The cases of `value` by the major type, given the recursive reads.
unfoldable pub value_of :
    ℕ
    → (List ℕ → Read Json)
    → (ℕ → List ℕ → Read Items)
    → (ℕ → Fields → List ℕ → Read Fields)
    → ℕ
    → List ℕ
    → Read Json
unfolding arg negated read_span simple
value_of limit read_value read_items read_fields head bytes =
    let major = head / 2 ^ 5 in
    if major == 0
    then (do (n, rest) ← arg head bytes; ok (unsigned n, rest))
    else if major == 1
    then (do (n, rest) ← arg head bytes; ok (integer (negated n), rest))
    else if major == 2
    then (do
      (n, rest) ← arg head bytes
      (b, rest') ← read_span limit truncated_bytes n rest
      ok (projection_of_bytes b, rest'))
    else if major == 3
    then (do
      (n, rest) ← arg head bytes
      (s, rest') ← read_span limit truncated_string n rest
      ok (string s, rest'))
    else if major == 4
    then (do (n, rest) ← arg head bytes; (xs, rest') ← read_items n rest; ok (array xs, rest'))
    else if major == 5
    then (do
      (n, rest) ← arg head bytes
      (fs, rest') ← read_fields n end rest
      ok (object fs, rest'))
    else if major == 6
    then (do
      (n, rest) ← arg head bytes
      require (n == 42) only_tag_42
      (inner, rest') ← read_value rest
      raw ← bytes_of_projection inner
      v ← link_of raw
      ok (v, rest'))
    else simple head bytes

-- `value`, and the loops of its arrays and maps. The fuel is for the depth of the calls and the
-- rounds of the loops together; each round reads a byte or throws.
unfoldable mutual
  unfolding byte value_of

  pub value : ℕ → ℕ → List ℕ → Read Json
  value zero limit bytes = stuck
  value (suc fuel) limit bytes = do
    (head, rest) ← byte bytes
    value_of limit (value fuel limit) (elements fuel limit) (entries fuel limit) head rest

  pub elements : ℕ → ℕ → ℕ → List ℕ → Read Items
  elements zero limit n bytes = stuck
  elements (suc fuel) limit zero bytes = ok (nil, bytes)
  elements (suc fuel) limit (suc n) bytes = do
    (v, rest) ← value fuel limit bytes
    (xs, rest') ← elements fuel limit n rest
    ok (cons v xs, rest')

  pub entries : ℕ → ℕ → ℕ → Fields → List ℕ → Read Fields
  entries zero limit n out bytes = stuck
  entries (suc fuel) limit zero out bytes = ok (out, bytes)
  entries (suc fuel) limit (suc n) out bytes = do
    (k, rest) ← value fuel limit bytes
    key ← key_text k
    (v, rest') ← value fuel limit rest
    entries fuel limit n (put_field key v out) rest'

-- `decode_to_projection`, of a buffer that ends at the address `limit`.
unfoldable pub decode_to_projection : ℕ → List ℕ → Outcome Json
unfolding value
decode_to_projection limit bytes = do
  (v, rest) ← value (2 * length bytes + 1) limit bytes
  require (length rest == 0) trailing_bytes
  ok v
