-- ===== src/Formats/Cbor/Heads.antt =====
-- The head of a data item: what is written and read back, for every major type and 64-bit argument.
use sygaldreye.Common.{
  ℕ, zero, suc, ◌+◌, ◌-◌, ◌*◌, ◌/◌, ◌%◌, ◌^◌, ◌≤◌, ◌<◌, ◌≡◌, refl, ap, ◌∙◌, List, [], ◌∷◌, ◌++◌,
  bit_or, bit_and, arith, ltb, lt→ltb, le→ltb_false, le→leb, length, length-append, take-append,
  drop-append, get_or, if◌then◌else◌,
}
use sygaldreye.Common.Bits.{bit_or_shift, bit_and_mask, two_pow_pos, mod_unique}
use sygaldreye.Common.Outcome.{Error, ok}
use sygaldreye.Formats.Cbor.Encode.{big_endian, head, extra_bytes, additional_info}
use sygaldreye.Formats.Cbor.Decode.{read_big_endian, arg, read_span}
use native.Mathlib.Numerals.{towards_suc}
use native.Mathlib.Nat.{mod-lt, mod-eq_of_lt, div-add-mod}
use native.Mathlib.Decide.{dec_lt}

pub push_octet : (v b : ℕ) → b < 256 → bit_or (v * 2 ^ 8 % 2 ^ 64) b ≡ v * 2 ^ 8 % 2 ^ 64 + b
push_octet v b h =
    omega (arith, bit_or_shift 8 (v % 2 ^ 56) b h, ap (λ (t : ℕ). bit_or t b) aligned)
  where
    aligned : v * 2 ^ 8 % 2 ^ 64 ≡ v % 2 ^ 56 * 2 ^ 8
    aligned = omega arith

octet_up : (i : ℕ) → 2 ^ (8 * suc i) ≡ 2 ^ (8 * i) * 256
octet_up i = rw (octets i) (simp towards_suc (omega arith))
  where
    octets : (i : ℕ) → 8 * suc i ≡ 8 * i + 8
    octets i = omega arith

-- A remainder by `q * 256`, from its digit and the rest.
mod_octet : (n q : ℕ) → 0 < q → n % (q * 256) ≡ n / q % 256 * q + n % q
mod_octet n q h =
    mod_unique n (q * 256) (n / q / 256) (n / q % 256 * q + n % q) small
      (omega (arith, div-add-mod n q, ap (λ (t : ℕ). q * t) (div-add-mod (n / q) 256)))
  where
    digit : n / q % 256 ≤ 255
    digit = omega arith

    scaled : n / q % 256 * q ≤ 255 * q
    scaled = grind (arith, digit)

    small : n / q % 256 * q + n % q < q * 256
    small = omega (arith, mod-lt n h, scaled)

pub read_big_endian-big_endian :
    (count v n : ℕ) (rest : List ℕ)
    → v * 2 ^ (8 * count) + n % 2 ^ (8 * count) < 2 ^ 64
    → read_big_endian count v (big_endian count n ++ rest)
      ≡ ok (v * 2 ^ (8 * count) + n % 2 ^ (8 * count), rest)
unfolding read_big_endian big_endian
read_big_endian-big_endian zero v n rest h = ap (λ (t : ℕ). ok (t, rest)) (omega arith)
read_big_endian-big_endian (suc i) v n rest h =
    rw (push_octet v (n / 2 ^ (8 * i) % 256) (omega arith), fits)
      (read_big_endian-big_endian i (v * 256 + n / 2 ^ (8 * i) % 256) n rest (omega (arith, whole))
        ∙ ap (λ (t : ℕ). ok (t, rest)) (omega (arith, whole)))
  where
    whole :
        (v * 256 + n / 2 ^ (8 * i) % 256) * 2 ^ (8 * i) + n % 2 ^ (8 * i)
        ≡ v * 2 ^ (8 * suc i) + n % 2 ^ (8 * suc i)
    whole = rw octet_up (omega (arith, mod_octet n (2 ^ (8 * i)) (two_pow_pos (8 * i))))

    top : v * 256 * 1 ≤ v * 256 * 2 ^ (8 * i)
    top = grind (arith, two_pow_pos (8 * i))

    fits : v * 2 ^ 8 % 2 ^ 64 ≡ v * 256
    fits = omega (arith, whole, top)

-- The first byte of a head, and the bytes behind it.
abbrev pub head_first : ℕ → ℕ → ℕ
head_first major n = major * 32 + (if ltb n 24 then n else get_or additional_info (extra_bytes n) 0)

abbrev pub head_tail : ℕ → List ℕ
head_tail n = if ltb n 24 then [] else big_endian (extra_bytes n) n

first_byte : (major x : ℕ) → major < 8 → x < 32 → bit_or (major * 2 ^ 5) x % 256 ≡ major * 32 + x
first_byte major x hm hx = omega (arith, bit_or_shift 5 major x hx)

info-lt : (n : ℕ) → get_or additional_info (extra_bytes n) 0 < 32
info-lt n = ground arith

pub head-cons : (major n : ℕ) → major < 8 → head major n ≡ head_first major n ∷ head_tail n
unfolding head
head-cons major n h = ground (
  arith,
  first_byte major n h,
  first_byte major (get_or additional_info (extra_bytes n) 0) h (info-lt n),
)

-- Only the low five bits of the first byte matter to `arg`.
arg_low_bits : (major x : ℕ) (bytes : List ℕ) → x < 32 → arg (major * 32 + x) bytes ≡ arg x bytes
unfolding arg
arg_low_bits major x bytes h = rw (low, low')
  where
    low : bit_and (major * 32 + x) 0x1f ≡ x
    low = omega (arith, bit_and_mask 5 (major * 32 + x))

    low' : bit_and x 0x1f ≡ x
    low' = omega (arith, bit_and_mask 5 x)

arg_small : (n : ℕ) (bytes : List ℕ) → n < 24 → arg n bytes ≡ ok (n, bytes)
unfolding arg
arg_small n bytes h = rw (low, lt→ltb n 24 h)
  where
    low : bit_and n 0x1f ≡ n
    low = omega (arith, bit_and_mask 5 n)

-- A number that was written in `count` bytes.
read_extra :
    (count n : ℕ) (rest : List ℕ)
    → n < 2 ^ (8 * count)
    → n < 2 ^ 64
    → read_big_endian count 0 (big_endian count n ++ rest) ≡ ok (n, rest)
read_extra count n rest h fits =
    read_big_endian-big_endian count 0 n rest (omega (arith, mod-eq_of_lt h))
    ∙ ap (λ (t : ℕ). ok (t, rest)) (omega (arith, mod-eq_of_lt h))

arg_wide :
    (n : ℕ) (rest : List ℕ)
    → 24 ≤ n
    → n < 2 ^ 64
    → arg (get_or additional_info (extra_bytes n) 0) (big_endian (extra_bytes n) n ++ rest)
      ≡ ok (n, rest)
unfolding arg
arg_wide n rest h fits = elim (dec_lt n (2 ^ 8)) [
  | yes p ↦ rw (lt→ltb n (2 ^ 8) p) (read_extra 1 n rest p fits)
  | no p ↦ rw (le→ltb_false n (2 ^ 8) (omega arith)) (elim (dec_lt n (2 ^ 16)) [
    | yes q ↦ rw (lt→ltb n (2 ^ 16) q) (read_extra 2 n rest q fits)
    | no q ↦ rw (le→ltb_false n (2 ^ 16) (omega arith)) (elim (dec_lt n (2 ^ 32)) [
      | yes r ↦ rw (lt→ltb n (2 ^ 32) r) (read_extra 4 n rest r fits)
      | no r ↦ rw (le→ltb_false n (2 ^ 32) (omega arith)) (read_extra 8 n rest fits fits)
    ])
  ])
]

-- The argument of every head reads back, and what follows it is left.
pub arg-head :
    (major n : ℕ) (rest : List ℕ)
    → n < 2 ^ 64
    → arg (head_first major n) (head_tail n ++ rest) ≡ ok (n, rest)
arg-head major n rest fits = elim (dec_lt n 24) [
  | yes p ↦ rw (lt→ltb n 24 p) (arg_low_bits major n rest (omega arith) ∙ arg_small n rest p)
  | no p ↦
      rw (le→ltb_false n 24 (omega arith))
        (arg_low_bits major _ _ (info-lt n) ∙ arg_wide n rest (omega arith) fits)
]

pub head_first-major : (major n : ℕ) → head_first major n / 32 ≡ major
head_first-major major n = elim (dec_lt n 24) [
  | yes p ↦ rw (lt→ltb n 24 p) (omega arith)
  | no p ↦ rw (le→ltb_false n 24 (omega arith)) (omega (arith, info-lt n))
]

-- A span that the buffer holds is read.
pub read_span-append :
    (limit : ℕ) (e : Error) (s rest : List ℕ)
    → length (s ++ rest) ≤ limit
    → limit < 2 ^ 64
    → read_span limit e (length s) (s ++ rest) ≡ ok (s, rest)
unfolding read_span
read_span-append limit e s rest h fits = rw (
  le→ltb_false limit _ inside,
  le→leb (length s) (length (s ++ rest)) (omega (arith, length-append s rest)),
  take-append s rest (length s) refl,
  drop-append s rest (length s) refl,
)
  where
    inside : (limit - length (s ++ rest) + length s) % 2 ^ 64 ≤ limit
    inside = omega (arith, length-append s rest)
