-- ===== src/Common/Bits.antt =====
-- Shifts, masks and disjoint unions of bits as arithmetic, for every width.
use Prim.Native.Nat.{
  ℕ, zero, suc, ◌+◌, ◌*◌, ◌-◌, ◌/◌, ◌%◌, ◌^◌, ◌≤◌, ◌<◌, min, max, bit_and, bit_or, digits,
}
use Prim.Native.Nat.{bit_and-bitwise, bit_or-bitwise}
use mathlib.Core.Path.{◌≡◌, refl, ap, sym, ◌∙◌}
use mathlib.Core.Bool.{Bool, true, ◌&&◌}
use native.Mathlib.Nat.{
  pow-suc, pow-succ', pow-le-pow_right, div-div-eq-div-mul, add-mul-mod_self_left, mod-eq_of_lt,
  mod-lt, div-add-mod,
}
use native.Mathlib.Decide.{dec_lt}
use native.Mathlib.Omega.{arith}

-- `x >> k`.
abbrev pub shr : ℕ → ℕ → ℕ
shr x k = x / 2 ^ k

-- `x << k` on a word of `w` bits.
abbrev pub shl : ℕ → ℕ → ℕ → ℕ
shl w x k = x * 2 ^ k % 2 ^ w

-- The count of digits does not matter, as long as it is enough.
module _ (z : ℕ → ℕ) (f : ℕ → ℕ → ℕ) where
  digits-zero : (count b : ℕ) → digits z f count 0 b ≡ z b
  digits-zero zero b = refl
  digits-zero (suc count) b = refl

  digits_enough :
      (a count b count' : ℕ) → a ≤ count' → a ≤ count → digits z f count' a b ≡ digits z f count a b
  digits_enough zero count b count' p q = digits-zero count' b ∙ sym (digits-zero count b)
  digits_enough (suc a) zero b count' p q = elim q [ ]
  digits_enough (suc a) (suc count) b zero p q = elim p [ ]
  digits_enough (suc a) (suc count) b (suc count') p q =
      ap (λ (t : ℕ). t * 2 + f (suc a % 2) (b % 2))
        (digits_enough (suc a / 2) count (b / 2) count' (omega arith) (omega arith))

  lowest_digit :
      (a b : ℕ)
      → digits z f (suc a) (suc a) b
        ≡ digits z f (suc a / 2) (suc a / 2) (b / 2) * 2 + f (suc a % 2) (b % 2)
  lowest_digit a b =
      ap (λ (t : ℕ). t * 2 + f (suc a % 2) (b % 2))
        (digits_enough (suc a / 2) (suc a / 2) (b / 2) a (omega arith) (omega arith))

zero-bit_or : (b : ℕ) → bit_or 0 b ≡ b
zero-bit_or b = bit_or-bitwise 0 b

zero-bit_and : (b : ℕ) → bit_and 0 b ≡ 0
zero-bit_and b = bit_and-bitwise 0 b

-- The lowest digit of a union and of a mask.
bit_or_step : (a b : ℕ) → bit_or a b ≡ bit_or (a / 2) (b / 2) * 2 + max (a % 2) (b % 2)
bit_or_step zero b = omega (arith, zero-bit_or b, zero-bit_or (b / 2))
bit_or_step (suc a) b =
    bit_or-bitwise (suc a) b
    ∙ lowest_digit (λ b. b) max a b
    ∙ ap (λ (t : ℕ). t * 2 + max (suc a % 2) (b % 2)) (sym (bit_or-bitwise (suc a / 2) (b / 2)))

bit_and_step : (x y : ℕ) → bit_and x y ≡ min (x % 2) (y % 2) + 2 * bit_and (x / 2) (y / 2)
bit_and_step zero y = let none = zero-bit_and (y / 2) in omega (arith, none, zero-bit_and y)
bit_and_step (suc x) y = omega (arith, whole, bit_and-bitwise (suc x / 2) (y / 2))
  where
    whole :
        bit_and (suc x) y
        ≡ digits (λ d. zero) min (suc x / 2) (suc x / 2) (y / 2) * 2 + min (suc x % 2) (y % 2)
    whole = bit_and-bitwise (suc x) y ∙ lowest_digit (λ d. zero) min x y

bit_and-zero : (bound a : ℕ) → a < bound → bit_and a 0 ≡ 0
bit_and-zero zero a h = elim h [ ]
bit_and-zero (suc bound) zero h = zero-bit_and 0
bit_and-zero (suc bound) (suc a) h =
    let rest = bit_and-zero bound (suc a / 2) (omega arith) in
    omega (arith, rest, bit_and_step (suc a) 0)

bit_or-zero : (n a : ℕ) → a ≤ n → bit_or a 0 ≡ a
bit_or-zero n zero h = refl
bit_or-zero zero (suc a) h = absurd (omega arith)
bit_or-zero (suc n) (suc a) h =
    omega (arith, bit_or_step (suc a) 0, bit_or-zero n (suc a / 2) (omega arith))

pub two_pow_pos : (k : ℕ) → 0 < 2 ^ k
two_pow_pos zero = omega arith
two_pow_pos (suc k) = omega (arith, pow-suc 2 k, two_pow_pos k)

-- The remainder is the only small number that differs by a multiple.
pub mod_unique : (a m t r : ℕ) → r < m → a ≡ r + m * t → a % m ≡ r
mod_unique a m t r h e = rw (e, add-mul-mod_self_left) (mod-eq_of_lt h)

-- A remainder by an even number, from the last digit and the others.
mod_double : (a q : ℕ) → 0 < q → a % (q * 2) ≡ a / 2 % q * 2 + a % 2
mod_double a q h =
    mod_unique a (q * 2) (a / 2 / q) (a / 2 % q * 2 + a % 2) (omega (arith, mod-lt (a / 2) h))
      (omega (arith, div-add-mod (a / 2) q))

-- `x & (2^k - 1)` keeps the low `k` bits.
pub bit_and_mask : (k a : ℕ) → bit_and a (2 ^ k - 1) ≡ a % 2 ^ k
bit_and_mask zero a = omega (arith, bit_and-zero (suc a) a (omega arith))
bit_and_mask (suc k) a = omega (
  arith,
  bit_and_step a (2 ^ suc k - 1),
  ap (λ (t : ℕ). bit_and (a / 2) t) halved,
  odd,
  bit_and_mask k (a / 2),
  mod_double a (2 ^ k) (two_pow_pos k),
  ap (λ (t : ℕ). a % t) (pow-suc 2 k),
)
  where
    halved : (2 ^ suc k - 1) / 2 ≡ 2 ^ k - 1
    halved = omega (arith, pow-suc 2 k, two_pow_pos k)

    odd : (2 ^ suc k - 1) % 2 ≡ 1
    odd = omega (arith, pow-suc 2 k, two_pow_pos k)

-- `x << k | b` is a sum when `b` has at most `k` bits.
pub bit_or_shift : (k x b : ℕ) → b < 2 ^ k → bit_or (x * 2 ^ k) b ≡ x * 2 ^ k + b
bit_or_shift zero x b h =
    let none_set : b ≡ 0 = omega arith in
    rw none_set (omega (arith, bit_or-zero (x * 2 ^ 0) (x * 2 ^ 0) (omega arith)))
bit_or_shift (suc k) x b h = omega (
  arith,
  bit_or_step (x * 2 ^ suc k) b,
  ap (λ (t : ℕ). bit_or t (b / 2)) halved,
  twice,
  bit_or_shift k x (b / 2) (omega (arith, pow-suc 2 k)),
)
  where
    twice : x * 2 ^ suc k ≡ x * 2 ^ k * 2
    twice = rw pow-suc (omega arith)

    halved : x * 2 ^ suc k / 2 ≡ x * 2 ^ k
    halved = omega (arith, twice)

-- The same union with its operands the other way round.
pub bit_or_under : (k x b : ℕ) → b < 2 ^ k → bit_or b (x * 2 ^ k) ≡ x * 2 ^ k + b
bit_or_under zero x b h =
    let none_set : b ≡ 0 = omega arith in rw none_set (omega (arith, zero-bit_or (x * 2 ^ 0)))
bit_or_under (suc k) x b h = omega (
  arith,
  bit_or_step b (x * 2 ^ suc k),
  ap (λ (t : ℕ). bit_or (b / 2) t) halved,
  twice,
  bit_or_under k x (b / 2) (omega (arith, pow-suc 2 k)),
)
  where
    twice : x * 2 ^ suc k ≡ x * 2 ^ k * 2
    twice = rw pow-suc (omega arith)

    halved : x * 2 ^ suc k / 2 ≡ x * 2 ^ k
    halved = omega (arith, twice)

bit_and_even : (b c : ℕ) → bit_and b (c * 2) ≡ bit_and (b / 2) c * 2
bit_and_even b c = omega (arith, bit_and_step b (c * 2), ap (λ (t : ℕ). bit_and (b / 2) t) halved)
  where
    halved : c * 2 / 2 ≡ c
    halved = omega arith

bit_or_even : (b c : ℕ) → bit_or b (c * 2) ≡ bit_or (b / 2) c * 2 + b % 2
bit_or_even b c = omega (arith, bit_or_step b (c * 2), ap (λ (t : ℕ). bit_or (b / 2) t) halved)
  where
    halved : c * 2 / 2 ≡ c
    halved = omega arith

bit_or_odd : (b : ℕ) → bit_or b 1 % 2 ≡ 1
bit_or_odd b = omega (arith, bit_or_step b 1)

-- A remainder by an even number, from a number given by its last digit.
mod_of_halves : (a x r q : ℕ) → 0 < q → a ≡ x * 2 + r → r < 2 → a % (q * 2) ≡ x % q * 2 + r
mod_of_halves a x r q h e small =
    mod_unique a (q * 2) (x / q) (x % q * 2 + r) (omega (arith, mod-lt x h))
      (omega (arith, div-add-mod x q))

-- A test of bit `k`.
bit_and_bit : (k b : ℕ) → bit_and b (2 ^ k) ≡ b / 2 ^ k % 2 * 2 ^ k
bit_and_bit zero b = omega (arith, bit_and_mask 1 b)
bit_and_bit (suc k) b = omega (
  arith,
  bit_and_even b (2 ^ k),
  ap (λ (t : ℕ). bit_and b t) (pow-suc 2 k),
  bit_and_bit k (b / 2),
  ap (λ (t : ℕ). t % 2 * 2 ^ k) shifted,
  ap (λ (t : ℕ). b / 2 ^ suc k % 2 * t) (pow-suc 2 k),
)
  where
    shifted : b / 2 / 2 ^ k ≡ b / 2 ^ suc k
    shifted = rw (div-div-eq-div-mul, pow-succ')

-- Bit `k` set, in the low `k + 1` bits.
bit_or_bit : (k b : ℕ) → bit_or b (2 ^ k) % 2 ^ suc k ≡ b % 2 ^ k + 2 ^ k
bit_or_bit zero b = omega (arith, bit_or_odd b)
bit_or_bit (suc k) b =
    ap (λ (t : ℕ). bit_or b (2 ^ suc k) % t) (pow-suc 2 (suc k))
    ∙ mod_of_halves _ (bit_or (b / 2) (2 ^ k)) (b % 2) (2 ^ suc k) (two_pow_pos (suc k)) split
        (omega arith)
    ∙ ap (λ (t : ℕ). t * 2 + b % 2) (bit_or_bit k (b / 2))
    ∙ omega (
      arith,
      mod_double b (2 ^ k) (two_pow_pos k),
      pow-suc 2 k,
      ap (λ (t : ℕ). b % t) (pow-suc 2 k),
    )
  where
    split : bit_or b (2 ^ suc k) ≡ bit_or (b / 2) (2 ^ k) * 2 + b % 2
    split = omega (arith, bit_or_even b (2 ^ k), ap (λ (t : ℕ). bit_or b t) (pow-suc 2 k))

pub bit_and_top : (b : ℕ) → bit_and b 0x80 ≡ b / 128 % 2 * 128
bit_and_top = bit_and_bit 7

pub bit_or_top : (b : ℕ) → bit_or b 0x80 % 256 ≡ b % 128 + 128
bit_or_top = bit_or_bit 7

-- A power of two below another has the smaller exponent.
pub exponent_lt : (s k : ℕ) → 2 ^ s < 2 ^ k → s < k
exponent_lt s k h = elim (dec_lt s k) [
  | yes p ↦ p
  | no p ↦
      absurd (omega (arith, pow-le-pow_right {n = 2} (omega arith) {i = k} {j = s} (omega arith)))
]

-- A statement about every number of a small range, by evaluation.
module _ (test : ℕ → Bool) where
  unfoldable pub holds_below : ℕ → Bool
  holds_below zero = true
  holds_below (suc bound) = holds_below bound && test bound

  pub test_of_holds_below : (x bound : ℕ) → x < bound → holds_below bound ≡ true → test x ≡ true
  unfolding holds_below
  test_of_holds_below x zero lt h = elim lt [ ]
  test_of_holds_below x (suc bound) lt h = ground (arith, test_of_holds_below x bound)
