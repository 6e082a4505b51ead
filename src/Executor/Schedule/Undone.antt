-- ===== src/Executor/Schedule/Undone.antt =====
-- The count of the components that are not done.
use sygaldreye.Common.{
  ℕ, zero, suc, ◌+◌, ◌≤◌, ◌<◌, ◌≡◌, ◌≢◌, refl, ap, sym, ◌∙◌, Bool, true, false, Bool-cases, inl,
  inr, arith, if◌then◌else◌, ◌==◌, ==→eq, eq→==, ne→==, ltb, ltb→lt,
}
use sygaldreye.Executor.Schedule.{Vector, update}
use sygaldreye.Executor.Schedule.Counts.{true-ne-false}

-- How many components below a bound are not done.
unfoldable pub undone : Vector Bool → ℕ → ℕ
undone done zero = 0
undone done (suc k) = (if done k then 0 else 1) + undone done k

pub undone-some :
    (done : Vector Bool) (k : ℕ) → 0 < undone done k → (c : ℕ) × (c < k) × (done c ≡ false)
unfolding undone
undone-some done zero h = absurd (omega arith)
undone-some done (suc k) h = elim (Bool-cases (done k)) [
  | inr free ↦ (k, omega arith, free)
  | inl taken ↦
      let below : 0 < 0 + undone done k = rw taken at h in
      let r = undone-some done k (omega (arith, below)) in (r.0, omega (arith, r.1), r.2)
]

undone-above :
    (done : Vector Bool) (c k : ℕ) → k ≤ c → undone (update done c true) k ≡ undone done k
unfolding undone
undone-above done c zero h = refl
undone-above done c (suc k) h =
    rw (ne→== k c (λ e. absurd (omega (arith, h, e))))
      (ap (λ n. (if done k then 0 else 1) + n) (undone-above done c k (omega arith)))

pub undone-update :
    (done : Vector Bool) (c k : ℕ)
    → c < k
    → done c ≡ false
    → undone done k ≡ suc (undone (update done c true) k)
unfolding undone
undone-update done c zero h free = absurd (omega arith)
undone-update done c (suc k) h free = elim (Bool-cases (k == c)) [
  | inl here ↦
      let free_here : done k ≡ false = ap done (==→eq k c here) ∙ free in
      rw (here, free_here) (omega (arith, undone-above done c k (omega (arith, ==→eq k c here))))
  | inr other ↦
      rw other (omega (arith, undone-update done c k (omega (arith, not_equal k c other)) free))
]
  where
    not_equal : (a b : ℕ) → (a == b) ≡ false → a ≢ b
    not_equal a b n = λ e. true-ne-false (sym (eq→== a b e) ∙ n)

pub undone-all : (nc : ℕ) → undone (λ c. false) nc ≡ nc
unfolding undone
undone-all zero = refl
undone-all (suc k) = omega (arith, undone-all k)

-- One that is not done is counted.
pub undone-positive : (done : Vector Bool) (c k : ℕ) → c < k → done c ≡ false → 0 < undone done k
unfolding undone
undone-positive done c k h free = elim (Bool-cases (ltb 0 (undone done k))) [
  | inl some ↦ ltb→lt 0 (undone done k) some
  | inr nothing ↦
      absurd (omega (arith, undone-update done c k h free, nothing_left (undone done k) nothing))
]
  where
    nothing_left : (n : ℕ) → ltb 0 n ≡ false → n ≡ 0
    nothing_left n e = ground arith
