-- ===== src/Executor/Schedule/Forward.antt =====
-- The order of components that `scc_order` gives.
use sygaldreye.Common.{
  ℕ, zero, suc, ◌+◌, ◌<◌, ◌≡◌, refl, ap, sym, ◌∙◌, List, [], ◌∷◌, Bool, true, false, not, ◌&&◌,
  Bool-cases, inl, inr, Option, none, some, All, arith, length, ◌==◌, ==→eq, ◌⊎◌,
}
use mathlib.Core.Path.{subst}
use sygaldreye.Common.Outcome.{Outcome, ok, throws, schedule_stuck, ok_injective, ◌>>=◌, >>=-eq-ok}
use sygaldreye.Executor.Schedule.{
  Vector, update, Pair, has_pair, Emitting, first_at, or_second, pick, release, emit, emit_all,
}
use sygaldreye.Executor.Schedule.Counts.{
  waiting, Tallied, IsConstrained, release-released, waiting-update,
}

-- An edge into a component from another one that is not done.
abbrev pub blocks : Vector ℕ → Vector Bool → ℕ → Pair → Bool
blocks comp done c e = comp e.1 == c && (not (comp e.0 == comp e.1) && not (done (comp e.0)))

-- Components that are picked once, each when the components of all edges into it are done.
abbrev pub IsForward : Vector ℕ → List Pair → Vector Bool → List ℕ → Type 0
IsForward comp edges done [] = Unit {0}
IsForward comp edges done (c ∷ picks) =
    (done c ≡ false)
    × All (λ (e : Pair). blocks comp done c e ≡ false) edges
    × IsForward comp edges (update done c true) picks

first_at-some :
    (test : ℕ → Bool) (c left k : ℕ)
    → first_at test c left ≡ some k
    → (test k ≡ true) × (k < c + left)
first_at-some test c zero k h = cc
first_at-some test c (suc left) k h = elim (Bool-cases (test c)) [
  | inl here ↦
      let found : some c ≡ some k = rw here at h in
      let same : c ≡ k = cc in (ap test (sym same) ∙ here, omega (arith, same))
  | inr later ↦
      let onward : first_at test (suc c) left ≡ some k = rw later at h in
      let r = first_at-some test (suc c) left k onward in (r.0, omega (arith, r.1))
]

ready : (d a b : Bool) → (not d && (a && b)) ≡ true → (d ≡ false) × (a ≡ true)
ready false true true h = (refl, refl)
ready false true false h = cc
ready false false b h = cc
ready true a b h = cc

ready_hard : (d a : Bool) → (not d && a) ≡ true → (d ≡ false) × (a ≡ true)
ready_hard false true h = (refl, refl)
ready_hard false false h = cc
ready_hard true a h = cc

or_second-cases : (a b : Option ℕ) (k : ℕ) → or_second a b ≡ some k → (a ≡ some k) ⊎ (b ≡ some k)
or_second-cases none b k h = inr h
or_second-cases (some x) b k h = inl h

pub pick-some :
    (nc k : ℕ) (s : Emitting)
    → pick nc s ≡ some k
    → (s.done k ≡ false) × (s.hard_in k ≡ 0) × (k < nc)
unfolding pick
pick-some nc k s h = elim (or_second-cases _ _ k h) [
  | inl full ↦
      let r =
        first_at-some (λ c. not (s.done c) && (s.hard_in c == 0 && s.soft_in c == 0)) 0 nc k full in
      let p = ready (s.done k) (s.hard_in k == 0) (s.soft_in k == 0) r.0 in
      (p.0, ==→eq (s.hard_in k) 0 p.1, omega (arith, r.1))
  | inr hard ↦
      let r = first_at-some (λ c. not (s.done c) && s.hard_in c == 0) 0 nc k hard in
      let p = ready_hard (s.done k) (s.hard_in k == 0) r.0 in
      (p.0, ==→eq (s.hard_in k) 0 p.1, omega (arith, r.1))
]

-- Nothing waits: the sources of all constraints are done.
waiting-zero :
    (done : Vector Bool) (s c : ℕ) (pairs : List Pair)
    → waiting done c pairs ≡ 0
    → has_pair s c pairs ≡ true
    → done s ≡ true
unfolding waiting
waiting-zero done s c [] w h = cc
waiting-zero done s c ((a, b) ∷ pairs) w h = elim (Bool-cases (a == s && b == c)) [
  | inr later ↦ waiting-zero done s c pairs (omega (arith, w)) (rw later at h)
  | inl here ↦
      let parts = both (a == s) (b == c) here in
      elim (Bool-cases (done a)) [
        | inl is_done ↦ ap done (sym (==→eq a s parts.0)) ∙ is_done
        | inr undone ↦
            let counted : 1 + waiting done c pairs ≡ 0 = rw (parts.1, undone) at w in
            absurd (omega (arith, counted))
      ]
]
  where
    both : (x y : Bool) → (x && y) ≡ true → (x ≡ true) × (y ≡ true)
    both true true e = (refl, refl)
    both true false e = cc
    both false y e = cc

blocks-done :
    (comp : Vector ℕ) (pairs : List Pair) (done : Vector Bool) (c : ℕ) (e : Pair)
    → waiting done c pairs ≡ 0
    → IsConstrained comp pairs e
    → blocks comp done c e ≡ false
blocks-done comp pairs done c e w (inl inside) = rw inside (and_false (comp e.1 == c))
  where
    and_false : (a : Bool) → (a && false) ≡ false
    and_false true = refl
    and_false false = refl
blocks-done comp pairs done c e w (inr constrained) = elim (Bool-cases (comp e.1 == c)) [
  | inr elsewhere ↦ rw elsewhere
  | inl into ↦
      let is_done =
        waiting-zero done (comp e.0) c pairs w
          (ap (λ d. has_pair (comp e.0) d pairs) (sym (==→eq (comp e.1) c into)) ∙ constrained) in
      rw (into, is_done) (and_false (not (comp e.0 == comp e.1)))
]
  where
    and_false : (a : Bool) → (a && false) ≡ false
    and_false true = refl
    and_false false = refl

All-blocks :
    (comp : Vector ℕ) (pairs : List Pair) (done : Vector Bool) (c : ℕ) (edges : List Pair)
    → waiting done c pairs ≡ 0
    → All (IsConstrained comp pairs) edges
    → All (λ (e : Pair). blocks comp done c e ≡ false) edges
All-blocks comp pairs done c [] w h = tt
All-blocks comp pairs done c (e ∷ edges) w h =
    (blocks-done comp pairs done c e w h.0, All-blocks comp pairs done c edges w h.1)

-- A round of the loop that did not throw.
emit_all-inverse :
    (hard soft : List Pair) (nc left : ℕ) (s : Emitting) (picks : List ℕ)
    → emit_all hard soft nc (suc left) s ≡ ok picks
    → (c : ℕ) × (pick nc s ≡ some c)
      × ((rest : List ℕ) × (emit_all hard soft nc left (emit hard soft c s) ≡ ok rest)
          × (c ∷ rest ≡ picks))
unfolding emit_all
emit_all-inverse hard soft nc left s picks h = picked (pick nc s) refl h
  where
    picked :
        (p : Option ℕ)
        → pick nc s ≡ p
        → elim p as (λ x. Outcome (List ℕ)) [
          | none ↦ throws schedule_stuck
          | some c ↦ (do rest ← emit_all hard soft nc left (emit hard soft c s); ok (c ∷ rest))
        ]
          ≡ ok picks
        → (c : ℕ) × (pick nc s ≡ some c)
          × ((rest : List ℕ) × (emit_all hard soft nc left (emit hard soft c s) ≡ ok rest)
              × (c ∷ rest ≡ picks))
    picked none e g = cc
    picked (some c) e g =
        let got =
          >>=-eq-ok (λ rest. ok (c ∷ rest)) (emit_all hard soft nc left (emit hard soft c s)) g in
        (c, e, (got.0, got.1, ok_injective got.2))

pub emit_all-IsForward :
    (comp : Vector ℕ) (edges hard soft : List Pair) (nc left : ℕ) (s : Emitting) (picks : List ℕ)
    → All (IsConstrained comp hard) edges
    → Tallied s.done hard s.hard_in
    → emit_all hard soft nc left s ≡ ok picks
    → (length picks ≡ left) × All (λ (c : ℕ). c < nc) picks × IsForward comp edges s.done picks
unfolding emit_all
emit_all-IsForward comp edges hard soft nc zero s picks constrained tallied h =
    let e : [] ≡ picks = ok_injective h in
    (
      ap (λ l. length l) (sym e),
      subst (λ l. All (λ (c : ℕ). c < nc) l) e tt,
      subst (IsForward comp edges s.done) e tt,
    )
emit_all-IsForward comp edges hard soft nc (suc left) s picks constrained tallied h =
    let (c, e, (rest, emitted, split)) = emit_all-inverse hard soft nc left s picks h in
    let free = pick-some nc c s e in
    let waits : waiting s.done c hard ≡ 0 = sym (tallied c) ∙ free.1 in
    let onward : Tallied (update s.done c true) hard (release c hard s.hard_in) = λ d.
      release-released c d hard s.hard_in
      ∙ omega (arith, tallied d, waiting-update s.done c d hard free.0) in
    let r =
      emit_all-IsForward comp edges hard soft nc left (emit hard soft c s) rest constrained onward
        emitted in
    subst (λ l. (length l ≡ suc left) × All (λ (c : ℕ). c < nc) l × IsForward comp edges s.done l)
      split
      (
        ap suc r.0,
        (free.2, r.1),
        (free.0, All-blocks comp hard s.done c edges waits constrained, r.2),
      )
