-- ===== src/Executor/Schedule/Counts.antt =====
-- The counts of the constraints between components.
use sygaldreye.Common.{
  ℕ, suc, ◌+◌, ◌-◌, ◌≡◌, ap, sym, ◌∙◌, List, [], ◌∷◌, ◌++◌, Bool, true, false, not, ◌&&◌,
  Bool-cases, inl, inr, All, arith, if◌then◌else◌, ◌==◌, ==→eq, eq→==, ne→==, ==_refl, ◌⊎◌,
}
use sygaldreye.Executor.Schedule.{
  Vector, update, Pair, Constraints, has_pair, constrain, hard_from, release,
}

-- How many constraints into a component wait for one that is not done.
unfoldable pub waiting : Vector Bool → ℕ → List Pair → ℕ
waiting done c [] = 0
waiting done c ((s, d) ∷ pairs) = (if d == c && not (done s) then 1 else 0) + waiting done c pairs

-- How many of them are from one component.
unfoldable pub released : ℕ → ℕ → List Pair → ℕ
released from c [] = 0
released from c ((s, d) ∷ pairs) = (if s == from && d == c then 1 else 0) + released from c pairs

waiting-append :
    (done : Vector Bool) (c : ℕ) (ps qs : List Pair)
    → waiting done c (ps ++ qs) ≡ waiting done c ps + waiting done c qs
unfolding waiting
waiting-append done c [] qs = omega arith
waiting-append done c ((s, d) ∷ ps) qs = omega (arith, waiting-append done c ps qs)

pub true-ne-false : true ≡ false → ⊥
true-ne-false p = cc

one_down :
    (into : Vector ℕ) (c d k : ℕ)
    → update into d (into d - 1) c - k ≡ into c - ((if d == c then 1 else 0) + k)
one_down into c d k = elim (Bool-cases (d == c)) [
  | inl e ↦ rw (e, eq→== c d (sym (==→eq d c e))) (omega (arith, ap into (==→eq d c e)))
  | inr n ↦ rw (n, ne→== c d (λ e. true-ne-false (sym (eq→== d c (sym e)) ∙ n))) (omega arith)
]

pub release-released :
    (from c : ℕ) (ps : List Pair) (into : Vector ℕ)
    → release from ps into c ≡ into c - released from c ps
unfolding release released
release-released from c [] into = omega arith
release-released from c ((s, d) ∷ ps) into = elim (Bool-cases (s == from)) [
  | inr other ↦ rw (other, release, released) (release-released from c ps into ∙ omega arith)
  | inl same ↦
      rw (same, release, released)
        (release-released from c ps (update into d (into d - 1))
          ∙ one_down into c d (released from c ps))
]

pub waiting-update :
    (done : Vector Bool) (from c : ℕ) (ps : List Pair)
    → done from ≡ false
    → waiting done c ps ≡ released from c ps + waiting (update done from true) c ps
unfolding waiting released
waiting-update done from c [] h = omega arith
waiting-update done from c ((s, d) ∷ ps) h = elim (Bool-cases (s == from)) [
  | inl same ↦
      let undone : done s ≡ false = ap done (==→eq s from same) ∙ h in
      elim (Bool-cases (d == c)) [
        | inl e ↦ rw (same, undone, e) (omega (arith, waiting-update done from c ps h))
        | inr n ↦ rw (same, undone, n) (omega (arith, waiting-update done from c ps h))
      ]
  | inr other ↦ rw other (omega (arith, waiting-update done from c ps h))
]

-- The counts of constraints are what is waiting.
abbrev pub Tallied : Vector Bool → List Pair → Vector ℕ → Type 0
Tallied done pairs into = (c : ℕ) → into c ≡ waiting done c pairs

constrain-Tallied :
    (s d : ℕ) (k : Constraints)
    → Tallied (λ c. false) k.pairs k.into
    → Tallied (λ c. false) (constrain s d k).pairs (constrain s d k).into
unfolding waiting
constrain-Tallied s d k h c = elim (Bool-cases (has_pair s d k.pairs)) [
  | inl there ↦ rw there (h c)
  | inr new ↦ rw new (one_up ∙ sym (waiting-append (λ c. false) c k.pairs ((s, d) ∷ [])))
]
  where
    one_up :
        update k.into d (suc (k.into d)) c
        ≡ waiting (λ c. false) c k.pairs + waiting (λ c. false) c ((s, d) ∷ [])
    one_up = elim (Bool-cases (d == c)) [
      | inl e ↦ rw (e, eq→== c d (sym (==→eq d c e))) (omega (arith, h c, ap k.into (==→eq d c e)))
      | inr n ↦
          rw (n, ne→== c d (λ e. true-ne-false (sym (eq→== d c (sym e)) ∙ n))) (omega (arith, h c))
    ]

has_pair-append :
    (s d a b : ℕ) (ps : List Pair)
    → has_pair s d ps ≡ true
    → has_pair s d (ps ++ ((a, b) ∷ [])) ≡ true
has_pair-append s d a b [] h = cc
has_pair-append s d a b ((x, y) ∷ ps) h = elim (Bool-cases (x == s && y == d)) [
  | inl here ↦ rw here
  | inr later ↦ rw later (has_pair-append s d a b ps (rw later at h))
]

has_pair-last : (s d : ℕ) (ps : List Pair) → has_pair s d (ps ++ ((s, d) ∷ [])) ≡ true
has_pair-last s d [] = rw (==_refl s, ==_refl d)
has_pair-last s d ((x, y) ∷ ps) = elim (Bool-cases (x == s && y == d)) [
  | inl here ↦ rw here
  | inr later ↦ rw later (has_pair-last s d ps)
]

constrain-has_pair : (s d : ℕ) (k : Constraints) → has_pair s d (constrain s d k).pairs ≡ true
constrain-has_pair s d k = elim (Bool-cases (has_pair s d k.pairs)) [
  | inl there ↦ rw there there
  | inr new ↦ rw new (has_pair-last s d k.pairs)
]

constrain-keeps :
    (a b s d : ℕ) (k : Constraints)
    → has_pair s d k.pairs ≡ true
    → has_pair s d (constrain a b k).pairs ≡ true
constrain-keeps a b s d k h = elim (Bool-cases (has_pair a b k.pairs)) [
  | inl there ↦ rw there h
  | inr new ↦ rw new (has_pair-append s d a b k.pairs h)
]

-- An edge that stays in its component, or is a constraint.
abbrev pub IsConstrained : Vector ℕ → List Pair → Pair → Type 0
IsConstrained comp pairs e =
    ((comp e.0 == comp e.1) ≡ true) ⊎ (has_pair (comp e.0) (comp e.1) pairs ≡ true)

-- A step of `hard_from`.
abbrev hard_step : Vector ℕ → Pair → Constraints → Constraints
hard_step comp e k = if comp e.0 == comp e.1 then k else constrain (comp e.0) (comp e.1) k

hard_from-keeps :
    (comp : Vector ℕ) (edges : List Pair) (k : Constraints) (s d : ℕ)
    → has_pair s d k.pairs ≡ true
    → has_pair s d (hard_from comp edges k).pairs ≡ true
unfolding hard_from
hard_from-keeps comp [] k s d h = h
hard_from-keeps comp ((a, b) ∷ edges) k s d h =
    hard_from-keeps comp edges (hard_step comp (a, b) k) s d stays
  where
    stays : has_pair s d (hard_step comp (a, b) k).pairs ≡ true
    stays = elim (Bool-cases (comp a == comp b)) [
      | inl same ↦ rw same h
      | inr across ↦ rw across (constrain-keeps (comp a) (comp b) s d k h)
    ]

pub hard_from-Tallied :
    (comp : Vector ℕ) (edges : List Pair) (k : Constraints)
    → Tallied (λ c. false) k.pairs k.into
    → Tallied (λ c. false) (hard_from comp edges k).pairs (hard_from comp edges k).into
unfolding hard_from
hard_from-Tallied comp [] k h = h
hard_from-Tallied comp ((a, b) ∷ edges) k h =
    hard_from-Tallied comp edges (hard_step comp (a, b) k) stays
  where
    stays : Tallied (λ c. false) (hard_step comp (a, b) k).pairs (hard_step comp (a, b) k).into
    stays = elim (Bool-cases (comp a == comp b)) [
      | inl same ↦ rw same h
      | inr across ↦ rw across (constrain-Tallied (comp a) (comp b) k h)
    ]

pub hard_from-IsConstrained :
    (comp : Vector ℕ) (edges : List Pair) (k : Constraints)
    → All (IsConstrained comp (hard_from comp edges k).pairs) edges
unfolding hard_from
hard_from-IsConstrained comp [] k = tt
hard_from-IsConstrained comp ((a, b) ∷ edges) k =
    (here, hard_from-IsConstrained comp edges (hard_step comp (a, b) k))
  where
    here : IsConstrained comp (hard_from comp edges (hard_step comp (a, b) k)).pairs (a, b)
    here = elim (Bool-cases (comp a == comp b)) [
      | inl same ↦ inl same
      | inr across ↦ inr (
          hard_from-keeps comp edges (hard_step comp (a, b) k) (comp a) (comp b)
            (rw across (constrain-has_pair (comp a) (comp b) k)))
    ]
