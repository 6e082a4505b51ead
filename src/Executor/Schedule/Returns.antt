-- ===== src/Executor/Schedule/Returns.antt =====
-- The draining of components returns, for a numbering such as the search gives.
use sygaldreye.Common.{
  ℕ, zero, suc, ◌+◌, ◌≤◌, ◌<◌, ◌≡◌, ◌⊎◌, refl, ap, sym, ◌∙◌, List, [], ◌∷◌, Bool, true, false, not,
  ◌&&◌, Bool-cases, inl, inr, Option, none, some, All, All-append, arith, if◌then◌else◌, ◌==◌,
  ==→eq, eq→==,
}
use mathlib.Core.Path.{subst}
use sygaldreye.Common.Outcome.{ok, ◌>>=◌}
use sygaldreye.Executor.Schedule.{
  Vector, update, Pair, Constraints, no_constraints, has_pair, constrain, hard_from, Emitting,
  first_at, or_second, pick, release, emit, emit_all, SccSchedule, components_of, loops_of,
  unemitted, order_components, soft_from,
}
use sygaldreye.Executor.Schedule.Counts.{
  waiting, Tallied, release-released, waiting-update, hard_from-Tallied, true-ne-false,
}
use sygaldreye.Executor.Schedule.Forward.{pick-some}
use sygaldreye.Executor.Schedule.Undone.{undone, undone-some, undone-update, undone-all}
use sygaldreye.Executor.Schedule.Each.{IsSchedule, order_components-IsSchedule}

first_at-none :
    (test : ℕ → Bool) (c left k : ℕ)
    → first_at test c left ≡ none
    → c ≤ k
    → k < c + left
    → test k ≡ false
first_at-none test c zero k h from to = absurd (omega arith)
first_at-none test c (suc left) k h from to = elim (Bool-cases (test c)) [
  | inl here ↦ let found : some c ≡ none = rw here at h in cc
  | inr later ↦ elim (Bool-cases (c == k)) [
    | inl same ↦ ap test (sym (==→eq c k same)) ∙ later
    | inr other ↦
        first_at-none test (suc c) left k (rw later at h)
          (omega (arith, from, λ (e : c ≡ k). true-ne-false (sym (eq→== c k e) ∙ other)))
          (omega (arith, to))
  ]
]

or_second-none : (a b : Option ℕ) → or_second a b ≡ none → b ≡ none
or_second-none none b h = h
or_second-none (some a) b h = cc

pick-none :
    (nc c : ℕ) (s : Emitting) → pick nc s ≡ none → c < nc → s.done c ≡ false → 0 < s.hard_in c
unfolding pick
pick-none nc c s h below free = positive (s.hard_in c) (
    kept (s.done c) (s.hard_in c == 0) free (
      first_at-none (λ c. not (s.done c) && s.hard_in c == 0) 0 nc c (or_second-none _ _ h)
        (omega arith) (omega (arith, below))))
  where
    kept : (d z : Bool) → d ≡ false → (not d && z) ≡ false → z ≡ false
    kept false z e g = g
    kept true z e g = cc

    positive : (n : ℕ) → (n == 0) ≡ false → 0 < n
    positive n e = ground arith

-- A constraint that waits has a source that is not done.
waiting-source :
    (P : Pair → Type 0) (done : Vector Bool) (c : ℕ) (pairs : List Pair)
    → All P pairs
    → 0 < waiting done c pairs
    → (b : ℕ) × (done b ≡ false) × P (b, c)
unfolding waiting
waiting-source P done c [] all h = absurd (omega arith)
waiting-source P done c ((s, d) ∷ pairs) all h = elim (Bool-cases (d == c)) [
  | inr elsewhere ↦
      let later : 0 < 0 + waiting done c pairs = rw elsewhere at h in
      waiting-source P done c pairs all.1 (omega (arith, later))
  | inl into ↦ elim (Bool-cases (done s)) [
    | inr free ↦ (s, free, subst (λ k. P (s, k)) (==→eq d c into) all.0)
    | inl taken ↦
        let later : 0 < 0 + waiting done c pairs = rw (into, taken) at h in
        waiting-source P done c pairs all.1 (omega (arith, later))
  ]
]

-- The number of the source is above that of the target.
abbrev pub Descends : ℕ → Pair → Type 0
Descends nc p = (p.1 < p.0) × (p.0 < nc)

-- Without a component to pick, there is one above each that is not done.
climb :
    (k nc c : ℕ) (s : Emitting) (hard : List Pair)
    → pick nc s ≡ none
    → All (Descends nc) hard
    → Tallied s.done hard s.hard_in
    → nc ≤ c + k
    → c < nc
    → s.done c ≡ false
    → ⊥
climb zero nc c s hard h descends tallied room below free = absurd (omega arith)
climb (suc k) nc c s hard h descends tallied room below free =
    let waits : 0 < waiting s.done c hard =
      omega (arith, pick-none nc c s h below free, tallied c) in
    let (b, b_free, above) = waiting-source (Descends nc) s.done c hard descends waits in
    climb k nc b s hard h descends tallied (omega (arith, above.0, room)) above.1 b_free

emit_all-picked :
    (hard soft : List Pair) (nc left c : ℕ) (s : Emitting) (picks : List ℕ)
    → pick nc s ≡ some c
    → emit_all hard soft nc left (emit hard soft c s) ≡ ok picks
    → emit_all hard soft nc (suc left) s ≡ ok (c ∷ picks)
unfolding emit_all
emit_all-picked hard soft nc left c s picks picked emitted =
    rw (picked, emit_all) (ap (λ o. o >>= λ rest. ok (c ∷ rest)) emitted)

emit_all-ok :
    (nc left : ℕ) (hard soft : List Pair) (s : Emitting)
    → All (Descends nc) hard
    → Tallied s.done hard s.hard_in
    → undone s.done nc ≡ left
    → (picks : List ℕ) × (emit_all hard soft nc left s ≡ ok picks)
unfolding emit_all
emit_all-ok nc zero hard soft s descends tallied count = ([], refl)
emit_all-ok nc (suc left) hard soft s descends tallied count = elim (option_cases (pick nc s)) [
  | inl nothing ↦
      let (c, below, free) = undone-some s.done nc (omega (arith, count)) in
      absurd (climb nc nc c s hard nothing descends tallied (omega arith) below free)
  | inr (c, picked) ↦
      let free = pick-some nc c s picked in
      let onward : Tallied (update s.done c true) hard (release c hard s.hard_in) = λ d.
        release-released c d hard s.hard_in
        ∙ omega (arith, tallied d, waiting-update s.done c d hard free.0) in
      let fewer : undone (update s.done c true) nc ≡ left =
        omega (arith, count, undone-update s.done c nc free.2 free.0) in
      let (picks, emitted) =
        emit_all-ok nc left hard soft (emit hard soft c s) descends onward fewer in
      (c ∷ picks, emit_all-picked hard soft nc left c s picks picked emitted)
]
  where
    option_cases : (o : Option ℕ) → (o ≡ none) ⊎ ((c : ℕ) × (o ≡ some c))
    option_cases none = inl refl
    option_cases (some c) = inr (c, refl)

-- An edge inside a component, or to one with a lower number, as a search that numbers components as
-- it leaves them has it.
abbrev pub IsNumbered : Vector ℕ → ℕ → Pair → Type 0
IsNumbered comp nc e = ((comp e.0 == comp e.1) ≡ true) ⊎ Descends nc (comp e.0, comp e.1)

hard_from-Descends :
    (comp : Vector ℕ) (nc : ℕ) (edges : List Pair) (k : Constraints)
    → All (IsNumbered comp nc) edges
    → All (Descends nc) k.pairs
    → All (Descends nc) (hard_from comp edges k).pairs
unfolding hard_from
hard_from-Descends comp nc [] k numbered h = h
hard_from-Descends comp nc ((a, b) ∷ edges) k (inl same, numbered) h =
    hard_from-Descends comp nc edges (if comp a == comp b then k else constrain (comp a) (comp b) k)
      numbered (rw same h)
hard_from-Descends comp nc ((a, b) ∷ edges) k (inr descends, numbered) h =
    hard_from-Descends comp nc edges (if comp a == comp b then k else constrain (comp a) (comp b) k)
      numbered stays
  where
    stays : All (Descends nc) (if comp a == comp b then k else constrain (comp a) (comp b) k).pairs
    stays = elim (Bool-cases (comp a == comp b)) [
      | inl same ↦ rw same h
      | inr across ↦ rw across (elim (Bool-cases (has_pair (comp a) (comp b) k.pairs)) [
        | inl there ↦ rw there h
        | inr new ↦
            rw new (All-append (Descends nc) k.pairs ((comp a, comp b) ∷ []) h (descends, tt))
      ])
    ]

-- With such a numbering, the components are emitted: the code returns, and what it returns is a
-- schedule: one component for each number and the vertices of each number in one of them, in an order
-- in which every cycle edge between two of them leads forward.
pub order_components-ok :
    (n nc : ℕ) (cycle_edges order_edges : List Pair) (comp : Vector ℕ)
    → All (IsNumbered comp nc) cycle_edges
    → (out : SccSchedule) × (order_components n cycle_edges order_edges comp nc ≡ ok out)
      × IsSchedule n nc cycle_edges comp out
unfolding order_components
order_components-ok n nc cycle_edges order_edges comp numbered =
    let hard = hard_from comp cycle_edges no_constraints in
    let soft = soft_from comp hard order_edges no_constraints in
    let (picks, emitted) =
      emit_all-ok nc nc hard.pairs soft.pairs (unemitted hard soft)
        (hard_from-Descends comp nc cycle_edges no_constraints numbered tt)
        (hard_from-Tallied comp cycle_edges no_constraints (λ c. unfold waiting in refl))
        (undone-all nc) in
    let out : SccSchedule = record {
      components = components_of comp n picks;
      self_loop = loops_of comp cycle_edges picks;
    } in
    let returned =
      ap
        (λ o. o >>= λ picks. ok (record {
          components = components_of comp n picks;
          self_loop = loops_of comp cycle_edges picks;
        }))
        emitted in
    (out, returned, order_components-IsSchedule n nc cycle_edges order_edges comp out returned)
