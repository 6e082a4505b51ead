-- ===== src/Executor/Schedule/Each.antt =====
-- What the draining of components gives: each of them once.
use mathlib.Core.List.{Memᴰ}
use mathlib.Core.Path.{subst}
use sygaldreye.Common.{
  ℕ, zero, suc, ◌+◌, ◌≤◌, ◌<◌, ◌≡◌, refl, ap, sym, ◌∙◌, List, [], ◌∷◌, Bool, true, false,
  Bool-cases, inl, inr, All, arith, length, ◌==◌, ==→eq, eq→==, ◌⊎◌, ◌&&◌, leb, leb→le,
}
use sygaldreye.Common.Outcome.{ok, fault, ok_injective, ◌>>=◌, >>=-eq-ok}
use sygaldreye.Executor.Schedule.{
  Vector, update, Pair, no_constraints, hard_from, emit_all, SccSchedule, members, components_of,
  loops_of, comp_of, unemitted, order_components, in_range, scc_order, dfs_all, new_tarjan, Tarjan,
  soft_from,
}
use sygaldreye.Executor.Schedule.Counts.{hard_from-Tallied, hard_from-IsConstrained, waiting}
use sygaldreye.Executor.Schedule.Undone.{undone, undone-update, undone-all, undone-positive}
use sygaldreye.Executor.Schedule.Forward.{IsForward, emit_all-IsForward}

abbrev pub numbers_below : ℕ → List ℕ
numbers_below zero = []
numbers_below (suc k) = k ∷ numbers_below k

All-numbers_below : (P : ℕ → Type 0) (n : ℕ) → ((c : ℕ) → c < n → P c) → All P (numbers_below n)
All-numbers_below P zero h = tt
All-numbers_below P (suc k) h =
    (h k (omega arith), All-numbers_below P k (λ c below. h c (omega (arith, below))))

-- As many distinct picks as there are numbers: every number is picked.
every_picked :
    (comp : Vector ℕ) (edges : List Pair) (done : Vector Bool) (picks : List ℕ) (nc c : ℕ)
    → IsForward comp edges done picks
    → All (λ (c : ℕ). c < nc) picks
    → undone done nc ≡ length picks
    → c < nc
    → done c ≡ false
    → Memᴰ c picks
every_picked comp edges done [] nc c forward bounded count below free =
    absurd (omega (arith, count, undone-positive done c nc below free))
every_picked comp edges done (p ∷ picks) nc c forward bounded count below free =
    elim (Bool-cases (c == p)) [
      | inl same ↦ Memᴰ.head (==→eq c p same)
      | inr other ↦
          let fewer : undone (update done p true) nc ≡ length picks =
            omega (arith, count, undone-update done p nc bounded.0 forward.0) in
          Memᴰ.tail (
            every_picked comp edges (update done p true) picks nc c forward.2 bounded.1 fewer below
              (rw other free))
    ]

members-Memᴰ :
    (comp : Vector ℕ) (from left v : ℕ)
    → from ≤ v
    → v < from + left
    → Memᴰ v (members comp from left (comp v))
members-Memᴰ comp from zero v h k = absurd (omega (arith, h, k))
members-Memᴰ comp from (suc left) v h k = elim (Bool-cases (from == v)) [
  | inl here ↦
      let e = ==→eq from v here in
      let counted : (comp from == comp v) ≡ true = eq→== (comp from) (comp v) (ap comp e) in
      rw counted (Memᴰ.head (sym e))
  | inr away ↦
      let onward =
        members-Memᴰ comp (suc from) left v (ground (arith, away, h)) (omega (arith, k)) in
      elim (Bool-cases (comp from == comp v)) [
        | inl counted ↦ rw counted (Memᴰ.tail onward)
        | inr skipped ↦ rw skipped onward
      ]
]

components_of-Memᴰ :
    (comp : Vector ℕ) (n c : ℕ) (picks : List ℕ)
    → Memᴰ c picks
    → Memᴰ (members comp 0 n c) (components_of comp n picks)
components_of-Memᴰ comp n c [] h = elim h [ ]
components_of-Memᴰ comp n c (p ∷ picks) (Memᴰ.head e) = Memᴰ.head (ap (members comp 0 n) e)
components_of-Memᴰ comp n c (p ∷ picks) (Memᴰ.tail m) =
    Memᴰ.tail (components_of-Memᴰ comp n c picks m)

-- The component that has the vertex, unless its number is none of the components'.
abbrev pub IsPlaced : ℕ → Vector ℕ → List (List ℕ) → ℕ → Type 0
IsPlaced nc comp components v = (nc ≤ comp v) ⊎ ((vs : List ℕ) × Memᴰ vs components × Memᴰ v vs)

-- Vertices of one component.
abbrev pub IsGathered : ℕ → ℕ → Vector ℕ → List ℕ → Type 0
IsGathered n nc comp vs = (c : ℕ) × (c < nc) × All (λ v. (v < n) × (comp v ≡ c)) vs

members-All :
    (comp : Vector ℕ) (from left n c : ℕ)
    → from + left ≤ n
    → All (λ v. (v < n) × (comp v ≡ c)) (members comp from left c)
members-All comp from zero n c h = tt
members-All comp from (suc left) n c h =
    let onward = members-All comp (suc from) left n c (omega (arith, h)) in
    elim (Bool-cases (comp from == c)) [
      | inl counted ↦ rw counted ((omega (arith, h), ==→eq (comp from) c counted), onward)
      | inr skipped ↦ rw skipped onward
    ]

components_of-IsGathered :
    (comp : Vector ℕ) (n nc : ℕ) (picks : List ℕ)
    → All (λ (c : ℕ). c < nc) picks
    → All (IsGathered n nc comp) (components_of comp n picks)
components_of-IsGathered comp n nc [] h = tt
components_of-IsGathered comp n nc (c ∷ picks) h =
    ((c, h.0, members-All comp 0 n n c (omega arith)), components_of-IsGathered comp n nc picks h.1)

-- A schedule of the components 0 to `nc` - 1 of a numbering of the vertices: the picked numbers are all
-- of these, each once, and an edge of the cycle set leads into a component only from itself or from
-- one that is picked before it. What is returned is their vertices and whether they have a self loop.
pub record IsSchedule (n nc : ℕ) (cycle_edges : List Pair) (comp : Vector ℕ) (out : SccSchedule)
    : Type 0 where
  pub picks : List ℕ
  pub components : out.components ≡ components_of comp n picks
  pub self_loop : out.self_loop ≡ loops_of comp cycle_edges picks
  pub count : length picks ≡ nc
  pub bounded : All (λ (c : ℕ). c < nc) picks
  pub every : All (λ c. Memᴰ c picks) (numbers_below nc)
  pub placed : All (IsPlaced nc comp out.components) (numbers_below n)
  pub gathered : All (IsGathered n nc comp) out.components
  pub forward : IsForward comp cycle_edges (λ c. false) picks

pub order_components-IsSchedule :
    (n nc : ℕ) (cycle_edges order_edges : List Pair) (comp : Vector ℕ) (out : SccSchedule)
    → order_components n cycle_edges order_edges comp nc ≡ ok out
    → IsSchedule n nc cycle_edges comp out
unfolding order_components
order_components-IsSchedule n nc cycle_edges order_edges comp out h =
    let hard = hard_from comp cycle_edges no_constraints in
    let soft = soft_from comp hard order_edges no_constraints in
    let got = >>=-eq-ok _ (emit_all hard.pairs soft.pairs nc nc (unemitted hard soft)) h in
    let r =
      emit_all-IsForward comp cycle_edges hard.pairs soft.pairs nc nc (unemitted hard soft) got.0
        (hard_from-IsConstrained comp cycle_edges no_constraints)
        (hard_from-Tallied comp cycle_edges no_constraints (λ c. unfold waiting in refl)) got.1 in
    let made = ap (λ (o : SccSchedule). o.components) (sym (ok_injective got.2)) in
    let every : (c : ℕ) → c < nc → Memᴰ c got.0 = λ c below.
      every_picked comp cycle_edges (λ c. false) got.0 nc c r.2 r.1 (undone-all nc ∙ sym r.0) below
        refl in
    let place : (v : ℕ) → v < n → IsPlaced nc comp out.components v =
      λ v below. placed n nc comp got.0 out made every v below (Bool-cases (leb nc (comp v))) in
    record {
      picks = got.0;
      components = made;
      self_loop = ap (λ (o : SccSchedule). o.self_loop) (sym (ok_injective got.2));
      count = r.0;
      bounded = r.1;
      every = All-numbers_below _ nc every;
      placed = All-numbers_below _ n place;
      gathered =
          subst (All (IsGathered n nc comp)) (sym made)
            (components_of-IsGathered comp n nc got.0 r.1);
      forward = r.2;
    }
  where
    placed :
        (n nc : ℕ) (comp : Vector ℕ) (picks : List ℕ) (out : SccSchedule)
        → out.components ≡ components_of comp n picks
        → ((c : ℕ) → c < nc → Memᴰ c picks)
        → (v : ℕ) → v < n
        → (leb nc (comp v) ≡ true) ⊎ (leb nc (comp v) ≡ false)
        → IsPlaced nc comp out.components v
    placed n nc comp picks out made every v below (inl above) = inl (leb→le nc (comp v) above)
    placed n nc comp picks out made every v below (inr inside) = inr (
      members comp 0 n (comp v),
      subst (λ l. Memᴰ (members comp 0 n (comp v)) l) (sym made)
          (components_of-Memᴰ comp n (comp v) picks (every (comp v) (ground (arith, inside)))),
      members-Memᴰ comp 0 n v (omega arith) (omega (arith, below)),
    )

pub scc_order-IsSchedule :
    (n : ℕ) (cycle_edges order_edges : List Pair) (out : SccSchedule)
    → scc_order n cycle_edges order_edges ≡ ok out
    → (nc : ℕ) × (comp : Vector ℕ) × IsSchedule n nc cycle_edges comp out
unfolding scc_order
scc_order-IsSchedule n cycle_edges order_edges out h =
    elim (Bool-cases (in_range n cycle_edges && in_range n order_edges)) [
      | inr outside ↦ let bad : fault ≡ ok out = rw outside at h in absurd (fault-ne-ok bad)
      | inl inside ↦
          let ran : (do
            t ← dfs_all cycle_edges n 0 n new_tarjan
            order_components n cycle_edges order_edges (comp_of t) t.ncomp)
              ≡ ok out =
            rw inside at h in
          let got =
            >>=-eq-ok
              (λ (t : Tarjan). order_components n cycle_edges order_edges (comp_of t) t.ncomp)
              (dfs_all cycle_edges n 0 n new_tarjan) ran in
          (
            got.0.ncomp,
            comp_of got.0,
            order_components-IsSchedule n got.0.ncomp cycle_edges order_edges (comp_of got.0) out
                got.2,
          )
    ]
  where
    fault-ne-ok : fault ≡ ok out → ⊥
    fault-ne-ok p = cc
