-- ===== src/Executor/Schedule.antt =====
-- executor/regions.cpp: `scc_order`, the schedule of the block region.
pub mod Counts
mod Runs
pub mod Forward
pub mod Undone
pub mod Each
pub mod Returns
use sygaldreye.Common.{
  ℕ, zero, suc, ◌+◌, ◌-◌, List, [], ◌∷◌, ◌++◌, Bool, true, false, not, ◌&&◌, ◌||◌, Option, none,
  some, if◌then◌else◌, ltb, ◌==◌,
}
use sygaldreye.Common.Outcome.{Outcome, ok, throws, fault, stuck, ◌>>=◌, schedule_stuck}

-- A vector of a fixed length is the function of its elements.
abbrev pub Vector : Type 0 → Type 0
Vector A = ℕ → A

abbrev pub update : {A : Type 0} → Vector A → ℕ → A → Vector A
update f i x = λ j. if j == i then x else f j

abbrev pub Pair : Type 0
Pair = ℕ × ℕ

abbrev pub min : ℕ → ℕ → ℕ
min a b = if ltb b a then b else a

-- `adj[v]`.
abbrev pub targets : List Pair → ℕ → List ℕ
targets [] v = []
targets ((s, d) ∷ edges) v = let rest = targets edges v in if s == v then d ∷ rest else rest

-- The variables that the recursion captures; a number of -1 is none.
pub record Tarjan : Type 0 where
  pub num : Vector (Option ℕ)
  pub low : Vector ℕ
  pub comp : Vector (Option ℕ)
  pub stk : List ℕ
  pub on : Vector Bool
  pub counter : ℕ
  pub ncomp : ℕ

abbrev pub new_tarjan : Tarjan
new_tarjan = record {
  num = λ v. none;
  low = λ v. 0;
  comp = λ v. none;
  stk = [];
  on = λ v. false;
  counter = 0;
  ncomp = 0;
}

unfoldable pub discover : ℕ → Tarjan → Tarjan
discover v t = record t {
  num = update t.num v (some t.counter);
  low = update t.low v t.counter;
  counter = suc t.counter;
  stk = v ∷ t.stk;
  on = update t.on v true;
}

abbrev pub lower : ℕ → ℕ → Tarjan → Tarjan
lower v k t = record t { low = update t.low v (min (t.low v) k) }

abbrev pub number_of : Option ℕ → ℕ
number_of none = 0
number_of (some k) = k

-- The loop over the successors of `v`, with the recursion on one of them.
unfoldable pub visit : (ℕ → Tarjan → Outcome Tarjan) → ℕ → List ℕ → Tarjan → Outcome Tarjan
visit descend v [] t = ok t
visit descend v (w ∷ ws) t = elim (t.num w) [
  | none ↦ (do s ← descend w t; visit descend v ws (lower v (s.low w) s))
  | some k ↦ visit descend v ws (if t.on w then lower v k t else t)
]

-- The loop that takes a component from the stack.
unfoldable pub pop_component : ℕ → List ℕ → Tarjan → Outcome Tarjan
pop_component v [] t = fault
pop_component v (w ∷ stk) t =
    let s = record t {
      stk = stk;
      on = update t.on w false;
      comp = update t.comp w (some t.ncomp);
    } in
    let more = pop_component v stk s in
    if w == v then ok (record s { ncomp = suc t.ncomp }) else more

abbrev pub close : ℕ → Tarjan → Outcome Tarjan
close v t =
    let popped = pop_component v t.stk t in if t.low v == number_of (t.num v) then popped else ok t

-- Each call gives a number to one more node, so a level for each node and one more are enough.
unfoldable pub dfs : ℕ → List Pair → ℕ → Tarjan → Outcome Tarjan
unfolding discover visit pop_component
dfs zero edges v t = stuck
dfs (suc fuel) edges v t = do
  s ← visit (dfs fuel edges) v (targets edges v) (discover v t)
  close v s

unfoldable pub dfs_all : List Pair → ℕ → ℕ → ℕ → Tarjan → Outcome Tarjan
unfolding dfs
dfs_all edges n v zero t = ok t
dfs_all edges n v (suc left) t = elim (t.num v) [
  | none ↦ (do s ← dfs (suc n) edges v t; dfs_all edges n (suc v) left s)
  | some k ↦ dfs_all edges n (suc v) left t
]

-- Edges between components, each of them once, and how many of them lead into each.
pub record Constraints : Type 0 where
  pub pairs : List Pair
  pub into : Vector ℕ

abbrev pub no_constraints : Constraints
no_constraints = record { pairs = []; into = λ c. 0 }

abbrev pub has_pair : ℕ → ℕ → List Pair → Bool
has_pair s d [] = false
has_pair s d ((a, b) ∷ pairs) = (a == s && b == d) || has_pair s d pairs

abbrev pub constrain : ℕ → ℕ → Constraints → Constraints
constrain s d k =
    if has_pair s d k.pairs
    then k
    else record { pairs = k.pairs ++ ((s, d) ∷ []); into = update k.into d (suc (k.into d)) }

unfoldable pub hard_from : Vector ℕ → List Pair → Constraints → Constraints
hard_from comp [] k = k
hard_from comp ((s, d) ∷ edges) k =
    hard_from comp edges (if comp s == comp d then k else constrain (comp s) (comp d) k)

unfoldable pub soft_from : Vector ℕ → Constraints → List Pair → Constraints → Constraints
soft_from comp hard [] k = k
soft_from comp hard ((s, d) ∷ edges) k = soft_from comp hard edges (
    if comp s == comp d
    then k
    else if has_pair (comp s) (comp d) hard.pairs
    then k
    else constrain (comp s) (comp d) k)

-- The components that are picked, in order, and what is left of the counts.
pub record Emitting : Type 0 where
  pub done : Vector Bool
  pub hard_in : Vector ℕ
  pub soft_in : Vector ℕ

abbrev pub first_at : (ℕ → Bool) → ℕ → ℕ → Option ℕ
first_at test c zero = none
first_at test c (suc left) =
    let later = first_at test (suc c) left in if test c then some c else later

abbrev pub or_second : Option ℕ → Option ℕ → Option ℕ
or_second none b = b
or_second (some a) b = some a

unfoldable pub pick : ℕ → Emitting → Option ℕ
pick nc s =
    or_second (first_at (λ c. not (s.done c) && (s.hard_in c == 0 && s.soft_in c == 0)) 0 nc)
      (first_at (λ c. not (s.done c) && s.hard_in c == 0) 0 nc)

-- `for (auto d2 : hard[pc]) --hard_in[d2];`
unfoldable pub release : ℕ → List Pair → Vector ℕ → Vector ℕ
release c [] into = into
release c ((s, d) ∷ pairs) into =
    release c pairs (if s == c then update into d (into d - 1) else into)

abbrev pub emit : List Pair → List Pair → ℕ → Emitting → Emitting
emit hard soft c s = record {
  done = update s.done c true;
  hard_in = release c hard s.hard_in;
  soft_in = release c soft s.soft_in;
}

unfoldable pub emit_all : List Pair → List Pair → ℕ → ℕ → Emitting → Outcome (List ℕ)
unfolding pick release
emit_all hard soft nc zero s = ok []
emit_all hard soft nc (suc left) s = elim (pick nc s) [
  | none ↦ throws schedule_stuck
  | some c ↦ (do rest ← emit_all hard soft nc left (emit hard soft c s); ok (c ∷ rest))
]

pub record SccSchedule : Type 0 where
  pub components : List (List ℕ)
  pub self_loop : List Bool

abbrev pub members : Vector ℕ → ℕ → ℕ → ℕ → List ℕ
members comp v zero c = []
members comp v (suc left) c =
    let rest = members comp (suc v) left c in if comp v == c then v ∷ rest else rest

abbrev pub has_self_loop : Vector ℕ → List Pair → ℕ → Bool
has_self_loop comp [] c = false
has_self_loop comp ((s, d) ∷ edges) c = (s == d && comp s == c) || has_self_loop comp edges c

abbrev pub components_of : Vector ℕ → ℕ → List ℕ → List (List ℕ)
components_of comp n [] = []
components_of comp n (c ∷ picks) = members comp 0 n c ∷ components_of comp n picks

abbrev pub loops_of : Vector ℕ → List Pair → List ℕ → List Bool
loops_of comp edges [] = []
loops_of comp edges (c ∷ picks) = has_self_loop comp edges c ∷ loops_of comp edges picks

abbrev pub comp_of : Tarjan → Vector ℕ
comp_of t = λ v. number_of (t.comp v)

abbrev pub unemitted : Constraints → Constraints → Emitting
unemitted hard soft = record { done = λ c. false; hard_in = hard.into; soft_in = soft.into }

-- What follows the search.
unfoldable pub order_components : ℕ → List Pair → List Pair → Vector ℕ → ℕ → Outcome SccSchedule
unfolding hard_from soft_from emit_all
order_components n cycle_edges order_edges comp ncomp =
    let hard = hard_from comp cycle_edges no_constraints in
    let soft = soft_from comp hard order_edges no_constraints in
    do
      picks ← emit_all hard.pairs soft.pairs ncomp ncomp (unemitted hard soft)
      ok (record {
        components = components_of comp n picks;
        self_loop = loops_of comp cycle_edges picks;
      })

abbrev pub in_range : ℕ → List Pair → Bool
in_range n [] = true
in_range n ((s, d) ∷ edges) = ltb s n && (ltb d n && in_range n edges)

-- An edge at an index from `n` on is outside of the vectors.
unfoldable pub scc_order : ℕ → List Pair → List Pair → Outcome SccSchedule
unfolding dfs_all order_components
scc_order n cycle_edges order_edges =
    let run = (do
      t ← dfs_all cycle_edges n 0 n new_tarjan
      order_components n cycle_edges order_edges (comp_of t) t.ncomp) in
    if in_range n cycle_edges && in_range n order_edges then run else fault
