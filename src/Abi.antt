-- ===== src/Abi.antt =====
-- abi/phase.cpp: the phase of the running native call, and the counts of what it does.
pub mod Scopes
mod Runs
use sygaldreye.Common.{ℕ, suc, List, [], ◌∷◌, Bool, true, false, Option, none, some, if◌then◌else◌}

pub data Phase : Type 0 where
  nothing create prepare apply process destroy : Phase

abbrev pub index : Phase → ℕ
index nothing = 0
index create = 1
index prepare = 2
index apply = 3
index process = 4
index destroy = 5

pub record Counters : Type 0 where
  pub allocs : ℕ
  pub locks : ℕ

abbrev pub zeroed : Counters
zeroed = record { allocs = 0; locks = 0 }

-- A thread's phase and hook, with the tables of the process. `guards` and `hooks` are the previous
-- values that the live guard objects hold, the innermost first.
pub record Machine : Type 0 where
  pub cur : Phase
  pub hook_live : Bool
  pub table : Phase → Counters
  pub outside_work : ℕ
  pub structural_work : ℕ
  pub guards : List Phase
  pub hooks : List Bool

abbrev pub new_machine : Machine
new_machine = record {
  cur = nothing;
  hook_live = false;
  table = λ p. zeroed;
  outside_work = 0;
  structural_work = 0;
  guards = [];
  hooks = [];
}

abbrev pub same_phase : Phase → Phase → Bool
same_phase nothing nothing = true
same_phase create create = true
same_phase prepare prepare = true
same_phase apply apply = true
same_phase process process = true
same_phase destroy destroy = true
same_phase p q = false

-- The constructor and the destructor of a `phase_guard`; without a guard, nothing is destroyed.
abbrev pub enter : Phase → Machine → Machine
enter p m = record m { cur = p; guards = m.cur ∷ m.guards }

abbrev pub left_to : List Phase → Machine → Machine
left_to [] m = m
left_to (prev ∷ guards) m = record m { cur = prev; guards = guards }

unfoldable pub leave : Machine → Machine
leave m = left_to m.guards m

abbrev pub recount : (Counters → Counters) → Machine → Machine
recount f m = record m { table = λ q. if same_phase q m.cur then f (m.table q) else m.table q }

abbrev pub count_alloc : Machine → Machine
count_alloc m = recount (λ c. record c { allocs = suc c.allocs }) m

abbrev pub rt_lock_probe : Machine → Machine
rt_lock_probe m = recount (λ c. record c { locks = suc c.locks }) m

abbrev pub reset_counts : Machine → Machine
reset_counts m = record m { table = λ p. zeroed }

abbrev pub enter_hook : Machine → Machine
enter_hook m = record m { hook_live = true; hooks = m.hook_live ∷ m.hooks }

abbrev pub left_hook : List Bool → Machine → Machine
left_hook [] m = m
left_hook (prev ∷ hooks) m = record m { hook_live = prev; hooks = hooks }

unfoldable pub leave_hook : Machine → Machine
leave_hook m = left_hook m.hooks m

abbrev pub note_compile_work : Machine → Machine
note_compile_work m = if m.hook_live then m else record m { outside_work = suc m.outside_work }

abbrev pub note_structural_run : Machine → Machine
note_structural_run m = record m { structural_work = suc m.structural_work }

abbrev pub reset_compile_work : Machine → Machine
reset_compile_work m = record m { outside_work = 0 }

-- The handle, or none when the process aborts.
abbrev pub acquire_device : Machine → Option ℕ
acquire_device m = if same_phase m.cur prepare then some 1 else none
