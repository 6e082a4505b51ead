-- ===== src/Abi/Runs.antt =====
-- A thread with nested scopes.
use sygaldreye.Common.{◌≡◌, refl, none}
use sygaldreye.Abi.{
  process, prepare, Machine, new_machine, enter, leave, count_alloc, acquire_device,
}
use sygaldreye.Abi.Scopes.{begins, allocates, guarded, IsRestored, Scope-IsRestored}

-- A processing call allocates, and prepares a resource in an inner scope.
abbrev inner : Machine
inner = leave (enter prepare (count_alloc (enter process new_machine)))

abbrev outer : Machine
outer = leave inner

outer_counts : (outer.table process).allocs ≡ 1
unfolding leave
outer_counts = refl

only_in_prepare : acquire_device inner ≡ none
unfolding leave
only_in_prepare = refl

Scope-IsRestored_example : IsRestored new_machine outer
Scope-IsRestored_example =
    Scope-IsRestored (guarded process begins (guarded prepare (allocates begins) begins))
