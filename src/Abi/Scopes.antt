-- ===== src/Abi/Scopes.antt =====
-- Guards and hook scopes that are nested as C++ scopes are.
use sygaldreye.Common.{◌≡◌, refl, ap, ◌∙◌, Bool-cases, inl, inr}
use sygaldreye.Abi.{
  Phase, Machine, enter, left_to, leave, count_alloc, rt_lock_probe, reset_counts, enter_hook,
  left_hook, leave_hook, note_compile_work, note_structural_run, reset_compile_work,
}

-- What a thread can do in a scope: the operations, and inner scopes with a guard or a hook.
pub data Scope : Machine → Machine → Type 0 where
  begins : {m : Machine} → Scope m m
  allocates : {m n : Machine} → Scope m n → Scope m (count_alloc n)
  locks : {m n : Machine} → Scope m n → Scope m (rt_lock_probe n)
  resets : {m n : Machine} → Scope m n → Scope m (reset_counts n)
  compiles : {m n : Machine} → Scope m n → Scope m (note_compile_work n)
  restructures : {m n : Machine} → Scope m n → Scope m (note_structural_run n)
  forgets : {m n : Machine} → Scope m n → Scope m (reset_compile_work n)
  guarded : {m n o : Machine} (p : Phase) → Scope m n → Scope (enter p n) o → Scope m (leave o)
  hooked : {m n o : Machine} → Scope m n → Scope (enter_hook n) o → Scope m (leave_hook o)

-- What a scope leaves as it was, and what it can not take back.
pub record IsRestored (m n : Machine) : Type 0 where
  pub phase : n.cur ≡ m.cur
  pub hook : n.hook_live ≡ m.hook_live
  pub guards : n.guards ≡ m.guards
  pub hooks : n.hooks ≡ m.hooks

IsRestored-trans : {m n o : Machine} → IsRestored m n → IsRestored n o → IsRestored m o
IsRestored-trans a b = record {
  phase = b.phase ∙ a.phase;
  hook = b.hook ∙ a.hook;
  guards = b.guards ∙ a.guards;
  hooks = b.hooks ∙ a.hooks;
}

leave-IsRestored : (p : Phase) (n o : Machine) → IsRestored (enter p n) o → IsRestored n (leave o)
unfolding leave
leave-IsRestored p n o r = record {
  phase = ap (λ l. (left_to l o).cur) r.guards;
  hook = ap (λ l. (left_to l o).hook_live) r.guards ∙ r.hook;
  guards = ap (λ l. (left_to l o).guards) r.guards;
  hooks = ap (λ l. (left_to l o).hooks) r.guards ∙ r.hooks;
}

leave_hook-IsRestored : (n o : Machine) → IsRestored (enter_hook n) o → IsRestored n (leave_hook o)
unfolding leave_hook
leave_hook-IsRestored n o r = record {
  phase = ap (λ l. (left_hook l o).cur) r.hooks ∙ r.phase;
  hook = ap (λ l. (left_hook l o).hook_live) r.hooks;
  guards = ap (λ l. (left_hook l o).guards) r.hooks ∙ r.guards;
  hooks = ap (λ l. (left_hook l o).hooks) r.hooks;
}

note_compile_work-IsRestored : (n : Machine) → IsRestored n (note_compile_work n)
note_compile_work-IsRestored n = elim (Bool-cases n.hook_live) [
  | inl live ↦ rw live (record { phase = refl; hook = refl; guards = refl; hooks = refl })
  | inr idle ↦ rw idle (record { phase = refl; hook = refl; guards = refl; hooks = refl })
]

-- Whatever is done in a scope, and however deep its inner scopes are, its thread is in the phase and
-- the hook at its end that it was in at its beginning.
pub Scope-IsRestored : {m n : Machine} → Scope m n → IsRestored m n
Scope-IsRestored begins = record { phase = refl; hook = refl; guards = refl; hooks = refl }
Scope-IsRestored (allocates s) =
    let r = Scope-IsRestored s in
    record { phase = r.phase; hook = r.hook; guards = r.guards; hooks = r.hooks }
Scope-IsRestored (locks s) =
    let r = Scope-IsRestored s in
    record { phase = r.phase; hook = r.hook; guards = r.guards; hooks = r.hooks }
Scope-IsRestored (resets s) =
    let r = Scope-IsRestored s in
    record { phase = r.phase; hook = r.hook; guards = r.guards; hooks = r.hooks }
Scope-IsRestored (compiles {m} {n} s) =
    IsRestored-trans (Scope-IsRestored s) (note_compile_work-IsRestored n)
Scope-IsRestored (restructures s) =
    let r = Scope-IsRestored s in
    record { phase = r.phase; hook = r.hook; guards = r.guards; hooks = r.hooks }
Scope-IsRestored (forgets s) =
    let r = Scope-IsRestored s in
    record { phase = r.phase; hook = r.hook; guards = r.guards; hooks = r.hooks }
Scope-IsRestored (guarded {m} {n} {o} p s inner) =
    IsRestored-trans (Scope-IsRestored s) (leave-IsRestored p n o (Scope-IsRestored inner))
Scope-IsRestored (hooked {m} {n} {o} s inner) =
    IsRestored-trans (Scope-IsRestored s) (leave_hook-IsRestored n o (Scope-IsRestored inner))
