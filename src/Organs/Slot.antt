-- ===== src/Organs/Slot.antt =====
-- organs/slot/slot.cpp: a plan that is rebuilt while the states of its nodes live on.
pub mod Leak
use sygaldreye.Common.{
  ℕ, List, [], ◌∷◌, ◌++◌, Bool, true, false, not, Option, none, some, eq_bytes, if◌then◌else◌, ◌==◌,
}
use sygaldreye.Common.Outcome.{Outcome, ok, Run, run_then}
use sygaldreye.Common.Maps.{lookup, assign}
use sygaldreye.Crown.{
  NativeType, Op, OpKind, instantiate, link, unlink, remove, write_default, Call, destroyed, Plan,
  submit, called,
}
use sygaldreye.Crown.Edits.{tick, exchange_state, type_of}

-- A kept state, 0 for the null pointer.
pub record Kept : Type 0 where
  pub native : NativeType
  pub state : ℕ

abbrev pub Keep : Type 0
Keep = List (List ℕ × Kept)

unfoldable pub stash : List (List ℕ × List ℕ) → Keep → Plan → Run Plan Keep
unfolding type_of exchange_state
stash [] keep p = (ok keep, p)
stash (r ∷ nodes) keep p =
    run_then (type_of r.0 p, p)
      (λ t p.
        run_then (exchange_state r.0 0 p)
          (λ state p. stash nodes (assign r.0 (record { native = t; state = state }) keep) p))

abbrev pub remove_op : List ℕ → Op
remove_op id = record { what = remove; a = id; b = [] }

abbrev pub submit_removals : List (List ℕ × List ℕ) → Plan → Plan
submit_removals [] p = p
submit_removals (r ∷ nodes) p = submit_removals nodes (submit (remove_op r.0) p)

abbrev pub is_default : Op → Bool
is_default o = elim o.what [ write_default ↦ true | _ ↦ false ]

abbrev pub submit_structure : List Op → Plan → Plan
submit_structure [] p = p
submit_structure (o ∷ build) p = submit_structure build (if is_default o then p else submit o p)

abbrev pub submit_defaults : List Op → Plan → Plan
submit_defaults [] p = p
submit_defaults (o ∷ build) p = submit_defaults build (if is_default o then submit o p else p)

-- The comparison of two pointers to linked natives, which have different names.
abbrev pub same_type : NativeType → NativeType → Bool
same_type s t = eq_bytes s.name t.name

abbrev pub bring_home : List ℕ → Option Kept → NativeType → Keep → Plan → Run Plan Keep
bring_home id none t keep p = (ok keep, p)
bring_home id (some k) t keep p =
    let homed = run_then (exchange_state id k.state p) (λ fresh p.
      (ok (assign id (record k { state = 0 }) keep), called (destroyed t.name fresh) p)) in
    if same_type k.native t then homed else (ok keep, p)

-- `it->second.first == p.type_of(r.id)`, which is asked for a kept route only.
abbrev pub home_of : List ℕ → Option Kept → Keep → Plan → Run Plan Keep
home_of id none keep p = (ok keep, p)
home_of id (some k) keep p = run_then (type_of id p, p) (λ t p. bring_home id (some k) t keep p)

unfoldable pub migrate : List (List ℕ × List ℕ) → Keep → Plan → Run Plan Keep
migrate [] keep p = (ok keep, p)
migrate (r ∷ nodes) keep p =
    run_then (home_of r.0 (lookup r.0 keep) keep p) (λ keep p. migrate nodes keep p)

abbrev pub destroy_orphans : Keep → Plan → Plan
destroy_orphans [] p = p
destroy_orphans ((id, k) ∷ keep) p =
    destroy_orphans keep (if k.state == 0 then p else called (destroyed k.native.name k.state) p)

module _ (strtod : List ℕ → Option ℕ) where
  unfoldable pub slot_swap : List Op → Plan → Run Plan (Unit {0})
  unfolding stash migrate tick
  slot_swap build p = run_then (stash p.order [] p) (λ keep p.
      run_then (tick strtod 0 (submit_structure build (submit_removals p.order p))) (λ u p.
        run_then (migrate p.order keep p)
          (λ keep p. tick strtod 0 (submit_defaults build (destroy_orphans keep p)))))
