-- ===== src/Organs/Slot/Leak.antt =====
-- A swap whose structure does not apply.
use sygaldreye.Common.{ℕ, ◌≡◌, List, [], ◌∷◌, ◌++◌, Option, none, eq_bytes_refl}
use sygaldreye.Common.Outcome.{throws, no_linked_native}
use sygaldreye.Common.Maps.{lookup, assign, keep_keys}
use sygaldreye.Crown.{
  Instance, Op, instantiate, destroyed, Plan, linked_named, instantiate_native, erase, remove_found,
}
use sygaldreye.Crown.Wiring.{list_all}
use sygaldreye.Crown.Edits.{apply, apply_all, boundary, tick, exchange_state, type_of}
use sygaldreye.Organs.Slot.{stash, migrate, slot_swap}

abbrev pub build_op : List ℕ → List ℕ → Op
build_op id name = record { what = instantiate; a = id; b = name }

-- When the new structure of a plan of one node names no linked native, the swap throws, and the state
-- of the node, which the plan has forgotten, is not destroyed.
pub slot_swap_leaks :
    (strtod : List ℕ → Option ℕ) (id name new_id new_name : List ℕ) (inst : Instance) (p : Plan)
    → linked_named new_name p.linked ≡ none
    → let p = record p {
      instances = (id, inst) ∷ [];
      order = (id, name) ∷ [];
      edges = [];
      inlet = [];
    } in
      let r = slot_swap strtod (build_op new_id new_name ∷ []) p in
      (r.0 ≡ throws (no_linked_native new_name))
      × (r.1.calls ≡ p.calls ++ (destroyed inst.native.name 0 ∷ []))
      × (r.1.instances ≡ [])
unfolding slot_swap stash migrate type_of exchange_state list_all tick boundary apply_all apply
    instantiate_native remove_found erase keep_keys lookup assign
slot_swap_leaks strtod id name new_id new_name inst p h =
    (simp (h, eq_bytes_refl id), simp (h, eq_bytes_refl id), simp (h, eq_bytes_refl id))
