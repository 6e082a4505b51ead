-- ===== src/Crown/Failures.antt =====
-- What a tick leaves behind when an edit fails.
use sygaldreye.Common.{ℕ, ◌≡◌, ap, ◌∙◌, List, [], ◌∷◌, ◌++◌, Option, none, some, eq_bytes_refl}
use sygaldreye.Common.Outcome.{throws, fault, run_then, no_linked_native, out_of_range}
use sygaldreye.Common.Maps.{lookup, assign, keep_keys}
use sygaldreye.Crown.{
  NativeType, Instance, Op, instantiate, link, remove, created, processed, Plan, new_plan,
  linked_named, instantiate_native, erase, remove_found, silent,
}
use sygaldreye.Crown.Wiring.{
  wire_of, connect_all, as_node, list_all, rewire, with_serial, process_one, process_all,
}
use sygaldreye.Crown.Live.{all_live-silent}
use sygaldreye.Crown.Edits.{apply, apply_all, boundary, tick}

module _ (strtod : List ℕ → Option ℕ) where
  abbrev link_op : List ℕ → List ℕ → Op
  link_op from to = record { what = link; a = from; b = to }

  abbrev node_op : List ℕ → List ℕ → Op
  node_op id name = record { what = instantiate; a = id; b = name }

  abbrev remove_op : List ℕ → Op
  remove_op id = record { what = remove; a = id; b = [] }

  -- An op that names no linked native is thrown at every tick, and the ops before it, which are not
  -- taken from the inlet, take effect at each: the edge is there once more.
  pub tick_repeats :
      (frames : ℕ) (from to id name : List ℕ) (later : List Op) (p : Plan)
      → linked_named name p.linked ≡ none
      → p.inlet ≡ link_op from to ∷ node_op id name ∷ later
      → tick strtod frames p
        ≡ (throws (no_linked_native name), record p { edges = p.edges ++ ((from, to) ∷ []) })
  unfolding tick boundary apply_all apply instantiate_native
  tick_repeats frames from to id name later p h e =
      ap (λ l. run_then (boundary strtod l p) (λ u p. process_all frames p.ticklist p)) e ∙ rw h

  -- A node that is instantiated again under its id stands in the order twice: its new instance is
  -- processed twice in a tick, and the state of the old one is never destroyed.
  pub tick_twice :
      (frames : ℕ) (id name : List ℕ) (t : NativeType) (linked : List NativeType)
      → linked_named name linked ≡ some t
      → (tick strtod frames
          (record (new_plan linked) { inlet = node_op id name ∷ node_op id name ∷ [] })).1.calls
        ≡ created t.name 1
          ∷ created t.name 2
          ∷ processed 2 (silent t.in_ports) frames
          ∷ processed 2 (silent t.in_ports) frames
          ∷ []
  unfolding tick boundary apply_all apply instantiate_native assign rewire connect_all list_all
      lookup process_all process_one with_serial
  tick_twice frames id name t linked h = simp (h, eq_bytes_refl id, all_live-silent)

  -- When the edits of a boundary remove the node of a plan of one node and then fail to wire an edge,
  -- the ticklist still has the node: the tick throws, and the one after it reads what is gone.
  pub tick_dangles :
      (frames frames' : ℕ) (id name from to : List ℕ) (inst : Instance) (p : Plan)
      → let p = record p {
        instances = (id, inst) ∷ [];
        order = (id, name) ∷ [];
        edges = [];
        ticklist = as_node inst ∷ [];
        inlet = remove_op id ∷ link_op from to ∷ [];
      } in
        let q = (tick strtod frames p).1 in
        ((tick strtod frames p).0 ≡ throws out_of_range) × ((tick strtod frames' q).0 ≡ fault)
  unfolding tick boundary apply_all apply remove_found erase keep_keys rewire connect_all wire_of
      lookup process_all process_one with_serial
  tick_dangles frames frames' id name from to inst p =
      (simp (eq_bytes_refl id), simp (eq_bytes_refl id))
