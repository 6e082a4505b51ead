-- ===== src/Organs/Runs.antt =====
-- Graph documents and templates at concrete inputs.
use sygaldreye.Common.{ℕ, ◌≡◌, refl, List, [], ◌∷◌, false, Option, none, some, codes}
use sygaldreye.Common.Outcome.{ok, throws, stuck, template_cycle, no_linked_native}
use sygaldreye.Common.Maps.{lookup, assign}
use sygaldreye.Formats.Packing.{index_from}
use sygaldreye.Formats.Cbor.Json.{Json, string, object, field, end}
use sygaldreye.Crown.{
  NativeType, Instance, destroyed, Plan, new_plan, linked_named, before_slash, after_slash,
}
use sygaldreye.Organs.Slot.{slot_swap}
use sygaldreye.Organs.Slot.Leak.{build_op, slot_swap_leaks}
use sygaldreye.Naming.Resolver.{at}
use sygaldreye.Organs.Parser.{GraphDoc, parse_graph, node_entries, edge_entries, check_keys}
use sygaldreye.Organs.Subgraph.{
  native_named, expand, expand_nodes, expand_node, rewire, rewire_edges, rewire_defaults,
  dotted_defaults, holder_within,
}
use sygaldreye.Organs.Subgraph.Cycles.{holder_within-cycle}

-- A template of one node of its own type.
abbrev loop_json : Json
loop_json = object (
    field (codes "kind") (string (codes "graph")) (
      field (codes "topology")
        (object (
          field (codes "nodes")
            (object
              (field (codes "x") (object (field (codes "type") (string (codes "loop")) end)) end))
            end))
        end))

abbrev loop_doc : GraphDoc
loop_doc = record {
  kind = codes "graph";
  lock = object end;
  nodes = (codes "x", codes "loop") ∷ [];
  edges = [];
  lift_key = [];
  inlets = object end;
  outlets = object end;
  defaults = object end;
}

loop_parses : parse_graph loop_json ≡ ok loop_doc
unfolding parse_graph node_entries edge_entries check_keys at
loop_parses = refl

abbrev only_loop : List ℕ → Option Json
only_loop type = some loop_json

unlinked : native_named (codes "loop") [] ≡ none
unfolding native_named
unlinked = refl

holder_within-cycle_example :
    (holder_within [] only_loop 5 loop_json ≡ stuck)
    × (expand [] only_loop 6 loop_doc (codes "loop" ∷ []) ≡ throws (template_cycle (codes "loop")))
holder_within-cycle_example =
    holder_within-cycle [] only_loop (codes "x") (codes "loop") [] loop_json loop_doc 5 unlinked
      refl loop_parses refl

-- A graph with a template in it, whose inlet and outlet are rewired.
abbrev gain : NativeType
gain = record {
  name = codes "gain";
  in_ports = [];
  out_ports = [];
  clocked = false;
  is_mapping = false;
  resource_holder = false;
}

abbrev echo_json : Json
echo_json = object (
    field (codes "kind") (string (codes "graph")) (
      field (codes "topology")
        (object (
          field (codes "inlets") (object (field (codes "in") (string (codes "g/a")) end)) (
            field (codes "nodes")
              (object
                (field (codes "g") (object (field (codes "type") (string (codes "gain")) end)) end))
              (field (codes "outlets") (object (field (codes "out") (string (codes "g/b")) end))
                end))))
        end))

abbrev track : GraphDoc
track = record loop_doc {
  nodes = (codes "e", codes "echo") ∷ (codes "h", codes "gain") ∷ [];
  edges = (codes "e/out", codes "h/a") ∷ [];
  defaults = object (field (codes "e/in") (string (codes "1")) end);
}

track_expanded :
    expand (gain ∷ []) (λ type. some echo_json) 2 track []
    ≡ ok (record track {
      nodes = (codes "e.g", codes "gain") ∷ (codes "h", codes "gain") ∷ [];
      edges = (codes "e.g/b", codes "h/a") ∷ [];
      defaults = object (field (codes "e.g/a") (string (codes "1")) end);
    })
unfolding expand expand_nodes expand_node native_named rewire rewire_edges rewire_defaults
    dotted_defaults parse_graph node_entries edge_entries check_keys at before_slash after_slash
    index_from lookup assign
track_expanded = refl

-- A plan of one node, which is to be rebuilt from a name that is not linked.
abbrev kept : Instance
kept = record { serial = 1; native = gain; state = 7; ins = [] }

abbrev before_swap : Plan
before_swap = record (new_plan (gain ∷ [])) {
  instances = (codes "a", kept) ∷ [];
  order = (codes "a", codes "gain") ∷ [];
}

not_linked : linked_named (codes "gone") (gain ∷ []) ≡ none
unfolding linked_named
not_linked = refl

slot_swap_leaks_example :
    let r = slot_swap (λ text. none) (build_op (codes "b") (codes "gone") ∷ []) before_swap in
    (r.0 ≡ throws (no_linked_native (codes "gone")))
    × (r.1.calls ≡ destroyed (codes "gain") 0 ∷ [])
    × (r.1.instances ≡ [])
slot_swap_leaks_example =
    slot_swap_leaks (λ text. none) (codes "a") (codes "gain") (codes "b") (codes "gone") kept
      before_swap not_linked
