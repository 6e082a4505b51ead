-- ===== src/Executor/Regions/Runs.antt =====
-- The regions of a concrete graph.
use sygaldreye.Common.{ℕ, ◌≡◌, refl, List, [], ◌∷◌, true, false, codes}
use sygaldreye.Common.Outcome.{ok}
use sygaldreye.Common.Maps.{lookup, assign}
use sygaldreye.Formats.Packing.{index_from}
use sygaldreye.Formats.Cbor.Json.{object, end}
use sygaldreye.Crown.{PortDecl, NativeType, before_slash, after_slash}
use sygaldreye.Naming.Oracle.{judged, clocked}
use sygaldreye.Organs.Parser.{GraphDoc}
use sygaldreye.Executor.Regions.{
  port_named, type_node, type_nodes, sinks, grow_pass, grow, carries_block, place, place_edge,
  place_edges, infer_regions, region_map_of,
}
use sygaldreye.Executor.Regions.Passes.{IsLeast}
use sygaldreye.Executor.Regions.Closure.{infer_regions-IsLeast}

abbrev port : List ℕ → PortDecl
port discipline = record { name = codes "p"; kind = codes "audio"; discipline = discipline }

abbrev native : List ℕ → List PortDecl → List PortDecl → NativeType
native name ins outs = record {
  name = name;
  in_ports = ins;
  out_ports = outs;
  clocked = false;
  is_mapping = false;
  resource_holder = false;
}

abbrev natives : List NativeType
natives =
    native (codes "osc") (port (codes "value") ∷ []) (port (codes "block") ∷ [])
    ∷ native (codes "dac") (port (codes "block") ∷ []) []
    ∷ native (codes "knob") [] (port (codes "value") ∷ [])
    ∷ []

-- A knob sets an oscillator that plays; another knob sets nothing.
abbrev patch : GraphDoc
patch = record {
  kind = codes "graph";
  lock = object end;
  nodes =
      (codes "k", codes "knob")
      ∷ (codes "o", codes "osc")
      ∷ (codes "d", codes "dac")
      ∷ (codes "u", codes "knob")
      ∷ [];
  edges = (codes "k/p", codes "o/p") ∷ (codes "o/p", codes "d/p") ∷ [];
  lift_key = [];
  inlets = object end;
  outlets = object end;
  defaults = object end;
}

patch_regions :
    infer_regions (λ kind. false) natives patch
    ≡ ok (record {
      block = codes "o" ∷ codes "d" ∷ [];
      frame = codes "k" ∷ codes "u" ∷ [];
      mappings = [];
      inert = codes "u" ∷ [];
      errors = [];
    })
unfolding infer_regions type_nodes type_node sinks grow grow_pass carries_block port_named
    place_edges place_edge place judged clocked before_slash after_slash lookup assign index_from
patch_regions = refl

infer_regions-IsLeast_example :
    let typed = type_nodes natives patch.nodes [] [] in
    (block demanded : List (List ℕ)) × (infer_regions (λ kind. false) natives patch
      ≡ ok (region_map_of (λ kind. false) patch typed block demanded))
    × IsLeast (carries_block typed.0) patch.edges (sinks typed.0 []) block
    × IsLeast (λ e. true) patch.edges block demanded
infer_regions-IsLeast_example = infer_regions-IsLeast (λ kind. false) natives patch
