-- ===== src/Organs/Subgraph/Cycles.antt =====
-- Templates that contain themselves.
use sygaldreye.Common.{
  ℕ, zero, suc, ◌≡◌, refl, ap, ◌∙◌, List, [], ◌∷◌, Option, none, some, eq_bytes_refl,
}
use sygaldreye.Common.Outcome.{ok, throws, stuck, ◌>>=◌, template_cycle}
use sygaldreye.Formats.Cbor.Json.{Json}
use sygaldreye.Crown.{NativeType}
use sygaldreye.Organs.Parser.{GraphDoc, parse_graph}
use sygaldreye.Organs.Subgraph.{
  native_named, expand_node, expand_nodes, expand, holder_in, holder_among, holder_within,
}

-- A template whose first node is of its own type: `expand` throws, but the search for a resource
-- holder has no end, whatever depth it is given.
pub holder_within-cycle :
    (natives : List NativeType) (load : List ℕ → Option Json) (id type : List ℕ)
    (later : List (List ℕ × List ℕ)) (tj : Json) (doc : GraphDoc) (fuel : ℕ)
    → native_named type natives ≡ none
    → load type ≡ some tj
    → parse_graph tj ≡ ok doc
    → doc.nodes ≡ (id, type) ∷ later
    → (holder_within natives load fuel tj ≡ stuck)
      × (expand natives load (suc fuel) doc (type ∷ []) ≡ throws (template_cycle type))
unfolding holder_within holder_among holder_in expand expand_nodes expand_node
holder_within-cycle natives load id type later tj doc fuel unlinked loads parses nodes =
    (searching fuel, rw (expand, nodes, unlinked, loads, eq_bytes_refl type))
  where
    searching : (fuel : ℕ) → holder_within natives load fuel tj ≡ stuck
    searching zero = refl
    searching (suc fuel) =
        ap
          (λ o. o >>= λ (doc : GraphDoc).
            holder_among natives load (holder_within natives load fuel) doc.nodes)
          parses
        ∙ ap (holder_among natives load (holder_within natives load fuel)) nodes
        ∙ rw (unlinked, loads, searching fuel)
