-- ===== src/Executor/Regions.antt =====
-- executor/regions.cpp: which nodes run in the block region, and in what order.
pub mod Passes
pub mod Closure
mod Runs
use sygaldreye.Common.{
  ℕ, zero, suc, ◌+◌, ◌-◌, List, [], ◌∷◌, ◌++◌, Bool, true, false, not, ◌&&◌, ◌||◌, Option, none,
  some, eq_bytes, codes, if◌then◌else◌, length, ◌==◌,
}
use sygaldreye.Common.Outcome.{Outcome, ok, throws, stuck, ◌>>=◌}
use sygaldreye.Common.Maps.{lookup, assign}
use sygaldreye.Crown.{PortDecl, NativeType, before_slash, after_slash}
use sygaldreye.Naming.Oracle.{Promise, Verdict, judged}
use sygaldreye.Organs.Parser.{GraphDoc}

pub record Boundary : Type 0 where
  pub edge : ℕ
  pub mapping : List ℕ

-- The texts of `errors`, with what they name.
pub data RegionError : Type 0 where
  unknown_node_type : List ℕ → List ℕ → RegionError
  no_such_port : ℕ → RegionError
  illegal_edge : ℕ → List ℕ → List ℕ → RegionError

pub record RegionMap : Type 0 where
  pub block : List (List ℕ)
  pub frame : List (List ℕ)
  pub mappings : List Boundary
  pub inert : List (List ℕ)
  pub errors : List RegionError

abbrev pub Edge : Type 0
Edge = List ℕ × List ℕ

unfoldable pub port_named : List PortDecl → List ℕ → Option PortDecl
port_named [] name = none
port_named (p ∷ ports) name =
    let rest = port_named ports name in if eq_bytes name p.name then some p else rest

abbrev pub Types : Type 0
Types = List (List ℕ × NativeType)

-- `types[id] = n` for each native of the name: the last one stays.
unfoldable pub type_node : List ℕ → List ℕ → List NativeType → Types → Types
type_node id name [] types = types
type_node id name (n ∷ natives) types =
    type_node id name natives (if eq_bytes name n.name then assign id n types else types)

abbrev pub is_known : List ℕ → Types → Bool
is_known id types = elim (lookup id types) [ none ↦ false | some t ↦ true ]

unfoldable pub type_nodes :
    List NativeType → List (List ℕ × List ℕ) → Types → List RegionError → Types × List RegionError
unfolding type_node
type_nodes natives [] types errors = (types, errors)
type_nodes natives ((id, name) ∷ nodes) types errors =
    let typed = type_node id name natives types in
    type_nodes natives nodes typed
      (if is_known id typed then errors else errors ++ (unknown_node_type name id ∷ []))

-- std::set, by its members.
abbrev pub holds : List ℕ → List (List ℕ) → Bool
holds id [] = false
holds id (x ∷ xs) = eq_bytes x id || holds id xs

abbrev pub insert : List ℕ → List (List ℕ) → List (List ℕ)
insert id xs = if holds id xs then xs else id ∷ xs

abbrev pub is_block : PortDecl → Bool
is_block p = eq_bytes p.discipline (codes "block")

abbrev pub any_block : List PortDecl → Bool
any_block [] = false
any_block (p ∷ ports) = is_block p || any_block ports

abbrev pub no_ports : List PortDecl → Bool
no_ports [] = true
no_ports (p ∷ ports) = false

unfoldable pub sinks : Types → List (List ℕ) → List (List ℕ)
sinks [] block = block
sinks ((id, t) ∷ types) block =
    sinks types (if any_block t.in_ports && no_ports t.out_ports then insert id block else block)

-- One pass of a `while` loop over the edges: the source of an edge that carries membership joins its
-- destination. The answer is the set, and whether it grew.
unfoldable pub grow_pass : (Edge → Bool) → List Edge → List (List ℕ) × Bool → List (List ℕ) × Bool
grow_pass carries [] r = r
grow_pass carries ((from, to) ∷ edges) (members, grew) = grow_pass carries edges (
    if holds (before_slash to) members
      && (not (holds (before_slash from) members) && carries (from, to))
    then (before_slash from ∷ members, true)
    else (members, grew))

-- The loop. A pass that grows the set takes an edge from those whose source is outside, so a round
-- for each edge and one more are enough.
unfoldable pub grow : ℕ → (Edge → Bool) → List Edge → List (List ℕ) → Outcome (List (List ℕ))
unfolding grow_pass
grow zero carries edges members = stuck
grow (suc fuel) carries edges members =
    let pass = grow_pass carries edges (members, false) in
    let more = grow fuel carries edges pass.0 in if pass.1 then more else ok pass.0

abbrev pub port_is_block : Option PortDecl → Bool
port_is_block none = false
port_is_block (some p) = is_block p

abbrev pub source_port : Edge → Option NativeType → Option PortDecl
source_port e none = none
source_port e (some t) = port_named t.out_ports (after_slash e.0)

abbrev pub target_port : Edge → Option NativeType → Option PortDecl
target_port e none = none
target_port e (some t) = port_named t.in_ports (after_slash e.1)

-- A stream edge at the block clock between known nodes.
unfoldable pub carries_block : Types → Edge → Bool
unfolding port_named
carries_block types e =
    is_known (before_slash e.0) types
    && (is_known (before_slash e.1) types
        && port_is_block (source_port e (lookup (before_slash e.0) types)))

abbrev pub split_nodes : List (List ℕ) → List (List ℕ × List ℕ) → List (List ℕ) × List (List ℕ)
split_nodes block [] = ([], [])
split_nodes block ((id, name) ∷ nodes) =
    let rest = split_nodes block nodes in
    if holds id block then (id ∷ rest.0, rest.1) else (rest.0, id ∷ rest.1)

abbrev pub is_unclocked : Option NativeType → Bool
is_unclocked none = false
is_unclocked (some t) = not t.clocked

abbrev pub inert_of : Types → List (List ℕ) → List (List ℕ) → List (List ℕ)
inert_of types demanded [] = []
inert_of types demanded (id ∷ frame) =
    let rest = inert_of types demanded frame in
    if not (holds id demanded) && is_unclocked (lookup id types) then id ∷ rest else rest

abbrev pub is_mapped : Option NativeType → Bool
is_mapped none = false
is_mapped (some t) = t.is_mapping

abbrev pub no_mapping : List ℕ → Bool
no_mapping [] = true
no_mapping (c ∷ cs) = false

-- A snapshot into the block region is a latch: its consumer is clocked.
abbrev pub mapping_into : Bool → List ℕ → List ℕ
mapping_into into_block mapping =
    if eq_bytes mapping (codes "snapshot") && into_block then codes "latch" else mapping

abbrev pub promise_of : PortDecl → Promise
promise_of p = record { kind = p.kind; discipline = p.discipline }

pub data Placed : Type 0 where
  nothing : Placed
  mapped : Boundary → Placed
  refused : RegionError → Placed

module _ (structured_kind : List ℕ → Bool) where
  unfoldable pub place :
      List (List ℕ) → ℕ → Edge → Option NativeType → Option PortDecl → Option PortDecl → Placed
  unfolding judged
  place block i e dst_type (some sp) (some dp) =
      let v = judged structured_kind (promise_of sp) (promise_of dp) in
      if not v.legal
      then refused (illegal_edge i e.0 e.1)
      else if is_mapped dst_type
      then nothing
      else if not (no_mapping v.mapping)
      then mapped
          (record { edge = i; mapping = mapping_into (holds (before_slash e.1) block) v.mapping })
      else if holds (before_slash e.0) block && not (holds (before_slash e.1) block)
      then mapped (record { edge = i; mapping = codes "snapshot" })
      else nothing
  place block i e dst_type _ _ = refused (no_such_port i)

  unfoldable pub place_edge : Types → List (List ℕ) → ℕ → Edge → Placed
  unfolding place port_named
  place_edge types block i e =
      let src = lookup (before_slash e.0) types in
      let dst = lookup (before_slash e.1) types in
      if is_known (before_slash e.0) types && is_known (before_slash e.1) types
      then place block i e dst (source_port e src) (target_port e dst)
      else nothing

  abbrev pub with_placed :
      Placed → List Boundary × List RegionError → List Boundary × List RegionError
  with_placed nothing r = r
  with_placed (mapped b) r = (r.0 ++ (b ∷ []), r.1)
  with_placed (refused x) r = (r.0, r.1 ++ (x ∷ []))

  unfoldable pub place_edges :
      Types
      → List (List ℕ)
      → ℕ
      → List Edge
      → List Boundary × List RegionError
      → List Boundary × List RegionError
  unfolding place_edge
  place_edges types block i [] r = r
  place_edges types block i (e ∷ edges) r =
      place_edges types block (suc i) edges (with_placed (place_edge types block i e) r)

  abbrev pub region_map_of :
      GraphDoc → Types × List RegionError → List (List ℕ) → List (List ℕ) → RegionMap
  region_map_of g typed block demanded =
      let nodes = split_nodes block g.nodes in
      let placed = place_edges typed.0 block 0 g.edges ([], typed.1) in
      record {
        block = nodes.0;
        frame = nodes.1;
        mappings = placed.0;
        inert = inert_of typed.0 demanded nodes.1;
        errors = placed.1;
      }

  unfoldable pub infer_regions : List NativeType → GraphDoc → Outcome RegionMap
  unfolding type_nodes sinks grow carries_block place_edges
  infer_regions natives g = do
    block ←
        grow (suc (length g.edges)) (carries_block (type_nodes natives g.nodes [] []).0) g.edges
          (sinks (type_nodes natives g.nodes [] []).0 [])
    demanded ← grow (suc (length g.edges)) (λ e. true) g.edges block
    ok (region_map_of g (type_nodes natives g.nodes [] []) block demanded)
