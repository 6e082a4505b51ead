-- ===== src/Organs/Subgraph.antt =====
-- organs/subgraph/subgraph.cpp: templates that are expanded in place.
pub mod Cycles
use sygaldreye.Common.{
  ℕ, zero, suc, ◌+◌, List, [], ◌∷◌, ◌++◌, Bool, true, false, not, ◌&&◌, ◌||◌, Option, none, some,
  eq_bytes, codes, if◌then◌else◌,
}
use sygaldreye.Common.Outcome.{
  Outcome, ok, throws, fault, stuck, ◌>>=◌, no_node_type, template_cycle, no_subgraph_port,
  type_error,
}
use sygaldreye.Common.Maps.{lookup, assign}
use sygaldreye.Formats.Cbor.Json.{Json, Fields, object, end, string, put_field}
use sygaldreye.Crown.{NativeType, before_slash, after_slash}
use sygaldreye.Naming.Resolver.{member, at, get_string, contains}
use sygaldreye.Organs.Parser.{GraphDoc, parse_graph, items, put_last, empty_object}

unfoldable pub native_named : List ℕ → List NativeType → Option NativeType
native_named name [] = none
native_named name (t ∷ natives) =
    let rest = native_named name natives in if eq_bytes name t.name then some t else rest

-- `id + "." + inner`.
abbrev pub dotted : List ℕ → List ℕ → List ℕ
dotted id inner = id ++ (b'.' ∷ inner)

abbrev pub dotted_nodes : List ℕ → List (List ℕ × List ℕ) → List (List ℕ × List ℕ)
dotted_nodes id [] = []
dotted_nodes id ((inner, type) ∷ nodes) = (dotted id inner, type) ∷ dotted_nodes id nodes

abbrev pub dotted_edges : List ℕ → List (List ℕ × List ℕ) → List (List ℕ × List ℕ)
dotted_edges id [] = []
dotted_edges id ((f, t) ∷ edges) = (dotted id f, dotted id t) ∷ dotted_edges id edges

-- `defaults[route] = v`: the defaults are an object.
abbrev pub set_default : List ℕ → Json → GraphDoc → GraphDoc
set_default route v g = elim g.defaults [
  | object fs ↦ record g { defaults = object (put_last route v fs) }
  | _ ↦ g
]

unfoldable pub dotted_defaults : List ℕ → List (List ℕ × Json) → GraphDoc → GraphDoc
dotted_defaults id [] g = g
dotted_defaults id ((route, v) ∷ rest) g =
    dotted_defaults id rest (set_default (dotted id route) v g)

abbrev pub Spawned : Type 0
Spawned = List (List ℕ × GraphDoc)

-- The templates that are being expanded.
abbrev pub on_stack : List ℕ → List (List ℕ) → Bool
on_stack type [] = false
on_stack type (t ∷ stack) = eq_bytes t type || on_stack type stack

abbrev pub splice : List ℕ → GraphDoc → GraphDoc → GraphDoc
splice id inner out = dotted_defaults id (items inner.defaults) (record out {
  nodes = out.nodes ++ dotted_nodes id inner.nodes;
  edges = out.edges ++ dotted_edges id inner.edges;
})

abbrev pub add_node : List ℕ → List ℕ → GraphDoc → GraphDoc
add_node id type out = record out { nodes = out.nodes ++ ((id, type) ∷ []) }

abbrev pub port_of : List ℕ → List ℕ → Json → Outcome (List ℕ)
port_of id port map =
    if contains port map then (at port map >>= get_string) else throws (no_subgraph_port id port)

abbrev pub rewired : List ℕ → List ℕ → Bool → Option GraphDoc → Outcome (List ℕ)
rewired route id inlet none = ok route
rewired route id inlet (some inner) = do
  target ← port_of id (after_slash route) (if inlet then inner.inlets else inner.outlets)
  ok (dotted id target)

unfoldable pub rewire : Spawned → Bool → List ℕ → Outcome (List ℕ)
rewire spawned inlet route =
    rewired route (before_slash route) inlet (lookup (before_slash route) spawned)

unfoldable pub rewire_edges : Spawned → List (List ℕ × List ℕ) → GraphDoc → Outcome GraphDoc
unfolding rewire
rewire_edges spawned [] out = ok out
rewire_edges spawned ((f, t) ∷ edges) out = do
  from ← rewire spawned false f
  to ← rewire spawned true t
  rewire_edges spawned edges (record out { edges = out.edges ++ ((from, to) ∷ []) })

-- A route of a node that was not spawned is as it was.
unfoldable pub rewire_defaults : Spawned → List (List ℕ × Json) → GraphDoc → Outcome GraphDoc
unfolding rewire
rewire_defaults spawned [] out = ok out
rewire_defaults spawned ((route, v) ∷ rest) out = do
  to ← rewire spawned true route
  rewire_defaults spawned rest (set_default to v out)

abbrev pub emptied : GraphDoc → GraphDoc
emptied doc = record doc { nodes = []; edges = []; defaults = empty_object }

pub record Expanding : Type 0 where
  pub out : GraphDoc
  pub spawned : Spawned

abbrev pub spawn : List ℕ → GraphDoc → Expanding → Expanding
spawn id inner x = record { out = splice id inner x.out; spawned = assign id inner x.spawned }

-- `load` is the caller's: the JSON of a template.
module _ (natives : List NativeType) (load : List ℕ → Option Json) where
  abbrev pub loaded : List ℕ → Option Json → Outcome Json
  loaded type none = throws (no_node_type type)
  loaded type (some j) = ok j

  -- One node, with the expansion of a template on a stack.
  unfoldable pub expand_node :
      (GraphDoc → List (List ℕ) → Outcome GraphDoc)
      → List (List ℕ)
      → List ℕ × List ℕ
      → Option NativeType
      → Expanding
      → Outcome Expanding
  expand_node expand stack (id, type) (some t) x = ok (record x { out = add_node id type x.out })
  expand_node expand stack (id, type) none x = do
    tj ← loaded type (load type)
    inner ←
        (if on_stack type stack
          then throws (template_cycle type)
          else (parse_graph tj >>= λ doc. expand doc (type ∷ stack)))
    ok (spawn id inner x)

  unfoldable pub expand_nodes :
      (GraphDoc → List (List ℕ) → Outcome GraphDoc)
      → List (List ℕ)
      → List (List ℕ × List ℕ)
      → Expanding
      → Outcome Expanding
  unfolding native_named expand_node
  expand_nodes expand stack [] x = ok x
  expand_nodes expand stack (n ∷ nodes) x = do
    y ← expand_node expand stack n (native_named n.1 natives) x
    expand_nodes expand stack nodes y

  -- A level for each template that is being expanded.
  unfoldable pub expand : ℕ → GraphDoc → List (List ℕ) → Outcome GraphDoc
  unfolding expand_nodes rewire_edges rewire_defaults
  expand zero doc stack = stuck
  expand (suc fuel) doc stack = do
    x ← expand_nodes (expand fuel) stack doc.nodes (record { out = emptied doc; spawned = [] })
    out ← rewire_edges x.spawned doc.edges x.out
    rewire_defaults x.spawned (items doc.defaults) out

  abbrev pub expand_subgraphs : ℕ → GraphDoc → Outcome GraphDoc
  expand_subgraphs fuel doc = expand fuel doc []

  -- The route of a resource holder, and its type.
  pub data Holder : Type 0 where
    free : Holder
    held : List ℕ → List ℕ → Holder

  abbrev pub held_within : List ℕ → Holder → Holder
  held_within id free = free
  held_within id (held route type) = held (dotted id route) type

  abbrev pub or_held : Holder → Outcome Holder → Outcome Holder
  or_held free rest = rest
  or_held (held route type) rest = ok (held route type)

  abbrev pub native_holder : List ℕ → List ℕ → NativeType → Holder
  native_holder id type t = if t.resource_holder then held id type else free

  unfoldable pub holder_in :
      (Json → Outcome Holder) → List ℕ × List ℕ → Option NativeType → Option Json → Outcome Holder
  holder_in within (id, type) (some t) tj = ok (native_holder id type t)
  holder_in within (id, type) none none = ok free
  holder_in within (id, type) none (some tj) = do inner ← within tj; ok (held_within id inner)

  unfoldable pub holder_among : (Json → Outcome Holder) → List (List ℕ × List ℕ) → Outcome Holder
  unfolding native_named holder_in
  holder_among within [] = ok free
  holder_among within (n ∷ nodes) = do
    h ← holder_in within n (native_named n.1 natives) (load n.1)
    or_held h (holder_among within nodes)

  unfoldable pub holder_within : ℕ → Json → Outcome Holder
  unfolding holder_among
  holder_within zero j = stuck
  holder_within (suc fuel) j = do doc ← parse_graph j; holder_among (holder_within fuel) doc.nodes
