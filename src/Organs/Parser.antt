-- ===== src/Organs/Parser.antt =====
-- organs/parser/parser.cpp: graph documents and their JSON.
use sygaldreye.Common.{
  ℕ, zero, suc, ◌+◌, ◌/◌, ◌%◌, List, [], ◌∷◌, ◌++◌, Bool, true, false, ◌||◌, Option, none, some,
  eq_bytes, codes, if◌then◌else◌, ltb,
}
use sygaldreye.Common.Outcome.{Outcome, ok, throws, ◌>>=◌, type_error, not_persisted}
use sygaldreye.Formats.Cbor.Json.{
  Json, Items, Fields, null, string, array, object, nil, cons, end, field,
}
use sygaldreye.Naming.Resolver.{member, at, get_string}
use sygaldreye.Naming.Spans.{elements_of}

pub record GraphDoc : Type 0 where
  pub kind : List ℕ
  pub lock : Json
  pub nodes : List (List ℕ × List ℕ)
  pub edges : List (List ℕ × List ℕ)
  pub lift_key : List ℕ
  pub inlets : Json
  pub outlets : Json
  pub defaults : Json

-- nlohmann::json: `value`, `items` and `empty`.
abbrev pub or_default : Json → Option Json → Json
or_default d none = d
or_default d (some v) = v

abbrev pub value_or : List ℕ → Json → Json → Outcome Json
value_or k d (object fs) = ok (or_default d (member k fs))
value_or k d v = throws type_error

-- The decimal digits of an index; a round takes one, so `n` rounds are enough.
abbrev pub digits_of : ℕ → ℕ → List ℕ
digits_of zero n = (b'0' + n % 10) ∷ []
digits_of (suc fuel) n =
    let high = digits_of fuel (n / 10) in
    if ltb n 10 then (b'0' + n) ∷ [] else high ++ ((b'0' + n % 10) ∷ [])

abbrev pub indexed : ℕ → Items → List (List ℕ × Json)
indexed i nil = []
indexed i (cons v xs) = (digits_of i i, v) ∷ indexed (suc i) xs

abbrev pub entries_of : Fields → List (List ℕ × Json)
entries_of end = []
entries_of (field k v fs) = (k, v) ∷ entries_of fs

abbrev pub items : Json → List (List ℕ × Json)
items (object fs) = entries_of fs
items (array xs) = indexed 0 xs
items null = []
items v = ([], v) ∷ []

abbrev pub empty : Json → Bool
empty null = true
empty (array nil) = true
empty (object end) = true
empty v = false

abbrev pub empty_object : Json
empty_object = object end

unfoldable pub node_entries : List (List ℕ × Json) → Outcome (List (List ℕ × List ℕ))
unfolding at
node_entries [] = ok []
node_entries ((id, rec) ∷ rest) = do
  type ← at (codes "type") rec
  name ← get_string type
  nodes ← node_entries rest
  ok ((id, name) ∷ nodes)

unfoldable pub edge_entries : List Json → Outcome (List (List ℕ × List ℕ))
unfolding at
edge_entries [] = ok []
edge_entries (e ∷ rest) = do
  from ← at (codes "from") e
  to ← at (codes "to") e
  f ← get_string from
  t ← get_string to
  edges ← edge_entries rest
  ok ((f, t) ∷ edges)

abbrev pub is_persisted : List ℕ → Bool
is_persisted k =
    eq_bytes k (codes "kind")
    || (eq_bytes k (codes "lock")
        || (eq_bytes k (codes "topology") || eq_bytes k (codes "defaults")))

unfoldable pub check_keys : List (List ℕ × Json) → Outcome (Unit {0})
check_keys [] = ok tt
check_keys ((k, v) ∷ rest) =
    let more = check_keys rest in if is_persisted k then more else throws (not_persisted k)

unfoldable pub parse_graph : Json → Outcome GraphDoc
unfolding at node_entries edge_entries check_keys
parse_graph j = do
  kind ← at (codes "kind") j
  kind_name ← get_string kind
  lock ← value_or (codes "lock") empty_object j
  topo ← at (codes "topology") j
  recs ← at (codes "nodes") topo
  nodes ← node_entries (items recs)
  links ← value_or (codes "edges") (array nil) topo
  edges ← edge_entries (elements_of links)
  lift ← value_or (codes "lift_key") (string []) topo
  lift_key ← get_string lift
  inlets ← value_or (codes "inlets") empty_object topo
  outlets ← value_or (codes "outlets") empty_object topo
  defaults ← value_or (codes "defaults") empty_object j
  checked ← check_keys (items j)
  ok (record {
    kind = kind_name;
    lock = lock;
    nodes = nodes;
    edges = edges;
    lift_key = lift_key;
    inlets = inlets;
    outlets = outlets;
    defaults = defaults;
  })

-- `nodes[id] = v` on an ordered_json: a new key comes last.
abbrev pub put_last : List ℕ → Json → Fields → Fields
put_last k v end = field k v end
put_last k v (field j w fs) =
    let rest = put_last k v fs in if eq_bytes j k then field j v fs else field j w rest

abbrev pub type_record : List ℕ → Json
type_record type = object (field (codes "type") (string type) end)

abbrev pub node_fields : List (List ℕ × List ℕ) → Fields → Fields
node_fields [] fs = fs
node_fields ((id, type) ∷ rest) fs = node_fields rest (put_last id (type_record type) fs)

-- A null before its first key.
abbrev pub nodes_json : List (List ℕ × List ℕ) → Json
nodes_json [] = null
nodes_json (n ∷ nodes) = object (node_fields (n ∷ nodes) end)

abbrev pub edge_items : List (List ℕ × List ℕ) → Items
edge_items [] = nil
edge_items ((f, t) ∷ rest) =
    cons (object (field (codes "from") (string f) (field (codes "to") (string t) end)))
      (edge_items rest)

abbrev pub unless_empty : List ℕ → Json → Fields → Fields
unless_empty k v fs = if empty v then fs else field k v fs

abbrev pub lift_field : List ℕ → Fields → Fields
lift_field [] fs = fs
lift_field (c ∷ cs) fs = field (codes "lift_key") (string (c ∷ cs)) fs

unfoldable pub topology_of : GraphDoc → Json
topology_of g = object (
    field (codes "nodes") (nodes_json g.nodes) (
      field (codes "edges") (array (edge_items g.edges)) (
        lift_field g.lift_key
          (unless_empty (codes "inlets") g.inlets (unless_empty (codes "outlets") g.outlets end)))))

unfoldable pub serialize_graph : GraphDoc → Json
unfolding topology_of
serialize_graph g = object (
    field (codes "kind") (string g.kind) (
      field (codes "lock") g.lock
        (field (codes "topology") (topology_of g) (field (codes "defaults") g.defaults end))))
