-- ===== src/Crown.antt =====
-- crown/crown.cpp: a plan of instances of linked natives, edited at the boundary of a tick.
pub mod Wiring
pub mod Edits
pub mod Live
pub mod Ticks
pub mod Failures
pub mod Tape
mod Runs
use sygaldreye.Common.{
  ℕ, zero, suc, ◌+◌, List, [], ◌∷◌, ◌++◌, map, Bool, true, false, not, ◌&&◌, ◌||◌, Option, none,
  some, length, drop, take, ◌==◌, eq_bytes, if◌then◌else◌,
}
use sygaldreye.Common.Outcome.{
  Outcome, ok, throws, fault, ◌>>=◌, Run, run_then, no_linked_native, no_node, no_port,
  out_of_range,
}
use sygaldreye.Common.Maps.{lookup, assign, keep_keys}
use sygaldreye.Formats.Packing.{index_from}

-- The declarations of crown.hpp. The functions of a native are outside of the program: its calls of
-- them are recorded.
pub record PortDecl : Type 0 where
  pub name : List ℕ
  pub kind : List ℕ
  pub discipline : List ℕ

pub record NativeType : Type 0 where
  pub name : List ℕ
  pub in_ports : List PortDecl
  pub out_ports : List PortDecl
  pub clocked : Bool
  pub is_mapping : Bool
  pub resource_holder : Bool

pub data OpKind : Type 0 where
  instantiate link unlink remove write_default : OpKind

pub record Op : Type 0 where
  pub what : OpKind
  pub a : List ℕ
  pub b : List ℕ

-- What an input pointer points at: the silence, or an output buffer of the instance with a serial.
pub data Source : Type 0 where
  silence : Source
  buffer : ℕ → ℕ → Source

-- An instance has a serial for its address, and a pointer to its state.
pub record Instance : Type 0 where
  pub serial : ℕ
  pub native : NativeType
  pub state : ℕ
  pub ins : List Source

-- An entry of the ticklist: the state, and the instance whose vectors `in` and `out` point into.
pub record Ticked : Type 0 where
  pub state : ℕ
  pub serial : ℕ

-- The calls of natives.
pub data Call : Type 0 where
  created destroyed : List ℕ → ℕ → Call
  set_num : ℕ → List ℕ → ℕ → Call
  set_text : ℕ → List ℕ → List ℕ → Call
  processed : ℕ → List Source → ℕ → Call

pub record Plan : Type 0 where
  pub linked : List NativeType
  pub order : List (List ℕ × List ℕ)
  pub instances : List (List ℕ × Instance)
  pub edges : List (List ℕ × List ℕ)
  pub defaults : List (List ℕ × List ℕ)
  pub inlet : List Op
  pub ticklist : List Ticked
  pub next_serial : ℕ
  pub calls : List Call

abbrev pub new_plan : List NativeType → Plan
new_plan linked = record {
  linked = linked;
  order = [];
  instances = [];
  edges = [];
  defaults = [];
  inlet = [];
  ticklist = [];
  next_serial = 1;
  calls = [];
}

abbrev pub submit : Op → Plan → Plan
submit o p = record p { inlet = p.inlet ++ (o ∷ []) }

abbrev pub called : Call → Plan → Plan
called c p = record p { calls = p.calls ++ (c ∷ []) }

-- `substr(0, find('/'))` and `substr(find('/') + 1)`: without a slash, both are the whole text.
unfoldable pub before_slash : List ℕ → List ℕ
before_slash route = elim (index_from 0 route b'/') [ none ↦ route | some at ↦ take at route ]

unfoldable pub after_slash : List ℕ → List ℕ
after_slash route = elim (index_from 0 route b'/') [ none ↦ route | some at ↦ drop (at + 1) route ]

abbrev pub starts_with : List ℕ → List ℕ → Bool
starts_with [] s = true
starts_with (c ∷ cs) [] = false
starts_with (c ∷ cs) (d ∷ s) = c == d && starts_with cs s

-- The last linked native with a name, by the loop that does not stop at one.
abbrev pub or_else {ℓ} : {A : Type ℓ} → Option A → Option A → Option A
or_else none b = b
or_else (some a) b = some a

unfoldable pub linked_named : List ℕ → List NativeType → Option NativeType
linked_named name [] = none
linked_named name (n ∷ ns) =
    or_else (linked_named name ns) (if eq_bytes name n.name then some n else none)

abbrev pub at_key {ℓ} : {A : Type ℓ} → Option A → Outcome A
at_key none = throws out_of_range
at_key (some a) = ok a

abbrev pub silent : List PortDecl → List Source
silent ports = map (λ port. silence) ports

unfoldable pub instantiate_native : List ℕ → List ℕ → Option NativeType → Plan → Run Plan (Unit {0})
instantiate_native id name none p = (throws (no_linked_native name), p)
instantiate_native id name (some t) p = (
  ok tt,
  record p {
    instances =
        assign id (record { serial = p.next_serial; native = t; state = p.next_serial; ins = [] })
          p.instances;
    order = p.order ++ ((id, name) ∷ []);
    next_serial = suc p.next_serial;
    calls = p.calls ++ (created t.name p.next_serial ∷ []);
  },
)

abbrev pub same_edge : List ℕ × List ℕ → List ℕ × List ℕ → Bool
same_edge e f = eq_bytes e.0 f.0 && eq_bytes e.1 f.1

-- What std::erase and std::erase_if leave of a vector.
unfoldable pub erase {ℓ} : {A : Type ℓ} → (A → Bool) → List A → List A
erase gone [] = []
erase gone (x ∷ xs) = let rest = erase gone xs in if gone x then rest else x ∷ rest

abbrev pub touches : List ℕ → List ℕ × List ℕ → Bool
touches id e = starts_with (id ++ (b'/' ∷ [])) e.0 || starts_with (id ++ (b'/' ∷ [])) e.1

unfoldable pub remove_found : List ℕ → Option Instance → Plan → Run Plan (Unit {0})
unfolding erase
remove_found id none p = (throws (no_node id), p)
remove_found id (some inst) p = (
  ok tt,
  record p {
    instances = keep_keys (λ k. not (eq_bytes k id)) p.instances;
    order = erase (λ r. eq_bytes r.0 id) p.order;
    edges = erase (touches id) p.edges;
    calls = p.calls ++ (destroyed inst.native.name inst.state ∷ []);
  },
)

-- The destructor of a plan: each state is destroyed.
unfoldable pub destroy_all : List (List ℕ × Instance) → Plan → Plan
destroy_all [] p = p
destroy_all ((id, inst) ∷ rest) p =
    destroy_all rest (called (destroyed inst.native.name inst.state) p)
