-- ===== src/Crown/Wiring.antt =====
-- `rewire`: the pointers of the instances and the ticklist, from the edges and the order.
use sygaldreye.Common.{
  ℕ, zero, suc, ◌+◌, List, [], ◌∷◌, ◌++◌, map, Bool, true, false, ◌&&◌, ◌||◌, Option, none, some,
  ◌==◌, eq_bytes, if◌then◌else◌,
}
use sygaldreye.Common.Outcome.{Outcome, ok, throws, fault, ◌>>=◌, Run, run_then, no_port}
use sygaldreye.Common.Maps.{lookup, assign}
use sygaldreye.Crown.{
  PortDecl, Source, silence, buffer, Instance, Ticked, processed, Plan, called, before_slash,
  after_slash, at_key, silent,
}

unfoldable pub find_port : ℕ → List PortDecl → List ℕ → Outcome ℕ
find_port i [] name = throws (no_port name)
find_port i (port ∷ ports) name =
    let rest = find_port (i + 1) ports name in if eq_bytes name port.name then ok i else rest

abbrev pub write_at {ℓ} : {A : Type ℓ} → List A → ℕ → A → List A
write_at [] i x = []
write_at (y ∷ ys) zero x = x ∷ ys
write_at (y ∷ ys) (suc i) x = y ∷ write_at ys i x

abbrev pub cleared : List ℕ × Instance → List ℕ × Instance
cleared entry = (entry.0, record entry.1 { ins = silent entry.1.native.in_ports })

-- Where an edge ends: the instance, its input, and what the input is to point at.
pub record Wire : Type 0 where
  pub id : List ℕ
  pub instance_at : Instance
  pub input : ℕ
  pub source : Source

unfoldable pub wire_of : List ℕ × List ℕ → List (List ℕ × Instance) → Outcome Wire
unfolding find_port
wire_of (from, to) instances = do
  src ← at_key (lookup (before_slash from) instances)
  dst ← at_key (lookup (before_slash to) instances)
  output ← find_port 0 src.native.out_ports (after_slash from)
  input ← find_port 0 dst.native.in_ports (after_slash to)
  ok (record {
    id = before_slash to;
    instance_at = dst;
    input = input;
    source = buffer src.serial output;
  })

unfoldable pub connect : Wire → List (List ℕ × Instance) → List (List ℕ × Instance)
connect w instances =
    assign w.id (record w.instance_at { ins = write_at w.instance_at.ins w.input w.source })
      instances

unfoldable pub connect_all : List (List ℕ × List ℕ) → Plan → Run Plan (Unit {0})
unfolding wire_of connect
connect_all [] p = (ok tt, p)
connect_all (e ∷ edges) p =
    run_then (wire_of e p.instances, p)
      (λ w p. connect_all edges (record p { instances = connect w p.instances }))

abbrev pub as_node : Instance → Ticked
as_node inst = record { state = inst.state; serial = inst.serial }

unfoldable pub list_all : List (List ℕ × List ℕ) → Plan → Run Plan (Unit {0})
list_all [] p = (ok tt, p)
list_all (r ∷ order) p =
    run_then (at_key (lookup r.0 p.instances), p)
      (λ inst p. list_all order (record p { ticklist = p.ticklist ++ (as_node inst ∷ []) }))

unfoldable pub rewire : Plan → Run Plan (Unit {0})
unfolding connect_all list_all
rewire p =
    run_then (connect_all p.edges (record p { instances = map cleared p.instances }))
      (λ u p. list_all p.order (record p { ticklist = [] }))

-- The instance at an address: without one, the address is of an instance that is gone.
unfoldable pub with_serial : ℕ → List (List ℕ × Instance) → Option Instance
with_serial n [] = none
with_serial n ((id, inst) ∷ rest) = if inst.serial == n then some inst else with_serial n rest

unfoldable pub has_serial : ℕ → List (List ℕ × Instance) → Bool
has_serial n [] = false
has_serial n ((id, inst) ∷ rest) = inst.serial == n || has_serial n rest

abbrev pub is_live : List (List ℕ × Instance) → Source → Bool
is_live instances silence = true
is_live instances (buffer n port) = has_serial n instances

abbrev pub all_live : List (List ℕ × Instance) → List Source → Bool
all_live instances [] = true
all_live instances (source ∷ sources) = is_live instances source && all_live instances sources

-- `escapement::tick`: a call of `process` for each entry, through the pointers of its instance.
unfoldable pub process_one : ℕ → Ticked → Option Instance → Plan → Run Plan (Unit {0})
process_one frames entry none p = (fault, p)
process_one frames entry (some inst) p =
    if all_live p.instances inst.ins
    then (ok tt, called (processed entry.state inst.ins frames) p)
    else (fault, p)

unfoldable pub process_all : ℕ → List Ticked → Plan → Run Plan (Unit {0})
unfolding process_one with_serial
process_all frames [] p = (ok tt, p)
process_all frames (entry ∷ entries) p =
    run_then (process_one frames entry (with_serial entry.serial p.instances) p)
      (λ u p. process_all frames entries p)
