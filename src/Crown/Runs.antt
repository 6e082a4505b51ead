-- ===== src/Crown/Runs.antt =====
-- Concrete runs of a plan and of a tape, and their theorems at concrete inputs.
use mathlib.Core.List.{Memᴰ}
use sygaldreye.Common.{
  ◌⊎◌, true, ℕ, ◌≡◌, refl, List, [], ◌∷◌, ◌++◌, false, Option, none, some, All, arith, codes,
  eq_bytes,
}
use sygaldreye.Common.Outcome.{ok, throws, fault, no_linked_native, out_of_range, bad_hex}
use sygaldreye.Common.Maps.{lookup, assign}
use sygaldreye.Formats.Packing.{index_from}
use sygaldreye.Crown.{
  PortDecl, NativeType, silence, buffer, Instance, Op, instantiate, link, remove, write_default,
  created, destroyed, processed, Plan, new_plan, before_slash, after_slash, linked_named,
  instantiate_native,
}
use sygaldreye.Crown.Wiring.{
  find_port, wire_of, connect, connect_all, as_node, list_all, rewire, with_serial, has_serial,
  process_one, process_all,
}
use sygaldreye.Crown.Edits.{apply, apply_all, boundary, tick}
use sygaldreye.Crown.Edits.Removal.{IsUnder, remove-lem}
use sygaldreye.Crown.Ticks.{IsSafe, tick-ok, tick-IsSafe}
use sygaldreye.Crown.Failures.{tick_repeats, tick_twice, tick_dangles}
use sygaldreye.Crown.Tape.{read_tape}
use sygaldreye.Crown.Tape.Comments.{read_tape_comment}
use sygaldreye.Crown.Tape.RoundTrip.{node, default, line_of, Taped, blank, line, read_tape-Taped}

abbrev no_number : List ℕ → Option ℕ
no_number text = none

abbrev port : List ℕ → PortDecl
port name = record { name = name; kind = codes "audio"; discipline = codes "block" }

abbrev osc : NativeType
osc = record {
  name = codes "osc";
  in_ports = port (codes "freq") ∷ [];
  out_ports = port (codes "out") ∷ [];
  clocked = false;
  is_mapping = false;
  resource_holder = false;
}

abbrev new_node : List ℕ → Op
new_node id = record { what = instantiate; a = id; b = codes "osc" }

abbrev patch : Plan
patch = record (new_plan (osc ∷ [])) {
  inlet =
      new_node (codes "a")
      ∷ new_node (codes "b")
      ∷ record { what = link; a = codes "a/out"; b = codes "b/freq" }
      ∷ [];
}

abbrev patched : Plan
patched = (tick no_number 64 patch).1

patched_lem : tick no_number 64 patch ≡ (ok tt, patched)
unfolding tick boundary apply_all apply linked_named instantiate_native assign rewire connect_all
    connect wire_of find_port before_slash after_slash index_from list_all lookup process_all
    process_one with_serial has_serial
patched_lem = refl

patched_calls :
    patched.calls
    ≡ created (codes "osc") 1
      ∷ created (codes "osc") 2
      ∷ processed 1 (silence ∷ []) 64
      ∷ processed 2 (buffer 1 0 ∷ []) 64
      ∷ []
unfolding tick boundary apply_all apply linked_named instantiate_native assign rewire connect_all
    connect wire_of find_port before_slash after_slash index_from list_all lookup process_all
    process_one with_serial has_serial
patched_calls = refl

tick-IsSafe_example : IsSafe patched
tick-IsSafe_example = tick-IsSafe no_number 64 patch patched _ _ refl patched_lem

patched_inlet : patched.inlet ≡ []
unfolding tick boundary apply_all apply linked_named instantiate_native assign rewire connect_all
    connect wire_of find_port before_slash after_slash index_from list_all lookup process_all
    process_one with_serial has_serial
patched_inlet = refl

tick-ok_example : (q : Plan) × (tick no_number 32 patched ≡ (ok tt, q)) × IsSafe q × (q.inlet ≡ [])
tick-ok_example = tick-ok no_number 32 patched tick-IsSafe_example patched_inlet

abbrev lone : Instance
lone = record { serial = 1; native = osc; state = 1; ins = silence ∷ [] }

abbrev lone_plan : Plan
lone_plan = record (new_plan (osc ∷ [])) {
  instances = (codes "a", lone) ∷ [];
  order = (codes "a", codes "osc") ∷ [];
  edges = (codes "a/out", codes "a/freq") ∷ [];
}

lone_found : lookup (codes "a") lone_plan.instances ≡ some lone
unfolding lookup
lone_found = refl

remove-lem_example :
    let q = (apply no_number (record { what = remove; a = codes "a"; b = [] }) lone_plan).1 in
    ((apply no_number (record { what = remove; a = codes "a"; b = [] }) lone_plan).0 ≡ ok tt)
    × (lookup (codes "b") q.instances ≡ lookup (codes "b") lone_plan.instances)
    × All (λ r. eq_bytes r.0 (codes "a") ≡ false) q.order
    × All (λ r. (eq_bytes r.0 (codes "a") ≡ true) ⊎ Memᴰ r q.order) lone_plan.order
    × All (λ e. (¬ IsUnder (codes "a") e.0) × (¬ IsUnder (codes "a") e.1)) q.edges
    × All
        (λ e. (IsUnder (codes "a") e.0 ⊎ IsUnder (codes "a") e.1) ⊎ Memᴰ e q.edges)
        lone_plan.edges
    × (q.calls ≡ [] ++ (destroyed (codes "osc") 1 ∷ []))
remove-lem_example = remove-lem no_number (codes "a") (codes "b") [] lone lone_plan lone_found

unknown : linked_named (codes "saw") (osc ∷ []) ≡ none
unfolding linked_named
unknown = refl

known : linked_named (codes "osc") (osc ∷ []) ≡ some osc
unfolding linked_named
known = refl

abbrev failing : Plan
failing = record (new_plan (osc ∷ [])) {
  inlet =
      record { what = link; a = codes "a/out"; b = codes "b/freq" }
      ∷ record { what = instantiate; a = codes "c"; b = codes "saw" }
      ∷ [];
}

tick_repeats_example : tick no_number 64 failing ≡ (
  throws (no_linked_native (codes "saw")),
  record failing { edges = [] ++ ((codes "a/out", codes "b/freq") ∷ []) },
)
tick_repeats_example =
    tick_repeats no_number 64 (codes "a/out") (codes "b/freq") (codes "c") (codes "saw") [] failing
      unknown refl

tick_twice_example :
    (tick no_number 64 (record (new_plan (osc ∷ [])) {
      inlet = new_node (codes "a") ∷ new_node (codes "a") ∷ [];
    })).1.calls
    ≡ created (codes "osc") 1
      ∷ created (codes "osc") 2
      ∷ processed 2 (silence ∷ []) 64
      ∷ processed 2 (silence ∷ []) 64
      ∷ []
tick_twice_example = tick_twice no_number 64 (codes "a") (codes "osc") osc (osc ∷ []) known

abbrev doomed : Plan
doomed = record lone_plan {
  edges = [];
  ticklist = as_node lone ∷ [];
  inlet =
      record { what = remove; a = codes "a"; b = [] }
      ∷ record { what = link; a = codes "x/out"; b = codes "y/in" }
      ∷ [];
}

tick_dangles_example :
    ((tick no_number 64 doomed).0 ≡ throws out_of_range)
    × ((tick no_number 64 (tick no_number 64 doomed).1).0 ≡ fault)
tick_dangles_example =
    tick_dangles no_number 64 64 (codes "a") (codes "osc") (codes "x/out") (codes "y/in") lone
      doomed

abbrev tape_ops : List Op
tape_ops =
    record { what = instantiate; a = codes "a b"; b = codes "osc" }
    ∷ record { what = write_default; a = codes "a b/freq"; b = codes "440" }
    ∷ []

tape_ops-Taped : Taped tape_ops (
    line_of (codes "NODE") (codes "a b") (codes "osc")
    ++ (b'\n' ∷ (line_of (codes "SET") (codes "a b/freq") (codes "440") ++ (b'\n' ∷ []))))
tape_ops-Taped =
    line node (omega arith) (omega arith) (line default (omega arith) (omega arith) blank)

read_tape-Taped_example :
    read_tape (
      line_of (codes "NODE") (codes "a b") (codes "osc")
      ++ (b'\n' ∷ (line_of (codes "SET") (codes "a b/freq") (codes "440") ++ (b'\n' ∷ []))))
    ≡ ok tape_ops
read_tape-Taped_example = read_tape-Taped tape_ops-Taped

read_tape_comment_example :
    read_tape (b'#' ∷ (codes " 100" ++ (b'%' ∷ b'w' ∷ b'e' ∷ codes "t of it\nSET a/p 1")))
    ≡ throws bad_hex
read_tape_comment_example =
    read_tape_comment (codes " 100") (codes "t of it\nSET a/p 1") b'w' b'e' (omega arith)
      (omega arith) (omega arith) (omega arith) (omega arith)
