-- ===== src/Crown/Edits.antt =====
-- `apply`, `tick` and the introspection of a plan.
pub mod Removal
use sygaldreye.Common.{
  ℕ, zero, suc, ◌+◌, List, [], ◌∷◌, ◌++◌, Bool, true, false, Option, none, some, eq_bytes,
  if◌then◌else◌, get_elem?,
}
use sygaldreye.Common.Outcome.{Outcome, ok, throws, fault, ◌>>=◌, Run, run_then, no_port}
use sygaldreye.Common.Maps.{lookup, assign}
use sygaldreye.Crown.{
  PortDecl, NativeType, Source, Instance, Op, OpKind, instantiate, link, unlink, remove,
  write_default, Call, set_num, set_text, Plan, called, before_slash, after_slash, at_key,
  linked_named, instantiate_native, same_edge, erase, remove_found,
}
use sygaldreye.Crown.Wiring.{find_port, rewire, list_all, process_all}

-- `strtod` on a text and the test that it read all of it, which depend on the locale: the bits of the
-- number.
module _ (strtod : List ℕ → Option ℕ) where
  abbrev pub written : Instance → List ℕ → List ℕ → Option ℕ → Call
  written inst port text none = set_text inst.state port text
  written inst port text (some bits) = set_num inst.state port bits

  unfoldable pub write_found : List ℕ → List ℕ → Instance → Plan → Plan
  write_found route text inst p = record p {
    calls = p.calls ++ (written inst (after_slash route) text (strtod text) ∷ []);
    defaults = p.defaults ++ ((route, text) ∷ []);
  }

  unfoldable pub apply : Op → Plan → Run Plan (Unit {0})
  unfolding linked_named instantiate_native erase remove_found write_found
  apply o p = elim o.what [
    | instantiate ↦ instantiate_native o.a o.b (linked_named o.b p.linked) p
    | link ↦ (ok tt, record p { edges = p.edges ++ ((o.a, o.b) ∷ []) })
    | unlink ↦ (ok tt, record p { edges = erase (same_edge (o.a, o.b)) p.edges })
    | remove ↦ remove_found o.a (lookup o.a p.instances) p
    | write_default ↦
        run_then (at_key (lookup (before_slash o.a) p.instances), p)
          (λ inst p. (ok tt, write_found o.a o.b inst p))
  ]

  unfoldable pub apply_all : List Op → Plan → Run Plan (Unit {0})
  unfolding apply
  apply_all [] p = (ok tt, p)
  apply_all (o ∷ ops) p = run_then (apply o p) (λ u p. apply_all ops p)

  -- The boundary of a tick. The inlet is cleared behind its last op only.
  unfoldable pub boundary : List Op → Plan → Run Plan (Unit {0})
  unfolding apply_all rewire
  boundary [] p = (ok tt, p)
  boundary (o ∷ ops) p = run_then (apply_all (o ∷ ops) p) (λ u p. rewire (record p { inlet = [] }))

  unfoldable pub tick : ℕ → Plan → Run Plan (Unit {0})
  unfolding boundary process_all
  tick frames p = run_then (boundary p.inlet p) (λ u p. process_all frames p.ticklist p)

-- An instance that no `rewire` has reached yet has no input pointers to read.
unfoldable pub input_buffer : List ℕ → List ℕ → Plan → Outcome Source
unfolding find_port
input_buffer id port p = do
  inst ← at_key (lookup id p.instances)
  at ← find_port 0 inst.native.in_ports port
  elim (get_elem? inst.ins at) [ none ↦ fault | some source ↦ ok source ]

unfoldable pub exchange_state : List ℕ → ℕ → Plan → Run Plan ℕ
unfolding list_all
exchange_state id replacement p =
    run_then (at_key (lookup id p.instances), p)
      (λ inst p.
        run_then
          (list_all p.order (record p {
            instances = assign id (record inst { state = replacement }) p.instances;
            ticklist = [];
          }))
          (λ u p. (ok inst.state, p)))

unfoldable pub type_of : List ℕ → Plan → Outcome NativeType
type_of id p = do inst ← at_key (lookup id p.instances); ok inst.native
