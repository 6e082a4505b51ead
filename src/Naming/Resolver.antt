-- ===== src/Naming/Resolver.antt =====
-- naming/resolver/resolver.cpp: from an address to the value that it names.
use sygaldreye.Common.{
  ℕ, List, [], ◌∷◌, Bool, true, false, ◌&&◌, Option, none, some, eq_bytes, codes, if◌then◌else◌,
}
use sygaldreye.Common.Outcome.{
  Outcome, ok, throws, fault, ◌>>=◌, Run, run_then, no_such_ref, leaf_step, no_step, peer_key_step,
  type_error, out_of_range,
}
use sygaldreye.Formats.Cbor.Json.{Json, Fields, string, object, field, end, slash}
use sygaldreye.Formats.Address.{Address, refname, cid, peerkey, print_address}
use sygaldreye.Naming.{Environment, fetch, ref}

-- nlohmann::json: `contains`, `at` and the constant `operator[]`.
abbrev pub member : List ℕ → Fields → Option Json
member k end = none
member k (field j v fs) = if eq_bytes j k then some v else member k fs

abbrev pub contains : List ℕ → Json → Bool
contains k (object fs) = elim (member k fs) [ none ↦ false | some v ↦ true ]
contains k v = false

unfoldable pub at : List ℕ → Json → Outcome Json
at k (object fs) = elim (member k fs) [ none ↦ throws out_of_range | some v ↦ ok v ]
at k v = throws type_error

-- Without the key, it is undefined behaviour.
unfoldable pub subscript : List ℕ → Json → Outcome Json
subscript k (object fs) = elim (member k fs) [ none ↦ fault | some v ↦ ok v ]
subscript k v = throws type_error

abbrev pub get_string : Json → Outcome (List ℕ)
get_string (string s) = ok s
get_string v = throws type_error

abbrev pub is_object : Json → Bool
is_object (object fs) = true
is_object v = false

abbrev pub is_link : Json → Bool
is_link (object (field k (string s) end)) = eq_bytes k slash
is_link v = false

unfoldable pub link_cid : Json → Outcome (List ℕ)
unfolding subscript
link_cid v = do link ← subscript slash v; get_string link

-- `lift`: a call that neither reads nor changes the environment.
abbrev pub lift {ℓ} : {A : Type ℓ} → Outcome A → Environment → Run Environment A
lift r e = (r, e)

unfoldable pub follow : Json → Environment → Run Environment Json
unfolding link_cid fetch
follow v e =
    if is_link v then run_then (lift (link_cid v) e) (λ text e. fetch text e) else (ok v, e)

-- Where a walk stands: the value, and the cid of the lock of the graph that it is in.
pub record Standing : Type 0 where
  pub cur : Json
  pub lock_cid : List ℕ

abbrev pub is_graph : Json → Bool
is_graph (object fs) = elim (member (codes "kind") fs) [
  | some (string s) ↦ eq_bytes s (codes "graph")
  | _ ↦ false
]
is_graph v = false

abbrev pub is_empty : List ℕ → Bool
is_empty [] = true
is_empty (c ∷ cs) = false

abbrev pub stand : List ℕ → Json → Environment → Run Environment Standing
stand lock v e = (ok (record { cur = v; lock_cid = lock }), e)

unfoldable pub enter_nodes : Json → Environment → Run Environment Standing
unfolding at link_cid follow
enter_nodes cur e = run_then (lift (at (codes "lock") cur) e) (λ lock e.
    run_then (lift (link_cid lock) e) (λ lock_cid e.
      run_then (lift (at (codes "topology") cur) e) (λ topology e.
        run_then (follow topology e) (λ graph e.
          run_then (lift (at (codes "nodes") graph) e) (λ nodes e. stand lock_cid nodes e)))))

unfoldable pub enter_member : Bool → List ℕ → Standing → Environment → Run Environment Standing
unfolding at follow
enter_member is_last step s e = run_then (lift (at step s.cur) e) (λ v e.
    if is_last then stand s.lock_cid v e else run_then (follow v e) (λ v e. stand s.lock_cid v e))

unfoldable pub enter_port : List ℕ → Standing → Environment → Run Environment Standing
unfolding at link_cid fetch
enter_port step s e = run_then (fetch s.lock_cid e) (λ lock e.
    run_then (lift (at (codes "type") s.cur) e) (λ type e.
      run_then (lift (get_string type) e) (λ type e. run_then (lift (at type lock) e) (λ link e.
        run_then (lift (link_cid link) e) (λ decl_cid e. run_then (fetch decl_cid e) (λ decl e.
          run_then (lift (at (codes "ports") decl) e)
            (λ ports e. run_then (lift (at step ports) e) (λ port e. stand s.lock_cid port e))))))))

unfoldable pub enter : Bool → List ℕ → Standing → Environment → Run Environment Standing
unfolding enter_nodes enter_member enter_port
enter is_last step s e =
    if is_object s.cur
    then if eq_bytes step (codes "nodes") && is_graph s.cur
      then enter_nodes s.cur e
      else if contains step s.cur
      then enter_member is_last step s e
      else if contains (codes "type") s.cur && (if is_empty s.lock_cid then false else true)
      then enter_port step s e
      else (throws no_step, e)
    else (throws leaf_step, e)

abbrev pub is_end : List (List ℕ) → Bool
is_end [] = true
is_end (step ∷ steps) = false

unfoldable pub descend : List (List ℕ) → Standing → Environment → Run Environment Standing
unfolding enter
descend [] s e = (ok s, e)
descend (step ∷ steps) s e = run_then (enter (is_end steps) step s e) (λ s e. descend steps s e)

pub record Resolution : Type 0 where
  pub live : Bool
  pub normalized : List ℕ
  pub value : Json

abbrev pub ref_root : List ℕ → Option (List ℕ) → Outcome (List ℕ × Bool)
ref_root name none = throws (no_such_ref name)
ref_root name (some text) = ok (text, true)

abbrev pub root_of : Address → Environment → Outcome (List ℕ × Bool)
root_of a e = elim a.kind [
  | refname ↦ ref_root a.head (ref a.head e)
  | cid ↦ ok (a.head, false)
  | peerkey ↦ throws peer_key_step
]

abbrev pub fixed : List ℕ → List (List ℕ) → Address
fixed root_cid route = record { kind = cid; head = root_cid; route = route }

unfoldable pub resolve_from :
    List ℕ × Bool → List (List ℕ) → Environment → Run Environment Resolution
unfolding fetch descend print_address
resolve_from root route e = run_then (fetch root.0 e) (λ v e.
    run_then (descend route (record { cur = v; lock_cid = [] }) e) (λ s e. (
      ok (record { live = root.1; normalized = print_address (fixed root.0 route); value = s.cur }),
      e,
    )))

unfoldable pub resolve : Address → Environment → Run Environment Resolution
unfolding resolve_from
resolve a e = run_then (lift (root_of a e) e) (λ root e. resolve_from root a.route e)
