-- ===== src/Crown/Ticks.antt =====
-- A tick: what it keeps, and where it leaves a plan that it cannot tick again.
use sygaldreye.Common.{
  ℕ, ◌≡◌, refl, ap, sym, ◌∙◌, List, [], ◌∷◌, ◌++◌, map, true, Option, All, All-append,
}
use mathlib.Core.Path.{subst}
use sygaldreye.Common.Outcome.{ok, run_then, run_then-inverse}
use sygaldreye.Common.Maps.{lookup}
use sygaldreye.Crown.{Ticked, Call, processed, Op, Plan, called, at_key}
use sygaldreye.Crown.Wiring.{
  cleared, wire_of, connect, connect_all, as_node, list_all, rewire, has_serial, process_one,
  process_all,
}
use sygaldreye.Crown.Edits.{apply_all, boundary, tick}
use sygaldreye.Crown.Live.{
  IsWired, has_serial-lookup, with_serial-has_serial, All-with_serial, IsWired-cleared,
  at_key-inverse, wire_of-inverse, connect-IsWired,
}

-- The entries of the ticklist are at instances of the plan.
abbrev pub IsListed : Plan → List Ticked → Type 0
IsListed p entries = All (λ (t : Ticked). has_serial t.serial p.instances ≡ true) entries

-- Every pointer that `process` is given is live.
pub record IsSafe (p : Plan) : Type 0 where
  pub wired : IsWired p.instances
  pub listed : IsListed p p.ticklist

connect_all-IsWired :
    (edges : List (List ℕ × List ℕ)) (p q : Plan)
    → connect_all edges p ≡ (ok tt, q)
    → IsWired p.instances
    → IsWired q.instances
unfolding connect_all
connect_all-IsWired [] p q h w = subst (λ (r : Plan). IsWired r.instances) (ap (λ r. r.1) h) w
connect_all-IsWired (e ∷ edges) p q h w =
    let made = run_then-inverse (wire_of e p.instances, p) _ tt q h in
    let wire = wire_of-inverse e p.instances made.0 (ap (λ r. r.0) made.2) in
    let same : p ≡ made.1 = ap (λ r. r.1) made.2 in
    connect_all-IsWired edges (record made.1 { instances = connect made.0 made.1.instances }) q
      made.3
      (subst (λ (r : Plan). IsWired (connect made.0 r.instances)) same
        (connect-IsWired made.0 p.instances wire.0 wire.1 w))

list_all-IsSafe :
    (order : List (List ℕ × List ℕ)) (p q : Plan)
    → list_all order p ≡ (ok tt, q)
    → IsSafe p
    → IsSafe q
unfolding list_all
list_all-IsSafe [] p q h s = subst IsSafe (ap (λ r. r.1) h) s
list_all-IsSafe (r ∷ order) p q h s =
    let found = run_then-inverse (at_key (lookup r.0 p.instances), p) _ tt q h in
    let inst = at_key-inverse (lookup r.0 p.instances) found.0 (ap (λ r. r.0) found.2) in
    let same : p ≡ found.1 = ap (λ r. r.1) found.2 in
    list_all-IsSafe order (record found.1 { ticklist = found.1.ticklist ++ (as_node found.0 ∷ []) })
      q found.3
      (subst (λ (r : Plan). IsSafe (record r { ticklist = r.ticklist ++ (as_node found.0 ∷ []) }))
        same
        (record {
          wired = s.wired;
          listed =
              All-append _ p.ticklist _ s.listed
                (has_serial-lookup r.0 found.0 p.instances inst, tt);
        }))

rewire-IsSafe : (p q : Plan) → rewire p ≡ (ok tt, q) → IsSafe q
unfolding rewire
rewire-IsSafe p q h =
    let made =
      run_then-inverse (connect_all p.edges (record p { instances = map cleared p.instances })) _ tt
        q h in
    list_all-IsSafe made.1.order (record made.1 { ticklist = [] }) q made.3
      (record {
        wired = connect_all-IsWired p.edges _ made.1 made.2 (IsWired-cleared _ p.instances);
        listed = tt;
      })

-- A call of `process` on live pointers returns, and changes the plan in its record of calls only.
process_all-ok :
    (frames : ℕ) (entries : List Ticked) (p : Plan)
    → IsWired p.instances
    → IsListed p entries
    → (calls : List Call) × (process_all frames entries p ≡ (ok tt, record p { calls = calls }))
unfolding process_all process_one
process_all-ok frames [] p w h = (p.calls, refl)
process_all-ok frames (t ∷ entries) p w h =
    let found = with_serial-has_serial t.serial p.instances h.0 in
    let live = All-with_serial _ t.serial found.0 p.instances w found.1 in
    let rest =
      process_all-ok frames entries (called (processed t.state found.0.ins frames) p) w h.1 in
    (rest.0, rw (found.1, live.1) rest.1)

module _ (strtod : List ℕ → Option ℕ) where
  -- A plan that is safe to tick, and has no edits waiting, ticks without an error or an invalid read,
  -- and is safe to tick again.
  pub tick-ok :
      (frames : ℕ) (p : Plan)
      → IsSafe p
      → p.inlet ≡ []
      → (q : Plan) × (tick strtod frames p ≡ (ok tt, q)) × IsSafe q × (q.inlet ≡ [])
  unfolding tick boundary
  tick-ok frames p s e =
      let ran = process_all-ok frames p.ticklist p s.wired s.listed in
      (
        record p { calls = ran.0 },
        ap (λ l. run_then (boundary strtod l p) (λ u p. process_all frames p.ticklist p)) e ∙ ran.1,
        record { wired = s.wired; listed = s.listed },
        e,
      )

  -- A tick with edits that returns leaves a plan that is safe to tick, whatever it was before.
  pub tick-IsSafe :
      (frames : ℕ) (p q : Plan) (o : Op) (ops : List Op)
      → p.inlet ≡ o ∷ ops
      → tick strtod frames p ≡ (ok tt, q)
      → IsSafe q
  unfolding tick boundary
  tick-IsSafe frames p q o ops e h =
      let edited = run_then-inverse (boundary strtod p.inlet p) _ tt q h in
      let at_boundary : boundary strtod (o ∷ ops) p ≡ (ok tt, edited.1) =
        ap (λ l. boundary strtod l p) (sym e) ∙ edited.2 in
      let applied = run_then-inverse (apply_all strtod (o ∷ ops) p) _ tt edited.1 at_boundary in
      let s = rewire-IsSafe _ edited.1 applied.3 in
      let ran = process_all-ok frames edited.1.ticklist edited.1 s.wired s.listed in
      subst IsSafe (ap (λ r. r.1) (sym ran.1 ∙ edited.3))
        (record { wired = s.wired; listed = s.listed })
