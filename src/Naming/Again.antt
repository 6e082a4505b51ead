-- ===== src/Naming/Again.antt =====
-- Resolving what was resolved before.
use sygaldreye.Common.{
  ℕ, ◌≡◌, ap, sym, ◌∙◌, List, [], Bool, false, Bool-cases, inl, inr, Option, none, some, eq_bytes,
  eq_bytes→eq,
}
use mathlib.Core.Path.{subst}
use sygaldreye.Common.Outcome.{ok, Run, run_then, run_then-inverse, run_then-lem, ok_injective}
use sygaldreye.Common.Maps.{lookup, lookup-assign_other}
use sygaldreye.Formats.Cid.{Hash}
use sygaldreye.Formats.Cbor.Json.{Json}
use sygaldreye.Formats.Address.{Address, cid, print_address, parse_address}
use sygaldreye.Formats.Address.RoundTrip.{IsPrintable, parse_address-print_address}
use sygaldreye.Formats.Cbor.Encode.{encode}
use sygaldreye.Naming.{Environment, emplace, commit, found, fetch, set_ref, subscribe, move_ref}
use sygaldreye.Naming.Resolver.{
  lift, Standing, descend, Resolution, root_of, fixed, resolve_from, resolve,
}
use sygaldreye.Naming.Settled.{
  Extends, Extends-refl, Extends-trans, Settles, Settles-lift, Settles-run_then, option_cases,
  Extends-warmed, Settles-fetch, Settles-descend,
}

-- What may come after a resolution: the operations of an environment, in any order, and other
-- resolutions that return.
module _ (blake3 : Hash) where
  pub data Later (e : Environment) : Environment → Type 0 where
    now : Later e e
    committed : {f : Environment} (v : Json) → Later e f → Later e (commit blake3 v f).1
    bound : {f : Environment} (name text : List ℕ) → Later e f → Later e (set_ref name text f)
    subscribed : {f : Environment} (id text : List ℕ) → Later e f → Later e (subscribe id text f)
    moved : {f : Environment} (name text : List ℕ) → Later e f → Later e (move_ref name text f).1
    fetched : {f : Environment} (text : List ℕ) → Later e f → Later e (fetch text f).1
    resolved :
        {f g : Environment} (a : Address) (r : Resolution)
        → resolve a f ≡ (ok r, g)
        → Later e f
        → Later e g

lookup-emplace :
    (k text : List ℕ) (v w : Json) (m : List (List ℕ × Json))
    → lookup k m ≡ some w
    → lookup k (emplace text v (lookup text m) m) ≡ some w
lookup-emplace k text v w m h = elim (option_cases (lookup text m)) [
  | inr (u, there) ↦ rw there h
  | inl free ↦ rw free (elim (Bool-cases (eq_bytes text k)) [
    | inr other ↦ lookup-assign_other k text v m other ∙ h
    | inl same ↦
        let taken : none ≡ some w = sym free ∙ ap (λ l. lookup l m) (eq_bytes→eq text k same) ∙ h in
        absurd (none-ne-some taken)
  ])
]
  where
    none-ne-some : none ≡ some w → ⊥
    none-ne-some p = cc

Extends-commit : (blake3 : Hash) (v : Json) (e : Environment) → Extends e (commit blake3 v e).1
unfolding commit
Extends-commit blake3 v e =
    run_then-lem (Extends e) (encode v, e) _ (Extends-refl e)
      (λ bytes f x.
        Extends-trans x
          (record { has = λ k w h. lookup-emplace k _ v w f.backing h; is_hot = λ k h. h }))

Extends-found : (text : List ℕ) (o : Option Json) (e : Environment) → Extends e (found text o e).1
Extends-found text none e = Extends-refl e
Extends-found text (some v) e = Extends-warmed text e

Settles-resolve_from :
    (root : List ℕ × Bool) (route : List (List ℕ)) → Settles (resolve_from root route)
unfolding resolve_from
Settles-resolve_from root route = Settles-run_then (fetch root.0) _ (Settles-fetch root.0) (λ v.
    Settles-run_then (descend route (record { cur = v; lock_cid = [] })) _ (Settles-descend route _)
      (λ s. Settles-lift _))

-- A resolution that returned went through its root.
resolve-root :
    (a : Address) (e e' : Environment) (r : Resolution) (root : List ℕ × Bool)
    → root_of a e ≡ ok root
    → resolve a e ≡ (ok r, e')
    → resolve_from root a.route e ≡ (ok r, e')
unfolding resolve
resolve-root a e e' r root found h =
    ap (λ o. run_then (o, e) (λ root e. resolve_from root a.route e)) (sym found) ∙ h

Extends-resolve :
    (a : Address) (e e' : Environment) (r : Resolution) → resolve a e ≡ (ok r, e') → Extends e e'
unfolding resolve
Extends-resolve a e e' r h =
    let made =
      run_then-inverse (lift (root_of a e) e) (λ root e. resolve_from root a.route e) r e' h in
    subst (λ f. Extends f e') (sym (ap (λ p. p.1) made.2))
      (Settles-resolve_from made.0 a.route made.1 e' r made.3).0

Extends-Later : (blake3 : Hash) {e later : Environment} → Later blake3 e later → Extends e later
unfolding fetch move_ref
Extends-Later blake3 now = Extends-refl _
Extends-Later blake3 (committed v l) =
    Extends-trans (Extends-Later blake3 l) (Extends-commit blake3 v _)
Extends-Later blake3 (bound name text l) =
    let x = Extends-Later blake3 l in record { has = x.has; is_hot = x.is_hot }
Extends-Later blake3 (subscribed id text l) =
    let x = Extends-Later blake3 l in record { has = x.has; is_hot = x.is_hot }
Extends-Later blake3 (moved name text l) =
    let x = Extends-Later blake3 l in record { has = x.has; is_hot = x.is_hot }
Extends-Later blake3 (fetched {f} text l) =
    Extends-trans (Extends-Later blake3 l) (Extends-found text (lookup text f.backing) f)
Extends-Later blake3 (resolved {f} {g} a r h l) =
    Extends-trans (Extends-Later blake3 l) (Extends-resolve a f g r h)

resolve_from-fixed :
    (root : List ℕ × Bool) (route : List (List ℕ)) (e e' : Environment) (r : Resolution)
    → resolve_from root route e ≡ (ok r, e')
    → (r.normalized ≡ print_address (fixed root.0 route))
      × (resolve_from (root.0, false) route e ≡ (ok (record r { live = false }), e'))
unfolding resolve_from
resolve_from-fixed root route e e' r h =
    let fetched = run_then-inverse (fetch root.0 e) _ r e' h in
    let walked =
      run_then-inverse (descend route (record { cur = fetched.0; lock_cid = [] }) fetched.1) _ r e'
        fetched.3 in
    let same = ok_injective (ap (λ p. p.0) walked.3) in
    (
      sym (ap (λ (q : Resolution). q.normalized) same),
      ap
            (λ q.
              run_then q
                (λ v e. run_then (descend route (record { cur = v; lock_cid = [] }) e) ends))
            fetched.2
          ∙ ap (λ q. run_then q ends) walked.2
          ∙ ap (λ (q : Resolution). (ok (record q { live = false }), walked.1)) same
          ∙ ap (λ (f : Environment). (ok (record r { live = false }), f)) (ap (λ p. p.1) walked.3),
    )
  where
    ends : Standing → Environment → Run Environment Resolution
    ends s e = (
      ok (record { live = false; normalized = print_address (fixed root.0 route); value = s.cur }),
      e,
    )

-- The normalized spelling of a resolution parses as an address by its cid, and whatever has come
-- after, that resolves to the same value, without any more reads of objects.
pub resolve-again :
    (blake3 : Hash) (a : Address) (e e' later : Environment) (r : Resolution) (root : List ℕ × Bool)
    → root_of a e ≡ ok root
    → IsPrintable cid root.0 a.route
    → resolve a e ≡ (ok r, e')
    → Later blake3 e' later
    → (b : Address) × (parse_address r.normalized ≡ ok b)
      × (resolve b later ≡ (ok (record r { live = false }), later))
unfolding resolve
resolve-again blake3 a e e' later r root rooted printable h l =
    let went = resolve_from-fixed root a.route e e' r (resolve-root a e e' r root rooted h) in
    (
      fixed root.0 a.route,
      ap parse_address went.0 ∙ parse_address-print_address (fixed root.0 a.route) printable,
      (Settles-resolve_from (root.0, false) a.route e e' (record r { live = false }) went.1).1 later
          (Extends-Later blake3 l),
    )
