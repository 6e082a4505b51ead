-- ===== src/Naming/Settled.antt =====
-- Operations of a resolution that return, and what they leave behind.
use sygaldreye.Common.{
  ℕ, ◌≡◌, ◌⊎◌, refl, ap, sym, ◌∙◌, List, [], ◌∷◌, Bool, true, false, Bool-cases, inl, inr, Option,
  none, some, eq_bytes, eq_bytes→eq, codes, if◌then◌else◌, ◌&&◌,
}
use mathlib.Core.Path.{subst}
use sygaldreye.Common.Outcome.{Outcome, ok, throws, Run, run_then, run_then-inverse, ok_injective}
use sygaldreye.Common.Maps.{lookup, assign, lookup-assign, lookup-assign_other}
use sygaldreye.Formats.Cbor.Json.{Json}
use sygaldreye.Naming.{Environment, warmed, found, fetch}
use sygaldreye.Naming.Resolver.{
  at, get_string, link_cid, is_link, is_object, is_graph, contains, is_empty, is_end, follow,
  Standing, stand, enter_nodes, enter_member, enter_port, enter, descend,
}

-- Every object of one environment is in the other, and every one that was read, was read there.
pub record Extends (e e' : Environment) : Type 0 where
  pub has : (k : List ℕ) (v : Json) → lookup k e.backing ≡ some v → lookup k e'.backing ≡ some v
  pub is_hot : (k : List ℕ) → lookup k e.hot ≡ some tt → lookup k e'.hot ≡ some tt

pub Extends-refl : (e : Environment) → Extends e e
Extends-refl e = record { has = λ k v h. h; is_hot = λ k h. h }

pub Extends-trans : {e f g : Environment} → Extends e f → Extends f g → Extends e g
Extends-trans a b = record {
  has = λ k v h. b.has k v (a.has k v h);
  is_hot = λ k h. b.is_hot k (a.is_hot k h);
}

-- An operation that returned, returns the same in every later environment, and changes nothing there.
abbrev pub Settles {ℓ} : {A : Type ℓ} → (Environment → Run Environment A) → Type ℓ
Settles {A} f =
    (e e' : Environment) (a : A)
    → f e ≡ (ok a, e')
    → Extends e e' × ((later : Environment) → Extends e' later → f later ≡ (ok a, later))

pub Settles-lift {ℓ} : {A : Type ℓ} (r : Outcome A) → Settles (λ e. (r, e))
Settles-lift r e e' a h = (
  subst (Extends e) (ap (λ p. p.1) h) (Extends-refl e),
  λ later x. ap (λ o. (o, later)) (ap (λ p. p.0) h),
)

pub Settles-run_then {ℓ κ} :
    {A : Type ℓ} {B : Type κ} (f : Environment → Run Environment A)
    (g : A → Environment → Run Environment B)
    → Settles f
    → ((a : A) → Settles (g a))
    → Settles (λ e. run_then (f e) g)
Settles-run_then f g hf hg e e' b h =
    let made = run_then-inverse (f e) g b e' h in
    let first = hf e made.1 made.0 made.2 in
    let second = hg made.0 made.1 e' b made.3 in
    (
      Extends-trans first.0 second.0,
      λ later x.
          ap (λ r. run_then r g) (first.1 later (Extends-trans second.0 x)) ∙ second.1 later x,
    )

Settles-if {ℓ} :
    {A : Type ℓ} (b : Bool) (f g : Environment → Run Environment A)
    → Settles f
    → Settles g
    → Settles (λ e. if b then f e else g e)
Settles-if true f g hf hg = hf
Settles-if false f g hf hg = hg

pub option_cases {ℓ} : {A : Type ℓ} (o : Option A) → (o ≡ none) ⊎ ((a : A) × (o ≡ some a))
option_cases none = inl refl
option_cases (some a) = inr (a, refl)

is_hot-warmed :
    (text : List ℕ) (e : Environment)
    → lookup text (warmed text (lookup text e.hot) e).hot ≡ some tt
is_hot-warmed text e = elim (option_cases (lookup text e.hot)) [
  | inl h ↦ rw h (lookup-assign text tt e.hot)
  | inr (u, h) ↦ rw h h
]

pub Extends-warmed :
    (text : List ℕ) (e : Environment) → Extends e (warmed text (lookup text e.hot) e)
Extends-warmed text e = elim (option_cases (lookup text e.hot)) [
  | inr (u, h) ↦ rw h (Extends-refl e)
  | inl h ↦ rw h (record {
    has = λ k v p. p;
    is_hot = λ k p. elim (Bool-cases (eq_bytes text k)) [
      | inl same ↦
          subst (λ l. lookup l (assign text tt e.hot) ≡ some tt) (eq_bytes→eq text k same)
            (lookup-assign text tt e.hot)
      | inr other ↦ lookup-assign_other k text tt e.hot other ∙ p
    ];
  })
]

found-ok :
    (text : List ℕ) (o : Option Json) (e e' : Environment) (v : Json)
    → found text o e ≡ (ok v, e')
    → (o ≡ some v) × (e' ≡ warmed text (lookup text e.hot) e)
found-ok text none e e' v h = cc
found-ok text (some w) e e' v h = (ap some (ok_injective (ap (λ p. p.0) h)), sym (ap (λ p. p.1) h))

pub Settles-fetch : (text : List ℕ) → Settles (fetch text)
unfolding fetch
Settles-fetch text e e' v h =
    let r = found-ok text (lookup text e.backing) e e' v h in
    let grown : Extends e e' = subst (Extends e) (sym r.1) (Extends-warmed text e) in
    let hot : lookup text e'.hot ≡ some tt =
      ap (λ (e : Environment). lookup text e.hot) r.1 ∙ is_hot-warmed text e in
    (
      grown,
      λ later x.
          ap (λ o. found text o later) (x.has text v (grown.has text v r.0))
          ∙ ap (λ o. (ok v, warmed text o later)) (x.is_hot text hot),
    )

Settles-follow : (v : Json) → Settles (follow v)
unfolding follow
Settles-follow v =
    Settles-if (is_link v) (λ e. run_then (link_cid v, e) (λ text e. fetch text e)) (λ e. (ok v, e))
      (Settles-run_then (λ e. (link_cid v, e)) (λ text e. fetch text e) (Settles-lift (link_cid v))
        Settles-fetch)
      (Settles-lift (ok v))

Settles-enter_member :
    (is_last : Bool) (step : List ℕ) (s : Standing) → Settles (enter_member is_last step s)
unfolding enter_member
Settles-enter_member is_last step s =
    Settles-run_then (λ e. (at step s.cur, e)) _ (Settles-lift (at step s.cur))
      (λ v.
        Settles-if is_last (stand s.lock_cid v) (λ e. run_then (follow v e) (stand s.lock_cid))
          (Settles-lift _)
          (Settles-run_then (follow v) (stand s.lock_cid) (Settles-follow v) (λ w. Settles-lift _)))

Settles-enter_nodes : (cur : Json) → Settles (enter_nodes cur)
unfolding enter_nodes
Settles-enter_nodes cur =
    Settles-run_then (λ e. (at (codes "lock") cur, e)) _ (Settles-lift (at (codes "lock") cur))
      (λ lock.
        Settles-run_then (λ e. (link_cid lock, e)) _ (Settles-lift (link_cid lock))
          (λ lock_cid.
            Settles-run_then (λ e. (at (codes "topology") cur, e)) _
              (Settles-lift (at (codes "topology") cur))
              (λ topology. Settles-run_then (follow topology) _ (Settles-follow topology) (λ graph.
                Settles-run_then (λ e. (at (codes "nodes") graph, e)) _
                  (Settles-lift (at (codes "nodes") graph)) (λ nodes. Settles-lift _)))))

Settles-enter_port : (step : List ℕ) (s : Standing) → Settles (enter_port step s)
unfolding enter_port
Settles-enter_port step s =
    Settles-run_then (fetch s.lock_cid) _ (Settles-fetch s.lock_cid) (λ lock.
      Settles-run_then (λ e. (at (codes "type") s.cur, e)) _
        (Settles-lift (at (codes "type") s.cur))
        (λ type.
          Settles-run_then (λ e. (get_string type, e)) _ (Settles-lift (get_string type))
            (λ name.
              Settles-run_then (λ e. (at name lock, e)) _ (Settles-lift (at name lock))
                (λ link.
                  Settles-run_then (λ e. (link_cid link, e)) _ (Settles-lift (link_cid link))
                    (λ decl_cid.
                      Settles-run_then (fetch decl_cid) _ (Settles-fetch decl_cid) (λ decl.
                        Settles-run_then (λ e. (at (codes "ports") decl, e)) _
                          (Settles-lift (at (codes "ports") decl))
                          (λ ports.
                            Settles-run_then (λ e. (at step ports, e)) _
                              (Settles-lift (at step ports)) (λ port. Settles-lift _))))))))

Settles-enter : (is_last : Bool) (step : List ℕ) (s : Standing) → Settles (enter is_last step s)
unfolding enter
Settles-enter is_last step s =
    Settles-if (is_object s.cur) _ (λ e. (throws _, e))
      (Settles-if (eq_bytes step (codes "nodes") && is_graph s.cur) (enter_nodes s.cur) _
        (Settles-enter_nodes s.cur)
        (Settles-if (contains step s.cur) (enter_member is_last step s) _
          (Settles-enter_member is_last step s)
          (Settles-if
            (contains (codes "type") s.cur && (if is_empty s.lock_cid then false else true))
            (enter_port step s) (λ e. (throws _, e)) (Settles-enter_port step s) (Settles-lift _))))
      (Settles-lift _)

pub Settles-descend : (route : List (List ℕ)) (s : Standing) → Settles (descend route s)
unfolding descend
Settles-descend [] s = Settles-lift (ok s)
Settles-descend (step ∷ steps) s =
    Settles-run_then (enter (is_end steps) step s) (λ s e. descend steps s e)
      (Settles-enter (is_end steps) step s) (λ t. Settles-descend steps t)

-- What was fetched is there.
pub lookup-fetch :
    (text : List ℕ) (e e' : Environment) (v : Json)
    → fetch text e ≡ (ok v, e')
    → lookup text e'.backing ≡ some v
unfolding fetch
lookup-fetch text e e' v h =
    let r = found-ok text (lookup text e.backing) e e' v h in
    (subst (Extends e) (sym r.1) (Extends-warmed text e)).has text v r.0
