-- ===== src/Crown/Edits/Removal.antt =====
-- What `remove` takes out of a plan.
use mathlib.Core.Logic.{⊎_elim}
use mathlib.Core.List.{Memᴰ, append_assoc}
use mathlib.Core.Path.{subst}
use sygaldreye.Common.{
  ◌&&◌, ◌==◌, ==_refl, ==→eq, ap, ap₂, sym, ◌⊎◌, All-map, ℕ, ◌≡◌, refl, ◌∙◌, List, [], ◌∷◌, ◌++◌,
  Bool, true, false, not, Option, none, some, All, Bool-cases, inl, inr, eq_bytes, if◌then◌else◌,
}
use sygaldreye.Common.Outcome.{ok}
use sygaldreye.Common.Maps.{lookup, lookup-keep_keys}
use sygaldreye.Crown.{Instance, remove, destroyed, Plan, touches, starts_with, erase, remove_found}
use sygaldreye.Crown.Edits.{apply}

All-erase {ℓ} :
    {A : Type ℓ} (gone : A → Bool) (xs : List A) → All (λ x. gone x ≡ false) (erase gone xs)
unfolding erase
All-erase gone [] = tt
All-erase gone (x ∷ xs) = elim (Bool-cases (gone x)) [
  | inl h ↦ rw h (All-erase gone xs)
  | inr h ↦ rw h (h, All-erase gone xs)
]

erase-gone {ℓ} :
    {A : Type ℓ} (gone : A → Bool) (x : A) (xs : List A)
    → gone x ≡ true
    → erase gone (x ∷ xs) ≡ erase gone xs
unfolding erase
erase-gone gone x xs h = rw h

erase-kept {ℓ} :
    {A : Type ℓ} (gone : A → Bool) (x : A) (xs : List A)
    → gone x ≡ false
    → erase gone (x ∷ xs) ≡ x ∷ erase gone xs
unfolding erase
erase-kept gone x xs h = rw h

All-kept {ℓ} :
    {A : Type ℓ} (gone : A → Bool) (xs : List A)
    → All (λ x. (gone x ≡ true) ⊎ Memᴰ x (erase gone xs)) xs
All-kept gone [] = tt
All-kept gone (x ∷ xs) = elim (Bool-cases (gone x)) [
  | inl h ↦ (
    inl h,
    subst (λ ys. All (λ y. (gone y ≡ true) ⊎ Memᴰ y ys) xs) (sym (erase-gone gone x xs h))
        (All-kept gone xs),
  )
  | inr h ↦
      subst (λ ys. ((gone x ≡ true) ⊎ Memᴰ x ys) × All (λ y. (gone y ≡ true) ⊎ Memᴰ y ys) xs)
        (sym (erase-kept gone x xs h))
        (
          inr (Memᴰ.head refl),
          All-map (λ y. ⊎_elim inl (λ m. inr (Memᴰ.tail m))) xs (All-kept gone xs),
        )
]

-- A route on a port of the node: its id, a slash, and any text.
abbrev pub IsUnder : List ℕ → List ℕ → Type 0
IsUnder id route = (port : List ℕ) × (route ≡ id ++ (b'/' ∷ port))

starts_with-append : (p s : List ℕ) → starts_with p (p ++ s) ≡ true
starts_with-append [] s = refl
starts_with-append (c ∷ p) s = rw ==_refl (starts_with-append p s)

both : (c d : ℕ) (b : Bool) → (c == d && b) ≡ true → (c ≡ d) × (b ≡ true)
both c d b h = elim (Bool-cases (c == d)) [
  | inl same ↦ (==→eq c d same, rw same at h)
  | inr other ↦ let no : false ≡ true = rw other at h in cc
]

starts_with-IsUnder :
    (id route : List ℕ) → starts_with (id ++ (b'/' ∷ [])) route ≡ true → IsUnder id route
starts_with-IsUnder [] [] h = cc
starts_with-IsUnder [] (d ∷ route) h = (route, ap (λ c. c ∷ route) (sym (both b'/' d true h).0))
starts_with-IsUnder (c ∷ id) [] h = cc
starts_with-IsUnder (c ∷ id) (d ∷ route) h =
    let (same, onward) = both c d (starts_with (id ++ (b'/' ∷ [])) route) h in
    let r = starts_with-IsUnder id route onward in (r.0, ap₂ (λ a l. a ∷ l) (sym same) r.1)

IsUnder-starts_with :
    (id route : List ℕ) → IsUnder id route → starts_with (id ++ (b'/' ∷ [])) route ≡ true
IsUnder-starts_with id route (port, e) =
    ap (starts_with (id ++ (b'/' ∷ []))) (e ∙ sym (append_assoc id (b'/' ∷ []) port))
    ∙ starts_with-append (id ++ (b'/' ∷ [])) port

touches-IsUnder :
    (id : List ℕ) (e : List ℕ × List ℕ) → touches id e ≡ true → IsUnder id e.0 ⊎ IsUnder id e.1
touches-IsUnder id e h = elim (Bool-cases (starts_with (id ++ (b'/' ∷ [])) e.0)) [
  | inl source ↦ inl (starts_with-IsUnder id e.0 source)
  | inr other ↦ inr (starts_with-IsUnder id e.1 (rw other at h))
]

untouched :
    (id : List ℕ) (e : List ℕ × List ℕ)
    → touches id e ≡ false
    → (¬ IsUnder id e.0) × (¬ IsUnder id e.1)
untouched id e h = (
  (λ u. let no : true ≡ false = rw (IsUnder-starts_with id e.0 u) at h in cc),
  λ u. elim (Bool-cases (starts_with (id ++ (b'/' ∷ [])) e.0)) [
    | inl source ↦ let no : true ≡ false = rw source at h in cc
    | inr other ↦ let no : true ≡ false = rw (other, IsUnder-starts_with id e.1 u) at h in cc
  ],
)

-- A removal of a node that is there destroys its state and leaves nothing under its id: no instance,
-- no record in the order and no edge with a route that is the id, a slash and a port. What stands
-- under other ids stays: the instances, the records and the edges.
pub remove-lem :
    (strtod : List ℕ → Option ℕ) (id other : List ℕ) (b : List ℕ) (inst : Instance) (p : Plan)
    → lookup id p.instances ≡ some inst
    → let q = (apply strtod (record { what = remove; a = id; b = b }) p).1 in
      ((apply strtod (record { what = remove; a = id; b = b }) p).0 ≡ ok tt)
      × (lookup other q.instances ≡ (if eq_bytes other id then none else lookup other p.instances))
      × All (λ r. eq_bytes r.0 id ≡ false) q.order
      × All (λ r. (eq_bytes r.0 id ≡ true) ⊎ Memᴰ r q.order) p.order
      × All (λ e. (¬ IsUnder id e.0) × (¬ IsUnder id e.1)) q.edges
      × All (λ e. (IsUnder id e.0 ⊎ IsUnder id e.1) ⊎ Memᴰ e q.edges) p.edges
      × (q.calls ≡ p.calls ++ (destroyed inst.native.name inst.state ∷ []))
unfolding apply remove_found
remove-lem strtod id other b inst p h = rw h (
  refl,
  lookup-keep_keys (λ k. not (eq_bytes k id)) other p.instances ∙ flipped (eq_bytes other id),
  All-erase _ p.order,
  All-kept _ p.order,
  All-map (untouched id) _ (All-erase (touches id) p.edges),
  All-map (λ e. ⊎_elim (λ t. inl (touches-IsUnder id e t)) inr) p.edges
      (All-kept (touches id) p.edges),
  refl,
)
  where
    flipped :
        (b : Bool)
        → (if not b then lookup other p.instances else none)
          ≡ (if b then none else lookup other p.instances)
    flipped true = refl
    flipped false = refl
