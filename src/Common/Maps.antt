-- ===== src/Common/Maps.antt =====
-- std::map and std::set with string keys, as lists of entries with one entry for a key.
use Prim.Native.Nat.{ℕ}
use mathlib.Core.Path.{◌≡◌, ap, sym, ◌∙◌}
use mathlib.Core.Path.{subst}
use mathlib.Core.Logic.{inl, inr}
use mathlib.Core.Bool.{Bool, false}
use mathlib.Core.Option.{Option, none, some}
use mathlib.Core.List.{List, [], ◌∷◌}
use sygaldreye.Common.Tests.{if◌then◌else◌, Bool-cases}
use sygaldreye.Common.Lists.{All, eq_bytes, eq_bytes_refl, eq_bytes→eq}

module _ {ℓ} {V : Type ℓ} where
  -- `find`.
  unfoldable pub lookup : List ℕ → List (List ℕ × V) → Option V
  lookup k [] = none
  lookup k ((j, v) ∷ m) = if eq_bytes j k then some v else lookup k m

  -- `m[k] = v`.
  unfoldable pub assign : List ℕ → V → List (List ℕ × V) → List (List ℕ × V)
  assign k v [] = (k, v) ∷ []
  assign k v ((j, w) ∷ m) =
      let rest = assign k v m in if eq_bytes j k then (j, v) ∷ m else (j, w) ∷ rest

  -- What std::erase_if leaves, for a test of the keys.
  unfoldable pub keep_keys : (List ℕ → Bool) → List (List ℕ × V) → List (List ℕ × V)
  keep_keys keep [] = []
  keep_keys keep ((j, v) ∷ m) =
      let rest = keep_keys keep m in if keep j then (j, v) ∷ rest else rest

  pub lookup-assign :
      (k : List ℕ) (v : V) (m : List (List ℕ × V)) → lookup k (assign k v m) ≡ some v
  unfolding lookup assign
  lookup-assign k v [] = rw (eq_bytes_refl k)
  lookup-assign k v ((j, w) ∷ m) = elim (Bool-cases (eq_bytes j k)) [
    | inl h ↦ rw h (rw h)
    | inr h ↦ rw h (rw h (lookup-assign k v m))
  ]

  pub lookup-assign_other :
      (k j : List ℕ) (v : V) (m : List (List ℕ × V))
      → eq_bytes j k ≡ false
      → lookup k (assign j v m) ≡ lookup k m
  unfolding lookup assign
  lookup-assign_other k j v [] n = rw n
  lookup-assign_other k j v ((i, w) ∷ m) n = elim (Bool-cases (eq_bytes i j)) [
    | inl h ↦
        let e : eq_bytes i k ≡ false = ap (λ l. eq_bytes l k) (eq_bytes→eq i j h) ∙ n in rw h (rw e)
    | inr h ↦ rw h (elim (Bool-cases (eq_bytes i k)) [
      | inl e ↦ rw e
      | inr e ↦ rw e (lookup-assign_other k j v m n)
    ])
  ]

  pub lookup-keep_keys :
      (keep : List ℕ → Bool) (k : List ℕ) (m : List (List ℕ × V))
      → lookup k (keep_keys keep m) ≡ (if keep k then lookup k m else none)
  unfolding lookup keep_keys
  lookup-keep_keys keep k [] = elim (Bool-cases (keep k)) [ inl h ↦ rw h | inr h ↦ rw h ]
  lookup-keep_keys keep k ((j, v) ∷ m) = elim (Bool-cases (eq_bytes j k)) [
    | inl e ↦
        let same = ap keep (eq_bytes→eq j k e) in
        elim (Bool-cases (keep j)) [
          | inl h ↦ rw (h, e, sym same ∙ h)
          | inr h ↦ rw (h, lookup-keep_keys keep k m, sym same ∙ h)
        ]
    | inr e ↦ elim (Bool-cases (keep j)) [
      | inl h ↦ rw (h, e, lookup-keep_keys keep k m)
      | inr h ↦ rw (h, e, lookup-keep_keys keep k m)
    ]
  ]

  pub All-assign {κ} :
      (P : List ℕ × V → Type κ) (k : List ℕ) (v : V) (m : List (List ℕ × V))
      → P (k, v)
      → All P m
      → All P (assign k v m)
  unfolding assign
  All-assign P k v [] p h = (p, tt)
  All-assign P k v ((j, w) ∷ m) p h = elim (Bool-cases (eq_bytes j k)) [
    | inl e ↦ rw e (subst (λ l. P (l, v)) (sym (eq_bytes→eq j k e)) p, h.1)
    | inr e ↦ rw e (h.0, All-assign P k v m p h.1)
  ]

  pub All-keep_keys {κ} :
      (P : List ℕ × V → Type κ) (keep : List ℕ → Bool) (m : List (List ℕ × V))
      → All P m
      → All P (keep_keys keep m)
  unfolding keep_keys
  All-keep_keys P keep [] h = tt
  All-keep_keys P keep ((j, v) ∷ m) h = elim (Bool-cases (keep j)) [
    | inl e ↦ rw e (h.0, All-keep_keys P keep m h.1)
    | inr e ↦ rw e (All-keep_keys P keep m h.1)
  ]

  pub All-lookup {κ} :
      (P : List ℕ × V → Type κ) (k : List ℕ) (v : V) (m : List (List ℕ × V))
      → All P m
      → lookup k m ≡ some v
      → P (k, v)
  unfolding lookup
  All-lookup P k v [] h e = cc
  All-lookup P k v ((j, w) ∷ m) h e = elim (Bool-cases (eq_bytes j k)) [
    | inl t ↦
        let found : some w ≡ some v = rw t at e in
        let same : w ≡ v = cc in
        subst (λ u. P (k, u)) same (subst (λ l. P (l, w)) (eq_bytes→eq j k t) h.0)
    | inr t ↦ All-lookup P k v m h.1 (rw t at e)
  ]
