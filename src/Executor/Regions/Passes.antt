-- ===== src/Executor/Regions/Passes.antt =====
-- A pass of a loop of `infer_regions`.
use sygaldreye.Common.{
  ℕ, ◌≡◌, refl, ap, sym, ◌∙◌, List, [], ◌∷◌, Bool, true, false, not, ◌&&◌, Bool-cases, inl, inr,
  All, eq_bytes, eq_bytes→eq,
}
use sygaldreye.Crown.{before_slash}
use sygaldreye.Executor.Regions.{Edge, holds, grow_pass}

module _ (carries : Edge → Bool) where
  -- An edge that would make the set grow.
  abbrev pub fires : List (List ℕ) → Edge → Bool
  fires members e =
      holds (before_slash e.1) members && (not (holds (before_slash e.0) members) && carries e)

  abbrev pub IsClosed : List Edge → List (List ℕ) → Type 0
  IsClosed edges members = All (λ (e : Edge). fires members e ≡ false) edges

  abbrev pub Within : List (List ℕ) → List (List ℕ) → Type 0
  Within xs ys = (id : List ℕ) → holds id xs ≡ true → holds id ys ≡ true

  -- The least set around the first one that is closed.
  pub record IsLeast (edges : List Edge) (start members : List (List ℕ)) : Type 0 where
    pub around : Within start members
    pub closed : IsClosed edges members
    pub least :
        (other : List (List ℕ)) → Within start other → IsClosed edges other → Within members other

  pub fires-inverse :
      (members : List (List ℕ)) (e : Edge)
      → fires members e ≡ true
      → (holds (before_slash e.1) members ≡ true)
        × (holds (before_slash e.0) members ≡ false)
        × (carries e ≡ true)
  fires-inverse members e h =
      parts (holds (before_slash e.1) members) (holds (before_slash e.0) members) (carries e) h
    where
      parts : (a b c : Bool) → (a && (not b && c)) ≡ true → (a ≡ true) × (b ≡ false) × (c ≡ true)
      parts true false true h = (refl, refl, refl)
      parts true false false h = cc
      parts true true c h = cc
      parts false b c h = cc

  pub grow_pass-fires :
      (e : Edge) (edges : List Edge) (members : List (List ℕ)) (grew : Bool)
      → fires members e ≡ true
      → grow_pass carries (e ∷ edges) (members, grew)
        ≡ grow_pass carries edges (before_slash e.0 ∷ members, true)
  unfolding grow_pass
  grow_pass-fires (from, to) edges members grew h = rw (h, grow_pass)

  pub grow_pass-passes :
      (e : Edge) (edges : List Edge) (members : List (List ℕ)) (grew : Bool)
      → fires members e ≡ false
      → grow_pass carries (e ∷ edges) (members, grew) ≡ grow_pass carries edges (members, grew)
  unfolding grow_pass
  grow_pass-passes (from, to) edges members grew h = rw (h, grow_pass)

  grow_pass-true :
      (edges : List Edge) (members : List (List ℕ))
      → (grow_pass carries edges (members, true)).1 ≡ true
  grow_pass-true [] members = unfold grow_pass in refl
  grow_pass-true (e ∷ edges) members = elim (Bool-cases (fires members e)) [
    | inl h ↦
        ap (λ r. r.1) (grow_pass-fires e edges members true h)
        ∙ grow_pass-true edges (before_slash e.0 ∷ members)
    | inr h ↦ ap (λ r. r.1) (grow_pass-passes e edges members true h) ∙ grow_pass-true edges members
  ]

  holds-cons :
      (x id : List ℕ) (members : List (List ℕ))
      → holds id members ≡ true
      → holds id (x ∷ members) ≡ true
  holds-cons x id members h = elim (Bool-cases (eq_bytes x id)) [ inl e ↦ rw e | inr e ↦ rw e h ]

  pub grow_pass-Within :
      (edges : List Edge) (members : List (List ℕ)) (grew : Bool)
      → Within members (grow_pass carries edges (members, grew)).0
  grow_pass-Within [] members grew id h = unfold grow_pass in h
  grow_pass-Within (e ∷ edges) members grew id h = elim (Bool-cases (fires members e)) [
    | inl f ↦
        ap (λ r. holds id r.0) (grow_pass-fires e edges members grew f)
        ∙ grow_pass-Within edges (before_slash e.0 ∷ members) true id
            (holds-cons (before_slash e.0) id members h)
    | inr f ↦
        ap (λ r. holds id r.0) (grow_pass-passes e edges members grew f)
        ∙ grow_pass-Within edges members grew id h
  ]

  -- A pass that does not grow the set leaves it, and no edge fires.
  pub grow_pass-false :
      (edges : List Edge) (members : List (List ℕ))
      → (grow_pass carries edges (members, false)).1 ≡ false
      → ((grow_pass carries edges (members, false)).0 ≡ members) × IsClosed edges members
  grow_pass-false [] members h = (unfold grow_pass in refl, tt)
  grow_pass-false (e ∷ edges) members h = elim (Bool-cases (fires members e)) [
    | inl f ↦ absurd (
        true-ne-false (
          sym (grow_pass-true edges (before_slash e.0 ∷ members))
          ∙ ap (λ r. r.1) (sym (grow_pass-fires e edges members false f))
          ∙ h))
    | inr f ↦
        let same = grow_pass-passes e edges members false f in
        let rest = grow_pass-false edges members (ap (λ r. r.1) (sym same) ∙ h) in
        (ap (λ r. r.0) same ∙ rest.0, (f, rest.1))
  ]
    where
      true-ne-false : true ≡ false → ⊥
      true-ne-false p = cc

  -- What is closed and around the set stays around it.
  pub grow_pass-least :
      (edges : List Edge) (members other : List (List ℕ)) (grew : Bool)
      → Within members other
      → IsClosed edges other
      → Within (grow_pass carries edges (members, grew)).0 other
  grow_pass-least [] members other grew w c id h = w id (unfold grow_pass in h)
  grow_pass-least (e ∷ edges) members other grew w c id h = elim (Bool-cases (fires members e)) [
    | inr f ↦
        grow_pass-least edges members other grew w c.1 id
          (ap (λ r. holds id r.0) (sym (grow_pass-passes e edges members grew f)) ∙ h)
    | inl f ↦
        grow_pass-least edges (before_slash e.0 ∷ members) other true (with_source f) c.1 id
          (ap (λ r. holds id r.0) (sym (grow_pass-fires e edges members grew f)) ∙ h)
  ]
    where
      source_in : (a b k : Bool) → a ≡ true → k ≡ true → (a && (not b && k)) ≡ false → b ≡ true
      source_in true true true ha hk h = refl
      source_in true false true ha hk h = cc
      source_in true b false ha hk h = cc
      source_in false b k ha hk h = cc

      with_source : fires members e ≡ true → Within (before_slash e.0 ∷ members) other
      with_source f id h = elim (Bool-cases (eq_bytes (before_slash e.0) id)) [
        | inr other_id ↦ w id (rw other_id at h)
        | inl same ↦
            let parts = fires-inverse members e f in
            ap (λ l. holds l other) (sym (eq_bytes→eq (before_slash e.0) id same))
            ∙ source_in (holds (before_slash e.1) other) (holds (before_slash e.0) other)
                (carries e) (w (before_slash e.1) parts.0) parts.2 c.0
      ]
