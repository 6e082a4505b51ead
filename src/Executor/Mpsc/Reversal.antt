-- ===== src/Executor/Mpsc/Reversal.antt =====
-- The loop at the end of `drain` reverses what was drained.
use sygaldreye.Common.{
  ℕ, zero, suc, ◌+◌, ◌-◌, ◌≤◌, ◌≡◌, refl, ap, sym, ◌∙◌, List, [], ◌∷◌, ◌++◌, some, arith, length,
  length-append, get_elem?, lt→ltb, le→ltb_false, ◌⊎◌, inl, inr,
}
use mathlib.Core.List.{append_assoc}
use sygaldreye.Executor.Mpsc.{write, swap, swap_inward}

module _ {ℓ} {A : Type ℓ} where
  abbrev pub reversed : List A → List A
  reversed [] = []
  reversed (x ∷ xs) = reversed xs ++ (x ∷ [])

  pub reversed-concat : (xs : List A) (y : A) → reversed (xs ++ (y ∷ [])) ≡ y ∷ reversed xs
  reversed-concat [] y = refl
  reversed-concat (x ∷ xs) y = ap (λ l. l ++ (x ∷ [])) (reversed-concat xs y)

  pub get_elem?-append :
      (xs : List A) (a : A) (ys : List A) (i : ℕ)
      → i ≡ length xs
      → get_elem? (xs ++ (a ∷ ys)) i ≡ some a
  get_elem?-append [] a ys zero h = refl
  get_elem?-append [] a ys (suc i) h = absurd (omega arith)
  get_elem?-append (x ∷ xs) a ys zero h = absurd (omega arith)
  get_elem?-append (x ∷ xs) a ys (suc i) h = get_elem?-append xs a ys i (omega arith)

  write-append :
      (xs : List A) (a b : A) (ys : List A) (i : ℕ)
      → i ≡ length xs
      → write (xs ++ (a ∷ ys)) i b ≡ xs ++ (b ∷ ys)
  write-append [] a b ys zero h = refl
  write-append [] a b ys (suc i) h = absurd (omega arith)
  write-append (x ∷ xs) a b ys zero h = absurd (omega arith)
  write-append (x ∷ xs) a b ys (suc i) h = ap (λ l. x ∷ l) (write-append xs a b ys i (omega arith))

  -- A list of two elements at least, by its ends.
  ends :
      (x : A) (xs : List A)
      → (xs ≡ []) ⊎ ((mid : List A) × (y : A) × (x ∷ xs ≡ x ∷ (mid ++ (y ∷ []))))
  ends x [] = inl refl
  ends x (y ∷ ys) = elim (ends y ys) [
    | inl e ↦ inr ([], y, ap (λ l. x ∷ y ∷ l) e)
    | inr (mid, z, e) ↦ inr (y ∷ mid, z, ap (λ l. x ∷ l) e)
  ]

  swap-ends :
      (pre mid post : List A) (x y : A) (i j : ℕ)
      → i ≡ length pre
      → j ≡ length pre + 1 + length mid
      → swap i j (pre ++ (x ∷ (mid ++ (y ∷ post)))) ≡ pre ++ (y ∷ (mid ++ (x ∷ post)))
  unfolding swap
  swap-ends pre mid post x y i j hi hj =
      rw (get_elem?-append pre x (mid ++ (y ∷ post)) i hi, last)
        (ap (λ l. write l j x) (write-append pre x y (mid ++ (y ∷ post)) i hi)
          ∙ ap (λ l. write l j x) (sym (append_assoc pre (y ∷ mid) (y ∷ post)))
          ∙ write-append (pre ++ (y ∷ mid)) y x post j (omega (arith, length-append pre (y ∷ mid)))
          ∙ append_assoc pre (y ∷ mid) (x ∷ post))
    where
      last : get_elem? (pre ++ (x ∷ (mid ++ (y ∷ post)))) j ≡ some y
      last =
          ap (λ l. get_elem? l j) (sym (append_assoc pre (x ∷ mid) (y ∷ post)))
          ∙ get_elem?-append (pre ++ (x ∷ mid)) y post j
              (omega (arith, length-append pre (x ∷ mid)))

  -- The loop, between what it has passed on both sides.
  pub swap_inward-lem :
      (rounds : ℕ) (pre mid post : List A) (i j : ℕ)
      → i ≡ length pre
      → j ≡ length pre + length mid
      → length mid ≤ rounds
      → swap_inward rounds i j (pre ++ (mid ++ post)) ≡ pre ++ (reversed mid ++ post)
  unfolding swap_inward
  swap_inward-lem zero pre [] post i j hi hj h = refl
  swap_inward-lem zero pre (x ∷ mid) post i j hi hj h = absurd (omega arith)
  swap_inward-lem (suc rounds) pre [] post i j hi hj h =
      rw (le→ltb_false (i + 1) j (omega arith), swap_inward)
  swap_inward-lem (suc rounds) pre (x ∷ xs) post i j hi hj h = elim (ends x xs) [
    | inl e ↦
        rw (le→ltb_false (i + 1) j (omega (arith, ap (λ l. length l) e)), swap_inward)
          (ap (λ l. pre ++ ((x ∷ l) ++ post)) e
            ∙ sym (ap (λ l. pre ++ (reversed (x ∷ l) ++ post)) e))
    | inr (mid, y, e) ↦
        let count : length (x ∷ xs) ≡ length mid + 2 =
          omega (arith, ap (λ l. length l) e, length-append mid (y ∷ [])) in
        rw (lt→ltb (i + 1) j (omega arith), swap_inward)
          (ap (λ l. swap_inward rounds (i + 1) (j - 1) (swap i (j - 1) (pre ++ (l ++ post)))) e
            ∙ ap (λ l. swap_inward rounds (i + 1) (j - 1) (swap i (j - 1) (pre ++ (x ∷ l))))
                (append_assoc mid (y ∷ []) post)
            ∙ ap (swap_inward rounds (i + 1) (j - 1))
                (swap-ends pre mid post x y i (j - 1) hi (omega arith))
            ∙ ap (swap_inward rounds (i + 1) (j - 1))
                (sym (append_assoc pre (y ∷ []) (mid ++ (x ∷ post))))
            ∙ swap_inward-lem rounds (pre ++ (y ∷ [])) mid (x ∷ post) (i + 1) (j - 1)
                (omega (arith, length-append pre (y ∷ [])))
                (omega (arith, length-append pre (y ∷ []))) (omega arith)
            ∙ append_assoc pre (y ∷ []) (reversed mid ++ (x ∷ post))
            ∙ ap (λ l. pre ++ (y ∷ l)) (sym (append_assoc (reversed mid) (x ∷ []) post))
            ∙ ap (λ l. pre ++ ((l ++ (x ∷ [])) ++ post)) (sym (reversed-concat mid y))
            ∙ ap (λ l. pre ++ (l ++ post)) (sym (ap reversed e)))
  ]
