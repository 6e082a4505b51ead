-- ===== src/Formats/Cbor/Keys.antt =====
-- Maps by their keys: the order, `object[k] = v`, and sorting.
use sygaldreye.Common.{
  ℕ, ◌<◌, ◌≡◌, ◌≢◌, ◌⊎◌, inl, inr, refl, ap, sym, ◌∙◌, List, [], ◌∷◌, true, false, eq_bytes,
  eq_bytes_refl, arith,
}
use mathlib.Core.Path.{subst}
use native.Mathlib.Decide.{dec_lt}
use sygaldreye.Formats.Cbor.Json.{Json, Fields, end, field, lex_less, put_field}

-- `a` comes before `b`, as every test on the two says.
pub record IsBelow (a b : List ℕ) : Type 0 where
  pub less : lex_less a b ≡ true
  pub greater : lex_less b a ≡ false
  pub same : eq_bytes a b ≡ false
  pub same' : eq_bytes b a ≡ false

abbrev Compared : List ℕ → List ℕ → Type 0
Compared a b = IsBelow a b ⊎ (a ≡ b) ⊎ IsBelow b a

IsBelow-lt : (x y : ℕ) (xs ys : List ℕ) → x < y → IsBelow (x ∷ xs) (y ∷ ys)
unfolding lex_less
IsBelow-lt x y xs ys h = record {
  less = ground arith;
  greater = ground arith;
  same = ground arith;
  same' = ground arith;
}

IsBelow-cons : (x : ℕ) {xs ys : List ℕ} → IsBelow xs ys → IsBelow (x ∷ xs) (x ∷ ys)
unfolding lex_less
IsBelow-cons x h = record {
  less = ground (arith, h.less);
  greater = ground (arith, h.greater);
  same = ground (arith, h.same);
  same' = ground (arith, h.same');
}

pub compare_keys : (a b : List ℕ) → Compared a b
unfolding lex_less
compare_keys [] [] = inr (inl refl)
compare_keys [] (y ∷ ys) = inl (record { less = refl; greater = refl; same = refl; same' = refl })
compare_keys (x ∷ xs) [] =
    inr (inr (record { less = refl; greater = refl; same = refl; same' = refl }))
compare_keys (x ∷ xs) (y ∷ ys) = elim (dec_lt x y) [
  | yes lt ↦ inl (IsBelow-lt x y xs ys lt)
  | no ge ↦ elim (dec_lt y x) [
    | yes gt ↦ inr (inr (IsBelow-lt y x ys xs gt))
    | no le ↦
        let e : x ≡ y = omega arith in
        subst (λ z. Compared (x ∷ xs) (z ∷ ys)) e
          (elim (compare_keys xs ys) [
            | inl h ↦ inl (IsBelow-cons x h)
            | inr (inl h) ↦ inr (inl (ap (λ l. x ∷ l) h))
            | inr (inr h) ↦ inr (inr (IsBelow-cons x h))
          ])
  ]
]

lex_less_trans : (a b c : List ℕ) → lex_less a b ≡ true → lex_less b c ≡ true → lex_less a c ≡ true
unfolding lex_less
lex_less_trans a b [] h k = cc
lex_less_trans a [] (z ∷ zs) h k = cc
lex_less_trans [] (y ∷ ys) (z ∷ zs) h k = refl
lex_less_trans (x ∷ xs) (y ∷ ys) (z ∷ zs) h k = ground (arith, lex_less_trans xs ys zs)

lex_less_irrefl : (a : List ℕ) → lex_less a a ≡ false
unfolding lex_less
lex_less_irrefl [] = refl
lex_less_irrefl (x ∷ xs) = ground (arith, lex_less_irrefl xs)

-- One of the tests decides the others.
pub IsBelow-less : (a b : List ℕ) → lex_less a b ≡ true → IsBelow a b
IsBelow-less a b h = elim (compare_keys a b) [
  | inl k ↦ k
  | inr (inl e) ↦ absurd (cc (rw e at h, lex_less_irrefl b))
  | inr (inr k) ↦ absurd (cc (h, k.greater))
]

pub IsBelow-trans : {a b c : List ℕ} → IsBelow a b → IsBelow b c → IsBelow a c
IsBelow-trans {a} {b} {c} h k = IsBelow-less a c (lex_less_trans a b c h.less k.less)

-- `object[k] = v` by the place of `k`.
module _ (k : List ℕ) (v : Json) {i : List ℕ} (u : Json) (fs : Fields) where
  put-below : IsBelow k i → put_field k v (field i u fs) ≡ field k v (field i u fs)
  unfolding put_field
  put-below h = rw h.less

  pub put-above : IsBelow i k → put_field k v (field i u fs) ≡ field i u (put_field k v fs)
  unfolding put_field
  put-above h = rw (h.greater, h.same')

put_self : (k : List ℕ) (v u : Json) (fs : Fields) → put_field k v (field k u fs) ≡ field k v fs
unfolding put_field
put_self k v u fs = rw (lex_less_irrefl k, eq_bytes_refl k)

-- The order of two writes to different keys does not matter.
put_comm_below :
    (k j : List ℕ) (v w : Json) (fs : Fields)
    → IsBelow k j
    → put_field k v (put_field j w fs) ≡ put_field j w (put_field k v fs)
put_comm_below k j v w end h = unfold put_field in rw (h.less, h.greater, h.same')
put_comm_below k j v w (field i u fs) h = elim (compare_keys k i) [
  | inl ki ↦ elim (compare_keys j i) [
    | inl ji ↦
        rw (put-below j w u fs ji, put-below k v w (field i u fs) h, put-below k v u fs ki)
          (sym (put-above j w v (field i u fs) h ∙ ap (field k v) (put-below j w u fs ji)))
    | inr (inl e) ↦
        rw (← e, put_self j w u fs, put-below k v w fs h, put-below k v u fs h)
          (sym (put-above j w v (field j u fs) h ∙ ap (field k v) (put_self j w u fs)))
    | inr (inr ij) ↦
        rw (put-above j w u fs ij, put-below k v u (put_field j w fs) ki, put-below k v u fs ki)
          (sym (put-above j w v (field i u fs) h ∙ ap (field k v) (put-above j w u fs ij)))
  ]
  | inr (inl e) ↦
      rw (← e, put-above j w u fs h, put_self k v u (put_field j w fs), put_self k v u fs)
        (sym (put-above j w v fs h))
  | inr (inr ik) ↦
      let ij = IsBelow-trans ik h in
      rw (put-above j w u fs ij, put-above k v u (put_field j w fs) ik, put-above k v u fs ik)
        (ap (field i u) (put_comm_below k j v w fs h) ∙ sym (put-above j w u (put_field k v fs) ij))
]

pub put_comm :
    (k j : List ℕ) (v w : Json) (fs : Fields)
    → k ≢ j
    → put_field k v (put_field j w fs) ≡ put_field j w (put_field k v fs)
put_comm k j v w fs h = elim (compare_keys k j) [
  | inl kj ↦ put_comm_below k j v w fs kj
  | inr (inl e) ↦ absurd (h e)
  | inr (inr jk) ↦ sym (put_comm_below j k w v fs jk)
]
