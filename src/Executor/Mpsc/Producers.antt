-- ===== src/Executor/Mpsc/Producers.antt =====
-- A producer in `push` gets its node into the queue.
use sygaldreye.Common.{
  ℕ, ◌≡◌, ==_refl, refl, ap, sym, ◌∙◌, List, [], ◌∷◌, ◌++◌, none, some, ◌==◌, ==→eq, Bool-cases,
  inl, inr,
}
use mathlib.Core.List.{append_assoc}
use sygaldreye.Executor.Mpsc.{
  address, Pushing, Queue, pushing_of, allocate, publish, retry, take_all, collect, finish, forget,
}
use sygaldreye.Executor.Mpsc.Reversal.{reversed}
use sygaldreye.Executor.Mpsc.Order.{
  Step, allocates, retries, publishes, takes, collects, finishes, Reach, fresh, after, values,
  drained, held,
}

module _ {ℓ} {A : Type ℓ} where
  -- A producer has one node at a time.
  abbrev AreApart : List (ℕ × Pushing A) → Type ℓ
  AreApart [] = Unit {ℓ}
  AreApart ((producer, p) ∷ rest) = (pushing_of producer rest ≡ none) × AreApart rest

  pushing_of-forget_other :
      (producer other : ℕ) (l : List (ℕ × Pushing A))
      → pushing_of producer l ≡ none
      → pushing_of producer (forget other l) ≡ none
  pushing_of-forget_other producer other [] h = refl
  pushing_of-forget_other producer other ((k, p) ∷ rest) h = elim (Bool-cases (k == producer)) [
    | inl here ↦ let found : some p ≡ none = rw here at h in cc
    | inr away ↦
        let onward : pushing_of producer rest ≡ none = rw away at h in
        elim (Bool-cases (k == other)) [
          | inl gone ↦ rw gone onward
          | inr kept ↦ rw (kept, away) (pushing_of-forget_other producer other rest onward)
        ]
  ]

  forget-AreApart :
      (producer : ℕ) (l : List (ℕ × Pushing A))
      → AreApart l
      → (pushing_of producer (forget producer l) ≡ none) × AreApart (forget producer l)
  forget-AreApart producer [] h = (refl, tt)
  forget-AreApart producer ((k, p) ∷ rest) h = elim (Bool-cases (k == producer)) [
    | inl here ↦ rw here (ap (λ j. pushing_of j rest) (sym (==→eq k producer here)) ∙ h.0, h.1)
    | inr away ↦
        let r = forget-AreApart producer rest h.1 in
        rw (away, away) (r.0, (pushing_of-forget_other k producer rest h.0, r.1))
  ]

  Step-AreApart : {q r : Queue A} → Step q r → AreApart q.pushing → AreApart r.pushing
  unfolding allocate publish retry take_all collect finish
  Step-AreApart (allocates q producer node value seen h k) o = (k, o)
  Step-AreApart (retries q producer p h) o = forget-AreApart producer q.pushing o
  Step-AreApart (publishes q producer p h k) o = (forget-AreApart producer q.pushing o).1
  Step-AreApart (takes q h) o = o
  Step-AreApart (collects q node value rest start h) o = o
  Step-AreApart (finishes q start h) o = o

  Reach-AreApart : {q : Queue A} → Reach q → AreApart q.pushing
  Reach-AreApart fresh = tt
  Reach-AreApart (after r step) = Step-AreApart step (Reach-AreApart r)

  -- A producer in `push` is never blocked: in every state that the steps lead to, its next exchange,
  -- after one that failed, is one that it can make when nobody else moves. Then its node is the head,
  -- in front of all that was there, its value is behind all that the queue held, and the producer has
  -- left `push`.
  pub push_completes :
      {q : Queue A} (reached : Reach q) (producer : ℕ) (p : Pushing A)
      → pushing_of producer q.pushing ≡ some p
      → let q' = retry producer p q in
        let p' = record p { next = address q.head } in
        let r = publish producer p' q' in
        Step q q'
        × Step q' r
        × (r.head ≡ (p.node, p.value) ∷ q.head)
        × (held r ≡ held q ++ (p.value ∷ []))
        × (pushing_of producer r.pushing ≡ none)
  unfolding retry publish
  push_completes {q} reached producer p h = (
    retries q producer p h,
    publishes (retry producer p q) producer _ (rw ==_refl) refl,
    refl,
    sym (append_assoc (drained q.draining q.out) (reversed (values q.head)) (p.value ∷ [])),
    rw ==_refl (forget-AreApart producer q.pushing (Reach-AreApart reached)).0,
  )
