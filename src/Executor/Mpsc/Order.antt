-- ===== src/Executor/Mpsc/Order.antt =====
-- The queue is first in, first out, and drops and repeats nothing.
use sygaldreye.Common.{
  ℕ, zero, suc, ◌≤◌, ◌≡◌, ◌≢◌, refl, ap, sym, ◌∙◌, List, [], ◌∷◌, ◌++◌, Option, none, some, arith,
  length, length-append, take, drop, take_whole, take-append-drop, length-drop,
}
use mathlib.Core.List.{append_assoc, append-nil}
use mathlib.Core.Path.{subst}
use sygaldreye.Executor.Mpsc.{
  Chain, address, Pushing, Draining, Queue, new_queue, pushing_of, allocate, publish, retry,
  take_all, collect, finish, swap_inward,
}
use sygaldreye.Executor.Mpsc.Reversal.{reversed, swap_inward-lem}

module _ {ℓ} {A : Type ℓ} where
  -- The steps of any number of producers and of one consumer, in any order. A weak exchange may
  -- fail at any time; it succeeds when the addresses agree, also when the head was freed and its
  -- address used again in between.
  pub data Step : Queue A → Queue A → Type ℓ where
    allocates :
        (q : Queue A) (producer node : ℕ) (value : A) (seen : ℕ)
        → node ≢ 0
        → pushing_of producer q.pushing ≡ none
        → Step q (allocate producer node value seen q)
    retries :
        (q : Queue A) (producer : ℕ) (p : Pushing A)
        → pushing_of producer q.pushing ≡ some p
        → Step q (retry producer p q)
    publishes :
        (q : Queue A) (producer : ℕ) (p : Pushing A)
        → pushing_of producer q.pushing ≡ some p
        → address q.head ≡ p.next
        → Step q (publish producer p q)
    takes : (q : Queue A) → q.draining ≡ none → Step q (take_all q)
    collects :
        (q : Queue A) (node : ℕ) (value : A) (rest : Chain A) (start : ℕ)
        → q.draining ≡ some (record { rest = (node, value) ∷ rest; start = start })
        → Step q (collect node value rest start q)
    finishes :
        (q : Queue A) (start : ℕ)
        → q.draining ≡ some (record { rest = []; start = start })
        → Step q (finish start q)

  pub data Reach : Queue A → Type ℓ where
    fresh : Reach new_queue
    after : {q r : Queue A} → Reach q → Step q r → Reach r

  abbrev pub values : Chain A → List A
  values [] = []
  values (node ∷ chain) = node.1 ∷ values chain

  -- What the drained list and the consumer's chain stand for.
  abbrev pub drained : Option (Draining A) → List A → List A
  drained none out = out
  drained (some d) out = take d.start out ++ reversed (drop d.start out ++ values d.rest)

  -- Oldest first: what was drained, what is being drained, and what the head still holds.
  abbrev pub held : Queue A → List A
  held q = drained q.draining q.out ++ reversed (values q.head)

  abbrev StartsInside : Option (Draining A) → List A → Type 0
  StartsInside none out = Unit {0}
  StartsInside (some d) out = d.start ≤ length out

  take-append_le : (n : ℕ) (xs ys : List A) → n ≤ length xs → take n (xs ++ ys) ≡ take n xs
  take-append_le zero xs ys h = refl
  take-append_le (suc n) [] ys h = absurd (omega arith)
  take-append_le (suc n) (x ∷ xs) ys h = ap (λ l. x ∷ l) (take-append_le n xs ys (omega arith))

  drop-append_le : (n : ℕ) (xs ys : List A) → n ≤ length xs → drop n (xs ++ ys) ≡ drop n xs ++ ys
  drop-append_le zero xs ys h = refl
  drop-append_le (suc n) [] ys h = absurd (omega arith)
  drop-append_le (suc n) (x ∷ xs) ys h = drop-append_le n xs ys (omega arith)

  drop_whole : (xs : List A) → drop (length xs) xs ≡ []
  drop_whole [] = refl
  drop_whole (x ∷ xs) = drop_whole xs

  -- Started at the end of `out`, a drain has taken nothing yet.
  drained-start :
      (out : List A) (chain : Chain A)
      → drained (some (record { rest = chain; start = length out })) out
        ≡ out ++ reversed (values chain)
  drained-start out chain =
      ap (λ l. l ++ reversed (drop (length out) out ++ values chain))
        (take_whole (length out) out refl)
      ∙ ap (λ l. out ++ reversed (l ++ values chain)) (drop_whole out)

  drained-collect :
      (out : List A) (node : ℕ) (v : A) (rest : Chain A) (start : ℕ)
      → start ≤ length out
      → drained (some (record { rest = rest; start = start })) (out ++ (v ∷ []))
        ≡ drained (some (record { rest = (node, v) ∷ rest; start = start })) out
  drained-collect out node v rest start h =
      ap (λ l. l ++ reversed (drop start (out ++ (v ∷ [])) ++ values rest))
        (take-append_le start out (v ∷ []) h)
      ∙ ap (λ l. take start out ++ reversed (l ++ values rest))
          (drop-append_le start out (v ∷ []) h)
      ∙ ap (λ l. take start out ++ reversed l)
          (append_assoc (drop start out) (v ∷ []) (values rest))

  drained-finish :
      (out : List A) (start : ℕ)
      → start ≤ length out
      → swap_inward (length out) start (length out) out
        ≡ drained (some (record { rest = []; start = start })) out
  drained-finish out start h =
      ap (swap_inward (length out) start (length out)) (sym split)
      ∙ swap_inward-lem (length out) (take start out) (drop start out) [] start (length out)
          (omega (arith, long)) (omega (arith, long, length-drop start out))
          (omega (arith, length-drop start out))
      ∙ ap (λ l. take start out ++ l) (append-nil (reversed (drop start out)))
      ∙ ap (λ l. take start out ++ reversed l) (sym (append-nil (drop start out)))
    where
      split : take start out ++ (drop start out ++ []) ≡ out
      split =
          ap (λ l. take start out ++ l) (append-nil (drop start out)) ∙ take-append-drop start out

      long : length (take start out) ≡ start
      long = omega (
        arith,
        length-append (take start out) (drop start out),
        ap (λ l. length l) (take-append-drop start out),
        length-drop start out,
      )

  record IsOrdered (q : Queue A) : Type ℓ where
    kept : held q ≡ q.published
    inside : StartsInside q.draining q.out

  Step-IsOrdered : {q r : Queue A} → Step q r → IsOrdered q → IsOrdered r
  unfolding allocate publish retry take_all collect finish
  Step-IsOrdered (allocates q producer node value seen h k) o = record {
    kept = o.kept;
    inside = o.inside;
  }
  Step-IsOrdered (retries q producer p h) o = record { kept = o.kept; inside = o.inside }
  Step-IsOrdered (publishes q producer p h k) o = record {
    kept =
        sym (append_assoc (drained q.draining q.out) (reversed (values q.head)) (p.value ∷ []))
        ∙ ap (λ l. l ++ (p.value ∷ [])) o.kept;
    inside = o.inside;
  }
  Step-IsOrdered (takes q h) o = record {
    kept =
        append-nil _
        ∙ drained-start q.out q.head
        ∙ sym (ap (λ d. drained d q.out ++ reversed (values q.head)) h)
        ∙ o.kept;
    inside = omega arith;
  }
  Step-IsOrdered (collects q node value rest start h) o = record {
    kept =
        ap (λ l. l ++ reversed (values q.head))
          (drained-collect q.out node value rest start
            (subst (λ d. StartsInside d q.out) h o.inside))
        ∙ sym (ap (λ d. drained d q.out ++ reversed (values q.head)) h)
        ∙ o.kept;
    inside =
        omega
          (arith, subst (λ d. StartsInside d q.out) h o.inside, length-append q.out (value ∷ []));
  }
  Step-IsOrdered (finishes q start h) o = record {
    kept =
        ap (λ l. l ++ reversed (values q.head))
          (drained-finish q.out start (subst (λ d. StartsInside d q.out) h o.inside))
        ∙ sym (ap (λ d. drained d q.out ++ reversed (values q.head)) h)
        ∙ o.kept;
    inside = tt;
  }

  Reach-IsOrdered : {q : Queue A} → Reach q → IsOrdered q
  Reach-IsOrdered fresh = record { kept = refl; inside = tt }
  Reach-IsOrdered (after r step) = Step-IsOrdered step (Reach-IsOrdered r)

  -- Whenever the consumer is not in `drain`, what it has drained so far, then what the head holds from
  -- its last node to its first, is all that was published, in that order: nothing is dropped, repeated
  -- or reordered.
  pub out-Reach :
      {q : Queue A} → Reach q → q.draining ≡ none → q.out ++ reversed (values q.head) ≡ q.published
  out-Reach {q} r h =
      sym (ap (λ d. drained d q.out ++ reversed (values q.head)) h) ∙ (Reach-IsOrdered r).kept
