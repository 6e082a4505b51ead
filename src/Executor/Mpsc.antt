-- ===== src/Executor/Mpsc.antt =====
-- executor/mpsc.hpp: the queue from many producers to one consumer.
pub mod Reversal
pub mod Order
pub mod Producers
mod Runs
use sygaldreye.Common.{
  ℕ, zero, suc, ◌+◌, ◌-◌, ◌≡◌, List, [], ◌∷◌, ◌++◌, Bool, true, false, Option, none, some, ltb,
  ◌==◌, if◌then◌else◌, length, get_elem?,
}

-- The list that starts at `head_`: the address and the value of each node. A published node is not
-- written again, so the rest of the list at an address is that of the node which has it.
abbrev pub Chain {ℓ} : Type ℓ → Type ℓ
Chain A = List (ℕ × A)

-- The pointer to the first node, 0 for none.
abbrev pub address {ℓ} : {A : Type ℓ} → Chain A → ℕ
address [] = 0
address (node ∷ chain) = node.0

-- `std::swap(out[i], out[j])`.
module _ {ℓ} {A : Type ℓ} where
  abbrev pub write : List A → ℕ → A → List A
  write [] i x = []
  write (y ∷ ys) zero x = x ∷ ys
  write (y ∷ ys) (suc i) x = y ∷ write ys i x

  abbrev pub write_both : ℕ → ℕ → Option A → Option A → List A → List A
  write_both i j (some x) (some y) out = write (write out i y) j x
  write_both i j x y out = out

  unfoldable pub swap : ℕ → ℕ → List A → List A
  swap i j out = write_both i j (get_elem? out i) (get_elem? out j) out

  -- `for (i = start, j = out.size(); i + 1 < j--; ++i) std::swap(out[i], out[j]);`, from given
  -- indices. Each round brings them two places closer, so `j` rounds are enough.
  unfoldable pub swap_inward : ℕ → ℕ → ℕ → List A → List A
  unfolding swap
  swap_inward zero i j out = out
  swap_inward (suc rounds) i j out = elim (ltb (i + 1) j) [
    | true ↦ swap_inward rounds (i + 1) (j - 1) (swap i (j - 1) out)
    | false ↦ out
  ]

-- A producer in `push`: its new node, and the head that the node's `next` was last set to.
pub record Pushing {ℓ} (A : Type ℓ) : Type ℓ where
  pub node : ℕ
  pub value : A
  pub next : ℕ

-- The consumer in `drain`: its list `n`, and `start`.
pub record Draining {ℓ} (A : Type ℓ) : Type ℓ where
  pub rest : Chain A
  pub start : ℕ

-- `published` is the history of the exchanges that succeeded: no operation reads it.
pub record Queue {ℓ} (A : Type ℓ) : Type ℓ where
  pub head : Chain A
  pub pushing : List (ℕ × Pushing A)
  pub draining : Option (Draining A)
  pub out : List A
  pub published : List A

module _ {ℓ} {A : Type ℓ} where
  abbrev pub new_queue : Queue A
  new_queue = record { head = []; pushing = []; draining = none; out = []; published = [] }

  -- The first line of `push`, by a producer that is not in it; the node is at any free address, and
  -- the head was loaded at any time before.
  unfoldable pub allocate : ℕ → ℕ → A → ℕ → Queue A → Queue A
  allocate producer node value next q = record q {
    pushing = (producer, record { node = node; value = value; next = next }) ∷ q.pushing;
  }

  abbrev pub pushing_of : ℕ → List (ℕ × Pushing A) → Option (Pushing A)
  pushing_of producer [] = none
  pushing_of producer ((p, pushing) ∷ rest) =
      if p == producer then some pushing else pushing_of producer rest

  abbrev pub forget : ℕ → List (ℕ × Pushing A) → List (ℕ × Pushing A)
  forget producer [] = []
  forget producer ((p, pushing) ∷ rest) =
      let others = forget producer rest in if p == producer then rest else (p, pushing) ∷ others

  -- `compare_exchange_weak` that succeeds: the head is at the address that the node points to.
  unfoldable pub publish : ℕ → Pushing A → Queue A → Queue A
  publish producer p q = record q {
    head = (p.node, p.value) ∷ q.head;
    pushing = forget producer q.pushing;
    published = q.published ++ (p.value ∷ []);
  }

  -- One that fails, for another head or for none: the node points to the present head.
  unfoldable pub retry : ℕ → Pushing A → Queue A → Queue A
  retry producer p q = record q {
    pushing = (producer, record p { next = address q.head }) ∷ forget producer q.pushing;
  }

  -- `drain`: the exchange, a round of its first loop, and the reversal behind it.
  unfoldable pub take_all : Queue A → Queue A
  take_all q = record q {
    head = [];
    draining = some (record { rest = q.head; start = length q.out });
  }

  unfoldable pub collect : ℕ → A → Chain A → ℕ → Queue A → Queue A
  collect node value rest start q = record q {
    out = q.out ++ (value ∷ []);
    draining = some (record { rest = rest; start = start });
  }

  unfoldable pub finish : ℕ → Queue A → Queue A
  unfolding swap_inward
  finish start q = record q {
    out = swap_inward (length q.out) start (length q.out) q.out;
    draining = none;
  }
