-- ===== src/Executor/Mpsc/Runs.antt =====
-- Two producers and a consumer, with an address that is used again.
use sygaldreye.Common.{ℕ, ◌≡◌, refl, [], ◌∷◌, ◌++◌, none, some, arith}
use sygaldreye.Executor.Mpsc.{
  Pushing, Queue, new_queue, pushing_of, address, allocate, publish, retry, take_all, collect,
  finish, swap, swap_inward,
}
use sygaldreye.Executor.Mpsc.Reversal.{reversed, swap_inward-lem}
use sygaldreye.Executor.Mpsc.Order.{
  Step, allocates, publishes, takes, collects, finishes, Reach, fresh, after, values, out-Reach,
  held,
}
use sygaldreye.Executor.Mpsc.Producers.{push_completes}

reverse_five : swap_inward {A = ℕ} 6 1 6 (0 ∷ 1 ∷ 2 ∷ 3 ∷ 4 ∷ 5 ∷ []) ≡ 0 ∷ 5 ∷ 4 ∷ 3 ∷ 2 ∷ 1 ∷ []
unfolding swap_inward swap
reverse_five = refl

swap_inward-lem_example :
    swap_inward {A = ℕ} 3 1 4 (0 ∷ (1 ∷ 2 ∷ 3 ∷ [] ++ 9 ∷ [])) ≡ 0 ∷ 3 ∷ 2 ∷ 1 ∷ 9 ∷ []
swap_inward-lem_example =
    swap_inward-lem 3 (0 ∷ []) (1 ∷ 2 ∷ 3 ∷ []) (9 ∷ []) 1 4 (omega arith) (omega arith)
      (omega arith)

-- Producer 1 publishes 10 at address 5, producer 2 publishes 20 at address 6.
abbrev first : Pushing ℕ
first = record { node = 5; value = 10; next = 0 }

abbrev second : Pushing ℕ
second = record { node = 6; value = 20; next = 5 }

abbrev q₁ : Queue ℕ
q₁ = allocate 1 5 10 0 new_queue

abbrev q₂ : Queue ℕ
q₂ = publish 1 first q₁

abbrev q₃ : Queue ℕ
q₃ = allocate 2 6 20 5 q₂

abbrev q₄ : Queue ℕ
q₄ = publish 2 second q₃

abbrev q₅ : Queue ℕ
q₅ = take_all q₄

abbrev q₆ : Queue ℕ
q₆ = collect 6 20 ((5, 10) ∷ []) 0 q₅

abbrev q₇ : Queue ℕ
q₇ = collect 5 10 [] 0 q₆

abbrev q₈ : Queue ℕ
q₈ = finish 0 q₇

q₈-Reach : Reach q₈
unfolding allocate publish take_all collect finish
q₈-Reach =
    after
      (after
        (after
          (after
            (after
              (after
                (after (after fresh (allocates new_queue 1 5 10 0 (omega arith) refl))
                  (publishes q₁ 1 first refl refl))
                (allocates q₂ 2 6 20 5 (omega arith) refl))
              (publishes q₃ 2 second refl refl))
            (takes q₄ refl))
          (collects q₅ 6 20 ((5, 10) ∷ []) 0 refl))
        (collects q₆ 5 10 [] 0 refl))
      (finishes q₇ 0 refl)

drained_in_order : q₈.out ≡ 10 ∷ 20 ∷ []
unfolding allocate publish take_all collect finish swap_inward swap
drained_in_order = refl

q₈_idle : q₈.draining ≡ none
unfolding finish
q₈_idle = refl

out-Reach_example : q₈.out ++ reversed (values q₈.head) ≡ q₈.published
out-Reach_example = out-Reach q₈-Reach q₈_idle

waiting : pushing_of 2 q₃.pushing ≡ some second
unfolding allocate
waiting = refl

q₃-Reach : Reach q₃
unfolding allocate publish
q₃-Reach =
    after
      (after (after fresh (allocates new_queue 1 5 10 0 (omega arith) refl))
        (publishes q₁ 1 first refl refl))
      (allocates q₂ 2 6 20 5 (omega arith) refl)

push_completes_example :
    Step q₃ (retry 2 second q₃)
    × Step
        (retry 2 second q₃)
        (publish 2 (record second { next = address q₃.head }) (retry 2 second q₃))
    × ((publish 2 (record second { next = address q₃.head }) (retry 2 second q₃)).head
        ≡ (6, 20) ∷ q₃.head)
    × (held (publish 2 (record second { next = address q₃.head }) (retry 2 second q₃))
        ≡ held q₃ ++ (20 ∷ []))
    × (pushing_of 2
          (publish 2 (record second { next = address q₃.head }) (retry 2 second q₃)).pushing
        ≡ none)
push_completes_example = push_completes q₃-Reach 2 second waiting
