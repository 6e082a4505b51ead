-- ===== src/Executor/Schedule/Runs.antt =====
-- Schedules of concrete graphs.
use sygaldreye.Common.{
  ℕ, ◌≡◌, refl, List, [], ◌∷◌, false, inl, inr, All, ◌==◌, if◌then◌else◌, arith,
}
use sygaldreye.Common.Outcome.{ok}
use sygaldreye.Executor.Schedule.{
  Pair, Vector, SccSchedule, discover, visit, pop_component, dfs, dfs_all, hard_from, soft_from,
  pick, release, emit_all, order_components, scc_order,
}
use sygaldreye.Executor.Schedule.Returns.{IsNumbered, order_components-ok}
use sygaldreye.Executor.Schedule.Each.{IsSchedule}

-- 3 feeds the cycle of 0 and 1, which feeds 2; 2 feeds 3 by an edge that is cut.
abbrev ring : List Pair
ring = (3, 0) ∷ (0, 1) ∷ (1, 0) ∷ (1, 2) ∷ []

abbrev ring_and_cut : List Pair
ring_and_cut = (2, 3) ∷ ring

abbrev ring_schedule : SccSchedule
ring_schedule = record {
  components = (3 ∷ []) ∷ (0 ∷ 1 ∷ []) ∷ (2 ∷ []) ∷ [];
  self_loop = false ∷ false ∷ false ∷ [];
}

ring_ordered : scc_order 4 ring ring_and_cut ≡ ok ring_schedule
unfolding scc_order dfs_all dfs discover visit pop_component order_components hard_from soft_from
    emit_all pick release
ring_ordered = refl

-- The numbering that the search gives: 2 is left first, then the cycle, then 3.
abbrev ring_comp : Vector ℕ
ring_comp = λ v. if v == 2 then 0 else if v == 3 then 2 else 1

ring-IsNumbered : All (IsNumbered ring_comp 3) ring
ring-IsNumbered =
    (inr (omega arith, omega arith), (inl refl, (inl refl, (inr (omega arith, omega arith), tt))))

order_components-ok_example :
    (out : SccSchedule) × (order_components 4 ring ring_and_cut ring_comp 3 ≡ ok out)
    × IsSchedule 4 3 ring ring_comp out
order_components-ok_example = order_components-ok 4 3 ring ring_and_cut ring_comp ring-IsNumbered
