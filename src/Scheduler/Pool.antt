-- ===== src/Scheduler/Pool.antt =====
-- src/ModelScheduler.cpp, `ExecutorPool`: how many requests each executor is running.
pub mod Balance
use neuriplo_kserve_runtime.Prelude.{
  ℕ, zero, suc, ◌+◌, ◌-◌, List, [], ◌∷◌, Option, none, some, if◌then◌else◌, ltb,
}

-- The loop of `select` over the entries behind `index`.
unfoldable pub best_from : ℕ → ℕ → ℕ → List ℕ → ℕ
best_from best_index best_inflight index [] = best_index
best_from best_index best_inflight index (inflight ∷ rest) =
    if ltb inflight best_inflight
    then best_from index inflight (suc index) rest
    else best_from best_index best_inflight (suc index) rest

unfoldable pub increment : ℕ → List ℕ → List ℕ
increment i [] = []
increment zero (n ∷ ns) = (n + 1) ∷ ns
increment (suc i) (n ∷ ns) = n ∷ increment i ns

-- `inflight_[0]` is undefined in an empty pool, which the scheduler's constructor rules out.
unfoldable pub select : List ℕ → Option (ℕ × List ℕ)
select [] = none
select (n ∷ ns) = let best = best_from 0 n 1 ns in some (best, increment best (n ∷ ns))

unfoldable pub release : ℕ → List ℕ → List ℕ
release i [] = []
release zero (n ∷ ns) = (if ltb 0 n then n - 1 else n) ∷ ns
release (suc i) (n ∷ ns) = n ∷ release i ns

unfoldable pub current_in_flight : List ℕ → ℕ
current_in_flight [] = 0
current_in_flight (n ∷ ns) = n + current_in_flight ns
