-- ===== src/Llm/Worker.antt =====
-- src/LlmScheduler.cpp, `popNextPending` and `workerLoop`: a worker takes requests from the queue until
-- the scheduler drains.
pub mod Ending
use neuriplo_kserve_runtime.Prelude.{
  ℕ, zero, suc, Bool, true, false, ◌||◌, List, [], ◌∷◌, Option, none, some, if◌then◌else◌,
}
use neuriplo_kserve_runtime.Request.{ExecutionRequest}
use neuriplo_kserve_runtime.Scheduler.World.{PendingRequest, World, Move, M, others}
use neuriplo_kserve_runtime.Scheduler.Process.{Inference}
use neuriplo_kserve_runtime.Llm.Slots.{Meanwhile}
use neuriplo_kserve_runtime.Llm.Process.{Decoder, L, lift, process_single_llm, ◌>>=◌, ◌>>◌}

-- A request, the null pointer of a drained queue, or a wait that no move of the other threads ends.
pub data Popped : Type 0 where
  popped : PendingRequest → Popped
  drained waits : Popped

abbrev pub has_work : World → Bool
has_work w = w.draining || nonempty w.queue
  where
    nonempty : List PendingRequest → Bool
    nonempty [] = false
    nonempty (p ∷ ps) = true

-- The wait on the queue's condition, over the moves that are left.
unfoldable pub wait_for_work : List Move → World → World
wait_for_work [] w = w
wait_for_work (m ∷ ms) w =
    let woken = wait_for_work ms (others m (record w { moves = ms })) in
    if has_work w then w else woken

unfoldable pub take_front : List PendingRequest → World → Option (Popped × World)
take_front [] w = some (if w.draining then drained else waits, w)
take_front (p ∷ rest) w = some (popped p, record w { queue = rest })

unfoldable pub pop_next_pending : M Popped
unfolding wait_for_work take_front
pop_next_pending w = let w' = wait_for_work w.moves w in take_front w'.queue w'

-- How the loop stands when it stops: it returned, it waits, or the fuel is used up.
pub data Stopped : Type 0 where
  returned_from_loop asleep out_of_fuel : Stopped

-- `turn` says what the other threads do to the slots while the worker waits for one.
module _ (executors : ℕ → Bool → ExecutionRequest → Inference) (kv_cache_slots : ℕ)
    (turn : Decoder → Meanwhile × Meanwhile) where
  unfoldable pub serve_one : PendingRequest → L (Unit {0})
  serve_one p d = process_single_llm executors kv_cache_slots (turn d).0 (turn d).1 p d

  unfoldable pub go_round : Popped → L Stopped → L Stopped
  go_round drained rest d = some (returned_from_loop, d)
  go_round waits rest d = some (asleep, d)
  go_round (popped p) rest d = (serve_one p >> rest) d

  unfoldable pub worker_loop : ℕ → L Stopped
  worker_loop zero d = some (out_of_fuel, d)
  worker_loop (suc fuel) d = (lift pop_next_pending >>= λ next. go_round next (worker_loop fuel)) d
