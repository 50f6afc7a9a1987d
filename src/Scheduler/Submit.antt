-- ===== src/Scheduler/Submit.antt =====
-- src/ModelScheduler.cpp, `submit` up to its wait: a request is queued, or refused at once.
use neuriplo_kserve_runtime.Prelude.{
  ℕ, ◌+◌, ◌≤◌, ◌≡◌, refl, false, [], ◌∷◌, ◌++◌, Option, none, some, length, arith, length-append,
  leb, if_both,
}
use neuriplo_kserve_runtime.Request.{ExecutionRequest}
use neuriplo_kserve_runtime.Batching.Merge.{u64}
use neuriplo_kserve_runtime.Scheduler.Result.{
  SchedulerResult, make_draining_result, make_overloaded_result, make_scheduler_error,
}
use neuriplo_kserve_runtime.Scheduler.World.{
  Config, PendingRequest, World, enqueue, start_submit, make_pending, count_accepted,
  count_rejected,
}

-- Queued: the request is the queue's last, the queue is within its bound and was not draining, one
-- more request is accepted, and the caller has no result so far. Refused: the caller gets a failure
-- and neither the queue nor the promises nor the number of accepted requests change.
pub data Entered (bound : ℕ) (pending : PendingRequest) (w : World)
    : World × Option SchedulerResult → Type 0 where
  queued :
      (w' : World)
      → w'.queue ≡ w.queue ++ pending ∷ []
      → length w'.queue ≤ bound
      → w.draining ≡ false
      → w'.metrics.requests_accepted ≡ u64 (w.metrics.requests_accepted + 1)
      → Entered bound pending w (w', none)
  refused :
      (w' : World) (result : SchedulerResult)
      → result.ok ≡ false
      → w'.queue ≡ w.queue
      → w'.promise ≡ w.promise
      → w'.metrics.requests_accepted ≡ w.metrics.requests_accepted
      → Entered bound pending w (w', some result)

pub enqueue-Entered :
    (config : Config) (pending : PendingRequest) (w : World)
    → Entered config.max_queue_size pending w (enqueue config pending w)
unfolding enqueue make_draining_result make_overloaded_result make_scheduler_error
enqueue-Entered config pending w =
    if_both (Entered config.max_queue_size pending w) w.draining
      (λ d. refused w make_draining_result refl refl refl refl)
      (λ d.
        if_both (Entered config.max_queue_size pending w)
          (leb config.max_queue_size (length w.queue))
          (λ full. refused (count_rejected w) make_overloaded_result refl refl refl refl)
          (λ room.
            queued (count_accepted (record w { queue = w.queue ++ pending ∷ [] })) refl
              (grind (arith, length-append w.queue (pending ∷ []))) d refl))

-- A request that is submitted is either queued or refused at once. Queued: it is the last of a queue
-- that is within the configured bound and was not draining, and it is counted as accepted. Refused:
-- the caller gets a failure, and the queue, the promises and the count of accepted requests are as
-- before.
pub start_submit-Entered :
    (config : Config) (id fresh : ℕ) (request : ExecutionRequest) (w : World)
    → Entered config.max_queue_size
        (make_pending config id fresh request w.clock)
        w
        (start_submit config id fresh request w)
unfolding start_submit make_draining_result make_scheduler_error
start_submit-Entered config id fresh request w =
    let pending = make_pending config id fresh request w.clock in
    if_both (Entered config.max_queue_size pending w) w.draining
      (λ d. refused w make_draining_result refl refl refl refl)
      (λ d. enqueue-Entered config pending w)
