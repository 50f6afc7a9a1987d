-- ===== src/Scheduler/Process.antt =====
-- src/ModelScheduler.cpp, `processBatch` and `processSingle`: a worker answers the requests that it
-- took from the queue.
pub mod Rules
pub mod Answers
mod Examples
use neuriplo_kserve_runtime.Prelude.{
  ℕ, Bool, true, false, not, List, [], ◌∷◌, map, Option, none, some, leb, length, if◌then◌else◌,
  String,
}
use neuriplo_kserve_runtime.Request.{ExecutionRequest, ExecutionResponse, empty_response}
use neuriplo_kserve_runtime.Batching.Merge.{
  Merging, ok, refused, undefined, MergedBatch, merge_execution_requests,
}
use neuriplo_kserve_runtime.Batching.Split.{split_execution_response, backend_error}
use neuriplo_kserve_runtime.Scheduler.Result.{
  SchedulerResult, empty_result, adopt, make_executor_failure_result, make_timeout_result,
  elapsed_ns, record_latencies, record_batch_execution,
}
use neuriplo_kserve_runtime.Scheduler.Pool.{select, release}
use neuriplo_kserve_runtime.Scheduler.World.{
  PendingRequest, World, M, pure, ◌>>=◌, ◌>>◌, update, now, is_cancelled, fulfill_result,
  fulfill_expired_request,
}

-- What a call of an executor does: it returns, or throws an exception with a text or without one.
pub data Inference : Type 0 where
  returned : ExecutionResponse → Inference
  threw : String → Inference
  threw_other : Inference

-- `runInference` always completes.
unfoldable pub run_inference : Inference → Bool × ExecutionResponse
run_inference (returned response) = (true, response)
run_inference (threw what) = (true, backend_error what)
run_inference threw_other = (true, backend_error "executor inference failed")

unfoldable pub select_executor : M ℕ
select_executor w = elim (select w.inflight) [
  | none ↦ none
  | some (index, inflight) ↦ some (index, record w { inflight = inflight })
]

unfoldable pub release_executor : ℕ → M (Unit {0})
release_executor index w = some (tt, record w { inflight = release index w.inflight })

-- The result of an executed request.
unfoldable pub executed : PendingRequest → ℕ → ℕ → ℕ → ExecutionResponse → SchedulerResult
unfolding adopt
executed p started finished count response =
    adopt
      (record empty_result {
        queue_latency_ns = elapsed_ns p.enqueued_at started;
        execution_latency_ns = elapsed_ns started finished;
        total_latency_ns = elapsed_ns p.enqueued_at finished;
        batch_size = count;
      })
      response

unfoldable pub deliver_result : PendingRequest → ℕ → ℕ → ℕ → ExecutionResponse → M (Unit {0})
deliver_result p started finished count response = do
  update (λ w. record w { metrics = record_latencies p.enqueued_at started finished w.metrics })
  fulfill_result p (executed p started finished count response)

unfoldable pub finish_single : PendingRequest → ℕ → ℕ → Bool → ExecutionResponse → M (Unit {0})
finish_single p started finished completed response =
    if not completed then fulfill_expired_request p else (do
      gone ← is_cancelled p
      if gone
          then pure tt
          else if leb p.deadline finished
          then fulfill_expired_request p
          else deliver_result p started finished 1 response)

-- The first loop of `processBatch`, and its body.
unfoldable pub expire_if_late : ℕ → PendingRequest → M (Unit {0})
expire_if_late time p = do
  gone ← is_cancelled p
  if gone then pure tt else if leb p.deadline time then fulfill_expired_request p else pure tt

unfoldable pub expire_late : ℕ → List PendingRequest → M (Unit {0})
expire_late time [] = pure tt
expire_late time (p ∷ ps) = do expire_if_late time p; expire_late time ps

-- The second loop.
unfoldable pub pick_active : List PendingRequest → M (List PendingRequest)
pick_active [] = pure []
pick_active (p ∷ ps) = do
  gone ← is_cancelled p
  late ← if gone then pure true else (do time ← now; pure (leb p.deadline time))
  rest ← pick_active ps
  pure (if late then rest else p ∷ rest)

unfoldable pub expire_all : List PendingRequest → M (Unit {0})
expire_all [] = pure tt
expire_all (p ∷ ps) = do fulfill_expired_request p; expire_all ps

unfoldable pub fail_all : String → List PendingRequest → M (Unit {0})
fail_all error [] = pure tt
fail_all error (p ∷ ps) = do
  fulfill_result p (make_executor_failure_result error)
  fail_all error ps

-- `split_responses.at(index)` throws where there is no response for a request in time.
unfoldable pub deliver_one : ℕ → ℕ → ℕ → PendingRequest → Option ExecutionResponse → M (Unit {0})
deliver_one started finished count p response =
    if leb p.deadline finished
    then fulfill_expired_request p
    else elim response [ none ↦ (λ w. none) | some r ↦ deliver_result p started finished count r ]

unfoldable pub deliver : ℕ → ℕ → ℕ → List PendingRequest → List ExecutionResponse → M (Unit {0})
deliver started finished count [] responses = pure tt
deliver started finished count (p ∷ ps) [] = do
  deliver_one started finished count p none
  deliver started finished count ps []
deliver started finished count (p ∷ ps) (r ∷ rs) = do
  deliver_one started finished count p (some r)
  deliver started finished count ps rs

unfoldable pub deliver_split :
    ℕ → ℕ → List PendingRequest → Option (List ExecutionResponse) → M (Unit {0})
deliver_split started finished active none w = none
deliver_split started finished active (some responses) w =
    deliver started finished (length active) active responses w

unfoldable pub finish_merged :
    List PendingRequest → MergedBatch → ℕ → ℕ → Bool → ExecutionResponse → M (Unit {0})
finish_merged active merged started finished completed response =
    if not completed then expire_all active else (do
      update (λ w. record w {
        metrics = record_batch_execution (elapsed_ns started finished) w.metrics;
      })
      deliver_split started finished active
          (split_execution_response response merged.batch_sizes (map (λ p. p.request) active)))

-- The executors: what each makes of a request.
module _ (executors : ℕ → ExecutionRequest → Inference) where
  unfoldable pub execute_single : PendingRequest → M (Unit {0})
  execute_single p = do
    index ← select_executor
    started ← now
    let outcome = run_inference (executors index p.request)
    finished ← now
    release_executor index
    finish_single p started finished outcome.0 outcome.1

  unfoldable pub process_single : PendingRequest → M (Unit {0})
  process_single p = do
    gone ← is_cancelled p
    if gone then pure tt else (do
      time ← now
      if leb p.deadline time then fulfill_expired_request p else execute_single p)

  unfoldable pub execute_merged : List PendingRequest → MergedBatch → M (Unit {0})
  execute_merged active merged = do
    index ← select_executor
    started ← now
    let outcome = run_inference (executors index merged.request)
    finished ← now
    release_executor index
    finish_merged active merged started finished outcome.0 outcome.1

  unfoldable pub process_merging : List PendingRequest → Merging MergedBatch → M (Unit {0})
  process_merging active undefined w = none
  process_merging active (refused error) w = fail_all error active w
  process_merging active (ok merged) w = execute_merged active merged w

  unfoldable pub process_active : List PendingRequest → M (Unit {0})
  process_active [] = pure tt
  process_active (p ∷ []) = process_single p
  process_active (p ∷ q ∷ rest) =
      process_merging (p ∷ q ∷ rest)
        (merge_execution_requests (map (λ r. r.request) (p ∷ q ∷ rest)))

  unfoldable pub process_batch : List PendingRequest → M (Unit {0})
  process_batch batch = do
    time ← now
    expire_late time batch
    active ← pick_active batch
    process_active active
