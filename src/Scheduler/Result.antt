-- ===== src/Scheduler/Result.antt =====
-- src/Scheduler.hpp, src/SchedulerMetrics.hpp and the helpers at the top of src/ModelScheduler.cpp
-- and src/LlmScheduler.cpp: results, their constructors, and the metrics.
use neuriplo_kserve_runtime.Prelude.{
  ℕ, ◌+◌, ◌-◌, ◌^◌, String, Bool, true, false, not, if◌then◌else◌, str_eq,
}
use neuriplo_kserve_runtime.Request.{ExecutionResponse, empty_response}
use neuriplo_kserve_runtime.Batching.Merge.{u64}

pub data SchedulerError : Type 0 where
  no_error overloaded timeout draining unavailable : SchedulerError

pub record SchedulerResult : Type 0 where
  pub ok : Bool
  pub scheduler_error : SchedulerError
  pub error_code : String
  pub error_message : String
  pub response : ExecutionResponse
  pub queue_latency_ns : ℕ
  pub execution_latency_ns : ℕ
  pub total_latency_ns : ℕ
  pub batch_size : ℕ

-- A result as it is default-constructed.
abbrev pub empty_result : SchedulerResult
empty_result = record {
  ok = true;
  scheduler_error = no_error;
  error_code = "";
  error_message = "";
  response = empty_response;
  queue_latency_ns = 0;
  execution_latency_ns = 0;
  total_latency_ns = 0;
  batch_size = 0;
}

unfoldable pub adopt : SchedulerResult → ExecutionResponse → SchedulerResult
adopt result executor_response =
    let r = record result { response = executor_response } in
    if not executor_response.ok
    then record r {
      ok = false;
      error_code = executor_response.error_code;
      error_message = executor_response.error_message;
    }
    else r

unfoldable pub make_scheduler_error : SchedulerError → String → String → SchedulerResult
make_scheduler_error error code message = record empty_result {
  ok = false;
  scheduler_error = error;
  error_code = code;
  error_message = message;
}

unfoldable pub make_timeout_result : SchedulerResult
unfolding make_scheduler_error
make_timeout_result = make_scheduler_error timeout "DEADLINE_EXCEEDED" "request exceeded deadline"

unfoldable pub make_draining_result : SchedulerResult
unfolding make_scheduler_error
make_draining_result = make_scheduler_error draining "UNAVAILABLE" "model is draining"

unfoldable pub make_overloaded_result : SchedulerResult
unfolding make_scheduler_error
make_overloaded_result = make_scheduler_error overloaded "QUEUE_FULL" "request queue is full"

unfoldable pub make_executor_failure_result : String → SchedulerResult
unfolding adopt
make_executor_failure_result message = adopt empty_result (record empty_response {
  ok = false;
  error_code = "BACKEND_ERROR";
  error_message = if str_eq message "" then "executor inference failed" else message;
})

unfoldable pub make_invalid_argument_result : String → SchedulerResult
make_invalid_argument_result message = record empty_result {
  ok = false;
  error_code = "INVALID_ARGUMENT";
  error_message = message;
}

unfoldable pub make_memory_pressure_result : SchedulerResult
unfolding make_scheduler_error
make_memory_pressure_result =
    make_scheduler_error overloaded "QUEUE_FULL" "request rejected due to KV cache memory pressure"

-- The counters that the schedulers keep; `queue_depth`, `in_flight` and the slots are filled in when
-- a snapshot is taken.
pub record SchedulerMetrics : Type 0 where
  pub queue_depth : ℕ
  pub in_flight : ℕ
  pub requests_accepted : ℕ
  pub requests_rejected : ℕ
  pub requests_timed_out : ℕ
  pub requests_memory_pressure_rejected : ℕ
  pub queue_wait_ns_total : ℕ
  pub execution_ns_total : ℕ
  pub total_ns_total : ℕ
  pub completed_requests : ℕ
  pub batches_formed : ℕ
  pub batched_requests_total : ℕ
  pub batch_formation_ns_total : ℕ
  pub batch_execution_ns_total : ℕ
  pub kv_cache_slots_total : ℕ
  pub kv_cache_slots_active : ℕ

abbrev pub no_metrics : SchedulerMetrics
no_metrics = record {
  queue_depth = 0;
  in_flight = 0;
  requests_accepted = 0;
  requests_rejected = 0;
  requests_timed_out = 0;
  requests_memory_pressure_rejected = 0;
  queue_wait_ns_total = 0;
  execution_ns_total = 0;
  total_ns_total = 0;
  completed_requests = 0;
  batches_formed = 0;
  batched_requests_total = 0;
  batch_formation_ns_total = 0;
  batch_execution_ns_total = 0;
  kv_cache_slots_total = 0;
  kv_cache_slots_active = 0;
}

-- The difference of two readings of the clock, as an unsigned number of nanoseconds.
unfoldable pub elapsed_ns : ℕ → ℕ → ℕ
elapsed_ns start finish = u64 (finish + 2 ^ 64 - start)

unfoldable pub record_batch : ℕ → ℕ → ℕ → SchedulerMetrics → SchedulerMetrics
record_batch batch_size formation_ns execution_ns m = record m {
  batches_formed = u64 (m.batches_formed + 1);
  batched_requests_total = u64 (m.batched_requests_total + batch_size);
  batch_formation_ns_total = u64 (m.batch_formation_ns_total + formation_ns);
  batch_execution_ns_total = u64 (m.batch_execution_ns_total + execution_ns);
}

unfoldable pub record_batch_execution : ℕ → SchedulerMetrics → SchedulerMetrics
record_batch_execution execution_ns m = record m {
  batch_execution_ns_total = u64 (m.batch_execution_ns_total + execution_ns);
}

unfoldable pub record_latencies : ℕ → ℕ → ℕ → SchedulerMetrics → SchedulerMetrics
record_latencies enqueued_at started finished m = record m {
  queue_wait_ns_total = u64 (m.queue_wait_ns_total + elapsed_ns enqueued_at started);
  execution_ns_total = u64 (m.execution_ns_total + elapsed_ns started finished);
  total_ns_total = u64 (m.total_ns_total + elapsed_ns enqueued_at finished);
  completed_requests = u64 (m.completed_requests + 1);
}

unfoldable pub snapshot : ℕ → ℕ → SchedulerMetrics → SchedulerMetrics
snapshot queue_depth in_flight m = record m { queue_depth = queue_depth; in_flight = in_flight }
