-- ===== src/Llm/Submit.antt =====
-- src/LlmScheduler.cpp, `submit` up to its wait, and `metrics`.
pub mod Decision
use neuriplo_kserve_runtime.Prelude.{
  ℕ, ◌+◌, ◌*◌, ◌≡◌, refl, String, Bool, false, List, [], ◌∷◌, Option, none, some, if◌then◌else◌,
  ltb, arith, inl, inr, ◌&&◌, ◌≢◌, ◌⊎◌, if_both,
}
use neuriplo_kserve_runtime.Request.{InputTensor, ExecutionRequest}
use neuriplo_kserve_runtime.Batching.Merge.{u64}
use neuriplo_kserve_runtime.Lifecycle.{LlmSchedulerConfig}
use neuriplo_kserve_runtime.Scheduler.Result.{
  SchedulerResult, SchedulerMetrics, make_invalid_argument_result, make_draining_result,
  make_memory_pressure_result, snapshot, make_scheduler_error,
}
use neuriplo_kserve_runtime.Scheduler.World.{Config, PendingRequest, World, enqueue, make_pending}
use neuriplo_kserve_runtime.Scheduler.Submit.{Entered, refused, enqueue-Entered}
use neuriplo_kserve_runtime.Llm.Admission.{find_bytes_prompt, validate_llm_request}

unfoldable pub first_text : List String → String
first_text [] = ""
first_text (text ∷ rest) = text

-- The text whose tokens are counted; empty where there is none.
unfoldable pub prompt_text : Option InputTensor → String
unfolding first_text
prompt_text none = ""
prompt_text (some prompt) = first_text prompt.string_data

abbrev pub count_memory_pressure : World → World
count_memory_pressure w = record w {
  metrics = record m {
    requests_memory_pressure_rejected = u64 (m.requests_memory_pressure_rejected + 1);
  };
}
  where
    m : SchedulerMetrics
    m = w.metrics

-- Two bytes for each token, in this request and in each that is running.
unfoldable pub over_budget : LlmSchedulerConfig → ℕ → ℕ → Bool
over_budget config active_decodes estimated_tokens =
    let estimated_context_bytes = u64 (estimated_tokens * 2) in
    let active_context_bytes = u64 (active_decodes * estimated_context_bytes) in
    ltb 0 config.memory_budget_bytes
    && ltb config.memory_budget_bytes (u64 (active_context_bytes + estimated_context_bytes))

-- The queue's settings, which both schedulers use in the same way.
abbrev pub queue_config : LlmSchedulerConfig → Config
queue_config config = record {
  max_queue_size = config.max_queue_size;
  request_timeout_ms = config.request_timeout_ms;
  instances = config.instances;
  dynamic_batching = record {
    enabled = false;
    max_batch_size = 1;
    max_queue_delay_us = 0;
    preferred_batch_sizes = [];
  };
}

-- `count_tokens` is the tokenizer's; `id` and `fresh` name the pending request and its new token.
module _ (to_string : ℕ → String) (count_tokens : String → ℕ) (config : LlmSchedulerConfig) where
  unfoldable pub estimate : ExecutionRequest → ℕ
  estimate request = count_tokens (prompt_text (find_bytes_prompt request.inputs))

  unfoldable pub submit_valid :
      ℕ → ℕ → ExecutionRequest → ℕ → ℕ → World → World × Option SchedulerResult
  submit_valid id fresh request active_decodes estimated_tokens w =
      if w.draining
      then (w, some make_draining_result)
      else if over_budget config active_decodes estimated_tokens
      then (count_memory_pressure w, some make_memory_pressure_result)
      else enqueue (queue_config config)
          (make_pending (queue_config config) id fresh request w.clock) w

  unfoldable pub submit_validated :
      Option String → ℕ → ℕ → ExecutionRequest → ℕ → ℕ → World → World × Option SchedulerResult
  unfolding submit_valid
  submit_validated (some error) id fresh request active_decodes estimated_tokens w =
      (w, some (make_invalid_argument_result error))
  submit_validated none id fresh request active_decodes estimated_tokens w =
      submit_valid id fresh request active_decodes estimated_tokens w

  unfoldable pub start_llm_submit :
      ℕ → ℕ → ExecutionRequest → ℕ → World → World × Option SchedulerResult
  unfolding submit_validated estimate
  start_llm_submit id fresh request active_decodes w =
      let estimated_tokens = estimate request in
      submit_validated (validate_llm_request to_string request config estimated_tokens) id fresh
        request active_decodes estimated_tokens w

-- `metrics` of the LLM scheduler.
unfoldable pub llm_snapshot : LlmSchedulerConfig → ℕ → ℕ → SchedulerMetrics → SchedulerMetrics
unfolding snapshot
llm_snapshot config queue_depth in_flight m = record (snapshot queue_depth in_flight m) {
  kv_cache_slots_total = config.kv_cache_slots;
  kv_cache_slots_active = in_flight;
}
