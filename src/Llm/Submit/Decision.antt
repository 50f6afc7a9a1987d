-- ===== src/Llm/Submit/Decision.antt =====
-- src/LlmScheduler.cpp, `submit` up to its wait: which requests for generation are queued.
use neuriplo_kserve_runtime.Prelude.{ℕ, ◌+◌, ◌*◌, ◌≤◌, ◌≡◌, String, ◌⊎◌}
use neuriplo_kserve_runtime.Request.{ExecutionRequest}
use neuriplo_kserve_runtime.Lifecycle.{LlmSchedulerConfig}
use neuriplo_kserve_runtime.Scheduler.World.{PendingRequest, World, make_pending}
use neuriplo_kserve_runtime.Llm.Submit.{queue_config}

-- Two bytes for each token of the prompt, for this request and once more for each that is running,
-- are within the budget; 0 stands for no budget.
abbrev pub Within : LlmSchedulerConfig → ℕ → ℕ → Type 0
Within config active_decodes estimated_tokens =
    (config.memory_budget_bytes ≡ 0)
    ⊎ ((active_decodes + 1) * (estimated_tokens * 2) ≤ config.memory_budget_bytes)

module _ (to_string : ℕ → String) (count_tokens : String → ℕ) (config : LlmSchedulerConfig)
    (id fresh : ℕ) (request : ExecutionRequest) (active_decodes : ℕ) (w : World) where
  pending : PendingRequest
  pending = make_pending (queue_config config) id fresh request w.clock
