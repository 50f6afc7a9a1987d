-- ===== src/Llm/Examples.antt =====
-- A prompt for a model with a small context, and the theorems at it.
use neuriplo_kserve_runtime.Prelude.{
  List, ℕ, String, false, [], ◌∷◌, none, ◌≡◌, refl, arith, ◌+◌, length, if◌then◌else◌,
}
use neuriplo_kserve_runtime.Request.{
  InputTensor, ExecutionRequest, empty_request, is_bytes_datatype,
}
use neuriplo_kserve_runtime.Lifecycle.{LlmSchedulerConfig}
use neuriplo_kserve_runtime.Scheduler.Result.{no_metrics}
use neuriplo_kserve_runtime.Scheduler.World.{World}
use neuriplo_kserve_runtime.Llm.Admission.{
  Admissible, find_bytes_prompt, validate_llm_request, validate_llm_request_iff, validate_prompt,
  effective_max_tokens, sampling_error,
}
use neuriplo_kserve_runtime.Llm.Tokens.{
  is_empty, Words, count_tokens, count_from, is_blank, count_tokens-Words,
}
use neuriplo_kserve_runtime.Llm.Slots.{Acquired, acquire_decode_slot, acquire_decode_slot-bounded}

abbrev small : LlmSchedulerConfig
small = record {
  max_queue_size = 4;
  request_timeout_ms = 1000;
  instances = 1;
  context_length = 32;
  kv_cache_slots = 2;
  max_tokens = 16;
  tokens_per_char = 0;
  memory_budget_bytes = 0;
}

abbrev words : InputTensor
words = record {
  name = "text_input";
  datatype = "BYTES";
  shape = 1 ∷ [];
  bytes = [];
  string_data = "once upon a time" ∷ [];
}

abbrev question : ExecutionRequest
question = record empty_request { inputs = words ∷ [] }

-- Printing is not observed by an accepted request.
abbrev digits : ℕ → String
digits n = "?"

abbrev four_tokens : String → ℕ
four_tokens text = 4

question_valid : validate_llm_request digits question small 4 ≡ none
unfolding validate_llm_request find_bytes_prompt is_bytes_datatype validate_prompt
    effective_max_tokens sampling_error
question_valid = refl

validate_llm_request_iff_example : Admissible question small 4
validate_llm_request_iff_example =
    (validate_llm_request_iff digits small question 4 (omega arith)).0 question_valid

abbrev idle : World
idle = record {
  clock = 0;
  moves = [];
  queue = [];
  draining = false;
  inflight = 0 ∷ [];
  metrics = no_metrics;
  cancelled = λ _. false;
  tokens = λ _. false;
  promise = λ _. none;
}

-- A budget of 20 bytes: 8 for the question and 8 for the request that is running.
abbrev budgeted : LlmSchedulerConfig
budgeted = record small { memory_budget_bytes = 20 }

acquire_decode_slot-bounded_example :
    Acquired 2 1 false
      (record { active_decodes = 1; draining = false })
      (acquire_decode_slot 2
        (record { releases = 1; drains = false })
        (record { releases = 0; drains = false })
        (record { active_decodes = 1; draining = false }))
acquire_decode_slot-bounded_example =
    acquire_decode_slot-bounded 2 (record { releases = 1; drains = false })
      (record { releases = 0; drains = false }) (record { active_decodes = 1; draining = false })
      (omega arith)

-- " Hi you\n\tthere", by its bytes.
abbrev greeting : List ℕ
greeting = 32 ∷ 72 ∷ 105 ∷ 32 ∷ 121 ∷ 111 ∷ 117 ∷ 10 ∷ 9 ∷ 116 ∷ 104 ∷ 101 ∷ 114 ∷ 101 ∷ []

count_tokens-Words_example :
    (ws : Words greeting) × (count_tokens greeting
      ≡ length ws.words + (if is_empty ws.last then 0 else 1))
count_tokens-Words_example = count_tokens-Words greeting

three_words : count_tokens greeting ≡ 3
unfolding count_tokens count_from is_blank
three_words = refl
