-- ===== src/Llm/Inference.antt =====
-- src/LlmScheduler.cpp, `runInference`, and the steps of `processSingle` that leave the decode slots
-- alone: they are those of src/ModelScheduler.cpp.
use neuriplo_kserve_runtime.Prelude.{Bool, true, false, not, Option, none, some, ℕ}
use neuriplo_kserve_runtime.Request.{ExecutionRequest, ExecutionResponse, LlmGenerationParams}
use neuriplo_kserve_runtime.Batching.Split.{backend_error}
use neuriplo_kserve_runtime.Scheduler.Result.{make_timeout_result, make_draining_result}
use neuriplo_kserve_runtime.Scheduler.World.{
  PendingRequest, M, pure, ◌>>=◌, ◌>>◌, update, other_threads, fulfill_result, count_timed_out,
}
use neuriplo_kserve_runtime.Scheduler.Process.{Inference, returned, threw, threw_other}

-- `draining_.load`
unfoldable pub is_draining : M Bool
unfolding other_threads
is_draining w = let w' = other_threads w.moves w in some (w'.draining, w')

abbrev pub flag_of : (ℕ → Bool) → Option ℕ → Bool
flag_of tokens none = false
flag_of tokens (some token) = tokens token

-- `cancel_token && cancel_token->load`
unfoldable pub is_stopped : ExecutionRequest → M Bool
unfolding other_threads
is_stopped request w =
    let w' = other_threads w.moves w in some (flag_of w'.tokens request.cancel_token, w')

abbrev pub streams : Option LlmGenerationParams → Bool
streams none = false
streams (some params) = params.streaming

-- Whether the call completed, and the response. A request that streams without a callback gets one
-- that does nothing.
unfoldable pub run_llm_inference : ExecutionRequest → Inference → M (Bool × ExecutionResponse)
unfolding is_stopped
run_llm_inference request (returned response) = do
  stopped ← is_stopped request
  pure (not stopped, response)
run_llm_inference request (threw what) = pure (true, backend_error what)
run_llm_inference request threw_other = pure (true, backend_error "executor inference failed")

unfoldable pub time_out : PendingRequest → M (Unit {0})
time_out p = do update count_timed_out; fulfill_result p make_timeout_result

unfoldable pub refuse_draining : PendingRequest → M (Unit {0})
refuse_draining p = fulfill_result p make_draining_result
