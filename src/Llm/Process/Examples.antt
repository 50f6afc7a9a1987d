-- ===== src/Llm/Process/Examples.antt =====
-- A worker that runs requests for generation: instances of the theorems on it.
use neuriplo_kserve_runtime.Prelude.{ℕ, Bool, true, false, [], ◌∷◌, none, some, ◌≡◌, refl, arith}
use neuriplo_kserve_runtime.Request.{ExecutionRequest, empty_request}
use neuriplo_kserve_runtime.Scheduler.Result.{no_metrics}
use neuriplo_kserve_runtime.Scheduler.World.{PendingRequest, Move}
use neuriplo_kserve_runtime.Scheduler.Process.{Inference, threw}
use neuriplo_kserve_runtime.Scheduler.Process.Rules.{Later, Settled}
use neuriplo_kserve_runtime.Llm.Slots.{Meanwhile}
use neuriplo_kserve_runtime.Llm.Worker.{returned_from_loop, worker_loop}
use neuriplo_kserve_runtime.Llm.Worker.Ending.{Drained, worker_loop-Drained}
use neuriplo_kserve_runtime.Llm.Process.{Decoder, process_single_llm}
use neuriplo_kserve_runtime.Llm.Process.Released.{Between, process_single_llm-Ends}

abbrev asked : ℕ → ℕ → PendingRequest
asked id deadline = record {
  id = id;
  request = empty_request;
  enqueued_at = 0;
  deadline = deadline;
}

abbrev pass : Move
pass = record { elapsed = 3; give_ups = []; arrivals = []; drains = false }

-- Two of two slots are taken.
abbrev busy : Decoder
busy = record {
  world = record {
    clock = 10;
    moves = pass ∷ pass ∷ [];
    queue = [];
    draining = false;
    inflight = 0 ∷ [];
    metrics = no_metrics;
    cancelled = λ i. false;
    tokens = λ i. false;
    promise = λ i. none;
  };
  active_decodes = 2;
}

abbrev failing : ℕ → Bool → ExecutionRequest → Inference
failing index streamed request = threw "out of memory"

abbrev one_freed : Meanwhile
one_freed = record { releases = 1; drains = false }

abbrev nothing : Meanwhile
nothing = record { releases = 0; drains = false }

process_single_llm-Ends_example :
    (d' : Decoder) × (process_single_llm failing 2 one_freed nothing (asked 1 90) busy
      ≡ some (tt, d'))
    × Later (1 ∷ []) busy.world d'.world
    × Settled d'.world (asked 1 90)
    × Between 2 1 d'.active_decodes
process_single_llm-Ends_example =
    process_single_llm-Ends failing (asked 1 90) 2 one_freed nothing busy (omega arith)
      (omega arith) refl

-- A drain starts while two requests are queued.
abbrev draining : Decoder
draining = record {
  world = record {
    clock = 10;
    moves = pass ∷ pass ∷ [];
    queue = asked 1 12 ∷ asked 2 90 ∷ [];
    draining = true;
    inflight = 0 ∷ [];
    metrics = no_metrics;
    cancelled = λ i. false;
    tokens = λ i. false;
    promise = λ i. none;
  };
  active_decodes = 0;
}

worker_loop-Drained_example :
    (d' : Decoder) × (worker_loop failing 2 (λ d. (nothing, nothing)) 3 draining
      ≡ some (returned_from_loop, d'))
    × Drained (asked 1 12 ∷ asked 2 90 ∷ []) draining.world d'.world
worker_loop-Drained_example =
    worker_loop-Drained failing 2 (λ d. (nothing, nothing)) draining (λ d. omega arith)
      (omega arith) refl (refl, (refl, tt)) (refl, (refl, tt)) (refl, (refl, tt))
