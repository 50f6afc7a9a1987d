-- ===== src/Scheduler/Process/Examples.antt =====
-- A worker at work: instances of the theorems on the pool and on batches.
use neuriplo_kserve_runtime.Prelude.{
  true, ℕ, ◌≡◌, refl, List, [], ◌∷◌, none, some, arith, false, All,
}
use neuriplo_kserve_runtime.Request.{ExecutionRequest, empty_request}
use neuriplo_kserve_runtime.Batching.Compat.{request_batch_size}
use neuriplo_kserve_runtime.Scheduler.Result.{no_metrics}
use neuriplo_kserve_runtime.Scheduler.Pool.{select}
use neuriplo_kserve_runtime.Scheduler.Pool.Balance.{Selected, select-Selected}
use neuriplo_kserve_runtime.Scheduler.World.{
  World, PendingRequest, Move, Config, start_submit, make_pending,
}
use neuriplo_kserve_runtime.Scheduler.Drain.{Rejected, is_ready, begin_drain, begin_drain-Rejected}
use neuriplo_kserve_runtime.Scheduler.Submit.{Entered, start_submit-Entered}
use neuriplo_kserve_runtime.Scheduler.Process.{Inference, threw_other, process_batch}
use neuriplo_kserve_runtime.Scheduler.Process.Rules.{Runs, Later, Settled}
use neuriplo_kserve_runtime.Scheduler.Process.Answers.Lists.{ids}
use neuriplo_kserve_runtime.Scheduler.Process.Answers.Batch.{Tame, process_batch-AnswersAll}

abbrev asked : ℕ → ℕ → PendingRequest
asked id deadline = record {
  id = id;
  request = empty_request;
  enqueued_at = 0;
  deadline = deadline;
}

abbrev pass : Move
pass = record { elapsed = 3; give_ups = []; arrivals = []; drains = false }

-- The caller of the second request gives up while the worker looks at its first.
abbrev leave : Move
leave = record { elapsed = 3; give_ups = asked 2 50 ∷ []; arrivals = []; drains = false }

abbrev busy : World
busy = record {
  clock = 10;
  moves = pass ∷ leave ∷ pass ∷ [];
  queue = [];
  draining = false;
  inflight = 0 ∷ [];
  metrics = no_metrics;
  cancelled = λ i. false;
  tokens = λ i. false;
  promise = λ i. none;
}

abbrev failing : ℕ → ExecutionRequest → Inference
failing index request = threw_other

failing-Tame : Tame failing
failing-Tame index request response e = absurd (cc)

abbrev three : List PendingRequest
three = asked 1 12 ∷ asked 2 50 ∷ asked 3 90 ∷ []

process_batch-AnswersAll_example :
    Runs
      (process_batch failing three)
      busy
      (λ _ w'. Later (ids three) busy w' × All (Settled w') three)
unfolding request_batch_size
process_batch-AnswersAll_example =
    process_batch-AnswersAll failing failing-Tame three busy (omega arith) (omega arith)
      (refl, (refl, (refl, tt))) (refl, (refl, (refl, tt)))

select-Selected_example :
    (index : ℕ) × (after : List ℕ) × (select (2 ∷ 0 ∷ 1 ∷ []) ≡ some (index, after))
    × Selected (2 ∷ 0 ∷ 1 ∷ []) index after
select-Selected_example = select-Selected (2 ∷ 0 ∷ 1 ∷ []) (omega arith)

abbrev short_queue : Config
short_queue = record {
  max_queue_size = 1;
  request_timeout_ms = 100;
  instances = 1;
  dynamic_batching = record {
    enabled = false;
    max_batch_size = 1;
    max_queue_delay_us = 0;
    preferred_batch_sizes = [];
  };
}

start_submit-Entered_example :
    Entered 1
      (make_pending short_queue 9 9 empty_request busy.clock)
      busy
      (start_submit short_queue 9 9 empty_request busy)
start_submit-Entered_example = start_submit-Entered short_queue 9 9 empty_request busy

abbrev left : World
left = record busy { queue = asked 1 50 ∷ asked 2 60 ∷ [] }

begin_drain-Rejected_example :
    (w : World) × (begin_drain left ≡ some (tt, w))
    × (w.queue ≡ [])
    × (is_ready w ≡ false)
    × Rejected (asked 1 50 ∷ asked 2 60 ∷ []) (record left { queue = []; draining = true }) w
begin_drain-Rejected_example = begin_drain-Rejected left ((refl, tt), (tt, tt)) (refl, (refl, tt))
