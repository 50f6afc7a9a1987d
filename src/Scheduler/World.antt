-- ===== src/Scheduler/World.antt =====
-- src/ModelScheduler.cpp: the state that the callers of `submit` and the workers share, and what one
-- thread does to it.
--
-- The other threads move where a worker reads the clock or a flag: `moves` says what they do at each
-- reading to come (time that passes, callers that give up, requests that arrive, a drain that
-- starts). `steady_clock` never goes back. A `std::promise` that is set twice throws, which no worker
-- catches: the process ends, and the model returns `none`.
use neuriplo_kserve_runtime.Prelude.{
  ℕ, ◌+◌, ◌*◌, ◌%◌, ◌^◌, ltb, Bool, true, ◌||◌, List, [], ◌∷◌, ◌++◌, Option, none, some, ◌==◌, leb,
  length, if◌then◌else◌,
}
use neuriplo_kserve_runtime.Request.{ExecutionRequest}
use neuriplo_kserve_runtime.Batching.Merge.{DynamicBatchingConfig, u64}
use neuriplo_kserve_runtime.Scheduler.Result.{
  SchedulerResult, SchedulerMetrics, make_draining_result, make_overloaded_result,
  make_timeout_result,
}

-- `id` names the shared object.
pub record PendingRequest : Type 0 where
  pub id : ℕ
  pub request : ExecutionRequest
  pub enqueued_at : ℕ
  pub deadline : ℕ

pub record Config : Type 0 where
  pub max_queue_size : ℕ
  pub request_timeout_ms : ℕ
  pub instances : ℕ
  pub dynamic_batching : DynamicBatchingConfig

-- What the other threads do before the next reading.
pub record Move : Type 0 where
  pub elapsed : ℕ
  pub give_ups : List PendingRequest
  pub arrivals : List PendingRequest
  pub drains : Bool

pub record World : Type 0 where
  pub clock : ℕ
  pub moves : List Move
  pub queue : List PendingRequest
  pub draining : Bool
  pub inflight : List ℕ
  pub metrics : SchedulerMetrics
  pub cancelled : ℕ → Bool
  pub tokens : ℕ → Bool
  pub promise : ℕ → Option SchedulerResult

abbrev pub set_flag : (ℕ → Bool) → ℕ → ℕ → Bool
set_flag flags i j = if i == j then true else flags j

abbrev pub cancel_token : PendingRequest → World → World
cancel_token p w = elim p.request.cancel_token [
  | none ↦ w
  | some token ↦ record w { tokens = set_flag w.tokens token }
]

-- `metrics_.increment` at the three counters that the scheduler steps.
abbrev pub count_timed_out : World → World
count_timed_out w = record w {
  metrics = record m { requests_timed_out = u64 (m.requests_timed_out + 1) };
}
  where
    m : SchedulerMetrics
    m = w.metrics

abbrev pub count_rejected : World → World
count_rejected w = record w {
  metrics = record m { requests_rejected = u64 (m.requests_rejected + 1) };
}
  where
    m : SchedulerMetrics
    m = w.metrics

abbrev pub count_accepted : World → World
count_accepted w = record w {
  metrics = record m { requests_accepted = u64 (m.requests_accepted + 1) };
}
  where
    m : SchedulerMetrics
    m = w.metrics

-- An instant of the clock is a signed number of 64 bits, which a sum wraps around to (the source
-- leaves it undefined). A negative one is before every reading of the clock, as 0 is.
unfoldable pub instant : ℕ → ℕ
instant ns = let bits = ns % 2 ^ 64 in if ltb bits (2 ^ 63) then bits else 0

-- The request as `submit` queues it: it keeps the caller's cancel token, or gets the fresh one.
unfoldable pub make_pending : Config → ℕ → ℕ → ExecutionRequest → ℕ → PendingRequest
unfolding instant
make_pending config id fresh request enqueued_at = record {
  id = id;
  request = record request {
    cancel_token = some (elim request.cancel_token [ none ↦ fresh | some token ↦ token ]);
  };
  enqueued_at = enqueued_at;
  deadline = instant (enqueued_at + config.request_timeout_ms * 1_000_000);
}

-- The critical section of `submit`, entered with the request built: a result for the caller, or none
-- where the request is queued.
unfoldable pub enqueue : Config → PendingRequest → World → World × Option SchedulerResult
enqueue config pending w =
    if w.draining
    then (w, some make_draining_result)
    else if leb config.max_queue_size (length w.queue)
    then (count_rejected w, some make_overloaded_result)
    else (count_accepted (record w { queue = w.queue ++ pending ∷ [] }), none)

-- `submit` up to its wait.
unfoldable pub start_submit :
    Config → ℕ → ℕ → ExecutionRequest → World → World × Option SchedulerResult
unfolding enqueue make_pending
start_submit config id fresh request w =
    if w.draining
    then (w, some make_draining_result)
    else enqueue config (make_pending config id fresh request w.clock) w

-- The end of `submit` where the promise was not set in time.
unfoldable pub give_up : PendingRequest → World → World
give_up pending w = count_timed_out (record w' { cancelled = set_flag w'.cancelled pending.id })
  where
    w' : World
    w' = cancel_token pending w

-- `submit` behind its critical section, once the promise is set or the deadline has come.
unfoldable pub finish_submit : PendingRequest → World → World × SchedulerResult
finish_submit pending w = elim (w.promise pending.id) [
  | some result ↦ (w, result)
  | none ↦ (give_up pending w, make_timeout_result)
]

unfoldable pub give_up_all : List PendingRequest → World → World
give_up_all [] w = w
give_up_all (p ∷ ps) w = give_up_all ps (give_up p w)

unfoldable pub others : Move → World → World
others m w =
    let w' = give_up_all m.give_ups w in
    record w' {
      clock = w'.clock + m.elapsed;
      queue = w'.queue ++ m.arrivals;
      draining = w'.draining || m.drains;
    }

unfoldable pub other_threads : List Move → World → World
unfolding others
other_threads [] w = w
other_threads (m ∷ ms) w = others m (record w { moves = ms })

-- A worker's actions.
abbrev pub M : Type 0 → Type 0
M A = World → Option (A × World)

abbrev pub pure : {A : Type 0} → A → M A
pure a w = some (a, w)

infixl 5 ◌>>=◌ ◌>>◌
abbrev pub ◌>>=◌ : {A B : Type 0} → M A → (A → M B) → M B
◌>>=◌ m f w = elim (m w) [ none ↦ none | some (a, w') ↦ f a w' ]

abbrev pub ◌>>◌ : {B : Type 0} → M (Unit {0}) → M B → M B
m >> k = m >>= λ _. k

abbrev pub update : (World → World) → M (Unit {0})
update f w = some (tt, f w)

-- `Clock::now()`
unfoldable pub now : M ℕ
unfolding other_threads
now w = let w' = other_threads w.moves w in some (w'.clock, w')

-- `pending->cancelled.load`
unfoldable pub is_cancelled : PendingRequest → M Bool
unfolding other_threads
is_cancelled p w = let w' = other_threads w.moves w in some (w'.cancelled p.id, w')

-- `promise->set_value`
unfoldable pub set_value : PendingRequest → SchedulerResult → M (Unit {0})
set_value p result w = elim (w.promise p.id) [
  | some _ ↦ none
  | none ↦ some (tt, record w { promise = λ i. if p.id == i then some result else w.promise i })
]

unfoldable pub fulfill_result : PendingRequest → SchedulerResult → M (Unit {0})
fulfill_result p result = do gone ← is_cancelled p; if gone then pure tt else set_value p result

-- `fulfillExpiredRequest`, and the same steps where they are written out.
unfoldable pub fulfill_expired_request : PendingRequest → M (Unit {0})
fulfill_expired_request p = do
  update (cancel_token p)
  update count_timed_out
  fulfill_result p make_timeout_result
