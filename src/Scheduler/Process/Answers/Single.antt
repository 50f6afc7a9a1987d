-- ===== src/Scheduler/Process/Answers/Single.antt =====
-- `processSingle` answers its request.
use neuriplo_kserve_runtime.Prelude.{
  ℕ, ◌<◌, refl, ◌∙◌, Bool, true, false, [], ◌∷◌, arith, length, if◌then◌else◌, leb,
}
use native.Mathlib.Nat.{le_refl}
use neuriplo_kserve_runtime.Request.{ExecutionRequest, ExecutionResponse}
use neuriplo_kserve_runtime.Scheduler.Result.{record_latencies}
use neuriplo_kserve_runtime.Scheduler.Pool.{release}
use neuriplo_kserve_runtime.Scheduler.Pool.Balance.{select-Selected, length-release}
use neuriplo_kserve_runtime.Scheduler.World.{
  World, PendingRequest, M, now, fulfill_result, fulfill_expired_request, ◌>>=◌, ◌>>◌,
}
use neuriplo_kserve_runtime.Scheduler.Process.{
  Inference, run_inference, select_executor, release_executor, deliver_result, finish_single,
  executed, execute_single, process_single,
}
use neuriplo_kserve_runtime.Scheduler.Process.Rules.{
  Runs, Later, Later-trans, Later-none, Answers, Answers-now, Answers-unless_cancelled, Runs_update,
  Settled, metrics-Later, fulfill_result-Answers, fulfill_expired_request-Answers,
}

-- An executor is taken from a pool that is not empty.
pub select_executor-Runs :
    (w : World) → 0 < length w.inflight → Runs select_executor w (λ _ w'. Later [] w w')
unfolding select_executor
select_executor-Runs w h =
    let (index, after, e, s) = select-Selected w.inflight h in
    (
      index,
      record w { inflight = after },
      rw (e, select_executor) refl,
      record {
        time = le_refl w.clock;
        kept = λ i k. refl;
        answered = λ i r k. k;
        gone = λ i k. k;
        pool = s.sized;
        still = λ c. (refl, c);
        drains = λ e. e;
      },
    )

pub release-Later :
    (index : ℕ) (w : World) → Later [] w (record w { inflight = release index w.inflight })
release-Later index w = record {
  time = le_refl w.clock;
  kept = λ i k. refl;
  answered = λ i r k. k;
  gone = λ i k. k;
  pool = length-release index w.inflight;
  still = λ c. (refl, c);
  drains = λ e. e;
}

pub deliver_result-Answers :
    (p : PendingRequest) (started finished count : ℕ) (response : ExecutionResponse) (w : World)
    → Answers p w (deliver_result p started finished count response)
unfolding deliver_result
deliver_result-Answers p started finished count response w =
    Runs_update p
      (λ v. record v { metrics = record_latencies p.enqueued_at started finished v.metrics })
      (fulfill_result p (executed p started finished count response)) w
      (metrics-Later (record_latencies p.enqueued_at started finished) w)
      (fulfill_result-Answers p (executed p started finished count response) _)

-- A test between two answers.
pub Answers-if :
    (p : PendingRequest) (w : World) (b : Bool) (m n : M (Unit {0}))
    → Answers p w m
    → Answers p w n
    → Answers p w (if b then m else n)
Answers-if p w true m n a b = a
Answers-if p w false m n a b = b

pub finish_single-Answers :
    (p : PendingRequest) (started finished : ℕ) (completed : Bool) (response : ExecutionResponse)
    (w : World)
    → Answers p w (finish_single p started finished completed response)
unfolding finish_single
finish_single-Answers p started finished false response w = fulfill_expired_request-Answers p w
finish_single-Answers p started finished true response w =
    Answers-unless_cancelled p
      (if leb p.deadline finished
        then fulfill_expired_request p
        else deliver_result p started finished 1 response)
      w
      λ w' a.
        Answers-if p w' (leb p.deadline finished) (fulfill_expired_request p)
          (deliver_result p started finished 1 response) (fulfill_expired_request-Answers p w')
          (deliver_result-Answers p started finished 1 response w')

module _ (executors : ℕ → ExecutionRequest → Inference) where
  execute_single-Answers :
      (p : PendingRequest) (w : World)
      → 0 < length w.inflight
      → Answers p w (execute_single executors p)
  unfolding execute_single release_executor
  execute_single-Answers p w h fresh = go (select_executor-Runs w h)
    where
      Goal : Type 0
      Goal = Runs (execute_single executors p) w (λ _ w'. Later (p.id ∷ []) w w' × Settled w' p)

      done_with : ℕ → ℕ → ℕ → M (Unit {0})
      done_with index started finished =
          finish_single p started finished (run_inference (executors index p.request)).0
            (run_inference (executors index p.request)).1

      rest-Answers :
          (index : ℕ) (w' : World)
          → Answers p w' (
              now >>= λ started.
              now >>= λ finished. release_executor index >> done_with index started finished)
      rest-Answers index w' =
          Answers-now p
            (λ started.
              now >>= λ finished. release_executor index >> done_with index started finished)
            w'
            λ v a.
              Answers-now p (λ finished. release_executor index >> done_with index v.clock finished)
                v
                λ u b.
                  Runs_update p (λ x. record x { inflight = release index x.inflight })
                    (done_with index v.clock u.clock) u (release-Later index u)
                    (finish_single-Answers p v.clock u.clock _ _ _)

      go : Runs select_executor w (λ _ w'. Later [] w w') → Goal
      go (index, w', ran, a) =
          let (u, w'', ran', (b, done)) = rest-Answers index w' (a.kept p.id refl ∙ fresh) in
          (u, w'', rw (ran, ◌>>=◌) ran', (Later-trans (Later-none (p.id ∷ []) a) b, done))

  pub process_single-Answers :
      (p : PendingRequest) (w : World)
      → 0 < length w.inflight
      → Answers p w (process_single executors p)
  unfolding process_single
  process_single-Answers p w h = Answers-unless_cancelled p (now >>= attempt) w λ w' a.
      Answers-now p attempt w' λ v b.
        Answers-if p v (leb p.deadline v.clock) (fulfill_expired_request p)
          (execute_single executors p) (fulfill_expired_request-Answers p v)
          (execute_single-Answers p v (omega (arith, a.pool, b.pool)))
    where
      attempt : ℕ → M (Unit {0})
      attempt time =
          if leb p.deadline time then fulfill_expired_request p else execute_single executors p
