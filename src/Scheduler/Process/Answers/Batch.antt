-- ===== src/Scheduler/Process/Answers/Batch.antt =====
-- `processBatch` answers every request of its batch, once, and never faults.
use neuriplo_kserve_runtime.Prelude.{
  String, ℕ, ◌≤◌, ◌<◌, ◌^◌, ◌≡◌, refl, sym, ◌∙◌, Bool, true, false, List, [], ◌∷◌, map, some, arith,
  length, length-map, inl, inr, ◌⊎◌, All, All-map,
}
use neuriplo_kserve_runtime.Request.{ExecutionRequest, ExecutionResponse}
use neuriplo_kserve_runtime.Batching.Compat.{request_batch_size}
use neuriplo_kserve_runtime.Batching.Merge.{ok, refused, MergedBatch, merge_execution_requests}
use neuriplo_kserve_runtime.Batching.Merge.Bytes.{merged_batch, merge_execution_requests_cases}
use neuriplo_kserve_runtime.Batching.Split.{split_execution_response, backend_error}
use neuriplo_kserve_runtime.Batching.Split.Rows.{total}
use neuriplo_kserve_runtime.Batching.Split.Defined.{Plain, split_execution_response_defined}
use neuriplo_kserve_runtime.Scheduler.Result.{record_batch_execution, elapsed_ns}
use neuriplo_kserve_runtime.Scheduler.Pool.{release}
use neuriplo_kserve_runtime.Scheduler.World.{World, PendingRequest, M, now, update, ◌>>=◌, ◌>>◌}
use neuriplo_kserve_runtime.Scheduler.Process.{
  Inference, returned, threw, threw_other, run_inference, select_executor, release_executor,
  fail_all, deliver, deliver_split, finish_merged, execute_merged, process_merging, process_active,
  process_batch,
}
use neuriplo_kserve_runtime.Scheduler.Process.Rules.{
  Runs, Later, Later-refl, Later-trans, Later-none, Settled, Settled-Later, member, now-Runs,
  metrics-Later,
}
use neuriplo_kserve_runtime.Scheduler.Process.Answers.Single.{
  select_executor-Runs, release-Later, process_single-Answers,
}
use neuriplo_kserve_runtime.Scheduler.Process.Answers.Lists.{
  ids, Distinct, Unset, AnswersAll, expire_all-AnswersAll, fail_all-AnswersAll, deliver-AnswersAll,
  Later-more,
}
use neuriplo_kserve_runtime.Scheduler.Process.Answers.Active.{
  Open, Picked, none_left, left_out, picked, expire_late-Runs, pick_active-Runs, Picked-earlier,
}

-- The batch sizes of requests, added up.
abbrev pub merged_dimension : List PendingRequest → ℕ
merged_dimension ps = total (map request_batch_size (map (λ p. p.request) ps))

-- No output that an executor returns asks for more than 64 bits can count.
abbrev pub Tame : (ℕ → ExecutionRequest → Inference) → Type 0
Tame executors =
    (index : ℕ) (request : ExecutionRequest) (response : ExecutionResponse)
    → executors index request ≡ returned response
    → All Plain response.outputs

-- Changes that promises do not depend on come first.
Unset-Later :
    {w w' : World} (ps : List PendingRequest) → Later [] w w' → All (Unset w) ps → All (Unset w') ps
Unset-Later ps a us = All-map ps (λ p u. a.kept p.id refl ∙ u) us

AnswersAll-after :
    (ps : List PendingRequest) (m n : M (Unit {0})) (w w' : World)
    → Later [] w w'
    → n w ≡ m w'
    → AnswersAll ps w' m
    → AnswersAll ps w n
AnswersAll-after ps m n w w' a e answers d us =
    let (u, w'', ran, (b, done)) = answers d (Unset-Later ps a us) in
    (u, w'', e ∙ ran, (Later-trans (Later-none (ids ps) a) b, done))

finish_merged-AnswersAll :
    (active : List PendingRequest) (merged : MergedBatch) (started finished : ℕ) (completed : Bool)
    (response : ExecutionResponse) (w : World)
    → total merged.batch_sizes < 2 ^ 64
    → length merged.batch_sizes ≡ length active
    → All Plain response.outputs
    → AnswersAll active w (finish_merged active merged started finished completed response)
unfolding finish_merged deliver_split
finish_merged-AnswersAll active merged started finished false response w few same plain =
    expire_all-AnswersAll active w
finish_merged-AnswersAll active merged started finished true response w few same plain = go (
    split_execution_response_defined response merged.batch_sizes few plain
      (map (λ p. p.request) active) (length-map active (λ p. p.request) ∙ sym same))
  where
    counted : World → World
    counted v = record v {
      metrics = record_batch_execution (elapsed_ns started finished) v.metrics;
    }

    rest : M (Unit {0})
    rest =
        deliver_split started finished active
          (split_execution_response response merged.batch_sizes (map (λ p. p.request) active))

    go :
        (rs : List ExecutionResponse) × (split_execution_response response merged.batch_sizes
              (map (λ p. p.request) active)
            ≡ some rs)
          × (length rs ≡ length (map (λ p. p.request) active))
        → AnswersAll active w (update counted >> rest)
    go (rs, e, l) =
        AnswersAll-after active (deliver started finished (length active) active rs)
          (update counted >> rest) w (counted w)
          (metrics-Later (record_batch_execution (elapsed_ns started finished)) w)
          (rw (e, deliver_split))
          (deliver-AnswersAll started finished (length active) active rs (counted w)
            (l ∙ length-map active (λ p. p.request)))

outcome-Plain :
    (i : Inference)
    → ((response : ExecutionResponse) → i ≡ returned response → All Plain response.outputs)
    → All Plain (run_inference i).1.outputs
unfolding run_inference backend_error
outcome-Plain (returned response) h = h response refl
outcome-Plain (threw what) h = tt
outcome-Plain threw_other h = tt

-- What is picked from a list is distinct and open, and settles the list.
Picked-member :
    {w : World} {time : ℕ} {ps active : List PendingRequest} (i : ℕ)
    → Picked w time ps active
    → member i (ids ps) ≡ false
    → member i (ids active) ≡ false
Picked-member i none_left h = refl
Picked-member i (left_out q k) h = Picked-member i k (ground arith)
Picked-member i (picked q k) h = let rest = Picked-member i k (ground arith) in ground arith

Picked-Distinct :
    {w : World} {time : ℕ} {ps active : List PendingRequest}
    → Picked w time ps active
    → Distinct ps
    → Distinct active
Picked-Distinct none_left d = tt
Picked-Distinct (left_out q k) d = Picked-Distinct k d.1
Picked-Distinct (picked {p} q k) d = (Picked-member p.id k d.0, Picked-Distinct k d.1)

Picked-Unset :
    (v : World) {w : World} {time : ℕ} {ps active : List PendingRequest}
    → Picked w time ps active
    → All (Open time v) ps
    → All (Unset v) active
Picked-Unset v none_left h = tt
Picked-Unset v (left_out q k) h = Picked-Unset v k h.1
Picked-Unset v (picked q k) h = (h.0 q, Picked-Unset v k h.1)

Picked-Settled :
    {v w : World} {is : List ℕ} {time : ℕ} {ps active : List PendingRequest}
    → Picked v time ps active
    → Later is v w
    → All (Settled w) active
    → All (Settled w) ps
Picked-Settled none_left a h = tt
Picked-Settled (left_out {p} q k) a h = (Settled-Later p a q, Picked-Settled k a h)
Picked-Settled (picked q k) a h = (h.0, Picked-Settled k a h.1)

Picked-dimension :
    {w : World} {time : ℕ} {ps active : List PendingRequest}
    → Picked w time ps active
    → merged_dimension active ≤ merged_dimension ps
Picked-dimension none_left = omega arith
Picked-dimension (left_out q k) = omega (arith, Picked-dimension k)
Picked-dimension (picked q k) = omega (arith, Picked-dimension k)

module _ (executors : ℕ → ExecutionRequest → Inference) (tame : Tame executors) where
  execute_merged-AnswersAll :
      (active : List PendingRequest) (merged : MergedBatch) (w : World)
      → 0 < length w.inflight
      → total merged.batch_sizes < 2 ^ 64
      → length merged.batch_sizes ≡ length active
      → AnswersAll active w (execute_merged executors active merged)
  unfolding execute_merged release_executor
  execute_merged-AnswersAll active merged w pool few same = chosen (select_executor-Runs w pool)
    where
      outcome : ℕ → Inference
      outcome index = executors index merged.request

      last : ℕ → ℕ → ℕ → M (Unit {0})
      last index started finished =
          finish_merged active merged started finished (run_inference (outcome index)).0
            (run_inference (outcome index)).1

      ending : ℕ → ℕ → M (Unit {0})
      ending index started =
          now >>= λ finished. release_executor index >> last index started finished

      running : ℕ → M (Unit {0})
      running index = now >>= ending index

      ended :
          (index started : ℕ) (v : World)
          → Runs now v (λ t u. (t ≡ u.clock) × Later [] v u)
          → AnswersAll active v (ending index started)
      ended index started v (t, u, ran, (e, a)) =
          AnswersAll-after active (last index started t) (ending index started) v
            (record u { inflight = release index u.inflight })
            (Later-trans a (release-Later index u)) (rw (ran, ◌>>=◌))
            (finish_merged-AnswersAll active merged started t (run_inference (outcome index)).0
              (run_inference (outcome index)).1 (record u { inflight = release index u.inflight })
              few same (outcome-Plain (outcome index) (tame index merged.request)))

      begun :
          (index : ℕ) (v : World)
          → Runs now v (λ t u. (t ≡ u.clock) × Later [] v u)
          → AnswersAll active v (running index)
      begun index v (t, u, ran, (e, a)) =
          AnswersAll-after active (ending index t) (running index) v u a (rw (ran, ◌>>=◌))
            (ended index t u (now-Runs u))

      chosen :
          Runs select_executor w (λ _ v. Later [] w v)
          → AnswersAll active w (execute_merged executors active merged)
      chosen (index, v, ran, a) =
          AnswersAll-after active (running index) (execute_merged executors active merged) w v a
            (rw (ran, ◌>>=◌)) (begun index v (now-Runs v))

  process_active-AnswersAll :
      (active : List PendingRequest) (w : World)
      → 0 < length w.inflight
      → merged_dimension active < 2 ^ 64
      → AnswersAll active w (process_active executors active)
  unfolding process_active process_merging
  process_active-AnswersAll [] w pool few d us = (tt, w, refl, (Later-refl [] w, tt))
  process_active-AnswersAll (p ∷ []) w pool few d us =
      let (u, v, ran, (a, done)) = process_single-Answers executors p w pool us.0 in
      (u, v, ran, (a, (done, tt)))
  process_active-AnswersAll (p ∷ q ∷ rest) w pool few d us =
      go (merge_execution_requests_cases p.request q.request (map (λ r. r.request) rest)) d us
    where
      front : ExecutionRequest
      front = p.request

      others : List ExecutionRequest
      others = q.request ∷ map (λ r. r.request) rest

      as_many : length (map request_batch_size (front ∷ others)) ≡ length (p ∷ q ∷ rest)
      as_many =
          length-map (front ∷ others) request_batch_size
          ∙ length-map (p ∷ q ∷ rest) (λ r. r.request)

      go :
          (merge_execution_requests (front ∷ others) ≡ ok (merged_batch front others))
            ⊎ ((error : String) × (merge_execution_requests (front ∷ others) ≡ refused error))
          → AnswersAll (p ∷ q ∷ rest) w (process_active executors (p ∷ q ∷ rest))
      go (inl e) =
          AnswersAll-after (p ∷ q ∷ rest)
            (execute_merged executors (p ∷ q ∷ rest) (merged_batch front others))
            (process_active executors (p ∷ q ∷ rest)) w w (Later-refl [] w)
            (rw (e, process_merging))
            (execute_merged-AnswersAll (p ∷ q ∷ rest) (merged_batch front others) w pool few
              as_many)
      go (inr (error, e)) =
          AnswersAll-after (p ∷ q ∷ rest) (fail_all error (p ∷ q ∷ rest))
            (process_active executors (p ∷ q ∷ rest)) w w (Later-refl [] w)
            (rw (e, process_merging)) (fail_all-AnswersAll error (p ∷ q ∷ rest) w)

  -- A worker that has taken a batch answers each of its requests once and does not fault. Given
  -- distinct requests whose promises are unset, at least one executor, batch sizes whose sum does
  -- not overflow, and executors whose outputs ask for less than 2 ^ 64 bytes: whatever the executors
  -- do and the other threads do meanwhile, `processBatch` ends, no promise is set twice (which
  -- would end the process), only promises of the batch are set, and behind it every request of
  -- the batch has its promise set, is cancelled, or has reached its deadline, at which its caller
  -- stops waiting.
  pub process_batch-AnswersAll :
      (batch : List PendingRequest) (w : World)
      → 0 < length w.inflight
      → merged_dimension batch < 2 ^ 64
      → Distinct batch
      → All (Unset w) batch
      → Runs
          (process_batch executors batch)
          w
          (λ _ w'. Later (ids batch) w w' × All (Settled w') batch)
  unfolding process_batch
  process_batch-AnswersAll batch w pool few d us = timed (now-Runs w)
    where
      Goal : M (Unit {0}) → Type 0
      Goal m = Runs m w (λ _ w'. Later (ids batch) w w' × All (Settled w') batch)

      timed :
          Runs now w (λ t u. (t ≡ u.clock) × Later [] w u) → Goal (process_batch executors batch)
      timed (t, u, ran_now, (e, a)) =
          let (_, v, ran_late, (b, still)) =
            expire_late-Runs t batch u d (Unset-Later batch a us) in
          let (active, x, ran_pick, (c, k)) = pick_active-Runs batch v in
          let early = b.time in
          let k' = Picked-earlier {s = t} (omega (arith, b.time)) k in
          let (_, y, ran_last, (f, done)) =
            process_active-AnswersAll active x (omega (arith, a.pool, b.pool, c.pool))
              (omega (arith, Picked-dimension k)) (Picked-Distinct k' d)
              (Unset-Later active c (Picked-Unset v k' still)) in
          (
            tt,
            y,
            rw (ran_now, ◌>>=◌) (rw (ran_late, ◌>>=◌) (rw (ran_pick, ◌>>=◌) ran_last)),
            (
              Later-trans (Later-none (ids batch) a) (
                  Later-trans b (
                    Later-trans (Later-none (ids batch) c)
                      (Later-more (ids active) (ids batch) (λ i. Picked-member i k') f))),
              Picked-Settled k' f done,
            ),
          )
