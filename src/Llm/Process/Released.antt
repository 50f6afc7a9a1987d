-- ===== src/Llm/Process/Released.antt =====
-- src/LlmScheduler.cpp, `processSingle`: its request is answered and its slot given back.
use neuriplo_kserve_runtime.Prelude.{
  ℕ, ◌+◌, ◌-◌, ◌<◌, ◌≤◌, ◌≡◌, refl, sym, ◌∙◌, Bool, true, false, [], ◌∷◌, Option, none, some, arith,
  inl, inr, if◌then◌else◌, leb, ltb, length, subst, ◌^◌,
}
use native.Mathlib.Nat.{le_refl}
use neuriplo_kserve_runtime.Request.{ExecutionRequest}
use neuriplo_kserve_runtime.Batching.Merge.{u64}
use neuriplo_kserve_runtime.Scheduler.Pool.{release}
use neuriplo_kserve_runtime.Scheduler.Result.{make_timeout_result, make_draining_result}
use neuriplo_kserve_runtime.Scheduler.World.{
  World, PendingRequest, M, now, is_cancelled, update, cancel_token, count_timed_out,
  fulfill_result, fulfill_expired_request,
}
use neuriplo_kserve_runtime.Scheduler.Process.{
  Inference, returned, threw, threw_other, select_executor, release_executor, finish_single,
}
use neuriplo_kserve_runtime.Scheduler.Process.Rules.{
  Runs, Later, Later-refl, Later-trans, Later-none, Answers, Runs_update, Settled, metrics-Later,
  now-Runs, is_cancelled-Runs, fulfill_result-Answers, fulfill_expired_request-Answers,
  other_threads-Later, token-Later,
}
use neuriplo_kserve_runtime.Scheduler.Process.Answers.Single.{
  select_executor-Runs, release-Later, finish_single-Answers,
}
use neuriplo_kserve_runtime.Llm.Slots.{
  Slots, Meanwhile, acquire_decode_slot, release_decode_slot, Balanced,
  acquire_decode_slot-Balanced, acquire_decode_slot-draining,
}
use neuriplo_kserve_runtime.Llm.Inference.{
  is_draining, is_stopped, streams, run_llm_inference, time_out, refuse_draining,
}
use neuriplo_kserve_runtime.Llm.Process.{
  Decoder, slot_taken, L, done, ◌>>=◌, ◌>>◌, lift, take_slot, return_slot, decode, expire_with_slot,
  refuse_with_slot, check_deadline, with_slot, await_slot, start_single, process_single_llm,
}

-- The action runs to its end, where the request is settled and the number of slots taken satisfies
-- `K`, unless the promise was set before.
abbrev pub Ends : PendingRequest → (ℕ → Type 0) → Decoder → L (Unit {0}) → Type 0
Ends p K d m =
    d.world.promise p.id ≡ none
    → (d' : Decoder) × (m d ≡ some (tt, d'))
      × Later (p.id ∷ []) d.world d'.world
      × Settled d'.world p
      × K d'.active_decodes

Ends-lift :
    (p : PendingRequest) (K : ℕ → Type 0) (d : Decoder) (m : M (Unit {0}))
    → K d.active_decodes
    → Answers p d.world m
    → Ends p K d (lift m)
unfolding lift
Ends-lift p K d m k answers fresh =
    let (u, w, ran, (a, settled)) = answers fresh in
    (record d { world = w }, rw (ran, lift) refl, a, settled, k)

-- A lifted action that only reads or keeps books, and then the rest.
Ends-then :
    {A : Type 0} (p : PendingRequest) (K : ℕ → Type 0) (d : Decoder) (m : M A)
    (P : A → World → Type 0) (f : A → L (Unit {0}))
    → Runs m d.world (λ a w. P a w × Later [] d.world w)
    → ((a : A) (w : World) → P a w → Later [] d.world w → Ends p K (record d { world = w }) (f a))
    → Ends p K d (lift m >>= f)
unfolding lift
Ends-then p K d m P f (a, w, ran, (holds, later)) next fresh =
    let (d', ran', b, settled, k) = next a w holds later (later.kept p.id refl ∙ fresh) in
    (d', rw (ran, ◌>>=◌, lift) ran', Later-trans (Later-none (p.id ∷ []) later) b, settled, k)

-- The slot goes back, and then the rest.
Ends-return_slot :
    (p : PendingRequest) (K : ℕ → Type 0) (d : Decoder) (m : L (Unit {0}))
    → 0 < d.active_decodes
    → Ends p K (record d { active_decodes = d.active_decodes - 1 }) m
    → Ends p K d (return_slot >> m)
unfolding return_slot release_decode_slot
Ends-return_slot p K d m positive ends =
    subst (λ n. Ends p K (record d { active_decodes = n }) m) given_back ends
  where
    given_back :
        d.active_decodes - 1 ≡ (if ltb 0 d.active_decodes then d.active_decodes - 1 else 2 ^ 64 - 1)
    given_back = ground arith

Ends-if :
    (p : PendingRequest) (K : ℕ → Type 0) (d : Decoder) (b : Bool) (m n : L (Unit {0}))
    → (b ≡ true → Ends p K d m)
    → (b ≡ false → Ends p K d n)
    → Ends p K d (if b then m else n)
Ends-if p K d true m n e f = e refl
Ends-if p K d false m n e f = f refl

is_draining-Runs : (w : World) → Runs is_draining w (λ b w'. (b ≡ w'.draining) × Later [] w w')
unfolding is_draining
is_draining-Runs w = (_, _, refl, (refl, other_threads-Later w.moves w))

run_llm_inference-Runs :
    (request : ExecutionRequest) (outcome : Inference) (w : World)
    → Runs (run_llm_inference request outcome) w (λ a w'. (a ≡ a) × Later [] w w')
unfolding run_llm_inference is_stopped
run_llm_inference-Runs request (returned response) w =
    (_, _, refl, (refl, other_threads-Later w.moves w))
run_llm_inference-Runs request (threw what) w = (_, _, refl, (refl, Later-refl [] w))
run_llm_inference-Runs request threw_other w = (_, _, refl, (refl, Later-refl [] w))

time_out-Answers : (p : PendingRequest) (w : World) → Answers p w (time_out p)
unfolding time_out
time_out-Answers p w =
    Runs_update p count_timed_out (fulfill_result p make_timeout_result) w
      (metrics-Later (λ m. record m { requests_timed_out = u64 (m.requests_timed_out + 1) }) w)
      (fulfill_result-Answers p make_timeout_result _)

drain-Later :
    (b : Bool) (w : World) → (w.draining ≡ true → b ≡ true) → Later [] w (record w { draining = b })
drain-Later b w more = record {
  time = le_refl w.clock;
  kept = λ i h. refl;
  answered = λ i r e. e;
  gone = λ i e. e;
  pool = refl;
  still = λ c. (refl, c);
  drains = more;
}

-- The attempt to take a slot, and then what is done with one and without.
Ends-take_slot :
    (p : PendingRequest) (K : ℕ → Type 0) (d : Decoder) (slots : ℕ) (first second : Meanwhile)
    (f : Bool → L (Unit {0}))
    → first.releases + second.releases ≤ d.active_decodes
    → ((w : World) (n : ℕ)
        → Later [] d.world w
        → n + (first.releases + second.releases) ≡ d.active_decodes + 1
        → Ends p K (record { world = w; active_decodes = n }) (f true))
    → ((w : World) (n : ℕ)
        → Later [] d.world w
        → n ≤ d.active_decodes
        → d.active_decodes ≤ n + (first.releases + second.releases)
        → Ends p K (record { world = w; active_decodes = n }) (f false))
    → Ends p K d (take_slot slots first second >>= f)
unfolding take_slot
Ends-take_slot p K d slots first second f few with_one without fresh =
    at (acquire_decode_slot slots first second before)
      (acquire_decode_slot-Balanced slots first second before few)
      (acquire_decode_slot-draining slots first second before few)
  where
    w₀ : World
    w₀ = d.world

    before : Slots
    before = record { active_decodes = d.active_decodes; draining = w₀.draining }

    Goal : Slots × Bool → Type 0
    Goal x =
        (d' : Decoder) × ((elim (slot_taken d x) as (λ o. Option (Unit {0} × Decoder)) [
          | none ↦ none
          | some (a, d') ↦ f a d'
        ])
          ≡ some (tt, d'))
        × Later (p.id ∷ []) w₀ d'.world
        × Settled d'.world p
        × K d'.active_decodes

    after : Slots → Decoder
    after s = record {
      world = record w₀ { draining = s.draining };
      active_decodes = s.active_decodes;
    }

    More : Slots → Type 0
    More s = w₀.draining ≡ true → s.draining ≡ true

    behind : (b : Bool) (s : Slots) → More s → Ends p K (after s) (f b) → Goal (s, b)
    behind b s more ends =
        let (d', ran, later, settled, k) = ends fresh in
        (
          d',
          ran,
          Later-trans (Later-none (p.id ∷ []) (drain-Later s.draining w₀ more)) later,
          settled,
          k,
        )

    at :
        (x : Slots × Bool)
        → Balanced d.active_decodes (first.releases + second.releases) x
        → More x.0
        → Goal x
    at (s, b) (inl (e, count)) more = behind b s more (
        subst (λ b. Ends p K (after s) (f b)) (sym e)
          (with_one (after s).world s.active_decodes (drain-Later s.draining w₀ more) count))
    at (s, b) (inr (e, low, high)) more = behind b s more (
        subst (λ b. Ends p K (after s) (f b)) (sym e)
          (without (after s).world s.active_decodes (drain-Later s.draining w₀ more) low high))

-- The slots taken at the end, against those at the start: fewer by some of those that the other
-- threads gave back meanwhile, and not more.
abbrev pub Between : ℕ → ℕ → ℕ → Type 0
Between before released n = (n ≤ before) × (before ≤ n + released)

module _ (executors : ℕ → Bool → ExecutionRequest → Inference) (p : PendingRequest)
    (K : ℕ → Type 0) where
  -- With a slot, which goes back on every way.
  decode-Ends :
      (d : Decoder)
      → 0 < length d.world.inflight
      → 0 < d.active_decodes
      → K (d.active_decodes - 1)
      → Ends p K d (decode executors p)
  unfolding decode release_executor
  decode-Ends d pool positive k =
      Ends-then p K d select_executor (λ i w. i ≡ i) _
        (selected (select_executor-Runs d.world pool))
        λ index w1 _ a1.
          Ends-then p K _ now (λ t w. t ≡ w.clock) _ (now-Runs w1)
            λ started w2 _ a2.
              Ends-then p K _ (run_llm_inference p.request (outcome index)) (λ a w. a ≡ a) _
                (run_llm_inference-Runs p.request (outcome index) w2)
                λ result w3 _ a3.
                  Ends-then p K _ now (λ t w. t ≡ w.clock) _ (now-Runs w3)
                    λ finished w4 _ a4.
                      Ends-then p K _ (release_executor index) (λ u w. u ≡ u) _ (released index w4)
                        λ _ w5 _ a5. Ends-return_slot p K _ _ positive (
                          Ends-lift p K _ (finish_single p started finished result.0 result.1) k
                            (finish_single-Answers p started finished result.0 result.1 w5))
    where
      selected :
          Runs select_executor d.world (λ _ w. Later [] d.world w)
          → Runs select_executor d.world (λ i w. (i ≡ i) × Later [] d.world w)
      selected (i, w, e, a) = (i, w, e, (refl, a))

      released :
          (index : ℕ) (w : World) → Runs (release_executor index) w (λ u v. (u ≡ u) × Later [] w v)
      released index w = (
        tt,
        record w { inflight = release index w.inflight },
        refl,
        (refl, release-Later index w),
      )

      outcome : ℕ → Inference
      outcome index = executors index (streams p.request.llm_params) p.request

  expire_with_slot-Ends :
      (d : Decoder)
      → 0 < d.active_decodes
      → K (d.active_decodes - 1)
      → Ends p K d (expire_with_slot executors p)
  unfolding expire_with_slot
  expire_with_slot-Ends d positive k =
      Ends-then p K d (update (cancel_token p)) (λ u w. u ≡ u) _
        (tt, cancel_token p d.world, refl, (refl, token-Later p d.world))
        λ _ w _ a.
          Ends-return_slot p K _ _ positive (Ends-lift p K _ (time_out p) k (time_out-Answers p w))

  with_slot-Ends :
      (d : Decoder)
      → 0 < length d.world.inflight
      → 0 < d.active_decodes
      → K (d.active_decodes - 1)
      → Ends p K d (with_slot executors p)
  unfolding with_slot check_deadline refuse_with_slot refuse_draining
  with_slot-Ends d pool positive k =
      Ends-then p K d is_draining (λ b w. b ≡ w.draining) _ (is_draining-Runs d.world)
        λ drains w _ a.
          Ends-if p K _ drains _ _
            (λ _. Ends-return_slot p K _ _ positive (
              Ends-lift p K _ (fulfill_result p make_draining_result) k
                (fulfill_result-Answers p make_draining_result w)))
            (λ _.
              Ends-then p K _ now (λ t w. t ≡ w.clock) _ (now-Runs w)
                λ time v _ b.
                  Ends-if p K _ (leb p.deadline time) _ _ (λ _. expire_with_slot-Ends _ positive k)
                    (λ _. decode-Ends _ (omega (arith, a.pool, b.pool)) positive k))

module _ (executors : ℕ → Bool → ExecutionRequest → Inference) (p : PendingRequest) (slots : ℕ)
    (first second : Meanwhile) (d : Decoder) (pool : 0 < length d.world.inflight)
    (few : first.releases + second.releases ≤ d.active_decodes) where
  Kept : ℕ → Type 0
  Kept n = Between d.active_decodes (first.releases + second.releases) n

  await_slot-Ends :
      (w : World)
      → Later [] d.world w
      → Ends p Kept (record d { world = w }) (await_slot executors slots first second p)
  unfolding await_slot Kept
  await_slot-Ends w a =
      Ends-then p Kept _ now (λ t w. t ≡ w.clock) _ (now-Runs w)
        λ _ v _ b.
          Ends-take_slot p Kept _ slots first second _ few
            (λ u n c count.
              with_slot-Ends executors p Kept _ (omega (arith, a.pool, b.pool, c.pool))
                (omega arith) (omega arith, omega arith))
            (λ u n c low high. Ends-lift p Kept _ (time_out p) (low, high) (time_out-Answers p u))

  start_single-Ends :
      (w : World)
      → Later [] d.world w
      → Ends p Kept (record d { world = w }) (start_single executors slots first second p)
  unfolding start_single Kept
  start_single-Ends w a =
      Ends-then p Kept _ now (λ t w. t ≡ w.clock) _ (now-Runs w)
        λ time v _ b.
          Ends-if p Kept _ (leb p.deadline time) _ _
            (λ _.
              Ends-lift p Kept _ (fulfill_expired_request p) (omega arith, omega arith)
                (fulfill_expired_request-Answers p v))
            (λ _. await_slot-Ends v (Later-trans a b))

-- A worker that runs a request for generation comes to an end, whatever the executor answers or
-- throws: the request is then settled (its promise is set, its caller gave up, or its deadline has
-- come), other promises are as they were, and the worker holds no decode slot: the slots taken are
-- those before, less what other threads gave back while it waited.
pub process_single_llm-Ends :
    (executors : ℕ → Bool → ExecutionRequest → Inference) (p : PendingRequest) (slots : ℕ)
    (first second : Meanwhile) (d : Decoder)
    → 0 < length d.world.inflight
    → first.releases + second.releases ≤ d.active_decodes
    → d.world.promise p.id ≡ none
    → (d' : Decoder) × (process_single_llm executors slots first second p d ≡ some (tt, d'))
      × Later (p.id ∷ []) d.world d'.world
      × Settled d'.world p
      × Between d.active_decodes (first.releases + second.releases) d'.active_decodes
unfolding process_single_llm Kept
process_single_llm-Ends executors p slots first second d pool few =
    Ends-then p (Between d.active_decodes (first.releases + second.releases)) d (is_cancelled p)
      (λ c w. c ≡ w.cancelled p.id) _ (is_cancelled-Runs p d.world)
      λ gone w same a.
        Ends-if p (Between d.active_decodes (first.releases + second.releases))
          (record d { world = w }) gone done (start_single executors slots first second p)
          (λ yes _. (
            record d { world = w },
            refl,
            Later-refl (p.id ∷ []) w,
            inl (sym same ∙ yes),
            (omega arith, omega arith),
          ))
          (λ _. start_single-Ends executors p slots first second d pool few w a)
