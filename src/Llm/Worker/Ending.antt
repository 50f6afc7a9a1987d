-- ===== src/Llm/Worker/Ending.antt =====
-- src/LlmScheduler.cpp, `workerLoop`: the loop ends when the scheduler drains.
use neuriplo_kserve_runtime.Prelude.{
  ℕ, suc, ◌+◌, ◌<◌, ◌≤◌, ◌≡◌, refl, ap, ◌∙◌, Bool, true, false, List, [], ◌∷◌, Option, none, some,
  arith, length, All, inl, inr,
}
use native.Mathlib.Nat.{le_trans, le_refl}
use neuriplo_kserve_runtime.Request.{ExecutionRequest}
use neuriplo_kserve_runtime.Scheduler.Result.{SchedulerResult}
use neuriplo_kserve_runtime.Scheduler.World.{PendingRequest, World, Move}
use neuriplo_kserve_runtime.Scheduler.Process.{Inference}
use neuriplo_kserve_runtime.Scheduler.Process.Rules.{Later, Settled, Calm, member}
use neuriplo_kserve_runtime.Scheduler.Process.Answers.Lists.{
  ids, Distinct, Unset, Unset-kept, not_member_head, not_member_tail,
}
use neuriplo_kserve_runtime.Llm.Slots.{Meanwhile}
use neuriplo_kserve_runtime.Llm.Process.{Decoder, lift}
use neuriplo_kserve_runtime.Llm.Process.Released.{process_single_llm-Ends}
use neuriplo_kserve_runtime.Llm.Worker.{
  wait_for_work, take_front, pop_next_pending, Stopped, returned_from_loop, serve_one, go_round,
  worker_loop, popped, drained, Popped,
}

-- A drain ends every wait.
wait_for_work-draining : (ms : List Move) (w : World) → w.draining ≡ true → wait_for_work ms w ≡ w
unfolding wait_for_work
wait_for_work-draining [] w d = refl
wait_for_work-draining (m ∷ ms) w d = ground arith

pop-drained :
    (w : World) → w.draining ≡ true → w.queue ≡ [] → pop_next_pending w ≡ some (drained, w)
unfolding pop_next_pending take_front
pop-drained w d e = rw (wait_for_work-draining w.moves w d, e, take_front, d) refl

pop-front :
    (w : World) (p : PendingRequest) (rest : List PendingRequest)
    → w.draining ≡ true
    → w.queue ≡ p ∷ rest
    → pop_next_pending w ≡ some (popped p, record w { queue = rest })
unfolding pop_next_pending take_front
pop-front w p rest d e = rw (wait_for_work-draining w.moves w d, e, take_front) refl

-- What holds between two worlds when between them promises were set at most for `is`.
pub record Onward (is : List ℕ) (w w' : World) : Type 0 where
  pub time : w.clock ≤ w'.clock
  pub kept : (i : ℕ) → member i is ≡ false → w'.promise i ≡ w.promise i
  pub answered : (i : ℕ) (r : SchedulerResult) → w.promise i ≡ some r → w'.promise i ≡ some r
  pub gone : (i : ℕ) → w.cancelled i ≡ true → w'.cancelled i ≡ true

Settled-Onward :
    {is : List ℕ} {w w' : World} (p : PendingRequest) → Onward is w w' → Settled w p → Settled w' p
Settled-Onward p a (inl e) = inl (a.gone p.id e)
Settled-Onward p a (inr (inl (r, e))) = inr (inl (r, a.answered p.id r e))
Settled-Onward p a (inr (inr h)) = inr (inr (le_trans h a.time))

-- One request and then the others.
Onward-cons :
    (p : PendingRequest) (ps : List PendingRequest) (u : World) {v w : World}
    → Later (p.id ∷ []) (record u { queue = ps }) v
    → Onward (ids ps) v w
    → Onward (ids (p ∷ ps)) u w
Onward-cons p ps u a b = record {
  time = le_trans a.time b.time;
  kept = λ i h.
      b.kept i (not_member_tail i p.id (ids ps) h) ∙ a.kept i (not_member_head i p.id (ids ps) h);
  answered = λ i r e. b.answered i r (a.answered i r e);
  gone = λ i e. b.gone i (a.gone i e);
}

-- What is true when the loop has returned: the queue is empty, each of the requests is settled, and
-- no promise but theirs was set.
pub record Drained (requests : List PendingRequest) (w w' : World) : Type 0 where
  pub emptied : w'.queue ≡ []
  pub settled : All (Settled w') requests
  pub onward : Onward (ids requests) w w'

module _ (executors : ℕ → Bool → ExecutionRequest → Inference) (slots : ℕ)
    (turn : Decoder → Meanwhile × Meanwhile) where
  -- A round on what the queue gave.
  abbrev round_on : ℕ → Decoder → Option (Popped × World) → Option (Stopped × Decoder)
  round_on n d o =
      elim (elim o as (λ o. Option (Popped × Decoder)) [
        | none ↦ none
        | some (a, w) ↦ some (a, record d { world = w })
      ])
        as (λ o. Option (Stopped × Decoder)) [
          | none ↦ none
          | some (a, d') ↦ go_round executors slots turn a (worker_loop executors slots turn n) d'
        ]

  loop-round_on :
      (n : ℕ) (d : Decoder) (o : Option (Popped × World))
      → pop_next_pending d.world ≡ o
      → worker_loop executors slots turn (suc n) d ≡ round_on n d o
  unfolding worker_loop lift
  loop-round_on n d o e = ap (round_on n d) e

  loop-round :
      (n : ℕ) (d d1 : Decoder) (p : PendingRequest) (w1 : World)
      → pop_next_pending d.world ≡ some (popped p, w1)
      → serve_one executors slots turn p (record d { world = w1 }) ≡ some (tt, d1)
      → worker_loop executors slots turn (suc n) d ≡ worker_loop executors slots turn n d1
  unfolding go_round
  loop-round n d d1 p w1 e served =
      loop-round_on n d _ e
      ∙ ap
          (λ (o : Option (Unit {0} × Decoder)). elim o as (λ o. Option (Stopped × Decoder)) [
            | none ↦ none
            | some (u, d') ↦ worker_loop executors slots turn n d'
          ])
          served

  loop-end :
      (n : ℕ) (d : Decoder)
      → pop_next_pending d.world ≡ some (drained, d.world)
      → worker_loop executors slots turn (suc n) d ≡ some (returned_from_loop, d)
  unfolding go_round
  loop-end n d e = loop-round_on n d _ e

  drains-all :
      ((d : Decoder) → (turn d).0.releases + (turn d).1.releases ≤ d.active_decodes)
      → (requests : List PendingRequest) (d : Decoder) → d.world.queue ≡ requests
      → 0 < length d.world.inflight
      → d.world.draining ≡ true
      → Calm d.world.moves
      → Distinct requests
      → All (Unset d.world) requests
      → (d' : Decoder) × (worker_loop executors slots turn (suc (length requests)) d
          ≡ some (returned_from_loop, d'))
        × Drained requests d.world d'.world
  unfolding serve_one
  drains-all few [] d e pool draining calm distinct unset = (
    d,
    loop-end 0 d (pop-drained d.world draining e),
    record {
      emptied = e;
      settled = tt;
      onward = record {
        time = le_refl d.world.clock;
        kept = λ i h. refl;
        answered = λ i r h. h;
        gone = λ i h. h;
      };
    },
  )
  drains-all few (p ∷ rest) d e pool draining calm (alone, distinct) (fresh, unset) =
      let (d1, ran, later, settled, _) =
        process_single_llm-Ends executors p slots (turn taken).0 (turn taken).1 taken pool
          (few taken) fresh in
      let (d', ends, all) =
        drains-all few rest d1 (later.still calm).0 (omega (arith, later.pool, pool))
          (later.drains draining) (later.still calm).1 distinct
          (Unset-kept p rest alone later unset) in
      (
        d',
        loop-round (suc (length rest)) d d1 p taken_world (pop-front w p rest draining e) ran
            ∙ ends,
        record {
          emptied = all.emptied;
          settled = (Settled-Onward p all.onward settled, all.settled);
          onward = Onward-cons p rest w later all.onward;
        },
      )
    where
      w : World
      w = d.world

      taken_world : World
      taken_world = record w { queue = rest }

      taken : Decoder
      taken = record d { world = taken_world }

-- The loop of a worker ends when the scheduler drains, and ends well: provided that no request
-- arrives any more, that the queued requests are distinct and unanswered, and that the other
-- threads give back no more slots than are taken, one round for each queued request and one more
-- are enough, and behind them the queue is empty, each of its requests is settled, and no other
-- promise was set.
pub worker_loop-Drained :
    (executors : ℕ → Bool → ExecutionRequest → Inference) (slots : ℕ)
    (turn : Decoder → Meanwhile × Meanwhile) (d : Decoder)
    → ((d : Decoder) → (turn d).0.releases + (turn d).1.releases ≤ d.active_decodes)
    → 0 < length d.world.inflight
    → d.world.draining ≡ true
    → Calm d.world.moves
    → Distinct d.world.queue
    → All (Unset d.world) d.world.queue
    → (d' : Decoder) × (worker_loop executors slots turn (suc (length d.world.queue)) d
        ≡ some (returned_from_loop, d'))
      × Drained d.world.queue d.world d'.world
worker_loop-Drained executors slots turn d few =
    drains-all executors slots turn few d.world.queue d refl
