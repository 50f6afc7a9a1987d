-- ===== src/Scheduler/Drain.antt =====
-- src/ModelScheduler.cpp: `stopAccepting`, and `beginDrain` with `rejectQueuedRequests`, behind the
-- join of the workers.
--
-- The workers have ended when the queue is emptied, and a draining scheduler queues nothing, so no
-- other thread moves in between.
use neuriplo_kserve_runtime.Prelude.{
  ℕ, ◌≡◌, refl, sym, ◌∙◌, Bool, true, false, List, [], ◌∷◌, Option, none, some, All, All-map,
  All-both, ◌==◌, ◌||◌, if◌then◌else◌, arith,
}
use neuriplo_kserve_runtime.Scheduler.Result.{SchedulerMetrics, make_draining_result, snapshot}
use neuriplo_kserve_runtime.Scheduler.Pool.{current_in_flight}
use neuriplo_kserve_runtime.Scheduler.World.{
  World, PendingRequest, M, pure, ◌>>=◌, ◌>>◌, update, set_value,
}
use neuriplo_kserve_runtime.Prelude

unfoldable pub is_ready : World → Bool
is_ready w = if w.draining then false else true

unfoldable pub stop_accepting : World → World
stop_accepting w = record w { draining = true }

unfoldable pub current_queue_depth : World → ℕ
current_queue_depth w = Prelude.length w.queue

unfoldable pub metrics : World → SchedulerMetrics
unfolding current_queue_depth
metrics w = snapshot (current_queue_depth w) (current_in_flight w.inflight) w.metrics

unfoldable pub reject_all : List PendingRequest → M (Unit {0})
reject_all [] = pure tt
reject_all (p ∷ ps) = do set_value p make_draining_result; reject_all ps

unfoldable pub reject_queued_requests : M (Unit {0})
unfolding reject_all
reject_queued_requests w = reject_all w.queue (record w { queue = [] })

unfoldable pub begin_drain : M (Unit {0})
unfolding stop_accepting
begin_drain = do update stop_accepting; reject_queued_requests

-- No two of the requests are the same object.
abbrev pub Apart : List PendingRequest → Type 0
Apart [] = Unit
Apart (p ∷ ps) = All (λ q. (p.id == q.id) ≡ false) ps × Apart ps

abbrev pub Open : World → PendingRequest → Type 0
Open w p = w.promise p.id ≡ none

-- What the end of a drain leaves.
pub record Rejected (requests : List PendingRequest) (w w' : World) : Type 0 where
  pub emptied : w'.queue ≡ w.queue
  pub closed : w'.draining ≡ w.draining
  pub answered : All (λ p. w'.promise p.id ≡ some make_draining_result) requests
  pub kept : (i : ℕ) → All (λ p. (p.id == i) ≡ false) requests → w'.promise i ≡ w.promise i

abbrev answer : PendingRequest → World → World
answer p w = record w {
  promise = λ i. if p.id == i then some make_draining_result else w.promise i;
}

set_value-answer :
    (p : PendingRequest) (w : World)
    → Open w p
    → set_value p make_draining_result w ≡ some (tt, answer p w)
unfolding set_value
set_value-answer p w free = rw (free, set_value) refl

still-Open :
    (p : PendingRequest) (w : World) (q : PendingRequest)
    → ((p.id == q.id) ≡ false) × Open w q
    → Open (answer p w) q
still-Open p w q (other, free) = rw other free

answered_at :
    (p : PendingRequest) (w : World) → (answer p w).promise p.id ≡ some make_draining_result
answered_at p w = ground arith

flip_ids : (i j : ℕ) → (i == j) ≡ false → (j == i) ≡ false
flip_ids i j h = ground arith

then_run :
    {B : Type 0} (m : M (Unit {0})) (k : M B) (w w' : World) {r : Option (B × World)}
    → m w ≡ some (tt, w')
    → k w' ≡ r
    → (m >> k) w ≡ r
then_run m k w w' e f = rw (e, ◌>>=◌) f

reject_all-Rejected :
    (ps : List PendingRequest) (w : World)
    → Apart ps
    → All (Open w) ps
    → (w' : World) × (reject_all ps w ≡ some (tt, w')) × Rejected ps w w'
unfolding reject_all
reject_all-Rejected [] w apart free =
    (w, refl, record { emptied = refl; closed = refl; answered = tt; kept = λ i h. refl })
reject_all-Rejected (p ∷ ps) w (apart, rest) (free, more) =
    let (w', e, r) = reject_all-Rejected ps (answer p w) rest (
      All-map ps (still-Open p w)
        (All-both (λ q. (p.id == q.id) ≡ false) (Open w) ps apart more)) in
    (
      w',
      then_run (set_value p make_draining_result) (reject_all ps) w (answer p w)
          (set_value-answer p w free) e,
      record {
        emptied = r.emptied;
        closed = r.closed;
        answered = (
          r.kept p.id (All-map ps (λ q h. flip_ids p.id q.id h) apart) ∙ answered_at p w,
          r.answered,
        );
        kept = λ i h. r.kept i h.1 ∙ rw h.0 refl;
      },
    )

-- A drain whose workers have ended answers all that is left in the queue. Given that the queued
-- requests are distinct and their promises unset: it does not fault, the scheduler accepts no more,
-- the queue is empty, each of these requests has the draining result, and no other promise changes.
pub begin_drain-Rejected :
    (w : World)
    → Apart w.queue
    → All (Open w) w.queue
    → (w' : World) × (begin_drain w ≡ some (tt, w'))
      × (w'.queue ≡ [])
      × (is_ready w' ≡ false)
      × Rejected w.queue (record w { queue = []; draining = true }) w'
unfolding begin_drain reject_queued_requests stop_accepting is_ready
begin_drain-Rejected w apart free =
    let (w', e, r) =
      reject_all-Rejected w.queue (record w { queue = []; draining = true }) apart free in
    (w', e, r.emptied, rw r.closed refl, r)
