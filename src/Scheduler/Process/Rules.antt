-- ===== src/Scheduler/Process/Rules.antt =====
-- How to prove that a worker's action runs, and what every action keeps.
use native.Mathlib.Nat.{le_trans, le_refl}
use neuriplo_kserve_runtime.Prelude.{
  ℕ, ◌+◌, ◌≤◌, ◌≡◌, refl, sym, ap, subst, ◌++◌, ◌∙◌, Bool, true, false, ◌||◌, List, [], ◌∷◌, none,
  some, arith, ◌==◌, inl, inr, ◌⊎◌, length, if◌then◌else◌,
}
use neuriplo_kserve_runtime.Batching.Merge.{u64}
use neuriplo_kserve_runtime.Scheduler.Result.{
  SchedulerResult, SchedulerMetrics, make_timeout_result,
}
use neuriplo_kserve_runtime.Scheduler.World.{
  World, PendingRequest, Move, M, ◌>>=◌, cancel_token, give_up, give_up_all, others, other_threads,
  now, is_cancelled, set_value, fulfill_result, fulfill_expired_request, update, count_timed_out,
  pure, ◌>>◌,
}

-- The action ends well, and its result and the world behind it are such.
abbrev pub Runs : {A : Type 0} → M A → World → (A → World → Type 0) → Type 0
Runs {A} m w P = (a : A) × (w' : World) × (m w ≡ some (a, w')) × P a w'

pub Runs_bind :
    {A B : Type 0} (P : A → World → Type 0) (Q : B → World → Type 0) (m : M A) (f : A → M B)
    (w : World)
    → Runs m w P
    → ((a : A) (w' : World) → P a w' → Runs (f a) w' Q)
    → Runs (m >>= f) w Q
Runs_bind P Q m f w (a, w', e, p) next =
    let (b, w'', e', q) = next a w' p in (b, w'', rw (e, ◌>>=◌) e', q)

abbrev pub member : ℕ → List ℕ → Bool
member i [] = false
member i (j ∷ js) = j == i || member i js

-- No request arrives.
abbrev pub Calm : List Move → Type 0
Calm [] = Unit
Calm (m ∷ ms) = (m.arrivals ≡ []) × Calm ms

-- What holds between two worlds when between them promises were set at most for `ids`.
pub record Later (ids : List ℕ) (w w' : World) : Type 0 where
  pub time : w.clock ≤ w'.clock
  pub kept : (i : ℕ) → member i ids ≡ false → w'.promise i ≡ w.promise i
  pub answered : (i : ℕ) (r : SchedulerResult) → w.promise i ≡ some r → w'.promise i ≡ some r
  pub gone : (i : ℕ) → w.cancelled i ≡ true → w'.cancelled i ≡ true
  pub pool : length w'.inflight ≡ length w.inflight
  pub still : Calm w.moves → (w'.queue ≡ w.queue) × Calm w'.moves
  pub drains : w.draining ≡ true → w'.draining ≡ true

pub Later-refl : (ids : List ℕ) (w : World) → Later ids w w
Later-refl ids w = record {
  time = le_refl w.clock;
  kept = λ i h. refl;
  answered = λ i r e. e;
  gone = λ i e. e;
  pool = refl;
  still = λ c. (refl, c);
  drains = λ e. e;
}

pub Later-trans : {ids : List ℕ} {u v w : World} → Later ids u v → Later ids v w → Later ids u w
Later-trans a b = record {
  time = le_trans a.time b.time;
  kept = λ i h. b.kept i h ∙ a.kept i h;
  answered = λ i r e. b.answered i r (a.answered i r e);
  gone = λ i e. b.gone i (a.gone i e);
  pool = b.pool ∙ a.pool;
  still = λ c. ((b.still (a.still c).1).0 ∙ (a.still c).0, (b.still (a.still c).1).1);
  drains = λ e. b.drains (a.drains e);
}

pub Later-none : {w w' : World} (ids : List ℕ) → Later [] w w' → Later ids w w'
Later-none ids a = record {
  time = a.time;
  kept = λ i h. a.kept i refl;
  answered = a.answered;
  gone = a.gone;
  pool = a.pool;
  still = a.still;
  drains = a.drains;
}

token-moves : (p : PendingRequest) (w : World) → (cancel_token p w).moves ≡ w.moves
token-moves p w = ground arith

give_up-moves : (p : PendingRequest) (w : World) → (give_up p w).moves ≡ w.moves
unfolding give_up
give_up-moves p w = token-moves p w

-- A change to nothing that the relation looks at, but for flags that are set.
give_up-Later : (p : PendingRequest) (w : World) → Later [] w (give_up p w)
unfolding give_up
give_up-Later p w = record {
  time = ground arith;
  kept = λ i h. ground arith;
  answered = λ i r e. ground arith;
  gone = λ i e. ground arith;
  pool = ground arith;
  still = λ c. (ground arith, subst Calm (sym (give_up-moves p w)) c);
  drains = λ e. ground arith;
}

give_up_all-Later : (ps : List PendingRequest) (w : World) → Later [] w (give_up_all ps w)
unfolding give_up_all
give_up_all-Later [] w = Later-refl [] w
give_up_all-Later (p ∷ ps) w = Later-trans (give_up-Later p w) (give_up_all-Later ps (give_up p w))

append-none : (xs ys : List PendingRequest) → ys ≡ [] → xs ++ ys ≡ xs
append-none [] ys e = e
append-none (x ∷ xs) ys e = ap (λ r. x ∷ r) (append-none xs ys e)

pub other_threads-Later : (ms : List Move) (w : World) → Later [] w (other_threads w.moves w)
unfolding other_threads others
other_threads-Later ms w = at w.moves refl
  where
    at : (ms : List Move) → w.moves ≡ ms → Later [] w (other_threads ms w)
    at [] e = Later-refl [] w
    at (m ∷ ms) e =
        let a = give_up_all-Later m.give_ups (record w { moves = ms }) in
        record {
          time = omega (arith, a.time);
          kept = a.kept;
          answered = a.answered;
          gone = a.gone;
          pool = a.pool;
          still = λ c. moved a (subst Calm e c);
          drains = λ d. still_draining (a.drains d);
        }
      where
        moved :
            Later [] (record w { moves = ms }) (give_up_all m.give_ups (record w { moves = ms }))
            → Calm (m ∷ ms)
            → ((give_up_all m.give_ups (record w { moves = ms })).queue ++ m.arrivals ≡ w.queue)
              × Calm (give_up_all m.give_ups (record w { moves = ms })).moves
        moved a (none_arrive, calm) =
            (append-none _ m.arrivals none_arrive ∙ (a.still calm).0, (a.still calm).1)

        still_draining : {b : Bool} → b ≡ true → b || m.drains ≡ true
        still_draining h = ground arith

pub now-Runs : (w : World) → Runs now w (λ t w'. (t ≡ w'.clock) × Later [] w w')
unfolding now
now-Runs w = (_, _, refl, (refl, other_threads-Later w.moves w))

pub is_cancelled-Runs :
    (p : PendingRequest) (w : World)
    → Runs (is_cancelled p) w (λ c w'. (c ≡ w'.cancelled p.id) × Later [] w w')
unfolding is_cancelled
is_cancelled-Runs p w = (_, _, refl, (refl, other_threads-Later w.moves w))

-- The request needs no more of the worker: its caller gave up, its promise is set, or its deadline
-- has come, at which its caller gives up.
abbrev pub Settled : World → PendingRequest → Type 0
Settled w p =
    (w.cancelled p.id ≡ true)
    ⊎ (((r : SchedulerResult) × (w.promise p.id ≡ some r)) ⊎ (p.deadline ≤ w.clock))

pub Settled-Later :
    {ids : List ℕ} {w w' : World} (p : PendingRequest) → Later ids w w' → Settled w p → Settled w' p
Settled-Later p a (inl e) = inl (a.gone p.id e)
Settled-Later p a (inr (inl (r, e))) = inr (inl (r, a.answered p.id r e))
Settled-Later p a (inr (inr h)) = inr (inr (le_trans h a.time))

-- A step that answers `p`, whose promise is not set before.
abbrev pub Answers : PendingRequest → World → M (Unit {0}) → Type 0
Answers p w m = w.promise p.id ≡ none → Runs m w (λ _ w'. Later (p.id ∷ []) w w' × Settled w' p)

set_value-Answers :
    (p : PendingRequest) (r : SchedulerResult) (w : World) → Answers p w (set_value p r)
unfolding set_value
set_value-Answers p r w fresh = (
  tt,
  record w { promise = λ i. if p.id == i then some r else w.promise i },
  rw (fresh, set_value),
  (
    record {
      time = le_refl w.clock;
      kept = λ i h. ground arith;
      answered = λ i s e. ground arith;
      gone = λ i e. e;
      pool = refl;
      still = λ c. (refl, c);
      drains = λ e. e;
    },
    inr (inl (r, ground arith)),
  ),
)

-- A change of the world that the relation does not see.
pub Runs_update :
    (p : PendingRequest) (f : World → World) (m : M (Unit {0})) (w : World)
    → Later [] w (f w)
    → Answers p (f w) m
    → Answers p w (update f >> m)
Runs_update p f m w a answers fresh =
    let (u, w', ran, (b, done)) = answers (a.kept p.id refl ∙ fresh) in
    (u, w', ran, (Later-trans (Later-none (p.id ∷ []) a) b, done))

pub token-Later : (p : PendingRequest) (w : World) → Later [] w (cancel_token p w)
token-Later p w = record {
  time = ground arith;
  kept = λ i h. ground arith;
  answered = λ i r e. ground arith;
  gone = λ i e. ground arith;
  pool = ground arith;
  still = λ c. (ground arith, subst Calm (sym (token-moves p w)) c);
  drains = λ e. ground arith;
}

pub metrics-Later :
    (f : SchedulerMetrics → SchedulerMetrics) (w : World)
    → Later [] w (record w { metrics = f w.metrics })
metrics-Later f w = record {
  time = le_refl w.clock;
  kept = λ i h. refl;
  answered = λ i r e. e;
  gone = λ i e. e;
  pool = refl;
  still = λ c. (refl, c);
  drains = λ e. e;
}

-- A reading of the clock or of a flag, and then the rest.
pub Answers-now :
    (p : PendingRequest) (f : ℕ → M (Unit {0})) (w : World)
    → ((w' : World) → Later [] w w' → Answers p w' (f w'.clock))
    → Answers p w (now >>= f)
Answers-now p f w next fresh = go (now-Runs w)
  where
    go :
        Runs now w (λ t w'. (t ≡ w'.clock) × Later [] w w')
        → Runs (now >>= f) w (λ _ w'. Later (p.id ∷ []) w w' × Settled w' p)
    go (t, w', ran, (e, a)) =
        let (u, w'', ran', (b, done)) = next w' a (a.kept p.id refl ∙ fresh) in
        (u, w'', rw (ran, ◌>>=◌, e) ran', (Later-trans (Later-none (p.id ∷ []) a) b, done))

pub Answers-unless_cancelled :
    (p : PendingRequest) (m : M (Unit {0})) (w : World)
    → ((w' : World) → Later [] w w' → Answers p w' m)
    → Answers p w (is_cancelled p >>= λ gone. if gone then pure tt else m)
Answers-unless_cancelled p m w next fresh =
    Runs_bind (λ c w'. (c ≡ w'.cancelled p.id) × Later [] w w')
      (λ _ w'. Later (p.id ∷ []) w w' × Settled w' p) (is_cancelled p) _ w (is_cancelled-Runs p w)
      go
  where
    go :
        (c : Bool) (w' : World)
        → (c ≡ w'.cancelled p.id) × Later [] w w'
        → Runs (if c then pure tt else m) w' (λ _ w''. Later (p.id ∷ []) w w'' × Settled w'' p)
    go true w' (e, a) = (tt, w', refl, (Later-none (p.id ∷ []) a, inl (sym e)))
    go false w' (e, a) =
        let (u, w'', ran, (b, done)) = next w' a (a.kept p.id refl ∙ fresh) in
        (u, w'', ran, (Later-trans (Later-none (p.id ∷ []) a) b, done))

pub fulfill_result-Answers :
    (p : PendingRequest) (r : SchedulerResult) (w : World) → Answers p w (fulfill_result p r)
unfolding fulfill_result
fulfill_result-Answers p r w =
    Answers-unless_cancelled p (set_value p r) w (λ w' a. set_value-Answers p r w')

pub fulfill_expired_request-Answers :
    (p : PendingRequest) (w : World) → Answers p w (fulfill_expired_request p)
unfolding fulfill_expired_request
fulfill_expired_request-Answers p w =
    Runs_update p (cancel_token p) (update count_timed_out >> fulfill_result p make_timeout_result)
      w (token-Later p w)
      (Runs_update p count_timed_out (fulfill_result p make_timeout_result) (cancel_token p w)
        (metrics-Later (λ m. record m { requests_timed_out = u64 (m.requests_timed_out + 1) })
          (cancel_token p w))
        (fulfill_result-Answers p make_timeout_result _))
