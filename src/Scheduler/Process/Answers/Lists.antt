-- ===== src/Scheduler/Process/Answers/Lists.antt =====
-- Loops over requests that answer each of them, and the two loops of `processBatch` that come first.
use neuriplo_kserve_runtime.Prelude.{
  String, ℕ, ◌≡◌, refl, ◌∙◌, false, List, [], ◌∷◌, map, none, some, arith, length, leb, All,
}
use neuriplo_kserve_runtime.Request.{ExecutionResponse}
use neuriplo_kserve_runtime.Scheduler.Result.{make_executor_failure_result}
use neuriplo_kserve_runtime.Scheduler.World.{
  World, PendingRequest, M, pure, fulfill_result, fulfill_expired_request, ◌>>=◌, ◌>>◌,
}
use neuriplo_kserve_runtime.Scheduler.Process.{
  deliver_result, expire_all, fail_all, deliver_one, deliver,
}
use neuriplo_kserve_runtime.Scheduler.Process.Rules.{
  Runs, Later, Later-refl, Later-trans, Answers, Settled, Settled-Later, member,
  fulfill_result-Answers, fulfill_expired_request-Answers,
}
use neuriplo_kserve_runtime.Scheduler.Process.Answers.Single.{Answers-if, deliver_result-Answers}

abbrev pub ids : List PendingRequest → List ℕ
ids ps = map (λ p. p.id) ps

-- No request stands twice in the list.
abbrev pub Distinct : List PendingRequest → Type 0
Distinct [] = Unit
Distinct (p ∷ ps) = (member p.id (ids ps) ≡ false) × Distinct ps

abbrev pub Unset : World → PendingRequest → Type 0
Unset w p = w.promise p.id ≡ none

-- What is settled or set for some ids is so for more.
pub Later-more :
    {w w' : World} (is js : List ℕ)
    → ((i : ℕ) → member i js ≡ false → member i is ≡ false)
    → Later is w w'
    → Later js w w'
Later-more is js h a = record {
  time = a.time;
  kept = λ i k. a.kept i (h i k);
  answered = a.answered;
  gone = a.gone;
  pool = a.pool;
  still = a.still;
  drains = a.drains;
}

pub not_member_head :
    (i j : ℕ) (js : List ℕ) → member i (j ∷ js) ≡ false → member i (j ∷ []) ≡ false
not_member_head i j js h = ground arith

pub not_member_tail : (i j : ℕ) (js : List ℕ) → member i (j ∷ js) ≡ false → member i js ≡ false
not_member_tail i j js h = ground arith

member_swap : (i j : ℕ) → member i (j ∷ []) ≡ false → member j (i ∷ []) ≡ false
member_swap i j h = ground arith

-- What one request's step leaves alone.
pub Unset-kept :
    {w w' : World} (p : PendingRequest) (qs : List PendingRequest)
    → member p.id (ids qs) ≡ false
    → Later (p.id ∷ []) w w'
    → All (Unset w) qs
    → All (Unset w') qs
Unset-kept p [] h a us = tt
Unset-kept p (q ∷ qs) h a (u, us) = (
  a.kept q.id (member_swap p.id q.id (not_member_head p.id q.id (ids qs) h)) ∙ u,
  Unset-kept p qs (not_member_tail p.id q.id (ids qs) h) a us,
)

-- An action that answers every request of a list.
abbrev pub AnswersAll : List PendingRequest → World → M (Unit {0}) → Type 0
AnswersAll ps w m =
    Distinct ps → All (Unset w) ps → Runs m w (λ _ w'. Later (ids ps) w w' × All (Settled w') ps)

AnswersAll-cons :
    (p : PendingRequest) (ps : List PendingRequest) (m n : M (Unit {0})) (w : World)
    → Answers p w m
    → ((w' : World) → AnswersAll ps w' n)
    → AnswersAll (p ∷ ps) w (m >> n)
AnswersAll-cons p ps m n w first rest (alone, distinct) (u, us) = go (first u)
  where
    go :
        Runs m w (λ _ w'. Later (p.id ∷ []) w w' × Settled w' p)
        → Runs (m >> n) w (λ _ w'. Later (ids (p ∷ ps)) w w' × All (Settled w') (p ∷ ps))
    go (_, w', ran, (a, done)) =
        let (v, w'', ran', (b, dones)) = rest w' distinct (Unset-kept p ps alone a us) in
        (
          v,
          w'',
          rw (ran, ◌>>=◌) ran',
          (
            Later-trans
                (Later-more (p.id ∷ []) (ids (p ∷ ps)) (λ i. not_member_head i p.id (ids ps)) a)
                (Later-more (ids ps) (ids (p ∷ ps)) (λ i. not_member_tail i p.id (ids ps)) b),
            (Settled-Later p b done, dones),
          ),
        )

AnswersAll-nil : (w : World) → AnswersAll [] w (pure tt)
AnswersAll-nil w d u = (tt, w, refl, (Later-refl [] w, tt))

pub expire_all-AnswersAll : (ps : List PendingRequest) (w : World) → AnswersAll ps w (expire_all ps)
unfolding expire_all
expire_all-AnswersAll [] w = AnswersAll-nil w
expire_all-AnswersAll (p ∷ ps) w =
    AnswersAll-cons p ps (fulfill_expired_request p) (expire_all ps) w
      (fulfill_expired_request-Answers p w) (expire_all-AnswersAll ps)

pub fail_all-AnswersAll :
    (error : String) (ps : List PendingRequest) (w : World) → AnswersAll ps w (fail_all error ps)
unfolding fail_all
fail_all-AnswersAll error [] w = AnswersAll-nil w
fail_all-AnswersAll error (p ∷ ps) w =
    AnswersAll-cons p ps (fulfill_result p (make_executor_failure_result error)) (fail_all error ps)
      w (fulfill_result-Answers p (make_executor_failure_result error) w)
      (fail_all-AnswersAll error ps)

pub deliver-AnswersAll :
    (started finished count : ℕ) (ps : List PendingRequest) (rs : List ExecutionResponse)
    (w : World)
    → length rs ≡ length ps
    → AnswersAll ps w (deliver started finished count ps rs)
unfolding deliver deliver_one
deliver-AnswersAll started finished count [] rs w h = AnswersAll-nil w
deliver-AnswersAll started finished count (p ∷ ps) [] w h = absurd (omega arith)
deliver-AnswersAll started finished count (p ∷ ps) (r ∷ rs) w h =
    AnswersAll-cons p ps (deliver_one started finished count p (some r))
      (deliver started finished count ps rs) w
      (Answers-if p w (leb p.deadline finished) (fulfill_expired_request p)
        (deliver_result p started finished count r) (fulfill_expired_request-Answers p w)
        (deliver_result-Answers p started finished count r w))
      (λ w'. deliver-AnswersAll started finished count ps rs w' (omega arith))
