-- ===== src/Scheduler/Process/Answers/Active.antt =====
-- The two loops that `processBatch` starts with: the late requests are answered, and those that are
-- still open are picked. Since the clock never goes back, none is both.
use neuriplo_kserve_runtime.Prelude.{
  ℕ, ◌≤◌, ◌<◌, ◌≡◌, refl, sym, ◌∙◌, Bool, true, false, List, [], ◌∷◌, arith, inl, inr, ◌⊎◌, leb,
  leb→le, All, if◌then◌else◌,
}
use native.Mathlib.Nat.{le_trans}
use neuriplo_kserve_runtime.Scheduler.World.{
  World, PendingRequest, M, pure, now, is_cancelled, fulfill_expired_request, ◌>>=◌, ◌>>◌,
}
use neuriplo_kserve_runtime.Scheduler.Process.{expire_if_late, expire_late, pick_active}
use neuriplo_kserve_runtime.Scheduler.Process.Rules.{
  Runs, Runs_bind, Later, Later-refl, Later-trans, Later-none, Settled, Settled-Later, now-Runs,
  is_cancelled-Runs, fulfill_expired_request-Answers,
}
use neuriplo_kserve_runtime.Scheduler.Process.Answers.Lists.{
  ids, Distinct, Unset, Later-more, not_member_head, not_member_tail, Unset-kept,
}

-- The request was not answered if it was not late.
abbrev pub Open : ℕ → World → PendingRequest → Type 0
Open time w p = time < p.deadline → Unset w p

expire_if_late-Runs :
    (time : ℕ) (p : PendingRequest) (w : World)
    → Unset w p
    → Runs (expire_if_late time p) w (λ _ w'. Later (p.id ∷ []) w w' × Open time w' p)
unfolding expire_if_late
expire_if_late-Runs time p w u =
    Runs_bind (λ c w'. (c ≡ w'.cancelled p.id) × Later [] w w')
      (λ _ w'. Later (p.id ∷ []) w w' × Open time w' p) (is_cancelled p) _ w (is_cancelled-Runs p w)
      go
  where
    Goal : M (Unit {0}) → World → Type 0
    Goal m w' = Runs m w' (λ _ w''. Later (p.id ∷ []) w w'' × Open time w'' p)

    open_still : (w' : World) → Later [] w w' → Unset w' p
    open_still w' a = a.kept p.id refl ∙ u

    at_test :
        (w' : World)
        → Later [] w w'
        → (b : Bool) → leb p.deadline time ≡ b
        → Goal (if b then fulfill_expired_request p else pure tt) w'
    at_test w' a true e =
        let (v, w'', ran, (b, _)) = fulfill_expired_request-Answers p w' (open_still w' a) in
        (
          v,
          w'',
          ran,
          (
            Later-trans (Later-none (p.id ∷ []) a) b,
            λ h. absurd (omega (arith, leb→le p.deadline time e)),
          ),
        )
    at_test w' a false e = (tt, w', refl, (Later-none (p.id ∷ []) a, λ h. open_still w' a))

    go :
        (c : Bool) (w' : World)
        → (c ≡ w'.cancelled p.id) × Later [] w w'
        → Goal
            (if c
              then pure tt
              else if leb p.deadline time
              then fulfill_expired_request p
              else pure tt)
            w'
    go true w' (e, a) = (tt, w', refl, (Later-none (p.id ∷ []) a, λ h. open_still w' a))
    go false w' (e, a) = at_test w' a (leb p.deadline time) refl

pub expire_late-Runs :
    (time : ℕ) (ps : List PendingRequest) (w : World)
    → Distinct ps
    → All (Unset w) ps
    → Runs (expire_late time ps) w (λ _ w'. Later (ids ps) w w' × All (Open time w') ps)
unfolding expire_late
expire_late-Runs time [] w d us = (tt, w, refl, (Later-refl [] w, tt))
expire_late-Runs time (p ∷ ps) w (alone, d) (u, us) =
    go (expire_if_late-Runs time p w u) (λ w' us'. expire_late-Runs time ps w' d us')
  where
    Behind : World → Type 0
    Behind w' =
        Runs (expire_late time ps) w' (λ _ w''. Later (ids ps) w' w'' × All (Open time w'') ps)

    go :
        Runs (expire_if_late time p) w (λ _ w'. Later (p.id ∷ []) w w' × Open time w' p)
        → ((w' : World) → All (Unset w') ps → Behind w')
        → Runs
            (expire_if_late time p >> expire_late time ps)
            w
            (λ _ w'. Later (ids (p ∷ ps)) w w' × All (Open time w') (p ∷ ps))
    go (_, w', ran, (a, still)) behind =
        let (v, w'', ran', (b, rest)) = behind w' (Unset-kept p ps alone a us) in
        (
          v,
          w'',
          rw (ran, ◌>>=◌) ran',
          (
            Later-trans
                (Later-more (p.id ∷ []) (ids (p ∷ ps)) (λ i. not_member_head i p.id (ids ps)) a)
                (Later-more (ids ps) (ids (p ∷ ps)) (λ i. not_member_tail i p.id (ids ps)) b),
            (λ h. b.kept p.id alone ∙ still h, rest),
          ),
        )

-- The picked requests stand in the list in the same order, with a deadline ahead of `time`; the
-- others need no more of the worker.
pub data Picked (w : World) (time : ℕ) : List PendingRequest → List PendingRequest → Type 0 where
  none_left : Picked w time [] []
  left_out :
      {p : PendingRequest} {ps active : List PendingRequest}
      → Settled w p
      → Picked w time ps active
      → Picked w time (p ∷ ps) active
  picked :
      {p : PendingRequest} {ps active : List PendingRequest}
      → time < p.deadline
      → Picked w time ps active
      → Picked w time (p ∷ ps) (p ∷ active)

pub Picked-earlier :
    {w : World} {s t : ℕ} {ps active : List PendingRequest}
    → s ≤ t
    → Picked w t ps active
    → Picked w s ps active
Picked-earlier h none_left = none_left
Picked-earlier h (left_out q k) = left_out q (Picked-earlier h k)
Picked-earlier h (picked q k) = picked (omega arith) (Picked-earlier h k)

-- What the test of one request found.
abbrev Tested : PendingRequest → World → Bool → World → Type 0
Tested p w late w' =
    Later [] w w' × (((late ≡ true) × Settled w' p) ⊎ ((late ≡ false) × (w.clock < p.deadline)))

test-Runs :
    (p : PendingRequest) (c : Bool) (w : World)
    → (c ≡ true → w.cancelled p.id ≡ true)
    → Runs (if c then pure true else (now >>= λ time. pure (leb p.deadline time))) w (Tested p w)
test-Runs p true w h = (true, w, refl, (Later-refl [] w, inl (refl, inl (h refl))))
test-Runs p false w h = go (now-Runs w)
  where
    Goal : Type 0
    Goal = Runs (now >>= λ time. pure (leb p.deadline time)) w (Tested p w)

    go : Runs now w (λ t w'. (t ≡ w'.clock) × Later [] w w') → Goal
    go (t, w', ran, (e, a)) =
        (leb p.deadline t, w', rw (ran, ◌>>=◌), (a, cases (leb p.deadline t) refl))
      where
        cases :
            (b : Bool)
            → leb p.deadline t ≡ b
            → ((b ≡ true) × Settled w' p) ⊎ ((b ≡ false) × (w.clock < p.deadline))
        cases true k = inl (refl, inr (inr (rw (← e) (leb→le p.deadline t k))))
        cases false k =
            inr (
              refl,
              let before : t < p.deadline = ground arith in let later = a.time in omega arith,
            )

pub pick_active-Runs :
    (ps : List PendingRequest) (w : World)
    → Runs (pick_active ps) w (λ active w'. Later [] w w' × Picked w' w.clock ps active)
unfolding pick_active
pick_active-Runs [] w = ([], w, refl, (Later-refl [] w, none_left))
pick_active-Runs (p ∷ ps) w = flagged (is_cancelled-Runs p w) (pick_active-Runs ps)
  where
    Result : List PendingRequest → World → Type 0
    Result active w' = Later [] w w' × Picked w' w.clock (p ∷ ps) active

    Rest : Type 0
    Rest =
        (v : World)
        → Runs (pick_active ps) v (λ active v'. Later [] v v' × Picked v' v.clock ps active)

    collect : Bool → M (List PendingRequest)
    collect late = pick_active ps >>= λ rest. pure (if late then rest else p ∷ rest)

    collected :
        (v : World) (late : Bool) (v' : World)
        → Later [] w v
        → Tested p v late v'
        → Rest
        → Runs (collect late) v' Result
    collected v true v' a (b, inl (_, q)) rest =
        let (active, v'', ran, (c, k)) = rest v' in
        (
          active,
          v'',
          rw (ran, ◌>>=◌),
          (
            Later-trans a (Later-trans b c),
            left_out (Settled-Later p c q) (Picked-earlier (le_trans a.time b.time) k),
          ),
        )
    collected v true v' a (b, inr (e, _)) rest = absurd (cc)
    collected v false v' a (b, inl (e, _)) rest = absurd (cc)
    collected v false v' a (b, inr (_, h)) rest =
        let (active, v'', ran, (c, k)) = rest v' in
        let early = a.time in
        (
          p ∷ active,
          v'',
          rw (ran, ◌>>=◌),
          (
            Later-trans a (Later-trans b c),
            picked (omega arith) (Picked-earlier (le_trans a.time b.time) k),
          ),
        )

    tested :
        (c : Bool) (v : World)
        → (c ≡ v.cancelled p.id) × Later [] w v
        → Rest
        → Runs
            ((if c then pure true else (now >>= λ time. pure (leb p.deadline time))) >>= collect)
            v
            Result
    tested c v (e, a) rest =
        Runs_bind (Tested p v) Result
          (if c then pure true else (now >>= λ time. pure (leb p.deadline time))) collect v
          (test-Runs p c v (λ h. sym e ∙ h)) (λ late v' t. collected v late v' a t rest)

    flagged :
        Runs (is_cancelled p) w (λ c v. (c ≡ v.cancelled p.id) × Later [] w v)
        → Rest
        → Runs
            (is_cancelled p >>= λ c.
              (if c then pure true else (now >>= λ time. pure (leb p.deadline time))) >>= collect)
            w
            Result
    flagged r rest =
        Runs_bind (λ c v. (c ≡ v.cancelled p.id) × Later [] w v) Result (is_cancelled p)
          (λ c. (if c then pure true else (now >>= λ time. pure (leb p.deadline time))) >>= collect)
          w r (λ c v h. tested c v h rest)
