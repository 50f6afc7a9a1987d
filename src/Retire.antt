-- ===== src/Retire.antt =====
-- src/SchedulerRetireQueue.cpp: schedulers that are drained in the background.
--
-- A task is a `std::future` of a drain: the scheduler, whether the future is valid, and whether its
-- drain has ended.
mod Examples
use neuriplo_kserve_runtime.Prelude.{
  ℕ, ◌+◌, ◌≡◌, refl, ap, ◌∙◌, sym, Bool, true, false, not, ◌||◌, List, [], ◌∷◌, ◌++◌, Option, none,
  some, map, length, if◌then◌else◌, arith, All, Bool-cases, inl, inr,
}

pub record Task : Type 0 where
  pub scheduler : ℕ
  pub valid : Bool
  pub ready : Bool

unfoldable pub is_over : Task → Bool
is_over t = not t.valid || t.ready

unfoldable pub prune_completed : List Task → List Task
prune_completed [] = []
prune_completed (t ∷ ts) = if is_over t then prune_completed ts else t ∷ prune_completed ts

-- The new task may have ended already when the queue is pruned.
unfoldable pub retire : Option ℕ → Bool → List Task → List Task
unfolding prune_completed
retire none ended pending = pending
retire (some scheduler) ended pending =
    prune_completed (pending ++ record { scheduler = scheduler; valid = true; ready = ended } ∷ [])

unfoldable pub pending_count : List Task → List Task × ℕ
unfolding prune_completed
pending_count pending = let rest = prune_completed pending in (rest, length rest)

-- The destructor waits for every valid task: the schedulers whose drain it waits for.
unfoldable pub awaited : List Task → List ℕ
awaited [] = []
awaited (t ∷ ts) = if t.valid then t.scheduler ∷ awaited ts else awaited ts

-- The schedulers whose drain goes on.
pub draining_schedulers : List Task → List ℕ
draining_schedulers [] = []
draining_schedulers (t ∷ ts) =
    if is_over t then draining_schedulers ts else t.scheduler ∷ draining_schedulers ts

draining_schedulers-append :
    (ts us : List Task)
    → draining_schedulers (ts ++ us) ≡ draining_schedulers ts ++ draining_schedulers us
unfolding draining_schedulers
draining_schedulers-append [] us = refl
draining_schedulers-append (t ∷ ts) us =
    let ih = draining_schedulers-append ts us in
    elim (Bool-cases (is_over t)) [
      | inl over ↦ rw over ih
      | inr on ↦ rw on (ap (λ rest. t.scheduler ∷ rest) ih)
    ]

awaited-prune_completed : (ts : List Task) → awaited (prune_completed ts) ≡ draining_schedulers ts
unfolding awaited prune_completed draining_schedulers is_over
awaited-prune_completed [] = refl
awaited-prune_completed (t ∷ ts) = let ih = awaited-prune_completed ts in grind arith

-- No drain is forgotten: when a scheduler was retired, the destructor waits for the drains that went
-- on before, in their order, and then for the new one, unless that has ended at once.
pub awaited-retire :
    (scheduler : ℕ) (ended : Bool) (pending : List Task)
    → awaited (retire (some scheduler) ended pending)
      ≡ draining_schedulers pending ++ (if ended then [] else scheduler ∷ [])
unfolding retire draining_schedulers is_over
awaited-retire scheduler ended pending =
    awaited-prune_completed (pending ++ _ ∷ [])
    ∙ draining_schedulers-append pending
        (record { scheduler = scheduler; valid = true; ready = ended } ∷ [])
    ∙ refl
