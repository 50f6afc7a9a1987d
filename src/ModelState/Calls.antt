-- ===== src/ModelState/Calls.antt =====
-- The calls of src/ModelStateMachine.hpp against what specs/2026-06-04-tensor-production-hardening/plan.md
-- says of them.
use neuriplo_kserve_runtime.Prelude.{
  ◌≡◌, refl, true, false, ◌++◌, List, [], ◌∷◌, Option, none, some, map, arith, ap, All, ℕ,
}
use neuriplo_kserve_runtime.ModelState.{
  State, unloaded, loading, ready, failed, unavailable, unloading, is_valid_transition, Machine,
  Notice, told, Call, starts_load, marks_ready, marks_failed, marks_unavailable, begins_unload,
  completes_unload, resets, call,
}
use neuriplo_kserve_runtime.ModelState.Diagram.{
  target, Outcome, kept, moved, call-Outcome, is_valid_transition_iff,
}

-- Where a call leads. The first nine are the plan's; the others, which it does not name, are the
-- code's: a model that is unavailable comes back, and a failed or unavailable one is unloaded by
-- the end of an unload, as one that is unloading is by a reset.
pub data Accepts : Call → State → State → Type 0 where
  load_begins : Accepts starts_load unloaded loading
  load_ends : Accepts marks_ready loading ready
  load_fails : Accepts marks_failed loading failed
  load_is_given_up : Accepts marks_unavailable loading unavailable
  service_is_lost : Accepts marks_unavailable ready unavailable
  unload_begins : Accepts begins_unload ready unloading
  unload_ends : Accepts completes_unload unloading unloaded
  failure_is_cleared : Accepts resets failed unloaded
  loss_is_cleared : Accepts resets unavailable unloaded
  also_comes_back : Accepts marks_ready unavailable ready
  also_unloads_failed : Accepts completes_unload failed unloaded
  also_unloads_unavailable : Accepts completes_unload unavailable unloaded
  also_resets_unloading : Accepts resets unloading unloaded

ruleset accepted = (
  load_begins, load_ends, load_fails, load_is_given_up, service_is_lost, unload_begins, unload_ends,
  failure_is_cleared, loss_is_cleared, also_comes_back, also_unloads_failed,
  also_unloads_unavailable, also_resets_unloading,
)

-- The observers that are no empty functions, in the order of their registration.
abbrev pub callable : List (Option ℕ) → List (Option ℕ)
callable [] = []
callable (none ∷ rest) = callable rest
callable (some o ∷ rest) = some o ∷ callable rest

-- What a call makes of the machine. Where no edge is, it is refused and the machine stays as it is.
-- Else it leads to `to`: the observers stay, and the news are behind the notices of before, one for
-- each callable observer in order, with both ends.
pub data Answer (c : Call) (m : Machine) : Type 0 where
  refuses : ((to : State) → ¬ Accepts c m.state to) → call c m ≡ (m, false) → Answer c m
  follows :
      (to : State) (news : List Notice)
      → Accepts c m.state to
      → call c m ≡ (record m { state = to; notices = m.notices ++ news }, true)
      → All (λ n. (n.from ≡ m.state) × (n.to ≡ to)) news
      → map (λ n. some n.observer) news ≡ callable m.observers
      → Answer c m

told-ends :
    (s t : State) (os : List (Option ℕ)) → All (λ n. (n.from ≡ s) × (n.to ≡ t)) (told s t os)
unfolding told
told-ends s t [] = tt
told-ends s t (none ∷ os) = told-ends s t os
told-ends s t (some o ∷ os) = ((refl, refl), told-ends s t os)

told-callable :
    (s t : State) (os : List (Option ℕ)) → map (λ n. some n.observer) (told s t os) ≡ callable os
unfolding told
told-callable s t [] = refl
told-callable s t (none ∷ os) = told-callable s t os
told-callable s t (some o ∷ os) = ap (λ l. some o ∷ l) (told-callable s t os)

leads : (c : Call) (s : State) → is_valid_transition s (target c) ≡ true → Accepts c s (target c)
unfolding is_valid_transition
leads c s h = grind (arith, accepted)

allowed : {c : Call} {s t : State} → Accepts c s t → is_valid_transition s (target c) ≡ true
unfolding is_valid_transition
allowed load_begins = refl
allowed load_ends = refl
allowed load_fails = refl
allowed load_is_given_up = refl
allowed service_is_lost = refl
allowed unload_begins = refl
allowed unload_ends = refl
allowed failure_is_cleared = refl
allowed loss_is_cleared = refl
allowed also_comes_back = refl
allowed also_unloads_failed = refl
allowed also_unloads_unavailable = refl
allowed also_resets_unloading = refl

-- Each call of the machine leads where the plan says, or where the code goes beyond the plan (back
-- from Unavailable, to Unloaded by `completeUnload` from Failed and Unavailable and by `reset` from
-- Unloading), and is refused in every other state. A call that is followed says true and tells each
-- observer that is not empty once, in the order of registration, of both ends; one that is refused
-- says false and changes nothing.
pub call-Answer : (c : Call) (m : Machine) → Answer c m
call-Answer c m = go (call-Outcome c m)
  where
    go : Outcome c m → Answer c m
    go (kept no_edge e) = refuses (λ to a. let yes = allowed a in cc) e
    go (moved edge e) =
        follows (target c) (told m.state (target c) m.observers)
          (leads c m.state ((is_valid_transition_iff m.state (target c)).1 edge)) e
          (told-ends m.state (target c) m.observers) (told-callable m.state (target c) m.observers)
