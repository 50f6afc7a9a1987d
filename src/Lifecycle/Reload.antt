-- ===== src/Lifecycle/Reload.antt =====
-- src/ModelLifecycle.cpp, `reload` and whole lives of a handle.
use neuriplo_kserve_runtime.Prelude.{
  ℕ, String, Bool, true, false, ◌||◌, List, [], ◌∷◌, Option, none, some, ◌≡◌, ◌≢◌, refl, ap, arith,
  Bool-cases, inl, inr,
}
use neuriplo_kserve_runtime.ModelState.{
  State, unloaded, loading, ready, failed, unavailable, unloading, Machine, machine, state_eq,
  start_load, mark_ready, mark_failed, reset, transition_to, is_valid_transition, notify,
  begin_unload,
}
use neuriplo_kserve_runtime.ModelState
use neuriplo_kserve_runtime.Lifecycle.{
  ModelHandle, RuntimeConfig, Outside, Outcome, new_handle, load, reload, begin_reload,
  begin_reload_in, finish_reload, bring_up, begin_drain, complete_unload, outcome, ModelMetadata,
  launch, launched,
}
use neuriplo_kserve_runtime.Lifecycle.Load.{Loaded, up, down, load-Loaded}

-- A handle has a scheduler in the states in which it serves or drains, and in no other.
abbrev pub is_live : State → Bool
is_live s = state_eq s ready || state_eq s unloading

abbrev pub is_some : Option ℕ → Bool
is_some none = false
is_some (some _) = true

abbrev pub Consistent : ModelHandle → Type 0
Consistent h = is_some h.scheduler ≡ is_live h.state.state

pub begin_drain-Consistent : (h : ModelHandle) → Consistent h → Consistent (begin_drain h).handle
unfolding begin_drain begin_unload transition_to is_valid_transition notify
begin_drain-Consistent h c = grind arith

complete_unload-Consistent :
    (h : ModelHandle) → Consistent h → Consistent (complete_unload h).handle
unfolding complete_unload ModelState.complete_unload transition_to is_valid_transition notify
complete_unload-Consistent h c = grind arith

begin_reload_in-Consistent :
    (s : State) (h : ModelHandle)
    → h.state.state ≡ s
    → Consistent h
    → Consistent (begin_reload_in s h).handle
unfolding begin_reload_in complete_unload ModelState.complete_unload reset transition_to
    is_valid_transition notify
begin_reload_in-Consistent loading h e c = c
begin_reload_in-Consistent ready h e c = c
begin_reload_in-Consistent unloading h e c = complete_unload-Consistent h c
begin_reload_in-Consistent failed h e c = grind arith
begin_reload_in-Consistent unavailable h e c = grind arith
begin_reload_in-Consistent unloaded h e c = c

pub finish_reload-Consistent :
    (h next : ModelHandle) → Consistent h → Consistent next → Consistent (finish_reload h next).0
unfolding finish_reload bring_up mark_failed mark_ready start_load reset transition_to
    is_valid_transition notify
finish_reload-Consistent h next c d = grind arith

begin_reload_at :
    (s : State) (h : ModelHandle) → h.state.state ≡ s → begin_reload h ≡ begin_reload_in s h
unfolding begin_reload
begin_reload_at s h e = ap (λ s. begin_reload_in s h) e

pub begin_reload-Consistent : (h : ModelHandle) → Consistent h → Consistent (begin_reload h).handle
unfolding begin_reload
begin_reload-Consistent h c = begin_reload_in-Consistent h.state.state h refl c

begin_reload_in_idle :
    (s : State) (h : ModelHandle)
    → h.state.state ≡ s
    → (begin_reload_in s h).accepted ≡ true
    → state_eq (begin_reload_in s h).handle.state.state unloading ≡ false
unfolding begin_reload_in complete_unload ModelState.complete_unload reset transition_to
    is_valid_transition notify
begin_reload_in_idle loading h e a = grind arith
begin_reload_in_idle ready h e a = grind arith
begin_reload_in_idle unloading h e a = grind arith
begin_reload_in_idle failed h e a = grind arith
begin_reload_in_idle unavailable h e a = grind arith
begin_reload_in_idle unloaded h e a = grind arith

-- A handle on which a reload has begun is not draining.
pub begin_reload_idle :
    (h : ModelHandle)
    → (begin_reload h).accepted ≡ true
    → state_eq (begin_reload h).handle.state.state unloading ≡ false
unfolding begin_reload
begin_reload_idle h a = begin_reload_in_idle h.state.state h refl a

begin_reload_in_refused :
    (s : State) (h : ModelHandle)
    → h.state.state ≡ s
    → (begin_reload_in s h).accepted ≡ false
    → (begin_reload_in s h).handle ≡ h
unfolding begin_reload_in complete_unload ModelState.complete_unload reset transition_to
    is_valid_transition notify
begin_reload_in_refused loading h e a = refl
begin_reload_in_refused ready h e a = refl
begin_reload_in_refused unloading h e a = grind arith
begin_reload_in_refused failed h e a = grind arith
begin_reload_in_refused unavailable h e a = grind arith
begin_reload_in_refused unloaded h e a = refl

-- A reload that cannot begin leaves the handle alone.
pub begin_reload_refused :
    (h : ModelHandle) → (begin_reload h).accepted ≡ false → (begin_reload h).handle ≡ h
unfolding begin_reload
begin_reload_refused h a = begin_reload_in_refused h.state.state h refl a

module _ (outside : Outside) (config : RuntimeConfig) where
  Loaded-Consistent : (h : ModelHandle) → Loaded outside config h → Consistent h
  Loaded-Consistent h (up _ s _ _ _ is_ready served _ _) = rw (served, is_ready) refl
  Loaded-Consistent h (down _ is_failed unserved _ _) = rw (unserved, is_failed) refl

  load-Consistent :
      (h : ModelHandle) (version : Option String)
      → Consistent h
      → Consistent (load outside h config version)
  unfolding load
  load-Consistent h version c = elim (Bool-cases (state_eq h.state.state unloaded)) [
    | inl u ↦ Loaded-Consistent _ (load-Loaded outside config h version (grind arith))
    | inr n ↦ simp n c
  ]

  pub fresh-Consistent :
      (version : Option String) → Consistent (load outside new_handle config version)
  unfolding machine
  fresh-Consistent version =
      Loaded-Consistent _ (load-Loaded outside config new_handle version refl)

  reload-Consistent :
      (h : ModelHandle) (version : Option String)
      → Consistent h
      → Consistent (reload outside h config version).handle
  unfolding reload begin_reload
  reload-Consistent h version c =
      let begun = begin_reload_in-Consistent h.state.state h refl c in
      elim (Bool-cases (begin_reload_in h.state.state h).accepted) [
        | inr refused ↦ rw refused begun
        | inl accepted ↦ rw accepted (
            finish_reload-Consistent (begin_reload h).handle
              (load outside new_handle config version) begun (fresh-Consistent version))
      ]

  -- The operations of a lifecycle on a handle.
  pub data Operation : Type 0 where
    loads reloads : Option String → Operation
    begins_drain completes_unload : Operation

  unfoldable apply : Operation → ModelHandle → ModelHandle
  apply (loads version) h = load outside h config version
  apply (reloads version) h = (reload outside h config version).handle
  apply begins_drain h = (begin_drain h).handle
  apply completes_unload h = (complete_unload h).handle

  unfoldable pub live : List Operation → ModelHandle → ModelHandle
  unfolding apply
  live [] h = h
  live (o ∷ os) h = live os (apply o h)

  apply-Consistent : (o : Operation) (h : ModelHandle) → Consistent h → Consistent (apply o h)
  unfolding apply
  apply-Consistent (loads version) h c = load-Consistent h version c
  apply-Consistent (reloads version) h c = reload-Consistent h version c
  apply-Consistent begins_drain h c = begin_drain-Consistent h c
  apply-Consistent completes_unload h c = complete_unload-Consistent h c

  live-Consistent_from :
      (os : List Operation) (h : ModelHandle) → Consistent h → Consistent (live os h)
  unfolding live
  live-Consistent_from [] h c = c
  live-Consistent_from (o ∷ os) h c = live-Consistent_from os (apply o h) (apply-Consistent o h c)

  -- Whatever loads, reloads, drains and unloads a new handle goes through, whether they succeed or
  -- not: it has a scheduler exactly when it is Ready or Unloading.
  pub live-Consistent : (operations : List Operation) → Consistent (live operations new_handle)
  unfolding machine
  live-Consistent operations = live-Consistent_from operations new_handle refl

  -- How a reload of a handle ends. Busy: it was Loading, and nothing happens. Kept: it was Ready,
  -- the replacement did not come up, and only the error changes; no scheduler was stopped. Failed
  -- again: it was neither, and the replacement did not come up. Replaced: it is Ready on a
  -- scheduler that the load launched.
  pub data Reloaded (h : ModelHandle) (r : Outcome) : Type 0 where
    busy : h.state.state ≡ loading → r ≡ outcome h false none → Reloaded h r
    kept :
        (message : String)
        → h.state.state ≡ ready
        → r ≡ outcome (record h { load_error = some message }) false none
        → Reloaded h r
    failed_again :
        (message : String)
        → h.state.state ≢ ready
        → r.accepted ≡ false
        → r.handle.state.state ≡ failed
        → r.handle.load_error ≡ some message
        → Reloaded h r
    replaced :
        (executors : List ModelMetadata) (scheduler : ℕ)
        → h.state.state ≢ loading
        → launch outside config executors ≡ launched scheduler
        → r.accepted ≡ true
        → r.handle.state.state ≡ ready
        → r.handle.scheduler ≡ some scheduler
        → r.handle.load_error ≡ none
        → Reloaded h r

  abbrev swapped : ModelHandle → ModelHandle → Option ℕ → Outcome
  swapped begun next stopped =
      outcome (finish_reload begun next).0 (finish_reload begun next).1 stopped

  swapped-ready :
      (h next : ModelHandle)
      → h.state.state ≡ ready
      → Loaded outside config next
      → Reloaded h (swapped h next none)
  unfolding finish_reload bring_up
  swapped-ready h next e (up ms s _ _ l is_ready served fine _) =
      replaced ms s (grind arith) l (grind arith) (grind arith) (grind arith) (grind arith)
  swapped-ready h next e (down message is_failed _ why _) = kept message e (grind arith)

  swapped-unloaded :
      (h begun next : ModelHandle) (stopped : Option ℕ)
      → h.state.state ≢ ready
      → h.state.state ≢ loading
      → begun.state.state ≡ unloaded
      → Loaded outside config next
      → Reloaded h (swapped begun next stopped)
  unfolding finish_reload bring_up mark_failed mark_ready start_load transition_to
      is_valid_transition notify
  swapped-unloaded h begun next stopped n k e (up ms s _ _ l is_ready served fine _) =
      replaced ms s k l (grind arith) (grind arith) (grind arith) (grind arith)
  swapped-unloaded h begun next stopped n k e (down message is_failed _ why _) =
      failed_again message n (grind arith) (grind arith) (grind arith)

  rebuilt-Reloaded :
      (h : ModelHandle) (version : Option String) (begun : Outcome)
      → h.state.state ≢ ready
      → h.state.state ≢ loading
      → begin_reload h ≡ begun
      → begun.accepted ≡ true
      → begun.handle.state.state ≡ unloaded
      → Reloaded h (reload outside h config version)
  unfolding reload machine
  rebuilt-Reloaded h version begun n k e accepted idle =
      rw (e, accepted)
        (swapped-unloaded h begun.handle (load outside new_handle config version) begun.stopped n k
          idle (load-Loaded outside config new_handle version refl))

  reload-Reloaded_in :
      (s : State) (h : ModelHandle) (version : Option String)
      → h.state.state ≡ s
      → Reloaded h (reload outside h config version)
  unfolding reload begin_reload_in complete_unload ModelState.complete_unload reset transition_to
      is_valid_transition notify machine
  reload-Reloaded_in loading h version e = rw (begin_reload_at loading h e) (busy e refl)
  reload-Reloaded_in ready h version e = rw (begin_reload_at ready h e) (
      swapped-ready h (load outside new_handle config version) e
        (load-Loaded outside config new_handle version refl))
  reload-Reloaded_in unloading h version e =
      rebuilt-Reloaded h version (complete_unload h) (grind arith) (grind arith)
        (begin_reload_at unloading h e) (grind arith) (grind arith)
  reload-Reloaded_in failed h version e =
      rebuilt-Reloaded h version (begin_reload_in failed h) (grind arith) (grind arith)
        (begin_reload_at failed h e) refl (grind arith)
  reload-Reloaded_in unavailable h version e =
      rebuilt-Reloaded h version (begin_reload_in unavailable h) (grind arith) (grind arith)
        (begin_reload_at unavailable h e) refl (grind arith)
  reload-Reloaded_in unloaded h version e =
      rebuilt-Reloaded h version (begin_reload_in unloaded h) (grind arith) (grind arith)
        (begin_reload_at unloaded h e) refl e

  -- A reload ends in one of four ways, whatever the state of the handle and whatever the factory
  -- and the schedulers' constructors do. A Loading handle refuses and stays as it is. A Ready one
  -- whose replacement does not come up refuses, stays Ready on its scheduler, and differs in the
  -- error alone. Another one whose replacement does not come up refuses and is Failed, with a
  -- message. Otherwise the reload is accepted, and the handle is Ready on the scheduler that was
  -- launched, without an error.
  pub reload-Reloaded :
      (h : ModelHandle) (version_override : Option String)
      → Reloaded h (reload outside h config version_override)
  reload-Reloaded h version = reload-Reloaded_in h.state.state h version refl
