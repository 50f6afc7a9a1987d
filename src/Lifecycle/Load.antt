-- ===== src/Lifecycle/Load.antt =====
-- src/ModelLifecycle.cpp, `load`: it ends in a served or in a reported failed model.
use neuriplo_kserve_runtime.Prelude.{
  str_eq, if◌then◌else◌, ◌⊎◌, inl, inr, ℕ, zero, suc, String, List, [], ◌∷◌, Option, none, some,
  ◌≡◌, refl, ap, arith, length,
}
use neuriplo_kserve_runtime.ModelState.{
  unloaded, loading, ready, failed, Machine, start_load, mark_ready, mark_failed, transition_to,
  is_valid_transition, notify,
}
use neuriplo_kserve_runtime.Lifecycle.{
  ModelHandle, ModelMetadata, RuntimeConfig, Outside, Made, executor, null, threw, Launch, launched,
  launch_threw, Building, done, no_executor, broken, also, go_on, mark_load_failed, build, launch,
  serve, describe, load_built, starting, load, caught, pinned,
}

pub loading_of : (m : Machine) → m.state ≡ unloaded → (start_load m).0.state ≡ loading
unfolding start_load transition_to is_valid_transition notify
loading_of m h = rw h refl

pub ready_of : (m : Machine) → m.state ≡ loading → (mark_ready m).0.state ≡ ready
unfolding mark_ready transition_to is_valid_transition notify
ready_of m h = rw h refl

pub failed_of : (m : Machine) → m.state ≡ loading → (mark_failed m).0.state ≡ failed
unfolding mark_failed transition_to is_valid_transition notify
failed_of m h = rw h refl

also-done :
    (m : ModelMetadata) (building : Building) {executors : List ModelMetadata}
    → also m building ≡ done executors
    → (rest : List ModelMetadata) × (building ≡ done rest) × (executors ≡ m ∷ rest)
unfolding also
also-done m (done ms) e = (ms, refl, grind arith)
also-done m (no_executor error) e = grind arith
also-done m (broken what) e = grind arith

module _ (outside : Outside) (config : RuntimeConfig) where
  -- How a load ends. Up: all the instances were built and a scheduler was launched on them; the
  -- handle is Ready with this scheduler, has no error and goes by the name that its metadata have.
  -- Down: the handle is Failed, has no scheduler, says why, and keeps the configured name in its
  -- metadata.
  pub data Loaded (handle : ModelHandle) : Type 0 where
    up :
        (executors : List ModelMetadata) (scheduler : ℕ)
        → build outside config config.instances 0 "" ≡ done executors
        → length executors ≡ config.instances
        → launch outside config executors ≡ launched scheduler
        → handle.state.state ≡ ready
        → handle.scheduler ≡ some scheduler
        → handle.load_error ≡ none
        → handle.name ≡ handle.metadata.name
        → Loaded handle
    down :
        (message : String)
        → handle.state.state ≡ failed
        → handle.scheduler ≡ none
        → handle.load_error ≡ some message
        → handle.metadata.name ≡ config.model_name
        → Loaded handle

  length-build :
      (count index : ℕ) (error : String) (executors : List ModelMetadata)
      → build outside config count index error ≡ done executors
      → length executors ≡ count
  unfolding build go_on
  length-build zero index error executors e = grind arith
  length-build (suc count) index error executors e =
      go (λ e' rest b. length-build count (suc index) e' rest b)
        (outside.factory config index error) e
    where
      go :
          ((error : String) (rest : List ModelMetadata)
            → build outside config count (suc index) error ≡ done rest
            → length rest ≡ count)
          → (made : Made) → go_on made (build outside config count (suc index)) ≡ done executors
          → length executors ≡ suc count
      go ih (null error') e' = grind arith
      go ih (threw what) e' = grind arith
      go ih (executor m error') e' =
          let (rest, b, split) = also-done m (build outside config count (suc index) error') e' in
          rw split (ap suc (ih error' rest b))

  mark_load_failed-Loaded :
      (handle : ModelHandle) (message : String)
      → handle.state.state ≡ loading
      → Loaded (mark_load_failed handle config message)
  unfolding mark_load_failed
  mark_load_failed-Loaded handle message h = down message (failed_of handle.state h) refl refl refl

  serve-Loaded :
      (handle : ModelHandle) (executors : List ModelMetadata) (result : Launch)
      → build outside config config.instances 0 "" ≡ done executors
      → launch outside config executors ≡ result
      → handle.state.state ≡ loading
      → handle.load_error ≡ none
      → handle.name ≡ handle.metadata.name
      → Loaded (serve outside handle config result)
  unfolding serve
  serve-Loaded handle executors (launched s) b l h none_yet same =
      up executors s b (length-build config.instances 0 "" executors b) l (ready_of handle.state h)
        refl none_yet same
  serve-Loaded handle executors (launch_threw what) b l h none_yet same =
      mark_load_failed-Loaded handle (caught what) h

  load_built-Loaded :
      (handle : ModelHandle) (version : Option String) (building : Building)
      → build outside config config.instances 0 "" ≡ building
      → handle.state.state ≡ loading
      → handle.load_error ≡ none
      → Loaded (load_built outside handle config version building)
  unfolding load_built describe
  load_built-Loaded handle version (no_executor error) b h e = mark_load_failed-Loaded handle _ h
  load_built-Loaded handle version (broken what) b h e = mark_load_failed-Loaded handle _ h
  load_built-Loaded handle version (done []) b h e = mark_load_failed-Loaded handle _ h
  load_built-Loaded handle version (done (m ∷ ms)) b h e =
      serve-Loaded (describe handle m version) (m ∷ ms) _ b refl h e refl

  -- A load of an unloaded handle ends in one of two ways, whatever the factory and the schedulers'
  -- constructors do, exceptions included: with the handle Ready on the scheduler launched on as
  -- many executors as instances are configured, or with the handle Failed, without a scheduler,
  -- and with a message.
  pub load-Loaded :
      (handle : ModelHandle) (version_override : Option String)
      → handle.state.state ≡ unloaded
      → Loaded (load outside handle config version_override)
  unfolding load starting
  load-Loaded handle version h = simp h (
      load_built-Loaded (starting outside handle config version) version _ refl
        (loading_of handle.state h) refl)

-- A handle that was loaded at a pinned version failed, or publishes this version alone.
abbrev pub Pins : String → ModelHandle → Type 0
Pins version h = (h.state.state ≡ failed) ⊎ (h.metadata.versions ≡ version ∷ [])

module _ (outside : Outside) (config : RuntimeConfig) where
  mark_load_failed-Pins :
      (version : String) (handle : ModelHandle) (message : String)
      → handle.state.state ≡ loading
      → Pins version (mark_load_failed handle config message)
  unfolding mark_load_failed
  mark_load_failed-Pins version handle message h = inl (failed_of handle.state h)

  serve-Pins :
      (version : String) (handle : ModelHandle) (result : Launch)
      → handle.state.state ≡ loading
      → handle.metadata.versions ≡ version ∷ []
      → Pins version (serve outside handle config result)
  unfolding serve
  serve-Pins version handle (launched s) h e = inr e
  serve-Pins version handle (launch_threw what) h e =
      mark_load_failed-Pins version handle (caught what) h

  load_built-Pins :
      (version : String) (handle : ModelHandle) (building : Building)
      → handle.state.state ≡ loading
      → Pins version (load_built outside handle config (some version) building)
  unfolding load_built describe pinned
  load_built-Pins version handle (no_executor error) h =
      mark_load_failed-Pins version handle
        (if str_eq error "" then "failed to create executor" else error) h
  load_built-Pins version handle (broken what) h =
      mark_load_failed-Pins version handle (caught what) h
  load_built-Pins version handle (done []) h =
      mark_load_failed-Pins version handle "no executor instances configured" h
  load_built-Pins version handle (done (m ∷ ms)) h =
      serve-Pins version (describe handle m (some version)) (launch outside config (m ∷ ms)) h refl

  pub load-Pins :
      (handle : ModelHandle) (version : String)
      → handle.state.state ≡ unloaded
      → Pins version (load outside handle config (some version))
  unfolding load starting
  load-Pins handle version h = simp h (
      load_built-Pins version (starting outside handle config (some version))
        (build outside config config.instances 0 "") (loading_of handle.state h))
