-- ===== src/Lifecycle.antt =====
-- src/ModelLifecycle.cpp, src/ModelHandle.hpp and src/ModelMetadata.hpp: a model is loaded, drained,
-- unloaded and reloaded.
--
-- A scheduler is a shared object, named by a number; `stopAccepting` is recorded by listing the
-- schedulers that it was called on. What the factory makes at each call, whether a scheduler's
-- constructor throws, the scheduler that it makes and the registry's kind of a backend are
-- parameters.
mod Handle
pub mod Load
pub mod Reload
pub mod Sample
mod Examples
pub use Handle.*
use neuriplo_kserve_runtime.Prelude.{
  ℕ, zero, suc, String, Bool, true, false, not, List, [], ◌∷◌, Option, none, some, if◌then◌else◌,
  str_eq,
}
use neuriplo_kserve_runtime.ModelState.{
  State, unloaded, loading, ready, failed, unavailable, unloading, Machine, machine, state_eq,
  start_load, mark_ready, mark_failed, reset, begin_unload,
}
use Prim.Native.String.{◌++◌}
use neuriplo_kserve_runtime.ModelState
use neuriplo_kserve_runtime.Scheduler.World.{Config}

unfoldable pub mark_load_failed : ModelHandle → RuntimeConfig → String → ModelHandle
unfolding mark_failed
mark_load_failed handle config message = record handle {
  state = (mark_failed handle.state).0;
  load_error = some message;
  metadata = record meta {
    name = config.model_name;
    versions = handle.versions;
    platform = "neuriplo_" ++ config.backend;
  };
  scheduler = none;
}
  where
    meta : ModelMetadata
    meta = handle.metadata

-- What the code outside makes: an executor with its metadata, a null pointer, or an exception with
-- a text or without one; the first two leave a text in the error variable.
pub data Made : Type 0 where
  executor : ModelMetadata → String → Made
  null : String → Made
  threw : Option String → Made

pub data Launch : Type 0 where
  launched : ℕ → Launch
  launch_threw : Option String → Launch

pub record Outside : Type 0 where
  pub backend_is_llm : String → Bool
  pub factory : RuntimeConfig → ℕ → String → Made
  pub make_llm_scheduler : LlmSchedulerConfig → List ModelMetadata → String → Launch
  pub make_model_scheduler : Config → List ModelMetadata → String → Launch

-- The executors built, by their metadata, or why there are none.
pub data Building : Type 0 where
  done : List ModelMetadata → Building
  no_executor : String → Building
  broken : Option String → Building

unfoldable pub also : ModelMetadata → Building → Building
also m (done ms) = done (m ∷ ms)
also m (no_executor error) = no_executor error
also m (broken what) = broken what

-- One round of the loop over the instances, with the rounds behind it.
unfoldable pub go_on : Made → (String → Building) → Building
unfolding also
go_on (executor metadata error) rest = also metadata (rest error)
go_on (null error) rest = no_executor error
go_on (threw what) rest = broken what

-- The message of a `catch` block.
unfoldable pub caught : Option String → String
caught (some what) = what
caught none = "executor build threw"

-- What an operation returns; `stopped` is the scheduler whose `stopAccepting` it called.
pub record Outcome : Type 0 where
  pub handle : ModelHandle
  pub accepted : Bool
  pub stopped : Option ℕ

abbrev pub outcome : ModelHandle → Bool → Option ℕ → Outcome
outcome handle accepted stopped = record { handle = handle; accepted = accepted; stopped = stopped }

unfoldable pub begin_drain : ModelHandle → Outcome
unfolding begin_unload
begin_drain handle = elim handle.scheduler [
  | none ↦ outcome handle false none
  | some scheduler ↦
      outcome
        (if state_eq handle.state.state ready
          then record handle { state = (begin_unload handle.state).0 }
          else handle)
        true (some scheduler)
]

-- The retired scheduler that a caller asks for is the one that was stopped.
unfoldable pub complete_unload : ModelHandle → Outcome
complete_unload handle =
    if not (state_eq handle.state.state unloading)
    then outcome handle false none
    else outcome
        (record handle {
          scheduler = none;
          metadata = no_metadata;
          versions = [];
          load_error = none;
          state = (ModelState.complete_unload handle.state).0;
        })
        (ModelState.complete_unload handle.state).1 handle.scheduler

-- The `switch` over the handle's state.
unfoldable pub begin_reload_in : State → ModelHandle → Outcome
unfolding complete_unload reset
begin_reload_in loading handle = outcome handle false none
begin_reload_in ready handle = outcome handle true none
begin_reload_in unloading handle = complete_unload handle
begin_reload_in failed handle = outcome (record handle { state = (reset handle.state).0 }) true none
begin_reload_in unavailable handle =
    outcome (record handle { state = (reset handle.state).0 }) true none
begin_reload_in unloaded handle = outcome handle true none

unfoldable pub begin_reload : ModelHandle → Outcome
unfolding begin_reload_in
begin_reload handle = begin_reload_in handle.state.state handle

-- A model that is not Ready comes up through Loading, from Unloaded.
unfoldable pub bring_up : Machine → Machine
bring_up m =
    if state_eq m.state ready
    then m
    else if state_eq m.state unloaded
    then (mark_ready (start_load m).0).0
    else (mark_ready (start_load (reset m).0).0).0

unfoldable pub finish_reload : ModelHandle → ModelHandle → ModelHandle × Bool
unfolding bring_up
finish_reload handle next =
    if not (state_eq next.state.state ready)
    then (
      record handle {
        load_error = next.load_error;
        state =
            if state_eq handle.state.state unloaded
            then (mark_failed (start_load handle.state).0).0
            else handle.state;
      },
      false,
    )
    else (
      record handle {
        name = next.name;
        versions = next.versions;
        metadata = next.metadata;
        scheduler = next.scheduler;
        load_error = none;
        state = bring_up handle.state;
      },
      true,
    )

-- The metadata that a handle takes from the first executor, with the version that is asked for.
unfoldable pub pinned : ModelMetadata → Option String → ModelMetadata
pinned metadata none = metadata
pinned metadata (some version) = record metadata { versions = version ∷ [] }

unfoldable pub describe : ModelHandle → ModelMetadata → Option String → ModelHandle
unfolding pinned
describe handle metadata version_override =
    let published = pinned metadata version_override in
    record handle { metadata = published; name = published.name; versions = published.versions }

module _ (outside : Outside) where
  -- The loop over the instances.
  unfoldable pub build : RuntimeConfig → ℕ → ℕ → String → Building
  unfolding go_on
  build config zero index error = done []
  build config (suc count) index error =
      go_on (outside.factory config index error) (build config count (suc index))

  unfoldable pub uses_llm_scheduler : String → String → Bool
  uses_llm_scheduler scheduler_strategy backend =
      if str_eq scheduler_strategy "llm"
      then true
      else if not (str_eq scheduler_strategy "tensor")
      then false
      else outside.backend_is_llm backend

  unfoldable pub launch : RuntimeConfig → List ModelMetadata → Launch
  unfolding uses_llm_scheduler
  launch config executors =
      if uses_llm_scheduler config.scheduler_strategy config.backend
      then outside.make_llm_scheduler (llm_scheduler_config config) executors config.model_name
      else outside.make_model_scheduler (scheduler_config config) executors config.model_name

  unfoldable pub serve : ModelHandle → RuntimeConfig → Launch → ModelHandle
  unfolding mark_load_failed caught
  serve handle config (launched scheduler) = record handle {
    scheduler = some scheduler;
    state = (mark_ready handle.state).0;
  }
  serve handle config (launch_threw what) = mark_load_failed handle config (caught what)

  unfoldable pub load_built : ModelHandle → RuntimeConfig → Option String → Building → ModelHandle
  unfolding mark_load_failed caught
  load_built handle config version_override (no_executor error) =
      mark_load_failed handle config
        (if str_eq error "" then "failed to create executor" else error)
  load_built handle config version_override (broken what) =
      mark_load_failed handle config (caught what)
  load_built handle config version_override (done []) =
      mark_load_failed handle config "no executor instances configured"
  load_built handle config version_override (done (m ∷ ms)) =
      serve (describe handle m version_override) config (launch config (m ∷ ms))

  unfoldable pub starting : ModelHandle → RuntimeConfig → Option String → ModelHandle
  starting handle config version_override = record handle {
    name = config.model_name;
    versions = elim version_override [ none ↦ "1" | some version ↦ version ] ∷ [];
    load_error = none;
    state = (start_load handle.state).0;
  }

  unfoldable pub load : ModelHandle → RuntimeConfig → Option String → ModelHandle
  unfolding load_built starting
  load handle config version_override =
      if not (state_eq handle.state.state unloaded)
      then handle
      else load_built (starting handle config version_override) config version_override
          (build config config.instances 0 "")

  unfoldable pub reload : ModelHandle → RuntimeConfig → Option String → Outcome
  unfolding begin_reload finish_reload load
  reload handle config version_override =
      let begun = begin_reload handle in
      if not begun.accepted
      then begun
      else (let (h, came_up) =
            finish_reload begun.handle (load new_handle config version_override) in
          outcome h came_up begun.stopped)
