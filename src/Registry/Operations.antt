-- ===== src/Registry/Operations.antt =====
-- src/ModelRegistry.cpp: load, reload, switch of the version, drain and unload, each by its critical
-- sections. What is built between them is an argument of the second one.
use neuriplo_kserve_runtime.Prelude.{
  ℕ, String, Bool, true, false, not, ◌&&◌, ◌||◌, List, [], Option, none, some, if◌then◌else◌, Map,
  put, without, str_eq,
}
use neuriplo_kserve_runtime.ModelState.{loading, failed, machine, state_eq, start_load, mark_failed}
use neuriplo_kserve_runtime.Lifecycle
use neuriplo_kserve_runtime.Lifecycle.{
  ModelHandle, RuntimeConfig, Outcome, new_handle, finish_reload, begin_reload,
}
use neuriplo_kserve_runtime.Registry.State.{
  InferSnapshot, Slot, Registry, find_slot, set_slot, publish_snapshot, retire_scheduler,
  retire_snapshot, stop, is_ready, handle_is_ready, version_from_snapshot,
}

-- How the first critical section of a load, of a reload or of a switch ends: with the caller's
-- answer; with a wait for another build of this name, a first load (which the caller joins) or a
-- reload (behind which the caller starts again); or with a build that this caller makes.
pub data Begun : Type 0 where
  answered : Bool → Begun
  joins : Begun
  waits : Begun
  builds : Begun

abbrev pub is_none {ℓ} : {A : Type ℓ} → Option A → Bool
is_none none = true
is_none (some _) = false

-- The version that a configuration pins.
unfoldable pub version_override : RuntimeConfig → Option String
version_override config =
    if config.model_version_explicit && not (str_eq config.model_version "")
    then some config.model_version
    else none

unfoldable pub placeholder : RuntimeConfig → Slot
unfolding publish_snapshot
placeholder config = publish_snapshot (record {
  handle = record new_handle { name = config.model_name; state = (start_load machine).0 };
  config = config;
  active_snapshot = none;
  version_snapshots = [];
  reload_pending = false;
})

unfoldable pub load_begin_at : Option Slot → RuntimeConfig → Registry → Registry × Begun
unfolding placeholder
load_begin_at (some slot) config r =
    if not (state_eq slot.handle.state.state loading) then (r, answered false) else (r, joins)
load_begin_at none config r = (set_slot config.model_name (placeholder config) r, builds)

unfoldable pub load_begin : RuntimeConfig → Registry → Registry × Begun
unfolding load_begin_at
load_begin config r = load_begin_at (find_slot r config.model_name) config r

-- The answer to a caller that joined a first load; none while that is not over.
unfoldable pub joined : Option Slot → Registry → Option Bool
joined none r = some false
joined (some slot) r =
    if state_eq slot.handle.state.state loading
    then none
    else some (handle_is_ready r.stopped slot.handle)

unfoldable pub load_finish_at :
    Option Slot → RuntimeConfig → ModelHandle → Registry → Registry × Bool
unfolding publish_snapshot
load_finish_at none config built r = (r, false)
load_finish_at (some slot) config built r = (
  set_slot config.model_name (publish_snapshot (record slot { config = config; handle = built })) r,
  true,
)

unfoldable pub load_finish : RuntimeConfig → ModelHandle → Registry → Registry × Bool
unfolding load_finish_at
load_finish config built r = load_finish_at (find_slot r config.model_name) config built r

-- The destructor of a guard that was not committed: an exception ended the build.
unfoldable pub abandoned : Slot → Slot
unfolding publish_snapshot
abandoned slot =
    if state_eq slot.handle.state.state loading && not slot.reload_pending
    then publish_snapshot (record slot {
      handle = record h {
        state = (mark_failed h.state).0;
        load_error = some "executor build threw";
      };
    })
    else if slot.reload_pending
    then publish_snapshot (record slot {
      reload_pending = false;
      handle = record h { load_error = some "executor build threw" };
    })
    else slot
  where
    h : ModelHandle
    h = slot.handle

unfoldable pub abandon_at : Option Slot → String → Registry → Registry
unfolding abandoned
abandon_at none name r = r
abandon_at (some slot) name r = set_slot name (abandoned slot) r

unfoldable pub abandon : String → Registry → Registry
unfolding abandon_at
abandon name r = abandon_at (find_slot r name) name r

-- The end of the first section of a reload, and of a switch.
unfoldable pub begin_build : String → Slot → Outcome → Registry → Registry × Begun
begin_build name slot begun r =
    if begun.accepted
    then (
      stop begun.stopped
          (set_slot name (record slot { handle = begun.handle; reload_pending = true }) r),
      builds,
    )
    else (
      stop begun.stopped (set_slot name (record slot { handle = begun.handle }) r),
      answered false,
    )

unfoldable pub reload_begin_at : Option Slot → String → Registry → Registry × Begun
unfolding begin_build
reload_begin_at none name r = (r, answered false)
reload_begin_at (some slot) name r =
    if state_eq slot.handle.state.state loading && not slot.reload_pending
    then (r, joins)
    else if slot.reload_pending
    then (r, waits)
    else begin_build name slot (begin_reload slot.handle) r

unfoldable pub reload_begin : String → Registry → Registry × Begun
unfolding reload_begin_at
reload_begin name r = reload_begin_at (find_slot r name) name r

-- The slot behind a build that came up, or did not.
unfoldable pub replaced_slot : Slot → RuntimeConfig → ModelHandle × Bool → Slot
unfolding publish_snapshot
replaced_slot slot config (handle, success) = publish_snapshot (record slot {
  reload_pending = false;
  handle = handle;
  config = if success then config else slot.config;
})

unfoldable pub reload_finish_at :
    Option Slot → String → RuntimeConfig → ModelHandle → Registry → Registry × Bool
unfolding replaced_slot
reload_finish_at none name config next r = (r, false)
reload_finish_at (some slot) name config next r =
    let finished = finish_reload slot.handle next in
    let r' = set_slot name (replaced_slot slot config finished) r in
    if not finished.1
    then (r', false)
    else (retire_snapshot slot.active_snapshot r', handle_is_ready r.stopped finished.0)

unfoldable pub reload_finish : String → RuntimeConfig → ModelHandle → Registry → Registry × Bool
unfolding reload_finish_at
reload_finish name config next r = reload_finish_at (find_slot r name) name config next r

-- `old_snapshot && old_snapshot->isReady()`
abbrev pub snapshot_is_ready : List ℕ → Option InferSnapshot → Bool
snapshot_is_ready stopped none = false
snapshot_is_ready stopped (some s) = is_ready stopped s

unfoldable pub switch_begin_at : Option Slot → String → String → Registry → Registry × Begun
unfolding reload_begin_at
switch_begin_at none name version r = (r, answered false)
switch_begin_at (some slot) name version r =
    if str_eq (version_from_snapshot slot.active_snapshot) version
      && snapshot_is_ready r.stopped slot.active_snapshot
    then (r, answered true)
    else reload_begin_at (some slot) name r

unfoldable pub switch_begin : String → String → Registry → Registry × Begun
unfolding switch_begin_at
switch_begin name version r = switch_begin_at (find_slot r name) name version r

unfoldable pub version_config : String → String → RuntimeConfig → RuntimeConfig
version_config name version config = record config { model_name = name; model_version = version }

-- `version_snapshots[version] = snapshot`, where there are both.
unfoldable pub keep_version : Option InferSnapshot → Map InferSnapshot → Map InferSnapshot
keep_version none m = m
keep_version (some s) m =
    let version = version_from_snapshot (some s) in if str_eq version "" then m else put version s m

unfoldable pub switched_slot : Slot → RuntimeConfig → ModelHandle × Bool → Slot
unfolding replaced_slot keep_version
switched_slot slot config finished =
    let slot' = replaced_slot slot config finished in
    record slot' {
      version_snapshots =
          keep_version slot'.active_snapshot
            (keep_version slot.active_snapshot slot.version_snapshots);
    }

unfoldable pub switch_finish_at :
    Option Slot → String → RuntimeConfig → ModelHandle → Registry → Registry × Bool
unfolding replaced_slot switched_slot
switch_finish_at none name config next r = (r, false)
switch_finish_at (some slot) name config next r =
    let finished = finish_reload slot.handle next in
    if not finished.1 then (set_slot name (replaced_slot slot config finished) r, false) else (
      retire_snapshot slot.active_snapshot (set_slot name (switched_slot slot config finished) r),
      handle_is_ready r.stopped finished.0,
    )

-- `config` is the `version_config` of the caller's.
unfoldable pub switch_finish : String → RuntimeConfig → ModelHandle → Registry → Registry × Bool
unfolding switch_finish_at
switch_finish name config next r = switch_finish_at (find_slot r name) name config next r

unfoldable pub begin_drain_at : Option Slot → String → Registry → Registry × Bool
unfolding publish_snapshot
begin_drain_at none name r = (r, false)
begin_drain_at (some slot) name r =
    let drained = Lifecycle.begin_drain slot.handle in
    if slot.reload_pending
    then (r, false)
    else if drained.accepted
    then (
      stop drained.stopped
          (set_slot name (publish_snapshot (record slot { handle = drained.handle })) r),
      true,
    )
    else (r, false)

unfoldable pub begin_drain : String → Registry → Registry × Bool
unfolding begin_drain_at
begin_drain name r = begin_drain_at (find_slot r name) name r

unfoldable pub erase : String → Registry → Registry
erase name r = record r { models = without name r.models }

unfoldable pub complete_unload_at : Option Slot → String → Registry → Registry × Bool
unfolding erase
complete_unload_at none name r = (r, false)
complete_unload_at (some slot) name r =
    let unloaded_slot = Lifecycle.complete_unload slot.handle in
    if unloaded_slot.accepted
    then (erase name (retire_scheduler unloaded_slot.stopped (stop unloaded_slot.stopped r)), true)
    else (r, false)

unfoldable pub complete_unload : String → Registry → Registry × Bool
unfolding complete_unload_at
complete_unload name r = complete_unload_at (find_slot r name) name r

-- The first critical section of an unload: an answer, or the way to the drain.
unfoldable pub unload_begin_at : Option Slot → String → Registry → Registry × Option Bool
unfolding erase
unload_begin_at none name r = (r, some false)
unload_begin_at (some slot) name r =
    if slot.reload_pending || state_eq slot.handle.state.state loading
    then (r, some false)
    else if state_eq slot.handle.state.state failed && is_none slot.handle.scheduler
    then (erase name r, some true)
    else (r, none)

unfoldable pub unload_begin : String → Registry → Registry × Option Bool
unfolding unload_begin_at
unload_begin name r = unload_begin_at (find_slot r name) name r

-- The three critical sections of `unloadModel`, with no other thread's in between.
unfoldable pub unload_model : String → Registry → Registry × Bool
unfolding unload_begin begin_drain complete_unload
unload_model name r = elim (unload_begin name r).1 [
  | some answer ↦ ((unload_begin name r).0, answer)
  | none ↦
      if (begin_drain name (unload_begin name r).0).1
      then complete_unload name (begin_drain name (unload_begin name r).0).0
      else ((begin_drain name (unload_begin name r).0).0, false)
]
