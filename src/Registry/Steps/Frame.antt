-- ===== src/Registry/Steps/Frame.antt =====
-- src/ModelRegistry.cpp: a critical section for one model touches that model's slot alone.
use neuriplo_kserve_runtime.Prelude.{
  ℕ, String, Bool, true, false, not, ◌&&◌, ◌||◌, Option, none, some, ◌≡◌, refl, if_both, Map,
  lookup, put, without, lookup-put, lookup-without, str_eq,
}
use neuriplo_kserve_runtime.ModelState.{state_eq, loading, failed}
use neuriplo_kserve_runtime.Lifecycle
use neuriplo_kserve_runtime.Lifecycle.{
  ModelHandle, RuntimeConfig, Outside, finish_reload, begin_reload,
}
use neuriplo_kserve_runtime.Registry.State.{
  InferSnapshot, Slot, Registry, set_slot, publish_snapshot, retire_scheduler, retire_snapshot,
  stop,
}
use neuriplo_kserve_runtime.Registry.Operations.{
  Begun, is_none, placeholder, load_begin_at, load_finish_at, abandoned, abandon_at, begin_build,
  reload_begin_at, replaced_slot, reload_finish_at, switch_begin_at, switched_slot,
  switch_finish_at, begin_drain_at, erase, complete_unload_at, unload_begin_at,
}

-- The models of a registry behind a step that touches at most the entry of `name`.
pub data Touched (name : String) (ms : Map Slot) : Map Slot → Type 0 where
  same : Touched name ms ms
  written : (slot : Slot) → Touched name ms (put name slot ms)
  erased : Touched name ms (without name ms)

pub Touched-frame :
    (name other : String) {ms ns : Map Slot}
    → str_eq name other ≡ false
    → Touched name ms ns
    → lookup other ns ≡ lookup other ms
Touched-frame name other apart same = refl
Touched-frame name other {ms} apart (written slot) = rw (lookup-put other name slot ms, apart) refl
Touched-frame name other {ms} apart erased = rw (lookup-without other name ms, apart) refl

abbrev pub Touches : String → Registry → Registry → Type 0
Touches name r r' = Touched name r.models r'.models

pub stop-Touches :
    (name : String) (r : Registry) (o : Option ℕ) (r' : Registry)
    → Touches name r r'
    → Touches name r (stop o r')
stop-Touches name r none r' t = t
stop-Touches name r (some s) r' t = t

pub retire_snapshot-Touches :
    (name : String) (r : Registry) (o : Option InferSnapshot) (r' : Registry)
    → Touches name r r'
    → Touches name r (retire_snapshot o r')
unfolding retire_snapshot retire_scheduler
retire_snapshot-Touches name r none r' t = t
retire_snapshot-Touches name r (some s) r' t = t

pub begin_build-Touches :
    (name : String) (slot : Slot) (r : Registry)
    → Touches name r (begin_build name slot (begin_reload slot.handle) r).0
unfolding begin_build
begin_build-Touches name slot r =
    let begun = begin_reload slot.handle in
    if_both (λ (x : Registry × Begun). Touches name r x.0) begun.accepted
      (λ _.
        stop-Touches name r begun.stopped _
          (written (record slot { handle = begun.handle; reload_pending = true })))
      (λ _. stop-Touches name r begun.stopped _ (written (record slot { handle = begun.handle })))

pub load_begin_at-Touches :
    (found : Option Slot) (config : RuntimeConfig) (r : Registry)
    → Touches config.model_name r (load_begin_at found config r).0
unfolding load_begin_at
load_begin_at-Touches none config r = written (placeholder config)
load_begin_at-Touches (some slot) config r =
    if_both (λ (x : Registry × Begun). Touches config.model_name r x.0)
      (not (state_eq slot.handle.state.state loading)) (λ _. same) (λ _. same)

pub load_finish_at-Touches :
    (found : Option Slot) (config : RuntimeConfig) (built : ModelHandle) (r : Registry)
    → Touches config.model_name r (load_finish_at found config built r).0
unfolding load_finish_at
load_finish_at-Touches none config built r = same
load_finish_at-Touches (some slot) config built r = written _

pub abandon_at-Touches :
    (found : Option Slot) (name : String) (r : Registry) → Touches name r (abandon_at found name r)
unfolding abandon_at
abandon_at-Touches none name r = same
abandon_at-Touches (some slot) name r = written (abandoned slot)

pub reload_begin_at-Touches :
    (found : Option Slot) (name : String) (r : Registry)
    → Touches name r (reload_begin_at found name r).0
unfolding reload_begin_at
reload_begin_at-Touches none name r = same
reload_begin_at-Touches (some slot) name r =
    if_both (λ (x : Registry × Begun). Touches name r x.0)
      (state_eq slot.handle.state.state loading && not slot.reload_pending) (λ _. same)
      (λ _.
        if_both (λ (x : Registry × Begun). Touches name r x.0) slot.reload_pending (λ _. same)
          (λ _. begin_build-Touches name slot r))

pub reload_finish_at-Touches :
    (found : Option Slot) (name : String) (config : RuntimeConfig) (next : ModelHandle)
    (r : Registry)
    → Touches name r (reload_finish_at found name config next r).0
unfolding reload_finish_at
reload_finish_at-Touches none name config next r = same
reload_finish_at-Touches (some slot) name config next r =
    let slot' = replaced_slot slot config (finish_reload slot.handle next) in
    if_both (λ (x : Registry × Bool). Touches name r x.0) (not (finish_reload slot.handle next).1)
      (λ _. written slot')
      (λ _.
        retire_snapshot-Touches name r slot.active_snapshot (set_slot name slot' r) (written slot'))

pub switch_begin_at-Touches :
    (found : Option Slot) (name version : String) (r : Registry)
    → Touches name r (switch_begin_at found name version r).0
unfolding switch_begin_at
switch_begin_at-Touches none name version r = same
switch_begin_at-Touches (some slot) name version r =
    if_both (λ (x : Registry × Begun). Touches name r x.0) _ (λ _. same)
      (λ _. reload_begin_at-Touches (some slot) name r)

pub switch_finish_at-Touches :
    (found : Option Slot) (name : String) (config : RuntimeConfig) (next : ModelHandle)
    (r : Registry)
    → Touches name r (switch_finish_at found name config next r).0
unfolding switch_finish_at
switch_finish_at-Touches none name config next r = same
switch_finish_at-Touches (some slot) name config next r =
    let finished = finish_reload slot.handle next in
    if_both (λ (x : Registry × Bool). Touches name r x.0) (not finished.1) (λ _. written _)
      (λ _.
        retire_snapshot-Touches name r slot.active_snapshot
          (set_slot name (switched_slot slot config finished) r)
          (written (switched_slot slot config finished)))

pub begin_drain_at-Touches :
    (found : Option Slot) (name : String) (r : Registry)
    → Touches name r (begin_drain_at found name r).0
unfolding begin_drain_at
begin_drain_at-Touches none name r = same
begin_drain_at-Touches (some slot) name r =
    let drained = Lifecycle.begin_drain slot.handle in
    if_both (λ (x : Registry × Bool). Touches name r x.0) slot.reload_pending (λ _. same)
      (λ _.
        if_both (λ (x : Registry × Bool). Touches name r x.0) drained.accepted
          (λ _.
            stop-Touches name r drained.stopped _
              (written (publish_snapshot (record slot { handle = drained.handle }))))
          (λ _. same))

retire_stop_models :
    (o : Option ℕ) (r : Registry) → (retire_scheduler o (stop o r)).models ≡ r.models
unfolding retire_scheduler
retire_stop_models none r = refl
retire_stop_models (some s) r = refl

pub complete_unload_at-Touches :
    (found : Option Slot) (name : String) (r : Registry)
    → Touches name r (complete_unload_at found name r).0
unfolding complete_unload_at erase
complete_unload_at-Touches none name r = same
complete_unload_at-Touches (some slot) name r =
    let done = Lifecycle.complete_unload slot.handle in
    if_both (λ (x : Registry × Bool). Touches name r x.0) done.accepted
      (λ _. rw (retire_stop_models done.stopped r) erased) (λ _. same)

pub unload_begin_at-Touches :
    (found : Option Slot) (name : String) (r : Registry)
    → Touches name r (unload_begin_at found name r).0
unfolding unload_begin_at erase
unload_begin_at-Touches none name r = same
unload_begin_at-Touches (some slot) name r =
    if_both Fine (slot.reload_pending || state_eq slot.handle.state.state loading) (λ _. same)
      (λ _.
        if_both Fine (state_eq slot.handle.state.state failed && is_none slot.handle.scheduler)
          (λ _. erased) (λ _. same))
  where
    Fine : Registry × Option Bool → Type 0
    Fine x = Touches name r x.0
