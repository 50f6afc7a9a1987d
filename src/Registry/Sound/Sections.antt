-- ===== src/Registry/Sound/Sections.antt =====
-- src/ModelRegistry.cpp: each critical section leaves every slot sound.
use neuriplo_kserve_runtime.Prelude.{
  String, Bool, true, not, ◌&&◌, ◌||◌, Option, none, some, ◌≡◌, refl, sym, subst, if_both, inl, inr,
  put-Entries,
}
use neuriplo_kserve_runtime.ModelState.{loading, failed, state_eq}
use neuriplo_kserve_runtime.Lifecycle
use neuriplo_kserve_runtime.Lifecycle.{
  ModelHandle, RuntimeConfig, Outside, Outcome, new_handle, load, finish_reload, begin_reload,
}
use neuriplo_kserve_runtime.Lifecycle.Reload.{
  Consistent, begin_drain-Consistent, begin_reload-Consistent, begin_reload_idle,
  begin_reload_refused,
}
use neuriplo_kserve_runtime.Registry.State.{
  Slot, Registry, find_slot, set_slot, publish_snapshot, retire_scheduler, stop,
}
use neuriplo_kserve_runtime.Registry.Operations.{
  Begun, load_begin_at, load_begin, load_finish_at, load_finish, abandon_at, abandon, is_none,
  begin_build, reload_begin_at, replaced_slot, reload_finish_at, reload_finish, switch_begin_at,
  switch_begin, switched_slot, switch_finish_at, switch_finish, begin_drain_at, begin_drain,
  complete_unload_at, complete_unload, unload_begin_at, unload_begin,
}
use neuriplo_kserve_runtime.Registry.Sound.{
  Sound, AllSound, Built, stop-AllSound, retire_snapshot-AllSound, set_slot-AllSound, found-Sound,
  placeholder-Sound, abandoned-Sound, replaced_slot-Sound, switched_slot-Sound, erase-AllSound,
}

pub begin_build-AllSound :
    (name : String) (slot : Slot) (r : Registry)
    → Sound slot
    → AllSound r
    → AllSound (begin_build name slot (begin_reload slot.handle) r).0
unfolding begin_build
begin_build-AllSound name slot r s h =
    let begun = begin_reload slot.handle in
    if_both (λ (x : Registry × Begun). AllSound x.0) begun.accepted
      (λ accepted.
        stop-AllSound begun.stopped
          (set_slot name (record slot { handle = begun.handle; reload_pending = true }) r)
          (put-Entries Sound name _ r.models
            (record {
              consistent = begin_reload-Consistent slot.handle s.consistent;
              published = inl refl;
              settled = inr (begin_reload_idle slot.handle accepted);
            })
            h))
      (λ refused.
        stop-AllSound begun.stopped (set_slot name (record slot { handle = begun.handle }) r) (
          put-Entries Sound name _ r.models
            (subst (λ h'. Sound (record slot { handle = h' }))
              (sym (begin_reload_refused slot.handle refused)) s)
            h))

pub load_begin-AllSound :
    (config : RuntimeConfig) (r : Registry) → AllSound r → AllSound (load_begin config r).0
unfolding load_begin load_begin_at
load_begin-AllSound config r h = go (find_slot r config.model_name)
  where
    go : (found : Option Slot) → AllSound (load_begin_at found config r).0
    go none = put-Entries Sound config.model_name _ r.models (placeholder-Sound config) h
    go (some slot) =
        if_both (λ (x : Registry × Begun). AllSound x.0)
          (not (state_eq slot.handle.state.state loading)) (λ _. h) (λ _. h)

pub load_finish-AllSound :
    (config : RuntimeConfig) (built : ModelHandle) (r : Registry)
    → Built built
    → AllSound r
    → AllSound (load_finish config built r).0
unfolding load_finish load_finish_at publish_snapshot
load_finish-AllSound config built r (c, i) h = go (find_slot r config.model_name)
  where
    go : (found : Option Slot) → AllSound (load_finish_at found config built r).0
    go none = h
    go (some slot) =
        put-Entries Sound config.model_name _ r.models
          (record { consistent = c; published = inr refl; settled = inr i }) h

pub abandon-AllSound : (name : String) (r : Registry) → AllSound r → AllSound (abandon name r)
unfolding abandon abandon_at
abandon-AllSound name r h = go (find_slot r name) refl
  where
    go : (found : Option Slot) → find_slot r name ≡ found → AllSound (abandon_at found name r)
    go none e = h
    go (some slot) e =
        put-Entries Sound name _ r.models (abandoned-Sound slot (found-Sound name r h e)) h

pub reload_begin_at-AllSound :
    (found : Option Slot) (name : String) (r : Registry)
    → find_slot r name ≡ found
    → AllSound r
    → AllSound (reload_begin_at found name r).0
unfolding reload_begin_at
reload_begin_at-AllSound none name r e h = h
reload_begin_at-AllSound (some slot) name r e h =
    if_both (λ (x : Registry × Begun). AllSound x.0)
      (state_eq slot.handle.state.state loading && not slot.reload_pending) (λ _. h)
      (λ _.
        if_both (λ (x : Registry × Begun). AllSound x.0) slot.reload_pending (λ _. h)
          (λ _. begin_build-AllSound name slot r (found-Sound name r h e) h))

pub switch_begin-AllSound :
    (name version : String) (r : Registry) → AllSound r → AllSound (switch_begin name version r).0
unfolding switch_begin switch_begin_at
switch_begin-AllSound name version r h = go (find_slot r name) refl
  where
    go :
        (found : Option Slot)
        → find_slot r name ≡ found
        → AllSound (switch_begin_at found name version r).0
    go none e = h
    go (some slot) e =
        if_both (λ (x : Registry × Begun). AllSound x.0) _ (λ _. h)
          (λ _. reload_begin_at-AllSound (some slot) name r e h)

abbrev Answered : Registry × Bool → Type 0
Answered x = AllSound x.0

pub reload_finish-AllSound :
    (name : String) (config : RuntimeConfig) (next : ModelHandle) (r : Registry)
    → Consistent next
    → AllSound r
    → AllSound (reload_finish name config next r).0
unfolding reload_finish reload_finish_at
reload_finish-AllSound name config next r c h = go (find_slot r name) refl
  where
    go :
        (found : Option Slot)
        → find_slot r name ≡ found
        → AllSound (reload_finish_at found name config next r).0
    go none e = h
    go (some slot) e =
        let slot' = replaced_slot slot config (finish_reload slot.handle next) in
        let kept =
          set_slot-AllSound name slot' r
            (replaced_slot-Sound slot config next (found-Sound name r h e) c) h in
        if_both Answered (not (finish_reload slot.handle next).1) (λ _. kept)
          (λ _. retire_snapshot-AllSound slot.active_snapshot (set_slot name slot' r) kept)

pub switch_finish-AllSound :
    (name : String) (config : RuntimeConfig) (next : ModelHandle) (r : Registry)
    → Consistent next
    → AllSound r
    → AllSound (switch_finish name config next r).0
unfolding switch_finish switch_finish_at
switch_finish-AllSound name config next r c h = go (find_slot r name) refl
  where
    go :
        (found : Option Slot)
        → find_slot r name ≡ found
        → AllSound (switch_finish_at found name config next r).0
    go none e = h
    go (some slot) e =
        let finished = finish_reload slot.handle next in
        let s = found-Sound name r h e in
        if_both Answered (not finished.1)
          (λ _.
            set_slot-AllSound name (replaced_slot slot config finished) r
              (replaced_slot-Sound slot config next s c) h)
          (λ _.
            retire_snapshot-AllSound slot.active_snapshot
              (set_slot name (switched_slot slot config finished) r)
              (set_slot-AllSound name (switched_slot slot config finished) r
                (switched_slot-Sound slot config next s c) h))

pub begin_drain-AllSound :
    (name : String) (r : Registry) → AllSound r → AllSound (begin_drain name r).0
unfolding begin_drain begin_drain_at publish_snapshot
begin_drain-AllSound name r h = go (find_slot r name) refl
  where
    go : (found : Option Slot) → find_slot r name ≡ found → AllSound (begin_drain_at found name r).0
    go none e = h
    go (some slot) e =
        let drained = Lifecycle.begin_drain slot.handle in
        if_both Answered slot.reload_pending (λ _. h)
          (λ idle.
            if_both Answered drained.accepted
              (λ _.
                stop-AllSound drained.stopped
                  (set_slot name (publish_snapshot (record slot { handle = drained.handle })) r)
                  (put-Entries Sound name _ r.models
                    (record {
                      consistent =
                          begin_drain-Consistent slot.handle (found-Sound name r h e).consistent;
                      published = inr refl;
                      settled = inl idle;
                    })
                    h))
              (λ _. h))

pub complete_unload-AllSound :
    (name : String) (r : Registry) → AllSound r → AllSound (complete_unload name r).0
unfolding complete_unload complete_unload_at retire_scheduler
complete_unload-AllSound name r h = go (find_slot r name)
  where
    go : (found : Option Slot) → AllSound (complete_unload_at found name r).0
    go none = h
    go (some slot) =
        let done = Lifecycle.complete_unload slot.handle in
        if_both Answered done.accepted
          (λ _.
            erase-AllSound name (retire_scheduler done.stopped (stop done.stopped r))
              (stop-AllSound done.stopped r h))
          (λ _. h)

pub unload_begin-AllSound :
    (name : String) (r : Registry) → AllSound r → AllSound (unload_begin name r).0
unfolding unload_begin unload_begin_at
unload_begin-AllSound name r h = go (find_slot r name)
  where
    Fine : Registry × Option Bool → Type 0
    Fine x = AllSound x.0

    go : (found : Option Slot) → AllSound (unload_begin_at found name r).0
    go none = h
    go (some slot) =
        if_both Fine (slot.reload_pending || state_eq slot.handle.state.state loading) (λ _. h)
          (λ _.
            if_both Fine (state_eq slot.handle.state.state failed && is_none slot.handle.scheduler)
              (λ _. erase-AllSound name r h) (λ _. h))
