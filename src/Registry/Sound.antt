-- ===== src/Registry/Sound.antt =====
-- src/ModelRegistry.cpp: what holds of every slot whenever the registry is unlocked.
pub mod Sections
use neuriplo_kserve_runtime.Prelude.{
  ℕ, String, Bool, true, false, not, ◌&&◌, ◌||◌, List, [], ◌∷◌, Option, none, some, ◌≡◌, refl, sym,
  ap, ◌∙◌, arith, subst, if◌then◌else◌, if_both, Option-cases, Bool-cases, inl, inr, ◌⊎◌, Map,
  lookup, put, without, Entries, lookup-Entries, put-Entries, without-Entries,
}
use neuriplo_kserve_runtime.ModelState.{
  State, ready, unloading, unloaded, loading, failed, machine, state_eq, start_load, mark_failed,
  transition_to, is_valid_transition, notify,
}
use neuriplo_kserve_runtime.Lifecycle
use neuriplo_kserve_runtime.Lifecycle.{
  ModelHandle, RuntimeConfig, Outside, Outcome, new_handle, load, finish_reload, begin_reload,
}
use neuriplo_kserve_runtime.Lifecycle.Reload.{
  Consistent, begin_drain-Consistent, begin_reload-Consistent, finish_reload-Consistent,
  fresh-Consistent, begin_reload_idle, begin_reload_refused,
}
use neuriplo_kserve_runtime.Retire.{Task}
use neuriplo_kserve_runtime.Registry.State.{
  InferSnapshot, Slot, Registry, from_handle, find_slot, set_slot, publish_snapshot,
  retire_scheduler, retire_snapshot, stop,
}
use neuriplo_kserve_runtime.Registry.Operations.{
  Begun, version_override, placeholder, load_begin_at, load_begin, load_finish_at, load_finish,
  abandoned, abandon_at, abandon, begin_build, reload_begin_at, reload_begin, replaced_slot,
  reload_finish_at, reload_finish, switch_begin_at, switch_begin, version_config, switched_slot,
  switch_finish_at, switch_finish, begin_drain_at, begin_drain, erase, complete_unload_at,
  complete_unload, unload_begin_at, unload_begin,
}

-- A slot is sound when its handle is consistent; when it has published its handle, unless a reload
-- of it is being built; and when it is not draining while that is so.
pub record Sound (slot : Slot) : Type 0 where
  pub consistent : Consistent slot.handle
  pub published :
      (slot.reload_pending ≡ true) ⊎ (slot.active_snapshot ≡ some (from_handle slot.handle))
  pub settled : (slot.reload_pending ≡ false) ⊎ (state_eq slot.handle.state.state unloading ≡ false)

abbrev pub AllSound : Registry → Type 0
AllSound r = Entries Sound r.models

pub stop-AllSound : (o : Option ℕ) (r : Registry) → AllSound r → AllSound (stop o r)
stop-AllSound none r h = h
stop-AllSound (some s) r h = h

pub retire_snapshot-AllSound :
    (o : Option InferSnapshot) (r : Registry) → AllSound r → AllSound (retire_snapshot o r)
unfolding retire_snapshot retire_scheduler
retire_snapshot-AllSound none r h = h
retire_snapshot-AllSound (some s) r h = h

pub set_slot-AllSound :
    (name : String) (slot : Slot) (r : Registry)
    → Sound slot
    → AllSound r
    → AllSound (set_slot name slot r)
set_slot-AllSound name slot r s h = put-Entries Sound name slot r.models s h

pub found-Sound :
    (name : String) (r : Registry) {slot : Slot}
    → AllSound r
    → find_slot r name ≡ some slot
    → Sound slot
unfolding find_slot
found-Sound name r h e = lookup-Entries Sound name r.models h e

-- A handle that was just built is consistent and is not draining.
abbrev pub Built : ModelHandle → Type 0
Built h = Consistent h × (state_eq h.state.state unloading ≡ false)

pub placeholder-Sound : (config : RuntimeConfig) → Sound (placeholder config)
unfolding placeholder publish_snapshot start_load transition_to is_valid_transition notify machine
placeholder-Sound config = record { consistent = refl; published = inr refl; settled = inl refl }

failed_handle-Consistent :
    (h : ModelHandle) (message : Option String)
    → state_eq h.state.state loading ≡ true
    → Consistent h
    → Consistent (record h { state = (mark_failed h.state).0; load_error = message })
unfolding mark_failed transition_to is_valid_transition notify
failed_handle-Consistent h message l c = grind arith

pub abandoned-Sound : (slot : Slot) → Sound slot → Sound (abandoned slot)
unfolding abandoned publish_snapshot
abandoned-Sound slot s =
    if_both Sound (state_eq slot.handle.state.state loading && not slot.reload_pending)
      (λ fresh. record {
        consistent =
            failed_handle-Consistent slot.handle (some "executor build threw") (grind arith)
              s.consistent;
        published = inr refl;
        settled = inl (grind arith);
      })
      (λ _.
        if_both Sound slot.reload_pending
          (λ pending. record {
            consistent = s.consistent;
            published = inr refl;
            settled = inl refl;
          })
          (λ _. s))

pub replaced_slot-Sound :
    (slot : Slot) (config : RuntimeConfig) (next : ModelHandle)
    → Sound slot
    → Consistent next
    → Sound (replaced_slot slot config (finish_reload slot.handle next))
unfolding replaced_slot publish_snapshot
replaced_slot-Sound slot config next s c = record {
  consistent = finish_reload-Consistent slot.handle next s.consistent c;
  published = inr refl;
  settled = inl refl;
}

pub switched_slot-Sound :
    (slot : Slot) (config : RuntimeConfig) (next : ModelHandle)
    → Sound slot
    → Consistent next
    → Sound (switched_slot slot config (finish_reload slot.handle next))
unfolding switched_slot replaced_slot publish_snapshot
switched_slot-Sound slot config next s c = record {
  consistent = finish_reload-Consistent slot.handle next s.consistent c;
  published = inr refl;
  settled = inl refl;
}

pub erase-AllSound : (name : String) (r : Registry) → AllSound r → AllSound (erase name r)
unfolding erase
erase-AllSound name r h = without-Entries Sound name r.models h
