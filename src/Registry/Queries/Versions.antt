-- ===== src/Registry/Queries/Versions.antt =====
-- src/ModelRegistry.cpp: what readers find of a model during and behind a reload, and of its versions
-- behind a switch.
use neuriplo_kserve_runtime.Prelude.{
  String, Bool, true, false, not, List, [], ◌∷◌, Option, none, some, ◌≡◌, refl, ap, ◌∙◌, arith,
  if_both, inl, inr, Map, lookup, put, lookup-put, str_eq, eq_iff, All,
}
use neuriplo_kserve_runtime.ModelState.{ready, loading, state_eq, machine}
use neuriplo_kserve_runtime.Lifecycle.{
  ModelHandle, RuntimeConfig, Outside, new_handle, finish_reload, begin_reload, begin_reload_in,
  outcome,
}
use neuriplo_kserve_runtime.Lifecycle.Load.{load-Pins}
use neuriplo_kserve_runtime.Registry.State.{
  InferSnapshot, Slot, Registry, from_handle, find_slot, set_slot, publish_snapshot,
  retire_scheduler, retire_snapshot, version_from_snapshot, first_of,
}
use neuriplo_kserve_runtime.Registry.Operations.{
  builds, begin_build, reload_begin_at, reload_begin, replaced_slot, reload_finish_at,
  reload_finish, keep_version, version_config, switched_slot, switch_finish_at, switch_finish,
}
use neuriplo_kserve_runtime.Registry.Steps.{Step, switch_ends, apply, run, build_version}
use neuriplo_kserve_runtime.Registry.Steps.Pending.{Elsewhere, run-find_slot}
use neuriplo_kserve_runtime.Registry.Queries.{
  find_handle, find_handle_version, find_handle_version_at, bind,
}

set_slot-find_slot :
    (name : String) (slot : Slot) (r : Registry) → find_slot (set_slot name slot r) name ≡ some slot
unfolding find_slot
set_slot-find_slot name slot r =
    rw (lookup-put name name slot r.models, (eq_iff name name).1 refl) refl

retire_snapshot-find_slot :
    (o : Option InferSnapshot) (r : Registry) (name : String)
    → find_slot (retire_snapshot o r) name ≡ find_slot r name
unfolding find_slot retire_snapshot retire_scheduler
retire_snapshot-find_slot none r name = refl
retire_snapshot-find_slot (some s) r name = refl

-- The slot behind the end of a reload, whether it succeeded or not.
reload_finish_at-find_slot :
    (slot : Slot) (name : String) (config : RuntimeConfig) (next : ModelHandle) (r : Registry)
    → find_slot (reload_finish_at (some slot) name config next r).0 name
      ≡ some (replaced_slot slot config (finish_reload slot.handle next))
unfolding reload_finish_at
reload_finish_at-find_slot slot name config next r =
    let slot' = replaced_slot slot config (finish_reload slot.handle next) in
    let set = set_slot-find_slot name slot' r in
    if_both (λ (x : Registry × Bool). find_slot x.0 name ≡ some slot')
      (not (finish_reload slot.handle next).1) (λ _. set)
      (λ _. retire_snapshot-find_slot slot.active_snapshot (set_slot name slot' r) name ∙ set)

reload_finish-find_slot :
    (slot : Slot) (name : String) (config : RuntimeConfig) (next : ModelHandle) (r : Registry)
    → find_slot r name ≡ some slot
    → find_slot (reload_finish name config next r).0 name
      ≡ some (replaced_slot slot config (finish_reload slot.handle next))
unfolding reload_finish
reload_finish-find_slot slot name config next r e =
    ap (λ found. find_slot (reload_finish_at found name config next r).0 name) e
    ∙ reload_finish_at-find_slot slot name config next r

failed_finish :
    (h next : ModelHandle)
    → h.state.state ≡ ready
    → state_eq next.state.state ready ≡ false
    → finish_reload h next ≡ (record h { load_error = next.load_error }, false)
unfolding finish_reload
failed_finish h next e n = simp (e, n) refl

begin_reload_ready :
    (h : ModelHandle) → h.state.state ≡ ready → begin_reload h ≡ outcome h true none
unfolding begin_reload begin_reload_in
begin_reload_ready h up = ap (λ s. begin_reload_in s h) up

begin_build_ready :
    (slot : Slot) (name : String) (r : Registry)
    → slot.handle.state.state ≡ ready
    → begin_build name slot (begin_reload slot.handle) r
      ≡ (set_slot name (record slot { reload_pending = true }) r, builds)
unfolding begin_build
begin_build_ready slot name r up =
    ap (λ begun. begin_build name slot begun r) (begin_reload_ready slot.handle up)

reload_begin_at_ready :
    (slot : Slot) (name : String) (r : Registry)
    → slot.handle.state.state ≡ ready
    → slot.reload_pending ≡ false
    → reload_begin_at (some slot) name r
      ≡ (set_slot name (record slot { reload_pending = true }) r, builds)
unfolding reload_begin_at
reload_begin_at_ready slot name r up idle =
    let b = begin_build_ready slot name r up in
    let l : state_eq slot.handle.state.state loading ≡ false = rw up refl in ground arith

-- A reload of a Ready model begins: the slot is as before, but for the mark that a build is under
-- way.
reload_begin-find_slot :
    (slot : Slot) (name : String) (r : Registry)
    → slot.handle.state.state ≡ ready
    → slot.reload_pending ≡ false
    → find_slot r name ≡ some slot
    → find_slot (reload_begin name r).0 name ≡ some (record slot { reload_pending = true })
unfolding reload_begin
reload_begin-find_slot slot name r up idle e =
    ap (λ found. find_slot (reload_begin_at found name r).0 name) e
    ∙ ap (λ x. find_slot x.0 name) (reload_begin_at_ready slot name r up idle)
    ∙ set_slot-find_slot name (record slot { reload_pending = true }) r

-- A reload that fails leaves a serving model as it was. Given a Ready model of which no reload is
-- under way: its reload begins; other threads take whatever steps they like, of this model or of
-- others, but for the end of this build; and the build comes to a handle that is not Ready. Then
-- readers find the snapshot of the old handle, Ready on its scheduler, with the new error alone.
pub failed_reload-find_handle :
    (steps : List Step) (r : Registry) (slot : Slot) (name : String) (config : RuntimeConfig)
    (next : ModelHandle)
    → find_slot r name ≡ some slot
    → slot.handle.state.state ≡ ready
    → slot.reload_pending ≡ false
    → All (Elsewhere name) steps
    → state_eq next.state.state ready ≡ false
    → find_handle (reload_finish name config next (run steps (reload_begin name r).0)).0 name
      ≡ some (record (from_handle slot.handle) { load_error = next.load_error })
unfolding find_handle replaced_slot publish_snapshot from_handle
failed_reload-find_handle steps r slot name config next e up idle away down =
    let slot' : Slot = record slot { reload_pending = true } in
    let kept =
      run-find_slot steps (reload_begin name r).0 slot' name
        (record { building = refl; steady = rw up refl }) away
        (reload_begin-find_slot slot name r up idle e) in
    ap (λ found. bind found (λ s. s.active_snapshot))
      (reload_finish-find_slot slot' name config next (run steps (reload_begin name r).0) kept)
    ∙ ap (λ (finished : ModelHandle × Bool). some (from_handle finished.0))
        (failed_finish slot.handle next up down)

of_kept_version :
    (slot : Slot) (version : String) (s : InferSnapshot)
    → lookup version slot.version_snapshots ≡ some s
    → find_handle_version_at slot version ≡ some s
unfolding find_handle_version_at
of_kept_version slot version s kept = rw (kept, find_handle_version_at) refl

-- A version that was switched to or from stays what it was, whatever a reload does: readers of it
-- get the snapshot of before the reload, also when the reload has replaced it and has handed its
-- scheduler to the retire queue.
pub reload_finish-find_handle_version :
    (r : Registry) (slot : Slot) (name version : String) (config : RuntimeConfig)
    (next : ModelHandle) (old : InferSnapshot)
    → find_slot r name ≡ some slot
    → lookup version slot.version_snapshots ≡ some old
    → find_handle_version (reload_finish name config next r).0 name version ≡ some old
unfolding find_handle_version find_handle_version_at replaced_slot publish_snapshot
reload_finish-find_handle_version r slot name version config next old e kept =
    ap (λ found. bind found (λ s. find_handle_version_at s version))
      (reload_finish-find_slot slot name config next r e)
    ∙ of_kept_version (replaced_slot slot config (finish_reload slot.handle next)) version old kept

successful_finish :
    (h next : ModelHandle)
    → next.state.state ≡ ready
    → (finish_reload h next).1 ≡ true
      × ((finish_reload h next).0.metadata ≡ next.metadata)
      × ((finish_reload h next).0.scheduler ≡ next.scheduler)
unfolding finish_reload
successful_finish h next up = simp up (refl, refl, refl)

switch_finish_at-find_slot :
    (slot : Slot) (name : String) (config : RuntimeConfig) (next : ModelHandle) (r : Registry)
    → (finish_reload slot.handle next).1 ≡ true
    → find_slot (switch_finish_at (some slot) name config next r).0 name
      ≡ some (switched_slot slot config (finish_reload slot.handle next))
unfolding switch_finish_at
switch_finish_at-find_slot slot name config next r success =
    let slot' = switched_slot slot config (finish_reload slot.handle next) in
    if_both (λ (x : Registry × Bool). find_slot x.0 name ≡ some slot')
      (not (finish_reload slot.handle next).1) (λ failed. grind arith)
      (λ _.
        retire_snapshot-find_slot slot.active_snapshot (set_slot name slot' r) name
        ∙ set_slot-find_slot name slot' r)

keep_version_named :
    (s : InferSnapshot) (version : String) (m : Map InferSnapshot)
    → version_from_snapshot (some s) ≡ version
    → str_eq version "" ≡ false
    → keep_version (some s) m ≡ put version s m
unfolding keep_version
keep_version_named s version m e named = rw (e, named) refl

pinned_version :
    (s : InferSnapshot) (version : String)
    → s.metadata.versions ≡ version ∷ []
    → version_from_snapshot (some s) ≡ version
unfolding version_from_snapshot
pinned_version s version e = ap (λ vs. front_of (first_of vs s.versions)) e
  where
    front_of : Option String → String
    front_of o = elim o [ none ↦ "" | some v ↦ v ]

put-version :
    (version : String) (s : InferSnapshot) (m : Map InferSnapshot)
    → lookup version (put version s m) ≡ some s
put-version version s m = rw (lookup-put version version s m, (eq_iff version version).1 refl) refl

switched_active :
    (slot : Slot) (config : RuntimeConfig) (finished : ModelHandle × Bool)
    → (switched_slot slot config finished).active_snapshot ≡ some (from_handle finished.0)
unfolding switched_slot replaced_slot publish_snapshot
switched_active slot config finished = refl

-- The versions that a slot keeps behind a switch.
switched_versions :
    (slot : Slot) (before version : String) (config : RuntimeConfig) (next : ModelHandle)
    (old : InferSnapshot)
    → slot.active_snapshot ≡ some old
    → version_from_snapshot (some old) ≡ before
    → str_eq before "" ≡ false
    → str_eq version "" ≡ false
    → (finish_reload slot.handle next).0.metadata.versions ≡ version ∷ []
    → (switched_slot slot config (finish_reload slot.handle next)).version_snapshots
      ≡ put version
          (from_handle (finish_reload slot.handle next).0)
          (put before old slot.version_snapshots)
unfolding switched_slot replaced_slot publish_snapshot from_handle
switched_versions slot before version config next old active named_old full_before full_version
      pinned =
    let new = from_handle (finish_reload slot.handle next).0 in
    ap (λ o. keep_version (some new) (keep_version o slot.version_snapshots)) active
    ∙ ap (keep_version (some new))
        (keep_version_named old before slot.version_snapshots named_old full_before)
    ∙ keep_version_named new version (put before old slot.version_snapshots)
        (pinned_version new version pinned) full_version

switch_finish-find_handle_version :
    (r : Registry) (slot : Slot) (name before version : String) (config : RuntimeConfig)
    (next : ModelHandle) (old : InferSnapshot)
    → find_slot r name ≡ some slot
    → slot.active_snapshot ≡ some old
    → version_from_snapshot (some old) ≡ before
    → str_eq before "" ≡ false
    → str_eq version "" ≡ false
    → str_eq version before ≡ false
    → next.state.state ≡ ready
    → next.metadata.versions ≡ version ∷ []
    → (find_handle (switch_finish name config next r).0 name
        ≡ some (from_handle (finish_reload slot.handle next).0))
      × (find_handle_version (switch_finish name config next r).0 name version
          ≡ some (from_handle (finish_reload slot.handle next).0))
      × (find_handle_version (switch_finish name config next r).0 name before ≡ some old)
unfolding find_handle find_handle_version switch_finish
switch_finish-find_handle_version r slot name before version config next old e active named_old
      full_before full_version apart up pinned =
    let (success, metadata, scheduler) = successful_finish slot.handle next up in
    let slot' = switched_slot slot config (finish_reload slot.handle next) in
    let found =
      ap (λ found. find_slot (switch_finish_at found name config next r).0 name) e
      ∙ switch_finish_at-find_slot slot name config next r success in
    let versions =
      switched_versions slot before version config next old active named_old full_before
        full_version (ap (λ m. m.versions) metadata ∙ pinned) in
    (
      ap (λ found. bind found (λ s. s.active_snapshot)) found
          ∙ switched_active slot config (finish_reload slot.handle next),
      ap (λ found. bind found (λ s. find_handle_version_at s version)) found
          ∙ of_kept_version slot' version (from_handle (finish_reload slot.handle next).0)
              (ap (lookup version) versions ∙ put-version version _ _),
      ap (λ found. bind found (λ s. find_handle_version_at s before)) found
          ∙ of_kept_version slot' before old (ap (lookup before) versions ∙ behind),
    )
  where
    new : InferSnapshot
    new = from_handle (finish_reload slot.handle next).0

    behind : lookup before (put version new (put before old slot.version_snapshots)) ≡ some old
    behind =
        rw (lookup-put before version new (put before old slot.version_snapshots), apart)
          (put-version before old slot.version_snapshots)

build_version_pinned :
    (outside : Outside) (name version : String) (config : RuntimeConfig)
    → (build_version outside name version config).state.state ≡ ready
    → (build_version outside name version config).metadata.versions ≡ version ∷ []
unfolding build_version machine
build_version_pinned outside name version config up =
    elim (load-Pins outside (version_config name version config) new_handle version refl) [
      | inl down ↦ grind arith
      | inr pinned ↦ pinned
    ]

-- A switch that comes up is seen by readers of versions. Given that a model whose active snapshot has
-- a named version is switched to another named version, and that the build comes to a Ready handle:
-- then readers of the model and readers of the new version get the snapshot of the new handle, and
-- readers of the version before still get the old snapshot.
pub switch_ends-find_handle_version :
    (r : Registry) (slot : Slot) (outside : Outside) (name before version : String)
    (config : RuntimeConfig) (old : InferSnapshot)
    → find_slot r name ≡ some slot
    → slot.active_snapshot ≡ some old
    → version_from_snapshot (some old) ≡ before
    → str_eq before "" ≡ false
    → str_eq version "" ≡ false
    → str_eq version before ≡ false
    → (build_version outside name version config).state.state ≡ ready
    → let r' = apply (switch_ends outside name version config) r in
      let new =
        from_handle (finish_reload slot.handle (build_version outside name version config)).0 in
      (find_handle r' name ≡ some new)
      × (find_handle_version r' name version ≡ some new)
      × (find_handle_version r' name before ≡ some old)
unfolding apply
switch_ends-find_handle_version r slot outside name before version config old e active named_old
      full_before full_version apart up =
    switch_finish-find_handle_version r slot name before version
      (version_config name version config) (build_version outside name version config) old e active
      named_old full_before full_version apart up
      (build_version_pinned outside name version config up)
