-- ===== src/Registry/Steps/Pending.antt =====
-- src/ModelRegistry.cpp, `reload_pending`: while a reload of a model is being built, the other threads
-- leave its slot alone.
use neuriplo_kserve_runtime.Prelude.{
  String, Bool, true, false, ◌&&◌, List, [], ◌∷◌, Option, none, some, ◌≡◌, refl, ap, ◌∙◌, ◌⊎◌,
  arith, if_both, Bool-cases, inl, inr, lookup, str_eq, eq_iff, All,
}
use neuriplo_kserve_runtime.ModelState.{state_eq, unloading}
use neuriplo_kserve_runtime.Lifecycle
use neuriplo_kserve_runtime.Lifecycle.{
  ModelHandle, RuntimeConfig, Outside, finish_reload, begin_reload,
}
use neuriplo_kserve_runtime.Registry.State.{Slot, Registry, find_slot, version_from_snapshot}
use neuriplo_kserve_runtime.Registry.Operations.{
  snapshot_is_ready, Begun, load_begin_at, load_begin, load_finish, abandon, reload_begin_at,
  reload_begin, reload_finish, switch_begin_at, switch_begin, version_config, switch_finish,
  begin_drain_at, begin_drain, complete_unload_at, complete_unload, unload_begin_at, unload_begin,
}
use neuriplo_kserve_runtime.Registry.Steps.{
  Step, load_begins, load_ends, abandons, reload_begins, reload_ends, switch_begins, switch_ends,
  unload_begins, drain_begins, unload_completes, background_drain, start_background_drain,
  retired_among, apply, run,
}
use neuriplo_kserve_runtime.Registry.Steps.Frame.{
  same, Touches, Touched-frame, load_begin_at-Touches, load_finish_at-Touches, abandon_at-Touches,
  reload_begin_at-Touches, reload_finish_at-Touches, switch_begin_at-Touches,
  switch_finish_at-Touches, begin_drain_at-Touches, complete_unload_at-Touches,
  unload_begin_at-Touches,
}

-- The model that a step is about; none for a drain in the background.
abbrev pub about : Step → Option String
about (load_begins config) = some config.model_name
about (load_ends outside config) = some config.model_name
about (abandons name) = some name
about (reload_begins name) = some name
about (reload_ends outside name config) = some name
about (switch_begins name version) = some name
about (switch_ends outside name version config) = some name
about (unload_begins name) = some name
about (drain_begins name) = some name
about (unload_completes name) = some name
about (background_drain i) = none

-- The steps that end a build.
abbrev pub ends_build : Step → Bool
ends_build (load_ends outside config) = true
ends_build (abandons name) = true
ends_build (reload_ends outside name config) = true
ends_build (switch_ends outside name version config) = true
ends_build _ = false

-- The name that a step is about, or another one.
abbrev pub named : Option String → String → String
named none other = other
named (some name) other = name

apply-Touches :
    (s : Step) (other : String) (r : Registry) → Touches (named (about s) other) r (apply s r)
unfolding apply load_begin load_finish abandon reload_begin reload_finish switch_begin switch_finish
    unload_begin begin_drain complete_unload start_background_drain
apply-Touches (load_begins config) other r = load_begin_at-Touches _ config r
apply-Touches (load_ends outside config) other r = load_finish_at-Touches _ config _ r
apply-Touches (abandons name) other r = abandon_at-Touches _ name r
apply-Touches (reload_begins name) other r = reload_begin_at-Touches _ name r
apply-Touches (reload_ends outside name config) other r = reload_finish_at-Touches _ name config _ r
apply-Touches (switch_begins name version) other r = switch_begin_at-Touches _ name version r
apply-Touches (switch_ends outside name version config) other r =
    switch_finish_at-Touches _ name (version_config name version config) _ r
apply-Touches (unload_begins name) other r = unload_begin_at-Touches _ name r
apply-Touches (drain_begins name) other r = begin_drain_at-Touches _ name r
apply-Touches (unload_completes name) other r = complete_unload_at-Touches _ name r
apply-Touches (background_drain i) other r =
    if_both (Touches other r) (retired_among r.retire_queue i) (λ _. same) (λ _. same)

-- A slot whose reload is being built.
pub record Pending (slot : Slot) : Type 0 where
  pub building : slot.reload_pending ≡ true
  pub steady : state_eq slot.handle.state.state unloading ≡ false

complete_unload_steady :
    (h : ModelHandle)
    → state_eq h.state.state unloading ≡ false
    → (Lifecycle.complete_unload h).accepted ≡ false
unfolding Lifecycle.complete_unload
complete_unload_steady h e = rw e refl

load_begin_at_quiet :
    (slot : Slot) (config : RuntimeConfig) (r : Registry)
    → (load_begin_at (some slot) config r).0 ≡ r
unfolding load_begin_at
load_begin_at_quiet slot config r = ground arith

reload_begin_at_quiet :
    (slot : Slot) (name : String) (r : Registry)
    → Pending slot
    → (reload_begin_at (some slot) name r).0 ≡ r
unfolding reload_begin_at
reload_begin_at_quiet slot name r p = let b = p.building in ground arith

switch_begin_at_quiet :
    (slot : Slot) (name version : String) (r : Registry)
    → Pending slot
    → (switch_begin_at (some slot) name version r).0 ≡ r
unfolding switch_begin_at
switch_begin_at_quiet slot name version r p =
    let quiet = reload_begin_at_quiet slot name r p in
    if_both (λ (x : Registry × Begun). x.0 ≡ r)
      (str_eq (version_from_snapshot slot.active_snapshot) version
        && snapshot_is_ready r.stopped slot.active_snapshot)
      (λ _. refl) (λ _. quiet)

unload_begin_at_quiet :
    (slot : Slot) (name : String) (r : Registry)
    → Pending slot
    → (unload_begin_at (some slot) name r).0 ≡ r
unfolding unload_begin_at
unload_begin_at_quiet slot name r p = rw p.building refl

begin_drain_at_quiet :
    (slot : Slot) (name : String) (r : Registry)
    → Pending slot
    → (begin_drain_at (some slot) name r).0 ≡ r
unfolding begin_drain_at
begin_drain_at_quiet slot name r p = rw p.building refl

complete_unload_at_quiet :
    (slot : Slot) (name : String) (r : Registry)
    → Pending slot
    → (complete_unload_at (some slot) name r).0 ≡ r
unfolding complete_unload_at
complete_unload_at_quiet slot name r p = rw (complete_unload_steady slot.handle p.steady) refl

-- A step about the pending model itself, which does not end a build, changes no model.
apply_quiet :
    (s : Step) (r : Registry) (slot : Slot) (name : String)
    → Pending slot
    → ends_build s ≡ false
    → find_slot r (named (about s) name) ≡ some slot
    → (apply s r).models ≡ r.models
unfolding apply load_begin reload_begin switch_begin unload_begin begin_drain complete_unload
    start_background_drain
apply_quiet (load_begins config) r slot name p b e =
    ap (λ found. (load_begin_at found config r).0.models) e
    ∙ ap (λ r'. r'.models) (load_begin_at_quiet slot config r)
apply_quiet (load_ends outside config) r slot name p b e = grind arith
apply_quiet (abandons m) r slot name p b e = grind arith
apply_quiet (reload_begins m) r slot name p b e =
    ap (λ found. (reload_begin_at found m r).0.models) e
    ∙ ap (λ r'. r'.models) (reload_begin_at_quiet slot m r p)
apply_quiet (reload_ends outside m config) r slot name p b e = grind arith
apply_quiet (switch_begins m version) r slot name p b e =
    ap (λ found. (switch_begin_at found m version r).0.models) e
    ∙ ap (λ r'. r'.models) (switch_begin_at_quiet slot m version r p)
apply_quiet (switch_ends outside m version config) r slot name p b e = grind arith
apply_quiet (unload_begins m) r slot name p b e =
    ap (λ found. (unload_begin_at found m r).0.models) e
    ∙ ap (λ r'. r'.models) (unload_begin_at_quiet slot m r p)
apply_quiet (drain_begins m) r slot name p b e =
    ap (λ found. (begin_drain_at found m r).0.models) e
    ∙ ap (λ r'. r'.models) (begin_drain_at_quiet slot m r p)
apply_quiet (unload_completes m) r slot name p b e =
    ap (λ found. (complete_unload_at found m r).0.models) e
    ∙ ap (λ r'. r'.models) (complete_unload_at_quiet slot m r p)
apply_quiet (background_drain i) r slot name p b e =
    if_both (λ (r' : Registry). r'.models ≡ r.models) (retired_among r.retire_queue i) (λ _. refl)
      (λ _. refl)

-- A step that does not end the build of the model: it ends none, or is about another model.
abbrev pub Elsewhere : String → Step → Type 0
Elsewhere name s = (ends_build s ≡ false) ⊎ (str_eq (named (about s) name) name ≡ false)

apply-find_slot :
    (s : Step) (r : Registry) (slot : Slot) (name : String)
    → Pending slot
    → Elsewhere name s
    → find_slot r name ≡ some slot
    → find_slot (apply s r) name ≡ some slot
unfolding find_slot
apply-find_slot s r slot name p away e = elim (Bool-cases (str_eq (named (about s) name) name)) [
  | inr apart ↦ Touched-frame (named (about s) name) name apart (apply-Touches s name r) ∙ e
  | inl hit ↦
      let named_it = (eq_iff (named (about s) name) name).0 hit in
      ap (lookup name) (
        apply_quiet s r slot name p (ends_none away hit) (ap (λ n. lookup n r.models) named_it ∙ e))
      ∙ e
]
  where
    ends_none : Elsewhere name s → str_eq (named (about s) name) name ≡ true → ends_build s ≡ false
    ends_none (inl none_ended) hit = none_ended
    ends_none (inr apart) hit = cc

-- While a reload of a model is being built, no other thread changes its slot: whatever loads,
-- reloads, switches, drains and unloads they attempt, of this model or of others, the slot is as it
-- was until a step ends a build of this model. So readers get the same snapshot all the while.
pub run-find_slot :
    (steps : List Step) (r : Registry) (slot : Slot) (name : String)
    → Pending slot
    → All (Elsewhere name) steps
    → find_slot r name ≡ some slot
    → find_slot (run steps r) name ≡ some slot
unfolding run
run-find_slot [] r slot name p away e = e
run-find_slot (s ∷ ss) r slot name p (away, more) e =
    run-find_slot ss (apply s r) slot name p more (apply-find_slot s r slot name p away e)
