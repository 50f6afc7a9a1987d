-- ===== src/Registry/Queries/Examples.antt =====
-- A registry with one model, and the theorems on registries at it.
use neuriplo_kserve_runtime.Prelude.{
  true, false, List, [], ◌∷◌, none, some, ◌≡◌, ◌↔◌, ◌⊎◌, refl, inl, inr, lookup, Entries,
}
use neuriplo_kserve_runtime.ModelState.{
  ready, machine, Machine, start_load, mark_ready, transition_to, is_valid_transition, notify,
}
use neuriplo_kserve_runtime.Lifecycle.{
  ModelHandle, new_handle, load, load_built, starting, build, go_on, also, describe, pinned, launch,
  uses_llm_scheduler, serve, finish_reload,
}
use neuriplo_kserve_runtime.Lifecycle.Sample.{resnet, settings, here}
use neuriplo_kserve_runtime.Registry.State.{
  InferSnapshot, Slot, Registry, from_handle, find_slot, version_from_snapshot,
}
use neuriplo_kserve_runtime.Registry.Operations.{reload_begin, reload_finish, version_config}
use neuriplo_kserve_runtime.Registry.Sound.{AllSound}
use neuriplo_kserve_runtime.Registry.Steps.{
  Step, load_begins, load_ends, reload_begins, switch_ends, drain_begins, unload_completes, run,
  apply, build_version,
}
use neuriplo_kserve_runtime.Registry.Steps.Invariant.{run-AllSound}
use neuriplo_kserve_runtime.Registry.Steps.Pending.{run-find_slot}
use neuriplo_kserve_runtime.Registry.Queries.{
  find_handle, find_handle_version, all_ready, empty_registry,
}
use neuriplo_kserve_runtime.Registry.Queries.Readiness.{Fine, Counts, all_ready_iff}
use neuriplo_kserve_runtime.Registry.Queries.Versions.{
  failed_reload-find_handle, reload_finish-find_handle_version, switch_ends-find_handle_version,
}

abbrev up : Machine
up = record { state = ready; observers = []; notices = [] }

abbrev serving_handle : ModelHandle
serving_handle = record {
  name = "resnet";
  versions = "3" ∷ [];
  state = up;
  metadata = resnet;
  scheduler = some 5;
  load_error = none;
}

abbrev shown : InferSnapshot
shown = record {
  name = "resnet";
  versions = "3" ∷ [];
  state = ready;
  metadata = resnet;
  scheduler = some 5;
  load_error = none;
}

abbrev slot : Slot
slot = record {
  handle = serving_handle;
  config = settings;
  active_snapshot = some shown;
  version_snapshots = ("3", shown) ∷ [];
  reload_pending = false;
}

abbrev one_model : Registry
one_model = record {
  models = ("resnet", slot) ∷ [];
  catalog = [];
  retire_queue = [];
  stopped = [];
  log_payloads = false;
  tokens_per_char = 0;
  repository_mode = true;
  explicit_control_mode = false;
}

run-AllSound_example : AllSound (
    run
      (load_begins settings ∷ load_ends here settings ∷ reload_begins "demo" ∷ [])
      (empty_registry false 0 true false))
unfolding empty_registry
run-AllSound_example =
    run-AllSound (load_begins settings ∷ load_ends here settings ∷ reload_begins "demo" ∷ [])
      (empty_registry false 0 true false) tt

-- While a reload is built, others try to drain and to unload the model, and load another one.
abbrev others : List Step
others =
    drain_begins "resnet"
    ∷ unload_completes "resnet"
    ∷ reload_begins "resnet"
    ∷ load_begins settings
    ∷ load_ends here settings
    ∷ []

abbrev pending : Slot
pending = record slot { reload_pending = true }

run-find_slot_example :
    find_slot (run others (record one_model { models = ("resnet", pending) ∷ [] })) "resnet"
    ≡ some pending
unfolding find_slot lookup
run-find_slot_example =
    run-find_slot others (record one_model { models = ("resnet", pending) ∷ [] }) pending "resnet"
      (record { building = refl; steady = refl })
      (inl refl, (inl refl, (inl refl, (inl refl, (inr refl, tt))))) refl

failed_reload-find_handle_example :
    find_handle
      (reload_finish "resnet" settings new_handle
        (run others (reload_begin "resnet" one_model).0)).0
      "resnet"
    ≡ some (record (from_handle serving_handle) { load_error = none })
unfolding find_slot lookup machine
failed_reload-find_handle_example =
    failed_reload-find_handle others one_model slot "resnet" settings new_handle refl refl refl
      (inl refl, (inl refl, (inl refl, (inl refl, (inr refl, tt))))) refl

reload_finish-find_handle_version_example :
    find_handle_version (reload_finish "resnet" settings serving_handle one_model).0 "resnet" "3"
    ≡ some shown
unfolding find_slot lookup
reload_finish-find_handle_version_example =
    reload_finish-find_handle_version one_model slot "resnet" "3" settings serving_handle shown refl
      refl

comes_up : (build_version here "resnet" "4" settings).state.state ≡ ready
unfolding build_version load load_built starting build go_on also describe pinned launch
    uses_llm_scheduler serve mark_ready start_load transition_to is_valid_transition notify machine
    version_config
comes_up = refl

switch_ends-find_handle_version_example :
    (find_handle (apply (switch_ends here "resnet" "4" settings) one_model) "resnet"
      ≡ some
          (from_handle (finish_reload serving_handle (build_version here "resnet" "4" settings)).0))
    × (find_handle_version (apply (switch_ends here "resnet" "4" settings) one_model) "resnet" "4"
        ≡ some (
            from_handle
              (finish_reload serving_handle (build_version here "resnet" "4" settings)).0))
    × (find_handle_version (apply (switch_ends here "resnet" "4" settings) one_model) "resnet" "3"
        ≡ some shown)
unfolding find_slot lookup version_from_snapshot
switch_ends-find_handle_version_example =
    switch_ends-find_handle_version one_model slot here "resnet" "3" "4" settings shown refl refl
      refl refl refl refl comes_up

all_ready_iff_example : (all_ready one_model ≡ true) ↔ (
    Entries (Fine one_model) (("resnet", slot) ∷ [])
    × (Counts one_model (("resnet", slot) ∷ []) ⊎ (false ≡ true)))
all_ready_iff_example = all_ready_iff one_model
