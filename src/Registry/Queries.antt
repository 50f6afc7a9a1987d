-- ===== src/Registry/Queries.antt =====
-- src/ModelRegistry.cpp: what readers ask of a registry, its catalog, and its constructors.
pub mod Readiness
pub mod Versions
mod Examples
use neuriplo_kserve_runtime.Prelude.{
  ℕ, zero, suc, String, Bool, true, false, not, ◌&&◌, ◌||◌, List, [], ◌∷◌, Option, none, some, map,
  if◌then◌else◌, ltb, leb, length, get_elem?, Map, lookup, put, str_eq,
}
use neuriplo_kserve_runtime.ModelState.{State, loading, failed, state_eq}
use neuriplo_kserve_runtime.Lifecycle.{
  ModelHandle, ModelMetadata, RuntimeConfig, Outside, Made, executor, null, threw,
}
use neuriplo_kserve_runtime.Scheduler.Result.{SchedulerMetrics, no_metrics}
use neuriplo_kserve_runtime.Retire.{Task, pending_count}
use neuriplo_kserve_runtime.Registry.State.{
  InferSnapshot, Slot, Registry, find_slot, is_ready, first_of,
}
use neuriplo_kserve_runtime.Registry.Operations.{
  Begun, answered, joins, waits, builds, load_begin, load_finish, snapshot_is_ready,
}
use neuriplo_kserve_runtime.Registry.Steps.{build_handle}

unfoldable pub set_repository_catalog_from :
    List RuntimeConfig → Map RuntimeConfig → Map RuntimeConfig
set_repository_catalog_from [] m = m
set_repository_catalog_from (config ∷ rest) m = elim (lookup config.model_name m) [
  | some _ ↦ set_repository_catalog_from rest m
  | none ↦ set_repository_catalog_from rest (put config.model_name config m)
]

-- `emplace` keeps the first entry of a name.
unfoldable pub set_repository_catalog : List RuntimeConfig → Registry → Registry
unfolding set_repository_catalog_from
set_repository_catalog configs r = record r { catalog = set_repository_catalog_from configs [] }

abbrev pub keys {ℓ} : {V : Type ℓ} → Map V → List String
keys [] = []
keys ((k, v) ∷ m) = k ∷ keys m

unfoldable pub catalog_models : Registry → List String
catalog_models r = keys r.catalog

unfoldable pub catalog_config : Registry → String → Option RuntimeConfig
catalog_config r name = lookup name r.catalog

unfoldable pub list_models : Registry → List String
list_models r = keys r.models

abbrev pub bind {ℓ} : {A B : Type ℓ} → Option A → (A → Option B) → Option B
bind none f = none
bind (some a) f = f a

unfoldable pub find_handle : Registry → String → Option InferSnapshot
find_handle r name = bind (find_slot r name) (λ slot. slot.active_snapshot)

abbrev pub metadata_of : InferSnapshot → Option ModelMetadata
metadata_of s = some s.metadata

unfoldable pub find : Registry → String → Option ModelMetadata
unfolding find_handle
find r name = bind (find_handle r name) metadata_of

abbrev pub contains_version : List String → String → Bool
contains_version [] version = false
contains_version (v ∷ vs) version = str_eq v version || contains_version vs version

-- The metadata's versions, or the handle's where there are none.
abbrev pub known_versions : InferSnapshot → List String
known_versions s = or_others s.metadata.versions
  where
    or_others : List String → List String
    or_others [] = s.versions
    or_others (v ∷ vs) = v ∷ vs

unfoldable pub of_version : String → InferSnapshot → Option InferSnapshot
of_version version s = if contains_version (known_versions s) version then some s else none

unfoldable pub find_handle_version_at : Slot → String → Option InferSnapshot
unfolding of_version
find_handle_version_at slot version = elim (lookup version slot.version_snapshots) [
  | some s ↦ some s
  | none ↦ bind slot.active_snapshot (of_version version)
]

unfoldable pub find_handle_version : Registry → String → String → Option InferSnapshot
unfolding find_handle_version_at
find_handle_version r name version =
    bind (find_slot r name) (λ slot. find_handle_version_at slot version)

unfoldable pub find_version : Registry → String → String → Option ModelMetadata
unfolding find_handle_version
find_version r name version = bind (find_handle_version r name version) metadata_of

unfoldable pub ready_model : Registry → String → Bool
unfolding find_handle
ready_model r name = snapshot_is_ready r.stopped (find_handle r name)

unfoldable pub ready_version : Registry → String → String → Bool
unfolding find_handle_version
ready_version r name version = snapshot_is_ready r.stopped (find_handle_version r name version)

-- `snapshot && snapshot->state == state`
abbrev pub in_state : State → Option InferSnapshot → Bool
in_state state none = false
in_state state (some s) = state_eq s.state state

-- Whether the readiness of the server passes over this slot.
unfoldable pub skipped : Registry → Slot → Bool
skipped r slot =
    in_state loading slot.active_snapshot
    || (r.repository_mode && in_state failed slot.active_snapshot)

-- The loop of `allReady`; `any_counted` is what it has seen so far.
unfoldable pub all_ready_from : Registry → Bool → Map Slot → Bool
unfolding skipped
all_ready_from r any_counted [] = any_counted || r.explicit_control_mode
all_ready_from r any_counted ((name, slot) ∷ rest) =
    let pass = all_ready_from r any_counted rest in
    let count = all_ready_from r true rest in
    if skipped r slot
    then pass
    else if not (snapshot_is_ready r.stopped slot.active_snapshot)
    then false
    else count

unfoldable pub all_ready_in : Registry → Map Slot → Bool
unfolding all_ready_from
all_ready_in r [] = r.explicit_control_mode
all_ready_in r (entry ∷ rest) = all_ready_from r false (entry ∷ rest)

unfoldable pub all_ready : Registry → Bool
unfolding all_ready_in
all_ready r = all_ready_in r r.models

unfoldable pub load_or_reload_in_progress : Registry → String → Bool
load_or_reload_in_progress r name = elim (find_slot r name) [
  | none ↦ false
  | some slot ↦ slot.reload_pending || state_eq slot.handle.state.state loading
]

unfoldable pub model_config : Registry → String → Option RuntimeConfig
model_config r name = bind (find_slot r name) (λ slot. some slot.config)

unfoldable pub default_version : Registry → String → Option String
unfolding find_handle
default_version r name = bind (find_handle r name) (λ s. first_of s.metadata.versions s.versions)

-- `metrics` is the scheduler's.
unfoldable pub scheduler_metrics : (ℕ → SchedulerMetrics) → Registry → String → SchedulerMetrics
unfolding find_handle
scheduler_metrics metrics r name = elim (bind (find_handle r name) (λ s. s.scheduler)) [
  | none ↦ no_metrics
  | some scheduler ↦ metrics scheduler
]

unfoldable pub model_name : Registry → String
model_name r = first (keys r.models)
  where
    first : List String → String
    first [] = ""
    first (name ∷ rest) = name

unfoldable pub retired_scheduler_count : Registry → Registry × ℕ
retired_scheduler_count r =
    let (rest, count) = pending_count r.retire_queue in (record r { retire_queue = rest }, count)

unfoldable pub is_pipeline_config : RuntimeConfig → Bool
is_pipeline_config config = str_eq config.backend "ensemble"

-- One round of the loop below, with the rounds behind it.
unfoldable pub prebuilt :
    Option ModelMetadata × String
    → (String → List ModelMetadata × String)
    → List ModelMetadata × String
prebuilt (none, error) rest = ([], error)
prebuilt (some metadata, error) rest = (metadata ∷ (rest error).0, (rest error).1)

-- Building pipeline executors in advance: those that were built, and the error that is left. The
-- builder is given the error so far, and returns an executor or none, and the error.
unfoldable pub prebuild :
    (String → Option ModelMetadata × String) → ℕ → String → List ModelMetadata × String
unfolding prebuilt
prebuild make zero error = ([], error)
prebuild make (suc count) error = prebuilt (make error) (prebuild make count)

-- The factory that hands them out, one at each call.
unfoldable pub pipeline_factory : List ModelMetadata × String → RuntimeConfig → ℕ → String → Made
pipeline_factory (built, build_error) config index error = elim (get_elem? built index) [
  | some metadata ↦ executor metadata error
  | none ↦ null (if str_eq build_error "" then "pipeline executor unavailable" else build_error)
]

-- How a pipeline's steps find their models.
unfoldable pub resolver : Registry → String → String → Option InferSnapshot
unfolding find_handle find_handle_version
resolver r name version =
    if str_eq version "" then find_handle r name else find_handle_version r name version

-- `make` is `makePipelineExecutor`.
unfoldable pub make_pipeline_factory :
    ((String → String → Option InferSnapshot)
      → RuntimeConfig
      → String
      → Option ModelMetadata × String)
    → Registry
    → RuntimeConfig
    → RuntimeConfig
    → ℕ
    → String
    → Made
unfolding resolver prebuild pipeline_factory
make_pipeline_factory make r config = pipeline_factory (
    prebuild (make (resolver r) config) (if leb config.instances 0 then 1 else config.instances) "")

-- `loadModel` with no other thread's critical section in between, as a constructor runs it.
unfoldable pub load_model : Outside → RuntimeConfig → Registry → Registry
load_model outside config r = elim (load_begin config r).1 [
  | builds ↦ (load_finish config (build_handle outside config) (load_begin config r).0).0
  | _ ↦ (load_begin config r).0
]

-- The rest of the world for a configuration: its own factory for a pipeline, given the registry.
unfoldable pub load_all :
    (Registry → RuntimeConfig → Outside) → List RuntimeConfig → Registry → Registry
unfolding load_model
load_all world [] r = r
load_all world (config ∷ rest) r = load_all world rest (load_model (world r config) config r)

unfoldable pub keep_if : (RuntimeConfig → Bool) → List RuntimeConfig → List RuntimeConfig
keep_if test [] = []
keep_if test (config ∷ rest) =
    let kept = keep_if test rest in if test config then config ∷ kept else kept

unfoldable pub empty_registry : Bool → ℕ → Bool → Bool → Registry
empty_registry log_payloads tokens_per_char repository_mode explicit_control_mode = record {
  models = [];
  catalog = [];
  retire_queue = [];
  stopped = [];
  log_payloads = log_payloads;
  tokens_per_char = tokens_per_char;
  repository_mode = repository_mode;
  explicit_control_mode = explicit_control_mode;
}

-- The constructor for one model.
unfoldable pub registry_of : (Registry → RuntimeConfig → Outside) → RuntimeConfig → Registry
unfolding load_all
registry_of world config =
    load_all world (config ∷ [])
      (empty_registry config.log_payloads config.tokens_per_char false false)

unfoldable pub front_config : List RuntimeConfig → RuntimeConfig → RuntimeConfig
front_config [] defaults = defaults
front_config (config ∷ rest) defaults = config

-- The constructor for a repository: plain models first, then pipelines.
unfoldable pub repository_of :
    (Registry → RuntimeConfig → Outside) → List RuntimeConfig → Bool → RuntimeConfig → Registry
unfolding load_all keep_if front_config
repository_of world configs explicit_control_mode defaults =
    let shown = front_config configs defaults in
    load_all world (keep_if is_pipeline_config configs) (
      load_all world (keep_if (λ config. not (is_pipeline_config config)) configs)
        (empty_registry shown.log_payloads shown.tokens_per_char true explicit_control_mode))
