-- ===== src/Registry/State.antt =====
-- src/InferSnapshot.hpp and the state of src/ModelRegistry.hpp: the slots of the models, the snapshots
-- that readers take of them, and the schedulers that are retired.
--
-- A map iterates in the order of its entries, which the code leaves open. `stopped` lists the
-- schedulers that accept no more: `stopAccepting` or `beginDrain` was called on them.
use neuriplo_kserve_runtime.Prelude.{
  ℕ, String, Bool, false, not, ◌&&◌, ◌||◌, List, [], ◌∷◌, Option, none, some, ◌==◌, Map, lookup,
  put,
}
use neuriplo_kserve_runtime.ModelState.{State, ready, state_eq}
use neuriplo_kserve_runtime.Lifecycle.{ModelHandle, ModelMetadata, RuntimeConfig}
use neuriplo_kserve_runtime.Retire.{Task, retire}

pub record InferSnapshot : Type 0 where
  pub name : String
  pub versions : List String
  pub state : State
  pub metadata : ModelMetadata
  pub scheduler : Option ℕ
  pub load_error : Option String

unfoldable pub from_handle : ModelHandle → InferSnapshot
from_handle handle = record {
  name = handle.name;
  versions = handle.versions;
  state = handle.state.state;
  metadata = handle.metadata;
  scheduler = handle.scheduler;
  load_error = handle.load_error;
}

pub record Slot : Type 0 where
  pub handle : ModelHandle
  pub config : RuntimeConfig
  pub active_snapshot : Option InferSnapshot
  pub version_snapshots : Map InferSnapshot
  pub reload_pending : Bool

pub record Registry : Type 0 where
  pub models : Map Slot
  pub catalog : Map RuntimeConfig
  pub retire_queue : List Task
  pub stopped : List ℕ
  pub log_payloads : Bool
  pub tokens_per_char : ℕ
  pub repository_mode : Bool
  pub explicit_control_mode : Bool

abbrev pub among : List ℕ → ℕ → Bool
among [] i = false
among (j ∷ js) i = j == i || among js i

-- `scheduler != nullptr && scheduler->isReady()`
abbrev pub serving : List ℕ → Option ℕ → Bool
serving stopped none = false
serving stopped (some scheduler) = not (among stopped scheduler)

unfoldable pub is_ready : List ℕ → InferSnapshot → Bool
is_ready stopped s = state_eq s.state ready && serving stopped s.scheduler

unfoldable pub handle_is_ready : List ℕ → ModelHandle → Bool
handle_is_ready stopped h = state_eq h.state.state ready && serving stopped h.scheduler

-- `version.empty() ? {} : version.front()` and the like.
abbrev pub front_or_empty : List String → String
front_or_empty [] = ""
front_or_empty (version ∷ rest) = version

abbrev pub first_of : List String → List String → Option String
first_of (version ∷ rest) others = some version
first_of [] (version ∷ rest) = some version
first_of [] [] = none

unfoldable pub version_from_snapshot : Option InferSnapshot → String
version_from_snapshot none = ""
version_from_snapshot (some s) = elim (first_of s.metadata.versions s.versions) [
  | none ↦ ""
  | some version ↦ version
]

unfoldable pub find_slot : Registry → String → Option Slot
find_slot r name = lookup name r.models

abbrev pub set_slot : String → Slot → Registry → Registry
set_slot name slot r = record r { models = put name slot r.models }

unfoldable pub publish_snapshot : Slot → Slot
unfolding from_handle
publish_snapshot slot = record slot { active_snapshot = some (from_handle slot.handle) }

-- A scheduler that is handed to the retire queue is drained in the background.
unfoldable pub retire_scheduler : Option ℕ → Registry → Registry
retire_scheduler scheduler r = record r { retire_queue = retire scheduler false r.retire_queue }

unfoldable pub retire_snapshot : Option InferSnapshot → Registry → Registry
unfolding retire_scheduler
retire_snapshot none r = r
retire_snapshot (some s) r = retire_scheduler s.scheduler r

unfoldable pub active_version_for : Slot → String
unfolding version_from_snapshot
active_version_for slot = version_from_snapshot slot.active_snapshot

-- `stopAccepting` on the scheduler that an operation of the lifecycle stopped.
abbrev pub stop : Option ℕ → Registry → Registry
stop none r = r
stop (some scheduler) r = record r { stopped = scheduler ∷ r.stopped }
