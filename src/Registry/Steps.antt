-- ===== src/Registry/Steps.antt =====
-- src/ModelRegistry.cpp: the critical sections as the steps of a registry that any number of threads
-- use.
mod Frame
pub mod Invariant
pub mod Pending
use neuriplo_kserve_runtime.Prelude.{
  ℕ, String, Bool, true, false, ◌&&◌, ◌||◌, ◌==◌, List, [], ◌∷◌, Option, none, some, if◌then◌else◌,
  Entries,
}
use neuriplo_kserve_runtime.Lifecycle.{ModelHandle, RuntimeConfig, Outside, new_handle, load}
use neuriplo_kserve_runtime.Retire.{Task}
use neuriplo_kserve_runtime.Registry.State.{Registry, Slot, among}
use neuriplo_kserve_runtime.Registry.Operations.{
  version_override, load_begin, load_finish, abandon, reload_begin, reload_finish, switch_begin,
  version_config, switch_finish, begin_drain, complete_unload, unload_begin,
}

-- One critical section of some thread, or the start of a drain in the background. A build is made
-- with the factory, and the rest of the world, that the caller has.
pub data Step : Type 0 where
  load_begins : RuntimeConfig → Step
  load_ends : Outside → RuntimeConfig → Step
  abandons : String → Step
  reload_begins : String → Step
  reload_ends : Outside → String → RuntimeConfig → Step
  switch_begins : String → String → Step
  switch_ends : Outside → String → String → RuntimeConfig → Step
  unload_begins : String → Step
  drain_begins : String → Step
  unload_completes : String → Step
  background_drain : ℕ → Step

-- A build makes a fresh handle: of a load and a reload at the version that its configuration pins,
-- of a switch at the version switched to.
unfoldable pub build_handle : Outside → RuntimeConfig → ModelHandle
unfolding version_override
build_handle outside config = load outside new_handle config (version_override config)

unfoldable pub build_version : Outside → String → String → RuntimeConfig → ModelHandle
build_version outside name version config =
    load outside new_handle (version_config name version config) (some version)

-- A scheduler in the retire queue starts to drain.
unfoldable pub retired_among : List Task → ℕ → Bool
retired_among [] i = false
retired_among (t ∷ ts) i = (t.valid && t.scheduler == i) || retired_among ts i

unfoldable pub start_background_drain : ℕ → Registry → Registry
start_background_drain i r =
    if retired_among r.retire_queue i then record r { stopped = i ∷ r.stopped } else r

unfoldable pub apply : Step → Registry → Registry
unfolding start_background_drain
apply (load_begins config) r = (load_begin config r).0
apply (load_ends outside config) r = (load_finish config (build_handle outside config) r).0
apply (abandons name) r = abandon name r
apply (reload_begins name) r = (reload_begin name r).0
apply (reload_ends outside name config) r =
    (reload_finish name config (build_handle outside config) r).0
apply (switch_begins name version) r = (switch_begin name version r).0
apply (switch_ends outside name version config) r =
    (switch_finish name (version_config name version config)
      (build_version outside name version config) r).0
apply (unload_begins name) r = (unload_begin name r).0
apply (drain_begins name) r = (begin_drain name r).0
apply (unload_completes name) r = (complete_unload name r).0
apply (background_drain i) r = start_background_drain i r

unfoldable pub run : List Step → Registry → Registry
unfolding apply
run [] r = r
run (s ∷ ss) r = run ss (apply s r)
