-- ===== src/Registry/Steps/Invariant.antt =====
-- Every registry that threads can reach is sound.
use neuriplo_kserve_runtime.Prelude.{List, [], ◌∷◌, some, if_both, refl, false, ◌≡◌}
use neuriplo_kserve_runtime.ModelState.{state_eq, unloading, machine}
use neuriplo_kserve_runtime.Lifecycle.{RuntimeConfig, Outside, ModelHandle, new_handle, load}
use neuriplo_kserve_runtime.Lifecycle.Load.{Loaded, up, down, load-Loaded}
use neuriplo_kserve_runtime.Lifecycle.Reload.{fresh-Consistent}
use neuriplo_kserve_runtime.Registry.State.{Registry}
use neuriplo_kserve_runtime.Registry.Operations.{version_config, version_override}
use neuriplo_kserve_runtime.Registry.Sound.{AllSound, Built}
use neuriplo_kserve_runtime.Registry.Sound.Sections.{
  load_begin-AllSound, load_finish-AllSound, abandon-AllSound, reload_begin_at-AllSound,
  reload_finish-AllSound, switch_begin-AllSound, switch_finish-AllSound, begin_drain-AllSound,
  complete_unload-AllSound, unload_begin-AllSound,
}
use neuriplo_kserve_runtime.Registry.Operations.{reload_begin}
use neuriplo_kserve_runtime.Registry.Steps.{
  Step, load_begins, load_ends, abandons, reload_begins, reload_ends, switch_begins, switch_ends,
  unload_begins, drain_begins, unload_completes, background_drain, build_handle, build_version,
  start_background_drain, retired_among, apply, run,
}

fresh_settled :
    (outside : Outside) (config : RuntimeConfig) (h : ModelHandle)
    → Loaded outside config h
    → state_eq h.state.state unloading ≡ false
fresh_settled outside config h (up _ _ _ _ _ is_ready _ _ _) = rw is_ready refl
fresh_settled outside config h (down _ is_failed _ _ _) = rw is_failed refl

build_handle-Built :
    (outside : Outside) (config : RuntimeConfig) → Built (build_handle outside config)
unfolding build_handle machine
build_handle-Built outside config = (
  fresh-Consistent outside config (version_override config),
  fresh_settled outside config (load outside new_handle config (version_override config))
      (load-Loaded outside config new_handle (version_override config) refl),
)

apply-AllSound : (s : Step) (r : Registry) → AllSound r → AllSound (apply s r)
unfolding apply reload_begin build_version start_background_drain
apply-AllSound (load_begins config) r h = load_begin-AllSound config r h
apply-AllSound (load_ends outside config) r h =
    load_finish-AllSound config (build_handle outside config) r (build_handle-Built outside config)
      h
apply-AllSound (abandons name) r h = abandon-AllSound name r h
apply-AllSound (reload_begins name) r h = reload_begin_at-AllSound _ name r refl h
apply-AllSound (reload_ends outside name config) r h =
    reload_finish-AllSound name config (build_handle outside config) r
      (build_handle-Built outside config).0 h
apply-AllSound (switch_begins name version) r h = switch_begin-AllSound name version r h
apply-AllSound (switch_ends outside name version config) r h =
    switch_finish-AllSound name (version_config name version config)
      (build_version outside name version config) r
      (fresh-Consistent outside (version_config name version config) (some version)) h
apply-AllSound (unload_begins name) r h = unload_begin-AllSound name r h
apply-AllSound (drain_begins name) r h = begin_drain-AllSound name r h
apply-AllSound (unload_completes name) r h = complete_unload-AllSound name r h
apply-AllSound (background_drain i) r h =
    if_both AllSound (retired_among r.retire_queue i) (λ _. h) (λ _. h)

-- Whatever critical sections the threads enter, in whatever order and with whatever factories, every
-- slot stays sound: its handle has a scheduler exactly when it is Ready or Unloading; unless a reload
-- of it is being built, the snapshot that readers get is that of its handle; and while one is being
-- built it does not drain.
pub run-AllSound : (steps : List Step) (r : Registry) → AllSound r → AllSound (run steps r)
unfolding run
run-AllSound [] r h = h
run-AllSound (s ∷ ss) r h = run-AllSound ss (apply s r) (apply-AllSound s r h)
