-- ===== src/Lifecycle/Examples.antt =====
-- The theorems on loads and reloads at a small model.
use neuriplo_kserve_runtime.Prelude.{[], ◌∷◌, none, some, refl}
use neuriplo_kserve_runtime.ModelState.{machine}
use neuriplo_kserve_runtime.Lifecycle.{new_handle, load, reload}
use neuriplo_kserve_runtime.Lifecycle.Load.{Loaded, load-Loaded}
use neuriplo_kserve_runtime.Lifecycle.Reload.{
  Consistent, Reloaded, loads, reloads, begins_drain, completes_unload, live, live-Consistent,
  reload-Reloaded,
}
use neuriplo_kserve_runtime.Lifecycle.Sample.{settings, here}

load-Loaded_example : Loaded here settings (load here new_handle settings none)
unfolding machine
load-Loaded_example = load-Loaded here settings new_handle none refl

live-Consistent_example : Consistent (
    live here settings
      (loads none ∷ reloads (some "4") ∷ begins_drain ∷ completes_unload ∷ [])
      new_handle)
live-Consistent_example =
    live-Consistent here settings
      (loads none ∷ reloads (some "4") ∷ begins_drain ∷ completes_unload ∷ [])

reload-Reloaded_example :
    Reloaded here settings
      (load here new_handle settings none)
      (reload here (load here new_handle settings none) settings (some "4"))
reload-Reloaded_example =
    reload-Reloaded here settings (load here new_handle settings none) (some "4")
