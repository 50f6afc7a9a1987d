-- ===== src/Retire/Examples.antt =====
-- A queue with one drain that goes on and one that has ended.
use neuriplo_kserve_runtime.Prelude.{◌≡◌, ◌++◌, List, [], ◌∷◌, some, true, false, if◌then◌else◌}
use neuriplo_kserve_runtime.Retire.{Task, retire, awaited, draining_schedulers, awaited-retire}

abbrev two : List Task
two =
    record { scheduler = 3; valid = true; ready = false }
    ∷ record { scheduler = 4; valid = true; ready = true }
    ∷ []

awaited-retire_example :
    awaited (retire (some 5) false two) ≡ draining_schedulers two ++ (if false then [] else 5 ∷ [])
awaited-retire_example = awaited-retire 5 false two
