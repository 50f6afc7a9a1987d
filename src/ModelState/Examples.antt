-- ===== src/ModelState/Examples.antt =====
-- Tests of the state machine, and instances of its theorems.
use neuriplo_kserve_runtime.Prelude.{◌≡◌, refl, [], ◌∷◌, List, some}
use neuriplo_kserve_runtime.ModelState.{
  Machine, machine, unloaded, unloading, Call, starts_load, marks_ready, begins_unload, resets,
  call, run, on_transition,
}
use neuriplo_kserve_runtime.ModelState.Trace.{Chain, run-Chain}
use neuriplo_kserve_runtime.ModelState.Calls.{Answer, call-Answer}

abbrev watched : Machine
watched = record { state = unloaded; observers = some 7 ∷ []; notices = [] }

abbrev morning : List Call
morning = starts_load ∷ marks_ready ∷ starts_load ∷ begins_unload ∷ []

on_transition_runs : on_transition machine (some 7) ≡ watched
unfolding on_transition machine
on_transition_runs = refl

run-morning : (run morning watched).state ≡ unloading
unfolding run call
run-morning = refl

call-Answer_example : Answer resets watched
call-Answer_example = call-Answer resets watched

run-Chain_example : Chain 7 unloaded (run morning watched).notices (run morning watched).state
run-Chain_example = run-Chain 7 watched morning refl refl
