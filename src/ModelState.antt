-- ===== src/ModelState.antt =====
-- src/ModelState.hpp and src/ModelStateMachine.hpp: the states of a model, the transition table,
-- and the machine that applies it and tells its observers.
pub mod Diagram
pub mod Calls
pub mod Trace
mod Examples
use neuriplo_kserve_runtime.Prelude.{
  ℕ, String, Bool, true, false, not, ◌&&◌, ◌||◌, List, [], ◌∷◌, ◌++◌, Option, none, some,
  if◌then◌else◌,
}

pub data State : Type 0 where
  unloaded loading ready failed unavailable unloading : State

pub model_state_name : State → String
model_state_name unloaded = "UNLOADED"
model_state_name loading = "LOADING"
model_state_name ready = "READY"
model_state_name failed = "FAILED"
model_state_name unavailable = "UNAVAILABLE"
model_state_name unloading = "UNLOADING"

-- `==` of the enumeration.
abbrev pub state_eq : State → State → Bool
state_eq unloaded unloaded = true
state_eq loading loading = true
state_eq ready ready = true
state_eq failed failed = true
state_eq unavailable unavailable = true
state_eq unloading unloading = true
state_eq _ _ = false

unfoldable pub is_valid_transition : State → State → Bool
is_valid_transition unloaded next = state_eq next loading
is_valid_transition loading next =
    state_eq next ready || state_eq next failed || state_eq next unavailable
is_valid_transition ready next = state_eq next unloading || state_eq next unavailable
is_valid_transition unloading next = state_eq next unloaded
is_valid_transition failed next = state_eq next unloaded
is_valid_transition unavailable next = state_eq next ready || state_eq next unloaded

-- What one observer was told: which observer, and the two ends of the transition.
pub record Notice : Type 0 where
  pub observer : ℕ
  pub from : State
  pub to : State

-- An observer is a callback, named here by a number; an empty `std::function` is `none`. The calls
-- made are kept in `notices`, newest last.
pub record Machine : Type 0 where
  pub state : State
  pub observers : List (Option ℕ)
  pub notices : List Notice

unfoldable pub machine : Machine
machine = record { state = unloaded; observers = []; notices = [] }

pub told : State → State → List (Option ℕ) → List Notice
told from to [] = []
told from to (none ∷ rest) = told from to rest
told from to (some o ∷ rest) = record { observer = o; from = from; to = to } ∷ told from to rest

unfoldable pub notify : State → State → Machine → Machine
notify from to m = record m { notices = m.notices ++ told from to m.observers }

unfoldable pub transition_to : Machine → State → Machine × Bool
unfolding is_valid_transition notify
transition_to m next =
    if not (is_valid_transition m.state next)
    then (m, false)
    else (notify m.state next (record m { state = next }), true)

unfoldable pub start_load : Machine → Machine × Bool
unfolding transition_to
start_load m = transition_to m loading

unfoldable pub mark_ready : Machine → Machine × Bool
unfolding transition_to
mark_ready m = transition_to m ready

unfoldable pub mark_failed : Machine → Machine × Bool
unfolding transition_to
mark_failed m = transition_to m failed

unfoldable pub mark_unavailable : Machine → Machine × Bool
unfolding transition_to
mark_unavailable m = transition_to m unavailable

unfoldable pub begin_unload : Machine → Machine × Bool
unfolding transition_to
begin_unload m = transition_to m unloading

unfoldable pub complete_unload : Machine → Machine × Bool
unfolding transition_to
complete_unload m = transition_to m unloaded

unfoldable pub reset : Machine → Machine × Bool
unfolding transition_to
reset m = if state_eq m.state unloaded then (m, false) else transition_to m unloaded

unfoldable pub is_loaded : Machine → Bool
is_loaded m = state_eq m.state ready

unfoldable pub is_terminal : Machine → Bool
is_terminal m = state_eq m.state failed || state_eq m.state unavailable

unfoldable pub on_transition : Machine → Option ℕ → Machine
on_transition m o = record m { observers = m.observers ++ o ∷ [] }

-- The calls that a client can make of the machine.
pub data Call : Type 0 where
  starts_load marks_ready marks_failed marks_unavailable begins_unload completes_unload : Call
  resets : Call

unfoldable pub call : Call → Machine → Machine × Bool
unfolding start_load mark_ready mark_failed mark_unavailable begin_unload complete_unload reset
call starts_load m = start_load m
call marks_ready m = mark_ready m
call marks_failed m = mark_failed m
call marks_unavailable m = mark_unavailable m
call begins_unload m = begin_unload m
call completes_unload m = complete_unload m
call resets m = reset m

pub run : List Call → Machine → Machine
unfolding call
run [] m = m
run (c ∷ cs) m = run cs (call c m).0
