-- ===== src/ModelState/Diagram.antt =====
-- The transition diagram of src/ModelState.hpp as a relation, and the machine against it.
use neuriplo_kserve_runtime.Prelude.{
  ◌≡◌, refl, inl, inr, ◌↔◌, true, false, ◌++◌, arith, Bool-cases, ◌∙◌,
}
use neuriplo_kserve_runtime.ModelState.{
  State, unloaded, loading, ready, failed, unavailable, unloading, is_valid_transition, Machine,
  told, transition_to, Call, starts_load, marks_ready, marks_failed, marks_unavailable,
  begins_unload, completes_unload, resets, call,
}

infix 40 ◌⟶◌
pub data ◌⟶◌ : State → State → Type 0 where
  begin : unloaded ⟶ loading
  came_up : loading ⟶ ready
  broke : loading ⟶ failed
  refused : loading ⟶ unavailable
  drain : ready ⟶ unloading
  lost : ready ⟶ unavailable
  gone : unloading ⟶ unloaded
  clear_failed : failed ⟶ unloaded
  back : unavailable ⟶ ready
  clear_unavailable : unavailable ⟶ unloaded

ruleset edges =
    (begin, came_up, broke, refused, drain, lost, gone, clear_failed, back, clear_unavailable)

-- The table of the code is exactly the diagram.
pub is_valid_transition_iff : (s t : State) → (is_valid_transition s t ≡ true) ↔ (s ⟶ t)
unfolding is_valid_transition
is_valid_transition_iff s t = (sound s t, complete)
  where
    sound : (s t : State) → is_valid_transition s t ≡ true → s ⟶ t
    sound s t h = grind (arith, edges)

    complete : {s t : State} → s ⟶ t → is_valid_transition s t ≡ true
    complete begin = refl
    complete came_up = refl
    complete broke = refl
    complete refused = refl
    complete drain = refl
    complete lost = refl
    complete gone = refl
    complete clear_failed = refl
    complete back = refl
    complete clear_unavailable = refl

-- The state that a call asks for.
abbrev pub target : Call → State
target starts_load = loading
target marks_ready = ready
target marks_failed = failed
target marks_unavailable = unavailable
target begins_unload = unloading
target completes_unload = unloaded
target resets = unloaded

call-transition_to : (c : Call) (m : Machine) → call c m ≡ transition_to m (target c)
unfolding call
call-transition_to c m = ground arith

-- What a call makes of the machine: nothing when it is refused, and otherwise one edge of the
-- diagram, of which every observer is told once, in the order of registration.
pub data Outcome (c : Call) (m : Machine) : Type 0 where
  kept : is_valid_transition m.state (target c) ≡ false → call c m ≡ (m, false) → Outcome c m
  moved :
      m.state ⟶ target c
      → call c m ≡ (
        record m { state = target c; notices = m.notices ++ told m.state (target c) m.observers },
        true,
      )
      → Outcome c m

-- A call either follows the edge of the diagram to its state, and then every observer that is not
-- empty is told of both ends in order, or there is no such edge and the machine stays as it is; the
-- result says which.
pub call-Outcome : (c : Call) (m : Machine) → Outcome c m
call-Outcome c m = elim (Bool-cases (is_valid_transition m.state (target c))) [
  | inl valid ↦
      moved ((is_valid_transition_iff m.state (target c)).0 valid)
        (call-transition_to c m ∙ accepted m (target c) valid)
  | inr no_edge ↦ kept no_edge (call-transition_to c m ∙ rejected m (target c) no_edge)
]
  where
    accepted :
        (m : Machine) (t : State)
        → is_valid_transition m.state t ≡ true
        → transition_to m t
          ≡ (record m { state = t; notices = m.notices ++ told m.state t m.observers }, true)
    accepted m t h = unfold transition_to in ground arith

    rejected :
        (m : Machine) (t : State)
        → is_valid_transition m.state t ≡ false
        → transition_to m t ≡ (m, false)
    rejected m t h = unfold transition_to in ground arith
