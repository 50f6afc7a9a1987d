-- ===== src/ModelState/Trace.antt =====
-- What a history of calls leaves behind at an observer.
use neuriplo_kserve_runtime.Prelude.{◌≡◌, List, [], ◌∷◌, ◌++◌, some, ℕ}
use neuriplo_kserve_runtime.ModelState.{State, Machine, Notice, told, Call, call, run}
use neuriplo_kserve_runtime.ModelState.Diagram.{◌⟶◌, Outcome, kept, moved, call-Outcome}

-- The notices of a lone observer `o`, from state `s` on, lead edge by edge to state `t`.
pub data Chain (o : ℕ) : State → List Notice → State → Type 0 where
  done : {s : State} → Chain o s [] s
  link :
      {s t u : State} {rest : List Notice}
      → s ⟶ t
      → Chain o t rest u
      → Chain o s (record { observer = o; from = s; to = t } ∷ rest) u

Chain-snoc :
    {o : ℕ} {s t u : State} {ns : List Notice}
    → Chain o s ns t
    → t ⟶ u
    → Chain o s (ns ++ record { observer = o; from = t; to = u } ∷ []) u
Chain-snoc done e = link e done
Chain-snoc (link e c) e' = link e (Chain-snoc c e')

Heard : ℕ → State → Machine → Type 0
Heard o s m = (m.observers ≡ some o ∷ []) × Chain o s m.notices m.state

call-Heard : (o : ℕ) (s : State) (c : Call) (m : Machine) → Heard o s m → Heard o s (call c m).0
unfolding Heard told
call-Heard o s c m (alone, chain) = go (call-Outcome c m)
  where
    go : Outcome c m → Heard o s (call c m).0
    go (kept _ e) = rw e (alone, chain)
    go (moved edge e) = rw e (alone, rw alone (Chain-snoc chain edge))

run-Heard : (o : ℕ) (s : State) (cs : List Call) (m : Machine) → Heard o s m → Heard o s (run cs m)
unfolding run
run-Heard o s [] m h = h
run-Heard o s (c ∷ cs) m h = run-Heard o s cs (call c m).0 (call-Heard o s c m h)

-- A machine's lone observer hears a gapless account of the walk: each notice starts where the last
-- one ended, and the last one ends in the current state, whatever calls are made.
pub run-Chain :
    (o : ℕ) (m : Machine) (cs : List Call)
    → m.observers ≡ some o ∷ []
    → m.notices ≡ []
    → Chain o m.state (run cs m).notices (run cs m).state
unfolding Heard
run-Chain o m cs alone fresh = (run-Heard o m.state cs m (alone, rw fresh done)).1
