-- ===== src/Errors/Examples.antt =====
-- Three stages over a counter, of which the third answers.
use neuriplo_kserve_runtime.Prelude.{ℕ, ◌+◌, ◌≡◌, refl, [], ◌∷◌, ◌++◌, Option, none, some}
use neuriplo_kserve_runtime.Errors.{run, through, skip, pass, run-Passes}

abbrev counts : ℕ → ℕ × Option ℕ
counts n = (n + 1, none)

abbrev answers : ℕ → ℕ × Option ℕ
answers n = (n + 10, some n)

run-Passes_example :
    run 0 ((some counts ∷ none ∷ []) ++ some answers ∷ some counts ∷ []) 4 ≡ (15, 5)
run-Passes_example =
    run-Passes 0 (some counts ∷ none ∷ []) (some counts ∷ []) answers 4 5 15 5
      (pass refl (skip through)) refl
