-- ===== src/Pipeline/Envelope/Examples.antt =====
-- The best two of three scores, one of which is no number.
use neuriplo_kserve_runtime.Prelude.{ℕ, [], ◌∷◌, arith, ltb, ◌==◌}
use neuriplo_kserve_runtime.Pipeline.Envelope.{Floats, pipeline_top_score_indices}
use neuriplo_kserve_runtime.Pipeline.Envelope.Best.{Laws, Best, pipeline_top_score_indices-Best}

-- Numbers, of which 99 stands for one that is no number.
abbrev scale : Floats ℕ
scale = record { is_nan = λ a. a == 99; greater = λ a b. ltb b a }

scale-Laws : Laws scale
scale-Laws = record { asym = λ a b h. ground arith; chain = λ a b c n h k. ground arith }

pipeline_top_score_indices-Best_example :
    Best scale (99 ∷ 3 ∷ 7 ∷ []) 2 (pipeline_top_score_indices scale (99 ∷ 3 ∷ 7 ∷ []) 2)
pipeline_top_score_indices-Best_example =
    pipeline_top_score_indices-Best scale (99 ∷ 3 ∷ 7 ∷ []) 2 scale-Laws
