-- ===== src/Pipeline/Executor/Shapes.antt =====
-- src/PipelineExecutor.cpp, `adoptDeclaredShape`: relabelling a tensor's shape.
use neuriplo_kserve_runtime.Prelude.{
  ℕ, suc, true, not, ◌||◌, List, [], ◌∷◌, ◌++◌, ◌≡◌, refl, ap, ap₂, ◌∙◌, arith, replicate, if_both,
  ==_iff, ◌==◌, str_eq,
}
use neuriplo_kserve_runtime.Request.{OutputTensor}
use neuriplo_kserve_runtime.Lifecycle.{TensorMetadata}
use neuriplo_kserve_runtime.Pipeline.Executor.{
  trim, same_shape, has_dynamic, same_after_dropping_leading_ones, adopt_declared_shape,
}

-- The shape with all but its leading ones, which may have been added or removed.
pub record Relabelled (before after : OutputTensor) : Type 0 where
  pub core : List ℕ
  pub ones_before : ℕ
  pub ones_after : ℕ
  pub before_shape : before.shape ≡ replicate ones_before 1 ++ core
  pub after_shape : after.shape ≡ replicate ones_after 1 ++ core
  pub rest_kept : after ≡ record before { shape = after.shape }

trim-ones : (shape : List ℕ) → (k : ℕ) × (shape ≡ replicate k 1 ++ trim shape)
unfolding trim
trim-ones [] = (0, refl)
trim-ones (dim ∷ []) = (0, refl)
trim-ones (dim ∷ next ∷ rest) =
    if_both (λ s. (k : ℕ) × (dim ∷ next ∷ rest ≡ replicate k 1 ++ s)) (dim == 1)
      (λ one. step ((==_iff dim 1).0 one) (trim-ones (next ∷ rest))) (λ _. (0, refl))
  where
    step :
        dim ≡ 1
        → (k : ℕ) × (next ∷ rest ≡ replicate k 1 ++ trim (next ∷ rest))
        → (k : ℕ) × (dim ∷ next ∷ rest ≡ replicate k 1 ++ trim (next ∷ rest))
    step e (k, h) = (suc k, ap₂ (λ d ds. d ∷ ds) e h)

same_shape→≡ : (xs ys : List ℕ) → same_shape xs ys ≡ true → xs ≡ ys
same_shape→≡ [] [] h = refl
same_shape→≡ [] (y ∷ ys) h = cc
same_shape→≡ (x ∷ xs) [] h = cc
same_shape→≡ (x ∷ xs) (y ∷ ys) h =
    ap₂ (λ d ds. d ∷ ds) (ground arith) (same_shape→≡ xs ys (ground arith))

unchanged : (t : OutputTensor) → Relabelled t t
unchanged t = record {
  core = t.shape;
  ones_before = 0;
  ones_after = 0;
  before_shape = refl;
  after_shape = refl;
  rest_kept = refl;
}

dropped :
    (declared : List ℕ) (t : OutputTensor)
    → same_after_dropping_leading_ones declared t.shape ≡ true
    → Relabelled t (record t { shape = declared })
unfolding same_after_dropping_leading_ones
dropped declared t same =
    let (k, e) = trim-ones declared in
    let (l, e') = trim-ones t.shape in
    record {
      core = trim t.shape;
      ones_before = l;
      ones_after = k;
      before_shape = e';
      after_shape =
          e ∙ ap (λ s. replicate k 1 ++ s) (same_shape→≡ (trim declared) (trim t.shape) same);
      rest_kept = refl;
    }

-- Before a tensor is given to a model its shape may be relabelled, but only by dimensions of extent 1
-- added in front or taken off there: what is behind them, the bytes and all else stay as they are,
-- so that no tensor is transposed.
pub adopt_declared_shape-Relabelled :
    (declared_inputs : List TensorMetadata) (t : OutputTensor)
    → Relabelled t (adopt_declared_shape declared_inputs t)
unfolding adopt_declared_shape
adopt_declared_shape-Relabelled [] t = unchanged t
adopt_declared_shape-Relabelled (declared ∷ rest) t =
    let behind = adopt_declared_shape-Relabelled rest t in
    if_both (Relabelled t) (not (str_eq declared.name t.name)) (λ _. behind)
      λ _.
        if_both (Relabelled t) (same_shape declared.shape t.shape || has_dynamic declared.shape)
          (λ _. unchanged t)
          λ _.
            if_both (Relabelled t) (same_after_dropping_leading_ones declared.shape t.shape)
              (λ same. dropped declared.shape t same) (λ _. unchanged t)
