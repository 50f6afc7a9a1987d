-- ===== src/Pipeline/Executor/LastUse.antt =====
-- src/PipelineExecutor.cpp, `indexLastUse`: a tensor is not needed behind its last use.
use neuriplo_kserve_runtime.Prelude.{
  ℕ, suc, String, Bool, true, false, ◌||◌, List, [], ◌∷◌, Option, none, some, ◌≡◌, refl, sym, ap,
  ◌∙◌, subst, arith, if◌then◌else◌, if_both, ◌==◌, ◌≤◌, Map, lookup, put, without, lookup-put,
  lookup-without, Bool-cases, inl, inr, ◌⊎◌,
}
use neuriplo_kserve_runtime.Lifecycle.{TensorMetadata}
use neuriplo_kserve_runtime.Pipeline.Config.{contains}
use neuriplo_kserve_runtime.Pipeline.Executor.{
  Step, reads, index_reads, index_steps, erase_outputs, is_last_use,
}

unfoldable pub used : List Step → String → Bool
used [] n = false
used (step ∷ rest) n = contains (reads step) n || used rest n

abbrev pub names : List TensorMetadata → List String
names [] = []
names (declared ∷ rest) = declared.name ∷ names rest

-- What is read at steps from `index` on is last used there.
index_reads-later :
    (index : ℕ) (rs : List String) (n : String) (m : Map ℕ)
    → lookup n (index_reads index rs m) ≡ (if contains rs n then some index else lookup n m)
unfolding index_reads
index_reads-later index [] n m = refl
index_reads-later index (r ∷ rs) n m =
    index_reads-later index rs n (put r index m)
    ∙ ap (λ o. if contains rs n then some index else o) (lookup-put n r index m)
    ∙ ground arith

abbrev From : ℕ → Option ℕ → Type 0
From k none = ⊥
From k (some last) = k ≤ last

index_reads-From :
    (k index : ℕ) (rs : List String) (n : String) (m : Map ℕ)
    → k ≤ index
    → (contains rs n ≡ true) ⊎ From k (lookup n m)
    → From k (lookup n (index_reads index rs m))
index_reads-From k index rs n m le h =
    subst (From k) (sym (index_reads-later index rs n m))
      (if_both (From k) (contains rs n) (λ _. le) (λ miss. kept miss h))
  where
    kept :
        contains rs n ≡ false → (contains rs n ≡ true) ⊎ From k (lookup n m) → From k (lookup n m)
    kept miss (inl hit) = cc
    kept miss (inr from) = from

pub index_steps-From :
    (k index : ℕ) (steps : List Step) (n : String) (m : Map ℕ)
    → k ≤ index
    → (used steps n ≡ true) ⊎ From k (lookup n m)
    → From k (lookup n (index_steps index steps m))
unfolding index_steps used
index_steps-From k index [] n m le (inr h) = h
index_steps-From k index [] n m le (inl e) = cc
index_steps-From k index (s ∷ rest) n m le h =
    index_steps-From k (suc index) rest n _ (omega arith) (behind h)
  where
    behind :
        (contains (reads s) n || used rest n ≡ true) ⊎ From k (lookup n m)
        → (used rest n ≡ true) ⊎ From k (lookup n (index_reads index (reads s) m))
    behind (inr from) = inr (index_reads-From k index (reads s) n m le (inr from))
    behind (inl e) = elim (Bool-cases (contains (reads s) n)) [
      | inl hit ↦ inr (index_reads-From k index (reads s) n m le (inl hit))
      | inr miss ↦ inl (ground arith)
    ]

pub lookup-erase_outputs :
    (n : String) (outs : List TensorMetadata) (m : Map ℕ)
    → lookup n (erase_outputs outs m) ≡ (if contains (names outs) n then none else lookup n m)
unfolding erase_outputs
lookup-erase_outputs n [] m = refl
lookup-erase_outputs n (d ∷ rest) m =
    lookup-erase_outputs n rest (without d.name m)
    ∙ ap (λ o. if contains (names rest) n then none else o) (lookup-without n d.name m)
    ∙ ground arith

abbrev pub needed : List TensorMetadata → List Step → String → Bool
needed outs steps n = used steps n || contains (names outs) n

-- A tensor whose last use is in this step is needed neither behind it nor at the end.
pub last_use-unneeded :
    (outs : List TensorMetadata) (index : ℕ) (step : Step) (rest : List Step) (m : Map ℕ)
    (n : String)
    → is_last_use (erase_outputs outs (index_steps index (step ∷ rest) m)) index n ≡ true
    → needed outs rest n ≡ false
unfolding is_last_use index_steps
last_use-unneeded outs index step rest m n h =
    at (contains (names outs) n) (used rest n) (lookup n behind)
      (λ e. index_steps-From (suc index) (suc index) rest n _ (omega arith) (inl e))
      (subst (λ o. (elim o [ none ↦ false | some last ↦ last == index ]) ≡ true)
        (lookup-erase_outputs n outs behind) h)
  where
    behind : Map ℕ
    behind = index_steps (suc index) rest (index_reads index (reads step) m)

    at :
        (out later : Bool) (o : Option ℕ)
        → (later ≡ true → From (suc index) o)
        → (elim (if out then none else o) as (λ o. Bool) [
          | none ↦ false
          | some last ↦ last == index
        ])
          ≡ true
        → later || out ≡ false
    at true later o from e = cc
    at false false o from e = refl
    at false true none from e = elim (from refl) [ ]
    at false true (some last) from e = let le = from refl in ground arith
