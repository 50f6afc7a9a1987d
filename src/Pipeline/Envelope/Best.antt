-- ===== src/Pipeline/Envelope/Best.antt =====
-- src/PipelineEnvelope.cpp, `pipelineTopScoreIndices`: the best detections are kept.
use neuriplo_kserve_runtime.Prelude.{
  ℕ, zero, suc, ◌+◌, ◌≤◌, ◌≡◌, refl, sym, ap, ap₂, ◌∙◌, subst, arith, Bool, true, false, ◌&&◌, List,
  [], ◌∷◌, ◌++◌, Option, none, some, if◌then◌else◌, if_both, inl, inr, ltb, leb, ◌==◌, get_elem?,
  length, drop, All, All-map, take-append-drop, length-take, ◌⊎◌, ◌<◌, All-both,
}
use neuriplo_kserve_runtime.Pipeline.Envelope.{
  Floats, score_before, before, iota, insert, stable_sort, pipeline_top_score_indices,
}

-- No later entry goes before an earlier one.
abbrev pub Ranked : (ℕ → ℕ → Bool) → List ℕ → Type 0
Ranked first [] = Unit
Ranked first (x ∷ xs) = All (λ y. first y x ≡ false) xs × Ranked first xs

abbrev pub count : ℕ → List ℕ → ℕ
count i [] = 0
count i (x ∷ xs) = (if x == i then 1 else 0) + count i xs

insert-All :
    (first : ℕ → ℕ → Bool) (P : ℕ → Type 0) (x : ℕ) (xs : List ℕ)
    → P x
    → All P xs
    → All P (insert first x xs)
unfolding insert
insert-All first P x [] p ps = (p, tt)
insert-All first P x (y ∷ ys) p (q, qs) =
    let rest = insert-All first P x ys p qs in
    if_both (All P) (first y x) (λ _. (q, rest)) (λ _. (p, (q, qs)))

stable_sort-All :
    (first : ℕ → ℕ → Bool) (P : ℕ → Type 0) (xs : List ℕ) → All P xs → All P (stable_sort first xs)
unfolding stable_sort
stable_sort-All first P [] h = tt
stable_sort-All first P (x ∷ xs) (h, hs) =
    insert-All first P x (stable_sort first xs) h (stable_sort-All first P xs hs)

module _ (first : ℕ → ℕ → Bool) (asym : (x y : ℕ) → first x y ≡ true → first y x ≡ false)
    (chain : (x y z : ℕ) → first x y ≡ false → first y z ≡ false → first x z ≡ false) where
  insert-Ranked : (x : ℕ) (xs : List ℕ) → Ranked first xs → Ranked first (insert first x xs)
  unfolding insert
  insert-Ranked x [] h = (tt, tt)
  insert-Ranked x (y ∷ ys) (h, hs) =
      let rest = insert-Ranked x ys hs in
      if_both (Ranked first) (first y x)
        (λ e. (insert-All first (λ z. first z y ≡ false) x ys (asym y x e) h, rest))
        (λ e. ((e, All-map ys (λ z f. chain z y x f e) h), (h, hs)))

  stable_sort-Ranked : (xs : List ℕ) → Ranked first (stable_sort first xs)
  unfolding stable_sort
  stable_sort-Ranked [] = tt
  stable_sort-Ranked (x ∷ xs) = insert-Ranked x (stable_sort first xs) (stable_sort-Ranked xs)

count-insert :
    (first : ℕ → ℕ → Bool) (i x : ℕ) (xs : List ℕ) → count i (insert first x xs) ≡ count i (x ∷ xs)
unfolding insert
count-insert first i x [] = refl
count-insert first i x (y ∷ ys) =
    let ih = count-insert first i x ys in
    if_both (λ l. count i l ≡ count i (x ∷ y ∷ ys)) (first y x) (λ _. omega (arith, ih)) (λ _. refl)

count-stable_sort :
    (first : ℕ → ℕ → Bool) (i : ℕ) (xs : List ℕ) → count i (stable_sort first xs) ≡ count i xs
unfolding stable_sort
count-stable_sort first i [] = refl
count-stable_sort first i (x ∷ xs) =
    let ih = count-stable_sort first i xs in
    omega (arith, ih, count-insert first i x (stable_sort first xs))

count-iota :
    (i from n : ℕ) → count i (iota from n) ≡ (if leb from i && ltb i (from + n) then 1 else 0)
unfolding iota
count-iota i from zero = ground arith
count-iota i from (suc n) = let ih = count-iota i (suc from) n in ground arith

-- The laws of `>`, which hold of IEEE 754 numbers that are no NaN.
pub record Laws {F : Type 0} (floats : Floats F) : Type 0 where
  pub asym : (a b : F) → floats.greater a b ≡ true → floats.greater b a ≡ false
  pub chain :
      (a b c : F)
      → floats.is_nan b ≡ false
      → floats.greater a b ≡ false
      → floats.greater b c ≡ false
      → floats.greater a c ≡ false

module _ {F : Type 0} (floats : Floats F) (laws : Laws floats) where
  score_before-asym :
      (a b : Option F) → score_before floats a b ≡ true → score_before floats b a ≡ false
  unfolding score_before
  score_before-asym none none h = refl
  score_before-asym none (some b) h = ground arith
  score_before-asym (some a) none h = ground arith
  score_before-asym (some a) (some b) h = let e = laws.asym a b in ground arith

  score_before-chain :
      (a b c : Option F)
      → score_before floats a b ≡ false
      → score_before floats b c ≡ false
      → score_before floats a c ≡ false
  unfolding score_before
  score_before-chain none b c h k = refl
  score_before-chain (some a) none none h k = ground arith
  score_before-chain (some a) none (some c) h k = ground arith
  score_before-chain (some a) (some b) none h k = ground arith
  score_before-chain (some a) (some b) (some c) h k = let e = laws.chain a b c in ground arith

-- The score at `i` is at least as good as the one at `j`: that one is no number, or both are numbers
-- and the one at `j` is not greater.
abbrev pub AtLeast : {F : Type 0} → Floats F → List F → ℕ → ℕ → Type 0
AtLeast {F} floats scores i j =
    (a : F) × (b : F) × (get_elem? scores i ≡ some a)
    × (get_elem? scores j ≡ some b)
    × ((floats.is_nan b ≡ true)
        ⊎ ((floats.is_nan a ≡ false) × (floats.is_nan b ≡ false) × (floats.greater b a ≡ false)))

-- Each entry stands in the relation to all behind it.
abbrev pub Ordered : (ℕ → ℕ → Type 0) → List ℕ → Type 0
Ordered R [] = Unit
Ordered R (x ∷ xs) = All (R x) xs × Ordered R xs

abbrev Found : {F : Type 0} → List F → ℕ → Type 0
Found {F} scores i = (a : F) × (get_elem? scores i ≡ some a)

get_elem?-Found : {F : Type 0} (scores : List F) (i : ℕ) → i < length scores → Found scores i
get_elem?-Found [] i h = let absurd : ⊥ = grind arith in elim absurd [ ]
get_elem?-Found (a ∷ scores) zero h = (a, refl)
get_elem?-Found (a ∷ scores) (suc i) h = get_elem?-Found scores i (omega arith)

iota-All : (from n m : ℕ) → from + n ≤ m → All (λ i. i < m) (iota from n)
unfolding iota
iota-All from zero m h = tt
iota-All from (suc n) m h = (omega arith, iota-All (suc from) n m (omega arith))

module _ {F : Type 0} (floats : Floats F) (scores : List F) where
  score_before-AtLeast :
      (a b : F)
      → score_before floats (some b) (some a) ≡ false
      → (floats.is_nan b ≡ true)
        ⊎ ((floats.is_nan a ≡ false) × (floats.is_nan b ≡ false) × (floats.greater b a ≡ false))
  unfolding score_before
  score_before-AtLeast a b h = ground arith

  before-AtLeast :
      (i j : ℕ)
      → Found scores i
      → Found scores j
      → before floats scores j i ≡ false
      → AtLeast floats scores i j
  unfolding before
  before-AtLeast i j (a, e) (b, f) h =
      (a, b, e, f, score_before-AtLeast a b (sym (ap₂ (score_before floats) f e) ∙ h))

  Ranked-Ordered :
      (xs : List ℕ)
      → All (Found scores) xs
      → Ranked (before floats scores) xs
      → Ordered (AtLeast floats scores) xs
  Ranked-Ordered [] f h = tt
  Ranked-Ordered (x ∷ xs) (f, fs) (h, hs) = (
    All-map xs (λ y r. before-AtLeast x y f r.0 r.1)
        (All-both (Found scores) (λ y. before floats scores y x ≡ false) xs fs h),
    Ranked-Ordered xs fs hs,
  )

-- The indices that are kept, the best first, and those that were dropped behind them.
pub record Best {F : Type 0} (floats : Floats F) (scores : List F) (cap : ℕ) (top : List ℕ)
    : Type 0 where
  pub dropped : List ℕ
  pub ranked : Ordered (AtLeast floats scores) (top ++ dropped)
  pub each_once : (i : ℕ) → count i (top ++ dropped) ≡ (if ltb i (length scores) then 1 else 0)
  pub filled : (length top ≡ cap) ⊎ ((length top ≤ cap) × (dropped ≡ []))

append-nil : (xs : List ℕ) → xs ++ [] ≡ xs
append-nil [] = refl
append-nil (x ∷ xs) = ap (λ l. x ∷ l) (append-nil xs)

-- The indices that are kept are the best. Kept and dropped ones together are the indices of the
-- scores, each once; in their order, the kept ones first, the score at every index is at least as
-- good as each of those behind: no number is greater than one before it, and those that are no
-- numbers stand behind all numbers. As many are kept as the cap allows. Given the laws of the order
-- of floats.
pub pipeline_top_score_indices-Best :
    {F : Type 0} (floats : Floats F) (scores : List F) (cap : ℕ)
    → Laws floats
    → Best floats scores cap (pipeline_top_score_indices floats scores cap)
unfolding pipeline_top_score_indices
pipeline_top_score_indices-Best floats scores cap laws =
    if_both (Best floats scores cap) (ltb cap (length sorted))
      (λ more. record {
        dropped = drop cap sorted;
        ranked =
            subst (Ordered (AtLeast floats scores)) (sym (take-append-drop cap sorted)) all_ranked;
        each_once = λ i. ap (count i) (take-append-drop cap sorted) ∙ once i;
        filled = inl (let e = length-take cap sorted in ground arith);
      })
      (λ fits. record {
        dropped = [];
        ranked = subst (Ordered (AtLeast floats scores)) (sym (append-nil sorted)) all_ranked;
        each_once = λ i. ap (count i) (append-nil sorted) ∙ once i;
        filled = inr (ground arith, refl);
      })
  where
    first : ℕ → ℕ → Bool
    first = before floats scores

    sorted : List ℕ
    sorted = stable_sort first (iota 0 (length scores))

    all_ranked : Ordered (AtLeast floats scores) sorted
    all_ranked =
        Ranked-Ordered floats scores sorted
          (stable_sort-All first (Found scores) (iota 0 (length scores)) (
            All-map (iota 0 (length scores)) (λ i h. get_elem?-Found scores i h)
              (iota-All 0 (length scores) (length scores) (omega arith))))
          (stable_sort-Ranked first
            (λ x y. score_before-asym floats laws (get_elem? scores x) (get_elem? scores y))
            (λ x y z.
              score_before-chain floats laws (get_elem? scores x) (get_elem? scores y)
                (get_elem? scores z))
            (iota 0 (length scores)))

    once : (i : ℕ) → count i sorted ≡ (if ltb i (length scores) then 1 else 0)
    once i =
        let e = count-stable_sort first i (iota 0 (length scores)) in
        let c = count-iota i 0 (length scores) in ground arith
