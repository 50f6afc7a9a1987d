-- ===== src/Batching/Split/Defined.antt =====
-- Splitting is defined for any payload, also for one that does not fit its shape.
use neuriplo_kserve_runtime.Prelude.{
  ℕ, suc, ◌+◌, ◌*◌, ◌≤◌, ◌<◌, ◌^◌, false, List, [], ◌∷◌, ◌++◌, map, some, ◌≡◌, ◌≢◌, refl, sym, ◌∙◌,
  arith, length, length-map, take, drop, All, inl, inr, Bool-cases,
}
use native.Mathlib.Nat.{add-mul}
use neuriplo_kserve_runtime.Request.{OutputTensor, ExecutionRequest, ExecutionResponse}
use neuriplo_kserve_runtime.Tensor.{tensor_element_size}
use neuriplo_kserve_runtime.Batching.Merge.{u64, accumulate}
use neuriplo_kserve_runtime.Batching.Split.{
  shape_element_count, slice_element_count, rows_differ, Cut, cut, mismatch, undefined, cut_range,
  split_output, split_outputs, split_from, split_execution_response, backend_error,
}
use neuriplo_kserve_runtime.Batching.Split.Rows.{
  total, accumulate_lem, u64_of_lt, scaled, u64_scaled,
}
use neuriplo_kserve_runtime.Batching.Split.Shares.{at}

-- The size in bytes that the shape of an output asks for fits in 64 bits.
abbrev pub Fits : List ℕ → ℕ → Type 0
Fits [] e = Unit
Fits (d ∷ ds) e = d * slice_element_count (d ∷ ds) * e < 2 ^ 64

abbrev pub Plain : OutputTensor → Type 0
Plain o = Fits o.shape (tensor_element_size o.datatype)

cut_range_defined :
    (o : OutputTensor) (n e start finish : ℕ)
    → start ≤ finish
    → cut_range o n e start finish ≢ undefined
unfolding cut_range
cut_range_defined o n e start finish h = ground arith

-- The bounds of the range, as the code computes them.
abbrev start_of : ℕ → OutputTensor → ℕ
start_of offset o =
    u64 (u64 (offset * slice_element_count o.shape) * tensor_element_size o.datatype)

abbrev finish_of : ℕ → ℕ → OutputTensor → ℕ
finish_of offset n o = u64 (start_of offset o + start_of n o)

-- Where every check passes the range does not end before it starts.
abbrev Ordered : List ℕ → ℕ → ℕ → OutputTensor → Type 0
Ordered ns offset n o =
    rows_differ o.shape (accumulate 0 ns) ≡ false
    → 0 < tensor_element_size o.datatype
    → u64 (shape_element_count o.shape * tensor_element_size o.datatype) ≡ length o.bytes
    → 0 < slice_element_count o.shape
    → start_of offset o ≤ length o.bytes
    → start_of offset o ≤ finish_of offset n o

split_output-Ordered :
    (ns : List ℕ) (offset n : ℕ) (o : OutputTensor)
    → Ordered ns offset n o
    → split_output ns offset n o ≢ undefined
unfolding split_output
split_output-Ordered ns offset n o h e = ground (
  arith,
  cut_range_defined o n (tensor_element_size o.datatype) (start_of offset o) (finish_of offset n o),
)

empty_count :
    (o : OutputTensor)
    → o.shape ≡ []
    → u64 (shape_element_count o.shape * tensor_element_size o.datatype) ≡ 0
unfolding shape_element_count
empty_count o p = rw p (omega arith)

same_rows :
    (ns : List ℕ) (o : OutputTensor) (d : ℕ) (ds : List ℕ)
    → o.shape ≡ d ∷ ds
    → total ns < 2 ^ 64
    → rows_differ o.shape (accumulate 0 ns) ≡ false
    → d ≡ total ns
unfolding rows_differ
same_rows ns o d ds p few h =
    let sum = accumulate_lem 0 ns (omega arith) in
    let differ : rows_differ (d ∷ ds) (accumulate 0 ns) ≡ false = rw p at h in ground arith

ordered :
    (ns : List ℕ) (offset n : ℕ) (o : OutputTensor)
    → offset + n ≤ total ns
    → total ns < 2 ^ 64
    → Plain o
    → Ordered ns offset n o
ordered ns offset n o inside few plain = go o.shape refl plain
  where
    go :
        (s : List ℕ) → o.shape ≡ s → Fits s (tensor_element_size o.datatype) → Ordered ns offset n o
    go [] p fits same typed filled some_row begins =
        let no_bytes : length o.bytes ≡ 0 = sym filled ∙ empty_count o p in omega arith
    go (d ∷ ds) p fits same typed filled some_row begins =
        let rows = same_rows ns o d ds p few same in
        let s = slice_element_count o.shape in
        let e = tensor_element_size o.datatype in
        let whole : total ns * s * e < 2 ^ 64 = rw (← rows, p) fits in
        let a = u64_scaled (total ns) s e some_row typed whole offset (omega arith) in
        let b = u64_scaled (total ns) s e some_row typed whole n (omega arith) in
        let sum = scaled (offset + n) (total ns) s e inside in
        rw (a, b)
          (rw (u64_of_lt (offset * s * e + n * s * e) (grind (arith, add-mul))) (omega arith))

split_output_defined :
    (ns : List ℕ) (offset n : ℕ) (o : OutputTensor)
    → offset + n ≤ total ns
    → total ns < 2 ^ 64
    → Plain o
    → split_output ns offset n o ≢ undefined
split_output_defined ns offset n o inside few plain =
    split_output-Ordered ns offset n o (ordered ns offset n o inside few plain)

split_outputs_defined :
    (ns : List ℕ) (offset n : ℕ) (os done : List OutputTensor)
    → offset + n ≤ total ns
    → total ns < 2 ^ 64
    → All Plain os
    → (r : ExecutionResponse) × (split_outputs ns offset n os done ≡ some r)
unfolding split_outputs
split_outputs_defined ns offset n [] done inside few ps = (_, refl)
split_outputs_defined ns offset n (o ∷ os) done inside few (p, ps) =
    go (split_output ns offset n o) refl
      (λ more. split_outputs_defined ns offset n os more inside few ps)
  where
    go :
        (c : Cut)
        → split_output ns offset n o ≡ c
        → ((more : List OutputTensor)
            → (r : ExecutionResponse) × (split_outputs ns offset n os more ≡ some r))
        → (r : ExecutionResponse) × (split_outputs ns offset n (o ∷ os) done ≡ some r)
    go undefined e rest = absurd (split_output_defined ns offset n o inside few p e)
    go (mismatch m) e rest = (backend_error m, rw (e, split_outputs))
    go (cut x) e rest = let (r, q) = rest (done ++ x ∷ []) in (r, rw (e, split_outputs) q)

module _ (batched : ExecutionResponse) (ns : List ℕ) (few : total ns < 2 ^ 64)
    (ps : All Plain batched.outputs) where
  split_from_defined :
      (rest : List ℕ) (i : ℕ) (sources : List ExecutionRequest)
      → drop i ns ≡ rest
      → length sources ≡ length rest
      → (rs : List ExecutionResponse) × (split_from batched ns i sources ≡ some rs)
        × (length rs ≡ length sources)
  unfolding split_from
  split_from_defined [] i [] e same = ([], refl, refl)
  split_from_defined [] i (r ∷ rs) e same = absurd (omega arith)
  split_from_defined (n ∷ rest) i [] e same = absurd (omega arith)
  split_from_defined (n ∷ rest) i (source ∷ sources) e same =
      let a = at ns i n rest e in
      let inside = a.inside in
      let so_far = accumulate_lem 0 (take i ns) (omega arith) in
      let exact : accumulate 0 (take i ns) ≡ total (take i ns) = omega (arith, so_far) in
      let (r, q) =
        split_outputs_defined ns (total (take i ns)) n batched.outputs [] inside few ps in
      let (rs, k, l) = split_from_defined rest (suc i) sources a.behind (omega arith) in
      (r ∷ rs, rw (a.found, split_from) (rw (exact, q) (rw k)), omega arith)

  -- A response whose outputs ask for less than 2 ^ 64 bytes each is split without a fault, whether
  -- or not its payloads fit, into one response for each request.
  pub split_execution_response_defined :
      (sources : List ExecutionRequest)
      → length sources ≡ length ns
      → (rs : List ExecutionResponse) × (split_execution_response batched ns sources ≡ some rs)
        × (length rs ≡ length sources)
  unfolding split_execution_response
  split_execution_response_defined sources same = elim (Bool-cases batched.ok) [
    | inl fine ↦ let (rs, e, l) = split_from_defined ns 0 sources refl same in (rs, simp fine e, l)
    | inr failed ↦ (map (λ _. batched) sources, simp failed, length-map sources (λ _. batched))
  ]
