-- ===== src/Batching/Merge/Bytes.antt =====
-- What the merge of compatible requests holds, said without its loops and early returns.
use neuriplo_kserve_runtime.Prelude.{
  ℕ, String, true, false, List, [], ◌∷◌, Option, none, some, ◌≡◌, refl, map, All, arith, length,
  drop, eq_iff, inl, inr, subst, ◌⊎◌, All-map, All-both, All-swap, str_eq, Bool-cases,
}
use neuriplo_kserve_runtime.Request.{InputTensor, ExecutionRequest, empty_request}
use neuriplo_kserve_runtime.Batching.Compat.{
  find_input_by_name, request_batch_size, batch_compatibility_error, is_empty, are_batch_compatible,
  is_none,
}
use neuriplo_kserve_runtime.Batching.Compat.Meaning.{Compatible, Partner, are_batch_compatible_iff}
use neuriplo_kserve_runtime.Batching.Merge.{
  ok, refused, MergedBatch, accumulate, with_batch, all_bytes, merge_input_tensors, collect_sizes,
  check_all, matching_inputs, merge_inputs, merge_execution_requests,
}

abbrev blank : InputTensor
blank = record { name = ""; datatype = ""; shape = []; bytes = []; string_data = [] }

-- The first input of a name; a blank one where there is none.
abbrev pub input_named : String → ExecutionRequest → InputTensor
input_named name r = elim (find_input_by_name r.inputs name) [ none ↦ blank | some i ↦ i ]

-- What becomes of an input of the front request: its first namesake there, with the batch sizes
-- added up in the first dimension, and the bytes of all namesakes in the order of the requests.
abbrev pub merged_input : ExecutionRequest → List ExecutionRequest → InputTensor → InputTensor
merged_input front rest reference =
    let first = input_named reference.name front in
    record first {
      shape = accumulate 0 (map request_batch_size (front ∷ rest)) ∷ drop 1 first.shape;
      bytes = all_bytes (map (input_named reference.name) (front ∷ rest));
    }

abbrev pub merged_batch : ExecutionRequest → List ExecutionRequest → MergedBatch
merged_batch front rest = record {
  request = record empty_request {
    requested_outputs = front.requested_outputs;
    inputs = map (merged_input front rest) front.inputs;
  };
  batch_sizes = map request_batch_size (front ∷ rest);
}

abbrev Named : String → ExecutionRequest → Type 0
Named name r = (i : InputTensor) × (find_input_by_name r.inputs name ≡ some i)

matching_inputs_lem :
    (name : String) (rs : List ExecutionRequest)
    → All (Named name) rs
    → matching_inputs name rs ≡ ok (map (input_named name) rs)
unfolding matching_inputs
matching_inputs_lem name [] h = refl
matching_inputs_lem name (r ∷ rs) ((i, e), h) = ground (arith, e, matching_inputs_lem name rs h)

collect_sizes_lem :
    (rs : List ExecutionRequest)
    → All (λ r. is_empty r.inputs ≡ false) rs
    → collect_sizes rs ≡ ok (map request_batch_size rs)
unfolding collect_sizes
collect_sizes_lem [] h = refl
collect_sizes_lem (r ∷ rs) (full, h) = rw (full, collect_sizes_lem rs h)

check_all_lem :
    (front : ExecutionRequest) (rs : List ExecutionRequest)
    → All (Compatible front) rs
    → check_all front rs ≡ ok tt
unfolding check_all
check_all_lem front [] h = refl
check_all_lem front (r ∷ rs) (c, h) = rw (none_at, check_all) (check_all_lem front rs h)
  where
    none_at : batch_compatibility_error front r ≡ none
    none_at = unfold are_batch_compatible in ground (arith, (are_batch_compatible_iff front r).1 c)

find_All {ℓ} :
    (P : InputTensor → Type ℓ) (is : List InputTensor) (name : String) {i : InputTensor}
    → All P is
    → find_input_by_name is name ≡ some i
    → P i
unfolding find_input_by_name
find_All P [] name h e = absurd (cc)
find_All P (x ∷ xs) name {i} h e = elim (Bool-cases (str_eq x.name name)) [
  | inl hit ↦ subst P (ground arith) h.0
  | inr miss ↦ find_All P xs name h.1 (ground arith)
]

-- An element's name is found.
Named_of_mem :
    (is : List InputTensor) (reference : InputTensor) (name : String)
    → (reference.name ≡ name) ⊎ ((i : InputTensor) × (find_input_by_name is name ≡ some i))
    → (i : InputTensor) × (find_input_by_name (reference ∷ is) name ≡ some i)
unfolding find_input_by_name
Named_of_mem is reference name (inl e) = (reference, ground (arith, eq_iff reference.name name))
Named_of_mem is reference name (inr (i, e)) = elim (Bool-cases (str_eq reference.name name)) [
  | inl hit ↦ (reference, rw hit)
  | inr miss ↦ (i, rw (miss, find_input_by_name) e)
]

All-Named :
    (is : List InputTensor)
    → All (λ x. (i : InputTensor) × (find_input_by_name is x.name ≡ some i)) is
All-Named [] = tt
All-Named (x ∷ xs) = (
  Named_of_mem xs x x.name (inl refl),
  All-map xs (λ y h. Named_of_mem xs x y.name (inr h)) (All-Named xs),
)

same_emptiness :
    (xs ys : List InputTensor) → length xs ≡ length ys → is_empty xs ≡ false → is_empty ys ≡ false
same_emptiness [] ys e h = absurd (cc)
same_emptiness (x ∷ xs) [] e h = absurd (omega arith)
same_emptiness (x ∷ xs) (y ∷ ys) e h = refl

with_batch_lem : (ds : List ℕ) (n : ℕ) → is_empty ds ≡ false → with_batch ds n ≡ ok (n ∷ drop 1 ds)
unfolding with_batch
with_batch_lem [] n h = absurd (cc)
with_batch_lem (d ∷ ds) n h = refl

module _ (front second : ExecutionRequest) (rest : List ExecutionRequest) where
  -- What the merge needs of a reference input.
  Ready : InputTensor → Type 0
  Ready x =
      All (Named x.name) (front ∷ second ∷ rest)
      × (is_empty (input_named x.name front).shape ≡ false)

  merge_inputs_lem :
      (is : List InputTensor)
      → All Ready is
      → merge_inputs is (front ∷ second ∷ rest) (map request_batch_size (front ∷ second ∷ rest))
        ≡ ok (map (merged_input front (second ∷ rest)) is)
  unfolding merge_inputs merge_input_tensors Ready
  merge_inputs_lem [] h = refl
  merge_inputs_lem (x ∷ xs) ((named, full), h) =
      rw (matching_inputs_lem x.name (front ∷ second ∷ rest) named) (
        rw
          (with_batch_lem (input_named x.name front).shape
            (accumulate 0 (map request_batch_size (front ∷ second ∷ rest))) full)
          (rw (merge_inputs_lem xs h)))

  all-Named :
      (x : InputTensor)
      → (i : InputTensor) × (find_input_by_name front.inputs x.name ≡ some i)
      → (rs : List ExecutionRequest) → All (λ r. Partner x r.inputs) rs
      → All (Named x.name) (front ∷ rs)
  all-Named x own rs ps = (own, All-map rs (λ r p. (p.right, p.found)) ps)

  own_full :
      (x : InputTensor) {i : InputTensor}
      → Compatible front second
      → find_input_by_name front.inputs x.name ≡ some i
      → is_empty (input_named x.name front).shape ≡ false
  own_full x {i} c e =
      let h = full i (find_All (λ y. Partner y second.inputs) front.inputs x.name c.partners e) in
      ground arith
    where
      full : (y : InputTensor) → Partner y second.inputs → is_empty y.shape ≡ false
      full y p = rw p.shapes.left_shape

  ready : All (Compatible front) (second ∷ rest) → All Ready front.inputs
  unfolding Ready
  ready cs =
      All-map front.inputs
        (λ x (own, ps). (all-Named x own (second ∷ rest) ps, own_full x cs.0 own.1))
        (All-both _ _ front.inputs (All-Named front.inputs) (
          All-swap (λ i r. Partner i r.inputs) front.inputs (second ∷ rest)
            (All-map (second ∷ rest) (λ r c. c.partners) cs)))

  -- Two or more requests of which each is compatible with the front one are merged: no check
  -- refuses them and no shape lacks its batch dimension. The batch holds the front request's
  -- inputs, each with the sum of the batch sizes in its first dimension and with the bytes of its
  -- namesakes joined in the order of the requests, and it lists the batch sizes.
  pub merge_execution_requests-merged_batch :
      is_empty front.inputs ≡ false
      → All (λ r. are_batch_compatible front r ≡ true) (second ∷ rest)
      → merge_execution_requests (front ∷ second ∷ rest) ≡ ok (merged_batch front (second ∷ rest))
  unfolding merge_execution_requests
  merge_execution_requests-merged_batch full compatible =
      let cs = All-map (second ∷ rest) (λ r h. (are_batch_compatible_iff front r).0 h) compatible in
      rw
        (collect_sizes_lem (front ∷ second ∷ rest)
          (full, All-map (second ∷ rest) (nonempty full) cs))
        (rw (check_all_lem front (second ∷ rest) cs)
          (rw (merge_inputs_lem front.inputs (ready cs))))
    where
      nonempty :
          is_empty front.inputs ≡ false
          → (r : ExecutionRequest) → Compatible front r
          → is_empty r.inputs ≡ false
      nonempty h r c = same_emptiness front.inputs r.inputs c.same_count h

check_all_sound :
    (front : ExecutionRequest) (rs : List ExecutionRequest)
    → (check_all front rs ≡ ok tt → All (λ r. are_batch_compatible front r ≡ true) rs)
      × ((check_all front rs ≡ ok tt) ⊎ ((error : String) × (check_all front rs ≡ refused error)))
unfolding check_all are_batch_compatible
check_all_sound front [] = (λ _. tt, inl refl)
check_all_sound front (r ∷ rs) =
    go (batch_compatibility_error front r) refl (check_all_sound front rs)
  where
    Claim : List ExecutionRequest → Type 0
    Claim l =
        (check_all front l ≡ ok tt
          → All (λ r. is_none (batch_compatibility_error front r) ≡ true) l)
        × ((check_all front l ≡ ok tt) ⊎ ((error : String) × (check_all front l ≡ refused error)))

    go : (o : Option String) → batch_compatibility_error front r ≡ o → Claim rs → Claim (r ∷ rs)
    go none e (sound, ends) = (λ h. (ground arith, sound (ground arith)), rw (e, check_all) ends)
    go (some error) e c = (λ h. absurd (ground arith), inr (error, rw (e, check_all)))

collect_sizes_cases :
    (rs : List ExecutionRequest)
    → ((collect_sizes rs ≡ ok (map request_batch_size rs))
        × All (λ r. is_empty r.inputs ≡ false) rs)
      ⊎ ((error : String) × (collect_sizes rs ≡ refused error))
unfolding collect_sizes
collect_sizes_cases [] = inl (refl, tt)
collect_sizes_cases (r ∷ rs) = elim (Bool-cases (is_empty r.inputs)) [
  | inl none_there ↦ inr ("request missing inputs", rw none_there)
  | inr full ↦ elim (collect_sizes_cases rs) [
    | inl (e, h) ↦ inl (rw (full, e), (full, h))
    | inr (error, e) ↦ inr (error, rw (full, e))
  ]
]

-- A merge of two or more requests ends in one of two ways, whatever the requests are: with the
-- merged batch, or with a message.
pub merge_execution_requests_cases :
    (front second : ExecutionRequest) (rest : List ExecutionRequest)
    → (merge_execution_requests (front ∷ second ∷ rest) ≡ ok (merged_batch front (second ∷ rest)))
      ⊎ ((error : String) × (merge_execution_requests (front ∷ second ∷ rest) ≡ refused error))
unfolding merge_execution_requests
merge_execution_requests_cases front second rest =
    elim (collect_sizes_cases (front ∷ second ∷ rest)) [
      | inr (error, e) ↦ inr (error, rw e)
      | inl (sizes, full) ↦
          let (sound, ends) = check_all_sound front (second ∷ rest) in
          elim ends [
            | inl e ↦ inl (merge_execution_requests-merged_batch front second rest full.0 (sound e))
            | inr (error, e) ↦ inr (error, rw sizes (rw e))
          ]
    ]
