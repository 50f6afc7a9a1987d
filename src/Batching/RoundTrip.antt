-- ===== src/Batching/RoundTrip.antt =====
-- Merging a batch, running it and splitting the response, end to end.
use neuriplo_kserve_runtime.Prelude.{
  ℕ, ◌+◌, ◌*◌, ◌<◌, ◌^◌, true, false, List, [], ◌∷◌, ◌++◌, map, some, ◌≡◌, refl, sym, ap, ap₂, ◌∙◌,
  arith, length, drop, All, All-map, length-append, length-map,
}
use native.Mathlib.Nat.{add-mul, mul_assoc}
use neuriplo_kserve_runtime.Request.{
  InputTensor, OutputTensor, ExecutionRequest, ExecutionResponse, empty_response,
}
use neuriplo_kserve_runtime.Tensor.{tensor_element_size}
use neuriplo_kserve_runtime.Batching.Compat.{request_batch_size, are_batch_compatible, is_empty}
use neuriplo_kserve_runtime.Batching.Merge.{ok, MergedBatch, all_bytes, merge_execution_requests}
use neuriplo_kserve_runtime.Batching.Merge.Bytes.{
  input_named, merged_input, merged_batch, merge_execution_requests-merged_batch,
}
use neuriplo_kserve_runtime.Batching.Split.{split_execution_response}
use neuriplo_kserve_runtime.Batching.Split.Rows.{
  total, product, Sized, rows_of, row_bytes, accumulate_lem, le-mul_pos,
}
use neuriplo_kserve_runtime.Batching.Split.Shares.{
  rows_from, shares, joined, Fill, shares-chunks, split_execution_response-rows_from,
}

-- An executor that hands every input back as an output.
abbrev pub echo_tensor : InputTensor → OutputTensor
echo_tensor i = record {
  name = i.name;
  datatype = i.datatype;
  shape = i.shape;
  bytes = i.bytes;
  string_data = i.string_data;
}

abbrev pub echo : ExecutionRequest → ExecutionResponse
echo r = record empty_response { outputs = map echo_tensor r.inputs }

abbrev pub payloads : ExecutionResponse → List (List ℕ)
payloads r = map (λ o. o.bytes) r.outputs

-- The payloads that a request brings for the inputs of the front request.
abbrev pub own_payloads : List InputTensor → ExecutionRequest → List (List ℕ)
own_payloads references r = map (λ x. (input_named x.name r).bytes) references

-- The requests' payloads for one input have the sizes that their batch sizes ask for.
pub record Fed (front : ExecutionRequest) (rs : List ExecutionRequest) (x : InputTensor)
    : Type 0 where
  pub typed : 0 < tensor_element_size (input_named x.name front).datatype
  pub rows : 0 < product (drop 1 (input_named x.name front).shape)
  pub filled :
      All
        (λ r.
          length (input_named x.name r).bytes
          ≡ request_batch_size r
            * (product (drop 1 (input_named x.name front).shape)
                * tensor_element_size (input_named x.name front).datatype))
        rs
  pub fits : length (all_bytes (map (input_named x.name) rs)) < 2 ^ 64

-- The bytes of the requests for one name, request by request.
chunks_of : InputTensor → List ExecutionRequest → List (List ℕ)
chunks_of x rs = map (λ r. (input_named x.name r).bytes) rs

all_bytes-joined :
    (x : InputTensor) (rs : List ExecutionRequest)
    → all_bytes (map (input_named x.name) rs) ≡ joined (chunks_of x rs)
unfolding all_bytes chunks_of
all_bytes-joined x [] = refl
all_bytes-joined x (r ∷ rs) = ap (◌++◌ (input_named x.name r).bytes) (all_bytes-joined x rs)

chunks_Fill :
    (row : ℕ) (x : InputTensor) (rs : List ExecutionRequest)
    → All (λ r. length (input_named x.name r).bytes ≡ request_batch_size r * row) rs
    → Fill row (map request_batch_size rs) (chunks_of x rs)
unfolding chunks_of
chunks_Fill row x [] h = tt
chunks_Fill row x (r ∷ rs) (e, h) = (e, chunks_Fill row x rs h)

Fill-length :
    (row : ℕ) (ns : List ℕ) (cs : List (List ℕ))
    → Fill row ns cs
    → length (joined cs) ≡ total ns * row
Fill-length row [] [] f = omega arith
Fill-length row [] (c ∷ cs) f = absurd f
Fill-length row (n ∷ ns) [] f = absurd f
Fill-length row (n ∷ ns) (c ∷ cs) (e, f) =
    omega (arith, length-append c (joined cs), Fill-length row ns cs f, e, add-mul n (total ns) row)

cons_head : {x y : List ℕ} {xs ys : List (List ℕ)} → x ∷ xs ≡ y ∷ ys → x ≡ y
cons_head e = cc

cons_tail : {x y : List ℕ} {xs ys : List (List ℕ)} → x ∷ xs ≡ y ∷ ys → xs ≡ ys
cons_tail e = cc

module _ (out : InputTensor → OutputTensor) where
  row_payloads :
      (xs : List InputTensor) (offset n : ℕ) (r : ExecutionRequest)
      → All (λ x. (rows_of offset n (out x)).bytes ≡ (input_named x.name r).bytes) xs
      → map (λ o. o.bytes) (map (rows_of offset n) (map out xs)) ≡ own_payloads xs r
  row_payloads [] offset n r h = refl
  row_payloads (x ∷ xs) offset n r (e, h) = ap₂ ◌∷◌ e (row_payloads xs offset n r h)

  -- The shares of every output, regrouped by request.
  payloads_lem :
      (xs : List InputTensor) (batched : ExecutionResponse) (offset : ℕ)
      (rs : List ExecutionRequest)
      → batched.outputs ≡ map out xs
      → All (λ x. shares (out x) offset (map request_batch_size rs) ≡ chunks_of x rs) xs
      → map payloads (rows_from batched offset (map request_batch_size rs))
        ≡ map (own_payloads xs) rs
  unfolding chunks_of
  payloads_lem xs batched offset [] e h = refl
  payloads_lem xs batched offset (r ∷ rs) e h =
      ap₂ ◌∷◌
        (ap (λ os. map (λ o. o.bytes) (map (rows_of offset (request_batch_size r)) os)) e
          ∙ row_payloads xs offset (request_batch_size r) r (All-map xs (λ x. cons_head) h))
        (payloads_lem xs batched (offset + request_batch_size r) rs e
          (All-map xs (λ x. cons_tail) h))

bound_rows : (t s e n : ℕ) → n ≡ t * (s * e) → 0 < s → 0 < e → n < 2 ^ 64 → t < 2 ^ 64
bound_rows t s e n h p q fits =
    omega (arith, le-mul_pos t s p, le-mul_pos (t * s) e q, mul_assoc t s e)

module _ (front : ExecutionRequest) (rest : List ExecutionRequest) where
  sizes : List ℕ
  sizes = map request_batch_size (front ∷ rest)

  out : InputTensor → OutputTensor
  out x = echo_tensor (merged_input front rest x)

  length-out :
      (x : InputTensor)
      → Fed front (front ∷ rest) x
      → length (out x).bytes ≡ total sizes * row_bytes (out x)
  unfolding out sizes
  length-out x f =
      ap length (all_bytes-joined x (front ∷ rest))
      ∙ Fill-length _ sizes (chunks_of x (front ∷ rest)) (chunks_Fill _ x (front ∷ rest) f.filled)

  shares-out :
      (x : InputTensor)
      → Fed front (front ∷ rest) x
      → shares (out x) 0 sizes ≡ chunks_of x (front ∷ rest)
  unfolding out sizes
  shares-out x f =
      shares-chunks (out x) sizes (chunks_of x (front ∷ rest)) (all_bytes-joined x (front ∷ rest))
        (chunks_Fill _ x (front ∷ rest) f.filled)

  few : (x : InputTensor) → Fed front (front ∷ rest) x → total sizes < 2 ^ 64
  unfolding out sizes
  few x f = bound_rows (total sizes) _ _ _ (length-out x f) f.rows f.typed f.fits

  out-Sized : (x : InputTensor) → 0 < total sizes → Fed front (front ∷ rest) x → Sized sizes (out x)
  unfolding out sizes
  out-Sized x some_rows f = record {
    tail = drop 1 (input_named x.name front).shape;
    shaped =
        ap (λ n. n ∷ drop 1 (input_named x.name front).shape)
          (accumulate_lem 0 sizes (omega (arith, few x f)) ∙ omega arith);
    some_rows = some_rows;
    typed = f.typed;
    rows = f.rows;
    filled = length-out x f ∙ sym (mul_assoc (total sizes) _ _);
    fits = f.fits;
  }

module _ (f : InputTensor → InputTensor) where
  outputs_All :
      (P : OutputTensor → Type 0) (xs : List InputTensor)
      → All (λ x. P (echo_tensor (f x))) xs
      → All P (map echo_tensor (map f xs))
  outputs_All P [] h = tt
  outputs_All P (x ∷ xs) h = (h.0, outputs_All P xs h.1)

  outputs_map :
      (xs : List InputTensor) → map echo_tensor (map f xs) ≡ map (λ x. echo_tensor (f x)) xs
  outputs_map [] = refl
  outputs_map (x ∷ xs) = ap (◌∷◌ (echo_tensor (f x))) (outputs_map xs)

some_few :
    (front : ExecutionRequest) (rest : List ExecutionRequest) (xs : List InputTensor)
    → is_empty xs ≡ false
    → All (Fed front (front ∷ rest)) xs
    → total (map request_batch_size (front ∷ rest)) < 2 ^ 64
unfolding sizes
some_few front rest [] h fed = absurd (cc)
some_few front rest (x ∷ xs) h (f, fed) = few front rest x f

-- What a request sends in a batch is what comes back to it. Two or more requests, each compatible
-- with the front one, are merged; an executor that echoes its inputs runs the batch; the response
-- is split: then every request gets exactly its own payloads, one for each input of the front
-- request. The payloads must have the sizes that their shapes and batch sizes ask for, with no
-- dimension 0 and no overflow.
pub split-echo-merge :
    (front second : ExecutionRequest) (rest : List ExecutionRequest)
    → is_empty front.inputs ≡ false
    → All (λ r. are_batch_compatible front r ≡ true) (second ∷ rest)
    → 0 < total (map request_batch_size (front ∷ second ∷ rest))
    → All (Fed front (front ∷ second ∷ rest)) front.inputs
    → (m : MergedBatch) × (merge_execution_requests (front ∷ second ∷ rest) ≡ ok m)
      × (responses : List ExecutionResponse) × (split_execution_response
            (echo m.request)
            m.batch_sizes
            (front ∷ second ∷ rest)
          ≡ some responses)
      × (map payloads responses ≡ map (own_payloads front.inputs) (front ∷ second ∷ rest))
unfolding sizes out
split-echo-merge front second rest full compatible some_rows fed = (
  merged_batch front (second ∷ rest),
  merge_execution_requests-merged_batch front second rest full compatible,
  rows_from (echo (merged_batch front (second ∷ rest)).request) 0
      (map request_batch_size (front ∷ second ∷ rest)),
  split_execution_response-rows_from (echo (merged_batch front (second ∷ rest)).request)
      (map request_batch_size (front ∷ second ∷ rest))
      (outputs_All (merged_input front (second ∷ rest))
        (Sized (map request_batch_size (front ∷ second ∷ rest))) front.inputs
        (All-map front.inputs (λ x f. out-Sized front (second ∷ rest) x some_rows f) fed))
      (some_few front (second ∷ rest) front.inputs full fed) (front ∷ second ∷ rest) refl
      (sym (length-map (front ∷ second ∷ rest) request_batch_size)),
  payloads_lem (out front (second ∷ rest)) front.inputs
      (echo (merged_batch front (second ∷ rest)).request) 0 (front ∷ second ∷ rest)
      (outputs_map (merged_input front (second ∷ rest)) front.inputs)
      (All-map front.inputs (λ x f. shares-out front (second ∷ rest) x f) fed),
)
