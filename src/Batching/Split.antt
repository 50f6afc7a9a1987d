-- ===== src/Batching/Split.antt =====
-- src/DynamicBatcher.cpp, `splitExecutionResponse`: the response to a batch, cut into one response
-- for each request.
pub mod Rows
pub mod Shares
pub mod Defined
use neuriplo_kserve_runtime.Prelude.{
  ℕ, zero, suc, ◌+◌, ◌*◌, ◌-◌, String, Bool, true, false, not, ◌&&◌, ◌||◌, List, [], ◌∷◌, ◌++◌, map,
  Option, none, some, if◌then◌else◌, ltb, ◌==◌, length, take, drop, get_elem?,
}
use neuriplo_kserve_runtime.Request.{
  OutputTensor, ExecutionRequest, ExecutionResponse, empty_response,
}
use neuriplo_kserve_runtime.Tensor.{tensor_element_size}
use neuriplo_kserve_runtime.Batching.Compat.{is_empty}
use neuriplo_kserve_runtime.Batching.Merge.{u64, accumulate}

-- The running product of dimensions in `size_t`.
unfoldable pub count_elements : ℕ → List ℕ → ℕ
count_elements count [] = count
count_elements count (dimension ∷ rest) = count_elements (u64 (count * dimension)) rest

unfoldable pub shape_element_count : List ℕ → ℕ
shape_element_count [] = 0
shape_element_count (d ∷ ds) = count_elements 1 (d ∷ ds)

unfoldable pub slice_element_count : List ℕ → ℕ
slice_element_count [] = 1
slice_element_count (d ∷ ds) = count_elements 1 ds

unfoldable pub with_rows : List ℕ → ℕ → List ℕ
with_rows [] n = []
with_rows (d ∷ ds) n = n ∷ ds

-- `!shape.empty() && shape[0] != expected`
unfoldable pub rows_differ : List ℕ → ℕ → Bool
rows_differ [] expected = false
rows_differ (d ∷ ds) expected = not (d == expected)

-- One output cut for one request: the slice, or the message of the check that failed, or undefined
-- behaviour, a range that ends before it starts.
pub data Cut : Type 0 where
  cut : OutputTensor → Cut
  mismatch : String → Cut
  undefined : Cut

-- The copy of the range and the check behind it.
unfoldable pub cut_range : OutputTensor → ℕ → ℕ → ℕ → ℕ → Cut
unfolding with_rows
cut_range output request_batch element_size start finish =
    let split_shape = with_rows output.shape request_batch in
    let bytes = take (finish - start) (drop start output.bytes) in
    if ltb finish start
    then undefined
    else if not (u64 (shape_element_count split_shape * element_size) == length bytes)
    then mismatch "batched output slice data size mismatch"
    else cut (record {
      name = output.name;
      datatype = output.datatype;
      shape = split_shape;
      bytes = bytes;
      string_data = [];
    })

unfoldable pub split_output : List ℕ → ℕ → ℕ → OutputTensor → Cut
unfolding rows_differ
split_output batch_sizes batch_offset request_batch output =
    let element_size = tensor_element_size output.datatype in
    let slice_elements = slice_element_count output.shape in
    let start = u64 (u64 (batch_offset * slice_elements) * element_size) in
    let finish = u64 (start + u64 (u64 (request_batch * slice_elements) * element_size)) in
    if rows_differ output.shape (accumulate 0 batch_sizes)
    then mismatch "batched output batch dimension mismatch"
    else if element_size == 0
        || not (u64 (shape_element_count output.shape * element_size) == length output.bytes)
    then mismatch "batched output data size mismatch"
    else if slice_elements == 0
    then mismatch "batched output slice size mismatch"
    else if ltb (length output.bytes) start || ltb (length output.bytes) finish
    then mismatch "batched output size mismatch"
    else cut_range output request_batch element_size start finish

unfoldable pub backend_error : String → ExecutionResponse
backend_error message = record empty_response {
  ok = false;
  error_code = "BACKEND_ERROR";
  error_message = message;
}

-- The loop over the outputs for one request; the first failed check ends it and clears the outputs
-- collected so far. `none` is undefined behaviour.
unfoldable pub split_outputs :
    List ℕ → ℕ → ℕ → List OutputTensor → List OutputTensor → Option ExecutionResponse
split_outputs batch_sizes batch_offset request_batch [] done =
    some (record empty_response { outputs = done })
split_outputs batch_sizes batch_offset request_batch (output ∷ rest) done =
    elim (split_output batch_sizes batch_offset request_batch output) [
      | undefined ↦ none
      | mismatch message ↦ some (backend_error message)
      | cut o ↦ split_outputs batch_sizes batch_offset request_batch rest (done ++ o ∷ [])
    ]

-- The loop over the requests from an index on; `batch_sizes.at` throws (`none`) past the end.
unfoldable pub split_from :
    ExecutionResponse → List ℕ → ℕ → List ExecutionRequest → Option (List ExecutionResponse)
split_from batched batch_sizes index [] = some []
split_from batched batch_sizes index (request ∷ rest) = elim (get_elem? batch_sizes index) [
  | none ↦ none
  | some request_batch ↦
      elim (split_outputs batch_sizes (accumulate 0 (take index batch_sizes)) request_batch
        batched.outputs []) [
          | none ↦ none
          | some response ↦ elim (split_from batched batch_sizes (suc index) rest) [
            | none ↦ none
            | some responses ↦ some (response ∷ responses)
          ]
        ]
]

unfoldable pub split_execution_response :
    ExecutionResponse → List ℕ → List ExecutionRequest → Option (List ExecutionResponse)
split_execution_response batched batch_sizes source_requests =
    if not batched.ok
    then some (map (λ _. batched) source_requests)
    else split_from batched batch_sizes 0 source_requests
