-- ===== src/Batching/Examples.antt =====
-- Two small requests, and the theorems on batches at them.
use neuriplo_kserve_runtime.Prelude.{ℕ, ◌≡◌, refl, List, [], ◌∷◌, map, some, arith, true}
use neuriplo_kserve_runtime.Request.{
  InputTensor, ExecutionRequest, ExecutionResponse, empty_request, is_bytes_datatype,
}
use neuriplo_kserve_runtime.Tensor.{tensor_element_size}
use neuriplo_kserve_runtime.Batching.Compat.{
  request_batch_size, are_batch_compatible, batch_compatibility_error, find_input_by_name,
  bytes_error, pair_error, left_error, right_error, shapes_match_except_batch,
}
use neuriplo_kserve_runtime.Batching.Compat.Meaning.{Compatible, are_batch_compatible_iff}
use neuriplo_kserve_runtime.Batching.Merge.{MergedBatch, ok, all_bytes, merge_execution_requests}
use neuriplo_kserve_runtime.Batching.Merge.Bytes.{
  merged_batch, merge_execution_requests-merged_batch,
}
use neuriplo_kserve_runtime.Batching.Split.{split_execution_response}
use neuriplo_kserve_runtime.Batching.Split.Rows.{Sized}
use neuriplo_kserve_runtime.Batching.Split.Shares.{rows_from, split_execution_response-rows_from}
use neuriplo_kserve_runtime.Batching.RoundTrip.{
  Fed, echo, echo_tensor, payloads, own_payloads, split-echo-merge,
}

abbrev pixels : List ℕ → List ℕ → InputTensor
pixels shape bytes = record {
  name = "x";
  datatype = "UINT8";
  shape = shape;
  bytes = bytes;
  string_data = [];
}

abbrev one_row : ExecutionRequest
one_row = record empty_request { inputs = pixels (1 ∷ 2 ∷ []) (7 ∷ 8 ∷ []) ∷ [] }

abbrev two_rows : ExecutionRequest
two_rows = record empty_request { inputs = pixels (2 ∷ 2 ∷ []) (1 ∷ 2 ∷ 3 ∷ 4 ∷ []) ∷ [] }

compatible : are_batch_compatible one_row two_rows ≡ true
unfolding are_batch_compatible batch_compatibility_error find_input_by_name bytes_error pair_error
    left_error right_error shapes_match_except_batch is_bytes_datatype
compatible = refl

are_batch_compatible_iff_example : Compatible one_row two_rows
are_batch_compatible_iff_example = (are_batch_compatible_iff one_row two_rows).0 compatible

merge_execution_requests-merged_batch_example :
    merge_execution_requests (one_row ∷ two_rows ∷ []) ≡ ok (merged_batch one_row (two_rows ∷ []))
merge_execution_requests-merged_batch_example =
    merge_execution_requests-merged_batch one_row two_rows [] refl (compatible, tt)

abbrev whole : InputTensor
whole = pixels (3 ∷ 2 ∷ []) (7 ∷ 8 ∷ 1 ∷ 2 ∷ 3 ∷ 4 ∷ [])

abbrev answer : ExecutionResponse
answer = echo (record empty_request { inputs = whole ∷ [] })

whole-Sized : Sized (1 ∷ 2 ∷ []) (echo_tensor whole)
unfolding tensor_element_size
whole-Sized = record {
  tail = 2 ∷ [];
  shaped = refl;
  some_rows = omega arith;
  typed = omega arith;
  rows = omega arith;
  filled = refl;
  fits = omega arith;
}

split_execution_response-rows_from_example :
    split_execution_response answer (1 ∷ 2 ∷ []) (one_row ∷ two_rows ∷ [])
    ≡ some (rows_from answer 0 (1 ∷ 2 ∷ []))
split_execution_response-rows_from_example =
    split_execution_response-rows_from answer (1 ∷ 2 ∷ []) (whole-Sized, tt) (omega arith)
      (one_row ∷ two_rows ∷ []) refl refl

fed : Fed one_row (one_row ∷ two_rows ∷ []) (pixels (1 ∷ 2 ∷ []) (7 ∷ 8 ∷ []))
unfolding tensor_element_size find_input_by_name all_bytes request_batch_size
fed = record {
  typed = omega arith;
  rows = omega arith;
  filled = (refl, (refl, tt));
  fits = omega arith;
}

split-echo-merge_example :
    (m : MergedBatch) × (merge_execution_requests (one_row ∷ two_rows ∷ []) ≡ ok m)
    × (responses : List ExecutionResponse) × (split_execution_response
          (echo m.request)
          m.batch_sizes
          (one_row ∷ two_rows ∷ [])
        ≡ some responses)
    × (map payloads responses ≡ map (own_payloads one_row.inputs) (one_row ∷ two_rows ∷ []))
unfolding request_batch_size
split-echo-merge_example =
    split-echo-merge one_row two_rows [] refl (compatible, tt) (omega arith) (fed, tt)
