-- ===== src/Tensor/Examples.antt =====
-- Instances of the theorems on payloads, at a machine whose values are bytes.
use neuriplo_kserve_runtime.Prelude.{
  ℕ, ◌*◌, ◌≡◌, refl, List, [], ◌∷◌, arith, length, replicate, zero, suc,
}
use neuriplo_kserve_runtime.Tensor.{
  Machine, size_of, tensor_element_size, with_tensor_element_type, store_all,
  tensor_bytes_from_doubles, tensor_values_as_doubles,
}
use neuriplo_kserve_runtime.Tensor.Sizes.{
  size_or_zero, through, tensor_element_size-with_tensor_element_type,
  length-tensor_bytes_from_doubles, tensor_values_as_doubles-tensor_bytes_from_doubles,
}

first : List ℕ → ℕ
first [] = 0
first (b ∷ bs) = b

length-replicate : (n b : ℕ) → length (replicate n b) ≡ n
length-replicate zero b = refl
length-replicate (suc n) b = omega (arith, length-replicate n b)

-- An element holds its value in every byte.
repeating : Machine ℕ
repeating = record {
  store = λ e v. replicate (size_of e) v;
  load = λ e bs. first bs;
  length-store = λ e v. length-replicate (size_of e) v;
}

tensor_element_size-with_tensor_element_type_example :
    tensor_element_size "UINT16" ≡ size_or_zero (with_tensor_element_type "UINT16")
tensor_element_size-with_tensor_element_type_example =
    tensor_element_size-with_tensor_element_type "UINT16"

length-tensor_bytes_from_doubles_example :
    length (tensor_bytes_from_doubles repeating "INT16" (5 ∷ 6 ∷ []))
    ≡ 2 * tensor_element_size "INT16"
length-tensor_bytes_from_doubles_example =
    length-tensor_bytes_from_doubles repeating "INT16" (5 ∷ 6 ∷ [])

payload_runs : tensor_bytes_from_doubles repeating "INT16" (5 ∷ 6 ∷ []) ≡ 5 ∷ 5 ∷ 6 ∷ 6 ∷ []
unfolding tensor_bytes_from_doubles store_all repeating with_tensor_element_type
payload_runs = refl

tensor_values_as_doubles-tensor_bytes_from_doubles_example :
    tensor_values_as_doubles repeating "INT16"
      (tensor_bytes_from_doubles repeating "INT16" (5 ∷ 6 ∷ []))
    ≡ through repeating (with_tensor_element_type "INT16") (5 ∷ 6 ∷ [])
tensor_values_as_doubles-tensor_bytes_from_doubles_example =
    tensor_values_as_doubles-tensor_bytes_from_doubles repeating "INT16" (5 ∷ 6 ∷ [])
