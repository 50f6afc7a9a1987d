-- ===== src/Batching/Merge.antt =====
-- src/DynamicBatcher.cpp, `mergeExecutionRequests`: several requests made into one.
pub mod Bytes
use neuriplo_kserve_runtime.Prelude.{
  ℕ, ◌+◌, ◌%◌, ◌^◌, String, Bool, true, false, not, ◌&&◌, ◌||◌, List, [], ◌∷◌, ◌++◌, Option, none,
  some, if◌then◌else◌, leb, ◌==◌,
}
use neuriplo_kserve_runtime.Request.{InputTensor, ExecutionRequest, empty_request}
use neuriplo_kserve_runtime.Batching.Compat.{
  find_input_by_name, request_batch_size, batch_compatibility_error, is_empty,
}

-- `size_t` arithmetic wraps at 64 bits.
abbrev pub u64 : ℕ → ℕ
u64 n = n % 2 ^ 64

-- `std::accumulate` over `size_t`, from an initial value.
unfoldable pub accumulate : ℕ → List ℕ → ℕ
accumulate total [] = total
accumulate total (n ∷ ns) = accumulate (u64 (total + n)) ns

pub record DynamicBatchingConfig : Type 0 where
  pub enabled : Bool
  pub max_batch_size : ℕ
  pub max_queue_delay_us : ℕ
  pub preferred_batch_sizes : List ℕ

contains : List ℕ → ℕ → Bool
contains [] n = false
contains (preferred ∷ rest) n = n == preferred || contains rest n

unfoldable pub should_dispatch_batch_size : ℕ → DynamicBatchingConfig → Bool → Bool
unfolding contains
should_dispatch_batch_size merged_batch_dimension config delay_elapsed =
    if merged_batch_dimension == 0
    then false
    else if leb config.max_batch_size merged_batch_dimension
    then true
    else if contains config.preferred_batch_sizes merged_batch_dimension
    then true
    else delay_elapsed

pub record MergedBatch : Type 0 where
  pub request : ExecutionRequest
  pub batch_sizes : List ℕ

-- How a merge ends: with a batch, with a message, or in undefined behaviour, a write to the first
-- dimension of a shape that has none.
pub data Merging {ℓ} (A : Type ℓ) : Type ℓ where
  ok : A → Merging A
  refused : String → Merging A
  undefined : Merging A

infixl 5 ◌>>=◌
abbrev pub ◌>>=◌ {ℓ κ} : {A : Type ℓ} {B : Type κ} → Merging A → (A → Merging B) → Merging B
ok a >>= f = f a
refused e >>= f = refused e
undefined >>= f = undefined

unfoldable pub with_batch : List ℕ → ℕ → Merging (List ℕ)
with_batch [] n = undefined
with_batch (d ∷ ds) n = ok (n ∷ ds)

unfoldable pub all_bytes : List InputTensor → List ℕ
all_bytes [] = []
all_bytes (input ∷ rest) = input.bytes ++ all_bytes rest

-- The inputs of one name, the front one first.
unfoldable pub merge_input_tensors : InputTensor → List InputTensor → List ℕ → Merging InputTensor
unfolding with_batch
merge_input_tensors front rest batch_sizes = do
  shape ← with_batch front.shape (accumulate 0 batch_sizes)
  ok (record front { shape = shape; bytes = all_bytes (front ∷ rest) })

unfoldable pub collect_sizes : List ExecutionRequest → Merging (List ℕ)
collect_sizes [] = ok []
collect_sizes (request ∷ rest) =
    if is_empty request.inputs
    then refused "request missing inputs"
    else (collect_sizes rest >>= λ sizes. ok (request_batch_size request ∷ sizes))

unfoldable pub check_all : ExecutionRequest → List ExecutionRequest → Merging (Unit {0})
check_all front [] = ok tt
check_all front (request ∷ rest) = elim (batch_compatibility_error front request) [
  | some error ↦ refused error
  | none ↦ check_all front rest
]

unfoldable pub matching_inputs : String → List ExecutionRequest → Merging (List InputTensor)
matching_inputs name [] = ok []
matching_inputs name (request ∷ rest) = elim (find_input_by_name request.inputs name) [
  | none ↦ refused "input name mismatch during merge"
  | some found ↦ (matching_inputs name rest >>= λ more. ok (found ∷ more))
]

merge_matching : List InputTensor → List ℕ → Merging InputTensor
merge_matching [] batch_sizes = undefined
merge_matching (front ∷ rest) batch_sizes = merge_input_tensors front rest batch_sizes

unfoldable pub merge_inputs :
    List InputTensor → List ExecutionRequest → List ℕ → Merging (List InputTensor)
unfolding merge_matching
merge_inputs [] requests batch_sizes = ok []
merge_inputs (reference ∷ rest) requests batch_sizes = do
  matching ← matching_inputs reference.name requests
  merged ← merge_matching matching batch_sizes
  more ← merge_inputs rest requests batch_sizes
  ok (merged ∷ more)

unfoldable pub merge_execution_requests : List ExecutionRequest → Merging MergedBatch
merge_execution_requests [] = refused "batch requires at least one request"
merge_execution_requests (front ∷ rest) = do
  batch_sizes ← collect_sizes (front ∷ rest)
  _ ← check_all front rest
  inputs ← merge_inputs front.inputs (front ∷ rest) batch_sizes
  ok (record {
    request = record empty_request { requested_outputs = front.requested_outputs; inputs = inputs };
    batch_sizes = batch_sizes;
  })
