-- ===== src/Batching/Compat.antt =====
-- src/BatchCompatibility.cpp: the tests that two requests pass before they share a batch.
pub mod Meaning
use neuriplo_kserve_runtime.Prelude.{
  ℕ, String, Bool, true, false, not, ◌&&◌, ◌||◌, List, [], ◌∷◌, Option, none, some, if◌then◌else◌,
  str_eq, ◌==◌, length, drop,
}
use neuriplo_kserve_runtime.Request.{InputTensor, ExecutionRequest, is_bytes_datatype}

-- `==` of two vectors of numbers, and of two vectors of texts.
abbrev pub nats_eq : List ℕ → List ℕ → Bool
nats_eq [] [] = true
nats_eq [] (y ∷ ys) = false
nats_eq (x ∷ xs) [] = false
nats_eq (x ∷ xs) (y ∷ ys) = x == y && nats_eq xs ys

abbrev pub strings_eq : List String → List String → Bool
strings_eq [] [] = true
strings_eq [] (y ∷ ys) = false
strings_eq (x ∷ xs) [] = false
strings_eq (x ∷ xs) (y ∷ ys) = str_eq x y && strings_eq xs ys

-- The loop compares the dimensions from the second on.
unfoldable pub shapes_match_except_batch : List ℕ → List ℕ → Bool
shapes_match_except_batch left right =
    if not (length left == length right) then false else nats_eq (drop 1 left) (drop 1 right)

unfoldable pub find_input_by_name : List InputTensor → String → Option InputTensor
find_input_by_name [] name = none
find_input_by_name (input ∷ rest) name =
    if str_eq input.name name then some input else find_input_by_name rest name

abbrev pub is_empty {ℓ} : {A : Type ℓ} → List A → Bool
is_empty [] = true
is_empty (x ∷ xs) = false

front_or_one : List ℕ → ℕ
front_or_one [] = 1
front_or_one (d ∷ ds) = d

batch_size_of : List InputTensor → ℕ
unfolding front_or_one
batch_size_of [] = 1
batch_size_of (input ∷ rest) = front_or_one input.shape

unfoldable pub request_batch_size : ExecutionRequest → ℕ
unfolding batch_size_of
request_batch_size request = batch_size_of request.inputs

-- The first error of two checks made in a row.
abbrev pub or_else {ℓ} : {A : Type ℓ} → Option A → Option A → Option A
or_else (some e) next = some e
or_else none next = next

unfoldable pub bytes_error : List InputTensor → Option String
bytes_error [] = none
bytes_error (input ∷ rest) =
    if is_bytes_datatype input.datatype
    then some "BYTES tensors are not batch-compatible"
    else bytes_error rest

-- The body of the loop over the left inputs, with the right input of that name.
unfoldable pub pair_error : InputTensor → Option InputTensor → Option String
pair_error left none = some "input name mismatch"
pair_error left (some right) =
    if not (str_eq left.datatype right.datatype)
    then some "input datatype mismatch"
    else if is_empty left.shape || is_empty right.shape
    then some "input shape missing batch dimension"
    else if not (shapes_match_except_batch left.shape right.shape)
    then some "input shape mismatch"
    else if not (length left.shape == length right.shape)
    then some "input rank mismatch"
    else none

unfoldable pub left_error : List InputTensor → List InputTensor → Option String
left_error [] rights = none
left_error (left ∷ rest) rights =
    or_else (pair_error left (find_input_by_name rights left.name)) (left_error rest rights)

unfoldable pub right_error : List InputTensor → List InputTensor → Option String
right_error lefts [] = none
right_error lefts (right ∷ rest) = elim (find_input_by_name lefts right.name) [
  | none ↦ some "input name mismatch"
  | some _ ↦ right_error lefts rest
]

unfoldable pub batch_compatibility_error : ExecutionRequest → ExecutionRequest → Option String
batch_compatibility_error left right = or_else (bytes_error left.inputs) (
    or_else (bytes_error right.inputs) (
      if not (length left.inputs == length right.inputs)
      then some "input count mismatch"
      else if not (strings_eq left.requested_outputs right.requested_outputs)
      then some "requested output mismatch"
      else or_else (left_error left.inputs right.inputs) (right_error left.inputs right.inputs)))

abbrev pub is_none {ℓ} : {A : Type ℓ} → Option A → Bool
is_none none = true
is_none (some a) = false

unfoldable pub are_batch_compatible : ExecutionRequest → ExecutionRequest → Bool
are_batch_compatible left right = is_none (batch_compatibility_error left right)
