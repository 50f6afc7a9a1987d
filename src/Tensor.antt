-- ===== src/Tensor.antt =====
-- src/TensorBytes.hpp: datatypes of tensors and their contiguous byte payloads.
pub mod Sizes
mod Examples
use neuriplo_kserve_runtime.Prelude.{
  leb, ℕ, zero, suc, ◌+◌, ◌*◌, ◌/◌, String, Bool, true, false, ◌||◌, List, [], ◌∷◌, ◌++◌, map,
  Option, none, some, if◌then◌else◌, str_eq, ◌==◌, length, take, drop, ◌≡◌,
}

-- 0 for BYTES and for an unknown datatype.
unfoldable pub tensor_element_size : String → ℕ
tensor_element_size datatype =
    if str_eq datatype "BOOL" || str_eq datatype "INT8" || str_eq datatype "UINT8"
    then 1
    else if str_eq datatype "INT16" || str_eq datatype "UINT16"
    then 2
    else if str_eq datatype "INT32"
        || str_eq datatype "UINT32"
        || str_eq datatype "FP32"
        || str_eq datatype "FP16"
    then 4
    else if str_eq datatype "INT64" || str_eq datatype "UINT64" || str_eq datatype "FP64"
    then 8
    else 0

-- The C++ types that back the datatypes, with `sizeof`.
pub data Element : Type 0 where
  int8 int16 int32 int64 uint8 uint16 uint32 uint64 float double : Element

abbrev pub size_of : Element → ℕ
size_of int8 = 1
size_of int16 = 2
size_of int32 = 4
size_of int64 = 8
size_of uint8 = 1
size_of uint16 = 2
size_of uint32 = 4
size_of uint64 = 8
size_of float = 4
size_of double = 8

-- The element at which `withTensorElementType` calls its function; `none` where it returns false
-- without a call.
unfoldable pub with_tensor_element_type : String → Option Element
with_tensor_element_type datatype =
    if str_eq datatype "BOOL" || str_eq datatype "INT8"
    then some int8
    else if str_eq datatype "INT16"
    then some int16
    else if str_eq datatype "INT32"
    then some int32
    else if str_eq datatype "INT64"
    then some int64
    else if str_eq datatype "UINT8"
    then some uint8
    else if str_eq datatype "UINT16"
    then some uint16
    else if str_eq datatype "UINT32"
    then some uint32
    else if str_eq datatype "UINT64"
    then some uint64
    else if str_eq datatype "FP16" || str_eq datatype "FP32"
    then some float
    else if str_eq datatype "FP64"
    then some double
    else none

unfoldable pub tensor_element_count : String → List ℕ → ℕ
tensor_element_count datatype bytes =
    let element_size = tensor_element_size datatype in
    if element_size == 0 then 0 else length bytes / element_size

-- The conversions of the machine: a value of type `V` (a double) is cast to an element and stored
-- by `memcpy`, and an element is loaded and cast back. Both are the compiler's. A store fills the
-- element's bytes.
pub record Machine (V : Type 0) : Type 0 where
  pub store : Element → V → List ℕ
  pub load : Element → List ℕ → V
  pub length-store : (e : Element) (v : V) → length (store e v) ≡ size_of e

module _ {V : Type 0} (m : Machine V) where
  unfoldable pub store_all : Element → List V → List ℕ
  store_all e [] = []
  store_all e (v ∷ vs) = m.store e v ++ store_all e vs

  unfoldable pub tensor_bytes_from_doubles : String → List V → List ℕ
  tensor_bytes_from_doubles datatype values = elim (with_tensor_element_type datatype) [
    | none ↦ []
    | some e ↦ store_all e values
  ]

  -- `count` elements from the front of the bytes.
  unfoldable pub load_all : Element → ℕ → List ℕ → List V
  load_all e zero bytes = []
  load_all e (suc count) bytes =
      m.load e (take (size_of e) bytes) ∷ load_all e count (drop (size_of e) bytes)

  unfoldable pub tensor_values_as_doubles : String → List ℕ → List V
  tensor_values_as_doubles datatype bytes = elim (with_tensor_element_type datatype) [
    | none ↦ []
    | some e ↦ load_all e (length bytes / size_of e) bytes
  ]

  unfoldable pub append_tensor_scalar : Element → List ℕ → V → List ℕ
  append_tensor_scalar e bytes value = bytes ++ m.store e value

  -- Behind the end of the bytes the copy is undefined.
  unfoldable pub tensor_scalar_at : Element → List ℕ → ℕ → Option V
  tensor_scalar_at e bytes element_index =
      let offset = element_index * size_of e in
      if leb (offset + size_of e) (length bytes)
      then some (m.load e (take (size_of e) (drop offset bytes)))
      else none
