-- ===== src/Tensor/Sizes.antt =====
-- The sizes of tensor payloads, and the round trip of values through bytes.
use neuriplo_kserve_runtime.Prelude.{
  ℕ, ◌*◌, ◌/◌, ◌<◌, ◌≡◌, refl, ap, String, List, [], ◌∷◌, map, Option, none, some, arith, length,
  length-append, take-append_of, drop-append_of, str_eq-cases,
}
use native.Mathlib.Nat.{mul-div_left}
use neuriplo_kserve_runtime.Tensor.{
  Element, Machine, size_of, tensor_element_size, with_tensor_element_type, store_all, load_all,
  tensor_bytes_from_doubles, tensor_values_as_doubles,
}

abbrev pub size_or_zero : Option Element → ℕ
size_or_zero none = 0
size_or_zero (some e) = size_of e

pub size_of_pos : (e : Element) → 0 < size_of e
size_of_pos e = ground arith

Agrees : String → Type 0
Agrees d = tensor_element_size d ≡ size_or_zero (with_tensor_element_type d)

-- The two tables agree on every datatype: the function is called exactly where the element size is
-- not 0, and on an element of that size.
pub tensor_element_size-with_tensor_element_type :
    (datatype : String)
    → tensor_element_size datatype ≡ size_or_zero (with_tensor_element_type datatype)
unfolding Agrees tensor_element_size with_tensor_element_type
tensor_element_size-with_tensor_element_type d = str_eq-cases Agrees "BOOL" d refl λ n0.
    str_eq-cases Agrees "INT8" d refl λ n1. str_eq-cases Agrees "UINT8" d refl λ n2.
      str_eq-cases Agrees "INT16" d refl λ n3. str_eq-cases Agrees "UINT16" d refl λ n4.
        str_eq-cases Agrees "INT32" d refl λ n5. str_eq-cases Agrees "UINT32" d refl λ n6.
          str_eq-cases Agrees "FP32" d refl λ n7. str_eq-cases Agrees "FP16" d refl λ n8.
            str_eq-cases Agrees "INT64" d refl λ n9. str_eq-cases Agrees "UINT64" d refl λ n10.
              str_eq-cases Agrees "FP64" d refl λ n11. rw (
                tensor_element_size, with_tensor_element_type, n0, n1, n2, n3, n4, n5, n6, n7, n8,
                n9, n10, n11,
              )

module _ {V : Type 0} (m : Machine V) where
  length-store_all : (e : Element) (vs : List V) → length (store_all m e vs) ≡ length vs * size_of e
  unfolding store_all
  length-store_all e [] = omega arith
  length-store_all e (v ∷ vs) = omega (
    arith,
    length-append (m.store e v) (store_all m e vs),
    m.length-store e v,
    length-store_all e vs,
  )

  -- The payload made of some values has the element size times their number.
  pub length-tensor_bytes_from_doubles :
      (datatype : String) (values : List V)
      → length (tensor_bytes_from_doubles m datatype values)
        ≡ length values * tensor_element_size datatype
  unfolding tensor_bytes_from_doubles
  length-tensor_bytes_from_doubles d vs =
      rw (tensor_element_size-with_tensor_element_type d) (go (with_tensor_element_type d))
    where
      go :
          (o : Option Element)
          → length (elim o [ none ↦ [] | some e ↦ store_all m e vs ]) ≡ length vs * size_or_zero o
      go none = omega arith
      go (some e) = length-store_all e vs

  load_all-store_all :
      (e : Element) (vs : List V)
      → load_all m e (length vs) (store_all m e vs) ≡ map (λ v. m.load e (m.store e v)) vs
  unfolding load_all store_all
  load_all-store_all e [] = refl
  load_all-store_all e (v ∷ vs) =
      rw
        (
          take-append_of (size_of e) (m.store e v) (store_all m e vs) (m.length-store e v),
          drop-append_of (size_of e) (m.store e v) (store_all m e vs) (m.length-store e v),
        )
        (ap (◌∷◌ (m.load e (m.store e v))) (load_all-store_all e vs))

  -- The values that come back from the elements of a datatype: each cast there and back.
  abbrev pub through : Option Element → List V → List V
  through none vs = []
  through (some e) vs = map (λ v. m.load e (m.store e v)) vs

  -- Values written as a payload and read back are those values, each cast to the element type and
  -- back, in order and as many; for a datatype with no fixed element size there are none.
  pub tensor_values_as_doubles-tensor_bytes_from_doubles :
      (datatype : String) (values : List V)
      → tensor_values_as_doubles m datatype (tensor_bytes_from_doubles m datatype values)
        ≡ through (with_tensor_element_type datatype) values
  unfolding tensor_values_as_doubles tensor_bytes_from_doubles
  tensor_values_as_doubles-tensor_bytes_from_doubles d vs = go (with_tensor_element_type d)
    where
      bytes : Option Element → List ℕ
      bytes o = elim o [ none ↦ [] | some e ↦ store_all m e vs ]

      count : (e : Element) → length (store_all m e vs) / size_of e ≡ length vs
      count e = rw (length-store_all e vs) (mul-div_left (length vs) (size_of_pos e))

      read : Option Element → List ℕ → List V
      read o bs = elim o [ none ↦ [] | some e ↦ load_all m e (length bs / size_of e) bs ]

      go : (o : Option Element) → read o (bytes o) ≡ through o vs
      go none = refl
      go (some e) = rw (count e) (load_all-store_all e vs)
