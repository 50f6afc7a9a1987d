-- ===== src/Batching/Split/Rows.antt =====
-- A batched output whose payload has the size that its shape asks for is cut by rows.
use neuriplo_kserve_runtime.Prelude.{
  ℕ, zero, suc, ◌+◌, ◌*◌, ◌-◌, ◌^◌, ◌≤◌, ◌<◌, false, List, [], ◌∷◌, ◌≡◌, refl, sym, ap, ◌∙◌, arith,
  length, take, drop, length-take, length-drop,
}
use native.Mathlib.Nat.{mul_assoc, mul_comm, mul-le-mul_right, add-mul}
use neuriplo_kserve_runtime.Request.{OutputTensor}
use neuriplo_kserve_runtime.Tensor.{tensor_element_size}
use neuriplo_kserve_runtime.Batching.Merge.{u64, accumulate}
use neuriplo_kserve_runtime.Batching.Split.{
  count_elements, shape_element_count, slice_element_count, rows_differ, Cut, cut, cut_range,
  split_output,
}

abbrev pub total : List ℕ → ℕ
total [] = 0
total (n ∷ ns) = n + total ns

abbrev pub product : List ℕ → ℕ
product [] = 1
product (d ∷ ds) = d * product ds

pub u64_of_lt : (n : ℕ) → n < 2 ^ 64 → u64 n ≡ n
u64_of_lt n h = omega arith

pub accumulate_lem : (t : ℕ) (ns : List ℕ) → t + total ns < 2 ^ 64 → accumulate t ns ≡ t + total ns
unfolding accumulate
accumulate_lem t [] h = omega arith
accumulate_lem t (n ∷ ns) h =
    rw (u64_of_lt (t + n) (omega arith)) (omega (arith, accumulate_lem (t + n) ns (omega arith)))

pub le-mul_pos : (a b : ℕ) → 0 < b → a ≤ a * b
le-mul_pos a b h = grind arith

pos_of_mul : (a b : ℕ) → 0 < a * b → 0 < b
pos_of_mul a zero h = omega arith
pos_of_mul a (suc b) h = omega arith

-- Where the dimensions are positive no partial product wraps.
count_elements_lem :
    (c : ℕ) (ds : List ℕ)
    → 0 < product ds
    → c * product ds < 2 ^ 64
    → count_elements c ds ≡ c * product ds
unfolding count_elements
count_elements_lem c [] p h = omega arith
count_elements_lem c (d ∷ ds) p h =
    let rest = pos_of_mul d (product ds) p in
    let same = mul_assoc c d (product ds) in
    let small = le-mul_pos (c * d) (product ds) rest in
    rw (u64_of_lt (c * d) (omega arith)) (count_elements_lem (c * d) ds rest (omega arith) ∙ same)

-- An output whose first dimension is the sum of the batch sizes and whose payload has the size
-- that its shape and its datatype ask for, with every dimension positive and no overflow.
pub record Sized (ns : List ℕ) (o : OutputTensor) : Type 0 where
  pub tail : List ℕ
  pub shaped : o.shape ≡ total ns ∷ tail
  pub some_rows : 0 < total ns
  pub typed : 0 < tensor_element_size o.datatype
  pub rows : 0 < product tail
  pub filled : length o.bytes ≡ total ns * product tail * tensor_element_size o.datatype
  pub fits : length o.bytes < 2 ^ 64

-- The bytes of one row.
abbrev pub row_bytes : OutputTensor → ℕ
row_bytes o = product (drop 1 o.shape) * tensor_element_size o.datatype

-- Rows `offset` up to `offset + n` of an output.
abbrev pub rows_of : ℕ → ℕ → OutputTensor → OutputTensor
rows_of offset n o = record {
  name = o.name;
  datatype = o.datatype;
  shape = n ∷ drop 1 o.shape;
  bytes = take (n * row_bytes o) (drop (offset * row_bytes o) o.bytes);
  string_data = [];
}

pub scaled : (a t s e : ℕ) → a ≤ t → a * s * e ≤ t * s * e
scaled a t s e h = mul-le-mul_right e (mul-le-mul_right s h)

module _ (t s e : ℕ) (rows : 0 < s) (typed : 0 < e) (fits : t * s * e < 2 ^ 64) where
  pub u64_scaled : (a : ℕ) → a ≤ t → u64 (u64 (a * s) * e) ≡ a * s * e
  u64_scaled a h =
      let whole = scaled a t s e h in
      let part = le-mul_pos (a * s) e typed in
      rw (u64_of_lt (a * s) (omega arith)) (u64_of_lt (a * s * e) (omega arith))

  count_scaled :
      (a : ℕ) (tail : List ℕ) → product tail ≡ s → a ≤ t → shape_element_count (a ∷ tail) ≡ a * s
  unfolding shape_element_count count_elements
  count_scaled a tail p h =
      let whole = scaled a t s e h in
      let part = le-mul_pos (a * s) e typed in
      let small = le-mul_pos a s rows in
      let one : 1 * a ≡ a = omega arith in
      rw (u64_of_lt (1 * a) (omega arith), one)
        (count_elements_lem a tail (rw p rows) (rw p (omega arith)) ∙ ap (λ x. a * x) p)

  slice_scaled :
      (d : ℕ) (tail : List ℕ) → product tail ≡ s → 0 < t → slice_element_count (d ∷ tail) ≡ s
  unfolding slice_element_count
  slice_scaled d tail p h =
      let few = le-mul_pos s t h in
      let part = le-mul_pos (t * s) e typed in
      let swap = mul_comm s t in
      count_elements_lem 1 tail (rw p rows) (rw p (omega arith)) ∙ rw p (omega arith)

cut_range_lem :
    (o : OutputTensor) (n e start finish : ℕ) (d : ℕ) (tail : List ℕ)
    → o.shape ≡ d ∷ tail
    → start ≤ finish
    → finish ≤ length o.bytes
    → u64 (shape_element_count (n ∷ tail) * e) ≡ finish - start
    → cut_range o n e start finish
      ≡ cut (record {
        name = o.name;
        datatype = o.datatype;
        shape = n ∷ tail;
        bytes = take (finish - start) (drop start o.bytes);
        string_data = [];
      })
unfolding cut_range
cut_range_lem o n e start finish d tail shaped ordered inside size =
    let long = length-take (finish - start) (drop start o.bytes) in
    let left = length-drop start o.bytes in rw shaped (ground arith)

-- An output that passes the checks is cut by its range.
split_output_checked :
    (ns : List ℕ) (offset n start finish : ℕ) (o : OutputTensor)
    → rows_differ o.shape (accumulate 0 ns) ≡ false
    → 0 < tensor_element_size o.datatype
    → u64 (shape_element_count o.shape * tensor_element_size o.datatype) ≡ length o.bytes
    → 0 < slice_element_count o.shape
    → u64 (u64 (offset * slice_element_count o.shape) * tensor_element_size o.datatype) ≡ start
    → u64 (start + u64 (u64 (n * slice_element_count o.shape) * tensor_element_size o.datatype))
      ≡ finish
    → start ≤ length o.bytes
    → finish ≤ length o.bytes
    → split_output ns offset n o ≡ cut_range o n (tensor_element_size o.datatype) start finish
unfolding split_output
split_output_checked ns offset n start finish o same typed filled some_row at_start at_finish a b =
    rw (same, filled, at_start, at_finish) (ground arith)

-- A piece of an output: a shape behind the rows, a length and a start in bytes.
abbrev part : OutputTensor → ℕ → List ℕ → ℕ → ℕ → Cut
part o n tail amount start = cut (record {
  name = o.name;
  datatype = o.datatype;
  shape = n ∷ tail;
  bytes = take amount (drop start o.bytes);
  string_data = [];
})

part_cong :
    (o : OutputTensor) (n : ℕ) {t t' : List ℕ} {k k' b b' : ℕ}
    → t ≡ t'
    → k ≡ k'
    → b ≡ b'
    → part o n t k b ≡ part o n t' k' b'
part_cong o n p q r = cc

module _ (ns : List ℕ) (offset n : ℕ) (o : OutputTensor) (z : Sized ns o)
    (h : offset + n ≤ total ns) where
  whole : total ns * product z.tail * tensor_element_size o.datatype < 2 ^ 64
  whole = rw (← z.filled) z.fits

  few : total ns < 2 ^ 64
  few =
      let a = le-mul_pos (total ns) (product z.tail) z.rows in
      let b = le-mul_pos (total ns * product z.tail) (tensor_element_size o.datatype) z.typed in
      let c = whole in omega arith

  same_rows : rows_differ o.shape (accumulate 0 ns) ≡ false
  unfolding rows_differ
  same_rows = rw (z.shaped) (ground (arith, accumulate_lem 0 ns (omega (arith, few))))

  slice : slice_element_count o.shape ≡ product z.tail
  slice = rw z.shaped (
      slice_scaled (total ns) (product z.tail) (tensor_element_size o.datatype) z.rows z.typed whole
        (total ns) z.tail refl z.some_rows)

  filled : u64 (shape_element_count o.shape * tensor_element_size o.datatype) ≡ length o.bytes
  filled = rw z.shaped (
      rw
        (count_scaled (total ns) (product z.tail) (tensor_element_size o.datatype) z.rows z.typed
          whole (total ns) z.tail refl (omega arith))
        (u64_of_lt _ whole ∙ sym z.filled))

  together :
      offset * product z.tail * tensor_element_size o.datatype
        + n * product z.tail * tensor_element_size o.datatype
      ≤ length o.bytes
  together =
      let sum =
        scaled (offset + n) (total ns) (product z.tail) (tensor_element_size o.datatype) h in
      let both = z.filled in grind (arith, add-mul)

  -- What the rows of an offset measure.
  scaled_rows :
      (a : ℕ)
      → a ≤ total ns
      → u64 (u64 (a * slice_element_count o.shape) * tensor_element_size o.datatype)
        ≡ a * product z.tail * tensor_element_size o.datatype
  scaled_rows a le = rw slice (
      u64_scaled (total ns) (product z.tail) (tensor_element_size o.datatype) z.rows z.typed whole a
        le)

  start : ℕ
  start = offset * product z.tail * tensor_element_size o.datatype

  size : ℕ
  size = n * product z.tail * tensor_element_size o.datatype

  at_finish :
      u64 (start + u64 (u64 (n * slice_element_count o.shape) * tensor_element_size o.datatype))
      ≡ start + size
  unfolding start size
  at_finish =
      let t = together in
      let f = z.fits in rw (scaled_rows n (omega arith)) (u64_of_lt _ (omega arith))

  new_size :
      u64 (shape_element_count (n ∷ z.tail) * tensor_element_size o.datatype) ≡ start + size - start
  unfolding start size
  new_size =
      let t = together in
      let f = z.fits in
      rw
        (count_scaled (total ns) (product z.tail) (tensor_element_size o.datatype) z.rows z.typed
          whole n z.tail refl (omega arith))
        (u64_of_lt _ (omega arith) ∙ omega arith)

  as_rows :
      cut (record {
        name = o.name;
        datatype = o.datatype;
        shape = n ∷ z.tail;
        bytes = take (start + size - start) (drop start o.bytes);
        string_data = [];
      })
      ≡ cut (rows_of offset n o)
  unfolding start size
  as_rows =
      let a = mul_assoc offset (product z.tail) (tensor_element_size o.datatype) in
      let b = mul_assoc n (product z.tail) (tensor_element_size o.datatype) in
      part_cong o n (sym (ap (drop 1) z.shaped))
        (omega arith
          ∙ b
          ∙ ap (λ ds. n * (product ds * tensor_element_size o.datatype))
              (sym (ap (drop 1) z.shaped)))
        (a
          ∙ ap (λ ds. offset * (product ds * tensor_element_size o.datatype))
              (sym (ap (drop 1) z.shaped)))

  -- Within the batch, the cut is the rows.
  pub split_output-rows_of : split_output ns offset n o ≡ cut (rows_of offset n o)
  unfolding start size
  split_output-rows_of =
      let t = together in
      let pos = z.rows in
      split_output_checked ns offset n start (start + size) o same_rows z.typed filled
        (rw slice pos) (scaled_rows offset (omega arith)) at_finish (omega arith) t
      ∙ cut_range_lem o n (tensor_element_size o.datatype) start (start + size) (total ns) z.tail
          z.shaped (omega arith) t new_size
      ∙ as_rows
