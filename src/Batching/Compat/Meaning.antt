-- ===== src/Batching/Compat/Meaning.antt =====
-- What the compatibility test decides, said without the test.
use neuriplo_kserve_runtime.Prelude.{
  ℕ, String, true, false, List, [], ◌∷◌, Option, none, some, ◌≡◌, refl, length, All, arith, eq_iff,
  ap, inl, inr, ◌↔◌, Option-cases,
}
use neuriplo_kserve_runtime.Request.{InputTensor, ExecutionRequest, is_bytes_datatype}
use neuriplo_kserve_runtime.Batching.Compat.{
  nats_eq, strings_eq, shapes_match_except_batch, find_input_by_name, bytes_error, pair_error,
  left_error, right_error, batch_compatibility_error, are_batch_compatible, is_none, or_else,
  is_empty,
}

-- The two shapes have a batch dimension each and agree behind it.
pub record SameTail (left right : List ℕ) : Type 0 where
  pub batch : ℕ
  pub other : ℕ
  pub tail : List ℕ
  pub left_shape : left ≡ batch ∷ tail
  pub right_shape : right ≡ other ∷ tail

-- An input and its partner in the other request.
pub record Partner (left : InputTensor) (rights : List InputTensor) : Type 0 where
  pub right : InputTensor
  pub found : find_input_by_name rights left.name ≡ some right
  pub same_type : left.datatype ≡ right.datatype
  pub shapes : SameTail left.shape right.shape

abbrev pub NotBytes : InputTensor → Type 0
NotBytes i = is_bytes_datatype i.datatype ≡ false

abbrev pub Known : List InputTensor → InputTensor → Type 0
Known lefts right = (left : InputTensor) × (find_input_by_name lefts right.name ≡ some left)

pub record Compatible (left right : ExecutionRequest) : Type 0 where
  pub left_fixed : All NotBytes left.inputs
  pub right_fixed : All NotBytes right.inputs
  pub same_count : length left.inputs ≡ length right.inputs
  pub same_outputs : left.requested_outputs ≡ right.requested_outputs
  pub partners : All (λ i. Partner i right.inputs) left.inputs
  pub known : All (Known left.inputs) right.inputs

nats_eq_sound : (xs ys : List ℕ) → nats_eq xs ys ≡ true → xs ≡ ys
nats_eq_sound [] [] h = refl
nats_eq_sound [] (y ∷ ys) h = cc
nats_eq_sound (x ∷ xs) [] h = cc
nats_eq_sound (x ∷ xs) (y ∷ ys) h = ground (arith, nats_eq_sound xs ys)

nats_eq_refl : (xs : List ℕ) → nats_eq xs xs ≡ true
nats_eq_refl [] = refl
nats_eq_refl (x ∷ xs) = ground (arith, nats_eq_refl xs)

strings_eq_sound : (xs ys : List String) → strings_eq xs ys ≡ true → xs ≡ ys
strings_eq_sound [] [] h = refl
strings_eq_sound [] (y ∷ ys) h = cc
strings_eq_sound (x ∷ xs) [] h = cc
strings_eq_sound (x ∷ xs) (y ∷ ys) h = ground (arith, eq_iff x y, strings_eq_sound xs ys)

strings_eq_refl : (xs : List String) → strings_eq xs xs ≡ true
strings_eq_refl [] = refl
strings_eq_refl (x ∷ xs) = ground (arith, eq_iff x x, strings_eq_refl xs)

shapes_sound :
    (l r : List ℕ)
    → is_empty l ≡ false
    → is_empty r ≡ false
    → shapes_match_except_batch l r ≡ true
    → SameTail l r
shapes_sound [] r p q h = cc
shapes_sound (x ∷ xs) [] p q h = cc
shapes_sound (x ∷ xs) (y ∷ ys) p q h = record {
  batch = x;
  other = y;
  tail = ys;
  left_shape = ap (◌∷◌ x) (nats_eq_sound xs ys (unfold shapes_match_except_batch in ground arith));
  right_shape = refl;
}

SameTail-shapes_match : (l r : List ℕ) → SameTail l r → shapes_match_except_batch l r ≡ true
unfolding shapes_match_except_batch
SameTail-shapes_match l r s = rw (s.left_shape, s.right_shape) (ground (arith, nats_eq_refl s.tail))

pair_error-some :
    (l r : InputTensor)
    → pair_error l (some r) ≡ none
    → (l.datatype ≡ r.datatype)
      × (is_empty l.shape ≡ false)
      × (is_empty r.shape ≡ false)
      × (shapes_match_except_batch l.shape r.shape ≡ true)
unfolding pair_error
pair_error-some l r h = ground (arith, eq_iff l.datatype r.datatype)

pair_error_sound :
    (l : InputTensor) (rights : List InputTensor)
    → pair_error l (find_input_by_name rights l.name) ≡ none
    → Partner l rights
pair_error_sound l rights h = go (find_input_by_name rights l.name) refl h
  where
    go :
        (o : Option InputTensor)
        → find_input_by_name rights l.name ≡ o
        → pair_error l o ≡ none
        → Partner l rights
    go none e g = absurd (unfold pair_error in cc)
    go (some r) e g =
        let (t, p, q, m) = pair_error-some l r g in
        record { right = r; found = e; same_type = t; shapes = shapes_sound l.shape r.shape p q m }

Partner-pair_error :
    (l : InputTensor) (rights : List InputTensor)
    → Partner l rights
    → pair_error l (find_input_by_name rights l.name) ≡ none
unfolding pair_error
Partner-pair_error l rights p =
    rw (p.found, pair_error)
      (ground (
        arith,
        eq_iff l.datatype p.right.datatype,
        SameTail-shapes_match l.shape p.right.shape p.shapes,
      ))

bytes_error_iff : (is : List InputTensor) → (bytes_error is ≡ none) ↔ All NotBytes is
unfolding bytes_error
bytes_error_iff [] = (λ _. tt, λ _. refl)
bytes_error_iff (i ∷ is) =
    (λ h. ground (arith, (bytes_error_iff is).0), λ h. ground (arith, (bytes_error_iff is).1))

or_else-none {ℓ} : {A : Type ℓ} (a b : Option A) → or_else a b ≡ none → (a ≡ none) × (b ≡ none)
or_else-none none b h = (refl, h)
or_else-none (some a) b h = absurd (cc)

left_error_iff :
    (ls rights : List InputTensor) → (left_error ls rights ≡ none) ↔ All (λ i. Partner i rights) ls
unfolding left_error
left_error_iff [] rights = (λ _. tt, λ _. refl)
left_error_iff (l ∷ ls) rights = (
  λ h.
      let both =
        or_else-none (pair_error l (find_input_by_name rights l.name)) (left_error ls rights) h in
      (pair_error_sound l rights both.0, (left_error_iff ls rights).0 both.1),
  λ (p, ps). rw (Partner-pair_error l rights p) ((left_error_iff ls rights).1 ps),
)

right_error_iff :
    (lefts rs : List InputTensor) → (right_error lefts rs ≡ none) ↔ All (Known lefts) rs
unfolding right_error
right_error_iff lefts [] = (λ _. tt, λ _. refl)
right_error_iff lefts (r ∷ rs) = (
  λ h. elim (Option-cases (find_input_by_name lefts r.name)) [
    | inl e ↦ absurd (ground arith)
    | inr (l, e) ↦ ((l, e), (right_error_iff lefts rs).0 (ground arith))
  ],
  λ ((l, e), ks). rw (e, right_error) ((right_error_iff lefts rs).1 ks),
)

is_none_iff {ℓ} : {A : Type ℓ} (o : Option A) → (is_none o ≡ true) ↔ (o ≡ none)
is_none_iff none = (λ _. refl, λ _. refl)
is_none_iff (some a) = (λ h. absurd (cc), λ h. absurd (cc))

no_error_parts :
    (left right : ExecutionRequest)
    → batch_compatibility_error left right ≡ none
    → (bytes_error left.inputs ≡ none)
      × (bytes_error right.inputs ≡ none)
      × (length left.inputs ≡ length right.inputs)
      × (strings_eq left.requested_outputs right.requested_outputs ≡ true)
      × (left_error left.inputs right.inputs ≡ none)
      × (right_error left.inputs right.inputs ≡ none)
unfolding batch_compatibility_error
no_error_parts left right h = ground arith

no_error_of_parts :
    (left right : ExecutionRequest)
    → bytes_error left.inputs ≡ none
    → bytes_error right.inputs ≡ none
    → length left.inputs ≡ length right.inputs
    → strings_eq left.requested_outputs right.requested_outputs ≡ true
    → left_error left.inputs right.inputs ≡ none
    → right_error left.inputs right.inputs ≡ none
    → batch_compatibility_error left right ≡ none
unfolding batch_compatibility_error
no_error_of_parts left right a b c d e f = ground arith

-- Two requests are batch-compatible exactly when: neither has a BYTES input, they have as many
-- inputs and the same requested outputs, each left input has a right input of its name (the first),
-- with its datatype and with its shape up to the batch dimension that both must have, and each
-- right input has a left input of its name.
pub are_batch_compatible_iff :
    (left right : ExecutionRequest)
    → (are_batch_compatible left right ≡ true) ↔ Compatible left right
unfolding are_batch_compatible
are_batch_compatible_iff left right = (
  λ h. sound ((is_none_iff (batch_compatibility_error left right)).0 h),
  λ c. (is_none_iff (batch_compatibility_error left right)).1 (complete c),
)
  where
    sound : batch_compatibility_error left right ≡ none → Compatible left right
    sound h =
        let (a, b, count, outputs, l, r) = no_error_parts left right h in
        record {
          left_fixed = (bytes_error_iff left.inputs).0 a;
          right_fixed = (bytes_error_iff right.inputs).0 b;
          same_count = count;
          same_outputs = strings_eq_sound left.requested_outputs right.requested_outputs outputs;
          partners = (left_error_iff left.inputs right.inputs).0 l;
          known = (right_error_iff left.inputs right.inputs).0 r;
        }

    complete : Compatible left right → batch_compatibility_error left right ≡ none
    complete c =
        no_error_of_parts left right ((bytes_error_iff left.inputs).1 c.left_fixed)
          ((bytes_error_iff right.inputs).1 c.right_fixed) c.same_count
          (rw c.same_outputs (strings_eq_refl right.requested_outputs))
          ((left_error_iff left.inputs right.inputs).1 c.partners)
          ((right_error_iff left.inputs right.inputs).1 c.known)
