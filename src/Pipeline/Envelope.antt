-- ===== src/Pipeline/Envelope.antt =====
-- src/PipelineEnvelope.cpp: the detections that a step keeps, and the tensors of an envelope.
--
-- Floats and their comparison are the machine's. `std::stable_sort` is an insertion sort that keeps
-- the order of equivalent entries.
mod Examples
pub mod Best
use neuriplo_kserve_runtime.Prelude.{
  ℕ, zero, suc, ◌+◌, ◌-◌, ◌^◌, Bool, true, false, not, ◌&&◌, ◌||◌, List, [], ◌∷◌, ◌++◌, Option,
  none, some, if◌then◌else◌, get_elem?, length, take, ltb,
}
use neuriplo_kserve_runtime.Lifecycle.{TensorMetadata}
use neuriplo_kserve_runtime.Pipeline.Config.{PipelineEnvelope, detection, mask, polygon}

-- `>` of two numbers is a strict order in which incomparable numbers are equivalent.
pub record Floats (F : Type 0) : Type 0 where
  pub is_nan : F → Bool
  pub greater : F → F → Bool

module _ {F : Type 0} (floats : Floats F) where
  -- Every index is in range; one out of range would count as no number.
  abbrev pub nan_at : Option F → Bool
  nan_at none = true
  nan_at (some score) = floats.is_nan score

  abbrev pub greater_at : Option F → Option F → Bool
  greater_at (some left) (some right) = floats.greater left right
  greater_at none right = false
  greater_at (some left) none = false

  -- The comparator of the sort, on two scores.
  unfoldable pub score_before : Option F → Option F → Bool
  score_before left right =
      if nan_at left || nan_at right
      then not (nan_at left) && nan_at right
      else greater_at left right

  unfoldable pub before : List F → ℕ → ℕ → Bool
  unfolding score_before
  before scores left right = score_before (get_elem? scores left) (get_elem? scores right)

-- `std::iota` over `count` entries.
unfoldable pub iota : ℕ → ℕ → List ℕ
iota from zero = []
iota from (suc count) = from ∷ iota (suc from) count

unfoldable pub insert : (ℕ → ℕ → Bool) → ℕ → List ℕ → List ℕ
insert first x [] = x ∷ []
insert first x (y ∷ ys) = let rest = insert first x ys in if first y x then y ∷ rest else x ∷ y ∷ ys

unfoldable pub stable_sort : (ℕ → ℕ → Bool) → List ℕ → List ℕ
unfolding insert
stable_sort first [] = []
stable_sort first (x ∷ xs) = insert first x (stable_sort first xs)

unfoldable pub pipeline_top_score_indices : {F : Type 0} → Floats F → List F → ℕ → List ℕ
unfolding before iota stable_sort
pipeline_top_score_indices floats scores cap =
    let indices = stable_sort (before floats scores) (iota 0 (length scores)) in
    if ltb cap (length indices) then take cap indices else indices

abbrev pub pipeline_max_detections : ℕ
pipeline_max_detections = 100

-- -1, as 64 bits.
abbrev pub any_extent : ℕ
any_extent = 2 ^ 64 - 1

abbrev pub envelope_extras : PipelineEnvelope → List TensorMetadata
envelope_extras detection = []
envelope_extras mask =
    record { name = "MASK_OFFSETS"; datatype = "INT64"; shape = (pipeline_max_detections + 1) ∷ [] }
    ∷ record { name = "MASK_DATA"; datatype = "UINT8"; shape = any_extent ∷ [] }
    ∷ []
envelope_extras polygon =
    record {
      name = "INSTANCE_RING_OFFSETS";
      datatype = "INT64";
      shape = (pipeline_max_detections + 1) ∷ [];
    }
    ∷ record { name = "RING_POINT_OFFSETS"; datatype = "INT64"; shape = any_extent ∷ [] }
    ∷ record { name = "POLYGON_POINTS"; datatype = "INT32"; shape = any_extent ∷ 2 ∷ [] }
    ∷ []

unfoldable pub pipeline_envelope_outputs : PipelineEnvelope → List TensorMetadata
pipeline_envelope_outputs envelope =
    record { name = "NUM_DETECTIONS"; datatype = "INT32"; shape = 1 ∷ [] }
    ∷ record { name = "BOXES"; datatype = "INT32"; shape = pipeline_max_detections ∷ 4 ∷ [] }
    ∷ record { name = "SCORES"; datatype = "FP32"; shape = pipeline_max_detections ∷ [] }
    ∷ record { name = "CLASSES"; datatype = "INT32"; shape = pipeline_max_detections ∷ [] }
    ∷ envelope_extras envelope
