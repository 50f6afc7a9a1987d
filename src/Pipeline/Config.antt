-- ===== src/Pipeline/Config.antt =====
-- src/PipelineConfig.hpp and src/PipelineConfig.cpp: the graph of a pipeline and how it is read.
--
-- The JSON library is a parameter: what its functions return on a value. A `float` is its IEEE 754
-- bit pattern. The entries of a tensor map stand in the order in which it is iterated over.
pub mod Chains
pub mod Valid
use neuriplo_kserve_runtime.Prelude.{
  ℕ, String, Bool, true, false, not, ◌&&◌, ◌||◌, List, [], ◌∷◌, ◌++◌, Option, none, some, map,
  if◌then◌else◌, str_eq, Map, emplace,
}
use Prim.Native.String.{◌++◌ as text_append}

pub data PipelineStepKind : Type 0 where
  model preprocess postprocess : PipelineStepKind

pub data PipelineEnvelope : Type 0 where
  detection mask polygon : PipelineEnvelope

pub record PipelineStepConfig : Type 0 where
  pub kind : PipelineStepKind
  pub name : String
  pub model_name : String
  pub model_version : String
  pub input_map : Map String
  pub output_map : Map String
  pub task_type : String
  pub envelope : PipelineEnvelope
  pub confidence_threshold : ℕ
  pub nms_threshold : ℕ
  pub mask_threshold : ℕ

-- A step as it is default-constructed.
abbrev pub default_step : PipelineStepConfig
default_step = record {
  kind = model;
  name = "";
  model_name = "";
  model_version = "";
  input_map = [];
  output_map = [];
  task_type = "";
  envelope = detection;
  confidence_threshold = 0x3E800000;
  nms_threshold = 0x3EE66666;
  mask_threshold = 0x3F000000;
}

abbrev pub pipeline_image_input_name : String
pipeline_image_input_name = "IMAGE"

-- What is used of the JSON library: `parse` without exceptions (`none` for a discarded value), the
-- tests of a value's type, `contains` with the access to a member, the elements of an array, the
-- members of an object, and the conversions of a text and of a number.
pub record Library (Json : Type 0) : Type 0 where
  pub parse : String → Option Json
  pub is_object : Json → Bool
  pub is_array : Json → Bool
  pub is_string : Json → Bool
  pub is_number : Json → Bool
  pub member : Json → String → Option Json
  pub elements : Json → List Json
  pub items : Json → List (String × Json)
  pub text : Json → String
  pub float : Json → ℕ

-- Returned true, returned false with an error, or left by an exception.
pub data Parsed {ℓ} (A : Type ℓ) : Type ℓ where
  parsed : A → Parsed A
  refused : String → Parsed A
  raised : Parsed A

infixl 5 ◌>>=◌ ◌>>◌
abbrev pub ◌>>=◌ {ℓ κ} : {A : Type ℓ} {B : Type κ} → Parsed A → (A → Parsed B) → Parsed B
parsed a >>= f = f a
refused error >>= f = refused error
raised >>= f = raised

abbrev pub ◌>>◌ {ℓ} : {B : Type ℓ} → Parsed (Unit {0}) → Parsed B → Parsed B
m >> k = m >>= λ _. k

-- Returns false with the error where the test holds.
abbrev pub refuse_if : Bool → String → Parsed (Unit {0})
refuse_if true error = refused error
refuse_if false error = parsed tt

infixr 6 ◌&◌
abbrev pub ◌&◌ : String → String → String
s & t = text_append s t

unfoldable pub parse_kind : String → Parsed PipelineStepKind
parse_kind text =
    if str_eq text "model"
    then parsed model
    else if str_eq text "preprocess"
    then parsed preprocess
    else if str_eq text "postprocess"
    then parsed postprocess
    else refused ("unknown pipeline step kind: " & text)

unfoldable pub parse_envelope : String → Parsed PipelineEnvelope
parse_envelope text =
    if str_eq text "detection"
    then parsed detection
    else if str_eq text "mask"
    then parsed mask
    else if str_eq text "polygon"
    then parsed polygon
    else refused ("unknown pipeline envelope: " & text)

abbrev pub contains : List String → String → Bool
contains [] s = false
contains (x ∷ xs) s = str_eq x s || contains xs s

abbrev pub is_empty {ℓ} : {A : Type ℓ} → List A → Bool
is_empty [] = true
is_empty (x ∷ xs) = false

abbrev pub is_model : PipelineStepKind → Bool
is_model model = true
is_model preprocess = false
is_model postprocess = false

abbrev pub is_postprocess : PipelineStepKind → Bool
is_postprocess model = false
is_postprocess preprocess = false
is_postprocess postprocess = true

module _ {Json : Type 0} (lib : Library Json) where
  -- `node.value(field, std::string{})`: a member that is no text is an exception.
  unfoldable pub text_or_empty : Json → String → Parsed String
  text_or_empty node field = elim (lib.member node field) [
    | none ↦ parsed ""
    | some value ↦ if lib.is_string value then parsed (lib.text value) else raised
  ]

  unfoldable pub read_entries :
      String → String → List (String × Json) → Map String → Parsed (Map String)
  read_entries step_name field [] target = parsed target
  read_entries step_name field ((key, value) ∷ rest) target =
      let next = read_entries step_name field rest (emplace key (lib.text value) target) in
      if lib.is_string value
      then next
      else refused ("pipeline step '" & step_name & "': " & field & " values must be strings")

  unfoldable pub read_tensor_map : Json → String → String → Parsed (Map String)
  unfolding read_entries
  read_tensor_map node field step_name = elim (lib.member node field) [
    | none ↦ parsed []
    | some value ↦
        if lib.is_object value
        then read_entries step_name field (lib.items value) []
        else refused ("pipeline step '" & step_name & "': " & field & " must be an object")
  ]

  -- `target` is the field's default.
  unfoldable pub read_float : Json → String → String → ℕ → Parsed ℕ
  read_float node field step_name target = elim (lib.member node field) [
    | none ↦ parsed target
    | some value ↦
        if lib.is_number value
        then parsed (lib.float value)
        else refused ("pipeline step '" & step_name & "': " & field & " must be a number")
  ]

  unfoldable pub read_envelope : Json → PipelineStepConfig → Parsed PipelineEnvelope
  unfolding parse_envelope
  read_envelope node step =
      if is_postprocess step.kind
      then elim (lib.member node "envelope") [
        | none ↦ parsed step.envelope
        | some value ↦
            if lib.is_string value
            then parse_envelope (lib.text value)
            else refused ("pipeline step '" & step.name & "': envelope must be a string")
      ]
      else parsed step.envelope

  unfoldable pub read_model : Json → PipelineStepConfig → Parsed PipelineStepConfig
  unfolding text_or_empty
  read_model node step = do
    model_name ← text_or_empty node "model_name"
    refuse_if (str_eq model_name "")
        ("pipeline step '" & step.name & "' is a model step without a model_name")
    model_version ← text_or_empty node "model_version"
    parsed (record step { model_name = model_name; model_version = model_version })

  unfoldable pub read_task : Json → PipelineStepConfig → Parsed PipelineStepConfig
  unfolding text_or_empty
  read_task node step = do
    task_type ← text_or_empty node "task_type"
    refuse_if (str_eq task_type "") ("pipeline step '" & step.name & "' needs a task_type")
    parsed (record step { task_type = task_type })

  -- The model's name and version, or the type of the task.
  unfoldable pub read_subject : Json → PipelineStepConfig → Parsed PipelineStepConfig
  unfolding read_model read_task
  read_subject node step = if is_model step.kind then read_model node step else read_task node step

  -- The fields of a step behind its name, in the order in which they are read.
  unfoldable pub parse_step : Json → String → Parsed PipelineStepConfig
  unfolding text_or_empty parse_kind read_subject read_envelope read_float read_tensor_map
  parse_step node name = do
    kind_text ← text_or_empty node "kind"
    refuse_if (str_eq kind_text "") ("pipeline step '" & name & "' has no kind")
    kind ← parse_kind kind_text
    step ← read_subject node (record default_step { kind = kind; name = name })
    envelope ← read_envelope node step
    confidence ← read_float node "confidence_threshold" name step.confidence_threshold
    nms ← read_float node "nms_threshold" name step.nms_threshold
    mask_at ← read_float node "mask_threshold" name step.mask_threshold
    input_map ← read_tensor_map node "input_map" name
    output_map ← read_tensor_map node "output_map" name
    parsed (record step {
      envelope = envelope;
      confidence_threshold = confidence;
      nms_threshold = nms;
      mask_threshold = mask_at;
      input_map = input_map;
      output_map = output_map;
    })

abbrev pub values {ℓ} : {V : Type ℓ} → Map V → List V
values [] = []
values ((k, v) ∷ m) = v ∷ values m

-- The first tensor that is not available.
unfoldable pub unavailable_tensor : List String → List String → Option String
unavailable_tensor available [] = none
unavailable_tensor available (tensor ∷ rest) =
    let behind = unavailable_tensor available rest in
    if contains available tensor then behind else some tensor

unfoldable pub check_names : Bool → List String → PipelineStepConfig → Parsed (Unit {0})
unfolding unavailable_tensor
check_names names_knowable available step =
    if names_knowable
    then elim (unavailable_tensor available (values step.input_map)) [
      | none ↦ parsed tt
      | some tensor ↦ refused (
          "pipeline step '" & step.name & "' consumes tensor '" & tensor
          & "' that no earlier step produces")
    ]
    else parsed tt

module _ {Json : Type 0} (lib : Library Json) where
  -- The loop over the nodes of the steps: the names so far, the tensors available, and whether the
  -- names are knowable.
  unfoldable pub parse_steps :
      List String → List String → Bool → List Json → Parsed (List PipelineStepConfig)
  unfolding text_or_empty parse_step check_names
  parse_steps names available names_knowable [] = parsed []
  parse_steps names available names_knowable (node ∷ rest) = do
    refuse_if (not (lib.is_object node)) "pipeline steps must be objects"
    name ← text_or_empty lib node "name"
    refuse_if (str_eq name "") "every pipeline step needs a name"
    refuse_if (contains names name) ("duplicate pipeline step name: " & name)
    step ← parse_step lib node name
    check_names names_knowable available step
    steps ←
        parse_steps (name ∷ names) (values step.output_map ++ available)
          (names_knowable && not (is_empty step.output_map)) rest
    parsed (step ∷ steps)

  unfoldable pub parse_nodes : Option Json → Parsed (List PipelineStepConfig)
  unfolding parse_steps
  parse_nodes none = refused "pipeline graph must declare a non-empty 'steps' array"
  parse_nodes (some nodes) = do
    refuse_if (not (lib.is_array nodes) || is_empty (lib.elements nodes))
        "pipeline graph must declare a non-empty 'steps' array"
    parse_steps [] (pipeline_image_input_name ∷ []) true (lib.elements nodes)

  -- A discarded value and a value that is no object are refused alike.
  unfoldable pub parse_root : Option Json → Parsed (List PipelineStepConfig)
  unfolding parse_nodes
  parse_root none = refused "pipeline graph must be a JSON object"
  parse_root (some root) = do
    refuse_if (not (lib.is_object root)) "pipeline graph must be a JSON object"
    parse_nodes (lib.member root "steps")

  unfoldable pub parse_pipeline_config : String → Parsed (List PipelineStepConfig)
  unfolding parse_root
  parse_pipeline_config text = parse_root (lib.parse text)

unfoldable pub pipeline_consumes_encoded_image : List PipelineStepConfig → Bool
pipeline_consumes_encoded_image [] = false
pipeline_consumes_encoded_image (step ∷ rest) = elim step.kind [ preprocess ↦ true | _ ↦ false ]

unfoldable pub consumed_tensors : List PipelineStepConfig → List String
consumed_tensors [] = []
consumed_tensors (step ∷ rest) = values step.input_map ++ consumed_tensors rest

-- What the steps produce, in their order.
unfoldable pub produced_tensors : List PipelineStepConfig → List String
produced_tensors [] = []
produced_tensors (step ∷ rest) = values step.output_map ++ produced_tensors rest

-- `terminal` is what was found so far.
unfoldable pub terminal_from : List String → List String → List String → List String
terminal_from consumed terminal [] = terminal
terminal_from consumed terminal (tensor ∷ rest) =
    terminal_from consumed
      (if not (contains consumed tensor) && not (contains terminal tensor)
        then terminal ++ (tensor ∷ [])
        else terminal)
      rest

unfoldable pub pipeline_terminal_tensors : List PipelineStepConfig → List String
unfolding consumed_tensors produced_tensors terminal_from
pipeline_terminal_tensors steps = terminal_from (consumed_tensors steps) [] (produced_tensors steps)
