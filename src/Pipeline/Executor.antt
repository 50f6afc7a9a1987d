-- ===== src/Pipeline/Executor.antt =====
-- src/PipelineExecutor.cpp, the class PipelineExecutor: the steps of a pipeline and a request's run
-- through them.
--
-- The world outside is threaded through: the resolver, a scheduler's `submit` and the run of a
-- built-in step (which names it by a number) may change it. An exception of those is left out.
pub mod LastUse
pub mod Copies
pub mod Shapes
use neuriplo_kserve_runtime.Prelude.{
  ℕ, zero, suc, ◌^◌, String, Bool, true, false, not, ◌&&◌, ◌||◌, List, [], ◌∷◌, ◌++◌, Option, none,
  some, map, if◌then◌else◌, ltb, ◌==◌, str_eq, Map, lookup, put, without, emplace,
}
use neuriplo_kserve_runtime.Request.{
  InputTensor, OutputTensor, ExecutionRequest, ExecutionResponse, empty_request, empty_response,
}
use neuriplo_kserve_runtime.Scheduler.Result.{SchedulerResult}
use neuriplo_kserve_runtime.Lifecycle.{TensorMetadata, ModelMetadata}
use neuriplo_kserve_runtime.Registry.State.{InferSnapshot, is_ready}
use neuriplo_kserve_runtime.Pipeline.Config.{PipelineStepConfig, contains, is_empty, ◌&◌}

pub record Step : Type 0 where
  pub config : PipelineStepConfig
  pub builtin : Option ℕ
  pub inputs : List TensorMetadata
  pub outputs : List TensorMetadata

pub record PipelineExecutor : Type 0 where
  pub metadata : ModelMetadata
  pub steps : List Step
  pub last_use : Map ℕ

unfoldable pub mapped : Map String → String → String
mapped m name = elim (lookup name m) [ none ↦ name | some graph_name ↦ graph_name ]

-- The tensors of the graph that declared tensors of a step are mapped to.
unfoldable pub graph_names : Map String → List TensorMetadata → List String
graph_names m [] = []
graph_names m (declared ∷ rest) = mapped m declared.name ∷ graph_names m rest

abbrev pub reads : Step → List String
reads step = graph_names step.config.input_map step.inputs

abbrev pub writes : Step → List String
writes step = graph_names step.config.output_map step.outputs

unfoldable pub renamed : Map String → List TensorMetadata → List TensorMetadata
renamed m [] = []
renamed m (declared ∷ rest) = record declared { name = mapped m declared.name } ∷ renamed m rest

-- A pipeline has a first and a last step; without one the code is undefined.
unfoldable pub first_inputs : List Step → List TensorMetadata
unfolding renamed
first_inputs [] = []
first_inputs (step ∷ rest) = renamed step.config.input_map step.inputs

unfoldable pub last_outputs : List Step → List TensorMetadata
unfolding renamed
last_outputs [] = []
last_outputs (step ∷ []) = renamed step.config.output_map step.outputs
last_outputs (step ∷ next ∷ rest) = last_outputs (next ∷ rest)

unfoldable pub index_reads : ℕ → List String → Map ℕ → Map ℕ
index_reads index [] last_use = last_use
index_reads index (name ∷ rest) last_use = index_reads index rest (put name index last_use)

unfoldable pub index_steps : ℕ → List Step → Map ℕ → Map ℕ
unfolding index_reads graph_names
index_steps index [] last_use = last_use
index_steps index (step ∷ rest) last_use =
    index_steps (suc index) rest (index_reads index (reads step) last_use)

unfoldable pub erase_outputs : List TensorMetadata → Map ℕ → Map ℕ
erase_outputs [] last_use = last_use
erase_outputs (declared ∷ rest) last_use = erase_outputs rest (without declared.name last_use)

unfoldable pub index_last_use : List Step → List TensorMetadata → Map ℕ
unfolding index_steps erase_outputs
index_last_use steps outputs = erase_outputs outputs (index_steps 0 steps [])

-- The constructor.
unfoldable pub pipeline_executor : String → List Step → PipelineExecutor
unfolding first_inputs last_outputs index_last_use
pipeline_executor model_name steps = record {
  metadata = record {
    name = model_name;
    versions = "1" ∷ [];
    platform = "ensemble";
    inputs = first_inputs steps;
    outputs = last_outputs steps;
  };
  steps = steps;
  last_use = index_last_use steps (last_outputs steps);
}

unfoldable pub failure : String → String → ExecutionResponse
failure code message = record empty_response {
  ok = false;
  error_code = code;
  error_message = message;
}

abbrev pub as_output : InputTensor → OutputTensor
as_output input = record {
  name = input.name;
  datatype = input.datatype;
  shape = input.shape;
  bytes = input.bytes;
  string_data = input.string_data;
}

abbrev pub as_input : OutputTensor → InputTensor
as_input tensor = record {
  name = tensor.name;
  datatype = tensor.datatype;
  shape = tensor.shape;
  bytes = tensor.bytes;
  string_data = tensor.string_data;
}

unfoldable pub request_values : List InputTensor → Map OutputTensor → Map OutputTensor
request_values [] values = values
request_values (input ∷ rest) values =
    request_values rest (emplace input.name (as_output input) values)

-- The inputs of a step with the tensors that are left, or the name of a tensor that is missing.
pub data Gathered : Type 0 where
  gathered : List OutputTensor → Map OutputTensor → Gathered
  missing : String → Gathered

unfoldable pub with_tensor : OutputTensor → Gathered → Gathered
with_tensor tensor (gathered tensors values) = gathered (tensor ∷ tensors) values
with_tensor tensor (missing name) = missing name

unfoldable pub is_last_use : Map ℕ → ℕ → String → Bool
is_last_use last_use index name = elim (lookup name last_use) [
  | none ↦ false
  | some last ↦ last == index
]

abbrev pub named : String → OutputTensor → OutputTensor
named name tensor = record tensor { name = name }

-- A tensor is moved out of the values where nothing behind needs it, else copied.
unfoldable pub gather : Map String → Map ℕ → ℕ → List TensorMetadata → Map OutputTensor → Gathered
gather input_map last_use index [] values = gathered [] values
gather input_map last_use index (declared ∷ rest) values =
    let graph_name = mapped input_map declared.name in
    let needed_later_in_step = contains (graph_names input_map rest) graph_name in
    let moves = not needed_later_in_step && is_last_use last_use index graph_name in
    elim (lookup graph_name values) [
      | none ↦ missing graph_name
      | some tensor ↦ with_tensor (named declared.name tensor) (
          gather input_map last_use index rest
            (if moves then without graph_name values else values))
    ]

unfoldable pub trim : List ℕ → List ℕ
trim [] = []
trim (dim ∷ []) = dim ∷ []
trim (dim ∷ next ∷ rest) =
    let trimmed = trim (next ∷ rest) in if dim == 1 then trimmed else dim ∷ next ∷ rest

abbrev pub same_shape : List ℕ → List ℕ → Bool
same_shape [] [] = true
same_shape (x ∷ xs) (y ∷ ys) = (x == y) && same_shape xs ys
same_shape [] (y ∷ ys) = false
same_shape (x ∷ xs) [] = false

unfoldable pub same_after_dropping_leading_ones : List ℕ → List ℕ → Bool
unfolding trim
same_after_dropping_leading_ones left right = same_shape (trim left) (trim right)

-- A dimension is negative when the sign bit of its 64 bits is set.
abbrev pub has_dynamic : List ℕ → Bool
has_dynamic [] = false
has_dynamic (dim ∷ rest) = not (ltb dim (2 ^ 63)) || has_dynamic rest

unfoldable pub adopt_declared_shape : List TensorMetadata → OutputTensor → OutputTensor
unfolding same_after_dropping_leading_ones
adopt_declared_shape [] tensor = tensor
adopt_declared_shape (declared ∷ rest) tensor =
    let next = adopt_declared_shape rest tensor in
    if not (str_eq declared.name tensor.name)
    then next
    else if same_shape declared.shape tensor.shape || has_dynamic declared.shape
    then tensor
    else if same_after_dropping_leading_ones declared.shape tensor.shape
    then record tensor { shape = declared.shape }
    else tensor

pub record World (W : Type 0) : Type 0 where
  -- The schedulers that accept no more.
  pub stopped : W → List ℕ
  pub resolver : W → String → String → Option InferSnapshot
  pub submit : W → ℕ → ExecutionRequest → SchedulerResult × W
  -- A built-in step: whether it returns true, its outputs, and its error.
  pub run_builtin : W → ℕ → List OutputTensor → (Bool × List OutputTensor × String) × W

-- A step's outputs, or the response that it ends the pipeline with.
pub data Ran : Type 0 where
  ran : List OutputTensor → Ran
  ends : ExecutionResponse → Ran

unfoldable pub scheduled_response : Step → SchedulerResult → ExecutionResponse
unfolding failure
scheduled_response step scheduled =
    if not scheduled.ok
    then failure (if str_eq scheduled.error_code "" then "INTERNAL" else scheduled.error_code)
        ("pipeline step '" & step.config.name & "': " & scheduled.error_message)
    else scheduled.response

module _ {W : Type 0} (world : World W) where
  -- The snapshot, where it is ready, with its scheduler.
  unfoldable pub resolved : W → String → String → Option (InferSnapshot × ℕ)
  unfolding is_ready
  resolved w model_name model_version = elim (world.resolver w model_name model_version) [
    | none ↦ none
    | some snapshot ↦ elim snapshot.scheduler [
      | none ↦ none
      | some scheduler ↦
          if is_ready (world.stopped w) snapshot then some (snapshot, scheduler) else none
    ]
  ]

  unfoldable pub run_model_step : W → Step → List OutputTensor → ExecutionResponse × W
  unfolding failure adopt_declared_shape resolved scheduled_response
  run_model_step w step step_inputs =
      elim (resolved w step.config.model_name step.config.model_version) [
        | none ↦ (
          failure "MODEL_NOT_READY" (
              "pipeline step '" & step.config.name & "' references model '" & step.config.model_name
              & "' which is not ready"),
          w,
        )
        | some (snapshot, scheduler) ↦
            let inner = record empty_request {
              inputs = map (λ t. as_input (adopt_declared_shape step.inputs t)) step_inputs;
            } in
            let (scheduled, w') = world.submit w scheduler inner in
            (scheduled_response step scheduled, w')
      ]

  abbrev pub builtin_ran : Bool × List OutputTensor × String → Ran
  builtin_ran (true, outputs, error) = ran outputs
  builtin_ran (false, outputs, error) = ends (failure "INVALID_ARGUMENT" error)

  abbrev pub model_ran : ExecutionResponse → Ran
  model_ran response = if not response.ok then ends response else ran response.outputs

  unfoldable pub run_step : W → Step → List OutputTensor → Ran × W
  unfolding failure run_model_step
  run_step w step step_inputs = elim step.builtin [
    | some builtin ↦
        let (result, w') = world.run_builtin w builtin step_inputs in (builtin_ran result, w')
    | none ↦ let (response, w') = run_model_step w step step_inputs in (model_ran response, w')
  ]

unfoldable pub publish : Map String → List OutputTensor → Map OutputTensor → Map OutputTensor
publish output_map [] values = values
publish output_map (produced ∷ rest) values =
    let graph_name = mapped output_map produced.name in
    publish output_map rest (put graph_name (named graph_name produced) values)

abbrev pub missing_input : Step → String → ExecutionResponse
missing_input step graph_name =
    failure "INVALID_ARGUMENT"
      ("pipeline step '" & step.config.name & "' is missing input tensor '" & graph_name & "'")

-- What is left of the values when the steps are done, or the response that ended them.
pub data Finished : Type 0 where
  finished : Map OutputTensor → Finished
  stopped_with : ExecutionResponse → Finished

-- What a step left, with the steps behind it.
unfoldable pub after_run :
    {W : Type 0}
    → Step
    → Map OutputTensor
    → (W → Map OutputTensor → Finished × W)
    → Ran × W
    → Finished × W
unfolding publish
after_run step values rest (ran outputs, w) = rest w (publish step.config.output_map outputs values)
after_run step values rest (ends response, w) = (stopped_with response, w)

-- One step on the inputs gathered for it, with the steps behind it.
unfoldable pub after_gather :
    {W : Type 0} (world : World W)
    → W
    → Step
    → Gathered
    → (W → Map OutputTensor → Finished × W)
    → Finished × W
unfolding failure run_step after_run
after_gather world w step (missing graph_name) rest =
    (stopped_with (missing_input step graph_name), w)
after_gather world w step (gathered tensors values) rest =
    after_run step values rest (run_step world w step tensors)

unfoldable pub run_steps :
    {W : Type 0} (world : World W) → Map ℕ → ℕ → List Step → W → Map OutputTensor → Finished × W
unfolding after_gather gather
run_steps world last_use index [] w values = (finished values, w)
run_steps world last_use index (step ∷ rest) w values =
    after_gather world w step (gather step.config.input_map last_use index step.inputs values)
      (run_steps world last_use (suc index) rest)

abbrev pub with_output : OutputTensor → ExecutionResponse → ExecutionResponse
with_output tensor response =
    if response.ok then record response { outputs = tensor ∷ response.outputs } else response

-- The outputs that were asked for: all of them where none is named.
unfoldable pub collect_outputs :
    List String → List TensorMetadata → Map OutputTensor → ExecutionResponse
unfolding failure
collect_outputs requested [] values = empty_response
collect_outputs requested (declared ∷ rest) values =
    let behind = collect_outputs requested rest values in
    if not (is_empty requested) && not (contains requested declared.name)
    then behind
    else elim (lookup declared.name values) [
      | none ↦ failure "INTERNAL" ("pipeline produced no tensor named '" & declared.name & "'")
      | some tensor ↦ with_output tensor behind
    ]

unfoldable pub respond : PipelineExecutor → ExecutionRequest → Finished → ExecutionResponse
unfolding collect_outputs
respond e request (finished values) =
    collect_outputs request.requested_outputs e.metadata.outputs values
respond e request (stopped_with response) = response

unfoldable pub infer :
    {W : Type 0} (world : World W) → PipelineExecutor → W → ExecutionRequest → ExecutionResponse × W
unfolding request_values run_steps respond
infer world e w request =
    let (result, w') = run_steps world e.last_use 0 e.steps w (request_values request.inputs []) in
    (respond e request result, w')
