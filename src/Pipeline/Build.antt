-- ===== src/Pipeline/Build.antt =====
-- src/PipelineExecutor.cpp, `makePipelineExecutor`: a pipeline is built from its graph.
--
-- Reading a file and making a built-in step (src/PipelineSteps.hpp, which two files implement) are
-- parameters; the latter returns a step's number and its tensors, or a null pointer with an error.
-- An exception of the parser goes through.
pub mod Present
pub mod Accepted
pub mod Complete
use neuriplo_kserve_runtime.Prelude.{
  ℕ, suc, String, Bool, true, false, not, ◌&&◌, ◌||◌, List, [], ◌∷◌, ◌++◌, Option, none, some,
  if◌then◌else◌, str_eq, ltb, length,
}
use neuriplo_kserve_runtime.Lifecycle.{TensorMetadata, ModelMetadata, RuntimeConfig}
use neuriplo_kserve_runtime.Registry.State.{InferSnapshot}
use neuriplo_kserve_runtime.Pipeline.Config.{
  PipelineStepConfig, model, preprocess, postprocess, Library, Parsed, parsed, refused, raised,
  ◌>>=◌, ◌>>◌, refuse_if, is_empty, is_model, ◌&◌, unavailable_tensor, parse_pipeline_config,
}
use neuriplo_kserve_runtime.Pipeline.Executor.{
  Step, PipelineExecutor, World, resolved, reads, writes, pipeline_executor,
}

pub record Builtin : Type 0 where
  pub step : ℕ
  pub inputs : List TensorMetadata
  pub outputs : List TensorMetadata

pub record Host (Json W : Type 0) : Type 0 where
  pub library : Library Json
  pub world : World W
  pub read_file : String → Option String
  pub make_builtin : PipelineStepConfig → ModelMetadata → Parsed Builtin
  pub to_string : ℕ → String

unfoldable pub read_graph_text : (String → Option String) → RuntimeConfig → Parsed String
read_graph_text read_file config =
    if not (str_eq config.pipeline_graph "")
    then parsed config.pipeline_graph
    else if str_eq config.model_path ""
    then refused (
        "pipeline model needs a graph: set model_path to a graph file or supply "
        & "pipeline_graph inline")
    else elim (read_file config.model_path) [
      | none ↦ refused ("could not open pipeline graph: " & config.model_path)
      | some text ↦ parsed text
    ]

module _ {Json W : Type 0} (host : Host Json W) (w : W) where
  -- `candidates` are the steps from the neighbour on, in the direction of the search; `index` is the
  -- position of the step that asks.
  unfoldable pub neighbour_model_metadata : ℕ → List PipelineStepConfig → Parsed ModelMetadata
  unfolding resolved
  neighbour_model_metadata index [] =
      refused ("pipeline step at position " & host.to_string index & " has no adjacent model step")
  neighbour_model_metadata index (candidate ∷ rest) =
      let farther = neighbour_model_metadata index rest in
      if not (is_model candidate.kind)
      then farther
      else elim (resolved host.world w candidate.model_name candidate.model_version) [
        | none ↦ refused (
            "pipeline references model '" & candidate.model_name
            & "' which is not loaded; load it before the pipeline")
        | some (snapshot, scheduler) ↦ parsed snapshot.metadata
      ]

  unfoldable pub resolve_model : PipelineStepConfig → Parsed InferSnapshot
  unfolding resolved
  resolve_model step = elim (resolved host.world w step.model_name step.model_version) [
    | none ↦ refused (
        "pipeline step '" & step.name & "' references model '" & step.model_name
        & "' which is not loaded")
    | some (snapshot, scheduler) ↦ parsed snapshot
  ]

  unfoldable pub build_model_step : String → PipelineStepConfig → Parsed Step
  unfolding resolve_model
  build_model_step own_name step = do
    refuse_if (str_eq step.model_name own_name) (
        "pipeline step '" & step.name & "' references its own pipeline '" & own_name
        & "'; a pipeline cannot reference itself")
    snapshot ← resolve_model step
    refuse_if (str_eq snapshot.metadata.platform "ensemble") (
        "pipeline step '" & step.name & "' references model '" & step.model_name
        & "' which is itself an ensemble; nested ensembles are not supported")
    parsed (record {
      config = step;
      builtin = none;
      inputs = snapshot.metadata.inputs;
      outputs = snapshot.metadata.outputs;
    })

  unfoldable pub build_builtin_step : PipelineStepConfig → ℕ → List PipelineStepConfig → Parsed Step
  unfolding neighbour_model_metadata
  build_builtin_step step index candidates = do
    neighbour ← neighbour_model_metadata index candidates
    builtin ← host.make_builtin step neighbour
    parsed (record {
      config = step;
      builtin = some builtin.step;
      inputs = builtin.inputs;
      outputs = builtin.outputs;
    })

  -- The steps before, the nearest first, and those behind.
  unfoldable pub build_step :
      String → List PipelineStepConfig → PipelineStepConfig → List PipelineStepConfig → Parsed Step
  unfolding build_model_step build_builtin_step
  build_step own_name before step behind = elim step.kind [
    | model ↦ build_model_step own_name step
    | preprocess ↦ build_builtin_step step (length before) behind
    | postprocess ↦ build_builtin_step step (length before) before
  ]

  unfoldable pub build_steps :
      String → List PipelineStepConfig → List PipelineStepConfig → Parsed (List Step)
  unfolding build_step
  build_steps own_name before [] = parsed []
  build_steps own_name before (step ∷ behind) = do
    built ← build_step own_name before step behind
    steps ← build_steps own_name (step ∷ before) behind
    parsed (built ∷ steps)

unfoldable pub check_wiring : List String → List Step → Parsed (Unit {0})
unfolding unavailable_tensor
check_wiring available [] = parsed tt
check_wiring available (step ∷ rest) =
    let behind = check_wiring (writes step ++ available) rest in
    elim (unavailable_tensor available (reads step)) [
      | some graph_name ↦ refused (
          "pipeline step '" & step.config.name & "' consumes tensor '" & graph_name
          & "' that no earlier step produces")
      | none ↦ behind
    ]

-- A graph has a first step; without one the code is undefined.
abbrev pub first_reads : List Step → List String
first_reads [] = []
first_reads (step ∷ rest) = reads step

abbrev pub batches : RuntimeConfig → Bool
batches config = config.dynamic_batching_enabled || ltb 1 config.max_batch_size

-- The maker of built-in steps in a build without the task layer.
unfoldable pub make_builtin_disabled : PipelineStepConfig → ModelMetadata → Parsed Builtin
make_builtin_disabled step neighbour = refused (
    "pipeline step '" & step.name
    & "' needs task-layer preprocessing/postprocessing, which this binary was built "
    & "without; rebuild with -DNEURIPLO_RUNTIME_ENABLE_TASKS=ON")

-- `has_resolver`: the resolver is a function, not an empty one.
unfoldable pub make_pipeline_executor :
    {Json W : Type 0} → Host Json W → W → Bool → RuntimeConfig → Parsed PipelineExecutor
unfolding read_graph_text parse_pipeline_config build_steps check_wiring pipeline_executor
make_pipeline_executor host w has_resolver config = do
  refuse_if (not has_resolver) "pipeline models need a model resolver"
  refuse_if (batches config) (
      "pipeline models cannot batch: max_batch_size is 1 by contract, but this model "
      & "was configured with dynamic batching")
  graph_text ← read_graph_text host.read_file config
  graph ← parse_pipeline_config host.library graph_text
  steps ← build_steps host w config.model_name [] graph
  check_wiring (first_reads steps) steps
  parsed (pipeline_executor config.model_name steps)
