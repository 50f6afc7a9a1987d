-- ===== src/Pipeline/Examples.antt =====
-- A pipeline of two calls of a model, and the theorems on pipelines at it.
use neuriplo_kserve_runtime.Prelude.{
  ℕ, suc, String, Bool, true, false, List, [], ◌∷◌, none, some, ◌≡◌, refl, subst, ◌⊎◌, Map, lookup,
  emplace,
}
use neuriplo_kserve_runtime.ModelState.{ready}
use neuriplo_kserve_runtime.Request.{OutputTensor, ExecutionRequest, empty_request, empty_response}
use neuriplo_kserve_runtime.Scheduler.Result.{empty_result}
use neuriplo_kserve_runtime.Lifecycle.{TensorMetadata, RuntimeConfig, default_config}
use neuriplo_kserve_runtime.Registry.State.{InferSnapshot, is_ready}
use neuriplo_kserve_runtime.Pipeline.Config.{
  PipelineStepConfig, default_step, pipeline_image_input_name, Library, parsed, contains, is_empty,
  parse_kind, text_or_empty, read_model, read_subject, read_envelope, read_float, read_entries,
  read_tensor_map, parse_step, unavailable_tensor, check_names, parse_steps, parse_nodes,
  parse_root, parse_pipeline_config,
}
use neuriplo_kserve_runtime.Pipeline.Config.Valid.{Valid, parse_pipeline_config-Valid}
use neuriplo_kserve_runtime.Pipeline.Executor.{
  Step, PipelineExecutor, World, Ran, ran, ends, pipeline_executor, resolved, run_step,
  run_model_step, scheduled_response, graph_names, mapped, infer, renamed, first_inputs,
  adopt_declared_shape,
}
use neuriplo_kserve_runtime.Pipeline.Executor.LastUse.{names}
use neuriplo_kserve_runtime.Pipeline.Executor.Copies.{infer_copying, infer-infer_copying}
use neuriplo_kserve_runtime.Pipeline.Executor.Shapes.{Relabelled, adopt_declared_shape-Relabelled}
use neuriplo_kserve_runtime.Pipeline.Build.{
  Host, make_builtin_disabled, read_graph_text, build_model_step, build_step, build_steps,
  resolve_model, check_wiring, make_pipeline_executor,
}
use neuriplo_kserve_runtime.Pipeline.Build.Accepted.{Accepted, make_pipeline_executor-Accepted}
use neuriplo_kserve_runtime.Pipeline.Build.Present.{input_names, tensor_names}
use neuriplo_kserve_runtime.Pipeline.Build.Complete.{Delivers, AllDeliver, EndedBy, infer-Answered}

-- The values of the graph's text, as a JSON library reads them.
data Value : Type 0 where
  root nodes front back front_outputs back_inputs : Value
  quoted : String → Value

abbrev members : Value → Map Value
members root = ("steps", nodes) ∷ []
members front =
    ("name", quoted "front")
    ∷ ("kind", quoted "model")
    ∷ ("model_name", quoted "resnet")
    ∷ ("output_map", front_outputs)
    ∷ []
members back =
    ("name", quoted "back")
    ∷ ("kind", quoted "model")
    ∷ ("model_name", quoted "resnet")
    ∷ ("input_map", back_inputs)
    ∷ []
members front_outputs = ("OUT", quoted "middle") ∷ []
members back_inputs = ("IN", quoted "middle") ∷ []
members nodes = []
members (quoted s) = []

abbrev is_quoted : Value → Bool
is_quoted (quoted s) = true
is_quoted _ = false

abbrev text_of : Value → String
text_of (quoted s) = s
text_of _ = ""

abbrev is_nodes : Value → Bool
is_nodes nodes = true
is_nodes _ = false

abbrev json : Library Value
json = record {
  parse = λ _. some root;
  is_object = λ v. true;
  is_array = is_nodes;
  is_string = is_quoted;
  is_number = λ _. false;
  member = λ v field. lookup field (members v);
  elements = λ _. front ∷ back ∷ [];
  items = members;
  text = text_of;
  float = λ _. 0;
}

abbrev front_step : PipelineStepConfig
front_step = record default_step {
  name = "front";
  model_name = "resnet";
  output_map = ("OUT", "middle") ∷ [];
}

abbrev back_step : PipelineStepConfig
back_step = record default_step {
  name = "back";
  model_name = "resnet";
  input_map = ("IN", "middle") ∷ [];
}

graph_parses : parse_pipeline_config json "graph" ≡ parsed (front_step ∷ back_step ∷ [])
unfolding parse_pipeline_config parse_root parse_nodes parse_steps parse_step check_names
    unavailable_tensor read_tensor_map read_entries read_float read_envelope read_subject read_model
    text_or_empty parse_kind lookup emplace
graph_parses = refl

parse_pipeline_config-Valid_example :
    (is_empty (front_step ∷ back_step ∷ []) ≡ false)
    × Valid [] (pipeline_image_input_name ∷ []) true (front_step ∷ back_step ∷ [])
parse_pipeline_config-Valid_example = parse_pipeline_config-Valid json "graph" graph_parses

abbrev tensor : String → TensorMetadata
tensor name = record { name = name; datatype = "FP32"; shape = 1 ∷ 2 ∷ [] }

abbrev resnet : InferSnapshot
resnet = record {
  name = "resnet";
  versions = "3" ∷ [];
  state = ready;
  metadata = record {
    name = "resnet";
    versions = "3" ∷ [];
    platform = "neuriplo_stub";
    inputs = tensor "IN" ∷ [];
    outputs = tensor "OUT" ∷ [];
  };
  scheduler = some 5;
  load_error = none;
}

abbrev result : OutputTensor
result = record {
  name = "OUT";
  datatype = "FP32";
  shape = 1 ∷ 2 ∷ [];
  bytes = [];
  string_data = [];
}

-- The model is there and answers each request; the state counts the requests.
abbrev world : World ℕ
world = record {
  stopped = λ _. [];
  resolver = λ _ _ _. some resnet;
  submit = λ w _ _.
      (record empty_result { response = record empty_response { outputs = result ∷ [] } }, suc w);
  run_builtin = λ w _ _. ((false, [], "no task layer"), w);
}

abbrev host : Host Value ℕ
host = record {
  library = json;
  world = world;
  read_file = λ _. none;
  make_builtin = make_builtin_disabled;
  to_string = λ _. "0";
}

abbrev settings : RuntimeConfig
settings = record default_config { model_name = "twice"; pipeline_graph = "graph" }

abbrev front_built : Step
front_built = record {
  config = front_step;
  builtin = none;
  inputs = tensor "IN" ∷ [];
  outputs = tensor "OUT" ∷ [];
}

abbrev back_built : Step
back_built = record front_built { config = back_step }

abbrev steps : List Step
steps = front_built ∷ back_built ∷ []

abbrev twice : PipelineExecutor
twice = pipeline_executor "twice" steps

twice_built : make_pipeline_executor host 0 true settings ≡ parsed twice
unfolding make_pipeline_executor read_graph_text build_steps build_step build_model_step
    resolve_model resolved is_ready check_wiring unavailable_tensor graph_names mapped
    parse_pipeline_config parse_root parse_nodes parse_steps parse_step check_names read_tensor_map
    read_entries read_float read_envelope read_subject read_model text_or_empty parse_kind lookup
    emplace
twice_built = refl

make_pipeline_executor-Accepted_example : Accepted host 0 settings twice
make_pipeline_executor-Accepted_example =
    make_pipeline_executor-Accepted host 0 true settings twice_built

abbrev request : ExecutionRequest
request = record empty_request {
  inputs =
      record {
        name = "IN";
        datatype = "FP32";
        shape = 2 ∷ [];
        bytes = 0 ∷ 0 ∷ 0 ∷ 0 ∷ 0 ∷ 0 ∷ 0 ∷ 0 ∷ [];
        string_data = [];
      }
      ∷ [];
}

infer-infer_copying_example : infer world twice 0 request ≡ infer_copying world twice 0 request
infer-infer_copying_example = infer-infer_copying world "twice" steps 0 request

abbrev Lists : Ran → String → Type 0
Lists (ran outputs) n = contains (tensor_names outputs) n ≡ true
Lists (ends response) n = Unit

delivers : AllDeliver world twice.steps
unfolding pipeline_executor Delivers run_step run_model_step resolved is_ready scheduled_response
delivers =
    (λ _ _ _ e n h. subst (λ r. Lists r n) e h, (λ _ _ _ e n h. subst (λ r. Lists r n) e h, tt))

brings :
    (n : String)
    → contains (names twice.metadata.inputs) n ≡ true
    → contains (input_names request.inputs) n ≡ true
unfolding pipeline_executor first_inputs renamed mapped lookup
brings n h = h

infer-Answered_example :
    ((infer world twice 0 request).0.ok ≡ true)
    ⊎ EndedBy world twice.steps (infer world twice 0 request).0
infer-Answered_example = infer-Answered host 0 true settings 0 request twice_built delivers brings

adopt_declared_shape-Relabelled_example :
    Relabelled
      (record result { shape = 2 ∷ [] })
      (adopt_declared_shape (tensor "OUT" ∷ []) (record result { shape = 2 ∷ [] }))
adopt_declared_shape-Relabelled_example =
    adopt_declared_shape-Relabelled (tensor "OUT" ∷ []) (record result { shape = 2 ∷ [] })
