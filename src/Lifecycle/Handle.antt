-- ===== src/Lifecycle/Handle.antt =====
-- src/ModelMetadata.hpp, src/ModelHandle.hpp, src/RuntimeConfig.hpp: a model's metadata, its handle and
-- the settings; and the settings of the two schedulers, which a load takes from them.
use neuriplo_kserve_runtime.Prelude.{ℕ, String, Bool, false, List, [], Option, none}
use neuriplo_kserve_runtime.ModelState.{Machine, machine}
use neuriplo_kserve_runtime.Scheduler.World.{Config}

pub record TensorMetadata : Type 0 where
  pub name : String
  pub datatype : String
  pub shape : List ℕ

pub record ModelMetadata : Type 0 where
  pub name : String
  pub versions : List String
  pub platform : String
  pub inputs : List TensorMetadata
  pub outputs : List TensorMetadata

abbrev pub no_metadata : ModelMetadata
no_metadata = record { name = ""; versions = []; platform = ""; inputs = []; outputs = [] }

pub record ModelHandle : Type 0 where
  pub name : String
  pub versions : List String
  pub state : Machine
  pub metadata : ModelMetadata
  pub scheduler : Option ℕ
  pub load_error : Option String

-- A handle as it is default-constructed.
abbrev pub new_handle : ModelHandle
new_handle = record {
  name = "";
  versions = [];
  state = machine;
  metadata = no_metadata;
  scheduler = none;
  load_error = none;
}

-- Doubles are bit patterns; an `int` or an `int64_t` is the pattern of its 64 bits.
pub record RuntimeConfig : Type 0 where
  pub host : String
  pub port : ℕ
  pub grpc_port : ℕ
  pub max_request_bytes : ℕ
  pub model_name : String
  pub model_version : String
  pub model_version_explicit : Bool
  pub model_path : String
  pub model_repository : String
  pub model_control_mode : String
  pub backend : String
  pub use_gpu : Bool
  pub plugin_dir : String
  pub input_sizes : List (List ℕ)
  pub pipeline_graph : String
  pub storage_uri : String
  pub deployment : String
  pub max_queue_size : ℕ
  pub request_timeout_ms : ℕ
  pub instances : ℕ
  pub dynamic_batching_enabled : Bool
  pub max_batch_size : ℕ
  pub max_queue_delay_us : ℕ
  pub preferred_batch_sizes : List ℕ
  pub log_payloads : Bool
  pub scheduler_strategy : String
  pub context_length : ℕ
  pub kv_cache_slots : ℕ
  pub max_tokens : ℕ
  pub tokens_per_char : ℕ
  pub temperature : ℕ
  pub top_p : ℕ
  pub top_k : ℕ
  pub streaming_enabled : Bool
  pub memory_budget_bytes : ℕ

-- A configuration as it is default-constructed.
abbrev pub default_config : RuntimeConfig
default_config = record {
  host = "0.0.0.0";
  port = 8080;
  grpc_port = 0;
  max_request_bytes = 67_108_864;
  model_name = "demo";
  model_version = "1";
  model_version_explicit = false;
  model_path = "";
  model_repository = "";
  model_control_mode = "none";
  backend = "stub";
  use_gpu = false;
  plugin_dir = "";
  input_sizes = [];
  pipeline_graph = "";
  storage_uri = "";
  deployment = "";
  max_queue_size = 64;
  request_timeout_ms = 30_000;
  instances = 1;
  dynamic_batching_enabled = false;
  max_batch_size = 1;
  max_queue_delay_us = 0;
  preferred_batch_sizes = [];
  log_payloads = false;
  scheduler_strategy = "tensor";
  context_length = 4096;
  kv_cache_slots = 1;
  max_tokens = 256;
  tokens_per_char = 0x3FD0000000000000;
  temperature = 0x3FE999999999999A;
  top_p = 0x3FEE666666666666;
  top_k = 40;
  streaming_enabled = false;
  memory_budget_bytes = 0;
}

pub record LlmSchedulerConfig : Type 0 where
  pub max_queue_size : ℕ
  pub request_timeout_ms : ℕ
  pub instances : ℕ
  pub context_length : ℕ
  pub kv_cache_slots : ℕ
  pub max_tokens : ℕ
  pub tokens_per_char : ℕ
  pub memory_budget_bytes : ℕ

abbrev pub llm_scheduler_config : RuntimeConfig → LlmSchedulerConfig
llm_scheduler_config config = record {
  max_queue_size = config.max_queue_size;
  request_timeout_ms = config.request_timeout_ms;
  instances = config.instances;
  context_length = config.context_length;
  kv_cache_slots = config.kv_cache_slots;
  max_tokens = config.max_tokens;
  tokens_per_char = config.tokens_per_char;
  memory_budget_bytes = config.memory_budget_bytes;
}

abbrev pub scheduler_config : RuntimeConfig → Config
scheduler_config config = record {
  max_queue_size = config.max_queue_size;
  request_timeout_ms = config.request_timeout_ms;
  instances = config.instances;
  dynamic_batching = record {
    enabled = config.dynamic_batching_enabled;
    max_batch_size = config.max_batch_size;
    max_queue_delay_us = config.max_queue_delay_us;
    preferred_batch_sizes = config.preferred_batch_sizes;
  };
}
