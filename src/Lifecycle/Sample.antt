-- ===== src/Lifecycle/Sample.antt =====
-- A model whose executors are built at the first attempt.
use neuriplo_kserve_runtime.Prelude.{false, [], ◌∷◌, some}
use neuriplo_kserve_runtime.Lifecycle.{
  ModelMetadata, RuntimeConfig, Outside, executor, launched, launch_threw, default_config,
}

abbrev pub resnet : ModelMetadata
resnet = record {
  name = "resnet";
  versions = "3" ∷ [];
  platform = "neuriplo_stub";
  inputs = [];
  outputs = [];
}

abbrev pub settings : RuntimeConfig
settings = record default_config { instances = 2 }

-- Executors are built, tensor schedulers start, and the others run out of memory.
abbrev pub here : Outside
here = record {
  backend_is_llm = λ _. false;
  factory = λ _ _ error. executor resnet error;
  make_llm_scheduler = λ _ _ _. launch_threw (some "bad_alloc");
  make_model_scheduler = λ _ _ _. launched 5;
}
