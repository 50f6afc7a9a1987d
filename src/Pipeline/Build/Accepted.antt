-- ===== src/Pipeline/Build/Accepted.antt =====
-- src/PipelineExecutor.cpp, `makePipelineExecutor`: what holds of every pipeline that is built.
use neuriplo_kserve_runtime.Prelude.{
  ℕ, String, Bool, true, false, not, List, [], ◌∷◌, ◌++◌, Option, none, some, ◌≡◌, ◌≢◌, refl, subst,
  ◌⊎◌, inl, inr, str_eq, length, All,
}
use neuriplo_kserve_runtime.Lifecycle.{RuntimeConfig}
use neuriplo_kserve_runtime.Registry.State.{InferSnapshot}
use neuriplo_kserve_runtime.Pipeline.Config.{
  PipelineStepKind, PipelineStepConfig, model, preprocess, postprocess, Parsed, parsed, refused,
  refuse_if, contains, ◌&◌, unavailable_tensor, parse_pipeline_config,
}
use neuriplo_kserve_runtime.Pipeline.Config.Chains.{
  bind_parsed, refuse_if_parsed, parsed_inj, unavailable_tensor-none, differs,
}
use neuriplo_kserve_runtime.Pipeline.Executor.{
  Step, PipelineExecutor, resolved, reads, writes, pipeline_executor,
}
use neuriplo_kserve_runtime.Pipeline.Build.{
  Host, read_graph_text, resolve_model, build_model_step, build_builtin_step, build_step,
  build_steps, neighbour_model_metadata, check_wiring, first_reads, batches, make_pipeline_executor,
}

-- Every tensor that a step reads is available or is written by an earlier step.
unfoldable pub Wired : List String → List Step → Type 0
Wired available [] = Unit
Wired available (step ∷ rest) =
    All (λ n. contains available n ≡ true) (reads step) × Wired (writes step ++ available) rest

check_wiring-Wired :
    (available : List String) (steps : List Step) {u : Unit {0}}
    → check_wiring available steps ≡ parsed u
    → Wired available steps
unfolding check_wiring Wired
check_wiring-Wired available [] h = tt
check_wiring-Wired available (step ∷ rest) h =
    at (unavailable_tensor available (reads step)) refl h
      (λ e. check_wiring-Wired (writes step ++ available) rest e)
  where
    at :
        (o : Option String)
        → unavailable_tensor available (reads step) ≡ o
        → {u : Unit {0}}
        → (elim o as (λ o. Parsed (Unit {0})) [
          | some graph_name ↦ refused (
              "pipeline step '" & step.config.name & "' consumes tensor '" & graph_name
              & "' that no earlier step produces")
          | none ↦ check_wiring (writes step ++ available) rest
        ])
          ≡ parsed u
        → (check_wiring (writes step ++ available) rest ≡ parsed u
            → Wired (writes step ++ available) rest)
        → All (λ n. contains available n ≡ true) (reads step)
          × Wired (writes step ++ available) rest
    at none e h go = (unavailable_tensor-none available (reads step) e, go h)
    at (some n) e h go = cc

module _ {Json W : Type 0} (host : Host Json W) (w : W) (own_name : String) where
  -- A step is built in, or it calls another model, which is ready and is no ensemble.
  pub Fits : Step → Type 0
  Fits step =
      ((b : ℕ) × (step.builtin ≡ some b))
      ⊎ ((step.config.model_name ≢ own_name)
          × ((s : InferSnapshot) × (scheduler : ℕ) × (resolved host.world w step.config.model_name
                  step.config.model_version
                ≡ some (s, scheduler))
              × (s.metadata.platform ≢ "ensemble")))

  pub AllFit : List Step → Type 0
  AllFit [] = Unit
  AllFit (step ∷ rest) = Fits step × AllFit rest

  resolve_model-resolved :
      (step : PipelineStepConfig) {s : InferSnapshot}
      → resolve_model host w step ≡ parsed s
      → (scheduler : ℕ) × (resolved host.world w step.model_name step.model_version
          ≡ some (s, scheduler))
  unfolding resolve_model
  resolve_model-resolved step {s} h =
      at (resolved host.world w step.model_name step.model_version) h
    where
      at :
          (o : Option (InferSnapshot × ℕ))
          → (elim o as (λ o. Parsed InferSnapshot) [
            | none ↦ refused (
                "pipeline step '" & step.name & "' references model '" & step.model_name
                & "' which is not loaded")
            | some (snapshot, scheduler) ↦ parsed snapshot
          ])
            ≡ parsed s
          → (scheduler : ℕ) × (o ≡ some (s, scheduler))
      at none h = cc
      at (some (t, scheduler)) h = (scheduler, let same : t ≡ s = cc in cc)

  build_model_step-Fits :
      (step : PipelineStepConfig) {built : Step}
      → build_model_step host w own_name step ≡ parsed built
      → Fits built
  unfolding build_model_step Fits
  build_model_step-Fits step h =
      bind_parsed (refuse_if (str_eq step.model_name own_name) _) _ h λ _ own h1.
        bind_parsed (resolve_model host w step) _ h1 λ s found h2.
          bind_parsed (refuse_if (str_eq s.metadata.platform "ensemble") _) _ h2 λ _ nested h3.
            let (scheduler, is_there) = resolve_model-resolved step found in
            subst Fits (parsed_inj h3) (
              inr (
                differs _ _ (refuse_if_parsed _ _ own),
                (s, scheduler, is_there, differs _ _ (refuse_if_parsed _ _ nested)),
              ))

  build_builtin_step-Fits :
      (step : PipelineStepConfig) (index : ℕ) (candidates : List PipelineStepConfig) {built : Step}
      → build_builtin_step host w step index candidates ≡ parsed built
      → Fits built
  unfolding build_builtin_step Fits
  build_builtin_step-Fits step index candidates h =
      bind_parsed (neighbour_model_metadata host w index candidates) _ h λ neighbour found h1.
        bind_parsed (host.make_builtin step neighbour) _ h1
          λ b made h2. subst Fits (parsed_inj h2) (inl (b.step, refl))

  build_step-Fits :
      (before behind : List PipelineStepConfig) (step : PipelineStepConfig) {built : Step}
      → build_step host w own_name before step behind ≡ parsed built
      → Fits built
  unfolding build_step
  build_step-Fits before behind step {built} h = at step.kind h
    where
      at :
          (kind : PipelineStepKind)
          → (elim kind as (λ kind. Parsed Step) [
            | model ↦ build_model_step host w own_name step
            | preprocess ↦ build_builtin_step host w step (length before) behind
            | postprocess ↦ build_builtin_step host w step (length before) before
          ])
            ≡ parsed built
          → Fits built
      at model h = build_model_step-Fits step h
      at preprocess h = build_builtin_step-Fits step (length before) behind h
      at postprocess h = build_builtin_step-Fits step (length before) before h

  build_steps-AllFit :
      (before graph : List PipelineStepConfig) {steps : List Step}
      → build_steps host w own_name before graph ≡ parsed steps
      → AllFit steps
  unfolding build_steps AllFit
  build_steps-AllFit before [] h = subst AllFit (parsed_inj h) tt
  build_steps-AllFit before (step ∷ behind) h =
      bind_parsed (build_step host w own_name before step behind) _ h λ built h1 h2.
        bind_parsed (build_steps host w own_name (step ∷ before) behind) _ h2 λ steps h3 h4.
          subst AllFit (parsed_inj h4)
            (build_step-Fits before behind step h1, build_steps-AllFit (step ∷ before) behind h3)

-- What is built is the pipeline of its steps.
abbrev pub Accepted :
    {Json W : Type 0} → Host Json W → W → RuntimeConfig → PipelineExecutor → Type 0
Accepted host w config e =
    (e ≡ pipeline_executor config.model_name e.steps)
    × AllFit host w config.model_name e.steps
    × Wired (first_reads e.steps) e.steps
    × (batches config ≡ false)

-- A pipeline is built only for a model that does not batch. It is then the pipeline of its steps:
-- each of them is built in or calls a model of another name, which at that time is ready and no
-- ensemble; and every tensor that a step reads is an input of the pipeline or written by an earlier
-- step.
pub make_pipeline_executor-Accepted :
    {Json W : Type 0} (host : Host Json W) (w : W) (has_resolver : Bool) (config : RuntimeConfig)
    {e : PipelineExecutor}
    → make_pipeline_executor host w has_resolver config ≡ parsed e
    → Accepted host w config e
unfolding make_pipeline_executor
make_pipeline_executor-Accepted host w has_resolver config h =
    bind_parsed (refuse_if (not has_resolver) _) _ h λ _ _ h1.
      bind_parsed (refuse_if (batches config) _) _ h1 λ _ single h2.
        bind_parsed (read_graph_text host.read_file config) _ h2 λ text _ h3.
          bind_parsed (parse_pipeline_config host.library text) _ h3 λ graph _ h4.
            bind_parsed (build_steps host w config.model_name [] graph) _ h4 λ steps built h5.
              bind_parsed (check_wiring (first_reads steps) steps) _ h5 λ _ wired h6.
                subst (Accepted host w config) (parsed_inj h6) (
                  refl,
                  build_steps-AllFit host w config.model_name [] graph built,
                  check_wiring-Wired _ steps wired,
                  refuse_if_parsed _ _ single,
                )
