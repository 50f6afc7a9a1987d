-- ===== src/Pipeline/Config/Valid.antt =====
-- src/PipelineConfig.cpp, `parsePipelineConfig`: what holds of every graph that is accepted.
use neuriplo_kserve_runtime.Prelude.{
  String, Bool, true, false, not, ◌&&◌, ◌||◌, List, [], ◌∷◌, ◌++◌, Option, none, some, ◌≡◌, ◌≢◌,
  refl, subst, sym, arith, ◌⊎◌, inl, inr, str_eq, All, if◌then◌else◌,
}
use neuriplo_kserve_runtime.Pipeline.Config.{
  PipelineStepConfig, default_step, pipeline_image_input_name, Library, Parsed, parsed, refused,
  refuse_if, contains, is_empty, is_model, values, ◌&◌, parse_kind, text_or_empty, read_model,
  read_task, read_subject, read_envelope, read_float, read_tensor_map, parse_step,
  unavailable_tensor, check_names, parse_steps, parse_nodes, parse_root, parse_pipeline_config,
}
use neuriplo_kserve_runtime.Pipeline.Config.Chains.{
  bind_parsed, refuse_if_parsed, parsed_inj, unavailable_tensor-none, differs,
}

-- A model step names its model, and any other step its task.
abbrev pub Subject : PipelineStepConfig → Type 0
Subject step =
    ((is_model step.kind ≡ true) × (step.model_name ≢ ""))
    ⊎ ((is_model step.kind ≡ false) × (step.task_type ≢ ""))

-- From some step on: `names` are those of the steps before, and `available` the tensors that these
-- map into the graph.
unfoldable pub Valid : List String → List String → Bool → List PipelineStepConfig → Type 0
Valid names available knowable [] = Unit
Valid names available knowable (step ∷ rest) =
    (step.name ≢ "")
    × (contains names step.name ≡ false)
    × Subject step
    × ((knowable ≡ false) ⊎ All (λ n. contains available n ≡ true) (values step.input_map))
    × Valid (step.name ∷ names) (values step.output_map ++ available)
        (knowable && not (is_empty step.output_map)) rest

module _ {Json : Type 0} (lib : Library Json) where
  read_subject-Subject :
      (node : Json) (step : PipelineStepConfig) {s : PipelineStepConfig}
      → read_subject lib node step ≡ parsed s
      → (s.name ≡ step.name) × Subject s
  unfolding read_subject read_model read_task
  read_subject-Subject node step {s} = at (is_model step.kind) refl
    where
      Good : PipelineStepConfig → Type 0
      Good s = (s.name ≡ step.name) × Subject s

      at :
          (b : Bool)
          → is_model step.kind ≡ b
          → (if b then read_model lib node step else read_task lib node step) ≡ parsed s
          → (s.name ≡ step.name) × Subject s
      at true e h = bind_parsed (text_or_empty lib node "model_name") _ h λ model_name _ h1.
          bind_parsed (refuse_if (str_eq model_name "") _) _ h1 λ _ given h2.
            bind_parsed (text_or_empty lib node "model_version") _ h2 λ model_version _ h3.
              subst Good (parsed_inj h3)
                (refl, inl (e, differs model_name "" (refuse_if_parsed _ _ given)))
      at false e h = bind_parsed (text_or_empty lib node "task_type") _ h λ task_type _ h1.
          bind_parsed (refuse_if (str_eq task_type "") _) _ h1 λ _ given h2.
            subst Good (parsed_inj h2)
              (refl, inr (e, differs task_type "" (refuse_if_parsed _ _ given)))

  parse_step-Subject :
      (node : Json) (name : String) {s : PipelineStepConfig}
      → parse_step lib node name ≡ parsed s
      → (s.name ≡ name) × Subject s
  unfolding parse_step
  parse_step-Subject node name h = bind_parsed (text_or_empty lib node "kind") _ h λ kind_text _ h1.
      bind_parsed (refuse_if (str_eq kind_text "") _) _ h1 λ _ _ h2.
        bind_parsed (parse_kind kind_text) _ h2 λ kind _ h3.
          bind_parsed (read_subject lib node (record default_step { kind = kind; name = name })) _
            h3
            λ step subject h4. bind_parsed (read_envelope lib node step) _ h4 λ envelope _ h5.
              bind_parsed
                (read_float lib node "confidence_threshold" name step.confidence_threshold) _ h5
                λ confidence _ h6.
                  bind_parsed (read_float lib node "nms_threshold" name step.nms_threshold) _ h6
                    λ nms _ h7.
                      bind_parsed (read_float lib node "mask_threshold" name step.mask_threshold) _
                        h7
                        λ mask_at _ h8.
                          bind_parsed (read_tensor_map lib node "input_map" name) _ h8
                            λ input_map _ h9.
                              bind_parsed (read_tensor_map lib node "output_map" name) _ h9
                                λ output_map _ h10.
                                  subst (λ s. (s.name ≡ name) × Subject s) (parsed_inj h10)
                                    (read_subject-Subject node
                                      (record default_step { kind = kind; name = name }) subject)

check_names-available :
    (knowable : Bool) (available : List String) (step : PipelineStepConfig) {u : Unit {0}}
    → check_names knowable available step ≡ parsed u
    → (knowable ≡ false) ⊎ All (λ n. contains available n ≡ true) (values step.input_map)
unfolding check_names
check_names-available false available step h = inl refl
check_names-available true available step {u} h =
    inr (at (unavailable_tensor available (values step.input_map)) refl h)
  where
    at :
        (o : Option String)
        → unavailable_tensor available (values step.input_map) ≡ o
        → (elim o as (λ o. Parsed (Unit {0})) [
          | none ↦ parsed tt
          | some tensor ↦ refused (
              "pipeline step '" & step.name & "' consumes tensor '" & tensor
              & "' that no earlier step produces")
        ])
          ≡ parsed u
        → All (λ n. contains available n ≡ true) (values step.input_map)
    at none e h = unavailable_tensor-none available (values step.input_map) e
    at (some n) e h = cc

module _ {Json : Type 0} (lib : Library Json) where
  parse_steps-Valid :
      (names available : List String) (knowable : Bool) (nodes : List Json)
      {steps : List PipelineStepConfig}
      → parse_steps lib names available knowable nodes ≡ parsed steps
      → (is_empty steps ≡ is_empty nodes) × Valid names available knowable steps
  unfolding parse_steps Valid
  parse_steps-Valid names available knowable [] h = subst (Good []) (parsed_inj h) (refl, tt)
    where
      Good : List Json → List PipelineStepConfig → Type 0
      Good nodes steps = (is_empty steps ≡ is_empty nodes) × Valid names available knowable steps
  parse_steps-Valid names available knowable (node ∷ rest) h =
      bind_parsed (refuse_if (not (lib.is_object node)) _) _ h λ _ _ h1.
        bind_parsed (text_or_empty lib node "name") _ h1 λ name _ h2.
          bind_parsed (refuse_if (str_eq name "") _) _ h2 λ _ given h3.
            bind_parsed (refuse_if (contains names name) _) _ h3 λ _ fresh h4.
              bind_parsed (parse_step lib node name) _ h4 λ step read h5.
                bind_parsed (check_names knowable available step) _ h5 λ _ wired h6.
                  bind_parsed
                    (parse_steps lib (name ∷ names) (values step.output_map ++ available)
                      (knowable && not (is_empty step.output_map)) rest)
                    _ h6
                    λ steps behind h7.
                      let (same, subject) = parse_step-Subject lib node name read in
                      subst (Good (node ∷ rest)) (parsed_inj h7) (
                        refl,
                        (
                          subst (λ n. n ≢ "") (sym same)
                              (differs name "" (refuse_if_parsed _ _ given)),
                          subst (λ n. contains names n ≡ false) (sym same)
                              (refuse_if_parsed _ _ fresh),
                          subject,
                          check_names-available knowable available step wired,
                          subst
                              (λ n.
                                Valid (n ∷ names) (values step.output_map ++ available)
                                  (knowable && not (is_empty step.output_map)) steps)
                              (sym same)
                              (parse_steps-Valid (name ∷ names)
                                (values step.output_map ++ available)
                                (knowable && not (is_empty step.output_map)) rest behind).1,
                        ),
                      )
    where
      Good : List Json → List PipelineStepConfig → Type 0
      Good nodes steps = (is_empty steps ≡ is_empty nodes) × Valid names available knowable steps

  parse_nodes-Valid :
      (nodes : Option Json) {steps : List PipelineStepConfig}
      → parse_nodes lib nodes ≡ parsed steps
      → (is_empty steps ≡ false) × Valid [] (pipeline_image_input_name ∷ []) true steps
  unfolding parse_nodes
  parse_nodes-Valid none h = let absurd : ⊥ = cc in elim absurd [ ]
  parse_nodes-Valid (some nodes) h =
      bind_parsed (refuse_if (not (lib.is_array nodes) || is_empty (lib.elements nodes)) _) _ h
        λ _ there h1.
          let (same, valid) =
            parse_steps-Valid [] (pipeline_image_input_name ∷ []) true (lib.elements nodes) h1 in
          let given = refuse_if_parsed _ _ there in (ground arith, valid)

  parse_root-Valid :
      (root : Option Json) {steps : List PipelineStepConfig}
      → parse_root lib root ≡ parsed steps
      → (is_empty steps ≡ false) × Valid [] (pipeline_image_input_name ∷ []) true steps
  unfolding parse_root
  parse_root-Valid none h = let absurd : ⊥ = cc in elim absurd [ ]
  parse_root-Valid (some root) h =
      bind_parsed (refuse_if (not (lib.is_object root)) _) _ h
        λ _ _ h1. parse_nodes-Valid (lib.member root "steps") h1

-- A graph that is accepted has a step. Each step has a name of its own; a model step names its model
-- and any other step its task; and as long as every step before maps its outputs, the tensors that
-- a step maps its inputs to are the image or were mapped by an earlier step.
pub parse_pipeline_config-Valid :
    {Json : Type 0} (lib : Library Json) (text : String) {steps : List PipelineStepConfig}
    → parse_pipeline_config lib text ≡ parsed steps
    → (is_empty steps ≡ false) × Valid [] (pipeline_image_input_name ∷ []) true steps
unfolding parse_pipeline_config
parse_pipeline_config-Valid lib text h = parse_root-Valid lib (lib.parse text) h
