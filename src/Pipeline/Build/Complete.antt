-- ===== src/Pipeline/Build/Complete.antt =====
-- src/PipelineExecutor.cpp: a pipeline that was built never misses a tensor when it runs.
use neuriplo_kserve_runtime.Prelude.{
  String, Bool, true, not, ◌&&◌, ◌||◌, List, [], ◌∷◌, ◌++◌, Option, none, some, ◌≡◌, refl, sym, ap,
  ◌∙◌, subst, arith, eq_iff, ◌⊎◌, inl, inr, str_eq, Bool-cases, if_both, Map, lookup, emplace,
}
use neuriplo_kserve_runtime.Request.{InputTensor, OutputTensor, ExecutionRequest, ExecutionResponse}
use neuriplo_kserve_runtime.Lifecycle.{TensorMetadata, RuntimeConfig}
use neuriplo_kserve_runtime.Pipeline.Config.{parsed, contains, is_empty, ◌&◌}
use neuriplo_kserve_runtime.Pipeline.Executor.{
  Step, PipelineExecutor, World, Ran, ran, ends, Finished, finished, stopped_with, mapped,
  graph_names, reads, writes, renamed, first_inputs, last_outputs, pipeline_executor,
  request_values, as_output, run_step, publish, after_run, after_gather, collect_outputs, respond,
  infer, failure, with_output,
}
use neuriplo_kserve_runtime.Pipeline.Executor.Copies.{
  run_copying, infer_copying, infer-infer_copying,
}
use neuriplo_kserve_runtime.Pipeline.Executor.LastUse.{names}
use neuriplo_kserve_runtime.Pipeline.Build.{Host, make_pipeline_executor, first_reads}
use neuriplo_kserve_runtime.Pipeline.Build.Accepted.{
  Wired, Accepted, make_pipeline_executor-Accepted,
}
use neuriplo_kserve_runtime.Pipeline.Build.Present.{
  Present, Covers, tensor_names, input_names, emplace-Present, publish-keeps, publish-Covers,
  All-contains, gather_copies-gathered,
}

module _ {W : Type 0} (world : World W) where
  -- When the step's run succeeds, its declared outputs are among those it returns.
  unfoldable pub Delivers : Step → Type 0
  Delivers step =
      (w : W) (inputs outputs : List OutputTensor)
      → (run_step world w step inputs).0 ≡ ran outputs
      → (n : String) → contains (names step.outputs) n ≡ true
      → contains (tensor_names outputs) n ≡ true

  abbrev pub AllDeliver : List Step → Type 0
  AllDeliver [] = Unit
  AllDeliver (step ∷ rest) = Delivers step × AllDeliver rest

  -- The response is the one that a run of one of the steps ended with.
  pub EndedBy : List Step → ExecutionResponse → Type 0
  EndedBy [] response = ⊥
  EndedBy (step ∷ rest) response =
      ((w : W) × (inputs : List OutputTensor) × ((run_step world w step inputs).0 ≡ ends response))
      ⊎ EndedBy rest response

-- What was available, with all that the steps write.
abbrev all_written : List String → List Step → List String
all_written available [] = available
all_written available (step ∷ rest) = all_written (writes step ++ available) rest

contains-append :
    (xs ys : List String) (n : String) → contains (xs ++ ys) n ≡ contains xs n || contains ys n
contains-append [] ys n = refl
contains-append (x ∷ xs) ys n = let ih = contains-append xs ys n in ground arith

names-renamed :
    (m : Map String) (ts : List TensorMetadata) → names (renamed m ts) ≡ graph_names m ts
unfolding renamed graph_names
names-renamed m [] = refl
names-renamed m (t ∷ ts) = ap (λ ns. mapped m t.name ∷ ns) (names-renamed m ts)

last_outputs-written :
    (available : List String) (steps : List Step) (n : String)
    → contains (names (last_outputs steps)) n ≡ true
    → contains (all_written available steps) n ≡ true
unfolding last_outputs
last_outputs-written available [] n h = let absurd : ⊥ = cc in elim absurd [ ]
last_outputs-written available (step ∷ []) n h =
    let e = contains-append (writes step) available n in
    let same = ap (λ ns. contains ns n) (names-renamed step.config.output_map step.outputs) in
    grind arith
last_outputs-written available (step ∷ next ∷ rest) n h =
    last_outputs-written (writes step ++ available) (next ∷ rest) n h

module _ {W : Type 0} (world : World W) where
  abbrev Complete : List String → List Step → Finished × W → Type 0
  Complete written steps (finished values, w) = Covers written values
  Complete written steps (stopped_with response, w) = EndedBy world steps response

  Complete-behind :
      (written : List String) (step : Step) (rest : List Step) (x : Finished × W)
      → Complete written rest x
      → Complete written (step ∷ rest) x
  unfolding EndedBy
  Complete-behind written step rest (finished values, w) h = h
  Complete-behind written step rest (stopped_with response, w) h = inr h

  run_copying-Complete :
      (steps : List Step) (available : List String) (w : W) (values : Map OutputTensor)
      → Wired available steps
      → AllDeliver world steps
      → Covers available values
      → Complete (all_written available steps) steps (run_copying world steps w values)
  unfolding run_copying Wired Delivers EndedBy
  run_copying-Complete [] available w values wired deliver covers = covers
  run_copying-Complete (step ∷ rest) available w values (reads_there, wired) (delivers, deliver)
        covers =
      let (ts, e) = gather_copies-gathered step.config.input_map step.inputs values (λ n h.
        covers n (All-contains (λ n. contains available n ≡ true) (reads step) reads_there n h)) in
      subst
        (λ g. Complete written (step ∷ rest) (after_gather world w step g (run_copying world rest)))
        (sym e)
        (after ts (run_step world w step ts) refl (λ w values c.
          run_copying-Complete rest (writes step ++ available) w values wired deliver c))
    where
      written : List String
      written = all_written (writes step ++ available) rest

      there :
          (outputs : List OutputTensor)
          → ((n : String)
              → contains (names step.outputs) n ≡ true
              → contains (tensor_names outputs) n ≡ true)
          → Covers (writes step ++ available) (publish step.config.output_map outputs values)
      there outputs delivered n h = elim (Bool-cases (contains (writes step) n)) [
        | inl hit ↦
            publish-Covers step.config.output_map step.outputs outputs values delivered n hit
        | inr miss ↦
            publish-keeps step.config.output_map outputs values n
              (covers n (let e = contains-append (writes step) available n in grind arith))
      ]

      after :
          (ts : List OutputTensor) (x : Ran × W)
          → run_step world w step ts ≡ x
          → ((w : W) (values : Map OutputTensor)
              → Covers (writes step ++ available) values
              → Complete written rest (run_copying world rest w values))
          → Complete written (step ∷ rest) (after_run step values (run_copying world rest) x)
      after ts (ran outputs, w') e behind =
          Complete-behind written step rest _
            (behind w' _ (there outputs (delivers w ts outputs (ap (λ x. x.0) e))))
      after ts (ends response, w') e behind = inl (w, ts, ap (λ x. x.0) e)

collect_outputs-ok :
    (requested : List String) (outs : List TensorMetadata) (values : Map OutputTensor)
    → Covers (names outs) values
    → (collect_outputs requested outs values).ok ≡ true
unfolding collect_outputs
collect_outputs-ok requested [] values h = refl
collect_outputs-ok requested (d ∷ ds) values h =
    let behind = collect_outputs-ok requested ds values (λ n c. h n (ground arith)) in
    if_both (λ (r : ExecutionResponse). r.ok ≡ true)
      (not (is_empty requested) && not (contains requested d.name)) (λ _. behind)
      (λ _.
        found (lookup d.name values)
          (h d.name (let e = (eq_iff d.name d.name).1 refl in ground arith)) behind)
  where
    found :
        (o : Option OutputTensor)
        → (t : OutputTensor) × (o ≡ some t)
        → (collect_outputs requested ds values).ok ≡ true
        → (elim o as (λ o. ExecutionResponse) [
          | none ↦ failure "INTERNAL" ("pipeline produced no tensor named '" & d.name & "'")
          | some tensor ↦ with_output tensor (collect_outputs requested ds values)
        ]).ok
          ≡ true
    found none (t, e) ok = let absurd : ⊥ = cc in elim absurd [ ]
    found (some u) (t, e) ok =
        if_both (λ (r : ExecutionResponse). r.ok ≡ true) (collect_outputs requested ds values).ok
          (λ _. ok) (λ _. ok)

request_values-Present :
    (inputs : List InputTensor) (values : Map OutputTensor) (n : String)
    → (contains (input_names inputs) n ≡ true) ⊎ Present n values
    → Present n (request_values inputs values)
unfolding request_values
request_values-Present [] values n (inr h) = h
request_values-Present [] values n (inl h) = let absurd : ⊥ = cc in elim absurd [ ]
request_values-Present (t ∷ ts) values n h = request_values-Present ts _ n (behind h)
  where
    behind :
        (str_eq t.name n || contains (input_names ts) n ≡ true) ⊎ Present n values
        → (contains (input_names ts) n ≡ true) ⊎ Present n (emplace t.name (as_output t) values)
    behind (inr there) = inr (emplace-Present n t.name _ values (inr there))
    behind (inl listed) = elim (Bool-cases (str_eq t.name n)) [
      | inl hit ↦ inr (emplace-Present n t.name _ values (inl hit))
      | inr miss ↦ inl (ground arith)
    ]

names-first_inputs : (steps : List Step) → names (first_inputs steps) ≡ first_reads steps
unfolding first_inputs
names-first_inputs [] = refl
names-first_inputs (step ∷ rest) = names-renamed step.config.input_map step.inputs

respond-ok :
    {W : Type 0} (world : World W) (model_name : String) (steps : List Step)
    (request : ExecutionRequest) (x : Finished × W)
    → Complete world (all_written (first_reads steps) steps) steps x
    → ((respond (pipeline_executor model_name steps) request x.0).ok ≡ true)
      ⊎ EndedBy world steps (respond (pipeline_executor model_name steps) request x.0)
unfolding respond pipeline_executor
respond-ok world model_name steps request (finished values, w) covers = inl (
    collect_outputs-ok request.requested_outputs (last_outputs steps) values
      (λ n h. covers n (last_outputs-written (first_reads steps) steps n h)))
respond-ok world model_name steps request (stopped_with response, w) ended = inr ended

-- A pipeline of wired steps answers a request that brings its inputs.
infer_copying-answered :
    {W : Type 0} (world : World W) (model_name : String) (steps : List Step) (w : W)
    (request : ExecutionRequest)
    → Wired (first_reads steps) steps
    → AllDeliver world steps
    → ((n : String)
        → contains (names (first_inputs steps)) n ≡ true
        → contains (input_names request.inputs) n ≡ true)
    → ((infer_copying world (pipeline_executor model_name steps) w request).0.ok ≡ true)
      ⊎ EndedBy world steps (infer_copying world (pipeline_executor model_name steps) w request).0
unfolding infer_copying pipeline_executor
infer_copying-answered world model_name steps w request wired deliver brings =
    respond-ok world model_name steps request _
      (run_copying-Complete world steps (first_reads steps) w _ wired deliver given)
  where
    given : Covers (first_reads steps) (request_values request.inputs [])
    given n h =
        request_values-Present request.inputs [] n
          (inl (brings n (ap (λ ns. contains ns n) (names-first_inputs steps) ∙ h)))

-- A pipeline that was built answers every request that brings its inputs, provided that a step that
-- succeeds returns the outputs it declares: either the response is a success, or it is the one
-- that the run of one of its steps ended with. No tensor is ever missing.
pub infer-Answered :
    {Json W : Type 0} (host : Host Json W) (loaded : W) (has_resolver : Bool)
    (config : RuntimeConfig) {e : PipelineExecutor} (w : W) (request : ExecutionRequest)
    → make_pipeline_executor host loaded has_resolver config ≡ parsed e
    → AllDeliver host.world e.steps
    → ((n : String)
        → contains (names e.metadata.inputs) n ≡ true
        → contains (input_names request.inputs) n ≡ true)
    → ((infer host.world e w request).0.ok ≡ true)
      ⊎ EndedBy host.world e.steps (infer host.world e w request).0
unfolding first_inputs pipeline_executor
infer-Answered host loaded has_resolver config {e} w request made deliver brings =
    subst (λ r. (r.ok ≡ true) ⊎ EndedBy host.world e.steps r)
      (sym (
        ap (λ e. (infer host.world e w request).0) same
        ∙ ap (λ x. x.0) (infer-infer_copying host.world config.model_name e.steps w request)))
      (infer_copying-answered host.world config.model_name e.steps w request wired deliver (
        subst
          (λ (e' : PipelineExecutor).
            (n : String)
            → contains (names e'.metadata.inputs) n ≡ true
            → contains (input_names request.inputs) n ≡ true)
          same brings))
  where
    accepted : Accepted host loaded config e
    accepted = make_pipeline_executor-Accepted host loaded has_resolver config made

    same : e ≡ pipeline_executor config.model_name e.steps
    same = accepted.0

    wired : Wired (first_reads e.steps) e.steps
    wired = accepted.2
