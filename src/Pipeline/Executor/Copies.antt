-- ===== src/Pipeline/Executor/Copies.antt =====
-- src/PipelineExecutor.cpp, `infer`: moving tensors out at their last use against copying them all.
use neuriplo_kserve_runtime.Prelude.{
  ℕ, suc, String, Bool, true, false, not, ◌&&◌, ◌||◌, List, [], ◌∷◌, Option, none, some, ◌≡◌, refl,
  sym, ap, ap₂, ◌∙◌, subst, arith, eq_iff, if◌then◌else◌, str_eq, Map, lookup, put, without,
  lookup-put, lookup-without, Bool-cases, inl, inr,
}
use neuriplo_kserve_runtime.Request.{OutputTensor, ExecutionRequest, ExecutionResponse}
use neuriplo_kserve_runtime.Lifecycle.{TensorMetadata}
use neuriplo_kserve_runtime.Pipeline.Config.{contains, is_empty, ◌&◌}
use neuriplo_kserve_runtime.Pipeline.Executor.{
  Step, PipelineExecutor, World, Gathered, gathered, missing, Ran, ran, ends, Finished, finished,
  stopped_with, mapped, graph_names, reads, index_reads, index_steps, erase_outputs, index_last_use,
  last_outputs, missing_input, failure, with_output, pipeline_executor, request_values, with_tensor,
  is_last_use, named, gather, run_step, publish, after_run, after_gather, run_steps,
  collect_outputs, respond, infer,
}
use neuriplo_kserve_runtime.Pipeline.Executor.LastUse.{used, names, needed, last_use-unneeded}

-- The inputs of a step by copies: nothing leaves the values.
unfoldable pub gather_copies : Map String → List TensorMetadata → Map OutputTensor → Gathered
gather_copies input_map [] values = gathered [] values
gather_copies input_map (declared ∷ rest) values =
    elim (lookup (mapped input_map declared.name) values) [
      | none ↦ missing (mapped input_map declared.name)
      | some tensor ↦ with_tensor (named declared.name tensor) (gather_copies input_map rest values)
    ]

unfoldable pub run_copying :
    {W : Type 0} (world : World W) → List Step → W → Map OutputTensor → Finished × W
unfolding gather_copies after_gather
run_copying world [] w values = (finished values, w)
run_copying world (step ∷ rest) w values =
    after_gather world w step (gather_copies step.config.input_map step.inputs values)
      (run_copying world rest)

-- A request's run in which every tensor stays until the end.
unfoldable pub infer_copying :
    {W : Type 0} (world : World W) → PipelineExecutor → W → ExecutionRequest → ExecutionResponse × W
unfolding request_values run_copying respond
infer_copying world e w request =
    let (result, w') = run_copying world e.steps w (request_values request.inputs []) in
    (respond e request result, w')

abbrev pub Agree : (String → Bool) → Map OutputTensor → Map OutputTensor → Type 0
Agree P v c = (n : String) → P n ≡ true → lookup n v ≡ lookup n c

abbrev GatheredAgree : (String → Bool) → Gathered → Gathered → Type 0
GatheredAgree P (gathered ts v) (gathered us c) = (ts ≡ us) × Agree P v c
GatheredAgree P (missing a) (missing b) = a ≡ b
GatheredAgree P (gathered ts v) (missing b) = ⊥
GatheredAgree P (missing a) (gathered us c) = ⊥

with_tensor-Agree :
    (P : String → Bool) (t : OutputTensor) (g h : Gathered)
    → GatheredAgree P g h
    → GatheredAgree P (with_tensor t g) (with_tensor t h)
unfolding with_tensor
with_tensor-Agree P t (gathered ts v) (gathered us c) (e, agree) = (ap (λ r. t ∷ r) e, agree)
with_tensor-Agree P t (missing a) (missing b) e = e
with_tensor-Agree P t (gathered ts v) (missing b) e = elim e [ ]
with_tensor-Agree P t (missing a) (gathered us c) e = elim e [ ]

-- Moving the tensor `g` out leaves every other one, where it is not needed any more.
moved-Agree :
    (P Q : String → Bool) (g : String) (moves : Bool) (v c : Map OutputTensor)
    → ((n : String) → Q n ≡ true → P n ≡ true)
    → (moves ≡ true → Q g ≡ false)
    → Agree P v c
    → Agree Q (if moves then without g v else v) c
moved-Agree P Q g false v c weaker unneeded agree n q = agree n (weaker n q)
moved-Agree P Q g true v c weaker unneeded agree n q = elim (Bool-cases (str_eq g n)) [
  | inl hit ↦ gone ((eq_iff g n).0 hit)
  | inr miss ↦
      lookup-without n g v ∙ ap (λ b. if b then none else lookup n v) miss ∙ agree n (weaker n q)
]
  where
    gone : g ≡ n → lookup n (without g v) ≡ lookup n c
    gone e = let u = unneeded refl in let q' = subst (λ m. Q m ≡ true) (sym e) q in cc

-- The same lookup in front of agreeing rests.
found-Agree :
    (P : String → Bool) (g name : String) (left right : Gathered) (x y : Option OutputTensor)
    → x ≡ y
    → GatheredAgree P left right
    → GatheredAgree P
        (elim x [ none ↦ missing g | some t ↦ with_tensor (named name t) left ])
        (elim y [ none ↦ missing g | some t ↦ with_tensor (named name t) right ])
found-Agree P g name left right x none e h =
    subst
      (λ x.
        GatheredAgree P (elim x [ none ↦ missing g | some t ↦ with_tensor (named name t) left ])
          (missing g))
      (sym e) refl
found-Agree P g name left right x (some u) e h =
    subst
      (λ x.
        GatheredAgree P (elim x [ none ↦ missing g | some t ↦ with_tensor (named name t) left ])
          (with_tensor (named name u) right))
      (sym e) (with_tensor-Agree P (named name u) left right h)

gather-Agree :
    (m : Map String) (last_use : Map ℕ) (index : ℕ) (P : String → Bool)
    → ((n : String) → is_last_use last_use index n ≡ true → P n ≡ false)
    → (inputs : List TensorMetadata) (v c : Map OutputTensor)
    → Agree (λ n. contains (graph_names m inputs) n || P n) v c
    → GatheredAgree P (gather m last_use index inputs v) (gather_copies m inputs c)
unfolding gather gather_copies graph_names
gather-Agree m last_use index P unneeded [] v c agree = (refl, agree)
gather-Agree m last_use index P unneeded (d ∷ rest) v c agree =
    found-Agree P g d.name _ _ (lookup g v) (lookup g c) (agree g here_needed) (
      gather-Agree m last_use index P unneeded rest _ c (
        moved-Agree (λ n. str_eq g n || contains (graph_names m rest) n || P n)
          (λ n. contains (graph_names m rest) n || P n) g
          (not (contains (graph_names m rest) g) && is_last_use last_use index g) v c weaker gone
          agree))
  where
    g : String
    g = mapped m d.name

    here_needed : str_eq g g || contains (graph_names m rest) g || P g ≡ true
    here_needed = let e = (eq_iff g g).1 refl in grind arith

    weaker :
        (n : String)
        → contains (graph_names m rest) n || P n ≡ true
        → str_eq g n || contains (graph_names m rest) n || P n ≡ true
    weaker n q = ground arith

    gone :
        not (contains (graph_names m rest) g) && is_last_use last_use index g ≡ true
        → contains (graph_names m rest) g || P g ≡ false
    gone e = let u = unneeded g in ground arith

publish-Agree :
    (P : String → Bool) (m : Map String) (outputs : List OutputTensor) (v c : Map OutputTensor)
    → Agree P v c
    → Agree P (publish m outputs v) (publish m outputs c)
unfolding publish
publish-Agree P m [] v c agree = agree
publish-Agree P m (t ∷ rest) v c agree = publish-Agree P m rest _ _ both
  where
    g : String
    g = mapped m t.name

    both : Agree P (put g (named g t) v) (put g (named g t) c)
    both n p =
        lookup-put n g (named g t) v
        ∙ ap (λ o. if str_eq g n then some (named g t) else o) (agree n p)
        ∙ sym (lookup-put n g (named g t) c)

abbrev RunAgree : {W : Type 0} → (String → Bool) → Finished × W → Finished × W → Type 0
RunAgree P (finished v, w) (finished c, w') = Agree P v c × (w ≡ w')
RunAgree P (stopped_with r, w) (stopped_with r', w') = (r ≡ r') × (w ≡ w')
RunAgree P (finished v, w) (stopped_with r', w') = ⊥
RunAgree P (stopped_with r, w) (finished c, w') = ⊥

module _ {W : Type 0} (world : World W) (P Q : String → Bool) (step : Step)
    (behind behind' : W → Map OutputTensor → Finished × W)
    (h : (w : W) (v c : Map OutputTensor)
      → Agree P v c
      → RunAgree Q (behind w v) (behind' w c)) where
  after_run-Agree :
      (x : Ran × W) (v c : Map OutputTensor)
      → Agree P v c
      → RunAgree Q (after_run step v behind x) (after_run step c behind' x)
  unfolding after_run
  after_run-Agree (ran outputs, w) v c agree =
      h w _ _ (publish-Agree P step.config.output_map outputs v c agree)
  after_run-Agree (ends response, w) v c agree = (refl, refl)

  after_gather-Agree :
      (w : W) (g g' : Gathered)
      → GatheredAgree P g g'
      → RunAgree Q (after_gather world w step g behind) (after_gather world w step g' behind')
  unfolding after_gather
  after_gather-Agree w (gathered ts v) (gathered us c) (e, agree) =
      subst
        (λ us.
          RunAgree Q (after_run step v behind (run_step world w step ts))
            (after_run step c behind' (run_step world w step us)))
        e (after_run-Agree (run_step world w step ts) v c agree)
  after_gather-Agree w (missing a) (missing b) e = (ap (λ n. missing_input step n) e, refl)
  after_gather-Agree w (gathered ts v) (missing b) e = elim e [ ]
  after_gather-Agree w (missing a) (gathered us c) e = elim e [ ]

run_steps-Agree :
    {W : Type 0} (world : World W) (outs : List TensorMetadata) (index : ℕ) (steps : List Step)
    (m : Map ℕ) (w : W) (v c : Map OutputTensor)
    → Agree (needed outs steps) v c
    → RunAgree
        (λ n. contains (names outs) n)
        (run_steps world (erase_outputs outs (index_steps index steps m)) index steps w v)
        (run_copying world steps w c)
unfolding run_steps run_copying used index_steps
run_steps-Agree world outs index [] m w v c agree = (agree, refl)
run_steps-Agree world outs index (step ∷ rest) m w v c agree =
    after_gather-Agree world (needed outs rest) (λ n. contains (names outs) n) step _ _
      (λ w v c.
        run_steps-Agree world outs (suc index) rest (index_reads index (reads step) m) w v c)
      w _ _
      (gather-Agree step.config.input_map _ index (needed outs rest)
        (last_use-unneeded outs index step rest m) step.inputs v c (λ n q. agree n (ground arith)))

collect_outputs-Agree :
    (requested : List String) (outs : List TensorMetadata) (v c : Map OutputTensor)
    → Agree (λ n. contains (names outs) n) v c
    → collect_outputs requested outs v ≡ collect_outputs requested outs c
unfolding collect_outputs
collect_outputs-Agree requested [] v c agree = refl
collect_outputs-Agree requested (d ∷ rest) v c agree =
    ap₂
      (λ o r. if not (is_empty requested) && not (contains requested d.name) then r else elim o [
        | none ↦ failure "INTERNAL" ("pipeline produced no tensor named '" & d.name & "'")
        | some tensor ↦ with_output tensor r
      ])
      (agree d.name (let e = (eq_iff d.name d.name).1 refl in ground arith))
      (collect_outputs-Agree requested rest v c (λ n q. agree n (ground arith)))

abbrev pair : {W : Type 0} → ExecutionResponse → W → ExecutionResponse × W
pair r w = (r, w)

abbrev answer :
    {W : Type 0} → PipelineExecutor → ExecutionRequest → Finished × W → ExecutionResponse × W
answer e request x = (respond e request x.0, x.1)

-- The answers of two runs that agree on the outputs.
answer-Agree :
    {W : Type 0} (e : PipelineExecutor) (request : ExecutionRequest) (x y : Finished × W)
    → RunAgree (λ n. contains (names e.metadata.outputs) n) x y
    → answer e request x ≡ answer e request y
unfolding respond
answer-Agree {W = W} e request (finished v, w) (finished c, w') (agree, same) =
    ap₂ (pair {W = W})
      (collect_outputs-Agree request.requested_outputs e.metadata.outputs v c agree) same
answer-Agree {W = W} e request (stopped_with r, w) (stopped_with r', w') (e', same) =
    ap₂ (pair {W = W}) e' same
answer-Agree e request (finished v, w) (stopped_with r', w') h = elim h [ ]
answer-Agree e request (stopped_with r, w) (finished c, w') h = elim h [ ]

-- Moving a tensor out of the values at its last use changes nothing: for every list of steps and
-- whatever the models and the built-in steps do, the run answers a request as the run that copies
-- every tensor does, with the same calls of the models and the steps.
pub infer-infer_copying :
    {W : Type 0} (world : World W) (model_name : String) (steps : List Step) (w : W)
    (request : ExecutionRequest)
    → infer world (pipeline_executor model_name steps) w request
      ≡ infer_copying world (pipeline_executor model_name steps) w request
unfolding infer infer_copying pipeline_executor index_last_use
infer-infer_copying world model_name steps w request =
    answer-Agree (pipeline_executor model_name steps) request _ _
      (run_steps-Agree world (last_outputs steps) 0 steps [] w _ _ (λ n q. refl))
