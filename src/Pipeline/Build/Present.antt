-- ===== src/Pipeline/Build/Present.antt =====
-- src/PipelineExecutor.cpp: tensors that are among the values stay there, and are found.
use neuriplo_kserve_runtime.Prelude.{
  String, true, false, List, [], ◌∷◌, Option, none, some, ◌≡◌, refl, sym, ap, ◌∙◌, subst, arith,
  eq_iff, ◌⊎◌, inl, inr, str_eq, Bool-cases, if◌then◌else◌, if_both, Map, lookup, put, emplace,
  lookup-put, All,
}
use neuriplo_kserve_runtime.Request.{InputTensor, OutputTensor}
use neuriplo_kserve_runtime.Lifecycle.{TensorMetadata}
use neuriplo_kserve_runtime.Pipeline.Config.{contains}
use neuriplo_kserve_runtime.Pipeline.Executor.{
  Gathered, gathered, missing, mapped, graph_names, with_tensor, named, publish,
}
use neuriplo_kserve_runtime.Pipeline.Executor.Copies.{gather_copies}
use neuriplo_kserve_runtime.Pipeline.Executor.LastUse.{names}

abbrev pub Present : String → Map OutputTensor → Type 0
Present n values = (t : OutputTensor) × (lookup n values ≡ some t)

abbrev pub Covers : List String → Map OutputTensor → Type 0
Covers ns values = (n : String) → contains ns n ≡ true → Present n values

abbrev pub tensor_names : List OutputTensor → List String
tensor_names [] = []
tensor_names (t ∷ ts) = t.name ∷ tensor_names ts

abbrev pub input_names : List InputTensor → List String
input_names [] = []
input_names (t ∷ ts) = t.name ∷ input_names ts

pub put-Present :
    (n g : String) (t : OutputTensor) (values : Map OutputTensor)
    → (str_eq g n ≡ true) ⊎ Present n values
    → Present n (put g t values)
put-Present n g t values h = elim (Bool-cases (str_eq g n)) [
  | inl hit ↦ (t, lookup-put n g t values ∙ ap (λ b. if b then some t else lookup n values) hit)
  | inr miss ↦ old miss h
]
  where
    old : str_eq g n ≡ false → (str_eq g n ≡ true) ⊎ Present n values → Present n (put g t values)
    old miss (inl hit) = let absurd : ⊥ = cc in elim absurd [ ]
    old miss (inr (u, e)) =
        (u, lookup-put n g t values ∙ ap (λ b. if b then some t else lookup n values) miss ∙ e)

pub emplace-Present :
    (n k : String) (t : OutputTensor) (values : Map OutputTensor)
    → (str_eq k n ≡ true) ⊎ Present n values
    → Present n (emplace k t values)
unfolding emplace lookup
emplace-Present n k t [] (inl hit) = (t, ground arith)
emplace-Present n k t [] (inr (u, e)) = let absurd : ⊥ = cc in elim absurd [ ]
emplace-Present n k t ((j, u) ∷ m) h = elim (Bool-cases (str_eq j n)) [
  | inl hit ↦
      if_both (Present n) (str_eq j k) (λ _. (u, in_front hit m))
        (λ _. (u, in_front hit (emplace k t m)))
  | inr miss ↦
      if_both (Present n) (str_eq j k) (λ same. old miss same h)
        (λ _. past miss (emplace k t m) (emplace-Present n k t m (behind miss h)))
]
  where
    in_front : str_eq j n ≡ true → (r : Map OutputTensor) → lookup n ((j, u) ∷ r) ≡ some u
    in_front hit r = ground arith

    past : str_eq j n ≡ false → (r : Map OutputTensor) → Present n r → Present n ((j, u) ∷ r)
    past miss r (v, e) = (v, ap (λ b. if b then some u else lookup n r) miss ∙ e)

    behind :
        str_eq j n ≡ false
        → (str_eq k n ≡ true) ⊎ Present n ((j, u) ∷ m)
        → (str_eq k n ≡ true) ⊎ Present n m
    behind miss (inl e) = inl e
    behind miss (inr (v, e)) = inr (v, sym (ap (λ b. if b then some u else lookup n m) miss) ∙ e)

    old :
        str_eq j n ≡ false
        → str_eq j k ≡ true
        → (str_eq k n ≡ true) ⊎ Present n ((j, u) ∷ m)
        → Present n ((j, u) ∷ m)
    old miss same (inr there) = there
    old miss same (inl e) =
        let jk = (eq_iff j k).0 same in
        let kn = (eq_iff k n).0 e in
        let jn = (eq_iff j n).1 (jk ∙ kn) in let absurd : ⊥ = cc in elim absurd [ ]

pub publish-keeps :
    (m : Map String) (outputs : List OutputTensor) (values : Map OutputTensor) (n : String)
    → Present n values
    → Present n (publish m outputs values)
unfolding publish
publish-keeps m [] values n h = h
publish-keeps m (t ∷ ts) values n h =
    publish-keeps m ts _ n (put-Present n (mapped m t.name) _ values (inr h))

pub publish-writes :
    (m : Map String) (outputs : List OutputTensor) (values : Map OutputTensor) (n : String)
    → contains (tensor_names outputs) n ≡ true
    → Present (mapped m n) (publish m outputs values)
unfolding publish
publish-writes m [] values n h = let absurd : ⊥ = cc in elim absurd [ ]
publish-writes m (t ∷ ts) values n h = elim (Bool-cases (str_eq t.name n)) [
  | inl hit ↦
      subst (λ n. Present (mapped m n) (publish m (t ∷ ts) values)) ((eq_iff t.name n).0 hit)
        (publish-keeps m ts _ (mapped m t.name)
          (put-Present (mapped m t.name) (mapped m t.name) _ values (inl ((eq_iff _ _).1 refl))))
  | inr miss ↦ publish-writes m ts _ n (ground arith)
]

-- A step's declared outputs, under their names in the graph.
pub publish-Covers :
    (m : Map String) (declared : List TensorMetadata) (outputs : List OutputTensor)
    (values : Map OutputTensor)
    → ((n : String) → contains (names declared) n ≡ true → contains (tensor_names outputs) n ≡ true)
    → Covers (graph_names m declared) (publish m outputs values)
unfolding graph_names
publish-Covers m [] outputs values delivered n h = let absurd : ⊥ = cc in elim absurd [ ]
publish-Covers m (d ∷ ds) outputs values delivered n h =
    elim (Bool-cases (str_eq (mapped m d.name) n)) [
      | inl hit ↦
          subst (λ n. Present n (publish m outputs values)) ((eq_iff _ n).0 hit)
            (publish-writes m outputs values d.name
              (delivered d.name (let e = (eq_iff d.name d.name).1 refl in ground arith)))
      | inr miss ↦
          publish-Covers m ds outputs values (λ n e. delivered n (ground arith)) n (ground arith)
    ]

found_tensor :
    (g name : String) (o : Option OutputTensor) (rest : Gathered) {t : OutputTensor}
    → o ≡ some t
    → (elim o [ none ↦ missing g | some u ↦ with_tensor (named name u) rest ])
      ≡ with_tensor (named name t) rest
found_tensor g name o rest e =
    ap (λ o. elim o [ none ↦ missing g | some u ↦ with_tensor (named name u) rest ]) e

pub All-contains :
    (P : String → Type 0) (ns : List String) → All P ns → (n : String) → contains ns n ≡ true → P n
All-contains P [] h n e = let absurd : ⊥ = cc in elim absurd [ ]
All-contains P (m ∷ ns) (p, ps) n e = elim (Bool-cases (str_eq m n)) [
  | inl hit ↦ subst P ((eq_iff m n).0 hit) p
  | inr miss ↦ All-contains P ns ps n (ground arith)
]

pub gather_copies-gathered :
    (m : Map String) (inputs : List TensorMetadata) (values : Map OutputTensor)
    → Covers (graph_names m inputs) values
    → (ts : List OutputTensor) × (gather_copies m inputs values ≡ gathered ts values)
unfolding gather_copies graph_names with_tensor
gather_copies-gathered m [] values h = ([], refl)
gather_copies-gathered m (d ∷ ds) values h =
    let (t, e) =
      h (mapped m d.name)
        (let s = (eq_iff (mapped m d.name) (mapped m d.name)).1 refl in ground arith) in
    let (ts, behind) = gather_copies-gathered m ds values (λ n c. h n (ground arith)) in
    (
      named d.name t ∷ ts,
      found_tensor (mapped m d.name) d.name _ _ e ∙ ap (with_tensor (named d.name t)) behind,
    )
