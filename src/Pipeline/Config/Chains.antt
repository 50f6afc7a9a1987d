-- ===== src/Pipeline/Config/Chains.antt =====
-- src/PipelineConfig.cpp and src/PipelineExecutor.cpp: what a chain of checks that returned has passed.
use neuriplo_kserve_runtime.Prelude.{
  String, Bool, true, false, List, [], ◌∷◌, none, some, ◌≡◌, ◌≢◌, refl, arith, eq_iff, str_eq, All,
  if◌then◌else◌,
}
use neuriplo_kserve_runtime.Pipeline.Config.{
  Parsed, parsed, refused, raised, ◌>>=◌, refuse_if, contains, unavailable_tensor,
}

-- A chain that returns: what its first part returned, and the rest of the chain on that.
pub bind_parsed {ℓ κ μ} :
    {A : Type ℓ} {B : Type κ} {R : Type μ} (m : Parsed A) (f : A → Parsed B) {b : B}
    → (m >>= f) ≡ parsed b
    → ((a : A) → m ≡ parsed a → f a ≡ parsed b → R)
    → R
bind_parsed (parsed a) f h go = go a refl h
bind_parsed (refused error) f h go = let absurd : ⊥ = cc in elim absurd [ ]
bind_parsed raised f h go = let absurd : ⊥ = cc in elim absurd [ ]

pub parsed_inj {ℓ} : {A : Type ℓ} {a b : A} → parsed a ≡ parsed b → a ≡ b
parsed_inj e = cc

pub refuse_if_parsed :
    (test : Bool) (error : String) {u : Unit {0}} → refuse_if test error ≡ parsed u → test ≡ false
refuse_if_parsed true error h = cc
refuse_if_parsed false error h = refl

pub unavailable_tensor-none :
    (available tensors : List String)
    → unavailable_tensor available tensors ≡ none
    → All (λ n. contains available n ≡ true) tensors
unfolding unavailable_tensor
unavailable_tensor-none available [] e = tt
unavailable_tensor-none available (t ∷ ts) e =
    (ground arith, unavailable_tensor-none available ts (behind e))
  where
    behind :
        (if contains available t then unavailable_tensor available ts else some t) ≡ none
        → unavailable_tensor available ts ≡ none
    behind e = grind arith

pub differs : (s t : String) → str_eq s t ≡ false → s ≢ t
differs s t h e = let same = (eq_iff s t).1 e in cc
