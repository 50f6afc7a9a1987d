-- ===== src/Llm/Admission.antt =====
-- src/LlmScheduler.cpp, `validateLlmRequest`: which requests an LLM scheduler takes.
use neuriplo_kserve_runtime.Prelude.{
  ℕ, ◌+◌, ◌^◌, ◌≤◌, ◌<◌, ◌≡◌, refl, sym, ◌⊎◌, String, Bool, false, ◌&&◌, ◌||◌, List, [], ◌∷◌,
  Option, none, some, if◌then◌else◌, ltb, leb, ◌==◌, ◌↔◌, arith, inl, inr, Option-cases,
}
use Prim.Native.String.{◌++◌}
use neuriplo_kserve_runtime.Request.{
  InputTensor, ExecutionRequest, LlmGenerationParams, is_bytes_datatype,
}
use neuriplo_kserve_runtime.Batching.Merge.{u64}
use neuriplo_kserve_runtime.Batching.Compat.{is_empty}
use neuriplo_kserve_runtime.Lifecycle.{LlmSchedulerConfig}

unfoldable pub find_bytes_prompt : List InputTensor → Option InputTensor
find_bytes_prompt [] = none
find_bytes_prompt (input ∷ rest) =
    if is_bytes_datatype input.datatype then some input else find_bytes_prompt rest

unfoldable pub effective_max_tokens : Option LlmGenerationParams → LlmSchedulerConfig → ℕ
effective_max_tokens none config = config.max_tokens
effective_max_tokens (some params) config = elim params.max_tokens [
  | none ↦ config.max_tokens
  | some max_tokens ↦ max_tokens
]

-- Comparisons of a double, given by its IEEE 754 bit pattern: the negative numbers follow -0, which
-- is 2 ^ 63, up to minus infinity, and the patterns behind an infinity are no numbers.
abbrev pub minus_infinity : ℕ
minus_infinity = 0xFFF0000000000000

abbrev pub infinity : ℕ
infinity = 0x7FF0000000000000

abbrev pub one : ℕ
one = 0x3FF0000000000000

unfoldable pub below_zero : ℕ → Bool
below_zero bits = ltb (2 ^ 63) bits && leb bits minus_infinity

unfoldable pub at_most_zero : ℕ → Bool
at_most_zero bits = bits == 0 || (leb (2 ^ 63) bits && leb bits minus_infinity)

unfoldable pub above_one : ℕ → Bool
above_one bits = ltb one bits && leb bits infinity

unfoldable pub temperature_is_bad : Option ℕ → Bool
temperature_is_bad none = false
temperature_is_bad (some temperature) = below_zero temperature

unfoldable pub top_p_is_bad : Option ℕ → Bool
top_p_is_bad none = false
top_p_is_bad (some top_p) = at_most_zero top_p || above_one top_p

unfoldable pub sampling_error : Option LlmGenerationParams → Option String
sampling_error none = none
sampling_error (some params) =
    if temperature_is_bad params.temperature
    then some "temperature must be greater than or equal to 0"
    else if top_p_is_bad params.top_p
    then some "top_p must be in (0, 1]"
    else none

-- The checks behind the one for a prompt. `std::to_string` is a parameter.
unfoldable pub validate_prompt :
    (ℕ → String) → InputTensor → Option LlmGenerationParams → LlmSchedulerConfig → ℕ → Option String
validate_prompt to_string prompt params config estimated_tokens =
    let max_tokens = effective_max_tokens params config in
    if is_empty prompt.string_data
    then some "LLM prompt must not be empty"
    else if ltb config.context_length estimated_tokens
    then some
        (("prompt exceeds context length (estimated " ++ to_string estimated_tokens) ++ " tokens)")
    else if max_tokens == 0 || ltb config.max_tokens max_tokens
    then some "max_tokens exceeds configured limit"
    else if ltb config.context_length (u64 (estimated_tokens + max_tokens))
    then some "prompt + max_tokens exceeds context length"
    else sampling_error params

unfoldable pub validate_llm_request :
    (ℕ → String) → ExecutionRequest → LlmSchedulerConfig → ℕ → Option String
validate_llm_request to_string request config estimated_tokens =
    elim (find_bytes_prompt request.inputs) [
      | none ↦ some "LLM request requires a BYTES prompt input"
      | some prompt ↦ validate_prompt to_string prompt request.llm_params config estimated_tokens
    ]

-- Not below zero, or no number: the pattern of no negative number.
abbrev pub NotBelowZero : ℕ → Type 0
NotBelowZero bits = (bits ≤ 2 ^ 63) ⊎ (minus_infinity < bits)

-- Above zero and at most one, or no number.
abbrev pub UpToOne : ℕ → Type 0
UpToOne bits =
    ((0 < bits) × (bits ≤ one)) ⊎ (((infinity < bits) × (bits < 2 ^ 63)) ⊎ (minus_infinity < bits))

-- What is given has the property.
abbrev pub Given : (ℕ → Type 0) → Option ℕ → Type 0
Given P none = Unit
Given P (some bits) = P bits

-- The parameters of the sampling, where they are given.
abbrev pub Sampled : Option LlmGenerationParams → Type 0
Sampled none = Unit
Sampled (some params) = Given NotBelowZero params.temperature × Given UpToOne params.top_p

-- The tokens that a request may generate: as many as it asks for itself, else as configured.
abbrev pub MayGenerate : Option LlmGenerationParams → LlmSchedulerConfig → ℕ → Type 0
MayGenerate none config n = n ≡ config.max_tokens
MayGenerate (some params) config n =
    (params.max_tokens ≡ some n) ⊎ ((params.max_tokens ≡ none) × (n ≡ config.max_tokens))

-- A request that fits: its first BYTES input has a text, its prompt and the tokens that it may
-- generate are within the context, and so are its parameters within their ranges.
pub record Admissible (request : ExecutionRequest) (config : LlmSchedulerConfig) (estimated : ℕ)
    : Type 0 where
  pub prompt : InputTensor
  pub found : find_bytes_prompt request.inputs ≡ some prompt
  pub full : is_empty prompt.string_data ≡ false
  pub max_tokens : ℕ
  pub effective : MayGenerate request.llm_params config max_tokens
  pub positive : 0 < max_tokens
  pub limited : max_tokens ≤ config.max_tokens
  pub fits : estimated + max_tokens ≤ config.context_length
  pub sampled : Sampled request.llm_params

effective_max_tokens-MayGenerate :
    (params : Option LlmGenerationParams) (config : LlmSchedulerConfig)
    → MayGenerate params config (effective_max_tokens params config)
unfolding effective_max_tokens
effective_max_tokens-MayGenerate none config = refl
effective_max_tokens-MayGenerate (some params) config = elim (Option-cases params.max_tokens) [
  | inl e ↦ inr (e, rw e refl)
  | inr (n, e) ↦ inl (rw e refl)
]

MayGenerate-effective_max_tokens :
    (params : Option LlmGenerationParams) (config : LlmSchedulerConfig) (n : ℕ)
    → MayGenerate params config n
    → effective_max_tokens params config ≡ n
unfolding effective_max_tokens
MayGenerate-effective_max_tokens none config n h = sym h
MayGenerate-effective_max_tokens (some params) config n (inl e) = rw e refl
MayGenerate-effective_max_tokens (some params) config n (inr (e, same)) = rw e (sym same)

temperature_is_bad_iff : (o : Option ℕ) → (temperature_is_bad o ≡ false) ↔ Given NotBelowZero o
unfolding temperature_is_bad below_zero
temperature_is_bad_iff none = (λ h. tt, λ h. refl)
temperature_is_bad_iff (some bits) = (λ h. ground arith, λ h. ground arith)

top_p_is_bad_iff : (o : Option ℕ) → (top_p_is_bad o ≡ false) ↔ Given UpToOne o
unfolding top_p_is_bad at_most_zero above_one
top_p_is_bad_iff none = (λ h. tt, λ h. refl)
top_p_is_bad_iff (some bits) = (λ h. ground arith, λ h. ground arith)

sampling_error-Sampled :
    (params : Option LlmGenerationParams) → sampling_error params ≡ none → Sampled params
unfolding sampling_error
sampling_error-Sampled none h = tt
sampling_error-Sampled (some p) h = (
  (temperature_is_bad_iff p.temperature).0 (grind arith),
  (top_p_is_bad_iff p.top_p).0 (grind arith),
)

sampling_error_of_Sampled :
    (params : Option LlmGenerationParams) → Sampled params → sampling_error params ≡ none
unfolding sampling_error
sampling_error_of_Sampled none h = refl
sampling_error_of_Sampled (some p) (t, q) =
    rw ((temperature_is_bad_iff p.temperature).1 t, (top_p_is_bad_iff p.top_p).1 q) refl

module _ (to_string : ℕ → String) (config : LlmSchedulerConfig) where
  -- Given that the configured context and token limit do not sum up past 64 bits.
  admitted :
      (prompt : InputTensor) (params : Option LlmGenerationParams) (estimated : ℕ)
      → config.context_length + config.max_tokens < 2 ^ 64
      → validate_prompt to_string prompt params config estimated ≡ none
      → (is_empty prompt.string_data ≡ false)
        × (0 < effective_max_tokens params config)
        × (effective_max_tokens params config ≤ config.max_tokens)
        × (estimated + effective_max_tokens params config ≤ config.context_length)
        × (sampling_error params ≡ none)
  unfolding validate_prompt
  admitted prompt params estimated small h =
      (ground arith, ground arith, ground arith, ground arith, ground arith)

  passes :
      (prompt : InputTensor) (params : Option LlmGenerationParams) (estimated : ℕ)
      → config.context_length + config.max_tokens < 2 ^ 64
      → is_empty prompt.string_data ≡ false
      → 0 < effective_max_tokens params config
      → effective_max_tokens params config ≤ config.max_tokens
      → estimated + effective_max_tokens params config ≤ config.context_length
      → sampling_error params ≡ none
      → validate_prompt to_string prompt params config estimated ≡ none
  unfolding validate_prompt
  passes prompt params estimated small full positive limited fits sampled = ground arith

  -- Given that the configured context length and token limit do not sum up past 64 bits: a request
  -- is accepted exactly when its first BYTES input holds a text, the tokens that it may generate
  -- (its own max_tokens where it has one, else the configured limit) are at least one and at most
  -- the limit, they and the estimated prompt are within the context, and the temperature and top_p,
  -- where given, are not below zero and in (0, 1], or are no numbers.
  pub validate_llm_request_iff :
      (request : ExecutionRequest) (estimated_tokens : ℕ)
      → config.context_length + config.max_tokens < 2 ^ 64
      → (validate_llm_request to_string request config estimated_tokens ≡ none)
        ↔ Admissible request config estimated_tokens
  unfolding validate_llm_request
  validate_llm_request_iff request estimated small = (
    (λ h. elim (Option-cases (find_bytes_prompt request.inputs)) [
      | inl missing ↦ grind arith
      | inr (prompt, found) ↦
          let (full, positive, limited, fits, sampled) =
            admitted prompt request.llm_params estimated small (grind arith) in
          record {
            prompt = prompt;
            found = found;
            full = full;
            max_tokens = effective_max_tokens request.llm_params config;
            effective = effective_max_tokens-MayGenerate request.llm_params config;
            positive = positive;
            limited = limited;
            fits = fits;
            sampled = sampling_error-Sampled request.llm_params sampled;
          }
    ]),
    λ a.
        let tokens =
          MayGenerate-effective_max_tokens request.llm_params config a.max_tokens a.effective in
        rw (a.found, validate_llm_request)
          (passes a.prompt request.llm_params estimated small a.full (rw tokens a.positive)
            (rw tokens a.limited) (rw tokens a.fits)
            (sampling_error_of_Sampled request.llm_params a.sampled)),
  )
