-- ===== src/Errors.antt =====
-- src/KServeErrors.hpp: the HTTP status of each error code, and src/RequestPipeline.hpp: the stages
-- that a request passes until one of them answers.
mod Examples
use neuriplo_kserve_runtime.Prelude.{
  ℕ, ◌≤◌, ◌<◌, ◌≡◌, refl, String, Bool, true, false, ◌||◌, str_eq, if◌then◌else◌, arith, List, [],
  ◌∷◌, ◌++◌, Option, none, some,
}

unfoldable pub http_status_for_code : String → ℕ
http_status_for_code code =
    if str_eq code "INVALID_ARGUMENT"
    then 400
    else if str_eq code "MODEL_NOT_FOUND"
    then 404
    else if str_eq code "MODEL_NOT_READY"
    then 409
    else if str_eq code "QUEUE_FULL"
    then 429
    else if str_eq code "DEADLINE_EXCEEDED"
    then 504
    else if str_eq code "BACKEND_ERROR" || str_eq code "INTERNAL"
    then 500
    else if str_eq code "UNAVAILABLE"
    then 503
    else if str_eq code "NOT_FOUND"
    then 404
    else if str_eq code "METHOD_NOT_ALLOWED"
    then 405
    else if str_eq code "PAYLOAD_TOO_LARGE"
    then 413
    else 500

-- A stage changes the context and may answer; an empty `std::function` is `none`. Contexts and
-- responses are any types.
abbrev pub Stage : Type 0 → Type 0 → Type 0
Stage Context Response = Option (Context → Context × Option Response)

module _ {Context Response : Type 0} where
  unfoldable pub add_stage :
      List (Stage Context Response) → Stage Context Response → List (Stage Context Response)
  add_stage stages stage = stages ++ stage ∷ []

  -- What a stage answers, or what the stages behind it do.
  unfoldable unless_answered :
      Context × Option Response → (Context → Context × Response) → Context × Response
  unless_answered (ctx, some error) rest = (ctx, error)
  unless_answered (ctx, none) rest = rest ctx

  -- The loop of `run`; `default` is the response that is default-constructed.
  unfoldable pub run : Response → List (Stage Context Response) → Context → Context × Response
  unfolding unless_answered
  run default [] ctx = (ctx, default)
  run default (none ∷ stages) ctx = run default stages ctx
  run default (some stage ∷ stages) ctx = unless_answered (stage ctx) (run default stages)

  -- These stages let a request pass and make the second context of the first.
  pub data Passes : List (Stage Context Response) → Context → Context → Type 0 where
    through : {c : Context} → Passes [] c c
    skip :
        {stages : List (Stage Context Response)} {c d : Context}
        → Passes stages c d
        → Passes (none ∷ stages) c d
    pass :
        {stages : List (Stage Context Response)} {c c' d : Context}
        {stage : Context → Context × Option Response}
        → stage c ≡ (c', none)
        → Passes stages c' d
        → Passes (some stage ∷ stages) c d

  -- The first stage that answers ends the request: when the stages before it let the request pass,
  -- its answer is the response, with the context that it leaves, and the stages behind it do not
  -- run, whichever they are.
  pub run-Passes :
      (default : Response) (before behind : List (Stage Context Response))
      (stage : Context → Context × Option Response) (c d e : Context) (error : Response)
      → Passes before c d
      → stage d ≡ (e, some error)
      → run default (before ++ some stage ∷ behind) c ≡ (e, error)
  unfolding run unless_answered
  run-Passes default [] behind stage c d e error through h = rw h refl
  run-Passes default (none ∷ before) behind stage c d e error (skip p) h =
      run-Passes default before behind stage c d e error p h
  run-Passes default (some first ∷ before) behind stage c d e error (pass q p) h =
      rw q (run-Passes default before behind stage _ d e error p h)
