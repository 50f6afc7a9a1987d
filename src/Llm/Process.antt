-- ===== src/Llm/Process.antt =====
-- src/LlmScheduler.cpp, `processSingle`: a worker runs a request while it holds a decode slot.
pub mod Released
mod Examples
use neuriplo_kserve_runtime.Prelude.{ℕ, Bool, false, Option, none, some, if◌then◌else◌, leb}
use neuriplo_kserve_runtime.Request.{ExecutionRequest, ExecutionResponse}
use neuriplo_kserve_runtime.Scheduler.World.{
  PendingRequest, World, M, now, is_cancelled, update, cancel_token, fulfill_expired_request,
}
use neuriplo_kserve_runtime.Scheduler.Process.{
  Inference, select_executor, release_executor, finish_single,
}
use neuriplo_kserve_runtime.Llm.Slots.{Slots, Meanwhile, acquire_decode_slot, release_decode_slot}
use neuriplo_kserve_runtime.Llm.Inference.{
  is_draining, streams, run_llm_inference, time_out, refuse_draining,
}

-- What the threads of the LLM scheduler share: the world, and how many decode slots are taken.
pub record Decoder : Type 0 where
  pub world : World
  pub active_decodes : ℕ

-- A worker's actions.
abbrev pub L : Type 0 → Type 0
L A = Decoder → Option (A × Decoder)

abbrev pub done : L (Unit {0})
done d = some (tt, d)

infixl 5 ◌>>=◌ ◌>>◌
abbrev pub ◌>>=◌ : {A B : Type 0} → L A → (A → L B) → L B
◌>>=◌ m f d = elim (m d) [ none ↦ none | some (a, d') ↦ f a d' ]

abbrev pub ◌>>◌ : {B : Type 0} → L (Unit {0}) → L B → L B
m >> k = m >>= λ _. k

-- An action that leaves the slots alone.
unfoldable pub lift : {A : Type 0} → M A → L A
lift m d = elim (m d.world) [ none ↦ none | some (a, w) ↦ some (a, record d { world = w }) ]

abbrev pub slot_taken : Decoder → Slots × Bool → Option (Bool × Decoder)
slot_taken d (s, acquired) = some (
  acquired,
  record d { world = record w { draining = s.draining }; active_decodes = s.active_decodes },
)
  where
    w : World
    w = d.world

-- The critical section of `acquireDecodeSlot`; `first` and `second` say what the other threads do to
-- the slots between its readings.
unfoldable pub take_slot : ℕ → Meanwhile → Meanwhile → L Bool
take_slot kv_cache_slots first second d = slot_taken d (
    acquire_decode_slot kv_cache_slots first second
      (record { active_decodes = d.active_decodes; draining = d.world.draining }))

unfoldable pub return_slot : L (Unit {0})
unfolding release_decode_slot
return_slot d = some (
  tt,
  record d {
    active_decodes =
        (release_decode_slot
          (record { active_decodes = d.active_decodes; draining = false })).active_decodes;
  },
)

-- The executors: what each makes of a request, streamed or not.
module _ (executors : ℕ → Bool → ExecutionRequest → Inference) where
  -- Behind the checks, with a slot.
  unfoldable pub decode : PendingRequest → L (Unit {0})
  decode p = do
    index ← lift select_executor
    started ← lift now
    outcome ←
        lift
          (run_llm_inference p.request (executors index (streams p.request.llm_params) p.request))
    finished ← lift now
    lift (release_executor index)
    return_slot
    lift (finish_single p started finished outcome.0 outcome.1)

  unfoldable pub expire_with_slot : PendingRequest → L (Unit {0})
  expire_with_slot p = do lift (update (cancel_token p)); return_slot; lift (time_out p)

  unfoldable pub refuse_with_slot : PendingRequest → L (Unit {0})
  refuse_with_slot p = do return_slot; lift (refuse_draining p)

  unfoldable pub check_deadline : PendingRequest → L (Unit {0})
  check_deadline p = do
    time ← lift now
    if leb p.deadline time then expire_with_slot p else decode p

  unfoldable pub with_slot : PendingRequest → L (Unit {0})
  with_slot p = do
    drains ← lift is_draining
    if drains then refuse_with_slot p else check_deadline p

  unfoldable pub await_slot : ℕ → Meanwhile → Meanwhile → PendingRequest → L (Unit {0})
  await_slot kv_cache_slots first second p = do
    waited ← lift now
    acquired ← take_slot kv_cache_slots first second
    if acquired then with_slot p else lift (time_out p)

  unfoldable pub start_single : ℕ → Meanwhile → Meanwhile → PendingRequest → L (Unit {0})
  start_single kv_cache_slots first second p = do
    time ← lift now
    if leb p.deadline time
        then lift (fulfill_expired_request p)
        else await_slot kv_cache_slots first second p

  unfoldable pub process_single_llm : ℕ → Meanwhile → Meanwhile → PendingRequest → L (Unit {0})
  process_single_llm kv_cache_slots first second p = do
    gone ← lift (is_cancelled p)
    if gone then done else start_single kv_cache_slots first second p
