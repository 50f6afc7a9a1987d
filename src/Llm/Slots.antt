-- ===== src/Llm/Slots.antt =====
-- src/LlmScheduler.cpp, `acquireDecodeSlot` and `releaseDecodeSlot`: at most as many requests are
-- decoded at a time as there are slots.
--
-- Threads acquire one at a time, under the mutex; between its readings the other threads release
-- slots and may start a drain. A wait that ends without its condition is `acquired` by nobody.
use neuriplo_kserve_runtime.Prelude.{
  ℕ, zero, suc, ◌+◌, ◌-◌, ◌≤◌, ◌^◌, ◌≡◌, refl, Bool, true, false, not, ◌||◌, if◌then◌else◌, ltb,
  leb, arith, ◌⊎◌,
}

pub record Slots : Type 0 where
  pub active_decodes : ℕ
  pub draining : Bool

-- `fetch_sub` on a size_t; below 0 it would wrap around.
unfoldable pub release_decode_slot : Slots → Slots
release_decode_slot s = record s {
  active_decodes = if ltb 0 s.active_decodes then s.active_decodes - 1 else 2 ^ 64 - 1;
}

-- What the other threads do between two readings: so many releases, and a drain or none.
pub record Meanwhile : Type 0 where
  pub releases : ℕ
  pub drains : Bool

unfoldable pub release_slots : ℕ → Slots → Slots
release_slots zero s = s
release_slots (suc n) s = release_slots n (release_decode_slot s)

unfoldable pub meanwhile : Meanwhile → Slots → Slots
unfolding release_slots
meanwhile m s =
    let s' = release_slots m.releases s in record s' { draining = s'.draining || m.drains }

-- The state is the one in which the wait ended: the condition held, or the deadline had come.
unfoldable pub acquire_decode_slot : ℕ → Meanwhile → Meanwhile → Slots → Slots × Bool
unfolding meanwhile
acquire_decode_slot kv_cache_slots first second s =
    let s' = meanwhile first s in
    let s'' = meanwhile second s' in
    if not (s.draining || ltb s.active_decodes kv_cache_slots)
    then (s, false)
    else if s'.draining
    then (s', false)
    else if leb kv_cache_slots s''.active_decodes
    then (s'', false)
    else (record s'' { active_decodes = s''.active_decodes + 1 }, true)

release_slots_lem :
    (n : ℕ) (s : Slots)
    → n ≤ s.active_decodes
    → ((release_slots n s).active_decodes + n ≡ s.active_decodes)
      × ((release_slots n s).draining ≡ s.draining)
unfolding release_slots release_decode_slot
release_slots_lem zero s h = (omega arith, refl)
release_slots_lem (suc n) s h =
    let (count, same) = release_slots_lem n (release_decode_slot s) (ground arith) in
    (ground arith, same)

-- The two outcomes of an attempt.
abbrev pub Acquired : ℕ → ℕ → Bool → Slots → Slots × Bool → Type 0
Acquired slots released drains s (s', acquired) =
    ((acquired ≡ true)
      × (s'.active_decodes + released ≡ s.active_decodes + 1)
      × (s'.active_decodes ≤ slots))
    ⊎ ((acquired ≡ false)
        × (s'.active_decodes ≤ s.active_decodes)
        × ((slots ≤ s.active_decodes) ⊎ (s.draining || drains ≡ true)))

-- An attempt to acquire a slot, while the other threads release no more slots than are active, has
-- one of two outcomes. Acquired: the active slots are one more than before, less those released, and
-- no more than there are. Refused: no slot is added, and either no slot was free when the wait
-- ended, or a drain was under way or started.
pub acquire_decode_slot-bounded :
    (kv_cache_slots : ℕ) (first second : Meanwhile) (s : Slots)
    → first.releases + second.releases ≤ s.active_decodes
    → Acquired kv_cache_slots
        (first.releases + second.releases)
        first.drains
        s
        (acquire_decode_slot kv_cache_slots first second s)
unfolding acquire_decode_slot meanwhile
acquire_decode_slot-bounded slots m1 m2 s few =
    let (count1, same1) = release_slots_lem m1.releases s (omega arith) in
    let (count2, same2) = release_slots_lem m2.releases (meanwhile m1 s) (ground arith) in
    ground arith

-- After an attempt and, where it succeeded, one more release: only the other threads' releases
-- count.
abbrev pub Balanced : ℕ → ℕ → Slots × Bool → Type 0
Balanced before released (s, acquired) =
    ((acquired ≡ true) × (s.active_decodes + released ≡ before + 1))
    ⊎ ((acquired ≡ false) × (s.active_decodes ≤ before) × (before ≤ s.active_decodes + released))

pub acquire_decode_slot-Balanced :
    (kv_cache_slots : ℕ) (first second : Meanwhile) (s : Slots)
    → first.releases + second.releases ≤ s.active_decodes
    → Balanced s.active_decodes
        (first.releases + second.releases)
        (acquire_decode_slot kv_cache_slots first second s)
unfolding acquire_decode_slot meanwhile
acquire_decode_slot-Balanced slots m1 m2 s few =
    let (count1, same1) = release_slots_lem m1.releases s (omega arith) in
    let (count2, same2) = release_slots_lem m2.releases (meanwhile m1 s) (ground arith) in
    ground arith

-- A drain is never taken back.
pub acquire_decode_slot-draining :
    (kv_cache_slots : ℕ) (first second : Meanwhile) (s : Slots)
    → first.releases + second.releases ≤ s.active_decodes
    → s.draining ≡ true
    → (acquire_decode_slot kv_cache_slots first second s).0.draining ≡ true
unfolding acquire_decode_slot meanwhile
acquire_decode_slot-draining slots m1 m2 s few drains =
    let (count1, same1) = release_slots_lem m1.releases s (omega arith) in
    let (count2, same2) = release_slots_lem m2.releases (meanwhile m1 s) (ground arith) in
    ground arith
