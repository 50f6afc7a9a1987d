-- ===== src/Registry/Queries/Readiness.antt =====
-- src/ModelRegistry.cpp, `allReady`: when the server is ready.
use neuriplo_kserve_runtime.Prelude.{
  ℕ, Bool, true, false, not, ◌&&◌, ◌||◌, List, [], ◌∷◌, Option, none, some, ◌≡◌, refl, ◌↔◌, ◌⊎◌,
  inl, inr, arith, if◌then◌else◌, Map, Entries,
}
use neuriplo_kserve_runtime.ModelState.{State, loading, ready, failed, state_eq}
use neuriplo_kserve_runtime.Registry.State.{InferSnapshot, Slot, Registry, is_ready, among, serving}
use neuriplo_kserve_runtime.Registry.Operations.{snapshot_is_ready}
use neuriplo_kserve_runtime.Registry.Queries.{
  in_state, skipped, all_ready_from, all_ready_in, all_ready,
}

-- Its first load is under way; or it failed, in a repository.
abbrev pub PassedOver : Bool → Option InferSnapshot → Type 0
PassedOver repository_mode none = ⊥
PassedOver repository_mode (some s) =
    (s.state ≡ loading) ⊎ ((repository_mode ≡ true) × (s.state ≡ failed))

-- It is Ready, with a scheduler that still accepts.
abbrev pub Serves : List ℕ → Option InferSnapshot → Type 0
Serves stopped none = ⊥
Serves stopped (some s) =
    (s.state ≡ ready)
    × ((scheduler : ℕ) × (s.scheduler ≡ some scheduler) × (among stopped scheduler ≡ false))

-- A slot does not stand in the way.
abbrev pub Fine : Registry → Slot → Type 0
Fine r slot =
    PassedOver r.repository_mode slot.active_snapshot ⊎ Serves r.stopped slot.active_snapshot

-- Some slot is not passed over.
abbrev pub Counts : Registry → Map Slot → Type 0
Counts r [] = ⊥
Counts r ((name, slot) ∷ rest) = ¬ PassedOver r.repository_mode slot.active_snapshot ⊎ Counts r rest

state_eq_iff : (s t : State) → (state_eq s t ≡ true) ↔ (s ≡ t)
state_eq_iff s t = ground arith

skipped_iff :
    (r : Registry) (slot : Slot)
    → (skipped r slot ≡ true) ↔ PassedOver r.repository_mode slot.active_snapshot
unfolding skipped
skipped_iff r slot = at slot.active_snapshot
  where
    states :
        (state : State) (mode : Bool)
        → (state_eq state loading || (mode && state_eq state failed) ≡ true)
          ↔ ((state ≡ loading) ⊎ ((mode ≡ true) × (state ≡ failed)))
    states state mode =
        let (a, b) = state_eq_iff state loading in
        let (c, d) = state_eq_iff state failed in ground arith

    at :
        (o : Option InferSnapshot)
        → (in_state loading o || (r.repository_mode && in_state failed o) ≡ true)
          ↔ PassedOver r.repository_mode o
    at none = (λ h. let absurd : ⊥ = grind arith in absurd, λ h. elim h [ ])
    at (some s) = states s.state r.repository_mode

snapshot_is_ready_iff :
    (stopped : List ℕ) (o : Option InferSnapshot)
    → (snapshot_is_ready stopped o ≡ true) ↔ Serves stopped o
unfolding is_ready
snapshot_is_ready_iff stopped none = (λ h. let absurd : ⊥ = cc in absurd, λ h. elim h [ ])
snapshot_is_ready_iff stopped (some s) = at s.state s.scheduler
  where
    at :
        (state : State) (scheduler : Option ℕ)
        → (state_eq state ready && serving stopped scheduler ≡ true)
          ↔ ((state ≡ ready) × ((i : ℕ) × (scheduler ≡ some i) × (among stopped i ≡ false)))
    at state none = (λ h. let absurd : ⊥ = grind arith in elim absurd [ ], λ h. grind arith)
    at state (some i) =
        let (a, b) = state_eq_iff state ready in
        (
          λ h. (a (grind arith), (i, refl, grind arith)),
          λ h.
              let (e, (j, same, free)) = h in
              let k : i ≡ j = cc in
              let accepts : among stopped i ≡ false = rw k free in let up = b e in ground arith,
        )

-- One round of the loop.
combine :
    (skip serves any explicit passed counted : Bool) {P S C Rest : Type 0}
    → (skip ≡ true) ↔ P
    → (serves ≡ true) ↔ S
    → (passed ≡ true) ↔ (Rest × ((any ≡ true) ⊎ (C ⊎ (explicit ≡ true))))
    → (counted ≡ true) ↔ (Rest × ((true ≡ true) ⊎ (C ⊎ (explicit ≡ true))))
    → ((if skip then passed else if not serves then false else counted) ≡ true)
      ↔ (((P ⊎ S) × Rest) × ((any ≡ true) ⊎ ((¬ P ⊎ C) ⊎ (explicit ≡ true))))
combine true serves any explicit passed counted {P} (p, _) s (sound, complete) c =
    (λ h. ((inl (p refl), (sound h).0), more (sound h).1), λ h. complete (h.0.1, less h.1))
  where
    more :
        {C : Type 0}
        → (any ≡ true) ⊎ (C ⊎ (explicit ≡ true))
        → (any ≡ true) ⊎ ((¬ P ⊎ C) ⊎ (explicit ≡ true))
    more (inl a) = inl a
    more (inr (inl c)) = inr (inl (inr c))
    more (inr (inr e)) = inr (inr e)

    less :
        {C : Type 0}
        → (any ≡ true) ⊎ ((¬ P ⊎ C) ⊎ (explicit ≡ true))
        → (any ≡ true) ⊎ (C ⊎ (explicit ≡ true))
    less (inl a) = inl a
    less (inr (inl (inl not_p))) = elim (not_p (p refl)) [ ]
    less (inr (inl (inr c))) = inr (inl c)
    less (inr (inr e)) = inr (inr e)
combine false true any explicit passed counted (p, back) (s, _) ih (sound, complete) = (
  λ h. ((inr (s refl), (sound h).0), inr (inl (inl (λ x. let e = back x in cc)))),
  λ h. complete (h.0.1, inl refl),
)
combine false false any explicit passed counted (_, p) (_, s) ih c = (
  λ h. let absurd : ⊥ = cc in elim absurd [ ],
  λ h. elim h.0.0 [ inl x ↦ let e = p x in cc | inr x ↦ let e = s x in cc ],
)

all_ready_from_iff :
    (r : Registry) (any_counted : Bool) (m : Map Slot)
    → (all_ready_from r any_counted m ≡ true) ↔ (
        Entries (Fine r) m
        × ((any_counted ≡ true) ⊎ (Counts r m ⊎ (r.explicit_control_mode ≡ true))))
unfolding all_ready_from
all_ready_from_iff r true [] = (λ h. (tt, inl refl), λ h. refl)
all_ready_from_iff r false [] = (λ h. (tt, inr (inr h)), λ h. explicit h.1)
  where
    explicit :
        (false ≡ true) ⊎ (⊥ ⊎ (r.explicit_control_mode ≡ true)) → r.explicit_control_mode ≡ true
    explicit (inl e) = cc
    explicit (inr (inl e)) = elim e [ ]
    explicit (inr (inr e)) = e
all_ready_from_iff r any ((name, slot) ∷ rest) =
    combine (skipped r slot) (snapshot_is_ready r.stopped slot.active_snapshot) any
      r.explicit_control_mode _ _ (skipped_iff r slot)
      (snapshot_is_ready_iff r.stopped slot.active_snapshot) (all_ready_from_iff r any rest)
      (all_ready_from_iff r true rest)

all_ready_in_iff :
    (r : Registry) (m : Map Slot)
    → (all_ready_in r m ≡ true)
      ↔ (Entries (Fine r) m × (Counts r m ⊎ (r.explicit_control_mode ≡ true)))
unfolding all_ready_in
all_ready_in_iff r [] = (λ h. (tt, inr h), λ h. explicit h.1)
  where
    explicit : ⊥ ⊎ (r.explicit_control_mode ≡ true) → r.explicit_control_mode ≡ true
    explicit (inl e) = elim e [ ]
    explicit (inr e) = e
all_ready_in_iff r (entry ∷ rest) =
    let (sound, complete) = all_ready_from_iff r false (entry ∷ rest) in
    (λ h. ((sound h).0, nothing_yet (sound h).1), λ h. complete (h.0, inr h.1))
  where
    nothing_yet : {X : Type 0} → (false ≡ true) ⊎ X → X
    nothing_yet (inl e) = let absurd : ⊥ = cc in elim absurd [ ]
    nothing_yet (inr x) = x

-- The server is ready exactly when each of its models serves, that is, it is Ready and has a
-- scheduler that still accepts, but for those that are passed over; and when either some model is
-- not passed over or models are loaded on explicit request only. Passed over are the models whose
-- first load is under way and, in a repository only, those that failed.
pub all_ready_iff :
    (r : Registry)
    → (all_ready r ≡ true)
      ↔ (Entries (Fine r) r.models × (Counts r r.models ⊎ (r.explicit_control_mode ≡ true)))
unfolding all_ready
all_ready_iff r = all_ready_in_iff r r.models
