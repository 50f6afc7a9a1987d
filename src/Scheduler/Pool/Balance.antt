-- ===== src/Scheduler/Pool/Balance.antt =====
-- The pool hands out a least busy executor, and takes back what it handed out.
use neuriplo_kserve_runtime.Prelude.{
  ℕ, zero, suc, ◌+◌, ◌-◌, ◌≤◌, ◌<◌, ◌≡◌, refl, ap, List, [], ◌∷◌, Option, some, arith, get_elem?,
  length, ltb, Bool-cases, inl, inr, ltb→lt,
}
use native.Mathlib.Nat.{le_trans}
use neuriplo_kserve_runtime.Scheduler.Pool.{
  best_from, increment, select, release, current_in_flight,
}

-- An entry of a list that is no greater than any.
pub record Least (ns : List ℕ) (i : ℕ) : Type 0 where
  pub value : ℕ
  pub found : get_elem? ns i ≡ some value
  pub least : (j m : ℕ) → get_elem? ns j ≡ some m → value ≤ m

release-increment : (i : ℕ) (ns : List ℕ) → release i (increment i ns) ≡ ns
unfolding release increment
release-increment i [] = refl
release-increment zero (n ∷ ns) = ground arith
release-increment (suc i) (n ∷ ns) = ap (◌∷◌ n) (release-increment i ns)

current_in_flight-increment :
    (i : ℕ) (ns : List ℕ)
    → i < length ns
    → current_in_flight (increment i ns) ≡ current_in_flight ns + 1
unfolding increment current_in_flight
current_in_flight-increment i [] h = elim h [ ]
current_in_flight-increment zero (n ∷ ns) h = omega arith
current_in_flight-increment (suc i) (n ∷ ns) h =
    omega (arith, current_in_flight-increment i ns (omega arith))

length-increment : (i : ℕ) (ns : List ℕ) → length (increment i ns) ≡ length ns
unfolding increment
length-increment i [] = refl
length-increment zero (n ∷ ns) = refl
length-increment (suc i) (n ∷ ns) = ap suc (length-increment i ns)

pub length-release : (i : ℕ) (ns : List ℕ) → length (release i ns) ≡ length ns
unfolding release
length-release i [] = refl
length-release zero (n ∷ ns) = refl
length-release (suc i) (n ∷ ns) = ap suc (length-release i ns)

lt-length : (ns : List ℕ) (i : ℕ) {v : ℕ} → get_elem? ns i ≡ some v → i < length ns
lt-length [] i h = absurd (cc)
lt-length (n ∷ ns) zero h = omega arith
lt-length (n ∷ ns) (suc i) h = omega (arith, lt-length ns i h)

-- The state of the scan: the best entry so far stands in the list and is least among those before.
record Scan (ns : List ℕ) (best_index best index : ℕ) (rest : List ℕ) : Type 0 where
  found : get_elem? ns best_index ≡ some best
  so_far : (j m : ℕ) → j < index → get_elem? ns j ≡ some m → best ≤ m
  ahead : (j : ℕ) → get_elem? ns (index + j) ≡ get_elem? rest j

get_at : (ns : List ℕ) {i j : ℕ} {o : Option ℕ} → i ≡ j → get_elem? ns i ≡ o → get_elem? ns j ≡ o
get_at ns p e = rw (← p) e

module _ {ns : List ℕ} {b v index n : ℕ} {rest : List ℕ} (s : Scan ns b v index (n ∷ rest)) where
  ahead_next : (j : ℕ) → get_elem? ns (suc index + j) ≡ get_elem? rest j
  ahead_next j = get_at ns (omega arith) (s.ahead (suc j))

  here : get_elem? ns index ≡ some n
  here = get_at ns (omega arith) (s.ahead 0)

  -- With `w` at most both, the scan moves one entry on.
  on : (w : ℕ) → w ≤ v → w ≤ n → (j m : ℕ) → j < suc index → get_elem? ns j ≡ some m → w ≤ m
  on w le_v le_n j m h e = elim (Bool-cases (ltb j index)) [
    | inl before ↦ le_trans le_v (s.so_far j m (ltb→lt j index before) e)
    | inr last ↦
        let same : j ≡ index = ground arith in
        let at = get_at ns same e in let now = here in ground arith
  ]

scan :
    (ns : List ℕ) (best_index best index : ℕ) (rest : List ℕ)
    → Scan ns best_index best index rest
    → Least ns (best_from best_index best index rest)
unfolding best_from
scan ns b v index [] s = record {
  value = v;
  found = s.found;
  least = λ j m e. elim (Bool-cases (ltb j index)) [
    | inl before ↦ s.so_far j m (ltb→lt j index before) e
    | inr behind ↦
        let ahead = get_at ns {j = j} (ground arith) (s.ahead (j - index)) in absurd (ground arith)
  ];
}
scan ns b v index (n ∷ rest) s = elim (Bool-cases (ltb n v)) [
  | inl less ↦ rw less (
      scan ns index n (suc index) rest (record {
        found = here s;
        so_far = on s n (ground arith) (omega arith);
        ahead = ahead_next s;
      }))
  | inr more ↦ rw more (
      scan ns b v (suc index) rest (record {
        found = s.found;
        so_far = on s v (omega arith) (ground arith);
        ahead = ahead_next s;
      }))
]

first : (n : ℕ) (ns : List ℕ) → Scan (n ∷ ns) 0 n 1 ns
first n ns = record {
  found = refl;
  so_far = λ j m h e. let at = get_at (n ∷ ns) {i = j} {j = 0} (omega arith) e in ground arith;
  ahead = λ j. get_at (n ∷ ns) {i = suc j} (omega arith) refl;
}

-- What `select` hands out: an executor with the fewest requests. The pool counts one more request
-- in flight, releasing that executor gives
-- back the pool as it was, and the number of executors stays.
pub record Selected (before : List ℕ) (index : ℕ) (after : List ℕ) : Type 0 where
  pub chosen : Least before index
  pub counted : current_in_flight after ≡ current_in_flight before + 1
  pub returned : release index after ≡ before
  pub sized : length after ≡ length before

-- On a pool with at least one executor `select` succeeds, with such a choice.
pub select-Selected :
    (before : List ℕ)
    → 0 < length before
    → (index : ℕ) × (after : List ℕ) × (select before ≡ some (index, after))
      × Selected before index after
unfolding select
select-Selected [] h = elim h [ ]
select-Selected (n ∷ ns) h =
    let best = best_from 0 n 1 ns in
    let chosen : Least (n ∷ ns) best = scan (n ∷ ns) 0 n 1 ns (first n ns) in
    (
      best,
      increment best (n ∷ ns),
      refl,
      record {
        chosen = chosen;
        counted = current_in_flight-increment best (n ∷ ns) (lt-length (n ∷ ns) best chosen.found);
        returned = release-increment best (n ∷ ns);
        sized = length-increment best (n ∷ ns);
      },
    )
