-- ===== src/Prelude/Maps.antt =====
-- A map with text keys (`std::unordered_map`, `std::map`) as a list of entries: at most one entry of
-- a key counts. The order of the entries is the representation's.
use Prim.Native.String.{String}
use mathlib.Core.Path.{◌≡◌, subst}
use mathlib.Core.Logic.{inl, inr}
use mathlib.Core.Bool.{true, false}
use mathlib.Core.Option.{Option, none, some}
use mathlib.Core.List.{List, [], ◌∷◌}
use native.Mathlib.Omega.{arith}
use text.Mathlib.TextEquality.{eq_iff}
use neuriplo_kserve_runtime.Prelude.Tests.{str_eq, if◌then◌else◌, Bool-cases, if_both}

abbrev pub Map {ℓ} : Type ℓ → Type ℓ
Map V = List (String × V)

module _ {ℓ} {V : Type ℓ} where
  unfoldable pub lookup : String → Map V → Option V
  lookup k [] = none
  lookup k ((j, v) ∷ m) = if str_eq j k then some v else lookup k m

  -- erase(k)
  unfoldable pub without : String → Map V → Map V
  without k [] = []
  without k ((j, v) ∷ m) = let rest = without k m in if str_eq j k then rest else (j, v) ∷ rest

  -- m[k] = v
  unfoldable pub put : String → V → Map V → Map V
  unfolding without
  put k v m = (k, v) ∷ without k m

  -- emplace(k, v): the first entry of a key stays.
  unfoldable pub emplace : String → V → Map V → Map V
  emplace k v [] = (k, v) ∷ []
  emplace k v ((j, w) ∷ m) =
      let rest = emplace k v m in if str_eq j k then (j, w) ∷ m else (j, w) ∷ rest

  pub lookup-without :
      (j k : String) (m : Map V)
      → lookup j (without k m) ≡ (if str_eq k j then none else lookup j m)
  unfolding lookup without
  lookup-without j k [] = ground arith
  lookup-without j k ((i, v) ∷ m) =
      let ih = lookup-without j k m in ground (arith, eq_iff i k, eq_iff i j, eq_iff k j)

  pub lookup-put :
      (j k : String) (v : V) (m : Map V)
      → lookup j (put k v m) ≡ (if str_eq k j then some v else lookup j m)
  unfolding lookup put
  lookup-put j k v m = let other = lookup-without j k m in ground arith

  abbrev pub Entries : (V → Type 0) → Map V → Type 0
  Entries P [] = Unit
  Entries P ((k, v) ∷ m) = P v × Entries P m

  pub lookup-Entries :
      (P : V → Type 0) (k : String) (m : Map V) {v : V} → Entries P m → lookup k m ≡ some v → P v
  unfolding lookup
  lookup-Entries P k [] h e = grind arith
  lookup-Entries P k ((j, w) ∷ m) {v} (h, hs) e = elim (Bool-cases (str_eq j k)) [
    | inl hit ↦ subst P (found hit) h
    | inr miss ↦ lookup-Entries P k m hs (behind miss)
  ]
    where
      found : str_eq j k ≡ true → w ≡ v
      found hit = grind arith

      behind : str_eq j k ≡ false → lookup k m ≡ some v
      behind miss = grind arith

  pub without-Entries :
      (P : V → Type 0) (k : String) (m : Map V) → Entries P m → Entries P (without k m)
  unfolding without
  without-Entries P k [] h = tt
  without-Entries P k ((j, w) ∷ m) (h, hs) =
      let ih = without-Entries P k m hs in if_both (Entries P) (str_eq j k) (λ _. ih) (λ _. (h, ih))

  pub put-Entries :
      (P : V → Type 0) (k : String) (v : V) (m : Map V) → P v → Entries P m → Entries P (put k v m)
  unfolding put
  put-Entries P k v m h hs = (h, without-Entries P k m hs)
