-- ===== src/Prelude/Maps.antt =====
-- Finite maps with numeric keys, as association lists: std::unordered_map<int, V>.
use Prim.Native.Nat.{ℕ}
use mathlib.Core.Path.{◌≡◌, refl}
use mathlib.Core.List.{List, [], ◌∷◌}
use mathlib.Core.Option.{Option, none, some}
use native.Mathlib.Omega.{arith}
use posix_bsp_perf.Prelude.Tests.{◌==◌, if◌then◌else◌}

abbrev pub Map {ℓ} : Type ℓ → Type ℓ
Map V = List (ℕ × V)

module _ {ℓ} {V : Type ℓ} where
  -- `m.find(key)`
  unfoldable pub lookup : ℕ → Map V → Option V
  lookup key [] = none
  lookup key ((other, value) ∷ rest) = if other == key then some value else lookup key rest

  -- `m[key] = new`, in place if the key is there.
  unfoldable pub insert : ℕ → V → Map V → Map V
  insert key new [] = (key, new) ∷ []
  insert key new ((other, value) ∷ rest) =
      if other == key then (other, new) ∷ rest else (other, value) ∷ insert key new rest

  -- `m.erase(key)`
  unfoldable pub erase : ℕ → Map V → Map V
  erase key [] = []
  erase key ((other, value) ∷ rest) =
      if other == key then erase key rest else (other, value) ∷ erase key rest

  pub lookup-insert :
      (key other : ℕ) (new : V) (m : Map V)
      → lookup other (insert key new m) ≡ (if key == other then some new else lookup other m)
  unfolding lookup insert
  lookup-insert key other new [] = refl
  lookup-insert key other new ((first, value) ∷ rest) =
      ground (arith, lookup-insert key other new rest)

  pub lookup-erase :
      (key other : ℕ) (m : Map V)
      → lookup other (erase key m) ≡ (if key == other then none else lookup other m)
  unfolding lookup erase
  lookup-erase key other [] = ground arith
  lookup-erase key other ((first, value) ∷ rest) = ground (arith, lookup-erase key other rest)
