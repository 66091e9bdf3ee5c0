-- ===== src/Prelude/Perms.antt =====
-- What a permutation keeps: the length, a count, and whether a test holds of all entries.
use mathlib.Core.Bool.{Bool, true, false, ◌&&◌, Bool-set}
use mathlib.Core.List.Perm
use mathlib.Core.List.{List, [], ◌∷◌, ◌++◌, Perm, foldr}
use mathlib.Core.Path.{◌≡◌, refl, sym, ap, ◌∙◌}
use native.Mathlib.Nat.{ℕ_set}
use native.Mathlib.Omega.{arith}
use Prim.Native.Nat.{ℕ, suc, ◌+◌}
use posix_bsp_perf.Prelude.Lists.{length}
use posix_bsp_perf.Prelude.Tests.{if◌then◌else◌}

both_comm : (a b c : Bool) → (a && (b && c)) ≡ (b && (a && c))
both_comm true b c = refl
both_comm false true c = refl
both_comm false false c = refl

module _ {ℓ} {A : Type ℓ} where
  length-foldr : (xs : List A) → length xs ≡ foldr (λ x n. suc n) 0 xs
  length-foldr [] = refl
  length-foldr (x ∷ xs) = ap suc (length-foldr xs)

  pub Perm-length : {xs ys : List A} → Perm xs ys → length xs ≡ length ys
  Perm-length {xs} {ys} p =
      length-foldr xs
      ∙ Perm.foldr-eq ℕ_set (λ x n. suc n) (λ a b n. refl) p 0
      ∙ sym (length-foldr ys)

  abbrev pub all : (A → Bool) → List A → Bool
  all f [] = true
  all f (x ∷ xs) = f x && all f xs

  all-foldr : (f : A → Bool) (xs : List A) → all f xs ≡ foldr (λ x b. f x && b) true xs
  all-foldr f [] = refl
  all-foldr f (x ∷ xs) = ap (λ b. f x && b) (all-foldr f xs)

  pub Perm-all : (f : A → Bool) {xs ys : List A} → Perm xs ys → all f xs ≡ all f ys
  Perm-all f {xs} {ys} p =
      all-foldr f xs
      ∙ Perm.foldr-eq Bool-set (λ x b. f x && b) (λ a b c. both_comm (f a) (f b) c) p true
      ∙ sym (all-foldr f ys)

  -- How many entries pass the test.
  abbrev pub count : (A → Bool) → List A → ℕ
  count f [] = 0
  count f (x ∷ xs) = (if f x then 1 else 0) + count f xs

  pub count-append : (f : A → Bool) (xs ys : List A) → count f (xs ++ ys) ≡ count f xs + count f ys
  count-append f [] ys = omega arith
  count-append f (x ∷ xs) ys = omega (arith, count-append f xs ys)

  count-foldr :
      (f : A → Bool) (xs : List A) → count f xs ≡ foldr (λ x n. (if f x then 1 else 0) + n) 0 xs
  count-foldr f [] = refl
  count-foldr f (x ∷ xs) = ap (λ n. (if f x then 1 else 0) + n) (count-foldr f xs)

  pub Perm-count : (f : A → Bool) {xs ys : List A} → Perm xs ys → count f xs ≡ count f ys
  Perm-count f {xs} {ys} p =
      count-foldr f xs
      ∙ Perm.foldr-eq ℕ_set (λ x n. (if f x then 1 else 0) + n) (λ a b n. omega arith) p 0
      ∙ sym (count-foldr f ys)
