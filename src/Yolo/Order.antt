-- ===== src/Yolo/Order.antt =====
-- The order of the boxes in YoloPostProcess::runPostProcess, and the set of their classes. Of
-- `std::sort` it is used that it permutes pairs with different scores.
use mathlib.Core.List.{Perm}
use posix_bsp_perf.Prelude.Perms.{all, Perm-all, Perm-length}
use posix_bsp_perf.Prelude.{
  All-map, ℕ, zero, suc, ◌+◌, ◌≤◌, ◌<◌, ◌≡◌, inl, inr, refl, sym, ap, ◌∙◌, true, not, ◌||◌,
  Bool-cases, List, [], ◌∷◌, map, ltb, leb, ◌==◌, ltb→lt, if_elim, length, get_or, All, arith, some,
}
use posix_bsp_perf.Yolo.{Floats, index_at}
use posix_bsp_perf.Yolo.Classes.{IsIn, Above, Ascending}
use posix_bsp_perf.Yolo.Decode.{Found}
use posix_bsp_perf.Yolo.Run.{
  iota_from, set_insert, class_set, any, zip, inverse_sort_with_indices, sorted,
}

-- All numbers of the list are below `n`.
abbrev pub AllBelow : ℕ → List ℕ → Type 0
AllBelow n = All (λ x. x < n)

AllBelow-map :
    {A : Type 0} (n : ℕ) (xs : List (A × ℕ))
    → all (λ x. ltb x.1 n) xs ≡ true
    → AllBelow n (map (λ x. x.1) xs)
AllBelow-map n [] h = tt
AllBelow-map n ((a, x) ∷ xs) h = elim (Bool-cases (ltb x n)) [
  | inl low ↦ (ltb→lt x n low, AllBelow-map n xs (ground (arith, h, low)))
  | inr high ↦ absurd (ground (arith, h, high))
]

all-zip :
    {A : Type 0} (n : ℕ) (xs : List A) (ys : List ℕ)
    → AllBelow n ys
    → all (λ x. ltb x.1 n) (zip xs ys) ≡ true
all-zip n [] ys h = refl
all-zip n (x ∷ xs) [] h = refl
all-zip n (x ∷ xs) (y ∷ ys) h = ground (arith, h.0, all-zip n xs ys h.1)

length-zip :
    {A : Type 0} (xs : List A) (ys : List ℕ)
    → length xs ≡ length ys
    → length (zip xs ys) ≡ length ys
length-zip [] [] h = refl
length-zip [] (y ∷ ys) h = absurd (omega arith)
length-zip (x ∷ xs) [] h = absurd (omega arith)
length-zip (x ∷ xs) (y ∷ ys) h = ap suc (length-zip xs ys (omega arith))

pub length-map {ℓ κ} :
    {A : Type ℓ} {B : Type κ} (f : A → B) (xs : List A) → length (map f xs) ≡ length xs
length-map f [] = refl
length-map f (x ∷ xs) = ap suc (length-map f xs)

length-iota_from : (rounds i : ℕ) → length (iota_from rounds i) ≡ rounds
length-iota_from zero i = refl
length-iota_from (suc rounds) i = ap suc (length-iota_from rounds (suc i))

AllBelow-iota_from : (rounds i n : ℕ) → i + rounds ≤ n → AllBelow n (iota_from rounds i)
AllBelow-iota_from zero i n h = tt
AllBelow-iota_from (suc rounds) i n h =
    (omega arith, AllBelow-iota_from rounds (suc i) n (omega arith))

-- Of any two pairs, one has the larger score, and `>=` tells which; so there are no equal scores and no
-- NaN among them.
abbrev pub Differ : (fl : Floats) → List (fl.Float × ℕ) → Type 0
Differ fl [] = Unit
Differ fl (x ∷ xs) = All (λ y. fl.le y.0 x.0 ≡ not (fl.le x.0 y.0)) xs × Differ fl xs

-- What `inverseSortWithIndices` sorts.
abbrev pub pairs_of : (fl : Floats) → Found fl × ℕ → List (fl.Float × ℕ)
pairs_of fl s = zip s.0.obj_scores (iota_from s.1 0)

module _ (fl : Floats) (sort_pairs : List (fl.Float × ℕ) → List (fl.Float × ℕ))
    (permutes : (xs : List (fl.Float × ℕ)) → Differ fl xs → Perm (sort_pairs xs) xs) where
  -- As many indices, and all in range.
  abbrev pub IsIndexing : ℕ → List ℕ → Type 0
  IsIndexing n xs = (length xs ≡ n) × AllBelow n xs

  IsIndexing-inverse_sort_with_indices :
      (n : ℕ) (input : List fl.Float) (indices : List ℕ)
      → length input ≡ n
      → IsIndexing n indices
      → Differ fl (zip input indices)
      → IsIndexing n (inverse_sort_with_indices fl sort_pairs input indices).1
  unfolding inverse_sort_with_indices
  IsIndexing-inverse_sort_with_indices n input indices h k apart =
      let q = permutes (zip input indices) apart in
      let moved : IsIndexing n (map (λ x. x.1) (sort_pairs (zip input indices))) = (
        length-map (λ x. x.1) (sort_pairs (zip input indices))
            ∙ Perm-length q
            ∙ length-zip input indices (h ∙ sym k.0)
            ∙ k.0,
        AllBelow-map n (sort_pairs (zip input indices))
            (Perm-all (λ x. ltb x.1 n) q ∙ all-zip n input indices k.1),
      ) in
      let IsDone = λ (r : List fl.Float × List ℕ). IsIndexing n r.1 in
      if_elim IsDone (leb (length input) 0 || leb (length indices) 0) (λ e. k)
        (λ e.
          if_elim IsDone (not (length input == length indices)) (λ e. k)
            (λ e. if_elim IsDone (any fl.is_invalid input) (λ e. k) (λ e. moved)))

  pub IsIndexing-sorted :
      (s : Found fl × ℕ)
      → length s.0.obj_scores ≡ s.1
      → Differ fl (pairs_of fl s)
      → IsIndexing s.1 (sorted fl sort_pairs s).1
  unfolding sorted
  IsIndexing-sorted s h apart =
      IsIndexing-inverse_sort_with_indices s.1 s.0.obj_scores (iota_from s.1 0) h
        (length-iota_from s.1 0, AllBelow-iota_from s.1 0 s.1 (omega arith)) apart

pub index_at-AllBelow :
    (n b m : ℕ) (xs : List ℕ) → AllBelow n xs → index_at (map some xs) b ≡ some m → m < n
unfolding get_or
index_at-AllBelow n b m [] h e = absurd (cc)
index_at-AllBelow n zero m (x ∷ xs) h e = ground (arith, h.0, e)
index_at-AllBelow n (suc b) m (x ∷ xs) h e = index_at-AllBelow n b m xs h.1 e

-- A class that was put into the set is in it.
IsIn-set_insert : (k : ℕ) (xs : List ℕ) → IsIn k (set_insert k xs)
IsIn-set_insert k [] = inl refl
IsIn-set_insert k (x ∷ xs) =
    if_elim (IsIn k) (ltb k x) (λ e. inl refl)
      (λ e. if_elim (IsIn k) (k == x) (λ e'. inl (ground arith)) (λ e'. inr (IsIn-set_insert k xs)))

IsIn-set_insert_other : (k j : ℕ) (xs : List ℕ) → IsIn j xs → IsIn j (set_insert k xs)
IsIn-set_insert_other k j [] h = elim h [ ]
IsIn-set_insert_other k j (x ∷ xs) h =
    if_elim (IsIn j) (ltb k x) (λ e. inr h)
      (λ e.
        if_elim (IsIn j) (k == x) (λ e'. h)
          (λ e'. elim h [
            | inl here ↦ inl here
            | inr there ↦ inr (IsIn-set_insert_other k j xs there)
          ]))

pub IsIn-class_set : (i : ℕ) (xs : List ℕ) → i < length xs → IsIn (get_or xs i 0) (class_set xs)
unfolding get_or
IsIn-class_set i [] h = absurd (omega arith)
IsIn-class_set zero (x ∷ xs) h = IsIn-set_insert x (class_set xs)
IsIn-class_set (suc i) (x ∷ xs) h =
    IsIn-set_insert_other x (get_or xs i 0) (class_set xs) (IsIn-class_set i xs (omega arith))

Above-set_insert : (x k : ℕ) (xs : List ℕ) → x < k → Above x xs → Above x (set_insert k xs)
Above-set_insert x k [] h p = (h, tt)
Above-set_insert x k (y ∷ ys) h p =
    if_elim (Above x) (ltb k y) (λ e. (h, p))
      (λ e. if_elim (Above x) (k == y) (λ e'. p) (λ e'. (p.0, Above-set_insert x k ys h p.1)))

Ascending-set_insert : (k : ℕ) (xs : List ℕ) → Ascending xs → Ascending (set_insert k xs)
Ascending-set_insert k [] p = (tt, tt)
Ascending-set_insert k (x ∷ xs) p =
    if_elim Ascending (ltb k x)
      (λ e. (
        (
          ltb→lt k x e,
          All-map (λ y. x < y) (λ y. k < y) xs (λ y h. omega (arith, h, ltb→lt k x e)) p.0,
        ),
        p,
      ))
      (λ e.
        if_elim Ascending (k == x) (λ e'. p)
          (λ e'. (Above-set_insert x k xs (ground arith) p.0, Ascending-set_insert k xs p.1)))

pub Ascending-class_set : (xs : List ℕ) → Ascending (class_set xs)
Ascending-class_set [] = tt
Ascending-class_set (x ∷ xs) = Ascending-set_insert x (class_set xs) (Ascending-class_set xs)
