-- ===== src/Yolo/Classes.antt =====
-- The loop over the classes in YoloPostProcess::runPostProcess.
use posix_bsp_perf.Prelude.{
  ◌≢◌, true, All, ℕ, ◌<◌, ◌≡◌, ◌⊎◌, inl, inr, sym, ◌∙◌, subst, false, Option, some, List, [], ◌∷◌,
  arith,
}
use posix_bsp_perf.Yolo.{class_of, Floats, Candidates, index_at, overlaps, nms, nms_classes, IsFit}
use posix_bsp_perf.Yolo.Nms.{nms-Clash, IsOf, nms-Pass, nms-overlaps}

-- The class is one of those in the list.
abbrev pub IsIn : ℕ → List ℕ → Type 0
IsIn k [] = ⊥
IsIn k (x ∷ xs) = (k ≡ x) ⊎ IsIn k xs

-- In ascending order, without repetition.
abbrev pub Above : ℕ → List ℕ → Type 0
Above k = All (λ x. k < x)

abbrev pub Ascending : List ℕ → Type 0
Ascending [] = Unit
Ascending (x ∷ xs) = Above x xs × Ascending xs

Above-not-IsIn : (k : ℕ) (xs : List ℕ) → Above k xs → ¬ IsIn k xs
Above-not-IsIn k [] h i = i
Above-not-IsIn k (x ∷ xs) h (inl here) = absurd (omega (arith, h.0, here))
Above-not-IsIn k (x ∷ xs) h (inr there) = Above-not-IsIn k xs h.1 there

module _ (fl : Floats) (c : Candidates fl) where
  pub IsFit-nms : (k : ℕ) (o : List (Option ℕ)) → IsFit fl c o → IsFit fl c (nms fl c k o).1
  IsFit-nms k o f =
      let p = (nms-Pass fl c k o f).1 in
      record {
        some_box = f.some_box;
        boxes = f.boxes;
        classes = f.classes;
        long = omega (arith, f.long, p.size);
      }

  -- A box that is left was there before.
  pub nms_classes-index_at :
      (classes : List ℕ) (o : List (Option ℕ)) (b m : ℕ)
      → IsFit fl c o
      → index_at (nms_classes fl c classes o) b ≡ some m
      → index_at o b ≡ some m
  unfolding nms_classes
  nms_classes-index_at [] o b m f e = e
  nms_classes-index_at (k ∷ classes) o b m f e =
      let p = (nms-Pass fl c k o f).1 in
      let mid : index_at (nms fl c k o).1 b ≡ some m =
        nms_classes-index_at classes (nms fl c k o).1 b m (IsFit-nms k o f) e in
      elim (p.shrinks b) [ inl same ↦ sym same ∙ mid | inr gone ↦ absurd (cc) ]

  -- Where the lengths are right, after the passes for all classes of the list no two boxes that are
  -- left in the first `valid_count` places, both of one class of the list, overlap too much.
  pub nms_classes-overlaps :
      (classes : List ℕ) (k : ℕ) (o : List (Option ℕ)) (a b n m : ℕ)
      → IsFit fl c o
      → IsIn k classes
      → a < b
      → b < c.valid_count
      → index_at (nms_classes fl c classes o) a ≡ some n
      → index_at (nms_classes fl c classes o) b ≡ some m
      → IsOf fl c k n
      → IsOf fl c k m
      → overlaps fl c n m ≡ false
  unfolding nms_classes
  nms_classes-overlaps [] k o a b n m f there h h' e e' g g' = elim there [ ]
  nms_classes-overlaps (x ∷ classes) k o a b n m f (inr there) h h' e e' g g' =
      nms_classes-overlaps classes k (nms fl c x o).1 a b n m (IsFit-nms x o f) there h h' e e' g g'
  nms_classes-overlaps (x ∷ classes) k o a b n m f (inl here) h h' e e' g g' =
      let fit = IsFit-nms x o f in
      let before = nms_classes-index_at classes (nms fl c x o).1 in
      (nms-overlaps fl c x o a b n m f h h' (before a n fit e) (before b m fit e')
        (subst (λ y. IsOf fl c y n) here g) (subst (λ y. IsOf fl c y m) here g')).1

  -- A box of no class of the list stays.
  nms_classes_spared :
      (classes : List ℕ) (o : List (Option ℕ)) (b m : ℕ)
      → IsFit fl c o
      → index_at o b ≡ some m
      → ¬ IsIn (class_of fl c m) classes
      → index_at (nms_classes fl c classes o) b ≡ some m
  unfolding nms_classes
  nms_classes_spared [] o b m f e out = e
  nms_classes_spared (k ∷ classes) o b m f e out =
      let other : class_of fl c m ≢ k = λ h. out (inl h) in
      nms_classes_spared classes (nms fl c k o).1 b m (IsFit-nms k o f)
        ((nms-Pass fl c k o f).1.spared b m e (ground (arith, other))) (λ h. out (inr h))

  -- A box that overlaps too much with a box of its class that stands before it.
  pub record Behind (order : List (Option ℕ)) (a b n m : ℕ) : Type 0 where
    pub before : a < b
    pub first : index_at order a ≡ some n
    pub same_class : class_of fl c n ≡ class_of fl c m
    pub too_much : overlaps fl c n m ≡ true

  -- Where the lengths are right and the classes of the list ascend, a place keeps its box through the
  -- passes for all classes, or its box is behind one of its class that is left.
  pub nms_classes-Behind :
      (classes : List ℕ) (o : List (Option ℕ)) (b m : ℕ)
      → IsFit fl c o
      → Ascending classes
      → index_at o b ≡ some m
      → (index_at (nms_classes fl c classes o) b ≡ some m)
        ⊎ ((a : ℕ) × (n : ℕ) × Behind (nms_classes fl c classes o) a b n m)
  unfolding nms_classes
  nms_classes-Behind [] o b m f up e = inl e
  nms_classes-Behind (k ∷ classes) o b m f up e =
      let fit = IsFit-nms k o f in
      elim (nms-Clash fl c k o b m f e) [
        | inl same ↦ nms_classes-Behind classes (nms fl c k o).1 b m fit up.1 same
        | inr (gone, (a, n, d)) ↦
            let of_k : class_of fl c n ≡ k = ground (arith, d.first_of) in
            let of_k' : class_of fl c m ≡ k = ground (arith, d.second_of) in
            inr (
              a,
              n,
              record {
                before = d.before;
                first =
                    nms_classes_spared classes (nms fl c k o).1 a n fit d.first
                      (subst (λ x. ¬ IsIn x classes) (sym of_k) (Above-not-IsIn k classes up.0));
                same_class = of_k ∙ sym of_k';
                too_much = d.too_much;
              },
            )
      ]
