-- ===== src/TrafficCam/Greedy.antt =====
-- Resnet18TrafficCamNet::applyNMS against its description: a box is kept unless one that was kept before
-- it rules it out.
use mathlib.Core.List.Perm
use mathlib.Core.List.{Perm}
use posix_bsp_perf.Prelude.{
  ◌≡◌, ◌⊎◌, inl, inr, refl, sym, ◌∙◌, Bool, true, false, ◌||◌, List, [], ◌∷◌, ◌++◌, if_elim, All,
  All-map,
}
use posix_bsp_perf.Yolo.{Floats}
use posix_bsp_perf.Yolo.Run.{ObjDetectOutputBox}
use posix_bsp_perf.TrafficCam.{rules_out, apply_nms}
use posix_bsp_perf.TrafficCam.Marks.{overruled, greedy, any-append-one, nms_all-greedy}

neither : (a b : Bool) → (a || b) ≡ false → (a ≡ false) × (b ≡ false)
neither true b e = absurd (cc)
neither false b e = (refl, e)

either : (a b : Bool) → (a || b) ≡ true → (a ≡ true) ⊎ (b ≡ true)
either true b e = inl refl
either false b e = inr e

module _ (fl : Floats) (nms_threshold : fl.Float) where
  -- No box of the list rules out another one behind it.
  abbrev pub Apart : List (ObjDetectOutputBox fl) → Type 0
  Apart [] = Unit
  Apart (b ∷ bs) = All (λ c. rules_out fl nms_threshold b c ≡ false) bs × Apart bs

  -- The box is one of the list, or ruled out by one of it.
  abbrev pub Settled : List (ObjDetectOutputBox fl) → ObjDetectOutputBox fl → Type 0
  Settled [] b = ⊥
  Settled (k ∷ ks) b = ((k ≡ b) ⊎ (rules_out fl nms_threshold k b ≡ true)) ⊎ Settled ks b

  abbrev gr :
      List (ObjDetectOutputBox fl) → List (ObjDetectOutputBox fl) → List (ObjDetectOutputBox fl)
  gr = greedy fl nms_threshold

  abbrev over : List (ObjDetectOutputBox fl) → ObjDetectOutputBox fl → Bool
  over = overruled fl nms_threshold

  over-append-one :
      (kept : List (ObjDetectOutputBox fl)) (b c : ObjDetectOutputBox fl)
      → over (kept ++ b ∷ []) c ≡ (over kept c || rules_out fl nms_threshold b c)
  over-append-one kept b c = any-append-one (λ k. rules_out fl nms_threshold k c) kept b

  greedy-Apart :
      (kept bs : List (ObjDetectOutputBox fl))
      → All (λ c. over kept c ≡ false) (gr kept bs) × Apart (gr kept bs)
  unfolding greedy
  greedy-Apart kept [] = (tt, tt)
  greedy-Apart kept (b ∷ bs) =
      let skip = greedy-Apart kept bs in
      let (none_over, apart) = greedy-Apart (kept ++ b ∷ []) bs in
      let both =
        All-map (λ c. over (kept ++ b ∷ []) c ≡ false)
          (λ c. (over kept c ≡ false) × (rules_out fl nms_threshold b c ≡ false))
          (gr (kept ++ b ∷ []) bs)
          (λ c e.
            neither (over kept c) (rules_out fl nms_threshold b c)
              (sym (over-append-one kept b c) ∙ e))
          none_over in
      if_elim (λ r. All (λ c. over kept c ≡ false) r × Apart r) (over kept b) (λ e. skip)
        (λ e. (
          (
            e,
            All-map (λ c. (over kept c ≡ false) × (rules_out fl nms_threshold b c ≡ false))
                (λ c. over kept c ≡ false) (gr (kept ++ b ∷ []) bs) (λ c h. h.0) both,
          ),
          (
            All-map (λ c. (over kept c ≡ false) × (rules_out fl nms_threshold b c ≡ false))
                (λ c. rules_out fl nms_threshold b c ≡ false) (gr (kept ++ b ∷ []) bs) (λ c h. h.1)
                both,
            apart,
          ),
        ))

  abbrev Done :
      List (ObjDetectOutputBox fl) → List (ObjDetectOutputBox fl) → ObjDetectOutputBox fl → Type 0
  Done kept r c = (over kept c ≡ true) ⊎ Settled r c

  greedy-Settled : (kept bs : List (ObjDetectOutputBox fl)) → All (Done kept (gr kept bs)) bs
  unfolding greedy
  greedy-Settled kept [] = tt
  greedy-Settled kept (b ∷ bs) =
      let skip = greedy-Settled kept bs in
      let keep = greedy-Settled (kept ++ b ∷ []) bs in
      if_elim (λ r. All (Done kept r) (b ∷ bs)) (over kept b) (λ e. (inl e, skip))
        (λ e. (
          inr (inl (inl refl)),
          All-map (Done (kept ++ b ∷ []) (gr (kept ++ b ∷ []) bs))
              (Done kept (b ∷ gr (kept ++ b ∷ []) bs)) bs
              (λ c d. elim d [
                | inl o ↦
                    elim (either (over kept c) (rules_out fl nms_threshold b c)
                      (sym (over-append-one kept b c) ∙ o)) [
                        | inl before ↦ inl before
                        | inr now ↦ inr (inl (inr now))
                      ]
                | inr s ↦ inr (inr s)
              ])
              keep,
        ))

  module _ (sort_boxes : List (ObjDetectOutputBox fl) → List (ObjDetectOutputBox fl))
      (permutes : (bs : List (ObjDetectOutputBox fl)) → Perm (sort_boxes bs) bs) where
    -- If the sort permutes, what applyNMS returns are the sorted boxes without those that a box which was
    -- kept before them rules out: the loops with their vector of flags keep a box exactly if no box that
    -- is kept before it, of the same label, overlaps it by more than the threshold.
    pub apply_nms-greedy :
        (boxes : List (ObjDetectOutputBox fl))
        → apply_nms fl nms_threshold sort_boxes boxes
          ≡ greedy fl nms_threshold [] (sort_boxes boxes)
    unfolding apply_nms greedy
    apply_nms-greedy [] = rw (Perm.eq-nil (permutes [])) refl
    apply_nms-greedy (b ∷ bs) = nms_all-greedy fl nms_threshold (sort_boxes (b ∷ bs))

    -- If the sort permutes: of the boxes that applyNMS returns, none overlaps one before it of its label
    -- by more than the threshold; and each box that it was given is returned or is so overlapped by one
    -- that is.
    pub apply_nms-Apart :
        (boxes : List (ObjDetectOutputBox fl))
        → Apart (apply_nms fl nms_threshold sort_boxes boxes)
          × All (Settled (apply_nms fl nms_threshold sort_boxes boxes)) (sort_boxes boxes)
    apply_nms-Apart boxes = rw (apply_nms-greedy boxes) (
      (greedy-Apart [] (sort_boxes boxes)).1,
      All-map (Done [] (gr [] (sort_boxes boxes))) (Settled (gr [] (sort_boxes boxes)))
          (sort_boxes boxes) (λ c d. elim d [ inl never ↦ absurd (cc) | inr s ↦ s ])
          (greedy-Settled [] (sort_boxes boxes)),
    )
