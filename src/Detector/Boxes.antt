-- ===== src/Detector/Boxes.antt =====
-- publishObjDetectResults: the boxes in the message.
use posix_bsp_perf.Prelude.{
  ℕ, zero, suc, ◌+◌, ◌-◌, ◌%◌, ◌^◌, ◌≡◌, refl, sym, ap, ◌∙◌, List, [], ◌∷◌, ◌++◌, append_assoc, ltb,
  if_elim, length, length-append, take, set, replicate, min, arith,
}
use posix_bsp_perf.Images.{ImageView}
use posix_bsp_perf.Yolo.{Floats}
use posix_bsp_perf.Yolo.Run.{ObjDetectOutputBox}
use posix_bsp_perf.Detector.Work.{max_boxes, ObjDetectMsg, default_box, fill_boxes, results_msg}

set-append {ℓ} :
    {A : Type ℓ} (xs : List A) (y v : A) (ys : List A)
    → set (xs ++ y ∷ ys) (length xs) v ≡ xs ++ v ∷ ys
unfolding set
set-append [] y v ys = refl
set-append (x ∷ xs) y v ys = ap (◌∷◌ x) (set-append xs y v ys)

module _ (fl : Floats) where
  -- `done`, the boxes that there is room for, and default boxes.
  abbrev filled :
      List (ObjDetectOutputBox fl) → List (ObjDetectOutputBox fl) → ℕ → List (ObjDetectOutputBox fl)
  filled done bs room = done ++ (take room bs ++ replicate (room - length bs) (default_box fl))

  -- The message with these boxes and this count.
  abbrev with_boxes : ObjDetectMsg fl → List (ObjDetectOutputBox fl) → ℕ → ObjDetectMsg fl
  with_boxes m boxes n = record m { output_boxes = boxes; valid_box_count = n }

  same_boxes :
      (m : ObjDetectMsg fl) {boxes boxes' : List (ObjDetectOutputBox fl)} {n n' : ℕ}
      → boxes ≡ boxes'
      → n ≡ n'
      → with_boxes m boxes n ≡ with_boxes m boxes' n'
  same_boxes m {boxes'} {n} e h = ap (λ b. with_boxes m b n) e ∙ ap (with_boxes m boxes') h

  fill_boxes-filled :
      (bs done : List (ObjDetectOutputBox fl)) (room : ℕ) (m : ObjDetectMsg fl)
      → length done + room ≡ max_boxes
      → m.output_boxes ≡ done ++ replicate room (default_box fl)
      → m.valid_box_count ≡ length done
      → fill_boxes fl bs (length done) m
        ≡ with_boxes m (filled done bs room) (length done + min (length bs) room)
  unfolding fill_boxes
  fill_boxes-filled [] done zero m full boxes count = same_boxes m boxes (omega (arith, count))
  fill_boxes-filled [] done (suc room) m full boxes count =
      let whole : suc room ≡ suc room - 0 = omega arith in
      let boxes' = boxes ∙ ap (λ k. done ++ replicate k (default_box fl)) whole in
      same_boxes m boxes' (omega (arith, count))
  fill_boxes-filled (b ∷ bs) done zero m full boxes count =
      let none_left : 0 ≡ 0 - suc (length bs) = omega arith in
      let boxes' = boxes ∙ ap (λ k. done ++ replicate k (default_box fl)) none_left in
      if_elim
        (λ r. r ≡ with_boxes m (filled done (b ∷ bs) 0) (length done + min (suc (length bs)) 0))
        (ltb (length done) max_boxes) (λ e. absurd (ground (arith, e, full)))
        (λ e. same_boxes m boxes' (omega (arith, count)))
  fill_boxes-filled (b ∷ bs) done (suc room) m full boxes count =
      let d = default_box fl in
      let i = length done in
      let long : length (done ++ b ∷ []) ≡ i + 1 = length-append done (b ∷ []) in
      let m' = with_boxes m (set m.output_boxes i b) ((m.valid_box_count + 1) % 2 ^ 32) in
      let put : set m.output_boxes i b ≡ (done ++ b ∷ []) ++ replicate room d =
        ap (λ x. set x i b) boxes
        ∙ set-append done d b (replicate room d)
        ∙ sym (append_assoc done (b ∷ []) (replicate room d)) in
      let counted : (m.valid_box_count + 1) % 2 ^ 32 ≡ length (done ++ b ∷ []) =
        omega (arith, count, long, full) in
      let step =
        fill_boxes-filled bs (done ++ b ∷ []) room m' (omega (arith, long, full)) put counted in
      let left : room - length bs ≡ suc room - suc (length bs) = omega arith in
      let rest =
        append_assoc done (b ∷ []) (take room bs ++ replicate (room - length bs) d)
        ∙ ap (λ k. done ++ (b ∷ (take room bs ++ replicate k d))) left in
      if_elim
        (λ r.
          r ≡ with_boxes m (filled done (b ∷ bs) (suc room)) (i + min (suc (length bs)) (suc room)))
        (ltb i max_boxes)
        (λ e.
          ap (λ k. fill_boxes fl bs k m') (sym long)
          ∙ step
          ∙ same_boxes m rest (omega (arith, long)))
        (λ e. absurd (ground (arith, e, full)))

  -- The message with the results names the first 64 of the boxes, in order, and behind them, up to 64,
  -- default boxes; its count is that of the boxes, or 64 if there are more.
  pub results_msg-take :
      (name : List ℕ) (boxes : List (ObjDetectOutputBox fl)) (frame : ImageView) (slot : ℕ)
      → ((results_msg fl name boxes frame slot).output_boxes
          ≡ take 64 boxes ++ replicate (64 - length boxes) (default_box fl))
        × ((results_msg fl name boxes frame slot).valid_box_count ≡ min (length boxes) 64)
  unfolding results_msg
  results_msg-take name boxes frame slot =
      let e = fill_boxes-filled boxes [] 64 _ refl refl refl in
      (ap (λ m. m.output_boxes) e, ap (λ m. m.valid_box_count) e ∙ omega arith)
