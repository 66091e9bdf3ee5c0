-- ===== src/Yolo/Report.antt =====
-- What YoloPostProcess::runPostProcess reports, whatever the network puts out.
use mathlib.Core.List.{Perm}
use posix_bsp_perf.Prelude.{
  ℕ, zero, suc, ◌+◌, ◌-◌, ◌*◌, ◌≤◌, ◌<◌, ◌≡◌, inl, inr, refl, sym, ap, ◌∙◌, Bool, true, not, ◌||◌,
  Option, none, some, List, [], ◌∷◌, ◌++◌, map, ltb, leb, ◌==◌, if_elim, length, append-nil,
  append_assoc, Bool-cases, ltb→lt, ltb→le, get_or, take, take_all, drop, arith,
}
use posix_bsp_perf.Yolo.{Floats, index_at}
use posix_bsp_perf.Yolo.Decode.{ObjDetectParams, Found}
use posix_bsp_perf.Yolo.Run.{
  max_obj_num, process_all, sorted, kept, ObjDetectOutputBox, output_box, report, report_found,
  run_post_process, process_from, nothing_found,
}
use posix_bsp_perf.Yolo.Kept.{Total, Covered, found, found-Total, process_all-found, kept-below}
use posix_bsp_perf.Yolo.Order.{Differ, pairs_of}

index_at-take :
    (n b m : ℕ) (order : List (Option ℕ))
    → index_at (take n order) b ≡ some m
    → index_at order b ≡ some m
unfolding get_or
index_at-take zero b m order e = absurd (cc)
index_at-take (suc n) b m [] e = e
index_at-take (suc n) zero m (x ∷ order) e = e
index_at-take (suc n) (suc b) m (x ∷ order) e = index_at-take n b m order e

module _ (fl : Floats) (sort_pairs : List (fl.Float × ℕ) → List (fl.Float × ℕ)) where
  module _ (label_map : List (List ℕ)) (params : ObjDetectParams fl) where
    -- The boxes that are left, each with the score in its place.
    abbrev pub survivors : List (Option ℕ) → List fl.Float → List (ℕ × fl.Float)
    survivors [] scores = []
    survivors (none ∷ order) scores = survivors order (drop 1 scores)
    survivors (some n ∷ order) scores =
        (n, get_or scores 0 fl.nought) ∷ survivors order (drop 1 scores)

    unfoldable pub box_of : Found fl × ℕ → ℕ × fl.Float → ObjDetectOutputBox fl
    box_of s x = output_box fl sort_pairs label_map params s.0 x.0 x.1

    -- `count` boxes have been reported.
    report_full :
        (s : Found fl × ℕ) (count n : ℕ) (order : List (Option ℕ)) (scores : List fl.Float)
        (output_data : List (ObjDetectOutputBox fl))
        → max_obj_num ≤ count
        → report fl sort_pairs label_map params s count (some n ∷ order) scores output_data
          ≡ report fl sort_pairs label_map params s count order (drop 1 scores) output_data
    unfolding report
    report_full s count n order scores output_data h = ground arith

    report_free :
        (s : Found fl × ℕ) (count n : ℕ) (order : List (Option ℕ)) (scores : List fl.Float)
        (output_data : List (ObjDetectOutputBox fl))
        → count < max_obj_num
        → n < s.1
        → n * 4 + 3 < length s.0.bboxes
        → report fl sort_pairs label_map params s count (some n ∷ order) scores output_data
          ≡ report fl sort_pairs label_map params s
              (suc count)
              order
              (drop 1 scores)
              (output_data ++ box_of s (n, get_or scores 0 fl.nought) ∷ [])
    unfolding report box_of
    report_free s count n order scores output_data h h' h'' = ground arith

    report-survivors :
        (s : Found fl × ℕ) (count : ℕ) (order : List (Option ℕ)) (scores : List fl.Float)
        (output_data : List (ObjDetectOutputBox fl))
        → s.1 * 4 ≤ length s.0.bboxes
        → ((b m : ℕ) → index_at order b ≡ some m → m < s.1)
        → report fl sort_pairs label_map params s count order scores output_data
          ≡ output_data ++ map (box_of s) (take (max_obj_num - count) (survivors order scores))
    unfolding report get_or
    report-survivors s count [] scores output_data h k =
        sym (append-nil output_data)
        ∙ ap (λ xs. output_data ++ map (box_of s) xs)
            (sym (take_all [] (max_obj_num - count) (omega arith)))
    report-survivors s count (none ∷ order) scores output_data h k =
        report-survivors s count order (drop 1 scores) output_data h (λ b m e. k (suc b) m e)
    report-survivors s count (some n ∷ order) scores output_data h k =
        let rest = survivors order (drop 1 scores) in
        let score = get_or scores 0 fl.nought in
        let below = k 0 n refl in
        elim (Bool-cases (ltb count max_obj_num)) [
          | inl free ↦
              let slot : max_obj_num - count ≡ suc (max_obj_num - suc count) =
                omega (arith, ltb→lt count max_obj_num free) in
              let box = box_of s (n, score) in
              report_free s count n order scores output_data (ltb→lt count max_obj_num free) below
                (omega (arith, below, h))
              ∙ report-survivors s (suc count) order (drop 1 scores) (output_data ++ box ∷ []) h
                  (λ b m e. k (suc b) m e)
              ∙ append_assoc output_data (box ∷ []) _
              ∙ ap (λ x. output_data ++ map (box_of s) (take x ((n, score) ∷ rest))) (sym slot)
          | inr full ↦
              let none_left : max_obj_num - count ≡ 0 =
                omega (arith, ltb→le count max_obj_num full) in
              report_full s count n order scores output_data (ltb→le count max_obj_num full)
              ∙ report-survivors s count order (drop 1 scores) output_data h
                  (λ b m e. k (suc b) m e)
              ∙ ap (λ x. output_data ++ map (box_of s) (take x rest)) none_left
              ∙ ap (λ x. output_data ++ map (box_of s) (take x ((n, score) ∷ rest))) (sym none_left)
        ]

    -- What `runPostProcess` adds to the output.
    abbrev pub reported : Found fl × ℕ → List (ObjDetectOutputBox fl)
    reported s = map (box_of s) (
        take max_obj_num
          (survivors (take s.1 (kept fl sort_pairs params s)) (sorted fl sort_pairs s).0))

    none_reported :
        (s : Found fl × ℕ) (output_data : List (ObjDetectOutputBox fl))
        → s.1 ≤ 0
        → output_data ≡ output_data ++ reported s
    none_reported s output_data h =
        let empty : s.1 ≡ 0 = omega arith in
        sym (append-nil output_data)
        ∙ ap
            (λ n.
              output_data
              ++ map (box_of s) (
                  take max_obj_num
                    (survivors (take n (kept fl sort_pairs params s)) (sorted fl sort_pairs s).0)))
            (sym empty)

    module _ (permutes : (xs : List (fl.Float × ℕ)) → Differ fl xs → Perm (sort_pairs xs) xs) where
      some_reported :
          (s : Found fl × ℕ) (output_data : List (ObjDetectOutputBox fl))
          → Total fl s
          → Differ fl (pairs_of fl s)
          → 0 < s.1
          → report fl sort_pairs label_map params s 0
              (take s.1 (kept fl sort_pairs params s))
              (sorted fl sort_pairs s).0
              output_data
            ≡ output_data ++ reported s
      some_reported s output_data t apart h =
          report-survivors s 0 (take s.1 (kept fl sort_pairs params s)) (sorted fl sort_pairs s).0
            output_data (omega (arith, t.boxes))
            (λ b m e.
              kept-below fl sort_pairs permutes params s b m t apart h
                (index_at-take s.1 b m (kept fl sort_pairs params s) e))

      report_found-survivors :
          (s : Found fl × ℕ) (output_data : List (ObjDetectOutputBox fl))
          → Total fl s
          → Differ fl (pairs_of fl s)
          → report_found fl sort_pairs label_map params s output_data
            ≡ (true, output_data ++ reported s)
      unfolding report_found
      report_found-survivors s output_data t apart =
          let IsDone =
            λ (r : Bool × List (ObjDetectOutputBox fl)). r ≡ (true, output_data ++ reported s) in
          if_elim IsDone (leb s.1 0)
            (λ e'. ap (λ xs. (true, xs)) (none_reported s output_data (ground (arith, e'))))
            (λ e'.
              if_elim IsDone
                (not (length s.0.obj_scores == s.1)
                  || (not (length s.0.class_id == s.1) || not (length s.0.bboxes == s.1 * 4)))
                (λ f. absurd (ground (arith, f, t.scores, t.classes, t.boxes)))
                (λ f.
                  ap (λ xs. (true, xs)) (some_reported s output_data t apart (ground (arith, e')))))

      -- The outputs have what doProcess reads, with grids whose indices fit `int`, no two boxes found have
      -- the same score, and the sort permutes pairs with different scores. Then `runPostProcess` reports
      -- success, and adds to the output the boxes that are left, in order and each with its score, up
      -- to 64 of them.
      pub run_post_process-survivors :
          (input_data : List (List ℕ)) (output_data : List (ObjDetectOutputBox fl))
          → Covered fl params input_data
          → Differ fl (pairs_of fl (found fl params input_data))
          → (process_all fl params input_data ≡ some (found fl params input_data))
            × (run_post_process fl sort_pairs label_map params input_data output_data
                ≡ some (true, output_data ++ reported (found fl params input_data)))
      unfolding run_post_process process_all process_from
      run_post_process-survivors [] output_data covered apart = (
        refl,
        ap (λ xs. some (true, xs)) (none_reported (nothing_found fl, 0) output_data (omega arith)),
      )
      run_post_process-survivors (input_buf ∷ rest) output_data covered apart =
          let input_data = input_buf ∷ rest in
          let ran = process_all-found fl params input_data covered in
          let s = found fl params input_data in
          (
            ran,
            rw (ran, run_post_process)
                (ap some
                  (report_found-survivors s output_data (found-Total fl params input_data) apart)),
          )
