-- ===== src/Yolo/Run.antt =====
-- YoloPostProcess::runPostProcess: from the outputs of the network to the boxes that it reports.
-- `std::sort` is a parameter; it is called with `>=`, so what is assumed of it is for scores that differ.
-- Exceptions of the containers are left out. No call of `doProcess` gives a negative number, so that
-- test is left out. `none` is a fault in `doProcess`.
use posix_bsp_perf.Prelude.{
  ℕ, zero, suc, ◌+◌, ◌*◌, ◌^◌, Bool, true, false, not, ◌||◌, Option, none, some, List, [], ◌∷◌,
  ◌++◌, map, ltb, leb, ◌==◌, if◌then◌else◌, length, get_elem?, get_or, take, drop,
}
use posix_bsp_perf.Yolo.{Floats, BboxRect, Candidates, int32, nms_classes}
use posix_bsp_perf.Yolo.Decode.{basic_stride, ObjDetectParams, Found, do_process}

abbrev pub max_obj_num : ℕ
max_obj_num = 64

-- `std::iota`
abbrev pub iota_from : ℕ → ℕ → List ℕ
iota_from zero i = []
iota_from (suc rounds) i = i ∷ iota_from rounds (suc i)

-- Insertion in a `std::set`: in ascending order and without repetition.
abbrev pub set_insert : ℕ → List ℕ → List ℕ
set_insert k [] = k ∷ []
set_insert k (x ∷ xs) =
    let rest = set_insert k xs in
    if ltb k x then k ∷ x ∷ xs else if k == x then x ∷ xs else x ∷ rest

abbrev pub class_set : List ℕ → List ℕ
class_set [] = []
class_set (x ∷ xs) = set_insert x (class_set xs)

abbrev pub any {ℓ} : {A : Type ℓ} → (A → Bool) → List A → Bool
any f [] = false
any f (x ∷ xs) = f x || any f xs

abbrev pub zip {ℓ κ} : {A : Type ℓ} {B : Type κ} → List A → List B → List (A × B)
zip [] ys = []
zip (x ∷ xs) [] = []
zip (x ∷ xs) (y ∷ ys) = (x, y) ∷ zip xs ys

module _ (fl : Floats) where
  open fl use {Float, nought, add, sub, div, gt, of_int32, to_int32, is_invalid}

  pub record ObjDetectOutputBox : Type 0 where
    pub bbox : BboxRect ℕ
    pub score : Float
    pub label : List ℕ

  abbrev pub unknown : List ℕ
  unknown = 117 ∷ 110 ∷ 107 ∷ 110 ∷ 111 ∷ 119 ∷ 110 ∷ []

  -- `clamp(val, 0, max)`
  unfoldable pub clamp : Float → ℕ → ℕ
  clamp val max =
      let bottom = of_int32 (int32 0) in
      let top = of_int32 (int32 max) in
      if gt val bottom then if gt top val then to_int32 val else int32 max else int32 0

  -- The loop over the outputs.
  unfoldable pub process_from :
      ObjDetectParams fl → ℕ → List (List ℕ) → Found fl × ℕ → Option (Found fl × ℕ)
  unfolding do_process
  process_from params i [] s = some s
  process_from params i (input_buf ∷ rest) s =
      elim (do_process fl i params (basic_stride * 2 ^ i) input_buf s.0) [
        | none ↦ none
        | some f ↦ process_from params (suc i) rest (f, s.1 + f.valid_count)
      ]

  abbrev pub nothing_found : Found fl
  nothing_found = record { bboxes = []; obj_scores = []; class_id = []; valid_count = 0 }

  unfoldable pub process_all : ObjDetectParams fl → List (List ℕ) → Option (Found fl × ℕ)
  unfolding process_from
  process_all params input_data = process_from params 0 input_data (nothing_found, 0)

  abbrev pub candidates : ObjDetectParams fl → Found fl × ℕ → Candidates fl
  candidates params s = record {
    valid_count = s.1;
    filter_boxes = s.0.bboxes;
    class_ids = s.0.class_id;
    threshold = params.nms_threshold;
  }

  module _ (sort_pairs : List (Float × ℕ) → List (Float × ℕ)) where
    unfoldable pub inverse_sort_with_indices : List Float → List ℕ → List Float × List ℕ
    inverse_sort_with_indices input indices =
        let pairs = sort_pairs (zip input indices) in
        if leb (length input) 0 || leb (length indices) 0
        then (input, indices)
        else if not (length input == length indices)
        then (input, indices)
        else if any is_invalid input
        then (input, indices)
        else (map (λ x. x.0) pairs, map (λ x. x.1) pairs)

    unfoldable pub sorted : Found fl × ℕ → List Float × List ℕ
    unfolding inverse_sort_with_indices
    sorted s = inverse_sort_with_indices s.0.obj_scores (iota_from s.1 0)

    -- `indexArray` after the loop over the classes.
    unfoldable pub kept : ObjDetectParams fl → Found fl × ℕ → List (Option ℕ)
    unfolding sorted nms_classes
    kept params s =
        nms_classes fl (candidates params s) (class_set s.0.class_id) (map some (sorted s).1)

    module _ (label_map : List (List ℕ)) (params : ObjDetectParams fl) where
      unfoldable pub label_of : List ℕ → ℕ → List ℕ
      label_of class_id n = elim (get_elem? class_id n) [
        | none ↦ unknown
        | some id ↦ get_or label_map id unknown
      ]

      unfoldable pub output_box : Found fl → ℕ → Float → ObjDetectOutputBox
      unfolding clamp label_of
      output_box f n score =
          let x1 = sub (get_or f.bboxes (n * 4) nought) (of_int32 params.pads.left) in
          let y1 = sub (get_or f.bboxes (n * 4 + 1) nought) (of_int32 params.pads.top) in
          let x2 = add x1 (get_or f.bboxes (n * 4 + 2) nought) in
          let y2 = add y1 (get_or f.bboxes (n * 4 + 3) nought) in
          let wide = λ (x : Float).
            to_int32 (div (of_int32 (clamp x params.model_input_width)) params.scale_width) in
          let high = λ (y : Float).
            to_int32 (div (of_int32 (clamp y params.model_input_height)) params.scale_height) in
          record {
            bbox = record { left = wide x1; top = high y1; right = wide x2; bottom = high y2 };
            score = score;
            label = label_of f.class_id n;
          }

      -- The last loop, over the places of `indexArray` and of the scores beside them.
      unfoldable pub report :
          Found fl × ℕ
          → ℕ
          → List (Option ℕ)
          → List Float
          → List ObjDetectOutputBox
          → List ObjDetectOutputBox
      unfolding output_box
      report s count [] scores output_data = output_data
      report s count (none ∷ order) scores output_data =
          report s count order (drop 1 scores) output_data
      report s count (some n ∷ order) scores output_data =
          let is_skipped =
            leb max_obj_num count || leb s.1 n || leb (length s.0.bboxes) (n * 4 + 3) in
          let count' = if is_skipped then count else suc count in
          let output' =
            if is_skipped
            then output_data
            else output_data ++ output_box s.0 n (get_or scores 0 nought) ∷ [] in
          report s count' order (drop 1 scores) output'

      -- What comes after the outputs. The result is `true` for 0 and `false` for -1.
      unfoldable pub report_found :
          Found fl × ℕ → List ObjDetectOutputBox → Bool × List ObjDetectOutputBox
      unfolding kept report
      report_found s output_data =
          if leb s.1 0
          then (true, output_data)
          else if not (length s.0.obj_scores == s.1)
              || (not (length s.0.class_id == s.1) || not (length s.0.bboxes == s.1 * 4))
          then (false, output_data)
          else (true, report s 0 (take s.1 (kept params s)) (sorted s).0 output_data)

      unfoldable pub run_post_process :
          List (List ℕ) → List ObjDetectOutputBox → Option (Bool × List ObjDetectOutputBox)
      unfolding process_all report_found
      run_post_process [] output_data = some (true, output_data)
      run_post_process (input_buf ∷ rest) output_data =
          elim (process_all params (input_buf ∷ rest)) [
            | none ↦ none
            | some s ↦ some (report_found s output_data)
          ]
