-- ===== src/Yolo/Tests.antt =====
-- Runs of the post-processing with numbers for `float`, and with a sort that moves nothing.
use mathlib.Core.List.Perm
use posix_bsp_perf.Prelude.{
  map, ℕ, ◌+◌, ◌-◌, ◌*◌, ◌/◌, ◌≡◌, ◌⊎◌, refl, sym, ap, ◌∙◌, ◌≤◌, ◌<◌, ◌||◌, true, false, Option,
  none, some, inl, List, [], ◌∷◌, ◌++◌, ltb, leb, replicate, if◌then◌else◌, get_or, set, each,
  arith,
}
use posix_bsp_perf.Yolo.{
  Floats, Candidates, IsFit, int32, calculate_overlap, bbox, overlaps, index_at, suppress_at,
  suppress_from, nms_at, nms_from, nms, nms_classes,
}
use posix_bsp_perf.Yolo.Nms.{Clash, nms-Clash}
use posix_bsp_perf.Yolo.Classes.{Behind, nms_classes-overlaps}
use posix_bsp_perf.Yolo.Decode.{
  ObjDetectParams, Plane, byte_at, offset_of, box_confidence, plane_of, deqaunt_affine_to_fp32,
  qaunt_fp32_to_affine, thres_i8, max_class_from, max_class, decode_box, is_passed_over,
  decode_cell, decode_cells, do_process,
}
use posix_bsp_perf.Yolo.Grid.{FitsInt}
use posix_bsp_perf.Yolo.Peak.{max_class-byte_at, is_passed_over-thres_i8}
use posix_bsp_perf.Yolo.Kept.{Covered, found, found_of, kept-Behind, kept-overlaps}
use posix_bsp_perf.Yolo.Order.{Differ, pairs_of}
use posix_bsp_perf.Yolo.Report.{reported, run_post_process-survivors}
use posix_bsp_perf.Yolo.Run.{
  candidates, process_from, process_all, inverse_sort_with_indices, sorted, kept, run_post_process,
}

abbrev naturals : Floats
naturals = record {
  Float = ℕ;
  nought = 0;
  half = 0;
  one = 1;
  two = 2;
  add = λ a b. a + b;
  sub = λ a b. a - b;
  mul = λ a b. a * b;
  div = λ a b. a / b;
  gt = λ a b. ltb b a;
  le = λ a b. leb a b;
  fmin = λ a b. if ltb a b then a else b;
  fmax = λ a b. if ltb a b then b else a;
  of_int8 = λ a. a - 128;
  of_int32 = λ a. a - 2147483648;
  to_int32 = λ a. a + 2147483648;
  is_invalid = λ a. false;
}

-- Three equal boxes, of which the second is of another class.
abbrev three : Candidates naturals
three = record {
  valid_count = 3;
  filter_boxes = 0 ∷ 0 ∷ 9 ∷ 9 ∷ 0 ∷ 0 ∷ 9 ∷ 9 ∷ 0 ∷ 0 ∷ 9 ∷ 9 ∷ [];
  class_ids = 7 ∷ 5 ∷ 7 ∷ [];
  threshold = 0;
}

abbrev backwards : List (Option ℕ)
backwards = some 2 ∷ some 1 ∷ some 0 ∷ []

three-IsFit : IsFit naturals three backwards
three-IsFit = record {
  some_box = omega arith;
  boxes = omega arith;
  classes = omega arith;
  long = omega arith;
}

nms_run : nms naturals three 7 backwards ≡ (true, some 2 ∷ some 1 ∷ none ∷ [])
unfolding nms nms_from nms_at suppress_from suppress_at overlaps calculate_overlap bbox get_or set
nms_run = refl

nms_classes_run : nms_classes naturals three (5 ∷ 7 ∷ []) backwards ≡ some 2 ∷ some 1 ∷ none ∷ []
unfolding nms_classes nms nms_from nms_at suppress_from suppress_at overlaps calculate_overlap bbox
    get_or set
nms_classes_run = refl

nms-Clash_run :
    (index_at (nms naturals three 7 backwards).1 2 ≡ some 0)
    ⊎ ((index_at (nms naturals three 7 backwards).1 2 ≡ none)
        × ((a : ℕ) × (n : ℕ) × Clash naturals three 7 (nms naturals three 7 backwards).1 a 2 n 0))
unfolding get_or
nms-Clash_run = nms-Clash naturals three 7 backwards 2 0 three-IsFit refl

-- The boxes do not overlap at all.
abbrev apart : Candidates naturals
apart = record {
  valid_count = 2;
  filter_boxes = 0 ∷ 0 ∷ 9 ∷ 9 ∷ 50 ∷ 50 ∷ 9 ∷ 9 ∷ [];
  class_ids = 7 ∷ 7 ∷ [];
  threshold = 0;
}

nms_classes-overlaps_run : overlaps naturals apart 0 1 ≡ false
unfolding nms_classes nms nms_from nms_at suppress_from suppress_at overlaps calculate_overlap bbox
    get_or set
nms_classes-overlaps_run =
    nms_classes-overlaps naturals apart (7 ∷ []) 7 (some 0 ∷ some 1 ∷ []) 0 1 0 1
      record {
        some_box = omega arith;
        boxes = omega arith;
        classes = omega arith;
        long = omega arith;
      }
      (inl refl) (omega arith) (omega arith) refl refl refl refl

-- An output for a grid of one cell: per layer the box, its confidence and a byte for each class.
abbrev layer : ℕ → ℕ → List ℕ
layer x confidence = x ∷ 129 ∷ 129 ∷ 129 ∷ confidence ∷ replicate 3 128 ++ 150 ∷ replicate 76 128

abbrev one_cell : List ℕ
one_cell = layer 128 201 ++ layer 228 200 ++ replicate 85 128

abbrev params : ObjDetectParams naturals
params = record {
  model_input_width = 8;
  model_input_height = 8;
  conf_threshold = 10;
  nms_threshold = 0;
  scale_width = 1;
  scale_height = 1;
  pads = record { left = int32 0; top = int32 0; right = int32 0; bottom = int32 0 };
  quantize_zero_points = int32 0 ∷ [];
  quantize_scales = 1 ∷ [];
}

abbrev plane : Plane naturals
plane = plane_of naturals 0 params 8 one_cell

one_cell-FitsInt : FitsInt naturals 8 params
one_cell-FitsInt = omega arith

one_cell-Covered : Covered naturals params (one_cell ∷ [])
one_cell-Covered = record {
  anchors = omega arith;
  zero_points = omega arith;
  scales = omega arith;
  small = λ i h. let first : i ≡ 0 = omega (arith, h) in rw (first) one_cell-FitsInt;
}

max_class_run : max_class naturals plane 0 ≡ (3, 150)
unfolding max_class max_class_from get_or
max_class_run = refl

process_all_run :
    process_all naturals params (one_cell ∷ [])
    ≡ some (
      record {
        bboxes = 0 ∷ 0 ∷ 40 ∷ 52 ∷ 1568 ∷ 0 ∷ 64 ∷ 120 ∷ [];
        obj_scores = 1606 ∷ 1584 ∷ [];
        class_id = 3 ∷ 3 ∷ [];
        valid_count = 2;
      },
      2,
    )
unfolding process_all process_from do_process decode_cells decode_cell decode_box is_passed_over
    max_class max_class_from thres_i8 qaunt_fp32_to_affine deqaunt_affine_to_fp32 get_or each
process_all_run = refl

max_class-byte_at_run :
    ((max_class naturals plane (offset_of naturals plane 1 0 0)).1
      ≡ byte_at naturals plane
          (offset_of naturals plane 1 0 0)
          (5 + (max_class naturals plane (offset_of naturals plane 1 0 0)).0))
    × (byte_at naturals plane (offset_of naturals plane 1 0 0) 7
        ≤ (max_class naturals plane (offset_of naturals plane 1 0 0)).1)
    × (((max_class naturals plane (offset_of naturals plane 1 0 0)).0 ≤ 2)
        ⊎ (byte_at naturals plane (offset_of naturals plane 1 0 0) 7
            < (max_class naturals plane (offset_of naturals plane 1 0 0)).1))
max_class-byte_at_run =
    max_class-byte_at naturals plane 1 0 0 2 (omega arith) (omega arith) (omega arith) (omega arith)
      (omega arith)

is_passed_over-thres_i8_run : is_passed_over naturals plane 2 0 0 ≡ (
    ltb (box_confidence naturals plane 2 0 0) (thres_i8 naturals plane)
    || leb (max_class naturals plane (offset_of naturals plane 2 0 0)).1 (thres_i8 naturals plane))
is_passed_over-thres_i8_run =
    is_passed_over-thres_i8 naturals plane 2 0 0 (omega arith) (omega arith) (omega arith)
      (omega arith)

abbrev as_is : List (ℕ × ℕ) → List (ℕ × ℕ)
as_is xs = xs

sorted_run : (sorted naturals as_is (found naturals params (one_cell ∷ []))).1 ≡ 0 ∷ 1 ∷ []
unfolding sorted inverse_sort_with_indices process_all process_from do_process decode_cells
    decode_cell decode_box is_passed_over max_class max_class_from thres_i8 qaunt_fp32_to_affine
    deqaunt_affine_to_fp32 get_or each
sorted_run = refl

kept_run : kept naturals as_is params (found naturals params (one_cell ∷ [])) ≡ some 0 ∷ some 1 ∷ []
unfolding kept nms_classes nms nms_from nms_at suppress_from suppress_at overlaps calculate_overlap
    bbox set sorted inverse_sort_with_indices process_all process_from do_process decode_cells
    decode_cell decode_box is_passed_over max_class max_class_from thres_i8 qaunt_fp32_to_affine
    deqaunt_affine_to_fp32 get_or each
kept_run = refl

scores-Differ : Differ naturals (pairs_of naturals (found naturals params (one_cell ∷ [])))
unfolding process_all process_from do_process decode_cells decode_cell decode_box is_passed_over
    max_class max_class_from thres_i8 qaunt_fp32_to_affine deqaunt_affine_to_fp32 get_or each
scores-Differ = ((refl, tt), (tt, tt))

kept-overlaps_run :
    overlaps naturals (candidates naturals params (found naturals params (one_cell ∷ []))) 0 1
    ≡ false
unfolding get_or
kept-overlaps_run =
    kept-overlaps naturals as_is (λ xs h. Perm.refl xs) params (one_cell ∷ []) 0 1 0 1 scores-Differ
      (omega arith) (omega (arith, ap (λ o. (found_of naturals o).1) process_all_run))
      (ap (λ o. index_at o 0) kept_run) (ap (λ o. index_at o 1) kept_run)
      (ap (λ o. get_or (found_of naturals o).0.class_id 0 0) process_all_run
        ∙ sym (ap (λ o. get_or (found_of naturals o).0.class_id 1 0) process_all_run))

run_post_process-survivors_example :
    (process_all naturals params (one_cell ∷ []) ≡ some (found naturals params (one_cell ∷ [])))
    × (run_post_process naturals as_is ((97 ∷ []) ∷ []) params (one_cell ∷ []) []
        ≡ some (
          true,
          reported naturals as_is ((97 ∷ []) ∷ []) params (found naturals params (one_cell ∷ [])),
        ))
run_post_process-survivors_example =
    run_post_process-survivors naturals as_is ((97 ∷ []) ∷ []) params (λ xs h. Perm.refl xs)
      (one_cell ∷ []) [] one_cell-Covered scores-Differ

kept-Behind_example :
    (process_all naturals params (one_cell ∷ []) ≡ some (found naturals params (one_cell ∷ [])))
    × ((index_at (kept naturals as_is params (found naturals params (one_cell ∷ []))) 1 ≡ some 1)
        ⊎ ((a : ℕ) × (n : ℕ) × Behind naturals
              (candidates naturals params (found naturals params (one_cell ∷ [])))
              (kept naturals as_is params (found naturals params (one_cell ∷ [])))
              a
              1
              n
              1))
unfolding get_or
kept-Behind_example =
    kept-Behind naturals as_is (λ xs h. Perm.refl xs) params (one_cell ∷ []) 1 1 one_cell-Covered
      scores-Differ (ap (λ o. index_at (map some o) 1) sorted_run)
