-- ===== src/TrafficCam.antt =====
-- bsp/bsp_dnn/dnnObjDetector_plugins/nvidia/TensorRT/resnet18/Resnet18TrafficCamNet.cpp: the boxes of a
-- DetectNet network. Numbers of type `float` and `int` are held as for YoloPostProcess.cpp; an `int` that
-- overflows, which C++ leaves undefined, wraps around here. `std::sort` is the parameter `sort_boxes`.
pub mod Greedy
pub mod Grid
pub mod Labels
pub mod Marks
pub mod Reads
mod Tests
use posix_bsp_perf.Prelude.{
  ℕ, zero, suc, ◌+◌, ◌-◌, ◌*◌, ◌%◌, ◌^◌, Bool, true, false, not, ◌&&◌, ◌||◌, Option, none, some,
  List, [], ◌∷◌, ◌++◌, ltb, leb, ◌==◌, if◌then◌else◌, length, get_or, set, replicate, each,
}
use posix_bsp_perf.Yolo.{Floats, BboxRect, int32}
use posix_bsp_perf.Yolo.Run.{ObjDetectOutputBox}

abbrev pub sub_int : ℕ → ℕ → ℕ
sub_int a b = (int32 a + 2 ^ 32 - b) % 2 ^ 32

-- A value held as `a` is `a + 2^31` modulo 2^32, too.
abbrev pub mul_int : ℕ → ℕ → ℕ
mul_int a b = int32 (int32 a * int32 b) % 2 ^ 32

abbrev pub max_int : ℕ → ℕ → ℕ
max_int a b = if ltb a b then b else a

abbrev pub min_int : ℕ → ℕ → ℕ
min_int a b = if ltb b a then b else a

-- Equality of the labels.
abbrev pub same_label : List ℕ → List ℕ → Bool
same_label [] [] = true
same_label [] (y ∷ ys) = false
same_label (x ∷ xs) [] = false
same_label (x ∷ xs) (y ∷ ys) = (x == y) && same_label xs ys

module _ (fl : Floats) where
  open fl use {Float, nought, add, sub, mul, div, gt, le, of_int32}

  abbrev pub area : BboxRect ℕ → Float
  area b = of_int32 (mul_int (sub_int b.right b.left) (sub_int b.bottom b.top))

  unfoldable pub calculate_iou : ObjDetectOutputBox fl → ObjDetectOutputBox fl → Float
  calculate_iou box1 box2 =
      let x1 = max_int box1.bbox.left box2.bbox.left in
      let y1 = max_int box1.bbox.top box2.bbox.top in
      let x2 = min_int box1.bbox.right box2.bbox.right in
      let y2 = min_int box1.bbox.bottom box2.bbox.bottom in
      let intersection = area (record { left = x1; top = y1; right = x2; bottom = y2 }) in
      let union_area = sub (add (area box1.bbox) (area box2.bbox)) intersection in
      if ltb x2 x1 || ltb y2 y1
      then nought
      else if le union_area nought
      then nought
      else div intersection union_area

  -- `boxes[i]`; the loops stay in range.
  abbrev pub no_box : ObjDetectOutputBox fl
  no_box = record {
    bbox = record { left = int32 0; top = int32 0; right = int32 0; bottom = int32 0 };
    score = nought;
    label = [];
  }

  -- What `suppressed` and `result` hold.
  pub record Nms : Type 0 where
    pub suppressed : List Bool
    pub result : List (ObjDetectOutputBox fl)

  module _ (nms_threshold : Float) where
    -- A box that was kept rules another one out.
    unfoldable pub rules_out : ObjDetectOutputBox fl → ObjDetectOutputBox fl → Bool
    unfolding calculate_iou
    rules_out a b = same_label a.label b.label && gt (calculate_iou a b) nms_threshold

    module _ (boxes : List (ObjDetectOutputBox fl)) where
      unfoldable pub suppress_at : ℕ → ℕ → List Bool → List Bool
      unfolding get_or set rules_out
      suppress_at i j suppressed =
          if get_or suppressed j false
          then suppressed
          else if rules_out (get_or boxes i no_box) (get_or boxes j no_box)
          then set suppressed j true
          else suppressed

      unfoldable pub nms_at : ℕ → Nms → Nms
      unfolding suppress_at each get_or
      nms_at i s = if get_or s.suppressed i false then s else record {
        result = s.result ++ get_or boxes i no_box ∷ [];
        suppressed = each (length boxes - suc i) (suc i) (suppress_at i) s.suppressed;
      }

      unfoldable pub nms_all : List (ObjDetectOutputBox fl)
      unfolding nms_at each
      nms_all =
          (each (length boxes) 0 nms_at
            (record { result = []; suppressed = replicate (length boxes) false })).result

    unfoldable pub apply_nms :
        (List (ObjDetectOutputBox fl) → List (ObjDetectOutputBox fl))
        → List (ObjDetectOutputBox fl)
        → List (ObjDetectOutputBox fl)
    unfolding nms_all
    apply_nms sort_boxes [] = []
    apply_nms sort_boxes (b ∷ bs) = nms_all (sort_boxes (b ∷ bs))
