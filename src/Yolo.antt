-- ===== src/Yolo.antt =====
-- bsp/bsp_dnn/dnnObjDetector_plugins/rknn/yolo/common/YoloPostProcess.cpp. Numbers of type `float`
-- enter by a record of the operations that the code uses; no law of them is assumed. An index of a
-- box that was suppressed is -1 in the code and `none` here. Boxes are numbered, and box `n` takes
-- the elements 4 n to 4 n + 3 of the vector of boxes.
pub mod Classes
pub mod Decode
pub mod Grid
pub mod Kept
pub mod Nms
pub mod Order
pub mod Peak
pub mod Report
pub mod Run
pub mod Suppress
mod Tests
use posix_bsp_perf.Prelude.{
  ℕ, zero, suc, ◌+◌, ◌-◌, ◌*◌, ◌≤◌, ◌<◌, Bool, true, false, not, ◌&&◌, ◌||◌, Option, none, some,
  List, [], ◌∷◌, ◌++◌, ltb, leb, ◌==◌, if◌then◌else◌, length, get_or, set,
}

-- A value of type `int` is held as the value plus 2^31, and one of type `int8_t` as the value plus
-- 128, so that the order of the values is that of the numbers.
abbrev pub int32 : ℕ → ℕ
int32 n = n + 2147483648

-- The operations on numbers that the code uses; `gt a b` is `a > b`
-- and `le a b` is `a <= b`, and `is_invalid` tells NaN and the infinities. The code mixes float and double:
-- the conversions between them are not written, and whatever is proved holds for any operations.
pub record Floats : Type 1 where
  pub Float : Type 0
  pub nought : Float
  pub half : Float
  pub one : Float
  pub two : Float
  pub add : Float → Float → Float
  pub sub : Float → Float → Float
  pub mul : Float → Float → Float
  pub div : Float → Float → Float
  pub gt : Float → Float → Bool
  pub le : Float → Float → Bool
  pub fmin : Float → Float → Float
  pub fmax : Float → Float → Float
  pub of_int8 : ℕ → Float
  pub of_int32 : ℕ → Float
  pub to_int32 : Float → ℕ
  pub is_invalid : Float → Bool

pub record BboxRect (T : Type 0) : Type 0 where
  pub left : T
  pub top : T
  pub right : T
  pub bottom : T

-- The order of the boxes; `none` stands for -1.
abbrev pub index_at : List (Option ℕ) → ℕ → Option ℕ
index_at order i = get_or order i none

module _ (fl : Floats) where
  open fl use {Float, nought, one, add, sub, mul, div, gt, le, fmin, fmax}

  unfoldable pub calculate_overlap : BboxRect Float → BboxRect Float → Float
  calculate_overlap a b =
      let w = fmax nought (add (sub (fmin a.right b.right) (fmax a.left b.left)) one) in
      let h = fmax nought (add (sub (fmin a.bottom b.bottom) (fmax a.top b.top)) one) in
      let i = mul w h in
      let area_a = mul (add (sub a.right a.left) one) (add (sub a.bottom a.top) one) in
      let area_b = mul (add (sub b.right b.left) one) (add (sub b.bottom b.top) one) in
      let u = sub (add area_a area_b) i in if le u nought then nought else div i u

  -- `filterBoxes[n * 4 + k]`
  abbrev pub box_at : List Float → ℕ → ℕ → Float
  box_at filter_boxes n k = get_or filter_boxes (n * 4 + k) nought

  unfoldable pub bbox : List Float → ℕ → BboxRect Float
  bbox filter_boxes n = record {
    left = box_at filter_boxes n 0;
    top = box_at filter_boxes n 1;
    right = add (box_at filter_boxes n 0) (box_at filter_boxes n 2);
    bottom = add (box_at filter_boxes n 1) (box_at filter_boxes n 3);
  }

  -- The arguments of `nms` that stay the same for all classes.
  pub record Candidates : Type 0 where
    pub valid_count : ℕ
    pub filter_boxes : List Float
    pub class_ids : List ℕ
    pub threshold : Float

  module _ (c : Candidates) where
    abbrev pub class_of : ℕ → ℕ
    class_of n = get_or c.class_ids n 0

    -- `n >= validCount || classIds[n] != filterId`
    abbrev pub is_skipped : ℕ → ℕ → Bool
    is_skipped filter_id n = leb c.valid_count n || not (class_of n == filter_id)

    abbrev pub is_outside : ℕ → Bool
    is_outside n = leb (length c.filter_boxes) (n * 4 + 3)

    unfoldable pub overlaps : ℕ → ℕ → Bool
    unfolding calculate_overlap bbox
    overlaps n m =
        gt (calculate_overlap (bbox c.filter_boxes n) (bbox c.filter_boxes m)) c.threshold

    -- A round of the inner loop.
    unfoldable pub suppress_at : ℕ → ℕ → ℕ → List (Option ℕ) → List (Option ℕ)
    suppress_at filter_id n j order = elim (index_at order j) [
      | none ↦ order
      | some m ↦
          if is_skipped filter_id m
          then order
          else if is_outside n || is_outside m
          then order
          else if overlaps n m
          then set order j none
          else order
    ]

    -- The inner loop, from `j` on, with its rounds left.
    unfoldable pub suppress_from : ℕ → ℕ → ℕ → ℕ → List (Option ℕ) → List (Option ℕ)
    unfolding suppress_at
    suppress_from zero filter_id n j order = order
    suppress_from (suc rounds) filter_id n j order =
        suppress_from rounds filter_id n (suc j) (suppress_at filter_id n j order)

    -- A round of the outer loop.
    unfoldable pub nms_at : ℕ → ℕ → List (Option ℕ) → List (Option ℕ)
    unfolding suppress_from
    nms_at filter_id i order = elim (index_at order i) [
      | none ↦ order
      | some n ↦
          if is_skipped filter_id n
          then order
          else suppress_from (c.valid_count - suc i) filter_id n (suc i) order
    ]

    unfoldable pub nms_from : ℕ → ℕ → ℕ → List (Option ℕ) → List (Option ℕ)
    unfolding nms_at
    nms_from zero filter_id i order = order
    nms_from (suc rounds) filter_id i order =
        nms_from rounds filter_id (suc i) (nms_at filter_id i order)

    -- The result is `true` for 0 and `false` for -1.
    unfoldable pub nms : ℕ → List (Option ℕ) → Bool × List (Option ℕ)
    unfolding nms_from
    nms filter_id order =
        if leb c.valid_count 0
        then (false, order)
        else if ltb (length c.filter_boxes) (c.valid_count * 4)
        then (false, order)
        else if ltb (length c.class_ids) c.valid_count
        then (false, order)
        else if ltb (length order) c.valid_count
        then (false, order)
        else (true, nms_from c.valid_count filter_id 0 order)

    -- The lengths that `nms` asks for.
    pub record IsFit (order : List (Option ℕ)) : Type 0 where
      pub some_box : 0 < c.valid_count
      pub boxes : c.valid_count * 4 ≤ length c.filter_boxes
      pub classes : c.valid_count ≤ length c.class_ids
      pub long : c.valid_count ≤ length order

    -- The loop over the classes in `runPostProcess`; what `nms` returns is not looked at.
    unfoldable pub nms_classes : List ℕ → List (Option ℕ) → List (Option ℕ)
    unfolding nms
    nms_classes [] order = order
    nms_classes (filter_id ∷ classes) order = nms_classes classes (nms filter_id order).1
