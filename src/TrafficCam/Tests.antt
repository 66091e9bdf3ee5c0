-- ===== src/TrafficCam/Tests.antt =====
-- Runs of the detector's post-processing with numbers for `float`, and with a sort that moves nothing.
use mathlib.Core.List.Perm
use posix_bsp_perf.Prelude.{
  ℕ, zero, suc, ◌≤◌, ◌<◌, if_elim, ◌+◌, ◌-◌, ◌*◌, ◌/◌, ◌≡◌, refl, true, false, none, some, List, [],
  ◌∷◌, ltb, leb, replicate, if◌then◌else◌, All, arith,
}
use posix_bsp_perf.Yolo.{Floats, int32}
use posix_bsp_perf.Yolo.Decode.{ObjDetectParams}
use posix_bsp_perf.Yolo.Run.{ObjDetectOutputBox}
use posix_bsp_perf.TrafficCam.{calculate_iou, apply_nms}
use posix_bsp_perf.TrafficCam.Greedy.{Apart, Settled, apply_nms-greedy, apply_nms-Apart}
use posix_bsp_perf.TrafficCam.Marks.{greedy}
use posix_bsp_perf.TrafficCam.Labels.{Labels, load_labels}
use posix_bsp_perf.TrafficCam.Grid.{DnnOutput, post_process}
use posix_bsp_perf.TrafficCam.Reads.{Roots, post_process-IsSome}

abbrev naturals : Floats
naturals = record {
  Float = ℕ;
  nought = 0;
  half = 0;
  one = 1;
  two = 2;
  add = λ a b. a + b;
  sub = λ a b. a - b;
  mul = λ a b. a * b;
  div = λ a b. 100 * a / b;
  gt = λ a b. ltb b a;
  le = λ a b. leb a b;
  fmin = λ a b. if ltb a b then a else b;
  fmax = λ a b. if ltb a b then b else a;
  of_int8 = λ a. a - 128;
  of_int32 = λ a. a - 2147483648;
  to_int32 = λ a. a + 2147483648;
  is_invalid = λ a. false;
}

abbrev box : ℕ → ℕ → ObjDetectOutputBox naturals
box left right = record {
  bbox = record { left = int32 left; top = int32 0; right = int32 right; bottom = int32 10 };
  score = 1;
  label = 99 ∷ [];
}

-- The first two share nine tenths of a square, and the third stands apart.
abbrev three : List (ObjDetectOutputBox naturals)
three = box 0 10 ∷ box 1 11 ∷ box 20 30 ∷ []

first_two : calculate_iou naturals (box 0 10) (box 1 11) ≡ 81
unfolding calculate_iou
first_two = refl

apply_nms-greedy_example : apply_nms naturals 50 (λ bs. bs) three ≡ greedy naturals 50 [] three
apply_nms-greedy_example = apply_nms-greedy naturals 50 (λ bs. bs) (λ bs. Perm.refl bs) three

apply_nms-Apart_example :
    Apart naturals 50 (apply_nms naturals 50 (λ bs. bs) three)
    × All (Settled naturals 50 (apply_nms naturals 50 (λ bs. bs) three)) three
apply_nms-Apart_example = apply_nms-Apart naturals 50 (λ bs. bs) (λ bs. Perm.refl bs) three

labels_trimmed :
    load_labels
      (some ((32 ∷ 99 ∷ 97 ∷ 114 ∷ 13 ∷ []) ∷ (9 ∷ []) ∷ []))
      (record { labels = []; labels_loaded = false })
    ≡ (true, record { labels = (99 ∷ 97 ∷ 114 ∷ []) ∷ []; labels_loaded = true })
unfolding load_labels
labels_trimmed = refl

abbrev params : ObjDetectParams naturals
params = record {
  model_input_width = 32;
  model_input_height = 32;
  conf_threshold = 2;
  nms_threshold = 50;
  scale_width = 100;
  scale_height = 100;
  pads = record { left = int32 0; top = int32 0; right = int32 0; bottom = int32 0 };
  quantize_zero_points = [];
  quantize_scales = [];
}

abbrev unnamed : Labels
unnamed = record { labels = []; labels_loaded = false }

-- One cell.
abbrev coverage : DnnOutput naturals
coverage = record { buf = some (replicate 4 1); size = 16 }

abbrev bbox : DnnOutput naturals
bbox = record { buf = some (replicate 16 1); size = 64 }

root : ℕ → ℕ
root zero = 0
root (suc n) = let r = root n in if leb ((r + 1) * (r + 1)) (suc n) then r + 1 else r

root-below : (n : ℕ) → root n * root n ≤ n
unfolding root
root-below zero = omega arith
root-below (suc n) =
    let h = root-below n in
    if_elim (λ r. r * r ≤ suc n) (leb ((root n + 1) * (root n + 1)) (suc n))
      (λ e. ground (arith, e)) (λ e. omega (arith, h))

root-above : (n : ℕ) → 0 < n → 0 < root n
unfolding root
root-above zero h = h
root-above (suc zero) h = omega arith
root-above (suc (suc n)) h =
    let k = root-above (suc n) (omega arith) in
    if_elim (λ r. 0 < r) (leb ((root (suc n) + 1) * (root (suc n) + 1)) (suc (suc n)))
      (λ e. omega arith) (λ e. k)

root-Roots : Roots root
root-Roots = record { below = root-below; above = root-above }

post_process-IsSome_example :
    (boxes : List (ObjDetectOutputBox naturals)) × (post_process naturals root
        (λ bs. bs)
        params
        false
        none
        unnamed
        (coverage ∷ bbox ∷ [])
        []
      ≡ some (unnamed, (true, boxes)))
    × (post_process naturals root (λ bs. bs) params false none unnamed (bbox ∷ coverage ∷ []) []
        ≡ some (unnamed, (true, boxes)))
post_process-IsSome_example =
    post_process-IsSome naturals root (λ bs. bs) params false none unnamed coverage bbox
      (replicate 4 1) (replicate 16 1) [] root-Roots (refl, omega arith) (refl, omega arith)
      (omega arith) (omega arith) (omega arith) (omega arith) (omega arith)

-- With less than a value for each class the call divides by zero.
no_cells :
    post_process naturals root
      (λ bs. bs)
      params
      false
      none
      unnamed
      (record { buf = some (replicate 3 1); size = 12 }
        ∷ record { buf = some (replicate 16 1); size = 64 }
        ∷ [])
      []
    ≡ none
unfolding post_process root
no_cells = refl
