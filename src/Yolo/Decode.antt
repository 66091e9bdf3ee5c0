-- ===== src/Yolo/Decode.antt =====
-- YoloPostProcess::doProcess: the boxes that one output of the network holds, whose bytes are the list.
-- `none` is a read out of bounds, or a grid whose indices do not fit `int`.
use posix_bsp_perf.Prelude.{
  ℕ, zero, suc, ◌+◌, ◌-◌, ◌*◌, ◌/◌, ◌%◌, Bool, List, [], ◌∷◌, ◌++◌, ltb, leb, if◌then◌else◌, ◌&&◌,
  ◌||◌, Option, none, some, length, get_or, each,
}
use posix_bsp_perf.Yolo.{Floats, BboxRect, int32}

abbrev pub basic_stride : ℕ
basic_stride = 8

abbrev pub obj_class_num : ℕ
obj_class_num = 80

abbrev pub prop_box_size : ℕ
prop_box_size = 5 + obj_class_num

-- `m_anchorVec`
abbrev pub anchor_vec : List (List ℕ)
anchor_vec =
    (10 ∷ 13 ∷ 16 ∷ 30 ∷ 33 ∷ 23 ∷ [])
    ∷ (30 ∷ 61 ∷ 62 ∷ 45 ∷ 59 ∷ 119 ∷ [])
    ∷ (116 ∷ 90 ∷ 156 ∷ 198 ∷ 373 ∷ 326 ∷ [])
    ∷ []

-- `do_process` refuses an output without anchors, a zero point or a scale before these are read.
abbrev pub anchor : ℕ → ℕ → ℕ
anchor idx k = get_or (get_or anchor_vec idx []) k 0

-- `(int8_t)clip(val, -128, 127)`
abbrev pub clip : ℕ → ℕ
clip val =
    if leb val (2147483648 - 128)
    then 0
    else if leb (int32 127) val
    then 255
    else val - (2147483648 - 128)

module _ (fl : Floats) where
  open fl use {Float, half, two, nought, add, sub, mul, div, of_int8, of_int32, to_int32}

  pub record ObjDetectParams : Type 0 where
    pub model_input_width : ℕ
    pub model_input_height : ℕ
    pub conf_threshold : Float
    pub nms_threshold : Float
    pub scale_width : Float
    pub scale_height : Float
    pub pads : BboxRect ℕ
    pub quantize_zero_points : List ℕ
    pub quantize_scales : List Float

  -- What the three vectors hold and how many boxes this call has found.
  pub record Found : Type 0 where
    pub bboxes : List Float
    pub obj_scores : List Float
    pub class_id : List ℕ
    pub valid_count : ℕ

  -- The zero point is an `int`, and the call turns it into an `int8_t`.
  unfoldable pub qaunt_fp32_to_affine : Float → ℕ → Float → ℕ
  qaunt_fp32_to_affine fp32 zp scale =
      clip (to_int32 (add (div fp32 scale) (of_int8 ((zp + 128) % 256))))

  unfoldable pub deqaunt_affine_to_fp32 : ℕ → ℕ → Float → Float
  deqaunt_affine_to_fp32 qnt zp scale = mul (sub (of_int8 qnt) (of_int32 zp)) scale

  -- One output: its index, the parameters, its bytes and the grid.
  pub record Plane : Type 0 where
    pub idx : ℕ
    pub params : ObjDetectParams
    pub stride : ℕ
    pub input_buf : List ℕ
    pub grid_h : ℕ
    pub grid_w : ℕ

  module _ (p : Plane) where
    abbrev pub grid_len : ℕ
    grid_len = p.grid_h * p.grid_w

    abbrev pub scale_of : Float
    scale_of = get_or p.params.quantize_scales p.idx nought

    abbrev pub zero_point_of : ℕ
    zero_point_of = get_or p.params.quantize_zero_points p.idx 0

    unfoldable pub thres_i8 : ℕ
    unfolding qaunt_fp32_to_affine
    thres_i8 = qaunt_fp32_to_affine p.params.conf_threshold zero_point_of scale_of

    -- The byte `k` grids behind `offset`.
    abbrev pub byte_at : ℕ → ℕ → ℕ
    byte_at offset k = get_or p.input_buf (offset + k * grid_len) 0

    abbrev pub deqaunt : ℕ → Float
    unfolding deqaunt_affine_to_fp32
    deqaunt b = deqaunt_affine_to_fp32 b zero_point_of scale_of

    -- One round of the search for the likeliest class: a class and its byte.
    abbrev pub better : ℕ → ℕ → ℕ × ℕ → ℕ × ℕ
    better k prob best = if ltb best.1 prob then (k, prob) else best

    unfoldable pub max_class_from : ℕ → ℕ → ℕ → ℕ × ℕ → ℕ × ℕ
    max_class_from zero offset k best = best
    max_class_from (suc rounds) offset k best =
        let rest = max_class_from rounds offset (suc k) (better k (byte_at offset (5 + k)) best) in
        if leb (length p.input_buf) (offset + (5 + k) * grid_len) then best else rest

    unfoldable pub max_class : ℕ → ℕ × ℕ
    unfolding max_class_from
    max_class offset = max_class_from (obj_class_num - 1) offset 1 (0, byte_at offset 5)

    -- `box_x`, `box_y`, `box_w` and `box_h`
    unfoldable pub decode_box : ℕ → ℕ → ℕ → ℕ → List Float
    decode_box offset a i j =
        let x = sub (mul (deqaunt (byte_at offset 0)) two) half in
        let y = sub (mul (deqaunt (byte_at offset 1)) two) half in
        let w = mul (deqaunt (byte_at offset 2)) two in
        let h = mul (deqaunt (byte_at offset 3)) two in
        let left = mul (add x (of_int32 (int32 j))) (of_int32 (int32 p.stride)) in
        let top = mul (add y (of_int32 (int32 i))) (of_int32 (int32 p.stride)) in
        let width = mul (mul w w) (of_int32 (int32 (anchor p.idx (a * 2)))) in
        let height = mul (mul h h) (of_int32 (int32 (anchor p.idx (a * 2 + 1)))) in
        sub left (div width two) ∷ sub top (div height two) ∷ width ∷ height ∷ []

    abbrev pub push_found : Float → ℕ → List Float → Found → Found
    push_found score id box f = record {
      bboxes = f.bboxes ++ box;
      obj_scores = f.obj_scores ++ score ∷ [];
      class_id = f.class_id ++ id ∷ [];
      valid_count = f.valid_count + 1;
    }

    abbrev pub confidence_idx : ℕ → ℕ → ℕ → ℕ
    confidence_idx a i j = (prop_box_size * a + 4) * grid_len + i * p.grid_w + j

    abbrev pub offset_of : ℕ → ℕ → ℕ → ℕ
    offset_of a i j = prop_box_size * a * grid_len + i * p.grid_w + j

    abbrev pub box_confidence : ℕ → ℕ → ℕ → ℕ
    box_confidence a i j = get_or p.input_buf (confidence_idx a i j) 0

    -- The tests that lead to the next round, in their order.
    unfoldable pub is_passed_over : ℕ → ℕ → ℕ → Bool
    unfolding max_class thres_i8
    is_passed_over a i j =
        leb (length p.input_buf) (confidence_idx a i j)
        || (ltb (box_confidence a i j) thres_i8
            || (leb (length p.input_buf) (offset_of a i j)
                || (leb (length p.input_buf) (offset_of a i j + 5 * grid_len)
                    || leb (max_class (offset_of a i j)).1 thres_i8)))

    -- The body of the three loops.
    unfoldable pub decode_cell : ℕ → ℕ → ℕ → Found → Found
    unfolding is_passed_over max_class decode_box
    decode_cell a i j f =
        let best = max_class (offset_of a i j) in
        if is_passed_over a i j
        then f
        else push_found (mul (deqaunt best.1) (deqaunt (box_confidence a i j))) best.0
            (decode_box (offset_of a i j) a i j) f

    unfoldable pub decode_cells : Found → Found
    unfolding decode_cell
    decode_cells f =
        each 3 0 (λ a. each p.grid_h 0 (λ i. each p.grid_w 0 (λ j. decode_cell a i j))) f

  abbrev pub is_refused : ℕ → ℕ → List ℕ → Bool
  is_refused grid_h grid_w input_buf =
      leb grid_h 0
      || (leb grid_w 0
          || (leb (grid_h * grid_w) 0
              || (leb (length input_buf) 0
                  || ltb (length input_buf) (prop_box_size * 3 * (grid_h * grid_w)))))

  abbrev pub plane_of : ℕ → ObjDetectParams → ℕ → List ℕ → Plane
  plane_of idx params stride input_buf = record {
    idx = idx;
    params = params;
    stride = stride;
    input_buf = input_buf;
    grid_h = params.model_input_height / stride;
    grid_w = params.model_input_width / stride;
  }

  -- The vectors are those of the caller; the count starts at 0.
  abbrev pub start : Found → Found
  start f = record {
    bboxes = f.bboxes;
    obj_scores = f.obj_scores;
    class_id = f.class_id;
    valid_count = 0;
  }

  -- The output has anchors, a zero point and a scale.
  abbrev pub has_parameters : ℕ → ObjDetectParams → Bool
  has_parameters idx params =
      ltb idx (length anchor_vec)
      && (ltb idx (length params.quantize_zero_points) && ltb idx (length params.quantize_scales))

  unfoldable pub do_process : ℕ → ObjDetectParams → ℕ → List ℕ → Found → Option Found
  unfolding decode_cells
  do_process idx params stride input_buf f =
      let grid_h = params.model_input_height / stride in
      let grid_w = params.model_input_width / stride in
      if leb 2147483648 (prop_box_size * 3 * (grid_h * grid_w))
      then none
      else if is_refused grid_h grid_w input_buf
      then some (start f)
      else if has_parameters idx params
      then some (decode_cells (plane_of idx params stride input_buf) (start f))
      else none
