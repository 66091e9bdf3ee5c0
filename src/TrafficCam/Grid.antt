-- ===== src/TrafficCam/Grid.antt =====
-- Resnet18TrafficCamNet::parseDetectNetOutput and postProcess. `none` stands for a read out of
-- bounds, a division by zero, or a number that does not fit `int`. A tensor is the list of its floats with the size in bytes that is told;
-- `truncated_sqrt` is `static_cast<int>(std::sqrt(n))`.
use posix_bsp_perf.Prelude.{
  ℕ, ◌+◌, ◌-◌, ◌*◌, ◌/◌, Bool, true, false, not, ◌&&◌, ◌||◌, Option, none, some, List, [], ◌∷◌,
  ◌++◌, ltb, leb, ◌==◌, if◌then◌else◌, get_elem?, each_some,
}
use posix_bsp_perf.Yolo.{Floats, BboxRect, int32}
use posix_bsp_perf.Yolo.Decode.{ObjDetectParams}
use posix_bsp_perf.Yolo.Run.{ObjDetectOutputBox}
use posix_bsp_perf.TrafficCam.{apply_nms}
use posix_bsp_perf.TrafficCam.Labels.{Labels, load_labels, label_for, labels_for}

abbrev pub num_classes : ℕ
num_classes = 4

abbrev pub bbox_norm : ℕ
bbox_norm = 35

-- `gridSize` is an `int`: 60 x 34, or what the number of values suggests; `none` divides by zero, or
-- the number does not fit.
unfoldable pub grid_of : (ℕ → ℕ) → ℕ → Option (ℕ × ℕ)
grid_of truncated_sqrt grid_size =
    let w = truncated_sqrt grid_size in
    if leb 2147483648 grid_size
    then none
    else if 60 * 34 == grid_size
    then some (60, 34)
    else if w == 0
    then none
    else some (w, grid_size / w)

module _ (fl : Floats) where
  open fl use {Float, nought, half, add, sub, mul, div, gt, le, of_int32, to_int32}

  abbrev pub std_min : Float → Float → Float
  std_min a b = if gt a b then b else a

  abbrev pub std_max : Float → Float → Float
  std_max a b = if gt b a then b else a

  abbrev pub norm : Float
  norm = of_int32 (int32 bbox_norm)

  -- The arguments of parseDetectNetOutput that stay the same.
  pub record Net : Type 0 where
    pub coverage_buffer : List Float
    pub bbox_buffer : List Float
    pub grid_w : ℕ
    pub grid_h : ℕ
    pub params : ObjDetectParams fl
    pub labels : List (List ℕ)

  module _ (n : Net) where
    abbrev pub grid_size : ℕ
    grid_size = n.grid_w * n.grid_h

    -- The indices of the tensors and the centers of the cells fit `int`.
    abbrev pub is_int_grid : Bool
    is_int_grid =
        ltb (num_classes * 4 * grid_size) 2147483648
        && (ltb (n.params.model_input_width + n.grid_w) 2147483648
            && ltb (n.params.model_input_height + n.grid_h) 2147483648)

    -- `(i * stride + 0.5f) / BBOX_NORM`
    unfoldable pub gc_center : ℕ → ℕ → ℕ → Float
    gc_center network grid i =
        div (add (of_int32 (int32 (i * ((network + grid - 1) / grid)))) half) norm

    -- `max(0, min(x, network - 1))`
    abbrev pub clip_to : ℕ → Float → Float
    clip_to network x = std_max nought (std_min x (of_int32 (int32 network - 1)))

    -- The four numbers of a box, each in a plane of its own.
    unfoldable pub read_bbox : ℕ → ℕ → Option (BboxRect Float)
    read_bbox class_idx grid_idx =
        let plane = class_idx * 4 * grid_size + grid_idx in
        elim (get_elem? n.bbox_buffer plane) [
          | none ↦ none
          | some x1 ↦ elim (get_elem? n.bbox_buffer (plane + grid_size)) [
            | none ↦ none
            | some y1 ↦ elim (get_elem? n.bbox_buffer (plane + 2 * grid_size)) [
              | none ↦ none
              | some x2 ↦ elim (get_elem? n.bbox_buffer (plane + 3 * grid_size)) [
                | none ↦ none
                | some y2 ↦ some (record { left = x1; top = y1; right = x2; bottom = y2 })
              ]
            ]
          ]
        ]

    -- The box in the network's input, clipped to it.
    unfoldable pub decode_rect : ℕ → ℕ → BboxRect Float → BboxRect Float
    unfolding gc_center
    decode_rect h w r =
        let x = gc_center n.params.model_input_width n.grid_w w in
        let y = gc_center n.params.model_input_height n.grid_h h in
        record {
          left = clip_to n.params.model_input_width (mul (sub r.left x) (sub nought norm));
          top = clip_to n.params.model_input_height (mul (sub r.top y) (sub nought norm));
          right = clip_to n.params.model_input_width (mul (add r.right x) norm);
          bottom = clip_to n.params.model_input_height (mul (add r.bottom y) norm);
        }

    -- And in the image.
    unfoldable pub make_box : ℕ → Float → BboxRect Float → ObjDetectOutputBox fl
    unfolding label_for
    make_box class_idx confidence r =
        let back =
          λ (x : Float) (pad : ℕ) (scale : Float). to_int32 (div (sub x (of_int32 pad)) scale) in
        record {
          bbox = record {
            left = back r.left n.params.pads.left n.params.scale_width;
            top = back r.top n.params.pads.top n.params.scale_height;
            right = back r.right n.params.pads.left n.params.scale_width;
            bottom = back r.bottom n.params.pads.top n.params.scale_height;
          };
          score = confidence;
          label = label_for n.labels class_idx;
        }

    -- One cell of the grid.
    unfoldable pub parse_cell :
        ℕ → ℕ → ℕ → List (ObjDetectOutputBox fl) → Option (List (ObjDetectOutputBox fl))
    unfolding read_bbox decode_rect make_box
    parse_cell class_idx h w output_data =
        let grid_idx = h * n.grid_w + w in
        elim (get_elem? n.coverage_buffer (class_idx * grid_size + grid_idx)) [
          | none ↦ none
          | some confidence ↦
              if gt n.params.conf_threshold confidence
              then some output_data
              else elim (read_bbox class_idx grid_idx) [
                | none ↦ none
                | some r ↦
                    let rect = decode_rect h w r in
                    if le rect.right rect.left || le rect.bottom rect.top
                    then some output_data
                    else some (output_data ++ make_box class_idx confidence rect ∷ [])
              ]
        ]

    unfoldable pub parse_detect_net_output :
        List (ObjDetectOutputBox fl) → Option (List (ObjDetectOutputBox fl))
    unfolding parse_cell
    parse_detect_net_output output_data =
        if (n.grid_w == 0) || (n.grid_h == 0)
        then none
        else if not is_int_grid
        then none
        else each_some num_classes 0
            (λ class_idx. each_some n.grid_h 0 (λ h. each_some n.grid_w 0 (parse_cell class_idx h)))
            output_data

  -- `IDnnEngine::dnnOutput`
  pub record DnnOutput : Type 0 where
    pub buf : Option (List Float)
    pub size : ℕ

  module _ (truncated_sqrt : ℕ → ℕ)
      (sort_boxes : List (ObjDetectOutputBox fl) → List (ObjDetectOutputBox fl))
      (params : ObjDetectParams fl) (labels : List (List ℕ)) where
    -- The smaller tensor is the coverage.
    unfoldable pub detect :
        DnnOutput
        → DnnOutput
        → List (ObjDetectOutputBox fl)
        → Option (Bool × List (ObjDetectOutputBox fl))
    unfolding grid_of parse_detect_net_output apply_nms
    detect coverage bbox output_data = elim coverage.buf [
      | none ↦ some (false, output_data)
      | some coverage_buffer ↦ elim bbox.buf [
        | none ↦ some (false, output_data)
        | some bbox_buffer ↦ elim (grid_of truncated_sqrt (coverage.size / 4 / num_classes)) [
          | none ↦ none
          | some (grid_w, grid_h) ↦
              let net : Net = record {
                coverage_buffer = coverage_buffer;
                bbox_buffer = bbox_buffer;
                grid_w = grid_w;
                grid_h = grid_h;
                params = params;
                labels = labels;
              } in
              elim (parse_detect_net_output net []) [
                | none ↦ none
                | some detections ↦
                    some (true, apply_nms fl params.nms_threshold sort_boxes detections)
              ]
        ]
      ]
    ]

    unfoldable pub detect_ordered :
        DnnOutput
        → DnnOutput
        → List (ObjDetectOutputBox fl)
        → Option (Bool × List (ObjDetectOutputBox fl))
    unfolding detect
    detect_ordered a b output_data =
        if ltb a.size b.size then detect a b output_data else detect b a output_data

  unfoldable pub post_process :
      (ℕ → ℕ)
      → (List (ObjDetectOutputBox fl) → List (ObjDetectOutputBox fl))
      → ObjDetectParams fl
      → Bool
      → Option (List (List ℕ))
      → Labels
      → List DnnOutput
      → List (ObjDetectOutputBox fl)
      → Option (Labels × (Bool × List (ObjDetectOutputBox fl)))
  unfolding detect_ordered load_labels
  post_process sqrt sort params has_path file m (a ∷ b ∷ []) output_data =
      let m' = labels_for has_path file m in
      elim (detect_ordered sqrt sort params m'.labels a b output_data) [
        | none ↦ none
        | some r ↦ some (m', r)
      ]
  post_process sqrt sort params has_path file m [] output_data = some (m, (false, output_data))
  post_process sqrt sort params has_path file m (a ∷ []) output_data =
      some (m, (false, output_data))
  post_process sqrt sort params has_path file m (a ∷ b ∷ c ∷ rest) output_data =
      some (m, (false, output_data))
