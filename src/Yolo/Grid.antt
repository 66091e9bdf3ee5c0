-- ===== src/Yolo/Grid.antt =====
-- The cells of the grid that YoloPostProcess::doProcess goes over.
use posix_bsp_perf.Prelude.{
  ℕ, zero, suc, ◌+◌, ◌*◌, ◌/◌, ◌≤◌, ◌<◌, ◌≡◌, refl, true, leb, OnSome, Option, some, List, [], ◌∷◌,
  if_elim, length, length-append, each, each-Keeps, All, All-append, arith,
}
use posix_bsp_perf.Yolo.{Floats}
use posix_bsp_perf.Yolo.Decode.{
  obj_class_num, prop_box_size, Found, Plane, ObjDetectParams, grid_len, better, byte_at,
  max_class_from, max_class, decode_box, push_found, offset_of, is_passed_over, decode_cell, start,
  is_refused, has_parameters, plane_of, decode_cells, do_process,
}

-- Cell `r` of layer `k`, of `n` layers.
pub layer_bound : (n k l r : ℕ) → k < n → r < l → k * l + r < n * l
layer_bound zero k l r h h' = absurd (omega arith)
layer_bound (suc n) zero l r h h' = omega arith
layer_bound (suc n) (suc k) l r h h' = omega (arith, layer_bound n k l r (omega arith) h')

pub layers_le : (m n l : ℕ) → m ≤ n → m * l ≤ n * l
layers_le m n zero h = omega arith
layers_le m n (suc l) h = omega (arith, layers_le m n l h)

module _ (fl : Floats) where
  -- The three vectors hold `n` boxes and those that this call has found.
  pub record InStep (n : ℕ) (f : Found fl) : Type 0 where
    pub boxes : length f.bboxes ≡ (n + f.valid_count) * 4
    pub scores : length f.obj_scores ≡ n + f.valid_count
    pub classes : length f.class_id ≡ n + f.valid_count
    pub known : All (λ id. id < obj_class_num) f.class_id

  module _ (p : Plane fl) where
    -- The output is as large as the grid asks for.
    abbrev pub IsWhole : Type 0
    IsWhole = prop_box_size * 3 * grid_len fl p ≤ length p.input_buf

    pub offset-bound :
        (a i j k : ℕ)
        → IsWhole
        → a < 3
        → i < p.grid_h
        → j < p.grid_w
        → k < prop_box_size
        → offset_of fl p a i j + k * grid_len fl p < length p.input_buf
    offset-bound a i j k w h h' h'' h''' =
        let cell = layer_bound p.grid_h i p.grid_w j h' h'' in
        let layer =
          layer_bound (prop_box_size * 3) (prop_box_size * a + k) (grid_len fl p) (i * p.grid_w + j)
            (omega arith) cell in
        omega (arith, layer, w)

    better-known :
        (k prob : ℕ) (best : ℕ × ℕ)
        → k < obj_class_num
        → best.0 < obj_class_num
        → (better fl p k prob best).0 < obj_class_num
    better-known k prob best h h' = ground arith

    max_class_from-known :
        (rounds offset k : ℕ) (best : ℕ × ℕ)
        → k + rounds ≤ obj_class_num
        → best.0 < obj_class_num
        → (max_class_from fl p rounds offset k best).0 < obj_class_num
    unfolding max_class_from
    max_class_from-known zero offset k best h h' = h'
    max_class_from-known (suc rounds) offset k best h h' =
        let prob = byte_at fl p offset (5 + k) in
        let rest =
          max_class_from-known rounds offset (suc k) (better fl p k prob best) (omega arith)
            (better-known k prob best (omega arith) h') in
        ground (arith, rest)

    pub max_class-known : (offset : ℕ) → (max_class fl p offset).0 < obj_class_num
    unfolding max_class
    max_class-known offset =
        max_class_from-known 79 offset 1 (0, byte_at fl p offset 5) (omega arith) (omega arith)

    push_found-InStep :
        (n id offset a i j : ℕ) (score : fl.Float) (f : Found fl)
        → id < obj_class_num
        → InStep n f
        → InStep n (push_found fl p score id (decode_box fl p offset a i j) f)
    unfolding decode_box
    push_found-InStep n id offset a i j score f h s = record {
      boxes = omega (arith, s.boxes, length-append f.bboxes (decode_box fl p offset a i j));
      scores = omega (arith, s.scores, length-append f.obj_scores (score ∷ []));
      classes = omega (arith, s.classes, length-append f.class_id (id ∷ []));
      known = All-append (λ id. id < obj_class_num) f.class_id (id ∷ []) s.known (h, tt);
    }

    decode_cell-InStep :
        (n a i j : ℕ) (f : Found fl) → InStep n f → InStep n (decode_cell fl p a i j f)
    unfolding decode_cell
    decode_cell-InStep n a i j f s =
        let offset = offset_of fl p a i j in
        if_elim (InStep n) (is_passed_over fl p a i j) (λ e. s)
          (λ e.
            push_found-InStep n (max_class fl p offset).0 offset a i j _ f (max_class-known offset)
              s)

    decode_cells-InStep : (n : ℕ) (f : Found fl) → InStep n f → InStep n (decode_cells fl p f)
    unfolding decode_cells
    decode_cells-InStep n f s =
        let rows = λ (a i : ℕ) (g : Found fl). each p.grid_w 0 (λ j. decode_cell fl p a i j) g in
        each-Keeps (InStep n) 3 0 (λ a. each p.grid_h 0 (rows a)) f
          (λ a x q.
            each-Keeps (InStep n) p.grid_h 0 (rows a) x
              (λ i y r.
                each-Keeps (InStep n) p.grid_w 0 (λ j. decode_cell fl p a i j) y
                  (λ j z t. decode_cell-InStep n a i j z t) r)
              q)
          s

  -- The indices of a grid fit `int`.
  abbrev pub FitsInt : ℕ → ObjDetectParams fl → Type 0
  FitsInt stride params =
      prop_box_size * 3 * (params.model_input_height / stride * (params.model_input_width / stride))
      < 2147483648

  pub do_process-InStep :
      (n idx stride : ℕ) (params : ObjDetectParams fl) (input_buf : List ℕ) (f : Found fl)
      → FitsInt stride params
      → has_parameters fl idx params ≡ true
      → InStep n (start fl f)
      → (f' : Found fl) × (do_process fl idx params stride input_buf f ≡ some f') × InStep n f'
  unfolding do_process
  do_process-InStep n idx stride params input_buf f fits has s =
      let h = params.model_input_height / stride in
      let w = params.model_input_width / stride in
      let IsDone = λ (o : Option (Found fl)). (f' : Found fl) × (o ≡ some f') × InStep n f' in
      if_elim IsDone (leb 2147483648 (prop_box_size * 3 * (h * w)))
        (λ e. absurd (ground (arith, e, fits)))
        (λ e.
          if_elim IsDone (is_refused fl h w input_buf) (λ e'. (start fl f, refl, s))
            (λ e'. rw (has) (
              decode_cells fl (plane_of fl idx params stride input_buf) (start fl f),
              refl,
              decode_cells-InStep (plane_of fl idx params stride input_buf) n (start fl f) s,
            )))

  -- And whatever it is given, so do the vectors that it leaves.
  pub do_process-OnSome :
      (n idx stride : ℕ) (params : ObjDetectParams fl) (input_buf : List ℕ) (f : Found fl)
      → InStep n (start fl f)
      → OnSome (InStep n) (do_process fl idx params stride input_buf f)
  unfolding do_process
  do_process-OnSome n idx stride params input_buf f s =
      let h = params.model_input_height / stride in
      let w = params.model_input_width / stride in
      if_elim (OnSome (InStep n)) (leb 2147483648 (prop_box_size * 3 * (h * w))) (λ e. tt)
        (λ e.
          if_elim (OnSome (InStep n)) (is_refused fl h w input_buf) (λ e'. s)
            (λ e'.
              if_elim (OnSome (InStep n)) (has_parameters fl idx params)
                (λ e''.
                  decode_cells-InStep (plane_of fl idx params stride input_buf) n (start fl f) s)
                (λ e''. tt)))
