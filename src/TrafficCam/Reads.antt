-- ===== src/TrafficCam/Reads.antt =====
-- Resnet18TrafficCamNet::postProcess: when every read of the tensors is in bounds.
use native.Mathlib.Nat.{div-add-mod, mod-lt}
use posix_bsp_perf.Prelude.{
  ℕ, zero, suc, ◌+◌, ◌*◌, ◌/◌, ◌≤◌, ◌<◌, ◌≡◌, inl, inr, refl, Bool, true, false, ◌||◌, Bool-cases,
  Option, some, List, [], ◌∷◌, ltb, leb, ◌==◌, if_elim, length, get_elem?, each_some, arith,
}
use posix_bsp_perf.Yolo.{Floats}
use posix_bsp_perf.Yolo.Decode.{ObjDetectParams}
use posix_bsp_perf.Yolo.Grid.{layer_bound, layers_le}
use posix_bsp_perf.Yolo.Run.{ObjDetectOutputBox}
use posix_bsp_perf.TrafficCam.{apply_nms}
use posix_bsp_perf.TrafficCam.Labels.{Labels, labels_for}
use posix_bsp_perf.TrafficCam.Grid.{
  num_classes, Net, grid_size, is_int_grid, read_bbox, decode_rect, parse_cell,
  parse_detect_net_output, DnnOutput, grid_of, detect, detect_ordered, post_process,
}

get_elem?-below {ℓ} :
    {A : Type ℓ} (xs : List A) (i : ℕ) → i < length xs → (a : A) × (get_elem? xs i ≡ some a)
get_elem?-below [] i h = absurd (omega arith)
get_elem?-below (x ∷ xs) zero h = (x, refl)
get_elem?-below (x ∷ xs) (suc i) h = get_elem?-below xs i (omega arith)

-- A result is there.
abbrev pub IsSome {ℓ} : {A : Type ℓ} → Option A → Type ℓ
IsSome {A = A} o = (a : A) × (o ≡ some a)

each_some-IsSome {ℓ} :
    {S : Type ℓ} (rounds i : ℕ) (f : ℕ → S → Option S) (s : S)
    → ((j : ℕ) (x : S) → j < i + rounds → IsSome (f j x))
    → IsSome (each_some rounds i f s)
each_some-IsSome zero i f s h = (s, refl)
each_some-IsSome (suc rounds) i f s h =
    let (s', e) = h i s (omega arith) in
    rw (e, each_some) (each_some-IsSome rounds (suc i) f s' (λ j x low. h j x (omega arith)))

le_square : (w n : ℕ) → 0 < w → w * w ≤ n → w ≤ n
le_square zero n h k = omega arith
le_square (suc w) n h k = let q = layers_le 1 (suc w) (suc w) (omega arith) in omega (arith, q, k)

some_rows : (w q : ℕ) → 0 < w → 0 < w * q → 0 < q
some_rows w zero h k = absurd (omega arith)
some_rows w (suc q) h k = omega arith

-- What is documented of the truncated square root.
pub record Roots (truncated_sqrt : ℕ → ℕ) : Type 0 where
  pub below : (n : ℕ) → truncated_sqrt n * truncated_sqrt n ≤ n
  pub above : (n : ℕ) → 0 < n → 0 < truncated_sqrt n

-- A grid that is not empty, of at most `n` cells.
record FitsIn (n : ℕ) (g : ℕ × ℕ) : Type 0 where
  wide : 0 < g.0
  high : 0 < g.1
  small : g.0 * g.1 ≤ n

grid_of-FitsIn :
    (truncated_sqrt : ℕ → ℕ) (n : ℕ)
    → Roots truncated_sqrt
    → 0 < n
    → n < 2147483648
    → (g : ℕ × ℕ) × (grid_of truncated_sqrt n ≡ some g) × FitsIn n g
unfolding grid_of
grid_of-FitsIn truncated_sqrt n r more less =
    let fits : leb 2147483648 n ≡ false = ground (arith, less) in
    let w = truncated_sqrt n in
    let wide = r.above n more in
    let split = div-add-mod n w in
    let left = mod-lt n wide in
    let rows =
      some_rows w (n / w) wide (omega (arith, split, left, le_square w n wide (r.below n))) in
    elim (Bool-cases (60 * 34 == n)) [
      | inl e ↦ (
        (60, 34),
        rw (fits, e, grid_of) refl,
        record { wide = omega arith; high = omega arith; small = ground (arith, e) },
      )
      | inr e ↦ (
        (w, n / w),
        rw (fits, e, grid_of)
            (if_elim (λ o. o ≡ some (w, n / w)) (w == 0) (λ e'. absurd (ground (arith, e', wide)))
              (λ e'. refl)),
        record { wide = wide; high = rows; small = omega (arith, split) },
      )
    ]

module _ (fl : Floats) where
  module _ (n : Net fl) where
    record Covers : Type 0 where
      coverage : num_classes * grid_size fl n ≤ length n.coverage_buffer
      bbox : num_classes * 4 * grid_size fl n ≤ length n.bbox_buffer

    read_bbox-IsSome :
        (c i : ℕ) → Covers → c < num_classes → i < grid_size fl n → IsSome (read_bbox fl n c i)
    unfolding read_bbox
    read_bbox-IsSome c i v h low =
        let g = grid_size fl n in
        let plane = c * 4 * g + i in
        let below = layer_bound num_classes c (4 * g) (3 * g + i) h (omega arith) in
        let (x1, e1) = get_elem?-below n.bbox_buffer plane (omega (arith, below, v.bbox)) in
        let (y1, e2) = get_elem?-below n.bbox_buffer (plane + g) (omega (arith, below, v.bbox)) in
        let (x2, e3) =
          get_elem?-below n.bbox_buffer (plane + 2 * g) (omega (arith, below, v.bbox)) in
        let (y2, e4) =
          get_elem?-below n.bbox_buffer (plane + 3 * g) (omega (arith, below, v.bbox)) in
        (
          record { left = x1; top = y1; right = x2; bottom = y2 },
          rw (e1, e2, e3, e4, read_bbox) refl,
        )

    parse_cell-IsSome :
        (c h w : ℕ) (out : List (ObjDetectOutputBox fl))
        → Covers
        → c < num_classes
        → h < n.grid_h
        → w < n.grid_w
        → IsSome (parse_cell fl n c h w out)
    unfolding parse_cell
    parse_cell-IsSome c h w out v low low' low'' =
        let i = h * n.grid_w + w in
        let cell = layer_bound n.grid_h h n.grid_w w low' low'' in
        let inside : i < grid_size fl n = omega (arith, cell) in
        let below = layer_bound num_classes c (grid_size fl n) i low inside in
        let (confidence, e) =
          get_elem?-below n.coverage_buffer (c * grid_size fl n + i)
            (omega (arith, below, v.coverage)) in
        let (r, e') = read_bbox-IsSome c i v low inside in
        rw (e, parse_cell)
          (if_elim IsSome (fl.gt n.params.conf_threshold confidence) (λ k. (out, refl))
            (λ k. rw (e') (
              if_elim IsSome
                (fl.le (decode_rect fl n h w r).right (decode_rect fl n h w r).left
                  || fl.le (decode_rect fl n h w r).bottom (decode_rect fl n h w r).top)
                (λ k'. (out, refl)) (λ k'. (_, refl)))))

    parse_detect_net_output-IsSome :
        (out : List (ObjDetectOutputBox fl))
        → Covers
        → 0 < n.grid_w
        → 0 < n.grid_h
        → is_int_grid fl n ≡ true
        → IsSome (parse_detect_net_output fl n out)
    unfolding parse_detect_net_output
    parse_detect_net_output-IsSome out v wide high ints =
        if_elim IsSome ((n.grid_w == 0) || (n.grid_h == 0))
          (λ e. absurd (ground (arith, e, wide, high)))
          (λ e. rw (ints) (
            each_some-IsSome num_classes 0 _ out (λ c s low.
              each_some-IsSome n.grid_h 0 _ s (λ h s' low'.
                each_some-IsSome n.grid_w 0 _ s' (λ w s'' low''.
                  parse_cell-IsSome c h w s'' v (omega arith) (omega arith) (omega arith))))))

  -- The tensor holds what its size says.
  abbrev pub IsHeld : List fl.Float → DnnOutput fl → Type 0
  IsHeld values t = (t.buf ≡ some values) × (t.size / 4 ≤ length values)

  module _ (truncated_sqrt : ℕ → ℕ)
      (sort_boxes : List (ObjDetectOutputBox fl) → List (ObjDetectOutputBox fl))
      (params : ObjDetectParams fl) where
    detect-IsSome :
        (labels : List (List ℕ)) (coverage bbox : DnnOutput fl) (cs bs : List fl.Float)
        (out : List (ObjDetectOutputBox fl))
        → Roots truncated_sqrt
        → IsHeld cs coverage
        → IsHeld bs bbox
        → 16 ≤ coverage.size
        → coverage.size < 2147483648
        → 4 * coverage.size ≤ bbox.size
        → params.model_input_width < 1073741824
        → params.model_input_height < 1073741824
        → (boxes : List (ObjDetectOutputBox fl)) × (detect fl truncated_sqrt sort_boxes params
              labels coverage bbox out
            ≡ some (true, boxes))
    unfolding detect
    detect-IsSome labels coverage bbox cs bs out r c b large less four wide high =
        let ((w, h), e, f) =
          grid_of-FitsIn truncated_sqrt (coverage.size / 4 / num_classes) r (omega (arith, large))
            (omega (arith, less)) in
        let net : Net fl = record {
          coverage_buffer = cs;
          bbox_buffer = bs;
          grid_w = w;
          grid_h = h;
          params = params;
          labels = labels;
        } in
        let v : Covers net = record {
          coverage = omega (arith, f.small, c.1);
          bbox = omega (arith, f.small, b.1, four);
        } in
        let across = layers_le 1 h w f.high in
        let down = layers_le 1 w h f.wide in
        let ints : is_int_grid fl net ≡ true =
          ground (arith, f.small, less, wide, high, across, down) in
        let (found, e') = parse_detect_net_output-IsSome net [] v f.wide f.high ints in
        (
          apply_nms fl params.nms_threshold sort_boxes found,
          rw (c.0, b.0, detect) (rw (e) (rw (e') refl)),
        )

    -- Two tensors hold what their sizes say, with at least a value for each of the four classes, and the
    -- larger is at least four times as large; the smaller has less than 2^31 bytes, and the network's input
    -- less than 2^30 columns and rows; the truncated root of n is at most the root, and not 0
    -- unless n is. Then postProcess returns 0, having read and divided in bounds only, and finds the same
    -- boxes in either order of the two.
    pub post_process-IsSome :
        (has_path : Bool) (file : Option (List (List ℕ))) (m : Labels)
        (coverage bbox : DnnOutput fl) (cs bs : List fl.Float) (out : List (ObjDetectOutputBox fl))
        → Roots truncated_sqrt
        → IsHeld cs coverage
        → IsHeld bs bbox
        → 16 ≤ coverage.size
        → coverage.size < 2147483648
        → 4 * coverage.size ≤ bbox.size
        → params.model_input_width < 1073741824
        → params.model_input_height < 1073741824
        → (boxes : List (ObjDetectOutputBox fl)) × (post_process fl truncated_sqrt sort_boxes params
              has_path file m
              (coverage ∷ bbox ∷ [])
              out
            ≡ some (labels_for has_path file m, (true, boxes)))
          × (post_process fl truncated_sqrt sort_boxes params has_path file m
                (bbox ∷ coverage ∷ [])
                out
              ≡ some (labels_for has_path file m, (true, boxes)))
    unfolding post_process detect_ordered
    post_process-IsSome has_path file m coverage bbox cs bs out r c b large less four wide high =
        let labels = (labels_for has_path file m).labels in
        let (boxes, e) =
          detect-IsSome labels coverage bbox cs bs out r c b large less four wide high in
        let up : ltb coverage.size bbox.size ≡ true = ground (arith, large, four) in
        let down : ltb bbox.size coverage.size ≡ false = ground (arith, large, four) in
        (
          boxes,
          rw (up, e, post_process, detect_ordered) refl,
          rw (down, e, post_process, detect_ordered) refl,
        )
