-- ===== src/Cpu2dGraphics/Paint.antt =====
-- Cpu2dGraphics::fillRect, fillRectGradient and setPixel: which pixels they change, and to what.
use posix_bsp_perf.Prelude.{
  ℕ, ◌+◌, ◌*◌, ◌<◌, ◌≤◌, ◌≡◌, inl, inr, refl, sym, ap, ◌∙◌, Bool, true, false, ◌&&◌, ◌||◌,
  Bool-cases, Option, none, some, List, ltb, leb, if◌then◌else◌, if_elim, length, arith,
}
use posix_bsp_perf.Yolo.{Floats, int32}
use posix_bsp_perf.Yolo.Grid.{layers_le}
use posix_bsp_perf.Cpu2dGraphics.{
  Color, Canvas, write_at, Rect, from_edge, rounds_to, to_int, is_int_sum, fill_with, paint,
  fill_rect, fill_rect_gradient, gradient_color, set_pixel,
}
use posix_bsp_perf.Cpu2dGraphics.Rows.{pixel, between, fill_rows}

and_comm : (a b : Bool) → (a && b) ≡ (b && a)
and_comm true true = refl
and_comm true false = refl
and_comm false true = refl
and_comm false false = refl

-- The buffer holds the rows, and its sides and its indices fit `int` and `uint32_t`.
pub record IsCanvas (m : Canvas) : Type 0 where
  pub rows : length m.framebuffer ≡ m.height * m.width
  pub wide : m.width < 2147483648
  pub high : m.height < 2147483648
  pub small : length m.framebuffer ≤ 4294967296

-- The far edges of the rectangle fit `int`.
pub record HasEdges (q : Rect) : Type 0 where
  pub right : is_int_sum q.x q.width ≡ true
  pub bottom : is_int_sum q.y q.height ≡ true

to_int_small : (n : ℕ) → n < 2147483648 → to_int n ≡ int32 n
unfolding to_int
to_int_small n h = omega (arith, h)

to_int_below : (n : ℕ) → to_int n < 4294967296
unfolding to_int
to_int_below n = omega arith

abbrev pub pixel_at : Canvas → ℕ → ℕ → ℕ
pixel_at m row col = pixel m.framebuffer (row * m.width + col)

-- The pixel lies in the rectangle, by the order of the integers.
abbrev pub is_in : Rect → ℕ → ℕ → Bool
is_in q row col =
    (leb q.x (int32 col) && ltb (int32 (int32 col)) (q.x + q.width))
    && (leb q.y (int32 row) && ltb (int32 (int32 row)) (q.y + q.height))

-- The canvas after it: the same but for the pixels of the rectangle.
pub record Drawn (q : Rect) (f : ℕ → ℕ → ℕ → ℕ) (m m' : Canvas) : Type 0 where
  pub whole : IsCanvas m'
  pub same_width : m'.width ≡ m.width
  pub same_height : m'.height ≡ m.height
  pub drawn :
      (row col : ℕ)
      → row < m.height
      → col < m.width
      → pixel_at m' row col
        ≡ (if is_in q row col then f row col (pixel_at m row col) else pixel_at m row col)

span :
    (limit x width i : ℕ)
    → i < limit
    → between (from_edge x) (from_edge x + rounds_to (int32 limit) x width) i
      ≡ (leb x (int32 i) && ltb (int32 (int32 i)) (x + width))
span limit x width i h = ground (arith, h)

both_spans : {a b c d : Bool} → a ≡ c → b ≡ d → (a && b) ≡ (d && c)
both_spans {a} {b} {c} {d} p q = ap (λ t. t && b) p ∙ ap (λ t. c && t) q ∙ and_comm c d

untouched :
    (q : Rect) (f : ℕ → ℕ → ℕ → ℕ) (m : Canvas)
    → IsCanvas m
    → ((row col : ℕ) → row < m.height → col < m.width → is_in q row col ≡ false)
    → Drawn q f m m
untouched q f m w out = record {
  whole = w;
  same_width = refl;
  same_height = refl;
  drawn = λ row col h h'. sym (
      ap (λ b. if b then f row col (pixel_at m row col) else pixel_at m row col)
        (out row col h h'));
}

fill_with-Drawn :
    (q : Rect) (f : ℕ → ℕ → ℕ → ℕ) (m : Canvas)
    → IsCanvas m
    → HasEdges q
    → (m' : Canvas) × (fill_with q f m ≡ some m') × Drawn q f m m'
unfolding fill_with
fill_with-Drawn q f m w edges =
    let cols = rounds_to (int32 m.width) q.x q.width in
    let rows = rounds_to (int32 m.height) q.y q.height in
    let c = from_edge q.x in
    let r = from_edge q.y in
    let IsDrawn = λ (o : Option Canvas). (m' : Canvas) × (o ≡ some m') × Drawn q f m m' in
    rw
      (
        to_int_small m.width w.wide,
        to_int_small m.height w.high,
        edges.right,
        edges.bottom,
        fill_with,
      )
      (if_elim IsDrawn (leb (int32 m.width) q.x || leb (int32 m.height) q.y)
        (λ e. (m, refl, untouched q f m w (λ row col h h'. ground (arith, e, h, h'))))
        (λ e.
          if_elim IsDrawn (leb (q.x + q.width) 4294967296)
            (λ e'. (m, refl, untouched q f m w (λ row col h h'. ground (arith, e', h, h'))))
            (λ e'.
              if_elim IsDrawn (leb (q.y + q.height) 4294967296)
                (λ e''. (m, refl, untouched q f m w (λ row col h h'. ground (arith, e'', h, h'))))
                (λ e''.
                  let split = layers_le (r + rows) m.height m.width (ground (arith, e)) in
                  let (fb, ran, done) =
                    fill_rows m.width rows r c cols f m.framebuffer (ground (arith, e))
                      (omega (arith, split, w.rows)) w.small in
                  (
                    record m { framebuffer = fb },
                    rw (ran) refl,
                    record {
                      whole = record {
                        rows = done.same_length ∙ w.rows;
                        wide = w.wide;
                        high = w.high;
                        small = omega (arith, done.same_length, w.small);
                      };
                      same_width = refl;
                      same_height = refl;
                      drawn = λ row col h h'.
                          done.filled row col h'
                          ∙ ap
                              (λ b.
                                if b then f row col (pixel_at m row col) else pixel_at m row col)
                              (both_spans (span m.height q.y q.height row h)
                                (span m.width q.x q.width col h'));
                    },
                  )))))

one_write :
    (o : Option (List ℕ)) (m : Canvas)
    → Path
        (Option Canvas)
        (elim o as (λ x. Option Canvas) [
          | none ↦ none
          | some fb ↦ some (record m { framebuffer = fb })
        ])
        (elim (elim (elim o as (λ x. Option (List ℕ)) [ none ↦ none | some fb ↦ some fb ])
            as (λ x. Option (List ℕ)) [ none ↦ none | some fb ↦ some fb ])
          as (λ x. Option Canvas) [ none ↦ none | some fb ↦ some (record m { framebuffer = fb }) ])
one_write none m = refl
one_write (some fb) m = refl

module _ (fl : Floats) where
  -- If the buffer holds the rows, with sides that fit `int` and indices that fit `uint32_t`, and the far
  -- edges of the rectangle fit `int`, fillRect accesses only what is in the buffer, and changes the pixels of the
  -- rectangle that lie in the window and no others: each of those is painted over, or blended when the
  -- colour is not opaque.
  pub fill_rect-Drawn :
      (q : Rect) (color : Color) (m : Canvas)
      → IsCanvas m
      → HasEdges q
      → (m' : Canvas) × (fill_rect fl q color m ≡ some m')
        × Drawn q (λ row col. paint fl color) m m'
  unfolding fill_rect
  fill_rect-Drawn q color m w edges = fill_with-Drawn q (λ row col. paint fl color) m w edges

  -- The same of fillRectGradient, with the colour of each column.
  pub fill_rect_gradient-Drawn :
      (q : Rect) (left right : Color) (m : Canvas)
      → IsCanvas m
      → HasEdges q
      → (m' : Canvas) × (fill_rect_gradient fl q left right m ≡ some m')
        × Drawn q (λ row col. paint fl (gradient_color fl q left right col)) m m'
  unfolding fill_rect_gradient
  fill_rect_gradient-Drawn q left right m w edges =
      fill_with-Drawn q (λ row col. paint fl (gradient_color fl q left right col)) m w edges

  -- setPixel does what fillRect does for a rectangle of one pixel, wherever that lies.
  pub set_pixel-fill_rect :
      (x y : ℕ) (color : Color) (m : Canvas)
      → set_pixel fl x y color m
        ≡ fill_rect fl (record { x = x; y = y; width = int32 1; height = int32 1 }) color m
  unfolding set_pixel fill_rect fill_with
  set_pixel-fill_rect x y color m =
      let w = to_int m.width in
      let h = to_int m.height in
      let low = to_int_below m.width in
      let low' = to_int_below m.height in
      let c = from_edge x in
      let r = from_edge y in
      elim (Bool-cases (ltb x 2147483648 || leb w x || (ltb y 2147483648 || leb h y))) [
        | inl out ↦
            rw (out, set_pixel, fill_rect, fill_with)
              (if_elim (λ o. some m ≡ o) (leb w x || leb h y) (λ e. refl)
                (λ e.
                  let right : is_int_sum x (int32 1) ≡ true = ground (arith, e, low) in
                  let bottom : is_int_sum y (int32 1) ≡ true = ground (arith, e, low') in
                  rw (right, bottom)
                    (if_elim (λ o. some m ≡ o) (leb (x + int32 1) 4294967296) (λ e'. refl)
                      (λ e'.
                        if_elim (λ o. some m ≡ o) (leb (y + int32 1) 4294967296) (λ e''. refl)
                          (λ e''. absurd (ground (arith, out, e, e', e'')))))))
        | inr inside ↦
            let one_col : rounds_to w x (int32 1) ≡ 1 = ground (arith, inside) in
            let one_row : rounds_to h y (int32 1) ≡ 1 = ground (arith, inside) in
            let off : (leb w x || leb h y) ≡ false = ground (arith, inside) in
            let right : is_int_sum x (int32 1) ≡ true = ground (arith, inside, low) in
            let bottom : is_int_sum y (int32 1) ≡ true = ground (arith, inside, low') in
            let over : leb (x + int32 1) 4294967296 ≡ false = ground (arith, inside) in
            let over' : leb (y + int32 1) 4294967296 ≡ false = ground (arith, inside) in
            rw
              (
                inside, off, right, bottom, over, over', one_col, one_row, set_pixel, fill_rect,
                fill_with,
              )
              (one_write (write_at (r * m.width + c) (paint fl color) m.framebuffer) m)
      ]
