-- ===== src/Cpu2dGraphics/Tests.antt =====
-- Runs of the drawing on a canvas of three columns and two rows.
use posix_bsp_perf.Prelude.{
  ℕ, ◌+◌, ◌-◌, ◌*◌, ◌/◌, ◌≡◌, refl, false, some, ltb, leb, replicate, if◌then◌else◌, arith,
}
use posix_bsp_perf.Yolo.{Floats, int32}
use posix_bsp_perf.Cpu2dGraphics.{
  Color, color_to_uint32, Canvas, clear, Rect, write_at, fill_with, blend_color, paint, fill_rect,
  fill_rect_gradient, gradient_color, set_pixel, to_int,
}
use posix_bsp_perf.Cpu2dGraphics.Paint.{
  IsCanvas, HasEdges, Drawn, fill_rect-Drawn, fill_rect_gradient-Drawn, set_pixel-fill_rect,
}

-- Numbers by hundreds.
abbrev hundredths : Floats
hundredths = record {
  Float = ℕ;
  nought = 0;
  half = 50;
  one = 100;
  two = 200;
  add = λ a b. a + b;
  sub = λ a b. a - b;
  mul = λ a b. a * b / 100;
  div = λ a b. 100 * a / b;
  gt = λ a b. ltb b a;
  le = λ a b. leb a b;
  fmin = λ a b. if ltb a b then a else b;
  fmax = λ a b. if ltb a b then b else a;
  of_int8 = λ a. 100 * (a - 128);
  of_int32 = λ a. 100 * (a - 2147483648);
  to_int32 = λ a. a / 100 + 2147483648;
  is_invalid = λ a. false;
}

abbrev blank : Canvas
blank = record { framebuffer = replicate 6 0; width = 3; height = 2 }

abbrev blue : Color
blue = record { r = 0; g = 0; b = 9; a = 255 }

-- One column to the left of the window and one in it.
abbrev left_edge : Rect
left_edge = record { x = int32 0 - 1; y = int32 0; width = int32 2; height = int32 2 }

left_edge-blue : fill_rect hundredths left_edge (record blue { a = 0 }) blank ≡ some blank
unfolding fill_rect fill_with to_int write_at paint blend_color
left_edge-blue = refl

blank-IsCanvas : IsCanvas blank
blank-IsCanvas = record { rows = refl; wide = omega arith; high = omega arith; small = omega arith }

left_edge-HasEdges : HasEdges left_edge
left_edge-HasEdges = record { right = refl; bottom = refl }

blue_pixel : color_to_uint32 blue ≡ 4278190089
unfolding color_to_uint32
blue_pixel = refl

cleared_blue : clear blue blank ≡ record blank { framebuffer = replicate 6 4278190089 }
unfolding clear color_to_uint32
cleared_blue = refl

fill_rect-Drawn_example :
    (m' : Canvas) × (fill_rect hundredths left_edge blue blank ≡ some m')
    × Drawn left_edge (λ row col. paint hundredths blue) blank m'
fill_rect-Drawn_example =
    fill_rect-Drawn hundredths left_edge blue blank blank-IsCanvas left_edge-HasEdges

fill_rect_gradient-Drawn_run :
    (m' : Canvas) × (fill_rect_gradient hundredths left_edge blue (record blue { b = 200 }) blank
      ≡ some m')
    × Drawn left_edge
        (λ row col.
          paint hundredths (gradient_color hundredths left_edge blue (record blue { b = 200 }) col))
        blank
        m'
fill_rect_gradient-Drawn_run =
    fill_rect_gradient-Drawn hundredths left_edge blue (record blue { b = 200 }) blank
      blank-IsCanvas left_edge-HasEdges

set_pixel-fill_rect_example :
    set_pixel hundredths (int32 1) (int32 1) blue blank
    ≡ fill_rect hundredths
        (record { x = int32 1; y = int32 1; width = int32 1; height = int32 1 })
        blue
        blank
set_pixel-fill_rect_example = set_pixel-fill_rect hundredths (int32 1) (int32 1) blue blank
