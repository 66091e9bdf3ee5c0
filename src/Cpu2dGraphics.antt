-- ===== src/Cpu2dGraphics.antt =====
-- bsp/bsp_egl/Cpu2dGraphics.cpp: drawing into a frame buffer of 32-bit pixels, row by row. `none` is an
-- access out of the buffer, a sum that overflows an `int`, or an index that does not fit `uint32_t`, whose
-- wrapping is not followed. Numbers of type `int` and `float` are held as for YoloPostProcess.cpp; the four bytes of a pixel are
-- composed by shifts and `|`, which on bytes are products and sums.
pub mod Paint
pub mod Rows
mod Tests
use posix_bsp_perf.Prelude.{
  ℕ, zero, suc, ◌+◌, ◌-◌, ◌*◌, ◌/◌, ◌%◌, Bool, true, false, not, ◌&&◌, ◌||◌, Option, none, some,
  List, [], ◌∷◌, ltb, leb, ◌==◌, if◌then◌else◌, length, get_or, set, map, min, each_some,
}
use posix_bsp_perf.Yolo.{Floats, int32}

pub record Color : Type 0 where
  pub r : ℕ
  pub g : ℕ
  pub b : ℕ
  pub a : ℕ

unfoldable pub color_to_uint32 : Color → ℕ
color_to_uint32 c = 16777216 * c.a + (65536 * c.r + (256 * c.g + c.b))

pub record Canvas : Type 0 where
  pub framebuffer : List ℕ
  pub width : ℕ
  pub height : ℕ

unfoldable pub clear : Color → Canvas → Canvas
unfolding color_to_uint32
clear color m = record m { framebuffer = map (λ p. color_to_uint32 color) m.framebuffer }

-- `line[col] = f(line[col])`
unfoldable pub write_at : ℕ → (ℕ → ℕ) → List ℕ → Option (List ℕ)
unfolding get_or set
write_at i f fb =
    if ltb i (length fb) && ltb i 4294967296 then some (set fb i (f (get_or fb i 0))) else none

-- A rectangle: the place and the size are values of type `int`.
pub record Rect : Type 0 where
  pub x : ℕ
  pub y : ℕ
  pub width : ℕ
  pub height : ℕ

-- `max(0, x)`, and `min(limit, x + width)`, from which `max(0, x)` is taken off for the rounds of the loop.
abbrev pub from_edge : ℕ → ℕ
from_edge x = x - 2147483648

abbrev pub rounds_to : ℕ → ℕ → ℕ → ℕ
rounds_to limit x width = min (from_edge limit) (x + width - 4294967296) - from_edge x

-- `static_cast<int>` of a `uint32_t`
unfoldable pub to_int : ℕ → ℕ
to_int n = (n + 2147483648) % 4294967296

-- The sum of two numbers of type `int` is one.
abbrev pub is_int_sum : ℕ → ℕ → Bool
is_int_sum a b = leb 2147483648 (a + b) && ltb (a + b) 6442450944

-- The loops of fillRect and of fillRectGradient, `f` for the pixel in a row and a column.
unfoldable pub fill_with : Rect → (ℕ → ℕ → ℕ → ℕ) → Canvas → Option Canvas
unfolding write_at to_int
fill_with q f m =
    let fill =
      each_some (rounds_to (to_int m.height) q.y q.height) (from_edge q.y)
        (λ row.
          each_some (rounds_to (to_int m.width) q.x q.width) (from_edge q.x)
            (λ col. write_at (row * m.width + col) (f row col)))
        m.framebuffer in
    if leb (to_int m.width) q.x || leb (to_int m.height) q.y
    then some m
    else if not (is_int_sum q.x q.width)
    then none
    else if leb (q.x + q.width) 4294967296
    then some m
    else if not (is_int_sum q.y q.height)
    then none
    else if leb (q.y + q.height) 4294967296
    then some m
    else elim fill [ none ↦ none | some fb ↦ some (record m { framebuffer = fb }) ]

module _ (fl : Floats) where
  open fl use {Float, nought, one, add, sub, mul, div, gt, of_int32, to_int32}

  abbrev pub of_byte : ℕ → Float
  of_byte n = of_int32 (int32 n)

  -- `static_cast<uint8_t>`
  abbrev pub to_byte : Float → ℕ
  to_byte x = (to_int32 x - 2147483648) % 256

  unfoldable pub blend_color : ℕ → Color → ℕ
  unfolding color_to_uint32
  blend_color dst src =
      let alpha = div (of_byte src.a) (of_byte 255) in
      let mix =
        λ (s d : ℕ). to_byte (add (mul (of_byte s) alpha) (mul (of_byte d) (sub one alpha))) in
      if src.a == 0
      then dst
      else if src.a == 255
      then color_to_uint32 src
      else color_to_uint32 (record {
        r = mix src.r (dst / 65536 % 256);
        g = mix src.g (dst / 256 % 256);
        b = mix src.b (dst % 256);
        a = min 255 (src.a + dst / 16777216 % 256);
      })

  -- `color.a == 255 ? colorToUint32(color) : blendColor(pixel, color)`
  unfoldable pub paint : Color → ℕ → ℕ
  unfolding blend_color
  paint color pixel = if color.a == 255 then color_to_uint32 color else blend_color pixel color

  unfoldable pub fill_rect : Rect → Color → Canvas → Option Canvas
  unfolding fill_with paint
  fill_rect q color m = fill_with q (λ row col. paint color) m

  -- The colour in a column of the gradient. A byte of `colorRight` below that of `colorLeft` turns a
  -- negative number into an unsigned byte, which C++ leaves undefined; here it gives 0.
  unfoldable pub gradient_color : Rect → Color → Color → ℕ → Color
  gradient_color q left right col =
      let raw = div (of_int32 (int32 (int32 col) - q.x)) (of_int32 q.width) in
      let t = if gt nought raw then nought else if gt raw one then one else raw in
      let shade = λ (from to : ℕ). (from + to_byte (mul (of_int32 (int32 to - from)) t)) % 256 in
      record {
        r = shade left.r right.r;
        g = shade left.g right.g;
        b = shade left.b right.b;
        a = shade left.a right.a;
      }

  unfoldable pub fill_rect_gradient : Rect → Color → Color → Canvas → Option Canvas
  unfolding fill_with gradient_color paint
  fill_rect_gradient q left right m =
      fill_with q (λ row col. paint (gradient_color q left right col)) m

  unfoldable pub set_pixel : ℕ → ℕ → Color → Canvas → Option Canvas
  unfolding write_at paint to_int
  set_pixel x y color m =
      if ltb x 2147483648 || leb (to_int m.width) x || (ltb y 2147483648 || leb (to_int m.height) y)
      then some m
      else elim (write_at (from_edge y * m.width + from_edge x) (paint color) m.framebuffer) [
        | none ↦ none
        | some fb ↦ some (record m { framebuffer = fb })
      ]
