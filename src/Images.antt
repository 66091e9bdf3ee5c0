-- ===== src/Images.antt =====
-- bsp/bsp_image/ImageTypes.hpp: the description of an image, and a view of one in host memory. What a
-- pointer to an array points to is the list of its bytes, and `none` is the null pointer. The
-- fields for other kinds of memory, which the modelled code does not set, are left out, and so
-- are the planes behind the first.
use posix_bsp_perf.Prelude.{
  ℕ, Bool, true, false, ◌||◌, Option, none, some, List, [], ◌∷◌, ltb, ◌==◌, if◌then◌else◌,
}
use posix_bsp_perf.Buffers.{Buffer}

pub record ImageDesc : Type 0 where
  pub width : ℕ
  pub height : ℕ
  pub width_stride : ℕ
  pub height_stride : ℕ
  pub format : List ℕ
  pub data_size : ℕ

pub record ImageView : Type 0 where
  pub desc : ImageDesc
  pub plane_count : ℕ
  pub pixels : Option Buffer
  pub size : ℕ
  pub row_stride : ℕ

abbrev is_empty_text : List ℕ → Bool
is_empty_text [] = true
is_empty_text (c ∷ cs) = false

abbrev is_null : Option Buffer → Bool
is_null none = true
is_null (some bytes) = false

-- `ImageDesc::empty`
unfoldable pub has_no_pixels : ImageDesc → Bool
has_no_pixels d = d.width == 0 || (d.height == 0 || is_empty_text d.format)

-- `ImageView::empty`
unfoldable pub is_empty_view : ImageView → Bool
unfolding has_no_pixels
is_empty_view v = has_no_pixels v.desc || (v.plane_count == 0 || is_null v.pixels)

abbrev or_else : ℕ → ℕ → ℕ
or_else n m = if n == 0 then m else n

unfoldable pub make_host_image_view : Option Buffer → ImageDesc → ℕ → ImageView
make_host_image_view pixels d row_stride =
    let stride = or_else d.width_stride d.width in
    record {
      desc = record d { width_stride = stride; height_stride = or_else d.height_stride d.height };
      plane_count = 1;
      pixels = pixels;
      size = d.data_size;
      row_stride = if ltb 0 row_stride then row_stride else stride;
    }
