-- ===== src/Svs.antt =====
-- features/svs: where SvsBlender::blend puts the parts of the four projected images. OpenCV holds and copies
-- the images: here an image is its size, and a copy or a merge is the rectangles that the code hands over.
-- Lengths are taken to fit an `int`, and a difference that would be negative is 0.
pub mod Tiles
mod Tests
use posix_bsp_perf.Prelude.{
  ℕ, ◌+◌, ◌-◌, ◌*◌, Bool, true, false, not, ◌&&◌, ◌||◌, Option, none, some, List, [], ◌∷◌, ltb, leb,
  ◌==◌, if◌then◌else◌,
}

pub record ProjectionLayout : Type 0 where
  pub shift_width : ℕ
  pub shift_height : ℕ
  pub calibration_map_width : ℕ
  pub calibration_map_height : ℕ
  pub inner_shift_width : ℕ
  pub inner_shift_height : ℕ
  pub vehicle_offset_width : ℕ
  pub vehicle_offset_height : ℕ

abbrev pub default_layout : ProjectionLayout
default_layout = record {
  shift_width = 300;
  shift_height = 300;
  calibration_map_width = 600;
  calibration_map_height = 1000;
  inner_shift_width = 20;
  inner_shift_height = 50;
  vehicle_offset_width = 180;
  vehicle_offset_height = 200;
}

-- `cv::Size`
pub record Size : Type 0 where
  pub width : ℕ
  pub height : ℕ

-- `cv::Rect`
pub record Rect : Type 0 where
  pub x : ℕ
  pub y : ℕ
  pub width : ℕ
  pub height : ℕ

module _ (l : ProjectionLayout) where
  abbrev pub total_width : ℕ
  total_width = l.calibration_map_width + 2 * l.shift_width

  abbrev pub total_height : ℕ
  total_height = l.calibration_map_height + 2 * l.shift_height

  abbrev pub vehicle_left : ℕ
  vehicle_left = l.shift_width + l.vehicle_offset_width + l.inner_shift_width

  abbrev pub vehicle_right : ℕ
  vehicle_right = total_width - vehicle_left

  abbrev pub vehicle_top : ℕ
  vehicle_top = l.shift_height + l.vehicle_offset_height + l.inner_shift_height

  abbrev pub vehicle_bottom : ℕ
  vehicle_bottom = total_height - vehicle_top

  abbrev pub output_size : Size
  output_size = record { width = total_width; height = total_height }

-- The cameras in their order, and how the images are turned.
pub data Camera : Type 0 where
  front left back right : Camera

pub data FlipMode : Type 0 where
  unturned clockwise counterclockwise half_turn : FlipMode

abbrev pub flip_mode : Camera → FlipMode
flip_mode front = unturned
flip_mode left = counterclockwise
flip_mode back = half_turn
flip_mode right = clockwise

-- `projectSize` for the names of the four cameras.
unfoldable pub project_size : Camera → ProjectionLayout → Size
project_size front l = record { width = total_width l; height = vehicle_top l }
project_size left l = record { width = total_height l; height = vehicle_left l }
project_size back l = record { width = total_width l; height = vehicle_top l }
project_size right l = record { width = total_height l; height = vehicle_left l }

-- What `cv::rotate` makes of the size.
unfoldable pub apply_flip : FlipMode → Size → Size
apply_flip unturned s = s
apply_flip clockwise s = record { width = s.height; height = s.width }
apply_flip counterclockwise s = record { width = s.height; height = s.width }
apply_flip half_turn s = s

unfoldable pub projected : Camera → ProjectionLayout → Size
unfolding project_size apply_flip
projected c l = apply_flip (flip_mode c) (project_size c l)

-- A part of the output that is copied from one image, or merged of two with the weights of a corner.
pub data Part : Type 0 where
  copied : Camera → Rect → Part
  merged : Camera → Rect → Camera → Rect → ℕ → Part
  vehicle : Part

pub record Tile : Type 0 where
  pub part : Part
  pub out : Rect

-- `cv::Rect(x, y, w, h)`
abbrev pub rect : ℕ → ℕ → ℕ → ℕ → Rect
rect x y w h = record { x = x; y = y; width = w; height = h }

module _ (l : ProjectionLayout) where
  unfoldable pub blend : Bool → List Tile
  blend has_vehicle_image =
      let total_w = total_width l in
      let xl = vehicle_left l in
      let xr = vehicle_right l in
      let yt = vehicle_top l in
      let yb = vehicle_bottom l in
      let tiles =
        record { part = copied front (rect xl 0 (xr - xl) yt); out = rect xl 0 (xr - xl) yt }
        ∷ record { part = copied left (rect 0 yt xl (yb - yt)); out = rect 0 yt xl (yb - yt) }
        ∷ record {
          part = copied right (rect 0 yt xl (yb - yt));
          out = rect xr yt (total_w - xr) (yb - yt);
        }
        ∷ record { part = copied back (rect xl 0 (xr - xl) yt); out = rect xl yb (xr - xl) yt }
        ∷ record {
          part = merged front (rect 0 0 xl yt) left (rect 0 0 xl yt) 2;
          out = rect 0 0 xl yt;
        }
        ∷ record {
          part = merged front (rect xr 0 xl yt) right (rect 0 0 xl yt) 1;
          out = rect xr 0 xl yt;
        }
        ∷ record {
          part = merged back (rect 0 0 xl yt) left (rect 0 yb xl yt) 0;
          out = rect 0 yb xl yt;
        }
        ∷ record {
          part = merged back (rect xr 0 xl yt) right (rect 0 yb xl yt) 3;
          out = rect xr yb xl yt;
        }
        ∷ [] in
      if has_vehicle_image
      then record { part = vehicle; out = rect xl yt (xr - xl) (yb - yt) } ∷ tiles
      else tiles
