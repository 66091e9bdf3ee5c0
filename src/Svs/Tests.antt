-- ===== src/Svs/Tests.antt =====
-- The layout that the code sets out with.
use posix_bsp_perf.Prelude.Perms.{count}
use posix_bsp_perf.Prelude.{ℕ, ◌<◌, ◌≡◌, refl, true, All, arith}
use posix_bsp_perf.Svs.{default_layout, left, projected, blend, project_size, apply_flip}
use posix_bsp_perf.Svs.Tiles.{IsRoomy, IsPlaced, covers, blend-IsPlaced}

default-IsRoomy : IsRoomy default_layout
default-IsRoomy = record { wide = omega arith; high = omega arith }

left_projected : projected left default_layout ≡ record { width = 500; height = 1600 }
unfolding projected project_size apply_flip
left_projected = refl

blend-IsPlaced_example :
    All (IsPlaced default_layout) (blend default_layout true)
    × ((x y : ℕ) → x < 1200 → y < 1600 → count (covers x y) (blend default_layout true) ≡ 1)
blend-IsPlaced_example = blend-IsPlaced default_layout true default-IsRoomy
