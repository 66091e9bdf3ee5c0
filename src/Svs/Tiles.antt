-- ===== src/Svs/Tiles.antt =====
-- SvsBlender::blend: the parts lie in the images, are as large as their places, and fill the output.
use posix_bsp_perf.Prelude.Perms.{count}
use posix_bsp_perf.Prelude.{
  ℕ, ◌+◌, ◌-◌, ◌*◌, ◌≤◌, ◌<◌, ◌≡◌, inl, inr, refl, Bool, Bool-cases, true, false, ◌&&◌, ltb, leb,
  if◌then◌else◌, All, arith,
}
use posix_bsp_perf.Svs.{
  ProjectionLayout, Size, Rect, total_width, total_height, vehicle_left, vehicle_right, vehicle_top,
  vehicle_bottom, output_size, project_size, apply_flip, projected, Part, copied, merged, vehicle,
  Tile, blend,
}

-- The two sides leave room for the vehicle between them, and so do the front and the back.
pub record IsRoomy (l : ProjectionLayout) : Type 0 where
  pub wide : 2 * vehicle_left l ≤ total_width l
  pub high : 2 * vehicle_top l ≤ total_height l

abbrev pub LiesIn : Rect → Size → Type 0
LiesIn r s = (r.x + r.width ≤ s.width) × (r.y + r.height ≤ s.height)

abbrev pub SameSize : Rect → Rect → Type 0
SameSize r s = (r.width ≡ s.width) × (r.height ≡ s.height)

-- OpenCV accepts the rectangles, and no copy or merge is of parts of different sizes.
abbrev pub IsSource : ProjectionLayout → Rect → Part → Type 0
IsSource l out (copied c r) = LiesIn r (projected c l) × SameSize r out
IsSource l out (merged c r d s weights) =
    (LiesIn r (projected c l) × SameSize r out) × (LiesIn s (projected d l) × SameSize s out)
IsSource l out vehicle = Unit

abbrev pub IsPlaced : ProjectionLayout → Tile → Type 0
IsPlaced l t = LiesIn t.out (output_size l) × IsSource l t.out t.part

abbrev pub covers : ℕ → ℕ → Tile → Bool
covers x y t =
    (leb t.out.x x && ltb x (t.out.x + t.out.width))
    && (leb t.out.y y && ltb y (t.out.y + t.out.height))

-- The three strips of a length `n` with a strip of `a` at both ends: `x` is in one of them.
abbrev strip : ℕ → ℕ → ℕ → Bool
strip from width x = leb from x && ltb x (from + width)

data OneOf (p q r : Bool) : Type 0 where
  first : p ≡ true → q ≡ false → r ≡ false → OneOf p q r
  second : p ≡ false → q ≡ true → r ≡ false → OneOf p q r
  third : p ≡ false → q ≡ false → r ≡ true → OneOf p q r

strips :
    (a n x : ℕ)
    → 2 * a ≤ n
    → x < n
    → OneOf (strip 0 a x) (strip a (n - a - a) x) (strip (n - a) a x)
strips a n x h low = elim (Bool-cases (ltb x a)) [
  | inl e ↦ first (ground (arith, e)) (ground (arith, e)) (ground (arith, e, h))
  | inr e ↦ elim (Bool-cases (ltb x (n - a))) [
    | inl e' ↦ second (ground (arith, e)) (ground (arith, e, e')) (ground (arith, e'))
    | inr e' ↦ third (ground (arith, e)) (ground (arith, e')) (ground (arith, e'))
  ]
]

sum_of_nine : Bool → Bool → Bool → Bool → Bool → Bool → ℕ
sum_of_nine p q r s t u =
    (if q && t then 1 else 0)
    + ((if q && s then 1 else 0)
        + ((if p && t then 1 else 0)
            + ((if r && t then 1 else 0)
                + ((if q && u then 1 else 0)
                    + ((if p && s then 1 else 0)
                        + ((if r && s then 1 else 0)
                            + ((if p && u then 1 else 0) + ((if r && u then 1 else 0) + 0))))))))

one_of_nine : {p q r s t u : Bool} → OneOf p q r → OneOf s t u → sum_of_nine p q r s t u ≡ 1
unfolding sum_of_nine
one_of_nine (first a b c) (first d e f) = rw (a, b, c, d, e, f) refl
one_of_nine (first a b c) (second d e f) = rw (a, b, c, d, e, f) refl
one_of_nine (first a b c) (third d e f) = rw (a, b, c, d, e, f) refl
one_of_nine (second a b c) (first d e f) = rw (a, b, c, d, e, f) refl
one_of_nine (second a b c) (second d e f) = rw (a, b, c, d, e, f) refl
one_of_nine (second a b c) (third d e f) = rw (a, b, c, d, e, f) refl
one_of_nine (third a b c) (first d e f) = rw (a, b, c, d, e, f) refl
one_of_nine (third a b c) (second d e f) = rw (a, b, c, d, e, f) refl
one_of_nine (third a b c) (third d e f) = rw (a, b, c, d, e, f) refl

covered_once :
    (l : ProjectionLayout) (x y : ℕ)
    → IsRoomy l
    → x < total_width l
    → y < total_height l
    → count (covers x y) (blend l true) ≡ 1
unfolding blend sum_of_nine
covered_once l x y r h h' =
    let same : total_width l - vehicle_right l ≡ vehicle_left l = omega (arith, r.wide) in
    let same' : total_height l - vehicle_bottom l ≡ vehicle_top l = omega (arith, r.high) in
    rw (same) (
      one_of_nine (strips (vehicle_left l) (total_width l) x r.wide h)
        (strips (vehicle_top l) (total_height l) y r.high h'))

without_vehicle : (l : ProjectionLayout) → IsRoomy l → All (IsPlaced l) (blend l false)
unfolding blend projected project_size apply_flip
without_vehicle l r = ground (arith, r.wide, r.high)

either_way : (l : ProjectionLayout) (has : Bool) → IsRoomy l → All (IsPlaced l) (blend l has)
unfolding blend
either_way l true r = (((omega (arith, r.wide), omega (arith, r.high)), tt), without_vehicle l r)
either_way l false r = without_vehicle l r

-- If the layout leaves room for the vehicle, every part of the output lies in it and comes of parts of
-- that size which lie in the projected images, and with a picture of the vehicle the parts cover each
-- pixel of the output exactly once.
pub blend-IsPlaced :
    (l : ProjectionLayout) (has_vehicle_image : Bool)
    → IsRoomy l
    → All (IsPlaced l) (blend l has_vehicle_image)
      × ((x y : ℕ) → x < total_width l → y < total_height l → count (covers x y) (blend l true) ≡ 1)
unfolding blend projected project_size apply_flip
blend-IsPlaced l has r = (either_way l has r, λ x y h h'. covered_once l x y r h h')
