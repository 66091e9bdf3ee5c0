-- ===== src/Yolo/Suppress.antt =====
-- The two loops of YoloPostProcess::nms, for one class.
use posix_bsp_perf.Prelude.{
  ℕ, zero, suc, ◌+◌, ◌-◌, ◌≤◌, ◌<◌, ◌≡◌, inl, inr, refl, ◌∙◌, ◌||◌, ◌&&◌, Option, none, some,
  Option-cases, List, ltb, leb, ◌==◌, if◌then◌else◌, length, length-set, get_or-set, arith,
}
use posix_bsp_perf.Yolo.{
  Floats, Candidates, index_at, is_skipped, is_outside, overlaps, suppress_at, suppress_from,
  nms_at,
}

module _ (fl : Floats) (c : Candidates fl) (filter_id : ℕ) where
  -- What becomes of a place behind one that holds `n`.
  unfoldable pub after : ℕ → Option ℕ → Option ℕ
  after n none = none
  after n (some m) =
      if is_skipped fl c filter_id m
      then some m
      else if is_outside fl c n || is_outside fl c m
      then some m
      else if overlaps fl c n m
      then none
      else some m

  length-suppress_at :
      (n j : ℕ) (order : List (Option ℕ))
      → length (suppress_at fl c filter_id n j order) ≡ length order
  unfolding suppress_at
  length-suppress_at n j order = ground (arith, length-set order j none)

  index_at-suppress_at :
      (n j b : ℕ) (order : List (Option ℕ))
      → j < length order
      → index_at (suppress_at fl c filter_id n j order) b
        ≡ (if j == b then after n (index_at order b) else index_at order b)
  unfolding suppress_at after
  index_at-suppress_at n j b order h = ground (arith, get_or-set order j b none none h)

  -- The inner loop does this to every place that it visits, and to no other.
  index_at-suppress_from :
      (rounds n j b : ℕ) (order : List (Option ℕ))
      → j + rounds ≤ length order
      → index_at (suppress_from fl c rounds filter_id n j order) b
        ≡ (if leb j b && ltb b (j + rounds) then after n (index_at order b) else index_at order b)
  unfolding suppress_from
  index_at-suppress_from zero n j b order h = ground arith
  index_at-suppress_from (suc rounds) n j b order h = ground (
    arith,
    index_at-suppress_from rounds n (suc j) b (suppress_at fl c filter_id n j order),
    index_at-suppress_at n j b order,
    length-suppress_at n j order,
  )

  length-suppress_from :
      (rounds n j : ℕ) (order : List (Option ℕ))
      → length (suppress_from fl c rounds filter_id n j order) ≡ length order
  unfolding suppress_from
  length-suppress_from zero n j order = refl
  length-suppress_from (suc rounds) n j order =
      length-suppress_from rounds n (suc j) (suppress_at fl c filter_id n j order)
      ∙ length-suppress_at n j order

  -- What a round of the outer loop makes of place `b`.
  unfoldable pub struck : ℕ → List (Option ℕ) → ℕ → Option ℕ
  unfolding after
  struck i order b = elim (index_at order i) [
    | none ↦ index_at order b
    | some n ↦
        if is_skipped fl c filter_id n
        then index_at order b
        else if leb (suc i) b && ltb b c.valid_count
        then after n (index_at order b)
        else index_at order b
  ]

  pub index_at-nms_at :
      (i b : ℕ) (order : List (Option ℕ))
      → i < c.valid_count
      → c.valid_count ≤ length order
      → index_at (nms_at fl c filter_id i order) b ≡ struck i order b
  unfolding nms_at struck
  index_at-nms_at i b order h k =
      let end : suc i + (c.valid_count - suc i) ≡ c.valid_count = omega arith in
      let inner =
        λ (n : ℕ). index_at-suppress_from (c.valid_count - suc i) n (suc i) b order (omega arith) in
      elim (Option-cases (index_at order i)) [
        | inl gone ↦ rw (gone, nms_at, struck) refl
        | inr (n, here) ↦ rw (here, nms_at, struck) (ground (arith, inner n, end))
      ]

  pub length-nms_at :
      (i : ℕ) (order : List (Option ℕ)) → length (nms_at fl c filter_id i order) ≡ length order
  unfolding nms_at
  length-nms_at i order = elim (Option-cases (index_at order i)) [
    | inl gone ↦ rw (gone, nms_at) refl
    | inr (n, here) ↦
        rw (here, nms_at)
          (ground (arith, length-suppress_from (c.valid_count - suc i) n (suc i) order))
  ]
