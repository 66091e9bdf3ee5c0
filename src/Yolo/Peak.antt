-- ===== src/Yolo/Peak.antt =====
-- The likeliest class of a cell in YoloPostProcess::doProcess, and the bounds of what the loops read.
use posix_bsp_perf.Prelude.{
  ℕ, zero, suc, ◌+◌, ◌*◌, ◌≤◌, ◌<◌, ◌≡◌, ◌⊎◌, inl, inr, refl, sym, subst, ◌||◌, Bool-cases, ltb→lt,
  ltb→le, ltb, leb, if_elim, length, arith,
}
use posix_bsp_perf.Yolo.{Floats}
use posix_bsp_perf.Yolo.Decode.{
  obj_class_num, Plane, grid_len, offset_of, box_confidence, better, byte_at, max_class_from,
  max_class, thres_i8, is_passed_over,
}
use posix_bsp_perf.Yolo.Grid.{IsWhole, layers_le, offset-bound}

module _ (fl : Floats) (p : Plane fl) where
  module _ (offset : ℕ) where
    -- The pair holds a class below `n`, its byte, and no class below `n` has more,
    -- nor has one before it as much.
    record Peak (n : ℕ) (best : ℕ × ℕ) : Type 0 where
      below : best.0 < n
      own : best.1 ≡ byte_at fl p offset (5 + best.0)
      most : (k : ℕ) → k < n → byte_at fl p offset (5 + k) ≤ best.1
      early : (k : ℕ) → k < best.0 → byte_at fl p offset (5 + k) < best.1

    Peak-better :
        (n : ℕ) (best : ℕ × ℕ)
        → Peak n best
        → Peak (suc n) (better fl p n (byte_at fl p offset (5 + n)) best)
    Peak-better n best q =
        let prob = byte_at fl p offset (5 + n) in
        if_elim (Peak (suc n)) (ltb best.1 prob)
          (λ e. record {
            below = omega arith;
            own = refl;
            most = λ k h. elim (Bool-cases (ltb k n)) [
              | inl low ↦ omega (arith, q.most k (ltb→lt k n low), ltb→lt best.1 prob e)
              | inr top ↦
                  let same : k ≡ n = omega (arith, ltb→le k n top) in
                  subst (λ x. byte_at fl p offset (5 + x) ≤ prob) (sym same) (omega arith)
            ];
            early = λ k h. omega (arith, q.most k h, ltb→lt best.1 prob e);
          })
          (λ e. record {
            below = omega (arith, q.below);
            own = q.own;
            most = λ k h. elim (Bool-cases (ltb k n)) [
              | inl low ↦ q.most k (ltb→lt k n low)
              | inr top ↦
                  let same : k ≡ n = omega (arith, ltb→le k n top) in
                  subst (λ x. byte_at fl p offset (5 + x) ≤ best.1) (sym same)
                    (omega (arith, ltb→le best.1 prob e))
            ];
            early = q.early;
          })

    Peak-max_class_from :
        (rounds n : ℕ) (best : ℕ × ℕ)
        → n + rounds ≡ obj_class_num
        → offset + 84 * grid_len fl p < length p.input_buf
        → Peak n best
        → Peak obj_class_num (max_class_from fl p rounds offset n best)
    unfolding max_class_from
    Peak-max_class_from zero n best e h q =
        let same : n ≡ obj_class_num = omega arith in subst (λ x. Peak x best) same q
    Peak-max_class_from (suc rounds) n best e h q =
        if_elim (Peak obj_class_num) (leb (length p.input_buf) (offset + (5 + n) * grid_len fl p))
          (λ b. absurd (ground (arith, b, layers_le (5 + n) 84 (grid_len fl p) (omega arith))))
          (λ b. Peak-max_class_from rounds (suc n) _ (omega arith) h (Peak-better n best q))

    Peak-max_class :
        offset + 84 * grid_len fl p < length p.input_buf
        → Peak obj_class_num (max_class fl p offset)
    unfolding max_class
    Peak-max_class h =
        Peak-max_class_from 79 1 (0, byte_at fl p offset 5) (omega arith) h
          record {
            below = omega arith;
            own = refl;
            most = λ k h'.
                let same : k ≡ 0 = omega arith in
                subst (λ x. byte_at fl p offset (5 + x) ≤ byte_at fl p offset 5) (sym same)
                  (omega arith);
            early = λ k h'. absurd (omega arith);
          }

  -- For a cell of the grid of an output that is large enough, `max_class` gives a class with its byte,
  -- such that no class has a higher byte, and one with as high a byte is not before it.
  pub max_class-byte_at :
      (a i j k : ℕ)
      → IsWhole fl p
      → a < 3
      → i < p.grid_h
      → j < p.grid_w
      → k < obj_class_num
      → (((max_class fl p (offset_of fl p a i j)).1
            ≡ byte_at fl p (offset_of fl p a i j) (5 + (max_class fl p (offset_of fl p a i j)).0))
          × (byte_at fl p (offset_of fl p a i j) (5 + k)
              ≤ (max_class fl p (offset_of fl p a i j)).1)
          × (((max_class fl p (offset_of fl p a i j)).0 ≤ k)
              ⊎ (byte_at fl p (offset_of fl p a i j) (5 + k)
                  < (max_class fl p (offset_of fl p a i j)).1)))
  max_class-byte_at a i j k w h h' h'' low =
      let best = max_class fl p (offset_of fl p a i j) in
      let q =
        Peak-max_class (offset_of fl p a i j)
          (offset-bound fl p a i j 84 w h h' h'' (omega arith)) in
      (
        q.own,
        q.most k low,
        elim (Bool-cases (ltb k best.0)) [
          | inl before ↦ inr (q.early k (ltb→lt k best.0 before))
          | inr after ↦ inl (ltb→le k best.0 after)
        ],
      )

  -- For a cell of the grid of an output that is large enough, no test of an index fails: a cell is
  -- passed over exactly for its confidence or for the byte of its likeliest class.
  pub is_passed_over-thres_i8 :
      (a i j : ℕ)
      → IsWhole fl p
      → a < 3
      → i < p.grid_h
      → j < p.grid_w
      → is_passed_over fl p a i j ≡ (
          ltb (box_confidence fl p a i j) (thres_i8 fl p)
          || leb (max_class fl p (offset_of fl p a i j)).1 (thres_i8 fl p))
  unfolding is_passed_over
  is_passed_over-thres_i8 a i j w h h' h'' = ground (
    arith,
    offset-bound fl p a i j 0 w h h' h'' (omega arith),
    offset-bound fl p a i j 4 w h h' h'' (omega arith),
    offset-bound fl p a i j 5 w h h' h'' (omega arith),
  )
