-- ===== src/Yolo/Kept.antt =====
-- The boxes that are left in YoloPostProcess::runPostProcess once the loop over the classes is done.
use mathlib.Core.List.{Perm}
use posix_bsp_perf.Prelude.{
  ◌⊎◌, ℕ, suc, ◌*◌, ◌^◌, ◌≤◌, ◌+◌, ◌<◌, ◌≡◌, refl, sym, ap, subst, ◌∙◌, true, false, Option, none,
  some, Option-cases, inl, inr, OnSome, List, [], ◌∷◌, map, length, get_or, arith,
}
use posix_bsp_perf.Yolo.{Floats, IsFit, index_at, overlaps}
use posix_bsp_perf.Yolo.Classes.{
  Behind, nms_classes-Behind, nms_classes-index_at, nms_classes-overlaps,
}
use posix_bsp_perf.Yolo.Decode.{
  ObjDetectParams, Found, start, anchor_vec, basic_stride, has_parameters, do_process,
}
use posix_bsp_perf.Yolo.Grid.{InStep, FitsInt, do_process-InStep, do_process-OnSome}
use posix_bsp_perf.Yolo.Order.{
  Differ, pairs_of, Ascending-class_set, IsIndexing-sorted, length-map, index_at-AllBelow,
  IsIn-class_set,
}
use posix_bsp_perf.Yolo.Run.{
  class_set, process_from, process_all, nothing_found, candidates, sorted, kept,
}

module _ (fl : Floats) where
  -- What the vectors hold between two calls of `doProcess`.
  abbrev pub Total : Found fl × ℕ → Type 0
  Total s = InStep fl s.1 (start fl s.0)

  process_from-Total :
      (params : ObjDetectParams fl) (i : ℕ) (input_data : List (List ℕ)) (s : Found fl × ℕ)
      → Total s
      → OnSome Total (process_from fl params i input_data s)
  unfolding process_from
  process_from-Total params i [] s t = t
  process_from-Total params i (input_buf ∷ rest) s t =
      let made = do_process-OnSome fl s.1 i (8 * 2 ^ i) params input_buf s.0 t in
      elim (Option-cases (do_process fl i params (8 * 2 ^ i) input_buf s.0)) [
        | inl faulted ↦ rw (faulted, process_from) tt
        | inr (f, done) ↦
            let q : InStep fl s.1 f = subst (OnSome (InStep fl s.1)) done made in
            rw (done, process_from)
              (process_from-Total params (suc i) rest _ record {
                boxes = omega (arith, q.boxes);
                scores = omega (arith, q.scores);
                classes = omega (arith, q.classes);
                known = q.known;
              })
      ]

  nothing-Total : Total (nothing_found fl, 0)
  nothing-Total = record {
    boxes = omega arith;
    scores = omega arith;
    classes = omega arith;
    known = tt;
  }

  -- What the loop over the outputs finds; nothing when it faults.
  abbrev pub found_of : Option (Found fl × ℕ) → Found fl × ℕ
  found_of none = (nothing_found fl, 0)
  found_of (some s) = s

  abbrev pub found : ObjDetectParams fl → List (List ℕ) → Found fl × ℕ
  found params input_data = found_of (process_all fl params input_data)

  pub found-Total :
      (params : ObjDetectParams fl) (input_data : List (List ℕ)) → Total (found params input_data)
  unfolding process_all
  found-Total params input_data =
      known (process_all fl params input_data)
        (process_from-Total params 0 input_data (nothing_found fl, 0) nothing-Total)
    where
      known : (o : Option (Found fl × ℕ)) → OnSome Total o → Total (found_of o)
      known none t = nothing-Total
      known (some s) t = t

  -- Every output has anchors, a zero point and a scale, and the indices of its grid fit `int`.
  pub record Covered (params : ObjDetectParams fl) (input_data : List (List ℕ)) : Type 0 where
    pub anchors : length input_data ≤ length anchor_vec
    pub zero_points : length input_data ≤ length params.quantize_zero_points
    pub scales : length input_data ≤ length params.quantize_scales
    pub small : (i : ℕ) → i < length input_data → FitsInt fl (basic_stride * 2 ^ i) params

  process_from-IsSome :
      (params : ObjDetectParams fl) (all rest : List (List ℕ)) (i : ℕ) (s : Found fl × ℕ)
      → Covered params all
      → i + length rest ≤ length all
      → Total s
      → (s' : Found fl × ℕ) × (process_from fl params i rest s ≡ some s')
  unfolding process_from
  process_from-IsSome params all [] i s c h t = (s, refl)
  process_from-IsSome params all (input_buf ∷ rest) i s c h t =
      let has : has_parameters fl i params ≡ true =
        ground (arith, h, c.anchors, c.zero_points, c.scales) in
      let (f, done, q) =
        do_process-InStep fl s.1 i (8 * 2 ^ i) params input_buf s.0 (c.small i (omega (arith, h)))
          has t in
      rw (done, process_from)
        (process_from-IsSome params all rest (suc i) (f, s.1 + f.valid_count) c (omega (arith, h))
          record {
            boxes = omega (arith, q.boxes);
            scores = omega (arith, q.scores);
            classes = omega (arith, q.classes);
            known = q.known;
          })

  pub process_all-found :
      (params : ObjDetectParams fl) (input_data : List (List ℕ))
      → Covered params input_data
      → process_all fl params input_data ≡ some (found params input_data)
  unfolding process_all
  process_all-found params input_data c =
      let (s, e) =
        process_from-IsSome params input_data input_data 0 (nothing_found fl, 0) c (omega arith)
          nothing-Total in
      e ∙ ap (λ o. some (found_of o)) (sym e)

  module _ (sort_pairs : List (fl.Float × ℕ) → List (fl.Float × ℕ))
      (permutes : (xs : List (fl.Float × ℕ)) → Differ fl xs → Perm (sort_pairs xs) xs) where
    IsFit-sorted :
        (params : ObjDetectParams fl) (s : Found fl × ℕ)
        → Total s
        → Differ fl (pairs_of fl s)
        → 0 < s.1
        → IsFit fl (candidates fl params s) (map some (sorted fl sort_pairs s).1)
    IsFit-sorted params s t apart h =
        let q = IsIndexing-sorted fl sort_pairs permutes s (omega (arith, t.scores)) apart in
        record {
          some_box = h;
          boxes = omega (arith, t.boxes);
          classes = omega (arith, t.classes);
          long = omega (arith, length-map {B = Option ℕ} some (sorted fl sort_pairs s).1, q.0);
        }

    pub kept-below :
        (params : ObjDetectParams fl) (s : Found fl × ℕ) (b m : ℕ)
        → Total s
        → Differ fl (pairs_of fl s)
        → 0 < s.1
        → index_at (kept fl sort_pairs params s) b ≡ some m
        → m < s.1
    unfolding kept
    kept-below params s b m t apart h e =
        let q = IsIndexing-sorted fl sort_pairs permutes s (omega (arith, t.scores)) apart in
        index_at-AllBelow s.1 b m (sorted fl sort_pairs s).1 q.1 (
          nms_classes-index_at fl (candidates fl params s) (class_set s.0.class_id)
            (map some (sorted fl sort_pairs s).1) b m (IsFit-sorted params s t apart h) e)

    kept-overlaps_lem :
        (params : ObjDetectParams fl) (s : Found fl × ℕ) (a b n m : ℕ)
        → Total s
        → Differ fl (pairs_of fl s)
        → a < b
        → b < s.1
        → index_at (kept fl sort_pairs params s) a ≡ some n
        → index_at (kept fl sort_pairs params s) b ≡ some m
        → get_or s.0.class_id n 0 ≡ get_or s.0.class_id m 0
        → overlaps fl (candidates fl params s) n m ≡ false
    unfolding kept
    kept-overlaps_lem params s a b n m t apart h h' e e' g =
        let c = candidates fl params s in
        let low = kept-below params s a n t apart (omega arith) e in
        let low' = kept-below params s b m t apart (omega arith) e' in
        let k = get_or s.0.class_id n 0 in
        nms_classes-overlaps fl c (class_set s.0.class_id) k (map some (sorted fl sort_pairs s).1) a
          b n m (IsFit-sorted params s t apart (omega arith))
          (IsIn-class_set n s.0.class_id (omega (arith, t.classes))) h h' e e' (ground (arith, low))
          (ground (arith, low', g))

    -- Of any two boxes of one class that are left for the report, the one behind does not overlap the
    -- other too much, whatever the outputs hold, if the scores differ and the sort permutes such pairs.
    pub kept-overlaps :
        (params : ObjDetectParams fl) (input_data : List (List ℕ)) (a b n m : ℕ)
        → Differ fl (pairs_of fl (found params input_data))
        → a < b
        → b < (found params input_data).1
        → index_at (kept fl sort_pairs params (found params input_data)) a ≡ some n
        → index_at (kept fl sort_pairs params (found params input_data)) b ≡ some m
        → get_or (found params input_data).0.class_id n 0
          ≡ get_or (found params input_data).0.class_id m 0
        → overlaps fl (candidates fl params (found params input_data)) n m ≡ false
    kept-overlaps params input_data a b n m apart =
        kept-overlaps_lem params (found params input_data) a b n m (found-Total params input_data)
          apart

    -- The outputs have what doProcess reads, no two boxes found have the same score, and the sort permutes
    -- pairs with different scores. Then every box found, by its place in the order of the scores, is
    -- left for the report, or it overlaps too much with a box of its class that stands before it and
    -- is left.
    pub kept-Behind :
        (params : ObjDetectParams fl) (input_data : List (List ℕ)) (b m : ℕ)
        → Covered params input_data
        → Differ fl (pairs_of fl (found params input_data))
        → index_at (map some (sorted fl sort_pairs (found params input_data)).1) b ≡ some m
        → (process_all fl params input_data ≡ some (found params input_data))
          × ((index_at (kept fl sort_pairs params (found params input_data)) b ≡ some m)
              ⊎ ((a : ℕ) × (n : ℕ) × Behind fl
                    (candidates fl params (found params input_data))
                    (kept fl sort_pairs params (found params input_data))
                    a
                    b
                    n
                    m))
    unfolding kept
    kept-Behind params input_data b m covered apart e =
        let s = found params input_data in
        let t = found-Total params input_data in
        let q = IsIndexing-sorted fl sort_pairs permutes s (omega (arith, t.scores)) apart in
        let low = index_at-AllBelow s.1 b m (sorted fl sort_pairs s).1 q.1 e in
        (
          process_all-found params input_data covered,
          nms_classes-Behind fl (candidates fl params s) (class_set s.0.class_id)
              (map some (sorted fl sort_pairs s).1) b m
              (IsFit-sorted params s t apart (omega (arith, low)))
              (Ascending-class_set s.0.class_id) e,
        )
