-- ===== src/TrafficCam/Marks.antt =====
-- Resnet18TrafficCamNet::applyNMS: what its vector of flags holds, round by round.
use posix_bsp_perf.Prelude.{
  drop_all, ℕ, zero, suc, ◌+◌, ◌-◌, ◌≤◌, ◌<◌, ◌≡◌, inl, inr, refl, sym, ap, ◌∙◌, subst, Bool, true,
  false, ◌||◌, Bool-cases, List, [], ◌∷◌, ◌++◌, append-nil, append_assoc, ◌==◌, if◌then◌else◌,
  if_elim, length, length-set, length-replicate, get_or, get_or-set, replicate, drop, each, arith,
}
use posix_bsp_perf.Yolo.{Floats}
use posix_bsp_perf.Yolo.Run.{ObjDetectOutputBox, any}
use posix_bsp_perf.TrafficCam.{no_box, Nms, rules_out, suppress_at, nms_at, nms_all}

drop-get_or {ℓ} :
    {A : Type ℓ} (xs : List A) (i : ℕ) (d : A)
    → i < length xs
    → drop i xs ≡ get_or xs i d ∷ drop (suc i) xs
unfolding get_or
drop-get_or [] i d h = absurd (omega arith)
drop-get_or (x ∷ xs) zero d h = refl
drop-get_or (x ∷ xs) (suc i) d h = drop-get_or xs i d (omega arith)

get_or-replicate : (n i : ℕ) → get_or (replicate n false) i false ≡ false
unfolding get_or
get_or-replicate zero i = refl
get_or-replicate (suc n) zero = refl
get_or-replicate (suc n) (suc i) = get_or-replicate n i

pub any-append-one {ℓ} :
    {A : Type ℓ} (f : A → Bool) (xs : List A) (x : A) → any f (xs ++ x ∷ []) ≡ (any f xs || f x)
any-append-one f [] x = elim (Bool-cases (f x)) [ inl e ↦ rw (e) refl | inr e ↦ rw (e) refl ]
any-append-one f (y ∷ xs) x =
    let rest = any-append-one f xs x in
    elim (Bool-cases (f y)) [ inl e ↦ rw (e) refl | inr e ↦ rw (e) rest ]

module _ (fl : Floats) (nms_threshold : fl.Float) where
  abbrev pub overruled : List (ObjDetectOutputBox fl) → ObjDetectOutputBox fl → Bool
  overruled kept b = any (λ k. rules_out fl nms_threshold k b) kept

  -- The boxes that are kept of the list, when `kept` were kept before them.
  unfoldable pub greedy :
      List (ObjDetectOutputBox fl) → List (ObjDetectOutputBox fl) → List (ObjDetectOutputBox fl)
  greedy kept [] = []
  greedy kept (b ∷ bs) =
      let without = greedy kept bs in
      let with_it = greedy (kept ++ b ∷ []) bs in if overruled kept b then without else b ∷ with_it

  module _ (boxes : List (ObjDetectOutputBox fl)) where
    abbrev box : ℕ → ObjDetectOutputBox fl
    box i = get_or boxes i (no_box fl)

    abbrev suppress : ℕ → ℕ → List Bool → List Bool
    suppress = suppress_at fl nms_threshold boxes

    suppress_at_self :
        (i j : ℕ) (sup : List Bool)
        → j < length sup
        → get_or (suppress i j sup) j false
          ≡ (get_or sup j false || rules_out fl nms_threshold (box i) (box j))
    unfolding suppress_at
    suppress_at_self i j sup h =
        let put = get_or-set sup j j true false h in
        elim (Bool-cases (get_or sup j false)) [
          | inl e ↦ rw (e, suppress_at) e
          | inr e ↦ elim (Bool-cases (rules_out fl nms_threshold (box i) (box j))) [
            | inl r ↦ rw (e, r, suppress_at) (ground (arith, put))
            | inr r ↦ rw (e, r, suppress_at) e
          ]
        ]

    suppress_at_other :
        (i j k : ℕ) (sup : List Bool)
        → j < length sup
        → (j == k) ≡ false
        → get_or (suppress i j sup) k false ≡ get_or sup k false
    unfolding suppress_at
    suppress_at_other i j k sup h ne =
        let put = get_or-set sup j k true false h in
        let Same = λ (r : List Bool). get_or r k false ≡ get_or sup k false in
        if_elim Same (get_or sup j false) (λ e. refl)
          (λ e.
            if_elim Same (rules_out fl nms_threshold (box i) (box j))
              (λ e'. put ∙ ap (λ b. if b then true else get_or sup k false) ne) (λ e'. refl))

    length-suppress_at : (i j : ℕ) (sup : List Bool) → length (suppress i j sup) ≡ length sup
    unfolding suppress_at
    length-suppress_at i j sup =
        let Same = λ (r : List Bool). length r ≡ length sup in
        if_elim Same (get_or sup j false) (λ e. refl)
          (λ e.
            if_elim Same (rules_out fl nms_threshold (box i) (box j)) (λ e'. length-set sup j true)
              (λ e'. refl))

    suppress_before :
        (rounds i j k : ℕ) (sup : List Bool)
        → k < j
        → j + rounds ≤ length sup
        → get_or (each rounds j (suppress i) sup) k false ≡ get_or sup k false
    unfolding each
    suppress_before zero i j k sup h low = refl
    suppress_before (suc rounds) i j k sup h low =
        suppress_before rounds i (suc j) k (suppress i j sup) (omega arith)
          (omega (arith, length-suppress_at i j sup))
        ∙ suppress_at_other i j k sup (omega arith) (ground arith)

    suppress_from :
        (rounds i j k : ℕ) (sup : List Bool)
        → j ≤ k
        → k < j + rounds
        → j + rounds ≤ length sup
        → get_or (each rounds j (suppress i) sup) k false
          ≡ (get_or sup k false || rules_out fl nms_threshold (box i) (box k))
    unfolding each
    suppress_from zero i j k sup h up low = absurd (omega arith)
    suppress_from (suc rounds) i j k sup h up low =
        let long = length-suppress_at i j sup in
        elim (Bool-cases (j == k)) [
          | inl same ↦
              let e : j ≡ k = ground (arith, same) in
              suppress_before rounds i (suc j) k (suppress i j sup) (omega (arith, e))
                (omega (arith, long))
              ∙ subst
                  (λ k'.
                    get_or (suppress i j sup) k' false
                    ≡ (get_or sup k' false || rules_out fl nms_threshold (box i) (box k')))
                  e (suppress_at_self i j sup (omega arith))
          | inr other ↦
              suppress_from rounds i (suc j) k (suppress i j sup) (ground (arith, other))
                (omega arith) (omega (arith, long))
              ∙ ap (λ b. b || rules_out fl nms_threshold (box i) (box k))
                  (suppress_at_other i j k sup (omega arith) other)
        ]

    length-suppress :
        (rounds i j : ℕ) (sup : List Bool) → length (each rounds j (suppress i) sup) ≡ length sup
    unfolding each
    length-suppress zero i j sup = refl
    length-suppress (suc rounds) i j sup =
        length-suppress rounds i (suc j) (suppress i j sup) ∙ length-suppress_at i j sup

    -- Behind `i`, what is suppressed is what a box that was kept rules out.
    record Marked (i : ℕ) (s : Nms fl) : Type 0 where
      long : length s.suppressed ≡ length boxes
      marked :
          (k : ℕ)
          → i ≤ k
          → k < length boxes
          → get_or s.suppressed k false ≡ overruled s.result (box k)

    nms_at-Marked :
        (i : ℕ) (s : Nms fl)
        → i < length boxes
        → Marked i s
        → Marked (suc i) (nms_at fl nms_threshold boxes i s)
    unfolding nms_at
    nms_at-Marked i s h w =
        if_elim (Marked (suc i)) (get_or s.suppressed i false)
          (λ e. record { long = w.long; marked = λ k low up. w.marked k (omega arith) up })
          (λ e. record {
            long = length-suppress (length boxes - suc i) i (suc i) s.suppressed ∙ w.long;
            marked = λ k low up.
                suppress_from (length boxes - suc i) i (suc i) k s.suppressed low (omega arith)
                  (omega (arith, w.long))
                ∙ ap (λ b. b || rules_out fl nms_threshold (box i) (box k))
                    (w.marked k (omega arith) up)
                ∙ sym (any-append-one (λ a. rules_out fl nms_threshold a (box k)) s.result (box i));
          })

    nms_at-greedy_step :
        (i : ℕ) (s : Nms fl) (bs : List (ObjDetectOutputBox fl))
        → get_or s.suppressed i false ≡ overruled s.result (box i)
        → (nms_at fl nms_threshold boxes i s).result
            ++ greedy (nms_at fl nms_threshold boxes i s).result bs
          ≡ s.result ++ greedy s.result (box i ∷ bs)
    unfolding nms_at greedy
    nms_at-greedy_step i s bs m = elim (Bool-cases (get_or s.suppressed i false)) [
      | inl e ↦ let o : overruled s.result (box i) ≡ true = sym m ∙ e in rw (e, o, nms_at) refl
      | inr e ↦
          let o : overruled s.result (box i) ≡ false = sym m ∙ e in
          rw (e, o, nms_at)
            (append_assoc s.result (box i ∷ []) (greedy (s.result ++ box i ∷ []) bs))
    ]

    nms_at-greedy :
        (rounds i : ℕ) (s : Nms fl)
        → i + rounds ≡ length boxes
        → Marked i s
        → (each rounds i (nms_at fl nms_threshold boxes) s).result
          ≡ s.result ++ greedy s.result (drop i boxes)
    unfolding each greedy
    nms_at-greedy zero i s e w = rw (drop_all boxes i (omega arith)) (sym (append-nil s.result))
    nms_at-greedy (suc rounds) i s e w =
        let rest =
          nms_at-greedy rounds (suc i) (nms_at fl nms_threshold boxes i s) (omega arith)
            (nms_at-Marked i s (omega arith) w) in
        rw (drop-get_or boxes i (no_box fl) (omega arith)) (
          rest
          ∙ nms_at-greedy_step i s (drop (suc i) boxes) (w.marked i (omega arith) (omega arith)))

    pub nms_all-greedy : nms_all fl nms_threshold boxes ≡ greedy [] boxes
    unfolding nms_all
    nms_all-greedy = nms_at-greedy (length boxes) 0 _ (omega arith) (record {
      long = length-replicate (length boxes) false;
      marked = λ k low up. get_or-replicate (length boxes) k;
    })
