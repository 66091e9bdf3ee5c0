-- ===== src/Yolo/Nms.antt =====
-- YoloPostProcess::nms is greedy non-maximum suppression.
use posix_bsp_perf.Prelude.{
  ℕ, zero, suc, ◌+◌, ◌*◌, ◌≤◌, ◌<◌, ◌≡◌, ◌≢◌, ◌⊎◌, inl, inr, refl, sym, ap, ◌∙◌, subst, true, false,
  ◌&&◌, Bool-cases, ltb→lt, ltb→le, Option, none, some, Option-cases, List, ltb, leb, if◌then◌else◌,
  length, arith,
}
use posix_bsp_perf.Yolo.{
  Floats, Candidates, index_at, is_skipped, overlaps, nms_at, nms_from, nms, IsFit,
}
use posix_bsp_perf.Yolo.Suppress.{after, struck, index_at-nms_at, length-nms_at}

module _ (fl : Floats) (c : Candidates fl) (filter_id : ℕ) where
  -- A box of the class, by its number.
  abbrev pub IsOf : ℕ → Type 0
  IsOf n = is_skipped fl c filter_id n ≡ false

  -- `b` is behind `a`, and the boxes in both places are of the class and overlap too much.
  pub record Clash (order : List (Option ℕ)) (a b n m : ℕ) : Type 0 where
    pub before : a < b
    pub first : index_at order a ≡ some n
    pub first_of : IsOf n
    pub second_of : IsOf m
    pub too_much : overlaps fl c n m ≡ true

  -- What the first `i` rounds of the outer loop have made of the order `o`.
  pub record Pass (i : ℕ) (o o' : List (Option ℕ)) : Type 0 where
    pub size : length o' ≡ length o
    pub shrinks : (b : ℕ) → (index_at o' b ≡ index_at o b) ⊎ (index_at o' b ≡ none)
    pub spared :
        (b m : ℕ)
        → index_at o b ≡ some m
        → is_skipped fl c filter_id m ≡ true
        → index_at o' b ≡ some m
    pub apart :
        (a b n m : ℕ)
        → a < i
        → a < b
        → b < c.valid_count
        → index_at o' a ≡ some n
        → index_at o' b ≡ some m
        → IsOf n
        → IsOf m
        → overlaps fl c n m ≡ false
    pub justified :
        (b m : ℕ)
        → index_at o b ≡ some m
        → index_at o' b ≡ none
        → (a : ℕ) × (n : ℕ) × (a < i) × Clash o' a b n m

  Pass-start : (o : List (Option ℕ)) → Pass 0 o o
  Pass-start o = record {
    size = refl;
    shrinks = λ b. inl refl;
    spared = λ b m e s. e;
    apart = λ a b n m h. absurd (omega arith);
    justified = λ b m e g. absurd (cc);
  }

  module _ (i : ℕ) (o o' : List (Option ℕ)) (p : Pass i o o') (low : i < c.valid_count)
      (long : c.valid_count ≤ length o) (boxes : c.valid_count * 4 ≤ length c.filter_boxes) where
    at_next : (b : ℕ) → index_at (nms_at fl c filter_id i o') b ≡ struck fl c filter_id i o' b
    at_next b = index_at-nms_at fl c filter_id i b o' low (omega (arith, p.size))

    -- Places up to `i` stay as they are.
    early : (a : ℕ) → a ≤ i → index_at (nms_at fl c filter_id i o') a ≡ index_at o' a
    unfolding struck
    early a h = at_next a ∙ ground arith

    step_shrinks :
        (b : ℕ)
        → (index_at (nms_at fl c filter_id i o') b ≡ index_at o' b)
          ⊎ (index_at (nms_at fl c filter_id i o') b ≡ none)
    unfolding struck after
    step_shrinks b = ground (arith, at_next b)

    after_apart :
        (n m : ℕ) (x : Option ℕ)
        → after fl c filter_id n x ≡ some m
        → IsOf n
        → IsOf m
        → (x ≡ some m) × (overlaps fl c n m ≡ false)
    unfolding after
    after_apart n m none e f g = cc
    after_apart n m (some k) e f g = ground arith

    after-none :
        (n m : ℕ) → after fl c filter_id n (some m) ≡ none → IsOf m × (overlaps fl c n m ≡ true)
    unfolding after
    after-none n m e = ground arith

    -- Place `i` against the places behind it, once its round is over.
    at_behind :
        (b n : ℕ)
        → i < b
        → b < c.valid_count
        → index_at o' i ≡ some n
        → IsOf n
        → index_at (nms_at fl c filter_id i o') b ≡ after fl c filter_id n (index_at o' b)
    unfolding struck
    at_behind b n h k here f = at_next b ∙ rw (here, struck) (ground arith)

    step_apart :
        (a b n m : ℕ)
        → a < suc i
        → a < b
        → b < c.valid_count
        → index_at (nms_at fl c filter_id i o') a ≡ some n
        → index_at (nms_at fl c filter_id i o') b ≡ some m
        → IsOf n
        → IsOf m
        → overlaps fl c n m ≡ false
    step_apart a b n m h k top e g f f' =
        let here : index_at o' a ≡ some n = sym (early a (omega arith)) ∙ e in
        let there : index_at o' b ≡ some m = ground (arith, step_shrinks b) in
        elim (Bool-cases (ltb a i)) [
          | inl old ↦ p.apart a b n m (ltb→lt a i old) k top here there f f'
          | inr new ↦
              let same : a ≡ i = omega (arith, ltb→le a i new) in
              let at_i : index_at o' i ≡ some n = ap (λ x. index_at o' x) (sym same) ∙ here in
              (after_apart n m (index_at o' b) (sym (at_behind b n (omega arith) top at_i f) ∙ g) f
                f').1
        ]

    step_spared :
        (b m : ℕ)
        → index_at o b ≡ some m
        → is_skipped fl c filter_id m ≡ true
        → index_at (nms_at fl c filter_id i o') b ≡ some m
    unfolding struck after
    step_spared b m e s = ground (arith, at_next b, p.spared b m e s)

    not_gone :
        (b m : ℕ)
        → index_at o' b ≡ some m
        → index_at (nms_at fl c filter_id i o') b ≡ none
        → index_at o' i ≢ none
    unfolding struck
    not_gone b m e g gone =
        let kept : struck fl c filter_id i o' b ≡ index_at o' b = rw (gone, struck) refl in
        let was : index_at o' b ≡ none = sym kept ∙ sym (at_next b) ∙ g in absurd (cc)

    reached :
        (b n m : ℕ)
        → index_at o' i ≡ some n
        → index_at o' b ≡ some m
        → index_at (nms_at fl c filter_id i o') b ≡ none
        → IsOf n × (i < b) × (b < c.valid_count)
    unfolding struck
    reached b n m here e g =
        let now : struck fl c filter_id i o' b ≡ none = sym (at_next b) ∙ g in
        let tests : struck fl c filter_id i o' b ≡ (
            if is_skipped fl c filter_id n
            then index_at o' b
            else if leb (suc i) b && ltb b c.valid_count
            then after fl c filter_id n (index_at o' b)
            else index_at o' b) =
          rw (here, struck) refl in
        ground (arith, now, tests, e)

    -- A box that goes in this round clashes with the one in place `i`.
    new-Clash :
        (b m : ℕ)
        → index_at o' b ≡ some m
        → index_at (nms_at fl c filter_id i o') b ≡ none
        → (a : ℕ) × (n : ℕ) × (a < suc i) × Clash (nms_at fl c filter_id i o') a b n m
    new-Clash b m e g = elim (Option-cases (index_at o' i)) [
      | inl gone ↦ absurd (not_gone b m e g gone)
      | inr (n, here) ↦
          let (f, h, k) = reached b n m here e g in
          let now : after fl c filter_id n (some m) ≡ none =
            ap (after fl c filter_id n) (sym e) ∙ sym (at_behind b n h k here f) ∙ g in
          let (f', over) = after-none n m now in
          (
            i,
            n,
            omega arith,
            record {
              before = h;
              first = early i (omega arith) ∙ here;
              first_of = f;
              second_of = f';
              too_much = over;
            },
          )
    ]

    step_justified :
        (b m : ℕ)
        → index_at o b ≡ some m
        → index_at (nms_at fl c filter_id i o') b ≡ none
        → (a : ℕ) × (n : ℕ) × (a < suc i) × Clash (nms_at fl c filter_id i o') a b n m
    step_justified b m e g = elim (p.shrinks b) [
      | inl same ↦ new-Clash b m (same ∙ e) g
      | inr gone ↦
          let (a, n, h, k) = p.justified b m e gone in
          (
            a,
            n,
            omega arith,
            record {
              before = k.before;
              first = early a (omega arith) ∙ k.first;
              first_of = k.first_of;
              second_of = k.second_of;
              too_much = k.too_much;
            },
          )
    ]

    shrinks_again :
        (b : ℕ)
        → (index_at (nms_at fl c filter_id i o') b ≡ index_at o b)
          ⊎ (index_at (nms_at fl c filter_id i o') b ≡ none)
    shrinks_again b = elim (step_shrinks b) [
      | inr gone ↦ inr gone
      | inl same ↦ elim (p.shrinks b) [ inl old ↦ inl (same ∙ old) | inr gone ↦ inr (same ∙ gone) ]
    ]

    pub Pass-step : Pass (suc i) o (nms_at fl c filter_id i o')
    Pass-step = record {
      size = length-nms_at fl c filter_id i o' ∙ p.size;
      shrinks = shrinks_again;
      spared = step_spared;
      apart = step_apart;
      justified = step_justified;
    }

  Pass-from :
      (rounds i : ℕ) (o o' : List (Option ℕ))
      → Pass i o o'
      → i + rounds ≡ c.valid_count
      → c.valid_count ≤ length o
      → c.valid_count * 4 ≤ length c.filter_boxes
      → Pass c.valid_count o (nms_from fl c rounds filter_id i o')
  unfolding nms_from
  Pass-from zero i o o' p e long boxes =
      let same : i ≡ c.valid_count = omega arith in subst (λ k. Pass k o o') same p
  Pass-from (suc rounds) i o o' p e long boxes =
      Pass-from rounds (suc i) o (nms_at fl c filter_id i o')
        (Pass-step i o o' p (omega arith) long boxes) (omega arith) long boxes

  nms_fit :
      (o : List (Option ℕ))
      → IsFit fl c o
      → nms fl c filter_id o ≡ (true, nms_from fl c c.valid_count filter_id 0 o)
  unfolding nms
  nms_fit o f = ground (arith, f.some_box, f.boxes, f.classes, f.long)

  pub nms-Pass :
      (o : List (Option ℕ))
      → IsFit fl c o
      → ((nms fl c filter_id o).0 ≡ true) × Pass c.valid_count o (nms fl c filter_id o).1
  nms-Pass o f =
      let p = Pass-from c.valid_count 0 o o (Pass-start o) (omega arith) f.long f.boxes in
      (ap (λ r. r.0) (nms_fit o f), subst (λ r. Pass c.valid_count o r.1) (sym (nms_fit o f)) p)

  -- Where the lengths are right, `nms` reports success, and of any two boxes of the class that it
  -- leaves in the first `valid_count` places, the one behind does not overlap the other too much.
  pub nms-overlaps :
      (o : List (Option ℕ)) (a b n m : ℕ)
      → IsFit fl c o
      → a < b
      → b < c.valid_count
      → index_at (nms fl c filter_id o).1 a ≡ some n
      → index_at (nms fl c filter_id o).1 b ≡ some m
      → IsOf n
      → IsOf m
      → ((nms fl c filter_id o).0 ≡ true) × (overlaps fl c n m ≡ false)
  nms-overlaps o a b n m f h k e e' g g' =
      let (done, p) = nms-Pass o f in (done, p.apart a b n m (omega arith) h k e e' g g')

  -- Where the lengths are right, `nms` changes no place but to -1, and where it does, the box is of
  -- the class and overlaps too much with a box of the class that stays in a place before it.
  pub nms-Clash :
      (o : List (Option ℕ)) (b m : ℕ)
      → IsFit fl c o
      → index_at o b ≡ some m
      → (index_at (nms fl c filter_id o).1 b ≡ some m)
        ⊎ ((index_at (nms fl c filter_id o).1 b ≡ none)
            × ((a : ℕ) × (n : ℕ) × Clash (nms fl c filter_id o).1 a b n m))
  nms-Clash o b m f e =
      let p = (nms-Pass o f).1 in
      elim (p.shrinks b) [
        | inl same ↦ inl (same ∙ e)
        | inr gone ↦ let (a, n, h, k) = p.justified b m e gone in inr (gone, (a, n, k))
      ]
