-- ===== src/Cpu2dGraphics/Rows.antt =====
-- Cpu2dGraphics::fillRect: what writes to the columns of the rows leave, pixel by pixel.
use posix_bsp_perf.Prelude.{
  ℕ, zero, suc, ◌+◌, ◌-◌, ◌*◌, ◌≤◌, ◌<◌, ◌≡◌, inl, inr, refl, sym, ap, ◌∙◌, Bool, true, false, ◌&&◌,
  Bool-cases, some, List, ltb, leb, ◌==◌, if◌then◌else◌, length, length-set, get_or, get_or-set,
  set, each_some, arith,
}
use posix_bsp_perf.Yolo.Grid.{layers_le}
use posix_bsp_perf.Cpu2dGraphics.{write_at}

abbrev pub pixel : List ℕ → ℕ → ℕ
pixel fb i = get_or fb i 0

-- `from <= i < to`
abbrev pub between : ℕ → ℕ → ℕ → Bool
between from to i = leb from i && ltb i to

-- What writes at the indices from `from` to `to` leave, `g` for the pixel at an index.
record Written (g : ℕ → ℕ → ℕ) (from to : ℕ) (fb fb' : List ℕ) : Type 0 where
  same_length : length fb' ≡ length fb
  written : (k : ℕ) → pixel fb' k ≡ (if between from to k then g k (pixel fb k) else pixel fb k)

pub write_at_lem :
    (i : ℕ) (f : ℕ → ℕ) (fb : List ℕ)
    → i < length fb
    → length fb ≤ 4294967296
    → (fb' : List ℕ) × (write_at i f fb ≡ some fb')
      × (length fb' ≡ length fb)
      × ((k : ℕ) → pixel fb' k ≡ (if i == k then f (pixel fb i) else pixel fb k))
unfolding write_at
write_at_lem i f fb h small = (
  set fb i (f (pixel fb i)),
  ground (arith, h, small),
  length-set fb i (f (pixel fb i)),
  λ k. get_or-set fb i k (f (pixel fb i)) 0 h,
)

first_and_rest :
    (o : ℕ → ℕ) (g : ℕ → ℕ → ℕ) (i n k x1 x' : ℕ)
    → x1 ≡ (if i == k then g i (o i) else o k)
    → x' ≡ (if between (suc i) (i + suc n) k then g k x1 else x1)
    → x' ≡ (if between i (i + suc n) k then g k (o k) else o k)
first_and_rest o g i n k x1 x' h h' = elim (Bool-cases (i == k)) [
  | inl e ↦
      let q : i ≡ k = ground (arith, e) in
      let out : between (suc i) (i + suc n) k ≡ false = ground (arith, q) in
      let into : between i (i + suc n) k ≡ true = ground (arith, q) in
      h'
      ∙ ap (λ b. if b then g k x1 else x1) out
      ∙ h
      ∙ ap (λ b. if b then g i (o i) else o k) e
      ∙ ap (λ m. g m (o m)) q
      ∙ sym (ap (λ b. if b then g k (o k) else o k) into)
  | inr e ↦
      let here : x1 ≡ o k = h ∙ ap (λ b. if b then g i (o i) else o k) e in
      let both : between (suc i) (i + suc n) k ≡ between i (i + suc n) k = ground (arith, e) in
      h'
      ∙ ap (λ x. if between (suc i) (i + suc n) k then g k x else x) here
      ∙ ap (λ b. if b then g k (o k) else o k) both
]

write_row :
    (rounds base col : ℕ) (f : ℕ → ℕ → ℕ) (g : ℕ → ℕ → ℕ) (fb : List ℕ)
    → ((c p : ℕ) → f c p ≡ g (base + c) p)
    → base + col + rounds ≤ length fb
    → length fb ≤ 4294967296
    → (fb' : List ℕ) × (each_some rounds col (λ c. write_at (base + c) (f c)) fb ≡ some fb')
      × Written g (base + col) (base + col + rounds) fb fb'
write_row zero base col f g fb same h small =
    (fb, refl, record { same_length = refl; written = λ k. ground arith })
write_row (suc rounds) base col f g fb same h small =
    let (fb1, e, long, one) = write_at_lem (base + col) (f col) fb (omega (arith, h)) small in
    let (fb', e', w) =
      write_row rounds base (suc col) f g fb1 same (omega (arith, h, long))
        (omega (arith, long, small)) in
    let behind : (k : ℕ)
        → between (base + suc col) (base + suc col + rounds) k
          ≡ between (suc (base + col)) (base + col + suc rounds) k =
      λ k. ground arith in
    (
      fb',
      rw (e, each_some) e',
      record {
        same_length = w.same_length ∙ long;
        written = λ k.
            first_and_rest (pixel fb) g (base + col) rounds k (pixel fb1 k) (pixel fb' k)
              (one k
                ∙ ap (λ x. if base + col == k then x else pixel fb k)
                    (same col (pixel fb (base + col))))
              (w.written k ∙ ap (λ b. if b then g k (pixel fb1 k) else pixel fb1 k) (behind k));
      },
    )

-- What the two loops leave: `f` for the pixels of the rows and columns from `r` and `c` on.
pub record Filled (w r rows c cols : ℕ) (f : ℕ → ℕ → ℕ → ℕ) (fb fb' : List ℕ) : Type 0 where
  pub same_length : length fb' ≡ length fb
  pub filled :
      (row col : ℕ)
      → col < w
      → pixel fb' (row * w + col) ≡ (
          if between r (r + rows) row && between c (c + cols) col
          then f row col (pixel fb (row * w + col))
          else pixel fb (row * w + col))

place_in_row :
    (w r row c cols col : ℕ)
    → col < w
    → c + cols ≤ w
    → between (r * w + c) (r * w + c + cols) (row * w + col)
      ≡ (between r (r + 1) row && between c (c + cols) col)
place_in_row w r row c cols col low h = elim (Bool-cases (ltb row r)) [
  | inl e ↦ let q = layers_le (suc row) r w (ground (arith, e)) in ground (arith, q, e)
  | inr e ↦ elim (Bool-cases (ltb r row)) [
    | inl e' ↦ let q = layers_le (suc r) row w (ground (arith, e')) in ground (arith, q, e')
    | inr e' ↦ let q : row ≡ r = ground (arith, e, e') in rw (q) (ground arith)
  ]
]

in_row :
    (w r row col : ℕ) (b : Bool)
    → (between r (r + 1) row && b) ≡ true
    → (r ≡ row) × (row * w + col - r * w ≡ col)
in_row w r row col b e = let q : r ≡ row = ground (arith, e) in (q, rw (q) (omega arith))

fill_row :
    (w r c cols : ℕ) (f : ℕ → ℕ → ℕ → ℕ) (fb : List ℕ)
    → c + cols ≤ w
    → suc r * w ≤ length fb
    → length fb ≤ 4294967296
    → (fb' : List ℕ) × (each_some cols c (λ col. write_at (r * w + col) (f r col)) fb ≡ some fb')
      × Filled w r 1 c cols f fb fb'
fill_row w r c cols f fb h k small =
    let (fb', e, done) =
      write_row cols (r * w) c (f r) (λ i. f r (i - r * w)) fb
        (λ col p. let q : r * w + col - r * w ≡ col = omega arith in ap (λ x. f r x p) (sym q))
        (omega (arith, h, k)) small in
    (
      fb',
      e,
      record {
        same_length = done.same_length;
        filled = λ row col low.
            let place = place_in_row w r row c cols col low h in
            let old = pixel fb (row * w + col) in
            let here = between c (c + cols) col in
            done.written (row * w + col)
            ∙ ap (λ b. if b then f r (row * w + col - r * w) old else old) place
            ∙ elim (Bool-cases (between r (r + 1) row && here)) [
              | inl e ↦
                  let (q, q') = in_row w r row col here e in
                  ap (λ b. if b then f r (row * w + col - r * w) old else old) e
                  ∙ ap (λ x. f r x old) q'
                  ∙ ap (λ x. f x col old) q
                  ∙ sym (ap (λ b. if b then f row col old else old) e)
              | inr e ↦
                  ap (λ b. if b then f r (row * w + col - r * w) old else old) e
                  ∙ sym (ap (λ b. if b then f row col old else old) e)
            ];
      },
    )

two_bands :
    (r rows row : ℕ) (b : Bool) (g : ℕ → ℕ) (old x1 x' : ℕ)
    → x1 ≡ (if between r (r + 1) row && b then g old else old)
    → x' ≡ (if between (suc r) (suc r + rows) row && b then g x1 else x1)
    → x' ≡ (if between r (r + suc rows) row && b then g old else old)
two_bands r rows row b g old x1 x' h h' =
    let first = λ (t : Bool). if t && b then g old else old in
    let second = λ (t : Bool). if t && b then g x1 else x1 in
    elim (Bool-cases (r == row)) [
      | inl e ↦
          let now : between r (r + 1) row ≡ true = ground (arith, e) in
          let not_later : between (suc r) (suc r + rows) row ≡ false = ground (arith, e) in
          let any : between r (r + suc rows) row ≡ true = ground (arith, e) in
          h' ∙ ap second not_later ∙ h ∙ ap first now ∙ sym (ap first any)
      | inr e ↦
          let not_now : between r (r + 1) row ≡ false = ground (arith, e) in
          let later : between (suc r) (suc r + rows) row ≡ between r (r + suc rows) row =
            ground (arith, e) in
          let here : x1 ≡ old = h ∙ ap first not_now in
          h'
          ∙ ap (λ x. if between (suc r) (suc r + rows) row && b then g x else x) here
          ∙ ap first later
    ]

pub fill_rows :
    (w rows r c cols : ℕ) (f : ℕ → ℕ → ℕ → ℕ) (fb : List ℕ)
    → c + cols ≤ w
    → (r + rows) * w ≤ length fb
    → length fb ≤ 4294967296
    → (fb' : List ℕ) × (each_some rows r
          (λ row. each_some cols c (λ col. write_at (row * w + col) (f row col)))
          fb
        ≡ some fb')
      × Filled w r rows c cols f fb fb'
fill_rows w zero r c cols f fb h k small =
    (fb, refl, record { same_length = refl; filled = λ row col low. ground arith })
fill_rows w (suc rows) r c cols f fb h k small =
    let (fb1, e, one) =
      fill_row w r c cols f fb h
        (omega (arith, k, layers_le (suc r) (r + suc rows) w (omega arith))) small in
    let (fb', e', rest) =
      fill_rows w rows (suc r) c cols f fb1 h (omega (arith, k, one.same_length))
        (omega (arith, one.same_length, small)) in
    (
      fb',
      rw (e, each_some) e',
      record {
        same_length = rest.same_length ∙ one.same_length;
        filled = λ row col low.
            two_bands r rows row (between c (c + cols) col) (f row col) (pixel fb (row * w + col))
              (pixel fb1 (row * w + col)) (pixel fb' (row * w + col)) (one.filled row col low)
              (rest.filled row col low);
      },
    )
