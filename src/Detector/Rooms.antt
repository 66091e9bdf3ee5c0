-- ===== src/Detector/Rooms.antt =====
-- objDetector.cpp: the loops that make room in a queue.
use posix_bsp_perf.Prelude.{
  ℕ, suc, ◌<◌, ◌≡◌, ◌⊎◌, inl, inr, refl, List, [], ◌∷◌, leb, if_elim, length, All, arith,
}
use posix_bsp_perf.Detector.{make_room}

pub List-cases {ℓ} :
    {A : Type ℓ} (xs : List A) → (xs ≡ []) ⊎ ((x : A) × (ys : List A) × (xs ≡ x ∷ ys))
List-cases [] = inl refl
List-cases (x ∷ xs) = inr (x, xs, refl)

pub length-make_room {ℓ} :
    {A : Type ℓ} (limit : ℕ) (xs : List A) → 0 < limit → length (make_room limit xs) < limit
unfolding make_room
length-make_room limit [] h = h
length-make_room limit (x ∷ xs) h =
    let rest = length-make_room limit xs h in
    if_elim (λ r. length r < limit) (leb limit (suc (length xs))) {y = x ∷ xs} (λ e. rest)
      (λ e. ground (arith, e))

-- A queue with room is left as it is.
pub make_room_idle {ℓ} :
    {A : Type ℓ} (limit : ℕ) (xs : List A) → length xs < limit → make_room limit xs ≡ xs
unfolding make_room
make_room_idle limit [] h = refl
make_room_idle limit (x ∷ xs) h =
    if_elim (λ r. r ≡ x ∷ xs) (leb limit (suc (length xs))) (λ e. absurd (ground (arith, e)))
      (λ e. refl)

-- What is left were all of the queue before.
pub make_room-All {ℓ κ} :
    {A : Type ℓ} (P : A → Type κ) (limit : ℕ) (xs : List A) → All P xs → All P (make_room limit xs)
unfolding make_room
make_room-All P limit [] h = h
make_room-All P limit (x ∷ xs) h =
    let rest = make_room-All P limit xs h.1 in
    if_elim (All P) (leb limit (suc (length xs))) {y = x ∷ xs} (λ e. rest) (λ e. h)
