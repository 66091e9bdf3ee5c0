-- ===== src/Camera/Sorted.antt =====
-- VideoDecHelper.cpp: what `std::sort` by `buffer_size` does to the pool, and the loops that shorten it.
use mathlib.Core.List.{Perm}
use posix_bsp_perf.Prelude.Perms.{count}
use posix_bsp_perf.Prelude.{
  ℕ, ◌+◌, ◌≤◌, ◌≡◌, some, List, [], ◌∷◌, ltb, ◌==◌, if◌then◌else◌, if_elim, length, drop_last, All,
  arith,
}
use posix_bsp_perf.Camera.{RtpBuffer, last, trim}

-- By `buffer_size`, the largest at the end.
abbrev pub Ordered : List RtpBuffer → Type 0
Ordered [] = Unit
Ordered (b ∷ bs) = All (λ x. b.buffer_size ≤ x.buffer_size) bs × Ordered bs

pub record Sorts (sort_buffers : List RtpBuffer → List RtpBuffer) : Type 0 where
  pub permutes : (bs : List RtpBuffer) → Perm (sort_buffers bs) bs
  pub orders : (bs : List RtpBuffer) → Ordered (sort_buffers bs)

pub last-Ordered :
    (bs : List RtpBuffer) (b : RtpBuffer)
    → Ordered bs
    → last bs ≡ some b
    → All (λ x. x.buffer_size ≤ b.buffer_size) bs
last-Ordered [] b o e = tt
last-Ordered (c ∷ []) b o e = ground (arith, e)
last-Ordered (c ∷ d ∷ bs) b o e =
    let rest = last-Ordered (d ∷ bs) b o.1 e in
    let low : c.buffer_size ≤ b.buffer_size = omega (arith, o.0.0, rest.0) in (low, rest)

All-drop_last : (P : RtpBuffer → Type 0) (bs : List RtpBuffer) → All P bs → All P (drop_last bs)
unfolding drop_last
All-drop_last P [] h = tt
All-drop_last P (b ∷ []) h = tt
All-drop_last P (b ∷ c ∷ bs) h = (h.0, All-drop_last P (c ∷ bs) h.1)

pub Ordered-drop_last : (bs : List RtpBuffer) → Ordered bs → Ordered (drop_last bs)
unfolding drop_last
Ordered-drop_last [] o = tt
Ordered-drop_last (b ∷ []) o = tt
Ordered-drop_last (b ∷ c ∷ bs) o = (
  All-drop_last (λ x. b.buffer_size ≤ x.buffer_size) (c ∷ bs) o.0,
  Ordered-drop_last (c ∷ bs) o.1,
)

-- How many of the buffers are the one called `i`.
abbrev pub named : ℕ → RtpBuffer → ℕ
named i b = if b.id == i then 1 else 0

abbrev pub times : ℕ → List RtpBuffer → ℕ
times i = count (λ b. b.id == i)

pub times-last :
    (i : ℕ) (bs : List RtpBuffer) (b : RtpBuffer)
    → last bs ≡ some b
    → times i bs ≡ times i (drop_last bs) + named i b
unfolding drop_last
times-last i [] b e = absurd (cc)
times-last i (c ∷ []) b e = ground (arith, e)
times-last i (c ∷ d ∷ bs) b e = let rest = times-last i (d ∷ bs) b e in ground (arith, rest)

pub length-trim {ℓ} : {A : Type ℓ} (limit : ℕ) (bs : List A) → length (trim limit bs) ≤ limit
unfolding trim
length-trim limit [] = omega arith
length-trim limit (b ∷ bs) =
    let rest = length-trim limit bs in
    if_elim (λ r. length r ≤ limit) (ltb limit (length (b ∷ bs))) {y = b ∷ bs} (λ e. rest)
      (λ e. ground (arith, e))

pub times-trim : (i limit : ℕ) (bs : List RtpBuffer) → times i (trim limit bs) ≤ times i bs
unfolding trim
times-trim i limit [] = omega arith
times-trim i limit (b ∷ bs) =
    let rest = times-trim i limit bs in
    if_elim (λ r. times i r ≤ times i (b ∷ bs)) (ltb limit (length (b ∷ bs)))
      (λ e. omega (arith, rest)) (λ e. omega arith)
