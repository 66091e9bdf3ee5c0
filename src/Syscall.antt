-- ===== src/Syscall.antt =====
-- What one call of `::read`, `::write` or `::accept` returns, and the loops that call again after
-- EINTR. The kernel is the environment: its answers are an argument, a list of attempts in order.
use posix_bsp_perf.Prelude.{ℕ, zero, suc, ◌≡◌, refl, Option, none, some, List, [], ◌∷◌}

pub data Attempt {ℓ} (A : Type ℓ) : Type ℓ where
  eintr : Attempt A
  eagain : Attempt A
  error : Attempt A
  done : A → Attempt A

-- `do ret = ...; while (ret == -1 && errno == EINTR)`; `none` if the answers run out first.
unfoldable pub retry {ℓ} : {A : Type ℓ} → List (Attempt A) → Option (Attempt A)
retry [] = none
retry (eintr ∷ answers) = retry answers
retry (eagain ∷ answers) = some eagain
retry (error ∷ answers) = some error
retry (done a ∷ answers) = some (done a)

-- `n` interrupted attempts.
abbrev pub interruptions {ℓ} : {A : Type ℓ} → ℕ → List (Attempt A) → List (Attempt A)
interruptions zero answers = answers
interruptions (suc n) answers = eintr ∷ interruptions n answers

-- Any number of interruptions is skipped.
pub retry-interruptions {ℓ} :
    {A : Type ℓ} (n : ℕ) (answers : List (Attempt A))
    → retry (interruptions n answers) ≡ retry answers
unfolding retry
retry-interruptions zero answers = refl
retry-interruptions (suc n) answers = retry-interruptions n answers
