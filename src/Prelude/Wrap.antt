-- ===== src/Prelude/Wrap.antt =====
-- An index that goes round.
use Prim.Native.Nat.{ℕ, suc, ◌+◌, ◌%◌, ◌<◌}
use mathlib.Core.Path.{◌≡◌, sym, subst}
use native.Mathlib.Nat.{mod_self, mod-eq_of_lt}
use native.Mathlib.Omega.{arith}
use posix_bsp_perf.Prelude.Tests.{leb, if◌then◌else◌, if_elim}

pub wrap : (n r : ℕ) → r < n → (if leb n (r + 1) then 0 else r + 1) ≡ suc r % n
wrap n r h =
    if_elim (λ x. x ≡ suc r % n) (leb n (r + 1))
      (λ e.
        let full : n ≡ suc r = ground arith in
        subst (λ m. 0 ≡ suc r % m) (sym full) (sym (mod_self (suc r))))
      (λ e. let below : suc r < n = ground arith in omega (arith, mod-eq_of_lt below))
