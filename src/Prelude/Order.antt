-- ===== src/Prelude/Order.antt =====
-- `<` on the native numbers is well founded. (The library proves it of the unary numbers.)
use mathlib.Core.WellFounded.{Acc, WellFounded}
use Prim.Native.Nat.{ℕ, zero, suc, ◌+◌, ◌<◌}
use mathlib.Core.Path.{◌≡◌, subst}
use native.Mathlib.Decide.{dec_lt}
use native.Mathlib.Omega.{arith}

Acc-below : (k n : ℕ) → n < k → Acc ◌<◌ n
Acc-below zero n h = elim h [ ]
Acc-below (suc k) n h = Acc.intro n (λ m hm. Acc-below k m (omega arith))

unfoldable pub lt_wf : WellFounded ◌<◌
unfolding Acc-below
lt_wf = record { apply = λ n. Acc-below (suc n) n (omega arith) }

-- What holds below `i` and at `i` holds below `i + 1`.
pub below_suc {ℓ} :
    (P : ℕ → Type ℓ) (i : ℕ) → ((j : ℕ) → j < i → P j) → P i → (j : ℕ) → j < i + 1 → P j
below_suc P i h p j q = elim (dec_lt j i) [
  | yes r ↦ h j r
  | no r ↦ let e : i ≡ j = omega arith in subst P e p
]
