-- ===== src/Prelude/WellFounded.antt =====
-- Recursion on a number that falls.
use Prim.Native.Nat.{ℕ, zero, suc, ◌<◌}
use native.Mathlib.Omega.{arith}
use mathlib.Core.WellFounded.{Acc, WellFounded}

Acc-below : (k n : ℕ) → n < k → Acc ◌<◌ n
Acc-below zero n h = absurd (omega arith)
Acc-below (suc k) n h = Acc.intro n (λ m hm. Acc-below k m (omega arith))

unfoldable pub lt_wf : WellFounded ◌<◌
unfolding Acc-below
lt_wf = record { apply = λ n. Acc-below (suc n) n (omega arith) }
