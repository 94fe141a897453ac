-- ===== src/Checksum/Fold.antt =====
-- The folded sum, and the one's complement sum that it stands for.
use mathlib.Core.WellFounded.{Acc}
use native.Mathlib.Bridge.{le_prop}
use mathlib.Core.Logic.{dif_pos, dif_neg}
use xyz.Prelude.{ℕ, ◌+◌, ◌-◌, ◌/◌, ◌%◌, ◌<◌, ◌≡◌, ◌∙◌, ◌==◌, if◌then◌else◌, arith, dec_lt, lt_wf}
use xyz.Checksum.{fold_loop, fold_shrinks, fold, complement}

-- The sum modulo 65535, where a positive sum never becomes zero (RFC 1071).
abbrev pub ones_sum : ℕ → ℕ
ones_sum sum = if sum == 0 then 0 else (sum - 1) % 65535 + 1

fold_loop-ones_sum : (sum : ℕ) (w : Acc ◌<◌ sum) → fold_loop sum w ≡ ones_sum sum
unfolding fold_loop
fold_loop-ones_sum sum (Acc.intro _ smaller) = elim (dec_lt 65535 sum) [
  | yes more ↦
      let next = sum % 65536 + sum / 65536 in
      let p = fold_shrinks sum more in
      rw (dif_pos (dec_lt 65535 sum) le_prop more)
        (fold_loop-ones_sum next (smaller next p) ∙ ground arith)
  | no small ↦ rw (dif_neg (dec_lt 65535 sum) small) (ground arith)
]

-- The loop ends for every sum, and its result is the one's complement sum.
pub fold-ones_sum : (sum : ℕ) → fold sum ≡ ones_sum sum
unfolding fold
fold-ones_sum sum = fold_loop-ones_sum sum (lt_wf.apply sum)

pub fold-complement : (sum : ℕ) → fold (sum + complement (fold sum)) ≡ 65535
unfolding complement
fold-complement sum =
    ground (arith, fold-ones_sum sum, fold-ones_sum (sum + (65535 - fold sum % 65536)))
