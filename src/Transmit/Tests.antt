-- ===== src/Transmit/Tests.antt =====
-- Bursts of three.
use xyz.Prelude.{ℕ, ◌≡◌, refl, some, [], ◌∷◌}
use xyz.Transmit.{Tx, tx_round, ◌>>=◌}

-- Two packets wait; the device takes two, then one, of a burst.
abbrev before : Tx ℕ
before = record { table = 1 ∷ (2 ∷ []); wire = 0 ∷ []; takes = 2 ∷ (1 ∷ (1 ∷ [])) }

abbrev after : Tx ℕ
after = record { table = 4 ∷ []; wire = 0 ∷ (1 ∷ (2 ∷ (3 ∷ []))); takes = 1 ∷ [] }

round_runs : tx_round 3 100 (some (3 ∷ (4 ∷ []))) (7, before) ≡ some (1, after)
unfolding tx_round ◌>>=◌
round_runs = refl
