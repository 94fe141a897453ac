-- ===== src/Ports/Tests.antt =====
-- Ports 0, 1, 3 and 4 of five.
use xyz.Prelude.{ℕ, ◌%◌, ◌≡◌, refl, true, some, List, [], ◌∷◌, length, arith}
use xyz.Ports.{Ports, initialize_ports, in_mask}
use xyz.Ports.Pairs.{enabled, Distinct, Paired, initialize_ports-Paired}

abbrev mask : ℕ
mask = 27

abbrev after_first : List ℕ
after_first = 1 ∷ (2 ∷ (3 ∷ (4 ∷ [])))

distinct : Distinct (enabled mask (0 ∷ after_first))
unfolding Distinct enabled in_mask
distinct = (
  (omega arith, (omega arith, (omega arith, tt))),
  ((omega arith, (omega arith, tt)), ((omega arith, tt), (tt, tt))),
)

even : length (enabled mask (0 ∷ after_first)) % 2 ≡ 0
unfolding enabled in_mask
even = refl

initialize_ports-Paired_example :
    (s : Ports) × (initialize_ports mask (λ p. true) (0 ∷ after_first) ≡ some s)
    × (s.count ≡ length (enabled mask (0 ∷ after_first)))
    × Paired s.dst (enabled mask (0 ∷ after_first))
initialize_ports-Paired_example =
    initialize_ports-Paired mask (λ p. true) 0 after_first (λ q. refl) distinct even
