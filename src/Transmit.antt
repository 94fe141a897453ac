-- ===== src/Transmit.antt =====
-- The transmit thread of `app_thread (1).c`: `app_send_burst`, `app_send_packets` and a round of
-- `app_tx_thread`. How many buffers the device takes in each call of rte_eth_tx_burst is a list of
-- numbers; where the list ends, the device has not answered yet and the loop still waits: none.
pub mod Order
pub mod Ends
mod Tests
use xyz.Prelude.{
  ℕ, zero, suc, ◌+◌, ◌≡◌, Bool, true, false, ◌==◌, ltb, if◌then◌else◌, Option, none, some, List, [],
  ◌∷◌, ◌++◌, length, take, drop,
}

-- `m_table` up to `n_mbufs`, what the port has taken in its order, and the answers to come.
pub record Tx (M : Type 0) : Type 0 where
  pub table : List M
  pub wire : List M
  pub takes : List ℕ

-- The counter of empty reads after one round, and whether the table is drained in it.
pub round_counter : ℕ → (got : Bool) → ℕ → ℕ × Bool
round_counter drain_tsc got counter =
    let next = (if got then 0 else counter) + 1 in
    if ltb drain_tsc next then (0, true) else (next, false)

infixl 20 ◌>>=◌
unfoldable pub ◌>>=◌ {ℓ κ} : {A : Type ℓ} {B : Type κ} → Option A → (A → Option B) → Option B
none >>= f = none
some a >>= f = f a

module _ {M : Type 0} where
  pub is_empty : List M → Bool
  is_empty [] = true
  is_empty (m ∷ ms) = false

  -- The loop goes on with what the device has not taken.
  pub burst_loop : List ℕ → List M → List M → Option (List M × List ℕ)
  unfolding is_empty
  burst_loop [] mbufs wire = none
  burst_loop (n ∷ takes) mbufs wire = elim (is_empty (drop n mbufs)) [
    | true ↦ some (wire ++ take n mbufs, takes)
    | false ↦ burst_loop takes (drop n mbufs) (wire ++ take n mbufs)
  ]

  pub app_send_burst : Tx M → Option (Tx M)
  unfolding burst_loop
  app_send_burst s = do
    r ← burst_loop s.takes s.table s.wire
    some (record { table = []; wire = r.0; takes = r.1 })

  -- A full table is sent.
  pub add_packet : ℕ → Tx M → M → Option (Tx M)
  unfolding app_send_burst
  add_packet tx_burst s m =
      let added : Tx M = record { table = s.table ++ (m ∷ []); wire = s.wire; takes = s.takes } in
      elim (length added.table == tx_burst) [ true ↦ app_send_burst added | false ↦ some added ]

  pub app_send_packets : ℕ → Tx M → List M → Option (Tx M)
  unfolding add_packet
  app_send_packets tx_burst s [] = some s
  app_send_packets tx_burst s (m ∷ ms) = do
    s' ← add_packet tx_burst s m
    app_send_packets tx_burst s' ms

  pub drain_table : Bool → Tx M → Option (Tx M)
  unfolding app_send_burst is_empty
  drain_table false s = some s
  drain_table true s = elim (is_empty s.table) [ true ↦ some s | false ↦ app_send_burst s ]

  is_some : Option (List M) → Bool
  is_some none = false
  is_some (some ms) = true

  pub packets_of : Option (List M) → List M
  packets_of none = []
  packets_of (some ms) = ms

  -- One round for one configuration; `dequeued` is what the ring gives, if it gives a whole bulk.
  pub tx_round : (tx_burst drain_tsc : ℕ) → Option (List M) → ℕ × Tx M → Option (ℕ × Tx M)
  unfolding app_send_packets round_counter drain_table is_some packets_of
  tx_round tx_burst drain_tsc dequeued (counter, s) = do
    s' ← app_send_packets tx_burst s (packets_of dequeued)
    s'' ← drain_table (round_counter drain_tsc (is_some dequeued) counter).1 s'
    some ((round_counter drain_tsc (is_some dequeued) counter).0, s'')
