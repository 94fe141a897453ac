-- ===== src/Arp/Exchange.antt =====
-- A request, its answer, and what the asking side does with it.
use xyz.Prelude.{ℕ, ◌+◌, ◌^◌, ◌<◌, List, [], ◌∷◌}
use xyz.Memory.{Memory}
use xyz.Arp.{Config, Reachable, selipmac, request_frame, reply_frame}

-- The six bytes of a hardware address.
abbrev pub mac_at : Memory → ℕ → List ℕ
mac_at m a = m a ∷ (m (a + 1) ∷ (m (a + 2) ∷ (m (a + 3) ∷ (m (a + 4) ∷ (m (a + 5) ∷ [])))))

-- Two nodes, a with its interface i and b with its interface j.
module _ (a b : Config) (i j : ℕ) (fresh : Memory) (alen blen : ℕ) (ra rb : Reachable)
    (a_ip : (selipmac a i).0 < 2 ^ 32) (b_ip : (selipmac b j).0 < 2 ^ 32) where
  abbrev asked : Memory
  asked = request_frame a i (selipmac b j).0 fresh

  abbrev answered : Memory
  answered = reply_frame b j asked
