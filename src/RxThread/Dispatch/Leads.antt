-- ===== src/RxThread/Dispatch/Leads.antt =====
-- Which buffer `app_rx_thread` has from event to event.
use xyz.Prelude.{ℕ, ◌≡◌, Option, some, none, List, [], ◌∷◌, ◌++◌}
use xyz.Arp
use xyz.RxThread.{
  Packet, FragApi, RxEvent, freed, forwarded, arp, held, returned, answered, tcp_input, decoalesced,
  compressed, fault,
}

-- `owner` is the buffer that the thread has, by its address. An event that uses or gives away a buffer
-- needs it to be this one; after `freed`, `forwarded`, `held` and `arp` the thread has none, and only
-- then the fragment table gives it another. At `fault` the program ends.
unfoldable pub Leads : (owner : Option ℕ) → List RxEvent → (end : Option ℕ) → Type 0
Leads owner [] end = owner ≡ end
Leads owner (freed m ∷ es) end = (owner ≡ some m.mbuf) × Leads none es end
Leads owner (forwarded m p ∷ es) end = (owner ≡ some m.mbuf) × Leads none es end
Leads owner (arp m done ∷ es) end =
    (owner ≡ some m.mbuf) × (Arp.releases done ≡ 1) × Leads none es end
Leads owner (held m ∷ es) end = (owner ≡ some m.mbuf) × Leads none es end
Leads owner (returned m ∷ es) end = (owner ≡ none) × Leads (some m.mbuf) es end
Leads owner (answered m p ∷ es) end = (owner ≡ some m.mbuf) × Leads owner es end
Leads owner (tcp_input b ip n h ∷ es) end = Leads owner es end
Leads owner (decoalesced m ∷ es) end = (owner ≡ some m.mbuf) × Leads owner es end
Leads owner (compressed m ∷ es) end = (owner ≡ some m.mbuf) × Leads owner es end
Leads owner (fault ∷ es) end = Unit

-- DPDK changes a packet within its buffer.
pub record SameBuffer (api : FragApi) : Type 0 where
  pub adj_same : (m a : Packet) (n : ℕ) → api.adj m n ≡ some a → a.mbuf ≡ m.mbuf
  pub prepend_same : (m p : Packet) (n : ℕ) → api.prepend m n ≡ some p → p.mbuf ≡ m.mbuf
  pub linearize_same : (w l : Packet) → api.linearize w ≡ some l → l.mbuf ≡ w.mbuf

pub Leads-++ :
    (owner mid end : Option ℕ) (xs ys : List RxEvent)
    → Leads owner xs mid
    → Leads mid ys end
    → Leads owner (xs ++ ys) end
unfolding Leads
Leads-++ owner mid end [] ys h k = rw h k
Leads-++ owner mid end (freed m ∷ xs) ys (o, h) k = (o, Leads-++ none mid end xs ys h k)
Leads-++ owner mid end (forwarded m p ∷ xs) ys (o, h) k = (o, Leads-++ none mid end xs ys h k)
Leads-++ owner mid end (arp m done ∷ xs) ys (o, r, h) k = (o, r, Leads-++ none mid end xs ys h k)
Leads-++ owner mid end (held m ∷ xs) ys (o, h) k = (o, Leads-++ none mid end xs ys h k)
Leads-++ owner mid end (returned m ∷ xs) ys (o, h) k = (o, Leads-++ (some m.mbuf) mid end xs ys h k)
Leads-++ owner mid end (answered m p ∷ xs) ys (o, h) k = (o, Leads-++ owner mid end xs ys h k)
Leads-++ owner mid end (tcp_input b ip n l ∷ xs) ys h k = Leads-++ owner mid end xs ys h k
Leads-++ owner mid end (decoalesced m ∷ xs) ys (o, h) k = (o, Leads-++ owner mid end xs ys h k)
Leads-++ owner mid end (compressed m ∷ xs) ys (o, h) k = (o, Leads-++ owner mid end xs ys h k)
Leads-++ owner mid end (fault ∷ xs) ys h k = tt
