-- ===== src/RxThread/Frag.antt =====
-- The two blocks of `app_rx_thread` that reassemble fragments: of the outer IP datagram, and of the one
-- inside a GRE tunnel. Both strip what stands before the IP header, hand the packet to the table, and
-- put the same bytes before what comes back.
use xyz.Prelude.{ℕ, ◌+◌, ◌-◌, ◌*◌, ◌%◌, ◌^◌, Option, some, none, List, [], ◌∷◌, if◌then◌else◌}
use xyz.Memory.{Memory, word, write_word, copy}
use xyz.RxThread.{Packet, FragApi, RxEvent, freed, held, returned}

-- (version_ihl & 0x0f) * 4
unfoldable pub l3_len : Memory → ℕ → ℕ
l3_len b ip = b ip % 16 * 4

module _ (api : FragApi) where
  -- The saved bytes in the room that `rte_pktmbuf_prepend` made, if it did.
  unfoldable pub restored : Memory → ℕ → Packet → Option Packet → Option Packet × List RxEvent
  unfolding copy
  restored saved n w none = (none, freed w ∷ [])
  restored saved n w (some p) =
      (some (record { mbuf = p.mbuf; bytes = copy p.bytes 0 saved 0 n; pkt_len = p.pkt_len }), [])

  unfoldable pub linear : Memory → ℕ → Packet → Option Packet → Option Packet × List RxEvent
  unfolding restored
  linear saved n w none = (none, freed w ∷ [])
  linear saved n w (some l) = restored saved n l (api.prepend l n)

  unfoldable pub linearized : Packet → Option Packet
  linearized w = if api.is_chained w then api.linearize w else some w

  -- What the table returns; NULL while fragments are missing.
  unfoldable pub rejoined : Memory → ℕ → Option Packet → Option Packet × List RxEvent
  unfolding linear linearized
  rejoined saved n none = (none, [])
  rejoined saved n (some w) = let r = linear saved n w (linearized w) in (r.0, returned w ∷ r.1)

  unfoldable pub reassembly :
      api.Table → Packet → (n tsc : ℕ) → Option Packet → api.Table × (Option Packet × List RxEvent)
  unfolding rejoined l3_len
  reassembly t m n tsc none = (t, (none, freed m ∷ []))
  reassembly t m n tsc (some a) =
      let r = api.reassemble t a (l3_len a.bytes 0) tsc in
      let j = rejoined m.bytes n r.1 in (r.0, (j.0, held a ∷ j.1))

  -- The table, the packet to go on with, and the events.
  unfoldable pub gather :
      api.Table → Packet → (n tsc : ℕ) → api.Table × (Option Packet × List RxEvent)
  unfolding reassembly
  gather t m n tsc = reassembly t m n tsc (api.adj m n)

  -- The length and the checksum of the outer header, for the larger datagram inside.
  unfoldable pub refresh_outer : (gre_len : ℕ) → Packet → Packet
  unfolding write_word word
  refresh_outer gre_len m =
      let total = (20 + (gre_len - 20) + word m.bytes (14 + gre_len + 2)) % 2 ^ 16 in
      let b = write_word (write_word m.bytes 16 total) 24 0 in
      record { mbuf = m.mbuf; bytes = write_word b 24 (api.ipv4_cksum b); pkt_len = m.pkt_len }
