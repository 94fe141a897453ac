-- ===== src/RxThread.antt =====
-- The receive thread of the TCP proxy (`app_rx_thread` in `app_thread (1).c`): what it counts, what it
-- does to packets, and what it is given. The fragment tables, the TCP stack, coalescing and header
-- compression are not in the repository: a call is an event, in the order of the code. A counter has
-- no upper end.
pub mod Frag
pub mod Dispatch
pub mod Loop
pub mod Timer
mod Tests
use xyz.Prelude.{
  ℕ, ◌+◌, ◌-◌, ◌*◌, ◌/◌, ◌%◌, ◌≡◌, Bool, true, false, Option, some, none, List, [], ◌∷◌, ltb, leb,
  if◌then◌else◌, ◌==◌, ◌&&◌,
}
use xyz.Memory.{Memory, word}
use xyz.Arp
use xyz.Sites.{RtpHdr}

-- A buffer of DPDK: its address, the bytes from `rte_pktmbuf_mtod` on, and `pkt_len`.
pub record Packet : Type 0 where
  pub mbuf : ℕ
  pub bytes : Memory
  pub pkt_len : ℕ

-- DPDK and `ip_frag_reasm.h`. none is the NULL that a call returns, or a failure.
pub record FragApi : Type 1 where
  pub Table : Type 0
  pub adj : Packet → ℕ → Option Packet
  pub prepend : Packet → ℕ → Option Packet
  pub is_chained : Packet → Bool
  pub linearize : Packet → Option Packet
  -- the table, the packet from its IP header on, `l3_len` and the time
  pub reassemble : Table → Packet → (l3_len tsc : ℕ) → Table × Option Packet
  pub outer_ip_is_fragment : Memory → Bool
  -- the checksum of the outer header, in the order of the network
  pub ipv4_cksum : Memory → ℕ

-- `rx_port_stats[portid]` and `error_stats[portid]`.
pub record PortStats : Type 0 where
  pub total_pkts : ℕ
  pub total_bytes : ℕ
  pub good_pkts : ℕ
  pub good_bytes : ℕ
  pub bcast_pkts : ℕ
  pub mcast_pkts : ℕ
  pub undersize_err : ℕ
  pub oversize_err : ℕ
  pub jabber_err : ℕ
  pub len_err : ℕ
  pub fragment_err : ℕ

-- `returned` is a buffer that the fragment table gives back, `fault` the use of a NULL pointer. tcp_input
-- gets a copy of the `len` bytes from `ip` on, and the length of the IP header with its options.
pub data RxEvent : Type 0 where
  freed : Packet → RxEvent
  forwarded : Packet → ℕ → RxEvent
  arp : Packet → List Arp.Event → RxEvent
  held : Packet → RxEvent
  returned : Packet → RxEvent
  answered : Packet → ℕ → RxEvent
  tcp_input : Memory → (ip len header_len : ℕ) → RxEvent
  decoalesced : Packet → RxEvent
  compressed : Packet → RxEvent
  fault : RxEvent

-- The settings; `devget n` tells if `m_devget` finds room for n bytes.
pub record Env : Type 0 where
  pub portid : ℕ
  pub wan_if_id : ℕ
  pub header_comp : Bool
  pub tunnel_enable : Bool
  pub arp_config : Arp.Config
  pub dst_port : ℕ → ℕ
  pub rtp_size : ℕ
  pub rtp_at : Memory → ℕ → RtpHdr
  pub mincl_size : ℕ
  pub devget : ℕ → Bool
  pub tsc : ℕ

pub record RxState (T : Type 0) : Type 0 where
  pub stats : PortStats
  pub reach : Arp.Reachable
  pub outer : T
  pub inner : T

-- What is count_packet before the packet is looked at.
pub count_packet : PortStats → Packet → PortStats
count_packet s m =
    let over = if ltb m.pkt_len 64 then 0 else if ltb 1518 m.pkt_len then 1 else 0 in
    record {
      total_pkts = s.total_pkts + 1;
      total_bytes = s.total_bytes + m.pkt_len;
      good_pkts = s.good_pkts;
      good_bytes = s.good_bytes;
      bcast_pkts = s.bcast_pkts;
      mcast_pkts = s.mcast_pkts;
      undersize_err = s.undersize_err + (if ltb m.pkt_len 64 then 1 else 0);
      oversize_err = s.oversize_err + over;
      jabber_err = s.jabber_err + over;
      len_err = s.len_err;
      fragment_err = s.fragment_err;
    }

pub good : PortStats → Packet → PortStats
good s m = record {
  total_pkts = s.total_pkts;
  total_bytes = s.total_bytes;
  good_pkts = s.good_pkts + 1;
  good_bytes = s.good_bytes + m.pkt_len;
  bcast_pkts = s.bcast_pkts;
  mcast_pkts = s.mcast_pkts;
  undersize_err = s.undersize_err;
  oversize_err = s.oversize_err;
  jabber_err = s.jabber_err;
  len_err = s.len_err;
  fragment_err = s.fragment_err;
}

pub bad_length : PortStats → PortStats
bad_length s = record {
  total_pkts = s.total_pkts;
  total_bytes = s.total_bytes;
  good_pkts = s.good_pkts;
  good_bytes = s.good_bytes;
  bcast_pkts = s.bcast_pkts;
  mcast_pkts = s.mcast_pkts;
  undersize_err = s.undersize_err;
  oversize_err = s.oversize_err;
  jabber_err = s.jabber_err;
  len_err = s.len_err + 1;
  fragment_err = s.fragment_err;
}

pub fragment : PortStats → PortStats
fragment s = record {
  total_pkts = s.total_pkts;
  total_bytes = s.total_bytes;
  good_pkts = s.good_pkts;
  good_bytes = s.good_bytes;
  bcast_pkts = s.bcast_pkts;
  mcast_pkts = s.mcast_pkts;
  undersize_err = s.undersize_err;
  oversize_err = s.oversize_err;
  jabber_err = s.jabber_err;
  len_err = s.len_err;
  fragment_err = s.fragment_err + 1;
}

-- The destination address of the IP header at `ip`: all ones, or 224.0.0.0 to 239.255.255.255.
pub is_broadcast : Memory → ℕ → Bool
is_broadcast b ip = (word b (ip + 16) == 0xffff) && (word b (ip + 18) == 0xffff)

pub is_multicast : Memory → ℕ → Bool
is_multicast b ip = leb 224 (b (ip + 16)) && leb (b (ip + 16)) 239

pub cast : PortStats → Memory → ℕ → PortStats
unfolding is_broadcast is_multicast
cast s b ip =
    let bcast = is_broadcast b ip in
    let mcast = is_multicast b ip in
    record {
      total_pkts = s.total_pkts;
      total_bytes = s.total_bytes;
      good_pkts = s.good_pkts;
      good_bytes = s.good_bytes;
      bcast_pkts = s.bcast_pkts + (if bcast then 1 else 0);
      mcast_pkts = s.mcast_pkts + (if bcast then 0 else if mcast then 1 else 0);
      undersize_err = s.undersize_err;
      oversize_err = s.oversize_err;
      jabber_err = s.jabber_err;
      len_err = s.len_err;
      fragment_err = s.fragment_err;
    }
