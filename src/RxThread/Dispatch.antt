-- ===== src/RxThread/Dispatch.antt =====
-- What `app_rx_thread` does with a packet: by its ether type, and by the protocol of the inner header.
-- `gre_len` is the length of the GRE header and the inner IP header, 0 without a tunnel, so the inner
-- header stands at 14 + gre_len, and what it carries at 34 + gre_len.
pub mod Leads
pub mod Owner
pub mod Reassembled
pub mod Verified
use xyz.Prelude.{
  ℕ, ◌+◌, ◌-◌, ◌*◌, ◌/◌, ◌%◌, ◌^◌, ◌≡◌, Bool, true, false, not, Option, some, none, List, [], ◌∷◌,
  ◌++◌, ◌==◌, ◌&&◌, ltb, if◌then◌else◌,
}
use xyz.Memory.{Memory, word}
use xyz.Arp
use xyz.Arp.{process_arp}
use xyz.Checksum.{verify_tcp_checksum, gre_length}
use xyz.Sites.{inner_ip_is_fragment, is_rtp_hdr}
use xyz.RxThread
use xyz.RxThread.{
  Packet, FragApi, RxEvent, freed, forwarded, arp, answered, tcp_input, decoalesced, compressed,
  fault, Env, RxState, PortStats, count_packet, good, bad_length, fragment, cast,
}
use xyz.RxThread.Frag.{gather, refresh_outer}

pub with_stats : {T : Type 0} → RxState T → PortStats → RxState T
with_stats s n = record { stats = n; reach = s.reach; outer = s.outer; inner = s.inner }

-- l2fwd_simple_forward
pub forward : {T : Type 0} → Env → RxState T → Packet → RxState T × List RxEvent
unfolding with_stats good
forward e s m = (with_stats s (good s.stats m), forwarded m e.portid ∷ [])

-- What is read; `grown` packets are written to before they are compared with NULL.
pub read_packet : (has_room grown : Bool) → List RxEvent → List RxEvent
read_packet true grown input = input
read_packet false true input = fault ∷ []
read_packet false false input = []

-- Where the payload can grow, `m_devget` gets room for MINCLSIZE bytes at least.
pub deliver : Env → Memory → (gre_len : ℕ) → List RxEvent
unfolding read_packet
deliver e b gre_len =
    let ip = 14 + gre_len in
    let total = word b (ip + 2) in
    let header = b (gre_len + 46) / 16 % 16 * 4 in
    let payload = (total + 2 ^ 32 - 20 + 2 ^ 32 - header) % 2 ^ 32 in
    let grown = not (payload == 0) && ltb total e.mincl_size in
    read_packet (e.devget (if grown then e.mincl_size else total)) grown
      (tcp_input b ip total (b ip % 16 * 4) ∷ [])

-- The buffer is freed behind it, if the thread gets there.
pub freed_after : List RxEvent → Packet → List RxEvent
freed_after (fault ∷ []) m = fault ∷ []
freed_after es m = es ++ (freed m ∷ [])

pub on_tcp : {T : Type 0} → Env → RxState T → Packet → ℕ → RxState T × List RxEvent
unfolding with_stats good deliver freed_after
on_tcp e s m gre_len =
    let ip = 14 + gre_len in
    let match = verify_tcp_checksum m.bytes (34 + gre_len) ip (word m.bytes (ip + 2)) in
    if match
    then (with_stats s (good s.stats m), freed_after (deliver e m.bytes gre_len) m)
    else (s, freed m ∷ [])

-- The UDP header stands at 34 + gre_len.
pub is_rtp : Env → Memory → ℕ → Bool
is_rtp e b gre_len =
    let udp = 34 + gre_len in
    is_rtp_hdr (word b udp) (word b (udp + 2)) (word b (udp + 4)) e.rtp_size (e.rtp_at b (udp + 8))

pub on_udp : {T : Type 0} → Env → RxState T → Packet → ℕ → RxState T × List RxEvent
unfolding with_stats good forward is_rtp
on_udp e s m gre_len =
    let counted_good = with_stats s (good s.stats m) in
    let dst_port = word m.bytes (34 + gre_len + 2) in
    if not e.header_comp
    then forward e s m
    else if e.portid == e.wan_if_id
    then (if dst_port == 1194
        then (counted_good, decoalesced m ∷ (freed m ∷ []))
        else forward e s m)
    else if ltb m.pkt_len 200 && is_rtp e m.bytes gre_len
    then (counted_good, compressed m ∷ (freed m ∷ []))
    else forward e s m

-- By `next_proto_id`.
pub dispatch : {T : Type 0} → Env → RxState T → Packet → ℕ → RxState T × List RxEvent
unfolding with_stats good cast on_tcp on_udp forward
dispatch e s m gre_len =
    let proto = m.bytes (14 + gre_len + 9) in
    let s1 = with_stats s (cast s.stats m.bytes (14 + gre_len)) in
    let counted_good = with_stats s1 (good s1.stats m) in
    if proto == 0x01
    then (counted_good, answered m (e.dst_port e.portid) ∷ (freed m ∷ []))
    else if proto == 0x04
    then (counted_good, freed m ∷ [])
    else if proto == 0x06
    then on_tcp e s1 m gre_len
    else if proto == 0x11
    then on_udp e s1 m gre_len
    else forward e s1 m

module _ (api : FragApi) where
  pub after : List RxEvent → RxState api.Table × List RxEvent → RxState api.Table × List RxEvent
  after before r = (r.0, before ++ r.1)

  -- The packet that the inner block leaves, if it leaves one.
  pub inner_gathered :
      Env → RxState api.Table → ℕ → Option Packet × List RxEvent → RxState api.Table × List RxEvent
  unfolding after refresh_outer dispatch
  inner_gathered e s gre_len (none, es) = (s, es)
  inner_gathered e s gre_len (some m, es) =
      after es (dispatch e s (refresh_outer api gre_len m) gre_len)

  pub on_inner : Env → RxState api.Table → Packet → RxState api.Table × List RxEvent
  unfolding inner_gathered gather gre_length inner_ip_is_fragment fragment dispatch
  on_inner e s m =
      let gre_len = gre_length m.bytes in
      let g = gather api s.inner m (14 + gre_len) e.tsc in
      let s1 : RxState api.Table = record {
        stats = fragment s.stats;
        reach = s.reach;
        outer = s.outer;
        inner = g.0;
      } in
      if (m.bytes 23 == 0x2f) && inner_ip_is_fragment m.bytes (14 + gre_len)
      then inner_gathered e s1 gre_len g.1
      else dispatch e s m gre_len

  pub outer_gathered :
      Env → RxState api.Table → Option Packet × List RxEvent → RxState api.Table × List RxEvent
  unfolding after on_inner
  outer_gathered e s (none, es) = (s, es)
  outer_gathered e s (some m, es) = after es (on_inner e s m)

  pub on_outer : Env → RxState api.Table → Packet → RxState api.Table × List RxEvent
  unfolding outer_gathered gather fragment on_inner
  on_outer e s m =
      let g = gather api s.outer m 14 e.tsc in
      let s1 : RxState api.Table = record {
        stats = fragment s.stats;
        reach = s.reach;
        outer = g.0;
        inner = s.inner;
      } in
      if api.outer_ip_is_fragment m.bytes then outer_gathered e s1 g.1 else on_inner e s m

  -- pkt_len != (ip_len + 14), where ip_len > 46; not for a fragment
  pub length_mismatch : Packet → Bool
  unfolding inner_ip_is_fragment
  length_mismatch m =
      let ip_len = word m.bytes 16 in
      not (inner_ip_is_fragment m.bytes 14) && not (m.pkt_len == ip_len + 14) && ltb 46 ip_len

  pub on_ipv4 : Env → RxState api.Table → Packet → RxState api.Table × List RxEvent
  unfolding length_mismatch on_outer bad_length with_stats
  on_ipv4 e s m =
      if length_mismatch m
      then (with_stats s (bad_length s.stats), freed m ∷ [])
      else on_outer e s m

  pub on_arp : Env → RxState api.Table → Packet → RxState api.Table × List RxEvent
  unfolding good
  on_arp e s m =
      let r = process_arp e.arp_config e.tunnel_enable m.bytes e.portid m.pkt_len s.reach in
      let s1 : RxState api.Table = record {
        stats = good s.stats m;
        reach = r.0;
        outer = s.outer;
        inner = s.inner;
      } in
      (s1, arp m r.1 ∷ [])

  -- One packet of the loop over a burst.
  pub process_packet : Env → RxState api.Table → Packet → RxState api.Table × List RxEvent
  unfolding on_arp on_ipv4 forward with_stats count_packet
  process_packet e s m =
      let s0 = with_stats s (count_packet s.stats m) in
      let ether_type = word m.bytes 12 in
      if ether_type == 0x0806
      then on_arp e s0 m
      else if ether_type == 0x0800
      then on_ipv4 e s0 m
      else forward e s0 m
