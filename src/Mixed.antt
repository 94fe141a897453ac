-- ===== src/Mixed.antt =====
-- The thread of the TCP proxy that schedules and sends (`app_mixed_thread` in `app_thread (1).c`): what
-- comes from the ring is checked, gets its place in the scheduler and enters it; what leaves the
-- scheduler is checked again and sent. The scheduler is DPDK's: what it says to each call, and which
-- frames it gives, are arguments.
pub mod Ring
pub mod Summed
pub mod Deque
pub mod Round
mod Tests
use xyz.Prelude.{
  ℕ, ◌+◌, ◌-◌, ◌*◌, ◌%◌, ◌^◌, ◌≡◌, Bool, true, false, not, Option, some, none, List, [], ◌∷◌, ◌==◌,
  ◌&&◌, ◌||◌, ltb, if◌then◌else◌,
}
use xyz.Memory.{Memory, word}
use xyz.Checksum.{gre_length, calculate_tcp_checksum}
use xyz.Firewall.{Rule}
use xyz.Firewall.Queue.{Sched, get_pkt_sched}
use xyz.Sender.{Frame}

-- The settings. `permission i` is firewall_lut[i].Permission.
pub record Env : Type 0 where
  pub tx_port : ℕ
  pub max_queue_index : ℕ
  pub mode : ℕ
  pub unset : ℕ
  pub lut : List Rule
  pub cnt : ℕ
  pub default_tc : ℕ
  pub permission : ℕ → ℕ
  -- rte_sched_port_pkt_write
  pub pkt_write : Frame → Sched → Frame

-- A frame of the ring is freed, freed as a request for new profiles, freed and counted as dropped, or
-- valid.
pub data Verdict : Type 0 where
  bad : Verdict
  profile_change : Verdict
  denied : Verdict
  valid : Frame → Verdict

unfoldable pub is_ipv4 : Frame → Bool
is_ipv4 m = word m.bytes 12 == 0x0800

-- The comparison of lengths, which the code makes of a frame from the ring and from the scheduler.
unfoldable pub bad_length : Frame → Bool
unfolding is_ipv4
bad_length m =
    let ip_len = word m.bytes 16 in
    if is_ipv4 m
    then ltb 1518 m.pkt_len || (not (m.pkt_len == ip_len + 14) && ltb 46 ip_len)
    else ltb 1518 m.pkt_len

-- SCHED_MAX_QUEUE_INDEX; sites are the pipes of the subport.
pub sched_max_queue_index : (n_pipes queues_per_site : ℕ) → ℕ
sched_max_queue_index n_pipes queues_per_site = (n_pipes * queues_per_site + 2 ^ 32 - 1) % 2 ^ 32

pub below_max : Env → Frame → Verdict
below_max e m = if ltb e.max_queue_index m.queue_id then bad else valid m

pub permitted : Env → Option ℕ → Bool
permitted e none = true
permitted e (some i) = not (e.permission i == 0)

pub scheduled : Env → Frame → Verdict
unfolding below_max permitted
scheduled e m =
    let found = get_pkt_sched m.bytes e.mode e.unset e.lut e.cnt e.default_tc in
    if permitted e found.1 then below_max e (e.pkt_write m found.0) else denied

-- `written` is `get_pkt_sched_written`.
pub to_port : Env → (written : Bool) → Frame → Verdict
unfolding below_max scheduled
to_port e written m =
    if e.tx_port == 1 then (if written then below_max e m else scheduled e m) else valid m

-- The TCP checksum is computed anew: a frame of TCP may have been changed.
pub summed : Frame → Frame
summed m = record {
  bytes = calculate_tcp_checksum m.bytes;
  pkt_len = m.pkt_len;
  queue_id = m.queue_id;
}

-- By the protocol of the inner header.
pub by_protocol : Env → Frame → Verdict
unfolding to_port summed gre_length
by_protocol e m =
    let gre_len = gre_length m.bytes in
    let proto = m.bytes (14 + gre_len + 9) in
    let dst_port = word m.bytes (34 + gre_len + 2) in
    if proto == 0x11
    then (if dst_port == 6001 then profile_change else to_port e (dst_port == 1194) m)
    else if proto == 0x06
    then to_port e false (summed m)
    else to_port e false m

-- A frame from the ring.
pub check_ring : Env → Frame → Verdict
unfolding bad_length is_ipv4 by_protocol to_port
check_ring e m =
    if bad_length m then bad else if is_ipv4 m then by_protocol e m else to_port e false m
