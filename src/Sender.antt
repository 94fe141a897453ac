-- ===== src/Sender.antt =====
-- How the TCP proxy hands packets to the scheduler's ring (`app_thread (1).c`: `l2fwd_simple_forward`,
-- `send_schedule_pkt`, `send_etherpkt`, `send_l2_rohcpkt`). The ring and the buffers are DPDK's: whether
-- a ring has room and what an allocation gives are arguments.
pub mod Account
pub mod Rohc
mod Tests
use xyz.Prelude.{
  ℕ, ◌+◌, ◌/◌, ◌%◌, ◌^◌, Bool, true, false, Option, some, none, List, [], ◌∷◌, ◌++◌, ◌==◌,
  if◌then◌else◌,
}
use xyz.Memory.{Memory, copy}
use xyz.Firewall.Queue.{Sched}

-- A buffer with its `hash.sched.queue_id`.
pub record Frame : Type 0 where
  pub bytes : Memory
  pub pkt_len : ℕ
  pub queue_id : ℕ

-- `qos_conf[portid].rx_thread`: the ring, and `stat`; and the buffers freed on its account.
pub record RxQueue : Type 0 where
  pub ring : List Frame
  pub nb_rx : ℕ
  pub nb_drop : ℕ
  pub dropped : List Frame

accept : RxQueue → Frame → RxQueue
accept q m = record {
  ring = q.ring ++ (m ∷ []);
  nb_rx = q.nb_rx + 1;
  nb_drop = q.nb_drop;
  dropped = q.dropped;
}

drop_frame : RxQueue → Frame → RxQueue
drop_frame q m = record {
  ring = q.ring;
  nb_rx = q.nb_rx + 1;
  nb_drop = q.nb_drop + 1;
  dropped = q.dropped ++ (m ∷ []);
}

-- `profile_update` is `firewall_profile_update == 1`.
pub send_schedule_pkt : (profile_update has_room : Bool) → RxQueue → Frame → RxQueue
unfolding accept drop_frame
send_schedule_pkt profile_update has_room q m =
    if profile_update then drop_frame q m else if has_room then accept q m else drop_frame q m

pub set_queue : (ℕ → RxQueue) → ℕ → RxQueue → ℕ → RxQueue
set_queue qs portid q p = if p == portid then q else qs p

pub l2fwd_simple_forward :
    (profile_update : Bool) (has_room : ℕ → Bool) → (ℕ → RxQueue) → Frame → ℕ → ℕ → RxQueue
unfolding send_schedule_pkt set_queue
l2fwd_simple_forward profile_update has_room qs m portid =
    set_queue qs portid (send_schedule_pkt profile_update (has_room portid) (qs portid) m)

-- The queues and `ipiden`.
pub record SendState : Type 0 where
  pub queues : ℕ → RxQueue
  pub ipiden : ℕ

-- What a frame is sent with: `apptxbuf`, `apptxlen`, `l2fwd_dst_ports`.
pub record SendEnv : Type 0 where
  pub apptxbuf : Memory
  pub apptxlen : ℕ
  pub dst_port : ℕ → ℕ
  pub profile_update : Bool
  pub has_room : ℕ → Bool
  -- rte_sched_port_pkt_write
  pub pkt_write : Frame → Sched → Frame

pub filled_frame : SendEnv → Frame → Frame
unfolding copy
filled_frame e m = record {
  bytes = copy m.bytes 0 e.apptxbuf 0 e.apptxlen;
  pkt_len = e.apptxlen;
  queue_id = m.queue_id;
}

pub scheduled : SendEnv → SendState → ℕ → Frame → SendState
unfolding l2fwd_simple_forward
scheduled e s portid m = record {
  queues = l2fwd_simple_forward e.profile_update e.has_room s.queues m portid;
  ipiden = (s.ipiden + 1) % 2 ^ 16;
}

-- `fresh` is what rte_pktmbuf_alloc gives.
pub send_etherpkt : SendEnv → SendState → (lanif : ℕ) → Option Frame → SendState
unfolding scheduled filled_frame
send_etherpkt e s lanif none = s
send_etherpkt e s lanif (some m) = scheduled e s (e.dst_port lanif) (filled_frame e m)

-- Pipe and traffic class of a queue's number.
pub queue_sched : (queues_per_pipe queue_id : ℕ) → Sched
queue_sched queues_per_pipe queue_id = record {
  subport = 0;
  pipe = queue_id / queues_per_pipe;
  traffic_class = queue_id % queues_per_pipe;
  queue = 0;
  color = 0;
}

pub send_l2_rohcpkt :
    SendEnv → SendState → (lanif queue_id queues_per_pipe : ℕ) → Option Frame → SendState
unfolding scheduled filled_frame queue_sched
send_l2_rohcpkt e s lanif queue_id queues_per_pipe none = s
send_l2_rohcpkt e s lanif queue_id queues_per_pipe (some m) =
    scheduled e s (e.dst_port lanif)
      (e.pkt_write (filled_frame e m) (queue_sched queues_per_pipe queue_id))
