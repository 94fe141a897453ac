-- ===== src/Mixed/Tests.antt =====
-- Port 1 with 16 queues, and a TCP frame for it.
use xyz.Prelude.{
  ℕ, ◌+◌, ◌*◌, ◌≤◌, ◌<◌, ◌≡◌, refl, true, false, some, Option, List, [], ◌∷◌, ◌++◌, length, All,
  arith,
}
use xyz.Memory.{Memory, IsBytes, word, write_word, write_word-IsBytes}
use xyz.Checksum.{gre_length}
use xyz.Sender.{Frame}
use xyz.Transmit.Order.{accepted}
use xyz.Transmit.Ends.{Ready}
use xyz.Mixed.{Env, is_ipv4, check_ring}
use xyz.Mixed.Ring.{OfValid, WritesPlace, Sendable, check_all, check_all-Sendable}
use xyz.Mixed.Summed.{IsVerified, check_ring-IsVerified}
use xyz.Mixed.Deque.{TxStats, check_deque}
use xyz.Mixed.Round.{MixedState, Given, outgoing, mixed_round, mixed_round-accepted}

abbrev zeros : Memory
zeros i = 0

abbrev env : Env
env = record {
  tx_port = 1;
  max_queue_index = 15;
  mode = 0;
  unset = 77;
  lut = [];
  cnt = 0;
  default_tc = 12;
  permission = λ i. 1;
  pkt_write = λ m s. record {
    bytes = m.bytes;
    pkt_len = m.pkt_len;
    queue_id = s.pipe * 16 + s.traffic_class;
  };
}

writes : WritesPlace env
unfolding WritesPlace
writes m s = (refl, refl)

-- 46 bytes of IP in a frame of 60, protocol 6.
abbrev tcp_bytes : Memory
tcp_bytes = write_word (write_word (write_word zeros 12 0x0800) 16 46) 22 0x4006

abbrev tcp_frame : Frame
tcp_frame = record { bytes = tcp_bytes; pkt_len = 60; queue_id = 99 }

abbrev long_frame : Frame
long_frame = record { bytes = zeros; pkt_len = 1600; queue_id = 3 }

tcp_bytes-IsBytes : IsBytes tcp_bytes
tcp_bytes-IsBytes =
    let first = write_word zeros 12 0x0800 in
    write_word-IsBytes (write_word first 16 46) 22 0x4006
      (write_word-IsBytes first 16 46 (write_word-IsBytes zeros 12 0x0800 (λ i. omega arith)))

tcp_is_ipv4 : is_ipv4 tcp_frame ≡ true
unfolding is_ipv4 word write_word
tcp_is_ipv4 = refl

tcp_proto : tcp_bytes (14 + gre_length tcp_bytes + 9) ≡ 6
unfolding gre_length write_word
tcp_proto = refl

tcp_long : 38 ≤ word tcp_bytes (gre_length tcp_bytes + 16)
unfolding gre_length word write_word
tcp_long = omega arith

check_ring-IsVerified_example : OfValid (IsVerified tcp_frame) (check_ring env tcp_frame)
check_ring-IsVerified_example =
    check_ring-IsVerified env tcp_frame writes tcp_bytes-IsBytes tcp_is_ipv4 tcp_proto tcp_long

check_all-Sendable_example :
    (let r = check_all env (tcp_frame ∷ (long_frame ∷ [])) in
      (length r.valid_frames + length r.freed ≡ 2) × All (Sendable env) r.valid_frames)
check_all-Sendable_example = check_all-Sendable env (tcp_frame ∷ (long_frame ∷ [])) writes refl

-- A small frame that is not IPv4, with a queue that exists.
abbrev short_frame : Frame
short_frame = record { bytes = zeros; pkt_len = 60; queue_id = 3 }

abbrev from_scheduler : List (Frame × Option ℕ)
from_scheduler = (short_frame, some 5) ∷ ((long_frame, some 4) ∷ [])

abbrev no_stats : TxStats
no_stats = record {
  total_pkts = 0;
  good_pkts = 0;
  total_bytes = 0;
  good_bytes = 0;
  bcast_pkts = 0;
  mcast_pkts = 0;
}

-- One frame waits; the device takes one in each call.
abbrev state : MixedState
state = record {
  tx = record { table = short_frame ∷ []; wire = []; takes = 1 ∷ (1 ∷ (1 ∷ [])) };
  qlen = λ q. 0;
  nb_rx = 0;
  nb_drop = 0;
  rx_drop = 0;
  tx_stats = no_stats;
  profile_change = false;
}

abbrev given : Given
given = record { ring = []; nb_sent = 0; enqueued = []; dequeued = from_scheduler; drain = true }

ready : Ready state.tx (length (outgoing env given state.qlen).1)
unfolding outgoing check_deque word
ready = ((omega arith, (omega arith, (omega arith, tt))), omega arith)

mixed_round-accepted_example :
    (s' : MixedState) × (mixed_round env 4 given state ≡ some s')
    × (accepted s'.tx ≡ accepted state.tx ++ (outgoing env given state.qlen).1)
    × (length s'.tx.table < 4)
    × (s'.tx_stats.good_pkts ≡ 0 + length (outgoing env given state.qlen).1)
mixed_round-accepted_example = mixed_round-accepted env 4 given state refl (omega arith) ready
