-- ===== src/Sender/Tests.antt =====
-- A port that sends, and a connection of it.
use xyz.Prelude.{◌+◌, ◌*◌, ◌^◌, ◌<◌, ◌≡◌, ◌≢◌, refl, false, some, [], ltb, arith}
use xyz.Memory.{Memory, IsBytes, word, write_word, write_word-IsBytes}
use xyz.Firewall.Queue.{tcp_qos_queue, get_pkt_sched}
use xyz.Firewall.Queue.Agree.{host_32}
use xyz.Sender.{
  Frame, RxQueue, SendState, SendEnv, send_etherpkt, send_l2_rohcpkt, scheduled, filled_frame,
}
use xyz.Sender.Account.{Sends, Accounted, Sends-Accounted}
use xyz.Sender.Rohc.{send_l2_rohcpkt-get_pkt_sched}

abbrev zeros : Memory
zeros i = 0

abbrev blank : Frame
blank = record { bytes = zeros; pkt_len = 0; queue_id = 0 }

abbrev empty : RxQueue
empty = record { ring = []; nb_rx = 0; nb_drop = 0; dropped = [] }

abbrev start : SendState
start = record { queues = λ p. empty; ipiden = 7 }

-- Port 1 has no room.
abbrev env : SendEnv
env = record {
  apptxbuf = λ i. i;
  apptxlen = 60;
  dst_port = λ p. 1 + p;
  profile_update = false;
  has_room = λ p. ltb 1 p;
  pkt_write = λ m s. record {
    bytes = m.bytes;
    pkt_len = m.pkt_len;
    queue_id = s.pipe * 16 + s.traffic_class;
  };
}

empty-Accounted : Accounted empty
empty-Accounted = record { counted = refl; drops = refl }

abbrev answered : SendState
answered = send_etherpkt env start 0 (some blank)

abbrev compressed : SendState
compressed = send_l2_rohcpkt env answered 1 37 16 (some blank)

Sends-Accounted_example : Accounted (compressed.queues 2)
Sends-Accounted_example =
    Sends-Accounted start compressed
      (Sends.answers env start compressed 0 (some blank)
        (Sends.compresses env answered compressed 1 37 16 (some blank) (Sends.done compressed)))
      (λ p. empty-Accounted) 2

abbrev frame : Memory
frame = write_word (write_word zeros 12 0x0800) 22 0x4006

frame-IsBytes : IsBytes frame
frame-IsBytes =
    write_word-IsBytes (write_word zeros 12 0x0800) 22 0x4006
      (write_word-IsBytes zeros 12 0x0800 (λ i. omega arith))

frame_type : word frame 12 ≡ 0x0800
unfolding word write_word
frame_type = refl

frame_plain : frame 23 ≢ 0x2f
unfolding write_word
frame_plain = omega arith

class_low : (get_pkt_sched frame 0 77 [] 2 12).0.traffic_class < 16
unfolding get_pkt_sched word write_word
class_low = omega arith

number_small :
    (let s = (get_pkt_sched frame 0 77 [] 2 12).0 in s.pipe * 16 + s.traffic_class < 2 ^ 32)
unfolding get_pkt_sched word write_word
number_small = omega arith

send_l2_rohcpkt-get_pkt_sched_example :
    send_l2_rohcpkt env start 1
      (tcp_qos_queue
        (frame 15)
        (host_32 frame 26)
        (host_32 frame 30)
        (word frame 34)
        (word frame 36)
        (frame 23)
        []
        2
        12
        16).0
      16
      (some blank)
    ≡ scheduled env start 2
        (env.pkt_write (filled_frame env blank) (get_pkt_sched frame 0 77 [] 2 12).0)
send_l2_rohcpkt-get_pkt_sched_example =
    send_l2_rohcpkt-get_pkt_sched env start 1 blank frame 0 77 [] 2 12 16 frame-IsBytes frame_type
      frame_plain tt class_low number_small
