-- ===== src/Sender/Rohc.antt =====
-- The queue of a compressed packet.
use xyz.Prelude.{ℕ, ◌+◌, ◌*◌, ◌/◌, ◌%◌, ◌^◌, ◌<◌, ◌≡◌, ◌≢◌, ◌∙◌, ap, some, List, All, arith}
use native.Mathlib.Nat.{mul-add-div_right, mul-add-mod_self_right, div-eq_of_lt, mod-eq_of_lt}
use xyz.Memory.{Memory, IsBytes, word}
use xyz.Firewall.{Rule}
use xyz.Firewall.Queue.{Sched, tcp_qos_queue, get_pkt_sched}
use xyz.Firewall.Queue.Agree.{host_32, HasVlan, tcp_qos_queue-get_pkt_sched, get_pkt_sched_zeros}
use xyz.Sender.{Frame, SendEnv, SendState, queue_sched, scheduled, filled_frame, send_l2_rohcpkt}

queue_sched-number :
    (q : ℕ) (s : Sched)
    → s.traffic_class < q
    → s.pipe * q + s.traffic_class < 2 ^ 32
    → queue_sched q ((s.pipe * q + s.traffic_class) % 2 ^ 32)
      ≡ record { subport = 0; pipe = s.pipe; traffic_class = s.traffic_class; queue = 0; color = 0 }
unfolding queue_sched
queue_sched-number q s low small =
    let n = s.pipe * q + s.traffic_class in
    let whole : n % 2 ^ 32 ≡ n = mod-eq_of_lt small in
    let pos : 0 < q = omega (arith, low) in
    let d : n / q ≡ s.pipe =
      mul-add-div_right pos s.pipe s.traffic_class
      ∙ (ap (λ x. s.pipe + x) (div-eq_of_lt low) ∙ omega arith) in
    let r : n % q ≡ s.traffic_class =
      mul-add-mod_self_right s.pipe q s.traffic_class ∙ mod-eq_of_lt low in
    simp (whole, d, r)

-- For a plain IPv4 frame (no GRE header) of a connection, a table in which each rule names a VLAN, a traffic
-- class below the number of queues of a pipe, and a number that fits 32 bits: the packet that
-- `send_l2_rohcpkt` sends with the number that `tcp_qos_queue` gives the connection is written with exactly
-- the place that `get_pkt_sched` gives the frame, and goes that way to the ring of the port.
pub send_l2_rohcpkt-get_pkt_sched :
    (e : SendEnv) (s : SendState) (lanif : ℕ) (fresh : Frame) (m : Memory) (mode unset : ℕ)
    (lut : List Rule) (cnt default_tc queues_per_pipe : ℕ)
    → IsBytes m
    → word m 12 ≡ 0x0800
    → m 23 ≢ 0x2f
    → All HasVlan lut
    → (get_pkt_sched m mode unset lut cnt default_tc).0.traffic_class < queues_per_pipe
    → (let place = (get_pkt_sched m mode unset lut cnt default_tc).0 in
        place.pipe * queues_per_pipe + place.traffic_class < 2 ^ 32)
    → (let number =
          (tcp_qos_queue
            (m 15)
            (host_32 m 26)
            (host_32 m 30)
            (word m 34)
            (word m 36)
            (m 23)
            lut
            cnt
            default_tc
            queues_per_pipe).0 in
        send_l2_rohcpkt e s lanif number queues_per_pipe (some fresh)
        ≡ scheduled e s
            (e.dst_port lanif)
            (e.pkt_write (filled_frame e fresh) (get_pkt_sched m mode unset lut cnt default_tc).0))
unfolding send_l2_rohcpkt
send_l2_rohcpkt-get_pkt_sched e s lanif fresh m mode unset lut cnt default_tc q bytes ipv4 plain all
      low small =
    let place = (get_pkt_sched m mode unset lut cnt default_tc).0 in
    let same =
      ap (λ n. queue_sched q n)
        (tcp_qos_queue-get_pkt_sched m mode unset lut cnt default_tc q bytes ipv4 plain all)
      ∙ (queue_sched-number q place low small
          ∙ get_pkt_sched_zeros m mode unset lut cnt default_tc) in
    ap (λ place'. scheduled e s (e.dst_port lanif) (e.pkt_write (filled_frame e fresh) place')) same
