-- ===== src/Sender/Account.antt =====
-- What becomes of the packets that the TCP proxy sends.
use xyz.Prelude.{
  ℕ, ◌+◌, ◌≡◌, Bool, true, false, Option, some, none, [], ◌∷◌, ◌==◌, length, length-append,
  Bool-cases, inl, inr, arith,
}
use xyz.Sender.{
  Frame, RxQueue, send_schedule_pkt, set_queue, l2fwd_simple_forward, SendState, SendEnv,
  filled_frame, scheduled, send_etherpkt, queue_sched, send_l2_rohcpkt,
}

-- One operation after another, each with the answers of DPDK that it gets.
pub data Sends : SendState → SendState → Type 0 where
  done : (s : SendState) → Sends s s
  forwards :
      (e : SendEnv) (s s' : SendState) (m : Frame) (portid : ℕ)
      → Sends
          (record {
            queues = l2fwd_simple_forward e.profile_update e.has_room s.queues m portid;
            ipiden = s.ipiden;
          })
          s'
      → Sends s s'
  answers :
      (e : SendEnv) (s s' : SendState) (lanif : ℕ) (fresh : Option Frame)
      → Sends (send_etherpkt e s lanif fresh) s'
      → Sends s s'
  compresses :
      (e : SendEnv) (s s' : SendState) (lanif queue_id queues_per_pipe : ℕ) (fresh : Option Frame)
      → Sends (send_l2_rohcpkt e s lanif queue_id queues_per_pipe fresh) s'
      → Sends s s'

-- Each counted packet is in the ring or was freed, and the drops are counted.
pub record Accounted (q : RxQueue) : Type 0 where
  pub counted : q.nb_rx ≡ length q.ring + length q.dropped
  pub drops : q.nb_drop ≡ length q.dropped

send_schedule_pkt-Accounted :
    (profile_update has_room : Bool) (q : RxQueue) (m : Frame)
    → Accounted q
    → Accounted (send_schedule_pkt profile_update has_room q m)
unfolding send_schedule_pkt
send_schedule_pkt-Accounted true room q m a = record {
  counted = omega (arith, a.counted, length-append q.dropped (m ∷ []));
  drops = omega (arith, a.drops, length-append q.dropped (m ∷ []));
}
send_schedule_pkt-Accounted false true q m a = record {
  counted = omega (arith, a.counted, length-append q.ring (m ∷ []));
  drops = a.drops;
}
send_schedule_pkt-Accounted false false q m a = record {
  counted = omega (arith, a.counted, length-append q.dropped (m ∷ []));
  drops = omega (arith, a.drops, length-append q.dropped (m ∷ []));
}

forward-Accounted :
    (e : SendEnv) (qs : ℕ → RxQueue) (m : Frame) (portid : ℕ)
    → ((p : ℕ) → Accounted (qs p))
    → (p : ℕ) → Accounted (l2fwd_simple_forward e.profile_update e.has_room qs m portid p)
unfolding l2fwd_simple_forward set_queue
forward-Accounted e qs m portid all p = elim (Bool-cases (p == portid)) [
  | inl here ↦
      let a =
        send_schedule_pkt-Accounted e.profile_update (e.has_room portid) (qs portid) m
          (all portid) in
      rw here a
  | inr other ↦ rw other (all p)
]

scheduled-Accounted :
    (e : SendEnv) (s : SendState) (portid : ℕ) (m : Frame)
    → ((p : ℕ) → Accounted (s.queues p))
    → (p : ℕ) → Accounted ((scheduled e s portid m).queues p)
unfolding scheduled
scheduled-Accounted e s portid m all = forward-Accounted e s.queues m portid all

-- Whatever a thread forwards, answers or compresses, with whatever rings and allocations: on each port,
-- the packets counted are those in the ring and those freed, and the drops counted are those freed.
pub Sends-Accounted :
    (s s' : SendState)
    → Sends s s'
    → ((p : ℕ) → Accounted (s.queues p))
    → (p : ℕ) → Accounted (s'.queues p)
unfolding send_etherpkt send_l2_rohcpkt
Sends-Accounted s s' (done _) all = all
Sends-Accounted s s' (forwards e _ _ m portid more) all =
    Sends-Accounted _ s' more (forward-Accounted e s.queues m portid all)
Sends-Accounted s s' (answers e _ _ lanif none more) all = Sends-Accounted s s' more all
Sends-Accounted s s' (answers e _ _ lanif (some m) more) all =
    Sends-Accounted _ s' more (scheduled-Accounted e s (e.dst_port lanif) (filled_frame e m) all)
Sends-Accounted s s' (compresses e _ _ lanif queue_id q none more) all =
    Sends-Accounted s s' more all
Sends-Accounted s s' (compresses e _ _ lanif queue_id q (some m) more) all =
    Sends-Accounted _ s' more (
      scheduled-Accounted e s (e.dst_port lanif)
        (e.pkt_write (filled_frame e m) (queue_sched q queue_id)) all)
