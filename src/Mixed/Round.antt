-- ===== src/Mixed/Round.antt =====
-- One pass of `app_mixed_thread` for one configuration.
use xyz.Prelude.{
  ℕ, ◌+◌, ◌-◌, ◌<◌, ◌≡◌, ◌∙◌, refl, Bool, true, false, Option, some, List, ◌++◌, ◌==◌, length,
  if◌then◌else◌,
}
use xyz.Sender.{Frame}
use xyz.Mixed.{Env}
use xyz.Mixed.Ring.{check_all}
use xyz.Mixed.Deque.{TxStats, enqueued_loop, check_deque, count_frames, count_frames_good}
use xyz.Transmit.{Tx, app_send_packets, drain_table, ◌>>=◌}
use xyz.Transmit.Order.{accepted, app_send_packets_order, drain_table_order}
use xyz.Transmit.Ends.{Ready, app_send_packets_ends, drain_table_ends}

-- The table of frames to send, `qlen`, `conf->stat`, `nb_drop` of the port's receive thread, the
-- statistics, and `profile_change`.
pub record MixedState : Type 0 where
  pub tx : Tx Frame
  pub qlen : ℕ → ℕ
  pub nb_rx : ℕ
  pub nb_drop : ℕ
  pub rx_drop : ℕ
  pub tx_stats : TxStats
  pub profile_change : Bool

-- What a pass is given: the frames of the ring, the frames that the scheduler has taken, with what it
-- says of their queues, and those that it gives; and whether the time to drain has come.
pub record Given : Type 0 where
  pub ring : List Frame
  pub nb_sent : ℕ
  pub enqueued : List (Frame × Option ℕ)
  pub dequeued : List (Frame × Option ℕ)
  pub drain : Bool

-- With the scheduler, what it gives is sent; without it, what is valid.
unfoldable pub outgoing : Env → Given → (ℕ → ℕ) → (ℕ → ℕ) × List Frame
outgoing e g qlen =
    let d = check_deque e (enqueued_loop qlen g.enqueued) g.dequeued in
    if e.tx_port == 1 then (d.qlen, d.kept) else (qlen, (check_all e g.ring).valid_frames)

after_pass : Env → Given → MixedState → Tx Frame → MixedState
after_pass e g s tx =
    let c = check_all e g.ring in
    let out = outgoing e g s.qlen in
    let n = if e.tx_port == 1 then length c.valid_frames else 0 in
    let sent = if e.tx_port == 1 then g.nb_sent else 0 in
    record {
      tx = tx;
      qlen = out.0;
      nb_rx = s.nb_rx + n;
      nb_drop = s.nb_drop + (n - sent);
      rx_drop = s.rx_drop + c.nb_drop;
      tx_stats = count_frames s.tx_stats out.1;
      profile_change = if c.profile_change then true else s.profile_change;
    }

-- none while the device takes nothing.
pub mixed_round : Env → (tx_burst : ℕ) → Given → MixedState → Option MixedState
unfolding outgoing after_pass
mixed_round e tx_burst g s = if s.profile_change then some s else (do
  t ← app_send_packets tx_burst s.tx (outgoing e g s.qlen).1
  t' ← drain_table g.drain t
  some (after_pass e g s t'))

-- A pass while no new profiles are asked for, with a device that takes a buffer at least in each call,
-- often enough for what waits and what comes: the pass ends; it hands on what the scheduler gives (or
-- what is valid, on the other port) behind all that came before, in its order; it counts each of
-- these frames; and it leaves less than a burst in the table.
pub mixed_round-accepted :
    (e : Env) (tx_burst : ℕ) (g : Given) (s : MixedState)
    → s.profile_change ≡ false
    → length s.tx.table < tx_burst
    → Ready s.tx (length (outgoing e g s.qlen).1)
    → (s' : MixedState) × (mixed_round e tx_burst g s ≡ some s')
      × (accepted s'.tx ≡ accepted s.tx ++ (outgoing e g s.qlen).1)
      × (length s'.tx.table < tx_burst)
      × (s'.tx_stats.good_pkts ≡ s.tx_stats.good_pkts + length (outgoing e g s.qlen).1)
unfolding mixed_round after_pass ◌>>=◌
mixed_round-accepted e tx_burst g s same room ready =
    let out = (outgoing e g s.qlen).1 in
    let (t, sent, ready1) = app_send_packets_ends tx_burst s.tx out ready in
    let (t', drained) = drain_table_ends g.drain t ready1 in
    let (a, room1) = app_send_packets_order tx_burst s.tx t out room sent in
    let (b, room2) = drain_table_order g.drain t t' tx_burst room1 drained in
    (
      after_pass e g s t',
      rw (same, sent, drained) refl,
      b ∙ a,
      room2,
      count_frames_good s.tx_stats out,
    )
