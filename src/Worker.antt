-- ===== src/Worker.antt =====
-- The worker thread of the TCP proxy (`app_worker_thread` in `app_thread (1).c`): what the ring of a
-- connection gives goes to its scheduler, and what the scheduler gives goes to the ring of the
-- transmit thread. A counter has no upper end.
pub mod Accounted
mod Tests
use xyz.Prelude.{
  ℕ, ◌+◌, ◌-◌, ◌≤◌, ◌≡◌, Bool, true, false, Option, none, some, List, [], ◌∷◌, ◌++◌, ◌==◌,
  if◌then◌else◌, length,
}
use xyz.Transmit.{◌>>=◌}

-- The scheduler of DPDK (rte_sched_port_enqueue, rte_sched_port_dequeue): `enqueue` tells how many
-- packets it took and frees the others, `dequeue` gives some of those that it holds.
pub record Scheduler (M : Type 0) : Type 1 where
  pub Port : Type 0
  pub held : Port → ℕ
  pub enqueue : Port → List M → Port × ℕ
  pub dequeue : Port → ℕ → Port × List M
  pub enqueue-le : (p : Port) (ms : List M) → (enqueue p ms).1 ≤ length ms
  pub enqueue-held : (p : Port) (ms : List M) → held (enqueue p ms).0 ≡ held p + (enqueue p ms).1
  pub dequeue-held : (p : Port) (n : ℕ) → held (dequeue p n).0 + length (dequeue p n).1 ≡ held p

-- `struct thread_conf`: the scheduler, all that went into `tx_ring`, and `stat`.
pub record ThreadConf (Port M : Type 0) : Type 0 where
  pub sched_port : Port
  pub tx_ring : List M
  pub nb_rx : ℕ
  pub nb_drop : ℕ

-- `answers` is what rte_ring_sp_enqueue_bulk says to the calls to come: false is 0, a full ring.
pub record WorkerState (Port M : Type 0) : Type 0 where
  pub conf_idx : ℕ
  pub confs : ℕ → ThreadConf Port M
  pub answers : List Bool

-- The call is made until the ring has room; where the answers end, the thread still tries: none.
pub bulk_loop : List Bool → Option (List Bool)
bulk_loop [] = none
bulk_loop (true ∷ answers) = some answers
bulk_loop (false ∷ answers) = bulk_loop answers

-- confs[count] is NULL.
pub next_idx : (count conf_idx : ℕ) → ℕ
next_idx count conf_idx = if conf_idx + 1 == count then 0 else conf_idx + 1

module _ {M : Type 0} (api : Scheduler M) where
  pub receive : ThreadConf api.Port M → List M → ThreadConf api.Port M
  receive c [] = c
  receive c (m ∷ ms) =
      let r = api.enqueue c.sched_port (m ∷ ms) in
      record {
        sched_port = r.0;
        tx_ring = c.tx_ring;
        nb_rx = c.nb_rx + length (m ∷ ms);
        nb_drop = c.nb_drop + (length (m ∷ ms) - r.1);
      }

  pub hand_on : List M → List Bool → Option (List Bool)
  unfolding bulk_loop
  hand_on [] answers = some answers
  hand_on (m ∷ ms) answers = bulk_loop answers

  pub transmit : ThreadConf api.Port M → ℕ → ThreadConf api.Port M
  transmit c qos_dequeue =
      let r = api.dequeue c.sched_port qos_dequeue in
      record { sched_port = r.0; tx_ring = c.tx_ring ++ r.1; nb_rx = c.nb_rx; nb_drop = c.nb_drop }

  set_conf : (ℕ → ThreadConf api.Port M) → ℕ → ThreadConf api.Port M → ℕ → ThreadConf api.Port M
  set_conf confs idx c i = if i == idx then c else confs i

  -- `mbufs` is what the ring of the connection gives, at most ring_burst.
  pub worker_pass :
      (count qos_dequeue : ℕ) → WorkerState api.Port M → List M → Option (WorkerState api.Port M)
  unfolding receive transmit hand_on set_conf next_idx
  worker_pass count qos_dequeue w mbufs = do
    let c = receive (w.confs w.conf_idx) mbufs
    answers ← hand_on (api.dequeue c.sched_port qos_dequeue).1 w.answers
    some (record {
      conf_idx = next_idx count w.conf_idx;
      confs = set_conf w.confs w.conf_idx (transmit c qos_dequeue);
      answers = answers;
    })

  pub app_worker_thread :
      (count qos_dequeue : ℕ)
      → WorkerState api.Port M
      → List (List M)
      → Option (WorkerState api.Port M)
  unfolding worker_pass
  app_worker_thread count qos_dequeue w [] = some w
  app_worker_thread count qos_dequeue w (mbufs ∷ bursts) = do
    w' ← worker_pass count qos_dequeue w mbufs
    app_worker_thread count qos_dequeue w' bursts
