-- ===== src/Mixed/Deque.antt =====
-- The frames that `app_mixed_thread` gets from the scheduler, the lengths of its queues, and the
-- statistics of what is sent.
use xyz.Prelude.{
  ℕ, ◌+◌, ◌≡◌, Bool, true, false, not, Option, none, some, List, [], ◌∷◌, ◌==◌, ◌&&◌, ◌||◌, ltb,
  leb, if◌then◌else◌, length, All, Bool-cases, inl, inr, refl, arith,
}
use xyz.Memory.{word}
use xyz.Sender.{Frame}
use xyz.Mixed.{Env, is_ipv4, bad_length}
use xyz.Mixed.Ring.{Sendable, fits_line}

-- `qlen[queue_id]`; none where rte_sched_queue_read_stats fails.
pub set_qlen : (ℕ → ℕ) → ℕ → Option ℕ → ℕ → ℕ
set_qlen qlen queue_id none q = qlen q
set_qlen qlen queue_id (some n) q = if q == queue_id then n else qlen q

-- After enqueueing, for the first `nb_sent` frames.
pub enqueued_loop : (ℕ → ℕ) → List (Frame × Option ℕ) → ℕ → ℕ
unfolding set_qlen
enqueued_loop qlen [] = qlen
enqueued_loop qlen ((m, answer) ∷ ms) = enqueued_loop (set_qlen qlen m.queue_id answer) ms

pub record Dequeued : Type 0 where
  pub qlen : ℕ → ℕ
  pub kept : List Frame
  pub freed : List Frame

keep_frame : Frame → Dequeued → Dequeued
keep_frame m r = record { qlen = r.qlen; kept = m ∷ r.kept; freed = r.freed }

free_frame : Frame → Dequeued → Dequeued
free_frame m r = record { qlen = r.qlen; kept = r.kept; freed = m ∷ r.freed }

answered : Option ℕ → Bool
answered none = false
answered (some n) = true

-- Of the three tests, each frees the frame.
pub deque_bad : Env → Option ℕ → Frame → Bool
unfolding answered bad_length
deque_bad e answer m = ltb e.max_queue_index m.queue_id || not (answered answer) || bad_length m

-- A frame with its answer of rte_sched_queue_read_stats, which is not asked above the last queue.
unfoldable pub check_deque : Env → (ℕ → ℕ) → List (Frame × Option ℕ) → Dequeued
unfolding set_qlen keep_frame free_frame deque_bad
check_deque e qlen [] = record { qlen = qlen; kept = []; freed = [] }
check_deque e qlen ((m, answer) ∷ ms) =
    let above = ltb e.max_queue_index m.queue_id in
    let later = check_deque e (if above then qlen else set_qlen qlen m.queue_id answer) ms in
    if deque_bad e answer m then free_frame m later else keep_frame m later

-- tx_port_stats[conf->tx_port]
pub record TxStats : Type 0 where
  pub total_pkts : ℕ
  pub good_pkts : ℕ
  pub total_bytes : ℕ
  pub good_bytes : ℕ
  pub bcast_pkts : ℕ
  pub mcast_pkts : ℕ

-- By the destination address of the outer header.
is_broadcast : Frame → Bool
unfolding is_ipv4
is_broadcast m = is_ipv4 m && (word m.bytes 30 == 0xffff) && (word m.bytes 32 == 0xffff)

is_multicast : Frame → Bool
unfolding is_ipv4
is_multicast m = is_ipv4 m && leb 224 (m.bytes 30) && leb (m.bytes 30) 239

pub count_frame : TxStats → Frame → TxStats
unfolding is_broadcast is_multicast
count_frame s m =
    let bcast = is_broadcast m in
    let mcast = is_multicast m in
    record {
      total_pkts = s.total_pkts + 1;
      good_pkts = s.good_pkts + 1;
      total_bytes = s.total_bytes + m.pkt_len;
      good_bytes = s.good_bytes + m.pkt_len;
      bcast_pkts = s.bcast_pkts + (if bcast then 1 else 0);
      mcast_pkts = s.mcast_pkts + (if bcast then 0 else if mcast then 1 else 0);
    }

pub count_frames : TxStats → List Frame → TxStats
unfolding count_frame
count_frames s [] = s
count_frames s (m ∷ ms) = count_frames (count_frame s m) ms

kept_account :
    (e : Env) (m : Frame) (n : ℕ) (r : Dequeued)
    → Sendable e m
    → (length r.kept + length r.freed ≡ n) × All (Sendable e) r.kept
    → (length (keep_frame m r).kept + length (keep_frame m r).freed ≡ n + 1)
      × All (Sendable e) (keep_frame m r).kept
unfolding keep_frame
kept_account e m n r ok (size, all) = (omega (arith, size), (ok, all))

freed_account :
    (e : Env) (m : Frame) (n : ℕ) (r : Dequeued)
    → (length r.kept + length r.freed ≡ n) × All (Sendable e) r.kept
    → (length (free_frame m r).kept + length (free_frame m r).freed ≡ n + 1)
      × All (Sendable e) (free_frame m r).kept
unfolding free_frame
freed_account e m n r (size, all) = (omega (arith, size), all)

good-Sendable :
    (e : Env) (answer : Option ℕ) (m : Frame) → deque_bad e answer m ≡ false → Sendable e m
unfolding deque_bad
good-Sendable e answer m ok =
    let long : bad_length m ≡ false = ground (arith, ok) in
    record { in_range = ground (arith, ok); fits = fits_line m long }

-- Each frame from the scheduler is freed or kept for the line, once, and a kept frame has a queue that
-- exists and at most 1518 bytes.
pub check_deque-Sendable :
    (e : Env) (qlen : ℕ → ℕ) (ms : List (Frame × Option ℕ))
    → (length (check_deque e qlen ms).kept + length (check_deque e qlen ms).freed ≡ length ms)
      × All (Sendable e) (check_deque e qlen ms).kept
unfolding check_deque
check_deque-Sendable e qlen [] = (refl, tt)
check_deque-Sendable e qlen ((m, answer) ∷ ms) =
    let above = ltb e.max_queue_index m.queue_id in
    let next = if above then qlen else set_qlen qlen m.queue_id answer in
    let later = check_deque e next ms in
    let h = check_deque-Sendable e next ms in
    elim (Bool-cases (deque_bad e answer m)) [
      | inl bad ↦
          let (size, all) = freed_account e m (length ms) later h in
          rw bad (omega (arith, size), all)
      | inr ok ↦
          let (size, all) = kept_account e m (length ms) later (good-Sendable e answer m ok) h in
          rw ok (omega (arith, size), all)
    ]

pub count_frames_good :
    (s : TxStats) (ms : List Frame) → (count_frames s ms).good_pkts ≡ s.good_pkts + length ms
unfolding count_frames count_frame
count_frames_good s [] = omega arith
count_frames_good s (m ∷ ms) = omega (arith, count_frames_good (count_frame s m) ms)
