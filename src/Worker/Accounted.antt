-- ===== src/Worker/Accounted.antt =====
-- Every packet that the worker thread receives is in the scheduler, handed on, or counted as dropped.
use xyz.Prelude.{
  ℕ, ◌+◌, ◌%◌, ◌≤◌, ◌<◌, ◌≡◌, ◌∙◌, refl, sym, ap, inl, inr, Bool, true, false, Bool-cases, some,
  List, [], ◌∷◌, ◌==◌, if◌then◌else◌, length, length-append, arith,
}
use native.Mathlib.Nat.{mod-eq_of_lt, add-mod_right}
use xyz.Transmit.{◌>>=◌}
use xyz.Worker.{
  Scheduler, ThreadConf, WorkerState, bulk_loop, next_idx, receive, hand_on, transmit, set_conf,
  worker_pass, app_worker_thread,
}

-- The calls to come that find room.
abbrev pub room_calls : List Bool → ℕ
room_calls [] = 0
room_calls (a ∷ answers) = (if a then 1 else 0) + room_calls answers

bulk_loop_ends :
    (answers : List Bool) (n : ℕ)
    → n + 1 ≤ room_calls answers
    → (rest : List Bool) × (bulk_loop answers ≡ some rest) × (n ≤ room_calls rest)
unfolding bulk_loop
bulk_loop_ends [] n h = absurd (omega arith)
bulk_loop_ends (true ∷ answers) n h = (answers, refl, omega (arith, h))
bulk_loop_ends (false ∷ answers) n h = bulk_loop_ends answers n (omega (arith, h))

module _ {M : Type 0} (api : Scheduler M) where
  abbrev pub Accounted : ThreadConf api.Port M → Type 0
  Accounted c = c.nb_rx ≡ api.held c.sched_port + length c.tx_ring + c.nb_drop

  receive-Accounted :
      (c : ThreadConf api.Port M) (ms : List M) → Accounted c → Accounted (receive api c ms)
  unfolding receive
  receive-Accounted c [] h = h
  receive-Accounted c (m ∷ ms) h =
      let le = api.enqueue-le c.sched_port (m ∷ ms) in
      let in_port = api.enqueue-held c.sched_port (m ∷ ms) in omega (arith, h, le, in_port)

  transmit-Accounted :
      (c : ThreadConf api.Port M) (n : ℕ) → Accounted c → Accounted (transmit api c n)
  unfolding transmit
  transmit-Accounted c n h =
      let out = api.dequeue-held c.sched_port n in
      let both = length-append c.tx_ring (api.dequeue c.sched_port n).1 in
      omega (arith, h, out, both)

  set_conf-Accounted :
      (confs : ℕ → ThreadConf api.Port M) (idx : ℕ) (c : ThreadConf api.Port M)
      → ((i : ℕ) → Accounted (confs i))
      → Accounted c
      → (i : ℕ) → Accounted (set_conf api confs idx c i)
  unfolding set_conf
  set_conf-Accounted confs idx c h k i = elim (Bool-cases (i == idx)) [
    | inl same ↦ rw same k
    | inr other ↦ rw other (h i)
  ]

  hand_on_ends :
      (ms : List M) (answers : List Bool) (n : ℕ)
      → n + 1 ≤ room_calls answers
      → (rest : List Bool) × (hand_on api ms answers ≡ some rest) × (n ≤ room_calls rest)
  unfolding hand_on
  hand_on_ends [] answers n h = (answers, refl, omega (arith, h))
  hand_on_ends (m ∷ ms) answers n h = bulk_loop_ends answers n h

  worker_pass_ends :
      (count qos_dequeue n : ℕ) (w : WorkerState api.Port M) (ms : List M)
      → n + 1 ≤ room_calls w.answers
      → ((i : ℕ) → Accounted (w.confs i))
      → (w' : WorkerState api.Port M) × (worker_pass api count qos_dequeue w ms ≡ some w')
        × (n ≤ room_calls w'.answers)
        × ((i : ℕ) → Accounted (w'.confs i))
        × (w'.conf_idx ≡ next_idx count w.conf_idx)
  unfolding worker_pass ◌>>=◌
  worker_pass_ends count qos_dequeue n w ms enough all =
      let c = receive api (w.confs w.conf_idx) ms in
      let (rest, ends, left) =
        hand_on_ends (api.dequeue c.sched_port qos_dequeue).1 w.answers n enough in
      let kept = receive-Accounted (w.confs w.conf_idx) ms (all w.conf_idx) in
      (
        record {
          conf_idx = next_idx count w.conf_idx;
          confs = set_conf api w.confs w.conf_idx (transmit api c qos_dequeue);
          answers = rest;
        },
        rw ends refl,
        left,
        set_conf-Accounted w.confs w.conf_idx (transmit api c qos_dequeue) all
            (transmit-Accounted c qos_dequeue kept),
        refl,
      )

next_idx-mod : (count i n : ℕ) → i < count → (next_idx count i + n) % count ≡ (i + (n + 1)) % count
unfolding next_idx
next_idx-mod count i n h = elim (Bool-cases (i + 1 == count)) [
  | inl end ↦
      let all : i + (n + 1) ≡ n + count = ground (arith, end) in
      rw (end, all) (ap (λ x. x % count) (omega arith) ∙ sym (add-mod_right n count))
  | inr on ↦ let same : i + 1 + n ≡ i + (n + 1) = omega arith in rw on (ap (λ x. x % count) same)
]

next_idx-lt : (count i : ℕ) → i < count → next_idx count i < count
unfolding next_idx
next_idx-lt count i h = ground (arith, h)

module _ {M : Type 0} (api : Scheduler M) where
  -- Where the ring of the transmit thread has room for a call for each pass: all passes end, every
  -- packet that a connection has received is in its scheduler, handed on, or counted as dropped, if
  -- that was so before, and the connections are served in turn.
  pub app_worker_thread-Accounted :
      (count qos_dequeue : ℕ) (w : WorkerState api.Port M) (bursts : List (List M))
      → w.conf_idx < count
      → length bursts ≤ room_calls w.answers
      → ((i : ℕ) → Accounted api (w.confs i))
      → (w' : WorkerState api.Port M) × (app_worker_thread api count qos_dequeue w bursts ≡ some w')
        × ((i : ℕ) → Accounted api (w'.confs i))
        × (w'.conf_idx ≡ (w.conf_idx + length bursts) % count)
  unfolding app_worker_thread ◌>>=◌
  app_worker_thread-Accounted count q w [] small enough all =
      (w, refl, all, sym (mod-eq_of_lt small) ∙ ap (λ x. x % count) (omega arith))
  app_worker_thread-Accounted count q w (ms ∷ bursts) small enough all =
      let n = length bursts in
      let (w1, first, left, kept, turn) =
        worker_pass_ends api count q n w ms (omega (arith, enough)) all in
      let low = next_idx-lt count w.conf_idx small in
      let (w2, later, held, at) =
        app_worker_thread-Accounted count q w1 bursts (rw turn low) left kept in
      (
        w2,
        rw first later,
        held,
        at
            ∙ (ap (λ i. (i + n) % count) turn
                ∙ (next_idx-mod count w.conf_idx n small
                    ∙ ap (λ x. (w.conf_idx + x) % count) (omega arith))),
      )
