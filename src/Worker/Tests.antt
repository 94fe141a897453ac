-- ===== src/Worker/Tests.antt =====
-- Two connections, with a scheduler that holds two packets at most.
use xyz.Prelude.{
  ℕ, ◌+◌, ◌-◌, ◌%◌, ◌≤◌, ◌≡◌, refl, true, false, some, List, [], ◌∷◌, ◌++◌, take, drop, length,
  length-append, length-take, length-drop, arith,
}
use xyz.Worker.{Scheduler, ThreadConf, WorkerState, app_worker_thread}
use xyz.Worker.Accounted.{Accounted, room_calls, app_worker_thread-Accounted}

abbrev two_places : Scheduler ℕ
two_places = record {
  Port = List ℕ;
  held = λ p. length p;
  enqueue = λ p ms. (p ++ take (2 - length p) ms, length (take (2 - length p) ms));
  dequeue = λ p n. (drop n p, take n p);
  enqueue-le = λ p ms. omega (arith, length-take (2 - length p) ms);
  enqueue-held = λ p ms. length-append p (take (2 - length p) ms);
  dequeue-held = λ p n. omega (arith, length-take n p, length-drop n p);
}

abbrev empty_conf : ThreadConf (List ℕ) ℕ
empty_conf = record { sched_port = []; tx_ring = []; nb_rx = 0; nb_drop = 0 }

abbrev start : WorkerState (List ℕ) ℕ
start = record {
  conf_idx = 0;
  confs = λ i. empty_conf;
  answers = false ∷ (true ∷ (true ∷ (true ∷ [])));
}

abbrev bursts : List (List ℕ)
bursts = (7 ∷ (8 ∷ (9 ∷ []))) ∷ ([] ∷ ((5 ∷ []) ∷ []))

start-Accounted : (i : ℕ) → Accounted two_places (start.confs i)
start-Accounted i = refl

enough_room : length bursts ≤ room_calls start.answers
enough_room = omega arith

app_worker_thread-Accounted_example :
    (w' : WorkerState (List ℕ) ℕ) × (app_worker_thread two_places 2 1 start bursts ≡ some w')
    × ((i : ℕ) → Accounted two_places (w'.confs i))
    × (w'.conf_idx ≡ (0 + 3) % 2)
app_worker_thread-Accounted_example =
    app_worker_thread-Accounted two_places 2 1 start bursts (omega arith) enough_room
      start-Accounted
