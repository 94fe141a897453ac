-- ===== src/RxThread/Loop.antt =====
-- The bursts of `app_rx_thread`: packets are read until a burst is not full.
use xyz.Prelude.{
  ℕ, ◌≡◌, ◌∙◌, refl, sym, ap, true, false, Option, some, none, List, [], ◌∷◌, ◌++◌, ◌==◌, length,
}
use mathlib.Core.List.{append_assoc}
use xyz.RxThread.{Packet, FragApi, RxEvent, Env, RxState}
use xyz.RxThread.Dispatch.{process_packet}
use xyz.RxThread.Dispatch.Verified.{AllChecked, AllChecked-++, process_packet-AllChecked}

module _ (api : FragApi) where
  pub process_burst : Env → RxState api.Table → List Packet → RxState api.Table × List RxEvent
  process_burst e s [] = (s, [])
  process_burst e s (m ∷ ms) =
      let now = process_packet api e s m in
      let later = process_burst e now.0 ms in (later.0, now.1 ++ later.1)

  pub appended :
      List RxEvent
      → Option (RxState api.Table × List RxEvent)
      → Option (RxState api.Table × List RxEvent)
  appended before none = none
  appended before (some r) = some (r.0, before ++ r.1)

  -- `bursts` is what rte_eth_rx_burst gives in turn; where the list ends, the thread waits: none.
  pub retrieve_loop :
      Env
      → (rx_burst : ℕ) → RxState api.Table
      → List (List Packet)
      → Option (RxState api.Table × List RxEvent)
  unfolding process_burst appended
  retrieve_loop e rx_burst s [] = none
  retrieve_loop e rx_burst s (ms ∷ bursts) =
      let now = process_burst e s ms in
      elim (length ms == rx_burst) [
        | true ↦ appended now.1 (retrieve_loop e rx_burst now.0 bursts)
        | false ↦ some now
      ]

  process_burst-AllChecked :
      (e : Env) (s : RxState api.Table) (ms : List Packet) → AllChecked (process_burst e s ms).1
  unfolding process_burst AllChecked
  process_burst-AllChecked e s [] = tt
  process_burst-AllChecked e s (m ∷ ms) =
      let now = process_packet api e s m in
      let later = process_burst e now.0 ms in
      AllChecked-++ now.1 later.1 (process_packet-AllChecked api e s m)
        (process_burst-AllChecked e now.0 ms)

  process_burst-++ :
      (e : Env) (s : RxState api.Table) (xs ys : List Packet)
      → process_burst e s (xs ++ ys) ≡ (
        (process_burst e (process_burst e s xs).0 ys).0,
        (process_burst e s xs).1 ++ (process_burst e (process_burst e s xs).0 ys).1,
      )
  unfolding process_burst
  process_burst-++ e s [] ys = refl
  process_burst-++ e s (m ∷ xs) ys =
      let now = process_packet api e s m in
      let h = process_burst-++ e now.0 xs ys in
      let mid = process_burst e now.0 xs in
      let end = process_burst e mid.0 ys in
      ap (λ r. (r.0, now.1 ++ r.1)) h
      ∙ ap (λ es. (end.0, es)) (sym (append_assoc now.1 mid.1 end.1))

pub all_packets : List (List Packet) → List Packet
all_packets [] = []
all_packets (ms ∷ bursts) = ms ++ all_packets bursts

-- Bursts of rx_burst packets, and one that is shorter or longer.
pub data IsTurn (rx_burst : ℕ) : List (List Packet) → List Packet → Type 0 where
  last :
      (ms : List Packet) (rest : List (List Packet))
      → (length ms == rx_burst) ≡ false
      → IsTurn rx_burst (ms ∷ rest) ms
  full :
      (ms : List Packet) (bursts : List (List Packet)) (all : List Packet)
      → (length ms == rx_burst) ≡ true
      → IsTurn rx_burst bursts all
      → IsTurn rx_burst (ms ∷ bursts) (ms ++ all)

module _ (api : FragApi) where
  -- As soon as a burst is not full, the loop ends, and it has treated the packets of all bursts so
  -- far, one after the other, as a single burst.
  pub retrieve_loop-process_burst :
      (e : Env) (rx_burst : ℕ) (s : RxState api.Table) (bursts : List (List Packet))
      (all : List Packet)
      → IsTurn rx_burst bursts all
      → retrieve_loop api e rx_burst s bursts ≡ some (process_burst api e s all)
  unfolding retrieve_loop
  retrieve_loop-process_burst e n s bursts all (last ms rest short) = rw (short, retrieve_loop) refl
  retrieve_loop-process_burst e n s bursts all (full ms more later is_full turn) =
      let now = process_burst api e s ms in
      let h = retrieve_loop-process_burst e n now.0 more later turn in
      rw (is_full, retrieve_loop)
        (ap (appended api now.1) h ∙ sym (ap some (process_burst-++ api e s ms later)))
