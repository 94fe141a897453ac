-- ===== src/RxThread/Timer.antt =====
-- The timers of `app_rx_thread`: what it starts at which millisecond, and the loop over the connections
-- that sends what byte caching holds back. What is started is not in the repository, apart from the ARP
-- requests (`SendArpRequestPkt`, in Arp) and the check of byte caching (in Timer/Pending).
pub mod Pending
mod Tests
use xyz.Prelude.{
  ℕ, ◌+◌, ◌*◌, ◌-◌, ◌%◌, ◌^◌, ◌≤◌, ◌<◌, ◌≡◌, refl, Bool, true, false, not, Option, some, none, List,
  [], ◌∷◌, ◌++◌, ◌==◌, ◌&&◌, ltb, leb, if◌then◌else◌, arith,
}
use mathlib.Core.List.{append_assoc}
use xyz.Arp.{Reachable}

pub data Task : Type 0 where
  arp_request : (lanif gateway : ℕ) → Task
  drain_deathrow : Task
  update_idealsize : Task
  highwatt : Task
  close_check : Task
  rohc_timer : Task
  piggyback_timer : Task
  coalesce_timer : Task
  tlv_check : Task
  print_stats : Task
  run_timerlist : Task

pub record Settings : Type 0 where
  pub tunnel_enable : Bool
  pub lan_if_id : ℕ
  pub wan_if_id : ℕ
  pub lan_gw : ℕ
  pub tunnel_gw : ℕ
  -- TIMER_RESOLUTION and TIMER_RESOLUTION_ROHC
  pub resolution : ℕ
  pub resolution_rohc : ℕ
  -- what the counter of the device adds in a millisecond
  pub mscnt : ℕ

start_if : Bool → List Task → List Task
start_if true ts = ts
start_if false ts = []

-- What is due every n counts; `due 0` divides by zero in C.
due : ℕ → ℕ → List Task → List Task
unfolding start_if
due n count ts = start_if (count % n == 0) ts

-- Once in 5 seconds, for a gateway that is not reachable.
pub requests_5s : Settings → Reachable → List Task
unfolding start_if
requests_5s c r =
    start_if (c.tunnel_enable && (r.lan == 0)) (arp_request c.lan_if_id c.lan_gw ∷ [])
    ++ start_if (c.tunnel_enable && (r.wan == 0)) (arp_request c.wan_if_id c.tunnel_gw ∷ [])

pub requests_60s : Settings → List Task
unfolding start_if
requests_60s c =
    start_if c.tunnel_enable
      (arp_request c.lan_if_id c.lan_gw ∷ (arp_request c.wan_if_id c.tunnel_gw ∷ []))

later_tasks : Settings → ℕ → List Task
unfolding due requests_60s
later_tasks c count =
    due 60000 count (requests_60s c)
    ++ (due 500 count (update_idealsize ∷ [])
        ++ (due 1000 count (highwatt ∷ [])
            ++ (due 10 count (close_check ∷ [])
                ++ (due c.resolution_rohc count
                      (rohc_timer ∷ (piggyback_timer ∷ (coalesce_timer ∷ [])))
                    ++ due c.resolution count (tlv_check ∷ [])))))

-- With `timer1mscnt` already increased.
pub ms_tasks : Settings → Reachable → ℕ → List Task
unfolding due requests_5s later_tasks
ms_tasks c r count = drain_deathrow ∷ (due 5000 count (requests_5s c r) ++ later_tasks c count)

pub record Clocks : Type 0 where
  pub prev_periodic : ℕ
  pub prev_timerlist : ℕ
  pub prev_ms : ℕ
  pub timer1mscnt : ℕ

-- cur - prev, of 64 bits
pub elapsed : ℕ → ℕ → ℕ
elapsed cur prev = (cur + 2 ^ 64 - prev) % 2 ^ 64

-- One pass, at the time `cur`.
pub timers : Settings → Reachable → ℕ → Clocks → Clocks × List Task
unfolding elapsed ms_tasks start_if
timers c r cur k =
    let periodic = leb (5000 * c.mscnt) (elapsed cur k.prev_periodic) in
    let timerlist = leb (c.resolution * c.mscnt) (elapsed cur k.prev_timerlist) in
    let ms = ltb c.mscnt (elapsed cur k.prev_ms) in
    let count = (k.timer1mscnt + 1) % 2 ^ 64 in
    let next : Clocks = record {
      prev_periodic = if periodic then cur else k.prev_periodic;
      prev_timerlist = if timerlist then cur else k.prev_timerlist;
      prev_ms = if ms then cur else k.prev_ms;
      timer1mscnt = if ms then count else k.timer1mscnt;
    } in
    (
      next,
      start_if periodic (print_stats ∷ [])
          ++ (start_if timerlist (run_timerlist ∷ []) ++ start_if ms (ms_tasks c r count)),
    )

-- `t` is among the tasks.
pub Asks : Task → List Task → Type 0
Asks t ts = (before : List Task) × ((after : List Task) × (ts ≡ before ++ t ∷ after))

ms_tasks-Asks :
    (c : Settings) (r : Reachable) (count : ℕ)
    → count % 5000 ≡ 0
    → c.tunnel_enable ≡ true
    → r.wan ≡ 0
    → Asks (arp_request c.wan_if_id c.tunnel_gw) (ms_tasks c r count)
unfolding ms_tasks due start_if requests_5s Asks
ms_tasks-Asks c r count turn on lost =
    let h : (r.wan == 0) ≡ true = rw lost refl in
    let k : (count % 5000 == 0) ≡ true = rw turn refl in
    let first = start_if (r.lan == 0) (arp_request c.lan_if_id c.lan_gw ∷ []) in
    (drain_deathrow ∷ first, (later_tasks c count, simp (h, k, on, append_assoc)))

-- While the tunnel is on and its gateway does not answer, an ARP request for the gateway is due at one of
-- any 5000 counts of a millisecond that follow each other.
pub ms_tasks-Asks_within :
    (c : Settings) (r : ℕ → Reachable) (t : ℕ)
    → c.tunnel_enable ≡ true
    → ((i : ℕ) → (r i).wan ≡ 0)
    → (count : ℕ) × (t < count)
      × (count ≤ t + 5000)
      × Asks (arp_request c.wan_if_id c.tunnel_gw) (ms_tasks c (r count) count)
ms_tasks-Asks_within c r t on lost =
    let count = t + (5000 - t % 5000) in
    let turn : count % 5000 ≡ 0 = omega arith in
    (count, omega arith, omega arith, ms_tasks-Asks c (r count) count turn on (lost count))
