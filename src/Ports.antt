-- ===== src/Ports.antt =====
-- Which port is forwarded to which, in `main (1).c`: `initialize_ports`. Whether the calls of DPDK that
-- set a port up succeed is an argument, as is the list of the ports there are.
pub mod Pairs
mod Tests
use xyz.Prelude.{
  ℕ, ◌+◌, ◌/◌, ◌%◌, ◌^◌, ◌≡◌, Bool, true, false, ◌==◌, if◌then◌else◌, Option, none, some, List, [],
  ◌∷◌,
}

-- `l2fwd_dst_ports`, `last_portid`, `enabled_portcount`, `l2fwd_enabled_port_mask`.
pub record Ports : Type 0 where
  pub dst : ℕ → ℕ
  pub last : ℕ
  pub count : ℕ
  pub enabled_mask : ℕ

pub set_dst : (ℕ → ℕ) → ℕ → ℕ → ℕ → ℕ
set_dst dst p v q = if q == p then v else dst q

-- mask & (1 << portid)
unfoldable pub in_mask : ℕ → ℕ → Bool
in_mask portmask p = portmask / 2 ^ p % 2 == 1

-- mask | (1ULL << portid)
add_to_mask : ℕ → ℕ → ℕ
add_to_mask portmask p = if in_mask portmask p then portmask else portmask + 2 ^ p

-- A port that is set up.
pub add_port : Ports → ℕ → Ports
unfolding set_dst add_to_mask
add_port s p =
    let odd = s.count % 2 == 1 in
    record {
      dst = if odd then set_dst (set_dst s.dst p s.last) s.last p else s.dst;
      last = if odd then s.last else p;
      count = s.count + 1;
      enabled_mask = add_to_mask s.enabled_mask p;
    }

pub port_loop : (portmask : ℕ) → (set_up : ℕ → Bool) → List ℕ → Ports → Option Ports
unfolding add_port in_mask
port_loop portmask set_up [] s = some s
port_loop portmask set_up (p ∷ ps) s =
    let skipped = port_loop portmask set_up ps s in
    let added = port_loop portmask set_up ps (add_port s p) in
    if in_mask portmask p then (if set_up p then added else none) else skipped

-- Behind the loop: one port is its own destination, and another odd number is an error.
pub finish : Ports → Option Ports
unfolding set_dst
finish s =
    if s.count == 1
    then some (record s { dst = set_dst s.dst s.last s.last })
    else if s.count % 2 == 1
    then none
    else some s

finish_loop : Option Ports → Option Ports
unfolding finish
finish_loop none = none
finish_loop (some s) = finish s

no_ports : Ports
no_ports = record { dst = λ p. 0; last = 0; count = 0; enabled_mask = 0 }

is_none : List ℕ → Bool
is_none [] = true
is_none (p ∷ ps) = false

pub initialize_ports : (portmask : ℕ) → (set_up : ℕ → Bool) → List ℕ → Option Ports
unfolding port_loop finish_loop no_ports is_none
initialize_ports portmask set_up ports =
    if is_none ports then none else finish_loop (port_loop portmask set_up ports no_ports)
