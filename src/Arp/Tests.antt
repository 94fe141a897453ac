-- ===== src/Arp/Tests.antt =====
-- Two nodes on one wire.
use xyz.Prelude.{ℕ, ◌+◌}
use xyz.Memory.{Memory}
use xyz.Arp.{Config, Reachable}

abbrev zeros : Memory
zeros i = 0

-- Interface 0 is the LAN; ports are crossed.
abbrev node : ℕ → Config
node n = record {
  lan_if_id = 0;
  lan_ip = 0x0a000000 + n;
  lan_mac = λ i. i + n;
  tunnel_ip = 0xc0a80000 + n;
  tunnel_mac = λ i. 10 + n;
  dst_port = λ p. 1 + p;
}

abbrev unreached : Reachable
unreached = record { lan = 0; wan = 0 }
