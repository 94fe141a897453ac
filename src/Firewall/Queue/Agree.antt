-- ===== src/Firewall/Queue/Agree.antt =====
-- The two searches of the rule table side by side: frames and connections get the same queue.
use xyz.Prelude.{
  ℕ, ◌+◌, ◌*◌, ◌%◌, ◌^◌, ◌≡◌, ◌≢◌, ◌∙◌, refl, sym, inl, inr, false, ◌==◌, Option, none, some, List,
  [], ◌∷◌, All, Bool-cases, arith,
}
use xyz.Memory.{Memory, IsBytes, word}
use xyz.Firewall.{
  Rule, Key, search_match, qos_match, search_loop, qos_loop, load_16, load_32, header_key, ipv4_key,
  key_of, in_fwlookup_search, search_key,
}
use xyz.Firewall.Queue.{swap_16, swap_32, qos_key, sched_at, get_pkt_sched, tcp_qos_queue}
use xyz.Firewall.Search.{scan-agree, search_loop-scan, qos_loop-scan}

-- No enabled rule leaves the VLAN open.
abbrev pub HasVlan : Rule → Type 0
HasVlan r = r.vlan ≢ 0

qos_match-search_match : (r : Rule) (k : Key) → HasVlan r → qos_match r k ≡ search_match r k
unfolding qos_match search_match
qos_match-search_match r k h = let off : (r.vlan == 0) ≡ false = ground arith in simp off

qos_match-search_match-All :
    (k : Key) (rs : List Rule) → All HasVlan rs → All (λ r. qos_match r k ≡ search_match r k) rs
qos_match-search_match-All k [] all = all
qos_match-search_match-All k (r ∷ rs) all =
    (qos_match-search_match r k all.0, qos_match-search_match-All k rs all.1)

qos_loop-search_loop :
    (cnt : ℕ) (k : Key) (rs : List Rule)
    → All HasVlan rs
    → qos_loop cnt k rs 0 0 none ≡ search_loop cnt k rs 0 0 none
qos_loop-search_loop cnt k rs all =
    qos_loop-scan cnt k rs 0 0 none
    ∙ scan-agree (λ r. qos_match r k) (λ r. search_match r k) cnt k rs 0 0 none
        (qos_match-search_match-All k rs all)
    ∙ sym (search_loop-scan cnt k rs 0 0 none)

swap_16-word : (m : Memory) (i : ℕ) → IsBytes m → swap_16 (word m i) ≡ load_16 m i
unfolding swap_16 word load_16
swap_16-word m i bytes = omega (arith, bytes i, bytes (i + 1))

-- An address as the host holds it after ntohl.
abbrev pub host_32 : Memory → ℕ → ℕ
host_32 m i = word m i * 2 ^ 16 + word m (i + 2)

swap_32-host : (m : Memory) (i : ℕ) → IsBytes m → swap_32 (host_32 m i) ≡ load_32 m i
unfolding swap_32 swap_16 word load_32 load_16
swap_32-host m i bytes = omega (arith, bytes i, bytes (i + 1), bytes (i + 2), bytes (i + 2 + 1))

ipv4_key-header_key :
    (m : Memory) (mode : ℕ) → m 23 ≢ 0x2f → ipv4_key m mode ≡ header_key m 14 14 34
unfolding ipv4_key
ipv4_key-header_key m mode plain =
    let off : (m 23 == 0x2f) ≡ false = ground arith in
    elim (Bool-cases (mode == 0)) [
      | inl a ↦ simp (off, a)
      | inr a ↦ elim (Bool-cases (mode == 1)) [
        | inl b ↦ simp (off, a, b)
        | inr b ↦ simp (off, a, b)
      ]
    ]

connection_key : Memory → Key
connection_key m = qos_key (m 15) (host_32 m 26) (host_32 m 30) (word m 34) (word m 36) (m 23)

-- The key of an IPv4 frame without a tunnel is that of its connection.
connection_key-key_of :
    (m : Memory) (mode unset : ℕ)
    → IsBytes m
    → word m 12 ≡ 0x0800
    → m 23 ≢ 0x2f
    → key_of m mode unset ≡ some (connection_key m)
unfolding key_of qos_key header_key connection_key
connection_key-key_of m mode unset bytes ipv4 plain =
    let a : connection_key m ≡ header_key m 14 14 34 = simp (
      swap_32-host m 26 bytes,
      swap_32-host m 30 bytes,
      swap_16-word m 34 bytes,
      swap_16-word m 36 bytes,
    ) in
    simp (ipv4, ipv4_key-header_key m mode plain, a)

-- For an IPv4 frame that is no GRE tunnel, and a table whose rules all name a VLAN, `tcp_qos_queue`
-- of the connection's addresses, ports, protocol and DSCP gives the queue of the pipe and the traffic
-- class that `get_pkt_sched` gives the frame, whatever header it is told to use.
pub tcp_qos_queue-get_pkt_sched :
    (m : Memory) (mode unset : ℕ) (lut : List Rule) (cnt default_tc queues_per_pipe : ℕ)
    → IsBytes m
    → word m 12 ≡ 0x0800
    → m 23 ≢ 0x2f
    → All HasVlan lut
    → (tcp_qos_queue
        (m 15)
        (host_32 m 26)
        (host_32 m 30)
        (word m 34)
        (word m 36)
        (m 23)
        lut
        cnt
        default_tc
        queues_per_pipe).0
      ≡ (let s = (get_pkt_sched m mode unset lut cnt default_tc).0 in
          (s.pipe * queues_per_pipe + s.traffic_class) % 2 ^ 32)
unfolding tcp_qos_queue get_pkt_sched in_fwlookup_search search_key connection_key
tcp_qos_queue-get_pkt_sched m mode unset lut cnt default_tc queues_per_pipe bytes ipv4 plain all =
    simp (
      connection_key-key_of m mode unset bytes ipv4 plain,
      qos_loop-search_loop cnt (connection_key m) lut all,
    )

sched_at_zeros :
    (lut : List Rule) (default_tc : ℕ) (index site : Option ℕ)
    → (let s = sched_at lut default_tc index site in
        record {
          subport = 0;
          pipe = s.pipe;
          traffic_class = s.traffic_class;
          queue = 0;
          color = 0;
        })
      ≡ sched_at lut default_tc index site
unfolding sched_at
sched_at_zeros lut default_tc none site = refl
sched_at_zeros lut default_tc (some i) site = refl

-- A frame's place in the scheduler differs in pipe and traffic class only.
pub get_pkt_sched_zeros :
    (m : Memory) (mode unset : ℕ) (lut : List Rule) (cnt default_tc : ℕ)
    → (let s = (get_pkt_sched m mode unset lut cnt default_tc).0 in
        record {
          subport = 0;
          pipe = s.pipe;
          traffic_class = s.traffic_class;
          queue = 0;
          color = 0;
        })
      ≡ (get_pkt_sched m mode unset lut cnt default_tc).0
unfolding get_pkt_sched
get_pkt_sched_zeros m mode unset lut cnt default_tc =
    let found = in_fwlookup_search m mode unset lut cnt in
    sched_at_zeros lut default_tc found.index found.site_index
