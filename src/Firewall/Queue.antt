-- ===== src/Firewall/Queue.antt =====
-- The queue of a frame and of a connection, and the list of TCP queues: `get_pkt_sched`,
-- `tcp_qos_queue` and `tcp_tc_init` of `app_thread (1).c`.
pub mod Agree
pub mod Listed
use xyz.Prelude.{
  ℕ, ◌+◌, ◌*◌, ◌/◌, ◌%◌, ◌^◌, bit_and, Bool, ◌==◌, ◌||◌, if◌then◌else◌, Option, none, some, List,
  [], ◌∷◌, get_or,
}
use xyz.Memory.{Memory}
use xyz.Firewall.{Rule, Key, qos_loop, in_fwlookup_search}

pub record Sched : Type 0 where
  pub subport : ℕ
  pub pipe : ℕ
  pub traffic_class : ℕ
  pub queue : ℕ
  pub color : ℕ

blank : Rule
blank = record {
  enbl = 0;
  vlan = 0;
  proto = 0;
  src_ip = 0;
  src_mask = 0;
  dst_ip = 0;
  dst_mask = 0;
  src_port = 0;
  dst_port = 0;
  dscp_in = 0;
  site_num = 0;
  tc_num = 0;
  rate_configured = 0;
}

-- firewall_lut[i]; the numbers that the loops return are below the length.
pub rule_at : List Rule → ℕ → Rule
unfolding blank
rule_at lut i = get_or lut i blank

site_pipe : List Rule → Option ℕ → ℕ
unfolding rule_at
site_pipe lut none = 0
site_pipe lut (some i) = (rule_at lut i).site_num

sched_at : List Rule → ℕ → Option ℕ → Option ℕ → Sched
unfolding rule_at site_pipe
sched_at lut default_tc none site = record {
  subport = 0;
  pipe = site_pipe lut site;
  traffic_class = default_tc;
  queue = 0;
  color = 0;
}
sched_at lut default_tc (some i) site = record {
  subport = 0;
  pipe = (rule_at lut i).site_num;
  traffic_class = (rule_at lut i).tc_num;
  queue = 0;
  color = 0;
}

unfoldable pub get_pkt_sched : Memory → ℕ → ℕ → List Rule → ℕ → ℕ → Sched × Option ℕ
unfolding in_fwlookup_search sched_at
get_pkt_sched m mode unset lut cnt default_tc =
    let found = in_fwlookup_search m mode unset lut cnt in
    (sched_at lut default_tc found.index found.site_index, found.index)

pub swap_16 : ℕ → ℕ
swap_16 x = x % 256 * 256 + x / 256 % 256

-- ntohl
pub swap_32 : ℕ → ℕ
unfolding swap_16
swap_32 x = swap_16 x * 2 ^ 16 + swap_16 (x / 2 ^ 16)

pub qos_key : (dscp sip dip sport dport next_proto : ℕ) → Key
unfolding swap_16 swap_32
qos_key dscp sip dip sport dport next_proto = record {
  vlan_id = 1;
  proto_id = next_proto;
  src = swap_32 sip;
  dst = swap_32 dip;
  sport = swap_16 sport;
  dport = swap_16 dport;
  dscp = bit_and dscp 0xfc;
}

rate_rule : Option ℕ → ℕ
rate_rule none = 0
rate_rule (some i) = i

-- The queue's number, and the rule whose configured rate is reported.
pub tcp_qos_queue :
    (dscp sip dip sport dport next_proto : ℕ)
    → List Rule
    → (cnt default_tc queues_per_pipe : ℕ) → ℕ × ℕ
unfolding qos_key qos_loop sched_at rate_rule
tcp_qos_queue dscp sip dip sport dport next_proto lut cnt default_tc queues_per_pipe =
    let found = qos_loop cnt (qos_key dscp sip dip sport dport next_proto) lut 0 0 none in
    let s = sched_at lut default_tc found.index found.site_index in
    ((s.pipe * queues_per_pipe + s.traffic_class) % 2 ^ 32, rate_rule found.index)

pub is_tcp_rule : ℕ → Rule → Bool
is_tcp_rule default_tc r = (r.proto == 0x06) || (r.proto == 0x00) || (r.tc_num == default_tc)

-- The first Num_tcp_tc entries of TCP_TC, an array of a header that is not in the repository.
unfoldable pub tcp_tc_init : ℕ → List Rule → List ℕ
unfolding is_tcp_rule
tcp_tc_init default_tc [] = []
tcp_tc_init default_tc (r ∷ rs) =
    let rest = tcp_tc_init default_tc rs in
    if r.enbl == 0
    then rest
    else if is_tcp_rule default_tc r
    then (r.site_num * 16 + r.tc_num) ∷ rest
    else rest
