-- ===== src/Firewall/Tests.antt =====
-- A table of three rules, and an IPv4 frame.
use xyz.Prelude.{
  ℕ, ◌+◌, ◌*◌, ◌%◌, ◌^◌, ◌≡◌, ◌≢◌, refl, max, take, none, some, List, [], ◌∷◌, All, arith,
}
use xyz.Memory.{Memory, IsBytes, word, write_word, write_word-IsBytes}
use xyz.Firewall.{Rule, Key, search_loop, qos_loop, search_match, qos_match}
use xyz.Firewall.Queue.{tcp_qos_queue, get_pkt_sched, tcp_tc_init}
use mathlib.Core.List.{Memᴰ}
use xyz.Firewall.Queue.Listed.{DefaultRule, tcp_qos_queue-listed}
use xyz.Firewall.Search.{enabled, result, search_loop-result, qos_loop-result}
use xyz.Firewall.Queue.Agree.{host_32, HasVlan, tcp_qos_queue-get_pkt_sched}

abbrev rule : ℕ → ℕ → ℕ → Rule
rule enbl proto site = record {
  enbl = enbl;
  vlan = 1;
  proto = proto;
  src_ip = 0;
  src_mask = 0;
  dst_ip = 0;
  dst_mask = 0;
  src_port = 0;
  dst_port = 0;
  dscp_in = 0;
  site_num = site;
  tc_num = 5;
  rate_configured = 1000;
}

abbrev table : List Rule
table = rule 0 6 7 ∷ (rule 1 17 8 ∷ (rule 1 6 9 ∷ []))

abbrev tcp_key : Key
tcp_key = record { vlan_id = 1; proto_id = 6; src = 1; dst = 2; sport = 3; dport = 4; dscp = 0 }

finds_third : (search_loop 2 tcp_key table 0 0 none).index ≡ some 2
unfolding search_loop
finds_third = refl

search_loop-result_example :
    search_loop 2 tcp_key table 0 0 none
    ≡ result (λ r. search_match r tcp_key) tcp_key (take (max 1 2) (enabled table 0)) none
search_loop-result_example = search_loop-result 2 tcp_key table (omega arith)

qos_loop-result_example :
    qos_loop 2 tcp_key table 0 0 none
    ≡ result (λ r. qos_match r tcp_key) tcp_key (take (max 1 2) (enabled table 0)) none
qos_loop-result_example = qos_loop-result 2 tcp_key table (omega arith)

abbrev zeros : Memory
zeros i = 0

abbrev frame : Memory
frame = write_word (write_word zeros 12 0x0800) 22 0x4006

frame-IsBytes : IsBytes frame
frame-IsBytes =
    write_word-IsBytes (write_word zeros 12 0x0800) 22 0x4006
      (write_word-IsBytes zeros 12 0x0800 (λ i. omega arith))

frame_type : word frame 12 ≡ 0x0800
unfolding word write_word
frame_type = refl

frame_plain : frame 23 ≢ 0x2f
unfolding write_word
frame_plain = omega arith

table_vlans : All HasVlan table
table_vlans = (omega arith, (omega arith, (omega arith, record {})))

tcp_qos_queue-get_pkt_sched_example :
    (tcp_qos_queue
      (frame 15)
      (host_32 frame 26)
      (host_32 frame 30)
      (word frame 34)
      (word frame 36)
      (frame 23)
      table
      2
      12
      16).0
    ≡ (let s = (get_pkt_sched frame 0 77 table 2 12).0 in (s.pipe * 16 + s.traffic_class) % 2 ^ 32)
tcp_qos_queue-get_pkt_sched_example =
    tcp_qos_queue-get_pkt_sched frame 0 77 table 2 12 16 frame-IsBytes frame_type frame_plain
      table_vlans

-- Rules of the default traffic class 5 for the sites 0 and 9, and a disabled rule of site 9.
abbrev defaults : List Rule
defaults = rule 1 17 0 ∷ (rule 1 6 9 ∷ (rule 0 6 9 ∷ []))

default_of_0 : DefaultRule 5 defaults 0
default_of_0 = (rule 1 17 0, Memᴰ.head refl, refl, refl, refl)

default_of_9 : DefaultRule 5 defaults 9
default_of_9 = (rule 1 6 9, Memᴰ.tail (Memᴰ.head refl), refl, refl, refl)

All-default : All (λ r. DefaultRule 5 defaults r.site_num) defaults
All-default = (default_of_0, (default_of_9, (default_of_9, record {})))

lists_two : tcp_tc_init 5 defaults ≡ 5 ∷ (149 ∷ [])
unfolding tcp_tc_init
lists_two = refl

tcp_qos_queue-listed_example :
    (q : ℕ) × Memᴰ q (tcp_tc_init 5 defaults)
    × ((tcp_qos_queue 0 1 2 3 4 0x06 defaults 3 5 16).0 ≡ q % 2 ^ 32)
tcp_qos_queue-listed_example = tcp_qos_queue-listed 0 1 2 3 4 defaults 3 5 default_of_0 All-default
