-- ===== src/Firewall.antt =====
-- The rule table of `app_thread (1).c`: `in_fwlookup_search`, and the scan of `tcp_qos_queue`.
-- `Firewalltable` is declared in a header that is not in the repository: the fields are those that
-- these functions read, as numbers. The table's length is MAX_FIREWALL_RULES. Other macros and
-- global variables (DEFAULT_TC_PER_SITE, RTE_SCHED_QUEUES_PER_PIPE, firewall_entries_cnt,
-- Use_gre_hdr_for_qos) are arguments. The host is little-endian.
pub mod Queue
pub mod Search
mod Tests
use xyz.Prelude.{
  ℕ, zero, suc, ◌+◌, ◌*◌, ◌/◌, ◌%◌, ◌^◌, Bool, true, false, ◌==◌, ◌&&◌, ◌||◌, leb, if◌then◌else◌,
  bit_and, Option, none, some, List, [], ◌∷◌, get_or,
}
use xyz.Memory.{Memory, word}

pub record Rule : Type 0 where
  enbl : ℕ
  vlan : ℕ
  proto : ℕ
  src_ip : ℕ
  src_mask : ℕ
  dst_ip : ℕ
  dst_mask : ℕ
  src_port : ℕ
  dst_port : ℕ
  dscp_in : ℕ
  site_num : ℕ
  tc_num : ℕ
  rate_configured : ℕ

-- What a packet is compared by; addresses and ports in the byte order of the table.
pub record Key : Type 0 where
  vlan_id : ℕ
  proto_id : ℕ
  src : ℕ
  dst : ℕ
  sport : ℕ
  dport : ℕ
  dscp : ℕ

-- `index` and `site_index`, with none for -1.
pub record Found : Type 0 where
  index : Option ℕ
  site_index : Option ℕ

pub address_match : Rule → Key → Bool
address_match r k =
    ((bit_and r.src_ip r.src_mask == bit_and k.src r.src_mask) || (r.src_ip == 0))
    && ((bit_and r.dst_ip r.dst_mask == bit_and k.dst r.dst_mask) || (r.dst_ip == 0))

pub l4_match : Rule → Key → Bool
l4_match r k =
    ((r.src_port == k.sport) || (r.src_port == 0)) && ((r.dst_port == k.dport) || (r.dst_port == 0))

pub dscp_match : Rule → Key → Bool
dscp_match r k = (r.dscp_in == k.dscp) || (r.dscp_in == 0)

pub proto_match : Rule → Key → Bool
proto_match r k = (r.proto == k.proto_id) || (r.proto == 0)

pub site_after : Rule → Key → ℕ → Option ℕ → Option ℕ
unfolding address_match
site_after r k i site = if address_match r k then some i else site

-- The test in `in_fwlookup_search`.
pub search_match : Rule → Key → Bool
unfolding address_match l4_match dscp_match proto_match
search_match r k =
    (r.vlan == k.vlan_id) && proto_match r k && address_match r k && l4_match r k && dscp_match r k

-- The test in `tcp_qos_queue`.
pub qos_match : Rule → Key → Bool
unfolding address_match l4_match dscp_match proto_match
qos_match r k =
    ((r.vlan == 0) || (r.vlan == k.vlan_id))
    && proto_match r k
    && address_match r k
    && l4_match r k
    && dscp_match r k

-- The rules from number i on; `total` is `total_num`, a `uint16_t`.
pub search_loop : ℕ → Key → List Rule → ℕ → ℕ → Option ℕ → Found
unfolding search_match site_after
search_loop cnt k [] i total site = record { index = none; site_index = site }
search_loop cnt k (r ∷ rs) i total site =
    let total' = (total + 1) % 2 ^ 16 in
    let site' = site_after r k i site in
    let skipped = search_loop cnt k rs (i + 1) total site in
    let next = search_loop cnt k rs (i + 1) total' site' in
    if r.enbl == 0
    then skipped
    else if search_match r k
    then record { index = some i; site_index = site' }
    else if leb cnt total'
    then record { index = none; site_index = site' }
    else next

pub qos_loop : ℕ → Key → List Rule → ℕ → ℕ → Option ℕ → Found
unfolding qos_match site_after
qos_loop cnt k [] i total site = record { index = none; site_index = site }
qos_loop cnt k (r ∷ rs) i total site =
    let total' = (total + 1) % 2 ^ 16 in
    let site' = site_after r k i site in
    let skipped = qos_loop cnt k rs (i + 1) total site in
    let next = qos_loop cnt k rs (i + 1) total' site' in
    if r.enbl == 0
    then skipped
    else if qos_match r k
    then record { index = some i; site_index = site' }
    else if leb cnt total'
    then record { index = none; site_index = site' }
    else next

-- Fields as a little-endian host loads them.
pub load_16 : Memory → ℕ → ℕ
load_16 m i = m i + 256 * m (i + 1)

pub load_32 : Memory → ℕ → ℕ
unfolding load_16
load_32 m i = load_16 m i + 2 ^ 16 * load_16 m (i + 2)

-- 4 bytes, and 4 for each of the bits c, k and s of the GRE header at `l4`.
pub gre_len : Memory → ℕ → ℕ
gre_len m l4 =
    4
    + (if m l4 / 128 % 2 == 1 then 4 else 0)
    + (if m l4 / 32 % 2 == 1 then 4 else 0)
    + (if m l4 / 16 % 2 == 1 then 4 else 0)

-- `unset` is what `dscp` holds before it is assigned: the branch of VLAN frames leaves it.
pub vlan_key : Memory → ℕ → Key
unfolding load_16 load_32
vlan_key m unset = record {
  vlan_id = word m 14 % 4096;
  proto_id = m 27;
  src = load_32 m 30;
  dst = load_32 m 34;
  sport = load_16 m 38;
  dport = load_16 m 40;
  dscp = unset;
}

-- The protocol is read at `proto_ip`, addresses and DSCP at `ip`, the ports at `udp`.
pub header_key : Memory → ℕ → ℕ → ℕ → Key
unfolding load_16 load_32
header_key m proto_ip ip udp = record {
  vlan_id = 1;
  proto_id = m (proto_ip + 9);
  src = load_32 m (ip + 12);
  dst = load_32 m (ip + 16);
  sport = load_16 m udp;
  dport = load_16 m (udp + 2);
  dscp = bit_and (m (ip + 1)) 0xfc;
}

pub ipv4_key : Memory → ℕ → Key
unfolding header_key gre_len
ipv4_key m mode =
    let inner = if m 23 == 0x2f then 34 + gre_len m 34 else 14 in
    let udp = if m 23 == 0x2f then 34 + gre_len m 34 + 20 else 34 in
    if mode == 0
    then header_key m inner inner udp
    else if mode == 1
    then header_key m inner 14 udp
    else header_key m 14 14 udp

-- `mode` is Use_gre_hdr_for_qos. No key: the default queue.
pub key_of : Memory → ℕ → ℕ → Option Key
unfolding vlan_key ipv4_key
key_of m mode unset =
    if word m 12 == 0x0806
    then none
    else if word m 12 == 0x8100
    then some (vlan_key m unset)
    else if word m 12 == 0x0800
    then some (ipv4_key m mode)
    else none

search_key : Option Key → List Rule → ℕ → Found
unfolding search_loop
search_key none lut cnt = record { index = none; site_index = none }
search_key (some k) lut cnt = search_loop cnt k lut 0 0 none

-- `site_index` is -1 before the call.
pub in_fwlookup_search : Memory → ℕ → ℕ → List Rule → ℕ → Found
unfolding key_of search_key
in_fwlookup_search m mode unset lut cnt = search_key (key_of m mode unset) lut cnt
