-- ===== src/Arp.antt =====
-- ARP in `app_thread (1).c`: `selipmac`, `SendArpRequestPkt`, `SendArpReplyPkt`, `arptipmatch`,
-- `ProcessArpPkt` and `arptimercheck`. The tables of addresses (`checkandfillmacmem`), the queue of
-- the scheduler (`send_schedule_pkt`) and the clock are not in the repository: a call is an event, in
-- the order of the code. An address of the configuration is a number in host order.
pub mod Exchange
mod Tests
use xyz.Prelude.{
  ℕ, ◌+◌, ◌*◌, ◌/◌, ◌%◌, ◌^◌, ◌≡◌, refl, Bool, true, false, not, ◌==◌, ltb, if◌then◌else◌, Option,
  none, some, List, [], ◌∷◌, ◌++◌, Bool-cases, arith, inl, inr,
}
use xyz.Memory.{Memory, word, write, write_word, copy}

-- The addresses of the two interfaces, LAN_IF_ID, and `l2fwd_dst_ports`.
pub record Config : Type 0 where
  pub lan_if_id : ℕ
  pub lan_ip : ℕ
  pub lan_mac : Memory
  pub tunnel_ip : ℕ
  pub tunnel_mac : Memory
  pub dst_port : ℕ → ℕ

pub data Event : Type 0 where
  filled : Memory → Event
  sent : ℕ → Memory → Event
  bypassed : ℕ → Memory → ℕ → Event
  freed : Event

-- `Sourceipaddrsel` and `SRC_MACADDR`.
pub selipmac : Config → ℕ → ℕ × Memory
selipmac c lanif =
    if lanif == c.lan_if_id then (c.lan_ip, c.lan_mac) else (c.tunnel_ip, c.tunnel_mac)

-- A number of 32 bits in network order.
pub write_32 : Memory → ℕ → ℕ → Memory
write_32 m a v = write_word (write_word m a (v / 2 ^ 16)) (a + 2) (v % 2 ^ 16)

pub read_32 : Memory → ℕ → ℕ
read_32 m a = word m a * 2 ^ 16 + word m (a + 2)

-- memset
fill : Memory → (a v n : ℕ) → Memory
unfolding copy
fill m a v n = copy m a (λ i. v) 0 n

-- The request in a fresh buffer.
pub request_frame : Config → ℕ → ℕ → Memory → Memory
unfolding selipmac write_32 fill write_word copy write
request_frame c lanif destip m =
    let ip = (selipmac c lanif).0 in
    let mac = (selipmac c lanif).1 in
    let m1 = fill (copy m 6 mac 0 6) 0 0xff 6 in
    let m2 = write_word (write_word (write_word m1 12 0x0806) 14 1) 16 0x0800 in
    let m3 = write_word (write (write m2 18 6) 19 4) 20 1 in
    let m4 = write_32 (copy m3 22 mac 0 6) 28 ip in write_32 (fill m4 32 0 6) 38 destip

-- `fresh` is what the allocation gives.
pub send_arp_request : Config → ℕ → ℕ → Option Memory → List Event
unfolding request_frame
send_arp_request c lanif destip none = []
send_arp_request c lanif destip (some fresh) =
    sent (c.dst_port lanif) (request_frame c lanif destip fresh) ∷ []

-- The reply in the buffer of the request.
pub reply_frame : Config → ℕ → Memory → Memory
unfolding selipmac write_32 copy write_word write
reply_frame c lanif m =
    let ip = (selipmac c lanif).0 in
    let mac = (selipmac c lanif).1 in
    let m1 = write_word m 20 2 in
    let m2 = copy m1 0 m1 6 6 in
    let m3 = copy m2 6 mac 0 6 in
    let m4 = copy m3 32 m3 22 6 in
    let m5 = copy m4 38 m4 28 4 in write_32 (copy m5 22 mac 0 6) 28 ip

pub arptipmatch : Config → ℕ → ℕ → Bool
arptipmatch c lanif arp_tip =
    if lanif == c.lan_if_id then arp_tip == c.lan_ip else arp_tip == c.tunnel_ip

-- `hc_lan_reachable` and `hc_wan_reachable`.
pub record Reachable : Type 0 where
  pub lan : ℕ
  pub wan : ℕ

pub mark : Config → ℕ → Reachable → Reachable
mark c portid r =
    if portid == c.lan_if_id
    then record { lan = 1; wan = r.wan }
    else record { lan = r.lan; wan = 1 }

pub bypass : Config → ℕ → Memory → ℕ → List Event
bypass c portid m pkt_len = filled m ∷ (bypassed (c.dst_port portid) m pkt_len ∷ (freed ∷ []))

-- A frame with the searched address.
pub answer : Config → ℕ → Memory → Reachable → Reachable × List Event
unfolding reply_frame mark
answer c portid m r =
    let opcode = word m 20 in
    if opcode == 2
    then (mark c portid r, filled m ∷ (freed ∷ []))
    else if opcode == 1
    then (mark c portid r, filled m ∷ (sent (c.dst_port portid) (reply_frame c portid m) ∷ []))
    else (r, freed ∷ [])

pub process_arp :
    Config
    → (tunnel_enable : Bool) → Memory
    → (portid pkt_len : ℕ) → Reachable
    → Reachable × List Event
unfolding bypass arptipmatch answer read_32
process_arp c tunnel_enable m portid pkt_len r =
    let ours = arptipmatch c portid (read_32 m 38) in
    if not tunnel_enable
    then (r, bypass c portid m pkt_len)
    else if ours
    then answer c portid m r
    else (r, bypass c portid m pkt_len)

-- `diff` is the time since the timer ran out, when it is positive.
pub arptimercheck : Config → (wan_if_id tunnel_gw diff : ℕ) → Option Memory → List Event
unfolding send_arp_request
arptimercheck c wan_if_id tunnel_gw diff fresh =
    if ltb 0 diff then send_arp_request c wan_if_id tunnel_gw fresh else []

-- How often the buffer leaves the function.
pub releases : List Event → ℕ
releases [] = 0
releases (filled m ∷ es) = releases es
releases (sent p m ∷ es) = 1 + releases es
releases (bypassed p m n ∷ es) = releases es
releases (freed ∷ es) = 1 + releases es

releases-answer :
    (c : Config) (portid : ℕ) (m : Memory) (r : Reachable) → releases (answer c portid m r).1 ≡ 1
unfolding answer releases
releases-answer c portid m r = elim (Bool-cases (word m 20 == 2)) [
  | inl reply ↦ rw reply refl
  | inr other ↦ elim (Bool-cases (word m 20 == 1)) [
    | inl request ↦ rw (other, request) refl
    | inr neither ↦ rw (other, neither) refl
  ]
]

-- Whatever the frame says, ProcessArpPkt either frees the buffer or sends it, once.
pub process_arp-releases :
    (c : Config) (tunnel_enable : Bool) (m : Memory) (portid pkt_len : ℕ) (r : Reachable)
    → releases (process_arp c tunnel_enable m portid pkt_len r).1 ≡ 1
unfolding process_arp bypass releases
process_arp-releases c false m portid pkt_len r = refl
process_arp-releases c true m portid pkt_len r =
    elim (Bool-cases (arptipmatch c portid (read_32 m 38))) [
      | inl ours ↦ rw ours (releases-answer c portid m r)
      | inr others ↦ rw others refl
    ]
