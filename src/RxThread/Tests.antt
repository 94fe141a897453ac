-- ===== src/RxThread/Tests.antt =====
-- A thread whose fragment table gives back what is a whole datagram, and frames for it.
use xyz.Prelude.{
  ℕ, ◌+◌, ◌-◌, ◌/◌, ◌%◌, ◌≡◌, refl, sym, ap, true, Option, some, none, [], ◌∷◌, ◌++◌, ◌==◌, ltb,
  leb, subst, Bool-cases, inl, inr, if◌then◌else◌, arith,
}
use mathlib.Core.Option.{some-injective, none-ne-some}
use xyz.Memory.{Memory, word, write_word}
use xyz.Arp
use xyz.Sites.{inner_ip_is_fragment}
use xyz.Arp.{Reachable}
use xyz.RxThread.{Packet, FragApi, Env, RxState, PortStats}
use xyz.RxThread.Frag.{gather}
use xyz.RxThread.Dispatch.{process_packet}
use xyz.RxThread.Dispatch.Leads.{SameBuffer}
use xyz.RxThread.Dispatch.Owner.{LetsGo, process_packet-LetsGo}
use xyz.RxThread.Dispatch.Verified.{AllChecked, process_packet-AllChecked}
use xyz.RxThread.Dispatch.Reassembled.{Documented, Rebuilt, Leaves, gather-Rebuilt}
use xyz.RxThread.Loop.{process_burst, retrieve_loop, IsTurn, retrieve_loop-process_burst}
use xyz.RxThread.Timer.{Settings}

abbrev zeros : Memory
zeros i = 0

abbrev grow : Packet → ℕ → Packet
grow m n = record { mbuf = m.mbuf; bytes = λ i. m.bytes (i - n); pkt_len = m.pkt_len + n }

abbrev cut : Packet → ℕ → Option Packet
cut m n =
    if leb n m.pkt_len
    then some (record { mbuf = m.mbuf; bytes = λ i. m.bytes (n + i); pkt_len = m.pkt_len - n })
    else none

abbrev whole : Packet → Option Packet
whole m = if word m.bytes 2 == m.pkt_len then some m else none

abbrev api : FragApi
api = record {
  Table = ℕ;
  adj = cut;
  prepend = λ m n. some (grow m n);
  is_chained = λ m. true;
  linearize = some;
  reassemble = λ t m l tsc. (t + 1, whole m);
  outer_ip_is_fragment = λ b. inner_ip_is_fragment b 14;
  ipv4_cksum = λ b. 0x1234;
}

grow_kept : (m : Packet) (n i : ℕ) → (grow m n).bytes (n + i) ≡ m.bytes i
grow_kept m n i = let e : n + i - n ≡ i = omega arith in rw e refl

whole_len : (m w : Packet) → whole m ≡ some w → word w.bytes 2 ≡ w.pkt_len
whole_len m w e = elim (Bool-cases (word m.bytes 2 == m.pkt_len)) [
  | inl same ↦
      let f : some m ≡ some w = simp same at e in
      let g : word m.bytes 2 ≡ m.pkt_len = ground (arith, same) in
      subst (λ q. word q.bytes 2 ≡ q.pkt_len) (some-injective m w f) g
  | inr other ↦ let f : none ≡ some w = simp other at e in absurd (none-ne-some w f)
]

documented : Documented api
documented = record {
  prepended = λ m p n e.
      subst (λ q. (q.pkt_len ≡ m.pkt_len + n) × ((i : ℕ) → q.bytes (n + i) ≡ m.bytes i))
        (some-injective (grow m n) p e) (refl, grow_kept m n);
  linearized_same = λ w l e.
      subst (λ q. (q.pkt_len ≡ w.pkt_len) × ((i : ℕ) → q.bytes i ≡ w.bytes i))
        (some-injective w l e) (refl, λ i. refl);
  reassembled_len = λ t m w l tsc e. whole_len m w e;
}

abbrev node : Arp.Config
node = record {
  lan_if_id = 0;
  lan_ip = 0x0a000001;
  lan_mac = zeros;
  tunnel_ip = 0xc0a80001;
  tunnel_mac = zeros;
  dst_port = λ p. 1 - p;
}

abbrev env : Env
env = record {
  portid = 1;
  wan_if_id = 1;
  header_comp = true;
  tunnel_enable = true;
  arp_config = node;
  dst_port = λ p. 1 - p;
  rtp_size = 12;
  rtp_at = λ b i. record { version = b i / 64; pt = b (i + 1) % 128; cc = b i % 16 };
  mincl_size = 1024;
  devget = λ n. ltb n 512;
  tsc = 7;
}

abbrev no_stats : PortStats
no_stats = record {
  total_pkts = 0;
  total_bytes = 0;
  good_pkts = 0;
  good_bytes = 0;
  bcast_pkts = 0;
  mcast_pkts = 0;
  undersize_err = 0;
  oversize_err = 0;
  jabber_err = 0;
  len_err = 0;
  fragment_err = 0;
}

abbrev fresh : RxState ℕ
fresh = record { stats = no_stats; reach = record { lan = 0; wan = 0 }; outer = 0; inner = 0 }

-- A fragment (more are to come) of a TCP segment.
abbrev part : Packet
part = record {
  mbuf = 41;
  bytes =
      write_word (write_word (write_word (write_word zeros 12 0x0800) 16 46) 20 0x2000) 22 0x4006;
  pkt_len = 60;
}

cut_same : (m a : Packet) (n : ℕ) → cut m n ≡ some a → a.mbuf ≡ m.mbuf
cut_same m a n h = elim (Bool-cases (leb n m.pkt_len)) [
  | inl fits ↦
      let e : some (record { mbuf = m.mbuf; bytes = λ i. m.bytes (n + i); pkt_len = m.pkt_len - n })
          ≡ some a =
        simp fits at h in
      ap (λ p. p.mbuf) (sym (some-injective _ a e))
  | inr short ↦ let e : none ≡ some a = simp short at h in absurd (none-ne-some a e)
]

same_buffer : SameBuffer api
same_buffer = record {
  adj_same = cut_same;
  prepend_same = λ m p n e. ap (λ q. q.mbuf) (sym (some-injective (grow m n) p e));
  linearize_same = λ w l e. ap (λ q. q.mbuf) (sym (some-injective w l e));
}

process_packet-LetsGo_example : LetsGo part (process_packet api env fresh part).1
process_packet-LetsGo_example = process_packet-LetsGo api same_buffer env fresh part

process_packet-AllChecked_example : AllChecked (process_packet api env fresh part).1
process_packet-AllChecked_example = process_packet-AllChecked api env fresh part

gather-Rebuilt_example : Leaves (Rebuilt part 14) (gather api 0 part 14 7).1.0
gather-Rebuilt_example = gather-Rebuilt api documented 0 part 14 7

-- In a tunnel: the datagram inside stands at byte 38.
abbrev tunnelled : Packet
tunnelled = record {
  mbuf = 42;
  bytes = write_word (write_word zeros 12 0x0800) 40 62;
  pkt_len = 100;
}

tunnelled-Rebuilt : Rebuilt tunnelled 38 tunnelled
unfolding word write_word
tunnelled-Rebuilt = record { prefix_kept = λ i h. refl; consistent = refl }

retrieve_loop-process_burst_example :
    retrieve_loop api env 2 fresh ((part ∷ (part ∷ [])) ∷ ((tunnelled ∷ []) ∷ []))
    ≡ some (process_burst api env fresh ((part ∷ (part ∷ [])) ++ (tunnelled ∷ [])))
retrieve_loop-process_burst_example =
    retrieve_loop-process_burst api env 2 fresh ((part ∷ (part ∷ [])) ∷ ((tunnelled ∷ []) ∷ []))
      ((part ∷ (part ∷ [])) ++ (tunnelled ∷ [])) (IsTurn.full _ _ _ refl (IsTurn.last _ _ refl))

abbrev settings : Settings
settings = record {
  tunnel_enable = true;
  lan_if_id = 0;
  wan_if_id = 1;
  lan_gw = 0x0a0000fe;
  tunnel_gw = 0xc0a800fe;
  resolution = 10;
  resolution_rohc = 20;
  mscnt = 1000000;
}
