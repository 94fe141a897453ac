-- ===== src/RxThread/Dispatch/Verified.antt =====
-- What reaches the TCP stack through `app_rx_thread`.
use xyz.Prelude.{
  ℕ, ◌+◌, ◌*◌, ◌%◌, ◌≡◌, refl, subst, Bool, true, false, Option, some, none, List, [], ◌∷◌, ◌++◌,
  ◌==◌, ◌&&◌, ltb, Bool-cases, inl, inr, arith,
}
use xyz.Memory.{Memory, word}
use xyz.Checksum.{verify_tcp_checksum, gre_length}
use xyz.Sites.{inner_ip_is_fragment}
use xyz.RxThread.{
  Packet, FragApi, RxEvent, freed, forwarded, arp, held, returned, answered, tcp_input, decoalesced,
  compressed, fault, Env, RxState,
}
use xyz.RxThread.Frag.{
  gather, reassembly, rejoined, linear, linearized, restored, refresh_outer, l3_len,
}
use xyz.RxThread.Dispatch.{
  forward, deliver, freed_after, read_packet, on_tcp, is_rtp, on_udp, dispatch, after,
  inner_gathered, on_inner, outer_gathered, on_outer, length_mismatch, on_ipv4, on_arp,
  process_packet,
}

-- A segment given to the stack has a valid checksum, as verify_tcp_checksum sees it: with the TCP header
-- 20 bytes behind `ip`. The other events say nothing.
pub Passed : RxEvent → Type 0
Passed (freed m) = Unit
Passed (forwarded m p) = Unit
Passed (arp m es) = Unit
Passed (held m) = Unit
Passed (returned m) = Unit
Passed (answered m p) = Unit
Passed (tcp_input b ip n header_len) =
    (verify_tcp_checksum b (20 + ip) ip n ≡ true)
    × (n ≡ word b (ip + 2))
    × (header_len ≡ b ip % 16 * 4)
Passed (decoalesced m) = Unit
Passed (compressed m) = Unit
Passed fault = Unit

unfoldable pub AllChecked : List RxEvent → Type 0
unfolding Passed
AllChecked [] = Unit
AllChecked (e ∷ es) = Passed e × AllChecked es

pub AllChecked-++ : (xs ys : List RxEvent) → AllChecked xs → AllChecked ys → AllChecked (xs ++ ys)
unfolding AllChecked
AllChecked-++ [] ys h k = k
AllChecked-++ (e ∷ xs) ys (a, h) k = (a, AllChecked-++ xs ys h k)

read_checked :
    (room grown : Bool) (b : Memory) (ip : ℕ) (m : Packet)
    → verify_tcp_checksum b (20 + ip) ip (word b (ip + 2)) ≡ true
    → AllChecked (
        freed_after
          (read_packet room grown (tcp_input b ip (word b (ip + 2)) (b ip % 16 * 4) ∷ []))
          m)
unfolding AllChecked Passed read_packet freed_after
read_checked true grown b ip m ok = ((ok, refl, refl), (tt, tt))
read_checked false true b ip m ok = (tt, tt)
read_checked false false b ip m ok = (tt, tt)

on_tcp_checked :
    {T : Type 0} (e : Env) (s : RxState T) (m : Packet) (gre_len : ℕ)
    → AllChecked (on_tcp e s m gre_len).1
unfolding AllChecked Passed on_tcp deliver
on_tcp_checked e s m gre_len =
    let ip = 14 + gre_len in
    let n = word m.bytes (ip + 2) in
    let same : 34 + gre_len ≡ 20 + ip = omega arith in
    elim (Bool-cases (verify_tcp_checksum m.bytes (34 + gre_len) ip n)) [
      | inl ok ↦
          let moved = subst (λ x. verify_tcp_checksum m.bytes x ip n ≡ true) same ok in
          rw ok (read_checked _ _ m.bytes ip m moved)
      | inr bad ↦ rw bad (tt, tt)
    ]

on_udp_checked :
    {T : Type 0} (e : Env) (s : RxState T) (m : Packet) (gre_len : ℕ)
    → AllChecked (on_udp e s m gre_len).1
unfolding AllChecked Passed on_udp forward
on_udp_checked e s m gre_len = elim (Bool-cases e.header_comp) [
  | inr off ↦ rw off (tt, tt)
  | inl on ↦ elim (Bool-cases (e.portid == e.wan_if_id)) [
    | inl wan ↦ elim (Bool-cases (word m.bytes (34 + gre_len + 2) == 1194)) [
      | inl tunnel ↦ rw (on, wan, tunnel) (tt, (tt, tt))
      | inr other ↦ rw (on, wan, other) (tt, tt)
    ]
    | inr lan ↦ elim (Bool-cases (ltb m.pkt_len 200 && is_rtp e m.bytes gre_len)) [
      | inl rtp ↦ rw (on, lan, rtp) (tt, (tt, tt))
      | inr other ↦ rw (on, lan, other) (tt, tt)
    ]
  ]
]

dispatch_checked :
    {T : Type 0} (e : Env) (s : RxState T) (m : Packet) (gre_len : ℕ)
    → AllChecked (dispatch e s m gre_len).1
unfolding AllChecked Passed dispatch forward
dispatch_checked e s m gre_len =
    let proto = m.bytes (14 + gre_len + 9) in
    elim (Bool-cases (proto == 1)) [
      | inl a ↦ rw a (tt, (tt, tt))
      | inr a ↦ elim (Bool-cases (proto == 4)) [
        | inl b ↦ rw (a, b) (tt, tt)
        | inr b ↦ elim (Bool-cases (proto == 6)) [
          | inl c ↦ rw (a, b, c) (on_tcp_checked e _ m gre_len)
          | inr c ↦ elim (Bool-cases (proto == 0x11)) [
            | inl d ↦ rw (a, b, c, d) (on_udp_checked e _ m gre_len)
            | inr d ↦ rw (a, b, c, d) (tt, tt)
          ]
        ]
      ]
    ]

module _ (api : FragApi) where
  restored_checked :
      (saved : Memory) (n : ℕ) (w : Packet) (o : Option Packet)
      → AllChecked (restored api saved n w o).1
  unfolding AllChecked Passed restored
  restored_checked saved n w none = (tt, tt)
  restored_checked saved n w (some p) = tt

  linear_checked :
      (saved : Memory) (n : ℕ) (w : Packet) (o : Option Packet)
      → AllChecked (linear api saved n w o).1
  unfolding AllChecked Passed linear
  linear_checked saved n w none = (tt, tt)
  linear_checked saved n w (some l) = restored_checked saved n l (api.prepend l n)

  rejoin_checked :
      (saved : Memory) (n : ℕ) (o : Option Packet) → AllChecked (rejoined api saved n o).1
  unfolding AllChecked Passed rejoined
  rejoin_checked saved n none = tt
  rejoin_checked saved n (some w) = (tt, linear_checked saved n w (linearized api w))

  stripped_checked :
      (t : api.Table) (m : Packet) (n tsc : ℕ) (o : Option Packet)
      → AllChecked (reassembly api t m n tsc o).1.1
  unfolding AllChecked Passed reassembly
  stripped_checked t m n tsc none = (tt, tt)
  stripped_checked t m n tsc (some a) =
      (tt, rejoin_checked m.bytes n (api.reassemble t a (l3_len a.bytes 0) tsc).1)

  gather_checked : (t : api.Table) (m : Packet) (n tsc : ℕ) → AllChecked (gather api t m n tsc).1.1
  unfolding gather
  gather_checked t m n tsc = stripped_checked t m n tsc (api.adj m n)

  inner_gathered_checked :
      (e : Env) (s : RxState api.Table) (gre_len : ℕ) (g : Option Packet × List RxEvent)
      → AllChecked g.1
      → AllChecked (inner_gathered api e s gre_len g).1
  unfolding inner_gathered after
  inner_gathered_checked e s gre_len (none, es) h = h
  inner_gathered_checked e s gre_len (some m, es) h =
      AllChecked-++ es _ h (dispatch_checked e s (refresh_outer api gre_len m) gre_len)

  on_inner_checked :
      (e : Env) (s : RxState api.Table) (m : Packet) → AllChecked (on_inner api e s m).1
  unfolding on_inner
  on_inner_checked e s m =
      let gre_len = gre_length m.bytes in
      elim (Bool-cases ((m.bytes 23 == 0x2f) && inner_ip_is_fragment m.bytes (14 + gre_len))) [
        | inl both ↦
            rw both
              (inner_gathered_checked e _ gre_len _ (gather_checked s.inner m (14 + gre_len) e.tsc))
        | inr whole ↦ rw whole (dispatch_checked e s m gre_len)
      ]

  outer_gathered_checked :
      (e : Env) (s : RxState api.Table) (g : Option Packet × List RxEvent)
      → AllChecked g.1
      → AllChecked (outer_gathered api e s g).1
  unfolding outer_gathered after
  outer_gathered_checked e s (none, es) h = h
  outer_gathered_checked e s (some m, es) h = AllChecked-++ es _ h (on_inner_checked e s m)

  on_ipv4_checked :
      (e : Env) (s : RxState api.Table) (m : Packet) → AllChecked (on_ipv4 api e s m).1
  unfolding on_ipv4 on_outer AllChecked Passed
  on_ipv4_checked e s m = elim (Bool-cases (length_mismatch api m)) [
    | inl bad ↦ rw bad (tt, tt)
    | inr ok ↦ elim (Bool-cases (api.outer_ip_is_fragment m.bytes)) [
      | inl frag ↦ rw (ok, frag) (outer_gathered_checked e _ _ (gather_checked s.outer m 14 e.tsc))
      | inr whole ↦ rw (ok, whole) (on_inner_checked e s m)
    ]
  ]

  -- Each segment that the thread gives to tcp_input, reassembled ones included, has passed
  -- verify_tcp_checksum in the very bytes, with the total length of the IP header and with a TCP header
  -- that follows an IP header of 20 bytes. The header length that tcp_input gets is that of the IP
  -- header with its options: only without options it is the 20 bytes that were verified.
  pub process_packet-AllChecked :
      (e : Env) (s : RxState api.Table) (m : Packet) → AllChecked (process_packet api e s m).1
  unfolding process_packet forward on_arp AllChecked Passed
  process_packet-AllChecked e s m = elim (Bool-cases (word m.bytes 12 == 0x0806)) [
    | inl is_arp ↦ rw is_arp (tt, tt)
    | inr not_arp ↦ elim (Bool-cases (word m.bytes 12 == 0x0800)) [
      | inl is_ip ↦ rw (not_arp, is_ip) (on_ipv4_checked e _ m)
      | inr other ↦ rw (not_arp, other) (tt, tt)
    ]
  ]
