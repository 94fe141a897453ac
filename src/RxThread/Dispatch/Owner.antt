-- ===== src/RxThread/Dispatch/Owner.antt =====
-- Which buffer `app_rx_thread` has at each event, and that it lets go of it.
use xyz.Prelude.{
  ℕ, ◌+◌, ◌≡◌, ◌∙◌, refl, sym, ap, Bool, ltb, true, false, Option, some, none, List, [], ◌∷◌, ◌==◌,
  ◌&&◌, Bool-cases, inl, inr,
}
use mathlib.Core.Option.{some-injective}
use xyz.Memory.{Memory, word}
use xyz.Arp.{process_arp-releases}
use xyz.Checksum.{verify_tcp_checksum, gre_length}
use xyz.Sites.{inner_ip_is_fragment}
use xyz.RxThread.{Packet, FragApi, RxEvent, tcp_input, Env, RxState, count_packet}
use xyz.RxThread.Dispatch.Leads.{Leads, SameBuffer, Leads-++}
use xyz.RxThread.Frag.{
  gather, reassembly, rejoined, linear, linearized, restored, l3_len, refresh_outer,
}
use xyz.RxThread.Dispatch.{
  forward, deliver, freed_after, read_packet, on_tcp, is_rtp, on_udp, dispatch, after,
  inner_gathered, on_inner, outer_gathered, on_outer, length_mismatch, on_ipv4, on_arp,
  process_packet, with_stats,
}

-- The thread has the packet's buffer, and none in the end.
pub LetsGo : Packet → List RxEvent → Type 0
LetsGo m es = Leads (some m.mbuf) es none

read_LetsGo :
    (room grown : Bool) (b : Memory) (ip n l : ℕ) (m : Packet)
    → LetsGo m (freed_after (read_packet room grown (tcp_input b ip n l ∷ [])) m)
unfolding LetsGo Leads read_packet freed_after
read_LetsGo true grown b ip n l m = (refl, refl)
read_LetsGo false true b ip n l m = tt
read_LetsGo false false b ip n l m = (refl, refl)

on_tcp-LetsGo :
    {T : Type 0} (e : Env) (s : RxState T) (m : Packet) (gre_len : ℕ)
    → LetsGo m (on_tcp e s m gre_len).1
unfolding LetsGo Leads on_tcp deliver
on_tcp-LetsGo e s m gre_len =
    elim (Bool-cases (
      verify_tcp_checksum m.bytes (34 + gre_len) (14 + gre_len)
        (word m.bytes (14 + gre_len + 2)))) [
          | inl ok ↦ rw ok (read_LetsGo _ _ m.bytes _ _ _ m)
          | inr bad ↦ rw bad (refl, refl)
        ]

on_udp-LetsGo :
    {T : Type 0} (e : Env) (s : RxState T) (m : Packet) (gre_len : ℕ)
    → LetsGo m (on_udp e s m gre_len).1
unfolding LetsGo Leads on_udp forward
on_udp-LetsGo e s m gre_len = elim (Bool-cases e.header_comp) [
  | inr off ↦ rw off (refl, refl)
  | inl on ↦ elim (Bool-cases (e.portid == e.wan_if_id)) [
    | inl wan ↦ elim (Bool-cases (word m.bytes (34 + gre_len + 2) == 1194)) [
      | inl tunnel ↦ rw (on, wan, tunnel) (refl, (refl, refl))
      | inr other ↦ rw (on, wan, other) (refl, refl)
    ]
    | inr lan ↦ elim (Bool-cases (ltb m.pkt_len 200 && is_rtp e m.bytes gre_len)) [
      | inl rtp ↦ rw (on, lan, rtp) (refl, (refl, refl))
      | inr other ↦ rw (on, lan, other) (refl, refl)
    ]
  ]
]

dispatch-LetsGo :
    {T : Type 0} (e : Env) (s : RxState T) (m : Packet) (gre_len : ℕ)
    → LetsGo m (dispatch e s m gre_len).1
unfolding LetsGo Leads dispatch forward
dispatch-LetsGo e s m gre_len =
    let proto = m.bytes (14 + gre_len + 9) in
    elim (Bool-cases (proto == 1)) [
      | inl a ↦ rw a (refl, (refl, refl))
      | inr a ↦ elim (Bool-cases (proto == 4)) [
        | inl b ↦ rw (a, b) (refl, refl)
        | inr b ↦ elim (Bool-cases (proto == 6)) [
          | inl c ↦ rw (a, b, c) (on_tcp-LetsGo e _ m gre_len)
          | inr c ↦ elim (Bool-cases (proto == 0x11)) [
            | inl d ↦ rw (a, b, c, d) (on_udp-LetsGo e _ m gre_len)
            | inr d ↦ rw (a, b, c, d) (refl, refl)
          ]
        ]
      ]
    ]

buffer_of : Option Packet → Option ℕ
buffer_of none = none
buffer_of (some m) = some m.mbuf

-- A packet to go on with is in the buffer that the thread then has.
Keeps : Option ℕ → Option Packet × List RxEvent → Type 0
Keeps owner r = Leads owner r.1 (buffer_of r.0)

module _ (api : FragApi) (dpdk : SameBuffer api) where
  restored-Keeps :
      (saved : Memory) (n i : ℕ) (w : Packet) (o : Option Packet)
      → api.prepend w n ≡ o
      → w.mbuf ≡ i
      → Keeps (some i) (restored api saved n w o)
  unfolding Keeps Leads buffer_of restored
  restored-Keeps saved n i w none e same = (ap some (sym same), refl)
  restored-Keeps saved n i w (some p) e same = ap some (sym (dpdk.prepend_same w p n e ∙ same))

  linear-Keeps :
      (saved : Memory) (n : ℕ) (w : Packet) (o : Option Packet)
      → ((l : Packet) → o ≡ some l → l.mbuf ≡ w.mbuf)
      → Keeps (some w.mbuf) (linear api saved n w o)
  unfolding Keeps Leads buffer_of linear
  linear-Keeps saved n w none same = (refl, refl)
  linear-Keeps saved n w (some l) same =
      restored-Keeps saved n w.mbuf l (api.prepend l n) refl (same l refl)

  linearized_same : (w l : Packet) → linearized api w ≡ some l → l.mbuf ≡ w.mbuf
  unfolding linearized
  linearized_same w l h = elim (Bool-cases (api.is_chained w)) [
    | inl chained ↦ dpdk.linearize_same w l (sym (rw chained refl) ∙ h)
    | inr whole ↦
        let e : some w ≡ some l = sym (rw whole refl) ∙ h in
        ap (λ p. p.mbuf) (sym (some-injective w l e))
  ]

  rejoined-Keeps :
      (saved : Memory) (n : ℕ) (o : Option Packet) → Keeps none (rejoined api saved n o)
  unfolding Keeps Leads buffer_of rejoined
  rejoined-Keeps saved n none = refl
  rejoined-Keeps saved n (some w) =
      (refl, linear-Keeps saved n w (linearized api w) (linearized_same w))

  reassembly-Keeps :
      (t : api.Table) (m : Packet) (n tsc : ℕ) (o : Option Packet)
      → api.adj m n ≡ o
      → Keeps (some m.mbuf) (reassembly api t m n tsc o).1
  unfolding Keeps Leads buffer_of reassembly
  reassembly-Keeps t m n tsc none e = (refl, refl)
  reassembly-Keeps t m n tsc (some a) e = (
    ap some (sym (dpdk.adj_same m a n e)),
    rejoined-Keeps m.bytes n (api.reassemble t a (l3_len a.bytes 0) tsc).1,
  )

  gather-Keeps :
      (t : api.Table) (m : Packet) (n tsc : ℕ) → Keeps (some m.mbuf) (gather api t m n tsc).1
  unfolding gather
  gather-Keeps t m n tsc = reassembly-Keeps t m n tsc (api.adj m n) refl

  refreshed-LetsGo :
      (e : Env) (s : RxState api.Table) (m : Packet) (gre_len : ℕ)
      → LetsGo m (dispatch e s (refresh_outer api gre_len m) gre_len).1
  unfolding refresh_outer LetsGo
  refreshed-LetsGo e s m gre_len = dispatch-LetsGo e s (refresh_outer api gre_len m) gre_len

  inner_gathered-LetsGo :
      (e : Env) (s : RxState api.Table) (gre_len i : ℕ) (g : Option Packet × List RxEvent)
      → Keeps (some i) g
      → Leads (some i) (inner_gathered api e s gre_len g).1 none
  unfolding inner_gathered Keeps buffer_of after LetsGo
  inner_gathered-LetsGo e s gre_len i (none, es) h = h
  inner_gathered-LetsGo e s gre_len i (some m, es) h =
      let r = dispatch e s (refresh_outer api gre_len m) gre_len in
      Leads-++ (some i) (some m.mbuf) none es r.1 h (refreshed-LetsGo e s m gre_len)

  on_inner-LetsGo : (e : Env) (s : RxState api.Table) (m : Packet) → LetsGo m (on_inner api e s m).1
  unfolding on_inner LetsGo
  on_inner-LetsGo e s m =
      let gre_len = gre_length m.bytes in
      elim (Bool-cases ((m.bytes 23 == 0x2f) && inner_ip_is_fragment m.bytes (14 + gre_len))) [
        | inl both ↦ rw both (
            inner_gathered-LetsGo e _ gre_len m.mbuf _
              (gather-Keeps s.inner m (14 + gre_len) e.tsc))
        | inr whole ↦ rw whole (dispatch-LetsGo e s m gre_len)
      ]

  outer_gathered-LetsGo :
      (e : Env) (s : RxState api.Table) (i : ℕ) (g : Option Packet × List RxEvent)
      → Keeps (some i) g
      → Leads (some i) (outer_gathered api e s g).1 none
  unfolding outer_gathered Keeps buffer_of after LetsGo
  outer_gathered-LetsGo e s i (none, es) h = h
  outer_gathered-LetsGo e s i (some m, es) h =
      Leads-++ (some i) (some m.mbuf) none es (on_inner api e s m).1 h (on_inner-LetsGo e s m)

  on_ipv4-LetsGo : (e : Env) (s : RxState api.Table) (m : Packet) → LetsGo m (on_ipv4 api e s m).1
  unfolding on_ipv4 on_outer LetsGo Leads
  on_ipv4-LetsGo e s m = elim (Bool-cases (length_mismatch api m)) [
    | inl bad ↦ rw bad (refl, refl)
    | inr ok ↦ elim (Bool-cases (api.outer_ip_is_fragment m.bytes)) [
      | inl frag ↦
          rw (ok, frag) (outer_gathered-LetsGo e _ m.mbuf _ (gather-Keeps s.outer m 14 e.tsc))
      | inr whole ↦ rw (ok, whole) (on_inner-LetsGo e s m)
    ]
  ]

  on_arp-LetsGo : (e : Env) (s : RxState api.Table) (m : Packet) → LetsGo m (on_arp api e s m).1
  unfolding on_arp LetsGo Leads
  on_arp-LetsGo e s m = (
    refl,
    process_arp-releases e.arp_config e.tunnel_enable m.bytes e.portid m.pkt_len s.reach,
    refl,
  )

  -- Whatever a received packet says, and whatever the fragment table gives back: unless the thread stops
  -- at a NULL pointer, it frees, forwards or hands over the very buffer that it has, the received one
  -- first, then the one that the table gives back, and does so once; it uses no buffer that it does not
  -- have, and has none in the end. Needed: DPDK changes a packet within its buffer.
  pub process_packet-LetsGo :
      (e : Env) (s : RxState api.Table) (m : Packet) → LetsGo m (process_packet api e s m).1
  unfolding process_packet forward LetsGo Leads
  process_packet-LetsGo e s m = elim (Bool-cases (word m.bytes 12 == 0x0806)) [
    | inl is_arp ↦ rw is_arp (on_arp-LetsGo e (with_stats s (count_packet s.stats m)) m)
    | inr not_arp ↦ elim (Bool-cases (word m.bytes 12 == 0x0800)) [
      | inl is_ip ↦ rw (not_arp, is_ip) (on_ipv4-LetsGo e _ m)
      | inr other ↦ rw (not_arp, other) (refl, refl)
    ]
  ]
