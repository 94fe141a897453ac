-- ===== src/Mixed/Summed.antt =====
-- The checksums of the TCP frames that `app_mixed_thread` schedules.
use xyz.Prelude.{◌+◌, ◌≤◌, ◌≡◌, ◌∙◌, refl, ap, true, false, ◌==◌, ltb, Bool-cases, inl, inr}
use xyz.Memory.{Memory, IsBytes, word}
use xyz.Checksum.{gre_length, calculate_tcp_checksum, verify_tcp_checksum}
use xyz.Checksum.RoundTrip.{verify-calculate_tcp_checksum}
use xyz.Firewall.Queue.{get_pkt_sched}
use xyz.Sender.{Frame}
use xyz.Mixed.{
  Env, Verdict, is_ipv4, bad_length, below_max, permitted, scheduled, to_port, summed, by_protocol,
  check_ring,
}
use xyz.Mixed.Ring.{OfValid, WritesPlace}

HasBytes : Memory → Frame → Type 0
HasBytes b f = f.bytes ≡ b

below_max-HasBytes :
    (e : Env) (f : Frame) (b : Memory) → HasBytes b f → OfValid (HasBytes b) (below_max e f)
unfolding below_max OfValid
below_max-HasBytes e f b same = elim (Bool-cases (ltb e.max_queue_index f.queue_id)) [
  | inl above ↦ rw above tt
  | inr below ↦ rw below same
]

scheduled-HasBytes :
    (e : Env) (f : Frame) → WritesPlace e → OfValid (HasBytes f.bytes) (scheduled e f)
unfolding scheduled OfValid WritesPlace HasBytes
scheduled-HasBytes e f writes =
    let found = get_pkt_sched f.bytes e.mode e.unset e.lut e.cnt e.default_tc in
    elim (Bool-cases (permitted e found.1)) [
      | inl ok ↦ rw ok (below_max-HasBytes e (e.pkt_write f found.0) f.bytes (writes f found.0).0)
      | inr closed ↦ rw closed tt
    ]

to_port-HasBytes :
    (e : Env) (f : Frame) → WritesPlace e → OfValid (HasBytes f.bytes) (to_port e false f)
unfolding to_port OfValid HasBytes
to_port-HasBytes e f writes = elim (Bool-cases (e.tx_port == 1)) [
  | inl scheduler ↦ rw scheduler (scheduled-HasBytes e f writes)
  | inr direct ↦ rw direct refl
]

-- A TCP segment in the frame `m`, with the lengths of `m`, that the receiver accepts.
pub IsVerified : Frame → Frame → Type 0
IsVerified m f =
    let g = gre_length m.bytes in
    verify_tcp_checksum f.bytes (34 + g) (14 + g) (word m.bytes (g + 16)) ≡ true

to_port-IsVerified :
    (e : Env) (m : Frame) (v : Verdict)
    → IsBytes m.bytes
    → 38 ≤ word m.bytes (gre_length m.bytes + 16)
    → OfValid (HasBytes (calculate_tcp_checksum m.bytes)) v
    → OfValid (IsVerified m) v
unfolding OfValid HasBytes IsVerified
to_port-IsVerified e m Verdict.bad bytes long h = tt
to_port-IsVerified e m Verdict.profile_change bytes long h = tt
to_port-IsVerified e m Verdict.denied bytes long h = tt
to_port-IsVerified e m (Verdict.valid f) bytes long h =
    let g = gre_length m.bytes in
    let (outer, inner, ok) = verify-calculate_tcp_checksum m.bytes bytes long in
    ap (λ b. verify_tcp_checksum b (34 + g) (14 + g) (word m.bytes (g + 16))) h ∙ ok

-- An IPv4 frame whose inner protocol is TCP, of at least 38 bytes from the inner header on, may have been
-- changed since its checksum was taken: if it is valid, verify_tcp_checksum accepts it, whatever
-- checksum it came with.
pub check_ring-IsVerified :
    (e : Env) (m : Frame)
    → WritesPlace e
    → IsBytes m.bytes
    → is_ipv4 m ≡ true
    → m.bytes (14 + gre_length m.bytes + 9) ≡ 6
    → 38 ≤ word m.bytes (gre_length m.bytes + 16)
    → OfValid (IsVerified m) (check_ring e m)
unfolding check_ring by_protocol OfValid summed
check_ring-IsVerified e m writes bytes ip tcp long = elim (Bool-cases (bad_length m)) [
  | inl wrong ↦ rw wrong tt
  | inr ok ↦
      let no_udp : (m.bytes (14 + gre_length m.bytes + 9) == 0x11) ≡ false = rw tcp refl in
      let is_tcp : (m.bytes (14 + gre_length m.bytes + 9) == 0x06) ≡ true = rw tcp refl in
      rw (ok, ip, no_udp, is_tcp)
        (to_port-IsVerified e m (to_port e false (summed m)) bytes long
          (to_port-HasBytes e (summed m) writes))
]
