-- ===== src/Mixed/Ring.antt =====
-- The frames that `app_mixed_thread` takes from its ring.
use xyz.Prelude.{
  ℕ, ◌+◌, ◌≤◌, ◌≡◌, ◌∙◌, refl, Bool, true, false, not, ◌&&◌, ◌||◌, List, [], ◌∷◌, ◌==◌, ltb, length,
  All, Bool-cases, inl, inr, arith,
}
use xyz.Memory.{word}
use xyz.Checksum.{gre_length}
use xyz.Firewall.Queue.{Sched, get_pkt_sched}
use xyz.Sender.{Frame}
use xyz.Mixed.{
  Env, Verdict, is_ipv4, bad_length, below_max, permitted, scheduled, to_port, summed, by_protocol,
  check_ring,
}

-- What a pass over the ring leaves; `nb_drop` is that of the port's receive thread.
pub record Checked : Type 0 where
  pub valid_frames : List Frame
  pub freed : List Frame
  pub nb_drop : ℕ
  pub profile_change : Bool

pub add_verdict : Frame → Verdict → Checked → Checked
add_verdict m Verdict.bad r = record {
  valid_frames = r.valid_frames;
  freed = m ∷ r.freed;
  nb_drop = r.nb_drop;
  profile_change = r.profile_change;
}
add_verdict m Verdict.profile_change r = record {
  valid_frames = r.valid_frames;
  freed = m ∷ r.freed;
  nb_drop = r.nb_drop;
  profile_change = true;
}
add_verdict m Verdict.denied r = record {
  valid_frames = r.valid_frames;
  freed = m ∷ r.freed;
  nb_drop = r.nb_drop + 1;
  profile_change = r.profile_change;
}
add_verdict m (Verdict.valid f) r = record {
  valid_frames = f ∷ r.valid_frames;
  freed = r.freed;
  nb_drop = r.nb_drop;
  profile_change = r.profile_change;
}

pub check_all : Env → List Frame → Checked
unfolding add_verdict
check_all e [] = record { valid_frames = []; freed = []; nb_drop = 0; profile_change = false }
check_all e (m ∷ ms) = add_verdict m (check_ring e m) (check_all e ms)

-- What holds of the frame that becomes of a valid one.
unfoldable pub OfValid : (Frame → Type 0) → Verdict → Type 0
OfValid Good Verdict.bad = Unit
OfValid Good Verdict.profile_change = Unit
OfValid Good Verdict.denied = Unit
OfValid Good (Verdict.valid f) = Good f

-- The documented behaviour of rte_sched_port_pkt_write: it writes the place only.
unfoldable pub WritesPlace : Env → Type 0
WritesPlace e =
    (m : Frame) (s : Sched)
    → ((e.pkt_write m s).bytes ≡ m.bytes) × ((e.pkt_write m s).pkt_len ≡ m.pkt_len)

-- A place in the scheduler that exists, and the length of the frame.
pub record Placed (e : Env) (m f : Frame) : Type 0 where
  pub in_range : f.queue_id ≤ e.max_queue_index
  pub same_length : f.pkt_len ≡ m.pkt_len

below_max-Placed :
    (e : Env) (m f : Frame) → f.pkt_len ≡ m.pkt_len → OfValid (Placed e m) (below_max e f)
unfolding below_max OfValid
below_max-Placed e m f same = elim (Bool-cases (ltb e.max_queue_index f.queue_id)) [
  | inl above ↦ rw above tt
  | inr below ↦ rw below (record { in_range = ground (arith, below); same_length = same })
]

scheduled-Placed :
    (e : Env) (m f : Frame)
    → WritesPlace e
    → f.pkt_len ≡ m.pkt_len
    → OfValid (Placed e m) (scheduled e f)
unfolding scheduled OfValid WritesPlace
scheduled-Placed e m f writes same =
    let found = get_pkt_sched f.bytes e.mode e.unset e.lut e.cnt e.default_tc in
    elim (Bool-cases (permitted e found.1)) [
      | inl ok ↦ rw ok (below_max-Placed e m (e.pkt_write f found.0) ((writes f found.0).1 ∙ same))
      | inr closed ↦ rw closed tt
    ]

to_port-Placed :
    (e : Env) (written : Bool) (m f : Frame)
    → WritesPlace e
    → e.tx_port ≡ 1
    → f.pkt_len ≡ m.pkt_len
    → OfValid (Placed e m) (to_port e written f)
unfolding to_port
to_port-Placed e true m f writes port same =
    let on : (e.tx_port == 1) ≡ true = rw port refl in rw on (below_max-Placed e m f same)
to_port-Placed e false m f writes port same =
    let on : (e.tx_port == 1) ≡ true = rw port refl in rw on (scheduled-Placed e m f writes same)

by_protocol-Placed :
    (e : Env) (m : Frame) → WritesPlace e → e.tx_port ≡ 1 → OfValid (Placed e m) (by_protocol e m)
unfolding by_protocol OfValid
by_protocol-Placed e m writes port =
    let gre_len = gre_length m.bytes in
    let proto = m.bytes (14 + gre_len + 9) in
    let dst_port = word m.bytes (34 + gre_len + 2) in
    elim (Bool-cases (proto == 0x11)) [
      | inl udp ↦ elim (Bool-cases (dst_port == 6001)) [
        | inl update ↦ rw (udp, update) tt
        | inr other ↦ rw (udp, other) (to_port-Placed e (dst_port == 1194) m m writes port refl)
      ]
      | inr a ↦ elim (Bool-cases (proto == 0x06)) [
        | inl tcp ↦ rw (a, tcp) (to_port-Placed e false m (summed m) writes port refl)
        | inr b ↦ rw (a, b) (to_port-Placed e false m m writes port refl)
      ]
    ]

-- A frame that the scheduler can take and the line can carry.
pub record Sendable (e : Env) (f : Frame) : Type 0 where
  pub in_range : f.queue_id ≤ e.max_queue_index
  pub fits : f.pkt_len ≤ 1518

Placed-Sendable :
    (e : Env) (m : Frame) (v : Verdict)
    → m.pkt_len ≤ 1518
    → OfValid (Placed e m) v
    → OfValid (Sendable e) v
unfolding OfValid
Placed-Sendable e m Verdict.bad short h = tt
Placed-Sendable e m Verdict.profile_change short h = tt
Placed-Sendable e m Verdict.denied short h = tt
Placed-Sendable e m (Verdict.valid f) short h = record {
  in_range = h.in_range;
  fits = omega (arith, short, h.same_length);
}

pub fits_line : (m : Frame) → bad_length m ≡ false → m.pkt_len ≤ 1518
unfolding bad_length
fits_line m ok = elim (Bool-cases (is_ipv4 m)) [
  | inl ip ↦
      let ip_len = word m.bytes 16 in
      let h : (ltb 1518 m.pkt_len || (not (m.pkt_len == ip_len + 14) && ltb 46 ip_len)) ≡ false =
        simp ip at ok in
      ground (arith, h)
  | inr other ↦ let h : ltb 1518 m.pkt_len ≡ false = simp other at ok in ground (arith, h)
]

check_ring-Sendable :
    (e : Env) (m : Frame) → WritesPlace e → e.tx_port ≡ 1 → OfValid (Sendable e) (check_ring e m)
unfolding check_ring OfValid
check_ring-Sendable e m writes port = elim (Bool-cases (bad_length m)) [
  | inl long ↦ rw long tt
  | inr ok ↦ elim (Bool-cases (is_ipv4 m)) [
    | inl ip ↦
        rw (ok, ip)
          (Placed-Sendable e m (by_protocol e m) (fits_line m ok)
            (by_protocol-Placed e m writes port))
    | inr other ↦
        rw (ok, other)
          (Placed-Sendable e m (to_port e false m) (fits_line m ok)
            (to_port-Placed e false m m writes port refl))
  ]
]

added_account :
    (e : Env) (m : Frame) (v : Verdict) (r : Checked) (n : ℕ)
    → OfValid (Sendable e) v
    → (length r.valid_frames + length r.freed ≡ n) × All (Sendable e) r.valid_frames
    → (let a = add_verdict m v r in
        (length a.valid_frames + length a.freed ≡ n + 1) × All (Sendable e) a.valid_frames)
unfolding add_verdict OfValid
added_account e m Verdict.bad r n v (size, all) = (omega (arith, size), all)
added_account e m Verdict.profile_change r n v (size, all) = (omega (arith, size), all)
added_account e m Verdict.denied r n v (size, all) = (omega (arith, size), all)
added_account e m (Verdict.valid f) r n v (size, all) = (omega (arith, size), (v, all))

-- On the port of the scheduler: each frame of the ring is freed or valid, once, and each valid frame has
-- a queue that exists and at most 1518 bytes, so that the scheduler and the table of queue
-- lengths are used within their bounds.
pub check_all-Sendable :
    (e : Env) (ms : List Frame)
    → WritesPlace e
    → e.tx_port ≡ 1
    → (length (check_all e ms).valid_frames + length (check_all e ms).freed ≡ length ms)
      × All (Sendable e) (check_all e ms).valid_frames
unfolding check_all
check_all-Sendable e [] writes port = (refl, tt)
check_all-Sendable e (m ∷ ms) writes port =
    let (size, all) =
      added_account e m (check_ring e m) (check_all e ms) (length ms)
        (check_ring-Sendable e m writes port) (check_all-Sendable e ms writes port) in
    (omega (arith, size), all)
