-- ===== src/RxThread/Dispatch/Reassembled.antt =====
-- The frames that the fragment blocks of `app_rx_thread` build, for a DPDK that does what it documents.
use xyz.Prelude.{
  ℕ, ◌+◌, ◌-◌, ◌%◌, ◌^◌, ◌<◌, ◌≤◌, ◌≡◌, ◌∙◌, subst, refl, Option, some, none, Bool-cases, inl, inr,
  arith,
}
use xyz.Memory.{
  word, write_word, copy, copy-inside, copy-outside, word-write_word, word-write_word_other,
}
use xyz.RxThread.{Packet, FragApi}
use xyz.RxThread.Frag.{
  gather, reassembly, rejoined, linear, linearized, restored, refresh_outer, l3_len,
}

-- `bytes` are those of the whole packet, also where it lies in several buffers.
pub record Documented (api : FragApi) : Type 0 where
  -- the packet grows at its front
  pub prepended :
      (m p : Packet) (n : ℕ)
      → api.prepend m n ≡ some p
      → (p.pkt_len ≡ m.pkt_len + n) × ((i : ℕ) → p.bytes (n + i) ≡ m.bytes i)
  pub linearized_same :
      (w l : Packet)
      → api.linearize w ≡ some l
      → (l.pkt_len ≡ w.pkt_len) × ((i : ℕ) → l.bytes i ≡ w.bytes i)
  -- the table sets the total length of the datagram that it returns
  pub reassembled_len :
      (t : api.Table) (m w : Packet) (l tsc : ℕ)
      → (api.reassemble t m l tsc).1 ≡ some w
      → word w.bytes 2 ≡ w.pkt_len

-- The first n bytes are those of `m`, and the datagram behind them has the length that it says.
pub record Rebuilt (m : Packet) (n : ℕ) (p : Packet) : Type 0 where
  pub prefix_kept : (i : ℕ) → i < n → p.bytes i ≡ m.bytes i
  pub consistent : word p.bytes (n + 2) + n ≡ p.pkt_len

Consistent : Packet → Type 0
Consistent w = word w.bytes 2 ≡ w.pkt_len

-- Of the packet that a block leaves, if it leaves one.
pub Leaves : {P : Type 0} → (P → Type 0) → Option P → Type 0
Leaves Good none = Unit
Leaves Good (some p) = Good p

module _ (api : FragApi) (dpdk : Documented api) where
  restored-Rebuilt :
      (m l : Packet) (n : ℕ) (o : Option Packet)
      → api.prepend l n ≡ o
      → Consistent l
      → Leaves (Rebuilt m n) (restored api m.bytes n l o).0
  unfolding restored Leaves Consistent word
  restored-Rebuilt m l n none e len = tt
  restored-Rebuilt m l n (some q) e len =
      let (size, same) = dpdk.prepended l q n e in
      let start : (i : ℕ) → i < n → copy q.bytes 0 m.bytes 0 n i ≡ m.bytes i = λ i h.
        let e0 : 0 + i ≡ i = omega arith in
        subst (λ x. copy q.bytes 0 m.bytes 0 n x ≡ m.bytes x) e0
          (copy-inside q.bytes m.bytes 0 0 n i h) in
      let far : (i : ℕ) → copy q.bytes 0 m.bytes 0 n (n + i) ≡ l.bytes i =
        λ i. copy-outside q.bytes m.bytes 0 0 n (n + i) (inr (omega arith)) ∙ same i in
      let next : n + 3 ≡ n + 2 + 1 = omega arith in
      let far3 = subst (λ x. copy q.bytes 0 m.bytes 0 n x ≡ l.bytes 3) next (far 3) in
      record { prefix_kept = start; consistent = omega (arith, size, far 2, far3, len) }

  linear-Rebuilt :
      (m w : Packet) (n : ℕ) (o : Option Packet)
      → Leaves Consistent o
      → Leaves (Rebuilt m n) (linear api m.bytes n w o).0
  unfolding linear Leaves
  linear-Rebuilt m w n none len = tt
  linear-Rebuilt m w n (some l) len = restored-Rebuilt m l n (api.prepend l n) refl len

  linearize_keeps :
      (w : Packet) (o : Option Packet) → api.linearize w ≡ o → Consistent w → Leaves Consistent o
  unfolding Leaves Consistent word
  linearize_keeps w none e len = tt
  linearize_keeps w (some l) e len =
      let (size, same) = dpdk.linearized_same w l e in omega (arith, size, same 2, same 3, len)

  linearized_keeps : (w : Packet) → Consistent w → Leaves Consistent (linearized api w)
  unfolding linearized Leaves
  linearized_keeps w len = elim (Bool-cases (api.is_chained w)) [
    | inl chained ↦ rw chained (linearize_keeps w (api.linearize w) refl len)
    | inr single ↦ rw single len
  ]

  rejoined-Rebuilt :
      (m : Packet) (n : ℕ) (o : Option Packet)
      → Leaves Consistent o
      → Leaves (Rebuilt m n) (rejoined api m.bytes n o).0
  unfolding rejoined Leaves
  rejoined-Rebuilt m n none len = tt
  rejoined-Rebuilt m n (some w) len =
      linear-Rebuilt m w n (linearized api w) (linearized_keeps w len)

  given :
      (o : Option Packet) (t : api.Table) (a : Packet) (l tsc : ℕ)
      → (api.reassemble t a l tsc).1 ≡ o
      → Leaves Consistent o
  unfolding Leaves Consistent
  given none t a l tsc e = tt
  given (some w) t a l tsc e = dpdk.reassembled_len t a w l tsc e

  reassembly-Rebuilt :
      (t : api.Table) (m : Packet) (n tsc : ℕ) (o : Option Packet)
      → Leaves (Rebuilt m n) (reassembly api t m n tsc o).1.0
  unfolding reassembly Leaves
  reassembly-Rebuilt t m n tsc none = tt
  reassembly-Rebuilt t m n tsc (some a) =
      let r = (api.reassemble t a (l3_len a.bytes 0) tsc).1 in
      rejoined-Rebuilt m n r (given r t a (l3_len a.bytes 0) tsc refl)

  -- The packet that a block leaves, if it leaves one, has the n bytes before the fragment's IP header in
  -- front, and behind them a datagram of the length that its header says: the outer block, which
  -- skips the comparison of lengths, ends in a frame that would pass it.
  pub gather-Rebuilt :
      (t : api.Table) (m : Packet) (n tsc : ℕ) → Leaves (Rebuilt m n) (gather api t m n tsc).1.0
  unfolding gather
  gather-Rebuilt t m n tsc = reassembly-Rebuilt t m n tsc (api.adj m n)

-- After the inner block, the outer header again has the length of the frame: 14 bytes less. `m` is the
-- fragment, and the frame is not longer than a 16-bit length can say.
pub refresh_outer-Rebuilt :
    (api : FragApi) (m p : Packet) (gre_len : ℕ)
    → 24 ≤ gre_len
    → Rebuilt m (14 + gre_len) p
    → p.pkt_len < 2 ^ 16 + 14
    → word (refresh_outer api gre_len p).bytes 16 + 14 ≡ (refresh_outer api gre_len p).pkt_len
unfolding refresh_outer
refresh_outer-Rebuilt api m p gre_len tunnel r small =
    let total = (20 + (gre_len - 20) + word p.bytes (14 + gre_len + 2)) % 2 ^ 16 in
    let b = write_word p.bytes 16 total in
    let e1 =
      word-write_word_other (write_word b 24 0) 24 (api.ipv4_cksum (write_word b 24 0)) 16
        (omega arith) (omega arith) (omega arith) in
    let e2 = word-write_word_other b 24 0 16 (omega arith) (omega arith) (omega arith) in
    let e3 = word-write_word p.bytes 16 total (omega arith) in
    omega (arith, e1, e2, e3, r.consistent, tunnel, small)
