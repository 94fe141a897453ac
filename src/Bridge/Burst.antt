-- ===== src/Bridge/Burst.antt =====
-- `cb_pump_egress` on a whole burst: no buffer is lost or counted twice, and what goes out is
-- tagged.
use xyz.Prelude.{
  ℕ, suc, ◌+◌, ◌≤◌, ◌<◌, ◌≡◌, refl, true, List, [], ◌∷◌, Option, none, some, length, take, drop,
  All, All-take, length-append, length-take, length-drop, ltb, ◌==◌, Bool-cases, inl, inr, dec_lt,
  arith,
}
use xyz.Mbuf.{MbufApi}
use xyz.Bridge.{Bridge, cb_is_ctrl_frame, stamp, enqueue, stamp_all, cb_pump_egress}
use xyz.Bridge.RoundTrip.{stamp-tagged, cb_is_ctrl_frame_lem}

module _ (api : MbufApi) where
  open api use {Mbuf, bytes, headroom, prepend_none}

  stamp-short : (m : Mbuf) → length (bytes m) < 14 → stamp api m ≡ none
  unfolding stamp
  stamp-short m h = let e : ltb (length (bytes m)) 14 ≡ true = ground arith in rw e

  stamp-full : (m : Mbuf) → headroom m < 2 → stamp api m ≡ none
  unfolding stamp
  stamp-full m h = elim (Bool-cases (ltb (length (bytes m)) 14)) [
    | inl e ↦ rw e
    | inr e ↦ rw e (rw (prepend_none m 2 h, stamp))
  ]

  -- What `stamp` lets through is a control frame.
  stamp-ctrl : (m m' : Mbuf) → stamp api m ≡ some m' → cb_is_ctrl_frame api m' ≡ true
  stamp-ctrl m m' e = elim (dec_lt (length (bytes m)) 14) [
    | yes short ↦ cc (stamp-short m short)
    | no long ↦ elim (dec_lt (headroom m) 2) [
      | yes full ↦ cc (stamp-full m full)
      | no free ↦
          let (s, built, laid) = stamp-tagged api m (omega arith) (omega arith) in
          let same : s ≡ m' = cc in
          rw (← same) (
            cb_is_ctrl_frame_lem api s (take 12 (bytes m)) 0x88 0xb5 (drop 12 (bytes m))
              (omega (arith, length-take 12 (bytes m))) laid)
    ]
  ]

  abbrev pub Tagged : List Mbuf → Type 0
  Tagged = All (λ m. cb_is_ctrl_frame api m ≡ true)

  enqueue_lem :
      (o : Option Mbuf) (m : Mbuf) (q : List Mbuf × List Mbuf)
      → ((m' : Mbuf) → o ≡ some m' → cb_is_ctrl_frame api m' ≡ true)
      → Tagged q.0
      → let (txq, gone) = enqueue api o m q in
        (length txq + length gone ≡ suc (length q.0 + length q.1)) × Tagged txq
  unfolding enqueue
  enqueue_lem none m (txq, gone) ctrl tagged = (omega arith, tagged)
  enqueue_lem (some m') m (txq, gone) ctrl tagged = (omega arith, (ctrl m' refl, tagged))

  -- The queue and the freed buffers make up the burst, and the queue is tagged.
  stamp_all_lem :
      (bufs : List Mbuf)
      → let (txq, gone) = stamp_all api bufs in
        (length txq + length gone ≡ length bufs) × Tagged txq
  unfolding stamp_all
  stamp_all_lem [] = (refl, tt)
  stamp_all_lem (m ∷ ms) =
      let (size, tagged) = stamp_all_lem ms in
      let (more, all) =
        enqueue_lem (stamp api m) m (stamp_all api ms) (λ m' e. stamp-ctrl m m' e) tagged in
      (omega arith, all)

  -- Every buffer of the burst is transmitted or freed, and just once: the numbers add up. Each
  -- transmitted one is a control frame. The result is the number of tagged frames, of which the
  -- device may have refused some.
  pub cb_pump_egress-accounts :
      (b : Bridge) (tx : List Mbuf → ℕ) (bufs : List Mbuf)
      → b.ready ≡ true
      → ((q : List Mbuf) → tx q ≤ length q)
      → let p = cb_pump_egress api b tx bufs in
        (length p.on_wire + length p.dropped ≡ length bufs)
        × Tagged p.on_wire
        × (length p.on_wire ≤ p.returned)
        × (p.returned ≤ length bufs)
  unfolding cb_pump_egress
  cb_pump_egress-accounts b tx bufs r bound =
      let txq = (stamp_all api bufs).0 in
      let gone = (stamp_all api bufs).1 in
      let (size, tagged) = stamp_all_lem bufs in
      let bounded = bound txq in
      rw r (elim (Bool-cases (length txq == 0)) [
        | inl e ↦ rw e (ground arith, tt, ground arith, ground arith)
        | inr e ↦ rw e (
          omega (
            arith,
            length-append gone (drop (tx txq) txq),
            length-take (tx txq) txq,
            length-drop (tx txq) txq,
          ),
          All-take _ (tx txq) txq tagged,
          omega (arith, length-take (tx txq) txq),
          omega arith,
        )
      ])
