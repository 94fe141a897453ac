-- ===== src/Bridge/RoundTrip.antt =====
-- A control frame on the wire, and back (ctrl_bridge.c, with the frames of `main (1).c`).
use mathlib.Core.List.{append_assoc}
use xyz.Prelude.{
  ℕ, ◌≤◌, ◌≡◌, refl, sym, ap, ap₂, ◌∙◌, Bool, true, false, List, [], ◌∷◌, ◌++◌, some, length, take,
  drop, length-append, length-take, length-drop, take-append, drop-append, take-append-drop,
  take-take-drop, drop-drop, ltb, if◌then◌else◌, arith,
}
use xyz.Mbuf.{MbufApi}
use xyz.Tunnel.{be16}
use xyz.Tunnel.Wire.{frame, store_next, store_middle}
use xyz.Tunnel.RoundTrip.{load_front}
use xyz.Bridge.{
  Bridge, freed, sent, eq16, ctrl_ethertype, cb_is_ctrl_frame, cb_punt_to_kernel, stamp,
}

rejoin : (xs : List ℕ) → take 2 (drop 12 xs) ++ drop 14 xs ≡ drop 12 xs
rejoin xs =
    ap (λ t. take 2 (drop 12 xs) ++ t) (sym (drop-drop 2 12 14 xs refl))
    ∙ take-append-drop 2 (drop 12 xs)

module _ (api : MbufApi) where
  open api use {
    Mbuf, bytes, headroom, adj, prepend, store, load, adj_some, prepend_some, prepend_none,
    load-bytes, length-load,
  }

  -- Both ways of the EtherType test, from what stands behind the MAC addresses.
  pub cb_is_ctrl_frame_lem :
      (m : Mbuf) (macs : List ℕ) (a b : ℕ) (rest : List ℕ)
      → length macs ≡ 12
      → bytes m ≡ macs ++ (a ∷ b ∷ rest)
      → cb_is_ctrl_frame api m ≡ eq16 (a ∷ b ∷ []) (be16 ctrl_ethertype)
  unfolding cb_is_ctrl_frame
  cb_is_ctrl_frame_lem m macs a b rest l e =
      let size : 14 ≤ length (bytes m) =
        omega (arith, ap length e, length-append macs (a ∷ b ∷ rest)) in
      let read : load m 12 2 ≡ a ∷ b ∷ [] =
        load-bytes m 12 2 size
        ∙ ap (λ t. take 2 (drop 12 t)) e
        ∙ ap (take 2) (drop-append 12 macs (a ∷ b ∷ rest) l) in
      let long : ltb (length (bytes m)) 14 ≡ false = ground arith in rw (long, read)

  -- A frame that the tunnel has built is never taken for a control frame.
  pub tunnel_frame-data :
      (m : Mbuf) (macs iv payload cksum : List ℕ) (epoch n : ℕ)
      → length macs ≡ 12
      → bytes m ≡ frame macs epoch n cksum iv payload
      → cb_is_ctrl_frame api m ≡ false
  tunnel_frame-data m macs iv payload cksum epoch n l e = cb_is_ctrl_frame_lem m macs 8 0 _ l e

  stamp-some :
      (m grown : Mbuf)
      → 14 ≤ length (bytes m)
      → prepend m 2 ≡ some grown
      → stamp api m
        ≡ some (
            store
              (store (store grown 0 (load m 0 14)) 14 (drop 12 (load m 0 14)))
              12
              (be16 ctrl_ethertype))
  unfolding stamp
  stamp-some m grown h p =
      let long : ltb (length (bytes m)) 14 ≡ false = ground arith in rw (long) (rw (p, stamp))

  -- With two bytes of headroom a frame gets its tag: the control EtherType behind the MAC
  -- addresses, then the frame as it was from its own EtherType on.
  pub stamp-tagged :
      (m : Mbuf)
      → 14 ≤ length (bytes m)
      → 2 ≤ headroom m
      → (m' : Mbuf) × (stamp api m ≡ some m')
        × (bytes m' ≡ take 12 (bytes m) ++ (be16 ctrl_ethertype ++ drop 12 (bytes m)))
  stamp-tagged m lb lh =
      let xs : List ℕ = bytes m in
      let p = prepend_some m 2 lh in
      let e : List ℕ = load m 0 14 in
      let eq : e ≡ take 12 xs ++ take 2 (drop 12 xs) =
        load-bytes m 0 14 lb ∙ take-take-drop 12 2 14 xs refl in
      let macs : take 12 e ≡ take 12 xs =
        ap (take 12) eq ∙ take-append 12 (take 12 xs) (take 2 (drop 12 xs)) l12 in
      let old : drop 12 e ≡ take 2 (drop 12 xs) =
        ap (drop 12) eq ∙ drop-append 12 (take 12 xs) (take 2 (drop 12 xs)) l12 in
      let l2 : length (drop 12 e) ≡ 2 = omega (arith, length-drop 12 e, length-load m 0 14) in
      let s1 = store p.after 0 e in
      let s2 = store s1 14 (drop 12 e) in
      let e1 : bytes s1 ≡ e ++ drop 14 (bytes p.after) =
        store_next api p.after 0 [] e (bytes p.after) refl refl
          (omega (arith, p.size, length-load m 0 14))
        ∙ ap (λ n. e ++ drop n (bytes p.after)) (length-load m 0 14) in
      let e2 : bytes s2 ≡ take 12 e ++ (drop 12 e ++ (drop 12 e ++ drop 14 xs)) =
        store_next api s1 14 e (drop 12 e) (drop 14 (bytes p.after)) e1 (length-load m 0 14)
          (omega (arith, l2, length-drop 14 (bytes p.after), p.size))
        ∙ ap₂ ◌++◌ (ap (λ t. t ++ drop 12 e) (sym (take-append-drop 12 e))) (
            ap (λ n. drop n (drop 14 (bytes p.after))) l2
            ∙ drop-drop 2 14 16 (bytes p.after) refl
            ∙ sym (drop-drop 14 2 16 (bytes p.after) refl)
            ∙ ap (drop 14) p.bytes_kept)
        ∙ simp append_assoc in
      (
        store s2 12 (be16 ctrl_ethertype),
        stamp-some m p.after lb p.returned,
        store_middle api s2 12 (take 12 e) (drop 12 e) (be16 ctrl_ethertype)
              (drop 12 e ++ drop 14 xs) e2 (omega (arith, length-take 12 e, length-load m 0 14)) l2
            ∙ ap₂ (λ a b. a ++ (be16 ctrl_ethertype ++ b)) macs
                (ap (λ t. t ++ drop 14 xs) old ∙ rejoin xs),
      )
    where
      l12 : length (take 12 (bytes m)) ≡ 12
      l12 = omega (arith, length-take 12 (bytes m))

  punt_case :
      (b : Bridge) (tx : Mbuf → Bool) (m cut : Mbuf)
      → b.ready ≡ true
      → 16 ≤ length (bytes m)
      → adj m 2 ≡ some cut
      → let m2 = store cut 0 (take 12 (load m 0 14) ++ load m 14 2) in
        cb_punt_to_kernel api b tx m ≡ (if tx m2 then sent b.ctrl_pid m2 else freed m2)
  unfolding cb_punt_to_kernel
  punt_case b tx m cut r h p =
      let long : ltb (length (bytes m)) 16 ≡ false = ground arith in
      rw (r, long) (rw (p, cb_punt_to_kernel))

  -- What the peer stamped is recognised, and reaches the kernel byte for byte as it left it, with the
  -- EtherType that it had (which need not be that of IPv4).
  pub bridge_round_trip :
      (b : Bridge) (tx : Mbuf → Bool) (m m' r : Mbuf)
      → b.ready ≡ true
      → 14 ≤ length (bytes m)
      → 2 ≤ headroom m
      → stamp api m ≡ some m'
      → bytes r ≡ bytes m'
      → (cb_is_ctrl_frame api r ≡ true)
        × ((k : Mbuf) × (cb_punt_to_kernel api b tx r
              ≡ (if tx k then sent b.ctrl_pid k else freed k))
            × (bytes k ≡ bytes m))
  bridge_round_trip b tx m m' r rdy lb lh st e =
      let xs : List ℕ = bytes m in
      let (s, built, laid) = stamp-tagged m lb lh in
      let same : s ≡ m' = cc in
      let wire : bytes r ≡ take 12 xs ++ (be16 ctrl_ethertype ++ drop 12 xs) =
        e ∙ ap bytes (sym same) ∙ laid in
      let l12 : length (take 12 xs) ≡ 12 = omega (arith, length-take 12 xs) in
      let size : 16 ≤ length (bytes r) = omega (
        arith,
        ap length wire,
        length-append (take 12 xs) (be16 ctrl_ethertype ++ drop 12 xs),
        length-drop 12 xs,
      ) in
      let a = adj_some r 2 (omega arith) in
      let front : load r 0 14 ≡ take 12 xs ++ be16 ctrl_ethertype =
        load_front api r 14 (take 12 xs ++ be16 ctrl_ethertype) (drop 12 xs)
          (wire ∙ sym (append_assoc (take 12 xs) (be16 ctrl_ethertype) (drop 12 xs)))
          (omega (arith, length-append (take 12 xs) (be16 ctrl_ethertype))) in
      let back : drop 14 (bytes r) ≡ drop 12 xs =
        ap (drop 14) (wire ∙ sym (append_assoc (take 12 xs) (be16 ctrl_ethertype) (drop 12 xs)))
        ∙ drop-append 14 (take 12 xs ++ be16 ctrl_ethertype) (drop 12 xs)
            (omega (arith, length-append (take 12 xs) (be16 ctrl_ethertype))) in
      let copy : take 12 (load r 0 14) ++ load r 14 2 ≡ take 12 xs ++ take 2 (drop 12 xs) =
        ap₂ ◌++◌ (ap (take 12) front ∙ take-append 12 (take 12 xs) (be16 ctrl_ethertype) l12)
          (load-bytes r 14 2 size ∙ ap (take 2) back) in
      let l14 : length (take 12 (load r 0 14) ++ load r 14 2) ≡ 14 = omega (
        arith,
        length-append (take 12 (load r 0 14)) (load r 14 2),
        length-take 12 (load r 0 14),
        length-load r 0 14,
        length-load r 14 2,
      ) in
      (
        cb_is_ctrl_frame_lem r (take 12 xs) 0x88 0xb5 (drop 12 xs) l12 wire,
        (
          store a.after 0 (take 12 (load r 0 14) ++ load r 14 2),
          punt_case b tx r a.after rdy size a.returned,
          store_next api a.after 0 [] (take 12 (load r 0 14) ++ load r 14 2) (bytes a.after) refl
                refl (omega (arith, l14, ap length a.bytes_left, length-drop 2 (bytes r)))
              ∙ ap₂ (λ t n. t ++ drop n (bytes a.after)) copy l14
              ∙ ap (λ t. (take 12 xs ++ take 2 (drop 12 xs)) ++ drop 14 t) a.bytes_left
              ∙ ap (λ t. (take 12 xs ++ take 2 (drop 12 xs)) ++ t)
                  (drop-drop 14 2 16 (bytes r) refl
                    ∙ sym (drop-drop 2 14 16 (bytes r) refl)
                    ∙ ap (drop 2) back
                    ∙ drop-drop 2 12 14 xs refl)
              ∙ append_assoc (take 12 xs) (take 2 (drop 12 xs)) (drop 14 xs)
              ∙ ap (λ t. take 12 xs ++ t) (rejoin xs)
              ∙ take-append-drop 12 xs,
        ),
      )
