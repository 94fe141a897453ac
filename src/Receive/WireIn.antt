-- ===== src/Receive/WireIn.antt =====
-- A packet of the peer's tunnel on the WAN port.
use xyz.Prelude.{
  ℕ, ◌+◌, ◌≤◌, ◌≡◌, ◌⊎◌, inl, inr, refl, sym, ap, ◌∙◌, true, false, ltb, ◌==◌, some, List, [], ◌∷◌,
  ◌++◌, length, take, drop, length-take, length-append, drop-append, Bool-cases, arith,
}
use xyz.Mbuf.{MbufApi}
use xyz.Tunnel.{ok, be16, ether_type_ipv4, tunnel_encap, take_iv, strip_iv}
use xyz.Tunnel.RoundTrip.{tunnel_encap-frame, tunnel_round_trip}
use xyz.Bridge.{cb_is_ctrl_frame}
use xyz.Receive.{
  Stats, enqueued, Tables, stripped, decapped, on_decap, receive_wan, is_arp, receive_packet,
  count_64,
}

module _ (api : MbufApi) where
  open api use {Mbuf, bytes, headroom, load, load-bytes}

  -- The EtherType of a frame that starts with two addresses and IPv4.
  load_type :
      (r : Mbuf) (macs rest : List ℕ)
      → length macs ≡ 12
      → bytes r ≡ macs ++ (8 ∷ (0 ∷ rest))
      → load r 12 2 ≡ 8 ∷ (0 ∷ [])
  load_type r macs rest l e =
      let long : 12 + 2 ≤ length (bytes r) =
        omega (arith, ap length e, length-append macs (8 ∷ (0 ∷ rest))) in
      load-bytes r 12 2 long
      ∙ ap (λ b. take 2 (drop 12 b)) e
      ∙ ap (take 2) (drop-append 12 macs (8 ∷ (0 ∷ rest)) l)

  Known : Tables Mbuf → ℕ → Type 0
  Known t epoch = (t.has_session epoch ≡ true) ⊎ (t.epoch_cur ≡ epoch)

  decapped-Known :
      (t : Tables Mbuf) (s : Stats) (m : Mbuf) (epoch : ℕ)
      → Known t epoch
      → decapped api t s m epoch ≡ (
        record s { pkts_decrypted = count_64 (s.pkts_decrypted + 1); cur_epoch = epoch },
        stripped api (strip_iv api m) (take_iv api m) epoch,
      )
  unfolding decapped Known
  decapped-Known t s m epoch (inl has) = rw has refl
  decapped-Known t s m epoch (inr current) =
      let same : (t.epoch_cur == epoch) ≡ true = ground arith in
      elim (Bool-cases (t.has_session epoch)) [
        | inl has ↦ rw has refl
        | inr has_not ↦ rw (has_not, same) refl
      ]

  not_control : (r : Mbuf) → load r 12 2 ≡ 8 ∷ (0 ∷ []) → cb_is_ctrl_frame api r ≡ false
  unfolding cb_is_ctrl_frame
  not_control r e = elim (Bool-cases (ltb (length (bytes r)) 14)) [
    | inl short ↦ rw short refl
    | inr long ↦ rw (long, e) refl
  ]

  not_arp : (r : Mbuf) → load r 12 2 ≡ 8 ∷ (0 ∷ []) → is_arp api r ≡ false
  unfolding is_arp
  not_arp r e = rw e refl

  -- A frame that the peer's `tunnel_encap` has built, received on the WAN port in any buffer, with an
  -- epoch that the device has a session for: one packet is counted and one call is made. It enqueues a
  -- buffer with the sender's addresses and payload, with the sender's IV and epoch.
  pub receive_packet-tunnel_encap :
      (ipv4_cksum : List ℕ → ℕ × ℕ) (t : Tables Mbuf) (s : Stats) (m m' r : Mbuf) (iv : List ℕ)
      (epoch : ℕ)
      → 14 ≤ length (bytes m)
      → 44 ≤ headroom m
      → length iv ≡ 16
      → tunnel_encap api ipv4_cksum m iv epoch ≡ ok m'
      → bytes r ≡ bytes m'
      → (t.has_session epoch ≡ true) ⊎ (t.epoch_cur ≡ epoch)
      → (r2 : Mbuf) × (receive_packet api t 1 s r ≡ (
        record s { pkts_decrypted = count_64 (s.pkts_decrypted + 1); cur_epoch = epoch },
        enqueued r2 (some iv) epoch ∷ [],
      ))
        × (bytes r2 ≡ (take 12 (bytes m) ++ be16 ether_type_ipv4) ++ drop 14 (bytes m))
  unfolding receive_packet receive_wan on_decap stripped Known
  receive_packet-tunnel_encap ipv4_cksum t s m m' r iv epoch lb lh li encapped same_bytes has =
      let (built, runs, laid) = tunnel_encap-frame api ipv4_cksum m iv epoch lb lh li in
      let same : built ≡ m' = cc in
      let (r1, r2, decap, iv_there, strip, payload) =
        tunnel_round_trip api ipv4_cksum m m' r iv epoch lb lh li encapped same_bytes in
      let l12 : length (take 12 (bytes m)) ≡ 12 = omega (arith, length-take 12 (bytes m)) in
      let type = load_type r (take 12 (bytes m)) _ l12 (same_bytes ∙ ap bytes (sym same) ∙ laid) in
      (
        r2,
        rw
            (
              not_arp r type,
              not_control r type,
              decap,
              decapped-Known t s r1 epoch has,
              strip,
              iv_there,
            )
            refl,
        payload,
      )
