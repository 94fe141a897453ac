-- ===== src/Tunnel/RoundTrip.antt =====
-- What `tunnel_encap` puts on the wire, `tunnel_decap` and the removal of the IV take off again
-- (`main (1).c`: the two functions, and the decrypt path of the receive loop).
use mathlib.Core.List.{append_assoc}
use xyz.Prelude.{
  ℕ, ◌+◌, ◌-◌, ◌%◌, ◌^◌, ◌≤◌, ◌<◌, ◌≡◌, ◌⊎◌, inl, inr, refl, sym, ap, ap₂, ◌∙◌, List, [], ◌∷◌, ◌++◌,
  length, take, drop, get_or, some, length-append, length-take, length-drop, take-append,
  drop-append, take-take-drop, dec_lt, arith,
}
use xyz.Mbuf.{MbufApi, Adjusted, Prepended}
use xyz.Tunnel.{
  ok, fail, inner, be16, ether_type_ipv4, ip_front, ip_addrs, udp_header, write_headers,
  tunnel_encap, tunnel_decap, take_iv, strip_iv, byte,
}
use xyz.Tunnel.Wire.{pair, ip_header, frame, store_next, bytes-write_headers}

module _ (api : MbufApi) where
  open api use {
    Mbuf, bytes, headroom, adj, prepend, store, load, adj_some, adj_none, prepend_some,
    prepend_none, load-bytes, length-load, headroom-store,
  }

  -- What both removals do: k bytes go at the front, an Ethernet header comes back.
  record Reframed (m : Mbuf) (k : ℕ) (eth : List ℕ) : Type 0 where
    cut : Mbuf
    cut_by : adj m k ≡ some cut
    grown : Mbuf
    grown_by : prepend cut 14 ≡ some grown
    result : bytes (store grown 0 eth) ≡ eth ++ drop k (bytes m)
    room : headroom (store grown 0 eth) + 14 ≡ headroom m + k

  reframe :
      (m : Mbuf) (k : ℕ) (eth : List ℕ)
      → length eth ≡ 14
      → 14 ≤ k
      → k ≤ length (bytes m)
      → Reframed m k eth
  reframe m k eth le lk lm = record {
    cut = a.after;
    cut_by = a.returned;
    grown = p.after;
    grown_by = p.returned;
    result =
        store_next api p.after 0 [] eth (bytes p.after) refl refl (omega (arith, p.size))
        ∙ ap (λ n. eth ++ drop n (bytes p.after)) le
        ∙ ap (λ t. eth ++ t) (p.bytes_kept ∙ a.bytes_left);
    room = omega (arith, headroom-store p.after 0 eth, p.head, a.head);
  }
    where
      a : Adjusted bytes headroom api.tailroom m k (adj m k)
      a = adj_some m k lm

      p : Prepended bytes headroom api.tailroom a.after 14 (prepend a.after 14)
      p = prepend_some a.after 14 (omega (arith, a.head))

  -- A byte at `off` of a buffer whose bytes are known in front of it.
  pub byte_at :
      (m : Mbuf) (off : ℕ) (a : List ℕ) (x : ℕ) (c : List ℕ)
      → bytes m ≡ a ++ (x ∷ c)
      → length a ≡ off
      → byte api m off ≡ x
  byte_at m off a x c e l =
      ap (λ t. get_or t 0 0)
        (load-bytes m off 1 (omega (arith, ap length e, length-append a (x ∷ c)))
          ∙ ap (λ t. take 1 (drop off t)) e
          ∙ ap (take 1) (drop-append off a (x ∷ c) l))

  pub load_front :
      (m : Mbuf) (n : ℕ) (a c : List ℕ) → bytes m ≡ a ++ c → length a ≡ n → load m 0 n ≡ a
  load_front m n a c e l =
      load-bytes m 0 n (omega (arith, ap length e, length-append a c))
      ∙ ap (take n) e
      ∙ take-append n a c l

  strip_iv-ok :
      (m cut grown : Mbuf)
      → adj m 30 ≡ some cut
      → prepend cut 14 ≡ some grown
      → strip_iv api m ≡ ok (store grown 0 (load m 0 14))
  unfolding strip_iv
  strip_iv-ok m cut grown p q = rw (p, strip_iv) (rw (q, strip_iv))

  tunnel_decap-inner :
      (m : Mbuf) (epoch : ℕ) (cut grown : Mbuf)
      → byte api m 23 ≡ 17
      → byte api m 15 ≡ epoch
      → adj m 42 ≡ some cut
      → prepend cut 14 ≡ some grown
      → tunnel_decap api m ≡ inner (store grown 0 (load m 0 14)) epoch
  unfolding tunnel_decap
  tunnel_decap-inner m epoch cut grown udp top p q = rw (udp, p, q, top)

  module _ (m : Mbuf) (macs iv payload : List ℕ) (epoch n : ℕ) (ck : ℕ × ℕ) (lm : length macs ≡ 12)
      (li : length iv ≡ 16) where
    -- Type and outer IPv4 header.
    abbrev outer : List ℕ
    outer = be16 ether_type_ipv4 ++ (ip_front epoch n ++ (pair ck ++ ip_addrs))

    -- The decrypt side finds the epoch, and the IV and the payload behind the Ethernet header.
    pub tunnel_decap-frame :
        bytes m ≡ frame macs epoch n (pair ck) iv payload
        → (m' : Mbuf) × (tunnel_decap api m ≡ inner m' epoch)
          × (bytes m' ≡ (macs ++ be16 ether_type_ipv4) ++ (iv ++ payload))
    unfolding tunnel_decap
    tunnel_decap-frame e =
        let shown = e ∙ sym (append_assoc macs (outer ++ udp_header n) (iv ++ payload)) in
        let l42 : length (macs ++ (outer ++ udp_header n)) ≡ 42 =
          omega (arith, length-append macs (outer ++ udp_header n)) in
        let front : bytes m
            ≡ (macs ++ be16 ether_type_ipv4)
              ++ (drop 2 (outer ++ udp_header n) ++ (iv ++ payload)) =
          e ∙ simp append_assoc in
        let eth =
          load_front m 14 (macs ++ be16 ether_type_ipv4) _ front
            (omega (arith, length-append macs (be16 ether_type_ipv4))) in
        let r = reframe m 42 (load m 0 14) (length-load m 0 14) (omega arith) (
          omega (
            arith,
            ap length shown,
            l42,
            length-append (macs ++ (outer ++ udp_header n)) (iv ++ payload),
          )) in
        (
          store r.grown 0 (load m 0 14),
          tunnel_decap-inner m epoch r.cut r.grown
              (byte_at m 23 (macs ++ take 11 outer) 17
                (drop 12 outer ++ (udp_header n ++ (iv ++ payload)))
                (e ∙ sym (append_assoc macs (take 11 outer) _))
                (omega (arith, length-append macs (take 11 outer))))
              (byte_at m 15 (macs ++ take 3 outer) epoch
                (drop 4 outer ++ (udp_header n ++ (iv ++ payload)))
                (e ∙ sym (append_assoc macs (take 3 outer) _))
                (omega (arith, length-append macs (take 3 outer))))
              r.cut_by r.grown_by,
          r.result
              ∙ ap₂ ◌++◌ eth (
                  ap (drop 42) shown
                  ∙ drop-append 42 (macs ++ (outer ++ udp_header n)) (iv ++ payload) l42),
        )

    pub strip_iv-frame :
        bytes m ≡ (macs ++ be16 ether_type_ipv4) ++ (iv ++ payload)
        → (m' : Mbuf) × (take_iv api m ≡ iv)
          × (strip_iv api m ≡ ok m')
          × (bytes m' ≡ (macs ++ be16 ether_type_ipv4) ++ payload)
    unfolding take_iv strip_iv
    strip_iv-frame e =
        let l14 : length (macs ++ be16 ether_type_ipv4) ≡ 14 =
          omega (arith, length-append macs (be16 ether_type_ipv4)) in
        let l30 : length ((macs ++ be16 ether_type_ipv4) ++ iv) ≡ 30 =
          omega (arith, length-append (macs ++ be16 ether_type_ipv4) iv) in
        let shown = e ∙ sym (append_assoc (macs ++ be16 ether_type_ipv4) iv payload) in
        let eth = load_front m 14 (macs ++ be16 ether_type_ipv4) (iv ++ payload) e l14 in
        let big : 30 ≤ length (bytes m) = omega (
          arith,
          ap length shown,
          l30,
          length-append ((macs ++ be16 ether_type_ipv4) ++ iv) payload,
        ) in
        let r = reframe m 30 (load m 0 14) (length-load m 0 14) (omega arith) big in
        (
          store r.grown 0 (load m 0 14),
          load-bytes m 14 16 big
              ∙ ap (λ t. take 16 (drop 14 t)) e
              ∙ ap (take 16) (drop-append 14 (macs ++ be16 ether_type_ipv4) (iv ++ payload) l14)
              ∙ take-append 16 iv payload li,
          strip_iv-ok m r.cut r.grown r.cut_by r.grown_by,
          r.result
              ∙ ap₂ ◌++◌ eth (
                  ap (drop 30) shown
                  ∙ drop-append 30 ((macs ++ be16 ether_type_ipv4) ++ iv) payload l30),
        )

take_split : (xs : List ℕ) → take 14 xs ≡ take 12 xs ++ take 2 (drop 12 xs)
take_split xs = take-take-drop 12 2 14 xs refl

module _ (api : MbufApi) (ipv4_cksum : List ℕ → ℕ × ℕ) where
  open api use {
    Mbuf, bytes, headroom, adj, prepend, store, load, adj_some, adj_none, prepend_some,
    prepend_none, load-bytes,
  }

  tunnel_encap-ok :
      (m : Mbuf) (iv : List ℕ) (epoch : ℕ) (cut grown : Mbuf)
      → adj m 14 ≡ some cut
      → prepend cut 58 ≡ some grown
      → tunnel_encap api ipv4_cksum m iv epoch
        ≡ ok (
            write_headers api ipv4_cksum grown (load m 0 14) (length (bytes cut) % 2 ^ 16) iv epoch)
  unfolding tunnel_encap
  tunnel_encap-ok m iv epoch cut grown p q = rw (p, tunnel_encap) (rw (q, tunnel_encap))

  -- The length that goes into the headers: a `uint16_t`.
  abbrev pub inner_len : Mbuf → ℕ
  inner_len m = (length (bytes m) - 14) % 2 ^ 16

  -- With an Ethernet header to move and 44 bytes of headroom, `tunnel_encap` returns 0 and leaves
  -- the frame of the wire format: MAC addresses, EtherType, outer IPv4 header with the epoch in
  -- its TOS byte and the checksum of the header with a zero checksum field, UDP header, IV, payload.
  pub tunnel_encap-frame :
      (m : Mbuf) (iv : List ℕ) (epoch : ℕ)
      → 14 ≤ length (bytes m)
      → 44 ≤ headroom m
      → length iv ≡ 16
      → (m' : Mbuf) × (tunnel_encap api ipv4_cksum m iv epoch ≡ ok m')
        × (bytes m'
            ≡ frame
                (take 12 (bytes m))
                epoch
                (inner_len m)
                (pair (ipv4_cksum (ip_header epoch (inner_len m))))
                iv
                (drop 14 (bytes m)))
  tunnel_encap-frame m iv epoch lb lh li =
      let a = adj_some m 14 lb in
      let p = prepend_some a.after 58 (omega (arith, a.head)) in
      let n : length (bytes a.after) % 2 ^ 16 ≡ inner_len m =
        ap (λ k. k % 2 ^ 16) (ap length a.bytes_left ∙ length-drop 14 (bytes m)) in
      let eth : load m 0 14 ≡ take 12 (bytes m) ++ take 2 (drop 12 (bytes m)) =
        load-bytes m 0 14 lb ∙ take_split (bytes m) in
      (
        write_headers api ipv4_cksum p.after (load m 0 14) (length (bytes a.after) % 2 ^ 16) iv
            epoch,
        tunnel_encap-ok m iv epoch a.after p.after a.returned p.returned,
        ap₂ (λ e k. bytes (write_headers api ipv4_cksum p.after e k iv epoch)) eth n
            ∙ bytes-write_headers api ipv4_cksum p.after (take 12 (bytes m))
                (take 2 (drop 12 (bytes m))) iv (inner_len m) epoch
                (omega (arith, length-take 12 (bytes m)))
                (omega (arith, length-take 2 (drop 12 (bytes m)), length-drop 12 (bytes m))) li
                (omega (arith, p.size))
            ∙ ap
                (frame (take 12 (bytes m)) epoch (inner_len m)
                  (pair (ipv4_cksum (ip_header epoch (inner_len m)))) iv)
                (p.bytes_kept ∙ a.bytes_left),
      )

  -- Without either, it returns -1: a short buffer is left as it was, and one with too little
  -- headroom has lost its Ethernet header.
  pub tunnel_encap-fail :
      (m : Mbuf) (iv : List ℕ) (epoch : ℕ)
      → (length (bytes m) < 14) ⊎ (headroom m < 44)
      → (m' : Mbuf) × (tunnel_encap api ipv4_cksum m iv epoch ≡ fail m')
        × ((m' ≡ m) ⊎ (bytes m' ≡ drop 14 (bytes m)))
  unfolding tunnel_encap
  tunnel_encap-fail m iv epoch h = elim (dec_lt (length (bytes m)) 14) [
    | yes short ↦ (m, rw (adj_none m 14 short, tunnel_encap), inl refl)
    | no long ↦
        let a = adj_some m 14 (omega arith) in
        (
          a.after,
          rw (a.returned, tunnel_encap)
              (rw (prepend_none a.after 58 (omega (arith, a.head)), tunnel_encap)),
          inr a.bytes_left,
        )
  ]

  -- The round trip: a frame that `tunnel_encap` has built, received in any buffer `r`, gives
  -- `tunnel_decap` the epoch, and after it the IV and the removal of the IV give the IV and the
  -- payload of the sender, behind the sender's MAC addresses and the IPv4 EtherType.
  pub tunnel_round_trip :
      (m m' r : Mbuf) (iv : List ℕ) (epoch : ℕ)
      → 14 ≤ length (bytes m)
      → 44 ≤ headroom m
      → length iv ≡ 16
      → tunnel_encap api ipv4_cksum m iv epoch ≡ ok m'
      → bytes r ≡ bytes m'
      → (r1 : Mbuf) × (r2 : Mbuf) × (tunnel_decap api r ≡ inner r1 epoch)
        × (take_iv api r1 ≡ iv)
        × (strip_iv api r1 ≡ ok r2)
        × (bytes r2 ≡ (take 12 (bytes m) ++ be16 ether_type_ipv4) ++ drop 14 (bytes m))
  tunnel_round_trip m m' r iv epoch lb lh li sent e =
      let (s, built, laid) = tunnel_encap-frame m iv epoch lb lh li in
      let same : s ≡ m' = cc in
      let l12 : length (take 12 (bytes m)) ≡ 12 = omega (arith, length-take 12 (bytes m)) in
      let ck = ipv4_cksum (ip_header epoch (inner_len m)) in
      let (r1, d, b1) =
        tunnel_decap-frame api r (take 12 (bytes m)) iv (drop 14 (bytes m)) epoch (inner_len m) ck
          l12 li (e ∙ ap bytes (sym same) ∙ laid) in
      let (r2, t, s2, b2) =
        strip_iv-frame api r1 (take 12 (bytes m)) iv (drop 14 (bytes m)) epoch (inner_len m) ck l12
          li b1 in
      (r1, r2, d, t, s2, b2)
