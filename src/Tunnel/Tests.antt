-- ===== src/Tunnel/Tests.antt =====
-- The tunnel on concrete buffers.
use xyz.Prelude.{ℕ, ◌≡◌, refl, List, [], ◌∷◌, ◌++◌, take, drop, length, replicate, arith}
use xyz.Mbuf.Splice.{splice}
use xyz.Mbuf.Array.{Packet, packets}
use xyz.Tunnel.{
  Status, ok, fail, inner, rejected, be16, ether_type_ipv4, store_cksum, write_headers,
  tunnel_encap, tunnel_decap, take_iv, strip_iv,
}
use xyz.Tunnel.Wire.{frame, pair, ip_header}
use xyz.Tunnel.RoundTrip.{inner_len, tunnel_encap-frame, tunnel_round_trip}

abbrev cksum : List ℕ → ℕ × ℕ
cksum h = (length h, 7)

abbrev iv : List ℕ
iv = 1 ∷ 2 ∷ 3 ∷ 4 ∷ 5 ∷ 6 ∷ 7 ∷ 8 ∷ 9 ∷ 10 ∷ 11 ∷ 12 ∷ 13 ∷ 14 ∷ 15 ∷ 16 ∷ []

abbrev payload : List ℕ
payload = 0x45 ∷ 0 ∷ 0 ∷ 28 ∷ 99 ∷ []

abbrev plain : Packet
plain = record {
  front = replicate 64 0;
  bytes = replicate 12 2 ++ (0x86 ∷ 0xdd ∷ payload);
  back = replicate 16 0;
}

abbrev buffer : Status Packet → Packet
buffer (ok m) = m
buffer (fail m) = m

abbrev on_wire : Packet
on_wire = buffer (tunnel_encap packets cksum plain iv 3)

encap_runs : tunnel_encap packets cksum plain iv 3 ≡ ok on_wire
unfolding tunnel_encap write_headers store_cksum splice
encap_runs = refl

-- The same bytes in a buffer of the peer.
abbrev received : Packet
received = record { front = []; bytes = on_wire.bytes; back = [] }

-- Inner length 5, so the total length is 49 and the UDP length 29.
encap_bytes :
    on_wire.bytes
    ≡ replicate 12 2
      ++ (8
          ∷ 0
          ∷ 0x45
          ∷ 3
          ∷ 0
          ∷ 49
          ∷ 0
          ∷ 0
          ∷ 0x40
          ∷ 0
          ∷ 64
          ∷ 17
          ∷ 20
          ∷ 7
          ∷ 10
          ∷ 0
          ∷ 0
          ∷ 1
          ∷ 10
          ∷ 0
          ∷ 0
          ∷ 2
          ∷ 6
          ∷ 165
          ∷ 6
          ∷ 165
          ∷ 0
          ∷ 29
          ∷ 0
          ∷ 0
          ∷ (iv ++ payload))
unfolding encap_runs
encap_bytes = refl

not_udp : tunnel_decap packets plain ≡ rejected plain
unfolding tunnel_decap
not_udp = refl

tunnel_encap-frame_example :
    (m' : Packet) × (tunnel_encap packets cksum plain iv 3 ≡ ok m')
    × (m'.bytes
        ≡ frame
            (take 12 plain.bytes)
            3
            (inner_len packets cksum plain)
            (pair (cksum (ip_header 3 (inner_len packets cksum plain))))
            iv
            (drop 14 plain.bytes))
tunnel_encap-frame_example =
    tunnel_encap-frame packets cksum plain iv 3 (omega arith) (omega arith) refl

tunnel_round_trip_example :
    (r1 : Packet) × (r2 : Packet) × (tunnel_decap packets received ≡ inner r1 3)
    × (take_iv packets r1 ≡ iv)
    × (strip_iv packets r1 ≡ ok r2)
    × (r2.bytes ≡ (take 12 plain.bytes ++ be16 ether_type_ipv4) ++ drop 14 plain.bytes)
tunnel_round_trip_example =
    tunnel_round_trip packets cksum plain on_wire received iv 3 (omega arith) (omega arith) refl
      encap_runs refl
