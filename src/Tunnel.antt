-- ===== src/Tunnel.antt =====
-- Tunnel encapsulation of `main (1).c`: `tunnel_encap` (encrypt side), `tunnel_decap` and the
-- removal of the IV in the receive loop (decrypt side), over the buffer interface.
pub mod Wire
pub mod RoundTrip
mod Tests
use xyz.Prelude.{
  ℕ, ◌+◌, ◌/◌, ◌%◌, ◌^◌, List, [], ◌∷◌, ◌++◌, Option, none, some, length, take, get_or, ◌==◌,
  if◌then◌else◌,
}
use xyz.Mbuf.{MbufApi}

abbrev pub eth_len : ℕ
eth_len = 14

abbrev pub ip_len : ℕ
ip_len = 20

abbrev pub udp_len : ℕ
udp_len = 8

abbrev pub iv_in_packet_size : ℕ
iv_in_packet_size = 16

abbrev pub ether_type_ipv4 : ℕ
ether_type_ipv4 = 0x0800

abbrev pub ipproto_udp : ℕ
ipproto_udp = 17

abbrev pub tunnel_ttl : ℕ
tunnel_ttl = 64

abbrev pub tunnel_udp_port : ℕ
tunnel_udp_port = 1701

-- A 16-bit field in network byte order; the conversion to `uint16_t` drops higher bits.
abbrev pub be16 : ℕ → List ℕ
be16 x = (x / 256 % 256) ∷ (x % 256) ∷ []

-- The status 0 or -1 of a call, with the buffer that it leaves.
pub data Status (M : Type 0) : Type 0 where
  ok : M → Status M
  fail : M → Status M

-- `tunnel_decap` hands out the epoch too.
pub data Decapped (M : Type 0) : Type 0 where
  inner : M → ℕ → Decapped M
  rejected : M → Decapped M

-- The outer IPv4 header up to the checksum, and behind it.
abbrev pub ip_front : ℕ → ℕ → List ℕ
ip_front epoch inner_len =
    0x45 ∷ epoch ∷ be16 (ip_len + udp_len + iv_in_packet_size + inner_len)
    ++ (0 ∷ 0 ∷ be16 0x4000 ++ (tunnel_ttl ∷ ipproto_udp ∷ []))

abbrev pub ip_addrs : List ℕ
ip_addrs = 10 ∷ 0 ∷ 0 ∷ 1 ∷ 10 ∷ 0 ∷ 0 ∷ 2 ∷ []

abbrev pub udp_header : ℕ → List ℕ
udp_header inner_len =
    be16 tunnel_udp_port
    ++ (be16 tunnel_udp_port ++ (be16 (udp_len + iv_in_packet_size + inner_len) ++ (0 ∷ 0 ∷ [])))

-- `ipv4_cksum` stands for `rte_ipv4_cksum`: the two bytes that it puts in the header.
module _ (api : MbufApi) (ipv4_cksum : List ℕ → ℕ × ℕ) where
  open api use {Mbuf, bytes, adj, prepend, load, store}

  pub store_cksum : Mbuf → ℕ × ℕ → Mbuf
  store_cksum m (a, b) = store m 24 (a ∷ b ∷ [])

  -- What is written once the 58 bytes are there.
  pub write_headers : Mbuf → List ℕ → ℕ → List ℕ → ℕ → Mbuf
  unfolding store_cksum
  write_headers m eth inner_len iv epoch =
      let m1 = store m 0 eth in
      let m2 = store m1 12 (be16 ether_type_ipv4) in
      let m3 = store m2 14 (ip_front epoch inner_len ++ (0 ∷ 0 ∷ ip_addrs)) in
      let m4 = store_cksum m3 (ipv4_cksum (load m3 14 20)) in
      let m5 = store m4 34 (udp_header inner_len) in store m5 42 (take iv_in_packet_size iv)

  pub tunnel_encap : Mbuf → List ℕ → ℕ → Status Mbuf
  unfolding write_headers
  tunnel_encap m iv epoch =
      let eth = load m 0 eth_len in
      elim (adj m eth_len) [
        | none ↦ fail m
        | some m1 ↦
            let inner_len = length (bytes m1) % 2 ^ 16 in
            elim (prepend m1 (eth_len + ip_len + udp_len + iv_in_packet_size)) [
              | none ↦ fail m1
              | some m2 ↦ ok (write_headers m2 eth inner_len iv epoch)
            ]
      ]

module _ (api : MbufApi) where
  open api use {Mbuf, bytes, adj, prepend, load, store}

  abbrev pub byte : Mbuf → ℕ → ℕ
  byte m off = get_or (load m off 1) 0 0

  unfoldable pub tunnel_decap : Mbuf → Decapped Mbuf
  tunnel_decap m =
      if byte m (eth_len + 9) == ipproto_udp
      then (let epoch = byte m (eth_len + 1) in
          let eth = load m 0 eth_len in
          elim (adj m (eth_len + ip_len + udp_len)) [
            | none ↦ rejected m
            | some m1 ↦ elim (prepend m1 eth_len) [
              | none ↦ rejected m1
              | some m2 ↦ inner (store m2 0 eth) epoch
            ]
          ])
      else rejected m

  -- Extract the IV behind the Ethernet header, then close the gap.
  unfoldable pub take_iv : Mbuf → List ℕ
  take_iv m = load m eth_len iv_in_packet_size

  unfoldable pub strip_iv : Mbuf → Status Mbuf
  strip_iv m =
      let eth = load m 0 eth_len in
      elim (adj m (eth_len + iv_in_packet_size)) [
        | none ↦ fail m
        | some m1 ↦ elim (prepend m1 eth_len) [ none ↦ fail m1 | some m2 ↦ ok (store m2 0 eth) ]
      ]
