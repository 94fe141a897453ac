-- ===== src/Tunnel/Wire.antt =====
-- Writes into a buffer whose bytes are known, and the frame that `tunnel_encap` lays out.
use mathlib.Core.List.{append_assoc}
use xyz.Prelude.{
  ℕ, ◌≤◌, ◌≡◌, refl, sym, ap, ◌∙◌, List, [], ◌∷◌, ◌++◌, length, take, drop, length-append,
  length-take, length-drop, take-append-drop, take_all, drop-append, drop-drop, arith,
}
use xyz.Mbuf.{MbufApi}
use xyz.Mbuf.Splice.{splice_middle}
use xyz.Tunnel.{be16, ether_type_ipv4, ip_front, ip_addrs, udp_header, store_cksum, write_headers}

module _ (api : MbufApi) where
  open api use {Mbuf, bytes, store, bytes-store}

  -- A write over `b` between `a` and `c`.
  pub store_middle :
      (m : Mbuf) (off : ℕ) (a b bs c : List ℕ)
      → bytes m ≡ a ++ (b ++ c)
      → length a ≡ off
      → length b ≡ length bs
      → bytes (store m off bs) ≡ a ++ (bs ++ c)
  store_middle m off a b bs c e la lb =
      bytes-store m off bs (omega (arith, ap length e, length-append a (b ++ c), length-append b c))
      ∙ splice_middle off a b bs c (bytes m) e la lb

  -- A write that goes on behind `p`.
  pub store_next :
      (m : Mbuf) (off : ℕ) (p bs g : List ℕ)
      → bytes m ≡ p ++ g
      → length p ≡ off
      → length bs ≤ length g
      → bytes (store m off bs) ≡ (p ++ bs) ++ drop (length bs) g
  store_next m off p bs g e lp le =
      store_middle m off p (take (length bs) g) bs (drop (length bs) g)
        (e ∙ ap (λ t. p ++ t) (sym (take-append-drop (length bs) g))) lp
        (omega (arith, length-take (length bs) g))
      ∙ sym (append_assoc p bs (drop (length bs) g))

-- The two bytes of a checksum.
abbrev pub pair : ℕ × ℕ → List ℕ
pair (a, b) = a ∷ b ∷ []

-- The outer header that the checksum is computed over.
abbrev pub ip_header : ℕ → ℕ → List ℕ
ip_header epoch n = ip_front epoch n ++ (0 ∷ 0 ∷ ip_addrs)

-- The frame on the wire.
abbrev pub frame : List ℕ → ℕ → ℕ → List ℕ → List ℕ → List ℕ → List ℕ
frame macs epoch n cksum iv payload =
    macs
    ++ (be16 ether_type_ipv4
        ++ (ip_front epoch n ++ (cksum ++ (ip_addrs ++ (udp_header n ++ (iv ++ payload))))))

module _ (api : MbufApi) (n epoch : ℕ) (macs : List ℕ) (l_macs : length macs ≡ 12) where
  open api use {Mbuf, bytes, store, load, load-bytes}

  abbrev eth_part : List ℕ
  eth_part = macs ++ be16 ether_type_ipv4

  length-eth_part : length eth_part ≡ 14
  length-eth_part = omega (arith, length-append macs (be16 ether_type_ipv4))

  -- The IPv4 header goes behind the Ethernet header, and the checksum reads just it.
  ip_stage :
      (m : Mbuf) (g : List ℕ)
      → bytes m ≡ eth_part ++ g
      → 20 ≤ length g
      → (load (store m 14 (ip_header epoch n)) 14 20 ≡ ip_header epoch n)
        × (bytes (store m 14 (ip_header epoch n)) ≡ (eth_part ++ ip_header epoch n) ++ drop 20 g)
  ip_stage m g e lg =
      let after =
        store_next api m 14 eth_part (ip_header epoch n) g e length-eth_part (omega arith) in
      let flat = after ∙ append_assoc eth_part (ip_header epoch n) (drop 20 g) in
      (
        load-bytes (store m 14 (ip_header epoch n)) 14 20 (
              omega (
                arith,
                ap length flat,
                length-append eth_part (ip_header epoch n ++ drop 20 g),
                length-eth_part,
              ))
            ∙ ap (λ t. take 20 (drop 14 t)) flat
            ∙ ap (take 20)
                (drop-append 14 eth_part (ip_header epoch n ++ drop 20 g) length-eth_part),
        after,
      )

  -- The checksum replaces the two zeros.
  cksum_stage :
      (m : Mbuf) (ck : List ℕ) (g : List ℕ)
      → length ck ≡ 2
      → bytes m ≡ (eth_part ++ ip_header epoch n) ++ g
      → bytes (store m 24 ck) ≡ ((eth_part ++ ip_front epoch n) ++ (ck ++ ip_addrs)) ++ g
  cksum_stage m ck g l e =
      store_middle api m 24 (eth_part ++ ip_front epoch n) (0 ∷ 0 ∷ []) ck (ip_addrs ++ g)
        (e ∙ simp append_assoc)
        (omega (arith, length-append eth_part (ip_front epoch n), length-eth_part)) (omega arith)
      ∙ simp append_assoc

  -- UDP header and IV follow.
  tail_stage :
      (m : Mbuf) (ck iv g : List ℕ)
      → length ck ≡ 2
      → length iv ≡ 16
      → 24 ≤ length g
      → bytes m ≡ ((eth_part ++ ip_front epoch n) ++ (ck ++ ip_addrs)) ++ g
      → bytes (store (store m 34 (udp_header n)) 42 iv) ≡ frame macs epoch n ck iv (drop 24 g)
  tail_stage m ck iv g lc li lg e =
      store_next api (store m 34 (udp_header n)) 42 (p34 ++ udp_header n) iv (drop 8 g)
        (store_next api m 34 p34 (udp_header n) g e l34 (omega arith))
        (omega (arith, length-append p34 (udp_header n), l34)) (omega (arith, length-drop 8 g))
      ∙ ap (λ t. ((p34 ++ udp_header n) ++ iv) ++ t)
          (ap (λ k. drop k (drop 8 g)) li ∙ drop-drop 16 8 24 g refl)
      ∙ simp append_assoc
    where
      p34 : List ℕ
      p34 = (eth_part ++ ip_front epoch n) ++ (ck ++ ip_addrs)

      l34 : length p34 ≡ 34
      l34 = omega (
        arith,
        length-append (eth_part ++ ip_front epoch n) (ck ++ ip_addrs),
        length-append eth_part (ip_front epoch n),
        length-append ck ip_addrs,
        length-eth_part,
      )

-- `write_headers` overwrites the 58 new bytes, and keeps what is behind them.
module _ (api : MbufApi) (ipv4_cksum : List ℕ → ℕ × ℕ) where
  open api use {Mbuf, bytes, store, load}

  pub bytes-write_headers :
      (m : Mbuf) (macs old iv : List ℕ) (n epoch : ℕ)
      → length macs ≡ 12
      → length old ≡ 2
      → length iv ≡ 16
      → 58 ≤ length (bytes m)
      → bytes (write_headers api ipv4_cksum m (macs ++ old) n iv epoch)
        ≡ frame macs epoch n (pair (ipv4_cksum (ip_header epoch n))) iv (drop 58 (bytes m))
  unfolding write_headers store_cksum
  bytes-write_headers m macs old iv n epoch lm lo li lb =
      let b : List ℕ = bytes m in
      let l14 : length (macs ++ old) ≡ 14 = omega (arith, length-append macs old) in
      let m1 = store m 0 (macs ++ old) in
      let m2 = store m1 12 (be16 ether_type_ipv4) in
      let m3 = store m2 14 (ip_header epoch n) in
      let ck = ipv4_cksum (load m3 14 20) in
      let e1 : bytes m1 ≡ macs ++ (old ++ drop 14 b) =
        store_next api m 0 [] (macs ++ old) b refl refl (omega (arith, length-append macs old))
        ∙ ap (λ k. (macs ++ old) ++ drop k b) l14
        ∙ append_assoc macs old (drop 14 b) in
      let e2 : bytes m2 ≡ (macs ++ be16 ether_type_ipv4) ++ drop 14 b =
        store_middle api m1 12 macs old (be16 ether_type_ipv4) (drop 14 b) e1 lm lo
        ∙ sym (append_assoc macs (be16 ether_type_ipv4) (drop 14 b)) in
      let e3 = ip_stage api n epoch macs lm m2 (drop 14 b) e2 (omega (arith, length-drop 14 b)) in
      let e4 = cksum_stage api n epoch macs lm m3 (pair ck) (drop 20 (drop 14 b)) refl e3.1 in
      tail_stage api n epoch macs lm (store m3 24 (pair ck)) (pair ck) (take 16 iv)
        (drop 20 (drop 14 b)) refl (omega (arith, length-take 16 iv))
        (omega (arith, length-drop 20 (drop 14 b), length-drop 14 b)) e4
      ∙ rw
          (e3.0, take_all 16 iv (omega arith), drop-drop 20 14 34 b refl, drop-drop 24 34 58 b refl)
