-- ===== src/Padding.antt =====
-- `l2fwd_simple_crypto_enqueue` and `l2fwd_simple_forward` of `main (1).c`: padding and the fields of
-- a crypto operation on the way in, the removal of digest and padding on the way out. The session
-- table and the random IV are arguments.
pub mod Enqueue
pub mod RoundTrip
mod Tests
use xyz.Prelude.{
  ℕ, ◌+◌, ◌-◌, ◌*◌, ◌%◌, ◌^◌, Bool, true, false, not, ◌&&◌, ◌||◌, List, [], ◌∷◌, ◌++◌, Option, none,
  some, length, take, replicate, ◌==◌, ltb, if◌then◌else◌,
}
use xyz.Mbuf.{MbufApi}
use xyz.Tunnel.{Status, ok, fail, tunnel_encap, byte, eth_len, iv_in_packet_size}

-- The cipher algorithms that the code names.
pub data CipherAlgo : Type 0 where
  aes_cbc : CipherAlgo
  aes_ecb : CipherAlgo
  des_cbc : CipherAlgo
  triple_des_cbc : CipherAlgo
  triple_des_ecb : CipherAlgo
  aes_xts : CipherAlgo
  snow3g_uea2 : CipherAlgo
  kasumi_f8 : CipherAlgo
  zuc_eea3 : CipherAlgo
  other_cipher : CipherAlgo

-- The fields of `struct l2fwd_crypto_params` that the function reads. `bits` is whether the
-- authentication algorithm is SNOW3G UIA2, KASUMI F9 or ZUC EIA3, `ccm` whether the AEAD algorithm is
-- AES CCM.
pub record Params (S : Type 0) : Type 0 where
  pub do_cipher : Bool
  pub do_hash : Bool
  pub do_aead : Bool
  pub hash_verify : Bool
  pub is_encrypt : Bool
  pub digest_length : ℕ
  pub block_size : ℕ
  pub cipher_dataunit_len : ℕ
  pub cipher_algo : CipherAlgo
  pub bits : Bool
  pub ccm : Bool
  pub cipher_iv_length : ℕ
  pub auth_iv : List ℕ
  pub aead_iv : List ℕ
  pub aad : List ℕ
  pub session : S

-- What is set in a crypto operation. `iv_writes` are the writes behind IV_OFFSET, each with its
-- offset; a digest is its offset from `mtod`, none is NULL.
pub record CryptoOp (S : Type 0) : Type 0 where
  pub session : S
  pub iv_writes : List (ℕ × List ℕ)
  pub cipher_data : Option (ℕ × ℕ)
  pub auth_data : Option (ℕ × ℕ)
  pub auth_digest : Option ℕ
  pub auth_digest_iova : ℕ
  pub aead_data : Option (ℕ × ℕ)
  pub aead_digest : Option ℕ
  pub aead_digest_iova : ℕ
  pub aead_aad : List ℕ

abbrev word : ℕ → ℕ
word x = x % 2 ^ 32

-- The bytes up to the next multiple of `unit`.
abbrev pub up_to : ℕ → ℕ → ℕ
up_to unit data_len = if data_len % unit == 0 then 0 else unit - data_len % unit

abbrev pub blocks : {S : Type 0} → Params S → ℕ → ℕ
blocks c data_len = up_to c.block_size data_len

abbrev pub data_units : {S : Type 0} → Params S → ℕ → ℕ
data_units c data_len =
    if c.cipher_dataunit_len == 0 then 0 else up_to c.cipher_dataunit_len data_len

pub pad_len : {S : Type 0} → CipherAlgo → Params S → ℕ → ℕ
pad_len aes_cbc c n = blocks c n
pad_len aes_ecb c n = blocks c n
pad_len des_cbc c n = blocks c n
pad_len triple_des_cbc c n = blocks c n
pad_len triple_des_ecb c n = blocks c n
pad_len aes_xts c n = data_units c n
pad_len snow3g_uea2 c n = 0
pad_len kasumi_f8 c n = 0
pad_len zuc_eea3 c n = 0
pad_len other_cipher c n = 0

-- Offset and length in bits for the three stream ciphers, else in bytes.
pub cipher_range : CipherAlgo → ℕ → ℕ × ℕ
cipher_range snow3g_uea2 n = (eth_len * 8, word (n * 8))
cipher_range kasumi_f8 n = (eth_len * 8, word (n * 8))
cipher_range zuc_eea3 n = (eth_len * 8, word (n * 8))
cipher_range aes_cbc n = (eth_len, n)
cipher_range aes_ecb n = (eth_len, n)
cipher_range des_cbc n = (eth_len, n)
cipher_range triple_des_cbc n = (eth_len, n)
cipher_range triple_des_ecb n = (eth_len, n)
cipher_range aes_xts n = (eth_len, n)
cipher_range other_cipher n = (eth_len, n)

-- Where `l2fwd_simple_forward` leaves a buffer: handed to `l2fwd_send_packet`, or nowhere.
pub data Forwarded (M : Type 0) : Type 0 where
  queued : M → ℕ → Forwarded M
  lost : M → Forwarded M

module _ (api : MbufApi) {S : Type 0} (c : Params S) where
  open api use {Mbuf, bytes, append, store}

  -- The bytes that the operation covers, before padding; `pkt_len` is at least the Ethernet header.
  pub covered : ℕ → ℕ
  covered pkt_len =
      if (c.do_hash || c.do_aead) && c.hash_verify
      then word (pkt_len - eth_len + 2 ^ 32 - c.digest_length)
      else pkt_len - eth_len

  -- The padding is zero; none when the buffer has no room for it.
  pub add_padding : Mbuf → ℕ → ℕ → Option (Mbuf × ℕ)
  add_padding m data_len pad = if pad == 0 then some (m, data_len) else elim (append m pad) [
    | none ↦ none
    | some m1 ↦ some (store m1 (length (bytes m)) (replicate pad 0), word (data_len + pad))
  ]

  pub pad : Mbuf → ℕ → Option (Mbuf × ℕ)
  unfolding add_padding
  pad m data_len =
      if c.do_cipher
      then add_padding m data_len (pad_len c.cipher_algo c data_len)
      else some (m, data_len)

  -- Room for a digest at the end, or the place where the received one stands.
  pub digest : Mbuf → ℕ → Mbuf × Option ℕ
  digest m data_len =
      if c.hash_verify then (m, some (eth_len + data_len)) else elim (append m c.digest_length) [
        | none ↦ (m, none)
        | some m1 ↦ (m1, some (length (bytes m)))
      ]

  pub hash_part : Mbuf → ℕ → CryptoOp S → Mbuf × CryptoOp S
  unfolding digest
  hash_part m data_len op =
      if not c.do_hash
      then (m, op)
      else (let (m1, at) = digest m data_len in
          (
            m1,
            record op {
              iv_writes =
                  if length c.auth_iv == 0
                  then op.iv_writes
                  else op.iv_writes ++ ((c.cipher_iv_length, c.auth_iv) ∷ []);
              auth_digest = at;
              auth_digest_iova = word (length (bytes m1) + 2 ^ 32 - c.digest_length);
              auth_data =
                  some (if c.bits then (eth_len * 8, word (data_len * 8)) else (eth_len, data_len));
            },
          ))

  -- A fresh IV and a copy 32 bytes behind it, or the IV of the packet.
  pub cipher_part : List ℕ → List ℕ → ℕ → CryptoOp S → CryptoOp S
  cipher_part random pkt_iv data_len op = if not c.do_cipher then op else record op {
    iv_writes =
        op.iv_writes
        ++ (if c.is_encrypt
            then (0, random) ∷ (32, random) ∷ []
            else (0, take c.cipher_iv_length pkt_iv) ∷ []);
    cipher_data = some (cipher_range c.cipher_algo data_len);
  }

  pub aead_part : Mbuf → ℕ → CryptoOp S → Mbuf × CryptoOp S
  unfolding digest
  aead_part m data_len op =
      if not c.do_aead
      then (m, op)
      else (let (m1, at) = digest m data_len in
          (
            m1,
            record op {
              iv_writes = op.iv_writes ++ (((if c.ccm then 1 else 0), c.aead_iv) ∷ []);
              aead_data = some (eth_len, data_len);
              aead_digest = at;
              aead_digest_iova = word (length (bytes m1) + 2 ^ 32 - c.digest_length);
              aead_aad = if length c.aad == 0 then op.aead_aad else c.aad;
            },
          ))

  pub fill_op : List ℕ → List ℕ → S → CryptoOp S → Mbuf × ℕ → Mbuf × CryptoOp S
  unfolding hash_part cipher_part aead_part
  fill_op random pkt_iv session op (m, data_len) =
      let h = hash_part m data_len (record op { session = session }) in
      aead_part h.0 data_len (cipher_part random pkt_iv data_len h.1)

  -- What goes to `l2fwd_crypto_enqueue`; none is the result -1. `found` is the session of the epoch,
  -- none is NULL.
  pub l2fwd_simple_crypto_enqueue :
      Mbuf → CryptoOp S → List ℕ → List ℕ → Option S → Option (Mbuf × CryptoOp S)
  unfolding covered pad fill_op
  l2fwd_simple_crypto_enqueue m op random pkt_iv found =
      if ltb (length (bytes m)) eth_len then none else elim (pad m (covered (length (bytes m)))) [
        | none ↦ none
        | some padded ↦
            some (fill_op random pkt_iv (elim found [ none ↦ c.session | some s ↦ s ]) op padded)
      ]

module _ (api : MbufApi) where
  open api use {Mbuf, bytes, trim}

  -- `rte_pktmbuf_trim` with its result ignored.
  pub trimmed : Mbuf → ℕ → Mbuf
  trimmed m n = elim (trim m n) [ none ↦ m | some m1 ↦ m1 ]

  pub trim_digest : Mbuf → ℕ → Mbuf
  trim_digest m digest_length = if ltb 0 digest_length then trimmed m digest_length else m

  -- In the arithmetic of `uint32_t`.
  pub padding_of : Mbuf → ℕ
  padding_of m = word (
      length (bytes m)
      + 2 ^ 33
      - eth_len
      - (byte api m (eth_len + 2) * 256 + byte api m (eth_len + 3)))

  pub trim_padding : Mbuf → Mbuf
  unfolding trimmed padding_of
  trim_padding m =
      if ltb 0 (padding_of m) && ltb (padding_of m) 16 then trimmed m (padding_of m) else m

  -- `enc_epoch` is the epoch of the device that g_enc_cs points to, none is NULL.
  pub l2fwd_simple_forward :
      (List ℕ → ℕ × ℕ) → Mbuf → ℕ → ℕ → ℕ → List ℕ → Option ℕ → Forwarded Mbuf
  unfolding trim_digest trim_padding
  l2fwd_simple_forward ipv4_cksum m portid dst_port digest_length iv enc_epoch =
      if portid == 0
      then elim (tunnel_encap api ipv4_cksum m iv
          (elim enc_epoch [ none ↦ 0 | some epoch ↦ epoch ])) [
            | ok m1 ↦ queued m1 dst_port
            | fail m1 ↦ lost m1
          ]
      else if portid == 1
      then queued (trim_padding (trim_digest m digest_length)) dst_port
      else queued m dst_port
