-- ===== src/Padding/Tests.antt =====
-- A packet of 28 bytes, padded to 32 and back.
use xyz.Prelude.{ℕ, true, false, List, [], ◌∷◌, ◌++◌, none, some, replicate}
use xyz.Mbuf.Array.{Packet}
use xyz.Padding.{Params, CryptoOp, aes_cbc}

abbrev params : Params ℕ
params = record {
  do_cipher = true;
  do_hash = false;
  do_aead = false;
  hash_verify = false;
  is_encrypt = true;
  digest_length = 0;
  block_size = 16;
  cipher_dataunit_len = 0;
  cipher_algo = aes_cbc;
  bits = false;
  ccm = false;
  cipher_iv_length = 16;
  auth_iv = [];
  aead_iv = [];
  aad = [];
  session = 7;
}

abbrev blank : CryptoOp ℕ
blank = record {
  session = 0;
  iv_writes = [];
  cipher_data = none;
  auth_data = none;
  auth_digest = none;
  auth_digest_iova = 0;
  aead_data = none;
  aead_digest = none;
  aead_digest_iova = 0;
  aead_aad = [];
}

abbrev eth : List ℕ
eth = replicate 12 2 ++ (8 ∷ 0 ∷ [])

abbrev ip : List ℕ
ip = 0x45 ∷ 0 ∷ 0 ∷ 28 ∷ replicate 24 9

abbrev clear : Packet
clear = record { front = []; bytes = eth ++ ip; back = replicate 32 5 }

abbrev decrypted : Packet
decrypted = record { front = []; bytes = eth ++ (ip ++ replicate 4 0); back = [] }

abbrev random : List ℕ
random = replicate 16 6

abbrev cksum : List ℕ → ℕ × ℕ
cksum h = (0, 0)

-- Four bytes of padding; the operation covers the 32 bytes.
abbrev padded : Packet
padded = record { front = []; bytes = eth ++ (ip ++ replicate 4 0); back = replicate 28 5 }

abbrev filled : CryptoOp ℕ
filled = record blank {
  session = 8;
  iv_writes = (0, random) ∷ (32, random) ∷ [];
  cipher_data = some (14, 32);
}
