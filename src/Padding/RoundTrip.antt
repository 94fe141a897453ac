-- ===== src/Padding/RoundTrip.antt =====
-- `l2fwd_simple_forward` on the decrypt side takes off what the peer has added.
use mathlib.Core.List.{append_assoc, append-nil}
use xyz.Prelude.{
  ℕ, ◌+◌, ◌-◌, ◌*◌, ◌^◌, ◌<◌, ◌≡◌, refl, sym, ap, ◌∙◌, ◌&&◌, List, [], ◌∷◌, ◌++◌, Option, length,
  take, length-append, length-zero, take-append, ltb, Bool-cases, inl, inr, arith,
}
use xyz.Mbuf.{MbufApi}
use xyz.Tunnel.{byte}
use xyz.Tunnel.RoundTrip.{byte_at}
use xyz.Padding.{queued, trimmed, trim_digest, padding_of, trim_padding, l2fwd_simple_forward}

-- An IPv4 packet whose total length field says how long it is.
pub record IsIp (ip : List ℕ) : Type 0 where
  pub first : ℕ
  pub tos : ℕ
  pub hi : ℕ
  pub lo : ℕ
  pub rest : List ℕ
  pub header : ip ≡ first ∷ tos ∷ hi ∷ lo ∷ rest
  pub total_length : hi * 256 + lo ≡ length ip

module _ (api : MbufApi) where
  open api use {Mbuf, bytes, trim, trim_some}

  trimmed-append :
      (m : Mbuf) (n : ℕ) (xs ys : List ℕ)
      → bytes m ≡ xs ++ ys
      → length ys ≡ n
      → bytes (trimmed api m n) ≡ xs
  unfolding trimmed
  trimmed-append m n xs ys e l =
      let size : length (bytes m) ≡ length xs + length ys = ap length e ∙ length-append xs ys in
      let t = trim_some m n (omega arith) in
      let left : length xs ≡ length (bytes m) - n = omega arith in
      rw (t.returned, trimmed)
        (t.bytes_left
          ∙ ap (take (length (bytes m) - n)) e
          ∙ take-append (length (bytes m) - n) xs ys left)

  trim_digest-append :
      (m : Mbuf) (n : ℕ) (xs ys : List ℕ)
      → bytes m ≡ xs ++ ys
      → length ys ≡ n
      → bytes (trim_digest api m n) ≡ xs
  unfolding trim_digest
  trim_digest-append m n xs ys e l = elim (Bool-cases (ltb 0 n)) [
    | inl h ↦ rw (h) (trimmed-append m n xs ys e l)
    | inr h ↦ rw (h) (e ∙ ap (λ t. xs ++ t) (length-zero ys (ground arith)) ∙ append-nil xs)
  ]

  module _ (m : Mbuf) (eth ip pad : List ℕ) (v : IsIp ip) (there : bytes m ≡ eth ++ (ip ++ pad))
      (l_eth : length eth ≡ 14) (few : length pad < 16) (short : length (bytes m) < 2 ^ 16) where
    size : length (bytes m) ≡ 14 + length ip + length pad
    size = ap length there ∙ length-append eth (ip ++ pad) ∙ omega (arith, length-append ip pad)

    spread : bytes m ≡ eth ++ (v.first ∷ v.tos ∷ v.hi ∷ v.lo ∷ (v.rest ++ pad))
    spread = there ∙ ap (λ t. eth ++ (t ++ pad)) v.header

    at_hi : byte api m 16 ≡ v.hi
    at_hi =
        byte_at api m 16 (eth ++ (v.first ∷ v.tos ∷ [])) v.hi (v.lo ∷ (v.rest ++ pad))
          (spread ∙ sym (append_assoc eth (v.first ∷ v.tos ∷ []) (v.hi ∷ v.lo ∷ (v.rest ++ pad))))
          (omega (arith, length-append eth (v.first ∷ v.tos ∷ [])))

    at_lo : byte api m 17 ≡ v.lo
    at_lo =
        byte_at api m 17 (eth ++ (v.first ∷ v.tos ∷ v.hi ∷ [])) v.lo (v.rest ++ pad)
          (spread ∙ sym (append_assoc eth (v.first ∷ v.tos ∷ v.hi ∷ []) (v.lo ∷ (v.rest ++ pad))))
          (omega (arith, length-append eth (v.first ∷ v.tos ∷ v.hi ∷ [])))

    padding_of-length : padding_of api m ≡ length pad
    unfolding padding_of
    padding_of-length = omega (arith, size, at_hi, at_lo, v.total_length)

    trim_padding-ip : bytes (trim_padding api m) ≡ eth ++ ip
    unfolding trim_padding
    trim_padding-ip = elim (Bool-cases (ltb 0 (padding_of api m) && ltb (padding_of api m) 16)) [
      | inl h ↦ rw (h) (
          trimmed-append m (padding_of api m) (eth ++ ip) pad
            (there ∙ sym (append_assoc eth ip pad)) (sym padding_of-length))
      | inr h ↦
          let nothing : pad ≡ [] = length-zero pad (ground (arith, padding_of-length)) in
          rw (h) (there ∙ ap (λ t. eth ++ (ip ++ t)) nothing ∙ ap (λ t. eth ++ t) (append-nil ip))
    ]

  -- At the port of the WAN: a decrypted IP packet with fewer than 16 bytes of padding and a digest
  -- of the configured length behind it is sent on without them.
  pub l2fwd_simple_forward-unpads :
      (ipv4_cksum : List ℕ → ℕ × ℕ) (m : Mbuf) (eth ip pad digest iv : List ℕ)
      (dst_port digest_length : ℕ) (enc_epoch : Option ℕ)
      → IsIp ip
      → bytes m ≡ (eth ++ (ip ++ pad)) ++ digest
      → length eth ≡ 14
      → length pad < 16
      → length digest ≡ digest_length
      → length (bytes m) < 2 ^ 16
      → (m' : Mbuf) × (l2fwd_simple_forward api ipv4_cksum m 1 dst_port digest_length iv enc_epoch
          ≡ queued m' dst_port)
        × (bytes m' ≡ eth ++ ip)
  unfolding l2fwd_simple_forward
  l2fwd_simple_forward-unpads ipv4_cksum m eth ip pad digest iv dst_port digest_length enc_epoch v
        there l_eth few l_digest short =
      let cut : bytes (trim_digest api m digest_length) ≡ eth ++ (ip ++ pad) =
        trim_digest-append m digest_length (eth ++ (ip ++ pad)) digest there l_digest in
      let all : length (bytes m) ≡ length (eth ++ (ip ++ pad)) + length digest =
        ap length there ∙ length-append (eth ++ (ip ++ pad)) digest in
      (
        trim_padding api (trim_digest api m digest_length),
        refl,
        trim_padding-ip (trim_digest api m digest_length) eth ip pad v cut l_eth few
            (omega (arith, all, ap length cut)),
      )
