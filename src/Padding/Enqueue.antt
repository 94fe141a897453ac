-- ===== src/Padding/Enqueue.antt =====
-- The padding of block ciphers in `l2fwd_simple_crypto_enqueue`.
use native.Mathlib.Nat.{mod-add-mod, mod-lt, mod_self}
use mathlib.Core.List.{append-nil}
use xyz.Prelude.{
  ℕ, ◌+◌, ◌-◌, ◌%◌, ◌^◌, ◌≤◌, ◌<◌, ◌≡◌, refl, sym, ap, ◌∙◌, true, false, List, [], ◌∷◌, ◌++◌,
  Option, none, some, length, drop, replicate, length-replicate, length-drop, take-append-drop,
  ◌==◌, ltb, Bool-cases, inl, inr, arith,
}
use xyz.Mbuf.{MbufApi}
use xyz.Tunnel.Wire.{store_middle}
use xyz.Padding.{
  Params, CryptoOp, aes_cbc, up_to, blocks, pad_len, cipher_range, covered, add_padding, pad,
  hash_part, cipher_part, aead_part, fill_op, l2fwd_simple_crypto_enqueue,
}

-- The padding is shorter than a unit and fills it up.
pub up_to_lem : (unit n : ℕ) → 0 < unit → (up_to unit n < unit) × ((n + up_to unit n) % unit ≡ 0)
up_to_lem unit n h = elim (Bool-cases (n % unit == 0)) [
  | inl z ↦ let flat : n + 0 ≡ n = omega arith in rw (z) (h, ap (λ x. x % unit) flat ∙ ground arith)
  | inr z ↦
      let below : n % unit < unit = mod-lt n h in
      let up : n % unit + (unit - n % unit) ≡ unit = omega (arith, below) in
      rw (z) (
        ground (arith, below),
        sym (mod-add-mod n unit (unit - n % unit)) ∙ ap (λ x. x % unit) up ∙ mod_self unit,
      )
]

module _ (api : MbufApi) {S : Type 0} (c : Params S) where
  open api use {Mbuf, bytes, tailroom, append, append_some, store}

  pub add_padding-some :
      (m : Mbuf) (n k : ℕ)
      → k ≤ tailroom m
      → n + k < 2 ^ 32
      → (m' : Mbuf) × (add_padding api c m n k ≡ some (m', n + k))
        × (bytes m' ≡ bytes m ++ replicate k 0)
  unfolding add_padding
  add_padding-some m n k room small = elim (Bool-cases (k == 0)) [
    | inl z ↦
        let none_to_add : k ≡ 0 = ground arith in
        let flat : n ≡ n + k = omega arith in
        (
          m,
          rw (z) (ap (λ x. some (m, x)) flat),
          sym (append-nil (bytes m)) ∙ ap (λ x. bytes m ++ replicate x 0) (sym none_to_add),
        )
    | inr z ↦
        let a = append_some m k room in
        let tail : List ℕ = drop (length (bytes m)) (bytes a.after) in
        let grown : bytes a.after ≡ bytes m ++ (tail ++ []) =
          sym (take-append-drop (length (bytes m)) (bytes a.after))
          ∙ ap (λ x. x ++ tail) a.bytes_kept
          ∙ ap (λ x. bytes m ++ x) (sym (append-nil tail)) in
        let size : length tail ≡ length (replicate k 0) =
          length-drop (length (bytes m)) (bytes a.after)
          ∙ omega (arith, a.size)
          ∙ sym (length-replicate k 0) in
        let same : (n + k) % 2 ^ 32 ≡ n + k = omega arith in
        (
          store a.after (length (bytes m)) (replicate k 0),
          rw (z) (rw (a.returned, add_padding) (rw (same) refl)),
          store_middle api a.after (length (bytes m)) (bytes m) tail (replicate k 0) [] grown refl
                size
              ∙ ap (λ x. bytes m ++ x) (append-nil (replicate k 0)),
        )
  ]

  -- AES in CBC mode, without a digest, in the direction of the WAN.
  module _ (on : c.do_cipher ≡ true) (no_hash : c.do_hash ≡ false) (no_aead : c.do_aead ≡ false)
      (encrypts : c.is_encrypt ≡ true) (cbc : c.cipher_algo ≡ aes_cbc) where
    covers : (n : ℕ) → covered api c n ≡ n - 14
    unfolding covered
    covers n = simp (no_hash, no_aead)

    pads : (m : Mbuf) (n : ℕ) → pad api c m n ≡ add_padding api c m n (blocks c n)
    unfolding pad pad_len
    pads m n = simp (on) (ap (add_padding api c m n) (ap (λ a. pad_len a c n) cbc))

    filled : List ℕ → S → CryptoOp S → ℕ → CryptoOp S
    filled random session op n = record op {
      session = session;
      iv_writes = op.iv_writes ++ ((0, random) ∷ (32, random) ∷ []);
      cipher_data = some (14, n);
    }

    fills :
        (random pkt_iv : List ℕ) (session : S) (op : CryptoOp S) (m : Mbuf) (n : ℕ)
        → fill_op api c random pkt_iv session op (m, n) ≡ (m, filled random session op n)
    unfolding fill_op hash_part aead_part cipher_part cipher_range filled
    fills random pkt_iv session op m n = simp (on, no_hash, no_aead, encrypts, cbc)

    -- Then every frame with room for a block goes to the device: zero bytes behind it, fewer than a
    -- block, make what is encrypted (all but the Ethernet header) a multiple of the block size, and
    -- the operation covers just that, with the IV and its copy in place.
    pub l2fwd_simple_crypto_enqueue-pads :
        (m : Mbuf) (op : CryptoOp S) (random pkt_iv : List ℕ) (found : Option S)
        → 14 ≤ length (bytes m)
        → length (bytes m) < 2 ^ 16
        → 0 < c.block_size
        → c.block_size < 2 ^ 16
        → c.block_size ≤ tailroom m
        → (m' : Mbuf) × (op' : CryptoOp S) × (k : ℕ) × (l2fwd_simple_crypto_enqueue api c m op
              random pkt_iv found
            ≡ some (m', op'))
          × (bytes m' ≡ bytes m ++ replicate k 0)
          × (k < c.block_size)
          × ((length (bytes m) - 14 + k) % c.block_size ≡ 0)
          × (op'.cipher_data ≡ some (14, length (bytes m) - 14 + k))
          × (op'.iv_writes ≡ op.iv_writes ++ ((0, random) ∷ (32, random) ∷ []))
    unfolding l2fwd_simple_crypto_enqueue filled
    l2fwd_simple_crypto_enqueue-pads m op random pkt_iv found eth short block small room =
        let n = length (bytes m) - 14 in
        let k = blocks c n in
        let (fewer, whole) = up_to_lem c.block_size n block in
        let (m', made, there) =
          add_padding-some m n k (omega (arith, fewer)) (omega (arith, fewer)) in
        let long : ltb (length (bytes m)) 14 ≡ false = ground arith in
        let padded : pad api c m (covered api c (length (bytes m))) ≡ some (m', n + k) =
          ap (pad api c m) (covers (length (bytes m))) ∙ pads m n ∙ made in
        let session : S = elim found [ none ↦ c.session | some s ↦ s ] in
        (
          m',
          filled random session op (n + k),
          k,
          rw (long) (rw (padded) (ap (λ x. some x) (fills random pkt_iv session op m' (n + k)))),
          there,
          fewer,
          whole,
          refl,
          refl,
        )
