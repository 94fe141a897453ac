-- ===== src/Capability/Accepts.antt =====
-- What an accepted device can do.
use xyz.Prelude.{
  ℕ, ◌≡◌, refl, sym, ap, subst, ◌∙◌, Bool, true, false, ◌==◌, ◌&&◌, Option, none, some, List, [],
  ◌∷◌, ◌++◌, Bool-cases, inl, inr, arith,
}
use xyz.Capability.{
  Chain, cipher_hash, hash_cipher, cipher_only, hash_only, aead_chain, XformType, Cap, DevInfo,
  Options, check_type, is_cipher, is_auth, is_aead, find_cap, check_device_support_cipher_algo,
  check_device_support_auth_algo, check_device_support_aead_algo, check_optional, check_iv_param,
  ◌then_check◌, check_cipher_key, check_dataunit, with_cap, aead_checks, cipher_checks, auth_checks,
  check_aead, check_cipher, check_auth, check_chain, check_capabilities,
}

-- The list has a capability of the kind and with the algorithm, with the property.
pub HasCap : (XformType → Bool) → ℕ → List Cap → (Cap → Type 0) → Type 0
HasCap kind algo caps P =
    (before : List Cap) × (cap : Cap) × (after : List Cap) × (caps ≡ before ++ (cap ∷ after))
    × (kind cap.xform_type ≡ true)
    × (cap.algo ≡ algo)
    × P cap

pub CipherFits : Options → DevInfo → Type 0
CipherFits o dev =
    (check_type o.type dev ≡ true)
    × HasCap is_cipher o.cipher_xform.algo dev.capabilities (λ cap.
      (check_iv_param cap.iv_size o.cipher_xform.iv ≡ some true)
      × (check_cipher_key dev cap.key_size o.cipher_xform.key ≡ some true)
      × (check_dataunit dev cap o.dataunit_len ≡ true))

pub AuthFits : Options → DevInfo → Type 0
AuthFits o dev =
    (check_type o.type dev ≡ true)
    × HasCap is_auth o.auth_xform.algo dev.capabilities (λ cap.
      (check_iv_param cap.iv_size o.auth_xform.iv ≡ some true)
      × (check_iv_param cap.key_size o.auth_xform.key ≡ some true)
      × (check_optional o.digest cap.digest_size ≡ some true))

pub AeadFits : Options → DevInfo → Type 0
AeadFits o dev =
    (check_type o.type dev ≡ true)
    × HasCap is_aead o.aead_xform.algo dev.capabilities (λ cap.
      (check_iv_param cap.iv_size o.aead_xform.iv ≡ some true)
      × (check_iv_param cap.key_size o.aead_xform.key ≡ some true)
      × (check_iv_param cap.aad_size o.aad ≡ some true)
      × (check_optional o.digest cap.digest_size ≡ some true))

pub ChainFits : Chain → Options → DevInfo → Type 0
unfolding CipherFits AuthFits AeadFits
ChainFits aead_chain o dev = AeadFits o dev
ChainFits cipher_only o dev = CipherFits o dev
ChainFits hash_only o dev = AuthFits o dev
ChainFits cipher_hash o dev = CipherFits o dev × AuthFits o dev
ChainFits hash_cipher o dev = CipherFits o dev × AuthFits o dev

pub then_check_both :
    (a b : Option Bool) → (a then_check b) ≡ some true → (a ≡ some true) × (b ≡ some true)
unfolding ◌then_check◌
then_check_both none b h = ground arith
then_check_both (some false) b h = ground arith
then_check_both (some true) b h = (refl, h)

all_three : (a b c : Bool) → (a && b && c) ≡ true → (a ≡ true) × (b ≡ true) × (c ≡ true)
all_three a b c h = ground arith

some_eq : {A : Type 0} (a b : A) → some a ≡ some b → a ≡ b
some_eq a b e = cc

module _ (kind : XformType → Bool) (algo : ℕ) (preferred : Bool) (P : Cap → Type 0) where
  behind : (x : Cap) (xs : List Cap) → HasCap kind algo xs P → HasCap kind algo (x ∷ xs) P
  unfolding HasCap
  behind x xs (before, cap, after, cut, a, b, p) =
      (x ∷ before, cap, after, ap (λ l. x ∷ l) cut, a, b, p)

  here :
      (x : Cap) (xs : List Cap)
      → kind x.xform_type ≡ true
      → x.algo ≡ algo
      → P x
      → HasCap kind algo (x ∷ xs) P
  unfolding HasCap
  here x xs a b p = ([], x, xs, refl, a, b, p)

  find_cap-HasCap :
      (caps : List Cap) (c : Cap)
      → find_cap kind algo preferred caps ≡ some c
      → P c
      → (preferred ≡ true) × HasCap kind algo caps P
  unfolding find_cap
  find_cap-HasCap [] c h p = absurd (ground arith)
  find_cap-HasCap (x ∷ xs) c h p =
      elim (Bool-cases (kind x.xform_type && (x.algo == algo) && preferred)) [
        | inl hit ↦
            let (a, b, d) = all_three (kind x.xform_type) (x.algo == algo) preferred hit in
            let e : some x ≡ some c = sym (simp hit) ∙ h in
            let same : c ≡ x = sym (some_eq x c e) in
            let px : P x = subst P same p in
            let at : x.algo ≡ algo = ground arith in (d, here x xs a at px)
        | inr miss ↦
            let e : find_cap kind algo preferred (x ∷ xs) ≡ find_cap kind algo preferred xs =
              simp miss in
            let (d, rest) = find_cap-HasCap xs c (sym e ∙ h) p in (d, behind x xs rest)
      ]

with_cap-some :
    (found : Option Cap) (checks : Cap → Option Bool)
    → with_cap found checks ≡ some true
    → (cap : Cap) × (found ≡ some cap) × (checks cap ≡ some true)
unfolding with_cap
with_cap-some none checks h = absurd (ground arith)
with_cap-some (some cap) checks h = (cap, refl, h)

check_cipher-CipherFits :
    (o : Options) (dev : DevInfo) → check_cipher o dev ≡ some true → CipherFits o dev
unfolding check_cipher check_device_support_cipher_algo CipherFits cipher_checks
check_cipher-CipherFits o dev h =
    let (cap, found, ok) =
      with_cap-some (check_device_support_cipher_algo o dev) (cipher_checks o dev) h in
    let (iv, more) = then_check_both (check_iv_param cap.iv_size o.cipher_xform.iv) _ ok in
    let (key, unit) =
      then_check_both (check_cipher_key dev cap.key_size o.cipher_xform.key) _ more in
    find_cap-HasCap is_cipher o.cipher_xform.algo (check_type o.type dev) _ dev.capabilities cap
      found (iv, key, some_eq _ _ unit)

check_auth-AuthFits : (o : Options) (dev : DevInfo) → check_auth o dev ≡ some true → AuthFits o dev
unfolding check_auth check_device_support_auth_algo AuthFits auth_checks
check_auth-AuthFits o dev h =
    let (cap, found, ok) = with_cap-some (check_device_support_auth_algo o dev) (auth_checks o) h in
    let (iv, more) = then_check_both (check_iv_param cap.iv_size o.auth_xform.iv) _ ok in
    let (key, digest) = then_check_both (check_iv_param cap.key_size o.auth_xform.key) _ more in
    find_cap-HasCap is_auth o.auth_xform.algo (check_type o.type dev) _ dev.capabilities cap found
      (iv, key, digest)

check_aead-AeadFits : (o : Options) (dev : DevInfo) → check_aead o dev ≡ some true → AeadFits o dev
unfolding check_aead check_device_support_aead_algo AeadFits aead_checks
check_aead-AeadFits o dev h =
    let (cap, found, ok) = with_cap-some (check_device_support_aead_algo o dev) (aead_checks o) h in
    let (iv, more) = then_check_both (check_iv_param cap.iv_size o.aead_xform.iv) _ ok in
    let (key, rest) = then_check_both (check_iv_param cap.key_size o.aead_xform.key) _ more in
    let (aad, digest) = then_check_both (check_iv_param cap.aad_size o.aad) _ rest in
    find_cap-HasCap is_aead o.aead_xform.algo (check_type o.type dev) _ dev.capabilities cap found
      (iv, key, aad, digest)

check_chain-ChainFits :
    (chain : Chain) (o : Options) (dev : DevInfo)
    → check_chain chain o dev ≡ some true
    → ChainFits chain o dev
unfolding check_chain ChainFits
check_chain-ChainFits aead_chain o dev h = check_aead-AeadFits o dev h
check_chain-ChainFits cipher_only o dev h = check_cipher-CipherFits o dev h
check_chain-ChainFits hash_only o dev h = check_auth-AuthFits o dev h
check_chain-ChainFits cipher_hash o dev h =
    let (a, b) = then_check_both (check_cipher o dev) (check_auth o dev) h in
    (check_cipher-CipherFits o dev a, check_auth-AuthFits o dev b)
check_chain-ChainFits hash_cipher o dev h =
    let (a, b) = then_check_both (check_cipher o dev) (check_auth o dev) h in
    (check_cipher-CipherFits o dev a, check_auth-AuthFits o dev b)

-- A device that is accepted is of the preferred type, and for every transform of the chain it has a
-- capability of this kind, with this algorithm, whose sizes pass the checks.
pub check_capabilities-ChainFits :
    (o : Options) (dev : DevInfo)
    → check_capabilities o dev ≡ some true
    → ChainFits o.xform_chain o dev
unfolding check_capabilities
check_capabilities-ChainFits o dev h = check_chain-ChainFits o.xform_chain o dev h
