-- ===== src/Capability.antt =====
-- Whether a crypto device can do what the options ask for, in `main (1).c`: `check_type`, the three
-- `check_device_support_*_algo`, `check_cryptodev_mask`, `check_supported_size`, `check_iv_param` and
-- `check_capabilities`. The device's answer (`rte_cryptodev_info_get`) is an argument; the list of
-- capabilities ends where C has RTE_CRYPTO_OP_TYPE_UNDEFINED. Algorithms are numbers. A size of -1 is
-- none. A check gives `some true` for 0, `some false` for -1, and `none` where its loop never ends.
pub mod Sizes
pub mod Accepts
pub mod Sample
mod Tests
use xyz.Prelude.{
  ℕ, zero, suc, ◌+◌, ◌*◌, ◌/◌, ◌%◌, ◌^◌, Bool, true, false, not, ◌==◌, ◌&&◌, ◌||◌, leb, ltb,
  if◌then◌else◌, Option, none, some, List, [], ◌∷◌,
}

pub data CdevType : Type 0 where
  any : CdevType
  hw : CdevType
  sw : CdevType

pub data Chain : Type 0 where
  cipher_hash : Chain
  hash_cipher : Chain
  cipher_only : Chain
  hash_only : Chain
  aead_chain : Chain

pub data XformType : Type 0 where
  auth : XformType
  cipher : XformType
  aead : XformType

pub record Range : Type 0 where
  pub min_size : ℕ
  pub max_size : ℕ
  pub increment : ℕ

pub record Cap : Type 0 where
  pub xform_type : XformType
  pub algo : ℕ
  pub iv_size : Range
  pub key_size : Range
  pub aad_size : Range
  pub digest_size : Range
  pub dataunit_set : ℕ

-- The feature flags that are tested, and the capabilities.
pub record DevInfo : Type 0 where
  pub hw_accelerated : Bool
  pub wrapped_key : Bool
  pub multiple_data_units : Bool
  pub capabilities : List Cap

-- A parameter that is given, or has a length to be drawn at random, or neither.
pub record Param : Type 0 where
  pub given : Bool
  pub length : ℕ
  pub random_size : Option ℕ

-- The options of one transform.
pub record Xform : Type 0 where
  pub algo : ℕ
  pub iv : Param
  pub key : Param

pub record Options : Type 0 where
  pub type : CdevType
  pub xform_chain : Chain
  pub cipher_xform : Xform
  pub dataunit_len : ℕ
  pub auth_xform : Xform
  pub aead_xform : Xform
  pub aad : Param
  pub digest : Option ℕ
  pub cryptodev_mask : ℕ

pub check_type : CdevType → DevInfo → Bool
check_type hw dev = dev.hw_accelerated
check_type sw dev = not dev.hw_accelerated
check_type any dev = true

is_cipher : XformType → Bool
is_cipher cipher = true
is_cipher auth = false
is_cipher aead = false

is_auth : XformType → Bool
is_auth auth = true
is_auth cipher = false
is_auth aead = false

is_aead : XformType → Bool
is_aead aead = true
is_aead cipher = false
is_aead auth = false

-- The first capability of the wanted kind and algorithm, when the device is of the preferred type.
find_cap : (XformType → Bool) → ℕ → Bool → List Cap → Option Cap
find_cap kind algo preferred [] = none
find_cap kind algo preferred (c ∷ cs) =
    let rest = find_cap kind algo preferred cs in
    if kind c.xform_type && (c.algo == algo) && preferred then some c else rest

pub check_device_support_cipher_algo : Options → DevInfo → Option Cap
unfolding find_cap is_cipher check_type
check_device_support_cipher_algo o dev =
    find_cap is_cipher o.cipher_xform.algo (check_type o.type dev) dev.capabilities

pub check_device_support_auth_algo : Options → DevInfo → Option Cap
unfolding find_cap is_auth check_type
check_device_support_auth_algo o dev =
    find_cap is_auth o.auth_xform.algo (check_type o.type dev) dev.capabilities

pub check_device_support_aead_algo : Options → DevInfo → Option Cap
unfolding find_cap is_aead check_type
check_device_support_aead_algo o dev =
    find_cap is_aead o.aead_xform.algo (check_type o.type dev) dev.capabilities

-- The mask has 64 bits, and `1 << cdev_id` is an `int`: at 31 it is negative, and its conversion to 64 bits
-- sets the bits 31 to 63; from 32 on it is undefined: none.
unfoldable pub check_cryptodev_mask : Options → ℕ → Option Bool
check_cryptodev_mask o cdev_id =
    if ltb cdev_id 31
    then some (o.cryptodev_mask / 2 ^ cdev_id % 2 == 1)
    else if cdev_id == 31
    then some (not (o.cryptodev_mask / 2 ^ 31 % 2 ^ 33 == 0))
    else none

-- The loop over the sizes of a range, `supp_size` a `uint16_t`. There are 2 ^ 16 of its values: a loop
-- that goes on after as many rounds never ends.
pub size_loop : ℕ → Range → ℕ → ℕ → Option Bool
size_loop zero r length supp_size = none
size_loop (suc fuel) r length supp_size = elim (leb supp_size r.max_size) [
  | false ↦ some false
  | true ↦ elim (length == supp_size) [
    | true ↦ some true
    | false ↦ size_loop fuel r length ((supp_size + r.increment) % 2 ^ 16)
  ]
]

pub check_supported_size : ℕ → Range → Option Bool
unfolding size_loop
check_supported_size length r = elim (r.increment == 0) [
  | true ↦ some (length == r.min_size)
  | false ↦ size_loop (2 ^ 16) r length r.min_size
]

-- The size is an `int`, the parameter of the check a `uint16_t`.
check_optional : Option ℕ → Range → Option Bool
unfolding check_supported_size
check_optional none r = some true
check_optional (some n) r = check_supported_size (n % 2 ^ 16) r

-- The length that is given, or the one to be drawn.
pub check_iv_param : Range → Param → Option Bool
unfolding check_supported_size check_optional
check_iv_param r p =
    if p.given then check_supported_size (p.length % 2 ^ 16) r else check_optional p.random_size r

-- One check after the other, until one fails or does not end.
infixr 40 ◌then_check◌
unfoldable pub ◌then_check◌ : Option Bool → Option Bool → Option Bool
none then_check next = none
some false then_check next = some false
some true then_check next = next

-- A key that does not fit may be wrapped.
check_cipher_key : DevInfo → Range → Param → Option Bool
unfolding check_iv_param
check_cipher_key dev r p =
    let fits = check_supported_size (p.length % 2 ^ 16) r in
    if p.given
    then elim fits [ none ↦ none | some fit ↦ some (fit || dev.wrapped_key) ]
    else check_optional p.random_size r

dataunit_bit : ℕ → ℕ → Bool
dataunit_bit set len =
    if len == 512
    then set % 2 == 1
    else if len == 4096
    then set / 2 % 2 == 1
    else if len == 1048576
    then set / 4 % 2 == 1
    else false

check_dataunit : DevInfo → Cap → ℕ → Bool
unfolding dataunit_bit
check_dataunit dev cap len =
    (len == 0)
    || (dev.multiple_data_units && ((cap.dataunit_set == 0) || dataunit_bit cap.dataunit_set len))

-- A NULL capability is -1.
with_cap : Option Cap → (Cap → Option Bool) → Option Bool
with_cap none checks = some false
with_cap (some cap) checks = checks cap

aead_checks : Options → Cap → Option Bool
unfolding check_iv_param check_optional
aead_checks o cap =
    check_iv_param cap.iv_size o.aead_xform.iv
    then_check check_iv_param cap.key_size o.aead_xform.key
    then_check check_iv_param cap.aad_size o.aad
    then_check check_optional o.digest cap.digest_size

cipher_checks : Options → DevInfo → Cap → Option Bool
unfolding check_iv_param check_cipher_key check_dataunit
cipher_checks o dev cap =
    check_iv_param cap.iv_size o.cipher_xform.iv
    then_check check_cipher_key dev cap.key_size o.cipher_xform.key
    then_check some (check_dataunit dev cap o.dataunit_len)

auth_checks : Options → Cap → Option Bool
unfolding check_iv_param check_optional
auth_checks o cap =
    check_iv_param cap.iv_size o.auth_xform.iv
    then_check check_iv_param cap.key_size o.auth_xform.key
    then_check check_optional o.digest cap.digest_size

pub check_aead : Options → DevInfo → Option Bool
unfolding check_device_support_aead_algo with_cap aead_checks
check_aead o dev = with_cap (check_device_support_aead_algo o dev) (aead_checks o)

pub check_cipher : Options → DevInfo → Option Bool
unfolding check_device_support_cipher_algo with_cap cipher_checks
check_cipher o dev = with_cap (check_device_support_cipher_algo o dev) (cipher_checks o dev)

pub check_auth : Options → DevInfo → Option Bool
unfolding check_device_support_auth_algo with_cap auth_checks
check_auth o dev = with_cap (check_device_support_auth_algo o dev) (auth_checks o)

pub check_chain : Chain → Options → DevInfo → Option Bool
unfolding check_aead check_cipher check_auth
check_chain aead_chain o dev = check_aead o dev
check_chain cipher_only o dev = check_cipher o dev
check_chain hash_only o dev = check_auth o dev
check_chain cipher_hash o dev = check_cipher o dev then_check check_auth o dev
check_chain hash_cipher o dev = check_cipher o dev then_check check_auth o dev

pub check_capabilities : Options → DevInfo → Option Bool
unfolding check_chain ◌then_check◌
check_capabilities o dev = check_chain o.xform_chain o dev
