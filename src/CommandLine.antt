-- ===== src/CommandLine.antt =====
-- The command line of `main (1).c`: the parsers of single values, from `parse_cryptodev_type` to
-- `l2fwd_crypto_parse_timer_period`, and the default options. The C library and the tables of names of
-- DPDK are a record of functions.
mod Names
pub mod Long
pub mod Args
pub mod Bytes
mod Tests
use Prim.Native.String.{String}
use xyz.Prelude.{
  ℕ, zero, suc, ◌-◌, ◌*◌, ◌%◌, ◌^◌, ◌≡◌, Bool, true, false, not, ◌||◌, ◌==◌, ltb, leb,
  if◌then◌else◌, Option, none, some, List, [], ◌∷◌, ◌++◌, length, drop,
}
use xyz.Capability.{CdevType, Chain}
pub use Names.{same_text}

-- A number that was read, as the bits of its type, and if the text ends behind it (`*end == '\0'`).
pub record Number : Type 0 where
  pub value : ℕ
  pub whole : Bool

-- strtol of a token, as an `int` of 32 bits, and if errno is EINVAL or ERANGE behind it.
pub record Token : Type 0 where
  pub number : ℕ
  pub failed : Bool

pub record Clib : Type 0 where
  pub strtoul : (base : ℕ) → String → Number
  -- cut to `unsigned`
  pub strtol : String → Number
  pub strtok : String → List String
  pub strtol_16 : String → Token
  -- rte_cryptodev_get_cipher_algo_enum and its kin
  pub cipher_algo_enum : String → Option ℕ
  pub auth_algo_enum : String → Option ℕ
  pub aead_algo_enum : String → Option ℕ
  -- TIMER_MILLISECOND
  pub timer_millisecond : ℕ

abbrev pub max_key_size : ℕ
max_key_size = 128

abbrev pub max_iv_size : ℕ
max_iv_size = 16

abbrev pub max_aad_size : ℕ
max_aad_size = 65535

abbrev pub max_rx_queue_per_lcore : ℕ
max_rx_queue_per_lcore = 16

abbrev pub max_timer_period : ℕ
max_timer_period = 86400

-- An `int` that is -1.
abbrev pub minus_one : ℕ
minus_one = 2 ^ 32 - 1

-- Key, IV or AAD: `_param`, the array, its length of 16 bits, and `_random_size`.
pub record Material : Type 0 where
  pub param : Bool
  pub array : List ℕ
  pub len : ℕ
  pub random_size : ℕ

pub data Direction : Type 0 where
  encrypt : Direction
  decrypt : Direction

pub data AuthOp : Type 0 where
  verify : AuthOp
  generate : AuthOp

-- struct l2fwd_crypto_options
pub record CryptoOptions : Type 0 where
  pub portmask : ℕ
  pub nb_ports_per_lcore : ℕ
  pub refresh_period : ℕ
  pub single_lcore : Bool
  pub cdev_type : CdevType
  pub string_type : String
  pub sessionless : Bool
  pub xform_chain : Chain
  pub cipher_algo : ℕ
  pub cipher_op : Direction
  pub dataunit_len : ℕ
  pub cipher_key : Material
  pub cipher_iv : Material
  pub auth_algo : ℕ
  pub auth_op : AuthOp
  pub auth_key : Material
  pub auth_iv : Material
  pub aead_algo : ℕ
  pub aead_op : Direction
  pub aead_key : Material
  pub aead_iv : Material
  pub aad : Material
  pub digest_size : ℕ
  pub cryptodev_mask : ℕ
  pub mac_updating : Bool

pub parse_cryptodev_type : String → Option CdevType
parse_cryptodev_type arg =
    if same_text "HW" arg
    then some CdevType.hw
    else if same_text "SW" arg
    then some CdevType.sw
    else if same_text "ANY" arg
    then some CdevType.any
    else none

pub parse_crypto_opt_chain : String → Option Chain
parse_crypto_opt_chain arg =
    if same_text "CIPHER_HASH" arg
    then some Chain.cipher_hash
    else if same_text "HASH_CIPHER" arg
    then some Chain.hash_cipher
    else if same_text "CIPHER_ONLY" arg
    then some Chain.cipher_only
    else if same_text "HASH_ONLY" arg
    then some Chain.hash_only
    else if same_text "AEAD" arg
    then some Chain.aead_chain
    else none

pub parse_cipher_op : String → Option Direction
parse_cipher_op arg =
    if same_text "ENCRYPT" arg
    then some Direction.encrypt
    else if same_text "DECRYPT" arg
    then some Direction.decrypt
    else none

pub parse_aead_op : String → Option Direction
parse_aead_op arg =
    if same_text "ENCRYPT" arg
    then some Direction.encrypt
    else if same_text "DECRYPT" arg
    then some Direction.decrypt
    else none

pub parse_auth_op : String → Option AuthOp
parse_auth_op arg =
    if same_text "VERIFY" arg
    then some AuthOp.verify
    else if same_text "GENERATE" arg
    then some AuthOp.generate
    else none

-- What parse_bytes has written behind `data`, and if it returns their number (or -1). How long the array
-- at `data` is, is for in_array.
pub record Parsed : Type 0 where
  pub written : List ℕ
  pub ok : Bool

-- number > 0xFF, of an `int`: a negative number is not.
pub bad_token : Token → Bool
bad_token t = t.failed || (if ltb t.number (2 ^ 31) then ltb 0xff t.number else false)

put_byte : ℕ → Parsed → Parsed
put_byte b r = record { written = b ∷ r.written; ok = r.ok }

-- `room` is max_size less byte_count.
pub bytes_loop : (room : ℕ) → List Token → Parsed
unfolding bad_token put_byte
bytes_loop zero ts = record { written = []; ok = true }
bytes_loop (suc room) [] = record { written = []; ok = true }
bytes_loop (suc room) (t ∷ ts) =
    if bad_token t
    then record { written = []; ok = false }
    else put_byte (t.number % 256) (bytes_loop room ts)

tokens : Clib → List String → List Token
tokens c [] = []
tokens c (t ∷ ts) = c.strtol_16 t ∷ tokens c ts

pub parse_bytes : Clib → String → (max_size : ℕ) → Parsed
unfolding bytes_loop tokens
parse_bytes c arg max_size = bytes_loop max_size (tokens c (c.strtok arg))

-- In an array of `capacity` bytes; none is a write past its end.
pub in_array : (capacity : ℕ) → Parsed → Option Parsed
in_array capacity r = if leb (length r.written) capacity then some r else none

-- The number, 0 where the text is empty or goes on behind it.
pub whole_number : String → Number → ℕ
whole_number arg n = if same_text arg "" || not n.whole then 0 else n.value

-- `*size = n` cuts to an `int`.
pub parse_size : Clib → String → Option ℕ
unfolding whole_number
parse_size c arg =
    let n = whole_number arg (c.strtoul 10 arg) in if n == 0 then none else some (n % 2 ^ 32)

-- Masks are not compared with the empty text.
pub mask : Number → ℕ
mask n = if n.whole then n.value else 0

pub parse_cryptodev_mask : Clib → String → Option ℕ
unfolding mask
parse_cryptodev_mask c arg = let pm = mask (c.strtoul 16 arg) in if pm == 0 then none else some pm

-- The mask has 32 bits; the result is the mask as an `int`, which the caller takes for an error where it
-- is negative.
unfoldable pub l2fwd_crypto_parse_portmask : Clib → String → Option ℕ
unfolding mask
l2fwd_crypto_parse_portmask c arg =
    let pm = mask (c.strtoul 16 arg) % 2 ^ 32 in
    if pm == 0 || leb (2 ^ 31) pm then none else some pm

pub l2fwd_crypto_parse_nqueue : Clib → String → Option ℕ
unfolding whole_number
l2fwd_crypto_parse_nqueue c arg =
    let n = whole_number arg (c.strtoul 10 arg) in
    if n == 0 || leb max_rx_queue_per_lcore n then none else some n

-- refresh_period, of 32 bits
pub l2fwd_crypto_parse_timer_period : Clib → String → ℕ
unfolding whole_number
l2fwd_crypto_parse_timer_period c arg =
    let n = whole_number arg (c.strtol arg) in
    let period = if leb max_timer_period n then max_timer_period else n in
    period * 1000 * c.timer_millisecond % 2 ^ 64 % 2 ^ 32

unfoldable pub no_material : Material
no_material = record { param = false; array = []; len = 0; random_size = minus_one }

-- `aes_cbc`, `sha1_hmac` and `aes_gcm` are the numbers of the default algorithms.
unfoldable pub l2fwd_crypto_default_options : Clib → (aes_cbc sha1_hmac aes_gcm : ℕ) → CryptoOptions
unfolding no_material
l2fwd_crypto_default_options c aes_cbc sha1_hmac aes_gcm = record {
  portmask = 0xffffffff;
  nb_ports_per_lcore = 1;
  refresh_period = 10 * c.timer_millisecond * 1000 % 2 ^ 64 % 2 ^ 32;
  single_lcore = false;
  cdev_type = CdevType.any;
  string_type = "";
  sessionless = false;
  xform_chain = Chain.cipher_hash;
  cipher_algo = aes_cbc;
  cipher_op = Direction.encrypt;
  dataunit_len = 0;
  cipher_key = no_material;
  cipher_iv = no_material;
  auth_algo = sha1_hmac;
  auth_op = AuthOp.generate;
  auth_key = no_material;
  auth_iv = no_material;
  aead_algo = aes_gcm;
  aead_op = Direction.encrypt;
  aead_key = no_material;
  aead_iv = no_material;
  aad = no_material;
  digest_size = minus_one;
  cryptodev_mask = 2 ^ 64 - 1;
  mac_updating = true;
}
