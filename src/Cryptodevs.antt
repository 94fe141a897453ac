-- ===== src/Cryptodevs.antt =====
-- The set-up of the crypto devices in `main (1).c`: `initialize_cryptodevs`. What the devices say of
-- themselves, and whether the calls that configure and start them succeed, are arguments.
pub mod Enabled
pub mod Pools
mod Tests
use xyz.Prelude.{
  ℕ, ◌+◌, ◌-◌, ◌*◌, ◌%◌, ◌^◌, ◌≡◌, Bool, true, false, ◌==◌, ◌&&◌, ltb, if◌then◌else◌, Option, none,
  some, List, [], ◌∷◌,
}
use xyz.CommandLine.{CryptoOptions, Material, minus_one}
use xyz.Capability
use xyz.Capability.{
  DevInfo, Cap, Chain, Range, check_cryptodev_mask, check_capabilities, check_aead,
  check_device_support_aead_algo, check_device_support_cipher_algo, check_device_support_auth_algo,
  ◌then_check◌,
}

-- A size of -1 is none.
size_of : ℕ → Option ℕ
size_of n = if n == minus_one then none else some n

param_of : Material → Capability.Param
unfolding size_of
param_of m = record { given = m.param; length = m.len; random_size = size_of m.random_size }

-- The options as the checks of Capability read them.
pub capability_options : CryptoOptions → Capability.Options
unfolding param_of size_of
capability_options o = record {
  type = o.cdev_type;
  xform_chain = o.xform_chain;
  cipher_xform = record {
    algo = o.cipher_algo;
    iv = param_of o.cipher_iv;
    key = param_of o.cipher_key;
  };
  dataunit_len = o.dataunit_len;
  auth_xform = record { algo = o.auth_algo; iv = param_of o.auth_iv; key = param_of o.auth_key };
  aead_xform = record { algo = o.aead_algo; iv = param_of o.aead_iv; key = param_of o.aead_key };
  aad = param_of o.aad;
  digest = size_of o.digest_size;
  cryptodev_mask = o.cryptodev_mask;
}

-- A device: its information, its driver (`none` is no scheduler, else its workers), its socket, the size
-- of its sessions, and if it can be configured, given a queue pair and started.
pub record CryptoDev : Type 0 where
  pub info : DevInfo
  pub workers : Option ℕ
  pub socket_id : Option ℕ
  pub session_size : ℕ
  pub starts : Bool

-- Both checks, the second only after the first; none where a check is undefined or never ends.
pub suits : CryptoOptions → ℕ → CryptoDev → Option Bool
unfolding capability_options ◌then_check◌
suits o cdev_id d =
    let c = capability_options o in
    check_cryptodev_mask c cdev_id then_check check_capabilities c d.info

-- `enabled_cdevs` up to `cdev_count`, `enabled_cdev_count`, `max_sess_sz`.
pub record EnabledDevs : Type 0 where
  pub enabled_cdevs : List Bool
  pub count : ℕ
  pub max_sess_sz : ℕ

pub found_one : EnabledDevs → Bool → ℕ → EnabledDevs
found_one f false size = record f { enabled_cdevs = false ∷ f.enabled_cdevs }
found_one f true size = record {
  enabled_cdevs = true ∷ f.enabled_cdevs;
  count = f.count + 1;
  max_sess_sz = if ltb f.max_sess_sz size then size else f.max_sess_sz;
}

found : Option EnabledDevs → Bool → ℕ → Option EnabledDevs
unfolding found_one
found none on size = none
found (some f) on size = some (found_one f on size)

-- Without room the loop has ended, and nothing is checked.
pub tested : CryptoOptions → (room cdev_id : ℕ) → CryptoDev → Option Bool
unfolding suits
tested o room cdev_id d = if room == 0 then some false else suits o cdev_id d

-- The first loop, which ends when `room` more devices are enabled.
pub enable_loop : CryptoOptions → (room cdev_id : ℕ) → List CryptoDev → Option EnabledDevs
unfolding tested found
enable_loop o room cdev_id [] = some (record { enabled_cdevs = []; count = 0; max_sess_sz = 0 })
enable_loop o room cdev_id (d ∷ ds) = elim (tested o room cdev_id d) [
  | none ↦ none
  | some on ↦
      let left = if on then room - 1 else room in
      found (enable_loop o left (cdev_id + 1) ds) on d.session_size
]
