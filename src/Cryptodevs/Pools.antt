-- ===== src/Cryptodevs/Pools.antt =====
-- The second loop of `initialize_cryptodevs`: the session pools, and the lengths that the options left
-- open. The block sizes of the algorithms are not part of the model.
use xyz.Prelude.{
  ℕ, ◌+◌, ◌*◌, ◌%◌, ◌^◌, Bool, true, false, ◌==◌, if◌then◌else◌, Option, none, some, List, [], ◌∷◌,
}
use xyz.CommandLine.{CryptoOptions, Material, minus_one}
use xyz.Capability.{
  DevInfo, Cap, Chain, check_device_support_aead_algo, check_device_support_cipher_algo,
  check_device_support_auth_algo,
}
use xyz.Cryptodevs.{CryptoDev, capability_options, suits}

-- What is set by a device: the options, `aad_length`, and both digest lengths.
pub record Settled : Type 0 where
  pub options : CryptoOptions
  pub aad_length : ℕ
  pub aead_digest : ℕ
  pub auth_digest : ℕ

-- An IV, or AAD, that the command line did not give: the random size, else the least one.
pub settle : Material → (min_size : ℕ) → Material
settle m min_size =
    if m.param
    then m
    else record m { len = if m.random_size == minus_one then min_size else m.random_size % 2 ^ 16 }

-- A key is drawn at random in that case.
pub settle_key : (ℕ → List ℕ) → Material → (min_size : ℕ) → Material
unfolding settle
settle_key random m min_size =
    let s = settle m min_size in if m.param then m else record s { array = random s.len }

digest_or : CryptoOptions → ℕ → ℕ
digest_or o min_size = if o.digest_size == minus_one then min_size else o.digest_size % 2 ^ 16

-- `cap` is used without a test: none is a NULL pointer.
set_aead : (ℕ → List ℕ) → Settled → Option Cap → Option Settled
unfolding settle settle_key digest_or
set_aead random s none = none
set_aead random s (some cap) =
    let o = s.options in
    let aad = settle o.aad cap.aad_size.min_size in
    some (record {
      options = record o {
        aead_iv = settle o.aead_iv cap.iv_size.min_size;
        aead_key = settle_key random o.aead_key cap.key_size.min_size;
        aad = aad;
      };
      aad_length = aad.len;
      aead_digest = digest_or o cap.digest_size.min_size;
      auth_digest = s.auth_digest;
    })

set_cipher : (ℕ → List ℕ) → Settled → Option Cap → Option Settled
unfolding settle settle_key
set_cipher random s none = none
set_cipher random s (some cap) =
    let o = s.options in
    some (record s {
      options = record o {
        cipher_iv = settle o.cipher_iv cap.iv_size.min_size;
        cipher_key = settle_key random o.cipher_key cap.key_size.min_size;
      };
    })

set_auth : (ℕ → List ℕ) → Settled → Option Cap → Option Settled
unfolding settle settle_key digest_or
set_auth random s none = none
set_auth random s (some cap) =
    let o = s.options in
    some (record s {
      options = record o {
        auth_iv = settle o.auth_iv cap.iv_size.min_size;
        auth_key = settle_key random o.auth_key cap.key_size.min_size;
      };
      auth_digest = digest_or o cap.digest_size.min_size;
    })

then_set : Option Settled → (Settled → Option Settled) → Option Settled
then_set none f = none
then_set (some s) f = f s

cipher_cap : Settled → DevInfo → Option Cap
cipher_cap s dev = check_device_support_cipher_algo (capability_options s.options) dev

auth_cap : Settled → DevInfo → Option Cap
auth_cap s dev = check_device_support_auth_algo (capability_options s.options) dev

-- By `xform_chain`.
pub set_chain : (ℕ → List ℕ) → Chain → DevInfo → Settled → Option Settled
unfolding set_aead set_cipher set_auth then_set cipher_cap auth_cap
set_chain random Chain.aead_chain dev s =
    set_aead random s (check_device_support_aead_algo (capability_options s.options) dev)
set_chain random Chain.cipher_only dev s = set_cipher random s (cipher_cap s dev)
set_chain random Chain.hash_only dev s = set_auth random s (auth_cap s dev)
set_chain random Chain.cipher_hash dev s =
    then_set (set_cipher random s (cipher_cap s dev)) (λ t. set_auth random t (auth_cap t dev))
set_chain random Chain.hash_cipher dev s =
    then_set (set_cipher random s (cipher_cap s dev)) (λ t. set_auth random t (auth_cap t dev))

-- `sess_mp` as the number of its sessions, none for NULL; and `sessions_needed`, which no round resets.
pub record PoolState : Type 0 where
  pub sess_mp : ℕ → Option ℕ
  pub needed : ℕ
  pub settled : Settled

-- `scheduler` is whether RTE_CRYPTO_SCHEDULER is defined.
pub sessions_for : (scheduler : Bool) (count : ℕ) → Option ℕ → (needed : ℕ) → ℕ
sessions_for scheduler count none needed = count * 4 % 2 ^ 32
sessions_for scheduler count (some workers) needed =
    (if scheduler then count * (1 + workers) else needed) * 4 % 2 ^ 32

kept_or : Option ℕ → ℕ → Option ℕ
kept_or none sessions = some sessions
kept_or (some n) sessions = some n

-- A pool that is missing needs memory.
pool_made : (has_memory : Bool) → Option ℕ → Bool
pool_made has_memory none = has_memory
pool_made has_memory (some n) = true

-- A pool that is there is kept.
pub with_pool : (ℕ → Option ℕ) → (socket_id sessions : ℕ) → ℕ → Option ℕ
unfolding kept_or
with_pool pools socket_id sessions q =
    if q == socket_id then kept_or (pools socket_id) sessions else pools q

started : Bool → PoolState → Option Settled → Option PoolState
started starts s none = none
started false s (some t) = none
started true s (some t) = some (record s { settled = t })

-- One device that is enabled. none is the result -1 or -ENOMEM; `has_memory` is whether a pool can be made.
pub init_device :
    (ℕ → List ℕ)
    → (scheduler has_memory : Bool) → (count : ℕ) → CryptoDev
    → PoolState
    → Option ℕ
    → Option PoolState
unfolding sessions_for with_pool pool_made started set_chain
init_device random scheduler has_memory count d s none = none
init_device random scheduler has_memory count d s (some socket_id) =
    let needed = sessions_for scheduler count d.workers s.needed in
    let pools : PoolState = record {
      sess_mp = with_pool s.sess_mp socket_id needed;
      needed = needed;
      settled = s.settled;
    } in
    if pool_made has_memory (s.sess_mp socket_id)
    then started d.starts pools (set_chain random s.settled.options.xform_chain d.info s.settled)
    else none

bind_pools : Option PoolState → (PoolState → Option PoolState) → Option PoolState
bind_pools none f = none
bind_pools (some s) f = f s

-- An enabled device is checked once more, by the options as they are then.
checked_again : CryptoOptions → (on : Bool) (cdev_id : ℕ) → CryptoDev → Option Bool
unfolding suits
checked_again o on cdev_id d = if on then suits o cdev_id d else some false

-- Over all devices, of which those are set up that are enabled and suit; none also where a check never
-- ends.
pub init_loop :
    (ℕ → List ℕ)
    → (scheduler has_memory : Bool) → (count cdev_id : ℕ) → List (Bool × CryptoDev)
    → PoolState
    → Option PoolState
unfolding init_device bind_pools checked_again
init_loop random scheduler has_memory count cdev_id [] s = some s
init_loop random scheduler has_memory count cdev_id ((on, d) ∷ ds) s =
    let rest : PoolState → Option PoolState =
      λ s'. init_loop random scheduler has_memory count (cdev_id + 1) ds s' in
    elim (checked_again s.settled.options on cdev_id d) [
      | none ↦ none
      | some false ↦ rest s
      | some true ↦ bind_pools (init_device random scheduler has_memory count d s d.socket_id) rest
    ]
