-- ===== src/Cryptodevs/Tests.antt =====
-- Three devices on one socket, for two ports.
use xyz.Prelude.{ℕ, zero, suc, ◌<◌, ◌≡◌, refl, true, false, some, none, List, [], ◌∷◌, arith}
use xyz.CommandLine.{Clib, CryptoOptions, l2fwd_crypto_default_options, no_material}
use xyz.Capability.{check_cryptodev_mask, ◌then_check◌}
use xyz.Capability.Sample
use xyz.Cryptodevs.{
  CryptoDev, EnabledDevs, enable_loop, suits, capability_options, param_of, size_of,
}
use xyz.Cryptodevs.Enabled.{AllAnswered, Enabled, enable_loop-Enabled}

abbrev clib : Clib
clib = record {
  strtoul = λ base s. record { value = 0; whole = true };
  strtol = λ s. record { value = 0; whole = true };
  strtok = λ s. s ∷ [];
  strtol_16 = λ s. record { number = 0; failed = false };
  cipher_algo_enum = λ s. none;
  auth_algo_enum = λ s. none;
  aead_algo_enum = λ s. none;
  timer_millisecond = 1000000;
}

abbrev options : CryptoOptions
options = l2fwd_crypto_default_options clib 2 5 1

abbrev device : CryptoDev
device = record {
  info = Sample.device;
  workers = none;
  socket_id = some 0;
  session_size = 200;
  starts = true;
}

abbrev devices : List CryptoDev
devices = device ∷ (device ∷ (device ∷ []))

same_options : capability_options options ≡ Sample.options
unfolding capability_options param_of size_of l2fwd_crypto_default_options no_material
same_options = refl

first_three : (cdev_id : ℕ) → cdev_id < 3 → check_cryptodev_mask Sample.options cdev_id ≡ some true
unfolding check_cryptodev_mask
first_three zero low = refl
first_three (suc zero) low = refl
first_three (suc (suc zero)) low = refl
first_three (suc (suc (suc n))) low = absurd (omega arith)

answers_yes : (cdev_id : ℕ) → cdev_id < 3 → suits options cdev_id device ≡ some true
unfolding suits ◌then_check◌
answers_yes cdev_id low = rw (same_options, first_three cdev_id low, Sample.device_suits) refl

devices-AllAnswered : AllAnswered options 0 devices
devices-AllAnswered = (
  (true, answers_yes 0 (omega arith)),
  ((true, answers_yes 1 (omega arith)), ((true, answers_yes 2 (omega arith)), tt)),
)

enable_loop-Enabled_example :
    (f : EnabledDevs) × (enable_loop options 2 0 devices ≡ some f) × Enabled options 2 0 devices f
enable_loop-Enabled_example = enable_loop-Enabled options 2 0 devices devices-AllAnswered
