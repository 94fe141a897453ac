-- ===== src/Capability/Sample.antt =====
-- A device that encrypts and authenticates, and options that leave all sizes open.
use xyz.Prelude.{ℕ, ◌-◌, ◌^◌, ◌≡◌, refl, true, false, some, none, [], ◌∷◌}
use xyz.Capability.{
  Options, DevInfo, Cap, Range, Chain, CdevType, XformType, Param, Xform, check_capabilities,
  check_chain, check_cipher, check_auth, with_cap, cipher_checks, auth_checks, check_iv_param,
  check_optional, check_cipher_key, check_dataunit, find_cap, is_cipher, is_auth, check_type,
  check_device_support_cipher_algo, check_device_support_auth_algo, ◌then_check◌,
}

abbrev sizes : Range
sizes = record { min_size = 16; max_size = 32; increment = 16 }

abbrev cap : XformType → ℕ → Cap
cap kind algo = record {
  xform_type = kind;
  algo = algo;
  iv_size = sizes;
  key_size = sizes;
  aad_size = sizes;
  digest_size = sizes;
  dataunit_set = 0;
}

abbrev pub device : DevInfo
device = record {
  hw_accelerated = false;
  wrapped_key = false;
  multiple_data_units = false;
  capabilities = cap XformType.cipher 2 ∷ (cap XformType.auth 5 ∷ []);
}

abbrev open_size : Param
open_size = record { given = false; length = 0; random_size = none }

abbrev xform : ℕ → Xform
xform algo = record { algo = algo; iv = open_size; key = open_size }

-- No size is given, and every device is selected.
abbrev pub options : Options
options = record {
  type = CdevType.any;
  xform_chain = Chain.cipher_hash;
  cipher_xform = xform 2;
  dataunit_len = 0;
  auth_xform = xform 5;
  aead_xform = xform 1;
  aad = open_size;
  digest = none;
  cryptodev_mask = 2 ^ 64 - 1;
}

pub device_suits : check_capabilities options device ≡ some true
unfolding check_capabilities check_chain check_cipher check_auth with_cap cipher_checks auth_checks
    check_iv_param check_optional check_cipher_key check_dataunit find_cap is_cipher is_auth
    check_type check_device_support_cipher_algo check_device_support_auth_algo ◌then_check◌
device_suits = refl
