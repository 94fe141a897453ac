-- ===== src/Capability/Tests.antt =====
-- A device with one cipher.
use xyz.Prelude.{ℕ, ◌≡◌, refl, true, false, none, some, [], ◌∷◌}
use xyz.Capability.{
  any, cipher_only, cipher, Range, DevInfo, Param, Xform, Options, check_supported_size,
  check_capabilities,
}
use xyz.Capability.Accepts.{ChainFits, check_capabilities-ChainFits}

abbrev key_range : Range
key_range = record { min_size = 16; max_size = 32; increment = 8 }

abbrev single : ℕ → Range
single n = record { min_size = n; max_size = n; increment = 0 }

size_24 : check_supported_size 24 key_range ≡ some true
unfolding check_supported_size
size_24 = refl

size_25 : check_supported_size 25 key_range ≡ some false
unfolding check_supported_size
size_25 = refl

abbrev device : DevInfo
device = record {
  hw_accelerated = true;
  wrapped_key = false;
  multiple_data_units = false;
  capabilities =
      record {
        xform_type = cipher;
        algo = 3;
        iv_size = single 16;
        key_size = key_range;
        aad_size = single 0;
        digest_size = single 0;
        dataunit_set = 0;
      }
      ∷ [];
}

abbrev given : ℕ → Param
given n = record { given = true; length = n; random_size = none }

abbrev xform : Xform
xform = record { algo = 3; iv = given 16; key = given 32 }

abbrev options : Options
options = record {
  type = any;
  xform_chain = cipher_only;
  cipher_xform = xform;
  dataunit_len = 0;
  auth_xform = xform;
  aead_xform = xform;
  aad = given 0;
  digest = none;
  cryptodev_mask = 1;
}

device_accepted : check_capabilities options device ≡ some true
unfolding check_capabilities
device_accepted = refl

check_capabilities-ChainFits_example : ChainFits cipher_only options device
check_capabilities-ChainFits_example = check_capabilities-ChainFits options device device_accepted
