-- ===== src/CommandLine/Tests.antt =====
-- A C library that reads the texts of these tests.
use Prim.Native.String.{String}
use xyz.Prelude.{
  ℕ, zero, suc, ◌+◌, ◌≡◌, refl, ap, true, false, some, none, [], ◌∷◌, if◌then◌else◌, arith,
}
use xyz.CommandLine.{
  Clib, Material, CryptoOptions, same_text, parse_bytes, in_array, max_key_size,
  l2fwd_crypto_default_options,
}
use xyz.CommandLine.Long.{l2fwd_crypto_parse_args_long_options}
use xyz.CommandLine.Args.{
  portmask, nqueue, long_option, l2fwd_crypto_parse_args, IfAny, Usable, parse_args-Usable,
}
use xyz.CommandLine.Bytes.{ReadsBack, parse_bytes-written, invalid_key_accepted}

-- "3" is three; every other text is the invalid byte 0x1ff.
abbrev clib : Clib
clib = record {
  strtoul = λ base s. record { value = if same_text s "3" then 3 else 0; whole = true };
  strtol = λ s. record { value = 0; whole = true };
  strtok = λ s. s ∷ [];
  strtol_16 = λ s. record { number = if same_text s "3" then 3 else 0x1ff; failed = false };
  cipher_algo_enum = λ s. none;
  auth_algo_enum = λ s. none;
  aead_algo_enum = λ s. none;
  timer_millisecond = 1000000;
}

abbrev defaults : CryptoOptions
unfolding l2fwd_crypto_default_options
defaults = l2fwd_crypto_default_options clib 2 5 1

parse_args-Usable_example : IfAny Usable (
    l2fwd_crypto_parse_args clib 2 5 1
      (portmask "3" ∷ (nqueue "3" ∷ (long_option "chain" "AEAD" ∷ []))))
parse_args-Usable_example =
    parse_args-Usable clib 2 5 1 (portmask "3" ∷ (nqueue "3" ∷ (long_option "chain" "AEAD" ∷ [])))

invalid_byte : (parse_bytes clib "1ff" max_key_size).ok ≡ false
unfolding parse_bytes
invalid_byte = refl

invalid_key_accepted_example :
    (m : Material) × (l2fwd_crypto_parse_args_long_options "cipher_key" clib "1ff" defaults
      ≡ some (record defaults { cipher_key = m }))
    × (m.len ≡ 65535)
invalid_key_accepted_example = invalid_key_accepted clib "1ff" defaults invalid_byte

-- This library reads a text of n letters as the byte n.
letters : String → ℕ
letters String.[] = 0
letters (String.◌∷◌ c s) = 1 + letters s

unary : ℕ → String
unary zero = String.[]
unary (suc n) = String.◌∷◌ "a" (unary n)

letters-unary : (n : ℕ) → letters (unary n) ≡ n
unfolding letters unary
letters-unary zero = refl
letters-unary (suc n) = omega (arith, letters-unary n)

abbrev unary_clib : Clib
unary_clib = record clib {
  strtok = λ s. unary 1 ∷ (unary 2 ∷ []);
  strtol_16 = λ s. record { number = letters s; failed = false };
}

unary_reads : ReadsBack unary_clib unary
unfolding ReadsBack
unary_reads b low = ap (λ n. record { number = n; failed = false }) (letters-unary b)

parse_bytes-written_example :
    in_array 16 (parse_bytes unary_clib "a:aa" 16)
    ≡ some (record { written = 1 ∷ (2 ∷ []); ok = true })
parse_bytes-written_example =
    parse_bytes-written unary_clib unary "a:aa" (1 ∷ (2 ∷ [])) 16 16 unary_reads refl
      (omega arith, (omega arith, tt)) (omega arith) (omega arith)
