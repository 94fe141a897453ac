-- ===== src/CommandLine/Long.antt =====
-- The long options of `main (1).c`: `l2fwd_crypto_parse_args_long_options`, as a table in the order of
-- its comparisons. none is the result -1, which ends the program.
use Prim.Native.String.{String}
use xyz.Prelude.{
  ℕ, ◌%◌, ◌^◌, true, false, ltb, if◌then◌else◌, Option, none, some, List, [], ◌∷◌, ◌++◌, length,
  drop,
}
use xyz.CommandLine.{
  Clib, Material, CryptoOptions, Parsed, same_text, max_key_size, max_iv_size, max_aad_size,
  parse_cryptodev_type, parse_crypto_opt_chain, parse_cipher_op, parse_auth_op, parse_aead_op,
  parse_bytes, parse_size, parse_cryptodev_mask,
}

unfoldable pub update : {A : Type 0} → Option A → (A → CryptoOptions) → Option CryptoOptions
update none f = none
update (some a) f = some (f a)

-- The length is a `uint16_t`: the -1 of parse_bytes is 65535 in it.
unfoldable pub stored_length : Parsed → ℕ
stored_length r = if r.ok then length r.written % 2 ^ 16 else 65535

unfoldable pub stored : Material → Parsed → Material
unfolding stored_length
stored m r = record m {
  param = true;
  array = r.written ++ drop (length r.written) m.array;
  len = stored_length r;
}

-- `length > 0`
unfoldable pub parse_material : Material → Parsed → Option Material
unfolding stored
parse_material m r = if ltb 0 (stored_length r) then some (stored m r) else none

abbrev pub Handler : Type 0
Handler = Clib → String → CryptoOptions → Option CryptoOptions

-- `retval == 0 && val >= 0`, for an `int`.
dataunit : Option ℕ → Option ℕ
dataunit none = none
dataunit (some n) = if ltb n (2 ^ 31) then some n else none

unfoldable pub key_of : Clib → String → Material → Option Material
unfolding parse_material
key_of c arg m = parse_material m (parse_bytes c arg max_key_size)

iv_of : Clib → String → Material → Option Material
unfolding parse_material
iv_of c arg m = parse_material m (parse_bytes c arg max_iv_size)

sized : Material → ℕ → Material
sized m n = record m { random_size = n }

unfoldable pub long_options : List (String × Handler)
unfolding update key_of iv_of sized dataunit parse_material
long_options =
    (
      "cdev_type",
      λ c arg o.
          update (parse_cryptodev_type arg) (λ t. record o { cdev_type = t; string_type = arg }),
    )
    ∷ (("chain", λ c arg o. update (parse_crypto_opt_chain arg) (λ x. record o { xform_chain = x }))
        ∷ ((
          "cipher_algo",
          λ c arg o. update (c.cipher_algo_enum arg) (λ a. record o { cipher_algo = a }),
        )
            ∷ ((
              "cipher_op",
              λ c arg o. update (parse_cipher_op arg) (λ d. record o { cipher_op = d }),
            )
                ∷ ((
                  "cipher_key",
                  λ c arg o. update (key_of c arg o.cipher_key) (λ m. record o { cipher_key = m }),
                )
                    ∷ ((
                      "cipher_dataunit_len",
                      λ c arg o.
                          update (dataunit (parse_size c arg)) (λ n. record o { dataunit_len = n }),
                    )
                        ∷ ((
                          "cipher_key_random_size",
                          λ c arg o.
                              update (parse_size c arg)
                                (λ n. record o { cipher_key = sized o.cipher_key n }),
                        )
                            ∷ ((
                              "cipher_iv",
                              λ c arg o.
                                  update (iv_of c arg o.cipher_iv)
                                    (λ m. record o { cipher_iv = m }),
                            )
                                ∷ ((
                                  "cipher_iv_random_size",
                                  λ c arg o.
                                      update (parse_size c arg)
                                        (λ n. record o { cipher_iv = sized o.cipher_iv n }),
                                )
                                    ∷ ((
                                      "auth_algo",
                                      λ c arg o.
                                          update (c.auth_algo_enum arg)
                                            (λ a. record o { auth_algo = a }),
                                    )
                                        ∷ ((
                                          "auth_op",
                                          λ c arg o.
                                              update (parse_auth_op arg)
                                                (λ d. record o { auth_op = d }),
                                        )
                                            ∷ ((
                                              "auth_key",
                                              λ c arg o.
                                                  update (key_of c arg o.auth_key)
                                                    (λ m. record o { auth_key = m }),
                                            )
                                                ∷ ((
                                                  "auth_key_random_size",
                                                  λ c arg o. update (parse_size c arg) (λ n.
                                                      record o { auth_key = sized o.auth_key n }),
                                                )
                                                    ∷ ((
                                                      "auth_iv",
                                                      λ c arg o.
                                                          update (iv_of c arg o.auth_iv)
                                                            (λ m. record o { auth_iv = m }),
                                                    )
                                                        ∷ ((
                                                          "auth_iv_random_size",
                                                          λ c arg o. update (parse_size c arg) (λ n.
                                                            record o {
                                                            auth_iv = sized o.auth_iv n;
                                                            }),
                                                        )
                                                            ∷ ((
                                                            "aead_algo",
                                                            λ c arg o.
                                                            update (c.aead_algo_enum arg)
                                                            (λ a. record o { aead_algo = a }),
                                                            )
                                                            ∷ ((
                                                            "aead_op",
                                                            λ c arg o.
                                                            update (parse_aead_op arg)
                                                            (λ d. record o { aead_op = d }),
                                                            )
                                                            ∷ ((
                                                            "aead_key",
                                                            λ c arg o.
                                                            update (key_of c arg o.aead_key)
                                                            (λ m. record o { aead_key = m }),
                                                            )
                                                            ∷ ((
                                                            "aead_key_random_size",
                                                            λ c arg o.
                                                            update (parse_size c arg) (λ n.
                                                            record o {
                                                            aead_key = sized o.aead_key n;
                                                            }),
                                                            )
                                                            ∷ ((
                                                            "aead_iv",
                                                            λ c arg o.
                                                            update (iv_of c arg o.aead_iv)
                                                            (λ m. record o { aead_iv = m }),
                                                            )
                                                            ∷ ((
                                                            "aead_iv_random_size",
                                                            λ c arg o.
                                                            update (parse_size c arg) (λ n.
                                                            record o {
                                                            aead_iv = sized o.aead_iv n;
                                                            }),
                                                            )
                                                            ∷ ((
                                                            "aad",
                                                            λ c arg o.
                                                            update
                                                            (parse_material o.aad
                                                            (parse_bytes c arg max_aad_size))
                                                            (λ m. record o { aad = m }),
                                                            )
                                                            ∷ ((
                                                            "aad_random_size",
                                                            λ c arg o.
                                                            update (parse_size c arg)
                                                            (λ n. record o { aad = sized o.aad n }),
                                                            )
                                                            ∷ ((
                                                            "digest_size",
                                                            λ c arg o.
                                                            update (parse_size c arg)
                                                            (λ n. record o { digest_size = n }),
                                                            )
                                                            ∷ ((
                                                            "sessionless",
                                                            λ c arg o.
                                                            some (record o { sessionless = true }),
                                                            )
                                                            ∷ ((
                                                            "cryptodev_mask",
                                                            λ c arg o.
                                                            update (parse_cryptodev_mask c arg)
                                                            (λ n. record o { cryptodev_mask = n }),
                                                            )
                                                            ∷ ((
                                                            "mac-updating",
                                                            λ c arg o.
                                                            some (record o { mac_updating = true }),
                                                            )
                                                            ∷ ((
                                                            "no-mac-updating",
                                                            λ c arg o.
                                                            some
                                                            (record o { mac_updating = false }),
                                                            )
                                                            ∷ [])))))))))))))))))))))))))))

unfoldable pub handle : List (String × Handler) → (name : String) → Handler
handle [] name c arg o = none
handle ((n, h) ∷ rest) name c arg o =
    if same_text name n then h c arg o else handle rest name c arg o

unfoldable pub l2fwd_crypto_parse_args_long_options : (name : String) → Handler
unfolding long_options handle
l2fwd_crypto_parse_args_long_options name c arg o = handle long_options name c arg o
