-- ===== src/CommandLine/Bytes.antt =====
-- Keys, IVs and AAD on the command line: bytes in hexadecimal, separated by colons.
use Prim.Native.String.{String}
use xyz.Prelude.{
  ℕ, zero, suc, ◌%◌, ◌<◌, ◌≤◌, ◌≡◌, ◌∙◌, refl, ap, true, false, none, some, leb, List, [], ◌∷◌, map,
  length, All, arith,
}
use xyz.CommandLine.{
  Clib, Material, CryptoOptions, Parsed, max_key_size, bad_token, put_byte, bytes_loop, tokens,
  parse_bytes, in_array, max_aad_size,
}
use xyz.CommandLine.Long.{
  update, stored, stored_length, parse_material, long_options, handle, key_of,
  l2fwd_crypto_parse_args_long_options,
}

-- How a byte is written, for a C library that reads it back.
unfoldable pub ReadsBack : Clib → (ℕ → String) → Type 0
ReadsBack c hex = (b : ℕ) → b < 256 → c.strtol_16 (hex b) ≡ record { number = b; failed = false }

byte_good : (b : ℕ) → b < 256 → bad_token (record { number = b; failed = false }) ≡ false
unfolding bad_token
byte_good b low = ground arith

bytes_loop_written :
    (c : Clib) (hex : ℕ → String) (bs : List ℕ) (room : ℕ)
    → ReadsBack c hex
    → All (λ b. b < 256) bs
    → length bs ≤ room
    → bytes_loop room (tokens c (map hex bs)) ≡ record { written = bs; ok = true }
unfolding bytes_loop tokens ReadsBack put_byte
bytes_loop_written c hex [] zero reads small fits = refl
bytes_loop_written c hex [] (suc room) reads small fits = refl
bytes_loop_written c hex (b ∷ bs) zero reads small fits = absurd (omega arith)
bytes_loop_written c hex (b ∷ bs) (suc room) reads (low, small) fits =
    let h = bytes_loop_written c hex bs room reads small (omega (arith, fits)) in
    let good : bad_token (record { number = b; failed = false }) ≡ false = byte_good b low in
    let same : b % 256 ≡ b = omega arith in rw (reads b low, good, h, same) refl

-- A key or an IV of at most `max_size` bytes, written byte by byte, is read as it is, into an array that
-- has at least `max_size` bytes, and nothing is written past its end. (The array of the AAD is shorter
-- than its `max_size`.)
pub parse_bytes-written :
    (c : Clib) (hex : ℕ → String) (text : String) (bs : List ℕ) (max_size capacity : ℕ)
    → ReadsBack c hex
    → c.strtok text ≡ map hex bs
    → All (λ b. b < 256) bs
    → length bs ≤ max_size
    → max_size ≤ capacity
    → in_array capacity (parse_bytes c text max_size) ≡ some (record { written = bs; ok = true })
unfolding parse_bytes in_array
parse_bytes-written c hex text bs max_size capacity reads cut small fits room =
    let read =
      ap (λ ts. bytes_loop max_size (tokens c ts)) cut
      ∙ bytes_loop_written c hex bs max_size reads small fits in
    let inside : leb (length bs) capacity ≡ true = ground (arith, fits, room) in
    ap (in_array capacity) read ∙ rw inside refl

leb-above : (a b : ℕ) → b < a → leb a b ≡ false
leb-above a b h = ground arith

-- A long AAD is written past its array of 128 bytes: the option takes any number of bytes up to 65535.
pub parse_bytes-overflow :
    (c : Clib) (hex : ℕ → String) (text : String) (bs : List ℕ)
    → ReadsBack c hex
    → c.strtok text ≡ map hex bs
    → All (λ b. b < 256) bs
    → length bs ≤ max_aad_size
    → max_key_size < length bs
    → in_array max_key_size (parse_bytes c text max_aad_size) ≡ none
unfolding parse_bytes in_array
parse_bytes-overflow c hex text bs reads cut small fits long =
    let read =
      ap (λ ts. bytes_loop max_aad_size (tokens c ts)) cut
      ∙ bytes_loop_written c hex bs max_aad_size reads small fits in
    let outside = leb-above (length bs) max_key_size long in
    ap (in_array max_key_size) read ∙ rw outside refl

invalid_stored :
    (m : Material) (r : Parsed)
    → r.ok ≡ false
    → (parse_material m r ≡ some (stored m r)) × ((stored m r).len ≡ 65535)
unfolding parse_material stored stored_length
invalid_stored m r bad = rw bad (refl, refl)

-- The options take a key with an invalid byte: the result -1 of parse_bytes is stored in 16 bits without
-- a sign, and the key gets the length 65535, in an array of 128 bytes.
pub invalid_key_accepted :
    (c : Clib) (arg : String) (o : CryptoOptions)
    → (parse_bytes c arg max_key_size).ok ≡ false
    → (m : Material) × (l2fwd_crypto_parse_args_long_options "cipher_key" c arg o
        ≡ some (record o { cipher_key = m }))
      × (m.len ≡ 65535)
unfolding l2fwd_crypto_parse_args_long_options handle long_options update key_of
invalid_key_accepted c arg o bad =
    let r = parse_bytes c arg max_key_size in
    let (taken, long) = invalid_stored o.cipher_key r bad in
    (stored o.cipher_key r, ap (λ x. update x (λ m. record o { cipher_key = m })) taken, long)
