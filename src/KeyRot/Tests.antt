-- ===== src/KeyRot/Tests.antt =====
-- Two lcores with one device each; a session table is its current epoch.
use xyz.Prelude.{ℕ, ◌≡◌, refl, sym, ap, true, false, List, [], ◌∷◌, none, some, arith, replicate}
use xyz.KeyRot.{CsApi, Shared, Lcore, install_key, other, drain}
use xyz.KeyRot.Share.{other_message_hides_key}

abbrev tables : CsApi
tables = record {
  Port = ℕ;
  Session = ℕ;
  rotate = λ p key epoch. (epoch, true);
  session_current = λ p. p;
  retire_prev = λ p. p;
  epoch_cur = λ p. p;
  rotate-epoch = λ p p' key epoch h. sym (ap (λ x. x.0) h);
}

abbrev encrypting : Lcore ℕ ℕ
encrypting = record {
  devices = record { cs = 4; session = 4; do_cipher = true; is_encrypt = true } ∷ [];
  applied_seq = 5;
  enc_cs = some 0;
}

abbrev decrypting : Lcore ℕ ℕ
decrypting = record {
  devices = record { cs = 4; session = 4; do_cipher = true; is_encrypt = false } ∷ [];
  applied_seq = 5;
  enc_cs = none;
}

abbrev shared : Shared
shared = record { key = replicate 16 1; epoch = 4; seq = 5; rotations = 5; cur_epoch = 4 }

abbrev key : List ℕ
key = replicate 16 2

other_message_hides_key_example :
    let (g1, a1) = drain tables shared decrypting (install_key 5 key ∷ []) true in
    let (g2, b1) = drain tables g1 encrypting (other ∷ []) true in
    (b1.devices ≡ encrypting.devices) × (drain tables g2 b1 [] false ≡ (g2, b1))
other_message_hides_key_example =
    other_message_hides_key tables shared decrypting encrypting 5 key (omega arith) refl
