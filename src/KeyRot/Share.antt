-- ===== src/KeyRot/Share.antt =====
-- Keys of one lcore reach the other.
use xyz.Prelude.{
  ℕ, ◌+◌, ◌%◌, ◌^◌, ◌≡◌, ◌≢◌, ◌<◌, refl, sym, ◌∙◌, true, false, List, [], ◌∷◌, ◌==◌, Bool-cases,
  ◌⊎◌, inl, inr, All, arith,
}
use xyz.KeyRot.{
  CsApi, Device, Shared, Lcore, install_key, other, epoch_unset, rotated, rotate_device,
  rotate_devices, kr_install_cb, on_messages, apply_shared, mark_applied, drain,
}

module _ (api : CsApi) where
  open api use {Port, Session, rotate, session_current, epoch_cur, rotate-epoch}

  -- A ciphering device works with the key of this epoch, in the session of its table.
  abbrev pub Uses : ℕ → Device Port Session → Type 0
  Uses epoch d = d.do_cipher ≡ true → (epoch_cur d.cs ≡ epoch) × (d.session ≡ session_current d.cs)

  -- `cs_rotate` succeeds on it.
  abbrev pub Rotates : List ℕ → ℕ → Device Port Session → Type 0
  Rotates key epoch d = d.do_cipher ≡ true → (p : Port) × (rotate d.cs key epoch ≡ (p, true))

  rotate_device-Uses :
      (d : Device Port Session) (key : List ℕ) (epoch : ℕ)
      → Rotates key epoch d
      → Uses epoch (rotate_device api key epoch d)
  unfolding rotate_device rotated
  rotate_device-Uses d key epoch r c = elim (Bool-cases d.do_cipher) [
    | inl on ↦ let (p, h) = r on in rw (on) (rw (h) (rotate-epoch d.cs p key epoch h, refl))
    | inr off ↦ absurd (apart (sym (rw (off) refl) ∙ c))
  ]
    where
      apart : false ≢ true
      apart x = cc x

  rotate_devices-Uses :
      (ds : List (Device Port Session)) (key : List ℕ) (epoch : ℕ)
      → All (Rotates key epoch) ds
      → All (Uses epoch) (rotate_devices api key epoch ds)
  unfolding rotate_devices
  rotate_devices-Uses [] key epoch r = tt
  rotate_devices-Uses (d ∷ ds) key epoch r =
      (rotate_device-Uses d key epoch r.0, rotate_devices-Uses ds key epoch r.1)

  apply_shared-old :
      (g : Shared) (l : Lcore Port Session)
      → ((g.epoch ≡ epoch_unset) ⊎ (g.seq ≡ l.applied_seq))
      → apply_shared api g l ≡ (g, l)
  unfolding apply_shared
  apply_shared-old g l (inl unset) =
      let a : (g.epoch == epoch_unset) ≡ true = ground arith in rw a refl
  apply_shared-old g l (inr same) =
      let b : (g.seq == l.applied_seq) ≡ true = ground arith in
      elim (Bool-cases (g.epoch == epoch_unset)) [ inl e ↦ rw (e) refl | inr e ↦ rw (e, b) refl ]

  -- An lcore that has nothing to apply and receives nothing stays as it is.
  pub drain-idle :
      (g : Shared) (l : Lcore Port Session)
      → ((g.epoch ≡ epoch_unset) ⊎ (g.seq ≡ l.applied_seq))
      → drain api g l [] false ≡ (g, l)
  unfolding drain mark_applied on_messages
  drain-idle g l h = apply_shared-old g l h

  -- The lcore that receives the key.
  abbrev published : Shared → Lcore Port Session → ℕ → List ℕ → Shared
  published g l epoch key = (kr_install_cb api g l epoch key).0

  abbrev receiver : Shared → Lcore Port Session → ℕ → List ℕ → Lcore Port Session
  receiver g l epoch key = record (kr_install_cb api g l epoch key).1 {
    applied_seq = (published g l epoch key).seq;
  }

  drain-install :
      (g : Shared) (l : Lcore Port Session) (epoch : ℕ) (key : List ℕ)
      → drain api g l (install_key epoch key ∷ []) true
        ≡ (published g l epoch key, receiver g l epoch key)
  unfolding drain mark_applied on_messages
  drain-install g l epoch key =
      apply_shared-old (published g l epoch key) (receiver g l epoch key) (inr refl)

  pub new_seq : (n : ℕ) → n < 2 ^ 32 → (n + 1) % 2 ^ 32 ≢ n
  new_seq n h e = omega arith

  module _ (g : Shared) (a b : Lcore Port Session) (epoch : ℕ) (key : List ℕ)
      (seq_bound : g.seq < 2 ^ 32) (b_current : b.applied_seq ≡ g.seq) where
    -- An lcore that receives another message before its step B takes the key for applied: its
    -- devices stay as they are, now and in every later step in which nothing is received.
    pub other_message_hides_key :
        let (g1, a1) = drain api g a (install_key epoch key ∷ []) true in
        let (g2, b1) = drain api g1 b (other ∷ []) true in
        (b1.devices ≡ b.devices) × (drain api g2 b1 [] false ≡ (g2, b1))
    unfolding drain mark_applied on_messages
    other_message_hides_key =
        let g1 = published g a epoch key in
        let marked : Lcore Port Session = record b { applied_seq = g1.seq } in
        rw (drain-install g a epoch key)
          (rw (apply_shared-old g1 marked (inr refl)) (refl, apply_shared-old g1 marked (inr refl)))

    -- A key whose epoch is 0xFF is used by the lcore that receives it, and never by the other one.
    pub unset_epoch_not_shared :
        epoch ≡ epoch_unset
        → All (Rotates key epoch) a.devices
        → let (g1, a1) = drain api g a (install_key epoch key ∷ []) true in
          All (Uses epoch) a1.devices × (drain api g1 b [] false ≡ (g1, b))
    unfolding kr_install_cb
    unset_epoch_not_shared unset ra = rw (drain-install g a epoch key) (
      rotate_devices-Uses a.devices key epoch ra,
      drain-idle (published g a epoch key) b (inl unset),
    )
