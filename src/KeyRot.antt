-- ===== src/KeyRot.antt =====
-- Key rotation of `main (1).c`: `kr_install_cb`, `kr_retire_cb`, and the part of the drain step that
-- polls the key daemon and takes over a key that another lcore has received.
pub mod Share
mod Tests
use xyz.Prelude.{
  ℕ, ◌+◌, ◌%◌, ◌^◌, ◌≡◌, Bool, true, false, not, ◌&&◌, List, [], ◌∷◌, Option, none, some, ◌==◌,
  if◌then◌else◌,
}

abbrev pub epoch_unset : ℕ
epoch_unset = 0xff

-- The session table of one crypto device (`struct cs_port`), which is not in the repository. The
-- result of `rotate` is whether `cs_rotate` returns 0; then the new epoch is the current one.
pub record CsApi : Type 1 where
  pub Port : Type 0
  pub Session : Type 0
  pub rotate : Port → List ℕ → ℕ → Port × Bool
  pub session_current : Port → Session
  pub retire_prev : Port → Port
  pub epoch_cur : Port → ℕ
  pub rotate-epoch :
      (p p' : Port) (key : List ℕ) (epoch : ℕ)
      → rotate p key epoch ≡ (p', true)
      → epoch_cur p' ≡ epoch

-- The fields of `struct l2fwd_crypto_params` that rotation reads and writes.
pub record Device (P S : Type 0) : Type 0 where
  pub cs : P
  pub session : S
  pub do_cipher : Bool
  pub is_encrypt : Bool

-- g_shared_key, g_shared_epoch, g_shared_seq and the statistics, which the lcores share.
pub record Shared : Type 0 where
  pub key : List ℕ
  pub epoch : ℕ
  pub seq : ℕ
  pub rotations : ℕ
  pub cur_epoch : ℕ

-- What one lcore has: its devices, `lcore_applied_seq`, and the device that g_enc_cs points to.
pub record Lcore (P S : Type 0) : Type 0 where
  pub devices : List (Device P S)
  pub applied_seq : ℕ
  pub enc_cs : Option ℕ

-- The messages for which `kl_poll` calls back, and the others.
pub data Msg : Type 0 where
  install_key : ℕ → List ℕ → Msg
  retire_key : ℕ → Msg
  other : Msg

module _ (api : CsApi) where
  open api use {Port, Session, rotate, session_current, retire_prev}

  pub rotated : Device Port Session → Port × Bool → Device Port Session
  rotated d (p, true) = record d { cs = p; session = session_current p }
  rotated d (p, false) = record d { cs = p }

  pub rotate_device : List ℕ → ℕ → Device Port Session → Device Port Session
  unfolding rotated
  rotate_device key epoch d = if d.do_cipher then rotated d (rotate d.cs key epoch) else d

  pub rotate_devices : List ℕ → ℕ → List (Device Port Session) → List (Device Port Session)
  unfolding rotate_device
  rotate_devices key epoch [] = []
  rotate_devices key epoch (d ∷ ds) = rotate_device key epoch d ∷ rotate_devices key epoch ds

  pub kr_install_cb : Shared → Lcore Port Session → ℕ → List ℕ → Shared × Lcore Port Session
  unfolding rotate_devices
  kr_install_cb g l epoch key = (
    record {
      key = key;
      epoch = epoch;
      seq = (g.seq + 1) % 2 ^ 32;
      rotations = (g.rotations + 1) % 2 ^ 64;
      cur_epoch = epoch;
    },
    record l { devices = rotate_devices key epoch l.devices },
  )

  pub retire_devices : List (Device Port Session) → List (Device Port Session)
  retire_devices [] = []
  retire_devices (d ∷ ds) =
      (if d.do_cipher then record d { cs = retire_prev d.cs } else d) ∷ retire_devices ds

  pub kr_retire_cb : Lcore Port Session → Lcore Port Session
  unfolding retire_devices
  kr_retire_cb l = record l { devices = retire_devices l.devices }

  -- `kl_poll` with the messages that it receives, in their order.
  pub on_messages : Shared → Lcore Port Session → List Msg → Shared × Lcore Port Session
  unfolding kr_install_cb kr_retire_cb
  on_messages g l [] = (g, l)
  on_messages g l (install_key epoch key ∷ ms) =
      let r = kr_install_cb g l epoch key in on_messages r.0 r.1 ms
  on_messages g l (retire_key epoch ∷ ms) = on_messages g (kr_retire_cb l) ms
  on_messages g l (other ∷ ms) = on_messages g l ms

  -- An encrypting device that has rotated becomes the one of g_enc_cs.
  pub enc_after : List ℕ → ℕ → ℕ → List (Device Port Session) → Option ℕ → Option ℕ
  enc_after key epoch i [] enc = enc
  enc_after key epoch i (d ∷ ds) enc =
      enc_after key epoch (i + 1) ds
        (if d.do_cipher && ((rotate d.cs key epoch).1 && d.is_encrypt) then some i else enc)

  -- Step B: a key that this lcore has not applied yet.
  pub apply_shared : Shared → Lcore Port Session → Shared × Lcore Port Session
  unfolding enc_after
  apply_shared g l =
      if not (g.epoch == epoch_unset) && not (g.seq == l.applied_seq)
      then (
        record g { cur_epoch = g.epoch },
        record {
          devices = rotate_devices g.key g.epoch l.devices;
          applied_seq = g.seq;
          enc_cs = enc_after g.key g.epoch 0 l.devices l.enc_cs;
        },
      )
      else (g, l)

  pub mark_applied : Shared → Lcore Port Session → Bool → Lcore Port Session
  mark_applied g l true = record l { applied_seq = g.seq }
  mark_applied g l false = l

  -- The drain step of one lcore. `received` is whether `kl_poll` returns a positive number.
  pub drain : Shared → Lcore Port Session → List Msg → Bool → Shared × Lcore Port Session
  unfolding on_messages apply_shared mark_applied
  drain g l ms received =
      let r = on_messages g l ms in apply_shared r.0 (mark_applied r.0 r.1 received)
