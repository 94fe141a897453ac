-- ===== src/Keyd.antt =====
-- The two programs that number keys and send them to the gateway: the session loop of `keyd.c`, and
-- the main loop of `key_sender_server.c`. TLS, sockets and the clock are not in the repository: what
-- they answer in one round is a record. A message is that of KeyRot, which receives it.
mod Tests
use xyz.Prelude.{
  ℕ, zero, suc, ◌+◌, ◌%◌, ◌≤◌, ◌<◌, ◌≡◌, ◌≢◌, refl, ap, Bool, true, false, ◌==◌, leb, ltb,
  if◌then◌else◌, Option, none, some, List, [], ◌∷◌, ◌++◌, length, take, length-take, All,
  All-append, Bool-cases, Option-cases, inl, inr, arith,
}
use xyz.KeyRot.{Msg, install_key, other, epoch_unset}

-- The variables of one TLS session; `connected` says that `uconn` is not -1.
pub record Session : Type 0 where
  epoch : ℕ
  last : ℕ
  connected : Bool

-- What a round of 200 ms sees. `export` is the exporter of the session, `sent` whether the app takes
-- the message, `closed` that the peer has closed, `app_waits` that the app can be accepted.
pub record Tick : Type 0 where
  now : ℕ
  export : ℕ → Option (List ℕ)
  sent : Bool
  closed : Bool
  app_waits : Bool

-- The message that reaches the app.
delivered : Session → Tick → List ℕ → List Msg
delivered s t key =
    if s.connected then (if t.sent then install_key s.epoch key ∷ [] else []) else []

-- After a rotation: the connection that failed is closed, `epoch` is a `uint8_t`.
pub rotated_session : Session → Tick → Session
rotated_session s t = record {
  epoch = (s.epoch + 1) % 256;
  last = t.now;
  connected = if s.connected then t.sent else false;
}

-- The end of a round: none ends the session.
end_round : Session → Tick → Option Session
end_round s t =
    if t.closed
    then none
    else some (record s { connected = if s.connected then true else t.app_waits })

-- One round: the epochs that are exported, the messages, and the session that goes on.
pub rotate_round : Session → Tick → Option (List ℕ) → List ℕ × List Msg × Option Session
unfolding delivered rotated_session end_round
rotate_round s t none = ([], [], none)
rotate_round s t (some key) = (s.epoch ∷ [], delivered s t key, end_round (rotated_session s t) t)

pub keyd_round : ℕ → Session → Tick → List ℕ × List Msg × Option Session
unfolding rotate_round
keyd_round rotate_sec s t =
    if leb (s.last + rotate_sec) t.now
    then rotate_round s t (t.export s.epoch)
    else ([], [], end_round s t)

-- The rounds of a session: the epochs in their order, and the messages.
pub keyd_session : ℕ → Option Session → List Tick → List ℕ × List Msg
unfolding keyd_round
keyd_session rotate_sec none ts = ([], [])
keyd_session rotate_sec (some s) [] = ([], [])
keyd_session rotate_sec (some s) (t ∷ ts) =
    let r = keyd_round rotate_sec s t in
    let rest = keyd_session rotate_sec r.2 ts in (r.0 ++ rest.0, r.1 ++ rest.1)

-- One round of the key sender, with what it meets: no keys, no memory, or keys with the fate of the
-- message, of the HELLO after a reconnection, and of the message that is sent again.
pub data Round : Type 0 where
  no_keys : Round
  no_memory : Round
  keys : List ℕ → (sent hello resent : Bool) → Round

pub next_epoch : ℕ → ℕ
next_epoch epoch = if (epoch + 1) % 256 == 0xff then 0 else (epoch + 1) % 256

when : Bool → Msg → List Msg
when true msg = msg ∷ []
when false msg = []

-- AES_KEY_LEN is 16.
pub send_key : ℕ → List ℕ → (sent hello resent : Bool) → List Msg
unfolding when
send_key epoch key sent hello resent =
    let msg = install_key epoch (take 16 key) in
    if ltb (length key) 16
    then []
    else if sent
    then msg ∷ []
    else when hello other ++ when resent msg

-- The messages of one round and the epoch after it.
pub sender_round : ℕ → Round → List Msg × ℕ
unfolding send_key next_epoch
sender_round epoch no_keys = ([], epoch)
sender_round epoch no_memory = ([], epoch)
sender_round epoch (keys key sent hello resent) =
    (send_key epoch key sent hello resent, next_epoch epoch)

pub sender_loop : ℕ → List Round → List Msg × ℕ
unfolding sender_round
sender_loop epoch [] = ([], epoch)
sender_loop epoch (r ∷ rs) =
    let first = sender_round epoch r in
    let rest = sender_loop first.1 rs in (first.0 ++ rest.0, rest.1)

-- A key for the gateway: an epoch that its tables can hold, and 16 bytes.
pub IsKey : Msg → Type 0
IsKey (install_key epoch key) = (epoch < epoch_unset) × (length key ≡ 16)
IsKey (Msg.retire_key epoch) = Unit
IsKey other = Unit

when-IsKey : (b : Bool) (msg : Msg) → IsKey msg → All IsKey (when b msg)
unfolding when
when-IsKey true msg h = (h, tt)
when-IsKey false msg h = tt

send_key-IsKey :
    (epoch : ℕ) (key : List ℕ) (sent hello resent : Bool)
    → epoch < epoch_unset
    → All IsKey (send_key epoch key sent hello resent)
unfolding send_key IsKey
send_key-IsKey epoch key sent hello resent small = elim (Bool-cases (ltb (length key) 16)) [
  | inl short ↦ rw short tt
  | inr long ↦
      let msg = install_key epoch (take 16 key) in
      let ok : IsKey msg = (small, ground (arith, long, length-take 16 key)) in
      elim (Bool-cases sent) [
        | inl taken ↦ rw (long, taken) (ok, tt)
        | inr lost ↦
            rw (long, lost)
              (All-append IsKey (when hello other) (when resent msg) (when-IsKey hello other tt)
                (when-IsKey resent msg ok))
      ]
]

next_epoch-lt : (epoch : ℕ) → epoch < epoch_unset → next_epoch epoch < epoch_unset
unfolding next_epoch
next_epoch-lt epoch h = ground arith

-- Whatever a round meets, from an epoch below 0xFF the sender's messages carry 16 bytes and an epoch
-- below 0xFF, and its epoch stays there.
pub sender_loop-IsKey :
    (epoch : ℕ) (rs : List Round)
    → epoch < epoch_unset
    → All IsKey (sender_loop epoch rs).0 × ((sender_loop epoch rs).1 < epoch_unset)
unfolding sender_loop sender_round
sender_loop-IsKey epoch [] h = (tt, h)
sender_loop-IsKey epoch (no_keys ∷ rs) h = sender_loop-IsKey epoch rs h
sender_loop-IsKey epoch (no_memory ∷ rs) h = sender_loop-IsKey epoch rs h
sender_loop-IsKey epoch (keys key sent hello resent ∷ rs) h =
    let (more, last) = sender_loop-IsKey (next_epoch epoch) rs (next_epoch-lt epoch h) in
    (
      All-append IsKey (send_key epoch key sent hello resent) (sender_loop (next_epoch epoch) rs).0
          (send_key-IsKey epoch key sent hello resent h) more,
      last,
    )

-- The numbers of n rotations.
pub numbered : ℕ → ℕ → List ℕ
numbered epoch zero = []
numbered epoch (suc n) = epoch ∷ numbered ((epoch + 1) % 256) n

module _ (rotate_sec : ℕ) where
  -- The epochs are their numbers, from the session's epoch on.
  abbrev NumberedFrom : ℕ → List ℕ × List Msg → Type 0
  NumberedFrom epoch r = r.0 ≡ numbered epoch (length r.0)

  after_round :
      (s : Session) (t : Tick) (ts : List Tick)
      → ((s' : Session)
          → s'.epoch ≡ s.epoch
          → NumberedFrom s'.epoch (keyd_session rotate_sec (some s') ts))
      → NumberedFrom s.epoch (keyd_session rotate_sec (end_round s t) ts)
  unfolding end_round keyd_session numbered
  after_round s t ts later = elim (Bool-cases t.closed) [
    | inl closed ↦ rw closed refl
    | inr open_still ↦
        rw open_still
          (later (record s { connected = if s.connected then true else t.app_waits }) refl)
  ]

  -- The rotations of a session have consecutive epochs modulo 256, from the session's epoch on.
  pub keyd_session-numbered :
      (s : Session) (ts : List Tick)
      → (keyd_session rotate_sec (some s) ts).0
        ≡ numbered s.epoch (length (keyd_session rotate_sec (some s) ts).0)
  unfolding keyd_session keyd_round rotate_round numbered
  keyd_session-numbered s [] = refl
  keyd_session-numbered s (t ∷ ts) = elim (Bool-cases (leb (s.last + rotate_sec) t.now)) [
    | inr early ↦ rw early (after_round s t ts (λ s' e. keyd_session-numbered s' ts))
    | inl due ↦ elim (Option-cases (t.export s.epoch)) [
      | inl failed ↦ rw (due, failed) refl
      | inr (key, exported) ↦
          rw (due, exported)
            (ap (λ l. s.epoch ∷ l)
              (after_round (rotated_session s t) t ts (λ s' e. keyd_session-numbered s' ts)))
    ]
  ]
