-- ===== src/Keyd/Tests.antt =====
-- A session of the daemon with three rotations, and four rounds of the sender.
use xyz.Prelude.{ℕ, ◌<◌, ◌≡◌, refl, true, false, some, List, [], ◌∷◌, replicate, All, arith}
use xyz.KeyRot.{epoch_unset}
use xyz.Keyd.{
  Session, Tick, keyd_session, Round, no_keys, keys, sender_loop, IsKey, sender_loop-IsKey,
}

abbrev tick : ℕ → Tick
tick now = record {
  now = now;
  export = λ e. some (replicate 16 e);
  sent = true;
  closed = false;
  app_waits = true;
}

abbrev start : Session
start = record { epoch = 254; last = 0; connected = false }

abbrev ticks : List Tick
ticks = tick 60 ∷ (tick 61 ∷ (tick 120 ∷ (tick 180 ∷ [])))

keyd_epochs : (keyd_session 60 (some start) ticks).0 ≡ 254 ∷ (255 ∷ (0 ∷ []))
unfolding keyd_session
keyd_epochs = refl

abbrev rounds : List Round
rounds =
    no_keys
    ∷ (keys (replicate 32 7) true false false
        ∷ (keys (replicate 8 7) true false false ∷ (keys (replicate 32 8) false true true ∷ [])))

sender_loop-IsKey_example :
    All IsKey (sender_loop 253 rounds).0 × ((sender_loop 253 rounds).1 < epoch_unset)
sender_loop-IsKey_example = sender_loop-IsKey 253 rounds (omega arith)
