-- ===== src/Chunker/Timer.antt =====
-- The other calls of module1.c: timer, flush, detaching the packets, and every history of calls.
use mathlib.Core.List.{append-nil, Sublist}
use mathlib.Core.List.Sublist
use xyz.Prelude.{
  ℕ, zero, suc, ◌-◌, ◌≤◌, ◌≡◌, inl, inr, refl, sym, ap, ◌∙◌, subst, ◌&&◌, List, [], ◌++◌, Option,
  none, some, take, ◌==◌, ltb, Bool-cases, arith,
}
use xyz.Chunker.{
  Engine, State, process_data, process_chunk, module1_add_data, module1_flush, module1_take_pending,
  module1_state_init, byte_caching_timer_check,
}
use xyz.Chunker.Steps.{process_chunk-Takes, no_chunk-Fits}
use xyz.Chunker.Input.{module1_add_data-Input}
use xyz.Chunker.Inv.{Sound, held, held_in, contents, stream, Carries, Faithful, IsChunker}

abbrev none_yet : {P : Type 0} → P → List ℕ
none_yet p = []

module _ (e : Engine) (content : e.Packet → List ℕ) where
  open e use {World, Rabin, Packet, chunk_size}

  -- A step that keeps the stream and the invariant.
  pub record Keeps (s s' : State Rabin Packet) : Type 0 where
    pub chunker : IsChunker chunk_size s'
    pub same : Carries e content → stream content s' ≡ stream content s
    pub within : Faithful e content → Sublist (stream content s') (stream content s)

  cut-Keeps :
      (w : World) (s s0 : State Rabin Packet) (t : ℕ)
      → Sound chunk_size s
      → stream content s ≡ stream content s0
      → Keeps s0 (process_chunk e w s t).1 × ((process_chunk e w s t).1.current.bytes_used ≡ 0)
  cut-Keeps w s s0 t v alike =
      let (r, empty) = process_chunk-Takes e content w s t v in
      (
        record {
          chunker = record { sound = r.sound; armed = λ some_bytes. omega arith };
          same = λ law. r.grows law ∙ append-nil (stream content s) ∙ alike;
          within = λ law.
              subst (λ z. Sublist (stream content (process_chunk e w s t).1) z)
                (append-nil (stream content s) ∙ alike) (r.within law);
        },
        empty,
      )

  pub module1_flush-Keeps :
      (w : World) (s : State Rabin Packet)
      → IsChunker chunk_size s
      → Keeps s (module1_flush e w s).1 × ((module1_flush e w s).1.current.bytes_used ≡ 0)
  unfolding module1_flush
  module1_flush-Keeps w s v = elim (Bool-cases (s.current.bytes_used == 0)) [
    | inl z ↦ rw (z) (
      record { chunker = v; same = λ law. refl; within = λ law. Sublist.refl (stream content s) },
      ground arith,
    )
    | inr z ↦ rw (z) (cut-Keeps w s s 1 v.sound refl)
  ]

  held-none : (b : Option (List ℕ)) (n : ℕ) → n ≡ 0 → held_in b n ≡ []
  held-none none n h = refl
  held-none (some bs) n h = ap (λ k. take k bs) h

  -- A flush and the detached packets hold the whole stream, and nothing stays behind.
  pub flush-take_pending :
      (w : World) (s : State Rabin Packet)
      → IsChunker chunk_size s
      → Carries e content
      → let (w1, s1) = module1_flush e w s in
        let (s2, taken) = module1_take_pending e s1 in
        (contents content taken ≡ stream content s) × (stream content s2 ≡ [])
  unfolding module1_take_pending contents
  flush-take_pending w s v law =
      let (k, empty) = module1_flush-Keeps w s v in
      let s1 : State Rabin Packet = (module1_flush e w s).1 in
      let gone : held s1.current ≡ [] = held-none s1.current.buffer s1.current.bytes_used empty in
      (
        sym (append-nil (contents content s1.tlv_pending))
            ∙ ap (λ x. contents content s1.tlv_pending ++ x) (sym gone)
            ∙ k.same law,
        gone,
      )

  data-timer :
      (w : World) (s : State Rabin Packet) (t : ℕ) (b : Option (List ℕ))
      → (process_data e w s t b).1.chunk_to ≤ s.chunk_to
  unfolding process_data
  data-timer w s t none = omega arith
  data-timer w s t (some bs) = omega arith

  process_chunk-timer :
      (w : World) (s : State Rabin Packet) (t : ℕ) → (process_chunk e w s t).1.chunk_to ≤ s.chunk_to
  unfolding process_chunk
  process_chunk-timer w s t = elim (Bool-cases (s.current.bytes_used == 0)) [
    | inl z ↦ rw (z) (omega arith)
    | inr z ↦ rw (z) (data-timer w s t s.current.buffer)
  ]

  -- One tick: no byte is lost, and the timer comes closer to its end.
  pub timer_check-Keeps :
      (w : World) (s : State Rabin Packet)
      → IsChunker chunk_size s
      → Keeps s (byte_caching_timer_check e w s).1
        × ((byte_caching_timer_check e w s).1.chunk_to ≤ s.chunk_to - 1)
  unfolding byte_caching_timer_check
  timer_check-Keeps w s v = elim (Bool-cases (s.chunk_to == 0)) [
    | inl z ↦ rw (z) (
      record { chunker = v; same = λ law. refl; within = λ law. Sublist.refl (stream content s) },
      ground arith,
    )
    | inr z ↦
        let s1 : State Rabin Packet = record s { chunk_to = s.chunk_to - 1 } in
        let sound : Sound chunk_size s1 = record {
          fits = v.sound.fits;
          counted = v.sound.counted;
          timer = omega (arith, v.sound.timer);
        } in
        elim (Bool-cases (s1.chunk_to == 0 && ltb 0 s1.current.bytes_used)) [
          | inl last ↦
              let (k, empty) = cut-Keeps w s1 s 1 sound refl in
              rw (z) (rw (last) (k, process_chunk-timer w s1 1))
          | inr more ↦ rw (z) (
              rw (more) (
                record {
                  chunker = record { sound = sound; armed = λ some_bytes. ground arith };
                  same = λ law. refl;
                  within = λ law. Sublist.refl (stream content s);
                },
                omega arith,
              ))
        ]
  ]

  abbrev pub Machine : Type 0
  Machine = World × State Rabin Packet

  pub ticks : ℕ → Machine → Machine
  ticks zero m = m
  ticks (suc n) m = ticks n (byte_caching_timer_check e m.0 m.1)

  -- Bytes do not wait for ever: when no data comes, then after as many ticks as the timer shows (it
  -- never shows more than INACTIVITY_TICKS) the buffer is empty, and its bytes are in the packets.
  pub timer_expires :
      (n : ℕ) (w : World) (s : State Rabin Packet)
      → s.chunk_to ≤ n
      → IsChunker chunk_size s
      → Carries e content
      → let (w', s') = ticks n (w, s) in
        (s'.current.bytes_used ≡ 0) × (stream content s' ≡ stream content s)
  unfolding ticks
  timer_expires zero w s h v law = (ground (arith, v.armed), refl)
  timer_expires (suc n) w s h v law =
      let (k, closer) = timer_check-Keeps w s v in
      let m = byte_caching_timer_check e w s in
      let (empty, same) = timer_expires n m.0 m.1 (omega arith) k.chunker law in
      (empty, same ∙ k.same law)

module _ (e : Engine) where
  open e use {World, Rabin, Packet, chunk_size}

  abbrev pub Chunking : Type 0
  Chunking = World × State Rabin Packet

  -- The calls on one connection, in any order; other connections may change the world in between.
  pub data Calls (m : Chunking) : Chunking → Type 0 where
    created : (w : World) (s : State Rabin Packet) → m ≡ module1_state_init e w s → Calls m m
    added :
        (a : Chunking) (w : World) (segs : List (List ℕ))
        → Calls m a
        → Calls m ((module1_add_data e w a.1 segs).0, (module1_add_data e w a.1 segs).1)
    ticked : (a : Chunking) (w : World) → Calls m a → Calls m (byte_caching_timer_check e w a.1)
    flushed : (a : Chunking) (w : World) → Calls m a → Calls m (module1_flush e w a.1)
    detached : (a : Chunking) (w : World) → Calls m a → Calls m (w, (module1_take_pending e a.1).0)

  -- After any history of calls the buffer holds the bytes that are counted and no more than
  -- CHUNK_SIZE, every chunk is counted under one type, and the timer runs if a byte waits.
  pub Calls-IsChunker : {m a : Chunking} → Calls m a → IsChunker chunk_size a.1
  unfolding module1_state_init module1_take_pending
  Calls-IsChunker (created w s h) =
      subst (λ x. IsChunker chunk_size x.1) (sym h)
        (record {
          sound = record {
            fits = no_chunk-Fits chunk_size;
            counted = omega arith;
            timer = omega arith;
          };
          armed = λ some_bytes. omega arith;
        })
  Calls-IsChunker (added a w segs c) =
      (module1_add_data-Input e none_yet w a.1 segs (Calls-IsChunker c)).chunker
  Calls-IsChunker (ticked a w c) =
      (timer_check-Keeps e none_yet w a.1 (Calls-IsChunker c)).0.chunker
  Calls-IsChunker (flushed a w c) =
      (module1_flush-Keeps e none_yet w a.1 (Calls-IsChunker c)).0.chunker
  Calls-IsChunker (detached a w c) =
      let v = Calls-IsChunker c in
      record {
        sound = record { fits = v.sound.fits; counted = v.sound.counted; timer = v.sound.timer };
        armed = v.armed;
      }
