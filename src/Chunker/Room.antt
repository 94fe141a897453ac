-- ===== src/Chunker/Room.antt =====
-- Allocation in module1.c: a buffer with room for the next byte, or none.
use mathlib.Core.List.{append-nil}
use xyz.Prelude.{
  ℕ, ◌<◌, ◌≡◌, ◌≢◌, ◌⊎◌, inl, inr, refl, sym, ap, ◌∙◌, Bool, true, false, List, [], ◌++◌, Option,
  none, some, length, leb, Bool-cases, arith,
}
use xyz.Chunker.{
  Engine, State, Turn, alloc_data, chunk_alloc, process_chunk, alloc_current, make_room,
}
use xyz.Chunker.Steps.{Takes, plain_step, Takes-trans, process_chunk-Takes}
use xyz.Chunker.Inv.{Sound, held_in, contents, stream}

module _ (e : Engine) (content : e.Packet → List ℕ) where
  open e use {World, Rabin, Packet, chunk_size, chunk_size_pos, mempool_get}

  record Allocated (s : State Rabin Packet) (t : Turn World (State Rabin Packet)) : Type 0 where
    takes : Takes e content s t.state []
    used : t.state.current.bytes_used ≡ s.current.bytes_used
    outcome :
        ((t.going ≡ false) × (t.state.current.bytes_used ≡ 0))
        ⊎ ((t.going ≡ true) × ((bs : List ℕ) × (t.state.current.buffer ≡ some bs)))

  allocated :
      (w : World) (s : State Rabin Packet) (b : Option (List ℕ)) (free : Option World)
      → Sound chunk_size s
      → s.current.buffer ≡ b
      → let a = alloc_data e w s.current b free in
        Allocated s
          (record { world = a.world; state = record s { current = a.state }; going = a.going })
  unfolding alloc_data
  allocated w s (some bs) free v h = record {
    takes =
        plain_step e content s (record s { current = s.current }) []
          (record { fits = v.fits; counted = v.counted; timer = v.timer })
          (sym (append-nil (stream content s)));
    used = refl;
    outcome = inr (refl, (bs, h));
  }
  allocated w s none none v h = record {
    takes =
        plain_step e content s (record s { current = s.current }) []
          (record { fits = v.fits; counted = v.counted; timer = v.timer })
          (sym (append-nil (stream content s)));
    used = refl;
    outcome = inl (refl, v.fits.no_buffer h);
  }
  allocated w s none (some w') v h = record {
    takes =
        plain_step e content s (record s { current = record { buffer = some []; bytes_used = 0 } })
          []
          (record {
            fits = record {
              no_buffer = λ x. refl;
              written = λ bs x. ap length (the_bytes bs x);
              bound = omega arith;
            };
            counted = v.counted;
            timer = v.timer;
          })
          (ap (λ x. contents content s.tlv_pending ++ held_in x s.current.bytes_used) (sym h)
            ∙ sym (append-nil (stream content s)));
    used = sym (v.fits.no_buffer h);
    outcome = inr (refl, ([], refl));
  }
    where
      the_bytes : (bs : List ℕ) → some [] ≡ some bs → bs ≡ []
      the_bytes bs x = cc x

  alloc_current-Allocated :
      (w : World) (s : State Rabin Packet) → Sound chunk_size s → Allocated s (alloc_current e w s)
  unfolding alloc_current chunk_alloc
  alloc_current-Allocated w s v = allocated w s s.current.buffer (mempool_get w) v refl

  -- Room for a byte, or an empty chunk and no way on.
  pub record Room (s : State Rabin Packet) (t : Turn World (State Rabin Packet)) : Type 0 where
    pub takes : Takes e content s t.state []
    pub outcome :
        ((t.going ≡ false) × (t.state.current.bytes_used ≡ 0))
        ⊎ ((t.going ≡ true)
            × ((bs : List ℕ) × (t.state.current.buffer ≡ some bs)
                × (t.state.current.bytes_used < chunk_size)))

  -- After a chunk was cut for its size, another buffer is there, or not.
  cut_then_alloc :
      (w : World) (s : State Rabin Packet)
      → Sound chunk_size s
      → let p = process_chunk e w s 2 in Room s (alloc_current e p.0 p.1)
  cut_then_alloc w s v =
      let p = process_chunk e w s 2 in
      let (cut, empty) = process_chunk-Takes e content w s 2 v in
      let a = alloc_current-Allocated p.0 p.1 cut.sound in
      record {
        takes = Takes-trans e content s p.1 (alloc_current e p.0 p.1).state [] [] cut a.takes;
        outcome = elim a.outcome [
          | inl stuck ↦ inl stuck
          | inr (on, (bs, there)) ↦
              inr (on, (bs, there, omega (arith, a.used, empty, chunk_size_pos)))
        ];
      }

  Room-made :
      (s : State Rabin Packet) (t : Turn World (State Rabin Packet)) (b : Bool)
      → t.going ≡ b
      → Allocated s t
      → Room s (make_room e t b)
  unfolding make_room
  Room-made s t false g a = record {
    takes = a.takes;
    outcome = elim a.outcome [
      | inl stuck ↦ inl stuck
      | inr (on, rest) ↦ absurd (apart (sym on ∙ g))
    ];
  }
    where
      apart : true ≢ false
      apart x = cc x
  Room-made s t true g a = elim (Bool-cases (leb chunk_size t.state.current.bytes_used)) [
    | inl full ↦
        let r = cut_then_alloc t.world t.state a.takes.sound in
        let p = process_chunk e t.world t.state 2 in
        rw (full, make_room)
          (record {
            takes =
                Takes-trans e content s t.state (alloc_current e p.0 p.1).state [] [] a.takes
                  r.takes;
            outcome = r.outcome;
          })
    | inr space ↦
        rw (space, make_room)
          (record {
            takes = a.takes;
            outcome = elim a.outcome [
              | inl (off, zero_used) ↦ absurd (apart (sym g ∙ off))
              | inr (on, (bs, there)) ↦ inr (on, (bs, there, ground arith))
            ];
          })
  ]
    where
      apart : true ≢ false
      apart x = cc x

  pub make_room-Room :
      (w : World) (s : State Rabin Packet)
      → Sound chunk_size s
      → let a = alloc_current e w s in Room s (make_room e a a.going)
  make_room-Room w s v =
      let a = alloc_current e w s in Room-made s a a.going refl (alloc_current-Allocated w s v)
