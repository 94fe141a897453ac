-- ===== src/Chunker/Stream.antt =====
-- `module1_add_data`: no byte of the stream is lost, doubled or moved.
use mathlib.Core.List.{append_assoc}
use xyz.Prelude.{
  ℕ, ◌+◌, ◌<◌, ◌≡◌, ◌≢◌, ◌⊎◌, inl, inr, refl, sym, ap, ◌∙◌, Bool, true, false, List, [], ◌∷◌, ◌++◌,
  Option, none, some, length, take, length-append, take_all, arith,
}
use xyz.Chunker.{
  Engine, State, Turn, uint32, write_byte, alloc_current, make_room, on_result, store_byte, feed,
  feed_if, add_byte, add_bytes, CdcResult, cdc_continue, cdc_boundary, cdc_boundary_strong,
  cdc_boundary_max,
}
use xyz.Chunker.Steps.{Takes, plain_step, Takes-refl, Takes-trans, process_chunk-Takes}
use xyz.Chunker.Room.{Room, make_room-Room}
use xyz.Chunker.Inv.{Sound, held_in, contents}

write_byte-some :
    (o : Option (List ℕ)) (n b : ℕ) (bs : List ℕ)
    → o ≡ some bs
    → write_byte o n b ≡ some (take n bs ++ (b ∷ []))
unfolding write_byte
write_byte-some o n b bs h = ap (λ x. write_byte x n b) h

module _ (e : Engine) (content : e.Packet → List ℕ) where
  open e use {World, Rabin, Packet, chunk_size, feed_byte}

  store_byte-Takes :
      (s : State Rabin Packet) (b : ℕ) (r : Rabin) (bs : List ℕ)
      → Sound chunk_size s
      → s.current.buffer ≡ some bs
      → s.current.bytes_used < chunk_size
      → Takes e content s (record (store_byte e s b) { rabin = r }) (b ∷ [])
  unfolding store_byte
  store_byte-Takes s b r bs v h room =
      let n = s.current.bytes_used in
      let now : write_byte s.current.buffer n b ≡ some (take n bs ++ (b ∷ [])) =
        write_byte-some s.current.buffer n b bs h in
      let all_there : length bs ≡ n = v.fits.written bs h in
      let whole : take n bs ≡ bs = take_all n bs (omega arith) in
      let size : length (take n bs ++ (b ∷ [])) ≡ n + 1 =
        omega (arith, length-append (take n bs) (b ∷ []), ap length whole) in
      plain_step e content s (record (store_byte e s b) { rabin = r }) (b ∷ [])
        (record {
          fits = record {
            no_buffer = λ x. absurd (apart (take n bs ++ (b ∷ [])) (sym now ∙ x));
            written = λ xs x. ap length (same xs (take n bs ++ (b ∷ [])) (sym x ∙ now)) ∙ size;
            bound = omega arith;
          };
          counted = v.counted;
          timer = v.timer;
        })
        (ap (λ x. contents content s.tlv_pending ++ held_in x (n + 1)) now
          ∙ ap (λ x. contents content s.tlv_pending ++ x)
              (take_all (n + 1) (take n bs ++ (b ∷ [])) (omega arith))
          ∙ sym (append_assoc (contents content s.tlv_pending) (take n bs) (b ∷ []))
          ∙ ap (λ x. (contents content s.tlv_pending ++ held_in x n) ++ (b ∷ [])) (sym h))
    where
      apart : (xs : List ℕ) → some xs ≢ none
      apart xs x = cc x

      same : (xs ys : List ℕ) → some xs ≡ some ys → xs ≡ ys
      same xs ys x = cc x

  on_result-Takes :
      (w : World) (s : State Rabin Packet) (r : CdcResult)
      → Sound chunk_size s
      → Takes e content s (on_result e w s r).1 []
  unfolding on_result
  on_result-Takes w s cdc_continue v = Takes-refl e content s v
  on_result-Takes w s cdc_boundary v = (process_chunk-Takes e content w s 0 v).0
  on_result-Takes w s cdc_boundary_strong v = (process_chunk-Takes e content w s 0 v).0
  on_result-Takes w s cdc_boundary_max v = (process_chunk-Takes e content w s 2 v).0

  feed-Takes :
      (w : World) (s : State Rabin Packet) (b : ℕ) (bs : List ℕ)
      → Sound chunk_size s
      → s.current.buffer ≡ some bs
      → s.current.bytes_used < chunk_size
      → Takes e content s (feed e w s b).1 (b ∷ [])
  unfolding feed
  feed-Takes w s b bs v h room =
      let f = feed_byte (store_byte e s b).rabin b (store_byte e s b).current.bytes_used in
      let s1 : State Rabin Packet = record (store_byte e s b) { rabin = f.0 } in
      let stored = store_byte-Takes s b f.0 bs v h room in
      Takes-trans e content s s1 (on_result e w s1 f.1).1 (b ∷ []) [] stored
        (on_result-Takes w s1 f.1 stored.sound)

  -- One byte: taken, or there is no buffer for it.
  abbrev Added : State Rabin Packet → ℕ → Turn World (State Rabin Packet) → Type 0
  Added s b t =
      ((t.going ≡ false) × Takes e content s t.state [] × (t.state.current.bytes_used ≡ 0))
      ⊎ ((t.going ≡ true) × Takes e content s t.state (b ∷ []))

  feed_if-Added :
      (s : State Rabin Packet) (t : Turn World (State Rabin Packet)) (b : ℕ) (g : Bool)
      → t.going ≡ g
      → Room e content s t
      → Added s b (feed_if e t b g)
  unfolding feed_if
  feed_if-Added s t b false h r = elim r.outcome [
    | inl (off, none_used) ↦ inl (off, r.takes, none_used)
    | inr (on, rest) ↦ absurd (apart (sym on ∙ h))
  ]
    where
      apart : true ≢ false
      apart x = cc x
  feed_if-Added s t b true h r = elim r.outcome [
    | inl (off, none_used) ↦ absurd (apart (sym h ∙ off))
    | inr (on, (bs, there, space)) ↦ inr (
      refl,
      Takes-trans e content s t.state (feed e t.world t.state b).1 [] (b ∷ []) r.takes
          (feed-Takes t.world t.state b bs r.takes.sound there space),
    )
  ]
    where
      apart : true ≢ false
      apart x = cc x

  add_byte-Added :
      (w : World) (s : State Rabin Packet) (b : ℕ)
      → Sound chunk_size s
      → Added s b (add_byte e w s b)
  unfolding add_byte
  add_byte-Added w s b v =
      let a = alloc_current e w s in
      let t = make_room e a a.going in
      feed_if-Added s t b t.going refl (make_room-Room e content w s v)

  -- The front of the input that a call has taken: all of it, or no buffer is left and none in use.
  pub record Taken (s : State Rabin Packet) (n : ℕ) (input : List ℕ)
      (r : Turn World (State Rabin Packet) × ℕ) : Type 0 where
    pub front : List ℕ
    pub left : List ℕ
    pub split : front ++ left ≡ input
    pub takes : Takes e content s r.0.state front
    pub total : r.1 ≡ uint32 (n + length front)
    pub outcome :
        ((r.0.going ≡ false) × (r.0.state.current.bytes_used ≡ 0))
        ⊎ ((r.0.going ≡ true) × (left ≡ []))

  pub add_bytes-Taken :
      (t : Turn World (State Rabin Packet)) (n : ℕ) (bs : List ℕ)
      → Sound chunk_size t.state
      → t.going ≡ true
      → Taken t.state n bs (add_bytes e t (uint32 n) bs)
  unfolding add_bytes
  add_bytes-Taken t n [] v g = record {
    front = [];
    left = [];
    split = refl;
    takes = Takes-refl e content t.state v;
    total = omega arith;
    outcome = inr (g, refl);
  }
  add_bytes-Taken t n (b ∷ bs) v g = elim (add_byte-Added t.world t.state b v) [
    | inl (off, kept, none_used) ↦
        rw (off, add_bytes)
          (record {
            front = [];
            left = b ∷ bs;
            split = refl;
            takes = kept;
            total = omega arith;
            outcome = inl (off, none_used);
          })
    | inr (on, taken) ↦
        let t' = add_byte e t.world t.state b in
        let rest = add_bytes-Taken t' (n + 1) bs taken.sound on in
        let next : uint32 (uint32 n + 1) ≡ uint32 (n + 1) = omega arith in
        rw (on, add_bytes)
          (rw (next) (record {
            front = b ∷ rest.front;
            left = rest.left;
            split = ap (λ x. b ∷ x) rest.split;
            takes =
                Takes-trans e content t.state t'.state (add_bytes e t' (uint32 (n + 1)) bs).0.state
                  (b ∷ []) rest.front taken rest.takes;
            total = rest.total ∙ omega arith;
            outcome = rest.outcome;
          }))
  ]
