-- ===== src/Chunker/Input.antt =====
-- `module1_add_data` on a chain of segments.
use mathlib.Core.List.{append_assoc, append-nil, Sublist}
use xyz.Prelude.{
  ℕ, ◌+◌, ◌≡◌, ◌⊎◌, inl, inr, refl, sym, ap, ap₂, subst, ◌∙◌, true, ◌&&◌, List, [], ◌∷◌, ◌++◌,
  length, ◌==◌, ltb, length-append, Bool-cases, arith,
}
use xyz.Chunker.{Engine, State, Turn, uint32, add_bytes, add_segments, arm, module1_add_data}
use xyz.Chunker.Steps.{Takes-refl, Takes-trans}
use xyz.Chunker.Stream.{Taken, add_bytes-Taken}
use xyz.Chunker.Inv.{Sound, stream, Carries, Faithful, flat, IsChunker}

module _ (e : Engine) (content : e.Packet → List ℕ) where
  open e use {World, Rabin, Packet, chunk_size}

  add_segments-Taken :
      (t : Turn World (State Rabin Packet)) (n : ℕ) (segs : List (List ℕ))
      → Sound chunk_size t.state
      → t.going ≡ true
      → Taken e content t.state n (flat segs) (add_segments e t (uint32 n) segs)
  unfolding add_segments flat
  add_segments-Taken t n [] v g = record {
    front = [];
    left = [];
    split = refl;
    takes = Takes-refl e content t.state v;
    total = omega arith;
    outcome = inr (g, refl);
  }
  add_segments-Taken t n (seg ∷ segs) v g =
      let first = add_bytes-Taken e content t n seg v g in
      let r = add_bytes e t (uint32 n) seg in
      elim first.outcome [
        | inl (off, none_used) ↦
            rw (off, add_segments)
              (record {
                front = first.front;
                left = first.left ++ flat segs;
                split =
                    sym (append_assoc first.front first.left (flat segs))
                    ∙ ap (λ x. x ++ flat segs) first.split;
                takes = first.takes;
                total = first.total;
                outcome = inl (off, none_used);
              })
        | inr (on, all) ↦
            let m = n + length first.front in
            let rest = add_segments-Taken r.0 m segs first.takes.sound on in
            let whole : first.front ≡ seg =
              sym (append-nil first.front) ∙ ap (λ x. first.front ++ x) (sym all) ∙ first.split in
            rw (on, add_segments)
              (rw (first.total) (record {
                front = first.front ++ rest.front;
                left = rest.left;
                split =
                    append_assoc first.front rest.front rest.left
                    ∙ ap₂ (λ x y. x ++ y) whole rest.split;
                takes =
                    Takes-trans e content t.state r.0.state
                      (add_segments e r.0 (uint32 m) segs).0.state first.front rest.front
                      first.takes rest.takes;
                total = rest.total ∙ omega (arith, length-append first.front rest.front);
                outcome = rest.outcome;
              }))
      ]

  arm-IsChunker : (s : State Rabin Packet) → Sound chunk_size s → IsChunker chunk_size (arm s)
  unfolding arm
  arm-IsChunker s v = elim (Bool-cases (ltb 0 s.current.bytes_used && s.chunk_to == 0)) [
    | inl h ↦ rw (h) (record {
      sound = record { fits = v.fits; counted = v.counted; timer = omega arith };
      armed = λ some_bytes. omega arith;
    })
    | inr h ↦ rw (h) (record { sound = v; armed = λ some_bytes. ground arith })
  ]

  arm-stream : (s : State Rabin Packet) → stream content (arm s) ≡ stream content s
  unfolding arm
  arm-stream s = elim (Bool-cases (ltb 0 s.current.bytes_used && s.chunk_to == 0)) [
    | inl h ↦ rw (h) refl
    | inr h ↦ rw (h) refl
  ]

  -- What holds after a call, with the input split into what it has taken and what not.
  pub record Input (s s' : State Rabin Packet) (total : ℕ) (input : List ℕ) : Type 0 where
    pub front : List ℕ
    pub left : List ℕ
    pub split : front ++ left ≡ input
    pub chunker : IsChunker chunk_size s'
    pub grows : Carries e content → stream content s' ≡ stream content s ++ front
    pub within : Faithful e content → Sublist (stream content s') (stream content s ++ front)
    pub counted : total ≡ uint32 (length front)
    pub outcome : (s'.current.bytes_used ≡ 0) ⊎ (left ≡ [])

  pub module1_add_data-Input :
      (w : World) (s : State Rabin Packet) (segs : List (List ℕ))
      → IsChunker chunk_size s
      → let r = module1_add_data e w s segs in Input s r.1 r.2 (flat segs)
  unfolding module1_add_data
  module1_add_data-Input w s segs v =
      let t : Turn World (State Rabin Packet) = record { world = w; state = s; going = true } in
      let r = add_segments e t 0 segs in
      let all = add_segments-Taken t 0 segs v.sound refl in
      let plain : 0 + length all.front ≡ length all.front = omega arith in
      elim all.outcome [
        | inl (off, none_used) ↦ rw (off) (record {
          front = all.front;
          left = all.left;
          split = all.split;
          chunker = record { sound = all.takes.sound; armed = λ some_bytes. omega arith };
          grows = all.takes.grows;
          within = all.takes.within;
          counted = all.total ∙ ap uint32 plain;
          outcome = inl none_used;
        })
        | inr (on, done) ↦ rw (on) (record {
          front = all.front;
          left = all.left;
          split = all.split;
          chunker = arm-IsChunker r.0.state all.takes.sound;
          grows = λ law. arm-stream r.0.state ∙ all.takes.grows law;
          within = λ law.
              subst (λ z. Sublist z (stream content s ++ all.front)) (sym (arm-stream r.0.state))
                (all.takes.within law);
          counted = all.total ∙ ap uint32 plain;
          outcome = inr done;
        })
      ]

  -- Where module 4 builds a packet of every chunk, with its bytes:
  -- `module1_add_data` takes a front of the input and returns its length (as a `uint32_t`): what is
  -- in the packets and the buffer is what was there before, followed by that front. It takes all of
  -- the input, unless there is no buffer left; then none is in use.
  pub module1_add_data-lossless :
      (w : World) (s : State Rabin Packet) (segs : List (List ℕ))
      → IsChunker chunk_size s
      → Carries e content
      → let (w', s', total) = module1_add_data e w s segs in
        (front : List ℕ) × (left : List ℕ) × (front ++ left ≡ flat segs)
        × (stream content s' ≡ stream content s ++ front)
        × (total ≡ uint32 (length front))
        × ((s'.current.bytes_used ≡ 0) ⊎ (left ≡ []))
  module1_add_data-lossless w s segs v law =
      let r = module1_add_data-Input w s segs v in
      (r.front, r.left, r.split, r.grows law, r.counted, r.outcome)

  -- Where module 4 may answer NULL for a chunk, which then is dropped: what is in the packets and the
  -- buffer is still what was there before, followed by the front of the input whose length is returned,
  -- with some bytes left out; none comes twice, in another order or from elsewhere.
  pub module1_add_data-Sublist :
      (w : World) (s : State Rabin Packet) (segs : List (List ℕ))
      → IsChunker chunk_size s
      → Faithful e content
      → let (w', s', total) = module1_add_data e w s segs in
        (front : List ℕ) × (left : List ℕ) × (front ++ left ≡ flat segs)
        × Sublist (stream content s') (stream content s ++ front)
        × (total ≡ uint32 (length front))
        × ((s'.current.bytes_used ≡ 0) ⊎ (left ≡ []))
  module1_add_data-Sublist w s segs v law =
      let r = module1_add_data-Input w s segs v in
      (r.front, r.left, r.split, r.within law, r.counted, r.outcome)
