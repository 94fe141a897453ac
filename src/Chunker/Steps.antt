-- ===== src/Chunker/Steps.antt =====
-- The steps of module1.c on sound states.
use mathlib.Core.List.{append_assoc, append-nil, Sublist, sublist-append_left}
use mathlib.Core.List.Sublist
use xyz.Prelude.{
  ℕ, ◌+◌, ◌≡◌, ◌≢◌, inl, inr, refl, sym, ap, ◌∙◌, subst, List, [], ◌∷◌, ◌++◌, Option, none, some,
  take, ◌==◌, Bool-cases, arith,
}
use xyz.Chunker.{Engine, State, no_chunk, append_tlv, count, uint32, process_data, process_chunk}
use xyz.Chunker.Inv.{Fits, Sound, held_in, contents, stream, Carries, Faithful, of_equal}

contents-append :
    {P : Type 0} (content : P → List ℕ) (ps : List P) (p : P)
    → contents content (ps ++ (p ∷ [])) ≡ contents content ps ++ content p
unfolding contents
contents-append content [] p = append-nil (content p)
contents-append content (q ∷ ps) p =
    ap (λ x. content q ++ x) (contents-append content ps p)
    ∙ sym (append_assoc (content q) (contents content ps) (content p))

pub no_chunk-Fits : (n : ℕ) → Fits n no_chunk
no_chunk-Fits n = record { no_buffer = λ e. refl; written = λ bs e. cc e; bound = omega arith }

count-Sound :
    {R P : Type 0} (s : State R P) (t : ℕ)
    → s.total_chunks_sent ≡ uint32 (s.full_chunks_sent + s.partial_chunks_sent + s.max_chunks_sent)
    → (count s t).total_chunks_sent
      ≡ uint32 (
          (count s t).full_chunks_sent
          + (count s t).partial_chunks_sent
          + (count s t).max_chunks_sent)
unfolding count
count-Sound s t h = elim (Bool-cases (t == 0)) [
  | inl a ↦ rw (a) (omega arith)
  | inr a ↦ elim (Bool-cases (t == 1)) [
    | inl b ↦ rw (a, b) (omega arith)
    | inr b ↦ rw (a, b) (omega arith)
  ]
]

module _ (e : Engine) (content : e.Packet → List ℕ) where
  open e use {World, Rabin, Packet, chunk_size, chunk_size_pos}

  -- A step that takes the bytes `fed`.
  pub record Takes (s s' : State Rabin Packet) (fed : List ℕ) : Type 0 where
    pub sound : Sound chunk_size s'
    pub grows : Carries e content → stream content s' ≡ stream content s ++ fed
    pub within : Faithful e content → Sublist (stream content s') (stream content s ++ fed)

  -- A step at which no chunk ends.
  pub plain_step :
      (s s' : State Rabin Packet) (fed : List ℕ)
      → Sound chunk_size s'
      → stream content s' ≡ stream content s ++ fed
      → Takes s s' fed
  plain_step s s' fed v same = record {
    sound = v;
    grows = λ law. same;
    within = λ law. of_equal (stream content s') (stream content s ++ fed) same;
  }

  pub Takes-refl : (s : State Rabin Packet) → Sound chunk_size s → Takes s s []
  Takes-refl s v = plain_step s s [] v (sym (append-nil (stream content s)))

  pub Takes-trans :
      (a b c : State Rabin Packet) (xs ys : List ℕ)
      → Takes a b xs
      → Takes b c ys
      → Takes a c (xs ++ ys)
  Takes-trans a b c xs ys f g = record {
    sound = g.sound;
    grows = λ law.
        g.grows law ∙ ap (λ z. z ++ ys) (f.grows law) ∙ append_assoc (stream content a) xs ys;
    within = λ law.
        subst (λ z. Sublist (stream content c) z) (append_assoc (stream content a) xs ys)
          (Sublist.trans (g.within law) (Sublist.append (f.within law) (Sublist.refl ys)));
  }

  -- A packet is the chunk's bytes, and no packet leaves them out.
  appended :
      (ps : List Packet) (bytes : List ℕ) (built : Option Packet)
      → ((p : Packet) → built ≡ some p → content p ≡ bytes)
      → Sublist (contents content (append_tlv ps built)) (contents content ps ++ bytes)
  unfolding append_tlv
  appended ps bytes none law = sublist-append_left (contents content ps) bytes
  appended ps bytes (some p) law =
      of_equal (contents content (ps ++ (p ∷ []))) (contents content ps ++ bytes)
        (contents-append content ps p ∙ ap (λ x. contents content ps ++ x) (law p refl))

  processed :
      (w : World) (s : State Rabin Packet) (t : ℕ) (b : Option (List ℕ))
      → Sound chunk_size s
      → s.current.bytes_used ≢ 0
      → s.current.buffer ≡ b
      → Takes s (process_data e w s t b).1 [] × ((process_data e w s t b).1.current.bytes_used ≡ 0)
  unfolding process_data append_tlv count
  processed w s t none v some_bytes h = absurd (some_bytes (v.fits.no_buffer h))
  processed w s t (some bs) v some_bytes h = (
    record {
      sound = record {
        fits = no_chunk-Fits chunk_size;
        counted = count-Sound s t v.counted;
        timer = omega arith;
      };
      grows = λ law.
          let (p, built, same) = law w (take s.current.bytes_used bs) in
          ap (λ x. contents content (append_tlv s.tlv_pending x) ++ []) built
          ∙ append-nil (contents content (append_tlv s.tlv_pending (some p)))
          ∙ contents-append content s.tlv_pending p
          ∙ ap (λ x. contents content s.tlv_pending ++ x) same
          ∙ ap (λ x. contents content s.tlv_pending ++ held_in x s.current.bytes_used) (sym h)
          ∙ sym (append-nil (stream content s));
      within = λ law.
          let bytes = take s.current.bytes_used bs in
          let waits : bytes ≡ held_in s.current.buffer s.current.bytes_used =
            ap (λ x. held_in x s.current.bytes_used) (sym h) in
          subst
            (λ x.
              Sublist
                (contents content (
                    append_tlv s.tlv_pending
                      (e.lookup_and_build_tlv w (e.compute_hash bytes) bytes).1)
                  ++ [])
                ((contents content s.tlv_pending ++ x) ++ []))
            waits
            (Sublist.append
              (appended s.tlv_pending bytes
                (e.lookup_and_build_tlv w (e.compute_hash bytes) bytes).1 (law w bytes))
              (Sublist.refl []));
    },
    refl,
  )

  -- A chunk that ends leaves an empty buffer, and takes no byte.
  pub process_chunk-Takes :
      (w : World) (s : State Rabin Packet) (t : ℕ)
      → Sound chunk_size s
      → Takes s (process_chunk e w s t).1 [] × ((process_chunk e w s t).1.current.bytes_used ≡ 0)
  unfolding process_chunk
  process_chunk-Takes w s t v = elim (Bool-cases (s.current.bytes_used == 0)) [
    | inl z ↦ rw (z) (Takes-refl s v, ground arith)
    | inr z ↦ rw (z) (processed w s t s.current.buffer v (ground arith) refl)
  ]
