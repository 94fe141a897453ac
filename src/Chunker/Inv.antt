-- ===== src/Chunker/Inv.antt =====
-- The well-formed states of the chunker, and the bytes that a state stands for.
use mathlib.Core.List.{Sublist}
use mathlib.Core.List.Sublist
use xyz.Prelude.{
  ℕ, ◌+◌, ◌≤◌, ◌<◌, ◌≡◌, subst, List, [], ◌∷◌, ◌++◌, Option, none, some, take, length,
}
use xyz.Chunker.{Engine, Chunk, State, inactivity_ticks, uint32}

-- The buffer holds the bytes that are counted, and they fit.
pub record Fits (chunk_size : ℕ) (c : Chunk) : Type 0 where
  pub no_buffer : c.buffer ≡ none → c.bytes_used ≡ 0
  pub written : (bs : List ℕ) → c.buffer ≡ some bs → length bs ≡ c.bytes_used
  pub bound : c.bytes_used ≤ chunk_size

-- Every chunk is counted once under its type.
pub record Sound {R P : Type 0} (chunk_size : ℕ) (s : State R P) : Type 0 where
  pub fits : Fits chunk_size s.current
  pub counted :
      s.total_chunks_sent ≡ uint32 (s.full_chunks_sent + s.partial_chunks_sent + s.max_chunks_sent)
  pub timer : s.chunk_to ≤ inactivity_ticks

-- Between calls the timer runs while there are bytes in the buffer.
pub record IsChunker {R P : Type 0} (chunk_size : ℕ) (s : State R P) : Type 0 where
  pub sound : Sound chunk_size s
  pub armed : 0 < s.current.bytes_used → 0 < s.chunk_to

abbrev pub held_in : Option (List ℕ) → ℕ → List ℕ
held_in none n = []
held_in (some bs) n = take n bs

abbrev pub held : Chunk → List ℕ
held c = held_in c.buffer c.bytes_used

unfoldable pub contents : {P : Type 0} → (P → List ℕ) → List P → List ℕ
contents content [] = []
contents content (p ∷ ps) = content p ++ contents content ps

-- The bytes of the segments of an mbuf chain.
unfoldable pub flat : List (List ℕ) → List ℕ
flat [] = []
flat (seg ∷ segs) = seg ++ flat segs

-- The bytes in the packets that wait, then those in the buffer.
abbrev pub stream : {R P : Type 0} → (P → List ℕ) → State R P → List ℕ
stream content s = contents content s.tlv_pending ++ held s.current

-- Module 4 builds a packet of every chunk, and the packet stands for the chunk's bytes.
abbrev pub Carries : (e : Engine) → (e.Packet → List ℕ) → Type 0
Carries e content =
    (w : e.World) (bytes : List ℕ)
    → (p : e.Packet) × ((e.lookup_and_build_tlv w (e.compute_hash bytes) bytes).1 ≡ some p)
      × (content p ≡ bytes)

-- The packets that module 4 does build stand for the bytes of their chunks; where it answers NULL, the
-- chunk is dropped.
abbrev pub Faithful : (e : Engine) → (e.Packet → List ℕ) → Type 0
Faithful e content =
    (w : e.World) (bytes : List ℕ) (p : e.Packet)
    → (e.lookup_and_build_tlv w (e.compute_hash bytes) bytes).1 ≡ some p
    → content p ≡ bytes

pub of_equal : (xs ys : List ℕ) → xs ≡ ys → Sublist xs ys
of_equal xs ys h = subst (λ z. Sublist xs z) h (Sublist.refl xs)
