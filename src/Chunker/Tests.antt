-- ===== src/Chunker/Tests.antt =====
-- The chunker with buffers of four bytes, and a boundary after every zero byte.
use mathlib.Core.List.{Sublist}
use mathlib.Core.Option.{some-injective, none-ne-some}
use xyz.Prelude.{
  sym, inl, inr, Bool-cases, ℕ, zero, suc, ◌+◌, ◌≡◌, ◌⊎◌, refl, List, [], ◌∷◌, ◌++◌, Option, none,
  some, take, length, ◌==◌, if◌then◌else◌, arith,
}
use xyz.Chunker.{
  Engine, State, no_chunk, uint32, cdc_continue, cdc_boundary, module1_add_data, module1_flush,
  module1_take_pending, module1_state_init, byte_caching_timer_check,
}
use xyz.Chunker.Inv.{IsChunker, Carries, Faithful, contents, stream, flat}
use xyz.Chunker.Input.{module1_add_data-lossless, module1_add_data-Sublist}
use xyz.Chunker.Timer.{Calls, created, added, Calls-IsChunker, flush-take_pending}

get : ℕ → Option ℕ
get zero = none
get (suc n) = some n

-- The world is the number of free buffers, a packet the bytes of its chunk.
abbrev engine : Engine
engine = record {
  World = ℕ;
  Rabin = ℕ;
  Packet = List ℕ;
  chunk_size = 4;
  chunk_size_pos = omega arith;
  mempool_get = get;
  mempool_put = λ w. w + 1;
  compute_hash = λ bytes. take 2 bytes;
  lookup_and_build_tlv = λ w hash bytes. (w, some bytes);
  feed_byte = λ r b n. (r + b, if b == 0 then cdc_boundary else cdc_continue);
  state_reset = λ r. 0;
  init_state = 0;
}

abbrev content : List ℕ → List ℕ
content p = p

carries : Carries engine content
carries w bytes = (bytes, refl, refl)

abbrev blank : State ℕ (List ℕ)
blank = record {
  current = no_chunk;
  chunk_to = 7;
  tlv_pending = [];
  rabin = 9;
  total_bytes_received = 3;
  full_chunks_sent = 0;
  partial_chunks_sent = 0;
  max_chunks_sent = 0;
  total_chunks_sent = 0;
}

abbrev fresh : ℕ × State ℕ (List ℕ)
fresh = module1_state_init engine 1 blank

abbrev input : List (List ℕ)
input = (1 ∷ 2 ∷ []) ∷ [] ∷ (0 ∷ 5 ∷ 6 ∷ 7 ∷ 8 ∷ 9 ∷ []) ∷ []

abbrev fed : ℕ × State ℕ (List ℕ)
fed = ((module1_add_data engine 1 fresh.1 input).0, (module1_add_data engine 1 fresh.1 input).1)

history : Calls engine fresh fed
history = added fresh 1 input (created 1 blank refl)

fresh-IsChunker : IsChunker 4 fresh.1
fresh-IsChunker = Calls-IsChunker engine (created 1 blank refl)

-- A chunk ends at the zero byte, the next one at four bytes; one byte waits.
cuts : fed.1.tlv_pending ≡ (1 ∷ 2 ∷ 0 ∷ []) ∷ (5 ∷ 6 ∷ 7 ∷ 8 ∷ []) ∷ []
unfolding module1_add_data get module1_state_init xyz.Chunker.on_result xyz.Chunker.write_byte
    xyz.Chunker.process_chunk xyz.Chunker.arm xyz.Chunker.append_tlv
cuts = refl

module1_add_data-lossless_example :
    let (w', s', total) = module1_add_data engine 1 fresh.1 input in
    (front : List ℕ) × (left : List ℕ) × (front ++ left ≡ flat input)
    × (stream content s' ≡ stream content fresh.1 ++ front)
    × (total ≡ uint32 (length front))
    × ((s'.current.bytes_used ≡ 0) ⊎ (left ≡ []))
module1_add_data-lossless_example =
    module1_add_data-lossless engine content 1 fresh.1 input fresh-IsChunker carries

Calls-IsChunker_example : IsChunker 4 fed.1
Calls-IsChunker_example = Calls-IsChunker engine history

flush-take_pending_example :
    let (w1, s1) = module1_flush engine 0 fed.1 in
    let (s2, taken) = module1_take_pending engine s1 in
    (contents content taken ≡ stream content fed.1) × (stream content s2 ≡ [])
flush-take_pending_example =
    flush-take_pending engine content 0 fed.1 (Calls-IsChunker engine history) carries

-- Module 4 gives no packet for a chunk of four bytes.
abbrev lossy : Engine
lossy = record engine {
  lookup_and_build_tlv = λ w hash bytes. (w, if length bytes == 4 then none else some bytes);
}

faithful : Faithful lossy content
faithful w bytes p h = elim (Bool-cases (length bytes == 4)) [
  | inl four ↦ let e : none ≡ some p = simp four at h in absurd (none-ne-some p e)
  | inr other ↦ let e : some bytes ≡ some p = simp other at h in sym (some-injective bytes p e)
]

module1_add_data-Sublist_example :
    let (w', s', total) = module1_add_data lossy 1 fresh.1 input in
    (front : List ℕ) × (left : List ℕ) × (front ++ left ≡ flat input)
    × Sublist (stream content s') (stream content fresh.1 ++ front)
    × (total ≡ uint32 (length front))
    × ((s'.current.bytes_used ≡ 0) ⊎ (left ≡ []))
module1_add_data-Sublist_example =
    module1_add_data-Sublist lossy content 1 fresh.1 input fresh-IsChunker faithful
