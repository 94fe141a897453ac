-- ===== src/Chunker.antt =====
-- module1.c: the chunker of the byte cache. The bytes of a connection are collected in a buffer; a
-- content-defined boundary, a full buffer, inactivity or a flush ends the chunk, which module 4
-- turns into a packet on the list `tlv_pending`. The spinlock makes each call one step.
pub mod Inv
pub mod Steps
pub mod Room
pub mod Stream
pub mod Input
pub mod Timer
mod Tests
use xyz.Prelude.{
  ℕ, suc, ◌+◌, ◌-◌, ◌%◌, ◌^◌, ◌<◌, Bool, true, false, ◌&&◌, List, [], ◌∷◌, ◌++◌, Option, none, some,
  take, ◌==◌, ltb, leb, not, if◌then◌else◌,
}

abbrev pub inactivity_ticks : ℕ
inactivity_ticks = 200

abbrev pub uint32 : ℕ → ℕ
uint32 x = x % 2 ^ 32

-- `cdc_result_t`
pub data CdcResult : Type 0 where
  cdc_continue : CdcResult
  cdc_boundary : CdcResult
  cdc_boundary_strong : CdcResult
  cdc_boundary_max : CdcResult

-- What module1.c calls. `World` is the state behind these calls: the pool of chunk buffers and the
-- store of module 4. `chunk_size` is CDC_MAX_CHUNK.
pub record Engine : Type 1 where
  pub World : Type 0
  pub Rabin : Type 0
  pub Packet : Type 0
  pub chunk_size : ℕ
  pub chunk_size_pos : 0 < chunk_size
  -- none when the pool is exhausted or was not created
  pub mempool_get : World → Option World
  pub mempool_put : World → World
  pub compute_hash : List ℕ → List ℕ
  -- none is NULL
  pub lookup_and_build_tlv : World → List ℕ → List ℕ → World × Option Packet
  pub feed_byte : Rabin → ℕ → ℕ → Rabin × CdcResult
  pub state_reset : Rabin → Rabin
  pub init_state : Rabin

-- `struct chunk`: the buffer as the bytes written to it, none is NULL.
pub record Chunk : Type 0 where
  pub buffer : Option (List ℕ)
  pub bytes_used : ℕ

-- `struct module1_state`, less the receive side, which this file does not touch.
pub record State (R P : Type 0) : Type 0 where
  pub current : Chunk
  pub chunk_to : ℕ
  pub tlv_pending : List P
  pub rabin : R
  pub total_bytes_received : ℕ
  pub full_chunks_sent : ℕ
  pub partial_chunks_sent : ℕ
  pub max_chunks_sent : ℕ
  pub total_chunks_sent : ℕ

abbrev pub no_chunk : Chunk
no_chunk = record { buffer = none; bytes_used = 0 }

-- The chain gets the packet at its end.
pub append_tlv : {P : Type 0} → List P → Option P → List P
append_tlv ps none = ps
append_tlv ps (some p) = ps ++ (p ∷ [])

pub count : {R P : Type 0} → State R P → ℕ → State R P
count s chunk_type = record s {
  full_chunks_sent =
      if chunk_type == 0 then uint32 (s.full_chunks_sent + 1) else s.full_chunks_sent;
  partial_chunks_sent =
      if chunk_type == 0
      then s.partial_chunks_sent
      else if chunk_type == 1
      then uint32 (s.partial_chunks_sent + 1)
      else s.partial_chunks_sent;
  max_chunks_sent =
      if chunk_type == 0
      then s.max_chunks_sent
      else if chunk_type == 1
      then s.max_chunks_sent
      else uint32 (s.max_chunks_sent + 1);
  total_chunks_sent = uint32 (s.total_chunks_sent + 1);
}

-- `current.data[bytes_used] = b`
pub write_byte : Option (List ℕ) → ℕ → ℕ → Option (List ℕ)
write_byte none n b = none
write_byte (some bs) n b = some (take n bs ++ (b ∷ []))

pub arm : {R P : Type 0} → State R P → State R P
arm s =
    if ltb 0 s.current.bytes_used && s.chunk_to == 0
    then record s { chunk_to = inactivity_ticks }
    else s

-- The states after a step, and whether the call goes on.
pub record Turn (W S : Type 0) : Type 0 where
  pub world : W
  pub state : S
  pub going : Bool

module _ (e : Engine) where
  open e use {
    World, Rabin, Packet, chunk_size, mempool_get, mempool_put, compute_hash, lookup_and_build_tlv,
    feed_byte, state_reset, init_state,
  }

  pub alloc_data : World → Chunk → Option (List ℕ) → Option World → Turn World Chunk
  alloc_data w c (some bs) free = record { world = w; state = c; going = true }
  alloc_data w c none none = record { world = w; state = c; going = false }
  alloc_data w c none (some w') = record {
    world = w';
    state = record { buffer = some []; bytes_used = 0 };
    going = true;
  }

  pub chunk_alloc : World → Chunk → Turn World Chunk
  unfolding alloc_data
  chunk_alloc w c = alloc_data w c c.buffer (mempool_get w)

  -- The buffer of a chunk goes back to the pool.
  pub chunk_free : World → Chunk → World × Chunk
  chunk_free w c = elim c.buffer [ none ↦ (w, c) | some bs ↦ (mempool_put w, no_chunk) ]

  pub process_data : World → State Rabin Packet → ℕ → Option (List ℕ) → World × State Rabin Packet
  process_data w s chunk_type none = (w, record s { current = record s.current { bytes_used = 0 } })
  process_data w s chunk_type (some bs) =
      let bytes = take s.current.bytes_used bs in
      let built = lookup_and_build_tlv w (compute_hash bytes) bytes in
      (
        mempool_put built.0,
        record (count s chunk_type) {
          tlv_pending = append_tlv s.tlv_pending built.1;
          current = no_chunk;
          chunk_to = 0;
          rabin = state_reset s.rabin;
        },
      )

  pub process_chunk : World → State Rabin Packet → ℕ → World × State Rabin Packet
  unfolding process_data
  process_chunk w s chunk_type =
      if s.current.bytes_used == 0 then (w, s) else process_data w s chunk_type s.current.buffer

  pub alloc_current : World → State Rabin Packet → Turn World (State Rabin Packet)
  unfolding chunk_alloc
  alloc_current w s =
      let a = chunk_alloc w s.current in
      record { world = a.world; state = record s { current = a.state }; going = a.going }

  -- A full buffer makes a chunk before the next byte.
  pub make_room : Turn World (State Rabin Packet) → Bool → Turn World (State Rabin Packet)
  unfolding alloc_current
  make_room t false = t
  make_room t true =
      let p = process_chunk t.world t.state 2 in
      elim (leb chunk_size t.state.current.bytes_used) [ false ↦ t | true ↦ alloc_current p.0 p.1 ]

  pub on_result : World → State Rabin Packet → CdcResult → World × State Rabin Packet
  on_result w s cdc_continue = (w, s)
  on_result w s cdc_boundary = process_chunk w s 0
  on_result w s cdc_boundary_strong = process_chunk w s 0
  on_result w s cdc_boundary_max = process_chunk w s 2

  pub store_byte : State Rabin Packet → ℕ → State Rabin Packet
  store_byte s b = record s {
    current = record {
      buffer = write_byte s.current.buffer s.current.bytes_used b;
      bytes_used = s.current.bytes_used + 1;
    };
    total_bytes_received = uint32 (s.total_bytes_received + 1);
  }

  pub feed : World → State Rabin Packet → ℕ → World × State Rabin Packet
  unfolding store_byte
  feed w s b =
      let s1 = store_byte s b in
      let (r, result) = feed_byte s1.rabin b s1.current.bytes_used in
      on_result w (record s1 { rabin = r }) result

  pub feed_if : Turn World (State Rabin Packet) → ℕ → Bool → Turn World (State Rabin Packet)
  unfolding feed
  feed_if t b false = t
  feed_if t b true =
      let r = feed t.world t.state b in record { world = r.0; state = r.1; going = true }

  -- The body of the inner loop of `module1_add_data`.
  pub add_byte : World → State Rabin Packet → ℕ → Turn World (State Rabin Packet)
  unfolding make_room feed_if
  add_byte w s b = let a = alloc_current w s in let t = make_room a a.going in feed_if t b t.going

  pub add_bytes : Turn World (State Rabin Packet) → ℕ → List ℕ → Turn World (State Rabin Packet) × ℕ
  unfolding add_byte
  add_bytes t total [] = (t, total)
  add_bytes t total (b ∷ bs) =
      let t' = add_byte t.world t.state b in
      elim t'.going [ false ↦ (t', total) | true ↦ add_bytes t' (uint32 (total + 1)) bs ]

  pub add_segments :
      Turn World (State Rabin Packet) → ℕ → List (List ℕ) → Turn World (State Rabin Packet) × ℕ
  unfolding add_bytes
  add_segments t total [] = (t, total)
  add_segments t total (seg ∷ rest) =
      let r = add_bytes t total seg in
      elim r.0.going [ false ↦ r | true ↦ add_segments r.0 r.1 rest ]

  -- The mbuf chain as the bytes of its segments. The result is the number of bytes taken.
  pub module1_add_data : World → State Rabin Packet → List (List ℕ) → World × State Rabin Packet × ℕ
  unfolding add_segments
  module1_add_data w s segs =
      let (t, total) = add_segments (record { world = w; state = s; going = true }) 0 segs in
      (t.world, (if t.going then arm t.state else t.state), total)

  pub byte_caching_timer_check : World → State Rabin Packet → World × State Rabin Packet
  byte_caching_timer_check w s =
      if s.chunk_to == 0
      then (w, s)
      else (let s1 : State Rabin Packet = record s { chunk_to = s.chunk_to - 1 } in
          if s1.chunk_to == 0 && ltb 0 s1.current.bytes_used then process_chunk w s1 1 else (w, s1))

  pub module1_flush : World → State Rabin Packet → World × State Rabin Packet
  module1_flush w s = if not (s.current.bytes_used == 0) then process_chunk w s 1 else (w, s)

  pub module1_take_pending : State Rabin Packet → State Rabin Packet × List Packet
  module1_take_pending s = (record s { tlv_pending = [] }, s.tlv_pending)

  pub module1_state_init : World → State Rabin Packet → World × State Rabin Packet
  module1_state_init w s =
      let (w1, c) = chunk_free w s.current in
      (
        w1,
        record {
          current = no_chunk;
          chunk_to = 0;
          tlv_pending = [];
          rabin = init_state;
          total_bytes_received = 0;
          full_chunks_sent = 0;
          partial_chunks_sent = 0;
          max_chunks_sent = 0;
          total_chunks_sent = 0;
        },
      )
