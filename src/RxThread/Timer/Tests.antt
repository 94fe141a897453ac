-- ===== src/RxThread/Timer/Tests.antt =====
-- Three connections, of which the first and the last are of the LAN.
use mathlib.Core.Option.{some-injective, none-ne-some}
use xyz.Prelude.{
  ℕ, ◌+◌, ◌≡◌, refl, sym, ap, true, Option, some, none, List, [], ◌∷◌, take, length, All, arith,
}
use xyz.Chunker.{Engine, State, cdc_continue}
use xyz.Chunker.Inv.{IsChunker, Carries}
use xyz.RxThread.Timer.Pending.{Slot, tlv_loop}
use xyz.RxThread.Timer.Pending.Served.{Chunks, AllServed, tlv_loop-AllServed}

-- A packet is the bytes of its chunk; the pool always has a buffer.
abbrev engine : Engine
engine = record {
  World = ℕ;
  Rabin = ℕ;
  Packet = List ℕ;
  chunk_size = 4;
  chunk_size_pos = omega arith;
  mempool_get = λ w. some w;
  mempool_put = λ w. w + 1;
  compute_hash = λ bytes. take 2 bytes;
  lookup_and_build_tlv = λ w hash bytes. (w, some bytes);
  feed_byte = λ r b n. (r, cdc_continue);
  state_reset = λ r. 0;
  init_state = 0;
}

abbrev content : List ℕ → List ℕ
content p = p

carries : Carries engine content
carries w bytes = (bytes, refl, refl)

abbrev five_six : List ℕ
five_six = 5 ∷ (6 ∷ [])

-- One packet and two bytes wait.
abbrev waiting : ℕ → State ℕ (List ℕ)
waiting ticks = record {
  current = record { buffer = some five_six; bytes_used = 2 };
  chunk_to = ticks;
  tlv_pending = (1 ∷ (2 ∷ [])) ∷ [];
  rabin = 0;
  total_bytes_received = 4;
  full_chunks_sent = 1;
  partial_chunks_sent = 0;
  max_chunks_sent = 0;
  total_chunks_sent = 1;
}

no_data : some five_six ≡ none → (waiting 1).current.bytes_used ≡ 0
no_data h = absurd (none-ne-some five_six (sym h))

two_bytes : (bs : List ℕ) → some five_six ≡ some bs → length bs ≡ (waiting 1).current.bytes_used
two_bytes bs h = ap length (sym (some-injective five_six bs h))

waiting_1 : IsChunker 4 (waiting 1)
waiting_1 = record {
  sound = record {
    fits = record { no_buffer = no_data; written = two_bytes; bound = omega arith };
    counted = omega arith;
    timer = omega arith;
  };
  armed = λ some_bytes. omega arith;
}

waiting_2 : IsChunker 4 (waiting 2)
waiting_2 = record {
  sound = record {
    fits = record { no_buffer = no_data; written = two_bytes; bound = omega arith };
    counted = omega arith;
    timer = omega arith;
  };
  armed = λ some_bytes. omega arith;
}

abbrev slot : ℕ → Option ℕ → Option ℕ → ℕ → Slot ℕ (List ℕ)
slot lanif proxy sock ticks = record {
  is_stored = true;
  tp = some (record { lanif = lanif; index_proxy = proxy; sock = sock; m1_state = waiting ticks });
}

-- The proxy of the first is the second, which has a socket; the third has no proxy, and a tick more.
abbrev table : List (Slot ℕ (List ℕ))
table = slot 0 (some 1) none 1 ∷ (slot 1 (some 0) (some 5) 1 ∷ (slot 0 none (some 6) 2 ∷ []))

table-Chunks : All (Chunks engine content) table
table-Chunks = (waiting_1, (waiting_1, (waiting_2, tt)))

tlv_loop-AllServed_example :
    AllServed engine content 0 table table
      (tlv_loop engine 0 table 3 table).1.0
      (tlv_loop engine 0 table 3 table).1.1
tlv_loop-AllServed_example = tlv_loop-AllServed engine content 0 table 3 table carries table-Chunks
