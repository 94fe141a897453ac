-- ===== src/Store/Load.antt =====
-- `module2_init`: the index rebuilt from the records of the file, then the hash table from the
-- index. The loop reads at least 41 bytes a round, so the length of the file is enough fuel.
use xyz.Prelude.{
  ℕ, zero, suc, ◌+◌, ◌^◌, ◌≤◌, ◌<◌, ◌≡◌, ap, ◌∙◌, Bool, true, false, ◌||◌, List, [], ◌++◌, Option,
  none, some, length, take, drop, length-append, take-append, drop-append, ◌==◌, ltb, leb,
  if◌then◌else◌, arith,
}
use mathlib.Core.List.{append_assoc}
use xyz.Store.{
  Store, Entry, HashApi, no_entry, max_chunks, hash_size, hdr_size, u32, put, le32, from_le, encode,
}

-- The body of the loop, once a record header has been read.
unfoldable pub load_entry : {T : Type 0} → Store T → ℕ → ℕ → List ℕ → ℕ → Store T
load_entry s cid dlen h off = record s {
  index = put s.index s.total_stored (record {
    chunk_id = cid;
    hash = h;
    file_offset = off;
    data_len = dlen;
    ref_count = 1;
    is_used = true;
  });
  next_chunk_id = if leb s.next_chunk_id cid then u32 (cid + 1) else s.next_chunk_id;
  total_stored = s.total_stored + 1;
  total_bytes_stored = u32 (s.total_bytes_stored + dlen);
}

-- The three reads, the length check and the index check that end the loop.
unfoldable pub stops : {T : Type 0} → Store T → List ℕ → Bool
stops s rest =
    ltb (length rest) hdr_size
    || (from_le (take 4 (drop 4 rest)) == 0
        || ltb 65536 (from_le (take 4 (drop 4 rest)))
        || leb max_chunks s.total_stored)

unfoldable pub load_loop : {T : Type 0} → ℕ → Store T → ℕ → List ℕ → Store T
load_loop zero s off rest = s
load_loop (suc fuel) s off rest =
    let dlen = from_le (take 4 (drop 4 rest)) in
    elim (stops s rest) [
      | true ↦ s
      | false ↦
          load_loop fuel
            (load_entry s (from_le (take 4 rest)) dlen (take hash_size (drop 8 rest)) off)
            (off + hdr_size + dlen) (drop (hdr_size + dlen) rest)
    ]

module _ (api : HashApi) where
  open api use {Table, add}

  -- A key that the table refuses is left out.
  unfoldable pub add_slots : (n slot : ℕ) → (ℕ → Entry) → Table → Table
  add_slots zero slot index t = t
  add_slots (suc n) slot index t =
      add_slots n (slot + 1) index (elim (add t (index slot).hash slot) [ none ↦ t | some t' ↦ t' ])

  unfoldable pub build_hash : Store Table → Option Table → Store Table
  unfolding add_slots
  build_hash s none = s
  build_hash s (some t) = record s { hash_table = some (add_slots s.total_stored 0 s.index t) }

  abbrev pub start : Store Table
  start = record {
    index = λ _. no_entry;
    total_stored = 0;
    next_chunk_id = 1;
    total_bytes_stored = 0;
    duplicate_count = 0;
    fp = none;
    hash_table = none;
  }

  -- `found` is the store file that is there, `creatable` whether a new one can be made, `created`
  -- what `rte_hash_create` returns.
  unfoldable pub module2_init : Option (List ℕ) → Bool → Option Table → Store Table
  module2_init none creatable created =
      if creatable then build_hash (record start { fp = some [] }) created else start
  module2_init (some file) creatable created =
      build_hash (load_loop (length file + 1) (record start { fp = some file }) 0 file) created

pub from_le-le32 : (n : ℕ) → n < 2 ^ 32 → from_le (le32 n) ≡ n
unfolding from_le
from_le-le32 n h = omega arith

load_loop-step :
    {T : Type 0} (fuel : ℕ) (s : Store T) (off cid dlen : ℕ) (h all rest : List ℕ)
    → stops s all ≡ false
    → from_le (take 4 all) ≡ cid
    → from_le (take 4 (drop 4 all)) ≡ dlen
    → take 32 (drop 8 all) ≡ h
    → drop (40 + dlen) all ≡ rest
    → load_loop (suc fuel) s off all
      ≡ load_loop fuel (load_entry s cid dlen h off) (off + hdr_size + dlen) rest
unfolding load_loop
load_loop-step fuel s off cid dlen h all rest go e4 e8 eh er =
    rw (go, load_loop) (rw (e8) (rw (e4, eh, er)))

-- A record at the front of what is left goes into the index.
pub load_loop-record :
    {T : Type 0} (fuel : ℕ) (s : Store T) (off cid : ℕ) (h bytes rest : List ℕ)
    → cid < 2 ^ 32
    → length h ≡ 32
    → 0 < length bytes
    → length bytes ≤ 65536
    → s.total_stored < max_chunks
    → load_loop (suc fuel) s off (encode cid h bytes ++ rest)
      ≡ load_loop fuel (load_entry s cid (length bytes) h off) (off + hdr_size + length bytes) rest
unfolding stops
load_loop-record fuel s off cid h bytes rest hc hh lo hi room =
    let whole : List ℕ = encode cid h bytes ++ rest in
    let e4 : from_le (take 4 whole) ≡ cid = from_le-le32 cid hc in
    let e8 : from_le (take 4 (drop 4 whole)) ≡ length bytes =
      from_le-le32 (length bytes) (omega arith) in
    let eh : take 32 (drop 8 whole) ≡ h =
      ap (take 32) (append_assoc h bytes rest) ∙ take-append 32 h (bytes ++ rest) hh in
    let size : length (encode cid h bytes) ≡ 40 + length bytes =
      omega (arith, length-append h bytes) in
    let er : drop (40 + length bytes) whole ≡ rest =
      drop-append (40 + length bytes) (encode cid h bytes) rest size in
    let a : ltb (length whole) 40 ≡ false =
      ground (arith, size, length-append (encode cid h bytes) rest) in
    let b : (from_le (take 4 (drop 4 whole)) == 0) ≡ false = rw e8 (ground arith) in
    let c : ltb 65536 (from_le (take 4 (drop 4 whole))) ≡ false = rw e8 (ground arith) in
    let d : leb max_chunks s.total_stored ≡ false = ground arith in
    load_loop-step fuel s off cid (length bytes) h whole rest (rw (a, b, c, d)) e4 e8 eh er
