-- ===== src/Store.antt =====
-- module2.c: the chunk store. A chunk is kept once, in a file of records and in an index by chunk
-- id; a hash table of DPDK (`rte_hash`) finds a chunk by its SHA-256. The table is a parameter
-- with the documented behaviour of a dictionary; the spinlock makes each call one step.
pub mod Load
pub mod Inv
pub mod Insert
pub mod Find
pub mod Known
pub mod Replay
mod Tests
use xyz.Prelude.{
  ℕ, zero, suc, ◌+◌, ◌-◌, ◌*◌, ◌/◌, ◌%◌, ◌^◌, ◌≡◌, Bool, true, false, not, ◌&&◌, ◌||◌, List, [],
  ◌∷◌, ◌++◌, Option, none, some, length, take, drop, ◌==◌, ltb, leb, if◌then◌else◌,
}

abbrev pub max_chunks : ℕ
max_chunks = 262144

-- chunk_id(4) + data_len(4) + hash(32)
abbrev pub hash_size : ℕ
hash_size = 32

abbrev pub hdr_size : ℕ
hdr_size = 40

abbrev pub u32 : ℕ → ℕ
u32 x = x % 2 ^ 32

-- `memcmp(a, b, n) == 0` of two byte strings of one length
abbrev pub eq_bytes : List ℕ → List ℕ → Bool
eq_bytes [] [] = true
eq_bytes [] (y ∷ ys) = false
eq_bytes (x ∷ xs) [] = false
eq_bytes (x ∷ xs) (y ∷ ys) = x == y && eq_bytes xs ys

-- `struct chunk_index`
pub record Entry : Type 0 where
  pub chunk_id : ℕ
  pub hash : List ℕ
  pub file_offset : ℕ
  pub data_len : ℕ
  pub ref_count : ℕ
  pub is_used : Bool

abbrev pub no_entry : Entry
no_entry = record {
  chunk_id = 0;
  hash = [];
  file_offset = 0;
  data_len = 0;
  ref_count = 0;
  is_used = false;
}

-- `rte_hash` from keys to slots. `add` is `rte_hash_add_key_data`, none a negative result.
pub record HashApi : Type 1 where
  pub Table : Type 0
  pub lookup : Table → List ℕ → Option ℕ
  pub add : Table → List ℕ → ℕ → Option Table
  pub lookup-add :
      (t t' : Table) (k : List ℕ) (v : ℕ) (j : List ℕ)
      → add t k v ≡ some t'
      → lookup t' j ≡ (if eq_bytes j k then some v else lookup t j)

-- `struct module2_state`: the array as a function, the open file as its bytes; `none` is NULL.
pub record Store (T : Type 0) : Type 0 where
  pub index : ℕ → Entry
  pub total_stored : ℕ
  pub next_chunk_id : ℕ
  pub total_bytes_stored : ℕ
  pub duplicate_count : ℕ
  pub fp : Option (List ℕ)
  pub hash_table : Option T

abbrev pub put : (ℕ → Entry) → ℕ → Entry → ℕ → Entry
put f i e j = if j == i then e else f j

-- A `uint32_t` in memory on the little-endian targets, and back.
abbrev pub le32 : ℕ → List ℕ
le32 x = (x % 256) ∷ (x / 256 % 256) ∷ (x / 65536 % 256) ∷ (x / 16777216 % 256) ∷ []

pub from_le : List ℕ → ℕ
from_le [] = 0
from_le (b ∷ bs) = b + 256 * from_le bs

-- A record of the file.
abbrev pub encode : ℕ → List ℕ → List ℕ → List ℕ
encode cid hash bytes = le32 cid ++ (le32 (length bytes) ++ (hash ++ bytes))

pub cid_to_slot : {T : Type 0} → Store T → ℕ → Option ℕ
cid_to_slot s cid =
    if cid == 0 || ltb s.next_chunk_id cid
    then none
    else if leb max_chunks (cid - 1)
    then none
    else if not (s.index (cid - 1)).is_used
    then none
    else if not ((s.index (cid - 1)).chunk_id == cid)
    then none
    else some (cid - 1)

module _ (api : HashApi) where
  open api use {Table, lookup, add}

  pub slot_id : Store Table → List ℕ → Option ℕ → ℕ
  slot_id s hash none = 0
  slot_id s hash (some slot) =
      if leb max_chunks slot || not (s.index slot).is_used
      then 0
      else if eq_bytes (s.index slot).hash hash
      then (s.index slot).chunk_id
      else 0

  pub find_in : Store Table → List ℕ → Option Table → ℕ
  find_in s hash none = 0
  find_in s hash (some t) = slot_id s hash (lookup t hash)

  pub find_locked : Store Table → List ℕ → ℕ
  unfolding find_in
  find_locked s hash = find_in s hash s.hash_table

  pub module2_find_by_hash : Store Table → List ℕ → ℕ
  module2_find_by_hash = find_locked

  -- One more reference to a chunk that is there.
  pub module2_increment_ref : Store Table → ℕ → Store Table
  module2_increment_ref s cid = elim (cid_to_slot s cid) [
    | none ↦ s
    | some slot ↦ record s {
      index =
          put s.index slot
            (record (s.index slot) { ref_count = u32 ((s.index slot).ref_count + 1) });
      duplicate_count = u32 (s.duplicate_count + 1);
    }
  ]

  -- A chunk whose record has been written goes into the index and the table.
  pub insert : Store Table → Table → List ℕ → List ℕ → ℕ → List ℕ → Store Table × ℕ
  insert s t bytes hash off file =
      let slot = s.total_stored in
      let cid = s.next_chunk_id in
      let e : Entry = record {
        chunk_id = cid;
        hash = hash;
        file_offset = off;
        data_len = length bytes;
        ref_count = 1;
        is_used = true;
      } in
      elim (add t hash slot) [
        | none ↦ (
          record s { fp = some file; index = put s.index slot (record e { is_used = false }) },
          0,
        )
        | some t' ↦ (
          record s {
            fp = some file;
            index = put s.index slot e;
            hash_table = some t';
            next_chunk_id = u32 (s.next_chunk_id + 1);
            total_stored = s.total_stored + 1;
            total_bytes_stored = u32 (s.total_bytes_stored + length bytes);
          },
          cid,
        )
      ]

  -- `wrote` is how much of the record the file takes: all of it, or less when a write fails.
  pub append_record : Store Table → Table → List ℕ → List ℕ → List ℕ → ℕ → Store Table × ℕ
  append_record s t file bytes hash wrote =
      if leb max_chunks s.total_stored
      then (s, 0)
      else (let image = encode s.next_chunk_id hash bytes in
          if ltb wrote (length image)
          then (record s { fp = some (file ++ take wrote image) }, 0)
          else insert s t bytes hash (length file) (file ++ image))

  -- The new state and the chunk id, 0 on failure. The pointers are not NULL.
  pub module2_store_chunk : Store Table → List ℕ → List ℕ → ℕ → Store Table × ℕ
  module2_store_chunk s bytes hash wrote = if length bytes == 0 then (s, 0) else elim s.fp [
    | none ↦ (s, 0)
    | some file ↦ elim s.hash_table [
      | none ↦ (s, 0)
      | some t ↦
          let cid = find_locked s hash in
          if not (cid == 0)
          then (module2_increment_ref s cid, cid)
          else append_record s t file bytes hash wrote
    ]
  ]

-- The bytes that land in the buffer; `none` is the result 0.
pub module2_read_chunk : {T : Type 0} → Store T → ℕ → ℕ → Option (List ℕ)
module2_read_chunk s cid buf_size = if cid == 0 then none else elim s.fp [
  | none ↦ none
  | some file ↦ elim (cid_to_slot s cid) [
    | none ↦ none
    | some slot ↦
        if ltb buf_size (s.index slot).data_len
        then none
        else (let got =
              take (s.index slot).data_len (drop ((s.index slot).file_offset + hdr_size) file) in
            if length got == (s.index slot).data_len then some got else none)
  ]
]
