-- ===== src/Store/Inv.antt =====
-- What the index, the table and the file of module2.c stand for: the list of chunks, each a hash
-- with its bytes, in the order of their ids. The chunk of id n stands in slot n - 1.
use xyz.Prelude.{ℕ, ◌+◌, ◌≤◌, ◌≡◌, true, List, some, length, take, drop, get_elem?}
use xyz.Store.{Store, Entry, HashApi, max_chunks, hash_size, hdr_size}

pub record Chunk : Type 0 where
  pub hash : List ℕ
  pub bytes : List ℕ

-- A slot describes its chunk, and the file holds the record at its offset.
pub record Holds (e : Entry) (cid : ℕ) (c : Chunk) (file : List ℕ) : Type 0 where
  pub used : e.is_used ≡ true
  pub id : e.chunk_id ≡ cid
  pub key : e.hash ≡ c.hash
  pub size : e.data_len ≡ length c.bytes
  pub key_size : length c.hash ≡ hash_size
  pub room : e.file_offset + hdr_size + length c.bytes ≤ length file
  pub record_there : take (length c.bytes) (drop (e.file_offset + hdr_size) file) ≡ c.bytes

module _ (api : HashApi) where
  open api use {Table, lookup}

  pub record IsStore (s : Store Table) (t : Table) (file : List ℕ) (cs : List Chunk) : Type 0 where
    pub file_open : s.fp ≡ some file
    pub table_there : s.hash_table ≡ some t
    pub count : s.total_stored ≡ length cs
    pub next_id : s.next_chunk_id ≡ length cs + 1
    pub limit : length cs ≤ max_chunks
    pub slots : (i : ℕ) (c : Chunk) → get_elem? cs i ≡ some c → Holds (s.index i) (i + 1) c file
    pub sound :
        (k : List ℕ) (i : ℕ)
        → lookup t k ≡ some i
        → (c : Chunk) × (get_elem? cs i ≡ some c) × (c.hash ≡ k)
    pub complete : (i : ℕ) (c : Chunk) → get_elem? cs i ≡ some c → lookup t c.hash ≡ some i
