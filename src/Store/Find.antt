-- ===== src/Store/Find.antt =====
-- Lookups of module2.c on a store in order.
use xyz.Prelude.{
  ℕ, zero, suc, ◌+◌, ◌-◌, ◌≤◌, ◌<◌, ◌≡◌, ◌≢◌, refl, ap, ◌∙◌, true, false, ◌||◌, List, [], ◌∷◌,
  Option, none, some, length, take, drop, get_elem?, ◌==◌, ltb, leb, arith,
}
use xyz.Store.{
  Store, HashApi, max_chunks, hdr_size, eq_bytes, cid_to_slot, slot_id, find_in, find_locked,
  module2_find_by_hash, module2_read_chunk,
}
use xyz.Store.Inv.{Chunk, IsStore}

pub get_elem?-lt : (cs : List Chunk) (i : ℕ) (c : Chunk) → get_elem? cs i ≡ some c → i < length cs
get_elem?-lt [] i c e = cc
get_elem?-lt (x ∷ cs) zero c e = omega arith
get_elem?-lt (x ∷ cs) (suc i) c e = omega (arith, get_elem?-lt cs i c e)

pub eq_bytes_refl : (xs : List ℕ) → eq_bytes xs xs ≡ true
eq_bytes_refl [] = refl
eq_bytes_refl (x ∷ xs) = ground (arith, eq_bytes_refl xs)

pub eq_of_eq_bytes : (xs ys : List ℕ) → eq_bytes xs ys ≡ true → xs ≡ ys
eq_of_eq_bytes [] [] e = refl
eq_of_eq_bytes [] (y ∷ ys) e = cc
eq_of_eq_bytes (x ∷ xs) [] e = cc
eq_of_eq_bytes (x ∷ xs) (y ∷ ys) e = ground (arith, eq_of_eq_bytes xs ys)

module _ (api : HashApi) where
  open api use {Table, lookup}

  module _ {s : Store Table} {t : Table} {file : List ℕ} {cs : List Chunk}
      (v : IsStore api s t file cs) where
    -- The id n of a stored chunk leads to slot n - 1.
    pub cid_to_slot-some :
        (i : ℕ) (c : Chunk) → get_elem? cs i ≡ some c → cid_to_slot s (i + 1) ≡ some i
    unfolding cid_to_slot
    cid_to_slot-some i c e =
        let h = v.slots i c e in
        let lt = get_elem?-lt cs i c e in
        let back : i + 1 - 1 ≡ i = omega arith in
        let a : ((i + 1 == 0) || ltb s.next_chunk_id (i + 1)) ≡ false = ground (arith, v.next_id) in
        let b : leb max_chunks i ≡ false = ground (arith, v.limit) in
        let d : ((s.index i).chunk_id == i + 1) ≡ true = ground (arith, h.id) in
        rw (a, back, b, h.used, d)

    pub slot_id-some :
        (i : ℕ) (c : Chunk) → get_elem? cs i ≡ some c → slot_id api s c.hash (some i) ≡ i + 1
    unfolding slot_id
    slot_id-some i c e =
        let h = v.slots i c e in
        let lt = get_elem?-lt cs i c e in
        let b : leb max_chunks i ≡ false = ground (arith, v.limit) in
        let d : eq_bytes (s.index i).hash c.hash ≡ true =
          ap (λ k. eq_bytes k c.hash) h.key ∙ eq_bytes_refl c.hash in
        rw (b, h.used, d, h.id)

    slot_id-none : (k : List ℕ) → slot_id api s k none ≡ 0
    unfolding slot_id
    slot_id-none k = refl

    -- `module2_find_by_hash` answers with the id of the chunk of that hash.
    pub find-stored :
        (i : ℕ) (c : Chunk) → get_elem? cs i ≡ some c → module2_find_by_hash api s c.hash ≡ i + 1
    unfolding module2_find_by_hash find_locked
    find-stored i c e =
        ap (find_in api s c.hash) v.table_there
        ∙ ap (slot_id api s c.hash) (v.complete i c e)
        ∙ slot_id-some i c e

    -- and with 0 for a hash that no stored chunk has.
    pub find-absent :
        (k : List ℕ)
        → ((i : ℕ) (c : Chunk) → get_elem? cs i ≡ some c → c.hash ≢ k)
        → module2_find_by_hash api s k ≡ 0
    unfolding module2_find_by_hash find_locked
    find-absent k out = ap (find_in api s k) v.table_there ∙ absent (lookup t k) refl
      where
        absent : (o : Option ℕ) → lookup t k ≡ o → slot_id api s k (lookup t k) ≡ 0
        absent none e = ap (slot_id api s k) e ∙ slot_id-none k
        absent (some i) e = let (c, there, same) = v.sound k i e in absurd (out i c there same)

    -- `module2_read_chunk` returns the bytes of the chunk, if the buffer can take them.
    pub read-stored :
        (i : ℕ) (c : Chunk) (buf_size : ℕ)
        → get_elem? cs i ≡ some c
        → length c.bytes ≤ buf_size
        → module2_read_chunk s (i + 1) buf_size ≡ some c.bytes
    unfolding module2_read_chunk
    read-stored i c buf_size e fits =
        let h = v.slots i c e in
        let a : (i + 1 == 0) ≡ false = ground arith in
        let b : ltb buf_size (s.index i).data_len ≡ false = ground (arith, h.size) in
        let got : take (s.index i).data_len (drop ((s.index i).file_offset + hdr_size) file)
            ≡ c.bytes =
          ap (λ n. take n (drop ((s.index i).file_offset + hdr_size) file)) h.size
          ∙ h.record_there in
        let whole : (length c.bytes == (s.index i).data_len) ≡ true = ground (arith, h.size) in
        simp (a, v.file_open, cid_to_slot-some i c e, b, got, whole)
