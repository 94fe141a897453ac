-- ===== src/Store/Known.antt =====
-- Deduplication: `module2_store_chunk` on a hash that the store has.
use xyz.Prelude.{
  ℕ, ◌+◌, ◌<◌, ◌≡◌, inl, inr, refl, sym, ap, ◌∙◌, subst, true, false, List, some, length, get_elem?,
  ◌==◌, ==_iff, Bool-cases, arith,
}
use xyz.Store.{
  Store, Entry, HashApi, u32, put, find_locked, module2_find_by_hash, module2_increment_ref,
  module2_store_chunk,
}
use xyz.Store.Inv.{Chunk, Holds, IsStore}
use xyz.Store.Find.{find-stored, cid_to_slot-some}
use xyz.Store.Insert.{by_hash}

-- The reference count does not matter for what a slot describes.
Holds-counted :
    (e : Entry) (n cid : ℕ) (c : Chunk) (file : List ℕ)
    → Holds e cid c file
    → Holds (record e { ref_count = n }) cid c file
Holds-counted e n cid c file h = record {
  used = h.used;
  id = h.id;
  key = h.key;
  size = h.size;
  key_size = h.key_size;
  room = h.room;
  record_there = h.record_there;
}

module _ (api : HashApi) where
  open api use {Table}

  module _ {s : Store Table} {t : Table} {file : List ℕ} {cs : List Chunk}
      (v : IsStore api s t file cs) (i : ℕ) (d : Chunk) (there : get_elem? cs i ≡ some d) where
    counted : Entry
    counted = record (s.index i) { ref_count = u32 ((s.index i).ref_count + 1) }

    more : Store Table
    more = record s { index = put s.index i counted; duplicate_count = u32 (s.duplicate_count + 1) }

    increment_ref-stored : module2_increment_ref api s (i + 1) ≡ more
    unfolding module2_increment_ref more counted
    increment_ref-stored = rw (cid_to_slot-some api v i d there, module2_increment_ref) refl

    slot :
        (j : ℕ) (c : Chunk)
        → get_elem? cs j ≡ some c
        → Holds (put s.index i counted j) (j + 1) c file
    unfolding counted
    slot j c e = elim (Bool-cases (j == i)) [
      | inl same ↦ rw (same) (
          Holds-counted (s.index i) (u32 ((s.index i).ref_count + 1)) (j + 1) c file
            (subst (λ x. Holds (s.index x) (j + 1) c file) ((==_iff j i).0 same) (v.slots j c e)))
      | inr other ↦ rw (other) (v.slots j c e)
    ]

    more-IsStore : IsStore api more t file cs
    unfolding more
    more-IsStore = record {
      file_open = v.file_open;
      table_there = v.table_there;
      count = v.count;
      next_id = v.next_id;
      limit = v.limit;
      slots = slot;
      sound = v.sound;
      complete = v.complete;
    }

    counts_one_more : (more.index i).ref_count ≡ u32 ((s.index i).ref_count + 1)
    unfolding more counted
    counts_one_more = let same : (i == i) ≡ true = ground arith in rw same refl

    duplicates_one_more : more.duplicate_count ≡ u32 (s.duplicate_count + 1)
    unfolding more
    duplicates_one_more = refl

    to_known :
        (c : Chunk) (wrote : ℕ)
        → 0 < length c.bytes
        → d.hash ≡ c.hash
        → module2_store_chunk api s c.bytes c.hash wrote ≡ (more, i + 1)
    unfolding module2_store_chunk
    to_known c wrote nonempty same =
        let a : (length c.bytes == 0) ≡ false = ground arith in
        let b : (i + 1 == 0) ≡ false = ground arith in
        let e : find_locked api s c.hash ≡ i + 1 =
          by_hash api s c.hash
          ∙ ap (module2_find_by_hash api s) (sym same)
          ∙ find-stored api v i d there in
        simp (a, v.file_open, v.table_there, e, b, increment_ref-stored)

  -- Bytes whose hash is the one of the chunk with id i + 1: the result is that id, the store
  -- stands for the same chunks over the same file, and one more reference and one more duplicate
  -- are counted.
  pub store-known :
      (s : Store Table) (t : Table) (file : List ℕ) (cs : List Chunk) (c d : Chunk) (i wrote : ℕ)
      → IsStore api s t file cs
      → 0 < length c.bytes
      → get_elem? cs i ≡ some d
      → d.hash ≡ c.hash
      → let (s', cid) = module2_store_chunk api s c.bytes c.hash wrote in
        (cid ≡ i + 1)
        × IsStore api s' t file cs
        × ((s'.index i).ref_count ≡ u32 ((s.index i).ref_count + 1))
        × (s'.duplicate_count ≡ u32 (s.duplicate_count + 1))
  store-known s t file cs c d i wrote v nonempty there same =
      rw (to_known v i d there c wrote nonempty same) (
        refl,
        more-IsStore v i d there,
        counts_one_more v i d there,
        duplicates_one_more v i d there,
      )
