-- ===== src/Store/Replay.antt =====
-- A restart of the store after a rolled back insertion: the record that stayed in the file takes
-- the id of the next chunk.
use mathlib.Core.List.{append-nil, append_assoc}
use xyz.Prelude.{
  ℕ, zero, suc, ◌+◌, ◌-◌, ◌≤◌, ◌<◌, ◌≡◌, refl, sym, ap, ap₂, ◌∙◌, true, false, List, [], ◌++◌, none,
  some, length, take, drop, length-append, take-append, drop-append, ◌==◌, ltb, arith,
}
use xyz.Store.{
  Store, HashApi, hdr_size, encode, cid_to_slot, slot_id, find_in, find_locked,
  module2_find_by_hash, module2_read_chunk, module2_store_chunk,
}
use xyz.Store.Inv.{Chunk, IsStore}
use xyz.Store.Find.{eq_bytes_refl}
use xyz.Store.Insert.{store-new, store-rolled_back, length-encode}
use xyz.Store.Load.{
  load_entry, load_loop, stops, load_loop-record, add_slots, build_hash, start, module2_init,
}

load_loop-nil : {T : Type 0} (fuel : ℕ) (s : Store T) (off : ℕ) → load_loop fuel s off [] ≡ s
unfolding load_loop stops
load_loop-nil zero s off = refl
load_loop-nil (suc fuel) s off = refl

module _ (api : HashApi) where
  open api use {Table, lookup, add, lookup-add}

  module _ (c1 c2 : Chunk) (k1 : length c1.hash ≡ 32) (k2 : length c2.hash ≡ 32)
      (n1 : 0 < length c1.bytes) (n2 : 0 < length c2.bytes) (m1 : length c1.bytes ≤ 65536)
      (m2 : length c2.bytes ≤ 65536) where
    abbrev two_records : List ℕ
    two_records = encode 1 c1.hash c1.bytes ++ encode 1 c2.hash c2.bytes

    abbrev opened : Store Table
    opened = record (start api) { fp = some two_records }

    abbrev first_in : Store Table
    first_in = load_entry opened 1 (length c1.bytes) c1.hash 0

    loaded : Store Table
    loaded = load_entry first_in 1 (length c2.bytes) c2.hash (hdr_size + length c1.bytes)

    load_two : load_loop (length two_records + 1) opened 0 two_records ≡ loaded
    unfolding loaded load_entry
    load_two =
        let l2 : length (encode 1 c2.hash c2.bytes) ≡ 40 + length c2.bytes =
          length-encode 1 c2 k2 in
        let fuel : length two_records + 1 ≡ suc (suc (length two_records - 1)) =
          omega (arith, length-append (encode 1 c1.hash c1.bytes) (encode 1 c2.hash c2.bytes)) in
        ap (λ f. load_loop f opened 0 two_records) fuel
        ∙ load_loop-record (suc (length two_records - 1)) opened 0 1 c1.hash c1.bytes
            (encode 1 c2.hash c2.bytes) (omega arith) k1 n1 m1 (omega arith)
        ∙ ap₂ (λ o r. load_loop (suc (length two_records - 1)) first_in o r)
            (zero-plus (length c1.bytes)) (sym (append-nil (encode 1 c2.hash c2.bytes)))
        ∙ load_loop-record (length two_records - 1) first_in (hdr_size + length c1.bytes) 1 c2.hash
            c2.bytes [] (omega arith) k2 n2 m2 (omega arith)
        ∙ load_loop-nil (length two_records - 1) _ _
      where
        zero-plus : (n : ℕ) → 0 + hdr_size + n ≡ hdr_size + n
        zero-plus n = omega arith

    module _ (t0 t1 t2 : Table) (a1 : add t0 c1.hash 0 ≡ some t1)
        (a2 : add t1 c2.hash 1 ≡ some t2) where
      after : Store Table
      after = record loaded { hash_table = some t2 }

      init_after : module2_init api (some two_records) true (some t0) ≡ after
      unfolding module2_init build_hash add_slots after loaded load_entry
      init_after = ap (λ s. build_hash api s (some t0)) load_two ∙ rw (a1, add_slots) (rw (a2))

      -- Slot 1 of the new index has the second chunk's hash and the first one's id.
      slot_one : slot_id api after c2.hash (some 1) ≡ 1
      unfolding slot_id after loaded load_entry
      slot_one = rw (eq_bytes_refl c2.hash)

      find_after : module2_find_by_hash api after c2.hash ≡ 1
      unfolding module2_find_by_hash find_locked find_in after
      find_after =
          ap (slot_id api after c2.hash)
            (lookup-add t1 t2 c2.hash 1 c2.hash a2 ∙ rw (eq_bytes_refl c2.hash))
          ∙ slot_one

      read_after : module2_read_chunk after 1 65536 ≡ some c1.bytes
      unfolding module2_read_chunk cid_to_slot after loaded load_entry
      read_after =
          let a : ltb 65536 (length c1.bytes) ≡ false = ground arith in
          let got : take (length c1.bytes) (drop 40 two_records) ≡ c1.bytes =
            ap (λ t. take (length c1.bytes) (drop 32 t))
              (append_assoc c1.hash c1.bytes (encode 1 c2.hash c2.bytes))
            ∙ ap (take (length c1.bytes))
                (drop-append 32 c1.hash (c1.bytes ++ encode 1 c2.hash c2.bytes) k1)
            ∙ take-append (length c1.bytes) c1.bytes (encode 1 c2.hash c2.bytes) refl in
          let same : (length c1.bytes == length c1.bytes) ≡ true = ground arith in
          rw (a) (rw (got, same))

      -- On an empty store the table refuses one chunk and takes the next: the first store returns 0
      -- and the second returns id 1. After a restart from the file that this leaves, the hash of
      -- the second chunk leads to id 1, and id 1 reads back the bytes of the first.
      pub rollback_mixes_chunks :
          (s : Store Table) (t t' : Table)
          → IsStore api s t [] []
          → add t c1.hash s.total_stored ≡ none
          → add t c2.hash s.total_stored ≡ some t'
          → let (s1, cid1) = module2_store_chunk api s c1.bytes c1.hash 131072 in
            let (s2, cid2) = module2_store_chunk api s1 c2.bytes c2.hash 131072 in
            let s3 = module2_init api s2.fp true (some t0) in
            (cid1 ≡ 0)
            × (cid2 ≡ 1)
            × (module2_find_by_hash api s3 c2.hash ≡ 1)
            × (module2_read_chunk s3 1 65536 ≡ some c1.bytes)
      rollback_mixes_chunks s t t' v refused taken =
          let (zero_id, v1, same_id) =
            store-rolled_back api s t [] [] c1 131072 v n1 (omega arith) (λ i d e. cc)
              (fits s c1 k1 m1) refused in
          let s1 : Store Table = (module2_store_chunk api s c1.bytes c1.hash 131072).0 in
          let file1 : List ℕ = encode s.next_chunk_id c1.hash c1.bytes in
          let again : add t c2.hash s1.total_stored ≡ some t' =
            ap (add t c2.hash) (v1.count ∙ sym v.count) ∙ taken in
          let (one_id, v2) =
            store-new api s1 t t' file1 [] c2 131072 v1 n2 k2 (omega arith) (λ i d e. cc)
              (fits s1 c2 k2 m2) again in
          let s2 : Store Table = (module2_store_chunk api s1 c2.bytes c2.hash 131072).0 in
          let left : s2.fp ≡ some two_records =
            v2.file_open
            ∙ ap₂ (λ a b. some (encode a c1.hash c1.bytes ++ encode b c2.hash c2.bytes)) v.next_id
                v1.next_id in
          let restarted : module2_init api s2.fp true (some t0) ≡ after =
            ap (λ f. module2_init api f true (some t0)) left ∙ init_after in
          (
            zero_id,
            one_id,
            ap (λ x. module2_find_by_hash api x c2.hash) restarted ∙ find_after,
            ap (λ x. module2_read_chunk x 1 65536) restarted ∙ read_after,
          )
        where
          fits :
              (s : Store Table) (c : Chunk)
              → length c.hash ≡ 32
              → length c.bytes ≤ 65536
              → length (encode s.next_chunk_id c.hash c.bytes) ≤ 131072
          fits s c k m = omega (arith, length-encode s.next_chunk_id c k)
