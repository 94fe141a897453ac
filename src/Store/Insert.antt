-- ===== src/Store/Insert.antt =====
-- `module2_store_chunk` on every branch of a store in order.
use mathlib.Core.List.{append_assoc}
use xyz.Prelude.{
  ℕ, ◌+◌, ◌≤◌, ◌<◌, ◌≡◌, ◌≢◌, inl, inr, refl, sym, ap, ◌∙◌, subst, Bool, true, false, List, [], ◌∷◌,
  ◌++◌, none, some, length, take, drop, get_elem?, length-append, drop-append, take_all,
  window-append, get_elem?-append, get_elem?-last, get_elem?-snoc, ◌==◌, ltb, leb, Bool-cases,
  arith,
}
use xyz.Store.{
  Store, Entry, HashApi, max_chunks, hdr_size, u32, eq_bytes, le32, encode, put, find_locked,
  insert, append_record, module2_find_by_hash, module2_store_chunk,
}
use xyz.Store.Inv.{Chunk, Holds, IsStore}
use xyz.Store.Find.{get_elem?-lt, eq_of_eq_bytes, eq_bytes_refl, find-absent}

Holds-append :
    (e : Entry) (cid : ℕ) (c : Chunk) (file more : List ℕ)
    → Holds e cid c file
    → Holds e cid c (file ++ more)
Holds-append e cid c file more h = record {
  used = h.used;
  id = h.id;
  key = h.key;
  size = h.size;
  key_size = h.key_size;
  room = omega (arith, h.room, length-append file more);
  record_there =
      window-append (length c.bytes) (e.file_offset + hdr_size) file more h.room ∙ h.record_there;
}

pub length-encode :
    (cid : ℕ) (c : Chunk)
    → length c.hash ≡ 32
    → length (encode cid c.hash c.bytes) ≡ 40 + length c.bytes
length-encode cid c h = omega (arith, length-append c.hash c.bytes)

-- The record that was just written describes its chunk.
Holds-written :
    (e : Entry) (cid id : ℕ) (c : Chunk) (file : List ℕ)
    → length c.hash ≡ 32
    → e.is_used ≡ true
    → e.chunk_id ≡ id
    → e.hash ≡ c.hash
    → e.data_len ≡ length c.bytes
    → e.file_offset ≡ length file
    → Holds e id c (file ++ encode cid c.hash c.bytes)
Holds-written e cid id c file h u i k n off = record {
  used = u;
  id = i;
  key = k;
  size = n;
  key_size = h;
  room = omega (arith, length-append file (encode cid c.hash c.bytes), length-encode cid c h);
  record_there =
      ap (λ x. take (length c.bytes) (drop (x + 40) (file ++ encode cid c.hash c.bytes))) off
      ∙ ap (take (length c.bytes)) (
          ap (drop (length file + 40)) regroup
          ∙ drop-append (length file + 40) (file ++ (le32 cid ++ (le32 (length c.bytes) ++ c.hash)))
              c.bytes
              (omega (arith, length-append file (le32 cid ++ (le32 (length c.bytes) ++ c.hash)))))
      ∙ take_all (length c.bytes) c.bytes (omega arith);
}
  where
    regroup :
        file ++ encode cid c.hash c.bytes
        ≡ (file ++ (le32 cid ++ (le32 (length c.bytes) ++ c.hash))) ++ c.bytes
    regroup = simp append_assoc

module _ (api : HashApi) where
  open api use {Table, lookup, add, lookup-add}

  pub by_hash : (s : Store Table) (k : List ℕ) → find_locked api s k ≡ module2_find_by_hash api s k
  unfolding module2_find_by_hash
  by_hash s k = refl

  module _ {s : Store Table} {t : Table} {file : List ℕ} {cs : List Chunk}
      (v : IsStore api s t file cs) where
    abbrev pub image : Chunk → List ℕ
    image c = encode s.next_chunk_id c.hash c.bytes

    abbrev pub Absent : List ℕ → Type 0
    Absent k = (i : ℕ) (d : Chunk) → get_elem? cs i ≡ some d → d.hash ≢ k

    module _ (c : Chunk) (wrote : ℕ) (nonempty : 0 < length c.bytes) where
      to_append :
          Absent c.hash
          → module2_store_chunk api s c.bytes c.hash wrote
            ≡ append_record api s t file c.bytes c.hash wrote
      unfolding module2_store_chunk
      to_append out =
          let a : (length c.bytes == 0) ≡ false = ground arith in
          let b : find_locked api s c.hash ≡ 0 = by_hash s c.hash ∙ find-absent api v c.hash out in
          simp (a, v.file_open, v.table_there, b)

      -- Both outcomes of the table, once the record is in the file.
      to_insert :
          Absent c.hash
          → length cs < max_chunks
          → length (image c) ≤ wrote
          → module2_store_chunk api s c.bytes c.hash wrote
            ≡ insert api s t c.bytes c.hash (length file) (file ++ image c)
      unfolding append_record
      to_insert out room whole =
          let a : leb max_chunks s.total_stored ≡ false = ground (arith, v.count) in
          let b : ltb wrote (length (image c)) ≡ false = ground arith in to_append out ∙ simp (a, b)

      entry : Bool → Entry
      entry used = record {
        chunk_id = s.next_chunk_id;
        hash = c.hash;
        file_offset = length file;
        data_len = length c.bytes;
        ref_count = 1;
        is_used = used;
      }

      stored : Table → Store Table
      stored t' = record s {
        fp = some (file ++ image c);
        index = put s.index s.total_stored (entry true);
        hash_table = some t';
        next_chunk_id = u32 (s.next_chunk_id + 1);
        total_stored = s.total_stored + 1;
        total_bytes_stored = u32 (s.total_bytes_stored + length c.bytes);
      }

      rolled_back : Store Table
      rolled_back = record s {
        fp = some (file ++ image c);
        index = put s.index s.total_stored (entry false);
      }

      insert-some :
          (t' : Table)
          → add t c.hash s.total_stored ≡ some t'
          → insert api s t c.bytes c.hash (length file) (file ++ image c)
            ≡ (stored t', s.next_chunk_id)
      unfolding insert stored entry
      insert-some t' e = rw (e, insert)

      insert-none :
          add t c.hash s.total_stored ≡ none
          → insert api s t c.bytes c.hash (length file) (file ++ image c) ≡ (rolled_back, 0)
      unfolding insert rolled_back entry
      insert-none e = rw (e, insert)

      -- Old slots are not touched by a write to the next one.
      old_slot : (e : Entry) (i : ℕ) → i < length cs → put s.index s.total_stored e i ≡ s.index i
      old_slot e i h = let ne : (i == s.total_stored) ≡ false = ground (arith, v.count) in rw ne

      new_slot : (e : Entry) (i : ℕ) → i ≡ length cs → put s.index s.total_stored e i ≡ e
      new_slot e i h = let eq : (i == s.total_stored) ≡ true = ground (arith, v.count) in rw eq

      rolled_back-IsStore : IsStore api rolled_back t (file ++ image c) cs
      unfolding rolled_back
      rolled_back-IsStore = record {
        file_open = refl;
        table_there = v.table_there;
        count = v.count;
        next_id = v.next_id;
        limit = v.limit;
        slots = λ i d e.
            rw (old_slot (entry false) i (get_elem?-lt cs i d e))
              (Holds-append (s.index i) (i + 1) d file (image c) (v.slots i d e));
        sound = v.sound;
        complete = v.complete;
      }

      module _ (t' : Table) (added : add t c.hash s.total_stored ≡ some t') (out : Absent c.hash)
          (key_size : length c.hash ≡ 32) (room : length cs < max_chunks) where
        at_key : (k : List ℕ) → eq_bytes k c.hash ≡ true → lookup t' k ≡ some (length cs)
        at_key k e = lookup-add t t' c.hash s.total_stored k added ∙ rw e (ap (λ n. some n) v.count)

        elsewhere : (k : List ℕ) → eq_bytes k c.hash ≡ false → lookup t' k ≡ lookup t k
        elsewhere k e = lookup-add t t' c.hash s.total_stored k added ∙ rw e

        stored_sound :
            (k : List ℕ) (i : ℕ)
            → lookup t' k ≡ some i
            → (d : Chunk) × (get_elem? (cs ++ (c ∷ [])) i ≡ some d) × (d.hash ≡ k)
        stored_sound k i e = elim (Bool-cases (eq_bytes k c.hash)) [
          | inl h ↦
              let here : i ≡ length cs = cc (e, at_key k h) in
              (c, get_elem?-last cs c i here, sym (eq_of_eq_bytes k c.hash h))
          | inr h ↦
              let (d, there, same) = v.sound k i (sym (elsewhere k h) ∙ e) in
              (d, get_elem?-append cs (c ∷ []) i d there, same)
        ]

        stored_complete :
            (i : ℕ) (d : Chunk) → get_elem? (cs ++ (c ∷ [])) i ≡ some d → lookup t' d.hash ≡ some i
        stored_complete i d e = elim (get_elem?-snoc cs c i d e) [
          | inl old ↦ elim (Bool-cases (eq_bytes d.hash c.hash)) [
            | inl h ↦ absurd (out i d old (eq_of_eq_bytes d.hash c.hash h))
            | inr h ↦ elsewhere d.hash h ∙ v.complete i d old
          ]
          | inr (last, same) ↦
              at_key d.hash (ap (λ x. eq_bytes x.hash c.hash) (sym same) ∙ eq_bytes_refl c.hash)
              ∙ ap (λ n. some n) (sym last)
        ]

        stored-slots :
            (i : ℕ) (d : Chunk)
            → get_elem? (cs ++ (c ∷ [])) i ≡ some d
            → Holds (put s.index s.total_stored (entry true) i) (i + 1) d (file ++ image c)
        unfolding entry
        stored-slots i d e = elim (get_elem?-snoc cs c i d e) [
          | inl old ↦
              rw (old_slot (entry true) i (get_elem?-lt cs i d old))
                (Holds-append (s.index i) (i + 1) d file (image c) (v.slots i d old))
          | inr (last, same) ↦ rw (new_slot (entry true) i last) (
              subst (λ x. Holds (entry true) (i + 1) x (file ++ image c)) same
                (Holds-written (entry true) s.next_chunk_id (i + 1) c file key_size refl
                  (omega (arith, v.next_id)) refl refl refl))
        ]

        stored-IsStore : IsStore api (stored t') t' (file ++ image c) (cs ++ (c ∷ []))
        unfolding stored
        stored-IsStore = record {
          file_open = refl;
          table_there = refl;
          count = omega (arith, v.count, length-append cs (c ∷ []));
          next_id = omega (arith, v.next_id, length-append cs (c ∷ []));
          limit = omega (arith, length-append cs (c ∷ []));
          slots = stored-slots;
          sound = stored_sound;
          complete = stored_complete;
        }

  pub store-new :
      (s : Store Table) (t t' : Table) (file : List ℕ) (cs : List Chunk) (c : Chunk) (wrote : ℕ)
      → (v : IsStore api s t file cs) → 0 < length c.bytes
      → length c.hash ≡ 32
      → length cs < max_chunks
      → Absent v c.hash
      → length (image v c) ≤ wrote
      → add t c.hash s.total_stored ≡ some t'
      → let (s', cid) = module2_store_chunk api s c.bytes c.hash wrote in
        (cid ≡ length cs + 1) × IsStore api s' t' (file ++ image v c) (cs ++ (c ∷ []))
  store-new s t t' file cs c wrote v ne size room out whole added =
      rw (to_insert v c wrote ne out room whole, insert-some v c wrote ne t' added)
        (v.next_id, stored-IsStore v c wrote ne t' added out size room)

  -- When the table refuses the key, the result is 0 and the store stands for the same chunks; but
  -- the record stays in the file.
  pub store-rolled_back :
      (s : Store Table) (t : Table) (file : List ℕ) (cs : List Chunk) (c : Chunk) (wrote : ℕ)
      → (v : IsStore api s t file cs) → 0 < length c.bytes
      → length cs < max_chunks
      → Absent v c.hash
      → length (image v c) ≤ wrote
      → add t c.hash s.total_stored ≡ none
      → let (s', cid) = module2_store_chunk api s c.bytes c.hash wrote in
        (cid ≡ 0) × IsStore api s' t (file ++ image v c) cs × (s'.next_chunk_id ≡ s.next_chunk_id)
  unfolding rolled_back
  store-rolled_back s t file cs c wrote v ne room out whole refused =
      rw (to_insert v c wrote ne out room whole, insert-none v c wrote ne refused)
        (refl, rolled_back-IsStore v c wrote ne, refl)
