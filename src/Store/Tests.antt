-- ===== src/Store/Tests.antt =====
-- The chunk store with a small hash table: a list of keys, one bucket of which may be full.
use xyz.Prelude.{
  ℕ, zero, suc, ◌+◌, ◌≡◌, ◌≢◌, inl, inr, refl, sym, ap, ◌∙◌, true, List, [], ◌∷◌, Option, none,
  some, replicate, get_or, get_elem?, ◌==◌, if◌then◌else◌, Bool-cases, arith,
}
use xyz.Store.{
  Store, HashApi, no_entry, eq_bytes, encode, u32, module2_store_chunk, module2_find_by_hash,
  module2_read_chunk,
}
use xyz.Store.Inv.{Chunk, IsStore}
use xyz.Store.Find.{find-stored, find-absent}
use xyz.Store.Insert.{store-new}
use xyz.Store.Known.{store-known}
use xyz.Store.Load.{module2_init}
use xyz.Store.Replay.{rollback_mixes_chunks}

-- Keys that begin with the byte `full` have no room.
record Assoc : Type 0 where
  full : ℕ
  entries : List (List ℕ × ℕ)

find : List (List ℕ × ℕ) → List ℕ → Option ℕ
find [] k = none
find ((j, v) ∷ es) k = if eq_bytes k j then some v else find es k

abbrev extended : Assoc → List ℕ → ℕ → Assoc
extended t k v = record t { entries = (k, v) ∷ t.entries }

abbrev add_key : Assoc → List ℕ → ℕ → Option Assoc
add_key t k v = if get_or k 0 0 == t.full then none else some (extended t k v)

the_value : (a b : Assoc) → some a ≡ some b → a ≡ b
the_value a b e = cc e

find-add :
    (t t' : Assoc) (k : List ℕ) (v : ℕ) (j : List ℕ)
    → add_key t k v ≡ some t'
    → find t'.entries j ≡ (if eq_bytes j k then some v else find t.entries j)
unfolding find
find-add t t' k v j e = elim (Bool-cases (get_or k 0 0 == t.full)) [
  | inl h ↦ absurd (none_some (sym (rw (h) (refl)) ∙ e))
  | inr h ↦
      ap (λ x. find x.entries j) (sym (the_value (extended t k v) t' (sym (rw (h) (refl)) ∙ e)))
]
  where
    none_some : none ≢ some t'
    none_some e = cc e

abbrev table : HashApi
table = record { Table = Assoc; lookup = λ t. find t.entries; add = add_key; lookup-add = find-add }

abbrev roomy : Assoc
roomy = record { full = 256; entries = [] }

abbrev crowded : Assoc
crowded = record { full = 1; entries = [] }

abbrev empty : Assoc → Store Assoc
empty t = record {
  index = λ _. no_entry;
  total_stored = 0;
  next_chunk_id = 1;
  total_bytes_stored = 0;
  duplicate_count = 0;
  fp = some [];
  hash_table = some t;
}

abbrev one : Chunk
one = record { hash = replicate 32 1; bytes = 10 ∷ 20 ∷ 30 ∷ [] }

abbrev two : Chunk
two = record { hash = replicate 32 2; bytes = 40 ∷ 50 ∷ [] }

empty-IsStore : (t : Assoc) → t.entries ≡ [] → IsStore table (empty t) t [] []
unfolding find
empty-IsStore t e = record {
  file_open = refl;
  table_there = refl;
  count = refl;
  next_id = refl;
  limit = omega arith;
  slots = λ i c h. cc h;
  sound = λ k i h. absurd (none_some i (sym (ap (λ es. find es k) e) ∙ h));
  complete = λ i c h. cc h;
}
  where
    none_some : (i : ℕ) → none ≢ some i
    none_some i h = cc h

nothing_there : (k : List ℕ) (i : ℕ) (d : Chunk) → get_elem? [] i ≡ some d → d.hash ≢ k
nothing_there k i d e = cc e

store-new_example :
    let (s', cid) = module2_store_chunk table (empty roomy) one.bytes one.hash 43 in
    (cid ≡ 1)
    × IsStore table s' (extended roomy one.hash 0) (encode 1 one.hash one.bytes) (one ∷ [])
store-new_example =
    store-new table (empty roomy) roomy (extended roomy one.hash 0) [] [] one 43
      (empty-IsStore roomy refl) (omega arith) refl (omega arith) (nothing_there one.hash)
      (omega arith) refl

abbrev full_one : Assoc
full_one = extended roomy one.hash 0

-- The store after the first chunk.
abbrev with_one : Store Assoc
with_one = (module2_store_chunk table (empty roomy) one.bytes one.hash 43).0

with_one-IsStore : IsStore table with_one full_one (encode 1 one.hash one.bytes) (one ∷ [])
with_one-IsStore = store-new_example.1

-- Other bytes with the hash of the stored chunk.
store-known_example :
    let (s', cid) = module2_store_chunk table with_one (7 ∷ []) one.hash 0 in
    (cid ≡ 1)
    × IsStore table s' full_one (encode 1 one.hash one.bytes) (one ∷ [])
    × ((s'.index 0).ref_count ≡ u32 ((with_one.index 0).ref_count + 1))
    × (s'.duplicate_count ≡ u32 (with_one.duplicate_count + 1))
store-known_example =
    store-known table with_one full_one (encode 1 one.hash one.bytes) (one ∷ [])
      (record { hash = one.hash; bytes = 7 ∷ [] }) one 0 0 with_one-IsStore (omega arith) refl refl

find-stored_example : module2_find_by_hash table with_one one.hash ≡ 1
find-stored_example = find-stored table with_one-IsStore 0 one refl

two_missing : (i : ℕ) (d : Chunk) → get_elem? (one ∷ []) i ≡ some d → d.hash ≢ two.hash
two_missing zero d e h = absurd (apart (ap (λ c. c.hash) (the_chunk one d e) ∙ h))
  where
    the_chunk : (a b : Chunk) → some a ≡ some b → a ≡ b
    the_chunk a b e = cc e

    apart : one.hash ≢ two.hash
    apart h = cc h
two_missing (suc i) d e h = cc e

find-absent_example : module2_find_by_hash table with_one two.hash ≡ 0
find-absent_example = find-absent table with_one-IsStore two.hash two_missing

rollback_mixes_chunks_example :
    let (s1, cid1) = module2_store_chunk table (empty crowded) one.bytes one.hash 131072 in
    let (s2, cid2) = module2_store_chunk table s1 two.bytes two.hash 131072 in
    let s3 = module2_init table s2.fp true (some roomy) in
    (cid1 ≡ 0)
    × (cid2 ≡ 1)
    × (module2_find_by_hash table s3 two.hash ≡ 1)
    × (module2_read_chunk s3 1 65536 ≡ some one.bytes)
rollback_mixes_chunks_example =
    rollback_mixes_chunks table one two refl refl (omega arith) (omega arith) (omega arith)
      (omega arith) roomy (extended roomy one.hash 0)
      (extended (extended roomy one.hash 0) two.hash 1) refl refl (empty crowded) crowded
      (extended crowded two.hash 0) (empty-IsStore crowded refl) refl refl
