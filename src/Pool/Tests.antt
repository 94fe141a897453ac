-- ===== src/Pool/Tests.antt =====
-- A pool of three units of 8 bytes at address 1000.
use xyz.Prelude.{◌+◌, ◌≡◌, inl, refl, [], ◌∷◌, none, some, length, arith}
use xyz.Pool.{
  Pool, header, push_front, pop_front, unlink, init_units, mpool_alloc, mpool_get, mpool_put,
}
use xyz.Pool.Inv.{IsPool}
use xyz.Pool.Init.{units, mpool_alloc-IsPool}
use xyz.Pool.Ops.{mpool_get-IsPool, mpool_get-null, mpool_put-IsPool}
use xyz.Pool.Reach.{hand_out, Reach, here, next, Good, units_of, Reach-Good}

abbrev unset : Pool
unset = record {
  block = 0;
  alloc = 0;
  free = 0;
  unit_size = 0;
  block_size = 0;
  len_alloc = 0;
  len_free = 0;
  links = record { prev = λ _. 0; next = λ _. 0 };
}

abbrev fresh : Pool
fresh = (mpool_alloc 1000 8 3 unset).0

-- The units lie at 1000, 1024 and 1048.
gets_run :
    ((mpool_get fresh 1).1 ≡ 1064)
    × ((mpool_get (mpool_get fresh 1).0 1).1 ≡ 1040)
    × ((mpool_put fresh 5).1 ≡ some 5)
    × ((mpool_get fresh 1).0.len_free ≡ 64)
unfolding mpool_alloc mpool_get mpool_put init_units push_front pop_front unlink
gets_run = (refl, refl, refl, refl)

mpool_alloc-IsPool_example :
    ((mpool_alloc 1000 8 3 unset).1 ≡ 1000)
    × IsPool fresh [] (units 3 0 1000 24 [])
    × (length (units 3 0 1000 24 []) ≡ 3)
mpool_alloc-IsPool_example =
    mpool_alloc-IsPool 1000 8 3 unset (omega arith) (omega arith) (omega arith)

fresh-IsPool : IsPool fresh [] (1048 ∷ 1024 ∷ 1000 ∷ [])
fresh-IsPool = mpool_alloc-IsPool_fact.1
  where
    mpool_alloc-IsPool_fact :
        ((mpool_alloc 1000 8 3 unset).1 ≡ 1000)
        × IsPool fresh [] (units 3 0 1000 24 [])
        × (length (units 3 0 1000 24 []) ≡ 3)
    mpool_alloc-IsPool_fact =
        mpool_alloc-IsPool 1000 8 3 unset (omega arith) (omega arith) (omega arith)

abbrev one_out : Pool
one_out = (mpool_get fresh 1).0

abbrev two_out : Pool
two_out = (mpool_get one_out 1).0

one_out-IsPool : IsPool one_out (1048 ∷ []) (1024 ∷ 1000 ∷ [])
one_out-IsPool = (mpool_get-IsPool fresh 1048 1 [] (1024 ∷ 1000 ∷ []) (omega arith) fresh-IsPool).1

two_out-IsPool : IsPool two_out (1024 ∷ 1048 ∷ []) (1000 ∷ [])
two_out-IsPool =
    (mpool_get-IsPool one_out 1024 1 (1048 ∷ []) (1000 ∷ []) (omega arith) one_out-IsPool).1

mpool_get-IsPool_example :
    ((mpool_get fresh 1).1 ≡ 1048 + header) × IsPool one_out (1048 ∷ []) (1024 ∷ 1000 ∷ [])
mpool_get-IsPool_example =
    mpool_get-IsPool fresh 1048 1 [] (1024 ∷ 1000 ∷ []) (omega arith) fresh-IsPool

mpool_get-null_example : mpool_get fresh 0 ≡ (fresh, 0)
mpool_get-null_example = mpool_get-null fresh 0 [] (1048 ∷ 1024 ∷ 1000 ∷ []) fresh-IsPool (inl refl)

-- The unit that is not the head of the list goes back.
mpool_put-IsPool_example :
    ((mpool_put two_out (1048 + header)).1 ≡ none)
    × IsPool (mpool_put two_out (1048 + header)).0 (1024 ∷ []) (1048 ∷ 1000 ∷ [])
mpool_put-IsPool_example = mpool_put-IsPool two_out 1048 (1024 ∷ []) [] (1000 ∷ []) two_out-IsPool

history : Reach (fresh, [], 1048 ∷ 1024 ∷ 1000 ∷ []) (two_out, 1024 ∷ 1048 ∷ [], 1000 ∷ [])
history =
    next (next here (hand_out fresh 1048 1 [] (1024 ∷ 1000 ∷ []) (omega arith)))
      (hand_out one_out 1024 1 (1048 ∷ []) (1000 ∷ []) (omega arith))

Reach-Good_example :
    Good (two_out, 1024 ∷ 1048 ∷ [], 1000 ∷ [])
    × (units_of (two_out, 1024 ∷ 1048 ∷ [], 1000 ∷ [])
        ≡ units_of (fresh, [], 1048 ∷ 1024 ∷ 1000 ∷ []))
Reach-Good_example = Reach-Good fresh-IsPool history
