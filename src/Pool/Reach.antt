-- ===== src/Pool/Reach.antt =====
-- Every sequence of calls: a pool that is used as MemPool.c means it to be.
use xyz.Prelude.{ℕ, ◌+◌, ◌≡◌, ◌≢◌, refl, ◌∙◌, false, List, ◌∷◌, ◌++◌, length, length-append, arith}
use xyz.Pool.{Pool, header, mpool_get, mpool_put}
use xyz.Pool.Dll.{has}
use xyz.Pool.Inv.{IsPool}
use xyz.Pool.Ops.{mpool_get-IsPool, mpool_put-IsPool}

-- A pool, the buffers that callers hold, and the free units. `hand_out` is a call of `mpool_get`
-- that finds a unit, `take_back` a call of `mpool_put` for a buffer in use, in any order.
pub data Step : Pool × List ℕ × List ℕ → Pool × List ℕ × List ℕ → Type 0 where
  hand_out :
      (p : Pool) (x use_it : ℕ) (A F : List ℕ)
      → use_it ≢ 0
      → Step (p, A, x ∷ F) ((mpool_get p use_it).0, x ∷ A, F)
  take_back :
      (p : Pool) (x : ℕ) (xs ys F : List ℕ)
      → Step (p, xs ++ (x ∷ ys), F) ((mpool_put p (x + header)).0, xs ++ ys, x ∷ F)

pub data Reach (s : Pool × List ℕ × List ℕ) : Pool × List ℕ × List ℕ → Type 0 where
  here : Reach s s
  next : {t u : Pool × List ℕ × List ℕ} → Reach s t → Step t u → Reach s u

abbrev pub Good : Pool × List ℕ × List ℕ → Type 0
Good s = IsPool s.0 s.1 s.2

abbrev pub units_of : Pool × List ℕ × List ℕ → ℕ
units_of s = length s.1 + length s.2

Step-Good : {s t : Pool × List ℕ × List ℕ} → Step s t → Good s → Good t × (units_of t ≡ units_of s)
Step-Good (hand_out p x use_it A F on) g = ((mpool_get-IsPool p x use_it A F on g).1, omega arith)
Step-Good (take_back p x xs ys F) g = (
  (mpool_put-IsPool p x xs ys F g).1,
  omega (arith, length-append xs (x ∷ ys), length-append xs ys),
)

-- However buffers are taken and given back, in whatever order, both lists stay intact, no unit is
-- on both or twice on one, and no unit is lost: the number of units does not change.
pub Reach-Good :
    {s t : Pool × List ℕ × List ℕ} → Good s → Reach s t → Good t × (units_of t ≡ units_of s)
Reach-Good g here = (g, refl)
Reach-Good g (next r st) = let (h, n) = Reach-Good g r in let (k, m) = Step-Good st h in (k, m ∙ n)

-- The buffer that `mpool_get` hands out next is in nobody's hands: it differs from every buffer
-- that is held, after any history of calls.
pub Reach-fresh :
    {s : Pool × List ℕ × List ℕ} (p : Pool) (x use_it : ℕ) (A F : List ℕ)
    → Good s
    → Reach s (p, A, x ∷ F)
    → use_it ≢ 0
    → ((mpool_get p use_it).1 ≡ x + header) × (has x A ≡ false)
Reach-fresh p x use_it A F g r on =
    let h = (Reach-Good g r).0 in
    let got = mpool_get-IsPool p x use_it A F on h in (got.0, got.1.alloc_distinct.0)
