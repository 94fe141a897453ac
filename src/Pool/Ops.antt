-- ===== src/Pool/Ops.antt =====
-- `mpool_get` and `mpool_put` on a pool whose lists are known.
use xyz.Prelude.{
  ℕ, suc, ◌+◌, ◌-◌, ◌*◌, ◌^◌, ◌≤◌, ◌<◌, ◌≡◌, ◌≢◌, ◌⊎◌, inl, inr, refl, sym, ap, ◌∙◌, true, false,
  List, [], ◌∷◌, ◌++◌, none, some, length, length-append, All, All-middle, ◌==◌, ltb, if◌then◌else◌,
  Bool-cases, arith,
}
use xyz.Pool.{Pool, header, ulong, push_front, pop_front, unlink, mpool_get, mpool_put}
use xyz.Pool.Dll.{has, push_front-Dll, push_front-frame, pop_front-Dll, pop_front-frame, head_cases}
use xyz.Pool.Unlink.{has-append, unlink_head-Dll, unlink-frame, Distinct-middle, not-has-middle}
use xyz.Pool.Inv.{InBlock, IsPool}

got : Pool → ℕ → Pool
got p x = record p {
  free = p.links.next x;
  alloc = x;
  links = push_front (pop_front p.links x) x p.alloc;
  len_alloc = ulong (p.len_alloc + p.unit_size);
  len_free = ulong (p.len_free + 2 ^ 64 - p.unit_size);
}

mpool_get-got :
    (p : Pool) (x use_it : ℕ)
    → use_it ≢ 0
    → p.block ≢ 0
    → p.free ≡ x
    → x ≢ 0
    → mpool_get p use_it ≡ (got p x, x + header)
unfolding mpool_get got
mpool_get-got p x use_it on nb e nx = ground arith

got-IsPool : (p : Pool) (x : ℕ) (A F : List ℕ) → IsPool p A (x ∷ F) → IsPool (got p x) (x ∷ A) F
unfolding got
got-IsPool p x A F v = record {
  alloc_list =
      push_front-Dll (pop_front p.links x) x p.alloc A
        (pop_front-frame p.links x 0 p.alloc A v.alloc_list
          (next_off (head_cases p.links x (p.links.next x) F v.free_list.3)))
        v.alloc_distinct v.free_list.1 fresh;
  free_list =
      push_front-frame (pop_front p.links x) x p.alloc 0 (p.links.next x) F
        (pop_front-Dll p.links 0 p.free x F v.free_list v.free_distinct) v.free_distinct.0
        (alloc_off (head_cases p.links 0 p.alloc A v.alloc_list));
  alloc_distinct = (fresh, v.alloc_distinct);
  free_distinct = v.free_distinct.1;
  apart = λ y h. ground (arith, v.apart y, v.free_distinct.0);
  alloc_inside = (v.free_inside.0, v.alloc_inside);
  free_inside = v.free_inside.1;
  has_block = v.has_block;
  has_size = v.has_size;
  capacity = omega (arith, v.capacity);
  fits = v.fits;
  used = omega (arith, v.capacity, v.fits, v.used, v.has_size);
  left = omega (arith, v.capacity, v.fits, v.used, v.left, v.has_size);
}
  where
    fresh : has x A ≡ false
    fresh = off (Bool-cases (has x A))
      where
        off : ((has x A ≡ true) ⊎ (has x A ≡ false)) → has x A ≡ false
        off (inl h) = absurd (ground (arith, v.apart x h))
        off (inr h) = h

    next_off :
        ((p.links.next x ≡ 0) ⊎ (has (p.links.next x) F ≡ true))
        → (p.links.next x ≡ 0) ⊎ (has (p.links.next x) A ≡ false)
    next_off (inl e) = inl e
    next_off (inr h) = elim (Bool-cases (has (p.links.next x) A)) [
      | inl a ↦ absurd (ground (arith, v.apart (p.links.next x) a))
      | inr a ↦ inr a
    ]

    alloc_off : ((p.alloc ≡ 0) ⊎ (has p.alloc A ≡ true)) → (p.alloc ≡ 0) ⊎ (has p.alloc F ≡ false)
    alloc_off (inl e) = inl e
    alloc_off (inr h) = inr (ground (arith, v.apart p.alloc h))

back : Pool → ℕ → Pool
back p x = record p {
  alloc = if p.links.prev x == 0 then p.links.next x else p.alloc;
  free = x;
  links = push_front (unlink p.links x) x p.free;
  len_free = ulong (p.len_free + p.unit_size);
  len_alloc = ulong (p.len_alloc + 2 ^ 64 - p.unit_size);
}

mpool_put-back : (p : Pool) (x : ℕ) → InBlock p x → mpool_put p (x + header) ≡ (back p x, none)
unfolding mpool_put back
mpool_put-back p x (lo, hi) =
    let e : x + header - header ≡ x = omega arith in
    let l : ltb p.block (x + header) ≡ true = ground arith in
    let h : ltb (x + header) (p.block + p.block_size) ≡ true = ground arith in rw (l, h, e)

-- The bookkeeping of one unit that goes back.
account :
    (n k u bs used left : ℕ)
    → (n + 1 + k) * (u + header) ≡ bs
    → bs < 2 ^ 64
    → used ≡ (n + 1) * u
    → used + left ≡ bs
    → ((n + suc k) * (u + header) ≡ bs)
      × (ulong (used + 2 ^ 64 - u) ≡ n * u)
      × (ulong (used + 2 ^ 64 - u) + ulong (left + u) ≡ bs)
account n k u bs used left whole fits us le = (omega arith, omega arith, omega arith)

back-IsPool :
    (p : Pool) (x : ℕ) (xs ys F : List ℕ)
    → IsPool p (xs ++ (x ∷ ys)) F
    → IsPool (back p x) (xs ++ ys) (x ∷ F)
unfolding back
back-IsPool p x xs ys F v = record {
  alloc_list =
      push_front-frame (unlink p.links x) x p.free 0 _ (xs ++ ys)
        (unlink_head-Dll p.links p.alloc x xs ys v.alloc_list v.alloc_distinct)
        (not-has-middle xs x ys v.alloc_distinct)
        (free_off (head_cases p.links 0 p.free F v.free_list));
  free_list =
      push_front-Dll (unlink p.links x) x p.free F
        (unlink-frame p.links p.alloc x 0 p.free xs ys F v.alloc_list v.free_list v.apart)
        v.free_distinct nz out;
  alloc_distinct = Distinct-middle xs x ys v.alloc_distinct;
  free_distinct = (out, v.free_distinct);
  apart = λ y h. apart' y h;
  alloc_inside = inside.1;
  free_inside = (inside.0, v.free_inside);
  has_block = v.has_block;
  has_size = v.has_size;
  capacity = booked.0;
  fits = v.fits;
  used = booked.1;
  left = booked.2;
}
  where
    one_less : length (xs ++ (x ∷ ys)) ≡ length (xs ++ ys) + 1
    one_less = omega (arith, length-append xs (x ∷ ys), length-append xs ys)

    booked :
        ((length (xs ++ ys) + suc (length F)) * (p.unit_size + header) ≡ p.block_size)
        × (ulong (p.len_alloc + 2 ^ 64 - p.unit_size) ≡ length (xs ++ ys) * p.unit_size)
        × (ulong (p.len_alloc + 2 ^ 64 - p.unit_size) + ulong (p.len_free + p.unit_size)
            ≡ p.block_size)
    booked =
        account (length (xs ++ ys)) (length F) p.unit_size p.block_size p.len_alloc p.len_free
          (ap (λ n. (n + length F) * (p.unit_size + header)) (sym one_less) ∙ v.capacity) v.fits
          (v.used ∙ ap (λ n. n * p.unit_size) one_less) v.left

    inside : InBlock p x × All (InBlock p) (xs ++ ys)
    inside = All-middle (InBlock p) xs x ys v.alloc_inside

    nz : x ≢ 0
    nz e = v.has_block (omega (arith, inside.0.0))

    member : has x (xs ++ (x ∷ ys)) ≡ true
    member = has-append x xs (x ∷ ys) ∙ ground arith

    out : has x F ≡ false
    out = v.apart x member

    wider : (y : ℕ) → has y (xs ++ ys) ≡ true → has y (xs ++ (x ∷ ys)) ≡ true
    wider y h = ground (arith, has-append y xs ys, has-append y xs (x ∷ ys))

    apart' : (y : ℕ) → has y (xs ++ ys) ≡ true → has y (x ∷ F) ≡ false
    apart' y h =
        let ne : y ≢ x =
          λ e. cc (not-has-middle xs x ys v.alloc_distinct, ap (λ t. has t (xs ++ ys)) e) in
        let far = v.apart y (wider y h) in ground arith

    free_off :
        ((p.free ≡ 0) ⊎ (has p.free F ≡ true)) → (p.free ≡ 0) ⊎ (has p.free (xs ++ ys) ≡ false)
    free_off (inl e) = inl e
    free_off (inr h) = elim (Bool-cases (has p.free (xs ++ ys))) [
      | inl a ↦ absurd (ground (arith, v.apart p.free (wider p.free a)))
      | inr a ↦ inr a
    ]

-- With a free unit `mpool_get` hands out the first one, behind its header, and moves it to the
-- front of the units in use.
pub mpool_get-IsPool :
    (p : Pool) (x use_it : ℕ) (A F : List ℕ)
    → use_it ≢ 0
    → IsPool p A (x ∷ F)
    → ((mpool_get p use_it).1 ≡ x + header) × IsPool (mpool_get p use_it).0 (x ∷ A) F
mpool_get-IsPool p x use_it A F on v =
    rw (mpool_get-got p x use_it on v.has_block v.free_list.0 v.free_list.1)
      (refl, got-IsPool p x A F v)

-- With none, or when told not to, it returns NULL and changes nothing.
pub mpool_get-null :
    (p : Pool) (use_it : ℕ) (A F : List ℕ)
    → IsPool p A F
    → ((use_it ≡ 0) ⊎ (F ≡ []))
    → mpool_get p use_it ≡ (p, 0)
unfolding mpool_get
mpool_get-null p use_it A F v (inl e) = rw e
mpool_get-null p use_it A [] v (inr e) = ground (arith, v.free_list)
mpool_get-null p use_it A (x ∷ F) v (inr e) = cc

-- A unit in use goes back: out of its list, wherever it stands, and to the front of the free ones.
pub mpool_put-IsPool :
    (p : Pool) (x : ℕ) (xs ys F : List ℕ)
    → IsPool p (xs ++ (x ∷ ys)) F
    → ((mpool_put p (x + header)).1 ≡ none) × IsPool (mpool_put p (x + header)).0 (xs ++ ys) (x ∷ F)
mpool_put-IsPool p x xs ys F v =
    let inside = All-middle (InBlock p) xs x ys v.alloc_inside in
    rw (mpool_put-back p x inside.0) (refl, back-IsPool p x xs ys F v)

-- A pointer from elsewhere goes to `free`, and the pool stays.
pub mpool_put-foreign :
    (p : Pool) (ptr : ℕ)
    → ((ptr ≤ p.block) ⊎ (p.block + p.block_size ≤ ptr))
    → mpool_put p ptr ≡ (p, some ptr)
unfolding mpool_put
mpool_put-foreign p ptr h = ground arith
