-- ===== src/Pool/Init.antt =====
-- `mpool_alloc`: the units of a fresh block, all free.
use xyz.Prelude.{
  ℕ, zero, suc, ◌+◌, ◌*◌, ◌^◌, ◌≤◌, ◌<◌, ◌≡◌, ◌≢◌, refl, sym, ap, ◌∙◌, false, List, [], ◌∷◌, length,
  All, ◌==◌, arith,
}
use xyz.Pool.{Pool, Links, header, ulong, push_front, init_units, mpool_alloc, mpool_get}
use xyz.Pool.Dll.{has, Dll, Distinct, push_front-Dll}
use xyz.Pool.Inv.{IsPool}

-- The free list after the loop: the units from number `i` on, the last one first, then `F`.
abbrev pub units : ℕ → ℕ → ℕ → ℕ → List ℕ → List ℕ
units zero i block stride F = F
units (suc n) i block stride F = units n (i + 1) block stride ((block + i * stride) ∷ F)

abbrev Below : ℕ → ℕ → List ℕ → Type 0
Below lo hi = All (λ x. (lo ≤ x) × (x < hi))

not-has_of_Below : (lo x : ℕ) (xs : List ℕ) → Below lo x xs → has x xs ≡ false
not-has_of_Below lo x [] b = refl
not-has_of_Below lo x (y ∷ ys) b = ground (arith, not-has_of_Below lo x ys b.1)

Below-mono : (lo hi hi' : ℕ) (xs : List ℕ) → hi ≤ hi' → Below lo hi xs → Below lo hi' xs
Below-mono lo hi hi' [] h b = tt
Below-mono lo hi hi' (x ∷ xs) h (bx, bs) = ((bx.0, omega arith), Below-mono lo hi hi' xs h bs)

-- What the loop establishes, and that all units end before the block does.
record Built (block stride total : ℕ) (r : Links × ℕ) (xs : List ℕ) : Type 0 where
  linked : Dll r.0 0 r.1 xs
  distinct : Distinct xs
  inside : All (λ x. (block ≤ x) × (x + stride ≤ block + total * stride)) xs

inside-cons :
    (n i block stride total : ℕ)
    → suc n + i ≡ total
    → block + i * stride + stride ≤ block + total * stride
inside-cons n i block stride total e = rw (← e) (omega arith)

init_units-Built :
    (n i block stride free total : ℕ) (l : Links) (F : List ℕ)
    → block ≢ 0
    → 0 < stride
    → n + i ≡ total
    → Below block (block + i * stride) F
    → Built block stride total (l, free) F
    → Built block stride total (init_units n i block stride free l) (units n i block stride F)
unfolding init_units
init_units-Built zero i block stride free total l F nb ns e below b = b
init_units-Built (suc n) i block stride free total l F nb ns e below b =
    let x = block + i * stride in
    let fresh = not-has_of_Below block x F below in
    init_units-Built n (i + 1) block stride x total (push_front l x free) (x ∷ F) nb ns
      (omega arith)
      (
        (omega arith, omega arith),
        Below-mono block x (block + (i + 1) * stride) F (omega arith) below,
      )
      (record {
        linked = push_front-Dll l x free F b.linked b.distinct (λ z. nb (omega arith)) fresh;
        distinct = (fresh, b.distinct);
        inside = ((omega arith, inside-cons n i block stride total e), b.inside);
      })

length-units :
    (n i block stride : ℕ) (F : List ℕ) → length (units n i block stride F) ≡ n + length F
length-units zero i block stride F = omega arith
length-units (suc n) i block stride F =
    omega (arith, length-units n (i + 1) block stride ((block + i * stride) ∷ F))

All-map : (P Q : ℕ → Type 0) (xs : List ℕ) → ((x : ℕ) → P x → Q x) → All P xs → All Q xs
All-map P Q [] f h = tt
All-map P Q (x ∷ xs) f h = (f x h.0, All-map P Q xs f h.1)

in_block :
    (memory u n w x : ℕ)
    → 0 < u
    → w ≡ n * (u + header)
    → (memory ≤ x) × (x + (u + header) ≤ memory + n * (u + header))
    → (memory ≤ x) × (x + header < memory + w)
in_block memory u n w x pos e h = (h.0, rw e (omega arith))

-- When `malloc` succeeds and the size does not overflow, every unit of the block is free.
pub mpool_alloc-IsPool :
    (memory unit_size unit_num : ℕ) (p : Pool)
    → memory ≢ 0
    → 0 < unit_size
    → unit_num * (unit_size + header) < 2 ^ 64
    → let (p', result) = mpool_alloc memory unit_size unit_num p in
      (result ≡ memory)
      × IsPool p' [] (units unit_num 0 memory (unit_size + header) [])
      × (length (units unit_num 0 memory (unit_size + header) []) ≡ unit_num)
unfolding mpool_alloc
mpool_alloc-IsPool memory unit_size unit_num p nm ns fits =
    let stride = unit_size + header in
    let b =
      init_units-Built unit_num 0 memory stride 0 unit_num p.links [] nm (omega arith) (omega arith)
        tt (record { linked = refl; distinct = tt; inside = tt }) in
    let whole : ulong (unit_num * stride) ≡ unit_num * stride = omega arith in
    let size : length (units unit_num 0 memory stride []) ≡ unit_num =
      omega (arith, length-units unit_num 0 memory stride []) in
    let all : 0 + length (units unit_num 0 memory stride []) ≡ unit_num = omega arith in
    let some_memory : (memory == 0) ≡ false = ground arith in
    rw some_memory (
      refl,
      record {
        alloc_list = refl;
        free_list = b.linked;
        alloc_distinct = tt;
        free_distinct = b.distinct;
        apart = λ y h. cc;
        alloc_inside = tt;
        free_inside =
            All-map _ _ (units unit_num 0 memory stride [])
              (λ x h. in_block memory unit_size unit_num (ulong (unit_num * stride)) x ns whole h)
              b.inside;
        has_block = nm;
        has_size = ns;
        capacity = ap (λ n. n * stride) all ∙ sym whole;
        fits = omega arith;
        used = omega arith;
        left = omega arith;
      },
      size,
    )

-- When it fails, the result is NULL, and so is every later `mpool_get`.
pub mpool_alloc-null :
    (unit_size unit_num use_it : ℕ) (p : Pool)
    → let (p', result) = mpool_alloc 0 unit_size unit_num p in
      (result ≡ 0) × (mpool_get p' use_it ≡ (p', 0))
unfolding mpool_alloc mpool_get
mpool_alloc-null unit_size unit_num use_it p = ground arith
