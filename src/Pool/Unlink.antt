-- ===== src/Pool/Unlink.antt =====
-- The unlinking of `mpool_put` (CHANGE 3 of MemPool.c): a unit leaves its list wherever it stands.
use xyz.Prelude.{
  ℕ, ◌≡◌, ◌≢◌, ◌⊎◌, inl, inr, refl, ap, ◌∙◌, true, false, ◌||◌, List, [], ◌∷◌, ◌++◌, ◌==◌,
  if◌then◌else◌, arith,
}
use xyz.Pool.{Links, unlink}
use xyz.Pool.Dll.{has, Dll, Distinct, Dll-frame, head_cases}

pub has-append : (y : ℕ) (xs ys : List ℕ) → has y (xs ++ ys) ≡ (has y xs || has y ys)
has-append y [] ys = refl
has-append y (x ∷ xs) ys = ground (arith, has-append y xs ys)

-- The predecessor of `x` in `xs ++ x ∷ ys`, and its successor.
prev-middle :
    (l : Links) (b p x : ℕ) (xs ys : List ℕ)
    → Dll l b p (xs ++ (x ∷ ys))
    → ((xs ≡ []) × (l.prev x ≡ b)) ⊎ (has (l.prev x) xs ≡ true)
prev-middle l b p x [] ys (e, nx, back, rest) = inl (refl, back)
prev-middle l b p x (a ∷ xs) ys (e, na, back, rest) =
    elim (prev-middle l a (l.next a) x xs ys rest) [
      | inl (none, pa) ↦ inr (ground arith)
      | inr h ↦ inr (ground arith)
    ]

next-middle :
    (l : Links) (b p x : ℕ) (xs ys : List ℕ)
    → Dll l b p (xs ++ (x ∷ ys))
    → (l.next x ≡ 0) ⊎ (has (l.next x) ys ≡ true)
next-middle l b p x [] ys (e, nx, back, rest) = head_cases l x (l.next x) ys rest
next-middle l b p x (a ∷ xs) ys (e, na, back, rest) = next-middle l a (l.next a) x xs ys rest

prev-unlink :
    (l : Links) (x y : ℕ) → ((l.next x ≡ 0) ⊎ (y ≢ l.next x)) → (unlink l x).prev y ≡ l.prev y
unfolding unlink
prev-unlink l x y (inl e) = ground arith
prev-unlink l x y (inr e) = ground arith

next-unlink :
    (l : Links) (x y : ℕ) → ((l.prev x ≡ 0) ⊎ (y ≢ l.prev x)) → (unlink l x).next y ≡ l.next y
unfolding unlink
next-unlink l x y (inl e) = ground arith
next-unlink l x y (inr e) = ground arith

Distinct-tail : (xs : List ℕ) (x : ℕ) (ys : List ℕ) → Distinct (xs ++ (x ∷ ys)) → Distinct (x ∷ ys)
Distinct-tail [] x ys d = d
Distinct-tail (a ∷ xs) x ys d = Distinct-tail xs x ys d.1

back_to : (l : Links) (x b y : ℕ) → l.next x ≡ y → y ≢ 0 → l.prev x ≡ b → (unlink l x).prev y ≡ b
unfolding unlink
back_to l x b y e ny back = ground arith

skips : (l : Links) (x a : ℕ) → a ≢ 0 → l.prev x ≡ a → (unlink l x).next a ≡ l.next x
unfolding unlink
skips l x a na back = ground arith

prev_kept :
    (l : Links) (x a : ℕ) (ys : List ℕ)
    → (l.next x ≡ 0) ⊎ (has (l.next x) ys ≡ true)
    → has a ys ≡ false
    → (unlink l x).prev a ≡ l.prev a
prev_kept l x a ys (inl e) out = prev-unlink l x a (inl e)
prev_kept l x a ys (inr h) out = prev-unlink l x a (inr (λ q. cc (ap (λ t. has t ys) q)))

not_prev :
    (l : Links) (a x c : ℕ) (xs : List ℕ)
    → (((c ∷ xs) ≡ []) × (l.prev x ≡ a)) ⊎ (has (l.prev x) (c ∷ xs) ≡ true)
    → has a (c ∷ xs) ≡ false
    → a ≢ l.prev x
not_prev l a x c xs (inl (n, e)) out q = cc
not_prev l a x c xs (inr h) out q = cc (ap (λ t. has t (c ∷ xs)) q)

-- With `b` before the list, or nothing: `p'` is its new head.
unlink-Dll :
    (l : Links) (b p x : ℕ) (xs ys : List ℕ)
    → Dll l b p (xs ++ (x ∷ ys))
    → Distinct (xs ++ (x ∷ ys))
    → has b (xs ++ (x ∷ ys)) ≡ false
    → Dll (unlink l x) b (elim xs [ [] ↦ l.next x | _ ∷ _ ↦ p ]) (xs ++ ys)
unlink-Dll l b p x [] [] (e, nx, back, rest) ds out = rest
unlink-Dll l b p x [] (y ∷ ys) (e, nx, back, (e', ny, back', rest)) (fx, (fy, ds)) out = (
  e',
  ny,
  back_to l x b y e' ny back,
  rw (next-unlink l x y (inr (λ q. absurd (ground arith)))) (
      Dll-frame l (unlink l x) y (l.next y) ys
        (λ z h. (
          prev-unlink l x z (inr (λ q. cc (ap (λ t. has t ys) (q ∙ e')))),
          next-unlink l x z (inr (λ q. absurd (ground (arith, ap (λ t. has t ys) (q ∙ back))))),
        ))
        rest),
)
unlink-Dll l b p x (a ∷ []) ys (e, na, back, (e', nx, back', rest)) (fresh, ds) out = (
  e,
  na,
  prev_kept l x a ys (next-middle l a (l.next a) x [] ys (e', nx, back', rest)) (ground arith)
      ∙ back,
  rw (skips l x a na back') (unlink-Dll l a (l.next a) x [] ys (e', nx, back', rest) ds fresh),
)
unlink-Dll l b p x (a ∷ c ∷ xs) ys (e, na, back, rest) (fresh, ds) out =
    let parts = has-append a xs (x ∷ ys) in
    (
      e,
      na,
      prev_kept l x a ys (next-middle l a (l.next a) x (c ∷ xs) ys rest) (ground arith) ∙ back,
      rw
          (next-unlink l x a (
            inr
              (not_prev l a x c xs (prev-middle l a (l.next a) x (c ∷ xs) ys rest) (ground arith))))
          (unlink-Dll l a (l.next a) x (c ∷ xs) ys rest ds fresh),
    )

pub not-has-zero : (l : Links) (b p : ℕ) (xs : List ℕ) → Dll l b p xs → has 0 xs ≡ false
not-has-zero l b p [] d = refl
not-has-zero l b p (x ∷ xs) (e, nx, back, rest) =
    ground (arith, not-has-zero l x (l.next x) xs rest)

-- The list of `mpool_put`: its head moves only if the unit was the head.
pub unlink_head-Dll :
    (l : Links) (p x : ℕ) (xs ys : List ℕ)
    → Dll l 0 p (xs ++ (x ∷ ys))
    → Distinct (xs ++ (x ∷ ys))
    → Dll (unlink l x) 0 (if l.prev x == 0 then l.next x else p) (xs ++ ys)
unlink_head-Dll l p x [] ys d ds =
    let e : (l.prev x == 0) ≡ true = ground arith in
    rw e (unlink-Dll l 0 p x [] ys d ds (not-has-zero l 0 p (x ∷ ys) d))
unlink_head-Dll l p x (a ∷ xs) ys d ds =
    let zero_out = not-has-zero l 0 p ((a ∷ xs) ++ (x ∷ ys)) d in
    let e : (l.prev x == 0) ≡ false =
      inner_prev l x a xs (prev-middle l 0 p x (a ∷ xs) ys d)
        (ground (arith, has-append 0 xs (x ∷ ys))) in
    rw e (unlink-Dll l 0 p x (a ∷ xs) ys d ds zero_out)
  where
    inner_prev :
        (l : Links) (x a : ℕ) (xs : List ℕ)
        → (((a ∷ xs) ≡ []) × (l.prev x ≡ 0)) ⊎ (has (l.prev x) (a ∷ xs) ≡ true)
        → has 0 (a ∷ xs) ≡ false
        → (l.prev x == 0) ≡ false
    inner_prev l x a xs (inl (n, e)) out = cc
    inner_prev l x a xs (inr h) out =
        let ne : l.prev x ≢ 0 = λ q. cc (ap (λ t. has t (a ∷ xs)) q) in ground arith

-- Another list is not touched, if the neighbours of `x` are not on it.
pub unlink-frame :
    (l : Links) (p x b q : ℕ) (xs ys zs : List ℕ)
    → Dll l 0 p (xs ++ (x ∷ ys))
    → Dll l b q zs
    → ((y : ℕ) → has y (xs ++ (x ∷ ys)) ≡ true → has y zs ≡ false)
    → Dll (unlink l x) b q zs
unlink-frame l p x b q xs ys zs d dz apart =
    Dll-frame l (unlink l x) b q zs
      (λ y h. (
        prev-unlink l x y (next_off y h (next-middle l 0 p x xs ys d)),
        next-unlink l x y (prev_off y h (prev-middle l 0 p x xs ys d)),
      ))
      dz
  where
    next_off :
        (y : ℕ)
        → has y zs ≡ true
        → (l.next x ≡ 0) ⊎ (has (l.next x) ys ≡ true)
        → (l.next x ≡ 0) ⊎ (y ≢ l.next x)
    next_off y h (inl e) = inl e
    next_off y h (inr m) =
        inr (λ e. cc (apart y (has-append y xs (x ∷ ys) ∙ ground (arith, ap (λ t. has t ys) e))))

    prev_off :
        (y : ℕ)
        → has y zs ≡ true
        → ((xs ≡ []) × (l.prev x ≡ 0)) ⊎ (has (l.prev x) xs ≡ true)
        → (l.prev x ≡ 0) ⊎ (y ≢ l.prev x)
    prev_off y h (inl (n, e)) = inl e
    prev_off y h (inr m) =
        inr (λ e. cc (apart y (has-append y xs (x ∷ ys) ∙ ground (arith, ap (λ t. has t xs) e))))

pub Distinct-middle :
    (xs : List ℕ) (x : ℕ) (ys : List ℕ) → Distinct (xs ++ (x ∷ ys)) → Distinct (xs ++ ys)
Distinct-middle [] x ys d = d.1
Distinct-middle (a ∷ xs) x ys (fresh, d) =
    (ground (arith, has-append a xs (x ∷ ys), has-append a xs ys), Distinct-middle xs x ys d)

pub not-has-middle :
    (xs : List ℕ) (x : ℕ) (ys : List ℕ) → Distinct (xs ++ (x ∷ ys)) → has x (xs ++ ys) ≡ false
not-has-middle [] x ys d = d.0
not-has-middle (a ∷ xs) x ys (fresh, d) =
    ground (arith, has-append a xs (x ∷ ys), not-has-middle xs x ys d)
