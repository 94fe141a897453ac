-- ===== src/Pool/Dll.antt =====
-- Doubly linked lists of units, and what the pointer writes of MemPool.c do to them at the front.
use xyz.Prelude.{
  ℕ, ◌≡◌, ◌≢◌, ◌⊎◌, refl, ap, ◌∙◌, Bool, true, false, ◌||◌, List, [], ◌∷◌, ◌==◌, inl, inr, arith,
}
use xyz.Pool.{Links, push_front, pop_front}

abbrev pub has : ℕ → List ℕ → Bool
has y [] = false
has y (x ∷ xs) = y == x || has y xs

-- From `p` the list `xs` is linked both ways; `b` is the predecessor of its first unit.
abbrev pub Dll : Links → ℕ → ℕ → List ℕ → Type 0
Dll l b p [] = p ≡ 0
Dll l b p (x ∷ xs) = (p ≡ x) × (x ≢ 0) × (l.prev x ≡ b) × Dll l x (l.next x) xs

abbrev pub Distinct : List ℕ → Type 0
Distinct [] = Unit
Distinct (x ∷ xs) = (has x xs ≡ false) × Distinct xs

-- A list is not touched by writes elsewhere.
pub Dll-frame :
    (l l' : Links) (b p : ℕ) (xs : List ℕ)
    → ((y : ℕ) → has y xs ≡ true → (l'.prev y ≡ l.prev y) × (l'.next y ≡ l.next y))
    → Dll l b p xs
    → Dll l' b p xs
Dll-frame l l' b p [] same d = d
Dll-frame l l' b p (x ∷ xs) same (e, nz, back, rest) =
    let (sp, sn) = same x (ground arith) in
    (e, nz, sp ∙ back, rw sn (Dll-frame l l' x (l.next x) xs (λ y h. same y (ground arith)) rest))

-- The writes of `push_front`, field by field.
prev-push_front :
    (l : Links) (unit p y : ℕ)
    → y ≢ unit
    → ((p ≡ 0) ⊎ (y ≢ p))
    → (push_front l unit p).prev y ≡ l.prev y
unfolding push_front
prev-push_front l unit p y h (inl e) = ground arith
prev-push_front l unit p y h (inr e) = ground arith

next-push_front : (l : Links) (unit p y : ℕ) → y ≢ unit → (push_front l unit p).next y ≡ l.next y
unfolding push_front
next-push_front l unit p y h = ground arith

-- Other lists are not touched.
pub push_front-frame :
    (l : Links) (unit p b q : ℕ) (xs : List ℕ)
    → Dll l b q xs
    → has unit xs ≡ false
    → ((p ≡ 0) ⊎ (has p xs ≡ false))
    → Dll (push_front l unit p) b q xs
push_front-frame l unit p b q xs d out (inl e) =
    Dll-frame l (push_front l unit p) b q xs
      (λ y h. (
        prev-push_front l unit p y (λ e'. cc (ap (λ t. has t xs) e')) (inl e),
        next-push_front l unit p y (λ e'. cc (ap (λ t. has t xs) e')),
      ))
      d
push_front-frame l unit p b q xs d out (inr o) =
    Dll-frame l (push_front l unit p) b q xs
      (λ y h. (
        prev-push_front l unit p y (λ e'. cc (ap (λ t. has t xs) e'))
            (inr (λ e'. cc (ap (λ t. has t xs) e'))),
        next-push_front l unit p y (λ e'. cc (ap (λ t. has t xs) e')),
      ))
      d

-- A unit goes to the front of a list that does not hold it.
pub push_front-Dll :
    (l : Links) (unit p : ℕ) (xs : List ℕ)
    → Dll l 0 p xs
    → Distinct xs
    → unit ≢ 0
    → has unit xs ≡ false
    → Dll (push_front l unit p) 0 unit (unit ∷ xs)
unfolding push_front
push_front-Dll l unit p [] d ds nz out = (refl, nz, ground arith, ground arith)
push_front-Dll l unit p (x ∷ xs) (e, nx, back, rest) (fresh, ds) nz out = (
  refl,
  nz,
  ground arith,
  (
    ground arith,
    nx,
    ground arith,
    rw (next-push_front l unit p x (ground arith))
        (push_front-frame l unit p x (l.next x) xs rest (ground arith) (inr (ground arith))),
  ),
)

-- A list without its first unit.
pub pop_front-Dll :
    (l : Links) (b p x : ℕ) (xs : List ℕ)
    → Dll l b p (x ∷ xs)
    → Distinct (x ∷ xs)
    → Dll (pop_front l x) 0 (l.next x) xs
unfolding pop_front
pop_front-Dll l b p x [] (e, nx, back, rest) ds = rest
pop_front-Dll l b p x (y ∷ ys) (e, nx, back, (e', ny, back', rest)) (fresh, (fresh', ds)) = (
  e',
  ny,
  ground arith,
  Dll-frame l (pop_front l x) y (l.next y) ys
      (λ z h. let other : z ≢ y = λ eq. cc (ap (λ t. has t ys) eq) in (ground arith, refl)) rest,
)

-- Other lists are not touched, when the new head is not among them.
pub pop_front-frame :
    (l : Links) (x b q : ℕ) (xs : List ℕ)
    → Dll l b q xs
    → ((l.next x ≡ 0) ⊎ (has (l.next x) xs ≡ false))
    → Dll (pop_front l x) b q xs
unfolding pop_front
pop_front-frame l x b q xs d (inl e) =
    Dll-frame l (pop_front l x) b q xs (λ y h. (ground arith, refl)) d
pop_front-frame l x b q xs d (inr o) =
    Dll-frame l (pop_front l x) b q xs
      (λ y h. let other : y ≢ l.next x = λ eq. cc (ap (λ t. has t xs) eq) in (ground arith, refl)) d

-- A list's head is NULL or one of its units.
pub head_cases : (l : Links) (b p : ℕ) (xs : List ℕ) → Dll l b p xs → (p ≡ 0) ⊎ (has p xs ≡ true)
head_cases l b p [] d = inl d
head_cases l b p (x ∷ xs) d = inr (ground arith)
