-- ===== src/Prelude/Lists.antt =====
-- Lists measured and indexed by native numbers, under the library's names: byte strings, packet
-- buffers and tables of every component are such lists.
use Prim.Native.Nat.{ℕ, zero, suc, ◌+◌, ◌-◌, ◌≤◌, min}
use mathlib.Core.Path.{◌≡◌, refl, ap}
use mathlib.Core.Logic.{◌⊎◌, inl, inr}
use mathlib.Core.List.{List, [], ◌∷◌, ◌++◌, map}
use mathlib.Core.Option.{Option, none, some}
use native.Mathlib.Omega.{arith}

module _ {ℓ} {A : Type ℓ} where
  abbrev pub length : List A → ℕ
  length [] = 0
  length (x ∷ xs) = suc (length xs)

  abbrev pub get_elem? : List A → ℕ → Option A
  get_elem? [] i = none
  get_elem? (x ∷ xs) zero = some x
  get_elem? (x ∷ xs) (suc i) = get_elem? xs i

  abbrev pub get_or : List A → ℕ → A → A
  get_or [] i d = d
  get_or (x ∷ xs) zero d = x
  get_or (x ∷ xs) (suc i) d = get_or xs i d

  abbrev pub take : ℕ → List A → List A
  take zero xs = []
  take (suc n) [] = []
  take (suc n) (x ∷ xs) = x ∷ take n xs

  abbrev pub drop : ℕ → List A → List A
  drop zero xs = xs
  drop (suc n) [] = []
  drop (suc n) (x ∷ xs) = drop n xs

  abbrev pub replicate : ℕ → A → List A
  replicate zero a = []
  replicate (suc n) a = a ∷ replicate n a

  pub length-append : (xs ys : List A) → length (xs ++ ys) ≡ length xs + length ys
  length-append [] ys = omega arith
  length-append (x ∷ xs) ys = omega (arith, length-append xs ys)

  pub take-append-drop : (n : ℕ) (xs : List A) → take n xs ++ drop n xs ≡ xs
  take-append-drop zero xs = refl
  take-append-drop (suc n) [] = refl
  take-append-drop (suc n) (x ∷ xs) = rw (take-append-drop n xs)

  pub length-take : (n : ℕ) (xs : List A) → length (take n xs) ≡ min n (length xs)
  length-take zero xs = omega arith
  length-take (suc n) [] = omega arith
  length-take (suc n) (x ∷ xs) = omega (arith, length-take n xs)

  pub length-drop : (n : ℕ) (xs : List A) → length (drop n xs) ≡ length xs - n
  length-drop zero xs = omega arith
  length-drop (suc n) [] = omega arith
  length-drop (suc n) (x ∷ xs) = omega (arith, length-drop n xs)

  pub length-replicate : (n : ℕ) (a : A) → length (replicate n a) ≡ n
  length-replicate zero a = refl
  length-replicate (suc n) a = ap suc (length-replicate n a)

  pub length-zero : (xs : List A) → length xs ≡ 0 → xs ≡ []
  length-zero [] h = refl
  length-zero (x ∷ xs) h = absurd (omega arith)

module _ {ℓ} {A : Type ℓ} where
  -- Splitting `xs ++ ys` at a number that is the length of `xs`.
  pub take-append : (n : ℕ) (xs ys : List A) → length xs ≡ n → take n (xs ++ ys) ≡ xs
  take-append zero [] ys h = refl
  take-append zero (x ∷ xs) ys h = absurd (omega arith)
  take-append (suc n) [] ys h = absurd (omega arith)
  take-append (suc n) (x ∷ xs) ys h = ap (λ t. x ∷ t) (take-append n xs ys (omega arith))

  pub drop-append : (n : ℕ) (xs ys : List A) → length xs ≡ n → drop n (xs ++ ys) ≡ ys
  drop-append zero [] ys h = refl
  drop-append zero (x ∷ xs) ys h = absurd (omega arith)
  drop-append (suc n) [] ys h = absurd (omega arith)
  drop-append (suc n) (x ∷ xs) ys h = drop-append n xs ys (omega arith)

  pub take_all : (n : ℕ) (xs : List A) → length xs ≤ n → take n xs ≡ xs
  take_all zero [] h = refl
  take_all zero (x ∷ xs) h = absurd (omega arith)
  take_all (suc n) [] h = refl
  take_all (suc n) (x ∷ xs) h = ap (λ t. x ∷ t) (take_all n xs (omega arith))

  pub drop-drop : (a b c : ℕ) (xs : List A) → a + b ≡ c → drop a (drop b xs) ≡ drop c xs
  drop-drop a zero c xs h = ap (λ n. drop n xs) (omega arith)
  drop-drop zero (suc b) zero [] h = refl
  drop-drop (suc a) (suc b) zero [] h = refl
  drop-drop zero (suc b) (suc c) [] h = refl
  drop-drop (suc a) (suc b) (suc c) [] h = refl
  drop-drop a (suc b) zero (x ∷ xs) h = absurd (omega arith)
  drop-drop a (suc b) (suc c) (x ∷ xs) h = drop-drop a b c xs (omega arith)

  pub take-take-drop :
      (a b c : ℕ) (xs : List A) → a + b ≡ c → take c xs ≡ take a xs ++ take b (drop a xs)
  take-take-drop zero b c xs h = ap (λ n. take n xs) (omega arith)
  take-take-drop (suc a) zero zero [] h = refl
  take-take-drop (suc a) (suc b) zero [] h = refl
  take-take-drop (suc a) zero (suc c) [] h = refl
  take-take-drop (suc a) (suc b) (suc c) [] h = refl
  take-take-drop (suc a) b zero (x ∷ xs) h = absurd (omega arith)
  take-take-drop (suc a) b (suc c) (x ∷ xs) h =
      ap (λ t. x ∷ t) (take-take-drop a b c xs (omega arith))

-- A predicate by recursion computes to tuples, which the tactics read and build.
abbrev pub All {ℓ κ} : {A : Type ℓ} → (A → Type κ) → List A → Type κ
All P [] = Unit
All P (x ∷ xs) = P x × All P xs

pub All-take {ℓ κ} :
    {A : Type ℓ} (P : A → Type κ) (n : ℕ) (xs : List A) → All P xs → All P (take n xs)
All-take P zero xs h = tt
All-take P (suc n) [] h = tt
All-take P (suc n) (x ∷ xs) h = (h.0, All-take P n xs h.1)

pub All-append {ℓ κ} :
    {A : Type ℓ} (P : A → Type κ) (xs ys : List A) → All P xs → All P ys → All P (xs ++ ys)
All-append P [] ys hx hy = hy
All-append P (x ∷ xs) ys hx hy = (hx.0, All-append P xs ys hx.1 hy)

pub All-middle {ℓ κ} :
    {A : Type ℓ} (P : A → Type κ) (xs : List A) (x : A) (ys : List A)
    → All P (xs ++ (x ∷ ys))
    → P x × All P (xs ++ ys)
All-middle P [] x ys h = h
All-middle P (a ∷ xs) x ys h = let (px, rest) = All-middle P xs x ys h.1 in (px, (h.0, rest))

module _ {ℓ} {A : Type ℓ} where
  -- A window that lies in the first part.
  pub window-append :
      (n k : ℕ) (xs ys : List A)
      → k + n ≤ length xs
      → take n (drop k (xs ++ ys)) ≡ take n (drop k xs)
  window-append zero k xs ys h = refl
  window-append (suc n) zero [] ys h = absurd (omega arith)
  window-append (suc n) zero (x ∷ xs) ys h = ap (λ t. x ∷ t) (window-append n 0 xs ys (omega arith))
  window-append (suc n) (suc k) [] ys h = absurd (omega arith)
  window-append (suc n) (suc k) (x ∷ xs) ys h = window-append (suc n) k xs ys (omega arith)

  pub get_elem?-append :
      (xs ys : List A) (i : ℕ) (a : A) → get_elem? xs i ≡ some a → get_elem? (xs ++ ys) i ≡ some a
  get_elem?-append [] ys i a e = cc
  get_elem?-append (x ∷ xs) ys zero a e = e
  get_elem?-append (x ∷ xs) ys (suc i) a e = get_elem?-append xs ys i a e

  pub get_elem?-last :
      (xs : List A) (x : A) (i : ℕ) → i ≡ length xs → get_elem? (xs ++ (x ∷ [])) i ≡ some x
  get_elem?-last [] x zero e = refl
  get_elem?-last [] x (suc i) e = absurd (omega arith)
  get_elem?-last (y ∷ xs) x zero e = absurd (omega arith)
  get_elem?-last (y ∷ xs) x (suc i) e = get_elem?-last xs x i (omega arith)

  -- What an element added at the end does to a lookup.
  pub get_elem?-snoc :
      (xs : List A) (x : A) (i : ℕ) (a : A)
      → get_elem? (xs ++ (x ∷ [])) i ≡ some a
      → (get_elem? xs i ≡ some a) ⊎ ((i ≡ length xs) × (x ≡ a))
  get_elem?-snoc [] x zero a e = inr (refl, ground arith)
  get_elem?-snoc [] x (suc i) a e = cc
  get_elem?-snoc (y ∷ xs) x zero a e = inl e
  get_elem?-snoc (y ∷ xs) x (suc i) a e = elim (get_elem?-snoc xs x i a e) [
    | inl h ↦ inl h
    | inr (h, k) ↦ inr (ap suc h, k)
  ]

pub map-append {ℓ κ} :
    {A : Type ℓ} {B : Type κ} (f : A → B) (xs ys : List A) → map f (xs ++ ys) ≡ map f xs ++ map f ys
map-append f [] ys = refl
map-append f (x ∷ xs) ys = ap (λ l. f x ∷ l) (map-append f xs ys)
