-- ===== src/Capability/Sizes.antt =====
-- The loop over the sizes of a range: where it ends, with which result, and where it does not.
use native.Mathlib.Nat.{suc-mul, zero-mul}
use xyz.Prelude.{
  ℕ, zero, suc, ◌+◌, ◌*◌, ◌%◌, ◌^◌, ◌≤◌, ◌<◌, ◌≡◌, ◌≢◌, ◌⊎◌, inl, inr, refl, sym, subst, ◌∙◌, Bool,
  true, false, ◌==◌, leb, Option, none, some, Bool-cases, arith,
}
use xyz.Capability.{Range, size_loop, check_supported_size}

-- Whether a length is one of the sizes from `first` on in steps, up to the maximum, and the result
-- that says so.
pub IsAnswer : Range → (length first : ℕ) → Option Bool → Type 0
IsAnswer r length first result =
    (((k : ℕ) × (length ≡ first + k * r.increment) × (length ≤ r.max_size)) × (result ≡ some true))
    ⊎ (((k : ℕ) → length ≡ first + k * r.increment → r.max_size < length) × (result ≡ some false))

next-IsAnswer :
    (r : Range) (length first : ℕ) (result : Option Bool)
    → first ≤ r.max_size
    → length ≢ first
    → IsAnswer r length (first + r.increment) result
    → IsAnswer r length first result
unfolding IsAnswer
next-IsAnswer r length first result low other (inl ((k, e, h), done)) =
    let step = suc-mul k r.increment in inl ((suc k, omega arith, h), done)
next-IsAnswer r length first result low other (inr (out, done)) = inr (λ k. go k, done)
  where
    go : (k : ℕ) → length ≡ first + k * r.increment → r.max_size < length
    go zero e = absurd (other (e ∙ (let z = zero-mul r.increment in omega arith)))
    go (suc k) e = let step = suc-mul k r.increment in out k (omega arith)

size_loop-IsAnswer :
    (r : Range) (length : ℕ)
    → 0 < r.increment
    → r.max_size + r.increment < 2 ^ 16
    → (fuel first : ℕ) → 0 < fuel
    → r.max_size + 1 < first + fuel
    → IsAnswer r length first (size_loop fuel r length first)
unfolding size_loop IsAnswer
size_loop-IsAnswer r length pos small zero first some_fuel enough = absurd (omega arith)
size_loop-IsAnswer r length pos small (suc fuel) first some_fuel enough =
    elim (Bool-cases (leb first r.max_size)) [
      | inr high ↦
          let e : size_loop (suc fuel) r length first ≡ some false = rw (high, size_loop) refl in
          inr (λ k at. ground (arith, high, at), e)
      | inl low ↦ elim (Bool-cases (length == first)) [
        | inl found ↦
            let e : size_loop (suc fuel) r length first ≡ some true =
              rw (low, found, size_loop) refl in
            let z = zero-mul r.increment in
            inl ((0, ground (arith, found), ground (arith, low, found)), e)
        | inr other ↦
            let wrap : (first + r.increment) % 2 ^ 16 ≡ first + r.increment = ground (arith, low) in
            let e : size_loop (suc fuel) r length first
                ≡ size_loop fuel r length (first + r.increment) =
              rw (low, other, wrap, size_loop) refl in
            subst (λ x. IsAnswer r length first x) (sym e)
              (next-IsAnswer r length first (size_loop fuel r length (first + r.increment))
                (ground (arith, low)) (ground (arith, other))
                (size_loop-IsAnswer r length pos small fuel (first + r.increment)
                  (ground (arith, low)) (ground (arith, low))))
      ]
    ]

-- A range whose sizes end below 2 ^ 16: the check ends, and says whether the length is a size of it.
pub check_supported_size-IsAnswer :
    (r : Range) (length : ℕ)
    → 0 < r.increment
    → r.max_size + r.increment < 2 ^ 16
    → IsAnswer r length r.min_size (check_supported_size length r)
unfolding check_supported_size
check_supported_size-IsAnswer r length pos small =
    let on : (r.increment == 0) ≡ false = ground arith in
    let e : check_supported_size length r ≡ size_loop (2 ^ 16) r length r.min_size =
      rw (on, check_supported_size) refl in
    subst (λ x. IsAnswer r length r.min_size x) (sym e)
      (size_loop-IsAnswer r length pos small (2 ^ 16) r.min_size (omega arith) (omega arith))

-- A range of even sizes up to 2 ^ 16 - 1 and an odd length: the loop goes on after any number of rounds.
pub size_loop_endless :
    (r : Range) (length : ℕ)
    → r.max_size ≡ 65535
    → r.increment % 2 ≡ 0
    → length % 2 ≡ 1
    → (fuel first : ℕ) → first % 2 ≡ 0
    → first < 2 ^ 16
    → size_loop fuel r length first ≡ none
unfolding size_loop
size_loop_endless r length full even odd zero first at small = refl
size_loop_endless r length full even odd (suc fuel) first at small =
    let low : leb first r.max_size ≡ true = ground arith in
    let other : (length == first) ≡ false = ground arith in
    let next = (first + r.increment) % 2 ^ 16 in
    let rest = size_loop_endless r length full even odd fuel next (omega arith) (omega arith) in
    rw (low, other, size_loop) rest
