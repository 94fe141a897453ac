-- ===== src/Plc/Lengths.antt =====
-- The length fields of the headers, one up and one down.
use xyz.Prelude.{
  ℕ, ◌+◌, ◌-◌, ◌%◌, ◌^◌, ◌≤◌, ◌<◌, ◌≡◌, ◌≢◌, ◌⊎◌, inl, inr, ◌∙◌, true, false, ◌==◌, Bool-cases,
  arith,
}
use xyz.Memory.{
  Memory, IsBytes, word, write_word, write_word-other, word-write_word, word-write_word_other,
  word-lt, write_word-IsBytes,
}
use xyz.Plc.{bump_lengths}

module _ (l3 gre by : ℕ) (m : Memory) (apart : (gre ≡ 0) ⊎ (24 ≤ gre)) where
  pub bump-other :
      (i : ℕ)
      → i ≢ l3 + 2
      → i ≢ l3 + 3
      → i ≢ gre + (l3 + 2)
      → i ≢ gre + (l3 + 3)
      → bump_lengths l3 gre by m i ≡ m i
  unfolding bump_lengths
  bump-other i a b c d =
      let outer = (word m (l3 + 2) + by) % 2 ^ 16 in
      let inner = (word m (gre + (l3 + 2)) + by) % 2 ^ 16 in
      let once = write_word-other m (l3 + 2) outer i a (λ e. b (omega arith)) in
      elim (Bool-cases (gre == 0)) [
        | inl none ↦ simp (none, once)
        | inr some ↦ simp (
          some,
          once,
          write_word-other (write_word m (l3 + 2) outer) (gre + (l3 + 2)) inner i c
              (λ e. d (omega arith)),
        )
      ]

  pub word-bump_inner :
      word (bump_lengths l3 gre by m) (gre + (l3 + 2)) ≡ (word m (gre + (l3 + 2)) + by) % 2 ^ 16
  unfolding bump_lengths
  word-bump_inner =
      let outer = (word m (l3 + 2) + by) % 2 ^ 16 in
      let inner = (word m (gre + (l3 + 2)) + by) % 2 ^ 16 in
      elim apart [
        | inl none ↦
            let off : (gre == 0) ≡ true = ground arith in
            let same : gre + (l3 + 2) ≡ l3 + 2 = omega arith in
            simp (off, same, word-write_word m (l3 + 2) outer (omega arith))
        | inr some ↦
            let on : (gre == 0) ≡ false = ground arith in
            simp (
              on,
              word-write_word (write_word m (l3 + 2) outer) (gre + (l3 + 2)) inner (omega arith),
            )
      ]

  pub word-bump_outer : word (bump_lengths l3 gre by m) (l3 + 2) ≡ (word m (l3 + 2) + by) % 2 ^ 16
  unfolding bump_lengths
  word-bump_outer =
      let outer = (word m (l3 + 2) + by) % 2 ^ 16 in
      let inner = (word m (gre + (l3 + 2)) + by) % 2 ^ 16 in
      let first = word-write_word m (l3 + 2) outer (omega arith) in
      elim apart [
        | inl none ↦ let off : (gre == 0) ≡ true = ground arith in simp (off, first)
        | inr some ↦
            let on : (gre == 0) ≡ false = ground arith in
            simp (
              on,
              first,
              word-write_word_other (write_word m (l3 + 2) outer) (gre + (l3 + 2)) inner (l3 + 2)
                  (omega arith) (omega arith) (omega arith),
            )
      ]

  pub bump-IsBytes : IsBytes m → IsBytes (bump_lengths l3 gre by m)
  unfolding bump_lengths
  bump-IsBytes h =
      let outer = (word m (l3 + 2) + by) % 2 ^ 16 in
      let inner = (word m (gre + (l3 + 2)) + by) % 2 ^ 16 in
      let first = write_word-IsBytes m (l3 + 2) outer h in
      elim (Bool-cases (gre == 0)) [
        | inl none ↦ rw none first
        | inr some ↦
            rw some (write_word-IsBytes (write_word m (l3 + 2) outer) (gre + (l3 + 2)) inner first)
      ]

pub word-agree : (a b : Memory) (i : ℕ) → a i ≡ b i → a (i + 1) ≡ b (i + 1) → word a i ≡ word b i
unfolding word
word-agree a b i e f = omega arith

-- A word determines its bytes.
word-bytes :
    (a b : Memory) (i j : ℕ)
    → IsBytes a
    → IsBytes b
    → word a i ≡ word b i
    → (j ≡ i) ⊎ (j ≡ i + 1)
    → a j ≡ b j
unfolding word
word-bytes a b i j ha hb e at =
    let a0 = ha i in
    let a1 = ha (i + 1) in
    let b0 = hb i in
    let b1 = hb (i + 1) in
    let high : a i ≡ b i = omega arith in
    let low : a (i + 1) ≡ b (i + 1) = omega arith in
    elim at [ inl here ↦ rw here high | inr next ↦ rw next low ]

-- A byte of a length field, or none.
place :
    (gre i : ℕ)
    → ((i ≡ 16) ⊎ (i ≡ 16 + 1))
      ⊎ (((i ≡ gre + 16) ⊎ (i ≡ gre + 16 + 1))
          ⊎ ((i ≢ 14 + 2) × (i ≢ 14 + 3) × (i ≢ gre + (14 + 2)) × (i ≢ gre + (14 + 3))))
place gre i = ground arith

-- The length fields one up, then one down.
module _ (gre : ℕ) (m both : Memory) (apart : (gre ≡ 0) ⊎ (24 ≤ gre)) (end : ℕ)
    (above : gre + 18 ≤ end) (ok : IsBytes m) (both_ok : IsBytes both) (moved : Memory)
    (kept : (i : ℕ) → i < end → moved i ≡ m i)
    (same : (i : ℕ) → i < end → both i ≡ bump_lengths 14 gre 1 moved i) where
  word_back :
      (f : ℕ)
      → f + 1 < end
      → word (bump_lengths 14 gre (2 ^ 16 - 1) both) f ≡ (word both f + (2 ^ 16 - 1)) % 2 ^ 16
      → word (bump_lengths 14 gre 1 moved) f ≡ (word moved f + 1) % 2 ^ 16
      → word (bump_lengths 14 gre (2 ^ 16 - 1) both) f ≡ word m f
  word_back f h down up =
      let a =
        word-agree both (bump_lengths 14 gre 1 moved) f (same f (omega arith)) (same (f + 1) h) in
      let b = word-agree moved m f (kept f (omega arith)) (kept (f + 1) h) in
      let c = word-lt m f ok in omega arith

  pub byte_back : (i : ℕ) → i < end → bump_lengths 14 gre (2 ^ 16 - 1) both i ≡ m i
  byte_back i h =
      let r = bump_lengths 14 gre (2 ^ 16 - 1) both in
      let r_ok = bump-IsBytes 14 gre (2 ^ 16 - 1) both apart both_ok in
      let outer =
        word_back 16 (omega arith) (word-bump_outer 14 gre (2 ^ 16 - 1) both apart)
          (word-bump_outer 14 gre 1 moved apart) in
      let inner =
        word_back (gre + 16) (omega arith) (word-bump_inner 14 gre (2 ^ 16 - 1) both apart)
          (word-bump_inner 14 gre 1 moved apart) in
      elim (place gre i) [
        | inl a ↦ word-bytes r m 16 i r_ok ok outer a
        | inr (inl b) ↦ word-bytes r m (gre + 16) i r_ok ok inner b
        | inr (inr (c, d, e, f)) ↦
            bump-other 14 gre (2 ^ 16 - 1) both apart i c d e f
            ∙ same i h
            ∙ bump-other 14 gre 1 moved apart i c d e f
            ∙ kept i h
      ]
