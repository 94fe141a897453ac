-- ===== src/Checksum/Sums.antt =====
-- Sums of words after a write: behind them, or over one of them.
use xyz.Prelude.{
  ℕ, zero, suc, ◌+◌, ◌-◌, ◌*◌, ◌/◌, ◌%◌, ◌^◌, ◌≤◌, ◌<◌, ◌≡◌, refl, ◌∙◌, arith, ℕ_discrete,
}
use xyz.Memory.{
  Memory, IsBytes, word, write_word, write_word-other, word-write_word, word-write_word_other,
  word-lt,
}
use xyz.Checksum.{complement, sum_words, sum_segment, pseudo_header, ip_sum}

pub complement-lt : (s : ℕ) → complement s < 2 ^ 16
unfolding complement
complement-lt s = omega arith

pub sum_words-le : (m : Memory) (base n : ℕ) → IsBytes m → sum_words m base n ≤ n * 65535
unfolding sum_words
sum_words-le m base zero h = omega arith
sum_words-le m base (suc n) h = omega (arith, sum_words-le m base n h, word-lt m (base + 2 * n) h)

pub sum_segment-le :
    (m : Memory) (base n : ℕ) → IsBytes m → sum_segment m base n ≤ (n / 2 + 1) * 65535
unfolding sum_segment
sum_segment-le m base n h = ground (arith, sum_words-le m base (n / 2) h, h (base + n - 1))

-- A word that is written behind the summed ones.
pub sum_words_before :
    (m : Memory) (base k v n : ℕ)
    → n ≤ k
    → sum_words (write_word m (base + 2 * k) v) base n ≡ sum_words m base n
unfolding sum_words
sum_words_before m base k v zero h = refl
sum_words_before m base k v (suc n) h =
    rw
      (
        sum_words_before m base k v n (omega arith),
        word-write_word_other m (base + 2 * k) v (base + 2 * n) (omega arith) (omega arith)
            (omega arith),
      )
      refl

-- A zero word among the summed ones that is written.
pub sum_words_over :
    (m : Memory) (base k v n : ℕ)
    → word m (base + 2 * k) ≡ 0
    → v < 2 ^ 16
    → k < n
    → sum_words (write_word m (base + 2 * k) v) base n ≡ sum_words m base n + v
unfolding sum_words
sum_words_over m base k v zero e small h = absurd (omega arith)
sum_words_over m base k v (suc n) e small h = elim (ℕ_discrete k n) [
  | yes same ↦
      let a = sum_words_before m base k v n (omega arith) in
      let b = word-write_word m (base + 2 * k) v small in
      let c : base + 2 * n ≡ base + 2 * k = omega arith in rw (c, a, b, e) (omega arith)
  | no other ↦
      let a = sum_words_over m base k v n e small (omega arith) in
      let b =
        word-write_word_other m (base + 2 * k) v (base + 2 * n) (omega arith) (omega arith)
          (omega arith) in
      rw (a, b) (omega arith)
]

pub sum_segment_over :
    (m : Memory) (base v n : ℕ)
    → word m (base + 16) ≡ 0
    → v < 2 ^ 16
    → 18 ≤ n
    → sum_segment (write_word m (base + 16) v) base n ≡ sum_segment m base n + v
unfolding sum_segment
sum_segment_over m base v n e small h =
    let a : sum_words (write_word m (base + 16) v) base (n / 2) ≡ sum_words m base (n / 2) + v =
      sum_words_over m base 8 v (n / 2) e small (omega arith) in
    elim (ℕ_discrete (n % 2) 1) [
      | yes odd ↦
          let b = write_word-other m (base + 16) v (base + n - 1) (omega arith) (omega arith) in
          rw (a, b) (ground arith)
      | no even ↦ rw a (ground arith)
    ]

pub pseudo_header_over :
    (m : Memory) (ip v : ℕ) → pseudo_header (write_word m (20 + ip + 16) v) ip ≡ pseudo_header m ip
unfolding pseudo_header word
pseudo_header_over m ip v =
    let keep : (i : ℕ) → i < 20 + ip + 16 → write_word m (20 + ip + 16) v i ≡ m i =
      λ i h. write_word-other m (20 + ip + 16) v i (omega arith) (omega arith) in
    simp (
      keep (ip + 12) (omega arith),
      keep (ip + 12 + 1) (omega arith),
      keep (ip + 14) (omega arith),
      keep (ip + 14 + 1) (omega arith),
      keep (ip + 16) (omega arith),
      keep (ip + 16 + 1) (omega arith),
      keep (ip + 18) (omega arith),
      keep (ip + 18 + 1) (omega arith),
      keep (ip + 9) (omega arith),
    )

pub pseudo_header-le : (m : Memory) (ip : ℕ) → IsBytes m → pseudo_header m ip < 2 ^ 19
unfolding pseudo_header
pseudo_header-le m ip h = omega (
  arith,
  word-lt m (ip + 12) h,
  word-lt m (ip + 14) h,
  word-lt m (ip + 16) h,
  word-lt m (ip + 18) h,
  h (ip + 9),
)

pub sum_words_parts :
    (m : Memory) (base j k : ℕ)
    → sum_words m base (j + k) ≡ sum_words m base j + sum_words m (base + 2 * j) k
unfolding sum_words
sum_words_parts m base j zero = let e : j + 0 ≡ j = omega arith in rw e (omega arith)
sum_words_parts m base j (suc k) =
    let e : base + 2 * (j + k) ≡ base + 2 * j + 2 * k = omega arith in
    let step : j + suc k ≡ suc (j + k) = omega arith in
    rw (step, sum_words_parts m base j k, e) (omega arith)

pub ip_sum-sum_words : (m : Memory) (ip : ℕ) → sum_words m ip 10 ≡ ip_sum m ip + word m (ip + 10)
unfolding ip_sum sum_words
ip_sum-sum_words m ip =
    let a : sum_words m ip 10 ≡ sum_words m ip 5 + sum_words m (ip + 10) 5 =
      sum_words_parts m ip 5 5 in
    let here : ip + 10 + 2 * 0 ≡ ip + 10 = omega arith in
    let next : ip + 10 + 2 * 1 ≡ ip + 12 = omega arith in
    let b : sum_words m (ip + 10) 5 ≡ word m (ip + 10) + sum_words m (ip + 12) 4 =
      sum_words_parts m (ip + 10) 1 4 ∙ rw (next, here) (omega arith) in
    a ∙ rw b (omega arith)

pub sum_words-agree :
    (a b : Memory) (base n : ℕ)
    → ((i : ℕ) → base ≤ i → i < base + 2 * n → a i ≡ b i)
    → sum_words a base n ≡ sum_words b base n
unfolding sum_words word
sum_words-agree a b base zero same = refl
sum_words-agree a b base (suc n) same =
    rw
      (
        sum_words-agree a b base n (λ i l h. same i l (omega arith)),
        same (base + 2 * n) (omega arith) (omega arith),
        same (base + 2 * n + 1) (omega arith) (omega arith),
      )
      refl
