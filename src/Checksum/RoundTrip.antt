-- ===== src/Checksum/RoundTrip.antt =====
-- A checksum that was written verifies.
use xyz.Prelude.{
  ℕ, ◌+◌, ◌-◌, ◌%◌, ◌^◌, ◌≤◌, ◌<◌, ◌≡◌, ◌≢◌, ◌⊎◌, inl, inr, refl, ◌∙◌, ap, true, ◌==◌,
  if◌then◌else◌, arith,
}
use xyz.Memory.{
  Memory, IsBytes, word, write_word, write_word-other, word-write_word, word-write_word_other,
  write_word-IsBytes, word-lt,
}
use xyz.Checksum.{
  fold, complement, sum_words, sum_segment, pseudo_header, tcp_sum, verify_tcp_checksum, gre_length,
  ip_sum, write_ip_checksum, write_tcp_checksum, calculate_tcp_checksum, ulong,
}
use xyz.Checksum.Fold.{fold-complement}
use xyz.Checksum.Sums.{
  complement-lt, sum_segment-le, sum_words_before, sum_segment_over, pseudo_header_over,
  pseudo_header-le, ip_sum-sum_words, sum_words-agree,
}

-- The written segment of `20 + ip` verifies.
verify-write_tcp_checksum :
    (m : Memory) (ip iplen : ℕ)
    → IsBytes m
    → 38 ≤ iplen
    → iplen < 2 ^ 16
    → word m (ip + 2) ≡ iplen
    → verify_tcp_checksum (write_tcp_checksum m (20 + ip) ip iplen) (20 + ip) ip iplen ≡ true
unfolding write_tcp_checksum verify_tcp_checksum tcp_sum
verify-write_tcp_checksum m ip iplen bytes low high len =
    let field = 20 + ip + 16 in
    let c = write_word m field 0 in
    let n = (iplen + 2 ^ 16 - 20) % 2 ^ 16 in
    let long : 18 ≤ n = omega arith in
    let short : n < 2 ^ 16 = omega arith in
    let total = ulong (sum_segment c (20 + ip) n + pseudo_header c ip + iplen + 2 ^ 64 - 20) in
    let v = complement (fold total) in
    let cb : IsBytes c = write_word-IsBytes m field 0 bytes in
    let zeroed : word c field ≡ 0 = word-write_word m field 0 (omega arith) in
    let small : v < 2 ^ 16 = complement-lt (fold total) in
    let a : sum_segment (write_word c field v) (20 + ip) n ≡ sum_segment c (20 + ip) n + v =
      sum_segment_over c (20 + ip) v n zeroed small long in
    let b : pseudo_header (write_word c field v) ip ≡ pseudo_header c ip =
      pseudo_header_over c ip v in
    let d : word (write_word c field v) (ip + 2) ≡ iplen =
      word-write_word_other c field v (ip + 2) (omega arith) (omega arith) (omega arith)
      ∙ word-write_word_other m field 0 (ip + 2) (omega arith) (omega arith) (omega arith)
      ∙ len in
    let le1 = sum_segment-le c (20 + ip) n cb in
    let le2 = pseudo_header-le c ip cb in
    let e : ulong (sum_segment c (20 + ip) n + v + pseudo_header c ip + iplen + 2 ^ 64 - 20)
        ≡ total + v =
      omega arith in
    let f : fold (total + v) ≡ 65535 = fold-complement total in rw (a, b, d, e, f) refl

verify-from_20 :
    (m : Memory) (ip iplen segment : ℕ)
    → segment ≡ 20 + ip
    → IsBytes m
    → 38 ≤ iplen
    → iplen < 2 ^ 16
    → word m (ip + 2) ≡ iplen
    → verify_tcp_checksum (write_tcp_checksum m segment ip iplen) segment ip iplen ≡ true
verify-from_20 m ip iplen segment at bytes low high len =
    rw at (verify-write_tcp_checksum m ip iplen bytes low high len)

-- The header whose checksum was written has the folded sum 65535.
write_ip_checksum-verifies :
    (m : Memory) (ip : ℕ) → fold (sum_words (write_ip_checksum m ip) ip 10) ≡ 65535
unfolding write_ip_checksum ip_sum
write_ip_checksum-verifies m ip =
    let total = ip_sum m ip in
    let v = complement (fold total) in
    let m' = write_word m (ip + 10) v in
    let at = word-write_word m (ip + 10) v (complement-lt (fold total)) in
    let low : sum_words m' ip 5 ≡ sum_words m ip 5 = sum_words_before m ip 5 v 5 (omega arith) in
    let high : sum_words m' (ip + 12) 4 ≡ sum_words m (ip + 12) 4 =
      sum_words-agree m' m (ip + 12) 4
        (λ i l h. write_word-other m (ip + 10) v i (omega arith) (omega arith)) in
    let e : sum_words m' ip 10 ≡ total + v = ip_sum-sum_words m' ip ∙ rw (low, high, at) refl in
    rw (e, fold-complement total) refl

write_tcp_checksum-before :
    (m : Memory) (segment ip iplen i : ℕ)
    → i < segment + 16
    → write_tcp_checksum m segment ip iplen i ≡ m i
unfolding write_tcp_checksum
write_tcp_checksum-before m segment ip iplen i h =
    write_word-other (write_word m (segment + 16) 0) (segment + 16) _ i (omega arith) (omega arith)
    ∙ write_word-other m (segment + 16) 0 i (omega arith) (omega arith)

write_ip_checksum-other :
    (m : Memory) (ip i : ℕ) → i ≢ ip + 10 → i ≢ ip + 11 → write_ip_checksum m ip i ≡ m i
unfolding write_ip_checksum
write_ip_checksum-other m ip i h k = write_word-other m (ip + 10) _ i h (λ e. k (omega arith))

write_ip_checksum-IsBytes : (m : Memory) (ip : ℕ) → IsBytes m → IsBytes (write_ip_checksum m ip)
unfolding write_ip_checksum
write_ip_checksum-IsBytes m ip h = write_word-IsBytes m (ip + 10) _ h

pub gre_length_cases : (m : Memory) → (gre_length m ≡ 0) ⊎ (24 ≤ gre_length m)
unfolding gre_length
gre_length_cases m = ground arith

-- The headers whose checksum is written before the segment's, for a tunnel header of length g.
write_both : Memory → ℕ → Memory
write_both m g =
    if g == 0 then write_ip_checksum m 14 else write_ip_checksum (write_ip_checksum m 14) (14 + g)

record HasBoth (m both : Memory) (g : ℕ) : Type 0 where
  bytes : IsBytes both
  outer : fold (sum_words both 14 10) ≡ 65535
  inner : fold (sum_words both (14 + g) 10) ≡ 65535
  len : word both (14 + g + 2) ≡ word m (g + 16)

write_both_has :
    (m : Memory) (g : ℕ) → IsBytes m → (g ≡ 0) ⊎ (24 ≤ g) → HasBoth m (write_both m g) g
unfolding write_both word
write_both_has m g h (inl none) =
    let e : write_both m g ≡ write_ip_checksum m 14 = rw none refl in
    let keep = write_ip_checksum-other m 14 in
    rw (e, none)
      record {
        bytes = write_ip_checksum-IsBytes m 14 h;
        outer = write_ip_checksum-verifies m 14;
        inner = write_ip_checksum-verifies m 14;
        len = rw (keep 16 (omega arith) (omega arith), keep 17 (omega arith) (omega arith)) refl;
      }
write_both_has m g h (inr some_options) =
    let first = write_ip_checksum m 14 in
    let e : write_both m g ≡ write_ip_checksum first (14 + g) = ground arith in
    let keep = write_ip_checksum-other m 14 in
    let again = write_ip_checksum-other first (14 + g) in
    let same_place : 14 + g + 2 ≡ g + 16 = omega arith in
    rw e record {
      bytes = write_ip_checksum-IsBytes first (14 + g) (write_ip_checksum-IsBytes m 14 h);
      outer =
          rw
            (sum_words-agree (write_ip_checksum first (14 + g)) first 14 10
              (λ i l u. again i (omega arith) (omega arith)))
            (write_ip_checksum-verifies m 14);
      inner = write_ip_checksum-verifies first (14 + g);
      len =
          rw
            (
              again (14 + g + 2) (omega arith) (omega arith),
              again (14 + g + 2 + 1) (omega arith) (omega arith),
              keep (14 + g + 2) (omega arith) (omega arith),
              keep (14 + g + 2 + 1) (omega arith) (omega arith),
              same_place,
            )
            refl;
    }

-- After calculate_tcp_checksum both IP headers have the folded sum 65535, and verify_tcp_checksum
-- accepts the segment.
pub verify-calculate_tcp_checksum :
    (m : Memory)
    → IsBytes m
    → 38 ≤ word m (gre_length m + 16)
    → (fold (sum_words (calculate_tcp_checksum m) 14 10) ≡ 65535)
      × (fold (sum_words (calculate_tcp_checksum m) (14 + gre_length m) 10) ≡ 65535)
      × (verify_tcp_checksum
            (calculate_tcp_checksum m)
            (34 + gre_length m)
            (14 + gre_length m)
            (word m (gre_length m + 16))
          ≡ true)
unfolding calculate_tcp_checksum write_both
verify-calculate_tcp_checksum m bytes low =
    let g = gre_length m in
    let len = word m (g + 16) in
    let both = write_both m g in
    let has : HasBoth m both g = write_both_has m g bytes (gre_length_cases m) in
    let before = write_tcp_checksum-before both (34 + g) (14 + g) len in
    let done = write_tcp_checksum both (34 + g) (14 + g) len in
    let outer : sum_words done 14 10 ≡ sum_words both 14 10 =
      sum_words-agree done both 14 10 (λ i l u. before i (omega arith)) in
    let inner : sum_words done (14 + g) 10 ≡ sum_words both (14 + g) 10 =
      sum_words-agree done both (14 + g) 10 (λ i l u. before i (omega arith)) in
    let good : verify_tcp_checksum done (34 + g) (14 + g) len ≡ true =
      verify-from_20 both (14 + g) len (34 + g) (omega arith) has.bytes low
        (word-lt m (g + 16) bytes) has.len in
    (ap fold outer ∙ has.outer, ap fold inner ∙ has.inner, good)
