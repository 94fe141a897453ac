-- ===== src/Checksum.antt =====
-- The checksums of `app_thread (1).c`: `verify_tcp_checksum` and `calculate_tcp_checksum`, over a
-- buffer that is addressed by bytes.
pub mod Fold
mod Sums
pub mod RoundTrip
mod Tests
use mathlib.Core.Logic.{dite}
use mathlib.Core.WellFounded.{Acc}
use xyz.Prelude.{
  ℕ, zero, suc, ◌+◌, ◌-◌, ◌*◌, ◌/◌, ◌%◌, ◌^◌, ◌<◌, ◌≡◌, Bool, true, false, ◌==◌, if◌then◌else◌,
  arith, dec_lt, lt_wf,
}
use xyz.Memory.{Memory, word, write, write_word}

fold_shrinks : (sum : ℕ) → 65535 < sum → sum % 65536 + sum / 65536 < sum
fold_shrinks sum h = omega arith

-- while (sum >> 16) sum = (sum & 0xFFFF) + (sum >> 16);
pub fold_loop : (sum : ℕ) → Acc ◌<◌ sum → ℕ
fold_loop sum (Acc.intro _ smaller) =
    dite (dec_lt 65535 sum)
      (λ more. fold_loop (sum % 65536 + sum / 65536) (smaller _ (fold_shrinks sum more))) (λ _. sum)

pub fold : ℕ → ℕ
unfolding fold_loop lt_wf dec_lt
fold sum = fold_loop sum (lt_wf.apply sum)

-- `~sum` as an `unsigned short`
pub complement : ℕ → ℕ
complement sum = 65535 - sum % 65536

-- The first n words from `base` on.
pub sum_words : Memory → ℕ → ℕ → ℕ
sum_words m base zero = 0
sum_words m base (suc n) = sum_words m base n + word m (base + 2 * n)

-- The segment of `len` bytes; an odd last byte is the upper half of a word.
pub sum_segment : Memory → ℕ → ℕ → ℕ
unfolding sum_words
sum_segment m base len =
    sum_words m base (len / 2) + (if len % 2 == 1 then m (base + len - 1) * 256 else 0)

-- Addresses and protocol; `ip` is the offset of the IP header.
pub pseudo_header : Memory → ℕ → ℕ
pseudo_header m ip =
    word m (ip + 12) + word m (ip + 14) + word m (ip + 16) + word m (ip + 18) + m (ip + 9)

abbrev pub ulong : ℕ → ℕ
ulong x = x % 2 ^ 64

-- `segment` and `ip` are the offsets of the TCP segment and of the IP header, `iplen` the argument.
-- The length less 20 is an `int`, added to an `unsigned long`.
pub tcp_sum : Memory → ℕ → ℕ → ℕ → ℕ
unfolding sum_segment pseudo_header
tcp_sum m segment ip iplen = ulong (
    sum_segment m segment ((iplen + 2 ^ 16 - 20) % 2 ^ 16)
    + pseudo_header m ip
    + word m (ip + 2)
    + 2 ^ 64
    - 20)

-- The result 1 or 0.
pub verify_tcp_checksum : Memory → ℕ → ℕ → ℕ → Bool
unfolding tcp_sum complement
verify_tcp_checksum m segment ip iplen = complement (fold (tcp_sum m segment ip iplen)) == 0

-- The GRE header behind an outer IP header: 24 bytes, and 4 for each of its options.
unfoldable pub gre_length : Memory → ℕ
gre_length m =
    if m 23 == 0x2f
    then 24
      + (if m 34 / 128 % 2 == 1 then 4 else 0)
      + (if m 34 / 32 % 2 == 1 then 4 else 0)
      + (if m 34 / 16 % 2 == 1 then 4 else 0)
    else 0

-- The nine words of an IP header at `ip`, without its checksum.
pub ip_sum : Memory → ℕ → ℕ
ip_sum m ip = sum_words m ip 5 + sum_words m (ip + 12) 4

pub write_ip_checksum : Memory → ℕ → Memory
unfolding ip_sum complement
write_ip_checksum m ip = write_word m (ip + 10) (complement (fold (ip_sum m ip)))

-- The checksum field is zero while the sum is taken.
pub write_tcp_checksum : Memory → ℕ → ℕ → ℕ → Memory
unfolding sum_segment pseudo_header complement
write_tcp_checksum m segment ip iplen =
    let cleared = write_word m (segment + 16) 0 in
    let sum = ulong (
      sum_segment cleared segment ((iplen + 2 ^ 16 - 20) % 2 ^ 16)
      + pseudo_header cleared ip
      + iplen
      + 2 ^ 64
      - 20) in
    write_word cleared (segment + 16) (complement (fold sum))

pub calculate_tcp_checksum : Memory → Memory
unfolding gre_length write_ip_checksum write_tcp_checksum
calculate_tcp_checksum m =
    let gre_len = gre_length m in
    let inner_iplen = word m (gre_len + 16) in
    let outer = write_ip_checksum m 14 in
    let both = if gre_len == 0 then outer else write_ip_checksum outer (14 + gre_len) in
    write_tcp_checksum both (34 + gre_len) (14 + gre_len) inner_iplen
