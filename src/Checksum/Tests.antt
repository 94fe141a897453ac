-- ===== src/Checksum/Tests.antt =====
-- Checksums of a frame with a GRE tunnel that has a key.
use xyz.Prelude.{◌+◌, ◌*◌, ◌%◌, ◌≤◌, ◌≡◌, refl, true, arith}
use xyz.Memory.{Memory, IsBytes, word, write_word, write_word-IsBytes}
use xyz.Checksum.{fold, sum_words, gre_length, calculate_tcp_checksum, verify_tcp_checksum}
use xyz.Checksum.Fold.{ones_sum, fold-ones_sum}
use xyz.Checksum.RoundTrip.{verify-calculate_tcp_checksum}

pattern_bytes : Memory
pattern_bytes i = i * 7 % 256

pattern_bytes-IsBytes : IsBytes pattern_bytes
unfolding pattern_bytes
pattern_bytes-IsBytes i = omega arith

-- Protocol 47 at byte 23, the key bit at byte 34, an inner length of 53.
abbrev frame : Memory
unfolding pattern_bytes
frame = write_word (write_word (write_word pattern_bytes 22 0x402f) 34 0x2000) 44 53

frame-IsBytes : IsBytes frame
unfolding frame
frame-IsBytes =
    let first = write_word pattern_bytes 22 0x402f in
    write_word-IsBytes (write_word first 34 0x2000) 44 53 (
      write_word-IsBytes first 34 0x2000
        (write_word-IsBytes pattern_bytes 22 0x402f pattern_bytes-IsBytes))

frame_length : gre_length frame ≡ 28
unfolding gre_length write_word frame
frame_length = refl

frame_long : 38 ≤ word frame (gre_length frame + 16)
unfolding gre_length write_word word frame
frame_long = omega arith

fold-ones_sum_example : fold 1000000 ≡ ones_sum 1000000
fold-ones_sum_example = fold-ones_sum 1000000

verify-calculate_tcp_checksum_example :
    (fold (sum_words (calculate_tcp_checksum frame) 14 10) ≡ 65535)
    × (fold (sum_words (calculate_tcp_checksum frame) (14 + gre_length frame) 10) ≡ 65535)
    × (verify_tcp_checksum
          (calculate_tcp_checksum frame)
          (34 + gre_length frame)
          (14 + gre_length frame)
          (word frame (gre_length frame + 16))
        ≡ true)
verify-calculate_tcp_checksum_example = verify-calculate_tcp_checksum frame frame-IsBytes frame_long
