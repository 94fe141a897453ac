-- ===== src/Plc.antt =====
-- The byte that marks whether a TCP payload is compressed, in `app_thread (1).c`: `fillheaders_send`,
-- `check_tcp_compressible`, `check_tcp_decompressable` and `check_tcp_decompressable_ip`. Frames are
-- those of the global buffer `apptxbuf` with its length `apptxlen`. The compression device and the
-- settings INSERT_PLC_BYTE and ENABLE_PAYLOAD_COMP are arguments; so is the copy that makes room for
-- the byte, a `memcpy` between places that overlap.
mod Lengths
pub mod RoundTrip
mod Tests
use xyz.Prelude.{
  ℕ, ◌+◌, ◌-◌, ◌*◌, ◌/◌, ◌%◌, ◌^◌, ◌≡◌, ◌≢◌, Bool, true, false, not, ◌==◌, ◌&&◌, ltb, if◌then◌else◌,
  arith,
}
use xyz.Memory.{Memory, word, write, write_word, copy}
use xyz.Checksum.{gre_length}

pub record Buffer : Type 0 where
  bytes : Memory
  len : ℕ

-- The length of the TCP header whose offset byte stands at `i`; at most 60.
pub tcphlen : Memory → ℕ → ℕ
tcphlen m i = m i / 16 % 16 * 4

-- `by` is added to the length fields at `l3 + 2`, of the outer header too: 1, or 2 ^ 16 - 1 to
-- subtract 1. Both are read before one is written.
pub bump_lengths : ℕ → ℕ → ℕ → Memory → Memory
bump_lengths l3 gre_len by m =
    let outer = (word m (l3 + 2) + by) % 2 ^ 16 in
    let inner = (word m (gre_len + (l3 + 2)) + by) % 2 ^ 16 in
    let once = write_word m (l3 + 2) outer in
    if gre_len == 0 then once else write_word once (gre_len + (l3 + 2)) inner

-- `memcpy (m + to, m + from, n)` inside one buffer.
abbrev pub Move : Type 0
Move = Memory → (to from n : ℕ) → Memory

-- The frame that is sent. `failed` says that `comp_status` is negative.
pub fillheaders_send : Move → (insert failed : Bool) → Buffer → Buffer
unfolding gre_length tcphlen bump_lengths write
fillheaders_send move insert failed b =
    let gre_len = gre_length b.bytes in
    let at = gre_len + 34 + tcphlen b.bytes (gre_len + 46) in
    let payload_len = (b.len + 2 ^ 32 - at) % 2 ^ 32 in
    let moved = write (move b.bytes (at + 1) at payload_len) at 0x56 in
    if insert && failed
    then record { bytes = bump_lengths 14 gre_len 1 moved; len = b.len + 1 }
    else b

-- The device's result: whether it failed, and the frame that it leaves.
abbrev pub Compress : Type 0
Compress = Buffer → ℕ → Bool × Buffer

-- The length of the payload by the inner IP header, an `unsigned int`.
pub payload_len : Memory → ℕ → ℕ
unfolding tcphlen
payload_len m gre_len = (word m (gre_len + 16) + 2 ^ 33 - 20 - tcphlen m (gre_len + 46)) % 2 ^ 32

pub check_tcp_compressible :
    Move → Compress → (insert : Bool) → (lanif gre_len session_pl_enabled : ℕ) → Buffer → Buffer
unfolding fillheaders_send payload_len tcphlen
check_tcp_compressible move compress insert lanif gre_len session_pl_enabled b =
    let done = compress b (34 + gre_len + tcphlen b.bytes (gre_len + 46)) in
    if lanif == 0
    then b
    else if session_pl_enabled == 0
    then b
    else if payload_len b.bytes gre_len == 0
    then b
    else if done.0
    then fillheaders_send move insert true done.1
    else done.1

-- The device's status, as a byte, and the buffer `apptxbuf` that it leaves.
abbrev pub Decompress : Type 0
Decompress = Memory → ℕ → Buffer → ℕ × Buffer

-- The first byte of the payload at `at` is left out.
pub remove_byte : (l3 gre_len at payload : ℕ) → Memory → Buffer → Buffer
unfolding bump_lengths copy
remove_byte l3 gre_len at payload rxbuf b =
    let head = copy b.bytes 0 rxbuf 0 at in
    let both = copy head at rxbuf (at + 1) ((payload + 2 ^ 32 - 1) % 2 ^ 32) in
    record { bytes = bump_lengths l3 gre_len (2 ^ 16 - 1) both; len = b.len - 1 }

-- Whether the payload goes to the decompressor.
pub decomp_en : Bool → ℕ → Bool
decomp_en insert first = if insert then first == 0x65 else true

-- `decomp_status` is a `uint8_t`.
pub decompress : Decompress → Memory → ℕ → Buffer → ℕ × Buffer
decompress device rxbuf offset b =
    let done = device rxbuf offset b in
    let decomp_status = done.0 % 256 in (if ltb decomp_status 0 then 2 else 1, done.1)

-- The result and `apptxbuf`.
pub check_tcp_decompressable :
    Decompress → (insert enabled : Bool) → Memory → (lanif gre_len : ℕ) → Buffer → ℕ × Buffer
unfolding payload_len tcphlen decomp_en decompress remove_byte
check_tcp_decompressable device insert enabled rxbuf lanif gre_len b =
    let payload = payload_len rxbuf gre_len in
    let at = gre_len + 34 + tcphlen rxbuf (gre_len + 46) in
    let opened = decompress device rxbuf (at + 1) b in
    if lanif == 0
    then (0, b)
    else if not enabled
    then (0, b)
    else if payload == 0
    then (0, b)
    else if decomp_en insert (rxbuf at)
    then opened
    else (1, remove_byte 14 gre_len at payload rxbuf b)

-- The length field of this function has its bytes exchanged.
pub payload_len_ip : Memory → ℕ → ℕ
unfolding tcphlen
payload_len_ip m gre_len =
    (m (gre_len + 3) * 256 + m (gre_len + 2) + 2 ^ 33 - 20 - tcphlen m (gre_len + 32)) % 2 ^ 32

pub check_tcp_decompressable_ip :
    Decompress
    → (insert : Bool) → Memory
    → (lanif gre_len session_pl_enabled : ℕ) → Buffer
    → ℕ × Buffer
unfolding payload_len_ip tcphlen decomp_en decompress remove_byte
check_tcp_decompressable_ip device insert rxbuf lanif gre_len session_pl_enabled b =
    let payload = payload_len_ip rxbuf gre_len in
    let at = gre_len + 20 + tcphlen rxbuf (gre_len + 32) in
    let opened = decompress device rxbuf (at + 1) b in
    if lanif == 0
    then (0, b)
    else if session_pl_enabled == 0
    then (0, b)
    else if payload == 0
    then (0, b)
    else if decomp_en insert (rxbuf at)
    then opened
    else (1, remove_byte 0 gre_len at payload rxbuf b)

decompress-never_fails :
    (device : Decompress) (rxbuf : Memory) (offset : ℕ) (b : Buffer)
    → (decompress device rxbuf offset b).0 ≡ 1
unfolding decompress
decompress-never_fails device rxbuf offset b = ground arith

-- The result 2, a failed decompression, is never returned.
pub check_tcp_decompressable_not_2 :
    (device : Decompress) (insert enabled : Bool) (rxbuf : Memory) (lanif gre_len : ℕ) (b : Buffer)
    → (check_tcp_decompressable device insert enabled rxbuf lanif gre_len b).0 ≢ 2
unfolding check_tcp_decompressable
check_tcp_decompressable_not_2 device insert enabled rxbuf lanif gre_len b =
    let at = gre_len + 34 + tcphlen rxbuf (gre_len + 46) in
    ground (arith, decompress-never_fails device rxbuf (at + 1) b)
