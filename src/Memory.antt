-- ===== src/Memory.antt =====
-- A packet buffer that is addressed by bytes (`apptxbuf`, `apprxbuf`, `rxbuf` in `app_thread (1).c`):
-- the byte at each offset. Fields are read and written byte by byte, in network order.
use xyz.Prelude.{
  ℕ, ◌+◌, ◌-◌, ◌*◌, ◌/◌, ◌%◌, ◌^◌, ◌≤◌, ◌<◌, ◌≡◌, ◌≢◌, ◌⊎◌, refl, true, false, ◌==◌, ltb, ◌&&◌, leb,
  if◌then◌else◌, arith,
}

abbrev pub Memory : Type 0
Memory = ℕ → ℕ

abbrev pub IsBytes : Memory → Type 0
IsBytes m = (i : ℕ) → m i < 256

-- ((m[i] << 8) & 0xFF00) | m[i + 1]
unfoldable pub word : Memory → ℕ → ℕ
word m i = m i * 256 + m (i + 1)

unfoldable pub write : Memory → ℕ → ℕ → Memory
write m a v i = if i == a then v % 256 else m i

-- m[a] = v >> 8; m[a + 1] = v
unfoldable pub write_word : Memory → ℕ → ℕ → Memory
unfolding write
write_word m a v = write (write m a (v / 256)) (a + 1) v

-- memcpy of n bytes between two places that do not overlap, or the copy that `memmove` makes
unfoldable pub copy : Memory → ℕ → Memory → ℕ → ℕ → Memory
copy dst to src from n i = if leb to i && ltb i (to + n) then src (from + (i - to)) else dst i

pub write-other : (m : Memory) (a v i : ℕ) → i ≢ a → write m a v i ≡ m i
unfolding write
write-other m a v i h = ground arith

pub write_word-other : (m : Memory) (a v i : ℕ) → i ≢ a → i ≢ a + 1 → write_word m a v i ≡ m i
unfolding write_word write
write_word-other m a v i h k = ground arith

pub word-write_word : (m : Memory) (a v : ℕ) → v < 2 ^ 16 → word (write_word m a v) a ≡ v
unfolding word write_word write
word-write_word m a v h = ground arith

-- A field that does not overlap the written one.
pub word-write_word_other :
    (m : Memory) (a v b : ℕ) → b ≢ a → b + 1 ≢ a → b ≢ a + 1 → word (write_word m a v) b ≡ word m b
unfolding word write_word write
word-write_word_other m a v b h k l = ground arith

pub write_word-IsBytes : (m : Memory) (a v : ℕ) → IsBytes m → IsBytes (write_word m a v)
unfolding write_word write
write_word-IsBytes m a v h i = ground (arith, h i)

pub word-lt : (m : Memory) (a : ℕ) → IsBytes m → word m a < 2 ^ 16
unfolding word
word-lt m a h = omega (arith, h a, h (a + 1))

pub copy-inside :
    (dst src : Memory) (to from n i : ℕ) → i < n → copy dst to src from n (to + i) ≡ src (from + i)
unfolding copy
copy-inside dst src to from n i h =
    let e : to + i - to ≡ i = omega arith in
    let a : (leb to (to + i) && ltb (to + i) (to + n)) ≡ true = ground arith in rw (a, e) refl

pub copy-outside :
    (dst src : Memory) (to from n i : ℕ)
    → ((i < to) ⊎ (to + n ≤ i))
    → copy dst to src from n i ≡ dst i
unfolding copy
copy-outside dst src to from n i h =
    let a : (leb to i && ltb i (to + n)) ≡ false = ground arith in rw a refl

pub write-same : (m : Memory) (a v : ℕ) → write m a v a ≡ v % 256
unfolding write
write-same m a v = ground arith

pub write-IsBytes : (m : Memory) (a v : ℕ) → IsBytes m → IsBytes (write m a v)
unfolding write
write-IsBytes m a v h i = ground (arith, h i)

pub copy-IsBytes :
    (dst src : Memory) (to from n : ℕ)
    → IsBytes dst
    → IsBytes src
    → IsBytes (copy dst to src from n)
unfolding copy
copy-IsBytes dst src to from n h k i = ground (arith, h i, k (from + (i - to)))
