-- ===== src/Plc/RoundTrip.antt =====
-- The byte that the sender puts in is taken out by the receiver.
use xyz.Prelude.{ℕ, ◌+◌, ◌-◌, ◌%◌, ◌^◌, ◌≤◌, ◌<◌, ◌≡◌, ◌⊎◌}
use xyz.Memory.{Memory, IsBytes, word, write, copy}
use xyz.Plc.{Buffer, Move, tcphlen, bump_lengths}

-- The copy keeps its source's bytes when both places overlap.
abbrev pub Copies : Move → Type 0
Copies move = (m : Memory) (to from n i : ℕ) → move m to from n i ≡ copy m to m from n i

-- A frame whose two headers have fixed lengths; `gre` is the length of the tunnel's headers.
pub record IsFrame (b : Buffer) (gre : ℕ) : Type 0 where
  pub bytes_ok : IsBytes b.bytes
  pub tcp_ok : 20 ≤ tcphlen b.bytes (gre + 46)
  pub inner_len : word b.bytes (gre + 16) + (14 + gre) ≡ b.len
  pub payload_ok : gre + 34 + tcphlen b.bytes (gre + 46) < b.len
  pub room : b.len < 2 ^ 16

module _ (move : Move) (copies : Copies move) (b : Buffer) (gre : ℕ)
    (apart : (gre ≡ 0) ⊎ (24 ≤ gre)) (frame : IsFrame b gre) where
  abbrev spot : ℕ
  spot = gre + 34 + tcphlen b.bytes (gre + 46)

  abbrev size : ℕ
  size = (b.len + 2 ^ 32 - spot) % 2 ^ 32

  moved : Memory
  moved = write (move b.bytes (spot + 1) spot size) spot 0x56

  sent : Memory
  unfolding moved
  sent = bump_lengths 14 gre 1 moved

  module _ (rx : Memory) (rx_ok : IsBytes rx) where
    taken : Memory
    unfolding sent
    taken = copy (copy rx 0 sent 0 spot) spot sent (spot + 1) size

    back : Memory
    unfolding taken
    back = bump_lengths 14 gre (2 ^ 16 - 1) taken
