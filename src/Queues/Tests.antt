-- ===== src/Queues/Tests.antt =====
-- A buffer with 31 entries, and a device that takes three.
use xyz.Prelude.{
  ℕ, ◌+◌, ◌≡◌, List, ◌++◌, length, replicate, ltb, if◌then◌else◌, arith, Bool-cases, inl, inr,
}
use xyz.Queues.{Queue, uint64, drain_queue}
use xyz.Queues.Account.{IsQueue, Device, drain_queue-accounts}

abbrev queue : Queue ℕ
queue = record { len = 31; buffer = replicate 31 4; handed = 7; refused = 1 }

abbrev three : List ℕ → ℕ
three xs = if ltb 3 (length xs) then 3 else 0

three-Device : Device three
three-Device xs = elim (Bool-cases (ltb 3 (length xs))) [
  | inl h ↦ rw (h) (ground arith)
  | inr h ↦ rw (h) (omega arith)
]

queue-IsQueue : IsQueue queue
queue-IsQueue = record { room = omega arith; filled = omega arith }

drain_queue-accounts_example :
    let o = drain_queue three queue in
    IsQueue o.queue
    × (o.queue.len ≡ 0)
    × (o.accepted ++ o.freed ≡ replicate 31 4)
    × (o.queue.handed ≡ uint64 (7 + length o.accepted))
    × (o.queue.refused ≡ uint64 (1 + length o.freed))
drain_queue-accounts_example =
    drain_queue-accounts three queue three-Device queue-IsQueue (omega arith)
