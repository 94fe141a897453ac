-- ===== src/Queues.antt =====
-- The burst buffers of `main (1).c` in front of a crypto device (`l2fwd_crypto_enqueue`,
-- `l2fwd_crypto_send_burst`) and of a port (`l2fwd_send_packet`, `l2fwd_send_burst`), and the drain of
-- both. The two are the same code on other arrays and counters, so the operations are stated once,
-- for a crypto operation with its packet or for a packet. What the device takes is an argument.
pub mod Account
mod Tests
use xyz.Prelude.{
  ℕ, ◌+◌, ◌-◌, ◌%◌, ◌^◌, List, [], ◌∷◌, ◌++◌, length, take, drop, ◌==◌, ltb, if◌then◌else◌,
}

abbrev pub max_pkt_burst : ℕ
max_pkt_burst = 32

abbrev pub uint64 : ℕ → ℕ
uint64 x = x % 2 ^ 64

-- `struct op_buffer` or `struct pkt_buffer`, with the counters of its device: `handed` is `enqueued`
-- or `tx`, `refused` is `errors` or `dropped`.
pub record Queue (A : Type 0) : Type 0 where
  pub len : ℕ
  pub buffer : List A
  pub handed : ℕ
  pub refused : ℕ

-- What a step leaves: the queue, what the device has taken, and what was freed.
pub record Outcome (A : Type 0) : Type 0 where
  pub queue : Queue A
  pub accepted : List A
  pub freed : List A

-- The burst call gets the first n entries and says how many of them it takes.
pub send_burst : {A : Type 0} → (List A → ℕ) → Queue A → ℕ → Outcome A
send_burst device q n =
    let ret = device (take n q.buffer) in
    let counted : Queue _ = record q { handed = uint64 (q.handed + ret) } in
    record {
      queue =
          if ltb ret n
          then record counted { refused = uint64 (q.refused + (n - ret)) }
          else counted;
      accepted = take ret (take n q.buffer);
      freed = drop ret (take n q.buffer);
    }

pub add_entry : {A : Type 0} → Queue A → A → Queue A
add_entry q x = record q { buffer = take q.len q.buffer ++ (x ∷ []); len = q.len + 1 }

pub emptied : {A : Type 0} → Outcome A → Outcome A
emptied o = record o { queue = record o.queue { len = 0 } }

pub send_packet : {A : Type 0} → (List A → ℕ) → Queue A → A → Outcome A
unfolding send_burst add_entry emptied
send_packet device q x =
    if (add_entry q x).len == max_pkt_burst
    then emptied (send_burst device (add_entry q x) max_pkt_burst)
    else record { queue = add_entry q x; accepted = []; freed = [] }

pub drain_queue : {A : Type 0} → (List A → ℕ) → Queue A → Outcome A
unfolding send_burst emptied
drain_queue device q = emptied (send_burst device q q.len)

-- The twins for the crypto devices: an entry is a crypto operation with the packet that it carries,
-- and both are freed when the device does not take it.
abbrev pub l2fwd_crypto_send_burst : {A : Type 0} → (List A → ℕ) → Queue A → ℕ → Outcome A
l2fwd_crypto_send_burst = send_burst

abbrev pub l2fwd_crypto_enqueue : {A : Type 0} → (List A → ℕ) → Queue A → A → Outcome A
l2fwd_crypto_enqueue = send_packet
