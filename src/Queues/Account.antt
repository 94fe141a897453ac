-- ===== src/Queues/Account.antt =====
-- Nothing that is put into a burst buffer is lost or doubled.
use mathlib.Core.List.{append-nil}
use xyz.Prelude.{
  ℕ, ◌+◌, ◌-◌, ◌^◌, ◌≤◌, ◌<◌, ◌≡◌, refl, sym, ap, ◌∙◌, List, [], ◌∷◌, ◌++◌, length, take, drop,
  length-append, length-take, length-drop, take_all, take-append-drop, ◌==◌, ltb, Bool-cases, inl,
  inr, arith,
}
use xyz.Queues.{
  Queue, Outcome, max_pkt_burst, uint64, send_burst, add_entry, emptied, send_packet, drain_queue,
}

module _ {A : Type 0} where
  -- The next write goes inside the array, and the entries are there.
  pub record IsQueue (q : Queue A) : Type 0 where
    pub room : q.len < max_pkt_burst
    pub filled : q.len ≤ length q.buffer

  -- Burst calls take no more than they are given.
  abbrev pub Device : (List A → ℕ) → Type 0
  Device device = (xs : List A) → device xs ≤ length xs

  -- Before the step `old` waits; after it, everything is taken, freed or waits, in its order.
  pub record Accounts (q : Queue A) (old : List A) (o : Outcome A) : Type 0 where
    pub split : o.accepted ++ (o.freed ++ take o.queue.len o.queue.buffer) ≡ old
    pub handed_count : o.queue.handed ≡ uint64 (q.handed + length o.accepted)
    pub refused_count : o.queue.refused ≡ uint64 (q.refused + length o.freed)

  send_burst-Accounts :
      (device : List A → ℕ) (q : Queue A) (n : ℕ)
      → Device device
      → n ≤ length q.buffer
      → q.refused < 2 ^ 64
      → Accounts q (take n q.buffer) (emptied (send_burst device q n))
  unfolding send_burst emptied
  send_burst-Accounts device q n law there small =
      let given : List A = take n q.buffer in
      let ret = device given in
      let size : length given ≡ n = omega (arith, length-take n q.buffer) in
      let fits : ret ≤ n = omega (arith, law given) in
      let taken : length (take ret given) ≡ ret = omega (arith, length-take ret given) in
      let left : length (drop ret given) ≡ n - ret = omega (arith, length-drop ret given) in
      let whole : take ret given ++ (drop ret given ++ []) ≡ given =
        ap (λ t. take ret given ++ t) (append-nil (drop ret given)) ∙ take-append-drop ret given in
      let handed : uint64 (q.handed + ret) ≡ uint64 (q.handed + length (take ret given)) =
        ap (λ k. uint64 (q.handed + k)) (sym taken) in
      elim (Bool-cases (ltb ret n)) [
        | inl h ↦ rw (h) (record {
          split = whole;
          handed_count = handed;
          refused_count = ap (λ k. uint64 (q.refused + k)) (sym left);
        })
        | inr h ↦
            let none_left : n - ret ≡ 0 = ground arith in
            let plain : q.refused ≡ uint64 (q.refused + length (drop ret given)) =
              omega (arith, left, none_left) in
            rw (h) (record { split = whole; handed_count = handed; refused_count = plain })
      ]

  length-add_entry :
      (q : Queue A) (x : A) → IsQueue q → length (take q.len q.buffer ++ (x ∷ [])) ≡ q.len + 1
  length-add_entry q x v =
      length-append (take q.len q.buffer) (x ∷ [])
      ∙ omega (arith, length-take q.len q.buffer, v.filled)

  take-add_entry :
      (q : Queue A) (x : A) (n : ℕ)
      → IsQueue q
      → q.len + 1 ≡ n
      → take n (take q.len q.buffer ++ (x ∷ [])) ≡ take q.len q.buffer ++ (x ∷ [])
  take-add_entry q x n v h =
      take_all n (take q.len q.buffer ++ (x ∷ [])) (omega (arith, length-add_entry q x v))

  full :
      (device : List A → ℕ) (q : Queue A) (x : A)
      → Device device
      → IsQueue q
      → q.refused < 2 ^ 64
      → q.len + 1 ≡ 32
      → Accounts q
          (take q.len q.buffer ++ (x ∷ []))
          (emptied (send_burst device (add_entry q x) 32))
  unfolding add_entry
  full device q x law v small h =
      let a =
        send_burst-Accounts device (add_entry q x) 32 law (omega (arith, length-add_entry q x v))
          small in
      record {
        split = a.split ∙ take-add_entry q x 32 v h;
        handed_count = a.handed_count;
        refused_count = a.refused_count;
      }

  emptied-IsQueue :
      (device : List A → ℕ) (q : Queue A) (n : ℕ) → IsQueue (emptied (send_burst device q n)).queue
  unfolding send_burst emptied
  emptied-IsQueue device q n = record { room = omega arith; filled = omega arith }

  -- After `l2fwd_send_packet` (or `l2fwd_crypto_enqueue`) the array has room for another entry. What
  -- the device has taken, what was freed, and what waits are together what waited before and the new
  -- entry, in this order; both counters have moved by what they count.
  pub send_packet-accounts :
      (device : List A → ℕ) (q : Queue A) (x : A)
      → Device device
      → IsQueue q
      → q.handed < 2 ^ 64
      → q.refused < 2 ^ 64
      → let o = send_packet device q x in
        IsQueue o.queue
        × (o.accepted ++ (o.freed ++ take o.queue.len o.queue.buffer)
            ≡ take q.len q.buffer ++ (x ∷ []))
        × (o.queue.handed ≡ uint64 (q.handed + length o.accepted))
        × (o.queue.refused ≡ uint64 (q.refused + length o.freed))
  unfolding send_packet add_entry
  send_packet-accounts device q x law v small_handed small = elim (Bool-cases (q.len + 1 == 32)) [
    | inl h ↦
        let a = full device q x law v small (ground arith) in
        rw (h) (emptied-IsQueue device (add_entry q x) 32, a.split, a.handed_count, a.refused_count)
    | inr h ↦ rw (h) (
      record { room = ground (arith, v.room); filled = omega (arith, length-add_entry q x v) },
      take-add_entry q x (q.len + 1) v refl,
      omega arith,
      omega arith,
    )
  ]

  -- The drain leaves an empty array, and what waited is taken or freed, in its order.
  pub drain_queue-accounts :
      (device : List A → ℕ) (q : Queue A)
      → Device device
      → IsQueue q
      → q.refused < 2 ^ 64
      → let o = drain_queue device q in
        IsQueue o.queue
        × (o.queue.len ≡ 0)
        × (o.accepted ++ o.freed ≡ take q.len q.buffer)
        × (o.queue.handed ≡ uint64 (q.handed + length o.accepted))
        × (o.queue.refused ≡ uint64 (q.refused + length o.freed))
  unfolding drain_queue emptied
  drain_queue-accounts device q law v small =
      let a = send_burst-Accounts device q q.len law v.filled small in
      let o = emptied (send_burst device q q.len) in
      (
        emptied-IsQueue device q q.len,
        refl,
        ap (λ t. o.accepted ++ t) (sym (append-nil o.freed)) ∙ a.split,
        a.handed_count,
        a.refused_count,
      )
