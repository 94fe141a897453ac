-- ===== src/Transmit/Order.antt =====
-- What is on the wire and what waits: nothing is lost, doubled or overtaken.
use mathlib.Core.List.{append_assoc}
use xyz.Prelude.{
  ℕ, ◌≤◌, ◌<◌, ◌≡◌, inl, inr, refl, sym, ap, ◌∙◌, Bool, true, false, ◌==◌, Option, none, some, List,
  [], ◌∷◌, ◌++◌, length, take, drop, take-append-drop, length-drop, length-append, All, Bool-cases,
  arith,
}
use xyz.Transmit.{
  Tx, is_empty, burst_loop, app_send_burst, add_packet, app_send_packets, drain_table,
  round_counter, is_some, packets_of, tx_round, ◌>>=◌,
}

pub bind_some :
    {A B : Type 0} (o : Option A) (f : A → Option B) (b : B)
    → (o >>= f) ≡ some b
    → (a : A) × (o ≡ some a) × (f a ≡ some b)
unfolding ◌>>=◌
bind_some none f b h = absurd (ground arith)
bind_some (some a) f b h = (a, refl, h)

pub some_eq : {A : Type 0} (a b : A) → some a ≡ some b → a ≡ b
some_eq a b e = cc

module _ {M : Type 0} where
  append_nil : (xs : List M) → xs ++ [] ≡ xs
  append_nil [] = refl
  append_nil (x ∷ xs) = ap (λ l. x ∷ l) (append_nil xs)

  is_empty_nil : (xs : List M) → is_empty xs ≡ true → xs ≡ []
  unfolding is_empty
  is_empty_nil [] h = refl
  is_empty_nil (x ∷ xs) h = absurd (ground arith)

  burst_order :
      (takes : List ℕ) (mbufs wire : List M) (r : List M × List ℕ)
      → burst_loop takes mbufs wire ≡ some r
      → r.0 ≡ wire ++ mbufs
  unfolding burst_loop
  burst_order [] mbufs wire r h = absurd (ground arith)
  burst_order (n ∷ takes) mbufs wire r h = elim (Bool-cases (is_empty (drop n mbufs))) [
    | inl all ↦
        let e : burst_loop (n ∷ takes) mbufs wire ≡ some (wire ++ take n mbufs, takes) =
          rw (all, burst_loop) refl in
        let whole : take n mbufs ≡ mbufs =
          sym (append_nil (take n mbufs))
          ∙ ap (λ l. take n mbufs ++ l) (sym (is_empty_nil (drop n mbufs) all))
          ∙ take-append-drop n mbufs in
        let same : (wire ++ take n mbufs, takes) ≡ r = some_eq _ r (sym e ∙ h) in
        sym (ap (λ p. p.0) same) ∙ ap (λ l. wire ++ l) whole
    | inr left ↦
        let e : burst_loop (n ∷ takes) mbufs wire
            ≡ burst_loop takes (drop n mbufs) (wire ++ take n mbufs) =
          rw (left, burst_loop) refl in
        burst_order takes (drop n mbufs) (wire ++ take n mbufs) r (sym e ∙ h)
        ∙ append_assoc wire (take n mbufs) (drop n mbufs)
        ∙ ap (λ l. wire ++ l) (take-append-drop n mbufs)
  ]

  pub left_over : (xs : List M) → is_empty xs ≡ false → 0 < length xs
  unfolding is_empty
  left_over [] h = absurd (ground arith)
  left_over (x ∷ xs) h = omega arith

  -- A device that takes a buffer at least in each call ends the loop, after as many calls as there are
  -- buffers.
  pub burst_loop_ends :
      (takes : List ℕ) (mbufs wire : List M)
      → All (λ n. 0 < n) takes
      → 0 < length takes
      → length mbufs ≤ length takes
      → (r : List M × List ℕ) × (burst_loop takes mbufs wire ≡ some r) × (r.0 ≡ wire ++ mbufs)
  unfolding burst_loop
  burst_loop_ends [] mbufs wire pos some_calls enough = absurd (omega arith)
  burst_loop_ends (n ∷ takes) mbufs wire pos some_calls enough =
      elim (Bool-cases (is_empty (drop n mbufs))) [
        | inl all ↦
            let e : burst_loop (n ∷ takes) mbufs wire ≡ some (wire ++ take n mbufs, takes) =
              rw (all, burst_loop) refl in
            ((wire ++ take n mbufs, takes), e, burst_order (n ∷ takes) mbufs wire _ e)
        | inr left ↦
            let e : burst_loop (n ∷ takes) mbufs wire
                ≡ burst_loop takes (drop n mbufs) (wire ++ take n mbufs) =
              rw (left, burst_loop) refl in
            let some_left = left_over (drop n mbufs) left in
            let (r, runs, same) =
              burst_loop_ends takes (drop n mbufs) (wire ++ take n mbufs) pos.1
                (omega (arith, pos.0, length-drop n mbufs, some_left))
                (omega (arith, pos.0, length-drop n mbufs)) in
            (r, e ∙ runs, burst_order (n ∷ takes) mbufs wire r (e ∙ runs))
      ]

module _ {M : Type 0} where
  -- What has been handed to the thread, in its order.
  abbrev pub accepted : Tx M → List M
  accepted s = s.wire ++ s.table

  app_send_burst_order :
      (s s' : Tx M) → app_send_burst s ≡ some s' → (accepted s' ≡ accepted s) × (s'.table ≡ [])
  unfolding app_send_burst
  app_send_burst_order s s' h =
      let (r, sent, done) = bind_some (burst_loop s.takes s.table s.wire) _ s' h in
      let same : record { table = []; wire = r.0; takes = r.1 } ≡ s' = some_eq _ s' done in
      (
        ap (λ x. x.wire ++ x.table) (sym same)
            ∙ append_nil r.0
            ∙ burst_order s.takes s.table s.wire r sent,
        ap (λ x. x.table) (sym same),
      )

  -- One packet more is accepted, and the table stays shorter than a burst.
  add_packet_order :
      (tx_burst : ℕ) (s s' : Tx M) (m : M)
      → length s.table < tx_burst
      → add_packet tx_burst s m ≡ some s'
      → (accepted s' ≡ accepted s ++ (m ∷ [])) × (length s'.table < tx_burst)
  unfolding add_packet
  add_packet_order tx_burst s s' m room h =
      let added : Tx M = record { table = s.table ++ (m ∷ []); wire = s.wire; takes = s.takes } in
      let long = length-append s.table (m ∷ []) in
      let front : accepted added ≡ accepted s ++ (m ∷ []) =
        sym (append_assoc s.wire s.table (m ∷ [])) in
      elim (Bool-cases (length added.table == tx_burst)) [
        | inl full ↦
            let e : add_packet tx_burst s m ≡ app_send_burst added = rw (full, add_packet) refl in
            let (same, empty) = app_send_burst_order added s' (sym e ∙ h) in
            (same ∙ front, omega (arith, ap length empty))
        | inr free ↦
            let e : add_packet tx_burst s m ≡ some added = rw (free, add_packet) refl in
            let same : added ≡ s' = some_eq added s' (sym e ∙ h) in
            let size : length added.table ≡ length s'.table = ap (λ x. length x.table) same in
            (ap (λ x. accepted x) (sym same) ∙ front, ground (arith, free))
      ]

  pub app_send_packets_order :
      (tx_burst : ℕ) (s s' : Tx M) (ms : List M)
      → length s.table < tx_burst
      → app_send_packets tx_burst s ms ≡ some s'
      → (accepted s' ≡ accepted s ++ ms) × (length s'.table < tx_burst)
  unfolding app_send_packets
  app_send_packets_order tx_burst s s' [] room h =
      let same : s ≡ s' = some_eq s s' h in
      (
        ap (λ x. accepted x) (sym same) ∙ sym (append_nil (accepted s)),
        omega (arith, ap (λ x. length x.table) same),
      )
  app_send_packets_order tx_burst s s' (m ∷ ms) room h =
      let (s1, first, rest) = bind_some (add_packet tx_burst s m) _ s' h in
      let (e, room') = add_packet_order tx_burst s s1 m room first in
      let (e', last) = app_send_packets_order tx_burst s1 s' ms room' rest in
      (e' ∙ ap (λ l. l ++ ms) e ∙ append_assoc (accepted s) (m ∷ []) ms, last)

  pub drain_table_order :
      (b : Bool) (s s' : Tx M) (tx_burst : ℕ)
      → length s.table < tx_burst
      → drain_table b s ≡ some s'
      → (accepted s' ≡ accepted s) × (length s'.table < tx_burst)
  unfolding drain_table
  drain_table_order false s s' tx_burst room h =
      let same : s ≡ s' = some_eq s s' h in
      (ap (λ x. accepted x) (sym same), omega (arith, ap (λ x. length x.table) same))
  drain_table_order true s s' tx_burst room h = elim (Bool-cases (is_empty s.table)) [
    | inl empty ↦
        let e : drain_table true s ≡ some s = rw (empty, drain_table) refl in
        let same : s ≡ s' = some_eq s s' (sym e ∙ h) in
        (ap (λ x. accepted x) (sym same), omega (arith, ap (λ x. length x.table) same))
    | inr some_left ↦
        let e : drain_table true s ≡ app_send_burst s = rw (some_left, drain_table) refl in
        let (same, empty) = app_send_burst_order s s' (sym e ∙ h) in
        (same, omega (arith, ap length empty))
  ]

  -- A round of the transmit thread accepts what the ring gives behind all that came before, in its
  -- order, and leaves less than a burst in the table.
  pub tx_round-accepted :
      (tx_burst drain_tsc counter counter' : ℕ) (dequeued : Option (List M)) (s s' : Tx M)
      → length s.table < tx_burst
      → tx_round tx_burst drain_tsc dequeued (counter, s) ≡ some (counter', s')
      → (accepted s' ≡ accepted s ++ packets_of dequeued) × (length s'.table < tx_burst)
  unfolding tx_round
  tx_round-accepted tx_burst drain_tsc counter counter' dequeued s s' room h =
      let (s1, sent, more) =
        bind_some (app_send_packets tx_burst s (packets_of dequeued)) _ (counter', s') h in
      let (s2, drained, done) =
        bind_some (drain_table (round_counter drain_tsc (is_some dequeued) counter).1 s1) _
          (counter', s') more in
      let same : s2 ≡ s' = ap (λ p. p.1) (some_eq _ (counter', s') done) in
      let (a, room1) = app_send_packets_order tx_burst s s1 (packets_of dequeued) room sent in
      let (b, room2) =
        drain_table_order (round_counter drain_tsc (is_some dequeued) counter).1 s1 s2 tx_burst
          room1 drained in
      (ap (λ x. accepted x) (sym same) ∙ b ∙ a, omega (arith, room2, ap (λ x. length x.table) same))
