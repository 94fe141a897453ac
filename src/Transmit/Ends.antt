-- ===== src/Transmit/Ends.antt =====
-- The transmit thread does not wait for ever on a device that takes a buffer at least in each call.
use xyz.Prelude.{
  ℕ, suc, ◌+◌, ◌<◌, ◌≤◌, ◌≡◌, ◌∙◌, refl, sym, subst, Bool, true, false, ◌==◌, some, List, [], ◌∷◌,
  ◌++◌, length, take, drop, length-append, length-drop, All, Bool-cases, inl, inr, arith,
}
use xyz.Transmit.{
  Tx, is_empty, burst_loop, app_send_burst, add_packet, app_send_packets, drain_table, ◌>>=◌,
}
use xyz.Transmit.Order.{some_eq, burst_loop_ends, left_over}

module _ {M : Type 0} where
  -- A burst uses up one answer for each buffer at most.
  burst_rest :
      (takes : List ℕ) (mbufs wire : List M) (r : List M × List ℕ)
      → All (λ n. 0 < n) takes
      → 0 < length mbufs
      → burst_loop takes mbufs wire ≡ some r
      → All (λ n. 0 < n) r.1 × (length takes ≤ length r.1 + length mbufs)
  unfolding burst_loop
  burst_rest [] mbufs wire r pos busy h = absurd (ground arith)
  burst_rest (n ∷ takes) mbufs wire r pos busy h = elim (Bool-cases (is_empty (drop n mbufs))) [
    | inl all ↦
        let e : burst_loop (n ∷ takes) mbufs wire ≡ some (wire ++ take n mbufs, takes) =
          rw (all, burst_loop) refl in
        let same : (wire ++ take n mbufs, takes) ≡ r = some_eq _ r (sym e ∙ h) in
        subst (λ x. All (λ n. 0 < n) x.1 × (suc (length takes) ≤ length x.1 + length mbufs)) same
          (pos.1, omega (arith, busy))
    | inr left ↦
        let e : burst_loop (n ∷ takes) mbufs wire
            ≡ burst_loop takes (drop n mbufs) (wire ++ take n mbufs) =
          rw (left, burst_loop) refl in
        let (rest, size) =
          burst_rest takes (drop n mbufs) (wire ++ take n mbufs) r pos.1
            (left_over (drop n mbufs) left) (sym e ∙ h) in
        (rest, omega (arith, size, pos.0, length-drop n mbufs, left_over (drop n mbufs) left))
  ]

  -- Enough answers for the table, and for n packets more.
  abbrev pub Ready : Tx M → ℕ → Type 0
  Ready s n = All (λ n. 0 < n) s.takes × (length s.table + n ≤ length s.takes)

  app_send_burst_ends :
      (s : Tx M) (n : ℕ)
      → Ready s n
      → 0 < length s.table
      → (s' : Tx M) × (app_send_burst s ≡ some s') × Ready s' n × (s'.table ≡ [])
  unfolding app_send_burst ◌>>=◌
  app_send_burst_ends s n (pos, enough) busy =
      let (r, runs, order) =
        burst_loop_ends s.takes s.table s.wire pos (omega (arith, enough, busy))
          (omega (arith, enough)) in
      let (rest, size) = burst_rest s.takes s.table s.wire r pos busy runs in
      (
        record { table = []; wire = r.0; takes = r.1 },
        rw runs refl,
        (rest, omega (arith, size, enough)),
        refl,
      )

  add_packet_ends :
      (tx_burst : ℕ) (s : Tx M) (m : M) (n : ℕ)
      → Ready s (n + 1)
      → (s' : Tx M) × (add_packet tx_burst s m ≡ some s') × Ready s' n
  unfolding add_packet
  add_packet_ends tx_burst s m n (pos, enough) =
      let added : Tx M = record { table = s.table ++ (m ∷ []); wire = s.wire; takes = s.takes } in
      let long = length-append s.table (m ∷ []) in
      elim (Bool-cases (length added.table == tx_burst)) [
        | inl full ↦
            let (s', runs, ready, empty) =
              app_send_burst_ends added n (pos, omega (arith, enough, long))
                (omega (arith, long)) in
            (s', rw (full, add_packet) runs, ready)
        | inr free ↦ (added, rw (free, add_packet) refl, (pos, omega (arith, enough, long)))
      ]

  pub app_send_packets_ends :
      (tx_burst : ℕ) (s : Tx M) (ms : List M)
      → Ready s (length ms)
      → (s' : Tx M) × (app_send_packets tx_burst s ms ≡ some s') × Ready s' 0
  unfolding app_send_packets ◌>>=◌
  app_send_packets_ends tx_burst s [] ready = (s, refl, ready)
  app_send_packets_ends tx_burst s (m ∷ ms) (pos, enough) =
      let (s1, first, ready1) =
        add_packet_ends tx_burst s m (length ms) (pos, omega (arith, enough)) in
      let (s', rest, ready) = app_send_packets_ends tx_burst s1 ms ready1 in
      (s', rw first rest, ready)

  pub drain_table_ends :
      (b : Bool) (s : Tx M) → Ready s 0 → (s' : Tx M) × (drain_table b s ≡ some s')
  unfolding drain_table
  drain_table_ends false s ready = (s, refl)
  drain_table_ends true s ready = elim (Bool-cases (is_empty s.table)) [
    | inl empty ↦ (s, rw (empty, drain_table) refl)
    | inr busy ↦
        let (s', runs, rest, table) = app_send_burst_ends s 0 ready (left_over s.table busy) in
        (s', rw (busy, drain_table) runs)
  ]
