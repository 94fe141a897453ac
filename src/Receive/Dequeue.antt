-- ===== src/Receive/Dequeue.antt =====
-- The dequeue part of `l2fwd_main_loop`: completed operations until the device gives less than a
-- whole burst. `tf_reassemble_decap` is an argument, and the call of `l2fwd_simple_forward` an event.
use xyz.Prelude.{
  ℕ, ◌+◌, ◌≡◌, refl, Bool, ◌==◌, ◌&&◌, if◌then◌else◌, Option, none, some, List, [], ◌∷◌, ◌++◌,
  length, Bool-cases, inl, inr, arith,
}

-- A completed operation: its packet, and the IV in its private area.
pub record Completed (M : Type 0) : Type 0 where
  pub packet : M
  pub iv : List ℕ

pub data Done (M : Type 0) : Type 0 where
  forwarded : M → Option (List ℕ) → Done M
  op_returned : Done M

module _ {M : Type 0} (reassemble : M → Option M) (portid : ℕ) (do_cipher : Bool) where
  deq_iv : Completed M → Option (List ℕ)
  deq_iv o = if (portid == 0) && do_cipher then some o.iv else none

  after_fragments : Completed M → Option M
  after_fragments o = if portid == 1 then reassemble o.packet else some o.packet

  forward_one : Option M → Option (List ℕ) → List (Done M)
  forward_one none iv = op_returned ∷ []
  forward_one (some m) iv = forwarded m iv ∷ (op_returned ∷ [])

  pub dequeue_one : Completed M → List (Done M)
  unfolding deq_iv after_fragments forward_one
  dequeue_one o = forward_one (after_fragments o) (deq_iv o)

  pub dequeue_burst : List (Completed M) → List (Done M)
  unfolding dequeue_one
  dequeue_burst [] = []
  dequeue_burst (o ∷ os) = dequeue_one o ++ dequeue_burst os

  -- What the device gives, one list for each call of rte_cryptodev_dequeue_burst; 32 is MAX_PKT_BURST.
  pub dequeue_loop : List (List (Completed M)) → List (Done M)
  unfolding dequeue_burst
  dequeue_loop [] = []
  dequeue_loop (burst ∷ later) =
      let rest = dequeue_loop later in
      dequeue_burst burst ++ (if length burst == 32 then rest else [])

  -- The operations that the loop takes from the device.
  pub taken_from : List (List (Completed M)) → ℕ
  taken_from [] = 0
  taken_from (burst ∷ later) =
      let rest = taken_from later in length burst + (if length burst == 32 then rest else 0)

pub ops_returned : {M : Type 0} → List (Done M) → ℕ
ops_returned [] = 0
ops_returned (forwarded m iv ∷ ds) = ops_returned ds
ops_returned (op_returned ∷ ds) = 1 + ops_returned ds

module _ {M : Type 0} where
  ops_returned-append :
      (a b : List (Done M)) → ops_returned (a ++ b) ≡ ops_returned a + ops_returned b
  unfolding ops_returned
  ops_returned-append [] b = omega arith
  ops_returned-append (forwarded m iv ∷ a) b = ops_returned-append a b
  ops_returned-append (op_returned ∷ a) b = rw (ops_returned-append a b) (omega arith)

module _ {M : Type 0} (reassemble : M → Option M) (portid : ℕ) (do_cipher : Bool) where
  forward_one_ops :
      (r : Option M) (iv : Option (List ℕ))
      → ops_returned (forward_one reassemble portid do_cipher r iv) ≡ 1
  unfolding forward_one ops_returned
  forward_one_ops none iv = refl
  forward_one_ops (some m) iv = refl

  dequeue_burst_ops :
      (os : List (Completed M))
      → ops_returned (dequeue_burst reassemble portid do_cipher os) ≡ length os
  unfolding dequeue_burst dequeue_one ops_returned
  dequeue_burst_ops [] = refl
  dequeue_burst_ops (o ∷ os) =
      let first = dequeue_one reassemble portid do_cipher o in
      let one : ops_returned first ≡ 1 =
        forward_one_ops (after_fragments reassemble portid do_cipher o)
          (deq_iv reassemble portid do_cipher o) in
      rw
        (
          ops_returned-append first (dequeue_burst reassemble portid do_cipher os),
          one,
          dequeue_burst_ops os,
        )
        (omega arith)

  -- Every operation that the loop takes from the device is given back to the pool, once.
  pub dequeue_loop-ops :
      (bursts : List (List (Completed M)))
      → ops_returned (dequeue_loop reassemble portid do_cipher bursts)
        ≡ taken_from reassemble portid do_cipher bursts
  unfolding dequeue_loop taken_from ops_returned
  dequeue_loop-ops [] = refl
  dequeue_loop-ops (burst ∷ later) = elim (Bool-cases (length burst == 32)) [
    | inl full ↦
        rw
          (
            full,
            ops_returned-append (dequeue_burst reassemble portid do_cipher burst)
                (dequeue_loop reassemble portid do_cipher later),
            dequeue_burst_ops burst,
            dequeue_loop-ops later,
          )
          refl
    | inr last ↦
        rw
          (
            last,
            ops_returned-append (dequeue_burst reassemble portid do_cipher burst) [],
            dequeue_burst_ops burst,
          )
          refl
  ]
