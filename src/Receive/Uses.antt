-- ===== src/Receive/Uses.antt =====
-- How the crypto operation of a received packet is used.
use xyz.Prelude.{
  ℕ, ◌+◌, ◌≡◌, refl, Bool, true, false, not, ◌==◌, ◌&&◌, Option, none, some, List, [], ◌∷◌,
  Bool-cases, inl, inr,
}
use xyz.Mbuf.{MbufApi}
use xyz.Tunnel.{Decapped, inner, rejected, Status, ok, fail, tunnel_decap, strip_iv, take_iv}
use xyz.Bridge.{cb_is_ctrl_frame}
use xyz.Receive.{
  Stats, Call, op_allocated, op_freed, freed, sent, punted, enqueued, Tables, stripped, decapped,
  on_decap, reassembled, receive_wan, enqueue_more, enqueue_all, receive_lan, is_arp,
  receive_packet,
}

-- `own` is whether the packet's operation can be used, `more` whether one can that was allocated for a
-- further fragment. An operation that is freed or enqueued cannot be used any more.
unfoldable pub Uses : {M : Type 0} → (own more : Bool) → List (Call M) → Type 0
Uses own more [] = (own ≡ false) × (more ≡ false)
Uses own more (op_allocated ∷ cs) = (more ≡ false) × Uses own true cs
Uses own more (op_freed ∷ cs) = (own ≡ true) × Uses false more cs
Uses own more (freed m ∷ cs) = Uses own more cs
Uses own more (sent m ∷ cs) = Uses own more cs
Uses own more (punted m ∷ cs) = Uses own more cs
Uses own true (enqueued m iv e ∷ cs) = Uses own false cs
Uses own false (enqueued m iv e ∷ cs) = (own ≡ true) × Uses false false cs

module _ (api : MbufApi) (t : Tables (api.Mbuf)) where
  open api use {Mbuf}

  stripped-Uses :
      (r : Status Mbuf) (iv : List ℕ) (epoch : ℕ) → Uses true false (stripped api r iv epoch)
  unfolding stripped Uses
  stripped-Uses (fail m) iv epoch = (refl, (refl, refl))
  stripped-Uses (ok m) iv epoch = (refl, (refl, refl))

  decapped-Uses : (s : Stats) (m : Mbuf) (epoch : ℕ) → Uses true false (decapped api t s m epoch).1
  unfolding decapped Uses
  decapped-Uses s m epoch =
      elim (Bool-cases (not (t.has_session epoch) && not (t.epoch_cur == epoch))) [
        | inl bad ↦ rw bad (refl, (refl, refl))
        | inr good ↦ rw good (stripped-Uses (strip_iv api m) (take_iv api m) epoch)
      ]

  on_decap-Uses : (s : Stats) (r : Decapped Mbuf) → Uses true false (on_decap api t s r).1
  unfolding on_decap Uses
  on_decap-Uses s (rejected m) = (refl, (refl, refl))
  on_decap-Uses s (inner m epoch) = decapped-Uses s m epoch

  enqueue_more-Uses :
      (epoch i : ℕ) (fs : List Mbuf) → Uses false false (enqueue_more api t epoch i fs)
  unfolding enqueue_more Uses
  enqueue_more-Uses epoch i [] = (refl, refl)
  enqueue_more-Uses epoch i (f ∷ fs) = elim (Bool-cases (t.op_left i)) [
    | inl left ↦ rw left (refl, enqueue_more-Uses epoch (i + 1) fs)
    | inr empty ↦ rw empty (enqueue_more-Uses epoch (i + 1) fs)
  ]

  reassembled-Uses : (s : Stats) (r : Option Mbuf) → Uses true false (reassembled api t s r).1
  unfolding reassembled enqueue_all Uses
  reassembled-Uses s none = (refl, (refl, refl))
  reassembled-Uses s (some m) = fragments-Uses (t.fragment m)
    where
      fragments-Uses : (fs : List Mbuf) → Uses true false (enqueue_all api t s fs).1
      fragments-Uses [] = (refl, (refl, refl))
      fragments-Uses (f ∷ fs) = (refl, enqueue_more-Uses t.epoch_cur 1 fs)

  -- The operation that was allocated for a packet is freed, or goes into one call of
  -- `l2fwd_simple_crypto_enqueue`, never both and never twice, whatever the packet is and whatever fails
  -- before; each further operation is taken only when it is needed and goes into the next such call. What
  -- the call does with it is not stated here: where it returns -1, the operation is lost.
  pub receive_packet-Uses :
      (portid : ℕ) (s : Stats) (m : Mbuf) → Uses true false (receive_packet api t portid s m).1
  unfolding receive_packet Uses receive_wan receive_lan
  receive_packet-Uses portid s m = elim (Bool-cases (is_arp api m)) [
    | inl arp ↦ rw arp (refl, (refl, refl))
    | inr other ↦ elim (Bool-cases ((portid == 1) && cb_is_ctrl_frame api m)) [
      | inl ctrl ↦ rw (other, ctrl) (refl, (refl, refl))
      | inr data_frame ↦ elim (Bool-cases (portid == 1)) [
        | inl wan ↦ rw (other, data_frame, wan) (on_decap-Uses s (tunnel_decap api m))
        | inr lan ↦ rw (other, data_frame, lan) (reassembled-Uses s (t.reassemble m))
      ]
    ]
  ]
