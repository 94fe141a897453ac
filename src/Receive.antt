-- ===== src/Receive.antt =====
-- The receive part of `l2fwd_main_loop` in `main (1).c`: what happens to the packets of a burst, from
-- the allocation of their crypto operations to the enqueue. The tables of sessions and of fragments
-- are not in the repository: whether there is a session for an epoch, and what `tf_reassemble_rx` and
-- `tf_fragment_inner` answer, are arguments. A call that hands a buffer or an operation on is an
-- event, in the order of the code.
pub mod Uses
pub mod WireIn
pub mod Dequeue
mod Tests
use xyz.Prelude.{
  ℕ, zero, suc, ◌+◌, ◌%◌, ◌^◌, Bool, true, false, not, ◌==◌, ◌&&◌, if◌then◌else◌, Option, none,
  some, List, [], ◌∷◌, ◌++◌, length,
}
use xyz.Mbuf.{MbufApi}
use xyz.Tunnel.{Decapped, inner, rejected, Status, ok, fail, be16, tunnel_decap, take_iv, strip_iv}
use xyz.Bridge.{eq16, cb_is_ctrl_frame}

-- The statistics of key rotation that the loop counts.
pub record Stats : Type 0 where
  drop_decap : ℕ
  drop_bad_epoch : ℕ
  pkts_decrypted : ℕ
  pkts_encrypted : ℕ
  cur_epoch : ℕ

pub data Call (M : Type 0) : Type 0 where
  op_allocated : Call M
  op_freed : Call M
  freed : M → Call M
  sent : M → Call M
  punted : M → Call M
  enqueued : M → Option (List ℕ) → ℕ → Call M

abbrev pub count_64 : ℕ → ℕ
count_64 n = n % 2 ^ 64

-- `struct cs_port` of the device, and the answers about fragments: `reassemble` gives none while it
-- waits, `fragment` an empty list where it fails and has freed the packet; `op_left i` is whether an
-- operation for the fragment i can be had.
pub record Tables (M : Type 0) : Type 0 where
  has_session : ℕ → Bool
  epoch_cur : ℕ
  reassemble : M → Option M
  fragment : M → List M
  op_left : ℕ → Bool

module _ (api : MbufApi) where
  open api use {Mbuf, load}

  stripped : Status Mbuf → List ℕ → ℕ → List (Call Mbuf)
  stripped (fail m) iv epoch = freed m ∷ (op_freed ∷ [])
  stripped (ok m) iv epoch = enqueued m (some iv) epoch ∷ []

  -- The packet after the outer headers: the epoch's session, then the IV.
  decapped : Tables Mbuf → Stats → Mbuf → ℕ → Stats × List (Call Mbuf)
  unfolding take_iv strip_iv stripped
  decapped t s m epoch =
      if not (t.has_session epoch) && not (t.epoch_cur == epoch)
      then (
        record s { drop_bad_epoch = count_64 (s.drop_bad_epoch + 1); cur_epoch = epoch },
        freed m ∷ (op_freed ∷ []),
      )
      else (
        record s { pkts_decrypted = count_64 (s.pkts_decrypted + 1); cur_epoch = epoch },
        stripped (strip_iv api m) (take_iv api m) epoch,
      )

  -- A packet that is rejected is not freed.
  on_decap : Tables Mbuf → Stats → Decapped Mbuf → Stats × List (Call Mbuf)
  unfolding decapped
  on_decap t s (rejected m) = (record s { drop_decap = count_64 (s.drop_decap + 1) }, op_freed ∷ [])
  on_decap t s (inner m epoch) = decapped t s m epoch

  -- The WAN port.
  pub receive_wan : Tables Mbuf → Stats → Mbuf → Stats × List (Call Mbuf)
  unfolding tunnel_decap on_decap
  receive_wan t s m = on_decap t s (tunnel_decap api m)

  -- The fragments from number `suc i` on; each takes an operation of its own.
  enqueue_more : Tables Mbuf → ℕ → ℕ → List Mbuf → List (Call Mbuf)
  enqueue_more t epoch i [] = []
  enqueue_more t epoch i (f ∷ fs) =
      (if t.op_left i then op_allocated ∷ (enqueued f none epoch ∷ []) else freed f ∷ [])
      ++ enqueue_more t epoch (i + 1) fs

  enqueue_all : Tables Mbuf → Stats → List Mbuf → Stats × List (Call Mbuf)
  unfolding enqueue_more
  enqueue_all t s [] = (s, op_freed ∷ [])
  enqueue_all t s (f ∷ fs) = (
    record s {
      pkts_encrypted = count_64 (s.pkts_encrypted + length (f ∷ fs));
      cur_epoch = t.epoch_cur;
    },
    enqueued f none t.epoch_cur ∷ enqueue_more t t.epoch_cur 1 fs,
  )

  reassembled : Tables Mbuf → Stats → Option Mbuf → Stats × List (Call Mbuf)
  unfolding enqueue_all
  reassembled t s none = (s, op_freed ∷ [])
  reassembled t s (some m) = enqueue_all t s (t.fragment m)

  -- The LAN port.
  pub receive_lan : Tables Mbuf → Stats → Mbuf → Stats × List (Call Mbuf)
  unfolding reassembled
  receive_lan t s m = reassembled t s (t.reassemble m)

  pub is_arp : Mbuf → Bool
  is_arp m = eq16 (load m 12 2) (be16 0x0806)

  pub receive_packet : Tables Mbuf → ℕ → Stats → Mbuf → Stats × List (Call Mbuf)
  unfolding is_arp receive_wan receive_lan cb_is_ctrl_frame
  receive_packet t portid s m =
      if is_arp m
      then (s, op_freed ∷ (sent m ∷ []))
      else if (portid == 1) && cb_is_ctrl_frame api m
      then (s, op_freed ∷ (punted m ∷ []))
      else if portid == 1
      then receive_wan t s m
      else receive_lan t s m

  pub receive_all : Tables Mbuf → ℕ → Stats → List Mbuf → Stats × List (Call Mbuf)
  unfolding receive_packet
  receive_all t portid s [] = (s, [])
  receive_all t portid s (m ∷ ms) =
      let first = receive_packet t portid s m in
      let rest = receive_all t portid first.0 ms in (rest.0, first.1 ++ rest.1)

  free_all : List Mbuf → List (Call Mbuf)
  free_all [] = []
  free_all (m ∷ ms) = freed m ∷ free_all ms

  ops_for : List Mbuf → List (Call Mbuf)
  ops_for [] = []
  ops_for (m ∷ ms) = op_allocated ∷ ops_for ms

  -- `allocated` is whether the operations of the burst can be had at once.
  pub receive_burst : Tables Mbuf → ℕ → Bool → Stats → List Mbuf → Stats × List (Call Mbuf)
  unfolding receive_all free_all ops_for
  receive_burst t portid false s ms = (s, free_all ms)
  receive_burst t portid true s ms =
      let rest = receive_all t portid s ms in (rest.0, ops_for ms ++ rest.1)
