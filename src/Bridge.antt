-- ===== src/Bridge.antt =====
-- ctrl_bridge.c: frames of the key daemon between the kernel (a virtio-user port) and the WAN
-- port. On the wire they carry EtherType 0x88B5, and behind the Ethernet header the EtherType that
-- they had. The calls into the Ethernet devices are arguments.
pub mod RoundTrip
pub mod Burst
mod Tests
use xyz.Prelude.{
  ℕ, ◌+◌, Bool, true, false, not, ◌&&◌, List, [], ◌∷◌, ◌++◌, Option, none, some, length, take, drop,
  get_or, ◌==◌, ltb, if◌then◌else◌,
}
use xyz.Mbuf.{MbufApi}
use xyz.Tunnel.{be16, eth_len}

abbrev pub ctrl_ethertype : ℕ
ctrl_ethertype = 0x88b5

-- "virtio_user0"
abbrev pub vdev_name : List ℕ
vdev_name = b'v' ∷ b'i' ∷ b'r' ∷ b't' ∷ b'i' ∷ b'o' ∷ b'_' ∷ b'u' ∷ b's' ∷ b'e' ∷ b'r' ∷ b'0' ∷ []

-- The static variables of the file; the mbuf pool is only handed on.
pub record Bridge : Type 0 where
  pub ready : Bool
  pub ctrl_pid : ℕ
  pub wan_pid : ℕ

-- What the device calls of `cb_init` answer; `true` is a result that is not negative.
pub record Devices : Type 0 where
  pub ports : List ℕ
  -- `rte_eth_dev_info_get` and `rte_dev_name`: none when the call fails or the name is NULL
  pub name : ℕ → Option (List ℕ)
  pub configure : ℕ → Bool
  pub adjust_nb_desc : ℕ → Bool
  pub rx_queue_setup : ℕ → Bool
  pub tx_queue_setup : ℕ → Bool
  pub dev_start : ℕ → Bool

pub starts : List ℕ → List ℕ → Bool
starts [] s = true
starts (c ∷ p) [] = false
starts (c ∷ p) (d ∷ s) = c == d && starts p s

-- `strstr(nm, pattern) != NULL`
pub occurs : List ℕ → List ℕ → Bool
unfolding starts
occurs p [] = starts p []
occurs p (c ∷ s) = let rest = occurs p s in if starts p (c ∷ s) then true else rest

pub is_vdev : Devices → ℕ → Bool
unfolding occurs
is_vdev d pid = elim (d.name pid) [ none ↦ false | some nm ↦ occurs vdev_name nm ]

find_from : Devices → List ℕ → Option ℕ
unfolding is_vdev
find_from d [] = none
find_from d (pid ∷ rest) = let r = find_from d rest in if is_vdev d pid then some pid else r

pub cb_find_vdev_port : Devices → Option ℕ
unfolding find_from
cb_find_vdev_port d = find_from d d.ports

-- The new static variables, and whether the call returns 0.
pub cb_init : Devices → ℕ → Bridge → Bridge × Bool
unfolding cb_find_vdev_port
cb_init d wan_portid b =
    let off = record b { ready = false; wan_pid = wan_portid } in
    elim (cb_find_vdev_port d) [
      | none ↦ (off, false)
      | some pid ↦
          if not (d.configure pid)
          then (off, false)
          else if not (d.adjust_nb_desc pid)
          then (off, false)
          else if not (d.rx_queue_setup pid)
          then (off, false)
          else if not (d.tx_queue_setup pid)
          then (off, false)
          else if not (d.dev_start pid)
          then (off, false)
          else (record off { ready = true; ctrl_pid = pid }, true)
    ]

-- Two `uint16_t` in memory are equal.
abbrev pub eq16 : List ℕ → List ℕ → Bool
eq16 a b = get_or a 0 0 == get_or b 0 0 && get_or a 1 0 == get_or b 1 0

-- Where a buffer goes: back to its pool, or to the transmit queue of a port.
pub data Fate (M : Type 0) : Type 0 where
  freed : M → Fate M
  sent : ℕ → M → Fate M

-- What one call of `cb_pump_egress` does with the buffers that it receives.
pub record Pumped (M : Type 0) : Type 0 where
  pub returned : ℕ
  pub on_wire : List M
  pub dropped : List M

module _ (api : MbufApi) where
  open api use {Mbuf, bytes, adj, prepend, load, store}

  -- The two bytes of the EtherType, compared with the constant in network order.
  unfoldable pub cb_is_ctrl_frame : Mbuf → Bool
  cb_is_ctrl_frame m =
      if ltb (length (bytes m)) eth_len then false else eq16 (load m 12 2) (be16 ctrl_ethertype)

  -- `tx` is whether `rte_eth_tx_burst` takes the one buffer.
  pub cb_punt_to_kernel : Bridge → (tx : Mbuf → Bool) → Mbuf → Fate Mbuf
  cb_punt_to_kernel b tx m =
      if not b.ready
      then freed m
      else if ltb (length (bytes m)) (eth_len + 2)
      then freed m
      else (let orig_type = load m eth_len 2 in
          let eth_copy = take 12 (load m 0 eth_len) ++ orig_type in
          elim (adj m 2) [
            | none ↦ freed m
            | some m1 ↦
                let m2 = store m1 0 eth_copy in if tx m2 then sent b.ctrl_pid m2 else freed m2
          ])

  -- One buffer of the burst: none when it is freed.
  pub stamp : Mbuf → Option Mbuf
  stamp m =
      if ltb (length (bytes m)) eth_len
      then none
      else (let eth_copy = load m 0 eth_len in
          elim (prepend m 2) [
            | none ↦ none
            | some m1 ↦ some (
                store (store (store m1 0 eth_copy) eth_len (drop 12 eth_copy)) 12
                  (be16 ctrl_ethertype))
          ])

  -- One round of the loop: into the queue `txq`, or freed.
  pub enqueue : Option Mbuf → Mbuf → List Mbuf × List Mbuf → List Mbuf × List Mbuf
  enqueue none m (txq, gone) = (txq, m ∷ gone)
  enqueue (some m') m (txq, gone) = (m' ∷ txq, gone)

  pub stamp_all : List Mbuf → List Mbuf × List Mbuf
  unfolding stamp enqueue
  stamp_all [] = ([], [])
  stamp_all (m ∷ ms) = enqueue (stamp m) m (stamp_all ms)

  -- `bufs` is what `rte_eth_rx_burst` delivers, `tx txq` how many buffers `rte_eth_tx_burst` takes.
  pub cb_pump_egress : Bridge → (tx : List Mbuf → ℕ) → List Mbuf → Pumped Mbuf
  unfolding stamp_all
  cb_pump_egress b tx bufs =
      if not b.ready
      then record { returned = 0; on_wire = []; dropped = [] }
      else (let (txq, gone) = stamp_all bufs in
          if length txq == 0
          then record { returned = 0; on_wire = []; dropped = gone }
          else (let n = tx txq in
              record { returned = length txq; on_wire = take n txq; dropped = gone ++ drop n txq }))
