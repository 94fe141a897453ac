-- ===== src/Bridge/Tests.antt =====
-- The control bridge on concrete buffers and devices.
use xyz.Prelude.{
  ℕ, ◌≤◌, ◌≡◌, refl, Bool, true, false, List, [], ◌∷◌, ◌++◌, none, some, length, replicate,
  if◌then◌else◌, ◌==◌, arith,
}
use xyz.Mbuf.Splice.{splice}
use xyz.Mbuf.Array.{Packet, packets}
use xyz.Tunnel.Wire.{frame}
use xyz.Bridge.{
  Bridge, Devices, freed, sent, vdev_name, cb_init, cb_is_ctrl_frame, cb_punt_to_kernel, stamp,
}
use xyz.Bridge.RoundTrip.{bridge_round_trip, tunnel_frame-data}

abbrev bridge : Bridge
bridge = record { ready = true; ctrl_pid = 2; wan_pid = 1 }

-- An ARP frame with four bytes of payload.
abbrev arp : Packet
arp = record {
  front = replicate 8 0;
  bytes = replicate 12 3 ++ (8 ∷ 6 ∷ 1 ∷ 2 ∷ 3 ∷ 4 ∷ []);
  back = [];
}

abbrev tagged : Packet
tagged = record {
  front = replicate 6 0;
  bytes = replicate 12 3 ++ (0x88 ∷ 0xb5 ∷ 8 ∷ 6 ∷ 1 ∷ 2 ∷ 3 ∷ 4 ∷ []);
  back = [];
}

stamp_runs : stamp packets arp ≡ some tagged
unfolding stamp splice
stamp_runs = refl

-- Two physical ports and the virtio-user port; setting up its transmit queue fails or not.
abbrev devices : Bool → Devices
devices tx = record {
  ports = 0 ∷ 1 ∷ 2 ∷ [];
  name = λ p. if p == 2 then some (b'n' ∷ vdev_name) else if p == 1 then none else some (b'x' ∷ []);
  configure = λ _. true;
  adjust_nb_desc = λ _. true;
  rx_queue_setup = λ _. true;
  tx_queue_setup = λ _. tx;
  dev_start = λ _. true;
}

cb_init_runs :
    (cb_init (devices true) 1 (record { ready = false; ctrl_pid = 0; wan_pid = 0 })
      ≡ (bridge, true))
    × (cb_init (devices false) 1 bridge ≡ (record bridge { ready = false }, false))
unfolding cb_init
cb_init_runs = (refl, refl)

bridge_round_trip_example :
    (cb_is_ctrl_frame packets tagged ≡ true)
    × ((k : Packet) × (cb_punt_to_kernel packets bridge (λ _. true) tagged
          ≡ (if true then sent 2 k else freed k))
        × (k.bytes ≡ arp.bytes))
bridge_round_trip_example =
    bridge_round_trip packets bridge (λ _. true) arp tagged tagged refl (omega arith) (omega arith)
      stamp_runs refl

tunnel_frame-data_example :
    cb_is_ctrl_frame packets (record {
      front = [];
      bytes = frame (replicate 12 1) 3 9 (7 ∷ 7 ∷ []) [] (1 ∷ []);
      back = [];
    })
    ≡ false
tunnel_frame-data_example =
    tunnel_frame-data packets _ (replicate 12 1) [] (1 ∷ []) (7 ∷ 7 ∷ []) 3 9 refl refl

-- The device takes at most one buffer.
abbrev one : List Packet → ℕ
one [] = 0
one (_ ∷ _) = 1

one-le : (q : List Packet) → one q ≤ length q
one-le [] = omega arith
one-le (_ ∷ q) = omega arith
