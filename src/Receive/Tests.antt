-- ===== src/Receive/Tests.antt =====
-- A packet of the peer, and a burst of three.
use xyz.Prelude.{
  ℕ, ◌≡◌, inl, refl, true, false, some, List, [], ◌∷◌, ◌++◌, take, drop, length, replicate, arith,
}
use xyz.Mbuf.Array.{Packet, packets}
use xyz.Tunnel.{ok, be16, ether_type_ipv4, tunnel_encap}
use xyz.Tunnel.RoundTrip.{tunnel_encap-frame}
use xyz.Receive.{Stats, enqueued, Tables, receive_packet}
use xyz.Receive.Uses.{Uses, receive_packet-Uses}
use xyz.Receive.WireIn.{receive_packet-tunnel_encap}
use xyz.Receive.Dequeue.{Completed, dequeue_loop, taken_from, ops_returned, dequeue_loop-ops}

abbrev cksum : List ℕ → ℕ × ℕ
cksum h = (length h, 7)

abbrev iv : List ℕ
iv = replicate 16 9

abbrev plain : Packet
plain = record {
  front = replicate 64 0;
  bytes = replicate 12 2 ++ (0x86 ∷ 0xdd ∷ 0x45 ∷ 0 ∷ 99 ∷ []);
  back = replicate 16 0;
}

-- A session for epoch 3; no packet is a fragment.
abbrev tables : Tables Packet
tables = record {
  has_session = λ e. true;
  epoch_cur = 4;
  reassemble = λ m. some m;
  fragment = λ m. m ∷ [];
  op_left = λ i. false;
}

abbrev stats : Stats
stats = record {
  drop_decap = 0;
  drop_bad_epoch = 0;
  pkts_decrypted = 0;
  pkts_encrypted = 0;
  cur_epoch = 0;
}

built : (m' : Packet) × (tunnel_encap packets cksum plain iv 3 ≡ ok m')
built =
    let (m', e, laid) =
      tunnel_encap-frame packets cksum plain iv 3 (omega arith) (omega arith) refl in
    (m', e)

receive_packet-tunnel_encap_example :
    (r2 : Packet) × (receive_packet packets tables 1 stats built.0 ≡ (
      record {
        drop_decap = 0;
        drop_bad_epoch = 0;
        pkts_decrypted = 1;
        pkts_encrypted = 0;
        cur_epoch = 3;
      },
      enqueued r2 (some iv) 3 ∷ [],
    ))
    × (r2.bytes ≡ (take 12 plain.bytes ++ be16 ether_type_ipv4) ++ drop 14 plain.bytes)
receive_packet-tunnel_encap_example =
    receive_packet-tunnel_encap packets cksum tables stats plain built.0 built.0 iv 3 (omega arith)
      (omega arith) refl built.1 refl (inl refl)

receive_packet-Uses_example : Uses true false (receive_packet packets tables 0 stats plain).1
receive_packet-Uses_example = receive_packet-Uses packets tables 0 stats plain

abbrev two_done : List (List (Completed ℕ))
two_done = (record { packet = 1; iv = iv } ∷ (record { packet = 2; iv = iv } ∷ [])) ∷ []

dequeue_loop-ops_example :
    ops_returned (dequeue_loop (λ m. some m) 0 true two_done)
    ≡ taken_from (λ m. some m) 0 true two_done
dequeue_loop-ops_example = dequeue_loop-ops (λ m. some m) 0 true two_done
