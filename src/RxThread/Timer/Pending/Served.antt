-- ===== src/RxThread/Timer/Pending/Served.antt =====
-- What the loop over the connections does to each of them.
use mathlib.Core.List.{append-nil}
use xyz.Prelude.{
  ℕ, ◌≡◌, ◌∙◌, refl, ap, Bool, true, false, Option, some, none, List, [], ◌∷◌, ◌++◌, ◌==◌,
  Bool-cases, inl, inr, All,
}
use xyz.Chunker.{Engine, byte_caching_timer_check}
use xyz.Chunker.Inv.{IsChunker, Carries, contents, held, stream}
use xyz.Chunker.Timer.{timer_check-Keeps}
use xyz.RxThread.Timer.Pending.{
  Release, tcp_usr_send, m_freem, Tcpcb, Slot, proxy_sock, with_state, is_served, on_lan, to_socket,
  release_pending, serve, check_tp, check_slot, tlv_loop,
}

module _ {P : Type 0} where
  pub chain : Release P → List P
  chain (tcp_usr_send so ps) = ps
  chain (m_freem ps) = ps

  -- The bytes that leave.
  pub leaving : (P → List ℕ) → List (Release P) → List ℕ
  unfolding chain
  leaving content [] = []
  leaving content (r ∷ rs) = contents content (chain r) ++ leaving content rs

  -- It is sent to this socket, or freed where there is none.
  pub GoesTo : Option ℕ → Release P → Type 0
  GoesTo so2 (tcp_usr_send so ps) = so2 ≡ some so
  GoesTo so2 (m_freem ps) = so2 ≡ none

  released_bytes :
      (content : P → List ℕ) (so2 : Option ℕ) (ps : List P)
      → leaving content (release_pending so2 ps) ≡ contents content ps
  unfolding leaving release_pending to_socket chain contents
  released_bytes content so2 [] = refl
  released_bytes content none (p ∷ ps) = append-nil (contents content (p ∷ ps))
  released_bytes content (some so) (p ∷ ps) = append-nil (contents content (p ∷ ps))

  released_to : (so2 : Option ℕ) (ps : List P) → All (GoesTo so2) (release_pending so2 ps)
  unfolding GoesTo release_pending to_socket
  released_to so2 [] = tt
  released_to none (p ∷ ps) = (refl, tt)
  released_to (some so) (p ∷ ps) = (refl, tt)

module _ (e : Engine) (content : e.Packet → List ℕ) where
  open e use {World, Rabin, Packet, chunk_size}

  -- A connection before and after, and what left it: the buffer's bytes stay or leave, behind those that
  -- waited in packets; no packet waits any more.
  pub record Served (so2 : Option ℕ) (c c' : Tcpcb Rabin Packet) (rs : List (Release Packet))
      : Type 0 where
    pub chunker : IsChunker chunk_size c'.m1_state
    pub emptied : c'.m1_state.tlv_pending ≡ []
    pub bytes : leaving content rs ++ held c'.m1_state.current ≡ stream content c.m1_state
    pub addressed : All (GoesTo so2) rs
    pub same_sock : c'.sock ≡ c.sock

  -- The table before and after: a slot that is no stored connection of the LAN stays as it is.
  pub data AllServed (lan_if_id : ℕ) (lut : List (Slot Rabin Packet))
      : List (Slot Rabin Packet) → List (Slot Rabin Packet) → List (Release Packet) → Type 0 where
    done : AllServed lan_if_id lut [] [] []
    other :
        (s : Slot Rabin Packet) (ss ss' : List (Slot Rabin Packet)) (rs : List (Release Packet))
        → on_lan lan_if_id s ≡ false
        → AllServed lan_if_id lut ss ss' rs
        → AllServed lan_if_id lut (s ∷ ss) (s ∷ ss') rs
    served :
        (c c' : Tcpcb Rabin Packet) (ss ss' : List (Slot Rabin Packet))
        (now rs : List (Release Packet))
        → (c.lanif == lan_if_id) ≡ true
        → Served (proxy_sock lut c.index_proxy) c c' now
        → AllServed lan_if_id lut ss ss' rs
        → AllServed lan_if_id lut
            (record { is_stored = true; tp = some c } ∷ ss)
            (record { is_stored = true; tp = some c' } ∷ ss')
            (now ++ rs)

  abbrev pub TpChunks : Option (Tcpcb Rabin Packet) → Type 0
  TpChunks none = Unit
  TpChunks (some c) = IsChunker chunk_size c.m1_state

  -- The connection of a slot has a well-formed state.
  abbrev pub Chunks : Slot Rabin Packet → Type 0
  Chunks s = TpChunks s.tp

  serve-Served :
      (w : World) (c : Tcpcb Rabin Packet) (so2 : Option ℕ)
      → Carries e content
      → IsChunker chunk_size c.m1_state
      → Served so2 c (serve e w c so2).1.0 (serve e w c so2).1.1
  unfolding serve with_state
  serve-Served w c so2 law v =
      let k = (timer_check-Keeps e content w c.m1_state v).0 in
      let s = (byte_caching_timer_check e w c.m1_state).1 in
      record {
        chunker = record {
          sound = record {
            fits = k.chunker.sound.fits;
            counted = k.chunker.sound.counted;
            timer = k.chunker.sound.timer;
          };
          armed = k.chunker.armed;
        };
        emptied = refl;
        bytes =
            ap (λ x. x ++ held s.current) (released_bytes content so2 s.tlv_pending) ∙ k.same law;
        addressed = released_to so2 s.tlv_pending;
        same_sock = refl;
      }

  slot_served :
      (lan : ℕ) (lut : List (Slot Rabin Packet)) (w : World) (stored : Bool)
      (tp : Option (Tcpcb Rabin Packet)) (ss ss' : List (Slot Rabin Packet))
      (rs : List (Release Packet))
      → Carries e content
      → TpChunks tp
      → AllServed lan lut ss ss' rs
      → let s : Slot Rabin Packet = record { is_stored = stored; tp = tp } in
        AllServed lan lut
          (s ∷ ss)
          ((check_slot e lan lut w s).1.0 ∷ ss')
          ((check_slot e lan lut w s).1.1 ++ rs)
  unfolding check_slot check_tp on_lan is_served
  slot_served lan lut w false tp ss ss' rs law v later = other _ ss ss' rs refl later
  slot_served lan lut w true none ss ss' rs law v later = other _ ss ss' rs refl later
  slot_served lan lut w true (some c) ss ss' rs law v later = elim (Bool-cases (c.lanif == lan)) [
    | inl on ↦
        rw on
          (served c _ ss ss' _ rs on (serve-Served w c (proxy_sock lut c.index_proxy) law v) later)
    | inr off ↦ rw off (other _ ss ss' rs off later)
  ]

  -- Where module 4 builds a packet of every chunk: for each stored connection of the LAN, by its own state
  -- and timer, the bytes of its packets and its buffer leave or stay in the buffer, in their order and
  -- none lost; no packet waits afterwards; what leaves goes to the socket of its proxy, or is freed
  -- where there is none; the state stays well-formed. The other slots stay as they are.
  pub tlv_loop-AllServed :
      (lan : ℕ) (lut : List (Slot Rabin Packet)) (w : World) (slots : List (Slot Rabin Packet))
      → Carries e content
      → All Chunks slots
      → AllServed lan lut slots (tlv_loop e lan lut w slots).1.0 (tlv_loop e lan lut w slots).1.1
  unfolding tlv_loop
  tlv_loop-AllServed lan lut w [] law all = done
  tlv_loop-AllServed lan lut w (s ∷ slots) law (v, all) =
      let now = check_slot e lan lut w s in
      let later = tlv_loop e lan lut now.0 slots in
      slot_served lan lut w s.is_stored s.tp slots later.1.0 later.1.1 law v
        (tlv_loop-AllServed lan lut now.0 slots law all)
