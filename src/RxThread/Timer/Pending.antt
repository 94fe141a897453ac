-- ===== src/RxThread/Timer/Pending.antt =====
-- The loop over the connections in `app_rx_thread`, which runs the timer of byte caching for each
-- connection of the LAN (`byte_caching_timer_check` of `module1.c`, in Chunker) and sends what then waits
-- to the proxied connection, or frees it.
pub mod Served
use mathlib.Core.List.{append-nil}
use xyz.Prelude.{
  ℕ, ◌+◌, ◌≡◌, ◌∙◌, refl, sym, ap, Bool, true, false, Option, some, none, List, [], ◌∷◌, ◌++◌, ◌==◌,
  get_elem?, if◌then◌else◌, Bool-cases, inl, inr, All,
}
use xyz.Chunker.{Engine, State, byte_caching_timer_check}
use xyz.Chunker.Inv.{IsChunker, Carries, contents, held, stream}
use xyz.Chunker.Timer.{Keeps, timer_check-Keeps}

-- A chain of packets is sent to a socket, or freed.
pub data Release (P : Type 0) : Type 0 where
  tcp_usr_send : (socket : ℕ) → List P → Release P
  m_freem : List P → Release P

-- A `struct tcpcb`; `index_proxy` is none where it is negative.
pub record Tcpcb (R P : Type 0) : Type 0 where
  pub lanif : ℕ
  pub index_proxy : Option ℕ
  pub sock : Option ℕ
  pub m1_state : State R P

-- TCP_lut[i]
pub record Slot (R P : Type 0) : Type 0 where
  pub is_stored : Bool
  pub tp : Option (Tcpcb R P)

module _ {R P : Type 0} where
  sock_of : Option (Tcpcb R P) → Option ℕ
  sock_of none = none
  sock_of (some tp) = tp.sock

  tp_of : Option (Slot R P) → Option (Tcpcb R P)
  tp_of none = none
  tp_of (some s) = s.tp

  -- `so2`, where the proxy has a `tp` and that a socket; a number outside of the table has none.
  pub proxy_sock : List (Slot R P) → Option ℕ → Option ℕ
  unfolding sock_of tp_of
  proxy_sock lut none = none
  proxy_sock lut (some i) = sock_of (tp_of (get_elem? lut i))

  pub with_state : Tcpcb R P → State R P → Tcpcb R P
  with_state c s = record {
    lanif = c.lanif;
    index_proxy = c.index_proxy;
    sock = c.sock;
    m1_state = s;
  }

  pub is_served : (lan_if_id : ℕ) → Option (Tcpcb R P) → Bool
  is_served lan none = false
  is_served lan (some c) = c.lanif == lan

  -- The two tests before the timer's check.
  pub on_lan : (lan_if_id : ℕ) → Slot R P → Bool
  unfolding is_served
  on_lan lan s = if s.is_stored then is_served lan s.tp else false

module _ {P : Type 0} where
  pub to_socket : List P → Option ℕ → Release P
  to_socket ps none = m_freem ps
  to_socket ps (some so) = tcp_usr_send so ps

  pub release_pending : Option ℕ → List P → List (Release P)
  unfolding to_socket
  release_pending so2 [] = []
  release_pending so2 (p ∷ ps) = to_socket (p ∷ ps) so2 ∷ []

module _ (e : Engine) where
  open e use {World, Rabin, Packet, chunk_size}

  -- A connection of the LAN: its own state is checked, in the world that the connections share.
  pub serve :
      World
      → Tcpcb Rabin Packet
      → (so2 : Option ℕ) → World × (Tcpcb Rabin Packet × List (Release Packet))
  unfolding with_state release_pending
  serve w c so2 =
      let r = byte_caching_timer_check e w c.m1_state in
      (r.0, (with_state c (record r.1 { tlv_pending = [] }), release_pending so2 r.1.tlv_pending))

  pub check_tp :
      (lan_if_id : ℕ)
      → List (Slot Rabin Packet)
      → World
      → Option (Tcpcb Rabin Packet)
      → World × (Option (Tcpcb Rabin Packet) × List (Release Packet))
  unfolding serve proxy_sock
  check_tp lan lut w none = (w, (none, []))
  check_tp lan lut w (some c) =
      let r = serve w c (proxy_sock lut c.index_proxy) in
      if c.lanif == lan then (r.0, (some r.1.0, r.1.1)) else (w, (some c, []))

  pub check_slot :
      (lan_if_id : ℕ)
      → List (Slot Rabin Packet)
      → World
      → Slot Rabin Packet
      → World × (Slot Rabin Packet × List (Release Packet))
  unfolding check_tp
  check_slot lan lut w s =
      let r = check_tp lan lut w s.tp in
      if s.is_stored
      then (r.0, (record { is_stored = s.is_stored; tp = r.1.0 }, r.1.1))
      else (w, (s, []))

  -- `lut` is the whole table: the loop leaves each `sock` as it is.
  unfoldable pub tlv_loop :
      (lan_if_id : ℕ)
      → List (Slot Rabin Packet)
      → World
      → List (Slot Rabin Packet)
      → World × (List (Slot Rabin Packet) × List (Release Packet))
  unfolding check_slot
  tlv_loop lan lut w [] = (w, ([], []))
  tlv_loop lan lut w (s ∷ slots) =
      let now = check_slot lan lut w s in
      let later = tlv_loop lan lut now.0 slots in
      (later.0, (now.1.0 ∷ later.1.0, now.1.1 ++ later.1.1))
