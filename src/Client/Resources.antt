-- ===== src/Client/Resources.antt =====
-- What `Client` of source/nsvr/nsvr_client.cpp gives back of the socket, the address, the context and
-- the source that a connect makes.
use nsvr.Prelude.{
  Option, ℕ, ◌+◌, ◌≡◌, refl, ap, sym, subst, ◌∙◌, Bool, true, false, ◌&&◌, none, some, List, [],
  ◌∷◌, Bytes, is_some, arith, if◌then◌else◌, Bool-cases, Option-cases, inl, inr,
}
use nsvr.Prelude.Int.{ℤ}
use nsvr.Env.{
  Env, Handle, Call, Trace, g_socket_new, g_inet_socket_address_new, g_clear_object, on_message,
  g_object_ref, g_socket_receive, nsvr_log,
}
use nsvr.Env.Monad.{Sys, Part, call, when}
use nsvr.Env.Count.{one_if, count, count_answered}
use nsvr.Internal.Buffer.{c_string}
use nsvr.Client.{
  Client, connect, disconnect, destroy, address_and_bind, incomming, handle_received, deliver,
  send_to_server, is_connected,
}

abbrev is_socket_new : Call → Bool
is_socket_new g_socket_new = true
is_socket_new _ = false

abbrev is_address_new : Call → Bool
is_address_new (g_inet_socket_address_new _ _) = true
is_address_new _ = false

abbrev is_clear : Call → Bool
is_clear (g_clear_object _) = true
is_clear _ = false

abbrev pub cleared : Trace → ℕ
cleared = count is_clear

-- The socket and the address that a client holds.
abbrev pub held : Client → ℕ
held c = one_if (is_some c.receive_socket) + one_if (is_some c.listen_address)

abbrev pub own_part : Part Client Client
own_part = record { get = λ c. c; put = λ c _. c; on_message = λ m. call (on_message m) }

-- What is asked of a client, and what comes to its socket.
pub data Event : Type 0 where
  connects : Bytes → ℤ → Event
  disconnects : Event
  sends : Bytes → Event
  comes : Handle → Event

module _ (env : Env) where
  abbrev pub made : Trace → ℕ
  made t =
      count_answered is_socket_new (λ u. is_some (env.socket u)) t
      + count_answered is_address_new (λ u. is_some (env.socket_address u)) t

  unfoldable pub happens : Event → Sys Client → Sys Client
  happens (connects address port) s = (connect env address port s).1
  happens disconnects s = (disconnect env s).1
  happens (sends m) s = (send_to_server env m s).1
  happens (comes socket) s = (incomming env own_part socket s).1

  unfoldable pub happen : List Event → Sys Client → Sys Client
  happen [] s = s
  happen (e ∷ es) s = happen es (happens e s)

  -- What a connect writes over of a connect that failed before: its socket, and its address once
  -- there is a new socket.
  abbrev lost_by : Event → Client → Client → ℕ
  lost_by (connects _ _) c d =
      if c.connected
      then 0
      else one_if (is_some c.receive_socket)
        + one_if (is_some d.receive_socket && is_some c.listen_address)
  lost_by _ _ _ = 0

  pub lost : List Event → Sys Client → ℕ
  lost [] s = 0
  lost (e ∷ es) s = lost_by e s.self (happens e s).self + lost es (happens e s)

  -- Between two states, where so many were lost.
  abbrev Accounts : ℕ → Sys Client → Sys Client → Type 0
  Accounts gone s t =
      made t.trace + cleared s.trace + held s.self
      ≡ made s.trace + cleared t.trace + held t.self + gone

  disconnect-Accounts : (s : Sys Client) → Accounts 0 s (disconnect env s).1
  unfolding disconnect
  disconnect-Accounts s = ground arith

  -- An address is made, and neither is given back.
  address_lem :
      (port : ℤ) (k : Handle) (s : Sys Client)
      → let t = (address_and_bind env port k s).1 in
        (made t.trace ≡ made s.trace + one_if (is_some t.self.listen_address))
        × (cleared t.trace ≡ cleared s.trace)
        × (t.self.receive_socket ≡ s.self.receive_socket)
  unfolding address_and_bind
  address_lem port k s = ground arith

  connect_off-Accounts :
      (address : Bytes) (port : ℤ) (s : Sys Client)
      → s.self.connected ≡ false
      → let t = (connect env address port s).1 in
        Accounts (lost_by (connects address port) s.self t.self) s t
  unfolding connect
  connect_off-Accounts address port s off =
      let c = record s.self { server_address = address; server_port = port; connected = false } in
      elim (Option-cases (env.socket (g_socket_new ∷ s.trace))) [
        | inl failed ↦ rw (off, failed) (ground arith)
        | inr (k, socket) ↦
            let s1 : Sys Client = record s {
              self = record c { receive_socket = some k };
              trace = g_socket_new ∷ s.trace;
            } in
            let (makes, clears, keeps) = address_lem port k s1 in
            rw (off, socket) (ground (arith, makes, clears, keeps))
      ]

  -- A connection is given up before the next.
  disconnected :
      (s : Sys Client) → s.self.connected ≡ true → let t = (disconnect env s).1 in held t.self ≡ 0
  unfolding disconnect
  disconnected s on = ground arith

  abbrev cut : Sys Client → Sys Client
  cut s = record s { self = record s.self { connected = false } }

  connect_lem :
      (address : Bytes) (port : ℤ) (s : Sys Client)
      → connect env address port s
        ≡ connect env address port (cut (when s.self.connected (disconnect env) s).1)
  unfolding connect is_connected
  connect_lem address port s = refl

  connect_on :
      (address : Bytes) (port : ℤ) (s : Sys Client)
      → s.self.connected ≡ true
      → connect env address port s ≡ connect env address port (cut (disconnect env s).1)
  connect_on address port s on =
      connect_lem address port s
      ∙ ap (λ (b : Bool). connect env address port (cut (when b (disconnect env) s).1)) on

  connect-Accounts :
      (address : Bytes) (port : ℤ) (s : Sys Client)
      → let t = (connect env address port s).1 in
        Accounts (lost_by (connects address port) s.self t.self) s t
  connect-Accounts address port s = elim (Bool-cases s.self.connected) [
    | inr off ↦ connect_off-Accounts address port s off
    | inl on ↦
        let d = (disconnect env s).1 in
        let none_held = disconnected s on in
        subst
          (λ (r : Bool × Sys Client).
            Accounts (lost_by (connects address port) s.self r.1.self) s r.1)
          (sym (connect_on address port s on))
          (ground (
            arith,
            disconnect-Accounts s,
            on,
            connect_off-Accounts address port (cut d) refl,
            none_held,
          ))
  ]

  send-Accounts : (m : Bytes) (s : Sys Client) → Accounts 0 s (send_to_server env m s).1
  unfolding send_to_server
  send-Accounts m s = ground arith

  c_string_keeps : (n : ℕ) (bytes : Bytes) (s : Sys Client) → Accounts 0 s (c_string n bytes s).1
  unfolding c_string
  c_string_keeps n bytes s = ground arith

  handle_received-Accounts :
      (received : Option Bytes) (s : Sys Client)
      → Accounts 0 s (handle_received env own_part received s).1
  unfolding handle_received deliver is_connected
  handle_received-Accounts none s =
      omega (arith, disconnect-Accounts (record s { trace = nsvr_log ∷ s.trace }))
  handle_received-Accounts (some []) s = ground arith
  handle_received-Accounts (some (b ∷ bytes)) s = elim (Bool-cases s.self.connected) [
    | inr off ↦ rw off (ground arith)
    | inl on ↦ rw on (ground (arith, c_string_keeps 1024 (b ∷ bytes) s))
  ]

  incomming-Accounts :
      (socket : Handle) (s : Sys Client) → Accounts 0 s (incomming env own_part socket s).1
  unfolding incomming
  incomming-Accounts socket s =
      let t : Sys Client = record s {
        trace = g_socket_receive socket ∷ g_object_ref socket ∷ s.trace;
      } in
      let handled = handle_received-Accounts (env.receive t.trace) t in ground (arith, handled)

  happens-Accounts :
      (e : Event) (s : Sys Client) → let t = happens e s in Accounts (lost_by e s.self t.self) s t
  unfolding happens
  happens-Accounts (connects address port) s = connect-Accounts address port s
  happens-Accounts disconnects s = disconnect-Accounts s
  happens-Accounts (sends m) s = send-Accounts m s
  happens-Accounts (comes socket) s = incomming-Accounts socket s

  happen-Accounts : (es : List Event) (s : Sys Client) → Accounts (lost es s) s (happen es s)
  unfolding happen lost
  happen-Accounts [] s = omega arith
  happen-Accounts (e ∷ es) s = omega (arith, happens-Accounts e s, happen-Accounts es (happens e s))

  destroy_clears :
      (s : Sys Client)
      → let t = (destroy env s).1 in
        (made t.trace ≡ made s.trace)
        × (cleared t.trace ≡ cleared s.trace + (if s.self.connected then held s.self else 0))
  unfolding destroy disconnect
  destroy_clears s = ground arith

  -- Over any sequence of calls of connect, disconnect and sendToServer and of messages to its
  -- socket, the sockets and addresses that a client made are as many as it gave back, holds, and
  -- lost, counted from the start; it loses exactly what a connect that failed left behind, at the
  -- next connect: the socket, and the address if a new socket can be made. The destructor makes
  -- none, and gives back what a connected client holds, and nothing of one that is not connected.
  -- onMessage is one that is only called.
  pub objects_accounted :
      (es : List Event) (s : Sys Client)
      → let t = happen es s in
        let gone = (destroy env t).1 in
        (made t.trace + cleared s.trace + held s.self
          ≡ made s.trace + cleared t.trace + held t.self + lost es s)
        × (made gone.trace ≡ made t.trace)
        × (cleared gone.trace ≡ cleared t.trace + (if t.self.connected then held t.self else 0))
  objects_accounted es s =
      let gone = destroy_clears (happen es s) in (happen-Accounts es s, gone.0, gone.1)
