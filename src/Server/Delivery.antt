-- ===== src/Server/Delivery.antt =====
-- Which endpoints `incoming` makes, what it hands to `onMessage`, and what a broadcast sends.
use nsvr.Prelude.{
  false, List, ap, ◌∙◌, refl, Option, none, some, ℕ, ◌≡◌, refl, true, some, [], ◌∷◌, Bytes, Lacks,
  ltb, ◌≤◌, arith, is_some, length, if◌then◌else◌, Bool-cases, Option-cases, inl, inr,
}
use nsvr.Prelude.Int.{ℤ}
use nsvr.Env.{
  Trace, Handle, Env, Call, g_socket_send_to, g_io_stream_get_input_stream, g_input_stream_read,
  g_error_free, undefined, unterminated_read,
}
use nsvr.Env.Monad.{Sys, Part, in_part}
use nsvr.Env.Count.{push_some}
use nsvr.Internal.System.{get_ip}
use nsvr.Internal.Buffer.Laws.{c_string_of_Lacks}
use nsvr.Server.Endpoint.{UdpEndpoint, construct, Endpoints, bytes_eq, find, setup, send}
use nsvr.Server.{
  Server, listen, remember, send_all, broadcast_to_clients, incoming, get_listen_port,
}
use nsvr.Server.Listening.{listen_lem}

pub bytes_eq_refl : (s : Bytes) → bytes_eq s s ≡ true
unfolding bytes_eq
bytes_eq_refl [] = refl
bytes_eq_refl (c ∷ s) = ground (arith, bytes_eq_refl s)

pub bytes_eq_sound : (s t : Bytes) → bytes_eq s t ≡ true → s ≡ t
unfolding bytes_eq
bytes_eq_sound [] [] h = refl
bytes_eq_sound [] (_ ∷ _) h = cc
bytes_eq_sound (_ ∷ _) [] h = cc
bytes_eq_sound (a ∷ s) (b ∷ t) h = ground (arith, bytes_eq_sound s t)

-- Where a call sends this message: the socket and the address.
abbrev pub destination : Bytes → Call → Option (Handle × Handle)
destination message (g_socket_send_to socket address m) =
    if bytes_eq m message then some (socket, address) else none
destination message _ = none

-- Where this message was sent, newest first.
abbrev pub sends_of : Bytes → Trace → List (Handle × Handle)
sends_of message [] = []
sends_of message (c ∷ t) = push_some (destination message c) (sends_of message t)

abbrev pub both : {A B : Type 0} → Option A → Option B → Option (A × B)
both none _ = none
both (some a) none = none
both (some a) (some b) = some (a, b)

-- The socket and the address of an endpoint that was set up.
abbrev pub ends : UdpEndpoint → Option (Handle × Handle)
ends e = both e.socket e.address

-- A list of destinations, with those of the endpoints that were set up put before it one by one.
abbrev pub ready_then : Endpoints → List (Handle × Handle) → List (Handle × Handle)
ready_then [] before = before
ready_then ((_, e) ∷ rest) before = ready_then rest (push_some (ends e) before)

module _ (env : Env) where
  pub self-setup :
      (ip : Bytes) (port : ℤ) (s : Sys Server) → (setup env construct ip port s).1.self ≡ s.self
  unfolding setup
  self-setup ip port s = ground arith

  pub remember_known :
      (ip : Bytes) (s : Sys Server) {e : UdpEndpoint}
      → find ip s.self.endpoints ≡ some e
      → (remember env ip s).1 ≡ s
  unfolding remember
  remember_known ip s h = ground arith

  -- After a message from an address there is an endpoint for it, whether or not its sockets can
  -- be made, and the endpoint of every other address is the one it was before.
  pub find-remember :
      (ip j : Bytes) (s : Sys Server)
      → let t = (remember env ip s).1 in
        (is_some (find ip t.self.endpoints) ≡ true)
        × (find j t.self.endpoints
            ≡ (if bytes_eq ip j then find ip t.self.endpoints else find j s.self.endpoints))
  find-remember ip j s =
      let (e, t) = setup env construct ip s.self.listen_port s in
      elim (Option-cases (find ip s.self.endpoints)) [
        | inr (old, known) ↦
            let kept : (remember env ip s).1 ≡ s = remember_known ip s known in
            rw (kept, known)
              (
                refl,
                elim (Bool-cases (bytes_eq ip j)) [
                  | inl same ↦ rw (same, ← bytes_eq_sound ip j same) known
                  | inr other ↦ rw other
                ],
              )
        | inl new ↦
            unfold remember get_listen_port find in
            ground (arith, bytes_eq_refl ip, self-setup ip s.self.listen_port s)
      ]

  -- A known sender keeps its endpoint when the server listens anew on any port: a further message
  -- from it sets nothing up, although the server's port is the new one.
  endpoint_keeps_port :
      (ip address : Bytes) (port : ℤ) (s : Sys Server) {e : UdpEndpoint}
      → find ip s.self.endpoints ≡ some e
      → let t = (listen env address port s).1 in
        ((remember env ip t).1 ≡ t)
        × (find ip t.self.endpoints ≡ some e)
        × (t.self.listen_port ≡ port)
  endpoint_keeps_port ip address port s {e} h =
      let t = (listen env address port s).1 in
      let l = listen_lem env address port s in
      let known : find ip t.self.endpoints ≡ some e = rw l.2 h in
      (remember_known ip t known, known, l.1)

  sends_of-send :
      (e : UdpEndpoint) (message : Bytes) (n : ℕ) (s : Sys Server)
      → let t = (send env e message n s).1 in
        (sends_of message t.trace ≡ push_some (ends e) (sends_of message s.trace))
        × (t.self ≡ s.self)
  unfolding send
  sends_of-send e message n s = ground (arith, bytes_eq_refl message)

  sends_of-send_all :
      (message : Bytes) (es : Endpoints) (s : Sys Server)
      → sends_of message (send_all env message es s).1.trace
        ≡ ready_then es (sends_of message s.trace)
  unfolding send_all
  sends_of-send_all message [] s = refl
  sends_of-send_all message ((ip, e) ∷ es) s =
      sends_of-send_all message es (send env e message 1 s).1
      ∙ ap (ready_then es) (sends_of-send e message 1 s).0

  -- A broadcast sends the message exactly once through the socket and to the address of each
  -- endpoint that was set up, in the order of the list, and nowhere else.
  pub broadcast_reaches :
      (message : Bytes) (s : Sys Server)
      → sends_of message (broadcast_to_clients env message s).1.trace
        ≡ ready_then s.self.endpoints (sends_of message s.trace)
  unfolding broadcast_to_clients
  broadcast_reaches message s = sends_of-send_all message s.self.endpoints s

  -- A read of at most 16 bytes without a zero byte is handed to onMessage as it came, behind the
  -- endpoint of its sender; if it fills the 16-byte buffer the buffer has no end mark, and the
  -- message is read beyond it.
  pub incoming_delivers :
      {D : Type 0} (part : Part D Server) (bytes : Bytes) (s : Sys D)
      → let t1 = g_io_stream_get_input_stream ∷ s.trace in
        let t2 = g_input_stream_read ∷ t1 in
        env.input_stream t1 ≡ true
        → env.stream_read t2 ≡ some bytes
        → Lacks 0 bytes
        → length bytes ≤ 16
        → let (ip, u) = get_ip env (record s { trace = t2 }) in
          let v = (in_part part (remember env ip) u).1 in
          let marked =
            if ltb (length bytes) 16 then v.trace else undefined unterminated_read ∷ v.trace in
          let w = (part.on_message bytes (record v { trace = marked })).1 in
          (incoming env part s).1 ≡ record w { trace = g_error_free false ∷ w.trace }
  unfolding incoming
  incoming_delivers part bytes s e1 e2 h l =
      let (ip, u) =
        get_ip env
          (record s { trace = g_input_stream_read ∷ g_io_stream_get_input_stream ∷ s.trace }) in
      let v = (in_part part (remember env ip) u).1 in
      rw (e1, e2, c_string_of_Lacks 16 bytes v h l) (ground arith)
