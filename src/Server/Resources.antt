-- ===== src/Server/Resources.antt =====
-- What `Server` gives back of the sockets and addresses that are made for its endpoints.
use nsvr.Prelude.{
  ℕ, ◌+◌, ◌≡◌, Bool, true, false, List, [], ◌∷◌, Bytes, is_some, arith, Bool-cases, Option-cases,
  inl, inr,
}
use nsvr.Prelude.Int.{ℤ}
use nsvr.Env.{
  Env, Call, Trace, g_socket_new, g_inet_socket_address_new, g_clear_object,
  g_io_stream_get_input_stream, g_input_stream_read,
}
use nsvr.Env.Monad.{Sys, when}
use nsvr.Env.Count.{one_if, count, count_answered}
use nsvr.Internal.System.{get_ip}
use nsvr.Internal.Buffer.{c_string}
use nsvr.Server.Endpoint
use nsvr.Server.Endpoint.{UdpEndpoint, Endpoints, construct, setup}
use nsvr.Server.Runs.{own_part, Event, comes, broadcasts, listens, stops, happens, happen}
use nsvr.Server.Sending.{IgnoresSends, broadcast_ignored}
use nsvr.Server.Delivery.{self-setup}
use nsvr.Server.{
  Server, is_listening, shutdown, listen, remember, broadcast_to_clients, incoming, destroy,
  destroy_endpoints, get_listen_port,
}

abbrev is_socket_new : Call → Bool
is_socket_new g_socket_new = true
is_socket_new _ = false

abbrev is_address_new : Call → Bool
is_address_new (g_inet_socket_address_new _ _) = true
is_address_new _ = false

abbrev is_clear : Call → Bool
is_clear (g_clear_object _) = true
is_clear _ = false

abbrev pub cleared : Trace → ℕ
cleared = count is_clear

-- The sockets and the addresses that an endpoint holds.
abbrev held_by : UdpEndpoint → ℕ
held_by e = one_if (is_some e.socket) + one_if (is_some e.address)

abbrev pub held : Endpoints → ℕ
held [] = 0
held ((_, e) ∷ rest) = held_by e + held rest

module _ (env : Env) where
  -- The sockets and the addresses that were made for endpoints.
  abbrev pub made : Trace → ℕ
  made t =
      count_answered is_socket_new (λ u. is_some (env.socket u)) t
      + count_answered is_address_new (λ u. is_some (env.socket_address u)) t

  -- What was made is what was given back and what is held.
  abbrev pub IsBalanced : Sys Server → Type 0
  IsBalanced s = made s.trace ≡ cleared s.trace + held s.self.endpoints

  made-IgnoresSends : IgnoresSends made
  made-IgnoresSends = record {
    asks_timeout = λ k t. omega arith;
    sets_timeout = λ k n t. omega arith;
    sends = λ k a m t. omega arith;
    frees = λ b t. omega arith;
    logs = λ t. omega arith;
  }

  cleared-IgnoresSends : IgnoresSends cleared
  cleared-IgnoresSends = record {
    asks_timeout = λ k t. omega arith;
    sets_timeout = λ k n t. omega arith;
    sends = λ k a m t. omega arith;
    frees = λ b t. omega arith;
    logs = λ t. omega arith;
  }

  broadcast-IsBalanced :
      (m : Bytes) (s : Sys Server) → IsBalanced s → IsBalanced (broadcast_to_clients env m s).1
  broadcast-IsBalanced m s b =
      let (made, same) = broadcast_ignored env made made-IgnoresSends m s in
      let (gone, _) = broadcast_ignored env cleared cleared-IgnoresSends m s in
      rw (made, gone, same) b

  setup_makes :
      (ip : Bytes) (port : ℤ) (s : Sys Server)
      → let (e, t) = setup env construct ip port s in
        (made t.trace ≡ made s.trace + held_by e) × (cleared t.trace ≡ cleared s.trace)
  unfolding setup
  setup_makes ip port s = ground arith

  remember-IsBalanced :
      (ip : Bytes) (s : Sys Server) → IsBalanced s → IsBalanced (remember env ip s).1
  unfolding remember get_listen_port
  remember-IsBalanced ip s b =
      ground (arith, setup_makes ip s.self.listen_port s, self-setup env ip s.self.listen_port s)

  -- The address of a sender, and the text of a message, are none of an endpoint's.
  get_ip_keeps :
      (s : Sys Server)
      → let t = (get_ip env s).1 in
        (made t.trace ≡ made s.trace) × (cleared t.trace ≡ cleared s.trace) × (t.self ≡ s.self)
  unfolding get_ip
  get_ip_keeps s = ground arith

  c_string_keeps :
      (n : ℕ) (bytes : Bytes) (s : Sys Server)
      → let t = (c_string n bytes s).1 in
        (made t.trace ≡ made s.trace) × (cleared t.trace ≡ cleared s.trace) × (t.self ≡ s.self)
  unfolding c_string
  c_string_keeps n bytes s = ground arith

  incoming-IsBalanced : (s : Sys Server) → IsBalanced s → IsBalanced (incoming env own_part s).1
  unfolding incoming
  incoming-IsBalanced s b =
      let s1 : Sys Server = record s {
        trace = g_input_stream_read ∷ g_io_stream_get_input_stream ∷ s.trace;
      } in
      let (ip, s2) = get_ip env s1 in
      let s3 = (remember env ip s2).1 in
      let known : IsBalanced s3 = remember-IsBalanced ip s2 (ground (arith, b, get_ip_keeps s1)) in
      elim (Bool-cases (env.input_stream (g_io_stream_get_input_stream ∷ s.trace))) [
        | inr closed ↦ rw closed (ground arith)
        | inl opened ↦ elim (Option-cases (env.stream_read s1.trace)) [
          | inl failed ↦ rw (opened, failed) (ground arith)
          | inr (bytes, read) ↦
              rw (opened, read) (ground (arith, known, c_string_keeps 16 bytes s3))
        ]
      ]

  listen-IsBalanced :
      (address : Bytes) (port : ℤ) (s : Sys Server)
      → IsBalanced s
      → IsBalanced (listen env address port s).1
  unfolding listen
  listen-IsBalanced address port s b = ground arith

  shutdown-IsBalanced : (s : Sys Server) → IsBalanced s → IsBalanced (shutdown env s).1
  unfolding shutdown
  shutdown-IsBalanced s b = ground arith

  happens-IsBalanced : (e : Event) (s : Sys Server) → IsBalanced s → IsBalanced (happens env e s)
  unfolding happens
  happens-IsBalanced comes s b = incoming-IsBalanced s b
  happens-IsBalanced (broadcasts m) s b = broadcast-IsBalanced m s b
  happens-IsBalanced (listens address port) s b = listen-IsBalanced address port s b
  happens-IsBalanced stops s b = shutdown-IsBalanced s b

  happen-IsBalanced :
      (es : List Event) (s : Sys Server) → IsBalanced s → IsBalanced (happen env es s)
  unfolding happen
  happen-IsBalanced [] s b = b
  happen-IsBalanced (e ∷ es) s b = happen-IsBalanced es (happens env e s) (happens-IsBalanced e s b)

  destroy_endpoints_clears :
      (es : Endpoints) (s : Sys Server)
      → let t = (destroy_endpoints env es s).1 in
        (made t.trace ≡ made s.trace) × (cleared t.trace ≡ cleared s.trace + held es)
  unfolding destroy_endpoints Endpoint.destroy
  destroy_endpoints_clears [] s = ground arith
  destroy_endpoints_clears ((ip, e) ∷ es) s =
      ground (arith, destroy_endpoints_clears es (Endpoint.destroy env e s).1)

  destroy_clears :
      (s : Sys Server) → IsBalanced s → let t = (destroy env s).1 in made t.trace ≡ cleared t.trace
  unfolding destroy
  destroy_clears s b =
      let (listening, t) = is_listening env s in
      let u = (when listening (shutdown env) t).1 in
      let stopped : IsBalanced u = unfold is_listening shutdown in ground (arith, b) in
      let cleared = destroy_endpoints_clears u.self.endpoints u in omega (arith, stopped, cleared)

  -- Over any sequence of connections, broadcasts, calls of listen and of shutdown, the sockets
  -- and addresses that were made for endpoints are as many as were given back and are held in the
  -- endpoints, if that was so before; and behind the destructor as many were given back as were
  -- made. onMessage is one that is only called.
  pub endpoints_given_back :
      (es : List Event) (s : Sys Server)
      → IsBalanced s
      → let t = happen env es s in
        let gone = (destroy env t).1 in IsBalanced t × (made gone.trace ≡ cleared gone.trace)
  endpoints_given_back es s b =
      let balanced = happen-IsBalanced es s b in
      (balanced, destroy_clears (happen env es s) balanced)
