-- ===== src/Server.antt =====
-- `Server` and `Server::UdpEndpoint` of include/nsvr/nsvr_server.hpp and
-- source/nsvr/nsvr_server.cpp. A `short` port is an integer.
pub mod Endpoint
pub mod Listening
pub mod Delivery
pub mod Events
pub mod Order
pub mod Sending
pub mod Runs
pub mod Resources
pub mod Lifetime
use nsvr.Prelude.{
  ℕ, zero, suc, Bool, true, false, Option, none, some, List, [], ◌∷◌, Bytes, not, is_some,
  if◌then◌else◌,
}
use nsvr.Prelude.Int.{ℤ, pos}
use nsvr.Env.{
  Env, Handle, g_inet_socket_address_new_from_string, g_socket_service_new,
  g_socket_listener_add_address, g_signal_connect, g_socket_service_start, g_socket_service_stop,
  g_socket_service_is_active, g_object_unref, g_io_stream_get_input_stream, g_input_stream_read,
  g_main_context_pending, g_main_context_iteration,
}
use nsvr.Env.Monad.{
  M, pure, done, ◌>>=◌, ◌>>◌, gets, modify, ask, call, log, for_some, when, loop_while, within,
  Part, in_part,
}
use nsvr.Internal.System.{get_ip}
use nsvr.Internal.Scope.{socket_address, bind_to_scope, free_error}
use nsvr.Internal.Buffer.{c_string}
use Endpoint.{Endpoints, UdpEndpoint, find, setup, send, insert}

pub record Server : Type 0 where
  pub endpoints : Endpoints
  pub listen_address : Bytes
  pub socket_service : Option Handle
  pub listen_port : ℤ

abbrev pub construct : Server
construct = record {
  endpoints = [];
  listen_address = [];
  socket_service = none;
  listen_port = pos 0;
}

module _ (env : Env) where
  unfoldable pub is_listening : M Server Bool
  is_listening = do
    service ← gets (λ s. s.socket_service)
    elim service [
      | none ↦ pure false
      | some h ↦ ask env.service_active (g_socket_service_is_active h)
    ]

  unfoldable pub shutdown : M Server (Unit {0})
  unfolding is_listening
  shutdown = do
    listening ← is_listening
    when listening (do
      service ← gets (λ s. s.socket_service)
      for_some service (λ h. call (g_socket_service_stop h))
      modify (λ s. record s { socket_service = none; listen_port = pos 0 }))

  destroy_endpoints : Endpoints → M Server (Unit {0})
  destroy_endpoints [] = done
  destroy_endpoints ((ip, e) ∷ rest) = do Endpoint.destroy env e; destroy_endpoints rest

  -- `Server::~Server`, and the destruction of the endpoints behind it
  unfoldable pub destroy : M Server (Unit {0})
  unfolding is_listening shutdown destroy_endpoints
  destroy = do
    listening ← is_listening
    when listening shutdown
    endpoints ← gets (λ s. s.endpoints)
    destroy_endpoints endpoints

  -- The address is bound to a scope around these; the result also says whether the error is set.
  serve : Handle → Handle → M Server (Bool × Bool)
  serve service address = do
    added ← ask env.listener_add (g_socket_listener_add_address service address)
    if not added then log >> pure (false, true) else do
      call (g_signal_connect service)
      call (g_socket_service_start service)
      pure (true, false)

  make_service : Handle → M Server (Bool × Bool)
  unfolding serve
  make_service address = do
    service ← ask env.socket_service g_socket_service_new
    modify (λ s. record s { socket_service = service })
    elim service [ none ↦ log >> pure (false, false) | some h ↦ serve h address ]

  unfoldable pub listen : Bytes → ℤ → M Server Bool
  unfolding is_listening shutdown make_service
  listen address port = do
    listening ← is_listening
    when listening shutdown
    modify (λ s. record s { listen_address = address; listen_port = port })
    inet_addr ← ask env.socket_address (g_inet_socket_address_new_from_string address port)
    elim inet_addr [
      | none ↦ log >> (free_error false >> pure false)
      | some a ↦ do
        (served, set) ← bind_to_scope (socket_address a) (make_service a)
        result ← if served then is_listening else pure false
        free_error set
        pure result
    ]

  unfoldable pub send_all : Bytes → Endpoints → M Server (Unit {0})
  send_all message [] = done
  send_all message ((ip, e) ∷ rest) = do send env e message 1; send_all message rest

  unfoldable pub broadcast_to_clients : Bytes → M Server (Unit {0})
  unfolding send_all
  broadcast_to_clients message = do endpoints ← gets (λ s. s.endpoints); send_all message endpoints

  unfoldable pub get_listen_port : M Server ℤ
  get_listen_port = gets (λ s. s.listen_port)

  unfoldable pub get_listen_address : M Server Bytes
  get_listen_address = gets (λ s. s.listen_address)

  -- A sender that is not known gets an endpoint on the port that is listened on now.
  unfoldable pub remember : Bytes → M Server (Unit {0})
  unfolding get_listen_port
  remember ip = do
    endpoints ← gets (λ s. s.endpoints)
    when (not (is_some (find ip endpoints))) (do
      port ← get_listen_port
      endpoint ← setup env Endpoint.construct ip port
      modify (λ s. record s { endpoints = insert ip endpoint s.endpoints }))

module _ {D : Type 0} (env : Env) (part : Part D Server) where
  -- The callback of a connection. `user_data` is the server, so it is not null.
  unfoldable pub incoming : M D (Unit {0})
  incoming = do
    stream ← ask env.input_stream g_io_stream_get_input_stream
    when stream (do
      received ← ask env.stream_read g_input_stream_read
      elim received [
        | none ↦ log >> free_error true
        | some bytes ↦ do
          ip ← get_ip env
          in_part part (remember env ip)
          message ← c_string 16 bytes
          part.on_message message
          free_error false
      ])

  unfoldable pub has_event : M D Bool
  has_event = ask env.context_pending (g_main_context_pending none)

  -- A round of the default main context, which may dispatch another callback than the server's.
  unfoldable pub run_event : M D (Unit {0})
  unfolding incoming
  run_event = do mine ← ask env.dispatches (g_main_context_iteration none); when mine incoming

  unfoldable pub iterate : M D (Unit {0})
  unfolding has_event run_event
  iterate = loop_while env.rounds has_event run_event
