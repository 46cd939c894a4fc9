-- ===== src/Client.antt =====
-- `Client` of include/nsvr/nsvr_client.hpp and source/nsvr/nsvr_client.cpp.
pub mod Connection
pub mod Receiving
pub mod Resources
pub mod Events
use nsvr.Prelude.{
  is_some, ℕ, zero, suc, Bool, true, false, ◌&&◌, Option, none, some, List, [], ◌∷◌, Bytes,
  is_empty, not, if◌then◌else◌,
}
use nsvr.Prelude.Int.{ℤ, pos, negsuc}
use nsvr.Env.{
  Env, Handle, undefined, null_error_read, g_socket_new, g_socket_set_blocking,
  g_inet_address_new_any, g_inet_socket_address_new, g_socket_bind, g_main_context_new,
  g_socket_create_source, g_source_attach, g_source_unref, g_main_context_unref, g_clear_object,
  g_object_ref, g_object_unref, g_socket_receive, g_socket_client_new,
  g_socket_client_connect_to_host, g_io_stream_get_output_stream, g_output_stream_write,
  g_main_context_pending, g_main_context_iteration,
}
use nsvr.Env.Monad.{
  M, pure, done, ◌>>=◌, ◌>>◌, gets, modify, ask, also, call, log, log_error, for_some, when,
  loop_while, Part, in_part,
}
use nsvr.Internal.Scope.{inet_address, socket_client, socket_connection, bind_to_scope, free_error}
use nsvr.Internal.Buffer.{c_string}

pub record Client : Type 0 where
  pub server_address : Bytes
  pub receive_socket : Option Handle
  pub listen_address : Option Handle
  pub context : Option Handle
  pub source : Option Handle
  pub server_port : ℤ
  pub connected : Bool

abbrev pub construct : Client
construct = record {
  server_address = [];
  receive_socket = none;
  listen_address = none;
  context = none;
  source = none;
  server_port = pos 0;
  connected = false;
}

abbrev pub is_positive : ℤ → Bool
is_positive (pos zero) = false
is_positive (pos (suc _)) = true
is_positive (negsuc _) = false

module _ (env : Env) where
  unfoldable pub is_connected : M Client Bool
  is_connected = gets (λ c. c.connected)

  unfoldable pub disconnect : M Client (Unit {0})
  unfolding is_connected
  disconnect = do
    connected ← is_connected
    when connected (do
      c ← gets (λ c. c)
      for_some c.source (λ h. call (g_source_unref h))
      for_some c.context (λ h. call (g_main_context_unref h))
      for_some c.listen_address (λ h. call (g_clear_object h))
      for_some c.receive_socket (λ h. call (g_clear_object h))
      modify (λ c. record c {
        source = none;
        context = none;
        listen_address = none;
        receive_socket = none;
        connected = false;
      })
      log)

  -- `Client::~Client`
  unfoldable pub destroy : M Client (Unit {0})
  unfolding is_connected disconnect
  destroy = do connected ← is_connected; when connected disconnect

  -- The listen group is bound to a scope around these; the result also says whether the error is set.
  bind : Handle → Handle → M Client (Bool × Bool)
  bind socket address = do
    bound ← ask env.socket_bind (g_socket_bind socket address)
    if not bound then log >> pure (false, true) else do
      context ← ask env.main_context g_main_context_new
      source ← ask env.socket_source (g_socket_create_source socket)
      call (g_source_attach source)
      modify (λ c. record c { context = some context; source = some source; connected = true })
      pure (true, false)

  find_address : ℤ → Handle → Handle → M Client (Bool × Bool)
  unfolding bind
  find_address port socket group = do
    address ← ask env.socket_address (g_inet_socket_address_new (some group) port)
    modify (λ c. record c { listen_address = address })
    elim address [ none ↦ log >> pure (false, false) | some a ↦ bind socket a ]

  address_and_bind : ℤ → Handle → M Client Bool
  unfolding find_address
  address_and_bind port socket = do
    call (g_socket_set_blocking socket)
    group ← ask env.main_context g_inet_address_new_any
    (result, set) ← bind_to_scope (inet_address group) (find_address port socket group)
    free_error set
    pure result

  unfoldable pub connect : Bytes → ℤ → M Client Bool
  unfolding is_connected disconnect address_and_bind
  connect address port = do
    connected ← is_connected
    when connected disconnect
    modify (λ c. record c { server_address = address; server_port = port; connected = false })
    socket ← ask env.socket g_socket_new
    set ← also env.socket_error
    modify (λ c. record c { receive_socket = socket })
    elim socket [
      | none ↦ log_error set >> (free_error set >> pure false)
      | some k ↦ address_and_bind port k
    ]

  -- Whether the error is set by it.
  unfoldable pub write_out : Bytes → M Client Bool
  write_out message = do
    stream ← ask env.output_stream g_io_stream_get_output_stream
    if not stream then log >> pure false else do
      written ← ask env.stream_write (g_output_stream_write message)
      when (not written) log
      pure (not written)

  -- The connection to the host, once there is a socket client.
  unfoldable pub write_to_host : Bytes → Bytes → ℤ → M Client Bool
  unfolding write_out
  write_to_host message address port = do
    connection ← ask env.connect_to_host (g_socket_client_connect_to_host address port)
    elim connection [
      | none ↦ log >> pure true
      | some k ↦ bind_to_scope (socket_connection k) (write_out message)
    ]

  unfoldable pub send_to_server : Bytes → M Client (Unit {0})
  unfolding write_to_host
  send_to_server message = do
    c ← gets (λ c. c)
    when (not (is_empty c.server_address) && is_positive c.server_port) (do
      client ← ask env.socket_client g_socket_client_new
      elim client [
        | none ↦ log
        | some k ↦ do
          let write = write_to_host message c.server_address c.server_port
          set ← bind_to_scope (socket_client k) write
          free_error set
      ])

  unfoldable pub get_server_address : M Client Bytes
  get_server_address = gets (λ c. c.server_address)

  unfoldable pub get_server_port : M Client ℤ
  get_server_port = gets (λ c. c.server_port)

module _ {D : Type 0} (env : Env) (part : Part D Client) where
  unfoldable pub deliver : Bytes → M D (Unit {0})
  deliver bytes = do
    connected ← in_part part (is_connected env)
    if not connected then log else do message ← c_string 1024 bytes; part.on_message message

  -- What follows a receive: an error ends the connection; of a closed one the log line reads the
  -- message of an error that is not set.
  unfoldable pub handle_received : Option Bytes → M D (Unit {0})
  unfolding deliver
  handle_received none = log >> in_part part (disconnect env)
  handle_received (some []) = log_error false
  handle_received (some (b ∷ bytes)) = deliver (b ∷ bytes)

  -- The callback of the socket's source. `self` is the client, so it is not null.
  unfoldable pub incomming : Handle → M D (Unit {0})
  unfolding handle_received
  incomming socket = do
    call (g_object_ref socket)
    received ← ask env.receive (g_socket_receive socket)
    handle_received received
    free_error (not (is_some received))
    call (g_object_unref socket)

  unfoldable pub has_event : M D Bool
  has_event = do c ← gets part.get; ask env.context_pending (g_main_context_pending c.context)

  -- A round of the client's context runs its callback. Once the client has let go of its context, the
  -- loop goes on with the default one, whose callbacks are not the client's.
  unfoldable pub run_event : M D (Unit {0})
  unfolding incomming
  run_event = do
    c ← gets part.get
    mine ← ask env.dispatches (g_main_context_iteration c.context)
    when (mine && is_some c.context) (for_some c.receive_socket incomming)

  unfoldable pub iterate : M D (Unit {0})
  unfolding has_event run_event
  iterate = do c ← gets part.get; when c.connected (loop_while env.rounds has_event run_event)
