-- ===== src/Server/Endpoint.antt =====
-- `Server::UdpEndpoint`, and the map from addresses to endpoints. The program never depends on the
-- order of the map, which is that of insertion here.
use nsvr.Prelude.{
  ℕ, Bool, true, false, ◌&&◌, Option, none, some, List, [], ◌∷◌, Bytes, not, ◌==◌, if◌then◌else◌,
}
use nsvr.Prelude.Int.{ℤ}
use nsvr.Env.{
  Env, Handle, g_inet_address_new_from_string, g_inet_socket_address_new, g_socket_new,
  g_socket_set_blocking, g_socket_get_timeout, g_socket_set_timeout, g_socket_send_to,
  g_clear_object,
}
use nsvr.Internal.Scope.{inet_address, bind_to_scope, free_error}
use nsvr.Env.Monad.{M, pure, ◌>>=◌, ◌>>◌, ask, also, call, log, log_error, for_some, when}

pub record UdpEndpoint : Type 0 where
  pub socket : Option Handle
  pub address : Option Handle

-- `UdpEndpoint::UdpEndpoint`
abbrev pub construct : UdpEndpoint
construct = record { socket = none; address = none }

abbrev pub Endpoints : Type 0
Endpoints = List (Bytes × UdpEndpoint)

unfoldable pub bytes_eq : Bytes → Bytes → Bool
bytes_eq [] [] = true
bytes_eq [] (_ ∷ _) = false
bytes_eq (_ ∷ _) [] = false
bytes_eq (a ∷ s) (b ∷ t) = a == b && bytes_eq s t

unfoldable pub find : Bytes → Endpoints → Option UdpEndpoint
unfolding bytes_eq
find ip [] = none
find ip ((j, e) ∷ rest) = if bytes_eq j ip then some e else find ip rest

abbrev pub insert : Bytes → UdpEndpoint → Endpoints → Endpoints
insert ip e rest = (ip, e) ∷ rest

module _ {A : Type 0} (env : Env) where
  -- The scope of a pointer that may be null: a null one is unreferenced too, which does nothing.
  abbrev in_scope_of : Option Handle → M A UdpEndpoint → M A UdpEndpoint
  in_scope_of none m = m
  in_scope_of (some g) m = bind_to_scope (inet_address g) m

  set_up : Option Handle → ℤ → M A UdpEndpoint
  set_up group port = do
    address ← ask env.socket_address (g_inet_socket_address_new group port)
    elim address [
      | none ↦ log >> pure construct
      | some a ↦ do
        socket ← ask env.socket g_socket_new
        set ← also env.socket_error
        elim socket [ none ↦ log_error set | some k ↦ call (g_socket_set_blocking k) ]
        free_error set
        pure (record { socket = socket; address = some a })
    ]

  -- What the endpoint held is given back. A group that no address names is a null pointer, which is
  -- passed on.
  unfoldable pub setup : UdpEndpoint → Bytes → ℤ → M A UdpEndpoint
  unfolding set_up
  setup e ip port = do
    for_some e.socket (λ h. call (g_clear_object h))
    for_some e.address (λ h. call (g_clear_object h))
    group ← ask env.inet_address (g_inet_address_new_from_string ip)
    in_scope_of group (set_up group port)

  -- A failed g_socket_send_to sets the error.
  send_from : Handle → Handle → Bytes → ℕ → M A (Unit {0})
  send_from socket address message timeout = do
    current ← ask env.socket_timeout (g_socket_get_timeout socket)
    when (not (current == timeout)) (call (g_socket_set_timeout socket timeout))
    sent ← ask env.send_to (g_socket_send_to socket address message)
    when (not sent) log
    free_error (not sent)

  unfoldable pub send : UdpEndpoint → Bytes → ℕ → M A (Unit {0})
  unfolding send_from
  send e message timeout =
      for_some e.address
        λ address. for_some e.socket λ socket. send_from socket address message timeout

  -- `UdpEndpoint::~UdpEndpoint`
  unfoldable pub destroy : UdpEndpoint → M A (Unit {0})
  destroy e = do
    for_some e.socket (λ h. call (g_clear_object h))
    for_some e.address (λ h. call (g_clear_object h))
