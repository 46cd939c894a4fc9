-- ===== src/Client/Connection.antt =====
-- What `connect`, `disconnect` and `sendToServer` leave behind.
use nsvr.Prelude.{ℕ, ◌≡◌, Bool, false, ◌&&◌, some, Bytes, not, arith, is_some, ◌==◌}
use nsvr.Prelude.Int.{ℤ, negsuc}
use nsvr.Env.{Env, Handle, Call, g_clear_object}
use nsvr.Env.Monad.{Sys}
use nsvr.Env.Count.{count}
use nsvr.Client.{Client, disconnect, connect, send_to_server}

-- `mConnected` says whether there is a context and a source, and with them there are the sockets.
pub record IsValid (c : Client) : Type 0 where
  pub has_context : is_some c.context ≡ c.connected
  pub has_source : is_some c.source ≡ c.connected
  pub has_socket :
      (c.connected && not (is_some c.receive_socket && is_some c.listen_address)) ≡ false

abbrev is_clear_of : Handle → Call → Bool
is_clear_of h (g_clear_object k) = k == h
is_clear_of h _ = false

module _ (env : Env) where
  -- `disconnect` leaves no connection and no handle of one.
  disconnect-IsValid :
      (s : Sys Client)
      → IsValid s.self
      → let t = (disconnect env s).1 in IsValid t.self × (t.self.connected ≡ false)
  unfolding disconnect
  disconnect-IsValid s v = ground arith

  -- From consistent fields, connect leaves consistent fields on every branch, returns whether the
  -- client is connected, and keeps the address and the port it was given.
  pub connect-IsValid :
      (address : Bytes) (port : ℤ) (s : Sys Client)
      → IsValid s.self
      → let (result, t) = connect env address port s in
        IsValid t.self
        × (t.self.connected ≡ result)
        × (t.self.server_address ≡ address)
        × (t.self.server_port ≡ port)
  unfolding connect
  connect-IsValid address port s v = ground arith

  -- A socket that a client which is not connected still holds, after a connect that failed, is
  -- not released by a further connect.
  connect_drops_socket :
      (address : Bytes) (port : ℤ) (s : Sys Client) (k : Handle)
      → s.self.connected ≡ false
      → s.self.receive_socket ≡ some k
      → let t = (connect env address port s).1 in
        count (is_clear_of k) t.trace ≡ count (is_clear_of k) s.trace
  unfolding connect
  connect_drops_socket address port s k off e = ground arith

  -- A client of a port above 32767, which a `short` holds as a negative number, never writes to its
  -- server: connected or not, `sendToServer` makes no call.
  high_port_silent :
      (address : Bytes) (n : ℕ) (message : Bytes) (s : Sys Client)
      → IsValid s.self
      → let t = (connect env address (negsuc n) s).1 in (send_to_server env message t).1 ≡ t
  unfolding send_to_server
  high_port_silent address n message s v =
      ground (arith, (connect-IsValid address (negsuc n) s v).3)
