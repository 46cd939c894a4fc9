-- ===== src/Server/Listening.antt =====
-- What `listen` leaves behind.
use nsvr.Prelude.{
  ◌≡◌, true, false, some, ◌∷◌, Bytes, not, arith, is_some, drop, ◌&&◌, if◌then◌else◌,
}
use nsvr.Prelude.Int.{ℤ}
use nsvr.Env.{
  Env, Handle, g_socket_service_is_active, g_inet_socket_address_new_from_string,
  g_socket_service_new, g_socket_listener_add_address,
}
use nsvr.Env.Monad.{Sys}
use nsvr.Server.{Server, is_listening, shutdown, listen}

module _ (env : Env) where
  -- The state in which `listen` asks for the address: behind `shutdown`, with the fields set.
  abbrev pub readied : Bytes → ℤ → Sys Server → Sys Server
  readied address port s =
      let (listening, t) = is_listening env s in
      let u = if listening then (shutdown env t).1 else t in
      record u { self = record u.self { listen_address = address; listen_port = port } }

  -- Whether `listen` succeeds or not, the address and the port are those it was given and the known
  -- endpoints stay; it returns true only with a service that it has just found active.
  pub listen_lem :
      (address : Bytes) (port : ℤ) (s : Sys Server)
      → let (result, t) = listen env address port s in
        (t.self.listen_address ≡ address)
        × (t.self.listen_port ≡ port)
        × (t.self.endpoints ≡ s.self.endpoints)
        × ((result && not (is_some t.self.socket_service && env.service_active (drop 1 t.trace)))
            ≡ false)
  unfolding listen
  listen_lem address port s = ground arith

  -- If the socket service cannot be bound to the address, and a service is active though it was
  -- not started, then listen returns false and isListening true.
  pub listen_failed_yet_listening :
      (address : Bytes) (port : ℤ) (s : Sys Server) (a h : Handle)
      → let t1 =
          g_inet_socket_address_new_from_string address port ∷ (readied address port s).trace in
        let t2 = g_socket_service_new ∷ t1 in
        let t3 = g_socket_listener_add_address h a ∷ t2 in
        env.socket_address t1 ≡ some a
        → env.socket_service t2 ≡ some h
        → env.listener_add t3 ≡ false
        → let t = (listen env address port s).1 in
          env.service_active (g_socket_service_is_active h ∷ t.trace) ≡ true
          → ((listen env address port s).0 ≡ false) × ((is_listening env t).0 ≡ true)
  unfolding listen
  listen_failed_yet_listening address port s a h e1 e2 e3 act = ground arith
