-- ===== src/PlayerClient/Arrival.antt =====
-- A heartbeat from the server's player to the client's.
use nsvr.Prelude.{
  ℕ, ◌<◌, ◌≡◌, refl, true, false, some, [], ◌∷◌, Bytes, Lacks, is_empty, length, arith, ltb, ap,
  ◌∙◌,
}
use nsvr.Double.{Double}
use nsvr.Env.{Env, Handle, g_object_ref, g_object_unref, g_error_free, g_socket_receive}
use nsvr.Env.Monad.{Sys}
use nsvr.Packet.{Packet, serialize}
use nsvr.Packet.RoundTrip.{IsWritable}
use nsvr.Client.{incomming}
use nsvr.Client.Receiving.{incomming_delivers}
use nsvr.PlayerClient.{PlayerClient, client_part, follow, on_message}
use nsvr.PlayerClient.Messages.{heartbeat_followed}

module _ (env : Env) where
  -- The state in which the callback has received, and the one in which it returns.
  abbrev received : Handle → Sys PlayerClient → Sys PlayerClient
  received socket s = record s { trace = g_socket_receive socket ∷ g_object_ref socket ∷ s.trace }

  abbrev returned : Handle → Sys PlayerClient → Sys PlayerClient
  returned socket w = record w { trace = g_object_unref socket ∷ g_error_free false ∷ w.trace }

  short_message_delivered :
      (m : Bytes) (socket : Handle) (s : Sys PlayerClient)
      → is_empty m ≡ false
      → s.self.derived.client.connected ≡ true
      → env.receive (received socket s).trace ≡ some m
      → Lacks 0 m
      → length m < 1024
      → (incomming env (client_part env) socket s).1
        ≡ returned socket (on_message env m (received socket s)).1
  short_message_delivered [] socket s named on e lacks short = cc
  short_message_delivered (b ∷ bytes) socket s named on e lacks short =
      let fits : ltb (length (b ∷ bytes)) 1024 ≡ true = ground arith in
      incomming_delivers env (client_part env) socket b bytes s (λ d. refl) on e lacks (omega arith)
      ∙ rw fits refl

  -- A connected client whose socket gives the message of a packet that parse-serialize covers,
  -- without a zero byte and shorter than the buffer of 1024 bytes, follows that packet, with its
  -- two doubles as stod reads them, between taking a reference to the socket and giving it back.
  pub heartbeat_arrives :
      (p : Packet) {t v : Double} (socket : ℕ) (s : Sys PlayerClient)
      → s.self.derived.client.connected ≡ true
      → IsWritable env.fpu p
      → env.fpu.stod (env.fpu.print p.time) ≡ some t
      → env.fpu.stod (env.fpu.print p.volume) ≡ some v
      → Lacks 0 (serialize env.fpu p)
      → length (serialize env.fpu p) < 1024
      → let received = g_socket_receive socket ∷ g_object_ref socket ∷ s.trace in
        env.receive received ≡ some (serialize env.fpu p)
        → let w =
            (follow env (record p { time = t; volume = v }) (record s { trace = received })).1 in
          (incomming env (client_part env) socket s).1
          ≡ record w { trace = g_object_unref socket ∷ g_error_free false ∷ w.trace }
  heartbeat_arrives p {t} {v} socket s on w ht hv lacks short e =
      let named : is_empty (serialize env.fpu p) ≡ false = unfold serialize in refl in
      short_message_delivered (serialize env.fpu p) socket s named on e lacks short
      ∙ ap (λ (r : Unit {0} × Sys PlayerClient). returned socket r.1)
          (heartbeat_followed env p (received socket s) w ht hv)
