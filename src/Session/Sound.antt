-- ===== src/Session/Sound.antt =====
-- The mute flag and the volume of the server's player, and those of a client that gets its heartbeat.
use nsvr.Prelude.{ℕ, ◌<◌, ◌^◌, ◌≡◌, refl, sym, ◌∙◌, some, [], ◌∷◌, Lacks, length, Bool, true, false}
use nsvr.Double.{Double, Fpu, d_zero, d_eq}
use nsvr.Env.{
  Env, Handle, g_object_ref, g_socket_receive, g_object_get_volume, gst_element_get_base_time,
  gst_element_query_position,
}
use nsvr.Env.Monad.{Sys}
use nsvr.Packet.{Packet, serialize}
use nsvr.Packet.Number.Laws.{IsInt}
use nsvr.Player.Volume.Laws.{InRange}
use nsvr.PlayerServer.{PlayerServer, gboolean, heartbeat_packet}
use nsvr.PlayerServer.Dispatch.{packet_describes}
use nsvr.Client.{incomming}
use nsvr.PlayerClient.{PlayerClient, client_part, is_true}
use nsvr.PlayerClient.Sound.{TellsVolume, IsSilent, follow_sounds_alike}
use nsvr.Session.{IsPrinted, heartbeat_end_to_end}

is_true-gboolean : (b : Bool) → is_true (gboolean b) ≡ b
is_true-gboolean true = refl
is_true-gboolean false = refl

read_alike :
    (fpu : Fpu) {d d' v v' : Double}
    → d ≡ d'
    → fpu.stod (fpu.print d) ≡ some v
    → fpu.stod (fpu.print d') ≡ some v'
    → v ≡ v'
read_alike fpu e r r' = cc

module _ (host guest : Env) (one_format : guest.fpu ≡ host.fpu) where
  -- A client sounds as its server does: a connected client whose socket gives the message of a
  -- heartbeat has the mute flag of the server's player and a volume equal to the one told, as it
  -- is read, and if it is muted its pipeline was given the volume 0 last. The volume is read as
  -- one from 0. to 1., and a printed 0 as 0; if one of the two players is muted, its pipeline was
  -- given the volume 0 last; both have a pipeline, and both pipelines tell the volume that they
  -- were given last. The server's state is a value of `int`, the base time is below 2^64, both
  -- machines print and read doubles alike and without the separator, and the message is shorter
  -- than 1024 bytes and holds no zero byte.
  pub sound_reaches_client :
      (s : Sys PlayerServer) (h k : Handle) (c : Sys PlayerClient) (socket : ℕ) (t v : Double)
      → s.self.pipeline ≡ some h
      → IsInt s.self.state
      → let asked = g_object_get_volume h ∷ gst_element_query_position h ∷ s.trace in
        let packet = (heartbeat_packet host h s).0 in
        let message = serialize host.fpu packet in
        host.base_time (gst_element_get_base_time h ∷ asked) < 2 ^ 64
        → IsPrinted host.fpu packet.time t
        → IsPrinted host.fpu packet.volume v
        → host.fpu.stod (host.fpu.print d_zero) ≡ some d_zero
        → Lacks 0 message
        → length message < 1024
        → TellsVolume host h
        → IsSilent h s
        → InRange v
        → c.self.derived.client.connected ≡ true
        → c.self.pipeline ≡ some k
        → TellsVolume guest k
        → IsSilent k c
        → guest.receive (g_socket_receive socket ∷ g_object_ref socket ∷ c.trace) ≡ some message
        → let u = (incomming guest (client_part guest) socket c).1 in
          (u.self.mute ≡ s.self.mute) × (d_eq u.self.volume v ≡ true) × IsSilent k u
  sound_reaches_client s h k c socket t v e fits below time volume zero lacks short tells silent r
        on e' tells' silent' comes =
      let told = packet_describes host s h [] e in
      let end =
        heartbeat_end_to_end host guest one_format s h c socket t v e fits below time volume lacks
          short on comes in
      let asked = gst_element_query_position h ∷ s.trace in
      let received = g_socket_receive socket ∷ g_object_ref socket ∷ c.trace in
      let q : Packet = record {
        time = t;
        volume = v;
        mute = gboolean s.self.mute;
        state = s.self.state;
        base = host.base_time (gst_element_get_base_time h ∷ g_object_get_volume h ∷ asked);
      } in
      let silences : is_true q.mute ≡ true → v ≡ d_zero = λ muted.
        let m = sym (is_true-gboolean s.self.mute) ∙ muted in
        let none_heard = told.2 ∙ tells asked d_zero (silent m) in
        read_alike host.fpu none_heard volume.reads zero in
      let followed =
        follow_sounds_alike guest k tells' q (record c { trace = received }) e' r silences
          silent' in
      rw end.1 (followed.1 ∙ is_true-gboolean s.self.mute, followed.2, followed.3)
