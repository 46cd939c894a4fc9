-- ===== src/PlayerServer/Dispatch.antt =====
-- What a heartbeat of `PlayerServer` carries, and to whom.
use nsvr.Prelude.{refl, ◌∙◌, ◌≡◌, some, ◌∷◌, Bytes, arith}
use nsvr.Env.{
  Env, Handle, g_object_get_volume, gst_element_get_base_time, gst_element_query_position,
}
use nsvr.Env.Monad.{Sys}
use nsvr.Packet.{serialize}
use nsvr.Server.{Server, broadcast_to_clients}
use nsvr.Server.Delivery.{sends_of, ready_then, broadcast_reaches}
use nsvr.Player.Object.{get_state, get_mute}
use nsvr.Player.Volume.{get_volume}
use nsvr.Player.Seek.{get_time}
use nsvr.PlayerServer.{PlayerServer, gboolean, dispatch_heartbeat, heartbeat_packet}

module _ (env : Env) where
  pub packet_describes :
      (s : Sys PlayerServer) (h : Handle) (message : Bytes)
      → s.self.pipeline ≡ some h
      → let (packet, t) = heartbeat_packet env h s in
        let asked = g_object_get_volume h ∷ gst_element_query_position h ∷ s.trace in
        (packet.mute ≡ gboolean s.self.mute)
        × (packet.state ≡ s.self.state)
        × (packet.volume ≡ env.volume asked)
        × (packet.base ≡ env.base_time (gst_element_get_base_time h ∷ asked))
        × (t.self.derived ≡ s.self.derived)
        × (sends_of message t.trace ≡ sends_of message s.trace)
  unfolding heartbeat_packet get_time get_volume get_mute get_state
  packet_describes s h message e = ground arith

  -- A heartbeat of a server with a pipeline carries the player's mute flag and state, and the
  -- volume and the base time that the pipeline then reports; its message is sent exactly once
  -- through the socket and to the address of each endpoint that was set up, and nowhere else.
  pub dispatch_sends :
      (s : Sys PlayerServer) (h : Handle)
      → s.self.pipeline ≡ some h
      → let packet = (heartbeat_packet env h s).0 in
        let message = serialize env.fpu packet in
        let asked = g_object_get_volume h ∷ gst_element_query_position h ∷ s.trace in
        (packet.mute ≡ gboolean s.self.mute)
        × (packet.state ≡ s.self.state)
        × (packet.volume ≡ env.volume asked)
        × (packet.base ≡ env.base_time (gst_element_get_base_time h ∷ asked))
        × (sends_of message (dispatch_heartbeat env s).1.trace
            ≡ ready_then s.self.derived.server.endpoints (sends_of message s.trace))
  unfolding dispatch_heartbeat
  dispatch_sends s h e =
      let (packet, t) = heartbeat_packet env h s in
      let message = serialize env.fpu packet in
      let u : Sys Server = record {
        self = t.self.derived.server;
        saved_volume = t.saved_volume;
        trace = t.trace;
      } in
      let (mute, state, volume, base, same, sends) = packet_describes s h message e in
      let reached : sends_of message (broadcast_to_clients env message u).1.trace
          ≡ ready_then s.self.derived.server.endpoints (sends_of message s.trace) =
        broadcast_reaches env message u ∙ rw (same, sends) refl in
      (mute, state, volume, base, ground (arith, reached))
