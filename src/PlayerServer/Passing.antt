-- ===== src/PlayerServer/Passing.antt =====
-- What a heartbeat of `PlayerServer` leaves as it is.
use nsvr.Prelude.{◌≡◌, refl, some, ◌∷◌, arith, Option-cases, inl, inr}
use nsvr.Env.{
  Env, Handle, Trace, gst_element_query_position, g_object_get_volume, gst_element_get_base_time,
}
use nsvr.Env.Monad.{Sys}
use nsvr.Packet.{serialize}
use nsvr.Player.Object.{get_state, get_mute}
use nsvr.Player.Volume.{get_volume}
use nsvr.Player.Seek.{get_time}
use nsvr.Server.{Server}
use nsvr.Server.Sending.{IgnoresSends, broadcast_ignored}
use nsvr.PlayerServer.{PlayerServer, heartbeat_packet, dispatch_heartbeat, heartbeat_if_due}

-- A reading of the trace that does not see the calls of a heartbeat.
pub record IgnoresBeats {A : Type 0} (f : Trace → A) : Type 0 where
  pub sends : IgnoresSends f
  pub asks_position : (h : Handle) (t : Trace) → f (gst_element_query_position h ∷ t) ≡ f t
  pub asks_volume : (h : Handle) (t : Trace) → f (g_object_get_volume h ∷ t) ≡ f t
  pub asks_base : (h : Handle) (t : Trace) → f (gst_element_get_base_time h ∷ t) ≡ f t

-- The server with the time, the volume and the counter of another.
abbrev refreshed : PlayerServer → PlayerServer → PlayerServer
refreshed p q = record p {
  time = q.time;
  volume = q.volume;
  derived = record p.derived { heartbeat_counter = q.derived.heartbeat_counter };
}

module _ {A : Type 0} (env : Env) (f : Trace → A) (i : IgnoresBeats f) where
  packet_ignored :
      (h : Handle) (s : Sys PlayerServer)
      → s.self.pipeline ≡ some h
      → let t = (heartbeat_packet env h s).1 in
        (t.self ≡ refreshed s.self t.self) × (f t.trace ≡ f s.trace)
  unfolding heartbeat_packet get_time get_volume get_mute get_state
  packet_ignored h s e = grind (arith, i.asks_position, i.asks_volume, i.asks_base)

  dispatch_ignored :
      (s : Sys PlayerServer)
      → let t = (dispatch_heartbeat env s).1 in
        (t.self ≡ refreshed s.self t.self) × (f t.trace ≡ f s.trace)
  unfolding dispatch_heartbeat
  dispatch_ignored s = elim (Option-cases s.self.pipeline) [
    | inl closed ↦ rw closed (refl, refl)
    | inr (h, e) ↦
        let (packet, t) = heartbeat_packet env h s in
        let u : Sys Server = record {
          self = t.self.derived.server;
          saved_volume = t.saved_volume;
          trace = t.trace;
        } in
        rw e (
          ground (
            arith,
            packet_ignored h s e,
            broadcast_ignored env f i.sends (serialize env.fpu packet) u,
          ))
  ]

  pub heartbeat_ignored :
      (s : Sys PlayerServer)
      → let t = (heartbeat_if_due env s).1 in
        (t.self ≡ refreshed s.self t.self) × (f t.trace ≡ f s.trace)
  unfolding heartbeat_if_due
  heartbeat_ignored s = ground (arith, dispatch_ignored s)
