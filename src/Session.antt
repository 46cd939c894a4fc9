-- ===== src/Session.antt =====
-- The two programs of a session: a heartbeat that PlayerServer of source/nsvr/nsvr_player_server.cpp
-- sends, and PlayerClient of source/nsvr/nsvr_player_client.cpp to whose socket it comes. The network
-- is outside of the program: that it delivers is a hypothesis.
pub mod Interleaving
pub mod Group
pub mod Seeking
pub mod Sound
use nsvr.Prelude.{ℕ, ◌<◌, ◌^◌, ◌≡◌, some, [], ◌∷◌, Lacks, length, arith, ap, ◌∙◌, Bool, true, false}
use nsvr.Double.{Double, Fpu}
use nsvr.Env.{
  Env, Handle, g_object_ref, g_object_unref, g_error_free, g_socket_receive, g_object_get_volume,
  gst_element_get_base_time, gst_element_query_position,
}
use nsvr.Env.Monad.{Sys}
use nsvr.Packet.{Packet, serialize, packet_data_separator}
use nsvr.Packet.RoundTrip.{IsWritable}
use nsvr.Packet.Number.Laws.{IsInt}
use nsvr.Server.Delivery.{sends_of, ready_then}
use nsvr.PlayerServer.{PlayerServer, gboolean, heartbeat_packet, dispatch_heartbeat}
use nsvr.PlayerServer.Dispatch.{packet_describes, dispatch_sends}
use nsvr.Client.{incomming}
use nsvr.PlayerClient.{PlayerClient, client_part, follow}
use nsvr.PlayerClient.Arrival.{heartbeat_arrives}

-- The text of a double: it holds no separator, and is read as this one.
pub record IsPrinted (fpu : Fpu) (d as_read : Double) : Type 0 where
  pub clean : Lacks packet_data_separator (fpu.print d)
  pub reads : fpu.stod (fpu.print d) ≡ some as_read

pub gboolean-IsInt : (b : Bool) → IsInt (gboolean b)
gboolean-IsInt true = omega arith
gboolean-IsInt false = omega arith

-- The packet of a heartbeat, as one that can be read again.
pub heartbeat_packet-IsWritable :
    (host : Env) (s : Sys PlayerServer) (h : Handle)
    → s.self.pipeline ≡ some h
    → IsInt s.self.state
    → let asked = g_object_get_volume h ∷ gst_element_query_position h ∷ s.trace in
      let packet = (heartbeat_packet host h s).0 in
      host.base_time (gst_element_get_base_time h ∷ asked) < 2 ^ 64
      → Lacks packet_data_separator (host.fpu.print packet.time)
      → Lacks packet_data_separator (host.fpu.print packet.volume)
      → IsWritable host.fpu packet
heartbeat_packet-IsWritable host s h e fits below time volume =
    let told = packet_describes host s h [] e in
    record {
      time_clean = time;
      volume_clean = volume;
      mute_fits = rw told.0 (gboolean-IsInt s.self.mute);
      state_fits = rw told.1 fits;
      base_fits = rw told.3 below;
    }

module _ (host guest : Env) (one_format : guest.fpu ≡ host.fpu) where
  -- From one program to the other: the message of a heartbeat goes exactly once to each endpoint
  -- of the server that was set up, and a connected client whose socket gives that message follows
  -- a packet with the mute flag and the state of the server's player, the base time that the
  -- server's pipeline told, and the two doubles as they are read. The server has a pipeline, its
  -- state is a value of `int`, the base time is below 2^64, both machines print and read doubles
  -- alike and without the separator, and the message is shorter than 1024 bytes and holds no zero
  -- byte.
  pub heartbeat_end_to_end :
      (s : Sys PlayerServer) (h : Handle) (c : Sys PlayerClient) (socket : ℕ) (t v : Double)
      → s.self.pipeline ≡ some h
      → IsInt s.self.state
      → let asked = g_object_get_volume h ∷ gst_element_query_position h ∷ s.trace in
        let base = host.base_time (gst_element_get_base_time h ∷ asked) in
        let packet = (heartbeat_packet host h s).0 in
        let message = serialize host.fpu packet in
        base < 2 ^ 64
        → IsPrinted host.fpu packet.time t
        → IsPrinted host.fpu packet.volume v
        → Lacks 0 message
        → length message < 1024
        → c.self.derived.client.connected ≡ true
        → let received = g_socket_receive socket ∷ g_object_ref socket ∷ c.trace in
          guest.receive received ≡ some message
          → let q : Packet = record {
            time = t;
            volume = v;
            mute = gboolean s.self.mute;
            state = s.self.state;
            base = base;
          } in
            let w = (follow guest q (record c { trace = received })).1 in
            (sends_of message (dispatch_heartbeat host s).1.trace
              ≡ ready_then s.self.derived.server.endpoints (sends_of message s.trace))
            × ((incomming guest (client_part guest) socket c).1
                ≡ record w { trace = g_object_unref socket ∷ g_error_free false ∷ w.trace })
  heartbeat_end_to_end s h c socket t v e fits below time volume lacks short on comes =
      let packet = (heartbeat_packet host h s).0 in
      let sent = dispatch_sends host s h e in
      let writable : IsWritable guest.fpu packet =
        rw one_format (heartbeat_packet-IsWritable host s h e fits below time.clean volume.clean) in
      let received : Sys PlayerClient = record c {
        trace = g_socket_receive socket ∷ g_object_ref socket ∷ c.trace;
      } in
      let carried : Path Packet (record packet { time = t; volume = v }) _ =
        λ i. record { time = t; volume = v; mute = sent.0 i; state = sent.1 i; base = sent.3 i } in
      let followed : Packet → Sys PlayerClient = λ q.
        let w = (follow guest q received).1 in
        record w { trace = g_object_unref socket ∷ g_error_free false ∷ w.trace } in
      (
        sent.4,
        heartbeat_arrives guest packet socket c on writable (rw one_format time.reads)
              (rw one_format volume.reads) (rw one_format lacks) (rw one_format short)
              (rw one_format comes)
            ∙ ap followed carried,
      )
