-- ===== src/Session/Group.antt =====
-- A client's player comes to where the server's is: a heartbeat of PlayerServer from
-- source/nsvr/nsvr_player_server.cpp, the socket of the client, two calls of its `update`, and the next
-- heartbeat.
use nsvr.Prelude.{
  ℕ, ◌<◌, ◌^◌, ◌==◌, ◌≡◌, refl, sym, ap, ◌∙◌, Lacks, length, true, false, Option, some, ◌∷◌, arith,
  is_some, if◌then◌else◌,
}
use nsvr.Prelude.Int.{◌==ℤ◌}
use nsvr.Double.{Double}
use nsvr.Env.{
  Env, Handle, Trace, state_ready, g_object_ref, g_object_unref, g_error_free, g_socket_receive,
  gst_element_get_base_time, gst_element_get_state, g_object_get_volume, gst_element_query_position,
  g_main_context_pending,
}
use nsvr.Env.Monad.{Sys}
use nsvr.Packet.{Packet, serialize}
use nsvr.Packet.Number.Laws.{IsInt}
use nsvr.Player.Control.{query_state}
use nsvr.Player.Update.Answers.{Obeys, last_base, last_state, newest, Hears, ends_ready}
use nsvr.Player.Update.{update}
use nsvr.Player.Update.Messages.{state_requests}
use nsvr.PlayerServer.{PlayerServer, gboolean, heartbeat_packet}
use nsvr.Client.{incomming}
use nsvr.PlayerClient.{PlayerClient, client_part, hooks, follow, follow_base}
use nsvr.PlayerClient.Messages.{
  sound_followed, sound_kept, follow_base_kept, same_base_follows_state,
}
use nsvr.PlayerClient.Convergence.{Cooperates, sound-Unmoved}
use nsvr.PlayerClient.Waiting.{Idle, new_base_lem}
use nsvr.PlayerClient.Following.{twice, twice-Over}
use nsvr.Session.{IsPrinted, heartbeat_end_to_end}

-- The message of a heartbeat of the server comes whole to the client's socket: its two doubles can be
-- read, and it fits into the buffer.
pub record Comes (host guest : Env) (h socket : Handle) (s : Sys PlayerServer)
    (c : Sys PlayerClient) : Type 0 where
  pub time : Double
  pub volume : Double
  pub time_printed : IsPrinted host.fpu (heartbeat_packet host h s).0.time time
  pub volume_printed : IsPrinted host.fpu (heartbeat_packet host h s).0.volume volume
  pub clean : Lacks 0 (serialize host.fpu (heartbeat_packet host h s).0)
  pub short : length (serialize host.fpu (heartbeat_packet host h s).0) < 1024
  pub comes :
      guest.receive (g_socket_receive socket ∷ g_object_ref socket ∷ c.trace)
      ≡ some (serialize host.fpu (heartbeat_packet host h s).0)

-- The client in the callback of its socket, and behind it.
abbrev pub receiving : Handle → Sys PlayerClient → Sys PlayerClient
receiving socket c = record c { trace = g_socket_receive socket ∷ g_object_ref socket ∷ c.trace }

abbrev pub behind : Handle → Sys PlayerClient → Sys PlayerClient
behind socket w = record w { trace = g_object_unref socket ∷ g_error_free false ∷ w.trace }

abbrev pub arrived : Env → Handle → Sys PlayerClient → Sys PlayerClient
arrived guest socket c = (incomming guest (client_part guest) socket c).1

abbrev pub told :
    {host guest : Env} {h socket : Handle} (s : Sys PlayerServer) (c : Sys PlayerClient)
    → Comes host guest h socket s c
    → Packet
told {host} {guest} {h} {socket} s c m = record {
  time = m.time;
  volume = m.volume;
  mute = gboolean s.self.mute;
  state = s.self.state;
  base = last_base h s.trace;
}

-- What a heartbeat with a new base time and two updates behind it leave of the client.
abbrev pub Joined :
    Handle → Handle → Sys PlayerServer → Sys PlayerClient → Sys PlayerClient → Type 0
Joined h k s c t =
    (is_some t.self.derived.net_clock ≡ true)
    × (t.self.derived.base_time ≡ 0)
    × (t.self.pipeline ≡ some k)
    × (last_base k t.trace ≡ last_base h s.trace)
    × (state_requests t.trace ≡ state_ready ∷ state_requests c.trace)
    × (t.self.derived.client ≡ c.self.derived.client)

module _ (host guest : Env) (one_format : guest.fpu ≡ host.fpu) (h k socket : Handle)
    (o : Obeys host h) (g : Obeys guest k)
    (makes : (t : Trace) → is_some (guest.net_client_clock t) ≡ true)
    (silent : (context : Option Handle) (t : Trace)
      → guest.context_pending (g_main_context_pending context ∷ t) ≡ false) where
  pub arrived_lem :
      (s : Sys PlayerServer) (c : Sys PlayerClient) (m : Comes host guest h socket s c)
      → s.self.pipeline ≡ some h
      → IsInt s.self.state
      → last_base h s.trace < 2 ^ 64
      → c.self.derived.client.connected ≡ true
      → arrived guest socket c ≡ behind socket (follow guest (told s c m) (receiving socket c)).1
  arrived_lem s c m e fits below on =
      let asked = g_object_get_volume h ∷ gst_element_query_position h ∷ s.trace in
      let base = o.tells asked in
      let ends =
        heartbeat_end_to_end host guest one_format s h c socket m.time m.volume e fits
          (rw base below) m.time_printed m.volume_printed m.clean m.short on m.comes in
      let heard : ℕ → Sys PlayerClient = λ b.
        behind socket (follow guest (record (told s c m) { base = b }) (receiving socket c)).1 in
      ends.1 ∙ ap heard base

  cooperates : Cooperates guest k
  cooperates = record { tells = g.tells; accepts = g.accepts; makes = makes }

  pub joins :
      (s : Sys PlayerServer) (c : Sys PlayerClient) (m : Comes host guest h socket s c)
      → s.self.pipeline ≡ some h
      → IsInt s.self.state
      → last_base h s.trace < 2 ^ 64
      → c.self.derived.client.connected ≡ true
      → Idle k c
      → last_base h s.trace == 0 ≡ false
      → last_base k c.trace == last_base h s.trace ≡ false
      → (first : Hears guest (hooks guest) false (arrived guest socket c))
      → ends_ready k first.messages false ≡ true
      → Hears guest (hooks guest) false (update guest (hooks guest) (arrived guest socket c)).1
      → Joined h k s c (twice guest (arrived guest socket c))
  joins s c m e fits below on i set new first came second =
      let p = told s c m in
      let r = receiving socket c in
      let idle : Idle k r = record {
        pipeline = i.pipeline;
        bus = i.bus;
        clean = i.clean;
        elsewhere = i.elsewhere;
      } in
      let sound = sound_followed guest p r in
      let is_new : guest.base_time (gst_element_get_base_time k ∷ sound.trace) == p.base ≡ false =
        rw (g.tells sound.trace, (sound-Unmoved guest k p r).2) new in
      let (held, waits, base, requests, client) = new_base_lem guest p r k idle set is_new in
      let v = behind socket (follow guest p r).1 in
      let idle' : Idle k v = record {
        pipeline = held.pipeline;
        bus = held.bus;
        clean = held.clean;
        elsewhere = held.elsewhere;
      } in
      let same = arrived_lem s c m e fits below on in
      let first' : Hears guest (hooks guest) false v = record {
        messages = first.messages;
        hands = rw same at first.hands;
        fewer = first.fewer;
        calm = first.calm;
      } in
      let over =
        twice-Over guest k cooperates silent v first' (rw same at second) idle' (rw waits set)
          came in
      rw same (
        over.0,
        over.1,
        over.2,
        over.3 ∙ waits,
        over.4 ∙ ap (λ r. state_ready ∷ r) requests,
        over.5 ∙ client,
      )

  -- The state that the client's pipeline is found in once the sound and the base time are followed.
  asked_lem :
      (q : Packet) (t : Sys PlayerClient)
      → t.self.pipeline ≡ some k
      → (query_state guest (follow_base guest q.base (sound_followed guest q t)).1).0
        ≡ last_state t.trace
  unfolding query_state
  asked_lem q t e =
      let u = sound_followed guest q t in
      let v = (follow_base guest q.base u).1 in
      let sound = sound_kept guest q t in
      let base = follow_base_kept guest q.base u k (sound.0 ∙ e) in
      rw (base.0, g.reports v.trace, g.answers (gst_element_get_state (some k) ∷ v.trace))
        (ap newest (base.2 ∙ sound.2))

  pub follows_state :
      (s s2 : Sys PlayerServer) (c t : Sys PlayerClient) (m : Comes host guest h socket s2 t)
      → Joined h k s c t
      → s2.self.pipeline ≡ some h
      → IsInt s2.self.state
      → last_base h s2.trace ≡ last_base h s.trace
      → last_base h s.trace < 2 ^ 64
      → c.self.derived.client.connected ≡ true
      → let u = arrived guest socket t in
        let before = state_ready ∷ state_requests c.trace in
        (u.self.derived.base_time ≡ 0)
        × (state_requests u.trace
            ≡ (if state_ready ==ℤ s2.self.state then before else s2.self.state ∷ before))
  follows_state s s2 c t m j e fits same below on =
      let q = told s2 t m in
      let r = receiving socket t in
      let sound = sound_followed guest q r in
      let tells = g.tells sound.trace ∙ (sound-Unmoved guest k q r).2 ∙ j.3 ∙ sym same in
      let known : guest.base_time (gst_element_get_base_time k ∷ sound.trace) == q.base ≡ true =
        ground (arith, tells) in
      let f = same_base_follows_state guest q r k j.2 j.1 known in
      let asked = asked_lem q r j.2 ∙ ap newest j.4 in
      rw (arrived_lem s2 t m e fits (rw same below) (rw j.5 on)) (f.0, f.1 ∙ rw (asked, j.4) refl)
