-- ===== src/Tests/Groups.antt =====
-- The theorem on a seek that reaches a client, at concrete data.
use nsvr.Prelude.{
  ◌≡◌, refl, ap, ◌∙◌, some, [], ◌∷◌, arith, if◌then◌else◌, true, is_some, length, ◌<◌, Lacks, ltb,
  ◌*◌, false,
}
use nsvr.Prelude.Int.{pos, ◌==ℤ◌}
use nsvr.Double.{d_one, d_ge, d_eq, clamp}
use nsvr.Env.{Env, state_ready, state_playing}
use nsvr.Env.Monad.{Sys, loop_while}
use nsvr.Packet.{Packet, serialize}
use nsvr.PlayerServer
use nsvr.PlayerServer.{PlayerServer, heartbeat_packet}
use nsvr.PlayerClient
use nsvr.PlayerClient.{PlayerClient, follow}
use nsvr.Player.Update.Bus.{pops}
use nsvr.Server
use nsvr.Player.Object.{get_mute, get_state, get_duration}
use nsvr.Player.Volume.{get_volume, set_mute}
use nsvr.Client.{iterate}
use nsvr.Player.Seek.{get_time}
use nsvr.Player.Control.{query_state}
use nsvr.Player.Frames.{consume_frame}
use nsvr.Player.Update.{
  update, drain_bus, has_message, take_message, handle_message, on_state_message, on_async_done,
}
use nsvr.Packet.Number.{show_ℕ, show_ℤ}
use nsvr.Player.Update.Answers.{Obeys, last_base, Hears, Hands}
use nsvr.PlayerClient.Waiting.{Idle}
use nsvr.PlayerClient.Following.{twice}
use nsvr.Session.Group.{Comes, arrived, arrived_lem, told, behind, receiving}
use nsvr.Player.Update.Messages.{state_requests}
use nsvr.Session.Seeking.{sought, base_sought, seek_reaches_client}
use nsvr.Tests.World.{fpu}
use nsvr.Tests.Sessions.{
  obeying, obeying-Obeys, one-IsPrinted, host_playing, guest, seek_heard, play_heard, way_to_ready,
}

abbrev packet_sought : Packet
packet_sought = record {
  time = d_one;
  volume = d_one;
  mute = pos 0;
  state = state_playing;
  base = 1000000000;
}

-- The server of the test behind a seek to the second 1.
abbrev seeking : Sys PlayerServer
seeking = sought obeying d_one host_playing

tells :
    ((heartbeat_packet obeying 1 seeking).0 ≡ packet_sought)
    × (last_base 1 seeking.trace ≡ 1000000000)
    × (seeking.self.pipeline ≡ some 1)
    × (seeking.self.state ≡ state_playing)
unfolding heartbeat_packet get_time get_volume get_mute get_state query_state update drain_bus
    has_message take_message handle_message consume_frame PlayerServer.set_time
    PlayerServer.on_before_update PlayerServer.on_state_changed PlayerServer.heartbeat_if_due
    PlayerServer.advance_seek PlayerServer.finish_seek PlayerServer.seek_base_time Server.iterate
    Server.has_event get_duration on_state_message on_async_done loop_while clamp d_ge
tells = (refl, refl, refl, refl)

clean : Lacks 0 (serialize fpu packet_sought)
unfolding serialize show_ℕ show_ℤ
clean = ground arith

short : length (serialize fpu packet_sought) < 1024
unfolding serialize show_ℕ show_ℤ
short = omega arith

-- The socket of the client gives the message, and its bus tells of each way to READY.
abbrev joining : Env
joining = record obeying {
  bus_pending = λ t. ltb (pops t) (3 * length (state_requests t));
  receive = λ t. some (serialize fpu packet_sought);
}

joining-Obeys : Obeys joining 1
joining-Obeys = record {
  tells = λ t. refl;
  accepts = λ t. refl;
  answers = λ t. refl;
  reports = λ t. refl;
}

idle : Idle 1 guest
idle = record { pipeline = refl; bus = refl; clean = refl; elsewhere = refl }

abbrev first : Comes obeying joining 1 50 seeking guest
first = record {
  time = d_one;
  volume = d_one;
  time_printed = rw tells.0 one-IsPrinted;
  volume_printed = rw tells.0 one-IsPrinted;
  clean = rw tells.0 clean;
  short = rw tells.0 short;
  comes = rw tells.0 refl;
}

told_sought : told seeking guest first ≡ packet_sought
unfolding heartbeat_packet get_time get_volume get_mute get_state query_state update drain_bus
    has_message take_message handle_message consume_frame PlayerServer.set_time
    PlayerServer.on_before_update PlayerServer.on_state_changed PlayerServer.heartbeat_if_due
    PlayerServer.advance_seek PlayerServer.finish_seek PlayerServer.seek_base_time Server.iterate
    Server.has_event get_duration on_state_message on_async_done loop_while clamp d_ge
told_sought = refl

abbrev come : Sys PlayerClient
come = arrived joining 50 guest

-- The client behind the message, with its packet put in.
abbrev followed : Sys PlayerClient
followed = behind 50 (follow joining packet_sought (receiving 50 guest)).1

come_lem : come ≡ followed
come_lem =
    arrived_lem obeying joining refl 1 1 50 obeying-Obeys joining-Obeys (λ t. refl) (λ c t. refl)
      seeking guest first tells.2 (rw tells.3 (omega arith)) (rw tells.1 (omega arith)) refl
    ∙ ap (λ (p : Packet). behind 50 (follow joining p (receiving 50 guest)).1) told_sought

followed-Hands :
    Hands joining
      (PlayerClient.hooks joining)
      way_to_ready
      (PlayerClient.on_before_update joining followed).1
unfolding follow PlayerClient.on_before_update PlayerClient.advance_base handle_message
    on_state_message get_state loop_while d_eq get_volume set_mute iterate
followed-Hands = (refl, refl, (refl, refl, (refl, refl, refl)))

ready-Hands :
    Hands joining
      (PlayerClient.hooks joining)
      way_to_ready
      (PlayerClient.on_before_update joining come).1
ready-Hands = rw come_lem followed-Hands

abbrev ready_heard : Hears joining (PlayerClient.hooks joining) false come
ready_heard = record {
  messages = way_to_ready;
  hands = ready-Hands;
  fewer = omega arith;
  calm = refl;
}

abbrev joined : Sys PlayerClient
joined = twice joining come

followed_over :
    Hands joining
      (PlayerClient.hooks joining)
      []
      (PlayerClient.on_before_update joining
        (update joining (PlayerClient.hooks joining) followed).1).1
unfolding update drain_bus has_message take_message handle_message consume_frame on_state_message
    follow PlayerClient.on_before_update PlayerClient.advance_base get_state loop_while d_eq
    get_volume set_mute iterate
followed_over = refl

clock-Hands :
    Hands joining
      (PlayerClient.hooks joining)
      []
      (PlayerClient.on_before_update joining (update joining (PlayerClient.hooks joining) come).1).1
clock-Hands = rw come_lem followed_over

abbrev clock_heard :
    Hears joining
      (PlayerClient.hooks joining)
      false
      (update joining (PlayerClient.hooks joining) come).1
clock_heard = record { messages = []; hands = clock-Hands; fewer = omega arith; calm = refl }

second : Comes obeying joining 1 50 seeking joined
second = record {
  time = d_one;
  volume = d_one;
  time_printed = rw tells.0 one-IsPrinted;
  volume_printed = rw tells.0 one-IsPrinted;
  clean = rw tells.0 clean;
  short = rw tells.0 short;
  comes = rw tells.0 refl;
}

seek_reaches_client_example :
    let u = arrived joining 50 joined in
    let before = state_ready ∷ [] in
    (last_base 1 joined.trace ≡ base_sought obeying 1 d_one host_playing)
    × (is_some joined.self.derived.net_clock ≡ true)
    × (state_requests joined.trace ≡ before)
    × (state_requests u.trace
        ≡ (if state_ready ==ℤ seeking.self.state then before else seeking.self.state ∷ before))
seek_reaches_client_example =
    seek_reaches_client obeying joining refl 1 1 50 obeying-Obeys joining-Obeys (λ t. refl)
      (λ t. refl) (λ c t. refl) d_one host_playing seeking guest refl refl refl refl
      (unfold d_ge in refl) (unfold d_ge in refl) refl seek_heard refl play_heard
      (rw tells.3 (omega arith)) idle refl (unfold PlayerServer.seek_base_time in refl)
      (unfold PlayerServer.seek_base_time in refl) first ready_heard refl clock_heard tells.2
      (rw tells.3 (omega arith)) refl second
