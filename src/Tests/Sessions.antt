-- ===== src/Tests/Sessions.antt =====
-- The theorems on the networked players at concrete data.
use nsvr.Prelude.{
  Bytes, ◌⊎◌, false, ◌+◌, ◌≡◌, refl, none, some, [], ◌∷◌, arith, if◌then◌else◌, true, is_some,
  Lacks, length, ◌<◌, ℕ, List, ltb, ◌*◌, ◌==◌,
}
use nsvr.Prelude.Int.{◌==ℤ◌, pos}
use nsvr.Double.{Double, clamp, d_zero, d_one, d_minus_one, d_ge, d_eq}
use nsvr.Env.{
  state_ready, state_playing, state_changed, gst_element_set_state, ChangeReturn, state_paused, Env,
  Message, async_done, g_socket_receive, g_object_ref, g_object_unref, g_error_free,
}
use nsvr.Env.Monad.{Sys, loop_while}
use nsvr.Packet.{Packet, serialize}
use nsvr.Packet.Number.{show_ℕ, show_ℤ}
use nsvr.Client.{incomming}
use nsvr.Server.Delivery.{sends_of}
use nsvr.Packet.Number.Laws.{stoull-show_ℕ, show_ℕ-Lacks}
use nsvr.Player.Control.{close, destroy, query_state, pause}
use nsvr.Player.Frames.{consume_frame}
use nsvr.Player.Update.Bus.{pops}
use nsvr.Player.Update.{
  handle_message, update, drain_bus, has_message, take_message, on_state_message, on_async_done,
}
use nsvr.Server
use nsvr.Client.{iterate}
use nsvr.Player.Update.Messages.{state_requests}
use nsvr.PlayerServer
use nsvr.PlayerServer.{PlayerServer}
use nsvr.PlayerServer.Heartbeat.{updates, heartbeat_every, Beaten}
use nsvr.PlayerServer.Following.{seek_carried_out}
use nsvr.PlayerServer.Clock.{unrefs, clock_outlives_player}
use nsvr.PlayerClient
use nsvr.PlayerClient.{PlayerClient, follow, follow_base}
use nsvr.PlayerClient.Messages.{sound_followed}
use nsvr.PlayerClient.Convergence.{Cooperates}
use nsvr.Player.Update.Answers.{Obeys, last_base, last_state, Hears, Hands}
use nsvr.PlayerClient.Following.{client_converges}
use mathlib.Core.List.{Mem, mem-cons_self}
use nsvr.Session.Interleaving.{
  Session, Reach, start, later, beats, receives, advances, IsOfHost, bases_come_from_host,
}
use nsvr.PlayerServer.Resuming.{seeks, resumes_where_paused}
use nsvr.Session.{IsPrinted, heartbeat_end_to_end}
use nsvr.Player.Seek.{get_time}
use nsvr.Player.Volume.{get_volume, set_mute}
use nsvr.Player.Object.{get_mute, get_state, get_duration}
use nsvr.Tests.World.{fpu, env, sys_of, player_of, server_fields, client_fields}
use nsvr.Tests.Packets.{packet}

abbrev host : Sys PlayerServer
host = sys_of (player_of server_fields)

abbrev pub guest : Sys PlayerClient
guest = sys_of (player_of client_fields)

-- A server with a client, in a quiet network.
abbrev quiet : Env
quiet = record env { context_pending = λ _. false }

abbrev serving : Sys PlayerServer
serving = sys_of (
    player_of (record server_fields {
      server = record server_fields.server {
        endpoints = (9 ∷ [], record { socket = some 5; address = some 6 }) ∷ [];
      };
    }))

heartbeat_every_example : Beaten 100 31 serving (updates quiet 100 serving)
heartbeat_every_example =
    heartbeat_every quiet (λ t. refl) (omega arith) 100 serving 1 refl (omega arith) (omega arith)

clock_outlives_player_example :
    let closed = (close env (PlayerServer.hooks env) host).1 in
    let destroyed = (destroy env host).1 in
    (unrefs 60 closed ≡ 0 + 1) × (closed.self.derived.net_clock ≡ none) × (unrefs 60 destroyed ≡ 0)
clock_outlives_player_example = clock_outlives_player env 60 host refl refl refl refl refl

-- The pipeline tells the base time 7.
abbrev settled : Packet
settled = record packet { base = 7 }

abbrev guest_waiting : Sys PlayerClient
guest_waiting = sys_of (player_of (record client_fields { base_time = 900 }))

-- What the host tells: it plays, and its pipeline has the base time 7.
abbrev told : Packet
told = record { time = d_one; volume = d_one; mute = pos 0; state = state_playing; base = 7 }

abbrev told_env : Env
told_env = record env { receive = λ _. some (serialize fpu told) }

host_tells : (PlayerServer.heartbeat_packet env 1 host).0 ≡ told
unfolding PlayerServer.heartbeat_packet get_time get_volume get_mute get_state
host_tells = refl

told_clean : Lacks 0 (serialize fpu told)
unfolding serialize show_ℕ show_ℤ
told_clean = ground arith

told_short : length (serialize fpu told) < 1024
unfolding serialize show_ℕ show_ℤ
told_short = omega arith

pub one-IsPrinted : IsPrinted fpu d_one d_one
one-IsPrinted = record { clean = show_ℕ-Lacks d_one; reads = stoull-show_ℕ d_one (omega arith) }

heartbeat_end_to_end_example :
    let message = serialize fpu (PlayerServer.heartbeat_packet env 1 host).0 in
    let t = g_socket_receive 50 ∷ g_object_ref 50 ∷ [] in
    let w = (follow told_env told (record guest { trace = t })).1 in
    (sends_of message (PlayerServer.dispatch_heartbeat env host).1.trace ≡ (40, 41) ∷ [])
    × ((incomming told_env (PlayerClient.client_part told_env) 50 guest).1
        ≡ record w { trace = g_object_unref 50 ∷ g_error_free false ∷ w.trace })
heartbeat_end_to_end_example =
    heartbeat_end_to_end env told_env refl host 1 guest 50 d_one d_one refl (omega arith)
      (omega arith) (rw host_tells one-IsPrinted) (rw host_tells one-IsPrinted)
      (rw host_tells told_clean) (rw host_tells told_short) refl (rw host_tells refl)

-- What the bus tells of a way to READY and back: an element of the pipeline and the pipeline come from
-- PLAYING to PAUSED, the pipeline to READY, to PAUSED, where a seek is done, and to PLAYING.
abbrev pub told_at : ℕ → Message
told_at n =
    if n == 1
    then state_changed 9 state_playing state_paused
    else if n == 2
    then state_changed 1 state_playing state_paused
    else if n == 3
    then state_changed 1 state_paused state_ready
    else if n == 4
    then state_changed 1 state_ready state_paused
    else if n == 5
    then async_done
    else state_changed 1 state_paused state_playing

abbrev pub way_to_ready : List Message
way_to_ready = told_at 1 ∷ told_at 2 ∷ told_at 3 ∷ []

abbrev pub way_back : List Message
way_back = told_at 4 ∷ told_at 5 ∷ told_at 6 ∷ []

-- A pipeline that keeps its base time, with three messages for each request of a state.
abbrev pub keeping : Env
keeping = record env {
  base_time = λ t. elim t [ [] ↦ 0 | ◌∷◌ c u ↦ last_base 1 u ];
  bus_pending = λ t. ltb (pops t) (3 * length (state_requests t));
  bus_pop = λ t. some (told_at (pops t));
  context_pending = λ _. false;
}

keeping-Cooperates : Cooperates keeping 1
keeping-Cooperates = record { tells = λ t. refl; accepts = λ t. refl; makes = λ t. refl }

to_ready-Hands :
    Hands keeping
      (PlayerClient.hooks keeping)
      way_to_ready
      ((PlayerClient.hooks keeping).on_before_update (follow keeping packet guest).1).1
unfolding follow PlayerClient.on_before_update PlayerClient.advance_base handle_message
    on_state_message get_state loop_while d_eq get_volume set_mute iterate
to_ready-Hands = (refl, refl, (refl, refl, (refl, refl, refl)))

abbrev to_ready_heard :
    Hears keeping (PlayerClient.hooks keeping) false (follow keeping packet guest).1
to_ready_heard = record {
  messages = way_to_ready;
  hands = to_ready-Hands;
  fewer = omega arith;
  calm = refl;
}

abbrev updated_once : Sys PlayerClient
updated_once = (update keeping (PlayerClient.hooks keeping) (follow keeping packet guest).1).1

clock-Hands :
    Hands keeping
      (PlayerClient.hooks keeping)
      []
      ((PlayerClient.hooks keeping).on_before_update updated_once).1
unfolding update drain_bus has_message take_message handle_message consume_frame on_state_message
    follow PlayerClient.on_before_update PlayerClient.advance_base get_state loop_while d_eq
    get_volume set_mute iterate
clock-Hands = refl

abbrev clock_heard : Hears keeping (PlayerClient.hooks keeping) false updated_once
clock_heard = record { messages = []; hands = clock-Hands; fewer = omega arith; calm = refl }

client_converges_example :
    let t = (update keeping (PlayerClient.hooks keeping) updated_once).1 in
    let u = (follow keeping packet t).1 in
    let asked =
      (query_state keeping (follow_base keeping 123456789 (sound_followed keeping packet t)).1).0 in
    let before = state_ready ∷ [] in
    (is_some t.self.derived.net_clock ≡ true)
    × (last_base 1 t.trace ≡ 123456789)
    × (u.self.derived.base_time ≡ 0)
    × (state_requests u.trace ≡ (if asked ==ℤ pos 4 then before else pos 4 ∷ before))
client_converges_example =
    client_converges keeping 1 keeping-Cooperates (λ c t. refl) packet packet guest refl refl refl
      refl refl refl refl to_ready_heard refl clock_heard

-- A pipeline that also tells the state that was requested last.
abbrev pub obeying : Env
obeying = record keeping {
  bus_pending = λ t. ltb (pops t + 3) (3 * length (state_requests t));
  get_state_written = λ t. elim t [ [] ↦ none | ◌∷◌ c u ↦ some (last_state u) ];
}

pub obeying-Obeys : Obeys obeying 1
obeying-Obeys = record {
  tells = λ t. refl;
  accepts = λ t. refl;
  answers = λ t. refl;
  reports = λ t. refl;
}

-- A pipeline that was taken to PLAYING.
abbrev pub host_playing : Sys PlayerServer
host_playing = record host { trace = gst_element_set_state (some 1) state_playing ∷ [] }

pub seek-Hands :
    Hands obeying
      (PlayerServer.hooks obeying)
      way_to_ready
      ((PlayerServer.hooks obeying).on_before_update
        (PlayerServer.set_time obeying d_one host_playing).1).1
unfolding update drain_bus has_message take_message handle_message consume_frame on_state_message
    on_async_done query_state PlayerServer.set_time PlayerServer.on_before_update
    PlayerServer.on_state_changed PlayerServer.heartbeat_if_due PlayerServer.advance_seek
    PlayerServer.finish_seek PlayerServer.seek_base_time Server.iterate Server.has_event
    get_duration get_state loop_while clamp d_ge
seek-Hands = (refl, refl, (refl, refl, (refl, refl, refl)))

abbrev pub seek_heard :
    Hears obeying
      (PlayerServer.hooks obeying)
      true
      (PlayerServer.set_time obeying d_one host_playing).1
seek_heard = record {
  messages = way_to_ready;
  hands = seek-Hands;
  fewer = omega arith;
  calm = refl;
}

pub play-Hands :
    Hands obeying
      (PlayerServer.hooks obeying)
      way_back
      ((PlayerServer.hooks obeying).on_before_update
        (update obeying
          (PlayerServer.hooks obeying)
          (PlayerServer.set_time obeying d_one host_playing).1).1).1
unfolding update drain_bus has_message take_message handle_message consume_frame on_state_message
    on_async_done query_state PlayerServer.set_time PlayerServer.on_before_update
    PlayerServer.on_state_changed PlayerServer.heartbeat_if_due PlayerServer.advance_seek
    PlayerServer.finish_seek PlayerServer.seek_base_time Server.iterate Server.has_event
    get_duration get_state loop_while clamp d_ge
play-Hands = (refl, refl, (refl, refl, (refl, refl, refl)))

abbrev pub play_heard :
    Hears obeying
      (PlayerServer.hooks obeying)
      false
      (update obeying
        (PlayerServer.hooks obeying)
        (PlayerServer.set_time obeying d_one host_playing).1).1
play_heard = record { messages = way_back; hands = play-Hands; fewer = omega arith; calm = refl }

seek_carried_out_example :
    let t =
      (update obeying
        (PlayerServer.hooks obeying)
        (update obeying
          (PlayerServer.hooks obeying)
          (PlayerServer.set_time obeying d_one host_playing).1).1).1 in
    (t.self.pipeline ≡ some 1)
    × (t.self.pending_seek ≡ d_minus_one)
    × (last_base 1 t.trace ≡ PlayerServer.seek_base_time obeying 100 0 0 (clamp d_one d_zero d_one))
    × (state_requests t.trace ≡ state_playing ∷ state_ready ∷ state_playing ∷ [])
    × ((PlayerServer.advance_seek obeying 1 t).1 ≡ t)
seek_carried_out_example =
    seek_carried_out obeying 1 obeying-Obeys (λ t. refl) d_one host_playing refl refl refl refl
      (unfold d_ge in refl) (unfold d_ge in refl) refl seek_heard refl play_heard

-- Every text is read as 1.
abbrev lenient : Env
lenient = record env { fpu = record fpu { stod = λ _. some d_one } }

lenient-IsPrinted : (d : Double) → (r : Double) × IsPrinted lenient.fpu d r
lenient-IsPrinted d = (d_one, record { clean = show_ℕ-Lacks d; reads = refl })

abbrev opening : Session
opening = record { host = host; guest = guest; sent = []; told = [] }

abbrev beat : Bytes
beat = serialize lenient.fpu (PlayerServer.heartbeat_packet lenient 1 host).0

abbrev updated : Sys PlayerClient
updated = (PlayerClient.advance_base lenient 1 guest).1

abbrev reached : Session
reached = record {
  host = (PlayerServer.dispatch_heartbeat lenient host).1;
  guest = (PlayerClient.on_message lenient beat updated).1;
  sent = beat ∷ [];
  told = 7 ∷ [];
}

abbrev one_beat : Reach lenient lenient opening reached
one_beat =
    later (later (later start (beats 1 refl)) (advances 1 refl)) (receives beat mem-cons_self)

bases_come_from_host_example :
    ((reached.guest.self.derived.base_time ≡ 0) ⊎ Mem reached.guest.self.derived.base_time (7 ∷ []))
    × IsOfHost 0 (7 ∷ []) (last_base 1 reached.guest.trace)
bases_come_from_host_example =
    bases_come_from_host lenient lenient refl (λ t. omega arith) lenient-IsPrinted 1 one_beat refl
      refl (omega arith)

-- A pipeline that answers each request later, and is found to play.
abbrev resuming : Env
resuming = record env {
  set_state = λ _. ChangeReturn.async;
  get_state_written = λ _. some state_playing;
}

resumes_where_paused_example :
    let t = seeks resuming (d_zero ∷ []) (pause resuming (PlayerServer.hooks resuming) host).1 in
    let v =
      (handle_message resuming
        (PlayerServer.hooks resuming)
        (state_changed 1 state_paused state_playing)
        t).1 in
    (v.self.pending_seek ≡ clamp (get_time resuming host).0 d_zero d_one)
    × (v.self.derived.pending_state_seek ≡ d_minus_one)
resumes_where_paused_example =
    resumes_where_paused resuming 1 state_paused (d_zero ∷ []) host refl refl
      (unfold get_time d_ge in refl) refl refl
