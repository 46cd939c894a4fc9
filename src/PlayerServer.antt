-- ===== src/PlayerServer.antt =====
-- `PlayerServer` of include/nsvr/nsvr_player_server.hpp and source/nsvr/nsvr_player_server.cpp: a
-- `Player` whose added fields hold a `Server`. `mClockOffset` is neither set nor read by the program.
pub mod Heartbeat
pub mod Seeking
pub mod Passing
pub mod Frames
pub mod Resuming
pub mod Updates
pub mod Following
pub mod Clock
pub mod Dispatch
use nsvr.Prelude.{
  ℕ, ◌+◌, ◌-◌, ◌%◌, ◌^◌, Bool, true, false, ◌&&◌, Option, none, some, Bytes, not, ltb, ◌==◌,
  is_some, if◌then◌else◌,
}
use nsvr.Prelude.Int.{ℤ, pos, ◌==ℤ◌}
use nsvr.Double.{Double, d_zero, d_minus_one, d_ge, clamp}
use nsvr.Env.{
  Env, Handle, GstState, state_null, state_ready, state_paused, state_playing, is_failure,
  gst_clock_get_time, gst_pipeline_get_clock, gst_net_time_provider_new, gst_clock_set_timeout,
  gst_pipeline_use_clock, gst_element_set_start_time, gst_element_set_base_time,
  gst_element_get_base_time, gst_element_set_state, gst_object_unref, on_stream_end,
  on_seek_finished, on_video_frame, on_message,
}
use nsvr.Env.Monad.{
  M, pure, done, ◌>>=◌, ◌>>◌, gets, modify, ask, call, log, for_some, when, Part, in_part,
}
use nsvr.Internal.ClockPort.{get_clock_port}
use nsvr.Packet.{Packet, clock_time_none, serialize}
use nsvr.Player.Object.{Player, Hooks, get_state, get_mute, get_duration}
use nsvr.Player.Volume.{get_volume}
use nsvr.Player.Seek.{get_time}
use nsvr.Player.Control.{query_state}
use nsvr.Server
use nsvr.Server.{Server}

pub record ServerPart : Type 0 where
  pub server : Server
  pub net_clock : Option Handle
  pub net_provider : Option Handle
  pub pending_current_time : ℕ
  pub pending_state_seek : Double
  pub pending_state : GstState
  pub heartbeat_counter : ℕ
  pub heartbeat_frequency : ℕ

abbrev pub PlayerServer : Type 0
PlayerServer = Player ServerPart

abbrev pub update_part : (ServerPart → ServerPart) → M PlayerServer (Unit {0})
update_part f = modify (λ p. record p { derived = f p.derived })

-- `onMessage` is left to the user's class.
abbrev pub server_part : Part PlayerServer Server
server_part = record {
  get = λ p. p.derived.server;
  put = λ s p. record p { derived = record p.derived { server = s } };
  on_message = λ m. call (on_message m);
}

-- FALSE is 0, TRUE is 1.
abbrev pub gboolean : Bool → ℤ
gboolean false = pos 0
gboolean true = pos 1

abbrev pub u64 : ℕ → ℕ
u64 n = n % 2 ^ 64

abbrev pub u32 : ℕ → ℕ
u32 n = n % 2 ^ 32

module _ (env : Env) where
  -- The members' initialisers and the body; the base class's constructor has run before.
  unfoldable pub construct : Bytes → ℤ → M PlayerServer (Unit {0})
  construct address port = do
    update_part (λ d. record {
      server = Server.construct;
      net_clock = none;
      net_provider = none;
      pending_current_time = clock_time_none;
      pending_state_seek = d_minus_one;
      pending_state = state_null;
      heartbeat_counter = 0;
      heartbeat_frequency = 30;
    })
    listening ← in_part server_part (Server.listen env address port)
    when (not listening) log

  unfoldable pub set_heartbeat_frequency : ℕ → M PlayerServer (Unit {0})
  set_heartbeat_frequency freq = do
    d ← gets (λ p. p.derived)
    when (not (freq == d.heartbeat_frequency))
        (update_part (λ d. record d { heartbeat_frequency = freq; heartbeat_counter = 0 }))

  unfoldable pub get_heartbeat_frequency : M PlayerServer ℕ
  get_heartbeat_frequency = gets (λ p. p.derived.heartbeat_frequency)

  unfoldable pub set_time : Double → M PlayerServer (Unit {0})
  unfolding get_duration
  set_time time = do
    clock ← gets (λ p. p.derived.net_clock)
    now ← ask env.clock_time (gst_clock_get_time clock)
    update_part (λ d. record d { pending_current_time = now })
    duration ← get_duration
    modify (λ p. record p { pending_seek = clamp time d_zero duration })
    state ← query_state env
    update_part (λ d. record d { pending_state = state })

  unfoldable pub clear_clock : M PlayerServer (Unit {0})
  clear_clock = do
    p ← gets (λ p. p)
    when (is_some p.pipeline) (do
      for_some p.derived.net_clock (λ h. call (gst_object_unref h))
      for_some p.derived.net_provider (λ h. call (gst_object_unref h))
      update_part (λ d. record d { net_clock = none; net_provider = none }))

  -- With a clock and a provider: the pipeline runs on the clock, from now.
  start_clock : Handle → Handle → M PlayerServer (Unit {0})
  start_clock pipeline clock = do
    base_time ← ask env.clock_time (gst_clock_get_time (some clock))
    call (gst_clock_set_timeout clock)
    call (gst_pipeline_use_clock pipeline clock)
    call (gst_element_set_start_time pipeline clock_time_none)
    call (gst_element_set_base_time pipeline base_time)

  provide_clock : Handle → Handle → M PlayerServer (Unit {0})
  unfolding start_clock
  provide_clock pipeline clock = do
    server ← gets (λ p. p.derived.server)
    provider ←
        ask env.net_time_provider (
          gst_net_time_provider_new clock server.listen_address (get_clock_port server.listen_port))
    update_part (λ d. record d { net_provider = provider })
    when (is_some provider) (start_clock pipeline clock)

  unfoldable pub setup_clock : M PlayerServer (Unit {0})
  unfolding clear_clock provide_clock
  setup_clock = do
    pipeline ← gets (λ p. p.pipeline)
    for_some pipeline λ h. do
      clear_clock
      clock ← ask env.pipeline_clock (gst_pipeline_get_clock h)
      update_part (λ d. record d { net_clock = clock })
      for_some clock (provide_clock h)

  unfoldable pub on_before_set_state : GstState → M PlayerServer (Unit {0})
  on_before_set_state target =
      if target ==ℤ state_null
      then update_part (λ d. record d { pending_state_seek = d_zero })
      else if target ==ℤ state_paused
      then (do time ← get_time env; update_part (λ d. record d { pending_state_seek = time }))
      else done

  unfoldable pub on_state_changed : GstState → M PlayerServer (Unit {0})
  unfolding set_time
  on_state_changed old = do
    state ← query_state env
    d ← gets (λ p. p.derived)
    when (state ==ℤ state_playing && d_ge d.pending_state_seek d_zero) (do
      set_time d.pending_state_seek
      update_part (λ d. record d { pending_state_seek = d_minus_one }))

  -- The packet that a heartbeat carries, with the calls that fill it.
  unfoldable pub heartbeat_packet : Handle → M PlayerServer Packet
  unfolding get_mute get_state
  heartbeat_packet pipeline = do
    time ← get_time env
    volume ← get_volume env
    mute ← get_mute
    state ← get_state
    base ← ask env.base_time (gst_element_get_base_time pipeline)
    pure (record { time = time; volume = volume; mute = gboolean mute; state = state; base = base })

  unfoldable pub dispatch_heartbeat : M PlayerServer (Unit {0})
  unfolding heartbeat_packet
  dispatch_heartbeat = do
    pipeline ← gets (λ p. p.pipeline)
    for_some pipeline λ h. do
      packet ← heartbeat_packet h
      in_part server_part (Server.broadcast_to_clients env (serialize env.fpu packet))

  unfoldable pub on_before_close : M PlayerServer (Unit {0})
  unfolding clear_clock
  on_before_close = clear_clock

  -- The test of the counter, and the reset behind a heartbeat.
  unfoldable pub heartbeat_if_due : M PlayerServer (Unit {0})
  unfolding dispatch_heartbeat
  heartbeat_if_due = do
    d ← gets (λ p. p.derived)
    when (ltb d.heartbeat_frequency d.heartbeat_counter)
        (do dispatch_heartbeat; update_part (λ d. record d { heartbeat_counter = 0 }))

  -- The new base time of a pending seek: unsigned sums and differences wrap.
  unfoldable pub seek_base_time : ℕ → ℕ → ℕ → Double → ℕ
  seek_base_time now base base' target =
      let time_curr = env.fpu.seconds_u64 (u64 (now + 2 ^ 64 - base)) in
      let time_diff = env.fpu.sub time_curr target in
      u64 (base' + env.fpu.nanoseconds_u64 time_diff)

  -- A pending seek first takes the pipeline to READY, and once it is there sets the base time and goes
  -- back to the state that it was in.
  unfoldable pub finish_seek : Handle → M PlayerServer (Unit {0})
  unfolding seek_base_time
  finish_seek pipeline = do
    base ← ask env.base_time (gst_element_get_base_time pipeline)
    base' ← ask env.base_time (gst_element_get_base_time pipeline)
    p ← gets (λ p. p)
    call (
        gst_element_set_base_time pipeline
          (seek_base_time p.derived.pending_current_time base base' p.pending_seek))
    changed ← ask env.set_state (gst_element_set_state (some pipeline) p.derived.pending_state)
    when (is_failure changed) log
    modify (λ p. record p {
      pending_seek = d_minus_one;
      derived = record p.derived {
        pending_state = state_null;
        pending_current_time = clock_time_none;
      };
    })

  unfoldable pub advance_seek : Handle → M PlayerServer (Unit {0})
  unfolding get_state finish_seek
  advance_seek pipeline = do
    pending ← gets (λ p. p.pending_seek)
    when (d_ge pending d_zero) (do
      state ← get_state
      if not (state ==ℤ state_ready)
          then (do
            changed ← ask env.set_state (gst_element_set_state (some pipeline) state_ready)
            when (is_failure changed) log)
          else finish_seek pipeline)

  unfoldable pub on_before_update : M PlayerServer (Unit {0})
  unfolding heartbeat_if_due advance_seek
  on_before_update = do
    pipeline ← gets (λ p. p.pipeline)
    for_some pipeline λ h. do
      Server.iterate env server_part
      heartbeat_if_due
      advance_seek h
      update_part (λ d. record d { heartbeat_counter = u32 (d.heartbeat_counter + 1) })

  -- The overrides of this class; the others are left to the user's class.
  abbrev pub hooks : Hooks ServerPart
  hooks = record {
    on_before_open = done;
    on_before_close = on_before_close;
    on_before_update = on_before_update;
    on_before_set_state = on_before_set_state;
    on_state_changed = on_state_changed;
    on_stream_end = call on_stream_end;
    on_seek_finished = call on_seek_finished;
    on_video_frame = λ info. call (on_video_frame info);
    setup_clock = setup_clock;
    set_time = set_time;
  }
