-- ===== src/PlayerClient.antt =====
-- `PlayerClient` of include/nsvr/nsvr_player_client.hpp and source/nsvr/nsvr_player_client.cpp: a
-- `Player` whose added fields hold a `Client`.
pub mod Messages
pub mod Sync
pub mod Arrival
pub mod Convergence
pub mod Bases
pub mod Updates
pub mod Waiting
pub mod Sound
pub mod Frames
pub mod Following
use nsvr.Prelude.{
  ℕ, Bool, true, false, ◌&&◌, ◌||◌, Option, none, some, Bytes, codes, is_empty, not, ◌==◌, same,
  is_some, if◌then◌else◌,
}
use nsvr.Prelude.Int.{ℤ, pos, ◌==ℤ◌}
use nsvr.Double.{Double, d_eq}
use nsvr.Env.{
  Env, Handle, state_ready, is_failure, gst_net_client_clock_new, gst_clock_set_timeout,
  gst_pipeline_use_clock, gst_element_set_start_time, gst_element_set_base_time,
  gst_element_get_base_time, gst_element_set_state, gst_object_unref, on_stream_end,
  on_seek_finished, on_video_frame, on_state_changed,
}
use nsvr.Env.Monad.{
  M, pure, done, ◌>>=◌, ◌>>◌, gets, modify, ask, call, log, for_some, when, Part, in_part,
}
use nsvr.Internal.ClockPort.{get_clock_port}
use nsvr.Packet.{Packet, default_packet, clock_time_none, parse}
use nsvr.Player.Object.{Player, Hooks, get_state, get_mute}
use nsvr.Player.Volume.{get_volume, set_volume, set_mute}
use nsvr.Player.Seek.{set_time}
use nsvr.Player.Control.{query_state, set_state}
use nsvr.Client
use nsvr.Client.{Client}

pub record ClientPart : Type 0 where
  pub client : Client
  pub net_clock : Option Handle
  pub base_time : ℕ

abbrev pub PlayerClient : Type 0
PlayerClient = Player ClientPart

abbrev pub update_part : (ClientPart → ClientPart) → M PlayerClient (Unit {0})
update_part f = modify (λ p. record p { derived = f p.derived })

abbrev pub get_client : PlayerClient → Client
get_client p = p.derived.client

abbrev pub put_client : Client → PlayerClient → PlayerClient
put_client c p = record p { derived = record p.derived { client = c } }

-- The client, where no message can come in.
abbrev pub quiet_part : Part PlayerClient Client
quiet_part = record { get = get_client; put = put_client; on_message = λ _. done }

-- A gboolean is true if it is not FALSE.
abbrev pub is_true : ℤ → Bool
is_true i = not (i ==ℤ pos 0)

module _ (env : Env) where
  unfoldable pub construct : Bytes → ℤ → M PlayerClient (Unit {0})
  construct address port = do
    update_part (λ d. record { client = Client.construct; net_clock = none; base_time = 0 })
    connected ← in_part quiet_part (Client.connect env address port)
    if not connected then log else in_part quiet_part (Client.send_to_server env (codes "nsvr"))

  unfoldable pub clear_clock : M PlayerClient (Unit {0})
  clear_clock = do
    p ← gets (λ p. p)
    for_some p.pipeline λ h. do
      for_some p.derived.net_clock (λ k. call (gst_object_unref k))
      update_part (λ d. record d { net_clock = none })
      call (gst_element_set_base_time h clock_time_none)

  pub use_clock : Handle → Handle → ℕ → M PlayerClient (Unit {0})
  use_clock pipeline clock base_time = do
    update_part (λ d. record d { net_clock = some clock })
    call (gst_clock_set_timeout clock)
    call (gst_pipeline_use_clock pipeline clock)
    call (gst_element_set_start_time pipeline clock_time_none)
    call (gst_element_set_base_time pipeline base_time)

  unfoldable pub setup_clock : M PlayerClient (Unit {0})
  unfolding clear_clock use_clock
  setup_clock = do
    p ← gets (λ p. p)
    for_some p.pipeline λ h. when (not (p.derived.base_time == 0)) (do
      clear_clock
      let client = p.derived.client
      clock ← ask env.net_client_clock (
          gst_net_client_clock_new client.server_address (get_clock_port client.server_port)
            p.derived.base_time)
      for_some clock (λ k. use_clock h k p.derived.base_time)
      update_part (λ d. record d { base_time = 0 }))

  -- The virtual functions that a change of state calls are not overridden here.
  abbrev pub state_hooks : Hooks ClientPart
  state_hooks = record {
    on_before_open = in_part quiet_part (Client.send_to_server env (codes "nsvr"));
    on_before_close = clear_clock;
    on_before_update = done;
    on_before_set_state = λ _. done;
    on_state_changed = λ old. call (on_state_changed old);
    on_stream_end = call on_stream_end;
    on_seek_finished = call on_seek_finished;
    on_video_frame = λ info. call (on_video_frame info);
    setup_clock = setup_clock;
    set_time = set_time env;
  }

  pub follow_mute : Bool → M PlayerClient (Unit {0})
  unfolding get_mute
  follow_mute target = do mute ← get_mute; when (not (same mute target)) (set_mute env target)

  pub follow_volume : Double → M PlayerClient (Unit {0})
  follow_volume target = do
    volume ← get_volume env
    when (not (d_eq volume target)) (set_volume env target)

  -- A new base time waits for the next update. The base time is asked for only of a pipeline.
  pub follow_base : ℕ → M PlayerClient (Unit {0})
  follow_base target = do
    pipeline ← gets (λ p. p.pipeline)
    elim pipeline [
      | none ↦ update_part (λ d. record d { base_time = target })
      | some h ↦ do
        base ← ask env.base_time (gst_element_get_base_time h)
        when (not (base == target)) (update_part (λ d. record d { base_time = target }))
    ]

  -- The state is followed only while no base time waits.
  pub follow_state : ℤ → M PlayerClient (Unit {0})
  follow_state target = do
    waiting ← gets (λ p. p.derived.base_time)
    when (waiting == 0) (do
      state ← query_state env
      when (not (state ==ℤ target)) (set_state env state_hooks target))

  unfoldable pub follow : Packet → M PlayerClient (Unit {0})
  unfolding follow_mute follow_volume follow_base follow_state
  follow packet = do
    follow_mute (is_true packet.mute)
    follow_volume packet.volume
    follow_base packet.base
    follow_state packet.state

  unfoldable pub on_message : Bytes → M PlayerClient (Unit {0})
  unfolding follow
  on_message message = if is_empty message then done else do
    let (accepted, packet) = parse env.fpu message default_packet
    when accepted (follow packet)

  abbrev pub client_part : Part PlayerClient Client
  client_part = record { get = get_client; put = put_client; on_message = on_message }

  -- A waiting base time first takes the pipeline to READY, and once it is there sets up the clock.
  unfoldable pub advance_base : Handle → M PlayerClient (Unit {0})
  unfolding setup_clock get_state
  advance_base pipeline = do
    waiting ← gets (λ p. p.derived.base_time)
    when (not (waiting == 0)) (do
      state ← get_state
      if not (state ==ℤ state_ready)
          then (do
            changed ← ask env.set_state (gst_element_set_state (some pipeline) state_ready)
            when (is_failure changed) log)
          else (log >> setup_clock))

  unfoldable pub on_before_update : M PlayerClient (Unit {0})
  unfolding advance_base
  on_before_update = do
    pipeline ← gets (λ p. p.pipeline)
    for_some pipeline λ h. do Client.iterate env client_part; advance_base h

  unfoldable pub on_before_open : M PlayerClient (Unit {0})
  on_before_open = in_part quiet_part (Client.send_to_server env (codes "nsvr"))

  unfoldable pub on_before_close : M PlayerClient (Unit {0})
  unfolding clear_clock
  on_before_close = clear_clock

  abbrev pub hooks : Hooks ClientPart
  hooks = record state_hooks {
    on_before_open = on_before_open;
    on_before_close = on_before_close;
    on_before_update = on_before_update;
  }
