-- ===== src/Player/Update.antt =====
-- `Player::update` of source/nsvr/nsvr_player.cpp. The loop takes messages while the bus has some
-- pending.
pub mod Seeking
pub mod Messages
pub mod Bus
pub mod Answers
use nsvr.Prelude.{
  Bool, true, false, Option, none, some, List, [], ◌∷◌, ◌==◌, not, if◌then◌else◌, is_some,
}
use nsvr.Prelude.Int.{◌==ℤ◌}
use nsvr.Double.{d_zero, d_ge}
use nsvr.Env.{
  Env, Handle, GstState, Message, error, warning, info, async_done, duration_changed, eos, other,
  state_changed, gst_bus_have_pending, gst_bus_pop, gst_message_parse_details,
}
use nsvr.Env.Monad.{M, done, ◌>>=◌, ◌>>◌, gets, modify, ask, call, log, for_some, when, loop_while}
use nsvr.Internal.Scope.{Bound, chars, release, bind_to_scope, free_error}
use nsvr.Player.Object.{Player, Hooks, get_loop}
use nsvr.Player.Control.{replay, pause}
use nsvr.Player.Seek.{query_duration}
use nsvr.Player.Frames.{consume_frame}

abbrev pub points_to : Option Handle → Handle → Bool
points_to none h = false
points_to (some k) h = k == h

module _ {X : Type 0} (env : Env) where
  unfoldable pub has_message : M (Player X) Bool
  has_message = do bus ← gets (λ p. p.gst_bus); ask env.bus_pending (gst_bus_have_pending bus)

module _ {X : Type 0} (env : Env) (hooks : Hooks X) where
  -- gst_message_parse_state_changed writes `mState`.
  unfoldable pub on_state_message : Handle → GstState → GstState → M (Player X) (Unit {0})
  on_state_message source old new = do
    pipeline ← gets (λ p. p.pipeline)
    when (points_to pipeline source) (do
      modify (λ p. record p { state = new })
      when (not (old ==ℤ new)) (hooks.on_state_changed old))

  unfoldable pub on_async_done : M (Player X) (Unit {0})
  on_async_done = do
    modify (λ p. record p { seeking_lock = false })
    pending ← gets (λ p. p.pending_seek)
    when (d_ge pending d_zero) (hooks.set_time pending)
    hooks.on_seek_finished

  unfoldable pub on_eos : M (Player X) (Unit {0})
  on_eos = do
    hooks.on_stream_end
    loop ← get_loop
    if loop then replay env hooks else pause env hooks

  -- The error of a message and its details, which are logged.
  abbrev report : M (Player X) (Unit {0})
  report = do call gst_message_parse_details; log; call (release chars); free_error true

  -- The switch on the type of the message.
  unfoldable pub handle_message : Message → M (Player X) (Unit {0})
  unfolding on_state_message on_async_done on_eos
  handle_message error = report
  handle_message (state_changed source old new) = on_state_message source old new
  handle_message async_done = on_async_done
  handle_message duration_changed = query_duration env
  handle_message eos = on_eos
  handle_message warning = report
  handle_message info = report
  handle_message other = done

  -- A message is unreferenced at the end of its scope.
  unfoldable pub take_message : M (Player X) (Unit {0})
  unfolding handle_message
  take_message = do
    bus ← gets (λ p. p.gst_bus)
    message ← ask env.bus_pop (gst_bus_pop bus)
    for_some message (λ m. bind_to_scope Bound.message (handle_message m))

  unfoldable pub drain_bus : M (Player X) (Unit {0})
  unfolding has_message take_message
  drain_bus = loop_while env.rounds (has_message env) take_message

  unfoldable pub update : M (Player X) (Unit {0})
  unfolding drain_bus
  update = do
    hooks.on_before_update
    bus ← gets (λ p. p.gst_bus)
    when (is_some bus) drain_bus
    consume_frame env hooks
