-- ===== src/Player/Control.antt =====
-- `setState`, `queryState`, `stop`, `play`, `replay`, `pause` and `close` of
-- source/nsvr/nsvr_player.cpp.
pub mod Laws
use nsvr.Prelude.{Bool, true, false, Option, none, some, not, is_some, if◌then◌else◌}
use nsvr.Double.{Double, d_zero, d_eq}
use nsvr.Env.{
  Env, GstState, state_null, state_ready, state_paused, state_playing, is_success, is_failure,
  gst_element_set_state, gst_element_get_state, gst_object_unref, on_state_changed, on_stream_end,
  on_seek_finished, on_video_frame,
}
use nsvr.Env.Monad.{M, pure, done, ◌>>=◌, ◌>>◌, gets, modify, ask, also, call, log, for_some, when}
use nsvr.Player.Object.{Player, Hooks, reset, get_state, get_mute}
use nsvr.Player.Volume.{get_volume, set_mute}
use nsvr.Player.Seek.{set_time}
use nsvr.Player.Frames.{release_frame}

abbrev pub or_state : Option GstState → GstState → GstState
or_state none old = old
or_state (some new) old = new

module _ {X : Type 0} (env : Env) where
  -- The pipeline is read again behind the virtual call.
  unfoldable pub set_state : Hooks X → GstState → M (Player X) (Unit {0})
  unfolding get_state
  set_state hooks state = do
    guarded ← gets (λ p. p.pipeline)
    when (is_some guarded) (do
      hooks.on_before_set_state state
      old_state ← get_state
      pipeline ← gets (λ p. p.pipeline)
      result ← ask env.set_state (gst_element_set_state pipeline state)
      when (is_success result) (hooks.on_state_changed old_state))

  -- gst_element_get_state writes `mState`, or leaves it.
  unfoldable pub query_state : M (Player X) GstState
  query_state = do
    pipeline ← gets (λ p. p.pipeline)
    result ← ask env.get_state (gst_element_get_state pipeline)
    written ← also env.get_state_written
    modify (λ p. record p { state = or_state written p.state })
    when (is_failure result) log
    gets (λ p. p.state)

module _ {X : Type 0} (env : Env) (hooks : Hooks X) where
  unfoldable pub stop : M (Player X) (Unit {0})
  stop = set_state env hooks state_null >> set_state env hooks state_ready

  unfoldable pub play : M (Player X) (Unit {0})
  unfolding get_mute
  play = do
    set_state env hooks state_playing
    muted ← get_mute
    when muted (do v ← get_volume env; when (not (d_eq v d_zero)) (set_mute env true))

  unfoldable pub replay : M (Player X) (Unit {0})
  replay = stop >> play

  unfoldable pub pause : M (Player X) (Unit {0})
  pause = set_state env hooks state_paused

  -- The handles that the player holds, given back.
  unfoldable pub release_all : M (Player X) (Unit {0})
  release_all = do
    p ← gets (λ p. p)
    for_some p.pipeline (λ h. call (gst_object_unref h))
    for_some p.gst_bus (λ h. call (gst_object_unref h))
    release_frame env

  unfoldable pub close : M (Player X) (Unit {0})
  close = do hooks.on_before_close; stop; release_all; reset

module _ {X : Type 0} (env : Env) where
  -- The functions of `Player` itself: empty, but `setTime`. Those that tell a user's class something
  -- are recorded.
  abbrev pub base_hooks : Hooks X
  base_hooks = record {
    on_before_open = done;
    on_before_close = done;
    on_before_update = done;
    on_before_set_state = λ _. done;
    on_state_changed = λ old. call (on_state_changed old);
    on_stream_end = call on_stream_end;
    on_seek_finished = call on_seek_finished;
    on_video_frame = λ info. call (on_video_frame info);
    setup_clock = done;
    set_time = set_time env;
  }

  -- `Player::~Player`: the classes derived from it are gone, so `close` finds the functions above.
  unfoldable pub destroy : M (Player X) (Unit {0})
  unfolding close
  destroy = close env base_hooks
