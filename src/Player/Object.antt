-- ===== src/Player/Object.antt =====
-- The fields of `Player`, its constructor and `reset`, the plain accessors, and its virtual functions.
use nsvr.Prelude.{Bool, false, Option, none, not, same}
use nsvr.Prelude.Int.{ℤ, pos}
use nsvr.Double.{Double, d_zero, d_one, d_minus_one}
use nsvr.Env.{Env, Handle, GstState, state_null, MapInfo}
use nsvr.Env.Monad.{M, ◌>>=◌, ◌>>◌, gets, modify, log, when}
use nsvr.Internal.System.{gstreamer_initialized}

-- `derived` holds the fields that a subclass adds.
pub record Player (X : Type 0) : Type 0 where
  pub state : GstState
  pub map_info : MapInfo
  pub current_sample : Option Handle
  pub current_buffer : Option Handle
  pub pipeline : Option Handle
  pub gst_bus : Option Handle
  pub pending_seek : Double
  pub seeking_lock : Bool
  pub width : ℤ
  pub height : ℤ
  pub duration : Double
  pub time : Double
  pub volume : Double
  pub buffer_dirty : Bool
  pub loop : Bool
  pub mute : Bool
  pub derived : X

-- The virtual functions that the methods of `Player` call.
pub record Hooks (X : Type 0) : Type 0 where
  pub on_before_open : M (Player X) (Unit {0})
  pub on_before_close : M (Player X) (Unit {0})
  pub on_before_update : M (Player X) (Unit {0})
  pub on_before_set_state : GstState → M (Player X) (Unit {0})
  pub on_state_changed : GstState → M (Player X) (Unit {0})
  pub on_stream_end : M (Player X) (Unit {0})
  pub on_seek_finished : M (Player X) (Unit {0})
  pub on_video_frame : MapInfo → M (Player X) (Unit {0})
  pub setup_clock : M (Player X) (Unit {0})
  pub set_time : Double → M (Player X) (Unit {0})

module _ {X : Type 0} where
  -- `mLoop`, `mMute`, the mapped frame and the subclass's fields are left alone.
  abbrev pub cleared : Player X → Player X
  cleared p = record p {
    state = state_null;
    current_sample = none;
    current_buffer = none;
    pipeline = none;
    gst_bus = none;
    pending_seek = d_minus_one;
    seeking_lock = false;
    width = pos 0;
    height = pos 0;
    duration = d_zero;
    time = d_zero;
    volume = d_one;
    buffer_dirty = false;
  }

  unfoldable pub reset : M (Player X) (Unit {0})
  reset = modify cleared

  -- `Player::Player`, on memory whose contents do not matter but for the mapped frame.
  unfoldable pub construct : Env → M (Player X) (Unit {0})
  unfolding reset
  construct env = do
    modify (λ p. record p { loop = false; mute = false })
    reset
    ready ← gstreamer_initialized env
    when (not ready) log

  unfoldable pub get_state : M (Player X) GstState
  get_state = gets (λ p. p.state)

  unfoldable pub get_duration : M (Player X) Double
  get_duration = gets (λ p. p.duration)

  unfoldable pub get_loop : M (Player X) Bool
  get_loop = gets (λ p. p.loop)

  -- g_return_if_fail(mLoop != on)
  unfoldable pub set_loop : Bool → M (Player X) (Unit {0})
  set_loop on = do loop ← get_loop; when (not (same loop on)) (modify (λ p. record p { loop = on }))

  unfoldable pub get_mute : M (Player X) Bool
  get_mute = gets (λ p. p.mute)

  unfoldable pub get_width : M (Player X) ℤ
  get_width = gets (λ p. p.width)

  unfoldable pub get_height : M (Player X) ℤ
  get_height = gets (λ p. p.height)
