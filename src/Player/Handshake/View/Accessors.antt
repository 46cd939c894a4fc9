-- ===== src/Player/Handshake/View/Accessors.antt =====
-- The plain operations of a player, and the functions of `Player` itself.
use nsvr.Prelude.{ℕ, refl, Bool, Bytes, arith}
use nsvr.Double.{Double}
use nsvr.Env.{Env}
use nsvr.Internal.Buffer.{c_string}
use nsvr.Player.Object.{get_loop, set_loop}
use nsvr.Player.Control.{query_state, base_hooks}
use nsvr.Player.Volume.{set_volume, get_volume, set_mute}
use nsvr.Player.Seek.{set_time, get_time, query_duration}
use nsvr.Player.Handshake.View.{Leaves, LeavesFrames}

module _ {X : Type 0} (env : Env) where
  pub set_mute-Leaves : (on : Bool) → Leaves {X = X} env (set_mute env on)
  unfolding set_mute set_volume get_volume
  set_mute-Leaves on b s = ground arith

  pub get_volume-Leaves : Leaves {X = X} env (get_volume env)
  unfolding get_volume
  get_volume-Leaves b s = ground arith

  pub query_duration-Leaves : Leaves {X = X} env (query_duration env)
  unfolding query_duration
  query_duration-Leaves b s = ground arith

  pub set_volume-Leaves : (volume : Double) → Leaves {X = X} env (set_volume env volume)
  unfolding set_volume
  set_volume-Leaves volume b s = ground arith

  pub set_loop-Leaves : (on : Bool) → Leaves {X = X} env (set_loop on)
  unfolding set_loop get_loop
  set_loop-Leaves on b s = ground arith

  pub query_state-Leaves : Leaves {X = X} env (query_state env)
  unfolding query_state
  query_state-Leaves b s = ground arith

  pub get_time-Leaves : Leaves {X = X} env (get_time env)
  unfolding get_time
  get_time-Leaves b s = ground arith

  pub set_time-Leaves : (time : Double) → Leaves {X = X} env (set_time env time)
  unfolding set_time
  set_time-Leaves time b s = ground arith

  pub c_string-Leaves : (n : ℕ) (bytes : Bytes) → Leaves {X = X} env (c_string n bytes)
  unfolding c_string
  c_string-Leaves n bytes b s = ground arith

  pub base_hooks-LeavesFrames : LeavesFrames {X = X} env (base_hooks env)
  base_hooks-LeavesFrames = record {
    before_open = λ b s. refl;
    before_close = λ b s. refl;
    before_update = λ b s. refl;
    before_set_state = λ state b s. refl;
    state_changed = λ old b s. ground arith;
    stream_end = λ b s. ground arith;
    seek_finished = λ b s. ground arith;
    video_frame = λ info b s. ground arith;
    clock_set_up = λ b s. refl;
    set_time = set_time-Leaves;
  }
