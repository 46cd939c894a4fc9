-- ===== src/Player/Update/Messages.antt =====
-- What the messages of the bus make `update` do.
use nsvr.Prelude.{◌≡◌, true, false, Option, none, some, List, [], ◌∷◌, arith, if◌then◌else◌}
use nsvr.Env.{
  Env, Handle, Call, Trace, GstState, state_null, state_ready, state_paused, state_playing, eos,
  state_changed, gst_element_set_state, on_stream_end,
}
use nsvr.Env.Monad.{Sys}
use nsvr.Env.Count.{push_some}
use nsvr.Player.Object.{Player, Hooks, get_loop}
use nsvr.Player.Volume.{get_volume, set_volume, set_mute}
use nsvr.Player.Control.{set_state, stop, play, replay, pause, base_hooks}
use nsvr.Player.Update.{handle_message, points_to}

-- The states that were requested of a pipeline, newest first.
abbrev requested : Call → Option GstState
requested (gst_element_set_state (some _) state) = some state
requested _ = none

abbrev pub state_requests : Trace → List GstState
state_requests [] = []
state_requests (c ∷ t) = push_some (requested c) (state_requests t)

module _ {X : Type 0} (env : Env) where
  set_state_requests :
      (state : GstState) (s : Sys (Player X)) (h : Handle)
      → s.self.pipeline ≡ some h
      → let t = (set_state env (base_hooks env) state s).1 in
        (state_requests t.trace ≡ state ∷ state_requests s.trace) × (t.self ≡ s.self)
  unfolding set_state
  set_state_requests state s h e = ground arith

  set_mute_requests :
      (s : Sys (Player X))
      → let t = (set_mute env true s).1 in (state_requests t.trace ≡ state_requests s.trace)
  unfolding set_mute set_volume get_volume
  set_mute_requests s = ground arith

  get_volume_requests :
      (s : Sys (Player X))
      → let t = (get_volume env s).1 in (state_requests t.trace ≡ state_requests s.trace)
  unfolding get_volume
  get_volume_requests s = ground arith

  play_requests :
      (s : Sys (Player X)) (h : Handle)
      → s.self.pipeline ≡ some h
      → let t = (play env (base_hooks env) s).1 in
        (state_requests t.trace ≡ state_playing ∷ state_requests s.trace)
  unfolding play
  play_requests s h e =
      let s1 = (set_state env (base_hooks env) state_playing s).1 in
      let s2 = (get_volume env s1).1 in
      ground (
        arith,
        set_state_requests state_playing s h e,
        get_volume_requests s1,
        set_mute_requests s2,
      )

  -- At the end of the stream a looping player with a pipeline requests NULL, READY and PLAYING in
  -- this order, and one that does not loop requests PAUSED only; with the functions of Player
  -- itself.
  pub eos_requests :
      (s : Sys (Player X)) (h : Handle)
      → s.self.pipeline ≡ some h
      → state_requests (handle_message env (base_hooks env) eos s).1.trace ≡ (
          if s.self.loop
          then state_playing ∷ state_ready ∷ state_null ∷ state_requests s.trace
          else state_paused ∷ state_requests s.trace)
  unfolding handle_message get_loop replay stop pause
  eos_requests s h e =
      let s0 : Sys (Player X) = record s { trace = on_stream_end ∷ s.trace } in
      let s1 = (set_state env (base_hooks env) state_null s0).1 in
      let s2 = (set_state env (base_hooks env) state_ready s1).1 in
      ground (
        arith,
        set_state_requests state_paused s0 h e,
        set_state_requests state_null s0 h e,
        set_state_requests state_ready s1 h,
        play_requests s2 h,
      )

  -- A change of state of another element than the pipeline changes nothing and is told to nobody;
  -- whatever the virtual functions are.
  foreign_state_ignored :
      (hooks : Hooks X) (source : Handle) (old new : GstState) (s : Sys (Player X))
      → points_to s.self.pipeline source ≡ false
      → (handle_message env hooks (state_changed source old new) s).1 ≡ s
  unfolding handle_message
  foreign_state_ignored hooks source old new s e = ground arith
