-- ===== src/PlayerServer/Resuming.antt =====
-- How `PlayerServer` goes on where it was paused: `onBeforeSetState` and `onStateChanged`.
use nsvr.Prelude.{◌≡◌, true, false, some, List, [], ◌∷◌, arith}
use nsvr.Prelude.Int.{◌==ℤ◌}
use nsvr.Double.{Double, d_zero, d_minus_one, d_ge, clamp}
use nsvr.Env.{
  Env, Handle, GstState, state_paused, state_playing, is_success, state_changed,
  gst_element_set_state, gst_element_get_state,
}
use nsvr.Env.Monad.{Sys}
use nsvr.Player.Object.{get_state, get_duration}
use nsvr.Player.Seek.{get_time}
use nsvr.Player.Control.{set_state, query_state, pause}
use nsvr.Player.Update.{handle_message}
use nsvr.PlayerServer.{PlayerServer, hooks, set_time, on_before_set_state, on_state_changed}

module _ (env : Env) where
  -- `setTime` for each of some times.
  abbrev pub seeks : List Double → Sys PlayerServer → Sys PlayerServer
  seeks [] s = s
  seeks (x ∷ xs) s = seeks xs (set_time env x s).1

  -- What a pause leaves behind, and what no request for a time takes away.
  record Keeps (h : Handle) (time length : Double) (s : Sys PlayerServer) : Type 0 where
    pub pipeline : s.self.pipeline ≡ some h
    pub duration : s.self.duration ≡ length
    pub kept : s.self.derived.pending_state_seek ≡ time

  set_time-Keeps :
      {h : Handle} {time length : Double} (x : Double) {s : Sys PlayerServer}
      → Keeps h time length s
      → Keeps h time length (set_time env x s).1
  unfolding set_time query_state get_duration
  set_time-Keeps x k = ground arith

  seeks-Keeps :
      {h : Handle} {time length : Double} (xs : List Double) {s : Sys PlayerServer}
      → Keeps h time length s
      → Keeps h time length (seeks xs s)
  seeks-Keeps [] k = k
  seeks-Keeps (x ∷ xs) k = seeks-Keeps xs (set_time-Keeps x k)

  pause-Keeps :
      (h : Handle) (s : Sys PlayerServer)
      → s.self.pipeline ≡ some h
      → let (time, u) = get_time env s in
        is_success (env.set_state (gst_element_set_state (some h) state_paused ∷ u.trace)) ≡ false
        → Keeps h time s.self.duration (pause env (hooks env) s).1
  unfolding pause set_state on_before_set_state get_time get_state
  pause-Keeps h s e waits = ground arith

  plays_on :
      {h : Handle} {time length : Double} (old : GstState) (s : Sys PlayerServer)
      → Keeps h time length s
      → d_ge time d_zero ≡ true
      → old ==ℤ state_playing ≡ false
      → env.get_state_written (gst_element_get_state (some h) ∷ s.trace) ≡ some state_playing
      → let t = (handle_message env (hooks env) (state_changed h old state_playing) s).1 in
        (t.self.pending_seek ≡ clamp time d_zero length)
        × (t.self.derived.pending_state_seek ≡ d_minus_one)
  unfolding handle_message on_state_changed query_state set_time get_duration
  plays_on old s k some_time differs plays = ground arith

  -- A server goes on where it was paused: when its pipeline tells that it plays again, a seek to
  -- the time of the pause, clamped to the duration, is pending, and no further one is kept for
  -- the next time; whatever times were requested in between, which are all forgotten. The server
  -- has a pipeline, the time of the pause is not negative, the request to pause is not answered
  -- with success at once, and the query of the state agrees with the message, which tells of
  -- another old state.
  pub resumes_where_paused :
      (h : Handle) (old : GstState) (xs : List Double) (s : Sys PlayerServer)
      → s.self.pipeline ≡ some h
      → let (time, u) = get_time env s in
        is_success (env.set_state (gst_element_set_state (some h) state_paused ∷ u.trace)) ≡ false
        → d_ge time d_zero ≡ true
        → old ==ℤ state_playing ≡ false
        → let t = seeks xs (pause env (hooks env) s).1 in
          env.get_state_written (gst_element_get_state (some h) ∷ t.trace) ≡ some state_playing
          → let v = (handle_message env (hooks env) (state_changed h old state_playing) t).1 in
            (v.self.pending_seek ≡ clamp time d_zero s.self.duration)
            × (v.self.derived.pending_state_seek ≡ d_minus_one)
  resumes_where_paused h old xs s e waits some_time differs plays =
      plays_on old _ (seeks-Keeps xs (pause-Keeps h s e waits)) some_time differs plays
