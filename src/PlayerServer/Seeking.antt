-- ===== src/PlayerServer/Seeking.antt =====
-- How `onBeforeUpdate` of `PlayerServer` carries out a pending seek.
use nsvr.Prelude.{◌≡◌, refl, true, false, some, ◌∷◌, arith}
use nsvr.Prelude.Int.{◌==ℤ◌}
use nsvr.Double.{d_zero, d_minus_one, d_ge}
use nsvr.Double.Order.{minus_one_not_ge}
use nsvr.Env.{
  Env, Handle, Trace, GstState, state_null, state_ready, is_failure, state_changed,
  gst_element_set_state, gst_element_get_state, gst_element_get_base_time,
  gst_element_set_base_time,
}
use nsvr.Env.Monad.{Sys}
use nsvr.Packet.{clock_time_none}
use nsvr.Player.Object.{get_state}
use nsvr.Player.Control.{query_state}
use nsvr.Player.Update.{handle_message}
use nsvr.PlayerServer.{
  PlayerServer, advance_seek, finish_seek, seek_base_time, on_state_changed, hooks,
}

module _ (env : Env) where
  -- Without a pending seek an update does nothing for it.
  pub advance_seek_idle :
      (h : Handle) (s : Sys PlayerServer)
      → s.self.pending_seek ≡ d_minus_one
      → (advance_seek env h s).1 ≡ s
  unfolding advance_seek
  advance_seek_idle h s e = rw (e, minus_one_not_ge) refl

  pub seek_to_ready :
      (h : Handle) (s : Sys PlayerServer)
      → d_ge s.self.pending_seek d_zero ≡ true
      → s.self.state ==ℤ state_ready ≡ false
      → let t = gst_element_set_state (some h) state_ready ∷ s.trace in
        is_failure (env.set_state t) ≡ false → (advance_seek env h s).1 ≡ record s { trace = t }
  unfolding advance_seek get_state
  seek_to_ready h s pending elsewhere accepted = ground arith

  -- READY has come: nothing but the state changes, if the query of the state says READY too.
  pub ready_has_come :
      (h : Handle) (old : GstState) (s : Sys PlayerServer)
      → s.self.pipeline ≡ some h
      → old ==ℤ state_ready ≡ false
      → let t = gst_element_get_state (some h) ∷ s.trace in
        is_failure (env.get_state t) ≡ false
        → env.get_state_written t ≡ some state_ready
        → (handle_message env (hooks env) (state_changed h old state_ready) s).1
          ≡ record s { self = record s.self { state = state_ready }; trace = t }
  unfolding handle_message on_state_changed query_state
  ready_has_come h old s e differs asked written = ground arith

  -- The trace behind the base time of a finished seek.
  abbrev pub seek_trace : Handle → Sys PlayerServer → Trace → Trace
  seek_trace h s t =
      let t1 = gst_element_get_base_time h ∷ t in
      let t2 = gst_element_get_base_time h ∷ t1 in
      let time =
        seek_base_time env s.self.derived.pending_current_time (env.base_time t1) (env.base_time t2)
          s.self.pending_seek in
      gst_element_set_state (some h) s.self.derived.pending_state
      ∷ gst_element_set_base_time h time
      ∷ t2

  pub seek_from_ready :
      (h : Handle) (s : Sys PlayerServer)
      → d_ge s.self.pending_seek d_zero ≡ true
      → s.self.state ≡ state_ready
      → let t = seek_trace h s s.trace in
        is_failure (env.set_state t) ≡ false
        → (advance_seek env h s).1 ≡ record {
          self = record s.self {
            pending_seek = d_minus_one;
            derived = record s.self.derived {
              pending_state = state_null;
              pending_current_time = clock_time_none;
            };
          };
          saved_volume = s.saved_volume;
          trace = t;
        }
  unfolding advance_seek get_state finish_seek
  seek_from_ready h s pending ready accepted = rw (pending, ready) (ground arith)
