-- ===== src/PlayerClient/Sync.antt =====
-- How `onBeforeUpdate` of `PlayerClient` takes over a base time of the server.
use nsvr.Prelude.{ℕ, ◌≡◌, refl, false, Option, none, some, ◌∷◌, arith, ◌==◌}
use nsvr.Prelude.Int.{◌==ℤ◌}
use nsvr.Env.{
  Env, Handle, Trace, GstState, state_ready, is_failure, state_changed, gst_element_set_state,
  on_state_changed, gst_element_set_base_time, gst_element_set_start_time, gst_object_unref,
  gst_net_client_clock_new, nsvr_log, gst_clock_set_timeout, gst_pipeline_use_clock,
}
use nsvr.Env.Monad.{Sys}
use nsvr.Internal.ClockPort.{get_clock_port}
use nsvr.Packet.{clock_time_none}
use nsvr.Player.Object.{get_state}
use nsvr.Player.Update.{handle_message}
use nsvr.PlayerClient.{PlayerClient, advance_base, setup_clock, clear_clock, use_clock, hooks}

abbrev pub given_back : Option Handle → Trace → Trace
given_back none t = t
given_back (some k) t = gst_object_unref k ∷ t

module _ (env : Env) where
  advance_base_idle :
      (h : Handle) (s : Sys PlayerClient)
      → s.self.derived.base_time ≡ 0
      → (advance_base env h s).1 ≡ s
  unfolding advance_base
  advance_base_idle h s e = rw e refl

  pub base_to_ready :
      (h : Handle) (s : Sys PlayerClient)
      → s.self.derived.base_time == 0 ≡ false
      → s.self.state ==ℤ state_ready ≡ false
      → let t = gst_element_set_state (some h) state_ready ∷ s.trace in
        is_failure (env.set_state t) ≡ false → (advance_base env h s).1 ≡ record s { trace = t }
  unfolding advance_base get_state
  base_to_ready h s waits elsewhere accepted = ground arith

  pub ready_has_come :
      (h : Handle) (old : GstState) (s : Sys PlayerClient)
      → s.self.pipeline ≡ some h
      → old ==ℤ state_ready ≡ false
      → (handle_message env (hooks env) (state_changed h old state_ready) s).1 ≡ record s {
        self = record s.self { state = state_ready };
        trace = on_state_changed old ∷ s.trace;
      }
  unfolding handle_message
  ready_has_come h old s e differs = ground arith

  -- The trace of asking for a new clock.
  abbrev pub clock_asked : Handle → Sys PlayerClient → Trace → Trace
  clock_asked h s t =
      let c = s.self.derived.client in
      gst_net_client_clock_new c.server_address (get_clock_port c.server_port)
        s.self.derived.base_time
      ∷ gst_element_set_base_time h clock_time_none
      ∷ given_back s.self.derived.net_clock (nsvr_log ∷ t)

  -- ... and of running the pipeline on it.
  abbrev pub clock_used : Handle → Handle → ℕ → Trace → Trace
  clock_used h k base t =
      gst_element_set_base_time h base
      ∷ gst_element_set_start_time h clock_time_none
      ∷ gst_pipeline_use_clock h k
      ∷ gst_clock_set_timeout k
      ∷ t

  pub base_from_ready :
      (h k : Handle) (s : Sys PlayerClient)
      → s.self.pipeline ≡ some h
      → s.self.derived.base_time == 0 ≡ false
      → s.self.state ≡ state_ready
      → env.net_client_clock (clock_asked h s s.trace) ≡ some k
      → (advance_base env h s).1 ≡ record {
        self = record s.self {
          derived = record s.self.derived { net_clock = some k; base_time = 0 };
        };
        saved_volume = s.saved_volume;
        trace = clock_used h k s.self.derived.base_time (clock_asked h s s.trace);
      }
  unfolding advance_base get_state setup_clock clear_clock use_clock
  base_from_ready h k s e waits ready made = ground arith

  -- A base time that waits in a client whose pipeline is not READY is taken over by two runs of
  -- the base time part of onBeforeUpdate: the first only requests READY; once the pipeline has
  -- told that it is READY, the second gives the old clock back, runs the pipeline on a new
  -- network clock, sets the base time, and none waits; a third does nothing for it. The request
  -- for READY does not fail and the new clock can be made.
  base_takes_two_updates :
      (h k : Handle) (old : GstState) (s : Sys PlayerClient)
      → s.self.pipeline ≡ some h
      → s.self.derived.base_time == 0 ≡ false
      → s.self.state ==ℤ state_ready ≡ false
      → old ==ℤ state_ready ≡ false
      → let t1 = gst_element_set_state (some h) state_ready ∷ s.trace in
        let asked = clock_asked h s (on_state_changed old ∷ t1) in
        is_failure (env.set_state t1) ≡ false
        → env.net_client_clock asked ≡ some k
        → let s1 = (advance_base env h s).1 in
          let s2 = (handle_message env (hooks env) (state_changed h old state_ready) s1).1 in
          let s3 = (advance_base env h s2).1 in
          (s1.self ≡ s.self)
          × (s1.trace ≡ t1)
          × (s3.trace ≡ clock_used h k s.self.derived.base_time asked)
          × (s3.self.derived.net_clock ≡ some k)
          × ((advance_base env h s3).1 ≡ s3)
  base_takes_two_updates h k old s e waits elsewhere differs first made =
      let s1 : Sys PlayerClient = record s {
        trace = gst_element_set_state (some h) state_ready ∷ s.trace;
      } in
      let s2 : Sys PlayerClient = record {
        self = record s.self { state = state_ready };
        saved_volume = s.saved_volume;
        trace = on_state_changed old ∷ s1.trace;
      } in
      rw
        (
          base_to_ready h s waits elsewhere first,
          ready_has_come h old s1 e differs,
          base_from_ready h k s2 e waits refl made,
        )
        (refl, refl, refl, refl, advance_base_idle h _ refl)
