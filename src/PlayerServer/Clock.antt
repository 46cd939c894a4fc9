-- ===== src/PlayerServer/Clock.antt =====
-- What becomes of the network clock of a `PlayerServer` when the player is closed or destroyed.
use nsvr.Prelude.{ℕ, ◌+◌, ◌≡◌, true, false, none, some, ◌∷◌, arith, is_some, ap, ◌∙◌}
use nsvr.Double.{Double, d_zero, clamp}
use nsvr.Env.{
  Env, Handle, GstState, state_null, state_ready, gst_clock_get_time, gst_element_set_state,
}
use nsvr.Env.Monad.{Sys}
use nsvr.Env.Count.{count, is_unref_of}
use nsvr.Player.Object.{get_state, get_duration}
use nsvr.Player.Seek.{get_time}
use nsvr.Player.Control.{set_state, query_state, stop, close, base_hooks, destroy}
use nsvr.Player.Control.Laws.{points_to, close_lem}
use nsvr.PlayerServer.{
  PlayerServer, hooks, clear_clock, on_before_close, on_before_set_state, on_state_changed,
  set_time,
}

abbrev pub unrefs : Handle → Sys PlayerServer → ℕ
unrefs c s = count (is_unref_of c) s.trace

-- The same handles are held, and none was given back of this one.
abbrev Held : Handle → Sys PlayerServer → Sys PlayerServer → Type 0
Held c s t =
    (t.self.pipeline ≡ s.self.pipeline)
    × (t.self.gst_bus ≡ s.self.gst_bus)
    × (t.self.derived.net_clock ≡ s.self.derived.net_clock)
    × (unrefs c t ≡ unrefs c s)

module _ (env : Env) where
  before_Held :
      (c : Handle) (state : GstState) (s : Sys PlayerServer)
      → Held c s (on_before_set_state env state s).1
  unfolding on_before_set_state get_time
  before_Held c state s = ground arith

  query_Held : (c : Handle) (s : Sys PlayerServer) → Held c s (query_state env s).1
  unfolding query_state
  query_Held c s = ground arith

  set_time_Held :
      (c : Handle) (time : Double) (s : Sys PlayerServer) → Held c s (set_time env time s).1
  unfolding set_time get_duration
  set_time_Held c time s =
      let now = gst_clock_get_time s.self.derived.net_clock ∷ s.trace in
      let asked : Sys PlayerServer = record {
        self = record s.self {
          pending_seek = clamp time d_zero s.self.duration;
          derived = record s.self.derived { pending_current_time = env.clock_time now };
        };
        saved_volume = s.saved_volume;
        trace = now;
      } in
      ground (arith, query_Held c asked)

  changed_Held :
      (c : Handle) (old : GstState) (s : Sys PlayerServer) → Held c s (on_state_changed env old s).1
  unfolding on_state_changed
  changed_Held c old s =
      let t = (query_state env s).1 in
      ground (arith, query_Held c s, set_time_Held c t.self.derived.pending_state_seek t)

  set_state_Held :
      (c : Handle) (state : GstState) (s : Sys PlayerServer)
      → Held c s (set_state env (hooks env) state s).1
  unfolding set_state get_state
  set_state_Held c state s =
      let s1 = (on_before_set_state env state s).1 in
      let s2 : Sys PlayerServer = record s1 {
        trace = gst_element_set_state s1.self.pipeline state ∷ s1.trace;
      } in
      ground (arith, before_Held c state s, changed_Held c s1.self.state s2)

  base_Held :
      (c : Handle) (state : GstState) (s : Sys PlayerServer)
      → Held c s (set_state env (base_hooks env) state s).1
  unfolding set_state get_state
  base_Held c state s = ground arith

  stop-Held : (c : Handle) (s : Sys PlayerServer) → Held c s (stop env (hooks env) s).1
  unfolding stop
  stop-Held c s =
      let t = (set_state env (hooks env) state_null s).1 in
      ground (arith, set_state_Held c state_null s, set_state_Held c state_ready t)

  base_stop-Held : (c : Handle) (s : Sys PlayerServer) → Held c s (stop env (base_hooks env) s).1
  unfolding stop
  base_stop-Held c s =
      let t = (set_state env (base_hooks env) state_null s).1 in
      ground (arith, base_Held c state_null s, base_Held c state_ready t)

  clear_clock_gives_back :
      (c : Handle) (s : Sys PlayerServer)
      → is_some s.self.pipeline ≡ true
      → s.self.derived.net_clock ≡ some c
      → points_to s.self.derived.net_provider c ≡ false
      → let t = (clear_clock env s).1 in
        (t.self.pipeline ≡ s.self.pipeline)
        × (t.self.gst_bus ≡ s.self.gst_bus)
        × (t.self.derived.net_clock ≡ none)
        × (unrefs c t ≡ unrefs c s + 1)
  unfolding clear_clock
  clear_clock_gives_back c s p k n = ground arith

  -- A network clock of a server with a pipeline, which is not its pipeline, bus or provider, is
  -- unreferenced once by close, which leaves none, and never by the destructor.
  pub clock_outlives_player :
      (c : Handle) (s : Sys PlayerServer)
      → is_some s.self.pipeline ≡ true
      → s.self.derived.net_clock ≡ some c
      → points_to s.self.derived.net_provider c ≡ false
      → points_to s.self.pipeline c ≡ false
      → points_to s.self.gst_bus c ≡ false
      → let closed = (close env (hooks env) s).1 in
        let destroyed = (destroy env s).1 in
        (unrefs c closed ≡ unrefs c s + 1)
        × (closed.self.derived.net_clock ≡ none)
        × (unrefs c destroyed ≡ unrefs c s)
  unfolding destroy on_before_close
  clock_outlives_player c s p k n np nb =
      let s1 = (on_before_close env s).1 in
      let s2 = (stop env (hooks env) s1).1 in
      let s3 = (stop env (base_hooks env) s).1 in
      let e = close_lem env (hooks env) s c in
      let d = close_lem env (base_hooks env) s c in
      let cleared_clock = clear_clock_gives_back c s p k n in
      let held = stop-Held c s1 in
      let kept = base_stop-Held c s in
      (
        ground arith,
        ap (λ (q : PlayerServer). q.derived.net_clock) e.0 ∙ (held.2 ∙ cleared_clock.2),
        ground arith,
      )
