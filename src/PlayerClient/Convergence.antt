-- ===== src/PlayerClient/Convergence.antt =====
-- How a client of PlayerClient comes to follow its server: a heartbeat with a new base time, and the
-- next one, once its base time was taken over.
use nsvr.Prelude.{
  ℕ, ◌≡◌, refl, ap, sym, subst, ◌∙◌, Bool, true, false, some, List, ◌∷◌, arith, ◌==◌, is_some,
  if◌then◌else◌,
}
use nsvr.Prelude.Int.{ℤ, ◌==ℤ◌}
use nsvr.Double.{Double}
use nsvr.Env.{Env, Handle, Trace, GstState, state_ready, is_failure, gst_element_get_base_time}
use nsvr.Env.Monad.{Sys}
use nsvr.Packet.{Packet}
use nsvr.Player.Object.{get_mute}
use nsvr.Player.Volume.{get_volume, set_volume, set_mute}
use nsvr.Player.Control.{query_state}
use nsvr.Player.Update.Answers.{last_base}
use nsvr.Player.Update.Messages.{state_requests}
use nsvr.PlayerClient.{
  PlayerClient, follow, follow_mute, follow_volume, follow_base, follow_state, is_true,
}
use nsvr.PlayerClient.Messages.{sound_followed, follow_base_kept, same_base_follows_state}

-- What GStreamer does for the pipeline: it tells the base time that it was given, fails no request for a
-- state, and makes network clocks.
pub record Cooperates (env : Env) (h : Handle) : Type 0 where
  pub tells : (t : Trace) → env.base_time (gst_element_get_base_time h ∷ t) ≡ last_base h t
  pub accepts : (t : Trace) → is_failure (env.set_state t) ≡ false
  pub makes : (t : Trace) → is_some (env.net_client_clock t) ≡ true

module _ (env : Env) where
  abbrev Unmoved : Handle → Sys PlayerClient → Sys PlayerClient → Type 0
  Unmoved h s t =
      (t.self.state ≡ s.self.state)
      × (t.self.pipeline ≡ s.self.pipeline)
      × (last_base h t.trace ≡ last_base h s.trace)

  follow_mute-Unmoved :
      (h : Handle) (target : Bool) (s : Sys PlayerClient) → Unmoved h s (follow_mute env target s).1
  unfolding follow_mute get_mute set_mute set_volume get_volume
  follow_mute-Unmoved h target s = ground arith

  follow_volume-Unmoved :
      (h : Handle) (target : Double) (s : Sys PlayerClient)
      → Unmoved h s (follow_volume env target s).1
  unfolding follow_volume set_volume get_volume
  follow_volume-Unmoved h target s = ground arith

  pub sound-Unmoved :
      (h : Handle) (p : Packet) (s : Sys PlayerClient) → Unmoved h s (sound_followed env p s)
  sound-Unmoved h p s =
      let m = follow_mute-Unmoved h (is_true p.mute) s in
      let v = follow_volume-Unmoved h p.volume (follow_mute env (is_true p.mute) s).1 in
      (v.0 ∙ m.0, v.1 ∙ m.1, v.2 ∙ m.2)

  follow_base-Unmoved :
      (h : Handle) (target : ℕ) (s : Sys PlayerClient) → Unmoved h s (follow_base env target s).1
  unfolding follow_base
  follow_base-Unmoved h target s = ground arith

  pub waiting_asks_nothing :
      (target : ℤ) (s : Sys PlayerClient)
      → s.self.derived.base_time == 0 ≡ false
      → (follow_state env target s).1 ≡ s
  unfolding follow_state
  waiting_asks_nothing target s e = rw e refl

  -- A heartbeat with a new base time waits, and moves nothing else.
  pub new_base_moves_nothing :
      (p : Packet) (s : Sys PlayerClient) (h : Handle)
      → s.self.pipeline ≡ some h
      → p.base == 0 ≡ false
      → env.base_time (gst_element_get_base_time h ∷ (sound_followed env p s).trace) == p.base
        ≡ false
      → Unmoved h s (follow env p s).1
  unfolding follow
  new_base_moves_nothing p s h e set new =
      let u = sound_followed env p s in
      let v = (follow_base env p.base u).1 in
      let kept = sound-Unmoved h p s in
      let moved = follow_base-Unmoved h p.base u in
      let base = follow_base_kept env p.base u h (kept.1 ∙ e) in
      let waits : v.self.derived.base_time == 0 ≡ false = ground (arith, base, new) in
      subst (Unmoved h s) (sym (waiting_asks_nothing p.state v waits))
        (moved.0 ∙ kept.0, moved.1 ∙ kept.1, moved.2 ∙ kept.2)

  -- A waiting base time was taken over, by one request for READY.
  abbrev pub Over : Handle → Sys PlayerClient → Sys PlayerClient → Type 0
  Over h s t =
      (is_some t.self.derived.net_clock ≡ true)
      × (t.self.derived.base_time ≡ 0)
      × (t.self.pipeline ≡ some h)
      × (last_base h t.trace ≡ s.self.derived.base_time)
      × (state_requests t.trace ≡ state_ready ∷ state_requests s.trace)
      × (t.self.derived.client ≡ s.self.derived.client)

  -- A heartbeat whose base time the pipeline has makes the client follow the state.
  pub next_heartbeat :
      (q : Packet) (s t : Sys PlayerClient) (h : Handle)
      → Cooperates env h
      → Over h s t
      → q.base ≡ s.self.derived.base_time
      → let u = (follow env q t).1 in
        let asked = (query_state env (follow_base env q.base (sound_followed env q t)).1).0 in
        let before = state_ready ∷ state_requests s.trace in
        (u.self.derived.base_time ≡ 0)
        × (state_requests u.trace ≡ (if asked ==ℤ q.state then before else q.state ∷ before))
  next_heartbeat q s t h c over same =
      let known : env.base_time (gst_element_get_base_time h ∷ (sound_followed env q t).trace)
            == q.base
          ≡ true =
        ground (
          arith,
          c.tells (sound_followed env q t).trace ∙ (sound-Unmoved h q t).2 ∙ over.3 ∙ sym same,
        ) in
      let asked = (query_state env (follow_base env q.base (sound_followed env q t)).1).0 in
      let f = same_base_follows_state env q t h over.2 over.1 known in
      (f.0, f.1 ∙ ap (λ (r : List GstState). if asked ==ℤ q.state then r else q.state ∷ r) over.4)
