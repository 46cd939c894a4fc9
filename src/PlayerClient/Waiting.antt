-- ===== src/PlayerClient/Waiting.antt =====
-- A client of PlayerClient in which a new base time has begun to wait.
use nsvr.Prelude.{ℕ, ◌≡◌, sym, subst, ◌∙◌, Bool, true, false, some, ◌∷◌, arith, ◌==◌, is_some}
use nsvr.Prelude.Int.{◌==ℤ◌}
use nsvr.Double.{Double}
use nsvr.Env.{Env, Handle, state_ready, gst_element_get_base_time}
use nsvr.Env.Monad.{Sys}
use nsvr.Packet.{Packet}
use nsvr.Player.Object.{get_mute}
use nsvr.Player.Volume.{get_volume, set_volume, set_mute}
use nsvr.Player.Update.Messages.{state_requests}
use nsvr.PlayerClient.{PlayerClient, follow, follow_mute, follow_volume, follow_base, is_true}
use nsvr.PlayerClient.Messages.{sound_followed, follow_base_kept, new_base_waits}
use nsvr.PlayerClient.Convergence.{new_base_moves_nothing, sound-Unmoved, waiting_asks_nothing}
use nsvr.Player.Update.Answers.{last_base}

-- What the theorems on an update ask of the player besides a base time: a bus, no frame, and a pipeline that is
-- elsewhere.
pub record Idle (h : Handle) (s : Sys PlayerClient) : Type 0 where
  pub pipeline : s.self.pipeline ≡ some h
  pub bus : is_some s.self.gst_bus ≡ true
  pub clean : s.self.buffer_dirty ≡ false
  pub elsewhere : s.self.state ==ℤ state_ready ≡ false

-- What an update looks at besides the base time and the state.
abbrev Calm : Sys PlayerClient → Sys PlayerClient → Type 0
Calm s t =
    (t.self.gst_bus ≡ s.self.gst_bus)
    × (t.self.buffer_dirty ≡ s.self.buffer_dirty)
    × (t.self.derived.client ≡ s.self.derived.client)

module _ (env : Env) where
  follow_mute-Calm : (target : Bool) (s : Sys PlayerClient) → Calm s (follow_mute env target s).1
  unfolding follow_mute get_mute set_mute set_volume get_volume
  follow_mute-Calm target s = ground arith

  follow_volume-Calm :
      (target : Double) (s : Sys PlayerClient) → Calm s (follow_volume env target s).1
  unfolding follow_volume set_volume get_volume
  follow_volume-Calm target s = ground arith

  follow_base-Calm : (target : ℕ) (s : Sys PlayerClient) → Calm s (follow_base env target s).1
  unfolding follow_base
  follow_base-Calm target s = ground arith

  new_base-Calm :
      (p : Packet) (s : Sys PlayerClient) (h : Handle)
      → s.self.pipeline ≡ some h
      → p.base == 0 ≡ false
      → env.base_time (gst_element_get_base_time h ∷ (sound_followed env p s).trace) == p.base
        ≡ false
      → Calm s (follow env p s).1
  unfolding follow
  new_base-Calm p s h e set new =
      let s1 = (follow_mute env (is_true p.mute) s).1 in
      let u = sound_followed env p s in
      let v = (follow_base env p.base u).1 in
      let kept = sound-Unmoved env h p s in
      let base = follow_base_kept env p.base u h (kept.1 ∙ e) in
      let waits : v.self.derived.base_time == 0 ≡ false = ground (arith, base, new) in
      let a = follow_mute-Calm (is_true p.mute) s in
      let b = follow_volume-Calm p.volume s1 in
      let c = follow_base-Calm p.base u in
      subst (Calm s) (sym (waiting_asks_nothing env p.state v waits))
        (c.0 ∙ b.0 ∙ a.0, c.1 ∙ b.1 ∙ a.1, c.2 ∙ b.2 ∙ a.2)

  -- A packet with a new base time, given to a player that is idle: the base time waits, and the player
  -- is idle still.
  pub new_base_lem :
      (p : Packet) (s : Sys PlayerClient) (h : Handle)
      → Idle h s
      → p.base == 0 ≡ false
      → env.base_time (gst_element_get_base_time h ∷ (sound_followed env p s).trace) == p.base
        ≡ false
      → let t = (follow env p s).1 in
        Idle h t
        × (t.self.derived.base_time ≡ p.base)
        × (last_base h t.trace ≡ last_base h s.trace)
        × (state_requests t.trace ≡ state_requests s.trace)
        × (t.self.derived.client ≡ s.self.derived.client)
  new_base_lem p s h i set new =
      let w = new_base_waits env p s h i.pipeline set new in
      let m = new_base_moves_nothing env p s h i.pipeline set new in
      let calm = new_base-Calm p s h i.pipeline set new in
      let idle : Idle h (follow env p s).1 = record {
        pipeline = m.1 ∙ i.pipeline;
        bus = rw calm.0 i.bus;
        clean = calm.1 ∙ i.clean;
        elsewhere = rw m.0 i.elsewhere;
      } in
      (idle, w.0, m.2, w.1, calm.2)
