-- ===== src/PlayerClient/Messages.antt =====
-- What a heartbeat of the server makes the client's player do.
use nsvr.Prelude.{
  ◌≤◌, ℕ, ◌≡◌, refl, Bool, true, false, some, ◌∷◌, arith, if◌then◌else◌, not, ◌&&◌, ◌==◌, is_empty,
  Bytes, ap, ◌∙◌,
}
use nsvr.Prelude.Int.{ℤ, ◌==ℤ◌}
use nsvr.Double.{Double}
use nsvr.Env.{Env, Handle, gst_element_get_base_time}
use nsvr.Env.Monad.{Sys, when}
use nsvr.Client.Events.{iterations}
use nsvr.Packet.{Packet, default_packet, parse, serialize}
use nsvr.Packet.RoundTrip.{IsWritable, parse-serialize}
use nsvr.Player.Object.{get_mute}
use nsvr.Player.Volume.{get_volume, set_volume, set_mute}
use nsvr.Player.Control.{set_state, query_state}
use nsvr.Player.Update.Messages.{state_requests}
use nsvr.PlayerClient.{
  PlayerClient, follow, follow_mute, follow_volume, follow_base, follow_state, on_message, is_true,
}

module _ (env : Env) where
  on_message_accepted :
      (m : Bytes) (q : Packet) (s : Sys PlayerClient)
      → is_empty m ≡ false
      → parse env.fpu m default_packet ≡ (true, q)
      → on_message env m s ≡ follow env q s
  unfolding on_message
  on_message_accepted m q s named e =
      rw named (ap (λ (r : Bool × Packet). when r.0 (follow env r.1) s) e)

  serialize_named : (p : Packet) → is_empty (serialize env.fpu p) ≡ false
  unfolding serialize
  serialize_named p = refl

  -- A message that serialize wrote makes the client follow the packet that was serialized, with
  -- its two doubles as stod reads them; for a packet that parse-serialize covers.
  pub heartbeat_followed :
      (p : Packet) {t v : Double} (s : Sys PlayerClient)
      → IsWritable env.fpu p
      → env.fpu.stod (env.fpu.print p.time) ≡ some t
      → env.fpu.stod (env.fpu.print p.volume) ≡ some v
      → on_message env (serialize env.fpu p) s ≡ follow env (record p { time = t; volume = v }) s
  heartbeat_followed p s w ht hv =
      on_message_accepted (serialize env.fpu p) _ s (serialize_named p)
        (parse-serialize env.fpu p default_packet w ht hv)

  -- A message that `parse` refuses changes nothing.
  refused_message_ignored :
      (m : Bytes) (s : Sys PlayerClient)
      → (parse env.fpu m default_packet).0 ≡ false
      → (on_message env m s).1 ≡ s
  unfolding on_message
  refused_message_ignored m s e = ground arith

  follow_mute_kept :
      (target : Bool) (s : Sys PlayerClient)
      → let t = (follow_mute env target s).1 in
        (t.self.pipeline ≡ s.self.pipeline)
        × (t.self.derived ≡ s.self.derived)
        × (state_requests t.trace ≡ state_requests s.trace)
  unfolding follow_mute get_mute set_mute set_volume get_volume
  follow_mute_kept target s = ground arith

  follow_volume_kept :
      (target : Double) (s : Sys PlayerClient)
      → let t = (follow_volume env target s).1 in
        (t.self.pipeline ≡ s.self.pipeline)
        × (t.self.derived ≡ s.self.derived)
        × (state_requests t.trace ≡ state_requests s.trace)
  unfolding follow_volume set_volume get_volume
  follow_volume_kept target s = ground arith

  pub follow_base_kept :
      (target : ℕ) (s : Sys PlayerClient) (h : Handle)
      → s.self.pipeline ≡ some h
      → let t = (follow_base env target s).1 in
        let changes = not (env.base_time (gst_element_get_base_time h ∷ s.trace) == target) in
        (t.self.pipeline ≡ some h)
        × (t.self.derived.base_time ≡ (if changes then target else s.self.derived.base_time))
        × (state_requests t.trace ≡ state_requests s.trace)
  unfolding follow_base
  follow_base_kept target s h e = ground arith

  follow_state_requests :
      (target : ℤ) (s : Sys PlayerClient) (h : Handle)
      → s.self.pipeline ≡ some h
      → let t = (follow_state env target s).1 in
        let asked = (query_state env s).0 in
        (t.self.derived.base_time ≡ s.self.derived.base_time)
        × (state_requests t.trace ≡ (
            if (s.self.derived.base_time == 0) && not (asked ==ℤ target)
            then target ∷ state_requests s.trace
            else state_requests s.trace))
  unfolding follow_state query_state set_state
  follow_state_requests target s h e = ground arith

  -- The player behind the mute flag and the volume of a packet.
  abbrev pub sound_followed : Packet → Sys PlayerClient → Sys PlayerClient
  sound_followed p s = (follow_volume env p.volume (follow_mute env (is_true p.mute) s).1).1

  -- The base time that the pipeline then tells.
  abbrev pub current_base : Packet → Handle → Sys PlayerClient → ℕ
  current_base p h s = env.base_time (gst_element_get_base_time h ∷ (sound_followed p s).trace)

  pub sound_kept :
      (p : Packet) (s : Sys PlayerClient)
      → let t = sound_followed p s in
        (t.self.pipeline ≡ s.self.pipeline)
        × (t.self.derived ≡ s.self.derived)
        × (state_requests t.trace ≡ state_requests s.trace)
  sound_kept p s =
      let m = follow_mute_kept (is_true p.mute) s in
      let v = follow_volume_kept p.volume (follow_mute env (is_true p.mute) s).1 in
      (v.0 ∙ m.0, v.1 ∙ m.1, v.2 ∙ m.2)

  -- A packet whose base time is not 0 and differs from the base time of the pipeline makes the
  -- client keep that base time for the next update, and requests no state, whichever the packet
  -- names; of a client with a pipeline.
  pub new_base_waits :
      (p : Packet) (s : Sys PlayerClient) (h : Handle)
      → s.self.pipeline ≡ some h
      → p.base == 0 ≡ false
      → current_base p h s == p.base ≡ false
      → let t = (follow env p s).1 in
        (t.self.derived.base_time ≡ p.base) × (state_requests t.trace ≡ state_requests s.trace)
  unfolding follow
  new_base_waits p s h e set new =
      let u = sound_followed p s in
      let v = (follow_base env p.base u).1 in
      ground (arith, sound_kept p s, follow_base_kept p.base u h, follow_state_requests p.state v h)

  -- A packet with the base time that the pipeline has already, while none waits, requests the
  -- packet's state exactly once if the queried state differs, and otherwise none; of a client
  -- with a pipeline.
  pub same_base_follows_state :
      (p : Packet) (s : Sys PlayerClient) (h : Handle)
      → s.self.pipeline ≡ some h
      → s.self.derived.base_time ≡ 0
      → current_base p h s == p.base ≡ true
      → let t = (follow env p s).1 in
        let asked = (query_state env (follow_base env p.base (sound_followed p s)).1).0 in
        (t.self.derived.base_time ≡ 0)
        × (state_requests t.trace ≡ (
            if asked ==ℤ p.state then state_requests s.trace else p.state ∷ state_requests s.trace))
  unfolding follow
  same_base_follows_state p s h e none_waits same_base =
      let u = sound_followed p s in
      let v = (follow_base env p.base u).1 in
      ground (arith, sound_kept p s, follow_base_kept p.base u h, follow_state_requests p.state v h)

  -- Following a message runs no main context.
  follow_mute_runs_none :
      (target : Bool) (s : Sys PlayerClient)
      → iterations (follow_mute env target s).1.trace ≡ iterations s.trace
  unfolding follow_mute get_mute set_mute set_volume get_volume
  follow_mute_runs_none target s = ground arith

  follow_volume_runs_none :
      (target : Double) (s : Sys PlayerClient)
      → iterations (follow_volume env target s).1.trace ≡ iterations s.trace
  unfolding follow_volume set_volume get_volume
  follow_volume_runs_none target s = ground arith

  follow_base_runs_none :
      (target : ℕ) (s : Sys PlayerClient)
      → iterations (follow_base env target s).1.trace ≡ iterations s.trace
  unfolding follow_base
  follow_base_runs_none target s = ground arith

  follow_state_runs_none :
      (target : ℤ) (s : Sys PlayerClient)
      → iterations (follow_state env target s).1.trace ≡ iterations s.trace
  unfolding follow_state query_state set_state
  follow_state_runs_none target s = ground arith

  follow_runs_none :
      (p : Packet) (s : Sys PlayerClient) → iterations (follow env p s).1.trace ≡ iterations s.trace
  unfolding follow
  follow_runs_none p s =
      let s1 = (follow_mute env (is_true p.mute) s).1 in
      let s2 = (follow_volume env p.volume s1).1 in
      let s3 = (follow_base env p.base s2).1 in
      omega (
        arith,
        follow_mute_runs_none (is_true p.mute) s,
        follow_volume_runs_none p.volume s1,
        follow_base_runs_none p.base s2,
        follow_state_runs_none p.state s3,
      )

  pub on_message_grows :
      (m : Bytes) (s : Sys PlayerClient)
      → iterations s.trace ≤ iterations (on_message env m s).1.trace
  unfolding on_message
  on_message_grows m s =
      let (accepted, packet) = parse env.fpu m default_packet in
      ground (arith, follow_runs_none packet s)
