-- ===== src/PlayerClient/Sound.antt =====
-- The mute flag and the volume of a client that follows its server.
use nsvr.Prelude.{
  ◌≡◌, refl, sym, ◌∙◌, Bool, true, Option, none, some, [], ◌∷◌, arith, Bool-cases, inl, inr, ◌==◌,
  if◌then◌else◌, ℕ,
}
use nsvr.Prelude.Int.{ℤ}
use nsvr.Double.{Double, d_zero, d_eq, d_ge}
use nsvr.Env.{Env, Handle, Call, Trace, g_object_set_volume, g_object_get_volume}
use nsvr.Env.Monad.{Sys}
use nsvr.Packet.{Packet}
use nsvr.Player.Object.{Player, get_mute}
use nsvr.Player.Volume.{set_volume, get_volume, set_mute}
use nsvr.Player.Volume.Laws.{InRange, clamp_of_InRange}
use nsvr.Player.Control.{set_state, query_state}
use nsvr.PlayerClient.{
  PlayerClient, follow, follow_mute, follow_volume, follow_base, follow_state, is_true,
}

abbrev volume_set : Handle → Call → Option Double
volume_set h (g_object_set_volume k v) = if k == h then some v else none
volume_set h _ = none

abbrev first_some : Option Double → Option Double → Option Double
first_some none o = o
first_some (some v) o = some v

-- The volume that a pipeline was given last.
abbrev pub volume_given : Handle → Trace → Option Double
volume_given h [] = none
volume_given h (c ∷ t) = first_some (volume_set h c) (volume_given h t)

-- A pipeline tells the volume that it was given last.
abbrev pub TellsVolume : Env → Handle → Type 0
TellsVolume env h =
    (t : Trace) (v : Double)
    → volume_given h t ≡ some v
    → env.volume (g_object_get_volume h ∷ t) ≡ v

-- A player that is muted has silenced its pipeline.
abbrev pub IsSilent : {X : Type 0} → Handle → Sys (Player X) → Type 0
IsSilent h s = s.self.mute ≡ true → volume_given h s.trace ≡ some d_zero

d_eq-InRange : (v : Double) → InRange v → d_eq v v ≡ true
unfolding d_eq d_ge
d_eq-InRange v r = ground arith

module _ (env : Env) (h : Handle) (tells : TellsVolume env h) where
  follow_mute_lem :
      (target : Bool) (s : Sys PlayerClient)
      → s.self.pipeline ≡ some h
      → IsSilent h s
      → let t = (follow_mute env target s).1 in
        (t.self.pipeline ≡ some h) × (t.self.mute ≡ target) × IsSilent h t
  unfolding follow_mute get_mute set_mute set_volume get_volume
  follow_mute_lem target s e silent =
      ground (arith, silent, clamp_of_InRange d_zero (unfold d_ge in (refl, refl)))

  follow_volume_lem :
      (v : Double) (s : Sys PlayerClient)
      → s.self.pipeline ≡ some h
      → InRange v
      → (s.self.mute ≡ true → v ≡ d_zero)
      → IsSilent h s
      → let t = (follow_volume env v s).1 in
        (t.self.pipeline ≡ some h)
        × (t.self.mute ≡ s.self.mute)
        × (d_eq t.self.volume v ≡ true)
        × IsSilent h t
  unfolding follow_volume set_volume get_volume
  follow_volume_lem v s e r agrees silent =
      let now = env.volume (g_object_get_volume h ∷ s.trace) in
      elim (Bool-cases s.self.mute) [
        | inl on ↦
            ground (arith, agrees on, silent on, tells s.trace d_zero (silent on), d_eq-InRange v r)
        | inr off ↦ elim (Bool-cases (d_eq now v)) [
          | inl alike ↦ ground arith
          | inr differs ↦ ground (arith, clamp_of_InRange v r, d_eq-InRange v r)
        ]
      ]

  -- The fields and the readings that the sound of a player depends on.
  abbrev SameSound : Sys PlayerClient → Sys PlayerClient → Type 0
  SameSound s t =
      (t.self.pipeline ≡ s.self.pipeline)
      × (t.self.mute ≡ s.self.mute)
      × (t.self.volume ≡ s.self.volume)
      × (volume_given h t.trace ≡ volume_given h s.trace)

  follow_base-SameSound : (base : ℕ) (s : Sys PlayerClient) → SameSound s (follow_base env base s).1
  unfolding follow_base
  follow_base-SameSound base s = ground arith

  follow_state-SameSound :
      (target : ℤ) (s : Sys PlayerClient) → SameSound s (follow_state env target s).1
  unfolding follow_state query_state set_state
  follow_state-SameSound target s = ground arith

  -- Sound
  pub follow_sounds_alike :
      (p : Packet) (s : Sys PlayerClient)
      → s.self.pipeline ≡ some h
      → InRange p.volume
      → (is_true p.mute ≡ true → p.volume ≡ d_zero)
      → IsSilent h s
      → let t = (follow env p s).1 in
        (t.self.pipeline ≡ some h)
        × (t.self.mute ≡ is_true p.mute)
        × (d_eq t.self.volume p.volume ≡ true)
        × IsSilent h t
  unfolding follow
  follow_sounds_alike p s e r agrees silent =
      let s1 = (follow_mute env (is_true p.mute) s).1 in
      let s2 = (follow_volume env p.volume s1).1 in
      let s3 = (follow_base env p.base s2).1 in
      let (e1, m1, q1) = follow_mute_lem (is_true p.mute) s e silent in
      let v = follow_volume_lem p.volume s1 e1 r (λ on. agrees (sym m1 ∙ on)) q1 in
      let b = follow_base-SameSound p.base s2 in
      let c = follow_state-SameSound p.state s3 in
      (
        c.0 ∙ (b.0 ∙ v.0),
        c.1 ∙ (b.1 ∙ (v.1 ∙ m1)),
        rw (c.2, b.2) v.2,
        λ on. c.3 ∙ (b.3 ∙ v.3 (sym b.1 ∙ (sym c.1 ∙ on))),
      )
