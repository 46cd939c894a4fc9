-- ===== src/Player/Volume/Laws.antt =====
-- What muting, unmuting and setting the volume leave behind.
use nsvr.Prelude.{◌≡◌, refl, true, false, some, ◌∷◌, arith}
use nsvr.Double.{Double, d_zero, d_one, is_nan, d_ge, clamp}
use nsvr.Double.Order.{clamp-ge, clamp-le}
use nsvr.Env.{Env, Handle, g_object_set_volume, g_object_get_volume}
use nsvr.Env.Monad.{Sys}
use nsvr.Player.Object.{Player}
use nsvr.Player.Volume.{set_volume, get_volume, set_mute}

-- A volume from 0. to 1., which no NaN is.
abbrev pub InRange : Double → Type 0
InRange v = (d_ge v d_zero ≡ true) × (d_ge d_one v ≡ true)

pub clamp_of_InRange : (v : Double) → InRange v → clamp v d_zero d_one ≡ v
unfolding clamp d_ge
clamp_of_InRange v r = ground arith

module _ {X : Type 0} (env : Env) where
  -- Setting a volume that is a number, of a player with a pipeline, leaves a volume from 0. to
  -- 1., unmutes the player, and hands that same volume to the pipeline.
  set_volume-InRange :
      (vol : Double) (s : Sys (Player X)) (h : Handle)
      → s.self.pipeline ≡ some h
      → is_nan vol ≡ false
      → let t = (set_volume env vol s).1 in
        InRange t.self.volume
        × (t.self.mute ≡ false)
        × (t.trace ≡ g_object_set_volume h t.self.volume ∷ s.trace)
  unfolding set_volume
  set_volume-InRange vol s h e n = ground (
    arith,
    clamp-ge vol d_zero d_one n refl (unfold d_ge in refl),
    clamp-le vol d_zero d_one n refl (unfold d_ge in refl),
  )

  -- Muting a player with a pipeline that reports a volume from 0. to 1., then unmuting it, gives
  -- that volume back to the player and to the pipeline, by exactly two writes of the volume, and
  -- leaves 1. as the saved volume.
  pub unmute-mute :
      (s : Sys (Player X)) (h : Handle)
      → s.self.pipeline ≡ some h
      → InRange (env.volume (g_object_get_volume h ∷ s.trace))
      → let v = env.volume (g_object_get_volume h ∷ s.trace) in
        let m = (set_mute env true s).1 in
        let u = (set_mute env false m).1 in
        (m.self.mute ≡ true)
        × (m.self.volume ≡ d_zero)
        × (u.self.mute ≡ false)
        × (u.self.volume ≡ v)
        × (u.saved_volume ≡ d_one)
        × (u.trace
            ≡ g_object_set_volume h v
              ∷ g_object_set_volume h d_zero
              ∷ g_object_get_volume h
              ∷ s.trace)
  unfolding set_mute set_volume get_volume
  unmute-mute s h e r = ground (
    arith,
    clamp_of_InRange (env.volume (g_object_get_volume h ∷ s.trace)) r,
    clamp_of_InRange d_zero (unfold d_ge in (refl, refl)),
  )

  -- Muting twice forgets the volume: where a muted pipeline reports 0., unmuting leaves 0.
  mute_twice_forgets :
      (s : Sys (Player X)) (h : Handle)
      → s.self.pipeline ≡ some h
      → let m = (set_mute env true s).1 in
        env.volume (g_object_get_volume h ∷ m.trace) ≡ d_zero
        → (set_mute env false (set_mute env true m).1).1.self.volume ≡ d_zero
  unfolding set_mute set_volume get_volume
  mute_twice_forgets s h e z = ground (arith, clamp_of_InRange d_zero (unfold d_ge in (refl, refl)))

  -- If a second player is muted after a first, both with pipelines, then unmuting the first gives
  -- it the volume that the second had, where that is from 0. to 1.
  pub unmute_takes_other_volume :
      (s : Sys (Player X)) (b : Player X) (h k : Handle)
      → s.self.pipeline ≡ some h
      → b.pipeline ≡ some k
      → let a = (set_mute env true s).1 in
        let w = env.volume (g_object_get_volume k ∷ a.trace) in
        InRange w
        → let other = (set_mute env true (record a { self = b })).1 in
          (set_mute env false (record other { self = a.self })).1.self.volume ≡ w
  unfolding set_mute set_volume get_volume
  unmute_takes_other_volume s b h k e f r = ground (
    arith,
    clamp_of_InRange d_zero (unfold d_ge in (refl, refl)),
    clamp_of_InRange (env.volume (g_object_get_volume k ∷ (set_mute env true s).1.trace)) r,
  )
