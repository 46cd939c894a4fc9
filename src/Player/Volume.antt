-- ===== src/Player/Volume.antt =====
-- `setVolume`, `getVolume` and `setMute` of source/nsvr/nsvr_player.cpp.
pub mod Laws
use nsvr.Prelude.{Bool, true, false, Option, none, some, not, ◌&&◌, ◌||◌, is_some, if◌then◌else◌}
use nsvr.Double.{Double, d_zero, d_one, d_eq, clamp}
use nsvr.Env.{Env, g_object_set_volume, g_object_get_volume}
use nsvr.Env.Monad.{M, pure, done, ◌>>=◌, ◌>>◌, gets, modify, ask, call, saved, save, for_some}
use nsvr.Player.Object.{Player}

module _ {X : Type 0} (env : Env) where
  -- g_return_if_fail(mPipeline != nullptr || mVolume != vol || !getMute())
  unfoldable pub set_volume : Double → M (Player X) (Unit {0})
  set_volume vol = do
    p ← gets (λ p. p)
    if not (is_some p.pipeline || not (d_eq p.volume vol) || not p.mute) then done else do
      modify (λ p. record p { volume = clamp vol d_zero d_one; mute = false })
      for_some p.pipeline (λ h. call (g_object_set_volume h (clamp vol d_zero d_one)))

  -- Without a pipeline the answer is 0., and `mVolume` is left alone.
  unfoldable pub get_volume : M (Player X) Double
  get_volume = do
    pipeline ← gets (λ p. p.pipeline)
    elim pipeline [
      | none ↦ pure d_zero
      | some h ↦ do
        v ← ask env.volume (g_object_get_volume h)
        modify (λ p. record p { volume = v })
        pure v
    ]

  unfoldable pub set_mute : Bool → M (Player X) (Unit {0})
  unfolding set_volume get_volume
  set_mute on = do
    pipeline ← gets (λ p. p.pipeline)
    saved_volume ← saved
    if not (is_some pipeline || (on && d_eq saved_volume d_zero))
        then done
        else if on
        then (do v ← get_volume; save v; set_volume d_zero; modify (λ p. record p { mute = true }))
        else (do modify (λ p. record p { mute = false }); set_volume saved_volume; save d_one)
