-- ===== src/Player/Seek.antt =====
-- `setTime`, `getTime` and `queryDuration` of source/nsvr/nsvr_player.cpp.
use nsvr.Prelude.{true, none, some, ◌||◌, if◌then◌else◌}
use nsvr.Double.{Double, d_zero, d_minus_one, d_eq, clamp}
use nsvr.Env.{Env, gst_element_seek_simple, gst_element_query_position, gst_element_query_duration}
use nsvr.Env.Monad.{M, pure, ◌>>=◌, ◌>>◌, gets, modify, ask, log, for_some}
use nsvr.Player.Object.{Player}

module _ {X : Type 0} (env : Env) where
  unfoldable pub set_time : Double → M (Player X) (Unit {0})
  set_time time = do
    p ← gets (λ p. p)
    for_some p.pipeline λ h.
        if p.seeking_lock || d_eq p.duration d_zero
        then modify (λ p. record p { pending_seek = time })
        else do
          let target = env.fpu.nanoseconds (clamp time d_zero p.duration)
          started ← ask env.seek_simple (gst_element_seek_simple h target)
          if started
              then modify (λ p. record p { seeking_lock = true; pending_seek = d_minus_one })
              else log

  -- `none`: the query fails.
  unfoldable pub get_time : M (Player X) Double
  get_time = do
    pipeline ← gets (λ p. p.pipeline)
    elim pipeline [
      | none ↦ pure d_zero
      | some h ↦ do
        time_ns ← ask env.query_position (gst_element_query_position h)
        for_some time_ns (λ ns. modify (λ p. record p { time = env.fpu.seconds ns }))
        gets (λ p. p.time)
    ]

  unfoldable pub query_duration : M (Player X) (Unit {0})
  query_duration = do
    pipeline ← gets (λ p. p.pipeline)
    for_some pipeline λ h. do
      duration_ns ← ask env.query_duration (gst_element_query_duration h)
      for_some duration_ns (λ ns. modify (λ p. record p { duration = env.fpu.seconds ns }))
