-- ===== src/Player/Handshake/Schedules.antt =====
-- Whole runs of the player's code against the interleavings of Handshake.
use nsvr.Prelude.{refl, true, false, inl, inr, Option-cases, arith}
use nsvr.Env.{Env}
use nsvr.Env.Monad.{Sys}
use nsvr.Player.Object
use nsvr.Player.Object.{Player, Hooks}
use nsvr.Player.Frames.{release_frame}
use nsvr.Player.Control.{close, release_all}
use nsvr.Player.Control.Laws.{stopped}
use nsvr.Player.Handshake.{
  waiting, idle, closing_sample, closed, Consume, Reach, later, uses, stops, close_unmap,
  close_unref, close_unref_none,
}
use nsvr.Player.Handshake.View.{at, LeavesFrames, stopped_frame}
use nsvr.Player.Handshake.Callbacks.{same_fields}

module _ {X : Type 0} (env : Env) (hooks : Hooks X) (leaves : LeavesFrames env hooks) where
  pub close-Reach :
      (s : Sys (Player X))
      → Reach (at env true waiting idle s)
      → Reach (at env false waiting closed (close env hooks s).1)
  close-Reach s r =
      let u = stopped env hooks s in
      let halted : Reach (at env false waiting closing_sample u) =
        rw (stopped_frame env hooks leaves false s)
          (later (later r (stops refl refl)) (uses close_unmap)) in
      elim (Option-cases u.self.current_sample) [
        | inl n ↦
            unfold close release_all release_frame Object.reset in
            same_fields (later (later halted (uses (close_unref_none n))) (uses Consume.reset))
              (ground arith)
        | inr (h, n) ↦
            unfold close release_all release_frame Object.reset in
            same_fields (later (later halted (uses (close_unref n))) (uses Consume.reset))
              (ground arith)
      ]
