-- ===== src/Player/Opening/Frames/Methods.antt =====
-- The four functions `open`, each as a whole.
use nsvr.Prelude.{true, Bytes, arith, Bool-cases, inl, inr, is_empty}
use nsvr.Prelude.Int.{ℤ}
use nsvr.Env.{Env}
use nsvr.Env.Monad.{Sys}
use nsvr.Internal.System.{gstreamer_initialized}
use nsvr.Player.Object.{Player, Hooks}
use nsvr.Player.Control.{close}
use nsvr.Player.Opening.{discover_locally, open_media, open_sized, open_formatted, open_path}
use nsvr.Player.Handshake.View.{LeavesFrames}
use nsvr.Player.Opening.Frames.{
  Scheduled, same_frame, gstreamer_initialized-Leaves, discover_locally-Leaves, close-Scheduled,
  launch_media-Scheduled,
}

module _ {X : Type 0} (env : Env) (hooks : Hooks X) (leaves : LeavesFrames env hooks) where
  pub open_media-Scheduled :
      (path : Bytes) (width height : ℤ) (fmt : Bytes) (s : Sys (Player X))
      → Scheduled env s
      → Scheduled env (open_media env hooks path width height fmt s).1
  open_media-Scheduled path width height fmt s r =
      let (ready, s1) = gstreamer_initialized env s in
      let s2 = (close env hooks s1).1 in
      let s3 = (hooks.on_before_open s2).1 in
      let (found, s4) = discover_locally env path s3 in
      let r1 = same_frame env s s1 (gstreamer_initialized-Leaves env true s) r in
      let r3 =
        same_frame env s2 s3 (leaves.before_open true s2)
          (close-Scheduled env hooks leaves s1 r1) in
      let r4 = same_frame env s3 s4 (discover_locally-Leaves env path true s3) r3 in
      elim (Bool-cases ready) [
        | inr e ↦
            same_frame env s1 (open_media env hooks path width height fmt s).1
              (unfold open_media in rw e (ground arith)) r1
        | inl e ↦ elim (Bool-cases (is_empty path)) [
          | inl n ↦
              same_frame env s3 (open_media env hooks path width height fmt s).1
                (unfold open_media in rw (e, n) (ground arith)) r3
          | inr n ↦
              unfold open_media in
              rw (e, n) (launch_media-Scheduled env hooks leaves found width height fmt s4 r4)
        ]
      ]

  pub open_sized-Scheduled :
      (path : Bytes) (width height : ℤ) (s : Sys (Player X))
      → Scheduled env s
      → Scheduled env (open_sized env hooks path width height s).1
  unfolding open_sized
  open_sized-Scheduled path width height s r = open_media-Scheduled path width height _ s r

  pub open_formatted-Scheduled :
      (path fmt : Bytes) (s : Sys (Player X))
      → Scheduled env s
      → Scheduled env (open_formatted env hooks path fmt s).1
  open_formatted-Scheduled path fmt s r =
      let ((found, d), s1) = discover_locally env path s in
      let r1 = same_frame env s s1 (discover_locally-Leaves env path true s) r in
      elim (Bool-cases found) [
        | inr e ↦ unfold open_formatted in rw e r1
        | inl e ↦
            unfold open_formatted in rw e (open_media-Scheduled path d.width d.height fmt s1 r1)
      ]

  pub open_path-Scheduled :
      (path : Bytes) (s : Sys (Player X))
      → Scheduled env s
      → Scheduled env (open_path env hooks path s).1
  open_path-Scheduled path s r =
      let ((found, d), s1) = discover_locally env path s in
      let r1 = same_frame env s s1 (discover_locally-Leaves env path true s) r in
      elim (Bool-cases found) [
        | inr e ↦ unfold open_path in rw e r1
        | inl e ↦ unfold open_path in rw e (open_sized-Scheduled path d.width d.height s1 r1)
      ]
