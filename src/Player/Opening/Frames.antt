-- ===== src/Player/Opening/Frames.antt =====
-- `open` and the shared frame: it closes the player that was open, and again on its error paths.
pub mod Methods
use nsvr.Prelude.{
  ◌≡◌, refl, ◌∷◌, Bool, true, false, Option, none, some, Bytes, arith, Bool-cases, Option-cases,
  inl, inr, is_empty, is_some,
}
use nsvr.Prelude.Int.{ℤ}
use nsvr.Env.{
  Env, Handle, state_ready, state_paused, gst_parse_launch, gst_pipeline_get_bus,
  g_object_get_video_sink, GstState,
}
use nsvr.Env.Monad.{Sys, M}
use nsvr.Internal.System.{gstreamer_initialized, self-gstreamer_initialized}
use nsvr.Discoverer
use nsvr.Discoverer.{Discoverer}
use nsvr.Discoverer.Resources.{gstreamer_initialized-Quiet, open_media-SameSamples}
use nsvr.Player.Object.{Player, Hooks}
use nsvr.Player.Control.{close}
use nsvr.Player.Opening.{
  video_command, audio_command, discover_locally, reach, give_up, give_up_error, attach_sink,
  start_up, launched, launch, launch_media, open_media, open_sized, open_formatted, open_path,
}
use nsvr.Player.Handshake.{waiting, idle, Reach, later, uses, reopen}
use nsvr.Player.Handshake.View.{frame_of, at, Leaves, LeavesFrames}
use nsvr.Player.Handshake.Schedules.{close-Reach}

module _ {X : Type 0} (env : Env) where
  -- A state of the code in which a schedule leaves the shared fields, with both threads at rest.
  abbrev pub Scheduled : Sys (Player X) → Type 0
  Scheduled s = Reach (at env true waiting idle s)

  -- The code went from `s` to `t` and left the shared fields alone.
  pub same_frame :
      (s t : Sys (Player X)) → frame_of env true t ≡ frame_of env true s → Scheduled s → Scheduled t
  same_frame s t e r = rw e r

  pub Leaves-Scheduled :
      {B : Type 0} (m : M (Player X) B)
      → Leaves env m
      → (s : Sys (Player X)) → Scheduled s
      → Scheduled (m s).1
  Leaves-Scheduled m leaves s r = rw (leaves true s) r

  gstreamer_initialized-Leaves : Leaves {X = X} env (gstreamer_initialized env)
  gstreamer_initialized-Leaves b s =
      ground (arith, self-gstreamer_initialized env s, (gstreamer_initialized-Quiet env s).0)

  discover_locally-Leaves : (path : Bytes) → Leaves {X = X} env (discover_locally env path)
  unfolding discover_locally
  discover_locally-Leaves path b s = ground (
    arith,
    open_media-SameSamples env path
        (record { self = Discoverer.fresh; saved_volume = s.saved_volume; trace = s.trace }),
  )

  reach-Leaves : (target : GstState) → Leaves {X = X} env (reach env target)
  unfolding reach
  reach-Leaves target b s = ground arith

module _ {X : Type 0} (env : Env) (hooks : Hooks X) (leaves : LeavesFrames env hooks) where
  pub close-Scheduled : (s : Sys (Player X)) → Scheduled env s → Scheduled env (close env hooks s).1
  close-Scheduled s r = later (close-Reach env hooks leaves s r) (uses reopen)

  give_up-Scheduled : (s : Sys (Player X)) → Scheduled env s → Scheduled env (give_up env hooks s).1
  unfolding give_up
  give_up-Scheduled s r =
      same_frame env (close env hooks s).1 (give_up env hooks s).1 (ground arith)
        (close-Scheduled s r)

  give_up_error-Scheduled :
      (set : Bool) (s : Sys (Player X))
      → Scheduled env s
      → Scheduled env (give_up_error env hooks set s).1
  unfolding give_up_error
  give_up_error-Scheduled true s r =
      same_frame env (close env hooks s).1 (give_up_error env hooks true s).1 (ground arith)
        (close-Scheduled s r)
  give_up_error-Scheduled false s r =
      same_frame env (close env hooks s).1 (give_up_error env hooks false s).1 (ground arith)
        (close-Scheduled s r)

  attach_sink-Scheduled :
      (h : Handle) (d : Discoverer) (s : Sys (Player X))
      → Scheduled env s
      → Scheduled env (attach_sink env hooks h d s).1
  attach_sink-Scheduled h d s r = elim (Bool-cases d.has_video) [
    | inr e ↦ unfold attach_sink in rw e r
    | inl e ↦
        let t = g_object_get_video_sink h ∷ s.trace in
        let s' : Sys (Player X) = record s { trace = t } in
        elim (Option-cases (env.video_sink t)) [
          | inl n ↦
              unfold attach_sink in
              rw (e, n) (give_up-Scheduled s' (same_frame env s s' (ground arith) r))
          | inr (k, n) ↦
              same_frame env s (attach_sink env hooks h d s).1
                (unfold attach_sink in rw (e, n) (ground arith)) r
        ]
  ]

  start_up-Scheduled :
      (d : Discoverer) (s : Sys (Player X))
      → Scheduled env s
      → Scheduled env (start_up env hooks d s).1
  start_up-Scheduled d s r =
      let s1 = (hooks.setup_clock s).1 in
      let (ready, s2) = reach env state_ready s1 in
      let (paused, s3) = reach env state_paused s2 in
      let r1 = same_frame env s s1 (leaves.clock_set_up true s) r in
      let r2 = same_frame env s1 s2 (reach-Leaves env state_ready true s1) r1 in
      let r3 = same_frame env s2 s3 (reach-Leaves env state_paused true s2) r2 in
      elim (Bool-cases ready) [
        | inr e ↦ unfold start_up in rw e (give_up-Scheduled s2 r2)
        | inl e ↦ elim (Bool-cases paused) [
          | inr e' ↦ unfold start_up in rw (e, e') (give_up-Scheduled s3 r3)
          | inl e' ↦ unfold start_up in rw (e, e') r3
        ]
      ]

  launched-Scheduled :
      (set : Bool) (made : Option Handle) (d : Discoverer) (s : Sys (Player X))
      → Scheduled env s
      → Scheduled env (launched env hooks set made d s).1
  launched-Scheduled set none d s r = unfold launched in give_up_error-Scheduled set s r
  launched-Scheduled set (some h) d s r =
      let u = gst_pipeline_get_bus h ∷ s.trace in
      let bus = env.pipeline_bus u in
      let s1 : Sys (Player X) = record s { self = record s.self { gst_bus = bus }; trace = u } in
      let r1 = same_frame env s s1 (ground arith) r in
      let (attached, s2) = attach_sink env hooks h d s1 in
      let r2 = attach_sink-Scheduled h d s1 r1 in
      elim (Bool-cases (is_some bus)) [
        | inr n ↦ unfold launched in rw n (give_up_error-Scheduled set s1 r1)
        | inl n ↦ elim (Bool-cases attached) [
          | inr e ↦ unfold launched in rw (n, e) r2
          | inl e ↦ unfold launched in rw (n, e) (start_up-Scheduled d s2 r2)
        ]
      ]

  launch-Scheduled :
      (d : Discoverer) (command : Bytes) (s : Sys (Player X))
      → Scheduled env s
      → Scheduled env (launch env hooks d command s).1
  unfolding launch
  launch-Scheduled d command s r =
      let t = gst_parse_launch command ∷ s.trace in
      let made = env.parse_launch t in
      let set = env.parse_error t in
      let s1 : Sys (Player X) = record s { self = record s.self { pipeline = made }; trace = t } in
      let u = (launched env hooks set made d s1).1 in
      same_frame env u (launch env hooks d command s).1 (ground arith)
        (launched-Scheduled set made d s1 (same_frame env s s1 (ground arith) r))

  launch_media-Scheduled :
      (found : Bool × Discoverer) (width height : ℤ) (fmt : Bytes) (s : Sys (Player X))
      → Scheduled env s
      → Scheduled env (launch_media env hooks found width height fmt s).1
  launch_media-Scheduled (false, d) width height fmt s r =
      same_frame env s (launch_media env hooks (false, d) width height fmt s).1
        (unfold launch_media in ground arith) r
  launch_media-Scheduled (true, d) width height fmt s r =
      let with_video = video_command d.media_uri width height fmt in
      let without = audio_command d.media_uri in
      let launch_media_runs = launch_media env hooks (true, d) width height fmt s in
      elim (Bool-cases d.has_video) [
        | inl v ↦
            let run : launch_media_runs ≡ launch env hooks d with_video s =
              unfold launch_media in rw v refl in
            rw run (launch-Scheduled d with_video s r)
        | inr v ↦ elim (Bool-cases d.has_audio) [
          | inl a ↦
              let run : launch_media_runs ≡ launch env hooks d without s =
                unfold launch_media in rw (v, a) refl in
              rw run (launch-Scheduled d without s r)
          | inr a ↦
              same_frame env s launch_media_runs.1 (unfold launch_media in rw (v, a) (ground arith))
                r
        ]
      ]
