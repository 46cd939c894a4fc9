-- ===== src/Player/Opening.antt =====
-- The four `open` functions of source/nsvr/nsvr_player.cpp.
pub mod Laws
pub mod Outcome
pub mod Frames
use nsvr.Prelude.{
  Bool, true, false, ◌&&◌, Option, none, some, not, Bytes, codes, ◌++◌, is_empty, is_some,
  if◌then◌else◌,
}
use nsvr.Prelude.Int.{ℤ, ◌==ℤ◌}
use nsvr.Packet.Number.{show_ℤ}
use nsvr.Env.{
  Env, Handle, GstState, state_ready, state_paused, is_success, is_failure, gst_parse_launch,
  gst_pipeline_get_bus, g_object_get_video_sink, gst_app_sink_set_callbacks, g_object_unref,
  gst_element_set_state, gst_element_get_state,
}
use nsvr.Env.Monad.{
  M, pure, done, ◌>>=◌, ◌>>◌, gets, modify, ask, also, call, log, log_error, within,
}
use nsvr.Internal.System.{gstreamer_initialized}
use nsvr.Discoverer
use nsvr.Discoverer.{Discoverer}
use nsvr.Internal.Scope.{app_sink, bind_to_scope, free_error}
use nsvr.Player.Object.{Player, Hooks}
use nsvr.Player.Control.{close}

abbrev state_is : Option GstState → GstState → Bool
state_is none target = false
state_is (some state) target = state ==ℤ target

-- GST_SECOND prints as 1000000000.
unfoldable pub video_command : Bytes → ℤ → ℤ → Bytes → Bytes
video_command uri width height fmt =
    codes "playbin uri=\""
    ++ (uri
        ++ (codes
              "\" video-sink=\"appsink drop=yes async=no qos=yes sync=yes max-lateness=1000000000"
            ++ (codes " caps=video/x-raw"
                ++ (codes ",width="
                    ++ (show_ℤ width
                        ++ (codes ",height="
                            ++ (show_ℤ height ++ (codes ",format=" ++ (fmt ++ codes "\"")))))))))

unfoldable pub audio_command : Bytes → Bytes
audio_command uri = codes "playbin uri=\"" ++ (uri ++ codes "\"")

module _ {X : Type 0} (env : Env) where
  -- A local `Discoverer`, opened: the result and the object.
  unfoldable pub discover_locally : Bytes → M (Player X) (Bool × Discoverer)
  discover_locally path =
      within (λ _. Discoverer.fresh) (λ _ p. p)
        (do found ← Discoverer.open_media env path; d ← gets (λ d. d); pure (found, d))

  -- Puts the pipeline in a state: at once, or by waiting for it. An unwritten `state` is no state.
  pub reach : GstState → M (Player X) Bool
  reach target = do
    pipeline ← gets (λ p. p.pipeline)
    changed ← ask env.set_state (gst_element_set_state pipeline target)
    if is_success changed then pure true else do
      waited ← ask env.get_state (gst_element_get_state pipeline)
      state ← also env.get_state_written
      pure (not (is_failure waited) && state_is state target)

module _ {X : Type 0} (env : Env) (hooks : Hooks X) where
  give_up : M (Player X) Bool
  give_up = close env hooks >> (log >> pure false)

  give_up_error : Bool → M (Player X) Bool
  give_up_error set = close env hooks >> (log_error set >> pure false)

  attach_sink : Handle → Discoverer → M (Player X) Bool
  attach_sink h d = if not (Discoverer.get_has_video d) then pure true else do
    sink ← ask env.video_sink (g_object_get_video_sink h)
    elim sink [
      | none ↦ give_up
      | some k ↦ bind_to_scope (app_sink k) (call (gst_app_sink_set_callbacks k) >> pure true)
    ]

  -- From the clock to the end.
  start_up : Discoverer → M (Player X) Bool
  unfolding give_up
  start_up d = do
    hooks.setup_clock
    ready ← reach env state_ready
    if not ready then give_up else do
      paused ← reach env state_paused
      if not paused
          then give_up
          else do modify (λ p. record p { duration = Discoverer.get_duration d }); pure true

  -- What follows a call of gst_parse_launch, which may set the error and make a pipeline nonetheless.
  launched : Bool → Option Handle → Discoverer → M (Player X) Bool
  unfolding give_up_error attach_sink start_up
  launched set none d = give_up_error set
  launched set (some h) d = do
    bus ← ask env.pipeline_bus (gst_pipeline_get_bus h)
    modify (λ p. record p { gst_bus = bus })
    if not (is_some bus)
        then give_up_error set
        else do attached ← attach_sink h d; if not attached then pure false else start_up d

  launch : Discoverer → Bytes → M (Player X) Bool
  unfolding launched
  launch d command = do
    made ← ask env.parse_launch (gst_parse_launch command)
    set ← also env.parse_error
    modify (λ p. record p { pipeline = made })
    result ← launched set made d
    free_error set
    pure result

  -- What follows a discovery: one that failed is passed over, and the result is true.
  launch_media : Bool × Discoverer → ℤ → ℤ → Bytes → M (Player X) Bool
  unfolding launch
  launch_media (false, d) width height fmt = free_error false >> pure true
  launch_media (true, d) width height fmt =
      if Discoverer.get_has_video d
      then launch d (video_command (Discoverer.get_media_uri d) width height fmt)
      else if Discoverer.get_has_audio d
      then launch d (audio_command (Discoverer.get_media_uri d))
      else log >> (free_error false >> pure false)

  pub open_media : Bytes → ℤ → ℤ → Bytes → M (Player X) Bool
  open_media path width height fmt = do
    ready ← gstreamer_initialized env
    if not ready then log >> pure false else do
      close env hooks
      hooks.on_before_open
      if is_empty path
          then log >> pure false
          else do found ← discover_locally env path; launch_media found width height fmt

  pub open_sized : Bytes → ℤ → ℤ → M (Player X) Bool
  open_sized path width height = open_media path width height (codes "BGRA")

  pub open_formatted : Bytes → Bytes → M (Player X) Bool
  open_formatted path fmt = do
    (found, d) ← discover_locally env path
    if found
        then open_media path (Discoverer.get_width d) (Discoverer.get_height d) fmt
        else pure false

  pub open_path : Bytes → M (Player X) Bool
  open_path path = do
    (found, d) ← discover_locally env path
    if found then open_sized path (Discoverer.get_width d) (Discoverer.get_height d) else pure false
