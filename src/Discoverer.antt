-- ===== src/Discoverer.antt =====
-- `Discoverer` of include/nsvr/nsvr_discoverer.hpp and source/nsvr/nsvr_discoverer.cpp.
pub mod Laws
pub mod Resources
use nsvr.Prelude.{
  ℕ, Bool, true, false, Option, none, some, List, [], ◌∷◌, Bytes, is_empty, not, if◌then◌else◌,
}
use nsvr.Prelude.Int.{ℤ, pos, to_int}
use nsvr.Double.{Double, d_zero}
use nsvr.Env.{
  Env, Handle, MediaInfo, StreamInfo, video, audio, other_stream, gst_discoverer_new,
  gst_discoverer_discover_uri, gst_discoverer_info_read,
}
use nsvr.Env.Monad.{M, pure, ◌>>=◌, ◌>>◌, ask, also, call, gets, modify, log, log_error, when}
use nsvr.Internal.Scope.{stream_list, discoverer_info, discoverer, bind_to_scope, free_error}
use nsvr.Internal.System.{gstreamer_initialized, path_to_uri}

pub record Discoverer : Type 0 where
  pub media_uri : Bytes
  pub width : ℤ
  pub height : ℤ
  pub frame_rate : Double
  pub duration : Double
  pub sample_rate : ℕ
  pub bit_rate : ℕ
  pub has_video : Bool
  pub has_audio : Bool
  pub seekable : Bool

-- A fresh object, and what `reset` makes of any.
abbrev pub fresh : Discoverer
fresh = record {
  media_uri = [];
  width = pos 0;
  height = pos 0;
  frame_rate = d_zero;
  duration = d_zero;
  sample_rate = 0;
  bit_rate = 0;
  has_video = false;
  has_audio = false;
  seekable = false;
}

abbrev pub get_width : Discoverer → ℤ
get_width d = d.width

abbrev pub get_height : Discoverer → ℤ
get_height d = d.height

abbrev pub get_frame_rate : Discoverer → Double
get_frame_rate d = d.frame_rate

abbrev pub get_has_video : Discoverer → Bool
get_has_video d = d.has_video

abbrev pub get_has_audio : Discoverer → Bool
get_has_audio d = d.has_audio

abbrev pub get_seekable : Discoverer → Bool
get_seekable d = d.seekable

abbrev pub get_duration : Discoverer → Double
get_duration d = d.duration

abbrev pub get_sample_rate : Discoverer → ℕ
get_sample_rate d = d.sample_rate

abbrev pub get_bit_rate : Discoverer → ℕ
get_bit_rate d = d.bit_rate

abbrev pub get_media_uri : Discoverer → Bytes
get_media_uri d = d.media_uri

unfoldable pub reset : M Discoverer (Unit {0})
reset = modify (λ d. fresh)

module _ (env : Env) where
  open env.fpu use {ratio, seconds_u64}

  -- The loop over the video streams; what is no video stream is passed over.
  pub read_video : List StreamInfo → Discoverer → Discoverer
  read_video [] d = d
  read_video (video w h num denom ∷ rest) d =
      read_video rest
        (record d { width = to_int w; height = to_int h; frame_rate = ratio num denom })
  read_video (audio _ _ ∷ rest) d = read_video rest d
  read_video (other_stream ∷ rest) d = read_video rest d

  pub read_audio : List StreamInfo → Discoverer → Discoverer
  read_audio [] d = d
  read_audio (audio rate bits ∷ rest) d =
      read_audio rest (record d { sample_rate = rate; bit_rate = bits })
  read_audio (video _ _ _ _ ∷ rest) d = read_audio rest d
  read_audio (other_stream ∷ rest) d = read_audio rest d

  video_part : List StreamInfo → M Discoverer (Unit {0})
  unfolding read_video
  video_part [] = log
  video_part (x ∷ xs) =
      bind_to_scope stream_list (modify (λ d. read_video (x ∷ xs) (record d { has_video = true })))

  audio_part : List StreamInfo → M Discoverer (Unit {0})
  unfolding read_audio
  audio_part [] = log
  audio_part (x ∷ xs) =
      bind_to_scope stream_list (modify (λ d. read_audio (x ∷ xs) (record d { has_audio = true })))

  read_info : MediaInfo → M Discoverer Bool
  unfolding video_part audio_part
  read_info info = if not info.is_ok then log >> pure false else do
    video_part info.video_streams
    audio_part info.audio_streams
    modify (λ d. record d { seekable = info.seekable; duration = seconds_u64 info.duration_ns })
    pure true

  or_no_info : Bool → Option MediaInfo → M Discoverer Bool
  unfolding read_info
  or_no_info set none = log_error set >> pure false
  or_no_info set (some info) =
      bind_to_scope discoverer_info (call gst_discoverer_info_read >> read_info info)

  -- With a GstDiscoverer, which may set the error and give a description of the media nonetheless.
  discover_with : Handle → M Discoverer (Bool × Bool)
  unfolding or_no_info
  discover_with k = bind_to_scope (discoverer k) (do
    uri ← gets (λ d. d.media_uri)
    info ← ask env.discover_uri (gst_discoverer_discover_uri uri)
    set ← also env.discoverer_error
    found ← or_no_info set info
    pure (found, set))

  -- The part under `try`; none of its calls throws. Each branch that finds a null pointer reads the
  -- error that the call left.
  unfoldable pub discover : M Discoverer Bool
  unfolding discover_with
  discover = do
    log
    made ← ask env.discoverer_new gst_discoverer_new
    elim made [
      | none ↦ do set ← also env.discoverer_error; log_error set; free_error set; pure false
      | some k ↦ do (found, set) ← discover_with k; free_error set; pure found
    ]

  unfoldable pub open_media : Bytes → M Discoverer Bool
  open_media path = do
    reset
    if is_empty path then log >> pure false else do
      ready ← gstreamer_initialized env
      if not ready then log >> pure false else do
        uri ← path_to_uri env path
        modify (λ d. record d { media_uri = uri })
        if is_empty uri then log >> pure false else discover
