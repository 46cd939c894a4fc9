-- ===== src/Player/Frames.antt =====
-- `onPreroll`, `onSample`, `processSample` and the part of `update` that hands a frame over, of
-- source/nsvr/nsvr_player.cpp. Here each runs as a whole; Handshake interleaves their steps.
pub mod Laws
use nsvr.Prelude.{Bool, true, false, Option, none, some, if◌then◌else◌}
use nsvr.Prelude.Int.{ℤ}
use nsvr.Env.{
  Env, Handle, SampleCaps, no_caps, unfixed, no_structure, sizes, gst_sample_unref,
  gst_sample_get_buffer, gst_buffer_map, gst_buffer_unmap, gst_app_sink_pull_preroll,
  gst_app_sink_pull_sample, gst_sample_get_caps,
}
use nsvr.Env.Monad.{M, done, ◌>>=◌, ◌>>◌, gets, modify, ask, call, log, for_some, when}
use nsvr.Player.Object.{Player, Hooks}

module _ {X : Type 0} (env : Env) where
  unfoldable pub process_sample : Handle → M (Player X) (Unit {0})
  process_sample sample = do
    dirty ← gets (λ p. p.buffer_dirty)
    if dirty then call (gst_sample_unref sample) else do
      modify (λ p. record p { current_sample = some sample })
      buffer ← ask env.sample_buffer (gst_sample_get_buffer sample)
      modify (λ p. record p { current_buffer = buffer })
      info ← ask env.buffer_map (gst_buffer_map buffer)
      modify (λ p. record p { map_info = info; buffer_dirty = true })

  -- The height is read only if the width was.
  unfoldable pub read_sizes : SampleCaps → M (Player X) (Unit {0})
  read_sizes no_caps = done
  read_sizes no_structure = done
  read_sizes unfixed = log
  read_sizes (sizes none height) = log
  read_sizes (sizes (some w) none) = modify (λ p. record p { width = w }) >> log
  read_sizes (sizes (some w) (some h)) = modify (λ p. record p { width = w; height = h })

  -- The callbacks are registered with the player itself, so `player` is not null.
  unfoldable pub on_preroll : Handle → M (Player X) (Unit {0})
  unfolding process_sample read_sizes
  on_preroll appsink = do
    sample ← ask env.pull_sample (gst_app_sink_pull_preroll appsink)
    for_some sample λ h. do
      caps ← ask env.sample_caps (gst_sample_get_caps h)
      read_sizes caps
      process_sample h

  unfoldable pub on_sample : Handle → M (Player X) (Unit {0})
  unfolding process_sample
  on_sample appsink = do
    sample ← ask env.pull_sample (gst_app_sink_pull_sample appsink)
    for_some sample process_sample

  -- Unmap and unref, each if there is one.
  unfoldable pub release_frame : M (Player X) (Unit {0})
  release_frame = do
    p ← gets (λ p. p)
    for_some p.current_buffer (λ b. call (gst_buffer_unmap (some b)))
    for_some p.current_sample (λ s. call (gst_sample_unref s))

  unfoldable pub consume_frame : Hooks X → M (Player X) (Unit {0})
  unfolding release_frame
  consume_frame hooks = do
    dirty ← gets (λ p. p.buffer_dirty)
    when dirty (do
      info ← gets (λ p. p.map_info)
      hooks.on_video_frame info
      release_frame
      modify (λ p. record p { current_buffer = none; current_sample = none; buffer_dirty = false }))
