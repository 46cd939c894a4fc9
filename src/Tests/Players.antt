-- ===== src/Tests/Players.antt =====
-- The theorems on the player at concrete data.
use nsvr.Prelude.{
  ◌+◌, ◌≤◌, ◌≡◌, refl, true, false, ◌&&◌, none, some, List, [], ◌∷◌, Bytes, codes, is_some, ◌||◌,
  ltb, arith,
}
use nsvr.Prelude.Int.{pos}
use nsvr.Double.{Double, d_zero, d_one, d_minus_one, d_ge, d_eq}
use nsvr.Env.{
  Env, Trace, MediaInfo, gst_discoverer_discover_uri, state_ready, state_playing, state_null, eos,
  gst_element_seek_simple, on_seek_finished, g_object_get_volume, g_object_set_volume,
  gst_bus_have_pending,
}
use nsvr.Env.Monad.{Sys}
use nsvr.Env.Count.{one_if, count, is_unref_of, is_sample_unref, accepted_seeks}
use nsvr.Internal.System.{gstreamer_initialized, path_to_uri}
use nsvr.Discoverer
use nsvr.Discoverer.Laws.{open_media_found, Described}
use nsvr.Discoverer.Resources.{Settled, open_media-Settled}
use nsvr.Player.Object.{Player}
use nsvr.Player.Control.{close, base_hooks}
use nsvr.Player.Control.Laws.{close_gives_back, close_idempotent, Emptied, stopped, points_to}
use nsvr.Player.Frames.Laws.{
  IsFrameValid, preroll_arrives, sample_arrives, frame_consumed, run_ops, Balanced,
  samples_conserved, FrameOp,
}
use nsvr.Player.Handshake.{
  State, Streaming, User, Reach, Consume, start, later, produces, uses, stops, pull, see_clean,
  store_sample, store_buffer, raise_flag, found_frame, reopen, close_unmap, close_unref,
}
use nsvr.Player.Handshake.Safety.{
  writes_frame, shows_frame, closes_frame, frame_exclusive, closed_leaks_nothing,
}
use nsvr.Player.Opening.{open_media, discover_locally}
use nsvr.Player.Opening.Laws.{Steady, opens, reopened}
use nsvr.Player.Opening.Outcome.{Outcome, open_media-Outcome}
use nsvr.Player.Update.{handle_message, drain_bus, on_async_done}
use nsvr.Player.Update.Messages.{eos_requests, state_requests}
use nsvr.Player.Update.Bus.{pops, message_unrefs, handed_out, drain_bus_ends}
use nsvr.Player.Update.Seeking.{
  SeekOp, requested, finished, run_seeks, finishes, seeks_bounded, request_all, last_request_wins,
}
use nsvr.Player.Update.Seeking.Refinement.{
  CanSeek, Runs, view, seek_targets, asked_then, run_seeks-Runs,
}
use nsvr.Player.Volume.{set_mute}
use nsvr.Player.Volume.Laws.{InRange, unmute-mute, unmute_takes_other_volume}
use nsvr.Tests.World.{env, player, sys_of}

-- A frame is stored, and the user's thread has found it.
abbrev shown_state : State
shown_state = record {
  shared = record {
    sample = some 7;
    buffer = some 8;
    dirty = true;
    streams = true;
    handed_out = 1;
    given_back = 0;
  };
  streaming = Streaming.waiting;
  user = User.showing;
}

abbrev written : Reach (record shown_state { user = User.idle })
written =
    later
      (later
        (later
          (later (later (later start (uses reopen)) (produces (pull 7 refl)))
            (produces (see_clean refl)))
          (produces store_sample))
        (produces (store_buffer (some 8))))
      (produces raise_flag)

abbrev shown : Reach shown_state
shown = later written (uses (found_frame refl))

frame_exclusive_example :
    (writes_frame shown_state.streaming
      && (shows_frame shown_state.user || closes_frame shown_state.user))
    ≡ false
frame_exclusive_example = frame_exclusive shown

-- The frame is given back by `close`.
abbrev closed_state : State
closed_state = record {
  shared = record {
    sample = none;
    buffer = none;
    dirty = false;
    streams = false;
    handed_out = 1;
    given_back = 1;
  };
  streaming = Streaming.waiting;
  user = User.closed;
}

abbrev shut : Reach closed_state
shut =
    later
      (later (later (later written (stops refl refl)) (uses close_unmap)) (uses (close_unref refl)))
      (uses Consume.reset)

closed_leaks_nothing_example : closed_state.shared.given_back ≡ closed_state.shared.handed_out
closed_leaks_nothing_example = closed_leaks_nothing shut refl

abbrev frames : List FrameOp
frames = preroll_arrives 3 ∷ sample_arrives 3 ∷ frame_consumed ∷ []

samples_conserved_example :
    Balanced env player (run_ops env (base_hooks env) frames player)
    × IsFrameValid (run_ops env (base_hooks env) frames player).self
samples_conserved_example =
    samples_conserved env (base_hooks env) frames player refl
      (record { held = refl; unmapped = λ _. refl })

abbrev seeks : List SeekOp
seeks = requested d_zero ∷ requested d_one ∷ finished ∷ finished ∷ []

seeks_bounded_example :
    let t = run_seeks env seeks player in
    accepted_seeks env t.trace + 0 ≤ 0 + one_if t.self.seeking_lock + finishes seeks
seeks_bounded_example = seeks_bounded env seeks player

-- A player whose pipeline seeks.
abbrev seeking : Sys (Player (Unit {0}))
seeking = record player { self = record player.self { seeking_lock = true } }

last_request_wins_example :
    let t = (on_async_done env (base_hooks env) (request_all env (d_one ∷ []) d_zero seeking)).1 in
    (t.trace ≡ on_seek_finished ∷ gst_element_seek_simple 1 (pos 1000000000) ∷ [])
    × (t.self.seeking_lock ≡ true)
    × (t.self.pending_seek ≡ d_minus_one)
last_request_wins_example =
    last_request_wins env (d_one ∷ []) d_zero seeking 1 refl refl (unfold d_eq in refl)
      (unfold d_ge in refl) refl

-- The discoverer finds no media.
abbrev blind : Env
blind = record env { discover_uri = λ _. none; discoverer_error = λ _. true }

blind-Steady : Steady (base_hooks {X = Unit {0}} blind)
blind-Steady = record { before_open = λ s. refl; clock_pipeline = λ s. refl; clock_bus = λ s. refl }

open_media-Outcome_example :
    let ((found, d), u) =
      discover_locally blind (codes "/m") (reopened blind (base_hooks blind) player) in
    Outcome blind
      (base_hooks blind)
      (gstreamer_initialized blind player).0
      false
      found
      (opens blind (base_hooks blind) d (pos 640) (pos 480) (codes "BGRA") u)
      d
      player
      (open_media blind (base_hooks blind) (codes "/m") (pos 640) (pos 480) (codes "BGRA") player)
open_media-Outcome_example =
    open_media-Outcome blind (base_hooks blind) (codes "/m") (pos 640) (pos 480) (codes "BGRA")
      player blind-Steady

close_gives_back_example :
    let b = stopped env (base_hooks env) player in
    let t = (close env (base_hooks env) player).1 in
    Emptied b.self t.self
    × (count (is_unref_of 1) t.trace
        ≡ count (is_unref_of 1) b.trace
          + one_if (points_to b.self.pipeline 1)
          + one_if (points_to b.self.gst_bus 1))
    × (count is_sample_unref t.trace
        ≡ count is_sample_unref b.trace + one_if (is_some b.self.current_sample))
close_gives_back_example = close_gives_back env (base_hooks env) player 1

close_idempotent_example :
    let t = (close env (base_hooks env) player).1 in (close env (base_hooks env) t).1 ≡ t
close_idempotent_example = close_idempotent env (base_hooks env) (λ s e. refl) player

eos_requests_example :
    state_requests (handle_message env (base_hooks env) eos player).1.trace
    ≡ state_playing ∷ state_ready ∷ state_null ∷ []
eos_requests_example = eos_requests env player 1 refl

-- A bus that hands out two messages.
abbrev busy : Env
busy = record env { bus_pending = λ t. ltb (pops t) 2; bus_pop = λ _. some eos }

drain_bus_ends_example :
    let t = (drain_bus busy (base_hooks busy) player).1 in
    ((w : Sys (Player (Unit {0}))) × (t
        ≡ record w { trace = gst_bus_have_pending w.self.gst_bus ∷ w.trace })
      × (busy.bus_pending t.trace ≡ false))
    × (message_unrefs t.trace + 0 ≡ 0 + handed_out busy t.trace)
drain_bus_ends_example = drain_bus_ends busy 2 player (λ bus t h. ground (arith, h)) (omega arith)

one_InRange : InRange d_one
unfolding d_ge
one_InRange = (refl, refl)

unmute-mute_example :
    let m = (set_mute env true player).1 in
    let u = (set_mute env false m).1 in
    (m.self.mute ≡ true)
    × (m.self.volume ≡ d_zero)
    × (u.self.mute ≡ false)
    × (u.self.volume ≡ d_one)
    × (u.saved_volume ≡ d_one)
    × (u.trace
        ≡ g_object_set_volume 1 d_one ∷ g_object_set_volume 1 d_zero ∷ g_object_get_volume 1 ∷ [])
unmute-mute_example = unmute-mute env player 1 refl one_InRange

unmute_takes_other_volume_example :
    let a = (set_mute env true player).1 in
    let other =
      (set_mute env true (record a { self = record player.self { pipeline = some 9 } })).1 in
    (set_mute env false (record other { self = a.self })).1.self.volume ≡ d_one
unmute_takes_other_volume_example =
    unmute_takes_other_volume env player (record player.self { pipeline = some 9 }) 1 9 refl refl
      one_InRange

abbrev DescribedBy : Bytes → Env → Type 0
DescribedBy path e =
    (uri : Bytes) × (info : MediaInfo) × (t : Trace) × (e.discover_uri
        (gst_discoverer_discover_uri uri ∷ t)
      ≡ some info)
    × (info.is_ok ≡ true)
    × Described e uri info (Discoverer.open_media e path (sys_of Discoverer.fresh)).1.self

open_media_found_example : DescribedBy (codes "/m") env
open_media_found_example = open_media_found env (codes "/m") (sys_of Discoverer.fresh) (
    unfold Discoverer.open_media Discoverer.reset Discoverer.discover gstreamer_initialized
      path_to_uri in
    refl)

abbrev player-CanSeek : CanSeek player.self
player-CanSeek = record { pipeline = 1; holds = refl; lasts = unfold d_eq in refl }

run_seeks-Runs_example :
    let t = run_seeks env seeks player in
    (ds : List Double) × Runs (view player.self) seeks ds (view t.self)
    × (seek_targets t.trace ≡ asked_then env d_one ds [])
run_seeks-Runs_example = run_seeks-Runs env seeks player player-CanSeek

open_media-Settled_example :
    Settled env [] (Discoverer.open_media env (codes "/m") (sys_of Discoverer.fresh)).1.trace
open_media-Settled_example = open_media-Settled env (codes "/m") (sys_of Discoverer.fresh)
