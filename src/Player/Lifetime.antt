-- ===== src/Player/Lifetime.antt =====
-- A player from its constructor to its destructor: calls of its public methods, and of the sink's
-- callbacks between them, against the interleavings of Handshake.
use nsvr.Prelude.{
  ◌+◌, ◌≡◌, refl, ◌∙◌, ◌∷◌, [], List, Bool, true, false, Bytes, arith, Bool-cases, inl, inr,
  is_some,
}
use nsvr.Prelude.Int.{ℤ}
use nsvr.Double.{Double}
use nsvr.Env.{Env, Handle, GstState, state_paused}
use nsvr.Env.Monad.{Sys}
use nsvr.Env.Count.{delivered}
use nsvr.Internal.System.{self-gstreamer_initialized}
use nsvr.Discoverer.Resources.{gstreamer_initialized-Quiet}
use nsvr.Player.Object.{Player, Hooks, cleared, construct, reset, set_loop}
use nsvr.Player.Frames.{on_preroll, on_sample}
use nsvr.Player.Frames.Laws.{unrefs, held_samples}
use nsvr.Player.Control.{
  close, set_state, stop, play, replay, pause, query_state, base_hooks, destroy,
}
use nsvr.Player.Volume.{set_volume, get_volume, set_mute}
use nsvr.Player.Seek.{get_time, query_duration}
use nsvr.Player.Opening.{open_media, open_sized, open_formatted, open_path}
use nsvr.Player.Opening.Frames.{Scheduled, same_frame, Leaves-Scheduled, close-Scheduled}
use nsvr.Player.Opening.Frames.Methods.{
  open_media-Scheduled, open_sized-Scheduled, open_formatted-Scheduled, open_path-Scheduled,
}
use nsvr.Player.Update.{update, drain_bus}
use nsvr.Player.Handshake.{waiting, idle, closed, Reach, start, later, uses, reopen}
use nsvr.Player.Handshake.Safety.{samples_accounted, closed_leaks_nothing}
use nsvr.Player.Handshake.View.{at, Leaves, LeavesFrames, set_state-Leaves, stop-Leaves}
use nsvr.Player.Handshake.View.Messages.{drain_bus-Leaves, play-Leaves}
use nsvr.Player.Handshake.View.Accessors.{
  set_mute-Leaves, get_volume-Leaves, query_duration-Leaves, set_volume-Leaves, set_loop-Leaves,
  query_state-Leaves, get_time-Leaves, base_hooks-LeavesFrames,
}
use nsvr.Player.Handshake.Callbacks.{
  same_fields, on_preroll-Reach, on_sample-Reach, consume_frame-Reach,
}
use nsvr.Player.Handshake.Schedules.{close-Reach}

-- A call of the user's thread, or of the sink.
pub data PlayerOp : Type 0 where
  opened : Bytes → ℤ → ℤ → Bytes → PlayerOp
  opened_sized : Bytes → ℤ → ℤ → PlayerOp
  opened_formatted : Bytes → Bytes → PlayerOp
  opened_path : Bytes → PlayerOp
  updated was_closed stopped played replayed paused : PlayerOp
  state_set : GstState → PlayerOp
  time_set volume_set : Double → PlayerOp
  mute_set loop_set : Bool → PlayerOp
  state_queried time_read duration_queried volume_read : PlayerOp
  preroll_arrives sample_arrives : Handle → PlayerOp

module _ {X : Type 0} (env : Env) (hooks : Hooks X) where
  pub run_op : PlayerOp → Sys (Player X) → Sys (Player X)
  run_op (opened path width height fmt) s = (open_media env hooks path width height fmt s).1
  run_op (opened_sized path width height) s = (open_sized env hooks path width height s).1
  run_op (opened_formatted path fmt) s = (open_formatted env hooks path fmt s).1
  run_op (opened_path path) s = (open_path env hooks path s).1
  run_op updated s = (update env hooks s).1
  run_op was_closed s = (close env hooks s).1
  run_op stopped s = (stop env hooks s).1
  run_op played s = (play env hooks s).1
  run_op replayed s = (replay env hooks s).1
  run_op paused s = (pause env hooks s).1
  run_op (state_set state) s = (set_state env hooks state s).1
  run_op (time_set time) s = (hooks.set_time time s).1
  run_op (volume_set volume) s = (set_volume env volume s).1
  run_op (mute_set on) s = (set_mute env on s).1
  run_op (loop_set on) s = (set_loop on s).1
  run_op state_queried s = (query_state env s).1
  run_op time_read s = (get_time env s).1
  run_op duration_queried s = (query_duration env s).1
  run_op volume_read s = (get_volume env s).1
  run_op (preroll_arrives sink) s = (on_preroll env sink s).1
  run_op (sample_arrives sink) s = (on_sample env sink s).1

  pub run_ops : List PlayerOp → Sys (Player X) → Sys (Player X)
  run_ops [] s = s
  run_ops (op ∷ ops) s = run_ops ops (run_op op s)

module _ {X : Type 0} (env : Env) (hooks : Hooks X) (leaves : LeavesFrames env hooks) where
  update-Scheduled : (s : Sys (Player X)) → Scheduled env s → Scheduled env (update env hooks s).1
  update-Scheduled s r =
      let s1 = (hooks.on_before_update s).1 in
      let s2 = (drain_bus env hooks s1).1 in
      let r1 = same_frame env s s1 (leaves.before_update true s) r in
      let r2 = same_frame env s1 s2 (drain_bus-Leaves env hooks leaves true s1) r1 in
      elim (Bool-cases (is_some s1.self.gst_bus)) [
        | inl e ↦ unfold update in rw e (consume_frame-Reach env hooks leaves s2 r2)
        | inr e ↦ unfold update in rw e (consume_frame-Reach env hooks leaves s1 r1)
      ]

  replay-Leaves : Leaves env (replay env hooks)
  unfolding replay
  replay-Leaves b s =
      play-Leaves env hooks leaves b (stop env hooks s).1 ∙ stop-Leaves env hooks leaves b s

  run_op-Scheduled :
      (op : PlayerOp) (s : Sys (Player X)) → Scheduled env s → Scheduled env (run_op env hooks op s)
  unfolding run_op pause
  run_op-Scheduled (opened path width height fmt) s r =
      open_media-Scheduled env hooks leaves path width height fmt s r
  run_op-Scheduled (opened_sized path width height) s r =
      open_sized-Scheduled env hooks leaves path width height s r
  run_op-Scheduled (opened_formatted path fmt) s r =
      open_formatted-Scheduled env hooks leaves path fmt s r
  run_op-Scheduled (opened_path path) s r = open_path-Scheduled env hooks leaves path s r
  run_op-Scheduled updated s r = update-Scheduled s r
  run_op-Scheduled was_closed s r = close-Scheduled env hooks leaves s r
  run_op-Scheduled (preroll_arrives sink) s r = on_preroll-Reach env sink s r
  run_op-Scheduled (sample_arrives sink) s r = on_sample-Reach env sink s r
  run_op-Scheduled stopped s r =
      Leaves-Scheduled env (stop env hooks) (stop-Leaves env hooks leaves) s r
  run_op-Scheduled played s r =
      Leaves-Scheduled env (play env hooks) (play-Leaves env hooks leaves) s r
  run_op-Scheduled replayed s r = Leaves-Scheduled env (replay env hooks) (replay-Leaves) s r
  run_op-Scheduled paused s r =
      Leaves-Scheduled env (pause env hooks) (set_state-Leaves env hooks leaves state_paused) s r
  run_op-Scheduled (state_set state) s r =
      Leaves-Scheduled env (set_state env hooks state) (set_state-Leaves env hooks leaves state) s r
  run_op-Scheduled (time_set time) s r =
      Leaves-Scheduled env (hooks.set_time time) (leaves.set_time time) s r
  run_op-Scheduled (volume_set v) s r =
      Leaves-Scheduled env (set_volume env v) (set_volume-Leaves env v) s r
  run_op-Scheduled (mute_set on) s r =
      Leaves-Scheduled env (set_mute env on) (set_mute-Leaves env on) s r
  run_op-Scheduled (loop_set on) s r =
      Leaves-Scheduled env (set_loop on) (set_loop-Leaves env on) s r
  run_op-Scheduled state_queried s r =
      Leaves-Scheduled env (query_state env) (query_state-Leaves env) s r
  run_op-Scheduled time_read s r = Leaves-Scheduled env (get_time env) (get_time-Leaves env) s r
  run_op-Scheduled duration_queried s r =
      Leaves-Scheduled env (query_duration env) (query_duration-Leaves env) s r
  run_op-Scheduled volume_read s r =
      Leaves-Scheduled env (get_volume env) (get_volume-Leaves env) s r

  run_ops-Scheduled :
      (ops : List PlayerOp) (s : Sys (Player X))
      → Scheduled env s
      → Scheduled env (run_ops env hooks ops s)
  unfolding run_ops
  run_ops-Scheduled [] s r = r
  run_ops-Scheduled (op ∷ ops) s r =
      run_ops-Scheduled ops (run_op env hooks op s) (run_op-Scheduled op s r)

-- A new player.
construct-Scheduled :
    {X : Type 0} (env : Env) (s : Sys (Player X)) → s.trace ≡ [] → Scheduled env (construct env s).1
unfolding construct reset
construct-Scheduled {X} env s e =
    let s0 : Sys (Player X) = record s {
      self = cleared (record s.self { loop = false; mute = false });
    } in
    same_fields (later start (uses reopen))
      (ground (arith, e, self-gstreamer_initialized env s0, (gstreamer_initialized-Quiet env s0).0))

-- The code of a player runs as an interleaving of the two threads: from its constructor on, over
-- any sequence of calls of its methods and of the callbacks of the sink, each run as a whole, the
-- frame and the samples handed out and given back are those of a state that the steps of the two
-- threads reach, with both at rest, and every sample that the sink handed out was given back or
-- is the one held; behind the destructor the threads are at the end of close, and as many samples
-- were given back as were handed out. No call was made before, and the overrides neither write
-- the frame nor pull samples nor give any back.
pub lifetime_scheduled :
    {X : Type 0} (env : Env) (hooks : Hooks X)
    → LeavesFrames env hooks
    → (ops : List PlayerOp) (s : Sys (Player X)) → s.trace ≡ []
    → let t = run_ops env hooks ops (construct env s).1 in
      let u = (destroy env t).1 in
      Reach (at env true waiting idle t)
      × (delivered env t.trace ≡ unrefs t + held_samples t)
      × Reach (at env false waiting closed u)
      × (unrefs u ≡ delivered env u.trace)
lifetime_scheduled env hooks leaves ops s e =
    let s0 = (construct env s).1 in
    let t = run_ops env hooks ops s0 in
    let live : Scheduled env t =
      run_ops-Scheduled env hooks leaves ops s0 (construct-Scheduled env s e) in
    let over : Reach (at env false waiting closed (destroy env t).1) =
      unfold destroy in close-Reach env (base_hooks env) (base_hooks-LeavesFrames env) t live in
    (live, ground (arith, samples_accounted live), over, closed_leaks_nothing over refl)
