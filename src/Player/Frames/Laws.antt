-- ===== src/Player/Frames/Laws.antt =====
-- No sample is lost or given back twice, whatever the order of arrivals and updates.
use nsvr.Prelude.{
  ℕ, ◌+◌, ◌≡◌, refl, false, none, some, List, [], ◌∷◌, arith, is_some, inl, inr, Option-cases,
}
use nsvr.Env.{
  Env, Handle, SampleCaps, no_caps, unfixed, no_structure, sizes, on_video_frame,
  gst_app_sink_pull_preroll, gst_app_sink_pull_sample, gst_sample_get_caps,
}
use nsvr.Env.Monad.{Sys, call}
use nsvr.Env.Count.{one_if, count, delivered, is_sample_unref}
use nsvr.Player.Object.{Player, Hooks}
use nsvr.Player.Frames.{process_sample, read_sizes, on_preroll, on_sample, consume_frame}

-- `mBufferDirty` says whether a sample is held.
pub record IsFrameValid {X : Type 0} (p : Player X) : Type 0 where
  pub held : p.buffer_dirty ≡ is_some p.current_sample
  pub unmapped : p.buffer_dirty ≡ false → p.current_buffer ≡ none

-- What happens to frames: the sink calls back, or the user's thread updates.
pub data FrameOp : Type 0 where
  preroll_arrives sample_arrives : Handle → FrameOp
  frame_consumed : FrameOp

module _ {X : Type 0} (env : Env) (hooks : Hooks X) where
  pub run_op : FrameOp → Sys (Player X) → Sys (Player X)
  run_op (preroll_arrives sink) s = (on_preroll env sink s).1
  run_op (sample_arrives sink) s = (on_sample env sink s).1
  run_op frame_consumed s = (consume_frame env hooks s).1

  pub run_ops : List FrameOp → Sys (Player X) → Sys (Player X)
  run_ops [] s = s
  run_ops (op ∷ ops) s = run_ops ops (run_op op s)

module _ {X : Type 0} where
  abbrev pub unrefs : Sys (Player X) → ℕ
  unrefs s = count is_sample_unref s.trace

  abbrev pub held_samples : Sys (Player X) → ℕ
  held_samples s = one_if (is_some s.self.current_sample)

  -- The samples handed out between two states are those given back, and the one held now.
  abbrev pub Balanced : Env → Sys (Player X) → Sys (Player X) → Type 0
  Balanced env s t =
      delivered env t.trace + unrefs s + held_samples s
      ≡ delivered env s.trace + unrefs t + held_samples t

  process_sample_Balanced :
      (env : Env) (h : Handle) (s : Sys (Player X))
      → IsFrameValid s.self
      → let t = (process_sample env h s).1 in
        (delivered env t.trace ≡ delivered env s.trace)
        × (unrefs s + held_samples s + 1 ≡ unrefs t + held_samples t)
        × IsFrameValid t.self
  unfolding process_sample
  process_sample_Balanced env h s v = ground arith

  pub read_sizes_keeps :
      (env : Env) (caps : SampleCaps) (s : Sys (Player X))
      → let t = (read_sizes env caps s).1 in
        (delivered env t.trace ≡ delivered env s.trace)
        × (unrefs t ≡ unrefs s)
        × (t.self.current_sample ≡ s.self.current_sample)
        × (t.self.current_buffer ≡ s.self.current_buffer)
        × (t.self.buffer_dirty ≡ s.self.buffer_dirty)
  unfolding read_sizes
  read_sizes_keeps env no_caps s = ground arith
  read_sizes_keeps env no_structure s = ground arith
  read_sizes_keeps env unfixed s = ground arith
  read_sizes_keeps env (sizes none height) s = ground arith
  read_sizes_keeps env (sizes (some w) none) s = ground arith
  read_sizes_keeps env (sizes (some w) (some h)) s = ground arith

  module _ (env : Env) (hooks : Hooks X) (s : Sys (Player X)) (v : IsFrameValid s.self) where
    on_sample-Balanced :
        (sink : Handle) → let t = (on_sample env sink s).1 in Balanced env s t × IsFrameValid t.self
    on_sample-Balanced sink =
        let t = gst_app_sink_pull_sample sink ∷ s.trace in
        elim (Option-cases (env.pull_sample t)) [
          | inl e ↦ unfold on_sample in ground arith
          | inr (h, e) ↦
              unfold on_sample in
              ground (arith, process_sample_Balanced env h (record s { trace = t }))
        ]

    on_preroll-Balanced :
        (sink : Handle)
        → let t = (on_preroll env sink s).1 in Balanced env s t × IsFrameValid t.self
    on_preroll-Balanced sink =
        let t = gst_app_sink_pull_preroll sink ∷ s.trace in
        elim (Option-cases (env.pull_sample t)) [
          | inl e ↦ unfold on_preroll in ground arith
          | inr (h, e) ↦
              let t' = gst_sample_get_caps h ∷ t in
              let s' = record s { trace = t' } in
              let u = (read_sizes env (env.sample_caps t') s').1 in
              unfold on_preroll in
              ground (
                arith,
                read_sizes_keeps env (env.sample_caps t') s',
                process_sample_Balanced env h u,
              )
        ]

    consume_frame-Balanced :
        hooks.on_video_frame ≡ (λ info. call (on_video_frame info))
        → let t = (consume_frame env hooks s).1 in Balanced env s t × IsFrameValid t.self
    consume_frame-Balanced e = unfold consume_frame in rw e (ground arith)

-- Over any sequence of calls of the sink's preroll and sample callbacks and of the last part of
-- update, which hands a held frame out (its hook onBeforeUpdate and its bus are not run here),
-- from a player whose flag says whether a sample is held, every sample that the sink handed out
-- was unreferenced once or is the one held, and the flag goes on saying whether one is held. The
-- override of onVideoFrame is one that is only called.
pub samples_conserved :
    {X : Type 0} (env : Env) (hooks : Hooks X) (ops : List FrameOp) (s : Sys (Player X))
    → hooks.on_video_frame ≡ (λ info. call (on_video_frame info))
    → IsFrameValid s.self
    → let t = run_ops env hooks ops s in Balanced env s t × IsFrameValid t.self
unfolding run_ops run_op
samples_conserved env hooks [] s e v = (refl, v)
samples_conserved env hooks (op ∷ ops) s e v =
    let (b, w) = step op in
    let (b', w') = samples_conserved env hooks ops (run_op env hooks op s) e w in (omega arith, w')
  where
    step :
        (op : FrameOp)
        → Balanced env s (run_op env hooks op s) × IsFrameValid (run_op env hooks op s).self
    step (preroll_arrives sink) = on_preroll-Balanced env hooks s v sink
    step (sample_arrives sink) = on_sample-Balanced env hooks s v sink
    step frame_consumed = consume_frame-Balanced env hooks s v e
