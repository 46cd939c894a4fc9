-- ===== src/Player/Handshake/Callbacks.antt =====
-- The callbacks of the sink and the end of `update`, each run as a whole: a run of the code takes steps
-- of Handshake.
use nsvr.Prelude.{◌≡◌, refl, sym, some, true, ◌∷◌, inl, inr, Bool-cases, Option-cases, arith}
use nsvr.Env.{
  Env, Handle, gst_sample_unref, gst_sample_get_buffer, gst_buffer_map, gst_app_sink_pull_sample,
  gst_app_sink_pull_preroll, gst_sample_get_caps,
}
use nsvr.Env.Monad.{Sys}
use nsvr.Player.Object.{Player, Hooks}
use nsvr.Player.Frames.{process_sample, on_sample, on_preroll, consume_frame, read_sizes}
use nsvr.Player.Frames.Laws.{read_sizes_keeps}
use nsvr.Player.Handshake.{
  Shared, Streaming, waiting, pulled, User, idle, unmapping, Reach, later, produces, uses, pull,
  see_dirty, see_clean, skip, store_sample, store_buffer, raise_flag, nothing_new, found_frame,
  shown, unmap, unref, unref_none, clear_buffer, clear_sample, lower_flag,
}
use nsvr.Player.Handshake.View.{at, LeavesFrames}

-- Equal fields make equal states.
pub same_fields :
    {m m' : Shared} {p : Streaming} {q : User}
    → Reach (record { shared = m; streaming = p; user = q })
    → (m.sample ≡ m'.sample)
      × (m.buffer ≡ m'.buffer)
      × (m.dirty ≡ m'.dirty)
      × (m.streams ≡ m'.streams)
      × (m.handed_out ≡ m'.handed_out)
      × (m.given_back ≡ m'.given_back)
    → Reach (record { shared = m'; streaming = p; user = q })
same_fields r (e0, e1, e2, e3, e4, e5) = rw (sym e0, sym e1, sym e2, sym e3, sym e4, sym e5) r

module _ {X : Type 0} (env : Env) where
  process_sample-Reach :
      (h : Handle) (s : Sys (Player X))
      → Reach (at env true (pulled h) idle s)
      → Reach (at env true waiting idle (process_sample env h s).1)
  process_sample-Reach h s r = elim (Bool-cases s.self.buffer_dirty) [
    | inl e ↦
        let run : process_sample env h s ≡ (tt, record s { trace = gst_sample_unref h ∷ s.trace }) =
          unfold process_sample in rw e refl in
        rw run
          (same_fields (later (later r (produces (see_dirty e))) (produces skip)) (ground arith))
    | inr e ↦
        let t = gst_sample_get_buffer h ∷ s.trace in
        let b = env.sample_buffer t in
        let t' = gst_buffer_map b ∷ t in
        let run : process_sample env h s ≡ (
          tt,
          record s {
            self = record s.self {
              current_sample = some h;
              current_buffer = b;
              map_info = env.buffer_map t';
              buffer_dirty = true;
            };
            trace = t';
          },
        ) =
          unfold process_sample in rw e refl in
        rw run (
          same_fields
            (later
              (later (later (later r (produces (see_clean e))) (produces store_sample))
                (produces (store_buffer b)))
              (produces raise_flag))
            (ground arith))
  ]

  pub on_sample-Reach :
      (sink : Handle) (s : Sys (Player X))
      → Reach (at env true waiting idle s)
      → Reach (at env true waiting idle (on_sample env sink s).1)
  on_sample-Reach sink s r =
      let t = gst_app_sink_pull_sample sink ∷ s.trace in
      elim (Option-cases (env.pull_sample t)) [
        | inl e ↦ unfold on_sample in same_fields r (ground arith)
        | inr (h, e) ↦
            let run : on_sample env sink s ≡ process_sample env h (record s { trace = t }) =
              unfold on_sample in rw e refl in
            rw run (
              process_sample-Reach h (record s { trace = t })
                (same_fields (later r (produces (pull h refl))) (ground arith)))
      ]

  pub on_preroll-Reach :
      (sink : Handle) (s : Sys (Player X))
      → Reach (at env true waiting idle s)
      → Reach (at env true waiting idle (on_preroll env sink s).1)
  on_preroll-Reach sink s r =
      let t = gst_app_sink_pull_preroll sink ∷ s.trace in
      elim (Option-cases (env.pull_sample t)) [
        | inl e ↦ unfold on_preroll in same_fields r (ground arith)
        | inr (h, e) ↦
            let t' = gst_sample_get_caps h ∷ t in
            let s' = record s { trace = t' } in
            let u = (read_sizes env (env.sample_caps t') s').1 in
            let run : on_preroll env sink s ≡ process_sample env h u =
              unfold on_preroll in rw e refl in
            rw run (
              process_sample-Reach h u (
                same_fields (later r (produces (pull h refl)))
                  (ground (arith, read_sizes_keeps env (env.sample_caps t') s'))))
      ]

module _ {X : Type 0} (env : Env) (hooks : Hooks X) (leaves : LeavesFrames env hooks) where
  pub consume_frame-Reach :
      (s : Sys (Player X))
      → Reach (at env true waiting idle s)
      → Reach (at env true waiting idle (consume_frame env hooks s).1)
  consume_frame-Reach s r = elim (Bool-cases s.self.buffer_dirty) [
    | inr e ↦ unfold consume_frame in same_fields (later r (uses (nothing_new e))) (ground arith)
    | inl e ↦
        let u = (hooks.on_video_frame s.self.map_info s).1 in
        let looked : Reach (at env true waiting unmapping u) =
          rw (leaves.video_frame s.self.map_info true s)
            (later (later r (uses (found_frame e))) (uses shown)) in
        elim (Option-cases u.self.current_sample) [
          | inl n ↦
              unfold consume_frame in
              same_fields
                (later
                  (later
                    (later (later (later looked (uses unmap)) (uses (unref_none n)))
                      (uses clear_buffer))
                    (uses clear_sample))
                  (uses lower_flag))
                (ground arith)
          | inr (h, n) ↦
              unfold consume_frame in
              same_fields
                (later
                  (later
                    (later (later (later looked (uses unmap)) (uses (unref n))) (uses clear_buffer))
                    (uses clear_sample))
                  (uses lower_flag))
                (ground arith)
        ]
  ]
