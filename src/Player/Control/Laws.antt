-- ===== src/Player/Control/Laws.antt =====
-- What `close` gives back, that closing again does nothing, and in which state the pipeline is let go.
use nsvr.Prelude.Int.{pos}
use nsvr.Double.{d_zero, d_one, d_minus_one}
use nsvr.Prelude.{
  refl, ◌+◌, ◌≡◌, ap, Bool, false, Option, none, some, [], ◌∷◌, arith, is_some, ◌==◌, if◌then◌else◌,
}
use nsvr.Env.{Env, Handle, Call, Trace, GstState, state_null, state_ready, gst_element_set_state}
use nsvr.Env.Monad.{Sys}
use nsvr.Env.Count.{one_if, count, is_unref_of, is_sample_unref}
use nsvr.Player.Object.{Player, Hooks, cleared, reset}
use nsvr.Player.Frames.{release_frame}
use nsvr.Player.Control.{set_state, stop, close, release_all, base_hooks}

abbrev pub points_to : Option Handle → Handle → Bool
points_to none h = false
points_to (some k) h = k == h

-- The state that was last requested of a pipeline.
abbrev pub requests : Handle → Call → Option GstState
requests h (gst_element_set_state (some k) state) = if k == h then some state else none
requests h _ = none

abbrev pub first_some {ℓ} : {A : Type ℓ} → Option A → Option A → Option A
first_some none o = o
first_some (some a) o = some a

abbrev pub last_request : Handle → Trace → Option GstState
last_request h [] = none
last_request h (c ∷ t) = first_some (requests h c) (last_request h t)

-- A player that holds nothing, as a new one is; the mute flag, the loop, the mapped frame and the
-- fields of the subclass stay.
abbrev pub Emptied : {X : Type 0} → Player X → Player X → Type 0
Emptied p q =
    (q.pipeline ≡ none)
    × (q.gst_bus ≡ none)
    × (q.current_sample ≡ none)
    × (q.current_buffer ≡ none)
    × (q.buffer_dirty ≡ false)
    × (q.state ≡ state_null)
    × (q.pending_seek ≡ d_minus_one)
    × (q.seeking_lock ≡ false)
    × (q.width ≡ pos 0)
    × (q.height ≡ pos 0)
    × (q.duration ≡ d_zero)
    × (q.time ≡ d_zero)
    × (q.volume ≡ d_one)
    × (q.mute ≡ p.mute)
    × (q.loop ≡ p.loop)
    × (q.map_info ≡ p.map_info)
    × (q.derived ≡ p.derived)

module _ {X : Type 0} (env : Env) (hooks : Hooks X) where
  -- The state in which `close` gives the handles back.
  abbrev pub stopped : Sys (Player X) → Sys (Player X)
  stopped s = (stop env hooks (hooks.on_before_close s).1).1

  pub close_lem :
      (s : Sys (Player X)) (h : Handle)
      → let b = stopped s in
        let t = (close env hooks s).1 in
        (t.self ≡ cleared b.self)
        × (count (is_unref_of h) t.trace
            ≡ count (is_unref_of h) b.trace
              + one_if (points_to b.self.pipeline h)
              + one_if (points_to b.self.gst_bus h))
        × (count is_sample_unref t.trace
            ≡ count is_sample_unref b.trace + one_if (is_some b.self.current_sample))
  unfolding close release_all release_frame reset
  close_lem s h = ground arith

  pub self-close : (s : Sys (Player X)) → (close env hooks s).1.self ≡ cleared (stopped s).self
  self-close s = (close_lem s 0).0

  -- Whatever the overrides do, close leaves a player with no pipeline, bus, held sample, mapped
  -- buffer or frame flag, with no pending seek (-1) and the seeking lock off, with sizes,
  -- duration and time 0, volume 1 and state NULL, and with the mute and loop flags, the mapped
  -- frame and the subclass's fields as they were behind its call of stop; and behind that call it
  -- unreferences the pipeline and the bus once each, and a held sample once.
  pub close_gives_back :
      (s : Sys (Player X)) (h : Handle)
      → let b = stopped s in
        let t = (close env hooks s).1 in
        Emptied b.self t.self
        × (count (is_unref_of h) t.trace
            ≡ count (is_unref_of h) b.trace
              + one_if (points_to b.self.pipeline h)
              + one_if (points_to b.self.gst_bus h))
        × (count is_sample_unref t.trace
            ≡ count is_sample_unref b.trace + one_if (is_some b.self.current_sample))
  close_gives_back s h =
      let (same, pipes, samples) = close_lem s h in
      rw same (
        (
          refl, refl, refl, refl, refl, refl, refl, refl, refl, refl, refl, refl, refl, refl, refl,
          refl, refl,
        ),
        pipes,
        samples,
      )

  set_state_without_pipeline :
      (state : GstState) (s : Sys (Player X))
      → s.self.pipeline ≡ none
      → (set_state env hooks state s).1 ≡ s
  unfolding set_state
  set_state_without_pipeline state s e = ground arith

  stop_without_pipeline : (s : Sys (Player X)) → s.self.pipeline ≡ none → (stop env hooks s).1 ≡ s
  unfolding stop
  stop_without_pipeline s e =
      rw (set_state_without_pipeline _ s e, set_state_without_pipeline _ s e)

  close-cleared :
      ((s : Sys (Player X)) → s.self.pipeline ≡ none → (hooks.on_before_close s).1 ≡ s)
      → (s : Sys (Player X)) → s.self ≡ cleared s.self
      → (close env hooks s).1 ≡ s
  close-cleared quiet s e =
      let p = ap (λ (r : Player X). r.pipeline) e in
      unfold close in
      rw (quiet s p, stop_without_pipeline s p)
        (unfold release_all release_frame reset in ground arith)

  -- Closing twice is closing once, in the object and in the calls made, if the override of
  -- onBeforeClose does nothing to a player without a pipeline.
  pub close_idempotent :
      ((s : Sys (Player X)) → s.self.pipeline ≡ none → (hooks.on_before_close s).1 ≡ s)
      → (s : Sys (Player X)) → (close env hooks (close env hooks s).1).1 ≡ (close env hooks s).1
  close_idempotent quiet s =
      let e = self-close s in close-cleared quiet (close env hooks s).1 (rw e)

-- `stop` ends in READY, and `close` lets the pipeline go from there: the last state that was requested
-- of it is not NULL.
close_from_ready :
    {X : Type 0} (env : Env) (s : Sys (Player X)) (h : Handle)
    → s.self.pipeline ≡ some h
    → points_to s.self.gst_bus h ≡ false
    → let t = (close env (base_hooks env) s).1 in
      (last_request h t.trace ≡ some state_ready)
      × (count (is_unref_of h) t.trace ≡ count (is_unref_of h) s.trace + 1)
unfolding close stop set_state release_all release_frame reset
close_from_ready env s h e b = ground arith
