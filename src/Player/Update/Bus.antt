-- ===== src/Player/Update/Bus.antt =====
-- The loop of `update` over the bus: every message that it takes is given back, and it ends when the
-- bus hands out no more.
use nsvr.Prelude.{
  ℕ, ◌+◌, ◌-◌, ◌≤◌, ◌<◌, ◌≡◌, refl, Bool, true, false, Option, ◌∷◌, arith, is_some, Option-cases,
  inl, inr, ap, ◌∙◌,
}
use nsvr.Double.{Double}
use nsvr.Env.{
  Env, Handle, Call, Trace, GstState, state_null, state_ready, state_playing, state_paused, Message,
  error, warning, info, async_done, duration_changed, eos, other, state_changed, gst_message_unref,
  gst_bus_pop, gst_bus_have_pending, on_stream_end,
}
use nsvr.Env.Monad.{Sys}
use nsvr.Env.Monad.Loop.{loop_while_keeps, loop_while_ends}
use nsvr.Env.Count.{count, count_answered}
use nsvr.Player.Object.{Player, get_loop, get_mute, get_state}
use nsvr.Player.Seek.{set_time, query_duration}
use nsvr.Player.Volume.{get_volume, set_volume, set_mute}
use nsvr.Player.Control.{set_state, stop, play, replay, pause, base_hooks}
use nsvr.Player.Update.{handle_message, has_message, take_message, drain_bus}

abbrev pub is_message_unref : Call → Bool
is_message_unref gst_message_unref = true
is_message_unref _ = false

abbrev pub is_bus_pop : Call → Bool
is_bus_pop (gst_bus_pop _) = true
is_bus_pop _ = false

abbrev pub message_unrefs : Trace → ℕ
message_unrefs = count is_message_unref

-- How often the bus was asked for a message, and how often it handed one out.
abbrev pub pops : Trace → ℕ
pops = count is_bus_pop

abbrev pub handed_out : Env → Trace → ℕ
handed_out env = count_answered is_bus_pop (λ t. is_some (env.bus_pop t))

module _ {X : Type 0} (env : Env) where
  -- Nothing was taken from the bus or given back.
  abbrev Quiet : Sys (Player X) → Sys (Player X) → Type 0
  Quiet s t =
      (message_unrefs t.trace ≡ message_unrefs s.trace)
      × (pops t.trace ≡ pops s.trace)
      × (handed_out env t.trace ≡ handed_out env s.trace)

  set_state-Quiet :
      (state : GstState) (s : Sys (Player X)) → Quiet s (set_state env (base_hooks env) state s).1
  unfolding set_state get_state
  set_state-Quiet state s = ground arith

  set_mute-Quiet : (s : Sys (Player X)) → Quiet s (set_mute env true s).1
  unfolding set_mute set_volume get_volume
  set_mute-Quiet s = ground arith

  get_volume-Quiet : (s : Sys (Player X)) → Quiet s (get_volume env s).1
  unfolding get_volume
  get_volume-Quiet s = ground arith

  play-Quiet : (s : Sys (Player X)) → Quiet s (play env (base_hooks env) s).1
  unfolding play get_mute
  play-Quiet s =
      let s1 = (set_state env (base_hooks env) state_playing s).1 in
      let s2 = (get_volume env s1).1 in
      ground (arith, set_state-Quiet state_playing s, get_volume-Quiet s1, set_mute-Quiet s2)

  set_time-Quiet : (time : Double) (s : Sys (Player X)) → Quiet s (set_time env time s).1
  unfolding set_time
  set_time-Quiet time s = ground arith

  handle_message-Quiet :
      (m : Message) (s : Sys (Player X)) → Quiet s (handle_message env (base_hooks env) m s).1
  unfolding handle_message get_loop replay stop pause query_duration
  handle_message-Quiet error s = omega arith
  handle_message-Quiet warning s = omega arith
  handle_message-Quiet info s = omega arith
  handle_message-Quiet other s = omega arith
  handle_message-Quiet (state_changed source old new) s = ground arith
  handle_message-Quiet duration_changed s = ground arith
  handle_message-Quiet async_done s =
      let s0 : Sys (Player X) = record s { self = record s.self { seeking_lock = false } } in
      ground (arith, set_time-Quiet s.self.pending_seek s0)
  handle_message-Quiet eos s =
      let s0 : Sys (Player X) = record s { trace = on_stream_end ∷ s.trace } in
      let s1 = (set_state env (base_hooks env) state_null s0).1 in
      let s2 = (set_state env (base_hooks env) state_ready s1).1 in
      ground (
        arith,
        set_state-Quiet state_paused s0,
        set_state-Quiet state_null s0,
        set_state-Quiet state_ready s1,
        play-Quiet s2,
      )

  take_message_counts :
      (s : Sys (Player X))
      → let t = (take_message env (base_hooks env) s).1 in
        (pops t.trace ≡ pops s.trace + 1)
        × (message_unrefs t.trace + handed_out env s.trace
            ≡ message_unrefs s.trace + handed_out env t.trace)
  unfolding take_message
  take_message_counts s =
      let s1 : Sys (Player X) = record s { trace = gst_bus_pop s.self.gst_bus ∷ s.trace } in
      elim (Option-cases (env.bus_pop s1.trace)) [
        | inl e ↦ rw e (ground arith)
        | inr (m, e) ↦ rw e (ground (arith, handle_message-Quiet m s1))
      ]

  has_message_quiet :
      (s : Sys (Player X))
      → (has_message env s).1 ≡ record s { trace = gst_bus_have_pending s.self.gst_bus ∷ s.trace }
  unfolding has_message
  has_message_quiet s = refl

  take_message_lowers :
      (limit : ℕ)
      → ((bus : Option Handle) (t : Trace)
          → limit ≤ pops t
          → env.bus_pending (gst_bus_have_pending bus ∷ t) ≡ false)
      → (s : Sys (Player X)) → (has_message env s).0 ≡ true
      → limit - pops (take_message env (base_hooks env) (has_message env s).1).1.trace
        < limit - pops s.trace
  unfolding has_message
  take_message_lowers limit bounded s again =
      let t : Sys (Player X) = record s { trace = gst_bus_have_pending s.self.gst_bus ∷ s.trace } in
      ground (arith, bounded s.self.gst_bus s.trace, take_message_counts t)

  -- Given back is what was handed out.
  abbrev Settled : Sys (Player X) → Sys (Player X) → Type 0
  Settled s t =
      message_unrefs t.trace + handed_out env s.trace
      ≡ message_unrefs s.trace + handed_out env t.trace

  drain_bus-Settled : (s : Sys (Player X)) → Settled s (drain_bus env (base_hooks env) s).1
  unfolding drain_bus
  drain_bus-Settled s =
      loop_while_keeps (has_message env) (take_message env (base_hooks env)) (Settled s)
        (λ w h. unfold has_message in omega (arith, h))
        (λ w h. omega (arith, h, (take_message_counts w).1)) (λ w h. omega (arith, h)) env.rounds s
        (omega arith)

  -- The loop of update ends: if the bus has nothing pending once it was asked for some number of
  -- messages, fewer than the rounds for which a loop is followed, then the last call is a test of
  -- the bus that finds nothing pending, and each message that the bus handed out was unreferenced
  -- once; with the functions of Player itself.
  pub drain_bus_ends :
      (limit : ℕ) (s : Sys (Player X))
      → ((bus : Option Handle) (t : Trace)
          → limit ≤ pops t
          → env.bus_pending (gst_bus_have_pending bus ∷ t) ≡ false)
      → limit < env.rounds
      → let t = (drain_bus env (base_hooks env) s).1 in
        ((w : Sys (Player X)) × (t
            ≡ record w { trace = gst_bus_have_pending w.self.gst_bus ∷ w.trace })
          × (env.bus_pending t.trace ≡ false))
        × (message_unrefs t.trace + handed_out env s.trace
            ≡ message_unrefs s.trace + handed_out env t.trace)
  drain_bus_ends limit s bounded enough =
      let (w, over, run) =
        loop_while_ends (has_message env) (take_message env (base_hooks env))
          (λ u. limit - pops u.trace) (take_message_lowers limit bounded) env.rounds s
          (omega arith) in
      (
        unfold drain_bus in
            (w, ap (λ (r : Unit {0} × Sys (Player X)). r.1) run ∙ has_message_quiet w, rw run over),
        drain_bus-Settled s,
      )
