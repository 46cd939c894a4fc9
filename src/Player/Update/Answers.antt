-- ===== src/Player/Update/Answers.antt =====
-- What the messages of the bus that one call of `Player::update` drains leave of a player.
use nsvr.Prelude.{
  ℕ, zero, suc, ◌<◌, ◌≡◌, refl, Bool, true, false, some, List, [], ◌∷◌, arith, ◌==◌, ◌&&◌, not,
  length, is_some, if◌then◌else◌,
}
use nsvr.Prelude.Int.{◌==ℤ◌}
use nsvr.Env.{
  Env, Handle, Trace, Message, GstState, state_null, state_ready, is_failure, state_changed,
  async_done, eos, gst_element_get_state, gst_element_get_base_time, gst_element_set_base_time,
  gst_bus_have_pending, gst_bus_pop, gst_message_unref,
}
use nsvr.Env.Monad.{Sys, loop_while}
use nsvr.Player.Object.{Player, Hooks}
use nsvr.Player.Frames.{consume_frame}
use nsvr.Player.Update.{has_message, handle_message, take_message, drain_bus, update}
use nsvr.Player.Update.Messages.{state_requests}

-- The base time that an element was given last; a new one has 0.
abbrev pub last_base : Handle → Trace → ℕ
last_base h [] = 0
last_base h (gst_element_set_base_time k base ∷ t) = if k == h then base else last_base h t
last_base h (_ ∷ t) = last_base h t

-- The state that was requested last; a new pipeline has NULL.
abbrev pub newest : List GstState → GstState
newest [] = state_null
newest (state ∷ _) = state

abbrev pub last_state : Trace → GstState
last_state t = newest (state_requests t)

-- What GStreamer does for the pipeline: it tells the base time that it was given and the state that was
-- requested last, and fails no request for a state.
pub record Obeys (env : Env) (h : Handle) : Type 0 where
  pub tells : (t : Trace) → env.base_time (gst_element_get_base_time h ∷ t) ≡ last_base h t
  pub accepts : (t : Trace) → is_failure (env.set_state t) ≡ false
  pub answers : (t : Trace) → is_failure (env.get_state t) ≡ false
  pub reports :
      (t : Trace) → env.get_state_written (gst_element_get_state (some h) ∷ t) ≡ some (last_state t)

-- The end of the stream is not among the messages, nor the end of a seek while one is to be done.
abbrev pub is_calm : Bool → Message → Bool
is_calm pending async_done = not pending
is_calm pending eos = false
is_calm pending _ = true

abbrev pub are_calm : Bool → List Message → Bool
are_calm pending [] = true
are_calm pending (m ∷ ms) = is_calm pending m && are_calm pending ms

-- Whether the pipeline is in READY by the last message on its state; those of its elements tell nothing.
abbrev pub is_ready_by : Handle → Message → Bool → Bool
is_ready_by h (state_changed source old new) before =
    if h == source then new ==ℤ state_ready else before
is_ready_by h _ before = before

abbrev pub ends_ready : Handle → List Message → Bool → Bool
ends_ready h [] before = before
ends_ready h (m ∷ ms) before = ends_ready h ms (is_ready_by h m before)

module _ {X : Type 0} where
  -- The player behind a test of its bus.
  abbrev pub polled : Sys (Player X) → Sys (Player X)
  polled s = record s { trace = gst_bus_have_pending s.self.gst_bus ∷ s.trace }

module _ {X : Type 0} (env : Env) (hooks : Hooks X) where
  -- The player behind a message.
  abbrev pub heard : Message → Sys (Player X) → Sys (Player X)
  heard m s =
      let u =
        (handle_message env hooks m
          (record s { trace = gst_bus_pop s.self.gst_bus ∷ s.trace })).1 in
      record u { trace = gst_message_unref ∷ u.trace }

  abbrev pub after : List Message → Sys (Player X) → Sys (Player X)
  after [] s = polled s
  after (m ∷ ms) s = after ms (heard m (polled s))

  -- The bus hands out these messages, one by one, and no more.
  abbrev pub Hands : List Message → Sys (Player X) → Type 0
  Hands [] s = env.bus_pending (polled s).trace ≡ false
  Hands (m ∷ ms) s =
      (env.bus_pending (polled s).trace ≡ true)
      × (env.bus_pop (gst_bus_pop s.self.gst_bus ∷ (polled s).trace) ≡ some m)
      × Hands ms (heard m (polled s))

  -- What the bus hands out in an update of a player.
  pub record Hears (pending : Bool) (s : Sys (Player X)) : Type 0 where
    pub messages : List Message
    pub hands : Hands messages (hooks.on_before_update s).1
    pub fewer : length messages < env.rounds
    pub calm : are_calm pending messages ≡ true

  take_lem :
      (m : Message) (s : Sys (Player X))
      → env.bus_pop (gst_bus_pop s.self.gst_bus ∷ s.trace) ≡ some m
      → (take_message env hooks s).1 ≡ heard m s
  unfolding take_message
  take_lem m s e = rw e refl

  loop_lem :
      (ms : List Message) (n : ℕ) (s : Sys (Player X))
      → Hands ms s
      → length ms < n
      → (loop_while n (has_message env) (take_message env hooks) s).1 ≡ after ms s
  unfolding loop_while has_message
  loop_lem ms zero s hands enough = absurd (omega arith)
  loop_lem [] (suc n) s over enough = rw over refl
  loop_lem (m ∷ ms) (suc n) s (again, pops, rest) enough =
      let t = polled s in
      rw (again, take_lem m t pops) (loop_lem ms n (heard m t) rest (omega arith))

  -- A call of `update` that finds no frame.
  pub update_lem :
      (s t : Sys (Player X)) (ms : List Message)
      → (hooks.on_before_update s).1 ≡ t
      → Hands ms (hooks.on_before_update s).1
      → length ms < env.rounds
      → is_some t.self.gst_bus ≡ true
      → (after ms t).self.buffer_dirty ≡ false
      → (update env hooks s).1 ≡ after ms t
  unfolding update consume_frame drain_bus
  update_lem s t ms before hands fewer bus clean =
      let drained = loop_lem ms env.rounds t (rw before at hands) fewer in
      rw (before, bus, drained, clean) refl

  -- What each calm message keeps, all of them keep.
  pub after_keeps :
      (P : Bool → Sys (Player X) → Type 0) (h : Handle) (pending : Bool)
      → ((b : Bool) (s : Sys (Player X)) → P b s → P b (polled s))
      → ((m : Message) (b : Bool) (s : Sys (Player X))
          → is_calm pending m ≡ true
          → P b s
          → P (is_ready_by h m b) (heard m s))
      → (ms : List Message) (b : Bool) (s : Sys (Player X)) → are_calm pending ms ≡ true
      → P b s
      → P (ends_ready h ms b) (after ms s)
  after_keeps P h pending polls hears [] b s calm p = polls b s p
  after_keeps P h pending polls hears (m ∷ ms) b s calm p =
      after_keeps P h pending polls hears ms (is_ready_by h m b) (heard m (polled s)) (ground arith)
        (hears m b (polled s) (ground arith) (polls b s p))
