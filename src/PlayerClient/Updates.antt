-- ===== src/PlayerClient/Updates.antt =====
-- What a client does in a call of `Player::update`, where the network is silent.
use nsvr.Prelude.{
  ◌<◌, ◌≡◌, refl, ap, ◌∙◌, Bool, true, false, Option, some, List, ◌∷◌, arith, if◌then◌else◌,
}
use nsvr.Prelude.Int.{==ℤ_iff}
use nsvr.Env.{
  Env, Handle, Trace, Message, error, warning, info, other, duration_changed, async_done, eos,
  state_changed, state_ready, gst_bus_pop, g_main_context_pending,
}
use nsvr.Env.Monad.{Sys, M, for_some, ◌>>◌}
use nsvr.Client.{iterate}
use nsvr.Client.Events.{iterate_silent}
use nsvr.Player.Seek.{query_duration, set_time}
use nsvr.Player.Update.{handle_message, on_state_message, on_async_done}
use nsvr.Player.Update.Messages.{state_requests}
use nsvr.Player.Update.Answers.{
  last_base, is_calm, is_ready_by, heard, after, after_keeps, are_calm, ends_ready,
}
use nsvr.PlayerClient.{PlayerClient, hooks, client_part, advance_base, on_before_update}

-- The state behind a test of the client's context, which a connected client makes.
abbrev pub looked : Sys PlayerClient → Sys PlayerClient
looked s =
    let c = s.self.derived.client in
    record s { trace = if c.connected then g_main_context_pending c.context ∷ s.trace else s.trace }

module _ (env : Env)
    (silent : (context : Option Handle) (t : Trace)
      → env.context_pending (g_main_context_pending context ∷ t) ≡ false)
    (some_rounds : 0 < env.rounds) where
  pub before_lem :
      (h : Handle) (s : Sys PlayerClient)
      → s.self.pipeline ≡ some h
      → (on_before_update env s).1 ≡ (advance_base env h (looked s)).1
  unfolding on_before_update
  before_lem h s e =
      let before : Handle → M PlayerClient (Unit {0}) =
        λ k. iterate env (client_part env) >> advance_base env k in
      ap (λ (o : Option Handle). (for_some o before s).1) e
      ∙ ap (λ (u : Sys PlayerClient). (advance_base env h u).1)
          (iterate_silent env (client_part env) s some_rounds (silent _ s.trace))

-- What the messages of a pipeline leave of a client: all that a base time goes by, and the state READY
-- if it has come.
pub record Stays (h : Handle) (s : Sys PlayerClient) (came : Bool) (t : Sys PlayerClient)
    : Type 0 where
  pub pipeline : t.self.pipeline ≡ s.self.pipeline
  pub bus : t.self.gst_bus ≡ s.self.gst_bus
  pub dirty : t.self.buffer_dirty ≡ s.self.buffer_dirty
  pub derived : t.self.derived ≡ s.self.derived
  pub base : last_base h t.trace ≡ last_base h s.trace
  pub requests : state_requests t.trace ≡ state_requests s.trace
  pub ready : came ≡ true → t.self.state ≡ state_ready

module _ (env : Env) (h : Handle) where
  message-Stays :
      (m : Message) (came : Bool) (s : Sys PlayerClient)
      → s.self.pipeline ≡ some h
      → is_calm false m ≡ true
      → (came ≡ true → s.self.state ≡ state_ready)
      → Stays h s (is_ready_by h m came) (handle_message env (hooks env) m s).1
  unfolding handle_message on_state_message on_async_done query_duration set_time
  message-Stays error came s e calm r = record {
    pipeline = refl;
    bus = refl;
    dirty = refl;
    derived = refl;
    base = refl;
    requests = refl;
    ready = r;
  }
  message-Stays warning came s e calm r = record {
    pipeline = refl;
    bus = refl;
    dirty = refl;
    derived = refl;
    base = refl;
    requests = refl;
    ready = r;
  }
  message-Stays info came s e calm r = record {
    pipeline = refl;
    bus = refl;
    dirty = refl;
    derived = refl;
    base = refl;
    requests = refl;
    ready = r;
  }
  message-Stays other came s e calm r = record {
    pipeline = refl;
    bus = refl;
    dirty = refl;
    derived = refl;
    base = refl;
    requests = refl;
    ready = r;
  }
  message-Stays duration_changed came s e calm r = record {
    pipeline = ground arith;
    bus = ground arith;
    dirty = ground arith;
    derived = ground arith;
    base = ground arith;
    requests = ground arith;
    ready = λ b. ground (arith, r b);
  }
  message-Stays async_done came s e calm r = record {
    pipeline = ground arith;
    bus = ground arith;
    dirty = ground arith;
    derived = ground arith;
    base = ground arith;
    requests = ground arith;
    ready = λ b. ground (arith, r b);
  }
  message-Stays eos came s e calm r = absurd (ground arith)
  message-Stays (state_changed source old new) came s e calm r = record {
    pipeline = ground arith;
    bus = ground arith;
    dirty = ground arith;
    derived = ground arith;
    base = ground arith;
    requests = ground arith;
    ready = λ b. ground (arith, (==ℤ_iff new state_ready).0, r);
  }

  heard-Stays :
      (s : Sys PlayerClient)
      → s.self.pipeline ≡ some h
      → (m : Message) (came : Bool) (t : Sys PlayerClient) → is_calm false m ≡ true
      → Stays h s came t
      → Stays h s (is_ready_by h m came) (heard env (hooks env) m t)
  heard-Stays s e m came t calm k =
      let u : Sys PlayerClient = record t { trace = gst_bus_pop t.self.gst_bus ∷ t.trace } in
      let v = message-Stays m came u (k.pipeline ∙ e) calm k.ready in
      record {
        pipeline = v.pipeline ∙ k.pipeline;
        bus = v.bus ∙ k.bus;
        dirty = v.dirty ∙ k.dirty;
        derived = v.derived ∙ k.derived;
        base = v.base ∙ k.base;
        requests = v.requests ∙ k.requests;
        ready = v.ready;
      }

  pub after-Stays :
      (s : Sys PlayerClient) (ms : List Message)
      → s.self.pipeline ≡ some h
      → are_calm false ms ≡ true
      → Stays h s (ends_ready h ms false) (after env (hooks env) ms s)
  after-Stays s ms e calm =
      after_keeps env (hooks env) (Stays h s) h false
        (λ b t k. record {
          pipeline = k.pipeline;
          bus = k.bus;
          dirty = k.dirty;
          derived = k.derived;
          base = k.base;
          requests = k.requests;
          ready = k.ready;
        })
        (heard-Stays s e) ms false s calm
        record {
          pipeline = refl;
          bus = refl;
          dirty = refl;
          derived = refl;
          base = refl;
          requests = refl;
          ready = λ b. absurd (ground arith);
        }
