-- ===== src/PlayerServer/Updates.antt =====
-- What a server does in a call of `Player::update`, where the network is silent.
use nsvr.Prelude.{
  ◌≡◌, refl, ap, sym, ◌∙◌, Bool, true, false, Option, none, some, ◌∷◌, arith, ◌<◌, ◌+◌, List,
}
use nsvr.Prelude.Int.{==ℤ_iff}
use nsvr.Double.{d_ge, d_zero}
use nsvr.Env.{
  Env, Handle, Message, Trace, error, warning, info, other, duration_changed, async_done, eos,
  state_changed, state_ready, gst_element_set_state, gst_bus_pop, g_main_context_pending,
}
use nsvr.Env.Monad.{Sys, M, for_some, ◌>>◌}
use nsvr.Env.Monad.Loop.{loop_while_stops}
use nsvr.Server
use nsvr.Server.{has_event, run_event}
use nsvr.Player.Control.{query_state}
use nsvr.Player.Seek.{query_duration}
use nsvr.Player.Update.{handle_message, on_state_message}
use nsvr.Player.Update.Answers.{
  Obeys, last_base, last_state, newest, is_calm, is_ready_by, heard, after, after_keeps, are_calm,
  ends_ready,
}
use nsvr.PlayerServer.{
  PlayerServer, u32, update_part, hooks, server_part, advance_seek, heartbeat_if_due,
  on_before_update, on_state_changed,
}
use nsvr.Player.Update.Messages.{state_requests}
use nsvr.PlayerServer.Passing.{IgnoresBeats, heartbeat_ignored}

-- The server behind the count of an update.
abbrev pub counted : Sys PlayerServer → Sys PlayerServer
counted s = record s {
  self = record s.self {
    derived = record s.self.derived {
      heartbeat_counter = u32 (s.self.derived.heartbeat_counter + 1);
    };
  };
}

-- The server behind its request for READY.
abbrev pub asked_ready : Handle → Sys PlayerServer → Sys PlayerServer
asked_ready h s =
    counted (record s { trace = gst_element_set_state (some h) state_ready ∷ s.trace })

-- The server behind a test of the main context, and behind the heartbeat if one is due.
abbrev pub beaten : Env → Sys PlayerServer → Sys PlayerServer
beaten env s = (heartbeat_if_due env (record s { trace = g_main_context_pending none ∷ s.trace })).1

-- What a seek goes by is the same.
pub record Alike (h : Handle) (s t : Sys PlayerServer) : Type 0 where
  pub pipeline : t.self.pipeline ≡ s.self.pipeline
  pub bus : t.self.gst_bus ≡ s.self.gst_bus
  pub dirty : t.self.buffer_dirty ≡ s.self.buffer_dirty
  pub state : t.self.state ≡ s.self.state
  pub seek : t.self.pending_seek ≡ s.self.pending_seek
  pub back : t.self.derived.pending_state ≡ s.self.derived.pending_state
  pub now : t.self.derived.pending_current_time ≡ s.self.derived.pending_current_time
  pub resume : t.self.derived.pending_state_seek ≡ s.self.derived.pending_state_seek
  pub base : last_base h t.trace ≡ last_base h s.trace
  pub requests : state_requests t.trace ≡ state_requests s.trace

last_base-IgnoresBeats : (h : Handle) → IgnoresBeats (last_base h)
last_base-IgnoresBeats h = record {
  sends = record {
    asks_timeout = λ k t. refl;
    sets_timeout = λ k n t. refl;
    sends = λ k a m t. refl;
    frees = λ b t. refl;
    logs = λ t. refl;
  };
  asks_position = λ k t. refl;
  asks_volume = λ k t. refl;
  asks_base = λ k t. refl;
}

state_requests-IgnoresBeats : IgnoresBeats state_requests
state_requests-IgnoresBeats = record {
  sends = record {
    asks_timeout = λ k t. refl;
    sets_timeout = λ k n t. refl;
    sends = λ k a m t. refl;
    frees = λ b t. refl;
    logs = λ t. refl;
  };
  asks_position = λ k t. refl;
  asks_volume = λ k t. refl;
  asks_base = λ k t. refl;
}

pub beaten-Alike : (env : Env) (h : Handle) (s : Sys PlayerServer) → Alike h s (beaten env s)
beaten-Alike env h s =
    let u : Sys PlayerServer = record s { trace = g_main_context_pending none ∷ s.trace } in
    let (same, requests) = heartbeat_ignored env state_requests state_requests-IgnoresBeats u in
    record {
      pipeline = ap (λ (p : PlayerServer). p.pipeline) same;
      bus = ap (λ (p : PlayerServer). p.gst_bus) same;
      dirty = ap (λ (p : PlayerServer). p.buffer_dirty) same;
      state = ap (λ (p : PlayerServer). p.state) same;
      seek = ap (λ (p : PlayerServer). p.pending_seek) same;
      back = ap (λ (p : PlayerServer). p.derived.pending_state) same;
      now = ap (λ (p : PlayerServer). p.derived.pending_current_time) same;
      resume = ap (λ (p : PlayerServer). p.derived.pending_state_seek) same;
      base = (heartbeat_ignored env (last_base h) (last_base-IgnoresBeats h) u).1;
      requests = requests;
    }

module _ (env : Env)
    (silent : (t : Trace) → env.context_pending (g_main_context_pending none ∷ t) ≡ false)
    (some_rounds : 0 < env.rounds) where
  iterate_silent :
      (s : Sys PlayerServer)
      → (Server.iterate env server_part s).1
        ≡ record s { trace = g_main_context_pending none ∷ s.trace }
  unfolding Server.iterate has_event
  iterate_silent s =
      ap (λ (r : Unit {0} × Sys PlayerServer). r.1)
        (loop_while_stops (has_event env server_part) (run_event env server_part) env.rounds s
          some_rounds (silent s.trace))

  pub before_lem :
      (h : Handle) (s : Sys PlayerServer)
      → s.self.pipeline ≡ some h
      → (on_before_update env s).1 ≡ counted (advance_seek env h (beaten env s)).1
  unfolding on_before_update
  before_lem h s e =
      let before : Handle → M PlayerServer (Unit {0}) = λ k.
        Server.iterate env server_part
        >> (heartbeat_if_due env
            >> (advance_seek env k
                >> update_part
                    (λ d. record d { heartbeat_counter = u32 (d.heartbeat_counter + 1) }))) in
      let behind : Sys PlayerServer → Sys PlayerServer = λ u. counted (advance_seek env h u).1 in
      ap (λ (o : Option Handle). (for_some o before s).1) e
      ∙ ap (λ (u : Sys PlayerServer). behind (heartbeat_if_due env u).1) (iterate_silent s)

-- What the messages of a pipeline leave of a server that does not wait to resume: all that a seek goes
-- by, and the state READY, if that was requested last and has come.
pub record Stays (h : Handle) (s : Sys PlayerServer) (came : Bool) (t : Sys PlayerServer)
    : Type 0 where
  pub pipeline : t.self.pipeline ≡ s.self.pipeline
  pub bus : t.self.gst_bus ≡ s.self.gst_bus
  pub dirty : t.self.buffer_dirty ≡ s.self.buffer_dirty
  pub seek : t.self.pending_seek ≡ s.self.pending_seek
  pub derived : t.self.derived ≡ s.self.derived
  pub base : last_base h t.trace ≡ last_base h s.trace
  pub requests : state_requests t.trace ≡ state_requests s.trace
  pub ready : last_state s.trace ≡ state_ready → came ≡ true → t.self.state ≡ state_ready

module _ (env : Env) (h : Handle) (c : Obeys env h) where
  message-Stays :
      (m : Message) (came : Bool) (s : Sys PlayerServer)
      → s.self.pipeline ≡ some h
      → is_calm (d_ge s.self.pending_seek d_zero) m ≡ true
      → d_ge s.self.derived.pending_state_seek d_zero ≡ false
      → (last_state s.trace ≡ state_ready → came ≡ true → s.self.state ≡ state_ready)
      → Stays h s (is_ready_by h m came) (handle_message env (hooks env) m s).1
  unfolding handle_message on_state_message on_state_changed query_state query_duration
  message-Stays error came s e calm idle r = record {
    pipeline = refl;
    bus = refl;
    dirty = refl;
    seek = refl;
    derived = refl;
    base = refl;
    requests = refl;
    ready = r;
  }
  message-Stays warning came s e calm idle r = record {
    pipeline = refl;
    bus = refl;
    dirty = refl;
    seek = refl;
    derived = refl;
    base = refl;
    requests = refl;
    ready = r;
  }
  message-Stays info came s e calm idle r = record {
    pipeline = refl;
    bus = refl;
    dirty = refl;
    seek = refl;
    derived = refl;
    base = refl;
    requests = refl;
    ready = r;
  }
  message-Stays other came s e calm idle r = record {
    pipeline = refl;
    bus = refl;
    dirty = refl;
    seek = refl;
    derived = refl;
    base = refl;
    requests = refl;
    ready = r;
  }
  message-Stays duration_changed came s e calm idle r = record {
    pipeline = ground arith;
    bus = ground arith;
    dirty = ground arith;
    seek = ground arith;
    derived = ground arith;
    base = ground arith;
    requests = ground arith;
    ready = λ l b. ground (arith, r l b);
  }
  message-Stays eos came s e calm idle r = absurd (ground arith)
  message-Stays async_done came s e calm idle r = record {
    pipeline = ground arith;
    bus = ground arith;
    dirty = ground arith;
    seek = ground arith;
    derived = ground arith;
    base = ground arith;
    requests = ground arith;
    ready = λ l b. ground (arith, r l b);
  }
  message-Stays (state_changed source old new) came s e calm idle r = record {
    pipeline = ground arith;
    bus = ground arith;
    dirty = ground arith;
    seek = ground arith;
    derived = ground arith;
    base = ground arith;
    requests = ground arith;
    ready = λ l b. ground (arith, c.reports s.trace ∙ ap some l, (==ℤ_iff new state_ready).0, r l);
  }

  heard-Stays :
      (s : Sys PlayerServer)
      → s.self.pipeline ≡ some h
      → d_ge s.self.derived.pending_state_seek d_zero ≡ false
      → (m : Message) (came : Bool) (t : Sys PlayerServer)
      → is_calm (d_ge s.self.pending_seek d_zero) m ≡ true
      → Stays h s came t
      → Stays h s (is_ready_by h m came) (heard env (hooks env) m t)
  heard-Stays s e idle m came t calm k =
      let u : Sys PlayerServer = record t { trace = gst_bus_pop t.self.gst_bus ∷ t.trace } in
      let v =
        message-Stays m came u (k.pipeline ∙ e) (rw k.seek calm) (rw k.derived idle)
          (λ l b. k.ready (ap newest (sym k.requests) ∙ l) b) in
      record {
        pipeline = v.pipeline ∙ k.pipeline;
        bus = v.bus ∙ k.bus;
        dirty = v.dirty ∙ k.dirty;
        seek = v.seek ∙ k.seek;
        derived = v.derived ∙ k.derived;
        base = v.base ∙ k.base;
        requests = v.requests ∙ k.requests;
        ready = λ l b. v.ready (ap newest k.requests ∙ l) b;
      }

  pub after-Stays :
      (s : Sys PlayerServer) (ms : List Message)
      → s.self.pipeline ≡ some h
      → d_ge s.self.derived.pending_state_seek d_zero ≡ false
      → are_calm (d_ge s.self.pending_seek d_zero) ms ≡ true
      → Stays h s (ends_ready h ms false) (after env (hooks env) ms s)
  after-Stays s ms e idle calm =
      after_keeps env (hooks env) (Stays h s) h (d_ge s.self.pending_seek d_zero)
        (λ b t k. record {
          pipeline = k.pipeline;
          bus = k.bus;
          dirty = k.dirty;
          seek = k.seek;
          derived = k.derived;
          base = k.base;
          requests = k.requests;
          ready = k.ready;
        })
        (heard-Stays s e idle) ms false s calm
        (record {
          pipeline = refl;
          bus = refl;
          dirty = refl;
          seek = refl;
          derived = refl;
          base = refl;
          requests = refl;
          ready = λ l b. absurd (ground arith);
        })
