-- ===== src/PlayerServer/Following.antt =====
-- A server of PlayerServer carries out a request for a time in two calls of `update`.
use nsvr.Prelude.{ℕ, ◌<◌, ◌≡◌, refl, ap, ◌∙◌, true, false, none, some, ◌∷◌, arith, is_some}
use nsvr.Prelude.Int.{◌==ℤ◌}
use nsvr.Double.{Double, clamp, is_nan, d_zero, d_minus_one, d_ge}
use nsvr.Double.Order.{clamp-ge, minus_one_not_ge}
use nsvr.Env.{
  Env, Handle, Trace, state_null, state_ready, gst_element_get_state, gst_element_get_base_time,
  gst_element_set_base_time, gst_clock_get_time, g_main_context_pending,
}
use nsvr.Env.Monad.{Sys}
use nsvr.Packet.{clock_time_none}
use nsvr.Player.Object.{get_duration}
use nsvr.Player.Control.{query_state}
use nsvr.Player.Update.{update}
use nsvr.Player.Update.Answers.{Obeys, last_base, last_state, Hears, after, ends_ready, update_lem}
use nsvr.Player.Update.Messages.{state_requests}
use nsvr.PlayerServer.{PlayerServer, ServerPart, set_time, hooks, seek_base_time, advance_seek}
use nsvr.PlayerServer.Seeking.{advance_seek_idle, seek_to_ready, seek_from_ready, seek_trace}
use nsvr.PlayerServer.Updates.{
  counted, asked_ready, beaten, beaten-Alike, before_lem, Stays, after-Stays,
}

last_base_set :
    (h : Handle) (t : Trace) (base : ℕ) → last_base h (gst_element_set_base_time h base ∷ t) ≡ base
last_base_set h t base = ground arith

zero_is_number : is_nan d_zero ≡ false
zero_is_number = refl

module _ (env : Env) (h : Handle) (c : Obeys env h)
    (silent : (t : Trace) → env.context_pending (g_main_context_pending none ∷ t) ≡ false) where
  -- What the theorems on an update ask of the server.
  record Waits (s : Sys PlayerServer) : Type 0 where
    pub pipeline : s.self.pipeline ≡ some h
    pub bus : is_some s.self.gst_bus ≡ true
    pub clean : s.self.buffer_dirty ≡ false
    pub pending : d_ge s.self.pending_seek d_zero ≡ true
    pub idle : d_ge s.self.derived.pending_state_seek d_zero ≡ false

  -- A heartbeat makes no difference to it.
  beaten-Waits : {s : Sys PlayerServer} → Waits s → Waits (beaten env s)
  beaten-Waits {s} w =
      let k = beaten-Alike env h s in
      record {
        pipeline = k.pipeline ∙ w.pipeline;
        bus = rw k.bus w.bus;
        clean = k.dirty ∙ w.clean;
        pending = rw k.seek w.pending;
        idle = rw k.resume w.idle;
      }

  -- The first update requests READY and hears its messages.
  first_update :
      (s : Sys PlayerServer) (r : Hears env (hooks env) true s)
      → Waits s
      → s.self.state ==ℤ state_ready ≡ false
      → ends_ready h r.messages false ≡ true
      → let t = asked_ready h (beaten env s) in
        ((update env (hooks env) s).1 ≡ after env (hooks env) r.messages t)
        × Stays h t true (after env (hooks env) r.messages t)
  first_update s r w elsewhere came =
      let b = beaten env s in
      let t = asked_ready h b in
      let v = beaten-Waits w in
      let away : b.self.state ==ℤ state_ready ≡ false = rw (beaten-Alike env h s).state elsewhere in
      let asked = seek_to_ready env h b v.pending away (c.accepts t.trace) in
      let some_rounds : 0 < env.rounds = omega (arith, r.fewer) in
      let before = before_lem env silent some_rounds h s w.pipeline ∙ ap counted asked in
      let stays : Stays h t true (after env (hooks env) r.messages t) =
        rw⁻¹ came (after-Stays env h c t r.messages v.pipeline v.idle (rw v.pending r.calm)) in
      (
        update_lem env (hooks env) s t r.messages before r.hands r.fewer v.bus
            (stays.dirty ∙ v.clean),
        stays,
      )

  -- The server behind the seek.
  abbrev sought : Sys PlayerServer → Sys PlayerServer
  sought s = counted (record {
    self = record s.self {
      pending_seek = d_minus_one;
      derived = record s.self.derived {
        pending_state = state_null;
        pending_current_time = clock_time_none;
      };
    };
    saved_volume = s.saved_volume;
    trace = seek_trace env h s s.trace;
  })

  -- The second gives the pipeline its base time and its state back.
  second_update :
      (s : Sys PlayerServer) (r : Hears env (hooks env) false s)
      → Waits s
      → s.self.state ≡ state_ready
      → let t = sought (beaten env s) in
        ((update env (hooks env) s).1 ≡ after env (hooks env) r.messages t)
        × Stays h t (ends_ready h r.messages false) (after env (hooks env) r.messages t)
  second_update s r w ready =
      let b = beaten env s in
      let t = sought b in
      let k = beaten-Alike env h s in
      let v = beaten-Waits w in
      let done = seek_from_ready env h b v.pending (k.state ∙ ready) (c.accepts t.trace) in
      let some_rounds : 0 < env.rounds = omega (arith, r.fewer) in
      let before = before_lem env silent some_rounds h s w.pipeline ∙ ap counted done in
      let stays = after-Stays env h c t r.messages v.pipeline v.idle (rw minus_one_not_ge r.calm) in
      (
        update_lem env (hooks env) s t r.messages before r.hands r.fewer v.bus
            (stays.dirty ∙ v.clean),
        stays,
      )

  -- The base time of a finished seek, with the answers of the pipeline put in.
  sought_base :
      (s : Sys PlayerServer)
      → let told = last_base h s.trace in
        last_base h (sought s).trace
        ≡ seek_base_time env s.self.derived.pending_current_time told told s.self.pending_seek
  sought_base s =
      let t1 = gst_element_get_base_time h ∷ s.trace in
      let t2 = gst_element_get_base_time h ∷ t1 in
      let sets : ℕ → ℕ → ℕ =
        λ b b'. seek_base_time env s.self.derived.pending_current_time b b' s.self.pending_seek in
      last_base_set h t2 (sets (env.base_time t1) (env.base_time t2))
      ∙ ap (λ (b : ℕ). sets b (env.base_time t2)) (c.tells s.trace)
      ∙ ap (sets (last_base h s.trace)) (c.tells t1)

  -- What a seek comes to, from a server with a pending one.
  abbrev Sought : Sys PlayerServer → Sys PlayerServer → Type 0
  Sought s t =
      let told = last_base h s.trace in
      (t.self.pipeline ≡ some h)
      × (t.self.pending_seek ≡ d_minus_one)
      × (last_base h t.trace
          ≡ seek_base_time env s.self.derived.pending_current_time told told s.self.pending_seek)
      × (state_requests t.trace
          ≡ s.self.derived.pending_state ∷ state_ready ∷ state_requests s.trace)
      × ((advance_seek env h t).1 ≡ t)

  pending_carried_out :
      (s : Sys PlayerServer) (first : Hears env (hooks env) true s)
      → Hears env (hooks env) false (update env (hooks env) s).1
      → Waits s
      → s.self.state ==ℤ state_ready ≡ false
      → ends_ready h first.messages false ≡ true
      → Sought s (update env (hooks env) (update env (hooks env) s).1).1
  pending_carried_out s first second w elsewhere came =
      let k = beaten-Alike env h s in
      let v = beaten-Waits w in
      let s2 = (update env (hooks env) s).1 in
      let (run, p) = first_update s first w elsewhere came in
      let p2 : Stays h (asked_ready h (beaten env s)) true s2 = rw run p in
      let v2 : Waits s2 = record {
        pipeline = p2.pipeline ∙ v.pipeline;
        bus = rw p2.bus v.bus;
        clean = p2.dirty ∙ v.clean;
        pending = rw p2.seek v.pending;
        idle = rw p2.derived v.idle;
      } in
      let l = beaten-Alike env h s2 in
      let b2 = beaten env s2 in
      let (run2, q) = second_update s2 second v2 (p2.ready refl refl) in
      let now = l.now ∙ ap (λ (d : ServerPart). d.pending_current_time) p2.derived ∙ k.now in
      let back = l.back ∙ ap (λ (d : ServerPart). d.pending_state) p2.derived ∙ k.back in
      let based =
        sought_base b2 ∙ rw (now, l.base ∙ p2.base ∙ k.base, l.seek ∙ p2.seek ∙ k.seek) refl in
      let requested : state_requests b2.trace ≡ state_ready ∷ state_requests s.trace =
        l.requests ∙ p2.requests ∙ ap (λ r. state_ready ∷ r) k.requests in
      let requests : state_requests (sought b2).trace
          ≡ s.self.derived.pending_state ∷ state_ready ∷ state_requests s.trace =
        rw (back, requested) refl in
      rw run2 (
        q.pipeline ∙ (beaten-Waits v2).pipeline,
        q.seek,
        q.base ∙ based,
        q.requests ∙ requests,
        advance_seek_idle env h _ q.seek,
      )

  -- The server behind a request for the second `x`.
  abbrev requested : Double → Sys PlayerServer → Sys PlayerServer
  requested x s =
      let clocked = gst_clock_get_time s.self.derived.net_clock ∷ s.trace in
      record {
        self = record s.self {
          state = last_state s.trace;
          pending_seek = clamp x d_zero s.self.duration;
          derived = record s.self.derived {
            pending_current_time = env.clock_time clocked;
            pending_state = last_state s.trace;
          };
        };
        saved_volume = s.saved_volume;
        trace = gst_element_get_state (some h) ∷ clocked;
      }

  set_time_lem :
      (x : Double) (s : Sys PlayerServer)
      → s.self.pipeline ≡ some h
      → (set_time env x s).1 ≡ requested x s
  unfolding set_time get_duration query_state
  set_time_lem x s e =
      let clocked = gst_clock_get_time s.self.derived.net_clock ∷ s.trace in
      rw (e, c.reports clocked, c.answers (gst_element_get_state (some h) ∷ clocked)) refl

  -- A seek of a server is carried out by two calls of update behind setTime, whether or not
  -- heartbeats are due in them: none is pending then, the pipeline, which is still held, was
  -- given the base time that is computed from the time of the clock at the request, the base time
  -- it had and the requested time, clamped to the duration; READY and then the state that was
  -- requested last before were requested and no other, and the seek part of another update does
  -- nothing. The requested time is a number and the duration is not negative; the server has a
  -- pipeline that was not taken to READY last and a bus, no frame is left in it, and no seek
  -- waits for PLAYING. The bus hands any messages in the updates, of the pipeline and of its
  -- elements, fewer than the rounds that a loop is followed for, and no end of the stream; in the
  -- first update no ASYNC_DONE is among them, and the last one on the state of the pipeline says
  -- that it is in READY. Nothing comes from the network during the updates; the pipeline tells
  -- the base time that it was given last and the state that was requested last, and fails no
  -- request for a state and no query of it.
  pub seek_carried_out :
      (x : Double) (s : Sys PlayerServer)
      → s.self.pipeline ≡ some h
      → is_some s.self.gst_bus ≡ true
      → s.self.buffer_dirty ≡ false
      → is_nan x ≡ false
      → d_ge s.self.duration d_zero ≡ true
      → d_ge s.self.derived.pending_state_seek d_zero ≡ false
      → last_state s.trace ==ℤ state_ready ≡ false
      → (first : Hears env (hooks env) true (set_time env x s).1)
      → ends_ready h first.messages false ≡ true
      → Hears env (hooks env) false (update env (hooks env) (set_time env x s).1).1
      → let t = (update env (hooks env) (update env (hooks env) (set_time env x s).1).1).1 in
        let now = env.clock_time (gst_clock_get_time s.self.derived.net_clock ∷ s.trace) in
        let told = last_base h s.trace in
        (t.self.pipeline ≡ some h)
        × (t.self.pending_seek ≡ d_minus_one)
        × (last_base h t.trace ≡ seek_base_time env now told told (clamp x d_zero s.self.duration))
        × (state_requests t.trace ≡ last_state s.trace ∷ state_ready ∷ state_requests s.trace)
        × ((advance_seek env h t).1 ≡ t)
  seek_carried_out x s e bus clean number long idle elsewhere first came second =
      let waits : Waits (requested x s) = record {
        pipeline = e;
        bus = bus;
        clean = clean;
        pending = clamp-ge x d_zero s.self.duration number zero_is_number long;
        idle = idle;
      } in
      let same = set_time_lem x s e in
      rw same (
        pending_carried_out (requested x s)
          (record {
            messages = first.messages;
            hands = rw same at first.hands;
            fewer = first.fewer;
            calm = first.calm;
          })
          (rw same at second) waits elsewhere came)
