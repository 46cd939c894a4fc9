-- ===== src/Server/Events.antt =====
-- The loop of `iterate` ends when the main context has nothing pending.
use nsvr.Prelude.{
  ℕ, ◌-◌, ◌≤◌, ◌<◌, ◌≡◌, true, false, none, ◌∷◌, Bytes, arith, Bool-cases, Option-cases, inl, inr,
  ap,
}
use nsvr.Prelude.Int.{ℤ}
use nsvr.Env.{
  Env, Trace, g_main_context_pending, g_main_context_iteration, g_input_stream_read,
  g_io_stream_get_input_stream,
}
use nsvr.Env.Monad.{Sys, Part, in_part}
use nsvr.Env.Monad.Loop.{loop_while_ends}
use nsvr.Env.Count.{count, is_iteration}
use nsvr.Internal.System.{get_ip}
use nsvr.Internal.Buffer.{c_string}
use nsvr.Server.Endpoint.{construct, setup}
use nsvr.Server.{Server, remember, incoming, get_listen_port, has_event, run_event, iterate}

abbrev pub iterations : Trace → ℕ
iterations = count is_iteration

module _ (env : Env) where
  iterations-setup :
      (ip : Bytes) (port : ℤ) (s : Sys Server)
      → iterations (setup env construct ip port s).1.trace ≡ iterations s.trace
  unfolding setup
  iterations-setup ip port s = ground arith

  iterations-remember :
      (ip : Bytes) (s : Sys Server) → iterations (remember env ip s).1.trace ≡ iterations s.trace
  unfolding remember get_listen_port
  iterations-remember ip s = ground (arith, iterations-setup ip s.self.listen_port s)

module _ {D : Type 0} (env : Env) (part : Part D Server)
    (on_message_grows : (m : Bytes) (s : Sys D)
      → iterations s.trace ≤ iterations (part.on_message m s).1.trace) where
  iterations-get_ip : (s : Sys D) → iterations (get_ip env s).1.trace ≡ iterations s.trace
  unfolding get_ip
  iterations-get_ip s = ground arith

  iterations-c_string :
      (n : ℕ) (bytes : Bytes) (s : Sys D)
      → iterations (c_string n bytes s).1.trace ≡ iterations s.trace
  unfolding c_string
  iterations-c_string n bytes s = ground arith

  incoming_grows : (s : Sys D) → iterations s.trace ≤ iterations (incoming env part s).1.trace
  unfolding incoming
  incoming_grows s =
      let s1 : Sys D = record s {
        trace = g_input_stream_read ∷ g_io_stream_get_input_stream ∷ s.trace;
      } in
      let ip = (get_ip env s1).0 in
      let s2 = (get_ip env s1).1 in
      let s3 = (in_part part (remember env ip) s2).1 in
      elim (Bool-cases (env.input_stream (g_io_stream_get_input_stream ∷ s.trace))) [
        | inr closed ↦ rw closed (ground arith)
        | inl opened ↦ elim (Option-cases (env.stream_read s1.trace)) [
          | inl failed ↦ rw (opened, failed) (ground arith)
          | inr (bytes, read) ↦
              let (m, s4) = c_string 16 bytes s3 in
              rw (opened, read)
                (omega (
                  arith,
                  iterations-get_ip s1,
                  iterations-remember env ip (record {
                    self = part.get s2.self;
                    saved_volume = s2.saved_volume;
                    trace = s2.trace;
                  }),
                  iterations-c_string 16 bytes s3,
                  on_message_grows m s4,
                ))
        ]
      ]

  run_event_lowers :
      (limit : ℕ)
      → ((t : Trace)
          → limit ≤ iterations t
          → env.context_pending (g_main_context_pending none ∷ t) ≡ false)
      → (s : Sys D) → (has_event env part s).0 ≡ true
      → limit - iterations (run_event env part (has_event env part s).1).1.trace
        < limit - iterations s.trace
  unfolding has_event run_event
  run_event_lowers limit bounded s again =
      let t : Sys D = record s {
        trace = g_main_context_iteration none ∷ g_main_context_pending none ∷ s.trace;
      } in
      ground (arith, bounded s.trace, incoming_grows t)

  -- Server::iterate ends: if the main context has nothing pending once it was iterated some
  -- number of times, fewer than the rounds for which a loop is followed, then its last call is a
  -- test of the context that finds nothing pending; if onMessage takes no iteration of a context
  -- back from the trace.
  pub server_iterate_ends :
      (limit : ℕ) (s : Sys D)
      → ((t : Trace)
          → limit ≤ iterations t
          → env.context_pending (g_main_context_pending none ∷ t) ≡ false)
      → limit < env.rounds
      → (w : Sys D) × ((iterate env part s).1
          ≡ record w { trace = g_main_context_pending none ∷ w.trace })
        × (env.context_pending (iterate env part s).1.trace ≡ false)
  unfolding iterate has_event
  server_iterate_ends limit s bounded enough =
      let (w, over, run) =
        loop_while_ends (has_event env part) (run_event env part) (λ u. limit - iterations u.trace)
          (run_event_lowers limit bounded) env.rounds s (omega arith) in
      (w, ap (λ (r : Unit {0} × Sys D). r.1) run, rw run over)
