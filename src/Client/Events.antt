-- ===== src/Client/Events.antt =====
-- The loop of `iterate` ends when the main context has nothing pending.
use nsvr.Prelude.{
  refl, Bool-cases, if◌then◌else◌, ℕ, ◌-◌, ◌≤◌, ◌<◌, ◌≡◌, true, false, Option, none, some, [], ◌∷◌,
  Bytes, arith, Option-cases, inl, inr, ap,
}
use nsvr.Env.{
  Env, Handle, Trace, g_main_context_pending, g_main_context_iteration, g_object_ref,
  g_socket_receive,
}
use nsvr.Env.Monad.{Sys, Part, in_part}
use nsvr.Env.Monad.Loop.{loop_while_ends, loop_while_stops}
use nsvr.Env.Count.{count, is_iteration}
use nsvr.Internal.Buffer.{c_string}
use nsvr.Client.{
  Client, is_connected, disconnect, handle_received, deliver, incomming, has_event, run_event,
  iterate,
}

abbrev pub iterations : Trace → ℕ
iterations = count is_iteration

module _ {D : Type 0} (env : Env) (part : Part D Client) where
  pub iterate_silent :
      (s : Sys D)
      → let c = part.get s.self in
        let t = g_main_context_pending c.context ∷ s.trace in
        0 < env.rounds
        → env.context_pending t ≡ false
        → (iterate env part s).1 ≡ record s { trace = if c.connected then t else s.trace }
  unfolding iterate has_event
  iterate_silent s some_rounds nothing = elim (Bool-cases (part.get s.self).connected) [
    | inr off ↦ rw off refl
    | inl on ↦ rw on (
        ap (λ (r : Unit {0} × Sys D). r.1)
          (loop_while_stops (has_event env part) (run_event env part) env.rounds s some_rounds
            nothing))
  ]

module _ {D : Type 0} (env : Env) (part : Part D Client)
    (on_message_grows : (m : Bytes) (s : Sys D)
      → iterations s.trace ≤ iterations (part.on_message m s).1.trace) where
  iterations-c_string :
      (n : ℕ) (bytes : Bytes) (s : Sys D)
      → iterations (c_string n bytes s).1.trace ≡ iterations s.trace
  unfolding c_string
  iterations-c_string n bytes s = ground arith

  deliver_grows :
      (bytes : Bytes) (s : Sys D)
      → iterations s.trace ≤ iterations (deliver env part bytes s).1.trace
  unfolding deliver is_connected
  deliver_grows bytes s =
      let u = (in_part part (is_connected env) s).1 in
      let (m, w) = c_string 1024 bytes u in
      ground (arith, iterations-c_string 1024 bytes u, on_message_grows m w)

  handle_received_grows :
      (received : Option Bytes) (s : Sys D)
      → iterations s.trace ≤ iterations (handle_received env part received s).1.trace
  unfolding handle_received disconnect
  handle_received_grows none s = ground arith
  handle_received_grows (some []) s = omega arith
  handle_received_grows (some (b ∷ bytes)) s = deliver_grows (b ∷ bytes) s

  incomming_grows :
      (socket : Handle) (s : Sys D)
      → iterations s.trace ≤ iterations (incomming env part socket s).1.trace
  unfolding incomming
  incomming_grows socket s =
      let t = g_socket_receive socket ∷ g_object_ref socket ∷ s.trace in
      omega (arith, handle_received_grows (env.receive t) (record s { trace = t }))

  run_event_lowers :
      (limit : ℕ)
      → ((context : Option Handle) (t : Trace)
          → limit ≤ iterations t
          → env.context_pending (g_main_context_pending context ∷ t) ≡ false)
      → (s : Sys D) → (has_event env part s).0 ≡ true
      → limit - iterations (run_event env part (has_event env part s).1).1.trace
        < limit - iterations s.trace
  unfolding has_event run_event
  run_event_lowers limit bounded s again =
      let c = part.get s.self in
      let t : Sys D = record s {
        trace = g_main_context_iteration c.context ∷ g_main_context_pending c.context ∷ s.trace;
      } in
      elim (Option-cases c.receive_socket) [
        | inl e ↦ ground (arith, bounded c.context s.trace)
        | inr (k, e) ↦ ground (arith, bounded c.context s.trace, incomming_grows k t)
      ]

  -- Client::iterate of a connected client ends: if every context has nothing pending once
  -- contexts were iterated some number of times, fewer than the rounds for which a loop is
  -- followed, then its last call is a test of the client's context, as it then is, that finds
  -- nothing pending; if onMessage takes no iteration of a context back from the trace.
  pub client_iterate_ends :
      (limit : ℕ) (s : Sys D)
      → (part.get s.self).connected ≡ true
      → ((context : Option Handle) (t : Trace)
          → limit ≤ iterations t
          → env.context_pending (g_main_context_pending context ∷ t) ≡ false)
      → limit < env.rounds
      → (w : Sys D) × ((iterate env part s).1
          ≡ record w { trace = g_main_context_pending (part.get w.self).context ∷ w.trace })
        × (env.context_pending (iterate env part s).1.trace ≡ false)
  unfolding iterate has_event
  client_iterate_ends limit s on bounded enough =
      let (w, over, run) =
        loop_while_ends (has_event env part) (run_event env part) (λ u. limit - iterations u.trace)
          (run_event_lowers limit bounded) env.rounds s (omega arith) in
      let runs : iterate env part s ≡ (tt, (has_event env part w).1) = rw on run in
      (w, ap (λ (r : Unit {0} × Sys D). r.1) runs, rw runs over)
