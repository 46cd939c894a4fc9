-- ===== src/PlayerServer/Heartbeat.antt =====
-- How often `onBeforeUpdate` of `PlayerServer` sends a heartbeat to its clients.
use nsvr.Prelude.{
  ℕ, zero, suc, ◌+◌, ◌*◌, ◌^◌, ◌≤◌, ◌<◌, ◌≡◌, refl, ap, ◌∙◌, Bool, true, false, none, some, [], ◌∷◌,
  arith, Bytes, ltb, is_some, if◌then◌else◌, Bool-cases, inl, inr,
}
use native.Mathlib.Nat.{add-mul, one-mul, zero-mul}
use nsvr.Env.{Env, Handle, Call, Trace, g_main_context_pending, g_socket_send_to}
use nsvr.Env.Monad.{Sys}
use nsvr.Env.Monad.Loop.{loop_while_stops}
use nsvr.Env.Count.{one_if, count}
use nsvr.Server
use nsvr.Server.{Server, has_event, run_event, send_all, broadcast_to_clients}
use nsvr.Server.Endpoint.{UdpEndpoint, Endpoints, send}
use nsvr.Server.Delivery.{ends}
use nsvr.Packet.{serialize}
use nsvr.Player.Object.{get_state, get_mute}
use nsvr.Player.Volume.{get_volume}
use nsvr.Player.Seek.{get_time}
use nsvr.PlayerServer.{
  PlayerServer, server_part, on_before_update, heartbeat_if_due, dispatch_heartbeat,
  heartbeat_packet, advance_seek, finish_seek,
}

abbrev pub is_send : Call → Bool
is_send (g_socket_send_to _ _ _) = true
is_send _ = false

-- The messages that were given to a socket.
abbrev pub sends_made : Trace → ℕ
sends_made = count is_send

-- The endpoints that were set up.
abbrev pub ready_endpoints : Endpoints → ℕ
ready_endpoints [] = 0
ready_endpoints ((_, e) ∷ rest) = one_if (is_some (ends e)) + ready_endpoints rest

-- What a heartbeat goes by is the same.
abbrev SameBeat : Sys PlayerServer → Sys PlayerServer → Type 0
SameBeat s t =
    (t.self.pipeline ≡ s.self.pipeline)
    × (t.self.derived.heartbeat_frequency ≡ s.self.derived.heartbeat_frequency)
    × (t.self.derived.server.endpoints ≡ s.self.derived.server.endpoints)

-- `beats` heartbeats in `n` updates: each is sent to so many clients.
abbrev pub Beaten : ℕ → ℕ → Sys PlayerServer → Sys PlayerServer → Type 0
Beaten n period s t =
    (beats : ℕ) × (sends_made t.trace
      ≡ sends_made s.trace + beats * ready_endpoints s.self.derived.server.endpoints)
    × (beats * period + t.self.derived.heartbeat_counter ≡ s.self.derived.heartbeat_counter + n)
    × (t.self.derived.heartbeat_counter ≤ period)

module _ (env : Env) where
  send_counts :
      (e : UdpEndpoint) (message : Bytes) (n : ℕ) (s : Sys Server)
      → let t = (send env e message n s).1 in
        (sends_made t.trace ≡ sends_made s.trace + one_if (is_some (ends e))) × (t.self ≡ s.self)
  unfolding send
  send_counts e message n s = ground arith

  send_all_counts :
      (message : Bytes) (es : Endpoints) (s : Sys Server)
      → let t = (send_all env message es s).1 in
        (sends_made t.trace ≡ sends_made s.trace + ready_endpoints es) × (t.self ≡ s.self)
  unfolding send_all
  send_all_counts message [] s = (omega arith, refl)
  send_all_counts message ((ip, e) ∷ es) s =
      let t = (send env e message 1 s).1 in
      let (one, same) = send_counts e message 1 s in
      let (rest, same') = send_all_counts message es t in (omega (arith, one, rest), same' ∙ same)

  broadcast_counts :
      (message : Bytes) (s : Sys Server)
      → let t = (broadcast_to_clients env message s).1 in
        (sends_made t.trace ≡ sends_made s.trace + ready_endpoints s.self.endpoints)
        × (t.self ≡ s.self)
  unfolding broadcast_to_clients
  broadcast_counts message s = send_all_counts message s.self.endpoints s

  heartbeat_packet_sends :
      (s : Sys PlayerServer) (h : Handle)
      → s.self.pipeline ≡ some h
      → let t = (heartbeat_packet env h s).1 in
        SameBeat s t × (sends_made t.trace ≡ sends_made s.trace)
  unfolding heartbeat_packet get_time get_volume get_mute get_state
  heartbeat_packet_sends s h e = ground arith

  dispatch_counts :
      (s : Sys PlayerServer) (h : Handle)
      → s.self.pipeline ≡ some h
      → let t = (dispatch_heartbeat env s).1 in
        SameBeat s t
        × (sends_made t.trace
            ≡ sends_made s.trace + ready_endpoints s.self.derived.server.endpoints)
  unfolding dispatch_heartbeat
  dispatch_counts s h e =
      let (packet, t) = heartbeat_packet env h s in
      let u : Sys Server = record {
        self = t.self.derived.server;
        saved_volume = t.saved_volume;
        trace = t.trace;
      } in
      let (kept, none_sent) = heartbeat_packet_sends s h e in
      let (sent, same) = broadcast_counts (serialize env.fpu packet) u in
      let made : sends_made (broadcast_to_clients env (serialize env.fpu packet) u).1.trace
          ≡ sends_made s.trace + ready_endpoints s.self.derived.server.endpoints =
        sent ∙ rw (none_sent, kept.2) refl in
      ground (arith, kept, made, same)

  heartbeat_counts :
      (s : Sys PlayerServer) (h : Handle)
      → s.self.pipeline ≡ some h
      → let t = (heartbeat_if_due env s).1 in
        let due = ltb s.self.derived.heartbeat_frequency s.self.derived.heartbeat_counter in
        SameBeat s t
        × (t.self.derived.heartbeat_counter ≡ (if due then 0 else s.self.derived.heartbeat_counter))
        × (sends_made t.trace
            ≡ sends_made s.trace
              + (if due then ready_endpoints s.self.derived.server.endpoints else 0))
  unfolding heartbeat_if_due
  heartbeat_counts s h e = ground (arith, dispatch_counts s h e)

  advance_seek_sends :
      (h : Handle) (s : Sys PlayerServer)
      → let t = (advance_seek env h s).1 in
        SameBeat s t
        × (t.self.derived.heartbeat_counter ≡ s.self.derived.heartbeat_counter)
        × (sends_made t.trace ≡ sends_made s.trace)
  unfolding advance_seek finish_seek get_state
  advance_seek_sends h s = ground arith

  -- `onBeforeUpdate` run so many times.
  pub updates : ℕ → Sys PlayerServer → Sys PlayerServer
  updates zero s = s
  updates (suc n) s = updates n (on_before_update env s).1

module _ (env : Env)
    (silent : (t : Trace) → env.context_pending (g_main_context_pending none ∷ t) ≡ false)
    (some_rounds : 0 < env.rounds) where
  iterate_silent :
      (s : Sys PlayerServer)
      → (Server.iterate env server_part s).1
        ≡ record s { trace = g_main_context_pending none ∷ s.trace }
  unfolding Server.iterate has_event
  iterate_silent s =
      ap (λ (r : Unit {0} × Sys PlayerServer). r.1)
        (loop_while_stops (has_event env server_part) (run_event env server_part) env.rounds s
          some_rounds (silent s.trace))

  iterate_sends :
      (s : Sys PlayerServer)
      → let t = (Server.iterate env server_part s).1 in
        SameBeat s t
        × (t.self.derived.heartbeat_counter ≡ s.self.derived.heartbeat_counter)
        × (sends_made t.trace ≡ sends_made s.trace)
  iterate_sends s = rw (iterate_silent s) ((refl, refl, refl), refl, omega arith)

  update_counts :
      (s : Sys PlayerServer) (h : Handle)
      → s.self.pipeline ≡ some h
      → s.self.derived.heartbeat_counter + 1 < 2 ^ 32
      → let t = (on_before_update env s).1 in
        let due = ltb s.self.derived.heartbeat_frequency s.self.derived.heartbeat_counter in
        SameBeat s t
        × (t.self.derived.heartbeat_counter
            ≡ (if due then 1 else s.self.derived.heartbeat_counter + 1))
        × (sends_made t.trace
            ≡ sends_made s.trace
              + (if due then ready_endpoints s.self.derived.server.endpoints else 0))
  unfolding on_before_update
  update_counts s h e b =
      let s1 = (Server.iterate env server_part s).1 in
      let s2 = (heartbeat_if_due env s1).1 in
      ground (arith, iterate_sends s, heartbeat_counts env s1 h, advance_seek_sends env h s2)

  every_period :
      (n period : ℕ) (s : Sys PlayerServer) (h : Handle)
      → s.self.pipeline ≡ some h
      → s.self.derived.heartbeat_frequency + 1 ≡ period
      → period + 1 < 2 ^ 32
      → s.self.derived.heartbeat_counter ≤ period
      → Beaten n period s (updates env n s)
  unfolding updates
  every_period zero period s h e f p c =
      let r = ready_endpoints s.self.derived.server.endpoints in
      (0, omega (arith, zero-mul r), omega (arith, zero-mul period), c)
  every_period (suc n) period s h e f p c =
      let t = (on_before_update env s).1 in
      let ((pipeline, frequency, endpoints), counter, sent) = update_counts s h e (omega arith) in
      let due = ltb s.self.derived.heartbeat_frequency s.self.derived.heartbeat_counter in
      let bound : t.self.derived.heartbeat_counter ≤ period = ground arith in
      let (b, sends, passed, within) =
        every_period n period t h (pipeline ∙ e) (omega (arith, frequency, f)) p bound in
      let r = ready_endpoints s.self.derived.server.endpoints in
      let further : sends_made (updates env n t).trace ≡ sends_made t.trace + b * r =
        sends ∙ rw endpoints refl in
      (
        one_if due + b,
        elim (Bool-cases due) [
          | inl beat ↦ rw (add-mul (one_if due) b r) (ground (arith, one-mul r))
          | inr quiet ↦ rw (add-mul (one_if due) b r) (ground (arith, zero-mul r))
        ],
        elim (Bool-cases due) [
          | inl beat ↦ rw (add-mul (one_if due) b period) (ground (arith, one-mul period))
          | inr quiet ↦ rw (add-mul (one_if due) b period) (ground (arith, zero-mul period))
        ],
        within,
      )

  -- Over any number n of runs of onBeforeUpdate, the part of update that comes first, of a server
  -- with a pipeline to which nothing comes from the network, some number of heartbeats is
  -- dispatched, and each is given to the sockets once for each endpoint that was set up: the
  -- sends grow by heartbeats * endpoints, heartbeats * (frequency + 1) + counter comes to the
  -- counter at the start plus n, and the counter stays at most frequency + 1; if the frequency
  -- plus 2 is below 2^32, the counter starts at most at frequency + 1, and loops are followed for
  -- at least one round.
  pub heartbeat_every :
      (n : ℕ) (s : Sys PlayerServer) (h : Handle)
      → s.self.pipeline ≡ some h
      → s.self.derived.heartbeat_frequency + 2 < 2 ^ 32
      → s.self.derived.heartbeat_counter ≤ s.self.derived.heartbeat_frequency + 1
      → Beaten n (s.self.derived.heartbeat_frequency + 1) s (updates env n s)
  heartbeat_every n s h e f c =
      every_period n (s.self.derived.heartbeat_frequency + 1) s h e refl (omega arith) c
