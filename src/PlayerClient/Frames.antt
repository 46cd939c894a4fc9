-- ===== src/PlayerClient/Frames.antt =====
-- The overrides of `PlayerClient`, and the packets that it follows, leave the frame alone.
use nsvr.Prelude.{ℕ, ◌≡◌, refl, ◌∙◌, Bool, Option, none, some, [], ◌∷◌, Bytes, arith}
use nsvr.Prelude.Int.{ℤ}
use nsvr.Double.{Double}
use nsvr.Env.{Env, Handle, nsvr_log, g_main_context_iteration, g_socket_receive, g_object_ref}
use nsvr.Env.Monad.{Sys, in_part, loop_while}
use nsvr.Env.Monad.Loop.{loop_while_keeps}
use nsvr.Internal.Buffer.{c_string}
use nsvr.Packet.{Packet, default_packet, parse}
use nsvr.Player.Object.{get_state, get_mute}
use nsvr.Player.Control.{query_state}
use nsvr.Player.Volume.{get_volume}
use nsvr.Player.Handshake.View.{frame_of, Leaves, for_some-Leaves, LeavesFrames, set_state-Leaves}
use nsvr.Player.Handshake.View.Accessors.{
  query_state-Leaves, set_time-Leaves, set_mute-Leaves, set_volume-Leaves, get_volume-Leaves,
  c_string-Leaves,
}
use nsvr.Client.{
  send_to_server, write_to_host, write_out, has_event, run_event, iterate, deliver, handle_received,
  incomming, disconnect, is_connected,
}
use nsvr.PlayerClient.{
  PlayerClient, quiet_part, client_part, clear_clock, use_clock, setup_clock, state_hooks,
  follow_mute, follow_volume, follow_base, follow_state, follow, on_message, advance_base,
  on_before_update, on_before_open, on_before_close, hooks,
}

module _ (env : Env) where
  send_to_server-Leaves : (m : Bytes) → Leaves env (in_part quiet_part (send_to_server env m))
  unfolding send_to_server write_to_host write_out
  send_to_server-Leaves m b s = ground arith

  clear_clock-Leaves : Leaves env (clear_clock env)
  unfolding clear_clock
  clear_clock-Leaves b s = ground arith

  setup_clock-Leaves : Leaves env (setup_clock env)
  unfolding setup_clock use_clock
  setup_clock-Leaves b s = ground (arith, clear_clock-Leaves b s)

  state_hooks-LeavesFrames : LeavesFrames env (state_hooks env)
  state_hooks-LeavesFrames = record {
    before_open = send_to_server-Leaves _;
    before_close = clear_clock-Leaves;
    before_update = λ b s. refl;
    before_set_state = λ state b s. refl;
    state_changed = λ old b s. ground arith;
    stream_end = λ b s. ground arith;
    seek_finished = λ b s. ground arith;
    video_frame = λ info b s. ground arith;
    clock_set_up = setup_clock-Leaves;
    set_time = set_time-Leaves env;
  }

  follow_mute-Leaves : (on : Bool) → Leaves env (follow_mute env on)
  unfolding follow_mute get_mute
  follow_mute-Leaves on b s = ground (arith, set_mute-Leaves env on b s)

  follow_volume-Leaves : (v : Double) → Leaves env (follow_volume env v)
  unfolding follow_volume
  follow_volume-Leaves v b s =
      let s1 = (get_volume env s).1 in
      ground (arith, get_volume-Leaves env b s, set_volume-Leaves env v b s1)

  follow_base-Leaves : (base : ℕ) → Leaves env (follow_base env base)
  unfolding follow_base
  follow_base-Leaves base b s = ground arith

  follow_state-Leaves : (target : ℤ) → Leaves env (follow_state env target)
  unfolding follow_state
  follow_state-Leaves target b s =
      let s1 = (query_state env s).1 in
      ground (
        arith,
        query_state-Leaves env b s,
        set_state-Leaves env (state_hooks env) state_hooks-LeavesFrames target b s1,
      )

  follow-Leaves : (packet : Packet) → Leaves env (follow env packet)
  unfolding follow
  follow-Leaves packet b s =
      let s1 = (follow_mute env _ s).1 in
      let s2 = (follow_volume env packet.volume s1).1 in
      let s3 = (follow_base env packet.base s2).1 in
      follow_state-Leaves packet.state b s3
      ∙ (follow_base-Leaves packet.base b s2
          ∙ (follow_volume-Leaves packet.volume b s1 ∙ follow_mute-Leaves _ b s))

  on_message-Leaves : (m : Bytes) → Leaves env (on_message env m)
  unfolding on_message
  on_message-Leaves m b s = ground (arith, follow-Leaves (parse env.fpu m default_packet).1 b s)

  disconnect-Leaves : Leaves env (in_part (client_part env) (disconnect env))
  unfolding disconnect is_connected
  disconnect-Leaves b s = ground arith

  handle_received-Leaves :
      (received : Option Bytes) → Leaves env (handle_received env (client_part env) received)
  unfolding handle_received deliver is_connected
  handle_received-Leaves none b s =
      ground (arith, disconnect-Leaves b (record s { trace = nsvr_log ∷ s.trace }))
  handle_received-Leaves (some []) b s = ground arith
  handle_received-Leaves (some (x ∷ bytes)) b s =
      let (m, s1) = c_string 1024 (x ∷ bytes) s in
      ground (arith, c_string-Leaves env 1024 (x ∷ bytes) b s, on_message-Leaves m b s1)

  incomming-Leaves : (socket : Handle) → Leaves env (incomming env (client_part env) socket)
  unfolding incomming
  incomming-Leaves socket b s =
      let t = g_socket_receive socket ∷ g_object_ref socket ∷ s.trace in
      ground (arith, handle_received-Leaves (env.receive t) b (record s { trace = t }))

  run_event-Leaves : Leaves env (run_event env (client_part env))
  unfolding run_event
  run_event-Leaves b s =
      let c = s.self.derived.client in
      let t : Sys PlayerClient = record s {
        trace = g_main_context_iteration c.context ∷ s.trace;
      } in
      let called =
        for_some-Leaves env c.receive_socket (incomming env (client_part env)) incomming-Leaves b
          t in
      ground (arith, called)

  iterate-Leaves : Leaves env (iterate env (client_part env))
  unfolding iterate
  iterate-Leaves b s =
      let looped : frame_of env b
            (loop_while env.rounds (has_event env (client_part env))
              (run_event env (client_part env)) s).1
          ≡ frame_of env b s =
        loop_while_keeps (has_event env (client_part env)) (run_event env (client_part env))
          (λ t. frame_of env b t ≡ frame_of env b s) (λ t e. unfold has_event in ground (arith, e))
          (λ t e. run_event-Leaves b t ∙ e) (λ t e. ground (arith, e)) env.rounds s refl in
      ground (arith, looped)

  advance_base-Leaves : (h : Handle) → Leaves env (advance_base env h)
  unfolding advance_base get_state
  advance_base-Leaves h b s =
      ground (arith, setup_clock-Leaves b (record s { trace = nsvr_log ∷ s.trace }))

  on_before_update-Leaves : Leaves env (on_before_update env)
  unfolding on_before_update
  on_before_update-Leaves b s =
      for_some-Leaves env s.self.pipeline _
        (λ h b s. advance_base-Leaves h b (iterate env (client_part env) s).1 ∙ iterate-Leaves b s)
        b s

  pub hooks-LeavesFrames : LeavesFrames env (hooks env)
  unfolding on_before_open on_before_close
  hooks-LeavesFrames =
      let inherited = state_hooks-LeavesFrames in
      record {
        before_open = send_to_server-Leaves _;
        before_close = clear_clock-Leaves;
        before_update = on_before_update-Leaves;
        before_set_state = inherited.before_set_state;
        state_changed = inherited.state_changed;
        stream_end = inherited.stream_end;
        seek_finished = inherited.seek_finished;
        video_frame = inherited.video_frame;
        clock_set_up = inherited.clock_set_up;
        set_time = inherited.set_time;
      }
