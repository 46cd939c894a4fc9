-- ===== src/PlayerServer/Frames.antt =====
-- The overrides of `PlayerServer` leave the frame alone.
use nsvr.Prelude.{◌≡◌, refl, ◌∙◌, ◌∷◌, Bytes, arith, Bool-cases, Option-cases, inl, inr, none}
use nsvr.Prelude.Int.{ℤ}
use nsvr.Double.{Double}
use nsvr.Env.{
  Env, Handle, GstState, g_main_context_iteration, g_input_stream_read,
  g_io_stream_get_input_stream,
}
use nsvr.Env.Monad.{Sys, in_part}
use nsvr.Env.Monad.Loop.{loop_while_keeps}
use nsvr.Env.Count.{count, delivered, is_sample_unref}
use nsvr.Internal.System.{get_ip}
use nsvr.Player.Object.{get_state, get_duration}
use nsvr.Player.Control.{query_state}
use nsvr.Player.Handshake.View.{frame_of, Leaves, for_some-Leaves, LeavesFrames}
use nsvr.Player.Handshake.View.Accessors.{query_state-Leaves, get_time-Leaves, c_string-Leaves}
use nsvr.Server.Endpoint
use nsvr.Server.Endpoint.{setup}
use nsvr.Server.{Server, remember, get_listen_port, incoming, has_event, run_event, iterate}
use nsvr.PlayerServer.{
  PlayerServer, ServerPart, server_part, hooks, set_time, clear_clock, provide_clock, start_clock,
  setup_clock, on_before_set_state, on_state_changed, heartbeat_if_due, on_before_close,
  finish_seek, advance_seek, on_before_update,
}
use nsvr.PlayerServer.Passing.{IgnoresBeats, heartbeat_ignored}

module _ (env : Env) where
  delivered-IgnoresBeats : IgnoresBeats (delivered env)
  delivered-IgnoresBeats = record {
    sends = record {
      asks_timeout = λ k t. omega arith;
      sets_timeout = λ k n t. omega arith;
      sends = λ k a m t. omega arith;
      frees = λ set t. omega arith;
      logs = λ t. omega arith;
    };
    asks_position = λ h t. omega arith;
    asks_volume = λ h t. omega arith;
    asks_base = λ h t. omega arith;
  }

  unrefs-IgnoresBeats : IgnoresBeats (count is_sample_unref)
  unrefs-IgnoresBeats = record {
    sends = record {
      asks_timeout = λ k t. omega arith;
      sets_timeout = λ k n t. omega arith;
      sends = λ k a m t. omega arith;
      frees = λ set t. omega arith;
      logs = λ t. omega arith;
    };
    asks_position = λ h t. omega arith;
    asks_volume = λ h t. omega arith;
    asks_base = λ h t. omega arith;
  }

  heartbeat_if_due-Leaves : Leaves env (heartbeat_if_due env)
  heartbeat_if_due-Leaves b s = ground (
    arith,
    heartbeat_ignored env (delivered env) delivered-IgnoresBeats s,
    heartbeat_ignored env (count is_sample_unref) unrefs-IgnoresBeats s,
  )

  set_time-Leaves : (time : Double) → Leaves env (set_time env time)
  unfolding set_time query_state get_duration
  set_time-Leaves time b s = ground arith

  clear_clock-Leaves : Leaves env (clear_clock env)
  unfolding clear_clock
  clear_clock-Leaves b s = ground arith

  setup_clock-Leaves : Leaves env (setup_clock env)
  unfolding setup_clock provide_clock start_clock
  setup_clock-Leaves b s = ground (arith, clear_clock-Leaves b s)

  on_before_set_state-Leaves : (state : GstState) → Leaves env (on_before_set_state env state)
  unfolding on_before_set_state
  on_before_set_state-Leaves state b s = ground (arith, get_time-Leaves env b s)

  on_state_changed-Leaves : (old : GstState) → Leaves env (on_state_changed env old)
  unfolding on_state_changed
  on_state_changed-Leaves old b s =
      let s1 = (query_state env s).1 in
      ground
        (arith, query_state-Leaves env b s, set_time-Leaves s1.self.derived.pending_state_seek b s1)

  advance_seek-Leaves : (h : Handle) → Leaves env (advance_seek env h)
  unfolding advance_seek finish_seek get_state
  advance_seek-Leaves h b s = ground arith

  setup_lem :
      (ip : Bytes) (port : ℤ) (s : Sys Server)
      → let t = (setup env Endpoint.construct ip port s).1.trace in
        (delivered env t ≡ delivered env s.trace)
        × (count is_sample_unref t ≡ count is_sample_unref s.trace)
  unfolding setup
  setup_lem ip port s = ground arith

  remember-Leaves : (ip : Bytes) → Leaves env (in_part server_part (remember env ip))
  unfolding remember get_listen_port
  remember-Leaves ip b s = ground (
    arith,
    setup_lem ip s.self.derived.server.listen_port
        (record { self = s.self.derived.server; saved_volume = s.saved_volume; trace = s.trace }),
  )

  get_ip-Leaves : Leaves {X = ServerPart} env (get_ip env)
  unfolding get_ip
  get_ip-Leaves b s = ground arith

  incoming-Leaves : Leaves env (incoming env server_part)
  unfolding incoming
  incoming-Leaves b s =
      let s1 : Sys PlayerServer = record s {
        trace = g_input_stream_read ∷ g_io_stream_get_input_stream ∷ s.trace;
      } in
      let (ip, s2) = get_ip env s1 in
      let s3 = (in_part server_part (remember env ip) s2).1 in
      elim (Bool-cases (env.input_stream (g_io_stream_get_input_stream ∷ s.trace))) [
        | inr closed ↦ rw closed (ground arith)
        | inl opened ↦ elim (Option-cases (env.stream_read s1.trace)) [
          | inl failed ↦ rw (opened, failed) (ground arith)
          | inr (bytes, read) ↦
              rw (opened, read)
                (ground (
                  arith,
                  get_ip-Leaves b s1,
                  remember-Leaves ip b s2,
                  c_string-Leaves env 16 bytes b s3,
                ))
        ]
      ]

  run_event-Leaves : Leaves env (run_event env server_part)
  unfolding run_event
  run_event-Leaves b s =
      let t : Sys PlayerServer = record s { trace = g_main_context_iteration none ∷ s.trace } in
      ground (arith, incoming-Leaves b t)

  iterate-Leaves : Leaves env (iterate env server_part)
  unfolding iterate
  iterate-Leaves b s =
      loop_while_keeps (has_event env server_part) (run_event env server_part)
        (λ t. frame_of env b t ≡ frame_of env b s) (λ t e. unfold has_event in ground (arith, e))
        (λ t e. run_event-Leaves b t ∙ e) (λ t e. ground (arith, e)) env.rounds s refl

  on_before_update-Leaves : Leaves env (on_before_update env)
  unfolding on_before_update
  on_before_update-Leaves b s =
      for_some-Leaves env s.self.pipeline _
        (λ h b s.
          let s1 = (iterate env server_part s).1 in
          let s2 = (heartbeat_if_due env s1).1 in
          advance_seek-Leaves h b s2 ∙ (heartbeat_if_due-Leaves b s1 ∙ iterate-Leaves b s))
        b s

  pub hooks-LeavesFrames : LeavesFrames env (hooks env)
  hooks-LeavesFrames = record {
    before_open = λ b s. refl;
    before_close = λ b s. unfold on_before_close in clear_clock-Leaves b s;
    before_update = on_before_update-Leaves;
    before_set_state = on_before_set_state-Leaves;
    state_changed = on_state_changed-Leaves;
    stream_end = λ b s. ground arith;
    seek_finished = λ b s. ground arith;
    video_frame = λ info b s. ground arith;
    clock_set_up = setup_clock-Leaves;
    set_time = set_time-Leaves;
  }
