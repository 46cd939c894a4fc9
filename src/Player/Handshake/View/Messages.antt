-- ===== src/Player/Handshake/View/Messages.antt =====
-- The loop of `update` over the bus, and all that it calls.
use nsvr.Prelude.{◌≡◌, refl, true, false, ◌∷◌, arith, inl, inr, Option-cases, ◌∙◌}
use nsvr.Env.{
  Env, state_playing, state_paused, Message, error, warning, info, async_done, duration_changed,
  eos, other, state_changed, gst_bus_pop,
}
use nsvr.Env.Monad.{Sys}
use nsvr.Env.Monad.Loop.{loop_while_keeps}
use nsvr.Player.Object.{Player, Hooks, get_loop, get_mute}
use nsvr.Player.Volume.{get_volume}
use nsvr.Player.Control.{set_state, stop, play, replay, pause}
use nsvr.Player.Update.{handle_message, has_message, take_message, drain_bus}
use nsvr.Player.Handshake.View.Accessors.{set_mute-Leaves, get_volume-Leaves, query_duration-Leaves}
use nsvr.Player.Handshake.View.{frame_of, Leaves, LeavesFrames, set_state-Leaves, stop-Leaves}

module _ {X : Type 0} (env : Env) (hooks : Hooks X) (leaves : LeavesFrames env hooks) where
  pub play-Leaves : Leaves env (play env hooks)
  unfolding play get_mute
  play-Leaves b s =
      let s1 = (set_state env hooks state_playing s).1 in
      let s2 = (get_volume env s1).1 in
      ground (
        arith,
        set_state-Leaves env hooks leaves state_playing b s,
        get_volume-Leaves env b s1,
        set_mute-Leaves env true b s2,
      )

  handle_message-Leaves : (m : Message) → Leaves env (handle_message env hooks m)
  unfolding handle_message get_loop replay pause
  handle_message-Leaves error b s = ground arith
  handle_message-Leaves warning b s = ground arith
  handle_message-Leaves info b s = ground arith
  handle_message-Leaves other b s = refl
  handle_message-Leaves (state_changed source old new) b s =
      ground (arith, leaves.state_changed old b (record s { self = record s.self { state = new } }))
  handle_message-Leaves duration_changed b s = query_duration-Leaves env b s
  handle_message-Leaves async_done b s =
      let s0 : Sys (Player X) = record s { self = record s.self { seeking_lock = false } } in
      ground (
        arith,
        leaves.set_time s.self.pending_seek b s0,
        leaves.seek_finished b s0,
        leaves.seek_finished b (hooks.set_time s.self.pending_seek s0).1,
      )
  handle_message-Leaves eos b s =
      let s0 = (hooks.on_stream_end s).1 in
      let s1 = (stop env hooks s0).1 in
      ground (
        arith,
        leaves.stream_end b s,
        set_state-Leaves env hooks leaves state_paused b s0,
        stop-Leaves env hooks leaves b s0,
        play-Leaves b s1,
      )

  take_message-Leaves : Leaves env (take_message env hooks)
  unfolding take_message
  take_message-Leaves b s =
      let s1 : Sys (Player X) = record s { trace = gst_bus_pop s.self.gst_bus ∷ s.trace } in
      elim (Option-cases (env.bus_pop s1.trace)) [
        | inl e ↦ rw e (ground arith)
        | inr (m, e) ↦ rw e (ground (arith, handle_message-Leaves m b s1))
      ]

  pub drain_bus-Leaves : Leaves env (drain_bus env hooks)
  unfolding drain_bus
  drain_bus-Leaves b s =
      loop_while_keeps (has_message env) (take_message env hooks)
        (λ t. frame_of env b t ≡ frame_of env b s) (λ t e. unfold has_message in ground (arith, e))
        (λ t e. take_message-Leaves b t ∙ e) (λ t e. ground (arith, e)) env.rounds s refl
