-- ===== src/PlayerClient/Bases.antt =====
-- Where the base times of a client come from: the one that waits, and the one that its pipeline was
-- given last.
use nsvr.Prelude.{
  ℕ, ◌≡◌, refl, ◌⊎◌, inl, inr, Bool, true, false, ◌∷◌, Bytes, arith, ◌==◌, is_empty, Bool-cases,
}
use nsvr.Prelude.Int.{ℤ}
use nsvr.Double.{Double}
use nsvr.Env.{
  Env, Handle, GstState, Message, error, warning, info, async_done, duration_changed, eos, other,
  state_changed, state_null, state_ready, state_paused, state_playing, on_stream_end,
}
use nsvr.Env.Monad.{Sys}
use nsvr.Packet.{Packet, default_packet, parse, clock_time_none}
use nsvr.Player.Object.{get_mute, get_state, get_loop}
use nsvr.Player.Volume.{get_volume, set_volume, set_mute}
use nsvr.Player.Seek.{set_time, query_duration}
use nsvr.Player.Control.{query_state, set_state, replay, pause, stop, play}
use nsvr.Player.Update.{handle_message}
use nsvr.PlayerClient.{
  PlayerClient, hooks, follow, follow_mute, follow_volume, follow_base, follow_state, on_message,
  advance_base, setup_clock, clear_clock, use_clock, is_true,
}
use nsvr.Player.Update.Answers.{last_base}

abbrev pub Kept : Handle → Sys PlayerClient → Sys PlayerClient → Type 0
Kept h s t =
    (t.self.derived.base_time ≡ s.self.derived.base_time)
    × (last_base h t.trace ≡ last_base h s.trace)

module _ (env : Env) (h : Handle) where
  follow_mute-Kept : (target : Bool) (s : Sys PlayerClient) → Kept h s (follow_mute env target s).1
  unfolding follow_mute get_mute set_mute set_volume get_volume
  follow_mute-Kept target s = ground arith

  follow_volume-Kept :
      (target : Double) (s : Sys PlayerClient) → Kept h s (follow_volume env target s).1
  unfolding follow_volume set_volume get_volume
  follow_volume-Kept target s = ground arith

  follow_state-Kept : (target : ℤ) (s : Sys PlayerClient) → Kept h s (follow_state env target s).1
  unfolding follow_state query_state set_state
  follow_state-Kept target s = ground arith

  follow_base-lem :
      (target : ℕ) (s : Sys PlayerClient)
      → let t = (follow_base env target s).1 in
        ((t.self.derived.base_time ≡ s.self.derived.base_time)
          ⊎ (t.self.derived.base_time ≡ target))
        × (last_base h t.trace ≡ last_base h s.trace)
  unfolding follow_base
  follow_base-lem target s = ground arith

  -- The base time that waits behind a packet is the one before, or the packet's.
  abbrev pub Follows : ℕ → Sys PlayerClient → Sys PlayerClient → Type 0
  Follows base s t =
      ((t.self.derived.base_time ≡ s.self.derived.base_time) ⊎ (t.self.derived.base_time ≡ base))
      × (last_base h t.trace ≡ last_base h s.trace)

  follow-Follows : (p : Packet) (s : Sys PlayerClient) → Follows p.base s (follow env p s).1
  unfolding follow
  follow-Follows p s =
      let s1 = (follow_mute env (is_true p.mute) s).1 in
      let s2 = (follow_volume env p.volume s1).1 in
      let s3 = (follow_base env p.base s2).1 in
      ground (
        arith,
        follow_mute-Kept (is_true p.mute) s,
        follow_volume-Kept p.volume s1,
        follow_base-lem p.base s2,
        follow_state-Kept p.state s3,
      )

  pub on_message-lem :
      (m : Bytes) (s : Sys PlayerClient)
      → ((on_message env m s).1 ≡ s)
        ⊎ (((parse env.fpu m default_packet).0 ≡ true)
            × Follows (parse env.fpu m default_packet).1.base s (on_message env m s).1)
  unfolding on_message
  on_message-lem m s = elim (Bool-cases (is_empty m)) [
    | inl e ↦ inl (rw e refl)
    | inr e ↦ elim (Bool-cases (parse env.fpu m default_packet).0) [
      | inr refused ↦ inl (rw (e, refused) refl)
      | inl accepted ↦
          inr (accepted, rw (e, accepted) (follow-Follows (parse env.fpu m default_packet).1 s))
    ]
  ]

  -- An update gives the pipeline the base time that waits, or none, or leaves it.
  pub advance_base-lem :
      (k : Handle) (s : Sys PlayerClient)
      → let t = (advance_base env k s).1 in
        ((t.self.derived.base_time ≡ s.self.derived.base_time) ⊎ (t.self.derived.base_time ≡ 0))
        × ((last_base h t.trace ≡ last_base h s.trace)
            ⊎ (last_base h t.trace ≡ clock_time_none)
            ⊎ ((s.self.derived.base_time == 0 ≡ false)
                × (last_base h t.trace ≡ s.self.derived.base_time)))
  unfolding advance_base get_state setup_clock clear_clock use_clock
  advance_base-lem k s = ground arith

  set_state-Kept :
      (state : GstState) (s : Sys PlayerClient) → Kept h s (set_state env (hooks env) state s).1
  unfolding set_state
  set_state-Kept state s = ground arith

  play-Kept : (s : Sys PlayerClient) → Kept h s (play env (hooks env) s).1
  unfolding play get_mute set_mute set_volume get_volume
  play-Kept s =
      let s1 = (set_state env (hooks env) state_playing s).1 in
      ground (arith, set_state-Kept state_playing s)

  set_time-Kept : (time : Double) (s : Sys PlayerClient) → Kept h s (set_time env time s).1
  unfolding set_time
  set_time-Kept time s = ground arith

  pub handle_message-Kept :
      (m : Message) (s : Sys PlayerClient) → Kept h s (handle_message env (hooks env) m s).1
  unfolding handle_message get_loop replay stop pause query_duration
  handle_message-Kept error s = (refl, refl)
  handle_message-Kept warning s = (refl, refl)
  handle_message-Kept info s = (refl, refl)
  handle_message-Kept other s = (refl, refl)
  handle_message-Kept (state_changed source old new) s = ground arith
  handle_message-Kept duration_changed s = ground arith
  handle_message-Kept async_done s =
      let s0 : Sys PlayerClient = record s { self = record s.self { seeking_lock = false } } in
      ground (arith, set_time-Kept s.self.pending_seek s0)
  handle_message-Kept eos s =
      let s0 : Sys PlayerClient = record s { trace = on_stream_end ∷ s.trace } in
      let s1 = (set_state env (hooks env) state_null s0).1 in
      let s2 = (set_state env (hooks env) state_ready s1).1 in
      ground (
        arith,
        set_state-Kept state_paused s0,
        set_state-Kept state_null s0,
        set_state-Kept state_ready s1,
        play-Kept s2,
      )
