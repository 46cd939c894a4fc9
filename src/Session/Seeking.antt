-- ===== src/Session/Seeking.antt =====
-- A seek, from setTime of PlayerServer in source/nsvr/nsvr_player_server.cpp to the pipeline of a
-- client in source/nsvr/nsvr_player_client.cpp.
use nsvr.Prelude.{
  ℕ, ◌<◌, ◌^◌, ◌==◌, ◌≡◌, ◌∙◌, true, false, Option, none, some, ◌∷◌, arith, is_some, if◌then◌else◌,
}
use nsvr.Prelude.Int.{◌==ℤ◌}
use nsvr.Double.{Double, clamp, is_nan, d_zero, d_ge}
use nsvr.Env.{Env, Handle, Trace, state_ready, gst_clock_get_time, g_main_context_pending}
use nsvr.Env.Monad.{Sys}
use nsvr.Packet.Number.Laws.{IsInt}
use nsvr.Player.Update.{update}
use nsvr.Player.Update.Answers.{Obeys, last_base, last_state, Hears, ends_ready}
use nsvr.Player.Update.Messages.{state_requests}
use nsvr.PlayerServer
use nsvr.PlayerServer.{PlayerServer, seek_base_time}
use nsvr.PlayerServer.Following.{seek_carried_out}
use nsvr.PlayerClient.{PlayerClient, hooks}
use nsvr.PlayerClient.Waiting.{Idle}
use nsvr.PlayerClient.Following.{twice}
use nsvr.Session.Group.{Comes, arrived, joins, follows_state}

-- The server behind a request for a time and two updates.
abbrev pub sought : Env → Double → Sys PlayerServer → Sys PlayerServer
sought host x s =
    (update host (PlayerServer.hooks host)
      (update host (PlayerServer.hooks host) (PlayerServer.set_time host x s).1).1).1

-- The base time that it gives the pipeline.
abbrev pub base_sought : Env → Handle → Double → Sys PlayerServer → ℕ
base_sought host h x s =
    let now = host.clock_time (gst_clock_get_time s.self.derived.net_clock ∷ s.trace) in
    let told = last_base h s.trace in
    seek_base_time host now told told (clamp x d_zero s.self.duration)

seek_base_time_fits :
    (env : Env) (now base base' : ℕ) (x : Double) → seek_base_time env now base base' x < 2 ^ 64
unfolding seek_base_time
seek_base_time_fits env now base base' x = omega arith

module _ (host guest : Env) (one_format : guest.fpu ≡ host.fpu) (h k socket : Handle)
    (o : Obeys host h) (g : Obeys guest k)
    (makes : (t : Trace) → is_some (guest.net_client_clock t) ≡ true)
    (host_silent : (t : Trace) → host.context_pending (g_main_context_pending none ∷ t) ≡ false)
    (guest_silent : (context : Option Handle) (t : Trace)
      → guest.context_pending (g_main_context_pending context ∷ t) ≡ false) where
  -- A seek of the server reaches a client: behind setTime and two updates of the server, the
  -- message of a heartbeat and two updates of the client, the client's pipeline was given the
  -- base time that the server computed for the seek, the client has a network clock, and only
  -- READY was requested; the message of a later heartbeat, of any state of the server with the
  -- same base time, then makes the client request the server's state, once, or nothing if that is
  -- READY. Both machines print and read doubles alike; the doubles of both heartbeats can be
  -- read, and their messages hold no zero byte, are shorter than 1024 bytes and come whole to the
  -- socket of the connected client. The new base time is neither 0 nor that of the client's
  -- pipeline. The requested time is a number and the duration is not negative; both have a
  -- pipeline, the server's not taken to READY last and the client's not READY, and a bus, no
  -- frame is left in them, and no seek waits for PLAYING in the server. Each bus hands any
  -- messages in the updates, of the pipeline and of its elements, fewer than the rounds that a
  -- loop is followed for, and no end of the stream; in the first update of each the last one on
  -- the state of the pipeline says that it is in READY, and in that of the server no ASYNC_DONE
  -- is among them. Nothing else comes from the network; the pipelines tell the base time that
  -- they were given last and the state that was requested last, and fail no request for a state
  -- and no query of it, and network clocks can be made. The server of either heartbeat has a
  -- state that is a value of `int`, and that of the later one its pipeline.
  pub seek_reaches_client :
      (x : Double) (s later : Sys PlayerServer) (c : Sys PlayerClient)
      → s.self.pipeline ≡ some h
      → is_some s.self.gst_bus ≡ true
      → s.self.buffer_dirty ≡ false
      → is_nan x ≡ false
      → d_ge s.self.duration d_zero ≡ true
      → d_ge s.self.derived.pending_state_seek d_zero ≡ false
      → last_state s.trace ==ℤ state_ready ≡ false
      → (first : Hears host (PlayerServer.hooks host) true (PlayerServer.set_time host x s).1)
      → ends_ready h first.messages false ≡ true
      → Hears host
          (PlayerServer.hooks host)
          false
          (update host (PlayerServer.hooks host) (PlayerServer.set_time host x s).1).1
      → IsInt (sought host x s).self.state
      → Idle k c
      → c.self.derived.client.connected ≡ true
      → base_sought host h x s == 0 ≡ false
      → last_base k c.trace == base_sought host h x s ≡ false
      → Comes host guest h socket (sought host x s) c
      → (third : Hears guest (hooks guest) false (arrived guest socket c))
      → ends_ready k third.messages false ≡ true
      → Hears guest (hooks guest) false (update guest (hooks guest) (arrived guest socket c)).1
      → let t = twice guest (arrived guest socket c) in
        later.self.pipeline ≡ some h
        → IsInt later.self.state
        → last_base h later.trace ≡ last_base h (sought host x s).trace
        → Comes host guest h socket later t
        → let u = arrived guest socket t in
          let before = state_ready ∷ state_requests c.trace in
          (last_base k t.trace ≡ base_sought host h x s)
          × (is_some t.self.derived.net_clock ≡ true)
          × (state_requests t.trace ≡ before)
          × (state_requests u.trace
              ≡ (if state_ready ==ℤ later.self.state then before else later.self.state ∷ before))
  seek_reaches_client x s later c e bus clean number long idle away first came second fits i on set
        new m third came' fourth e' fits' same m' =
      let (held, _, given, _, _) =
        seek_carried_out host h o host_silent x s e bus clean number long idle away first came
          second in
      let t0 = sought host x s in
      let below : last_base h t0.trace < 2 ^ 64 = rw given (seek_base_time_fits host _ _ _ _) in
      let joined =
        joins host guest one_format h k socket o g makes guest_silent t0 c m held fits below on i
          (rw given set) (rw given new) third came' fourth in
      let follows =
        follows_state host guest one_format h k socket o g makes guest_silent t0 later c _ m' joined
          e' fits' same below on in
      (joined.3 ∙ given, joined.0, joined.4, follows.1)
