-- ===== src/Player/Update/Seeking.antt =====
-- `setTime` while the pipeline seeks, and the ASYNC_DONE messages that end a seek.
pub mod Refinement
use nsvr.Prelude.{ℕ, suc, ◌+◌, ◌≤◌, ◌≡◌, true, false, some, List, [], ◌∷◌, arith, if◌then◌else◌}
use nsvr.Double.{Double, d_zero, d_minus_one, d_lt, d_ge, d_eq, clamp}
use nsvr.Double.Order.{lt_not_ge}
use nsvr.Env.{Env, Handle, gst_element_seek_simple, on_seek_finished}
use nsvr.Env.Monad.{Sys}
use nsvr.Env.Count.{one_if, accepted_seeks}
use nsvr.Player.Object.{Player}
use nsvr.Player.Seek.{set_time}
use nsvr.Player.Control.{base_hooks}
use nsvr.Player.Update.{on_async_done}

pub data SeekOp : Type 0 where
  requested : Double → SeekOp
  finished : SeekOp

pub finishes : List SeekOp → ℕ
finishes [] = 0
finishes (requested _ ∷ ops) = finishes ops
finishes (finished ∷ ops) = suc (finishes ops)

module _ {X : Type 0} (env : Env) where
  pub run_seek : SeekOp → Sys (Player X) → Sys (Player X)
  run_seek (requested time) s = (set_time env time s).1
  run_seek finished s = (on_async_done env (base_hooks env) s).1

  pub run_seeks : List SeekOp → Sys (Player X) → Sys (Player X)
  run_seeks [] s = s
  run_seeks (op ∷ ops) s = run_seeks ops (run_seek op s)

  abbrev pub seeks_and_lock : Sys (Player X) → ℕ
  seeks_and_lock s = accepted_seeks env s.trace + one_if s.self.seeking_lock

  set_time_accepts :
      (time : Double) (s : Sys (Player X))
      → let t = (set_time env time s).1 in
        accepted_seeks env t.trace + one_if s.self.seeking_lock
        ≤ accepted_seeks env s.trace + one_if t.self.seeking_lock
  unfolding set_time
  set_time_accepts time s = ground arith

  async_done_accepts :
      (s : Sys (Player X))
      → let t = (on_async_done env (base_hooks env) s).1 in
        accepted_seeks env t.trace + one_if s.self.seeking_lock
        ≤ accepted_seeks env s.trace + one_if t.self.seeking_lock + 1
  unfolding on_async_done
  async_done_accepts s =
      let cleared = record s { self = record s.self { seeking_lock = false } } in
      ground (arith, set_time_accepts s.self.pending_seek cleared)

  -- Over any sequence of seek requests and ASYNC_DONE messages, the pipeline accepts at most one
  -- seek more than there were such messages, and none more while the seeking lock was held at the
  -- start or is free at the end; with the functions of Player itself.
  pub seeks_bounded :
      (ops : List SeekOp) (s : Sys (Player X))
      → let t = run_seeks ops s in
        accepted_seeks env t.trace + one_if s.self.seeking_lock
        ≤ accepted_seeks env s.trace + one_if t.self.seeking_lock + finishes ops
  unfolding run_seeks run_seek finishes
  seeks_bounded [] s = omega arith
  seeks_bounded (requested time ∷ ops) s =
      omega (arith, set_time_accepts time s, seeks_bounded ops (set_time env time s).1)
  seeks_bounded (finished ∷ ops) s =
      omega
        (arith, async_done_accepts s, seeks_bounded ops (on_async_done env (base_hooks env) s).1)

  -- The requests of a list, then one more.
  abbrev pub request_all : List Double → Double → Sys (Player X) → Sys (Player X)
  request_all [] last s = (set_time env last s).1
  request_all (d ∷ ds) last s = request_all ds last (set_time env d s).1

  request_while_locked :
      (d : Double) (s : Sys (Player X)) (h : Handle)
      → s.self.pipeline ≡ some h
      → s.self.seeking_lock ≡ true
      → (set_time env d s).1 ≡ record s { self = record s.self { pending_seek = d } }
  unfolding set_time
  request_while_locked d s h e l = ground arith

  requests_while_locked :
      (ds : List Double) (last : Double) (s : Sys (Player X)) (h : Handle)
      → s.self.pipeline ≡ some h
      → s.self.seeking_lock ≡ true
      → request_all ds last s ≡ record s { self = record s.self { pending_seek = last } }
  requests_while_locked [] last s h e l = request_while_locked last s h e l
  requests_while_locked (d ∷ ds) last s h e l =
      rw (request_while_locked d s h e l) (
        requests_while_locked ds last (record s { self = record s.self { pending_seek = d } }) h e
          l)

  -- Of all requests made while a seek of the pipeline runs, the ASYNC_DONE that ends it starts
  -- exactly one seek, to the last requested time, clamped to the duration, and the player holds
  -- the lock again with nothing pending; provided that the duration is not 0, the last time is
  -- not negative and the pipeline accepts the seek; with the functions of Player itself.
  pub last_request_wins :
      (ds : List Double) (last : Double) (s : Sys (Player X)) (h : Handle)
      → s.self.pipeline ≡ some h
      → s.self.seeking_lock ≡ true
      → d_eq s.self.duration d_zero ≡ false
      → d_ge last d_zero ≡ true
      → let seek =
          gst_element_seek_simple h (env.fpu.nanoseconds (clamp last d_zero s.self.duration)) in
        env.seek_simple (seek ∷ s.trace) ≡ true
        → let t = (on_async_done env (base_hooks env) (request_all ds last s)).1 in
          (t.trace ≡ on_seek_finished ∷ seek ∷ s.trace)
          × (t.self.seeking_lock ≡ true)
          × (t.self.pending_seek ≡ d_minus_one)
  unfolding on_async_done set_time
  last_request_wins ds last s h e l n g a =
      rw (requests_while_locked ds last s h e l) (ground arith)

  -- A request for a negative time made while the pipeline seeks is forgotten: the ASYNC_DONE that
  -- ends the seek starts no other and frees the lock, although the clamped time is the start, or
  -- the duration if that is below the request; of a player with a pipeline, with the functions of
  -- Player itself.
  negative_request_forgotten :
      (d : Double) (s : Sys (Player X)) (h : Handle)
      → s.self.pipeline ≡ some h
      → s.self.seeking_lock ≡ true
      → d_lt d d_zero ≡ true
      → let t = (on_async_done env (base_hooks env) (set_time env d s).1).1 in
        (t.trace ≡ on_seek_finished ∷ s.trace)
        × (t.self.seeking_lock ≡ false)
        × (clamp d d_zero s.self.duration
            ≡ (if d_lt s.self.duration d then s.self.duration else d_zero))
  unfolding on_async_done clamp
  negative_request_forgotten d s h e l n =
      rw (request_while_locked d s h e l) (ground (arith, lt_not_ge d d_zero n))
