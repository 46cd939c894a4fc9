-- ===== src/Player/Update/Seeking/Refinement.antt =====
-- What seeking promises, apart from the fields and calls of `setTime` and of the ASYNC_DONE branch of
-- source/nsvr/nsvr_player.cpp: at most one seek runs, and of the requests made meanwhile the last
-- one waits. A pipeline may refuse any seek.
use nsvr.Prelude.{
  ◌≡◌, refl, sym, ◌∙◌, ◌⊎◌, Bool, true, false, Option, none, some, List, [], ◌∷◌, if◌then◌else◌,
  Bool-cases, inl, inr,
}
use nsvr.Prelude.Int.{ℤ}
use nsvr.Double.{Double, d_zero, d_minus_one, d_ge, d_eq, clamp}
use nsvr.Double.Order.{minus_one_not_ge}
use nsvr.Env.{Env, Handle, Call, Trace, gst_element_seek_simple, on_seek_finished, nsvr_log}
use nsvr.Env.Monad.{Sys}
use nsvr.Env.Count.{push_some}
use nsvr.Player.Object.{Player}
use nsvr.Player.Seek.{set_time}
use nsvr.Player.Update.{on_async_done}
use nsvr.Player.Update.Seeking.{
  SeekOp, requested, finished, run_seek, run_seeks, request_while_locked,
}

pub record View : Type 0 where
  pub busy : Bool
  pub waiting : Option Double

abbrev pub seeking : View
seeking = record { busy = true; waiting = none }

-- A negative time, or none that is a number, does not wait.
abbrev pub waits : Double → Option Double
waits d = if d_ge d d_zero then some d else none

-- What one operation may do: the time that it asks the pipeline for, and what it leaves.
pub data Allowed (v : View) : SeekOp → Option Double → View → Type 0 where
  begun : {d : Double} → v.busy ≡ false → Allowed v (requested d) (some d) seeking
  refused : {d : Double} → v.busy ≡ false → Allowed v (requested d) (some d) v
  deferred :
      {d : Double} → v.busy ≡ true → Allowed v (requested d) none (record v { waiting = waits d })
  settled : v.waiting ≡ none → Allowed v finished none (record { busy = false; waiting = none })
  resumed : {d : Double} → v.waiting ≡ some d → Allowed v finished (some d) seeking
  resume_refused :
      {d : Double}
      → v.waiting ≡ some d
      → Allowed v finished (some d) (record { busy = false; waiting = some d })

-- Operations one after another, with all times that they ask for, oldest first.
pub data Runs : View → List SeekOp → List Double → View → Type 0 where
  ends : {v : View} → Runs v [] [] v
  next :
      {v u w : View} {op : SeekOp} {ops : List SeekOp} {a : Option Double} {ds : List Double}
      → Allowed v op a u
      → Runs u ops ds w
      → Runs v (op ∷ ops) (push_some a ds) w

-- The targets of the seeks that a trace holds, newest first.
abbrev pub target_of : Call → Option ℤ
target_of (gst_element_seek_simple _ ns) = some ns
target_of _ = none

abbrev pub seek_targets : Trace → List ℤ
seek_targets [] = []
seek_targets (c ∷ t) = push_some (target_of c) (seek_targets t)

abbrev pub view : {X : Type 0} → Player X → View
view p = record { busy = p.seeking_lock; waiting = waits p.pending_seek }

-- A player that can seek: it holds a pipeline and knows a duration.
pub record CanSeek {X : Type 0} (p : Player X) : Type 0 where
  pub pipeline : Handle
  pub holds : p.pipeline ≡ some pipeline
  pub lasts : d_eq p.duration d_zero ≡ false

module _ (env : Env) where  -- A time as the pipeline is asked for it, within the duration.
  abbrev pub target : Double → Double → ℤ
  target duration d = env.fpu.nanoseconds (clamp d d_zero duration)

  abbrev pub asked_then : Double → List Double → List ℤ → List ℤ
  asked_then duration [] before = before
  asked_then duration (d ∷ ds) before = asked_then duration ds (target duration d ∷ before)

  asked_then-push_some :
      (duration : Double) (a : Option Double) (ds : List Double) (before : List ℤ)
      → asked_then duration (push_some a ds) before
        ≡ asked_then duration ds (asked_then duration (push_some a []) before)
  asked_then-push_some duration none ds before = refl
  asked_then-push_some duration (some d) ds before = refl

  asked_on :
      (duration later : Double) (a : Option Double) (ds : List Double) (before after : List ℤ)
      → later ≡ duration
      → after ≡ asked_then duration (push_some a []) before
      → asked_then later ds after ≡ asked_then duration (push_some a ds) before
  asked_on duration later a ds before after same asks =
      rw (same, asks) (sym (asked_then-push_some duration a ds before))

module _ {X : Type 0} (env : Env) where
  abbrev pub Step : SeekOp → Sys (Player X) → Sys (Player X) → Type 0
  Step op s t =
      (a : Option Double) × Allowed (view s.self) op a (view t.self)
      × (seek_targets t.trace
          ≡ asked_then env s.self.duration (push_some a []) (seek_targets s.trace))
      × (t.self.pipeline ≡ s.self.pipeline)
      × (t.self.duration ≡ s.self.duration)

  -- The call that asks for a time, and what the player is once the pipeline accepted it.
  abbrev ask_seek : Handle → Double → Sys (Player X) → Call
  ask_seek h d s = gst_element_seek_simple h (target env s.self.duration d)

  abbrev busy_now : Sys (Player X) → Sys (Player X)
  busy_now s = record s { self = record s.self { seeking_lock = true; pending_seek = d_minus_one } }

  set_time_free :
      (d : Double) (s : Sys (Player X)) (c : CanSeek s.self)
      → s.self.seeking_lock ≡ false
      → let t = ask_seek c.pipeline d s ∷ s.trace in
        ((set_time env d s).1 ≡ record (busy_now s) { trace = t })
        ⊎ ((set_time env d s).1 ≡ record s { trace = nsvr_log ∷ t })
  unfolding set_time
  set_time_free d s c free =
      elim (Bool-cases (env.seek_simple (ask_seek c.pipeline d s ∷ s.trace))) [
        | inl e ↦ inl (rw (c.holds, free, c.lasts, e) refl)
        | inr e ↦ inr (rw (c.holds, free, c.lasts, e) refl)
      ]

  requested-Step :
      (d : Double) (s : Sys (Player X))
      → CanSeek s.self
      → Step (requested d) s (run_seek env (requested d) s)
  unfolding run_seek
  requested-Step d s c = elim (Bool-cases s.self.seeking_lock) [
    | inl locked ↦
        rw (request_while_locked env d s c.pipeline c.holds locked)
          (none, deferred locked, refl, refl, refl)
    | inr free ↦ elim (set_time_free d s c free) [
      | inl e ↦ rw (e, minus_one_not_ge) (some d, begun free, refl, refl, refl)
      | inr e ↦ rw e (some d, refused free, refl, refl, refl)
    ]
  ]

  finished_waiting :
      (s : Sys (Player X))
      → d_ge s.self.pending_seek d_zero ≡ true
      → let free = record s { self = record s.self { seeking_lock = false } } in
        let t = (set_time env s.self.pending_seek free).1 in
        run_seek env finished s ≡ record t { trace = on_seek_finished ∷ t.trace }
  unfolding run_seek on_async_done
  finished_waiting s e = rw e refl

  finished_idle :
      (s : Sys (Player X))
      → d_ge s.self.pending_seek d_zero ≡ false
      → run_seek env finished s ≡ record s {
        self = record s.self { seeking_lock = false };
        trace = on_seek_finished ∷ s.trace;
      }
  unfolding run_seek on_async_done
  finished_idle s e = rw e refl

  finished-Step : (s : Sys (Player X)) → CanSeek s.self → Step finished s (run_seek env finished s)
  finished-Step s c =
      let d = s.self.pending_seek in
      let free : Sys (Player X) = record s { self = record s.self { seeking_lock = false } } in
      elim (Bool-cases (d_ge d d_zero)) [
        | inr e ↦ rw (finished_idle s e, e) (none, settled refl, refl, refl, refl)
        | inl e ↦
            elim (set_time_free d free
              (record { pipeline = c.pipeline; holds = c.holds; lasts = c.lasts }) refl) [
                | inl began ↦
                    rw (finished_waiting s e, began, e, minus_one_not_ge)
                      (some d, resumed refl, refl, refl, refl)
                | inr not_begun ↦
                    rw (finished_waiting s e, not_begun, e)
                      (some d, resume_refused refl, refl, refl, refl)
              ]
      ]

  run_seek-Step :
      (op : SeekOp) (s : Sys (Player X)) → CanSeek s.self → Step op s (run_seek env op s)
  run_seek-Step (requested d) s c = requested-Step d s c
  run_seek-Step finished s c = finished-Step s c

  -- Seeking does what it promises: whatever seeks the pipeline accepts, any sequence of requests
  -- and ASYNC_DONE messages is a run of the machine in which a seek is running or not and at most
  -- one time waits. A request is asked for at once if no seek runs, and otherwise takes the place
  -- of the one that waits, a time that is negative or no number as none; an ASYNC_DONE asks for
  -- the one that waits; a refused seek leaves what waited. The pipeline is asked for just the
  -- times of that run, clamped to the duration, in order. The player has a pipeline and a
  -- duration other than 0, and the functions of Player itself.
  pub run_seeks-Runs :
      (ops : List SeekOp) (s : Sys (Player X))
      → CanSeek s.self
      → let t = run_seeks env ops s in
        (ds : List Double) × Runs (view s.self) ops ds (view t.self)
        × (seek_targets t.trace ≡ asked_then env s.self.duration ds (seek_targets s.trace))
  unfolding run_seeks
  run_seeks-Runs [] s c = ([], ends, refl)
  run_seeks-Runs (op ∷ ops) s c =
      let (a, allowed, asks, p, d) = run_seek-Step op s c in
      let (ds, runs, asked) =
        run_seeks-Runs ops (run_seek env op s)
          (record { pipeline = c.pipeline; holds = p ∙ c.holds; lasts = rw d c.lasts }) in
      (
        push_some a ds,
        next allowed runs,
        asked ∙ asked_on env s.self.duration _ a ds (seek_targets s.trace) _ d asks,
      )
