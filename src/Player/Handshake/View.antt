-- ===== src/Player/Handshake/View.antt =====
-- The fields of a player that Handshake's steps change, and the parts of the player that leave them
-- alone: the seeks, the volume, the changes of state and the loop of `update` over the bus.
pub mod Accessors
pub mod Messages
use nsvr.Prelude.{◌≡◌, refl, Bool, Option, none, some, ◌∷◌, arith}
use nsvr.Double.{Double}
use nsvr.Env.{Env, GstState, MapInfo, gst_element_set_state}
use nsvr.Env.Monad.{Sys, M, for_some}
use nsvr.Env.Count.{count, delivered, is_sample_unref}
use nsvr.Player.Object.{Player, Hooks, get_state}
use nsvr.Player.Control.{set_state, stop}
use nsvr.Player.Control.Laws.{stopped}
use nsvr.Player.Handshake.{Shared, Streaming, User, State}

module _ {X : Type 0} (env : Env) where
  -- The shared fields of a player, and the samples by the calls made.
  abbrev pub frame_of : Bool → Sys (Player X) → Shared
  frame_of streams s = record {
    sample = s.self.current_sample;
    buffer = s.self.current_buffer;
    dirty = s.self.buffer_dirty;
    streams = streams;
    handed_out = delivered env s.trace;
    given_back = count is_sample_unref s.trace;
  }

  abbrev pub at : Bool → Streaming → User → Sys (Player X) → State
  at streams p q s = record { shared = frame_of streams s; streaming = p; user = q }

  -- It neither writes the shared fields nor pulls samples nor gives any back.
  abbrev pub Leaves : {B : Type 0} → M (Player X) B → Type 0
  Leaves m = (b : Bool) (s : Sys (Player X)) → frame_of b (m s).1 ≡ frame_of b s

  pub for_some-Leaves :
      {B : Type 0} (o : Option B) (f : B → M (Player X) (Unit {0}))
      → ((a : B) → Leaves (f a))
      → Leaves (for_some o f)
  for_some-Leaves none f leaves b s = refl
  for_some-Leaves (some a) f leaves b s = leaves a b s

-- The overrides of a class leave the frame alone.
pub record LeavesFrames {X : Type 0} (env : Env) (hooks : Hooks X) : Type 0 where
  pub before_open : Leaves env hooks.on_before_open
  pub before_close : Leaves env hooks.on_before_close
  pub before_update : Leaves env hooks.on_before_update
  pub before_set_state : (state : GstState) → Leaves env (hooks.on_before_set_state state)
  pub state_changed : (old : GstState) → Leaves env (hooks.on_state_changed old)
  pub stream_end : Leaves env hooks.on_stream_end
  pub seek_finished : Leaves env hooks.on_seek_finished
  pub video_frame : (info : MapInfo) → Leaves env (hooks.on_video_frame info)
  pub clock_set_up : Leaves env hooks.setup_clock
  pub set_time : (time : Double) → Leaves env (hooks.set_time time)

module _ {X : Type 0} (env : Env) (hooks : Hooks X) (leaves : LeavesFrames env hooks) where
  pub set_state-Leaves : (state : GstState) → Leaves env (set_state env hooks state)
  unfolding set_state get_state
  set_state-Leaves state b s =
      let s1 = (hooks.on_before_set_state state s).1 in
      let s2 = record s1 { trace = gst_element_set_state s1.self.pipeline state ∷ s1.trace } in
      ground (arith, leaves.before_set_state state b s, leaves.state_changed s1.self.state b s2)

  pub stop-Leaves : Leaves env (stop env hooks)
  unfolding stop
  stop-Leaves b s = rw (set_state-Leaves, set_state-Leaves)

  pub stopped_frame :
      (b : Bool) (s : Sys (Player X)) → frame_of env b (stopped env hooks s) ≡ frame_of env b s
  stopped_frame b s = rw (stop-Leaves, leaves.before_close)
