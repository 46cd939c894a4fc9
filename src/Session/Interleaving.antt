-- ===== src/Session/Interleaving.antt =====
-- A server's program and a client's, side by side: source/nsvr/nsvr_player_server.cpp dispatches
-- heartbeats, source/nsvr/nsvr_player_client.cpp takes messages, updates and hears its pipeline. UDP
-- may lose, repeat and reorder: any message that was ever sent may come at any time, or never.
use mathlib.Core.List.{Mem, eq-or-mem_of_mem-cons, not-mem-nil, mem-cons_self, mem-cons_of_mem}
use mathlib.Core.Logic.Or
use nsvr.Prelude.{
  ℕ, ◌<◌, ◌^◌, ◌≡◌, refl, ap, subst, ◌∙◌, ◌⊎◌, inl, inr, Bool, some, List, [], ◌∷◌, Bytes, arith,
}
use nsvr.Double.{Double, Fpu}
use nsvr.Env.{
  Env, Handle, Trace, Message, gst_element_get_base_time, g_object_get_volume,
  gst_element_query_position,
}
use nsvr.Env.Monad.{Sys}
use nsvr.Packet.{Packet, default_packet, parse, serialize, clock_time_none}
use nsvr.Packet.RoundTrip.{IsWritable, parse-serialize}
use nsvr.Packet.Number.Laws.{IsInt}
use nsvr.Player.Object.{get_mute, get_state}
use nsvr.Player.Volume.{get_volume}
use nsvr.Player.Seek.{get_time}
use nsvr.Player.Update.{handle_message}
use nsvr.PlayerServer.{PlayerServer, heartbeat_packet, dispatch_heartbeat}
use nsvr.PlayerServer.Dispatch.{packet_describes}
use nsvr.PlayerClient.{PlayerClient, hooks, on_message, advance_base}
use nsvr.Player.Update.Answers.{last_base}
use nsvr.PlayerClient.Bases.{on_message-lem, advance_base-lem, handle_message-Kept}
use nsvr.Session.{IsPrinted, heartbeat_packet-IsWritable}

pub record Session : Type 0 where
  pub host : Sys PlayerServer
  pub guest : Sys PlayerClient
  -- every message that the host has sent so far
  pub sent : List Bytes
  -- the base times that the host's pipeline told for them, the last one first
  pub told : List ℕ

-- What the host's pipeline tells as its base time when the next heartbeat asks it.
abbrev pub told_now : Env → Handle → Sys PlayerServer → ℕ
told_now host h s =
    host.base_time
      (gst_element_get_base_time h ∷ g_object_get_volume h ∷ gst_element_query_position h ∷ s.trace)

module _ (host guest : Env) where
  pub data Step (s : Session) : Session → Type 0 where
    beats :
        (h : Handle)
        → s.host.self.pipeline ≡ some h
        → Step s (record s {
          host = (dispatch_heartbeat host s.host).1;
          sent = serialize host.fpu (heartbeat_packet host h s.host).0 ∷ s.sent;
          told = told_now host h s.host ∷ s.told;
        })
    -- whatever else the host does; its state is a value of `int`
    moves : (t : Sys PlayerServer) → IsInt t.self.state → Step s (record s { host = t })
    receives :
        (m : Bytes) → Mem m s.sent → Step s (record s { guest = (on_message guest m s.guest).1 })
    advances :
        (h : Handle)
        → s.guest.self.pipeline ≡ some h
        → Step s (record s { guest = (advance_base guest h s.guest).1 })
    hears :
        (m : Message)
        → Step s (record s { guest = (handle_message guest (hooks guest) m s.guest).1 })

  -- The states that an interleaving reaches from one in which nothing was sent.
  pub data Reach (s : Session) : Session → Type 0 where
    start : Reach s s
    later : {t u : Session} → Reach s t → Step t u → Reach s u

-- The base time that the guest's pipeline was given last, where it was `first` at the start.
abbrev pub IsOfHost : ℕ → List ℕ → ℕ → Type 0
IsOfHost first told base = (base ≡ first) ⊎ (base ≡ clock_time_none) ⊎ Mem base told

IsOfHost-cons :
    {first base : ℕ} {told : List ℕ} (newest : ℕ)
    → IsOfHost first told base
    → IsOfHost first (newest ∷ told) base
IsOfHost-cons newest (inl same) = inl same
IsOfHost-cons newest (inr (inl cleared)) = inr (inl cleared)
IsOfHost-cons newest (inr (inr i)) = inr (inr (mem-cons_of_mem newest i))

module _ (host guest : Env) (one_format : guest.fpu ≡ host.fpu)
    (base_fits : (t : Trace) → host.base_time t < 2 ^ 64)
    (printed : (d : Double) → (r : Double) × IsPrinted host.fpu d r) where
  -- The base time that a message is read to carry.
  abbrev base_of : Bytes → ℕ
  base_of m = (parse guest.fpu m default_packet).1.base

  record Inv (k : Handle) (first : ℕ) (s : Session) : Type 0 where
    pub state_fits : IsInt s.host.self.state
    pub sent_told : (m : Bytes) → Mem m s.sent → Mem (base_of m) s.told
    pub waiting : (s.guest.self.derived.base_time ≡ 0) ⊎ Mem s.guest.self.derived.base_time s.told
    pub given : IsOfHost first s.told (last_base k s.guest.trace)

  heartbeat_lem :
      (s : Sys PlayerServer) (h : Handle)
      → s.self.pipeline ≡ some h
      → IsInt s.self.state
      → base_of (serialize host.fpu (heartbeat_packet host h s).0) ≡ told_now host h s
  heartbeat_lem s h e fits =
      let packet = (heartbeat_packet host h s).0 in
      let asked = g_object_get_volume h ∷ gst_element_query_position h ∷ s.trace in
      let (t, time) = printed packet.time in
      let (v, volume) = printed packet.volume in
      let writable : IsWritable guest.fpu packet = rw one_format (
        heartbeat_packet-IsWritable host s h e fits
          (base_fits (gst_element_get_base_time h ∷ asked)) time.clean volume.clean) in
      let read =
        parse-serialize guest.fpu packet default_packet {t = t} {v = v} writable
          (rw one_format time.reads) (rw one_format volume.reads) in
      let told : base_of (serialize guest.fpu packet)
          ≡ host.base_time (gst_element_get_base_time h ∷ asked) =
        ap (λ (r : Bool × Packet). r.1.base) read ∙ (packet_describes host s h [] e).3 in
      subst (λ (f : Fpu). base_of (serialize f packet) ≡ told_now host h s) one_format told

  dispatch_keeps_state :
      (s : Sys PlayerServer) → (dispatch_heartbeat host s).1.self.state ≡ s.self.state
  unfolding dispatch_heartbeat heartbeat_packet get_time get_volume get_mute get_state
  dispatch_keeps_state s = ground arith

  Step-Inv :
      (k : Handle) (first : ℕ) {s t : Session} → Step host guest s t → Inv k first s → Inv k first t
  Step-Inv k first {s} (beats h e) v = record {
    state_fits = rw (dispatch_keeps_state s.host) v.state_fits;
    sent_told = λ m i.
        Or.elim (hlevel) (eq-or-mem_of_mem-cons i)
          (λ newest. rw (newest, heartbeat_lem s.host h e v.state_fits) mem-cons_self)
          (λ older. mem-cons_of_mem (told_now host h s.host) (v.sent_told m older));
    waiting = elim v.waiting [
      | inl none ↦ inl none
      | inr i ↦ inr (mem-cons_of_mem (told_now host h s.host) i)
    ];
    given = IsOfHost-cons (told_now host h s.host) v.given;
  }
  Step-Inv k first (moves t fits) v = record {
    state_fits = fits;
    sent_told = v.sent_told;
    waiting = v.waiting;
    given = v.given;
  }
  Step-Inv k first {s} (receives m i) v = elim (on_message-lem guest k m s.guest) [
    | inl same ↦ record {
      state_fits = v.state_fits;
      sent_told = v.sent_told;
      waiting = rw same v.waiting;
      given = rw same v.given;
    }
    | inr (accepted, (which, kept)) ↦ record {
      state_fits = v.state_fits;
      sent_told = v.sent_told;
      waiting = elim which [
        | inl before ↦ rw before v.waiting
        | inr carried ↦ inr (rw carried (v.sent_told m i))
      ];
      given = rw kept v.given;
    }
  ]
  Step-Inv k first {s} (advances h e) v =
      let (waits, given) = advance_base-lem guest k h s.guest in
      record {
        state_fits = v.state_fits;
        sent_told = v.sent_told;
        waiting = elim waits [ inl before ↦ rw before v.waiting | inr taken ↦ inl taken ];
        given = elim given [
          | inl before ↦ rw before v.given
          | inr (inl cleared) ↦ inr (inl cleared)
          | inr (inr (some_waits, waited)) ↦ elim v.waiting [
            | inl none_waits ↦ absurd (ground arith)
            | inr told ↦ inr (inr (rw waited told))
          ]
        ];
      }
  Step-Inv k first {s} (hears m) v =
      let kept = handle_message-Kept guest k m s.guest in
      record {
        state_fits = v.state_fits;
        sent_told = v.sent_told;
        waiting = rw kept.0 v.waiting;
        given = rw kept.1 v.given;
      }

  Reach-Inv :
      (k : Handle) (first : ℕ) {s t : Session}
      → Reach host guest s t
      → Inv k first s
      → Inv k first t
  Reach-Inv k first start v = v
  Reach-Inv k first (later r e) v = Step-Inv k first e (Reach-Inv k first r v)

  -- Whatever order a server's heartbeats, a client's updates and the messages of its pipeline
  -- come in, and however the network loses, repeats and reorders, a base time that waits in the
  -- client is 0 or one that the server's pipeline told for a heartbeat of the run, and the base
  -- time that the client's pipeline was given last is the one at the start, GST_CLOCK_TIME_NONE,
  -- or one that the server's pipeline told for a heartbeat of the run; the recorded ones stand
  -- before those recorded at the start. At the start nothing was sent and none waits; the server
  -- may do anything in between, with a state that is a value of `int`; both machines print and
  -- read doubles alike, and a printed double holds no separator and can be read; base times are
  -- below 2^64.
  pub bases_come_from_host :
      (k : Handle) {s t : Session}
      → Reach host guest s t
      → s.sent ≡ []
      → s.guest.self.derived.base_time ≡ 0
      → IsInt s.host.self.state
      → ((t.guest.self.derived.base_time ≡ 0) ⊎ Mem t.guest.self.derived.base_time t.told)
        × IsOfHost (last_base k s.guest.trace) t.told (last_base k t.guest.trace)
  bases_come_from_host k {s} r e none_waits fits =
      let at_start : Inv k (last_base k s.guest.trace) s = record {
        state_fits = fits;
        sent_told = λ m i. absurd (not-mem-nil (rw e at i));
        waiting = inl none_waits;
        given = inl refl;
      } in
      let v = Reach-Inv k (last_base k s.guest.trace) r at_start in (v.waiting, v.given)
