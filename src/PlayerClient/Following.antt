-- ===== src/PlayerClient/Following.antt =====
-- A client of PlayerClient comes to follow its server in two calls of `update`.
use nsvr.Prelude.{
  ◌<◌, ◌≡◌, refl, ap, sym, ◌∙◌, true, false, Option, some, List, ◌∷◌, arith, ◌==◌, is_some,
  if◌then◌else◌, Option-cases, inl, inr,
}
use nsvr.Prelude.Int.{◌==ℤ◌}
use nsvr.Env.{
  Env, Handle, Trace, GstState, g_main_context_pending, state_ready, gst_element_set_state,
  gst_element_get_base_time,
}
use nsvr.Env.Monad.{Sys}
use nsvr.Packet.{Packet}
use nsvr.Player.Control.{query_state}
use nsvr.Player.Update.{update}
use nsvr.Player.Update.Messages.{state_requests}
use nsvr.PlayerClient.{PlayerClient, ClientPart, hooks, follow, follow_base, advance_base}
use nsvr.PlayerClient.Messages.{sound_followed}
use nsvr.PlayerClient.Sync.{base_to_ready, base_from_ready, clock_asked, clock_used}
use nsvr.PlayerClient.Convergence.{Cooperates, Over, sound-Unmoved, next_heartbeat}
use nsvr.Player.Update.Answers.{last_base, Hears, after, ends_ready, update_lem}
use nsvr.PlayerClient.Updates.{looked, before_lem, Stays, after-Stays}
use nsvr.PlayerClient.Waiting.{Idle, new_base_lem}

-- Two updates.
abbrev pub twice : Env → Sys PlayerClient → Sys PlayerClient
twice env s = (update env (hooks env) (update env (hooks env) s).1).1

module _ (env : Env) (h : Handle) (c : Cooperates env h)
    (silent : (context : Option Handle) (t : Trace)
      → env.context_pending (g_main_context_pending context ∷ t) ≡ false) where
  -- The player behind its request for READY.
  abbrev asked_ready : Sys PlayerClient → Sys PlayerClient
  asked_ready s = record s { trace = gst_element_set_state (some h) state_ready ∷ (looked s).trace }

  -- The first update requests READY and hears its messages.
  first_update :
      (s : Sys PlayerClient) (r : Hears env (hooks env) false s)
      → Idle h s
      → s.self.derived.base_time == 0 ≡ false
      → ends_ready h r.messages false ≡ true
      → Stays h (asked_ready s) true (update env (hooks env) s).1
  first_update s r i waits came =
      let t = asked_ready s in
      let asked : (advance_base env h (looked s)).1 ≡ t =
        base_to_ready env h (looked s) waits i.elsewhere (c.accepts t.trace) in
      let some_rounds : 0 < env.rounds = omega (arith, r.fewer) in
      let before = before_lem env silent some_rounds h s i.pipeline ∙ asked in
      let stays : Stays h t true (after env (hooks env) r.messages t) =
        rw⁻¹ came (after-Stays env h t r.messages i.pipeline r.calm) in
      let run =
        update_lem env (hooks env) s t r.messages before r.hands r.fewer i.bus
          (stays.dirty ∙ i.clean) in
      rw run stays

  -- The player behind the start on a new clock.
  abbrev clocked : Handle → Sys PlayerClient → Sys PlayerClient
  clocked k s = record {
    self = record s.self { derived = record s.self.derived { net_clock = some k; base_time = 0 } };
    saved_volume = s.saved_volume;
    trace = clock_used env h k s.self.derived.base_time (clock_asked env h s s.trace);
  }

  -- The second runs the pipeline on a new clock.
  second_update :
      (k : Handle) (s : Sys PlayerClient) (r : Hears env (hooks env) false s)
      → s.self.pipeline ≡ some h
      → is_some s.self.gst_bus ≡ true
      → s.self.buffer_dirty ≡ false
      → s.self.derived.base_time == 0 ≡ false
      → s.self.state ≡ state_ready
      → let u = looked s in
        env.net_client_clock (clock_asked env h u u.trace) ≡ some k
        → Stays h (clocked k u) (ends_ready h r.messages false) (update env (hooks env) s).1
  second_update k s r e bus clean waits ready made =
      let u = looked s in
      let t = clocked k u in
      let used : (advance_base env h u).1 ≡ t = base_from_ready env h k u e waits ready made in
      let some_rounds : 0 < env.rounds = omega (arith, r.fewer) in
      let before = before_lem env silent some_rounds h s e ∙ used in
      let stays = after-Stays env h t r.messages e r.calm in
      let run =
        update_lem env (hooks env) s t r.messages before r.hands r.fewer bus
          (stays.dirty ∙ clean) in
      rw run stays

  pub twice-Over :
      (s : Sys PlayerClient) (first : Hears env (hooks env) false s)
      → Hears env (hooks env) false (update env (hooks env) s).1
      → Idle h s
      → s.self.derived.base_time == 0 ≡ false
      → ends_ready h first.messages false ≡ true
      → Over env h s (twice env s)
  twice-Over s first second i waits came =
      let s2 = (update env (hooks env) s).1 in
      let p = first_update s first i waits came in
      let asked = clock_asked env h (looked s2) (looked s2).trace in
      elim (Option-cases (env.net_client_clock asked)) [
        | inl none_made ↦ absurd (ground (arith, c.makes asked))
        | inr (k, made) ↦
            let pipeline = p.pipeline ∙ i.pipeline in
            let q =
              second_update k s2 second pipeline (rw p.bus i.bus) (p.dirty ∙ i.clean)
                (rw p.derived waits) (p.ready refl) made in
            let base : last_base h (clocked k (looked s2)).trace ≡ s2.self.derived.base_time =
              ground arith in
            let requests : state_requests (clocked k (looked s2)).trace ≡ state_requests s2.trace =
              ground arith in
            let asked_once : state_requests (asked_ready s).trace
                ≡ state_ready ∷ state_requests s.trace =
              ground arith in
            (
              rw q.derived refl,
              rw q.derived refl,
              q.pipeline ∙ pipeline,
              q.base ∙ base ∙ ap (λ (d : ClientPart). d.base_time) p.derived,
              q.requests ∙ requests ∙ p.requests ∙ asked_once,
              ap (λ (d : ClientPart). d.client) q.derived
                  ∙ ap (λ (d : ClientPart). d.client) p.derived,
            )
      ]

  -- A client comes to follow its server: a heartbeat with a base time other than 0 and other than
  -- that of the pipeline, and two calls of update, leave a network clock and the pipeline at that
  -- base time; the next heartbeat with the same base time then requests its state, once, unless
  -- the queried state is that one, and in all of it no other state was requested but READY. The
  -- client has a pipeline that is not READY and a bus, and no frame is left in it. The bus hands
  -- any messages in the updates, of the pipeline and of its elements, fewer than the rounds that
  -- a loop is followed for, and no end of the stream; in the first update the last one on the
  -- state of the pipeline says that it is in READY. Nothing comes from the network during the
  -- updates; the pipeline tells the base time that it was given last and fails no request for a
  -- state, and network clocks can be made.
  pub client_converges :
      (p q : Packet) (s : Sys PlayerClient)
      → s.self.pipeline ≡ some h
      → is_some s.self.gst_bus ≡ true
      → s.self.buffer_dirty ≡ false
      → s.self.state ==ℤ state_ready ≡ false
      → p.base == 0 ≡ false
      → last_base h s.trace == p.base ≡ false
      → q.base ≡ p.base
      → (first : Hears env (hooks env) false (follow env p s).1)
      → ends_ready h first.messages false ≡ true
      → Hears env (hooks env) false (update env (hooks env) (follow env p s).1).1
      → let t = twice env (follow env p s).1 in
        let u = (follow env q t).1 in
        let asked = (query_state env (follow_base env q.base (sound_followed env q t)).1).0 in
        let before = state_ready ∷ state_requests s.trace in
        (is_some t.self.derived.net_clock ≡ true)
        × (last_base h t.trace ≡ p.base)
        × (u.self.derived.base_time ≡ 0)
        × (state_requests u.trace ≡ (if asked ==ℤ q.state then before else q.state ∷ before))
  client_converges p q s e bus clean elsewhere set new same first came second =
      let s1 = (follow env p s).1 in
      let sound = sound_followed env p s in
      let is_new : env.base_time (gst_element_get_base_time h ∷ sound.trace) == p.base ≡ false =
        rw (c.tells sound.trace, (sound-Unmoved env h p s).2) new in
      let idle : Idle h s = record {
        pipeline = e;
        bus = bus;
        clean = clean;
        elsewhere = elsewhere;
      } in
      let (held, waits, base, requests, _) = new_base_lem env p s h idle set is_new in
      let over = twice-Over s1 first second held (rw waits set) came in
      let t = twice env s1 in
      let next = next_heartbeat env q s1 t h c over (same ∙ sym waits) in
      let asked = (query_state env (follow_base env q.base (sound_followed env q t)).1).0 in
      let before : List GstState → List GstState =
        λ r. if asked ==ℤ q.state then state_ready ∷ r else q.state ∷ state_ready ∷ r in
      (over.0, over.3 ∙ waits, next.0, next.1 ∙ ap before requests)
