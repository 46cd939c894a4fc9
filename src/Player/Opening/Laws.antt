-- ===== src/Player/Opening/Laws.antt =====
-- What the result of `open` says of the player.
use nsvr.Prelude.{
  ◌≡◌, refl, ◌∷◌, ◌∙◌, Bool, true, false, Option, none, some, Bytes, is_empty, is_some, arith,
  if◌then◌else◌, ◌&&◌, ◌||◌, not, Bool-cases, Option-cases, inl, inr,
}
use nsvr.Prelude.Int.{ℤ, ◌==ℤ◌}
use nsvr.Env.{
  Env, Handle, gst_parse_launch, gst_pipeline_get_bus, g_object_get_video_sink, g_error_free,
  GstState, state_ready, state_paused, is_success, is_failure, gst_element_set_state,
  gst_element_get_state, g_object_unref, gst_app_sink_set_callbacks,
}
use nsvr.Env.Monad.{Sys}
use nsvr.Internal.System.{gstreamer_initialized}
use nsvr.Discoverer.{Discoverer}
use nsvr.Player.Object.{Player, Hooks}
use nsvr.Player.Control.{close}
use nsvr.Player.Control.Laws.{self-close}
use nsvr.Player.Opening.{
  video_command, audio_command, discover_locally, reach, give_up, give_up_error, attach_sink,
  start_up, launched, launch, launch_media, open_media,
}

abbrev pub is_found : Option GstState → GstState → Bool
is_found none target = false
is_found (some state) target = state ==ℤ target

-- The overrides that `open` calls leave the pipeline and the bus alone.
pub record Steady {X : Type 0} (hooks : Hooks X) : Type 0 where
  pub before_open :
      (s : Sys (Player X)) → (hooks.on_before_open s).1.self.pipeline ≡ s.self.pipeline
  pub clock_pipeline :
      (s : Sys (Player X)) → (hooks.setup_clock s).1.self.pipeline ≡ s.self.pipeline
  pub clock_bus : (s : Sys (Player X)) → (hooks.setup_clock s).1.self.gst_bus ≡ s.self.gst_bus

module _ {X : Type 0} (env : Env) (hooks : Hooks X) where
  close-pipeline : (s : Sys (Player X)) → (close env hooks s).1.self.pipeline ≡ none
  close-pipeline s = rw (self-close env hooks s)

  -- The state in which `open` looks at the media file.
  abbrev pub reopened : Sys (Player X) → Sys (Player X)
  reopened s = (hooks.on_before_open (close env hooks (gstreamer_initialized env s).1).1).1

  pub reopened-pipeline : Steady hooks → (s : Sys (Player X)) → (reopened s).self.pipeline ≡ none
  reopened-pipeline steady s = rw (steady.before_open, close-pipeline)

  give_up_lem :
      (s : Sys (Player X))
      → ((give_up env hooks s).0 ≡ false) × ((give_up env hooks s).1.self.pipeline ≡ none)
  unfolding give_up
  give_up_lem s = (refl, close-pipeline s)

  give_up_error_lem :
      (set : Bool) (s : Sys (Player X))
      → ((give_up_error env hooks set s).0 ≡ false)
        × ((give_up_error env hooks set s).1.self.pipeline ≡ none)
  unfolding give_up_error
  give_up_error_lem true s = (refl, close-pipeline s)
  give_up_error_lem false s = (refl, close-pipeline s)

  reach_keeps : (target : GstState) (s : Sys (Player X)) → (reach env target s).1.self ≡ s.self
  unfolding reach
  reach_keeps target s = ground arith

  -- Whether the pipeline is in a state: it comes there at once, or it is waited for, the wait does not
  -- fail, and that state is found; and the player behind that.
  pub comes : GstState → Sys (Player X) → Bool
  comes target s =
      let asked = gst_element_set_state s.self.pipeline target ∷ s.trace in
      let waited = gst_element_get_state s.self.pipeline ∷ asked in
      is_success (env.set_state asked)
      || (not (is_failure (env.get_state waited)) && is_found (env.get_state_written waited) target)

  pub behind : GstState → Sys (Player X) → Sys (Player X)
  behind target s =
      let asked = gst_element_set_state s.self.pipeline target ∷ s.trace in
      record s {
        trace =
            if is_success (env.set_state asked)
            then asked
            else gst_element_get_state s.self.pipeline ∷ asked;
      }

  -- Whether a pipeline with its sink comes to READY and then to PAUSED on its clock.
  pub starts : Sys (Player X) → Bool
  unfolding comes behind
  starts s =
      let clocked = (hooks.setup_clock s).1 in
      comes state_ready clocked && comes state_paused (behind state_ready clocked)

  -- Whether a film has a sink; what has no video needs none.
  pub shows : Bool → Handle → Sys (Player X) → Bool
  unfolding starts
  shows false h s = starts s
  shows true h s = elim (env.video_sink (g_object_get_video_sink h ∷ s.trace)) [
    | none ↦ false
    | some k ↦ starts (record s {
      trace = g_object_unref k ∷ gst_app_sink_set_callbacks k ∷ g_object_get_video_sink h ∷ s.trace;
    })
  ]

  -- Whether a command makes a pipeline that has a bus, and a sink, and starts.
  pub launches : Discoverer → Bytes → Sys (Player X) → Bool
  unfolding shows
  launches d command s = elim (env.parse_launch (gst_parse_launch command ∷ s.trace)) [
    | none ↦ false
    | some h ↦
        elim (env.pipeline_bus (gst_pipeline_get_bus h ∷ gst_parse_launch command ∷ s.trace)) [
          | none ↦ false
          | some b ↦ shows d.has_video h (record s {
            self = record s.self { pipeline = some h; gst_bus = some b };
            trace = gst_pipeline_get_bus h ∷ gst_parse_launch command ∷ s.trace;
          })
        ]
  ]

  -- Whether a discovered media opens: it has video or audio, and its command launches.
  pub opens : Discoverer → ℤ → ℤ → Bytes → Sys (Player X) → Bool
  unfolding launches
  opens d width height fmt s =
      if d.has_video
      then launches d (video_command d.media_uri width height fmt) s
      else if d.has_audio
      then launches d (audio_command d.media_uri) s
      else false

  -- It failed and holds no pipeline, or succeeded with a pipeline, its bus, and the duration.
  abbrev pub Opened : Discoverer → Bool → Bool × Sys (Player X) → Type 0
  Opened d false o = (o.0 ≡ false) × (o.1.self.pipeline ≡ none)
  Opened d true o =
      (o.0 ≡ true)
      × (is_some o.1.self.pipeline ≡ true)
      × (is_some o.1.self.gst_bus ≡ true)
      × (o.1.self.duration ≡ d.duration)

  -- The free of the error behind it changes nothing.
  freed :
      (d : Discoverer) (ok set : Bool) (o : Bool × Sys (Player X))
      → Opened d ok o
      → Opened d ok (o.0, record o.1 { trace = g_error_free set ∷ o.1.trace })
  freed d true set o e = e
  freed d false set o e = e

  reach_lem :
      (target : GstState) (s : Sys (Player X))
      → reach env target s ≡ (comes target s, behind target s)
  unfolding reach comes behind
  reach_lem target s =
      elim (Bool-cases
        (is_success (env.set_state (gst_element_set_state s.self.pipeline target ∷ s.trace)))) [
          | inl e ↦ rw e refl
          | inr e ↦ rw e refl
        ]

  self-behind : (target : GstState) (s : Sys (Player X)) → (behind target s).self ≡ s.self
  unfolding behind
  self-behind target s = refl

  start_up-Opened :
      (d : Discoverer) (s : Sys (Player X))
      → Steady hooks
      → is_some s.self.pipeline ≡ true
      → is_some s.self.gst_bus ≡ true
      → Opened d (starts s) (start_up env hooks d s)
  start_up-Opened d s steady p b =
      let s1 = (hooks.setup_clock s).1 in
      let s2 = behind state_ready s1 in
      let s3 = behind state_paused s2 in
      let kept : s3.self ≡ s1.self = self-behind state_paused s2 ∙ self-behind state_ready s1 in
      elim (Bool-cases (comes state_ready s1)) [
        | inr e ↦ unfold start_up starts in rw (reach_lem state_ready s1, e) (give_up_lem s2)
        | inl e ↦ elim (Bool-cases (comes state_paused s2)) [
          | inr e' ↦
              unfold start_up starts in
              rw (reach_lem state_ready s1, e, reach_lem state_paused s2, e') (give_up_lem s3)
          | inl e' ↦
              unfold start_up starts in
              rw
                (
                  reach_lem state_ready s1,
                  e,
                  reach_lem state_paused s2,
                  e',
                  kept,
                  steady.clock_pipeline s,
                  steady.clock_bus s,
                )
                (refl, p, b, refl)
        ]
      ]

  -- `open` from the sink on.
  abbrev shown : Handle → Discoverer → Sys (Player X) → Bool × Sys (Player X)
  shown h d s =
      let (attached, u) = attach_sink env hooks h d s in
      if attached then start_up env hooks d u else (false, u)

  shown-Opened :
      (h : Handle) (d : Discoverer) (s : Sys (Player X))
      → Steady hooks
      → is_some s.self.pipeline ≡ true
      → is_some s.self.gst_bus ≡ true
      → Opened d (shows d.has_video h s) (shown h d s)
  shown-Opened h d s steady p b = elim (Bool-cases d.has_video) [
    | inr e ↦
        let spec : shows d.has_video h s ≡ starts s = unfold shows in rw e refl in
        let run : shown h d s ≡ start_up env hooks d s = unfold attach_sink in rw e refl in
        rw (spec, run) (start_up-Opened d s steady p b)
    | inl e ↦
        let t = g_object_get_video_sink h ∷ s.trace in
        let s1 : Sys (Player X) = record s { trace = t } in
        elim (Option-cases (env.video_sink t)) [
          | inl n ↦
              let spec : shows d.has_video h s ≡ false = unfold shows in rw (e, n, shows) refl in
              let run : shown h d s ≡ (false, (give_up env hooks s1).1) =
                unfold attach_sink give_up in rw (e, n) refl in
              rw (spec, run) (refl, (give_up_lem s1).1)
          | inr (k, n) ↦
              let u : Sys (Player X) = record s {
                trace = g_object_unref k ∷ gst_app_sink_set_callbacks k ∷ t;
              } in
              let spec : shows d.has_video h s ≡ starts u = unfold shows in rw (e, n, shows) refl in
              let run : shown h d s ≡ start_up env hooks d u =
                unfold attach_sink in rw (e, n) refl in
              rw (spec, run) (start_up-Opened d u steady p b)
        ]
  ]

  launch-Opened :
      (d : Discoverer) (command : Bytes) (s : Sys (Player X))
      → Steady hooks
      → Opened d (launches d command s) (launch env hooks d command s)
  launch-Opened d command s steady =
      let t = gst_parse_launch command ∷ s.trace in
      let set = env.parse_error t in
      elim (Option-cases (env.parse_launch t)) [
        | inl n ↦
            let u : Sys (Player X) = record s {
              self = record s.self { pipeline = none };
              trace = t;
            } in
            let spec : launches d command s ≡ false = unfold launches in rw (n, launches) refl in
            rw spec (unfold launch launched in rw n (give_up_error_lem set u))
        | inr (h, n) ↦
            let u = gst_pipeline_get_bus h ∷ t in
            elim (Option-cases (env.pipeline_bus u)) [
              | inl m ↦
                  let v : Sys (Player X) = record s {
                    self = record s.self { pipeline = some h; gst_bus = none };
                    trace = u;
                  } in
                  let spec : launches d command s ≡ false =
                    unfold launches in rw (n, m, launches) refl in
                  rw spec (unfold launch launched in rw (n, m) (give_up_error_lem set v))
              | inr (b, m) ↦
                  let v : Sys (Player X) = record s {
                    self = record s.self { pipeline = some h; gst_bus = some b };
                    trace = u;
                  } in
                  let spec : launches d command s ≡ shows d.has_video h v =
                    unfold launches in rw (n, m, launches) refl in
                  let end = shown h d v in
                  let run : launch env hooks d command s
                      ≡ (end.0, record end.1 { trace = g_error_free set ∷ end.1.trace }) =
                    unfold launch launched in rw (n, m) (ground arith) in
                  rw (spec, run)
                    (freed d (shows d.has_video h v) set end (shown-Opened h d v steady refl refl))
            ]
      ]

  launch_media-Opened :
      (d : Discoverer) (width height : ℤ) (fmt : Bytes) (s : Sys (Player X))
      → Steady hooks
      → s.self.pipeline ≡ none
      → Opened d (opens d width height fmt s) (launch_media env hooks (true, d) width height fmt s)
  launch_media-Opened d width height fmt s steady e =
      let with_video = video_command d.media_uri width height fmt in
      let without = audio_command d.media_uri in
      elim (Bool-cases d.has_video) [
        | inl v ↦
            let run : launch_media env hooks (true, d) width height fmt s
                ≡ launch env hooks d with_video s =
              unfold launch_media in rw v refl in
            let spec : opens d width height fmt s ≡ launches d with_video s =
              unfold opens in rw v refl in
            rw (run, spec) (launch-Opened d with_video s steady)
        | inr v ↦ elim (Bool-cases d.has_audio) [
          | inl a ↦
              let run : launch_media env hooks (true, d) width height fmt s
                  ≡ launch env hooks d without s =
                unfold launch_media in rw (v, a) refl in
              let spec : opens d width height fmt s ≡ launches d without s =
                unfold opens in rw (v, a) refl in
              rw (run, spec) (launch-Opened d without s steady)
          | inr a ↦ unfold launch_media opens in rw (v, a) (refl, e)
        ]
      ]

  discovered-pipeline :
      (path : Bytes)
      → Steady hooks
      → (s : Sys (Player X)) → (discover_locally env path (reopened s)).1.self.pipeline ≡ none
  unfolding discover_locally
  discovered-pipeline path steady s = reopened-pipeline steady s

  launch_media-false :
      (found : Bool × Discoverer) (width height : ℤ) (fmt : Bytes) (s : Sys (Player X))
      → found.0 ≡ false
      → launch_media env hooks found width height fmt s
        ≡ (true, record s { trace = g_error_free false ∷ s.trace })
  unfolding launch_media
  launch_media-false (false, d) width height fmt s e = refl
  launch_media-false (true, d) width height fmt s e = cc

  launch_media-found :
      (found : Bool × Discoverer) (width height : ℤ) (fmt : Bytes) (s : Sys (Player X))
      → Steady hooks
      → s.self.pipeline ≡ none
      → found.0 ≡ true
      → Opened found.1
          (opens found.1 width height fmt s)
          (launch_media env hooks found width height fmt s)
  launch_media-found (true, d) width height fmt s steady p e =
      launch_media-Opened d width height fmt s steady p
  launch_media-found (false, d) width height fmt s steady p e = cc

  open_media_runs :
      (path : Bytes) (width height : ℤ) (fmt : Bytes) (s : Sys (Player X))
      → (gstreamer_initialized env s).0 ≡ true
      → is_empty path ≡ false
      → open_media env hooks path width height fmt s ≡ (
          let (found, u) = discover_locally env path (reopened s) in
          launch_media env hooks found width height fmt u)
  unfolding open_media
  open_media_runs path width height fmt s ready named = rw (ready, named)

  -- If GStreamer is initialized, the path is not empty and the file cannot be discovered, open
  -- returns true and holds no pipeline; for any overrides that leave the pipeline and the bus
  -- alone.
  pub open_true_undiscovered :
      (path : Bytes) (width height : ℤ) (fmt : Bytes) (s : Sys (Player X))
      → Steady hooks
      → (gstreamer_initialized env s).0 ≡ true
      → is_empty path ≡ false
      → (discover_locally env path (reopened s)).0.0 ≡ false
      → let (result, t) = open_media env hooks path width height fmt s in
        (result ≡ true) × (t.self.pipeline ≡ none)
  open_true_undiscovered path width height fmt s steady ready named fails =
      rw (open_media_runs path width height fmt s ready named) (
        rw
          (launch_media-false (discover_locally env path (reopened s)).0 width height fmt
            (discover_locally env path (reopened s)).1 fails)
          (refl, discovered-pipeline path steady s))

  -- If GStreamer is initialized, the path is not empty and the file is discovered, then open
  -- either returns false and holds no pipeline, or returns true and holds a pipeline, its bus and
  -- the discovered duration; on every error path, and for any overrides that leave the pipeline
  -- and the bus alone.
  pub open_media-Opened :
      (path : Bytes) (width height : ℤ) (fmt : Bytes) (s : Sys (Player X))
      → Steady hooks
      → (gstreamer_initialized env s).0 ≡ true
      → is_empty path ≡ false
      → (discover_locally env path (reopened s)).0.0 ≡ true
      → Opened
          (discover_locally env path (reopened s)).0.1
          (opens
            (discover_locally env path (reopened s)).0.1
            width
            height
            fmt
            (discover_locally env path (reopened s)).1)
          (open_media env hooks path width height fmt s)
  open_media-Opened path width height fmt s steady ready named found =
      rw (open_media_runs path width height fmt s ready named) (
        launch_media-found _ width height fmt (discover_locally env path (reopened s)).1 steady
          (discovered-pipeline path steady s) found)
