-- ===== src/Player/Opening/Outcome.antt =====
-- All that a call of `open` can come to.
use nsvr.Prelude.{◌≡◌, refl, Bool, true, false, none, Bytes, is_empty, Bool-cases, inl, inr}
use nsvr.Prelude.Int.{ℤ}
use nsvr.Env.{Env}
use nsvr.Env.Monad.{Sys}
use nsvr.Internal.System.{gstreamer_initialized, self-gstreamer_initialized}
use nsvr.Discoverer.{Discoverer}
use nsvr.Player.Object.{Player, Hooks}
use nsvr.Player.Opening.{discover_locally, open_media}
use nsvr.Player.Opening.Laws.{
  Steady, Opened, opens, reopened, reopened-pipeline, open_media-Opened, open_true_undiscovered,
}

-- By whether GStreamer is initialized, the path is empty, the media was discovered, and it opens.
abbrev pub Outcome :
    {X : Type 0}
    → Env
    → Hooks X
    → Bool
    → Bool
    → Bool
    → Bool
    → Discoverer
    → Sys (Player X)
    → Bool × Sys (Player X)
    → Type 0
Outcome env hooks false unnamed found ok d s o = (o.0 ≡ false) × (o.1.self ≡ s.self)
Outcome env hooks true true found ok d s o = (o.0 ≡ false) × (o.1.self.pipeline ≡ none)
Outcome env hooks true false false ok d s o = (o.0 ≡ true) × (o.1.self.pipeline ≡ none)
Outcome env hooks true false true ok d s o = Opened env hooks d ok o

module _ {X : Type 0} (env : Env) (hooks : Hooks X) where
  uninitialized :
      (path : Bytes) (width height : ℤ) (fmt : Bytes) (s : Sys (Player X))
      → (gstreamer_initialized env s).0 ≡ false
      → let o = open_media env hooks path width height fmt s in (o.0 ≡ false) × (o.1.self ≡ s.self)
  unfolding open_media
  uninitialized path width height fmt s e = rw e (refl, self-gstreamer_initialized env s)

  unnamed_path :
      (path : Bytes) (width height : ℤ) (fmt : Bytes) (s : Sys (Player X))
      → Steady hooks
      → (gstreamer_initialized env s).0 ≡ true
      → is_empty path ≡ true
      → let o = open_media env hooks path width height fmt s in
        (o.0 ≡ false) × (o.1.self.pipeline ≡ none)
  unfolding open_media
  unnamed_path path width height fmt s steady e n =
      rw (e, n) (refl, reopened-pipeline env hooks steady s)

  -- All that open can come to: if GStreamer cannot be initialized it returns false and leaves the
  -- player as it is; on an empty path it returns false and holds no pipeline; if the media cannot
  -- be discovered it returns true and holds none; otherwise it returns true just if the media has
  -- video or audio, the command makes a pipeline that has a bus, a film has its sink, and the
  -- pipeline comes to READY and then to PAUSED, and holds the pipeline, its bus and the
  -- discovered duration if so and no pipeline if not. The overrides leave the pipeline and the
  -- bus alone.
  pub open_media-Outcome :
      (path : Bytes) (width height : ℤ) (fmt : Bytes) (s : Sys (Player X))
      → Steady hooks
      → let ((found, d), u) = discover_locally env path (reopened env hooks s) in
        Outcome env hooks
          (gstreamer_initialized env s).0
          (is_empty path)
          found
          (opens env hooks d width height fmt u)
          d
          s
          (open_media env hooks path width height fmt s)
  open_media-Outcome path width height fmt s steady =
      let found = (discover_locally env path (reopened env hooks s)).0.0 in
      elim (Bool-cases (gstreamer_initialized env s).0) [
        | inr off ↦ rw off (uninitialized path width height fmt s off)
        | inl on ↦ elim (Bool-cases (is_empty path)) [
          | inl n ↦ rw (on, n) (unnamed_path path width height fmt s steady on n)
          | inr n ↦ elim (Bool-cases found) [
            | inl f ↦
                rw (on, n, f) (open_media-Opened env hooks path width height fmt s steady on n f)
            | inr f ↦
                rw (on, n, f)
                  (open_true_undiscovered env hooks path width height fmt s steady on n f)
          ]
        ]
      ]
