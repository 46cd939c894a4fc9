-- ===== src/Discoverer/Resources.antt =====
-- What `Discoverer::open` gives back of what GStreamer made for it.
use nsvr.Prelude.{
  ℕ, ◌+◌, ◌≡◌, refl, ◌∙◌, Bool, true, false, Option, none, some, List, [], ◌∷◌, Bytes, is_some,
  arith, Bool-cases, Option-cases, inl, inr,
}
use nsvr.Env.{
  Env, Call, Trace, MediaInfo, StreamInfo, gst_discoverer_new, gst_discoverer_discover_uri,
  gst_discoverer_info_unref, gst_discoverer_info_read, nsvr_log, g_object_unref, g_error_free,
}
use nsvr.Env.Monad.{Sys}
use nsvr.Env.Count.{one_if, count, count_answered, delivered, is_sample_unref}
use nsvr.Internal.System.{gstreamer_initialized, path_to_uri}
use nsvr.Discoverer.{
  Discoverer, fresh, reset, read_info, video_part, audio_part, or_no_info, discover, discover_with,
  open_media,
}

abbrev is_info_unref : Call → Bool
is_info_unref gst_discoverer_info_unref = true
is_info_unref _ = false

abbrev is_discovery : Call → Bool
is_discovery (gst_discoverer_discover_uri _) = true
is_discovery _ = false

abbrev is_object_unref : Call → Bool
is_object_unref (g_object_unref _) = true
is_object_unref _ = false

abbrev is_discoverer_new : Call → Bool
is_discoverer_new gst_discoverer_new = true
is_discoverer_new _ = false

module _ (env : Env) where
  -- The descriptions of media and the discoverers that GStreamer made.
  abbrev pub infos_made : Trace → ℕ
  infos_made = count_answered is_discovery (λ t. is_some (env.discover_uri t))

  abbrev pub discoverers_made : Trace → ℕ
  discoverers_made = count_answered is_discoverer_new (λ t. is_some (env.discoverer_new t))

  -- All that was made between two traces was given back between them.
  abbrev pub Settled : Trace → Trace → Type 0
  Settled s t =
      (count is_info_unref t + infos_made s ≡ count is_info_unref s + infos_made t)
      × (count is_object_unref t + discoverers_made s
          ≡ count is_object_unref s + discoverers_made t)

  -- No samples were pulled from a sink or given back.
  abbrev pub SameSamples : Trace → Trace → Type 0
  SameSamples s t =
      (delivered env t ≡ delivered env s) × (count is_sample_unref t ≡ count is_sample_unref s)

  abbrev Quiet : Trace → Trace → Type 0
  Quiet s t =
      SameSamples s t
      × (count is_info_unref t ≡ count is_info_unref s)
      × (infos_made t ≡ infos_made s)
      × (count is_object_unref t ≡ count is_object_unref s)
      × (discoverers_made t ≡ discoverers_made s)

  video_part-Quiet :
      (xs : List StreamInfo) (s : Sys Discoverer) → Quiet s.trace (video_part env xs s).1.trace
  unfolding video_part
  video_part-Quiet [] s = ground arith
  video_part-Quiet (x ∷ xs) s = ground arith

  audio_part-Quiet :
      (xs : List StreamInfo) (s : Sys Discoverer) → Quiet s.trace (audio_part env xs s).1.trace
  unfolding audio_part
  audio_part-Quiet [] s = ground arith
  audio_part-Quiet (x ∷ xs) s = ground arith

  read_info-Quiet :
      (info : MediaInfo) (s : Sys Discoverer) → Quiet s.trace (read_info env info s).1.trace
  unfolding read_info
  read_info-Quiet info s = elim (Bool-cases info.is_ok) [
    | inr bad ↦ rw bad (ground arith)
    | inl ok ↦
        let v = video_part-Quiet info.video_streams s in
        let a = audio_part-Quiet info.audio_streams (video_part env info.video_streams s).1 in
        rw ok ((a.0.0 ∙ v.0.0, a.0.1 ∙ v.0.1), a.1 ∙ v.1, a.2 ∙ v.2, a.3 ∙ v.3, a.4 ∙ v.4)
  ]

  -- A description is given back, if there is one.
  or_no_info-lem :
      (set : Bool) (o : Option MediaInfo) (s : Sys Discoverer)
      → let t = (or_no_info env set o s).1.trace in
        (count is_info_unref t ≡ count is_info_unref s.trace + one_if (is_some o))
        × (infos_made t ≡ infos_made s.trace)
        × (count is_object_unref t ≡ count is_object_unref s.trace)
        × (discoverers_made t ≡ discoverers_made s.trace)
        × SameSamples s.trace t
  unfolding or_no_info
  or_no_info-lem true none s = ground arith
  or_no_info-lem false none s = ground arith
  or_no_info-lem set (some info) s =
      let s1 : Sys Discoverer = record s { trace = gst_discoverer_info_read ∷ s.trace } in
      ground (arith, read_info-Quiet info s1)

  discover_lem :
      (s : Sys Discoverer)
      → let t = (discover env s).1.trace in Settled s.trace t × SameSamples s.trace t
  discover_lem s =
      let t = gst_discoverer_new ∷ nsvr_log ∷ s.trace in
      elim (Option-cases (env.discoverer_new t)) [
        | inl e ↦ unfold discover in ground arith
        | inr (k, e) ↦
            let t' = gst_discoverer_discover_uri s.self.media_uri ∷ t in
            let s' : Sys Discoverer = record s { trace = t' } in
            let set = env.discoverer_error t' in
            let r = or_no_info env set (env.discover_uri t') s' in
            let run : (discover env s).1.trace ≡ g_error_free set ∷ g_object_unref k ∷ r.1.trace =
              unfold discover discover_with in rw e refl in
            ground (arith, run, e, or_no_info-lem set (env.discover_uri t') s')
      ]

  pub gstreamer_initialized-Quiet :
      {A : Type 0} (s : Sys A) → Quiet s.trace (gstreamer_initialized env s).1.trace
  unfolding gstreamer_initialized
  gstreamer_initialized-Quiet s = ground arith

  path_to_uri-Quiet :
      (path : Bytes) (s : Sys Discoverer) → Quiet s.trace (path_to_uri env path s).1.trace
  unfolding path_to_uri
  path_to_uri-Quiet path s = ground arith

  open_media_lem :
      (path : Bytes) (s : Sys Discoverer)
      → let t = (open_media env path s).1.trace in Settled s.trace t × SameSamples s.trace t
  unfolding open_media reset
  open_media_lem path s =
      let s0 : Sys Discoverer = record s { self = fresh } in
      let s1 = (gstreamer_initialized env s0).1 in
      let (uri, s2) = path_to_uri env path s1 in
      let ready = gstreamer_initialized-Quiet s0 in
      let named = path_to_uri-Quiet path s1 in
      let found = discover_lem (record s2 { self = record s2.self { media_uri = uri } }) in
      ground (arith, ready, named, found)

  -- Discoverer::open gives back what was made for it: on every branch, the descriptions of media
  -- that were unreferenced are as many as were handed out, and the objects that were unreferenced
  -- as many as the discoverers that were made.
  pub open_media-Settled :
      (path : Bytes) (s : Sys Discoverer) → Settled s.trace (open_media env path s).1.trace
  open_media-Settled path s = (open_media_lem path s).0

  pub open_media-SameSamples :
      (path : Bytes) (s : Sys Discoverer) → SameSamples s.trace (open_media env path s).1.trace
  open_media-SameSamples path s = (open_media_lem path s).1
