-- ===== src/Discoverer/Laws.antt =====
-- What `Discoverer::open` leaves in the object.
use nsvr.Prelude.{
  ℕ, ◌≡◌, refl, sym, subst, Bool, true, false, inl, inr, Option, none, some, List, [], ◌∷◌, Bytes,
  is_empty, not, arith, Bool-cases, Option-cases,
}
use nsvr.Prelude.Int.{ℤ, pos, to_int}
use nsvr.Env.{
  g_error_free, g_object_unref, gst_discoverer_discover_uri, gst_discoverer_new, nsvr_log, Env,
  MediaInfo, StreamInfo, video, audio, other_stream, Trace,
}
use nsvr.Env.Monad.{Sys}
use nsvr.Internal.System.{
  gstreamer_initialized, path_to_uri, self-gstreamer_initialized, self-path_to_uri,
}
use nsvr.Discoverer.{
  Discoverer, fresh, reset, read_video, read_audio, video_part, audio_part, read_info, or_no_info,
  discover, discover_with, open_media,
}

-- The sizes of the last video stream of a list, or of none.
pub last_video : List StreamInfo → Option (ℕ × ℕ)
last_video [] = none
last_video (video w h _ _ ∷ rest) = elim (last_video rest) [ none ↦ some (w, h) | some r ↦ some r ]
last_video (audio _ _ ∷ rest) = last_video rest
last_video (other_stream ∷ rest) = last_video rest

abbrev pub size_of : Option (ℕ × ℕ) → ℤ × ℤ
size_of none = (pos 0, pos 0)
size_of (some (w, h)) = (to_int w, to_int h)

-- What `open` makes of a media file that was discovered.
abbrev pub Described : Env → Bytes → MediaInfo → Discoverer → Type 0
Described env uri info d =
    (d.media_uri ≡ uri)
    × (d.has_video ≡ not (is_empty info.video_streams))
    × (d.has_audio ≡ not (is_empty info.audio_streams))
    × ((d.width, d.height) ≡ size_of (last_video info.video_streams))
    × (d.seekable ≡ info.seekable)
    × (d.duration ≡ env.fpu.seconds_u64 info.duration_ns)

module _ (env : Env) where
  -- If Discoverer::open returns false, the object is a reset one, but for the URI that it may
  -- have got.
  open_media_failed :
      (path : Bytes) (s : Sys Discoverer)
      → (open_media env path s).0 ≡ false
      → let d = (open_media env path s).1.self in d ≡ record fresh { media_uri = d.media_uri }
  unfolding open_media reset discover gstreamer_initialized path_to_uri
  open_media_failed path s h = ground arith

  read_audio_keeps :
      (xs : List StreamInfo) (d : Discoverer)
      → read_audio env xs d ≡ record d {
        sample_rate = (read_audio env xs d).sample_rate;
        bit_rate = (read_audio env xs d).bit_rate;
      }
  unfolding read_audio
  read_audio_keeps [] d = refl
  read_audio_keeps (video _ _ _ _ ∷ xs) d = read_audio_keeps xs d
  read_audio_keeps (audio rate bits ∷ xs) d =
      read_audio_keeps xs (record d { sample_rate = rate; bit_rate = bits })
  read_audio_keeps (other_stream ∷ xs) d = read_audio_keeps xs d

  read_video_keeps :
      (xs : List StreamInfo) (d : Discoverer)
      → let r = read_video env xs d in
        r ≡ record d { width = r.width; height = r.height; frame_rate = r.frame_rate }
  unfolding read_video
  read_video_keeps [] d = refl
  read_video_keeps (video w h num denom ∷ xs) d = read_video_keeps xs _
  read_video_keeps (audio _ _ ∷ xs) d = read_video_keeps xs d
  read_video_keeps (other_stream ∷ xs) d = read_video_keeps xs d

  abbrev or_size : Option (ℕ × ℕ) → Discoverer → ℤ × ℤ
  or_size none d = (d.width, d.height)
  or_size (some r) d = size_of (some r)

  read_video_size :
      (xs : List StreamInfo) (d : Discoverer)
      → let r = read_video env xs d in (r.width, r.height) ≡ or_size (last_video xs) d
  unfolding read_video last_video
  read_video_size [] d = refl
  read_video_size (video w h num denom ∷ xs) d = ground (
    arith,
    read_video_size xs
        (record d { width = to_int w; height = to_int h; frame_rate = env.fpu.ratio num denom }),
  )
  read_video_size (audio _ _ ∷ xs) d = read_video_size xs d
  read_video_size (other_stream ∷ xs) d = read_video_size xs d

  -- The two parts of a media file that leave the object described, by what their lists hold.
  Described-parts :
      (vs as' : List StreamInfo) (seekable : Bool) (ns : ℕ) (uri : Bytes) (s : Sys Discoverer)
      → s.self ≡ record fresh { media_uri = uri }
      → let info : MediaInfo = record {
        is_ok = true;
        video_streams = vs;
        audio_streams = as';
        seekable = seekable;
        duration_ns = ns;
      } in
        Described env uri info (read_info env info s).1.self
  unfolding read_info video_part audio_part last_video
  Described-parts [] [] seekable ns uri s e = ground arith
  Described-parts [] (y ∷ ys) seekable ns uri s e =
      ground (arith, read_audio_keeps (y ∷ ys) (record s.self { has_audio = true }))
  Described-parts (x ∷ xs) [] seekable ns uri s e =
      let d = record s.self { has_video = true } in
      ground (arith, read_video_keeps (x ∷ xs) d, read_video_size (x ∷ xs) d)
  Described-parts (x ∷ xs) (y ∷ ys) seekable ns uri s e =
      let d = record s.self { has_video = true } in
      ground (
        arith,
        read_video_keeps (x ∷ xs) d,
        read_video_size (x ∷ xs) d,
        read_audio_keeps (y ∷ ys) (record (read_video env (x ∷ xs) d) { has_audio = true }),
      )

  read_info_found :
      (info : MediaInfo) (uri : Bytes) (s : Sys Discoverer)
      → s.self ≡ record fresh { media_uri = uri }
      → (read_info env info s).0 ≡ true
      → (info.is_ok ≡ true) × Described env uri info (read_info env info s).1.self
  read_info_found info uri s e h = elim (Bool-cases info.is_ok) [
    | inl ok ↦ (
      ok,
      subst (λ j. Described env uri j (read_info env j s).1.self)
          (sym (λ i. record info { is_ok = ok i })) (Described-parts _ _ _ _ uri s e),
    )
    | inr bad ↦ unfold read_info in ground arith
  ]

  or_no_info_found :
      (set : Bool) (o : Option MediaInfo) (uri : Bytes) (s : Sys Discoverer)
      → s.self ≡ record fresh { media_uri = uri }
      → (or_no_info env set o s).0 ≡ true
      → (info : MediaInfo) × (o ≡ some info)
        × (info.is_ok ≡ true)
        × Described env uri info (or_no_info env set o s).1.self
  unfolding or_no_info
  or_no_info_found set none uri s e h = ground arith
  or_no_info_found set (some info) uri s e h =
      let (ok, d) = read_info_found info uri _ e h in (info, refl, ok, d)

  discover_found :
      (s : Sys Discoverer)
      → s.self ≡ record fresh { media_uri = s.self.media_uri }
      → (discover env s).0 ≡ true
      → (info : MediaInfo) × (t : Trace) × (env.discover_uri
            (gst_discoverer_discover_uri s.self.media_uri ∷ t)
          ≡ some info)
        × (info.is_ok ≡ true)
        × Described env s.self.media_uri info (discover env s).1.self
  discover_found s e h =
      let t = gst_discoverer_new ∷ nsvr_log ∷ s.trace in
      elim (Option-cases (env.discoverer_new t)) [
        | inr (k, made) ↦
            let t' = gst_discoverer_discover_uri s.self.media_uri ∷ t in
            let s' : Sys Discoverer = record s { trace = t' } in
            let set = env.discoverer_error t' in
            let r = or_no_info env set (env.discover_uri t') s' in
            let run : discover env s
                ≡ (r.0, record r.1 { trace = g_error_free set ∷ g_object_unref k ∷ r.1.trace }) =
              unfold discover discover_with in rw made refl in
            let (info, found, ok, d) =
              or_no_info_found set (env.discover_uri t') s.self.media_uri s' e (rw run at h) in
            (info, t, found, ok, rw run d)
        | inl not_made ↦ absurd (unfold discover in ground arith)
      ]

  -- The state in which `open` reaches the discovery, and the URI that it looks at.
  abbrev prepared : Bytes → Sys Discoverer → Sys Discoverer
  prepared path s =
      let s1 = (gstreamer_initialized env (record s { self = fresh })).1 in
      let (uri, s2) = path_to_uri env path s1 in
      record s2 { self = record s2.self { media_uri = uri } }

  open_media_reaches :
      (path : Bytes) (s : Sys Discoverer)
      → (open_media env path s).0 ≡ true
      → open_media env path s ≡ discover env (prepared path s)
  unfolding open_media reset
  open_media_reaches path s h = ground arith

  prepared-fresh :
      (path : Bytes) (s : Sys Discoverer)
      → let d = (prepared path s).self in d ≡ record fresh { media_uri = d.media_uri }
  prepared-fresh path s =
      let s1 = gstreamer_initialized env (record s { self = fresh }) in
      rw
        (self-path_to_uri env path s1.1, self-gstreamer_initialized env (record s { self = fresh }))

  -- If Discoverer::open returns true, the media was discovered with result OK at the URI that the
  -- object holds, and the object describes it: each flag says whether there is such a stream, the
  -- sizes are those of the last video stream, 0 if there is none, and the duration and
  -- seekability are those reported.
  pub open_media_found :
      (path : Bytes) (s : Sys Discoverer)
      → (open_media env path s).0 ≡ true
      → (uri : Bytes) × (info : MediaInfo) × (t : Trace) × (env.discover_uri
            (gst_discoverer_discover_uri uri ∷ t)
          ≡ some info)
        × (info.is_ok ≡ true)
        × Described env uri info (open_media env path s).1.self
  open_media_found path s h =
      let e = open_media_reaches path s h in
      let (info, t, found, ok, d) =
        discover_found (prepared path s) (prepared-fresh path s) (rw e at h) in
      (_, info, t, found, ok, rw e d)
