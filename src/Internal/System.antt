-- ===== src/Internal/System.antt =====
-- `gstreamerInitialized`, `pathToUri` and `getIp` of source/nsvr/nsvr_internal.cpp.
use nsvr.Prelude.{
  ◌≡◌, arith, Bool, true, false, Option, none, some, [], Bytes, is_empty, if◌then◌else◌,
}
use nsvr.Env.{
  Env, gst_is_initialized, gst_init_check, g_filename_to_uri,
  g_socket_connection_get_remote_address, g_inet_address_to_string,
}
use nsvr.Internal.Scope.{chars, socket_address, bind_to_scope, free_error}
use nsvr.Env.Monad.{Sys, M, pure, ◌>>=◌, ◌>>◌, ask, log}

-- `none` and an empty text both say that the path is a URI already. The program does not free the text.
abbrev uri_or_path : Option Bytes → Bytes → Bytes
uri_or_path none path = path
uri_or_path (some uri) path = if is_empty uri then path else uri

module _ (env : Env) {A : Type 0} where
  -- A failed gst_init_check sets the error.
  unfoldable pub gstreamer_initialized : M A Bool
  gstreamer_initialized = do
    ready ← ask env.is_initialized gst_is_initialized
    if ready then free_error false >> pure true else do
      started ← ask env.init_check gst_init_check
      if started then free_error false >> pure true else log >> (free_error true >> pure false)

  unfoldable pub path_to_uri : Bytes → M A Bytes
  path_to_uri path =
      if is_empty path
      then log >> pure []
      else do uri ← ask env.filename_to_uri (g_filename_to_uri path); pure (uri_or_path uri path)

  -- The remote address of a connection, which is not null where the program calls it.
  unfoldable pub get_ip : M A Bytes
  get_ip = do
    address ← ask env.remote_address g_socket_connection_get_remote_address
    elim address [
      | none ↦ pure []
      | some a ↦ bind_to_scope (socket_address a) (do
        text ← ask env.address_text (g_inet_address_to_string a)
        elim text [ none ↦ pure [] | some ip ↦ bind_to_scope chars (pure ip) ])
    ]

  -- None of these touches the object that calls it.
  pub self-gstreamer_initialized : (s : Sys A) → (gstreamer_initialized s).1.self ≡ s.self
  unfolding gstreamer_initialized
  self-gstreamer_initialized s = ground arith

  pub self-path_to_uri : (path : Bytes) (s : Sys A) → (path_to_uri path s).1.self ≡ s.self
  unfolding path_to_uri
  self-path_to_uri path s = ground arith
