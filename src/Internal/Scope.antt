-- ===== src/Internal/Scope.antt =====
-- `BindToScope` of source/nsvr/nsvr_internal.hpp: what a scope holds is released where the scope ends.
-- The specializations of the destructor are those of source/nsvr/nsvr_internal.cpp.
use nsvr.Prelude.{Bool}
use nsvr.Env.{
  Handle, Call, g_free, g_error_free, g_object_unref, gst_object_unref, gst_message_unref,
  gst_discoverer_info_unref, gst_discoverer_stream_info_list_free, gst_discoverer_stream_info_unref,
}
use nsvr.Env.Monad.{M, pure, ◌>>=◌, ◌>>◌, call}

-- The type of the pointer that is bound; a GError comes with whether it is set.
pub data Bound : Type 0 where
  chars stream_list message discoverer_info stream_info : Bound
  g_error : Bool → Bound
  clock app_sink inet_address socket_client discoverer : Handle → Bound
  socket_address socket_connection net_time_provider : Handle → Bound

abbrev pub release : Bound → Call
release chars = g_free
release stream_list = gst_discoverer_stream_info_list_free
release (g_error set) = g_error_free set
release (clock h) = gst_object_unref h
release message = gst_message_unref
release (app_sink h) = g_object_unref h
release (inet_address h) = g_object_unref h
release (socket_client h) = g_object_unref h
release (discoverer h) = g_object_unref h
release (socket_address h) = g_object_unref h
release (socket_connection h) = g_object_unref h
release discoverer_info = gst_discoverer_info_unref
release (net_time_provider h) = gst_object_unref h
release stream_info = gst_discoverer_stream_info_unref

module _ {A : Type 0} where
  -- The rest of the scope, then the release.
  abbrev pub bind_to_scope : {B : Type 0} → Bound → M A B → M A B
  bind_to_scope b m = do result ← m; call (release b); pure result

  -- The end of a scope that holds a GError: a null one is freed too.
  abbrev pub free_error : Bool → M A (Unit {0})
  free_error set = call (release (g_error set))
