-- ===== src/Env.antt =====
-- The libraries that the program calls: GStreamer, GLib and GIO. They are not part of the program, so
-- their answers are a parameter: an `Env` answers each call as a function of all calls made so far,
-- the call itself included. A `Trace` is those calls, newest first, with the arguments that matter.
-- A pointer to one of their objects is a handle, a number; a null pointer is `none`.
pub mod Monad
pub mod Count
use nsvr.Prelude.{ℕ, Bool, Option, List, Bytes}
use nsvr.Prelude.Int.{ℤ}
use nsvr.Double.{Double, Fpu}

abbrev pub Handle : Type 0
Handle = ℕ

-- GstState values, as the integers that they are.
abbrev pub GstState : Type 0
GstState = ℤ

abbrev pub state_null : GstState
state_null = ℤ.pos 1

abbrev pub state_ready : GstState
state_ready = ℤ.pos 2

abbrev pub state_paused : GstState
state_paused = ℤ.pos 3

abbrev pub state_playing : GstState
state_playing = ℤ.pos 4

-- GstStateChangeReturn
pub data ChangeReturn : Type 0 where
  failure success async no_preroll : ChangeReturn

abbrev pub is_failure : ChangeReturn → Bool
is_failure ChangeReturn.failure = Bool.true
is_failure _ = Bool.false

abbrev pub is_success : ChangeReturn → Bool
is_success ChangeReturn.success = Bool.true
is_success _ = Bool.false

-- GstMapInfo: where a mapped buffer lies, and how long it is.
pub record MapInfo : Type 0 where
  pub address : ℕ
  pub size : ℕ

-- What leaves the defined behaviour of C++, or the rounds for which a loop is followed: after such a
-- mark the trace says nothing of the program.
pub data Undefined : Type 0 where
  null_error_read unterminated_read read_beyond_modules out_of_rounds : Undefined

-- A call of a library, a call of a virtual function that a user of the program overrides, or a mark.
pub data Call : Type 0 where
  -- set-up and lifetime
  gst_is_initialized gst_init_check : Call
  gst_object_unref g_object_unref : Handle → Call
  g_free : Call
  -- whether there is an error: a null one is freed too
  g_error_free : Bool → Call
  -- elements and pipelines
  gst_parse_launch : Bytes → Call
  gst_pipeline_get_bus gst_pipeline_get_clock g_object_get_video_sink : Handle → Call
  gst_app_sink_set_callbacks : Handle → Call
  gst_element_set_state : Option Handle → GstState → Call
  gst_element_get_state : Option Handle → Call
  gst_element_seek_simple : Handle → ℤ → Call
  gst_element_query_position gst_element_query_duration : Handle → Call
  g_object_set_volume : Handle → Double → Call
  g_object_get_volume : Handle → Call
  gst_element_get_base_time : Handle → Call
  gst_element_set_base_time gst_element_set_start_time : Handle → ℕ → Call
  gst_bus_have_pending gst_bus_pop : Option Handle → Call
  gst_message_parse_details gst_message_unref : Call
  -- frames
  gst_app_sink_pull_preroll gst_app_sink_pull_sample : Handle → Call
  gst_sample_get_caps gst_sample_get_buffer gst_sample_unref : Handle → Call
  gst_buffer_map gst_buffer_unmap : Option Handle → Call
  -- clocks
  gst_clock_get_time : Option Handle → Call
  gst_clock_set_timeout : Handle → Call
  gst_pipeline_use_clock : Handle → Handle → Call
  gst_net_time_provider_new : Handle → Bytes → ℤ → Call
  gst_net_client_clock_new : Bytes → ℤ → ℕ → Call
  -- discovery
  g_filename_to_uri : Bytes → Call
  gst_discoverer_new : Call
  gst_discoverer_discover_uri : Bytes → Call
  gst_discoverer_info_read gst_discoverer_info_unref : Call
  gst_discoverer_stream_info_list_free gst_discoverer_stream_info_unref : Call
  -- the registry
  gst_registry_get : Call
  gst_registry_scan_path : Bytes → Call
  -- the modules of a Windows process: the room for their handles, and the index of one
  enum_process_modules get_module_file_name : ℕ → Call
  -- sockets and main loops
  g_inet_socket_address_new_from_string : Bytes → ℤ → Call
  g_inet_address_new_from_string : Bytes → Call
  g_inet_address_new_any : Call
  g_inet_socket_address_new : Option Handle → ℤ → Call
  g_socket_service_new : Call
  g_socket_listener_add_address : Handle → Handle → Call
  g_signal_connect g_socket_service_start g_socket_service_stop : Handle → Call
  g_socket_service_is_active : Handle → Call
  g_socket_new g_main_context_new : Call
  g_socket_set_blocking : Handle → Call
  g_socket_bind : Handle → Handle → Call
  g_socket_create_source g_source_attach g_source_unref g_main_context_unref : Handle → Call
  g_clear_object : Handle → Call
  g_socket_receive g_object_ref : Handle → Call
  g_socket_get_timeout : Handle → Call
  g_socket_set_timeout : Handle → ℕ → Call
  g_socket_send_to : Handle → Handle → Bytes → Call
  g_main_context_pending g_main_context_iteration : Option Handle → Call
  g_io_stream_get_input_stream g_input_stream_read g_socket_connection_get_remote_address : Call
  g_inet_address_to_string : Handle → Call
  g_socket_client_new : Call
  g_socket_client_connect_to_host : Bytes → ℤ → Call
  g_io_stream_get_output_stream : Call
  g_output_stream_write : Bytes → Call
  -- the program's own virtual functions, as a subclass sees them
  on_video_frame : MapInfo → Call
  on_state_changed : GstState → Call
  on_stream_end on_seek_finished : Call
  on_message : Bytes → Call
  -- a line of the log, and undefined behaviour
  nsvr_log : Call
  undefined : Undefined → Call

abbrev pub Trace : Type 0
Trace = List Call

-- A message of a pipeline's bus. There may be none to pop: the bus was flushed between the two calls.
pub data Message : Type 0 where
  error warning info async_done duration_changed eos other : Message
  state_changed : (source : Handle) (old new : GstState) → Message

pub data StreamInfo : Type 0 where
  video : (width height framerate_num framerate_denom : ℕ) → StreamInfo
  audio : (sample_rate bit_rate : ℕ) → StreamInfo
  other_stream : StreamInfo

-- What gst_discoverer_info_* tell of a media file. An empty list is a null GList.
pub record MediaInfo : Type 0 where
  pub is_ok : Bool
  pub video_streams : List StreamInfo
  pub audio_streams : List StreamInfo
  pub seekable : Bool
  pub duration_ns : ℕ

-- What the caps of a sample hold: null caps, caps that are not fixed, no structure, or the two sizes,
-- each `none` where gst_structure_get_int fails.
pub data SampleCaps : Type 0 where
  no_caps unfixed no_structure : SampleCaps
  sizes : (width height : Option ℤ) → SampleCaps

pub record Env : Type 0 where
  pub fpu : Fpu
  pub is_initialized : Trace → Bool
  pub init_check : Trace → Bool
  -- the handle, and whether the GError is set
  pub parse_launch : Trace → Option Handle
  pub parse_error : Trace → Bool
  pub pipeline_bus : Trace → Option Handle
  pub video_sink : Trace → Option Handle
  pub set_state : Trace → ChangeReturn
  -- `none`: the state is not written
  pub get_state : Trace → ChangeReturn
  pub get_state_written : Trace → Option GstState
  pub seek_simple : Trace → Bool
  pub query_position : Trace → Option ℤ
  pub query_duration : Trace → Option ℤ
  pub volume : Trace → Double
  pub base_time : Trace → ℕ
  pub bus_pending : Trace → Bool
  pub bus_pop : Trace → Option Message
  pub pull_sample : Trace → Option Handle
  pub sample_caps : Trace → SampleCaps
  pub sample_buffer : Trace → Option Handle
  pub buffer_map : Trace → MapInfo
  pub pipeline_clock : Trace → Option Handle
  pub clock_time : Trace → ℕ
  pub net_time_provider : Trace → Option Handle
  pub net_client_clock : Trace → Option Handle
  pub filename_to_uri : Trace → Option Bytes
  pub discoverer_new : Trace → Option Handle
  pub discover_uri : Trace → Option MediaInfo
  -- whether a failed call of these set the GError
  pub discoverer_error : Trace → Bool
  pub registry : Trace → Bool
  -- the bytes that the handles of all modules take, which may be more than there was room for
  pub modules_size : Trace → Option ℕ
  pub module_name : Trace → Option Bytes
  pub socket_address : Trace → Option Handle
  pub inet_address : Trace → Option Handle
  pub socket_service : Trace → Option Handle
  pub listener_add : Trace → Bool
  pub service_active : Trace → Bool
  pub socket : Trace → Option Handle
  pub socket_error : Trace → Bool
  pub socket_bind : Trace → Bool
  pub main_context : Trace → Handle
  pub socket_source : Trace → Handle
  pub socket_timeout : Trace → ℕ
  pub send_to : Trace → Bool
  pub socket_client : Trace → Option Handle
  pub connect_to_host : Trace → Option Handle
  pub output_stream : Trace → Bool
  pub stream_write : Trace → Bool
  pub input_stream : Trace → Bool
  -- the bytes that were read, or `none` on an error
  pub stream_read : Trace → Option Bytes
  pub remote_address : Trace → Option Handle
  -- the text of an address, or `none` where it is no internet address
  pub address_text : Trace → Option Bytes
  -- what g_socket_receive gives: `none` is an error, no byte a closed connection
  pub receive : Trace → Option Bytes
  pub context_pending : Trace → Bool
  -- whether the round of a main context dispatches the callback of the object that runs it
  pub dispatches : Trace → Bool
  -- for how many rounds a loop is followed that waits until a library has nothing pending
  pub rounds : ℕ
