-- ===== src/Tests/World.antt =====
-- Answers of the libraries, and objects, for the tests.
use nsvr.Prelude.{true, false, none, some, [], ◌∷◌, codes}
use nsvr.Prelude.Int.{pos}
use nsvr.Double.{Fpu, d_zero, d_one, d_minus_one}
use nsvr.Env.{Env, success, state_ready, state_playing, video, audio, sizes, MediaInfo}
use nsvr.Env.Monad.{Sys}
use nsvr.Packet.Number.{show_ℕ, stoull}
use nsvr.Player.Object.{Player}
use nsvr.Server.{Server}
use nsvr.Client.{Client}
use nsvr.PlayerServer.{ServerPart}
use nsvr.PlayerClient.{ClientPart}

-- Doubles print as their bit patterns here, and are read back as such.
abbrev pub fpu : Fpu
fpu = record {
  print = show_ℕ;
  stod = stoull;
  seconds = λ _. d_one;
  seconds_u64 = λ _. d_one;
  nanoseconds = λ _. pos 1000000000;
  nanoseconds_u64 = λ _. 1000000000;
  sub = λ a _. a;
  ratio = λ _ _. d_one;
}

abbrev pub movie : MediaInfo
movie = record {
  is_ok = true;
  video_streams = video 640 480 30 1 ∷ [];
  audio_streams = audio 44100 128000 ∷ [];
  seekable = true;
  duration_ns = 5000000000;
}

abbrev pub env : Env
env = record {
  fpu = fpu;
  is_initialized = λ _. true;
  init_check = λ _. true;
  parse_launch = λ _. some 1;
  parse_error = λ _. false;
  pipeline_bus = λ _. some 2;
  video_sink = λ _. some 3;
  set_state = λ _. success;
  get_state = λ _. success;
  get_state_written = λ _. some state_ready;
  seek_simple = λ _. true;
  query_position = λ _. some (pos 5);
  query_duration = λ _. some (pos 5000000000);
  volume = λ _. d_one;
  base_time = λ _. 7;
  bus_pending = λ _. false;
  bus_pop = λ _. none;
  pull_sample = λ _. some 10;
  sample_caps = λ _. sizes (some (pos 640)) (some (pos 480));
  sample_buffer = λ _. some 11;
  buffer_map = λ _. record { address = 4096; size = 1228800 };
  pipeline_clock = λ _. some 20;
  clock_time = λ _. 100;
  net_time_provider = λ _. some 21;
  net_client_clock = λ _. some 22;
  filename_to_uri = λ _. some (codes "file:///m");
  discoverer_new = λ _. some 37;
  discover_uri = λ _. some movie;
  discoverer_error = λ _. false;
  registry = λ _. true;
  modules_size = λ _. some 24;
  module_name = λ _. some (codes "nsvr.dll");
  socket_address = λ _. some 30;
  inet_address = λ _. some 31;
  socket_service = λ _. some 32;
  listener_add = λ _. true;
  service_active = λ _. true;
  socket = λ _. some 33;
  socket_error = λ _. false;
  socket_bind = λ _. true;
  main_context = λ _. 34;
  socket_source = λ _. 35;
  socket_timeout = λ _. 0;
  send_to = λ _. true;
  socket_client = λ _. some 38;
  connect_to_host = λ _. some 39;
  output_stream = λ _. true;
  stream_write = λ _. true;
  input_stream = λ _. true;
  stream_read = λ _. some (codes "nsvr");
  remote_address = λ _. some 36;
  address_text = λ _. some (codes "10.0.0.2");
  receive = λ _. some (codes "sh|");
  context_pending = λ _. false;
  dispatches = λ _. true;
  rounds = 10;
}

-- A player of an open file.
abbrev pub player_of : {X : Type 0} → X → Player X
player_of derived = record {
  state = state_playing;
  map_info = record { address = 0; size = 0 };
  current_sample = none;
  current_buffer = none;
  pipeline = some 1;
  gst_bus = some 2;
  pending_seek = d_minus_one;
  seeking_lock = false;
  width = pos 640;
  height = pos 480;
  duration = d_one;
  time = d_zero;
  volume = d_one;
  buffer_dirty = false;
  loop = true;
  mute = false;
  derived = derived;
}

abbrev pub sys_of : {A : Type 0} → A → Sys A
sys_of self = record { self = self; saved_volume = d_one; trace = [] }

abbrev pub player : Sys (Player (Unit {0}))
player = sys_of (player_of tt)

-- One client is known, with an endpoint that was set up.
abbrev pub server : Server
server = record {
  endpoints = (codes "10.0.0.2", record { socket = some 40; address = some 41 }) ∷ [];
  listen_address = codes "10.0.0.1";
  socket_service = some 42;
  listen_port = pos 8000;
}

abbrev pub client : Client
client = record {
  server_address = codes "10.0.0.1";
  receive_socket = some 50;
  listen_address = some 51;
  context = some 52;
  source = some 53;
  server_port = pos 8000;
  connected = true;
}

abbrev pub server_fields : ServerPart
server_fields = record {
  server = server;
  net_clock = some 60;
  net_provider = some 61;
  pending_current_time = 200;
  pending_state_seek = d_minus_one;
  pending_state = state_playing;
  heartbeat_counter = 0;
  heartbeat_frequency = 30;
}

abbrev pub client_fields : ClientPart
client_fields = record { client = client; net_clock = some 70; base_time = 0 }
