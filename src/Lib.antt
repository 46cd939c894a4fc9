-- ===== src/Lib.antt =====
-- NSVR, the network synchronized video renderer: a library over GStreamer that plays a video in step on
-- several machines. One process holds a `PlayerServer`, whose server sends heartbeats over UDP; each of
-- the others holds a `PlayerClient`, whose client follows them. Both are a `Player`, the wrapper of one
-- playbin pipeline.
--
-- Files, with the code that they model:
--   Prelude       bytes, lists, and machine integers over the native numbers
--   Double        gdouble as its bit pattern: comparisons and CLAMP; Fpu holds what the machine computes
--   Env           GStreamer, GLib and GIO as a parameter: the calls of them, their answers, and the monad
--                 of the program's methods
--   Internal      source/nsvr/nsvr_internal.cpp: implode and explode (Text), gstreamerInitialized,
--                 pathToUri and getIp (System), BindToScope (Scope), getClockPort
--                 (ClockPort); Buffer is the receive buffer
--                 of Server::incoming and Client::incomming
--   Packet        include/nsvr/nsvr_packet_handler.hpp, source/nsvr/nsvr_packet_handler.cpp: parse and
--                 serialize; Number is what they use of the standard library
--   Discoverer    source/nsvr/nsvr_discoverer.cpp
--   Player        source/nsvr/nsvr_player.cpp: the fields, reset and accessors (Object), setVolume,
--                 getVolume, setMute (Volume), setTime, getTime, queryDuration (Seek), the callbacks of
--                 the sink (Frames), the states and close (Control), open (Opening), update (Update),
--                 the two threads at the shared frame (Handshake), and all methods together (Lifetime)
--   Server        source/nsvr/nsvr_server.cpp, with UdpEndpoint (Endpoint)
--   Client        source/nsvr/nsvr_client.cpp
--   PlayerServer  source/nsvr/nsvr_player_server.cpp
--   PlayerClient  source/nsvr/nsvr_player_client.cpp
--   Library       source/nsvr.cpp: getVersion, addPluginPath and listModules
--   Session       a heartbeat from PlayerServer to PlayerClient, the two programs side by side with a network
--                 that loses, repeats and reorders (Interleaving), a client that joins its server (Group),
--                 a seek from the user of the server to the pipeline of a client (Seeking), and the mute
--                 flag and the volume from player to player (Sound)
--   Tests         the theorems at concrete data
-- A module of laws stands below the module whose definitions it is about.
--
-- How a method is modelled. A method is a function from a `Sys` to its result and a `Sys`: the object,
-- the one static variable of the program (saved_volume of Player::setMute), and the trace of the calls
-- made so far. An `Env` answers a call as a function of the trace, so a theorem over every `Env` holds
-- whatever the libraries answer. A field keeps its name without the leading m, in snake_case. A class
-- that derives from `Player` adds its fields in `derived`, and its overrides are a record of `Hooks`; a
-- `Part` says where its `Server` or `Client` lies, and what onMessage does. A function that a user's
-- class overrides is an event of the trace. Reading the message of a GError that is not set, and
-- reading a buffer beyond its end, are marks in the trace, behind which it says nothing more.
--
-- Integers. gint and short are integers, unsigned sums and differences wrap at 2 ^ 32 or 2 ^ 64, and the
-- port of the clock is converted back to a short. A GstState is an integer, since parse casts any.
--
-- Loops. The streams of a media file, the pieces of a message, the endpoints and the bytes of a text are
-- lists, and their loops recur on them. The loops that run until a bus or a main context has nothing
-- pending are followed for as many rounds as the environment says; a loop that is given up leaves a mark
-- in the trace. The theorems that name an end of such a loop say how many rounds are enough. The one other
-- use of fuel prints a number: n + 1 rounds of division by ten are enough for n, since each round makes
-- the number smaller.
--
-- Scopes. BindToScope releases what it holds where its scope ends, and so at every return: a body is
-- run, and the release is the call behind it. A GError is freed whether or not it is set, which the call
-- tells; other null pointers that are released, and the text that pathToUri leaks, leave no call.
--
-- Not modelled: the text of the log; the value by which Client::incomming tells GLib whether to keep its
-- source, since an `Env` says at will which sources are dispatched; the default server of source/nsvr.cpp, which nothing uses;
-- mClockOffset, which nothing reads; the tests and the build files.
pub mod Prelude
pub mod Double
pub mod Env
pub mod Internal
pub mod Packet
pub mod Discoverer
pub mod Player
pub mod Server
pub mod Client
pub mod PlayerServer
pub mod PlayerClient
pub mod Library
pub mod Session
pub mod Tests
