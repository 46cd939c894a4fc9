-- ===== src/Tests/Packets.antt =====
-- The theorems on text, numbers, packets and ports at concrete data.
use nsvr.Prelude.{◌+◌, ◌≡◌, refl, true, [], ◌∷◌, Bytes, codes, arith}
use nsvr.Prelude.Int.{pos, negsuc}
use nsvr.Double.{d_zero, d_one}
use nsvr.Internal.Text.{implode, explode}
use nsvr.Internal.Text.Laws.{explode-implode}
use nsvr.Internal.ClockPort.{get_clock_port}
use nsvr.Internal.ClockPort.Laws.{wire_port, wire_port-get_clock_port}
use nsvr.Packet.{Packet, default_packet, parse, serialize}
use nsvr.Packet.Number.{show_ℕ}
use nsvr.Packet.Number.Laws.{stoull-show_ℕ, show_ℕ-Lacks}
use nsvr.Packet.RoundTrip.{IsWritable, parse-serialize}
use nsvr.Packet.Acceptance.{heartbeat_of, is_unknown, parse_ignores_unknown}
use nsvr.Env.Count.{count}
use nsvr.Library.{list_modules}
use nsvr.Library.Modules.{names_asked, is_read_beyond, list_modules_reads}
use nsvr.Tests.World.{fpu, env, player}

abbrev pub packet : Packet
packet = record { time = d_one; volume = d_zero; mute = pos 1; state = pos 4; base = 123456789 }

pub packet-IsWritable : IsWritable fpu packet
packet-IsWritable = record {
  time_clean = show_ℕ-Lacks d_one;
  volume_clean = show_ℕ-Lacks d_zero;
  mute_fits = omega arith;
  state_fits = omega arith;
  base_fits = omega arith;
}

parse-serialize_example : parse fpu (serialize fpu packet) default_packet ≡ (true, packet)
parse-serialize_example =
    parse-serialize fpu packet default_packet packet-IsWritable (stoull-show_ℕ d_one (omega arith))
      (stoull-show_ℕ d_zero (omega arith))

explode-implode_example :
    explode (implode (codes "a" ∷ codes "" ∷ codes "b" ∷ []) (b'|' ∷ [])) b'|'
    ≡ codes "a" ∷ codes "" ∷ codes "b" ∷ []
explode-implode_example =
    explode-implode (codes "a" ∷ codes "" ∷ codes "b" ∷ []) b'|' (λ e. cc) (ground arith)

-- The port 65535 is the `short` -1.
wire_port-get_clock_port_example : wire_port (get_clock_port (negsuc 0)) ≡ 0
wire_port-get_clock_port_example = wire_port-get_clock_port (negsuc 0) (omega arith)

parse_ignores_unknown_example :
    parse fpu (heartbeat_of (codes "m1" ∷ codes "x?" ∷ codes "s4" ∷ [])) default_packet
    ≡ parse fpu (heartbeat_of (codes "m1" ∷ codes "s4" ∷ [])) default_packet
parse_ignores_unknown_example =
    parse_ignores_unknown fpu (codes "m1") [] (codes "x?") (codes "s4" ∷ []) default_packet
      (λ e. cc) (ground arith) (ground arith) (unfold is_unknown in refl)

abbrev time_command : Bytes
time_command = b't' ∷ show_ℕ d_one

list_modules_reads_example :
    let t = (list_modules env player).1 in
    (names_asked t.trace ≡ 2 ∷ 1 ∷ 0 ∷ [])
    × (count is_read_beyond t.trace ≡ 0 + 0)
    × (t.self ≡ player.self)
list_modules_reads_example = list_modules_reads env player 24 refl
