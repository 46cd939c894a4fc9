-- ===== src/Packet/RoundTrip.antt =====
-- `PacketHandler::parse` reads what `PacketHandler::serialize` wrote.
use nsvr.Prelude.{◌^◌, ◌<◌, ◌≡◌, refl, true, some, List, [], ◌∷◌, Bytes, All, Lacks, drop, arith}
use nsvr.Double.{Double, Fpu}
use nsvr.Internal.Text.{implode, explode}
use nsvr.Internal.Text.Laws.{implode-cons, explode-implode}
use nsvr.Packet.{Packet, packet_data_separator, parse_commands, is_heartbeat, parse, serialize}
use nsvr.Packet.Steps.{
  command_time, command_volume, command_mute, command_state, command_base, commands_counted,
  parse_heartbeat,
}
use nsvr.Packet.Number.{show_ℕ, show_ℤ}
use nsvr.Packet.Number.Laws.{IsInt, stoi-show_ℤ, stoull-show_ℕ, show_ℕ-Lacks, show_ℤ-Lacks}

-- A packet whose fields fit the C types, and whose doubles print without the separator.
pub record IsWritable (fpu : Fpu) (p : Packet) : Type 0 where
  pub time_clean : Lacks packet_data_separator (fpu.print p.time)
  pub volume_clean : Lacks packet_data_separator (fpu.print p.volume)
  pub mute_fits : IsInt p.mute
  pub state_fits : IsInt p.state
  pub base_fits : p.base < 2 ^ 64

module _ (fpu : Fpu) (p : Packet) where
  attributes : List Bytes
  attributes =
      (b't' ∷ fpu.print p.time)
      ∷ (b'v' ∷ fpu.print p.volume)
      ∷ (b'm' ∷ show_ℤ p.mute)
      ∷ (b's' ∷ show_ℤ p.state)
      ∷ (b'b' ∷ show_ℕ p.base)
      ∷ []

  drop-serialize : drop 3 (serialize fpu p) ≡ implode attributes (packet_data_separator ∷ [])
  unfolding serialize attributes
  drop-serialize =
      rw (implode-cons, implode-cons, implode-cons, implode-cons) (unfold implode in refl)

  attributes-Lacks : IsWritable fpu p → All (Lacks packet_data_separator) attributes
  unfolding attributes
  attributes-Lacks w = (
    (ground arith, w.time_clean),
    (
      (ground arith, w.volume_clean),
      (
        (ground arith, show_ℤ-Lacks p.mute),
        ((ground arith, show_ℤ-Lacks p.state), ((ground arith, show_ℕ-Lacks p.base), tt)),
      ),
    ),
  )

  explode-serialize :
      IsWritable fpu p → explode (drop 3 (serialize fpu p)) packet_data_separator ≡ attributes
  explode-serialize w = rw drop-serialize (
      explode-implode attributes packet_data_separator (unfold attributes in λ e. cc)
        (attributes-Lacks w))

  serialize-is_heartbeat : is_heartbeat (serialize fpu p) ≡ true
  unfolding is_heartbeat serialize
  serialize-is_heartbeat = ground arith

  parse_commands-attributes :
      {t v : Double} (before : Packet)
      → IsWritable fpu p
      → fpu.stod (fpu.print p.time) ≡ some t
      → fpu.stod (fpu.print p.volume) ≡ some v
      → parse_commands fpu attributes before 0 ≡ (record p { time = t; volume = v }, 5)
  unfolding attributes
  parse_commands-attributes {t} {v} before w ht hv =
      rw
        (
          commands_counted fpu _ _ _ _ 0 (command_time fpu before _ ht),
          commands_counted fpu _ _ _ _ 1 (command_volume fpu (record before { time = t }) _ hv),
          commands_counted fpu _ _ _ _ 2 (command_mute fpu _ _ (stoi-show_ℤ p.mute w.mute_fits)),
          commands_counted fpu _ _ _ _ 3 (command_state fpu _ _ (stoi-show_ℤ p.state w.state_fits)),
          commands_counted fpu _ _ _ _ 4 (command_base fpu _ _ (stoull-show_ℕ p.base w.base_fits)),
        )
        (unfold parse_commands in refl)

-- The wire format round-trips. A packet whose doubles print without the separator, whose mute and
-- state are values of `int` and whose base is below 2^64 is serialized to a message that parse
-- accepts, over any previous contents of the packet; mute, state and base come back exactly, and
-- time and volume as stod reads their prints.
pub parse-serialize :
    (fpu : Fpu) (p before : Packet) {t v : Double}
    → IsWritable fpu p
    → fpu.stod (fpu.print p.time) ≡ some t
    → fpu.stod (fpu.print p.volume) ≡ some v
    → parse fpu (serialize fpu p) before ≡ (true, record p { time = t; volume = v })
parse-serialize fpu p before w ht hv = rw (
  parse_heartbeat fpu (serialize fpu p) before (serialize-is_heartbeat fpu p),
  explode-serialize fpu p w,
  parse_commands-attributes fpu p before w ht hv,
)
