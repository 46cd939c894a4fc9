-- ===== src/Packet.antt =====
-- `Packet` and `PacketHandler` of include/nsvr/nsvr_packet_handler.hpp and
-- source/nsvr/nsvr_packet_handler.cpp. An enum value of GStreamer is the integer that it stands for,
-- since `parse` casts any integer to it.
pub mod Number
mod Steps
pub mod RoundTrip
pub mod Acceptance
use nsvr.Prelude.{
  ℕ, suc, Bool, true, false, ◌&&◌, ◌||◌, Option, none, some, List, [], ◌∷◌, ◌++◌, Bytes, ltb, ◌==◌,
  if◌then◌else◌, length, drop,
}
use nsvr.Prelude.Int.{ℤ, pos}
use nsvr.Double.{Double, d_zero, Fpu}
use nsvr.Internal.Text.{explode}
use Number.{stoi, stoull, show_ℕ, show_ℤ}

pub record Packet : Type 0 where
  pub time : Double
  pub volume : Double
  pub mute : ℤ
  pub state : ℤ
  pub base : ℕ

-- GST_CLOCK_TIME_NONE, the largest 64-bit number
abbrev pub clock_time_none : ℕ
clock_time_none = 0xffff_ffff_ffff_ffff

-- GST_STATE_NULL is 1, and FALSE is 0.
abbrev pub default_packet : Packet
default_packet = record {
  time = d_zero;
  volume = d_zero;
  mute = pos 0;
  state = pos 1;
  base = clock_time_none;
}

abbrev pub packet_data_separator : ℕ
packet_data_separator = b'|'

abbrev pub server_identifier : ℕ
server_identifier = b's'

abbrev pub client_identifier : ℕ
client_identifier = b'c'

abbrev pub server_heartbeat_identifier : ℕ
server_heartbeat_identifier = b'h'

abbrev pub packet_time_att : ℕ
packet_time_att = b't'

abbrev pub packet_mute_att : ℕ
packet_mute_att = b'm'

abbrev pub packet_volume_att : ℕ
packet_volume_att = b'v'

abbrev pub packet_state_att : ℕ
packet_state_att = b's'

abbrev pub packet_base_att : ℕ
packet_base_att = b'b'

abbrev pub packet_att_count : ℕ
packet_att_count = 5

-- How one round of the loop over the commands ends: by `continue` or without a match, with a field
-- written and counted, or by an exception, which leaves the loop.
pub data Outcome : Type 0 where
  skipped : Outcome
  counted : Packet → Outcome
  threw : Outcome

abbrev or_threw {ℓ} : {A : Type ℓ} → Option A → (A → Packet) → Outcome
or_threw none f = threw
or_threw (some a) f = counted (f a)

module _ (fpu : Fpu) where
  pub parse_command : Bytes → Packet → Outcome
  parse_command [] packet = skipped
  parse_command (c ∷ rest) packet =
      if c == packet_time_att
      then or_threw (fpu.stod rest) (λ d. record packet { time = d })
      else if c == packet_volume_att
      then or_threw (fpu.stod rest) (λ d. record packet { volume = d })
      else if c == packet_mute_att
      then or_threw (stoi rest) (λ i. record packet { mute = i })
      else if c == packet_state_att
      then or_threw (stoi rest) (λ i. record packet { state = i })
      else if c == packet_base_att
      then or_threw (stoull rest) (λ n. record packet { base = n })
      else skipped

  -- The loop, with the packet and `entities`; what was written before an exception stays.
  pub parse_commands : List Bytes → Packet → ℕ → Packet × ℕ
  parse_commands [] packet entities = (packet, entities)
  parse_commands (command ∷ commands) packet entities = elim (parse_command command packet) [
    | skipped ↦ parse_commands commands packet entities
    | counted written ↦ parse_commands commands written (suc entities)
    | threw ↦ (packet, entities)
  ]

-- buffer[i], of an index below the size
abbrev byte_at : ℕ → Bytes → ℕ
byte_at i buffer = elim (drop i buffer) [ [] ↦ 0 | c ∷ _ ↦ c ]

pub is_heartbeat : Bytes → Bool
is_heartbeat buffer =
    ltb 3 (length buffer)
    && byte_at 0 buffer == server_identifier
    && byte_at 1 buffer == server_heartbeat_identifier

-- The result, and the packet as the call leaves it.
unfoldable pub parse : Fpu → Bytes → Packet → Bool × Packet
unfolding parse_command parse_commands is_heartbeat
parse fpu [] packet = (false, packet)
parse fpu (c ∷ rest) packet =
    if c == client_identifier
    then (false, packet)
    else let (written, entities) =
        if is_heartbeat (c ∷ rest)
        then parse_commands fpu (explode (drop 3 (c ∷ rest)) packet_data_separator) packet 0
        else (packet, 0) in
      (entities == packet_att_count, written)

unfoldable pub serialize : Fpu → Packet → Bytes
serialize fpu packet =
    server_identifier
    ∷ server_heartbeat_identifier
    ∷ packet_data_separator
    ∷ packet_time_att
    ∷ (fpu.print packet.time
        ++ (packet_data_separator
            ∷ packet_volume_att
            ∷ (fpu.print packet.volume
                ++ (packet_data_separator
                    ∷ packet_mute_att
                    ∷ (show_ℤ packet.mute
                        ++ (packet_data_separator
                            ∷ packet_state_att
                            ∷ (show_ℤ packet.state
                                ++ (packet_data_separator
                                    ∷ packet_base_att
                                    ∷ show_ℕ packet.base))))))))
