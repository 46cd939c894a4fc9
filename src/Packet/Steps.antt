-- ===== src/Packet/Steps.antt =====
-- One step of the loop of `PacketHandler::parse`, and its two guards, as equations.
use nsvr.Prelude.{ℕ, suc, ◌≡◌, refl, true, false, some, List, [], ◌∷◌, Bytes, drop, arith, ◌==◌}
use nsvr.Prelude.Int.{ℤ}
use nsvr.Double.{Double, Fpu}
use nsvr.Internal.Text.{explode}
use nsvr.Packet.{
  Packet, counted, packet_data_separator, packet_att_count, parse_command, parse_commands,
  is_heartbeat, parse,
}
use nsvr.Packet.Number.{stoi, stoull}

module _ (fpu : Fpu) (p : Packet) (rest : Bytes) where
  pub command_time :
      {t : Double}
      → fpu.stod rest ≡ some t
      → parse_command fpu (b't' ∷ rest) p ≡ counted (record p { time = t })
  unfolding parse_command
  command_time h = ground arith

  pub command_volume :
      {v : Double}
      → fpu.stod rest ≡ some v
      → parse_command fpu (b'v' ∷ rest) p ≡ counted (record p { volume = v })
  unfolding parse_command
  command_volume h = ground arith

  pub command_mute :
      {i : ℤ}
      → stoi rest ≡ some i
      → parse_command fpu (b'm' ∷ rest) p ≡ counted (record p { mute = i })
  unfolding parse_command
  command_mute h = ground arith

  pub command_state :
      {i : ℤ}
      → stoi rest ≡ some i
      → parse_command fpu (b's' ∷ rest) p ≡ counted (record p { state = i })
  unfolding parse_command
  command_state h = ground arith

  pub command_base :
      {n : ℕ}
      → stoull rest ≡ some n
      → parse_command fpu (b'b' ∷ rest) p ≡ counted (record p { base = n })
  unfolding parse_command
  command_base h = ground arith

pub commands_counted :
    (fpu : Fpu) (command : Bytes) (commands : List Bytes) (p q : Packet) (n : ℕ)
    → parse_command fpu command p ≡ counted q
    → parse_commands fpu (command ∷ commands) p n ≡ parse_commands fpu commands q (suc n)
unfolding parse_commands
commands_counted fpu command commands p q n h = rw (h, parse_commands)

pub parse_heartbeat :
    (fpu : Fpu) (buffer : Bytes) (p : Packet)
    → is_heartbeat buffer ≡ true
    → parse fpu buffer p ≡ (
        let (written, entities) =
          parse_commands fpu (explode (drop 3 buffer) packet_data_separator) p 0 in
        (entities == packet_att_count, written))
unfolding parse is_heartbeat
parse_heartbeat fpu [] p h = ground arith
parse_heartbeat fpu (c ∷ rest) p h = ground arith

pub parse_other :
    (fpu : Fpu) (buffer : Bytes) (p : Packet)
    → is_heartbeat buffer ≡ false
    → parse fpu buffer p ≡ (false, p)
unfolding parse
parse_other fpu [] p h = refl
parse_other fpu (c ∷ rest) p h = ground arith
