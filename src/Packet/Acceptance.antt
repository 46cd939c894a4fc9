-- ===== src/Packet/Acceptance.antt =====
-- Which messages `PacketHandler::parse` accepts, and what it leaves in the packet.
use nsvr.Prelude.{
  ℕ, suc, ◌+◌, ◌<◌, ◌≤◌, ◌≡◌, ◌≢◌, refl, Bool, true, false, some, List, [], ◌∷◌, ◌++◌, Bytes,
  length, drop, arith, ◌==◌, if◌then◌else◌, Bool-cases, inl, inr, Lacks, All, ◌⊎◌,
}
use nsvr.Double.{Double, Fpu}
use nsvr.Internal.Text.{explode, implode}
use nsvr.Internal.Text.Laws.{implode-cons, explode-implode}
use nsvr.Packet.{
  Packet, Outcome, skipped, counted, threw, packet_data_separator, packet_att_count, parse_command,
  parse_commands, is_heartbeat, parse,
}
use nsvr.Packet.Steps.{command_time, commands_counted, parse_heartbeat, parse_other}

-- The message "sh|" with the commands behind it, glued by the separator.
abbrev pub heartbeat_of : List Bytes → Bytes
heartbeat_of commands = b's' ∷ b'h' ∷ b'|' ∷ implode commands (packet_data_separator ∷ [])

-- A command whose first byte is none of the five attributes.
unfoldable pub is_unknown : Bytes → Bool
is_unknown [] = true
is_unknown (c ∷ _) =
    if c == b't'
    then false
    else if c == b'v'
    then false
    else if c == b'm'
    then false
    else if c == b's'
    then false
    else if c == b'b'
    then false
    else true

Outcome-cases : (o : Outcome) → (o ≡ skipped) ⊎ (((q : Packet) × (o ≡ counted q)) ⊎ (o ≡ threw))
Outcome-cases skipped = inl refl
Outcome-cases (counted q) = inr (inl (q, refl))
Outcome-cases threw = inr (inr refl)

module _ (fpu : Fpu) where
  unknown_skipped : (u : Bytes) (p : Packet) → is_unknown u ≡ true → parse_command fpu u p ≡ skipped
  unfolding is_unknown parse_command
  unknown_skipped [] p h = refl
  unknown_skipped (c ∷ rest) p h = ground arith

  commands_skip :
      (xs : List Bytes) (u : Bytes) (ys : List Bytes) (p : Packet) (n : ℕ)
      → is_unknown u ≡ true
      → parse_commands fpu (xs ++ (u ∷ ys)) p n ≡ parse_commands fpu (xs ++ ys) p n
  unfolding parse_commands
  commands_skip [] u ys p n h = rw (unknown_skipped u p h, parse_commands)
  commands_skip (x ∷ xs) u ys p n h = elim (Outcome-cases (parse_command fpu x p)) [
    | inl e ↦ rw (e, parse_commands) (commands_skip xs u ys p n h)
    | inr (inl (q, e)) ↦ rw (e, parse_commands) (commands_skip xs u ys q (suc n) h)
    | inr (inr e) ↦ rw (e, parse_commands)
  ]

  commands_bound :
      (cs : List Bytes) (p : Packet) (n : ℕ) → (parse_commands fpu cs p n).1 ≤ n + length cs
  unfolding parse_commands
  commands_bound [] p n = omega arith
  commands_bound (c ∷ cs) p n = elim (Outcome-cases (parse_command fpu c p)) [
    | inl e ↦ rw (e, parse_commands) (omega (arith, commands_bound cs p n))
    | inr (inl (q, e)) ↦ rw (e, parse_commands) (omega (arith, commands_bound cs q (suc n)))
    | inr (inr e) ↦ rw (e, parse_commands) (omega arith)
  ]

heartbeat_is_heartbeat :
    (c : Bytes) (cs : List Bytes) → c ≢ [] → is_heartbeat (heartbeat_of (c ∷ cs)) ≡ true
unfolding is_heartbeat
heartbeat_is_heartbeat [] cs h = absurd (h refl)
heartbeat_is_heartbeat (b ∷ c) [] h = unfold implode in ground arith
heartbeat_is_heartbeat (b ∷ c) (d ∷ ds) h = rw implode-cons (ground arith)

parse-heartbeat_of :
    (fpu : Fpu) (c : Bytes) (cs : List Bytes) (p : Packet)
    → c ≢ []
    → All (Lacks packet_data_separator) (c ∷ cs)
    → parse fpu (heartbeat_of (c ∷ cs)) p ≡ (
        let (written, entities) = parse_commands fpu (c ∷ cs) p 0 in
        (entities == packet_att_count, written))
parse-heartbeat_of fpu c cs p h l = rw (
  parse_heartbeat fpu (heartbeat_of (c ∷ cs)) p (heartbeat_is_heartbeat c cs h),
  explode-implode (c ∷ cs) packet_data_separator (λ e. cc) l,
)

-- A message with fewer than five commands behind its first three bytes is refused.
parse_too_few :
    (fpu : Fpu) (buffer : Bytes) (p : Packet)
    → length (explode (drop 3 buffer) packet_data_separator) < 5
    → (parse fpu buffer p).0 ≡ false
parse_too_few fpu buffer p h = elim (Bool-cases (is_heartbeat buffer)) [
  | inl e ↦
      rw (parse_heartbeat fpu buffer p e)
        (ground (arith, commands_bound fpu (explode (drop 3 buffer) packet_data_separator) p 0))
  | inr e ↦ rw (parse_other fpu buffer p e)
]

-- A command without the separator whose first byte is none of the five attributes, or an empty
-- one, can stand anywhere behind the first command of a heartbeat, which is not empty: neither
-- the result nor the packet changes.
pub parse_ignores_unknown :
    (fpu : Fpu) (c : Bytes) (xs : List Bytes) (u : Bytes) (ys : List Bytes) (p : Packet)
    → c ≢ []
    → All (Lacks packet_data_separator) (c ∷ (xs ++ (u ∷ ys)))
    → All (Lacks packet_data_separator) (c ∷ (xs ++ ys))
    → is_unknown u ≡ true
    → parse fpu (heartbeat_of (c ∷ (xs ++ (u ∷ ys)))) p
      ≡ parse fpu (heartbeat_of (c ∷ (xs ++ ys))) p
parse_ignores_unknown fpu c xs u ys p h l m k =
    rw (parse-heartbeat_of fpu c (xs ++ (u ∷ ys)) p h l, parse-heartbeat_of fpu c (xs ++ ys) p h m)
      (rw (commands_skip fpu (c ∷ xs) u ys p 0 k))

-- A heartbeat of five time attributes and nothing else, whose text stod reads and which holds no
-- separator, is accepted, and volume, mute, state and base stay as the caller had them.
parse_accepts_repeated_time :
    (fpu : Fpu) (x : Bytes) (p : Packet) {t : Double}
    → Lacks packet_data_separator x
    → fpu.stod x ≡ some t
    → let a = b't' ∷ x in
      parse fpu (heartbeat_of (a ∷ a ∷ a ∷ a ∷ a ∷ [])) p ≡ (true, record p { time = t })
parse_accepts_repeated_time fpu x p {t} l h =
    let a = b't' ∷ x in
    let clean : Lacks packet_data_separator a = (ground arith, l) in
    rw
      (
        parse-heartbeat_of fpu a (a ∷ a ∷ a ∷ a ∷ []) p (λ e. cc)
            (clean, (clean, (clean, (clean, (clean, tt))))),
        again p 0 (a ∷ a ∷ a ∷ a ∷ []),
        again q 1 (a ∷ a ∷ a ∷ []),
        again q 2 (a ∷ a ∷ []),
        again q 3 (a ∷ []),
        again q 4 [],
      )
      (unfold parse_commands in refl)
  where
    q : Packet
    q = record p { time = t }

    again :
        (r : Packet) (n : ℕ) (cs : List Bytes)
        → parse_commands fpu ((b't' ∷ x) ∷ cs) r n
          ≡ parse_commands fpu cs (record r { time = t }) (suc n)
    again r n cs = commands_counted fpu _ cs r _ n (command_time fpu r x h)
