-- ===== src/Engine/Scoring.antt =====
-- core-engine/src/models/common.rs, and `score_suspicious` of core-engine/src/network/stream.rs: which
-- captured packets are reported as suspicious.
pub mod Ports
use mathlib.Core.Option
use aether_lens.Prelude.{
  ℕ, ◌+◌, ◌-◌, ◌*◌, Bool, Option, none, some, [], ◌∷◌, ◌++◌, ◌||◌, Text, codes, ltb, ◌==◌,
  if◌then◌else◌,
}
use aether_lens.Number.{Double, quotient}

pub record CapturedPacket : Type 0 where
  pub process : Text
  pub local_addr : Text
  pub remote_addr : Text
  pub protocol : Text
  pub bytes : ℕ
  pub timestamp : ℕ
  pub outbound : Bool

pub record SuspiciousConnection : Type 0 where
  pub process : Text
  pub remote_addr : Text
  pub reason : Text
  pub score : Double
  pub timestamp : ℕ

-- `s.rsplit(sep).next()`: what follows the last separator; `cur` is the part read so far.
after_last_from : ℕ → Text → Text → Text
after_last_from sep cur [] = cur
after_last_from sep cur (c ∷ s) = after_last_from sep (if c == sep then [] else cur ++ c ∷ []) s

unfoldable pub after_last : ℕ → Text → Text
unfolding after_last_from
after_last sep s = after_last_from sep [] s

-- The digits of `parse::<u16>()`, each step checked for overflow.
parse_digits : ℕ → Text → Option ℕ
parse_digits acc [] = some acc
parse_digits acc (c ∷ s) =
    let next = acc * 10 + (c - b'0') in
    let rest = parse_digits next s in
    if ltb c b'0' || ltb b'9' c then none else if ltb 65_535 next then none else rest

-- A sign stands only before a digit.
after_sign : Text → Option ℕ
unfolding parse_digits
after_sign [] = none
after_sign (c ∷ s) = parse_digits 0 (c ∷ s)

unfoldable pub parse_u16 : Text → Option ℕ
unfolding after_sign
parse_u16 [] = none
parse_u16 (c ∷ s) = if c == b'+' then after_sign s else parse_digits 0 (c ∷ s)

or_zero : Option ℕ → ℕ
or_zero none = 0
or_zero (some n) = n

-- `unwrap_or_default`: an address with no port has the port 0.
unfoldable pub remote_port : CapturedPacket → ℕ
unfolding after_last parse_u16 or_zero
remote_port packet = or_zero (parse_u16 (after_last b':' packet.remote_addr))

abbrev hundredths : ℕ → Double
hundredths n = quotient n 100

-- The `match` on the port.
unfoldable pub rule : ℕ → Option (Text × Double)
rule port =
    if port == 23
    then some (codes "Outbound Telnet attempt", hundredths 96)
    else if port == 445
    then some (codes "Outbound SMB connection", hundredths 92)
    else if port == 3389
    then some (codes "Outbound RDP session", hundredths 85)
    else if port == 6667
    then some (codes "Outbound IRC channel", hundredths 88)
    else none

abbrev pub report : CapturedPacket → Text × Double → SuspiciousConnection
report packet (reason, score) = record {
  process = packet.process;
  remote_addr = packet.remote_addr;
  reason = reason;
  score = score;
  timestamp = packet.timestamp;
}

unfoldable pub score_suspicious : CapturedPacket → Option SuspiciousConnection
unfolding remote_port rule
score_suspicious packet =
    if packet.outbound then Option.map (report packet) (rule (remote_port packet)) else none
