-- ===== src/Engine/Scoring/Ports.antt =====
-- The port that `score_suspicious` of core-engine/src/network/stream.rs reads from an address.
use mathlib.Core.Option
use aether_lens.Prelude.{
  ℕ, ◌+◌, ◌-◌, ◌*◌, ◌≤◌, ◌<◌, ◌≡◌, refl, ap, ◌∙◌, false, none, some, [], ◌∷◌, ◌++◌, append_assoc,
  append-nil, length, arith, Text, ◌==◌, if◌then◌else◌,
}
use aether_lens.Number.{number_text}
use aether_lens.Number.Decimal.{
  IsDigits, number_text-IsDigits, number_text-pos, read_from, read_from-number_text,
}
use aether_lens.Engine.Scoring.{
  CapturedPacket, after_last_from, parse_digits, parse_u16, remote_port, rule, report,
  score_suspicious,
}

-- Digits behind the last separator are read whole.
after_last_from-digits : (cur s : Text) → IsDigits s → after_last_from b':' cur s ≡ cur ++ s
unfolding after_last_from
after_last_from-digits cur [] h = rw append-nil
after_last_from-digits cur (c ∷ s) ((low, high), h) =
    let plain : (c == b':') ≡ false = ground arith in
    rw plain (after_last_from-digits (cur ++ c ∷ []) s h ∙ append_assoc cur (c ∷ []) s)

after_last_from-port :
    (cur host s : Text) → IsDigits s → after_last_from b':' cur (host ++ b':' ∷ s) ≡ s
unfolding after_last_from
after_last_from-port cur [] s h = after_last_from-digits [] s h
after_last_from-port cur (c ∷ host) s h =
    after_last_from-port (if c == b':' then [] else cur ++ c ∷ []) host s h

le-read_from : (acc : ℕ) (s : Text) → acc ≤ read_from acc s
le-read_from acc [] = omega arith
le-read_from acc (c ∷ s) = omega (arith, le-read_from (acc * 10 + (c - b'0')) s)

parse_digits-read_from :
    (acc : ℕ) (s : Text)
    → IsDigits s
    → read_from acc s ≤ 65_535
    → parse_digits acc s ≡ some (read_from acc s)
unfolding parse_digits
parse_digits-read_from acc [] h k = refl
parse_digits-read_from acc (c ∷ s) ((low, high), h) k = ground (
  arith,
  le-read_from (acc * 10 + (c - b'0')) s,
  parse_digits-read_from (acc * 10 + (c - b'0')) s h k,
)

parse_u16-digits :
    (s : Text)
    → IsDigits s
    → 0 < length s
    → read_from 0 s ≤ 65_535
    → parse_u16 s ≡ some (read_from 0 s)
unfolding parse_u16
parse_u16-digits [] h p k = absurd (omega arith)
parse_u16-digits (c ∷ s) ((low, high), h) p k =
    let unsigned : (c == b'+') ≡ false = ground arith in
    rw unsigned (parse_digits-read_from 0 (c ∷ s) ((low, high), h) k)

pub parse_u16-number_text : (n : ℕ) → n ≤ 65_535 → parse_u16 (number_text n) ≡ some n
parse_u16-number_text n h =
    let e = read_from-number_text n in
    parse_u16-digits (number_text n) (number_text-IsDigits n) (number_text-pos n) (omega (arith, e))
    ∙ ap some e

-- Whatever stands before the last colon, the number behind it is the port.
pub remote_port-number_text :
    (packet : CapturedPacket) (host : Text) (port : ℕ)
    → port ≤ 65_535
    → packet.remote_addr ≡ host ++ b':' ∷ number_text port
    → remote_port packet ≡ port
unfolding remote_port
remote_port-number_text packet host port h e = rw (
  e,
  after_last_from-port [] host (number_text port) (number_text-IsDigits port),
  parse_u16-number_text port h,
)

-- A packet whose remote address ends in a colon and a decimal port is reported exactly if it is
-- outbound and the rules list the port, with the reason and the score of the rule; this is so
-- whatever stands before that colon.
pub score_suspicious-port :
    (packet : CapturedPacket) (host : Text) (port : ℕ)
    → port ≤ 65_535
    → packet.remote_addr ≡ host ++ b':' ∷ number_text port
    → score_suspicious packet
      ≡ (if packet.outbound then Option.map (report packet) (rule port) else none)
unfolding score_suspicious
score_suspicious-port packet host port h e = rw (remote_port-number_text packet host port h e)
