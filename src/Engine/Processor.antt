-- ===== src/Engine/Processor.antt =====
-- The tasks of core-engine/src/engine/processor.rs: `process_packets` and `process_suspicious` on what they
-- receive until their channels close, with what is printed and what is broadcast, and the streams that
-- subscribers get. The time at which a packet is received is an argument.
pub mod Reports
use aether_lens.Prelude.{ℕ, ◌%◌, ◌==◌, Option, none, some, List, [], ◌∷◌, ◌++◌, Text, if◌then◌else◌}
use aether_lens.Engine.Scoring.{CapturedPacket, SuspiciousConnection}
use aether_lens.Engine.Messages.{
  PacketMessage, SuspiciousConnectionMessage, packet_message, suspicious_message,
}
use aether_lens.Engine.Statistics.{Received, Statistics, Summary, count_packet, summary_of, reset}

-- A line of the standard error: the addresses of a packet, or a summary.
pub data Line : Type 0 where
  processing : Text → Text → Line
  totals : Summary → Line

pub record Processed : Type 0 where
  pub lines : List Line
  pub sent : List PacketMessage

abbrev pub received : ℕ × CapturedPacket → Received
received (now_ms, p) = record { now_ms = now_ms; timestamp = p.timestamp; bytes = p.bytes }

-- The line before a packet is counted.
abbrev opening : Statistics → CapturedPacket → List Line
opening s p = if s.packet_count % 500 == 0 then processing p.local_addr p.remote_addr ∷ [] else []

abbrev put_first : List Line → List Line → PacketMessage → Processed → Processed
put_first before after msg rest = record {
  lines = before ++ (after ++ rest.lines);
  sent = msg ∷ rest.sent;
}

unfoldable pub process_packets : List (ℕ × CapturedPacket) → Statistics → Processed
unfolding count_packet packet_message
process_packets [] s = record { lines = []; sent = [] }
process_packets ((now_ms, p) ∷ packets) s =
    let next = count_packet (received (now_ms, p)) s in
    let printed = process_packets packets (reset next) in
    let silent = process_packets packets next in
    if next.packet_count % 500 == 0
    then put_first (opening s p) (totals (summary_of next) ∷ []) (packet_message p) printed
    else put_first (opening s p) [] (packet_message p) silent

unfoldable pub process_suspicious : List SuspiciousConnection → List SuspiciousConnectionMessage
unfolding suspicious_message
process_suspicious [] = []
process_suspicious (item ∷ items) = suspicious_message item ∷ process_suspicious items

-- What a subscriber's stream yields of what the broadcast channel yields, where a lag is no message.
unfoldable pub subscribed : {A : Type 0} → List (Option A) → List A
subscribed [] = []
subscribed (none ∷ results) = subscribed results
subscribed (some m ∷ results) = m ∷ subscribed results
