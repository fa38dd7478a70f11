-- ===== src/Engine/Capture/Loop.antt =====
-- The loop of `run_sniffer_loop` in core-engine/src/network/stream.rs: each frame that is read is
-- parsed, sent, scored and reported. A send fails once the receiver of its channel is gone.
pub mod Sent
use aether_lens.Prelude.{
  ℕ, Bool, true, false, Option, none, some, List, [], ◌∷◌, ◌++◌, if◌then◌else◌,
}
use aether_lens.Engine.Scoring.{CapturedPacket, SuspiciousConnection, score_suspicious}
use aether_lens.Engine.Capture.{Ethernet, Host, parse_packet}

-- A frame that was read, and whether the two receivers are there when it is handled.
pub record Frame : Type 0 where
  pub length : ℕ
  pub ethernet : Option Ethernet
  pub clock : Option ℕ
  pub packet_open : Bool
  pub suspicious_open : Bool

pub record Sniffer : Type 0 where
  pub running : Bool
  pub packets : List CapturedPacket
  pub suspicious : List SuspiciousConnection

-- `if let Some(suspicious) = score_suspicious(&packet)`
unfoldable pub report_if : Bool → Option SuspiciousConnection → Sniffer → Sniffer
report_if open_channel none s = s
report_if true (some found) s = record s { suspicious = s.suspicious ++ found ∷ [] }
report_if false (some found) s = record s { running = false }

unfoldable pub handle_packet : Frame → Option CapturedPacket → Sniffer → Sniffer
unfolding report_if
handle_packet f none s = s
handle_packet f (some packet) s =
    if f.packet_open
    then report_if f.suspicious_open (score_suspicious packet)
        (record s { packets = s.packets ++ packet ∷ [] })
    else record s { running = false }

-- `while let Ok(frame) = rx.next()`, until a send fails.
unfoldable pub sniff : Host → List Frame → Sniffer → Sniffer
unfolding handle_packet
sniff host [] s = s
sniff host (f ∷ frames) s =
    let next = handle_packet f (parse_packet host f.length f.ethernet f.clock) s in
    let rest = sniff host frames next in if s.running then rest else s

abbrev pub started : Sniffer
started = record { running = true; packets = []; suspicious = [] }
