-- ===== src/Engine/Demo/Traffic.antt =====
-- The packets and alerts of core-engine/src/network/demo_stream.rs.

use aether_lens.Prelude.{
  ℕ, ◌+◌, ◌%◌, ◌/◌, ◌^◌, ◌≤◌, ◌≡◌, ◌⊎◌, inl, inr, refl, ◌∙◌, ◌&&◌, Bool-cases, some, Text, codes,
  text_eq, ◌==◌, Each, Each-some, arith, length,
}
use aether_lens.Number.{quotient, is_le}
use aether_lens.Engine.Scoring.{CapturedPacket, SuspiciousConnection, remote_port}
use aether_lens.Engine.Scoring.Ports.{remote_port-number_text}
use aether_lens.Engine.Messages.{suspicious_message}
use aether_lens.Engine.Demo.{at, remote_ips, demo_packet, demo_suspicious, is_dangerous}
use aether_lens.Server.Alerts.{severity_of, alert_of}
use aether_lens.Panels.Feed.{feed_row, badge_text}

-- A generated packet has from 64 to 1463 bytes, and its remote address ends in a port from 80 to
-- 5079, the one that the scoring reads from it.
pub demo_packet_bounds :
    (counter ts : ℕ)
    → let packet = demo_packet counter ts in
      (64 ≤ packet.bytes)
      × (packet.bytes ≤ 1463)
      × (remote_port packet ≡ 80 + ts % 5000)
      × (80 + ts % 5000 ≤ 5079)
unfolding demo_packet
demo_packet_bounds counter ts = (
  omega arith,
  omega arith,
  remote_port-number_text (demo_packet counter ts) (at remote_ips (ts / 10 % length remote_ips))
        (80 + ts % 5000 % 2 ^ 16) (omega arith) refl
      ∙ omega arith,
  omega arith,
)

-- How an alert is sent and shown.
abbrev pub SentAs : ℕ → ℕ → SuspiciousConnection → Text → Text → Type 0
SentAs now i s severity badge =
    let alert = alert_of (suspicious_message s) in
    (alert.severity ≡ severity) × ((feed_row now alert i).badge ≡ badge)

Sent : ℕ → ℕ → SuspiciousConnection → Type 0
Sent now i s =
    SentAs now i s (codes "CRITICAL") (codes "CRIT") ⊎ SentAs now i s (codes "INFO") (codes "WARN")

Each-demo_suspicious :
    (now i counter : ℕ) (packet : CapturedPacket)
    → Each (Sent now i) (demo_suspicious counter packet)
unfolding demo_suspicious Sent alert_of suspicious_message severity_of feed_row badge_text text_eq
    quotient is_le
Each-demo_suspicious now i counter packet =
    elim (Bool-cases (is_dangerous packet.process && counter % 10 == 0)) [
      | inl danger ↦ rw danger (inl (refl, refl))
      | inr calm ↦ rw calm (elim (Bool-cases (counter % 200 == 0)) [
        | inl due ↦ rw due (inr (refl, refl))
        | inr other ↦ rw other tt
      ])
    ]

-- A generated report is sent as critical and shown so, or is sent as information and shown as a
-- warning.
pub demo_suspicious-SentAs :
    (now i counter : ℕ) (packet : CapturedPacket) (s : SuspiciousConnection)
    → demo_suspicious counter packet ≡ some s
    → SentAs now i s (codes "CRITICAL") (codes "CRIT")
      ⊎ SentAs now i s (codes "INFO") (codes "WARN")
unfolding Sent
demo_suspicious-SentAs now i counter packet s h =
    Each-some (Sent now i) h (Each-demo_suspicious now i counter packet)
