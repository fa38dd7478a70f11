-- ===== src/Server/Alerts/Rows.antt =====
-- From a report of core-engine/src/network/stream.rs through
-- api-server/Persistence/SuspiciousConsumerService.cs to a row of
-- web-dashboard/src/components/AnomalyFeed.tsx.

use aether_lens.Prelude.{
  ℕ, ◌≡◌, ◌⊎◌, inl, inr, refl, some, Text, codes, text_eq, ◌==◌, Each, Each-map, Each-some, ==_iff,
  Bool-cases,
}
use aether_lens.Number.{Double}
use aether_lens.Engine.Scoring.{
  CapturedPacket, SuspiciousConnection, remote_port, rule, report, score_suspicious,
}
use aether_lens.Engine.Messages.{suspicious_message}
use aether_lens.Server.Alerts.{severity_of, alert_of}
use aether_lens.Panels.Feed.{FeedRow, feed_row, type_label, badge_text}

-- A row for a connection to the port, with its badge and label.
abbrev pub ShownAs : ℕ → FeedRow → ℕ → Text → Text → Type 0
ShownAs port row listed badge label = (port ≡ listed) × (row.badge ≡ badge) × (row.label ≡ label)

-- The row that the rules' four ports have.
abbrev pub Listed : ℕ → FeedRow → Type 0
Listed port row =
    ShownAs port row 23 (codes "CRIT") (codes "TELNET")
    ⊎ ShownAs port row 445 (codes "CRIT") (codes "SMB")
    ⊎ ShownAs port row 3389 (codes "WARN") (codes "RDP")
    ⊎ ShownAs port row 6667 (codes "WARN") (codes "IRC")

row_of : ℕ → ℕ → CapturedPacket → Text × Double → FeedRow
row_of now i packet found = feed_row now (alert_of (suspicious_message (report packet found))) i

rule-Listed :
    (now i : ℕ) (packet : CapturedPacket) (port : ℕ)
    → Each (λ found. Listed port (row_of now i packet found)) (rule port)
unfolding rule row_of feed_row alert_of suspicious_message severity_of badge_text type_label text_eq
rule-Listed now i packet port = elim (Bool-cases (port == 23)) [
  | inl telnet ↦ rw telnet (inl ((==_iff port 23).0 telnet, refl, refl))
  | inr no_telnet ↦ rw no_telnet (elim (Bool-cases (port == 445)) [
    | inl smb ↦ rw smb (inr (inl ((==_iff port 445).0 smb, refl, refl)))
    | inr no_smb ↦ rw no_smb (elim (Bool-cases (port == 3389)) [
      | inl rdp ↦ rw rdp (inr (inr (inl ((==_iff port 3389).0 rdp, refl, refl))))
      | inr no_rdp ↦ rw no_rdp (elim (Bool-cases (port == 6667)) [
        | inl irc ↦ rw irc (inr (inr (inr ((==_iff port 6667).0 irc, refl, refl))))
        | inr no_irc ↦ rw no_irc tt
      ])
    ])
  ])
]

score_suspicious-Listed :
    (now i : ℕ) (packet : CapturedPacket)
    → Each
        (λ s. Listed (remote_port packet) (feed_row now (alert_of (suspicious_message s)) i))
        (score_suspicious packet)
unfolding score_suspicious row_of
score_suspicious-Listed now i packet = elim (Bool-cases packet.outbound) [
  | inl out ↦ rw out (
      Each-map _ (report packet) (rule (remote_port packet))
        (rule-Listed now i packet (remote_port packet)))
  | inr local ↦ rw local tt
]

-- A connection that the engine reports is sent by the server and shown in the anomaly feed as
-- critical TELNET or SMB, or as a warning RDP or IRC, by the port that the engine read.
pub feed_row-score_suspicious :
    (now i : ℕ) (packet : CapturedPacket) (s : SuspiciousConnection)
    → score_suspicious packet ≡ some s
    → Listed (remote_port packet) (feed_row now (alert_of (suspicious_message s)) i)
feed_row-score_suspicious now i packet s h =
    Each-some (λ s. Listed (remote_port packet) (feed_row now (alert_of (suspicious_message s)) i))
      h (score_suspicious-Listed now i packet)
