-- ===== src/Pipeline/Feed.antt =====
-- The anomaly feed of the dashboard for what the engine reported.
use mathlib.Core.Path.{subst}
use aether_lens.Prelude.{ℕ, ◌≡◌, sym, some, List, [], ◌∷◌, All, All-take}
use aether_lens.Types.{SuspiciousOutboundConnection}
use aether_lens.Engine.Scoring.{CapturedPacket, SuspiciousConnection, score_suspicious, remote_port}
use aether_lens.Engine.Messages.{SuspiciousConnectionMessage, suspicious_message}
use aether_lens.Server.Alerts.{alert_of}
use aether_lens.Server.Alerts.Rows.{Listed, feed_row-score_suspicious}
use aether_lens.Panels.Feed.{FeedRow, feed_row, feed}
use aether_lens.Panels.Feed.Rows.{All-feed}
use aether_lens.Store.{initial}
use aether_lens.Pipeline.{Arrival, drained, flagged, counted, measured, told, dashboard}
use aether_lens.Pipeline.Latest.{latest_alerts}
use aether_lens.Pipeline.Dashboard.{dashboard-latest}

-- The message is the engine's report of a packet.
abbrev pub IsReport : SuspiciousConnectionMessage → Type 0
IsReport item =
    (packet : CapturedPacket) × (s : SuspiciousConnection) × (score_suspicious packet ≡ some s)
    × (item ≡ suspicious_message s)

abbrev pub AreReports : List Arrival → Type 0
AreReports [] = Unit
AreReports (flagged item ∷ arrivals) = IsReport item × AreReports arrivals
AreReports (_ ∷ arrivals) = AreReports arrivals

-- The row has the badge and the label of one of the four listed ports.
abbrev pub IsListed : FeedRow → Type 0
IsListed row = (port : ℕ) × Listed port row

abbrev Shown : ℕ → SuspiciousOutboundConnection → Type 0
Shown now a = (i : ℕ) → IsListed (feed_row now a i)

IsReport-Shown :
    (now : ℕ) (item : SuspiciousConnectionMessage) → IsReport item → Shown now (alert_of item)
IsReport-Shown now item (packet, s, found, e) i =
    (remote_port packet, rw e (feed_row-score_suspicious now i packet s found))

latest_alerts-Shown :
    (now : ℕ) (arrivals : List Arrival) (older : List SuspiciousOutboundConnection)
    → AreReports arrivals
    → All (Shown now) older
    → All (Shown now) (latest_alerts arrivals older)
latest_alerts-Shown now [] older h k = k
latest_alerts-Shown now (drained waiting ∷ arrivals) older h k =
    latest_alerts-Shown now arrivals older h k
latest_alerts-Shown now (counted _ _ _ ∷ arrivals) older h k =
    latest_alerts-Shown now arrivals older h k
latest_alerts-Shown now (measured _ _ _ _ _ ∷ arrivals) older h k =
    latest_alerts-Shown now arrivals older h k
latest_alerts-Shown now (told report ∷ arrivals) older h k =
    latest_alerts-Shown now arrivals older h k
latest_alerts-Shown now (flagged item ∷ arrivals) older (r, h) k =
    latest_alerts-Shown now arrivals (alert_of item ∷ older) h (IsReport-Shown now item r, k)

-- After any row of arrivals in which each suspicious connection is the engine's report of a packet,
-- each row of the dashboard's anomaly feed is critical with the label TELNET or SMB, or a warning
-- with the label RDP or IRC.
pub feed-dashboard :
    (now : ℕ) (arrivals : List Arrival)
    → AreReports arrivals
    → All IsListed (feed now (dashboard arrivals initial).anomalies)
feed-dashboard now arrivals h = All-feed now IsListed _ (
    subst (All (Shown now)) (sym (dashboard-latest arrivals).1) (
      All-take (Shown now) 50 (latest_alerts arrivals [])
        (latest_alerts-Shown now arrivals [] h tt)))
