-- ===== src/Tests/Pipeline.antt =====
-- From the engine's reports to the dashboard, for a few arrivals.
use aether_lens.Prelude.{◌≡◌, refl, true, false, none, some, [], ◌∷◌, List, codes, take, All}
use aether_lens.Number.{quotient, integer}
use aether_lens.Engine.Scoring.{CapturedPacket, SuspiciousConnection, score_suspicious, report}
use aether_lens.Engine.Messages.{PacketMessage, suspicious_message}
use aether_lens.Panels.Feed.{feed}
use aether_lens.Store.{initial}
use aether_lens.Store.Recency.{firsts}
use aether_lens.Signalr.{start_succeeded, closed, start_failed}
use aether_lens.Pipeline.{Arrival, drained, flagged, counted, measured, told, dashboard}
use aether_lens.Pipeline.Latest.{
  latest_packets, latest_alerts, latest_stats, latest_health, latest_status,
}
use aether_lens.Pipeline.Dashboard.{dashboard-latest}
use aether_lens.Pipeline.Feed.{IsListed, feed-dashboard}

abbrev irc_packet : CapturedPacket
irc_packet = record {
  process = codes "nc";
  local_addr = codes "192.168.1.10:40000";
  remote_addr = codes "1.2.3.4:6667";
  protocol = codes "TCP";
  bytes = 60;
  timestamp = 5;
  outbound = true;
}

abbrev irc_report : SuspiciousConnection
irc_report = report irc_packet (codes "Outbound IRC channel", quotient 88 100)

abbrev message : PacketMessage
message = record {
  process = codes "nc";
  local_addr = codes "192.168.1.10:40000";
  remote_addr = codes "1.2.3.4:6667";
  protocol = codes "TCP";
  bytes = 60;
  timestamp = 5;
  outbound = true;
}

abbrev arrivals : List Arrival
arrivals =
    told start_succeeded
    ∷ drained ((7, message) ∷ (8, message) ∷ [])
    ∷ flagged (suspicious_message irc_report)
    ∷ drained ((9, message) ∷ [])
    ∷ counted 1_000 (codes "nc") (record { bytes = 180; packets = 3; protocol = codes "TCP" })
    ∷ measured (λ x _. x)
        (record {
          packets_per_second = integer 3;
          avg_latency_ms = integer 2;
          max_latency_ms = integer 3;
        })
        true 0 20_000_000
    ∷ told closed
    ∷ told (start_failed (codes "refused"))
    ∷ []

dashboard-latest_example :
    let state = dashboard arrivals initial in
    (state.packets ≡ take 500 (latest_packets arrivals []))
    × (state.anomalies ≡ take 50 (latest_alerts arrivals []))
    × (state.process_stats ≡ take 100 (firsts [] (latest_stats arrivals [])))
    × (state.health ≡ latest_health arrivals none)
    × (state.connected ≡ latest_status arrivals false)
dashboard-latest_example = dashboard-latest arrivals

irc_reported : score_suspicious irc_packet ≡ some irc_report
unfolding score_suspicious
irc_reported = refl

feed-dashboard_example : All IsListed (feed 9 (dashboard arrivals initial).anomalies)
feed-dashboard_example =
    feed-dashboard 9 arrivals ((irc_packet, irc_report, irc_reported, refl), tt)
