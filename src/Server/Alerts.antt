-- ===== src/Server/Alerts.antt =====
-- api-server/Persistence/SuspiciousConsumerService.cs: the alert that is sent for a suspicious
-- connection.
pub mod Rows
use aether_lens.Prelude.{Text, codes, if◌then◌else◌}
use aether_lens.Number.{Double, quotient, is_le}
use aether_lens.Types.{SuspiciousOutboundConnection}
use aether_lens.Engine.Messages.{SuspiciousConnectionMessage}

-- `score >= 0.9 ? "CRITICAL" : score >= 0.8 ? "WARNING" : "INFO"`
unfoldable pub severity_of : Double → Text
unfolding is_le quotient
severity_of score =
    if is_le (quotient 9 10) score
    then codes "CRITICAL"
    else if is_le (quotient 8 10) score
    then codes "WARNING"
    else codes "INFO"

unfoldable pub alert_of : SuspiciousConnectionMessage → SuspiciousOutboundConnection
unfolding severity_of
alert_of item = record {
  process = item.process;
  remote_address = item.remote_addr;
  reason = item.reason;
  severity = severity_of item.score;
  score = item.score;
  timestamp = item.timestamp;
}
