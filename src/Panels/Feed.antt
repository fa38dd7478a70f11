-- ===== src/Panels/Feed.antt =====
-- web-dashboard/src/components/AnomalyFeed.tsx: the rows of the anomaly feed. The entrance and exit
-- animations are left out.
pub mod Rows
use aether_lens.Prelude.{ℕ, ◌+◌, List, [], ◌∷◌, ◌++◌, Text, codes, text_eq, take, if◌then◌else◌}
use aether_lens.Number.{number_text, to_fixed}
use aether_lens.Types.{SuspiciousOutboundConnection}
use aether_lens.Panels.Format.{time_ago}

-- An entry of `SEVERITY_STYLES`: class names.
pub record SeverityStyle : Type 0 where
  pub badge : Text
  pub border : Text
  pub flash : Text

abbrev pub critical_style : SeverityStyle
critical_style = record {
  badge = codes "bg-[var(--accent-red)] text-white";
  border = codes "border border-[var(--accent-red)]/30 bg-[var(--accent-red)]/8";
  flash = codes "animate-[pulse_1.5s_ease-in-out_infinite]";
}

abbrev pub warning_style : SeverityStyle
warning_style = record {
  badge = codes "bg-[var(--accent-amber)] text-black";
  border = codes "border border-[var(--accent-amber)]/20 bg-[var(--bg-card-hover)]";
  flash = [];
}

-- `SEVERITY_STYLES[severity] ?? SEVERITY_STYLES.WARNING`
unfoldable pub style_of : Text → SeverityStyle
style_of severity =
    if text_eq severity (codes "CRITICAL")
    then critical_style
    else if text_eq severity (codes "WARNING")
    then warning_style
    else warning_style

-- `TYPE_LABELS[reason] ?? reason`
unfoldable pub type_label : Text → Text
type_label reason =
    if text_eq reason (codes "Outbound Telnet attempt")
    then codes "TELNET"
    else if text_eq reason (codes "Outbound SMB connection")
    then codes "SMB"
    else if text_eq reason (codes "Outbound RDP session")
    then codes "RDP"
    else if text_eq reason (codes "Outbound IRC channel")
    then codes "IRC"
    else reason

unfoldable pub badge_text : Text → Text
badge_text severity = if text_eq severity (codes "CRITICAL") then codes "CRIT" else codes "WARN"

abbrev pub max_visible : ℕ
max_visible = 15

pub record FeedRow : Type 0 where
  pub key : Text
  pub style : SeverityStyle
  pub badge : Text
  pub process : Text
  pub label : Text
  pub remote_address : Text
  pub score : Text
  pub age : Text

unfoldable pub feed_row : ℕ → SuspiciousOutboundConnection → ℕ → FeedRow
unfolding style_of type_label badge_text time_ago to_fixed number_text
feed_row now a i = record {
  key = number_text a.timestamp ++ (codes "-" ++ (a.reason ++ (codes "-" ++ number_text i)));
  style = style_of a.severity;
  badge = badge_text a.severity;
  process = a.process;
  label = type_label a.reason;
  remote_address = a.remote_address;
  score = codes "score:" ++ to_fixed 2 a.score;
  age = time_ago now a.timestamp;
}

unfoldable pub rows_from : ℕ → ℕ → List SuspiciousOutboundConnection → List FeedRow
unfolding feed_row
rows_from now i [] = []
rows_from now i (a ∷ rest) = feed_row now a i ∷ rows_from now (i + 1) rest

-- What the feed shows; with no row it shows "No anomalies detected".
unfoldable pub feed : ℕ → List SuspiciousOutboundConnection → List FeedRow
unfolding rows_from
feed now anomalies = rows_from now 0 (take max_visible anomalies)
