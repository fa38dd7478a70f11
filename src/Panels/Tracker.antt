-- ===== src/Panels/Tracker.antt =====
-- web-dashboard/src/components/ProcessTracker.tsx: the rows of the process list.
use aether_lens.Prelude.{List, map, ◌++◌, Text, codes, text_eq, if◌then◌else◌}
use aether_lens.Number.{number_text}
use aether_lens.Types.{ProcessBandwidthUpdate}
use aether_lens.Panels.Format.{format_bytes}

pub record TrackerRow : Type 0 where
  pub key : Text
  pub process : Text
  pub protocol : Text
  pub tier : Text
  pub tier_class : Text
  pub rate : Text
  pub packets : Text

unfoldable pub tier_class : Text → Text
tier_class tier =
    if text_eq tier (codes "HIGH")
    then codes "bg-[var(--accent-red)]/15 text-[var(--accent-red)]"
    else if text_eq tier (codes "MEDIUM")
    then codes "bg-[var(--accent-amber)]/15 text-[var(--accent-amber)]"
    else codes "bg-[var(--accent-green)]/15 text-[var(--accent-green)]"

unfoldable pub tracker_row : ProcessBandwidthUpdate → TrackerRow
unfolding tier_class format_bytes number_text
tracker_row p = record {
  key = p.process ++ (codes "-" ++ number_text p.timestamp);
  process = p.process;
  protocol = p.protocol;
  tier = p.tier;
  tier_class = tier_class p.tier;
  rate = format_bytes p.bytes_per_second;
  packets = number_text p.packets_per_second ++ codes " pkts/s";
}

-- With no row the tracker shows "Waiting for network process activity...".
unfoldable pub tracker : List ProcessBandwidthUpdate → List TrackerRow
unfolding tracker_row
tracker process_stats = map tracker_row process_stats
