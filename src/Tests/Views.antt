-- ===== src/Tests/Views.antt =====
-- What the components render, for a few actions and notices.
use aether_lens.Prelude.{
  ◌≡◌, refl, true, false, none, [], ◌∷◌, ◌++◌, List, Text, codes, take_last, if◌then◌else◌,
}
use aether_lens.Number.{integer, number_text}
use aether_lens.Types.{ProcessBandwidthUpdate, SuspiciousOutboundConnection, SystemHealthData}
use aether_lens.Store.{
  Action, process_upserted, anomaly_added, health_set, connected_set, initial, run,
}
use aether_lens.Store.History.{last_health, last_connected}
use aether_lens.Console.{Stamp, Notice, empty}
use aether_lens.Console
use aether_lens.Console.Window.{logged}
use aether_lens.Charts.Traffic.{initial_data}
use aether_lens.Charts.Protocols.{ProtocolData}
use aether_lens.Panels.Health.{or_default}
use aether_lens.Panels.Tracker.{tracker}
use aether_lens.Panels.Feed.{feed}
use aether_lens.View.{element, text_content}
use aether_lens.View.Console.{live_console}
use aether_lens.View.Console.Lines.{log_text, text_content-live_console}
use aether_lens.View.Tracker.{process_rows}
use aether_lens.View.Feed.{anomaly_rows}
use aether_lens.View.Charts.{cells_from}
use aether_lens.View.Keys.{HasDistinctKeys, run-HasDistinctKeys}
use aether_lens.View.Health.{Runtime, system_health}
use aether_lens.View.Page.{Screen, page_header}
use aether_lens.View.Page.Status.{health_text, run-initial-texts}

abbrev usage : Text → ProcessBandwidthUpdate
usage process = record {
  process = process;
  bytes_per_second = 2_500_000;
  packets_per_second = 12;
  protocol = codes "TCP";
  timestamp = 7;
  tier = codes "MEDIUM";
}

abbrev telnet : SuspiciousOutboundConnection
telnet = record {
  process = codes "nmap.exe";
  remote_address = codes "1.2.3.4:23";
  reason = codes "Outbound Telnet attempt";
  severity = codes "CRITICAL";
  score = integer 1;
  timestamp = 7;
}

abbrev healthy : SystemHealthData
healthy = record {
  grpc_connected = true;
  packets_per_second = integer 12;
  avg_latency_ms = integer 3;
  max_latency_ms = integer 9;
  uptime = codes "00:01:00";
}

-- The same alert comes twice, and one process reports after another.
abbrev actions : List Action
actions =
    connected_set true
    ∷ process_upserted (usage (codes "curl"))
    ∷ process_upserted (usage (codes "nmap"))
    ∷ anomaly_added telnet
    ∷ anomaly_added telnet
    ∷ health_set healthy
    ∷ []

abbrev two_slices : List ProtocolData
two_slices =
    record { name = codes "TCP"; value = 2; color = codes "#0096ff" }
    ∷ record { name = codes "UDP"; value = 1; color = codes "#22c55e" }
    ∷ []

run-HasDistinctKeys_example :
    HasDistinctKeys (process_rows (tracker (run actions initial).process_stats))
    × HasDistinctKeys (anomaly_rows (feed 9 (run actions initial).anomalies))
    × HasDistinctKeys (cells_from 0 two_slices)
run-HasDistinctKeys_example = run-HasDistinctKeys actions 9 two_slices

abbrev stamp : Stamp
stamp = record { id = codes "1"; time = codes "10:00:00.000" }

abbrev notices : List Notice
notices = Notice.connected stamp true ∷ Notice.anomalies stamp (telnet ∷ []) ∷ []

connected_line :
    text_content (live_console (Console.run (Notice.connected stamp false ∷ []) empty).logs)
    ≡ codes "Live Engine ConsoleACTIVE[10:00:00.000]ERROR[SIGNALR] Connection lost"
unfolding text_content live_console Console.run empty
connected_line = refl

text_content-live_console_example :
    text_content (live_console (Console.run notices empty).logs)
    ≡ codes "Live Engine ConsoleACTIVE" ++ log_text (take_last 50 (logged 0 notices))
text_content-live_console_example = text_content-live_console notices

abbrev runtime : Runtime
runtime = record { cn = λ a b. a ++ codes " " ++ b; print = λ x. number_text x.mantissa }

abbrev screen : Screen
screen = record {
  store = run actions initial;
  clock = codes "2024-05-01 10:00:00 UTC";
  display_latency = integer 138;
  points = initial_data;
  slices = two_slices;
  logs = (Console.run notices empty).logs;
  now = 9;
  runtime = runtime;
  area_chart = λ points children. element (codes "AreaChart") [] children;
  pie_chart = λ slices settings cells. element (codes "Pie") settings cells;
}

run-initial-texts_example :
    (text_content (page_header screen)
      ≡ codes "AETHERLENS v1.0 LAB"
        ++ (screen.clock
            ++ (runtime.print screen.display_latency
                ++ (codes "ms"
                    ++ (if last_connected actions false
                        then codes "SYSTEM ONLINE"
                        else codes "OFFLINE")))))
    × (text_content (system_health runtime screen.store.health screen.store.connected)
        ≡ health_text (or_default (last_health actions none)))
run-initial-texts_example = run-initial-texts actions screen refl
