-- ===== src/Tests/System.antt =====
-- A packet's way through the whole system, step by step.
use mathlib.Core.List.{Sublist}
use aether_lens.Prelude.{
  ◌≤◌, ◌≡◌, refl, true, false, [], ◌∷◌, List, codes, Text, length, take, reverse, map, text_eq,
}
use aether_lens.Types.{SuspiciousOutboundConnection}
use aether_lens.Engine.Scoring.{CapturedPacket}
use aether_lens.Engine.Scoring.{score_suspicious}
use aether_lens.Engine.Messages.{packet_message}
use aether_lens.Server.Persistence.{enqueue}
use aether_lens.Server.Consumer
use aether_lens.Server.Consumer.{hold, set_counter}
use aether_lens.Server.Batches.{drain}
use aether_lens.System
use aether_lens.System.{
  Reach, start, later, capture, broadcast, broadcast_report, write, write_report, read, look_at,
  send_stats, flush, alert, handle, persist,
}
use aether_lens.System.Rows.{Reach-stored}
use aether_lens.System.Upstream.{origin, messages}
use aether_lens.System.Handled.{handled, batches, stats_updates}
use aether_lens.Store.Recency.{firsts}
use aether_lens.Server.Consumer.Conservation.{bytes_sent}
use aether_lens.System.Packets.{Reach-packets, newest, oldest}
use aether_lens.System.Alerts.{Reach-anomalies}
use aether_lens.System.Reported.{in_order, found, alert_from}
use aether_lens.System.Bytes.{Reach-bytes}
use aether_lens.System.Totals.{bytes_of}
use aether_lens.System.Limits.{IsBounded, Reach-IsBounded}
use aether_lens.System.Complete.{Reach-complete, shown}

abbrev packet : CapturedPacket
packet = record {
  process = codes "nc";
  local_addr = codes "192.168.1.10:40000";
  remote_addr = codes "1.2.3.4:6667";
  protocol = codes "TCP";
  bytes = 60;
  timestamp = 5;
  outbound = true;
}

-- It is read and counted, and its process is reported.
abbrev counted : (s : System.System) × Reach (packet ∷ []) s
unfolding System.initial_system System.send_captured System.consume_packet System.send_message
    enqueue Consumer.step hold set_counter text_eq packet_message
counted =
    let captured = later start (capture packet) in
    let read_one = later (later (later captured (broadcast refl)) (write refl)) (read 7 refl) in
    (_, later (later read_one (look_at (codes "nc"))) (send_stats 1_000 refl))

-- Its batch and the update of its process are handled.
abbrev delivered : (s : System.System) × Reach (packet ∷ []) s
unfolding System.initial_system System.send_captured System.consume_packet System.send_message
    enqueue Consumer.step hold set_counter text_eq packet_message drain
delivered = (_, later (later (later counted.1 (flush refl refl)) (handle refl)) (handle refl))

-- Its alert is handled, and its row is stored on the second attempt.
abbrev all_the_way : (s : System.System) × Reach (packet ∷ []) s
unfolding System.initial_system System.send_captured System.consume_packet System.send_message
    enqueue score_suspicious text_eq delivered
all_the_way =
    let sent =
      later (later (later delivered.1 (broadcast_report refl)) (write_report refl)) (alert refl) in
    (_, later (later sent (handle refl)) (persist (record { first = false; second = true })))

Reach-packets_example :
    (all_the_way.0.store.packets ≡ take 500 (newest (batches (handled all_the_way.1))))
    × Sublist (map origin (oldest (batches (handled all_the_way.1)))) (messages (packet ∷ []))
Reach-packets_example = Reach-packets all_the_way.1

Reach-bytes_example :
    (all_the_way.0.store.process_stats
      ≡ take 100 (firsts [] (stats_updates (handled all_the_way.1))))
    × ((k : Text)
        → bytes_sent k (stats_updates (handled all_the_way.1))
          ≤ bytes_of k (messages (packet ∷ [])))
Reach-bytes_example = Reach-bytes all_the_way.1

-- In this run a batch, an update and an alert are handled.
handled_runs :
    (length (handled all_the_way.1) ≡ 3)
    × (length (batches (handled all_the_way.1)) ≡ 1)
    × (bytes_sent (codes "nc") (stats_updates (handled all_the_way.1)) ≡ 60)
unfolding all_the_way
handled_runs = (refl, refl, refl)

Reach-anomalies_example :
    (alerts : List SuspiciousOutboundConnection) × (all_the_way.0.store.anomalies ≡ take 50 alerts)
    × Sublist (in_order alerts) (map alert_from (found (packet ∷ [])))
Reach-anomalies_example = Reach-anomalies all_the_way.1

Reach-stored_example : Sublist (map origin all_the_way.0.worker.stored) (messages (packet ∷ []))
Reach-stored_example = Reach-stored all_the_way.1

Reach-complete_example :
    (s : System.System) × Reach (packet ∷ packet ∷ []) s
    × (s.store.packets ≡ take 500 (reverse (map (shown 7) (packet ∷ packet ∷ []))))
    × (s.store.anomalies ≡ take 50 (reverse (map alert_from (found (packet ∷ packet ∷ [])))))
    × (s.worker.stored ≡ map (shown 7) (packet ∷ packet ∷ []))
Reach-complete_example = Reach-complete 7 (packet ∷ packet ∷ [])

Reach-IsBounded_example : IsBounded all_the_way.0
Reach-IsBounded_example = Reach-IsBounded all_the_way.1
