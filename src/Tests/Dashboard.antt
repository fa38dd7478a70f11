-- ===== src/Tests/Dashboard.antt =====
-- The store, the hub's client, the console and the charts on small inputs.
use aether_lens.Prelude.{
  ℕ, ◌≡◌, refl, Bool, true, false, none, some, List, [], ◌∷◌, ◌++◌, map, Text, codes, take,
  take_last, length, text_eq, filter,
}
use aether_lens.Number.{integer}
use aether_lens.Types.{
  PacketUpdate, ProcessBandwidthUpdate, SuspiciousOutboundConnection, SystemHealthData,
}
use aether_lens.Store.{
  Action, packets_added, process_upserted, anomaly_added, health_set, connected_set, max_processes,
  initial, run,
}
use aether_lens.Store.Bounds.{IsValid, run-initial-IsValid}
use aether_lens.Store.History.{Shows, run-initial-Shows}
use aether_lens.Store.Recency.{firsts, all_updates, run-initial-firsts}
use aether_lens.Wire.{Message, encode}
use aether_lens.Signalr.{Call, stopped, Operation, mounts, unmounts, stops, unmounted, receive}
use aether_lens.Signalr
use aether_lens.Signalr.Delivery.{action_of, receive-encode}
use aether_lens.Console.{Stamp, Arrived, Notice, Console, empty}
use aether_lens.Console
use aether_lens.Console.Window.{notify-packets_same_time}
use aether_lens.Charts.Traffic.{Tick, initial_data, point_of, tick, overlay, rate}
use aether_lens.Charts.Traffic
use aether_lens.Charts.Traffic.Window.{run-initial_data}
use mathlib.Mathlib.Data.Multiset.Defs.{of_list}
use aether_lens.Charts.Protocols.Order.{slices_of, chart_data-of_list}
use aether_lens.Charts.Protocols.{chart_data, tcp}
use aether_lens.Charts.Protocols.Tally.{value_of, count_as, value_of-chart_data}

abbrev packet : Text → ℕ → PacketUpdate
packet protocol timestamp = record {
  process = codes "curl.exe";
  local_address = codes "10.0.0.5:40001";
  remote_address = codes "1.1.1.1:443";
  protocol = protocol;
  bytes = 64;
  outbound = true;
  timestamp = timestamp;
  latency_ms = integer 3;
}

abbrev usage : Text → ℕ → ProcessBandwidthUpdate
usage process timestamp = record {
  process = process;
  bytes_per_second = 2_500_000;
  packets_per_second = 12;
  protocol = tcp;
  timestamp = timestamp;
  tier = codes "MEDIUM";
}

abbrev telnet : SuspiciousOutboundConnection
telnet = record {
  process = codes "nmap.exe";
  remote_address = codes "1.2.3.4:23";
  reason = codes "Outbound Telnet attempt";
  severity = codes "CRITICAL";
  score = record { mantissa = 123; scale = 7 };
  timestamp = 7;
}

abbrev healthy : SystemHealthData
healthy = record {
  grpc_connected = true;
  packets_per_second = record { mantissa = 25; scale = 1 };
  avg_latency_ms = integer 0;
  max_latency_ms = integer 9;
  uptime = codes "00:01:00";
}

abbrev history : List Action
history =
    process_upserted (usage (codes "a") 1)
    ∷ packets_added (packet tcp 5 ∷ packet tcp 6 ∷ [])
    ∷ process_upserted (usage (codes "b") 2)
    ∷ connected_set true
    ∷ process_upserted (usage (codes "a") 3)
    ∷ anomaly_added telnet
    ∷ packets_added (packet tcp 7 ∷ [])
    ∷ health_set healthy
    ∷ []

-- The newer update of `a` replaces the older and comes first; a later batch comes first.
history_state :
    (run history initial ≡ record {
      packets = packet tcp 7 ∷ packet tcp 5 ∷ packet tcp 6 ∷ [];
      process_stats = usage (codes "a") 3 ∷ usage (codes "b") 2 ∷ [];
      anomalies = telnet ∷ [];
      health = some healthy;
      connected = true;
    })
unfolding run initial filter text_eq
history_state = refl

run-initial-IsValid_example : IsValid (run history initial)
run-initial-IsValid_example = run-initial-IsValid history

run-initial-Shows_example : Shows history [] [] initial (run history initial)
run-initial-Shows_example = run-initial-Shows history

run-initial-firsts_example :
    (run history initial).process_stats ≡ take max_processes (firsts [] (all_updates history []))
run-initial-firsts_example = run-initial-firsts history

receive-encode_example :
    receive (encode (Message.packets (packet tcp 5 ∷ [])))
    ≡ some (packets_added (packet tcp 5 ∷ []))
unfolding action_of
receive-encode_example = receive-encode (Message.packets (packet tcp 5 ∷ []))

-- Each connection opens after it was built.
abbrev none_off : ℕ → Bool
none_off i = false

abbrev all_off : ℕ → Bool
all_off i = true

abbrev visits : List ((ℕ → Bool) × Operation)
visits = (all_off, mounts) ∷ (none_off, unmounts) ∷ (all_off, mounts) ∷ (none_off, stops) ∷ []

visits_state : (Signalr.run visits unmounted).connection ≡ none
unfolding Signalr.run unmounted
visits_state = refl

abbrev stamp : Stamp
stamp = record { id = codes "1"; time = codes "10:00:00.000" }

abbrev arrived : PacketUpdate → Arrived
arrived p = record { packet = p; legacy_local = none; legacy_remote = none }

abbrev notices : List Notice
notices =
    Notice.connected stamp true
    ∷ Notice.packets stamp (arrived (packet tcp 5) ∷ [])
    ∷ Notice.packets stamp (arrived (packet (codes "UDP") 5) ∷ [])
    ∷ Notice.anomalies stamp (telnet ∷ [])
    ∷ []

-- The second packet has the timestamp of the first and is not logged.
notices_lines :
    map (λ e. e.message) (Console.run notices empty).logs
    ≡ codes "[SIGNALR] Connection established"
      ∷ codes "[PACKET] TCP 10.0.0.5:40001 -> 1.1.1.1:443 (64b)"
      ∷ codes "[ANOMALY] Outbound Telnet attempt detected for nmap.exe"
      ∷ []
unfolding Console.run empty
notices_lines = refl

notify-packets_same_time_example :
    Console.notify
      (Notice.packets stamp (arrived (packet (codes "UDP") 5) ∷ []))
      (Console.notify (Notice.packets stamp (arrived (packet tcp 5) ∷ [])) empty)
    ≡ Console.notify (Notice.packets stamp (arrived (packet tcp 5) ∷ [])) empty
notify-packets_same_time_example =
    notify-packets_same_time stamp stamp (arrived (packet tcp 5)) (arrived (packet (codes "UDP") 5))
      [] [] empty refl

abbrev ticks : List Tick
ticks =
    record { health = none; time = codes "a" }
    ∷ record { health = some healthy; time = codes "b" }
    ∷ []

run-initial_data_example :
    (Traffic.run ticks initial_data ≡ take_last 20 (initial_data ++ map point_of ticks))
    × (length (Traffic.run ticks initial_data) ≡ 20)
run-initial_data_example = run-initial_data ticks

abbrev mixed : List PacketUpdate
mixed = packet (codes "tcp") 1 ∷ packet (codes "TLSv1.3") 2 ∷ packet tcp 3 ∷ packet [] 4 ∷ []

mixed_chart :
    map {B = Text × ℕ} (λ s. (s.name, s.value)) (chart_data mixed)
    ≡ (tcp, 2) ∷ (codes "OTHER", 2) ∷ []
unfolding chart_data text_eq
mixed_chart = refl

value_of-chart_data_example : value_of tcp (chart_data mixed) ≡ count_as tcp mixed
value_of-chart_data_example = value_of-chart_data tcp mixed

chart_data-of_list_example : chart_data mixed ≡ slices_of (of_list mixed)
chart_data-of_list_example = chart_data-of_list mixed
