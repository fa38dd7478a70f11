-- ===== src/Server/Metrics.antt =====
-- api-server/Services/MetricsSnapshot.cs: the shared counters, each changed by atomic steps of the two
-- operations. A row of steps is one interleaving of `RecordPacket` and `Snapshot`.
pub mod Accounts
pub mod Alone
use aether_lens.Prelude.{
  ℕ, suc, ◌+◌, ◌*◌, ◌/◌, ◌^◌, ◌==◌, ltb, Bool, true, false, List, [], ◌∷◌, map, if◌then◌else◌,
}
use aether_lens.Number.{Double, integer, quotient}
use aether_lens.Server.Health.{Rates, ticks_per_second}

-- The fields, and what the exchanges of `Snapshot` have returned so far, latest first.
pub record Metrics : Type 0 where
  pub packet_count : ℕ
  pub latency_sum : ℕ
  pub max_latency : ℕ
  pub window_packets : ℕ
  pub grpc_connected : Bool
  pub window_start : ℕ
  pub taken_start : List ℕ
  pub taken_packets : List ℕ
  pub taken_latency : List ℕ
  pub taken_max : List ℕ

pub data Atomic : Type 0 where
  increment_packets increment_window take_packets take_latency take_max : Atomic
  add_latency take_start : ℕ → Atomic
  compare_exchange_max : ℕ → ℕ → Atomic
  exchange_connected : Bool → Atomic

-- `compare_exchange_max latency current`: the exchange of the loop, after `current` was read and
-- found to be less.
unfoldable pub atomically : Atomic → Metrics → Metrics
atomically increment_packets m = record m { packet_count = suc m.packet_count }
atomically increment_window m = record m { window_packets = suc m.window_packets }
atomically (add_latency ticks) m = record m { latency_sum = m.latency_sum + ticks }
atomically (compare_exchange_max ticks current) m = record m {
  max_latency = if m.max_latency == current then ticks else m.max_latency;
}
atomically (exchange_connected connected) m = record m { grpc_connected = connected }
atomically (take_start now) m = record m {
  window_start = now;
  taken_start = m.window_start ∷ m.taken_start;
}
atomically take_packets m = record m {
  window_packets = 0;
  taken_packets = m.window_packets ∷ m.taken_packets;
}
atomically take_latency m = record m {
  latency_sum = 0;
  taken_latency = m.latency_sum ∷ m.taken_latency;
}
atomically take_max m = record m { max_latency = 0; taken_max = m.max_latency ∷ m.taken_max }

unfoldable pub run : List Atomic → Metrics → Metrics
unfolding atomically
run [] m = m
run (a ∷ steps) m = run steps (atomically a m)

-- The metrics at the start, at a time of the stopwatch.
abbrev pub no_metrics : ℕ → Metrics
no_metrics start = record {
  packet_count = 0;
  latency_sum = 0;
  max_latency = 0;
  window_packets = 0;
  grpc_connected = false;
  window_start = start;
  taken_start = [];
  taken_packets = [];
  taken_latency = [];
  taken_max = [];
}

-- The steps of `RecordPacket`, with the values that its loop reads before each exchange that it
-- tries.
unfoldable pub record_packet : ℕ → List ℕ → List Atomic
record_packet ticks reads =
    increment_packets
    ∷ increment_window
    ∷ add_latency ticks
    ∷ map (compare_exchange_max ticks) reads

-- The steps of `Snapshot` on the fields, at a time of the stopwatch.
unfoldable pub snapshot : ℕ → List Atomic
snapshot now = take_start now ∷ take_packets ∷ take_latency ∷ take_max ∷ []

-- `TimeSpan.TotalSeconds` and `TimeSpan.TotalMilliseconds`, of a time span in ticks.
abbrev total_seconds : ℕ → Double
total_seconds ticks = quotient ticks ticks_per_second

abbrev total_milliseconds : ℕ → Double
total_milliseconds ticks = quotient ticks 10_000

-- `count / seconds`
abbrev per_second : ℕ → Double → Double
per_second count seconds = quotient (count * 2 ^ seconds.scale) seconds.mantissa

-- What `Snapshot` returns for what its exchanges returned. `elapsed` is `Stopwatch.GetElapsedTime`, in
-- ticks of a time span, which depends on the machine.
unfoldable pub rates_of : (ℕ → ℕ → ℕ) → ℕ → ℕ → ℕ → ℕ → ℕ → Rates
rates_of elapsed window_start now count latency_sum max_ticks = record {
  packets_per_second =
      if ltb 0 (elapsed window_start now)
      then per_second count (total_seconds (elapsed window_start now))
      else integer 0;
  avg_latency_ms =
      if ltb 0 count then total_milliseconds (elapsed 0 (latency_sum / count)) else integer 0;
  max_latency_ms = total_milliseconds (elapsed 0 max_ticks);
}

-- What an exchange returned last.
abbrev pub last_of : List ℕ → ℕ
last_of [] = 0
last_of (n ∷ ns) = n

unfoldable pub snapshot_rates : (ℕ → ℕ → ℕ) → ℕ → Metrics → Rates
unfolding rates_of
snapshot_rates elapsed now m =
    rates_of elapsed (last_of m.taken_start) now (last_of m.taken_packets) (last_of m.taken_latency)
      (last_of m.taken_max)

-- `RecordPacket` while no other operation runs: its loop tries an exchange only if the latency is
-- above the maximum that it reads, and the exchange succeeds.
unfoldable pub record_alone : ℕ → Metrics → Metrics
unfolding run record_packet
record_alone ticks m =
    run (record_packet ticks (if ltb m.max_latency ticks then m.max_latency ∷ [] else [])) m

unfoldable pub record_packets : List ℕ → Metrics → Metrics
unfolding record_alone
record_packets [] m = m
record_packets (ticks ∷ latencies) m = record_packets latencies (record_alone ticks m)
