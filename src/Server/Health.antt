-- ===== src/Server/Health.antt =====
-- api-server/Services/SystemMonitorService.cs: the health message. What `Math.Round` makes of a
-- number is an argument, as are the snapshot and the times.
pub mod Uptime
use aether_lens.Prelude.{ℕ, ◌-◌, ◌/◌, ◌%◌, Bool, ◌∷◌, ◌++◌, Text, ltb, if◌then◌else◌}
use aether_lens.Number.{Double, number_text}
use aether_lens.Types.{SystemHealthData}

-- `n:D2`: at least two digits.
unfoldable pub two_digits : ℕ → Text
two_digits n = if ltb n 10 then b'0' ∷ number_text n else number_text n

-- A `TimeSpan` is its ticks of 100 nanoseconds.
abbrev pub ticks_per_second : ℕ
ticks_per_second = 10_000_000

-- `$"{(int)uptime.TotalHours:D2}:{uptime.Minutes:D2}:{uptime.Seconds:D2}"`
unfoldable pub uptime_text : ℕ → Text
uptime_text ticks =
    let seconds = ticks / ticks_per_second in
    two_digits (seconds / 3600)
    ++ b':' ∷ (two_digits (seconds / 60 % 60) ++ b':' ∷ two_digits (seconds % 60))

-- What `Snapshot` returns.
pub record Rates : Type 0 where
  pub packets_per_second : Double
  pub avg_latency_ms : Double
  pub max_latency_ms : Double

unfoldable pub health_message : (Double → ℕ → Double) → Rates → Bool → ℕ → ℕ → SystemHealthData
unfolding uptime_text
health_message round rates grpc_connected start_time now = record {
  grpc_connected = grpc_connected;
  packets_per_second = round rates.packets_per_second 1;
  avg_latency_ms = round rates.avg_latency_ms 2;
  max_latency_ms = round rates.max_latency_ms 2;
  uptime = uptime_text (now - start_time);
}
