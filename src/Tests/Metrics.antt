-- ===== src/Tests/Metrics.antt =====
-- One packet recorded while a snapshot is taken.
use aether_lens.Server.Metrics.Alone.{snapshot_rates-record_packets}
use aether_lens.Prelude.{ℕ, ◌-◌, ◌+◌, ◌≡◌, List, [], ◌∷◌}
use aether_lens.Server.Metrics
use aether_lens.Server.Metrics.{
  Atomic, increment_packets, increment_window, add_latency, compare_exchange_max, take_start,
  take_packets, take_latency, take_max, record_packet, snapshot, no_metrics, rates_of,
  snapshot_rates, record_packets,
}
use aether_lens.Server.Metrics.Accounts.{
  Recording, record_all, snapshots, Merge, done, left, right, sum, Merge-Accounts,
}

abbrev recordings : List Recording
recordings = (25, 0 ∷ []) ∷ []

-- The packet's count is taken before its latency is there.
abbrev interleaved : List Atomic
interleaved =
    increment_packets
    ∷ increment_window
    ∷ take_start 70
    ∷ take_packets
    ∷ take_latency
    ∷ add_latency 25
    ∷ take_max
    ∷ compare_exchange_max 25 0
    ∷ []

merged : Merge (record_all recordings) (snapshots (70 ∷ [])) interleaved
unfolding record_packet snapshot
merged = left increment_packets (
    left increment_window (
      right (take_start 70) (
        right take_packets (
          right take_latency
            (left (add_latency 25) (right take_max (left (compare_exchange_max 25 0) done)))))))

Merge-Accounts_example :
    let m = Metrics.run interleaved (no_metrics 3) in
    (m.packet_count ≡ 1)
    × (sum m.taken_packets + m.window_packets ≡ 1)
    × (sum m.taken_latency + m.latency_sum ≡ 25)
Merge-Accounts_example = Merge-Accounts recordings (70 ∷ []) 3 interleaved merged

abbrev latencies : List ℕ
latencies = 20 ∷ 50 ∷ 20 ∷ []

-- The stopwatch ticks once in a tick of a time span.
snapshot_rates-record_packets_example :
    snapshot_rates
      (λ from to. to - from)
      10_000_000
      (Metrics.run
        (snapshot 10_000_000)
        (record_packets latencies (Metrics.run (snapshot 0) (no_metrics 0))))
    ≡ rates_of (λ from to. to - from) 0 10_000_000 3 90 50
snapshot_rates-record_packets_example =
    snapshot_rates-record_packets (λ from to. to - from) 0 10_000_000 latencies (no_metrics 0)
