-- ===== src/Server/Metrics/Alone.antt =====
-- api-server/Services/MetricsSnapshot.cs while its operations do not overlap.
use aether_lens.Prelude.{
  ℕ, ◌+◌, ◌≡◌, refl, ◌∙◌, List, [], ◌∷◌, arith, length, max, ltb, Bool-cases, inl, inr,
}
use aether_lens.Server.Metrics.{
  Metrics, atomically, run, record_packet, snapshot, rates_of, snapshot_rates, record_alone,
  record_packets,
}
use aether_lens.Server.Metrics.Accounts.{sum}

abbrev pub maximum : List ℕ → ℕ
maximum [] = 0
maximum (n ∷ ns) = max n (maximum ns)

-- The counters of the window.
abbrev Counts : Metrics → ℕ → ℕ → ℕ → Type 0
Counts m packets latency highest =
    (m.window_packets ≡ packets) × (m.latency_sum ≡ latency) × (m.max_latency ≡ highest)

record_alone-Counts :
    (ticks : ℕ) (m : Metrics)
    → let after = record_alone ticks m in
      Counts after (m.window_packets + 1) (m.latency_sum + ticks) (max m.max_latency ticks)
      × (after.window_start ≡ m.window_start)
unfolding record_alone run record_packet atomically
record_alone-Counts ticks m = elim (Bool-cases (ltb m.max_latency ticks)) [
  | inl above ↦ rw above ((omega arith, refl, ground arith), refl)
  | inr below ↦ rw below ((omega arith, refl, ground arith), refl)
]

record_packets-Counts :
    (latencies : List ℕ) (m : Metrics)
    → let after = record_packets latencies m in
      Counts after
        (m.window_packets + length latencies)
        (m.latency_sum + sum latencies)
        (max m.max_latency (maximum latencies))
      × (after.window_start ≡ m.window_start)
unfolding record_packets
record_packets-Counts [] m = ((omega arith, omega arith, omega arith), refl)
record_packets-Counts (ticks ∷ latencies) m =
    let ((p, l, h), w) = record_alone-Counts ticks m in
    let ((ps, ls, hs), ws) = record_packets-Counts latencies (record_alone ticks m) in
    ((omega (arith, p, ps), omega (arith, l, ls), omega (arith, h, hs)), ws ∙ w)

-- While the operations do not overlap, a snapshot returns the rates of the packets since the snapshot
-- before: their number, the sum of their latencies and the highest, over the time between the two.
pub snapshot_rates-record_packets :
    (elapsed : ℕ → ℕ → ℕ) (before now : ℕ) (latencies : List ℕ) (m : Metrics)
    → snapshot_rates elapsed now
        (run (snapshot now) (record_packets latencies (run (snapshot before) m)))
      ≡ rates_of elapsed before now (length latencies) (sum latencies) (maximum latencies)
unfolding snapshot_rates run snapshot atomically
snapshot_rates-record_packets elapsed before now latencies m =
    let ((packets, latency, highest), start) =
      record_packets-Counts latencies (run (snapshot before) m) in
    let after = record_packets latencies (run (snapshot before) m) in
    let count : after.window_packets ≡ length latencies = omega (arith, packets) in
    let total : after.latency_sum ≡ sum latencies = omega (arith, latency) in
    let most : after.max_latency ≡ maximum latencies = omega (arith, highest) in
    rw (start, count, total, most) refl
