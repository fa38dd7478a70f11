-- ===== src/Engine/Statistics.antt =====
-- `process_packets` of core-engine/src/engine/processor.rs: the counters that it keeps, in unsigned
-- integers of 64 bits that wrap around as in a release build, and the summary that it prints for
-- each 500 packets.
pub mod Blocks
use aether_lens.Prelude.{ℕ, ◌+◌, ◌-◌, ◌/◌, ◌%◌, ◌^◌, ◌==◌, max, List, [], ◌∷◌, ◌++◌, if◌then◌else◌}

-- What the loop reads of a packet, and the time at which it does.
pub record Received : Type 0 where
  pub now_ms : ℕ
  pub timestamp : ℕ
  pub bytes : ℕ

pub record Statistics : Type 0 where
  pub packet_count : ℕ
  pub total_bytes : ℕ
  pub latency_sum : ℕ
  pub latency_max : ℕ

-- The summary line: packets, bytes, average and maximum.
pub record Summary : Type 0 where
  pub packets : ℕ
  pub bytes : ℕ
  pub average : ℕ
  pub highest : ℕ

abbrev pub wrap : ℕ → ℕ
wrap n = n % 2 ^ 64

-- `now_ms.saturating_sub(p.timestamp)`
abbrev pub latency : Received → ℕ
latency p = p.now_ms - p.timestamp

unfoldable pub count_packet : Received → Statistics → Statistics
count_packet p s = record {
  packet_count = wrap (s.packet_count + 1);
  total_bytes = wrap (s.total_bytes + p.bytes);
  latency_sum = wrap (s.latency_sum + latency p);
  latency_max = max s.latency_max (latency p);
}

abbrev pub summary_of : Statistics → Summary
summary_of s = record {
  packets = s.packet_count;
  bytes = s.total_bytes;
  average = s.latency_sum / 500;
  highest = s.latency_max;
}

abbrev pub reset : Statistics → Statistics
reset s = record s { latency_sum = 0; latency_max = 0 }

-- The summaries that are printed for a row of packets.
unfoldable pub summaries : List Received → Statistics → List Summary
unfolding count_packet
summaries [] s = []
summaries (p ∷ packets) s =
    let next = count_packet p s in
    let printed = summaries packets (reset next) in
    let silent = summaries packets next in
    if next.packet_count % 500 == 0 then summary_of next ∷ printed else silent

abbrev pub no_statistics : Statistics
no_statistics = record { packet_count = 0; total_bytes = 0; latency_sum = 0; latency_max = 0 }
