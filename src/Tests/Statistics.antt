-- ===== src/Tests/Statistics.antt =====
-- 500 packets and one more.
use aether_lens.Prelude.{
  ℕ, zero, suc, ◌+◌, ◌≡◌, refl, true, List, [], ◌∷◌, map, length, codes, arith,
}
use aether_lens.Engine.Scoring.{CapturedPacket}
use aether_lens.Engine.Messages.{packet_message}
use aether_lens.Engine.Processor.{process_packets, received}
use aether_lens.Engine.Processor.Reports.{
  openings_of, summaries_of, starts, process_packets-no_statistics,
}
use aether_lens.Engine.Statistics.{Received, summaries, count_packet, no_statistics}
use aether_lens.Engine.Statistics.Blocks.{by_blocks, summaries-by_blocks}

-- Latencies that grow by one millisecond.
abbrev delayed : ℕ → List Received
delayed zero = []
delayed (suc n) = record { now_ms = 1000 + n; timestamp = 1000; bytes = 60 } ∷ delayed n

delayed_summary :
    summaries (delayed 501) no_statistics
    ≡ record { packets = 500; bytes = 30_000; average = 250; highest = 500 } ∷ []
unfolding summaries count_packet
delayed_summary = refl

summaries-by_blocks_example : summaries (delayed 501) no_statistics ≡ by_blocks (delayed 501) [] []
summaries-by_blocks_example =
    summaries-by_blocks (delayed 501) (omega arith) (omega arith) (omega arith)

-- The same packets, as the engine captures them.
abbrev captured_at : ℕ → List (ℕ × CapturedPacket)
captured_at zero = []
captured_at (suc n) =
    (
      1000 + n,
      record {
        process = codes "ssh";
        local_addr = codes "192.168.1.10:40000";
        remote_addr = codes "1.2.3.4:22";
        protocol = codes "TCP";
        bytes = 60;
        timestamp = 1000;
        outbound = true;
      },
    )
    ∷ captured_at n

process_packets-no_statistics_example :
    let processed = process_packets (captured_at 501) no_statistics in
    (processed.sent ≡ map (λ r. packet_message r.1) (captured_at 501))
    × (openings_of processed.lines ≡ starts 0 (captured_at 501))
    × (summaries_of processed.lines ≡ by_blocks (map received (captured_at 501)) [] [])
process_packets-no_statistics_example =
    process_packets-no_statistics (captured_at 501) (omega arith) (omega arith) (omega arith)

starts_run : length (starts 0 (captured_at 501)) ≡ 2
starts_run = refl
