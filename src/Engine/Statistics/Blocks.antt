-- ===== src/Engine/Statistics/Blocks.antt =====
-- The summaries of core-engine/src/engine/processor.rs against the latencies of each block.
use aether_lens.Prelude.{
  ℕ, ◌+◌, ◌/◌, ◌%◌, ◌^◌, ◌<◌, ◌≡◌, ◌==◌, refl, ap, ◌∙◌, max, true, false, Bool-cases, ==_iff, inl,
  inr, List, [], ◌∷◌, ◌++◌, length, length-append, if◌then◌else◌, arith,
}
use aether_lens.Engine.Statistics.{
  Received, Statistics, Summary, wrap, latency, count_packet, summary_of, reset, summaries,
  no_statistics,
}

abbrev pub sum : List ℕ → ℕ
sum [] = 0
sum (n ∷ ns) = n + sum ns

abbrev pub maximum : List ℕ → ℕ
maximum [] = 0
maximum (n ∷ ns) = max n (maximum ns)

abbrev pub total_bytes : List Received → ℕ
total_bytes [] = 0
total_bytes (p ∷ packets) = p.bytes + total_bytes packets

abbrev pub total_latency : List Received → ℕ
total_latency [] = 0
total_latency (p ∷ packets) = latency p + total_latency packets

abbrev pub line : List Received → List ℕ → Summary
line past block = record {
  packets = length past;
  bytes = total_bytes past;
  average = sum block / 500;
  highest = maximum block;
}

-- The summaries from lists in place of counters: all packets so far, and the latencies of those
-- since the last summary.
abbrev pub by_blocks : List Received → List Received → List ℕ → List Summary
by_blocks [] past block = []
by_blocks (p ∷ packets) past block =
    let seen = past ++ p ∷ [] in
    let grown = block ++ latency p ∷ [] in
    let printed = by_blocks packets seen [] in
    let silent = by_blocks packets seen grown in
    if length grown == 500 then line seen grown ∷ printed else silent

sum-append : (ns : List ℕ) (n : ℕ) → sum (ns ++ n ∷ []) ≡ sum ns + n
sum-append [] n = omega arith
sum-append (m ∷ ns) n = omega (arith, sum-append ns n)

maximum-append : (ns : List ℕ) (n : ℕ) → maximum (ns ++ n ∷ []) ≡ max (maximum ns) n
maximum-append [] n = omega arith
maximum-append (m ∷ ns) n = omega (arith, maximum-append ns n)

total_bytes-append :
    (ps : List Received) (p : Received) → total_bytes (ps ++ p ∷ []) ≡ total_bytes ps + p.bytes
total_bytes-append [] p = omega arith
total_bytes-append (q ∷ ps) p = omega (arith, total_bytes-append ps p)

-- The counters of the packets so far.
abbrev counters : List Received → List ℕ → Statistics
counters past block = record {
  packet_count = length past;
  total_bytes = total_bytes past;
  latency_sum = sum block;
  latency_max = maximum block;
}

wrap_small : (n : ℕ) → n < 2 ^ 64 → wrap n ≡ n
wrap_small n h = omega (arith, h)

count_packet-counters :
    (p : Received) (past : List Received) (block : List ℕ)
    → length past + 1 < 2 ^ 64
    → total_bytes past + p.bytes < 2 ^ 64
    → sum block + latency p < 2 ^ 64
    → count_packet p (counters past block) ≡ counters (past ++ p ∷ []) (block ++ latency p ∷ [])
unfolding count_packet
count_packet-counters p past block h k l = rw (
  length-append past (p ∷ []),
  total_bytes-append past p,
  sum-append block (latency p),
  maximum-append block (latency p),
  wrap_small _ h,
  wrap_small _ k,
  wrap_small _ l,
)

summaries-counters :
    (packets past : List Received) (block : List ℕ)
    → length past % 500 ≡ length block
    → length past + length packets < 2 ^ 64
    → total_bytes past + total_bytes packets < 2 ^ 64
    → sum block + total_latency packets < 2 ^ 64
    → summaries packets (counters past block) ≡ by_blocks packets past block
unfolding summaries
summaries-counters [] past block e h k l = refl
summaries-counters (p ∷ packets) past block e h k l =
    let moved =
      count_packet-counters p past block (omega (arith, h)) (omega (arith, k)) (omega (arith, l)) in
    let counted = length-append past (p ∷ []) in
    let stored = length-append block (latency p ∷ []) in
    let carried = total_bytes-append past p in
    ap
      (λ (s : Statistics).
        if s.packet_count % 500 == 0
        then summary_of s ∷ summaries packets (reset s)
        else summaries packets s)
      moved
    ∙ elim (Bool-cases (length (block ++ latency p ∷ []) == 500)) [
      | inl whole ↦
          let full = (==_iff (length (block ++ latency p ∷ [])) 500).0 whole in
          let due : (length (past ++ p ∷ []) % 500 == 0) ≡ true =
            ground (arith, e, counted, stored, full) in
          rw (whole, due)
            (ap (line (past ++ p ∷ []) (block ++ latency p ∷ []) ∷◌) (
              summaries-counters packets (past ++ p ∷ []) []
                (omega (arith, e, counted, stored, full)) (omega (arith, h, counted))
                (omega (arith, k, carried)) (omega (arith, l))))
      | inr part ↦
          let open_block : length (past ++ p ∷ []) % 500 ≡ length (block ++ latency p ∷ []) =
            ground (arith, e, counted, stored, part) in
          let not_due : (length (past ++ p ∷ []) % 500 == 0) ≡ false =
            ground (arith, open_block, stored) in
          rw (part, not_due)
            (summaries-counters packets (past ++ p ∷ []) (block ++ latency p ∷ []) open_block
              (omega (arith, h, counted)) (omega (arith, k, carried))
              (omega (arith, l, sum-append block (latency p))))
    ]

-- If the numbers of packets and of bytes and the sum of all latencies stay below 2 ^ 64, a summary is
-- printed after each 500 packets, with all packets and bytes so far and the average and the maximum
-- of the 500 latencies since the last summary.
pub summaries-by_blocks :
    (packets : List Received)
    → length packets < 2 ^ 64
    → total_bytes packets < 2 ^ 64
    → total_latency packets < 2 ^ 64
    → summaries packets no_statistics ≡ by_blocks packets [] []
summaries-by_blocks packets h k l =
    summaries-counters packets [] [] refl (omega (arith, h)) (omega (arith, k)) (omega (arith, l))
