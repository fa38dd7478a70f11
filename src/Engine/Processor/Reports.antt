-- ===== src/Engine/Processor/Reports.antt =====
-- What `process_packets` of core-engine/src/engine/processor.rs prints and broadcasts, packet by packet.
use aether_lens.Prelude.{
  ℕ, ◌+◌, ◌%◌, ◌^◌, ◌<◌, ◌==◌, ◌≡◌, refl, ap, ◌∙◌, Bool-cases, inl, inr, List, [], ◌∷◌, ◌++◌, map,
  length, length-map, Text, if◌then◌else◌, arith,
}
use aether_lens.Engine.Scoring.{CapturedPacket}
use aether_lens.Engine.Messages.{packet_message}
use aether_lens.Engine.Statistics.{
  Received, Statistics, Summary, count_packet, summary_of, reset, summaries, no_statistics,
}
use aether_lens.Engine.Statistics.Blocks.{
  total_bytes, total_latency, by_blocks, summaries-by_blocks,
}
use aether_lens.Engine.Processor.{Line, processing, totals, received, opening, process_packets}

abbrev pub summaries_of : List Line → List Summary
summaries_of [] = []
summaries_of (processing local_addr remote_addr ∷ lines) = summaries_of lines
summaries_of (totals s ∷ lines) = s ∷ summaries_of lines

abbrev pub openings_of : List Line → List (Text × Text)
openings_of [] = []
openings_of (processing local_addr remote_addr ∷ lines) =
    (local_addr, remote_addr) ∷ openings_of lines
openings_of (totals s ∷ lines) = openings_of lines

-- The addresses of each 500th packet, where the first has the number `n`.
abbrev pub starts : ℕ → List (ℕ × CapturedPacket) → List (Text × Text)
starts n [] = []
starts n ((now_ms, p) ∷ packets) =
    let rest = starts (n + 1) packets in
    if n % 500 == 0 then (p.local_addr, p.remote_addr) ∷ rest else rest

sent-process_packets :
    (packets : List (ℕ × CapturedPacket)) (s : Statistics)
    → (process_packets packets s).sent ≡ map (λ r. packet_message r.1) packets
unfolding process_packets
sent-process_packets [] s = refl
sent-process_packets ((now_ms, p) ∷ packets) s =
    let next = count_packet (received (now_ms, p)) s in
    elim (Bool-cases (next.packet_count % 500 == 0)) [
      | inl due ↦ rw due (ap (packet_message p ∷◌) (sent-process_packets packets (reset next)))
      | inr not_due ↦ rw not_due (ap (packet_message p ∷◌) (sent-process_packets packets next))
    ]

module _ (s : Statistics) (p : CapturedPacket) (lines : List Line) where
  summaries_of-opening : summaries_of (opening s p ++ lines) ≡ summaries_of lines
  summaries_of-opening = elim (Bool-cases (s.packet_count % 500 == 0)) [
    | inl due ↦ rw due refl
    | inr not_due ↦ rw not_due refl
  ]

  openings_of-opening : openings_of (opening s p ++ lines) ≡ (
      if s.packet_count % 500 == 0
      then (p.local_addr, p.remote_addr) ∷ openings_of lines
      else openings_of lines)
  openings_of-opening = elim (Bool-cases (s.packet_count % 500 == 0)) [
    | inl due ↦ rw due refl
    | inr not_due ↦ rw not_due refl
  ]

summaries_of-process_packets :
    (packets : List (ℕ × CapturedPacket)) (s : Statistics)
    → summaries_of (process_packets packets s).lines ≡ summaries (map received packets) s
unfolding process_packets summaries
summaries_of-process_packets [] s = refl
summaries_of-process_packets ((now_ms, p) ∷ packets) s =
    let next = count_packet (received (now_ms, p)) s in
    elim (Bool-cases (next.packet_count % 500 == 0)) [
      | inl due ↦ rw due (
          summaries_of-opening s p _
          ∙ ap (summary_of next ∷◌) (summaries_of-process_packets packets (reset next)))
      | inr not_due ↦
          rw not_due (summaries_of-opening s p _ ∙ summaries_of-process_packets packets next)
    ]

packet_count-next :
    (r : Received) (s : Statistics) (n : ℕ)
    → s.packet_count ≡ n
    → n + 1 < 2 ^ 64
    → (count_packet r s).packet_count ≡ n + 1
unfolding count_packet
packet_count-next r s n e h = rw e (omega (arith, h))

openings_of-process_packets :
    (packets : List (ℕ × CapturedPacket)) (s : Statistics) (n : ℕ)
    → s.packet_count ≡ n
    → n + length packets < 2 ^ 64
    → openings_of (process_packets packets s).lines ≡ starts n packets
unfolding process_packets
openings_of-process_packets [] s n e h = refl
openings_of-process_packets ((now_ms, p) ∷ packets) s n e h =
    let next = count_packet (received (now_ms, p)) s in
    let counted : next.packet_count ≡ n + 1 =
      packet_count-next (received (now_ms, p)) s n e (omega (arith, h)) in
    let addresses : Text × Text = (p.local_addr, p.remote_addr) in
    let first : (l : List (Text × Text))
        → l ≡ starts (n + 1) packets
        → (if s.packet_count % 500 == 0 then addresses ∷ l else l)
          ≡ (if n % 500 == 0 then addresses ∷ starts (n + 1) packets else starts (n + 1) packets) =
      λ l same. rw (e, same) refl in
    elim (Bool-cases (next.packet_count % 500 == 0)) [
      | inl due ↦ rw due (
          openings_of-opening s p _
          ∙ first _
              (openings_of-process_packets packets (reset next) (n + 1) counted (omega (arith, h))))
      | inr not_due ↦ rw not_due (
          openings_of-opening s p _
          ∙ first _ (openings_of-process_packets packets next (n + 1) counted (omega (arith, h))))
    ]

-- Every packet that is received is broadcast, in order. If the numbers of packets and of bytes and the
-- sum of all latencies stay below 2 ^ 64, the lines name the first packet and each 500th after it, and
-- after each 500 packets sum up all packets and bytes so far and the last 500 latencies.
pub process_packets-no_statistics :
    (packets : List (ℕ × CapturedPacket))
    → length packets < 2 ^ 64
    → total_bytes (map received packets) < 2 ^ 64
    → total_latency (map received packets) < 2 ^ 64
    → let processed = process_packets packets no_statistics in
      (processed.sent ≡ map (λ r. packet_message r.1) packets)
      × (openings_of processed.lines ≡ starts 0 packets)
      × (summaries_of processed.lines ≡ by_blocks (map received packets) [] [])
process_packets-no_statistics packets h k l = (
  sent-process_packets packets no_statistics,
  openings_of-process_packets packets no_statistics 0 refl (omega (arith, h)),
  summaries_of-process_packets packets no_statistics
      ∙ summaries-by_blocks (map received packets) (rw (length-map received packets) h) k l,
)
