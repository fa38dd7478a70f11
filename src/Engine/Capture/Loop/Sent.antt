-- ===== src/Engine/Capture/Loop/Sent.antt =====
-- What the loop of core-engine/src/network/stream.rs sends, against the frames that it read.
use aether_lens.Prelude.{
  true, ◌≡◌, refl, ap, ap₂, ◌∙◌, Option, none, some, List, [], ◌∷◌, ◌++◌, append_assoc, append-nil,
  All,
}
use aether_lens.Engine.Scoring.{CapturedPacket, SuspiciousConnection, score_suspicious}
use aether_lens.Engine.Capture.{Host, parse_packet}
use aether_lens.Engine.Capture.Loop.{Frame, Sniffer, report_if, handle_packet, sniff, started}

-- The packets of the frames that could be parsed, and the reports of packets.
abbrev pub cons_if {ℓ} : {A : Type ℓ} → Option A → List A → List A
cons_if none xs = xs
cons_if (some x) xs = x ∷ xs

abbrev pub parsed : Host → List Frame → List CapturedPacket
parsed host [] = []
parsed host (f ∷ frames) =
    cons_if (parse_packet host f.length f.ethernet f.clock) (parsed host frames)

abbrev pub reports : List CapturedPacket → List SuspiciousConnection
reports [] = []
reports (packet ∷ packets) = cons_if (score_suspicious packet) (reports packets)

-- Both receivers are there.
abbrev pub IsOpen : Frame → Type 0
IsOpen f = (f.packet_open ≡ true) × (f.suspicious_open ≡ true)

abbrev sending : List CapturedPacket → List SuspiciousConnection → Sniffer
sending packets suspicious = record { running = true; packets = packets; suspicious = suspicious }

report_if-open :
    (packets : List CapturedPacket) (suspicious : List SuspiciousConnection)
    (found : Option SuspiciousConnection)
    → report_if true found (sending packets suspicious)
      ≡ sending packets (suspicious ++ cons_if found [])
unfolding report_if
report_if-open packets suspicious none = rw append-nil
report_if-open packets suspicious (some found) = refl

append-cons_if {ℓ} :
    {A : Type ℓ} (xs : List A) (o : Option A) (ys : List A)
    → (xs ++ cons_if o []) ++ ys ≡ xs ++ cons_if o ys
append-cons_if xs none ys = rw append-nil
append-cons_if xs (some x) ys = append_assoc xs (x ∷ []) ys

handle_packet-open :
    (f : Frame) (p : Option CapturedPacket) (packets : List CapturedPacket)
    (suspicious : List SuspiciousConnection)
    → IsOpen f
    → handle_packet f p (sending packets suspicious)
      ≡ sending (packets ++ cons_if p []) (suspicious ++ reports (cons_if p []))
unfolding handle_packet
handle_packet-open f none packets suspicious h = rw (append-nil packets, append-nil suspicious)
handle_packet-open f (some packet) packets suspicious (h, k) =
    rw (h, k) (report_if-open (packets ++ packet ∷ []) suspicious (score_suspicious packet))

append-cons_if-reports :
    (suspicious : List SuspiciousConnection) (p : Option CapturedPacket)
    (rest : List CapturedPacket)
    → (suspicious ++ reports (cons_if p [])) ++ reports rest
      ≡ suspicious ++ reports (cons_if p rest)
append-cons_if-reports suspicious none rest = rw append-nil
append-cons_if-reports suspicious (some packet) rest =
    append-cons_if suspicious (score_suspicious packet) (reports rest)

sniff-sending :
    (host : Host) (frames : List Frame) (packets : List CapturedPacket)
    (suspicious : List SuspiciousConnection)
    → All IsOpen frames
    → sniff host frames (sending packets suspicious)
      ≡ sending (packets ++ parsed host frames) (suspicious ++ reports (parsed host frames))
unfolding sniff
sniff-sending host [] packets suspicious h = rw (append-nil packets, append-nil suspicious)
sniff-sending host (f ∷ frames) packets suspicious (h, hs) =
    let p = parse_packet host f.length f.ethernet f.clock in
    ap (sniff host frames) (handle_packet-open f p packets suspicious h)
    ∙ (sniff-sending host frames _ _ hs
        ∙ ap₂ sending (append-cons_if packets p (parsed host frames))
            (append-cons_if-reports suspicious p (parsed host frames)))

-- While both receivers are there, the loop sends the packet of each frame that can be parsed, in the
-- order of the frames, and a report of each of these packets that is suspicious; frames that cannot
-- be parsed are passed over.
pub sniff-started :
    (host : Host) (frames : List Frame)
    → All IsOpen frames
    → sniff host frames started ≡ record {
      running = true;
      packets = parsed host frames;
      suspicious = reports (parsed host frames);
    }
sniff-started host frames h = sniff-sending host frames [] [] h
