-- ===== src/Console/Window.antt =====
-- The log of web-dashboard/src/components/LiveConsole.tsx against everything that was ever logged.
use aether_lens.Prelude.{
  ℕ, ◌≤◌, ◌≡◌, refl, ap, sym, ◌∙◌, List, [], ◌∷◌, ◌++◌, append_assoc, append-nil, arith, length,
  drop, take_last, take_last_of_length-le, take_last-append-take_last, length-take_last-le, ltb,
  ◌==◌, Bool-cases, inl, inr, if◌then◌else◌, Text,
}
use aether_lens.Console.{
  Level, info, warn, error, LogEntry, Console, Stamp, Arrived, empty, append, packet_line,
  anomaly_line, connection_line, Notice, packets, anomalies, health, connected, notify, run,
}

abbrev entry : Stamp → Level → Text → LogEntry
entry stamp level message = record {
  id = stamp.id;
  timestamp = stamp.time;
  level = level;
  message = message;
}

-- The timestamp that is remembered after a notice.
remembered : ℕ → Notice → ℕ
remembered last (packets stamp (latest ∷ older)) = latest.packet.timestamp
remembered last _ = last

-- What one notice logs: a packet only if its timestamp is not the remembered one.
logged_by : ℕ → Notice → List LogEntry
logged_by last (packets stamp []) = []
logged_by last (packets stamp (latest ∷ older)) =
    if latest.packet.timestamp == last then [] else entry stamp info (packet_line latest) ∷ []
logged_by last (anomalies stamp []) = []
logged_by last (anomalies stamp (latest ∷ older)) = entry stamp warn (anomaly_line latest) ∷ []
logged_by last (health h) = []
logged_by last (connected stamp b) =
    entry stamp (if b then info else error) (connection_line b) ∷ []

-- What a row of notices logs.
pub logged : ℕ → List Notice → List LogEntry
unfolding remembered logged_by
logged last [] = []
logged last (n ∷ notices) = logged_by last n ++ logged (remembered last n) notices

append-take_last :
    (e : LogEntry) (prev : List LogEntry) → append e prev ≡ take_last 50 (prev ++ e ∷ [])
unfolding append
append-take_last e prev = elim (Bool-cases (ltb 50 (length (prev ++ e ∷ [])))) [
  | inl more ↦ rw more
  | inr few ↦ rw few (ap (λ (k : ℕ). drop k (prev ++ e ∷ [])) {x = 0} (ground arith))
]

unchanged : (c : Console) → length c.logs ≤ 50 → c.logs ≡ take_last 50 (c.logs ++ [])
unchanged c h = rw append-nil (sym (take_last_of_length-le 50 c.logs h))

notify-logs :
    (n : Notice) (c : Console)
    → length c.logs ≤ 50
    → (notify n c).logs ≡ take_last 50 (c.logs ++ logged_by c.last_packet n)
unfolding notify logged_by
notify-logs (packets stamp []) c h = unchanged c h
notify-logs (packets stamp (latest ∷ older)) c h =
    elim (Bool-cases (latest.packet.timestamp == c.last_packet)) [
      | inl same ↦ rw same (unchanged c h)
      | inr new ↦ rw new (append-take_last _ c.logs)
    ]
notify-logs (anomalies stamp []) c h = unchanged c h
notify-logs (anomalies stamp (latest ∷ older)) c h = append-take_last _ c.logs
notify-logs (health h) c l = unchanged c l
notify-logs (connected stamp b) c h = append-take_last _ c.logs

notify-last_packet :
    (n : Notice) (c : Console) → (notify n c).last_packet ≡ remembered c.last_packet n
unfolding notify remembered
notify-last_packet (packets stamp []) c = refl
notify-last_packet (packets stamp (latest ∷ older)) c = ground arith
notify-last_packet (anomalies stamp []) c = refl
notify-last_packet (anomalies stamp (latest ∷ older)) c = refl
notify-last_packet (health h) c = refl
notify-last_packet (connected stamp b) c = refl

run-logs :
    (notices : List Notice) (c : Console)
    → length c.logs ≤ 50
    → (run notices c).logs ≡ take_last 50 (c.logs ++ logged c.last_packet notices)
unfolding run logged
run-logs [] c h = unchanged c h
run-logs (n ∷ notices) c h =
    let more = logged_by c.last_packet n in
    let rest = logged (remembered c.last_packet n) notices in
    let e = notify-logs n c h in
    run-logs notices (notify n c) (rw e (length-take_last-le 50 (c.logs ++ more)))
    ∙ rw (e, notify-last_packet n c)
        (take_last-append-take_last 50 (c.logs ++ more) rest
          ∙ ap (take_last 50) (append_assoc c.logs more rest))

-- After any row of notices the console holds the last 50 entries, oldest first, of all that were
-- logged: one for each anomaly notice and connection notice, and one for each packet notice whose
-- first packet has another timestamp than the first packet of the packet notice before.
pub run-empty-logged :
    (notices : List Notice) → (run notices empty).logs ≡ take_last 50 (logged 0 notices)
unfolding empty
run-empty-logged notices = run-logs notices empty (omega arith)

-- A packet notice whose first packet has the timestamp of the last one logged changes nothing,
-- though all else about the packet may differ.
pub notify-packets_same_time :
    (s t : Stamp) (a b : Arrived) (older later : List Arrived) (c : Console)
    → a.packet.timestamp ≡ b.packet.timestamp
    → notify (packets t (b ∷ later)) (notify (packets s (a ∷ older)) c)
      ≡ notify (packets s (a ∷ older)) c
unfolding notify
notify-packets_same_time s t a b older later c e = ground arith
