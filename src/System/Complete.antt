-- ===== src/System/Complete.antt =====
-- A run of the whole system in which nothing is lost: every captured packet goes all the way, through
-- core-engine and api-server, to the store of web-dashboard and to the database.
use mathlib.Core.Path.{subst}
use mathlib.Core.List.{reverse_aux}
use aether_lens.Prelude.{
  ℕ, ◌≡◌, refl, ap, ap₂, sym, ◌∙◌, true, Option, none, some, List, [], ◌∷◌, ◌++◌, map, reverse,
  append_assoc, append-nil, take,
}
use aether_lens.Types.{PacketUpdate, SuspiciousOutboundConnection}
use aether_lens.Wire.{packets, anomaly, encode}
use aether_lens.Signalr.{receive}
use aether_lens.Signalr.Delivery.{action_of}
use aether_lens.Store.{AetherState, packets_added, initial, act}
use aether_lens.Engine.Scoring.{CapturedPacket, SuspiciousConnection, score_suspicious}
use aether_lens.Engine.Messages.{packet_message}
use aether_lens.Server.Batches.{drain}
use aether_lens.Server.Consumer
use aether_lens.Server.Consumer.{Stats, consume, update_of, no_stats}
use aether_lens.Server.Persistence
use aether_lens.Server.Persistence.{Attempts, Worker, Event, arrive, turn, enqueue}
use aether_lens.Server.Persistence.Batch.{round-stored}
use aether_lens.Pipeline.{act_if}
use aether_lens.Pipeline.Actions.{act_if-receive}
use aether_lens.System.{
  System, Step, capture, broadcast, broadcast_report, write, write_report, read, flush, alert,
  handle, persist, Reach, start, later, initial_system, to_list, send_captured, consume_packet,
  send_message,
}
use aether_lens.System.Reported.{found, alert_from}
use aether_lens.System.Alerts.{anomalies-act}
use aether_lens.System.Packets.{packets-act}

-- Nothing is on the way but reports of the engine.
abbrev at_rest : List SuspiciousConnection → Stats → Worker PacketUpdate → AetherState → System
at_rest reports stats worker store = record {
  captured_queue = [];
  reported_queue = reports;
  packet_stream = [];
  report_stream = [];
  packet_channel = [];
  report_channel = [];
  packet_queue = [];
  stats = stats;
  worker = worker;
  wire = [];
  store = store;
}

-- The worker with all its packets in the table.
abbrev with_rows : List PacketUpdate → Worker PacketUpdate
with_rows rows = record { waiting = []; buffer = []; stored = rows }

abbrev answers : Attempts
answers = record { first = true; second = true }

-- A step that captures nothing.
on :
    {captured : List CapturedPacket} {s t : System}
    → Reach captured s
    → Step s [] t
    → Reach captured t
on {captured} {s} {t} r st = subst (λ l. Reach l t) (append-nil captured) (later r st)

stored_one :
    (u : PacketUpdate) (rows : List PacketUpdate)
    → Persistence.step (turn answers) (Persistence.step (arrive u) (with_rows rows))
      ≡ with_rows (rows ++ u ∷ [])
unfolding Persistence.step enqueue
stored_one u rows =
    round-stored answers (record { waiting = u ∷ []; buffer = []; stored = rows }) refl refl

abbrev pub shown : ℕ → CapturedPacket → PacketUpdate
shown now packet = update_of now (packet_message packet)

-- A packet that is captured goes all the way, and its report is left.
one_packet :
    (now : ℕ) (packet : CapturedPacket) {captured : List CapturedPacket} (stats : Stats)
    (rows : List PacketUpdate) (store : AetherState)
    → Reach captured (at_rest [] stats (with_rows rows) store)
    → Reach (captured ++ packet ∷ []) (
        at_rest
          (to_list (score_suspicious packet))
          (Consumer.step (consume (packet_message packet)) stats)
          (with_rows (rows ++ shown now packet ∷ []))
          (act (packets_added (shown now packet ∷ [])) store))
unfolding send_captured consume_packet send_message enqueue drain action_of
one_packet now packet {captured} stats rows store r =
    let captured_one = later r (capture packet) in
    let read_one = on (on (on captured_one (broadcast refl)) (write refl)) (read now refl) in
    let handled = on (on read_one (flush refl refl)) (handle refl) in
    subst (Reach (captured ++ packet ∷ []))
      (ap₂
        (at_rest (to_list (score_suspicious packet))
          (Consumer.step (consume (packet_message packet)) stats))
        (stored_one (shown now packet) rows)
        (act_if-receive (packets (shown now packet ∷ [])) store))
      (on handled (persist answers))

-- A report that is left goes all the way.
some_report :
    (report : Option SuspiciousConnection) {captured : List CapturedPacket} (stats : Stats)
    (rows : List PacketUpdate) (store : AetherState) (alerts : List SuspiciousOutboundConnection)
    → Reach captured (at_rest (to_list report) stats (with_rows rows) store)
    → store.anomalies ≡ take 50 alerts
    → (after : AetherState) × Reach captured (at_rest [] stats (with_rows rows) after)
      × (after.packets ≡ store.packets)
      × (after.anomalies ≡ take 50 (reverse_aux (map alert_from (to_list report)) alerts))
unfolding enqueue send_message action_of act
some_report none stats rows store alerts r e = (store, r, refl, e)
some_report (some connection) stats rows store alerts r e =
    let sent = on (on (on r (broadcast_report refl)) (write_report refl)) (alert refl) in
    let message = anomaly (alert_from connection) in
    let path = act_if-receive message store in
    (
      act_if (receive (encode message)) store,
      on sent (handle refl),
      ap (λ (a : AetherState). a.packets) path,
      ap (λ (a : AetherState). a.anomalies) path
          ∙ anomalies-act (alert_from connection) store alerts e,
    )

alerts-append :
    (report : Option SuspiciousConnection) (more : List SuspiciousConnection)
    (alerts : List SuspiciousOutboundConnection)
    → reverse_aux (map alert_from (to_list report ++ more)) alerts
      ≡ reverse_aux (map alert_from more) (reverse_aux (map alert_from (to_list report)) alerts)
alerts-append none more alerts = refl
alerts-append (some connection) more alerts = refl

-- A state that shows and stores all that was captured, given what was shown and stored before.
record Arrived (now : ℕ) (captured more : List CapturedPacket) (seen : List PacketUpdate)
    (alerts : List SuspiciousOutboundConnection) (rows : List PacketUpdate) : Type 0 where
  after : System
  reached : Reach (captured ++ more) after
  all_packets : after.store.packets ≡ take 500 (reverse_aux (map (shown now) more) seen)
  all_alerts : after.store.anomalies ≡ take 50 (reverse_aux (map alert_from (found more)) alerts)
  all_rows : after.worker.stored ≡ rows ++ map (shown now) more

all_packets_arrive :
    (now : ℕ) (captured more : List CapturedPacket) (seen : List PacketUpdate)
    (alerts : List SuspiciousOutboundConnection) (rows : List PacketUpdate) (stats : Stats)
    (store : AetherState)
    → Reach captured (at_rest [] stats (with_rows rows) store)
    → store.packets ≡ take 500 seen
    → store.anomalies ≡ take 50 alerts
    → Arrived now captured more seen alerts rows
unfolding act
all_packets_arrive now captured [] seen alerts rows stats store r e f = record {
  after = at_rest [] stats (with_rows rows) store;
  reached =
      subst (λ l. Reach l (at_rest [] stats (with_rows rows) store)) (sym (append-nil captured)) r;
  all_packets = e;
  all_alerts = f;
  all_rows = sym (append-nil rows);
}
all_packets_arrive now captured (packet ∷ more) seen alerts rows stats store r e f =
    let u = shown now packet in
    let report = score_suspicious packet in
    let counted = Consumer.step (consume (packet_message packet)) stats in
    let new_rows = rows ++ u ∷ [] in
    let received = act (packets_added (u ∷ [])) store in
    let (after, reached, same, fresh) =
      some_report report counted new_rows received alerts (one_packet now packet stats rows store r)
        f in
    let rest =
      all_packets_arrive now (captured ++ packet ∷ []) more (u ∷ seen)
        (reverse_aux (map alert_from (to_list report)) alerts) new_rows counted after reached
        (same ∙ packets-act (u ∷ []) store seen e) fresh in
    record {
      after = rest.after;
      reached =
          subst (λ l. Reach l rest.after) (append_assoc captured (packet ∷ []) more) rest.reached;
      all_packets = rest.all_packets;
      all_alerts = rest.all_alerts ∙ ap (take 50) (sym (alerts-append report (found more) alerts));
      all_rows = rest.all_rows ∙ append_assoc rows (u ∷ []) (map (shown now) more);
    }

-- Whatever packets are captured, the system can come to a state in which the store shows the latest
-- 500 of them and the latest 50 of their alerts, latest first, and the database has them all in their order.
pub Reach-complete :
    (now : ℕ) (captured : List CapturedPacket)
    → (s : System) × Reach captured s
      × (s.store.packets ≡ take 500 (reverse (map (shown now) captured)))
      × (s.store.anomalies ≡ take 50 (reverse (map alert_from (found captured))))
      × (s.worker.stored ≡ map (shown now) captured)
unfolding initial_system initial
Reach-complete now captured =
    let all = all_packets_arrive now [] captured [] [] [] no_stats initial start refl refl in
    (all.after, all.reached, all.all_packets, all.all_alerts, all.all_rows)
