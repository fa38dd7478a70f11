-- ===== src/System/Alerts.antt =====
-- The anomalies of the store of web-dashboard against the packets that core-engine captured.
use mathlib.Core.List.{Sublist, map-append, map-map}
use mathlib.Core.List.Sublist
use mathlib.Core.Path.{subst}
use aether_lens.Prelude.{
  ◌≡◌, refl, ap, sym, ◌∙◌, List, [], ◌∷◌, ◌++◌, map, append_assoc, append-nil, arith, take,
  take-append-take, Sublist-front, Sublist-after, Sublist-nil, Sublist-join, Sublist-begin,
  Sublist-map, Sublist-tail, Sublist-eq,
}
use aether_lens.Types.{SuspiciousOutboundConnection}
use aether_lens.Wire.{Message, packets, process_stats, health, anomaly, encode}
use aether_lens.Signalr.{receive}
use aether_lens.Signalr.Delivery.{action_of}
use aether_lens.Store.{AetherState, anomaly_added, max_anomalies, initial, act}
use aether_lens.Engine.Scoring.{CapturedPacket, score_suspicious}
use aether_lens.Engine.Messages.{SuspiciousConnectionMessage, suspicious_message}
use aether_lens.Server.Alerts.{alert_of}
use aether_lens.Pipeline.{act_if}
use aether_lens.Pipeline.Actions.{act_if-receive, on_report-lists}
use aether_lens.System.Reported.{found, alert_from, found-append, in_order}
use aether_lens.System.Gather.{gather, gather-append}
use aether_lens.System.{
  System, Step, capture, broadcast_report, unheard_report, lag_report, break_report_stream,
  write_report, flush, alert, send_stats, measure, handle, break_wire, tell, Reach, start, later,
  report_capacity, initial_system, to_list, send_captured, consume_packet, send_message,
}
use aether_lens.System.Transit.{
  passing, queued, broadcasted, dropped, lagged, broken, written, was_read,
}

abbrev alerts_in : Message → List SuspiciousOutboundConnection
alerts_in (anomaly a) = a ∷ []
alerts_in _ = []

abbrev wire_alerts : List Message → List SuspiciousOutboundConnection
wire_alerts = gather alerts_in

abbrev transit : System → List SuspiciousConnectionMessage
transit s = passing suspicious_message s.report_channel s.report_stream s.reported_queue

abbrev upstream : System → List SuspiciousOutboundConnection
upstream s = map alert_of (transit s)

abbrev promised : List CapturedPacket → List SuspiciousOutboundConnection
promised captured = map alert_of (map suspicious_message (found captured))

abbrev front : List SuspiciousOutboundConnection → List Message → List SuspiciousOutboundConnection
front seen wire = in_order seen ++ wire_alerts wire

transit-alert :
    (s : System) {m : SuspiciousConnectionMessage} {rest : List SuspiciousConnectionMessage}
    → s.report_channel ≡ m ∷ rest
    → transit s ≡ m ∷ transit (record s { report_channel = rest })
transit-alert s {m} {rest} e =
    was_read suspicious_message s.report_channel s.report_stream s.reported_queue m rest e

Step-transit :
    {s t : System} {new : List CapturedPacket}
    → Step s new t
    → Sublist (transit t) (transit s ++ map suspicious_message (found new))
unfolding send_captured consume_packet send_message
Step-transit {s} (capture packet) = rw append-nil (
    subst (Sublist _)
      (queued suspicious_message s.report_channel s.report_stream s.reported_queue
        (to_list (score_suspicious packet)))
      (Sublist.refl _))
Step-transit {s} (broadcast_report {connection} {rest} e) =
    subst (Sublist _)
      (broadcasted suspicious_message s.report_channel s.report_stream s.reported_queue connection
        rest e)
      (Sublist.refl _)
Step-transit {s} (unheard_report {connection} {rest} e) =
    dropped suspicious_message s.report_channel s.report_stream s.reported_queue connection rest e
Step-transit {s} (lag_report {m} {rest} e) =
    lagged suspicious_message s.report_channel s.report_stream s.reported_queue m rest e
Step-transit {s} break_report_stream =
    broken suspicious_message s.report_channel s.report_stream s.reported_queue
Step-transit {s} (write_report {m} {rest} e) =
    written suspicious_message s.report_channel s.report_stream s.reported_queue report_capacity m
      rest e
Step-transit {s} (alert {item} {rest} e) =
    subst (Sublist _) (sym (transit-alert s e) ∙ sym (append-nil (transit s)))
      (Sublist-tail item (transit (record s { report_channel = rest })))
Step-transit {s} _ = rw append-nil (Sublist.refl (transit s))

record Shows (captured : List CapturedPacket) (s : System) : Type 0 where
  seen : List SuspiciousOutboundConnection
  view : s.store.anomalies ≡ take max_anomalies seen
  chain : Sublist (front seen s.wire ++ upstream s) (promised captured)

Shows-start : Shows [] initial_system
unfolding initial_system initial
Shows-start = record { seen = []; view = refl; chain = Sublist.refl [] }

promised-append : (xs ys : List CapturedPacket) → promised (xs ++ ys) ≡ promised xs ++ promised ys
promised-append xs ys = rw (found-append xs ys) (simp map-append)

moved :
    {captured new : List CapturedPacket} {s t : System} (seen : List SuspiciousOutboundConnection)
    → Step s new t
    → (h : Shows captured s) → Sublist (front seen t.wire) (front h.seen s.wire)
    → t.store.anomalies ≡ take max_anomalies seen
    → Shows (captured ++ new) t
moved {captured} {new} {s} {t} seen st h part view = record {
  seen = seen;
  view = view;
  chain = subst (Sublist _) (sym (promised-append captured new)) (
      Sublist.trans
        (Sublist-join (upstream s) (promised new) part (
          subst (Sublist (upstream t))
            (map-append alert_of (transit s) (map suspicious_message (found new)))
            (Sublist-map alert_of (Step-transit {s = s} st))))
        (Sublist-front (promised new) h.chain));
}

pub anomalies-act :
    (a : SuspiciousOutboundConnection) (state : AetherState)
    (seen : List SuspiciousOutboundConnection)
    → state.anomalies ≡ take max_anomalies seen
    → (act (anomaly_added a) state).anomalies ≡ take max_anomalies (a ∷ seen)
unfolding act
anomalies-act a state seen e =
    ap (λ t. take max_anomalies (a ∷ t)) e
    ∙ take-append-take max_anomalies max_anomalies (a ∷ []) seen (omega arith)

front-send :
    (seen : List SuspiciousOutboundConnection) (wire : List Message) (m : Message)
    → wire_alerts (m ∷ []) ≡ []
    → front seen (wire ++ m ∷ []) ≡ front seen wire
front-send seen wire m e = rw (gather-append alerts_in wire (m ∷ []), e, append-nil)

handle-Shows :
    {captured : List CapturedPacket} {s : System} (m : Message) (rest : List Message)
    → s.wire ≡ m ∷ rest
    → Step s [] (record s { wire = rest; store = act_if (receive (encode m)) s.store })
    → Shows captured s
    → Shows (captured ++ []) (record s { wire = rest; store = act_if (receive (encode m)) s.store })
unfolding action_of act
handle-Shows {captured} {s} (packets batch) rest e st h =
    moved h.seen st h (Sublist-eq (ap (front h.seen) (sym e)))
      (ap (λ a. a.anomalies) (act_if-receive (packets batch) s.store) ∙ h.view)
handle-Shows {captured} {s} (process_stats u) rest e st h =
    moved h.seen st h (Sublist-eq (ap (front h.seen) (sym e)))
      (ap (λ a. a.anomalies) (act_if-receive (process_stats u) s.store) ∙ h.view)
handle-Shows {captured} {s} (health x) rest e st h =
    moved h.seen st h (Sublist-eq (ap (front h.seen) (sym e)))
      (ap (λ a. a.anomalies) (act_if-receive (health x) s.store) ∙ h.view)
handle-Shows {captured} {s} (anomaly a) rest e st h =
    moved (a ∷ h.seen) st h
      (Sublist-eq
        (append_assoc (in_order h.seen) (a ∷ []) (wire_alerts rest) ∙ ap (front h.seen) (sym e)))
      (ap (λ a. a.anomalies) (act_if-receive (anomaly a) s.store)
        ∙ anomalies-act a s.store h.seen h.view)

alert-Shows :
    {captured : List CapturedPacket} {s : System} (m : SuspiciousConnectionMessage)
    (rest : List SuspiciousConnectionMessage)
    → s.report_channel ≡ m ∷ rest
    → Shows captured s
    → Shows
        (captured ++ [])
        (send_message (anomaly (alert_of m)) (record s { report_channel = rest }))
unfolding send_message
alert-Shows {captured} {s} m rest e h =
    let after = upstream (record s { report_channel = rest }) in
    let before = front h.seen s.wire in
    let sent : front h.seen (s.wire ++ anomaly (alert_of m) ∷ []) ≡ before ++ alert_of m ∷ [] =
      rw (gather-append alerts_in s.wire (anomaly (alert_of m) ∷ []))
        (sym (append_assoc (in_order h.seen) _ _)) in
    record {
      seen = h.seen;
      view = h.view;
      chain =
          subst (λ l. Sublist l (promised (captured ++ [])))
            (ap (λ l. before ++ map alert_of l) (transit-alert s e)
              ∙ (sym (append_assoc before (alert_of m ∷ []) after) ∙ ap (◌++ after) (sym sent)))
            (subst (λ l. Sublist (before ++ upstream s) (promised l)) (sym (append-nil captured))
              h.chain);
    }

Step-Shows :
    {captured new : List CapturedPacket} {s t : System}
    → Step s new t
    → Shows captured s
    → Shows (captured ++ new) t
unfolding send_captured consume_packet send_message
Step-Shows {captured} {new} {s} (flush {u} {us} e f) h =
    moved h.seen (flush e f) h (Sublist-eq (front-send h.seen s.wire _ refl)) h.view
Step-Shows {captured} {new} {s} (alert {item} {rest} e) h = alert-Shows item rest e h
Step-Shows {captured} {new} {s} (send_stats now {process} {metric} e) h =
    moved h.seen (send_stats now e) h (Sublist-eq (front-send h.seen s.wire _ refl)) h.view
Step-Shows {captured} {new} {s} (measure round rates grpc_connected start_time now) h =
    moved h.seen (measure round rates grpc_connected start_time now) h
      (Sublist-eq (front-send h.seen s.wire _ refl)) h.view
Step-Shows {captured} {new} {s} (handle {m} {rest} e) h = handle-Shows m rest e (handle e) h
Step-Shows {captured} {new} {s} break_wire h =
    moved h.seen break_wire h
      (Sublist-after (in_order h.seen) _ _ (Sublist-nil (wire_alerts s.wire))) h.view
Step-Shows {captured} {new} {s} (tell r) h =
    moved h.seen (tell r) h (Sublist.refl _) ((on_report-lists r s.store).1 ∙ h.view)
Step-Shows st h = moved h.seen st h (Sublist.refl _) h.view

Reach-Shows : {captured : List CapturedPacket} {s : System} → Reach captured s → Shows captured s
Reach-Shows start = Shows-start
Reach-Shows (later r st) = Step-Shows st (Reach-Shows r)

-- However the parts run and whatever is lost on the way, the store shows the latest 50 of some alerts,
-- latest first, and these are a part of the alerts of the captured packets that the engine reports,
-- each at most once and in the order in which the packets were captured.
pub Reach-anomalies :
    {captured : List CapturedPacket} {s : System}
    → Reach captured s
    → (alerts : List SuspiciousOutboundConnection) × (s.store.anomalies ≡ take 50 alerts)
      × Sublist (in_order alerts) (map alert_from (found captured))
Reach-anomalies {captured} {s} r =
    let h = Reach-Shows r in
    (
      h.seen,
      h.view,
      subst (Sublist (in_order h.seen)) (map-map alert_of suspicious_message (found captured)) (
          Sublist-begin (in_order h.seen) (wire_alerts s.wire) (promised captured)
            (Sublist-begin (front h.seen s.wire) (upstream s) (promised captured) h.chain)),
    )
