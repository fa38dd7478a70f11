-- ===== src/System/Packets.antt =====
-- The packets of the store of web-dashboard against those that core-engine captured.
use mathlib.Core.List.{Sublist, map-append}
use mathlib.Core.List.Sublist
use mathlib.Core.Path.{subst}
use aether_lens.Prelude.{
  ℕ, ◌≡◌, refl, ap, sym, ◌∙◌, List, [], ◌∷◌, ◌++◌, map, append_assoc, append-nil, arith, take,
  take-append-take, Sublist-front, Sublist-after, Sublist-nil, Sublist-join, Sublist-begin,
  Sublist-map, Sublist-eq,
}
use aether_lens.Types.{PacketUpdate}
use aether_lens.Wire.{Message, packets, process_stats, health, anomaly, encode}
use aether_lens.Signalr.{receive}
use aether_lens.Signalr.Delivery.{action_of}
use aether_lens.Store.{AetherState, packets_added, max_packets, initial, act}
use aether_lens.Server.Alerts.{alert_of}
use aether_lens.Engine.Scoring.{CapturedPacket}
use aether_lens.Engine.Messages.{PacketMessage, packet_message}
use aether_lens.Server.Batches.{drain}
use aether_lens.Server.Batches.Delivery.{drain-append}
use aether_lens.Server.Consumer.{update_of}
use aether_lens.Pipeline.{act_if}
use aether_lens.Pipeline.Actions.{act_if-receive, on_report-lists}
use aether_lens.System.Handled.{handled_in, handled, batches}
use aether_lens.System.Gather.{gather, gather-append}
use aether_lens.System.{
  System, Step, read, flush, alert, send_stats, measure, handle, break_wire, tell, Reach, start,
  later, initial_system, consume_packet, send_captured, send_message,
}
use aether_lens.System.Upstream.{origin, messages, upstream, upstream-read, Step-upstream}

-- Batches, the latest first: their packets as the store shows them, and in the order of the reads.
abbrev pub newest : List (List PacketUpdate) → List PacketUpdate
newest [] = []
newest (batch ∷ batches) = batch ++ newest batches

abbrev pub oldest : List (List PacketUpdate) → List PacketUpdate
oldest [] = []
oldest (batch ∷ batches) = oldest batches ++ batch

abbrev packets_in : Message → List PacketUpdate
packets_in (packets batch) = batch
packets_in _ = []

abbrev wire_packets : List Message → List PacketUpdate
wire_packets = gather packets_in

-- What was read and is not lost: handled by the dashboard, on the way to it, or queued for it.
abbrev front : List (List PacketUpdate) → List Message → List PacketUpdate → List PacketMessage
front seen wire queue = map origin (oldest seen ++ (wire_packets wire ++ queue))

-- `past` holds the messages that were handled, latest first.
record Shows (captured : List CapturedPacket) (past : List Message) (s : System) : Type 0 where
  view : s.store.packets ≡ take max_packets (newest (batches past))
  chain : Sublist (front (batches past) s.wire s.packet_queue ++ upstream s) (messages captured)

module _ (seen : List (List PacketUpdate)) (wire : List Message) (queue : List PacketUpdate) where
  front-send :
      (m : Message)
      → wire_packets (m ∷ []) ≡ []
      → front seen (wire ++ m ∷ []) queue ≡ front seen wire queue
  front-send m e = rw (gather-append packets_in wire (m ∷ []), e, append-nil)

  front-flush :
      (batch : List PacketUpdate)
      → queue ≡ batch
      → front seen (wire ++ packets (drain batch []) ∷ []) [] ≡ front seen wire queue
  front-flush batch e =
      rw (e, drain-append batch [], gather-append packets_in wire (packets batch ∷ []))
        (simp append-nil)

  front-read :
      (now : ℕ) (m : PacketMessage)
      → front seen wire (queue ++ update_of now m ∷ []) ≡ front seen wire queue ++ m ∷ []
  unfolding update_of
  front-read now m = simp (map-append, append_assoc)

  front-handle :
      (batch : List PacketUpdate) (rest : List Message)
      → wire ≡ packets batch ∷ rest
      → front (batch ∷ seen) rest queue ≡ front seen wire queue
  front-handle batch rest e = rw e (simp append_assoc)

  front-break : Sublist (front seen [] queue) (front seen wire queue)
  front-break =
      Sublist-map origin
        (Sublist-after (oldest seen) _ _ (Sublist-front queue (Sublist-nil (wire_packets wire))))

Shows-start : Shows [] [] initial_system
unfolding initial_system initial
Shows-start = record { view = refl; chain = Sublist.refl [] }

-- A step that loses nothing or a part of the front, and shows what was handled then.
moved :
    {captured new : List CapturedPacket} {past : List Message} {s t : System} (st : Step s new t)
    → (h : Shows captured past s)
    → Sublist
        (front (batches (handled_in st ++ past)) t.wire t.packet_queue)
        (front (batches past) s.wire s.packet_queue)
    → t.store.packets ≡ take max_packets (newest (batches (handled_in st ++ past)))
    → Shows (captured ++ new) (handled_in st ++ past) t
moved {captured} {new} {past} {s} {t} st h part view = record {
  view = view;
  chain = subst (Sublist _) (sym (map-append packet_message captured new)) (
      Sublist.trans (Sublist-join (upstream s) (messages new) part (Step-upstream {s = s} st))
        (Sublist-front (messages new) h.chain));
}

pub packets-act :
    (batch : List PacketUpdate) (state : AetherState) (seen : List PacketUpdate)
    → state.packets ≡ take max_packets seen
    → (act (packets_added batch) state).packets ≡ take max_packets (batch ++ seen)
unfolding act
packets-act batch state seen e =
    ap (λ t. take max_packets (batch ++ t)) e
    ∙ take-append-take max_packets max_packets batch seen (omega arith)

-- The dashboard handles a message.
handle-Shows :
    {captured : List CapturedPacket} {past : List Message} {s : System} (m : Message)
    (rest : List Message) (e : s.wire ≡ m ∷ rest)
    → Shows captured past s
    → Shows
        (captured ++ [])
        (m ∷ past)
        (record s { wire = rest; store = act_if (receive (encode m)) s.store })
unfolding action_of act
handle-Shows {captured} {past} {s} (packets batch) rest e h =
    moved (handle e) h (Sublist-eq (front-handle (batches past) s.wire s.packet_queue batch rest e))
      (ap (λ a. a.packets) (act_if-receive (packets batch) s.store)
        ∙ packets-act batch s.store (newest (batches past)) h.view)
handle-Shows {captured} {past} {s} (process_stats u) rest e h =
    moved (handle e) h (Sublist-eq (ap (λ w. front (batches past) w s.packet_queue) (sym e)))
      (ap (λ a. a.packets) (act_if-receive (process_stats u) s.store) ∙ h.view)
handle-Shows {captured} {past} {s} (health x) rest e h =
    moved (handle e) h (Sublist-eq (ap (λ w. front (batches past) w s.packet_queue) (sym e)))
      (ap (λ a. a.packets) (act_if-receive (health x) s.store) ∙ h.view)
handle-Shows {captured} {past} {s} (anomaly a) rest e h =
    moved (handle e) h (Sublist-eq (ap (λ w. front (batches past) w s.packet_queue) (sym e)))
      (ap (λ a. a.packets) (act_if-receive (anomaly a) s.store) ∙ h.view)

read-Shows :
    {captured : List CapturedPacket} {past : List Message} {s : System} (now : ℕ)
    (m : PacketMessage) (rest : List PacketMessage)
    → s.packet_channel ≡ m ∷ rest
    → Shows captured past s
    → Shows (captured ++ []) past (consume_packet now m (record s { packet_channel = rest }))
unfolding consume_packet
read-Shows {captured} {past} {s} now m rest e h =
    let after = upstream (record s { packet_channel = rest }) in
    let before = front (batches past) s.wire s.packet_queue in
    record {
      view = h.view;
      chain =
          subst (λ l. Sublist l (messages (captured ++ [])))
            (ap (before ++◌) (upstream-read s e)
              ∙ (sym (append_assoc before (m ∷ []) after)
                  ∙ ap (◌++ after) (sym (front-read (batches past) s.wire s.packet_queue now m))))
            (subst (λ l. Sublist (before ++ upstream s) (messages l)) (sym (append-nil captured))
              h.chain);
    }

Step-Shows :
    {captured new : List CapturedPacket} {past : List Message} {s t : System} (st : Step s new t)
    → Shows captured past s
    → Shows (captured ++ new) (handled_in st ++ past) t
unfolding send_captured send_message
Step-Shows {captured} {new} {past} {s} (read now {m} {rest} e) h = read-Shows now m rest e h
Step-Shows {captured} {new} {past} {s} (flush {u} {us} e f) h =
    moved (flush e f) h (Sublist-eq (front-flush (batches past) s.wire s.packet_queue (u ∷ us) f))
      h.view
Step-Shows {captured} {new} {past} {s} (alert {item} {rest} e) h =
    moved (alert e) h
      (Sublist-eq (front-send (batches past) s.wire s.packet_queue (anomaly (alert_of item)) refl))
      h.view
Step-Shows {captured} {new} {past} {s} (send_stats now {process} {metric} e) h =
    moved (send_stats now e) h (Sublist-eq (front-send (batches past) s.wire s.packet_queue _ refl))
      h.view
Step-Shows {captured} {new} {past} {s} (measure round rates grpc_connected start_time now) h =
    moved (measure round rates grpc_connected start_time now) h
      (Sublist-eq (front-send (batches past) s.wire s.packet_queue _ refl)) h.view
Step-Shows {captured} {new} {past} {s} (handle {m} {rest} e) h = handle-Shows m rest e h
Step-Shows {captured} {new} {past} {s} break_wire h =
    moved break_wire h (front-break (batches past) s.wire s.packet_queue) h.view
Step-Shows {captured} {new} {past} {s} (tell r) h =
    moved (tell r) h (Sublist.refl _) ((on_report-lists r s.store).0 ∙ h.view)
Step-Shows {captured} {new} {past} st h = moved st h (Sublist.refl _) h.view

Reach-Shows :
    {captured : List CapturedPacket} {s : System} (r : Reach captured s)
    → Shows captured (handled r) s
Reach-Shows start = Shows-start
Reach-Shows (later r st) = Step-Shows st (Reach-Shows r)

-- However the parts run and whatever is lost on the way, the store shows the first 500 packets of the
-- batches that the dashboard handled, the latest batch first, and the packets of these batches, in the
-- order in which they were handled, are a part of the captured packets, each at most once and in the
-- order in which they were captured.
pub Reach-packets :
    {captured : List CapturedPacket} {s : System} (r : Reach captured s)
    → let seen = batches (handled r) in
      (s.store.packets ≡ take 500 (newest seen))
      × Sublist (map origin (oldest seen)) (messages captured)
Reach-packets {captured} {s} r =
    let h = Reach-Shows r in
    let seen = batches (handled r) in
    let rest = wire_packets s.wire ++ s.packet_queue in
    (
      h.view,
      Sublist-begin (map origin (oldest seen)) (map origin rest) (messages captured) (
          subst (λ l. Sublist l (messages captured)) (map-append origin (oldest seen) rest)
            (Sublist-begin (front seen s.wire s.packet_queue) (upstream s) (messages captured)
              h.chain)),
    )
