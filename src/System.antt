-- ===== src/System.antt =====
-- The running system: core-engine's capture thread and its two processors, the streams to api-server,
-- the server's subscribers, loops and channels, its messages to the hub's group, and one dashboard.
-- A step is one of them doing its next piece of work; between steps the order is free. What a
-- channel or a connection may lose, it loses by a step of its own. The pieces of work are the
-- functions of Engine, Server and Pipeline.
pub mod Transit
pub mod Upstream
pub mod Gather
pub mod Handled
pub mod Totals
pub mod Reported
pub mod Rows
pub mod Packets
pub mod Alerts
pub mod Bytes
pub mod Complete
pub mod Limits
use aether_lens.Prelude.{ℕ, ◌≡◌, Bool, Option, none, some, List, [], ◌∷◌, ◌++◌, map, Text}
use aether_lens.Number.{Double}
use aether_lens.Types.{PacketUpdate}
use aether_lens.Wire.{Message, packets, process_stats, health, anomaly, encode}
use aether_lens.Signalr.{Report, receive, on_report}
use aether_lens.Store.{AetherState, initial}
use aether_lens.Engine.Scoring.{CapturedPacket, SuspiciousConnection, score_suspicious}
use aether_lens.Engine.Messages.{
  PacketMessage, SuspiciousConnectionMessage, packet_message, suspicious_message,
}
use aether_lens.Server.Alerts.{alert_of}
use aether_lens.Server.Batches.{drain}
use aether_lens.Server.Consumer
use aether_lens.Server.Consumer.{
  Counter, Stats, consume, look, report, update_of, stats_of, no_stats,
}
use aether_lens.Server.Health.{Rates, health_message}
use aether_lens.Server.Persistence
use aether_lens.Server.Persistence.{Attempts, Worker, arrive, turn, enqueue}
use aether_lens.Server.Persistence.Order.{idle}
use aether_lens.Pipeline.{act_if}

pub record System : Type 0 where
  pub captured_queue : List CapturedPacket  -- from the capture thread to `process_packets`
  pub reported_queue : List SuspiciousConnection
  pub packet_stream : List PacketMessage  -- broadcast, and not yet read by the server
  pub report_stream : List SuspiciousConnectionMessage
  pub packet_channel : List PacketMessage  -- the server's channels
  pub report_channel : List SuspiciousConnectionMessage
  pub packet_queue : List PacketUpdate  -- of the packet loop
  pub stats : Stats
  pub worker : Worker PacketUpdate  -- with its channel and the table
  pub wire : List Message  -- sent to the group, and not yet handled
  pub store : AetherState

-- `Channel.CreateBounded<PacketMessage>` and `Channel.CreateBounded<SuspiciousConnectionMessage>`
abbrev pub packet_capacity : ℕ
packet_capacity = 10_000

abbrev pub report_capacity : ℕ
report_capacity = 4_000

unfoldable pub initial_system : System
unfolding initial
initial_system = record {
  captured_queue = [];
  reported_queue = [];
  packet_stream = [];
  report_stream = [];
  packet_channel = [];
  report_channel = [];
  packet_queue = [];
  stats = no_stats;
  worker = idle;
  wire = [];
  store = initial;
}

abbrev pub to_list {ℓ} : {A : Type ℓ} → Option A → List A
to_list none = []
to_list (some x) = x ∷ []

-- The capture thread sends a packet, and its report if it is suspicious.
unfoldable pub send_captured : CapturedPacket → System → System
send_captured packet s = record s {
  captured_queue = s.captured_queue ++ packet ∷ [];
  reported_queue = s.reported_queue ++ to_list (score_suspicious packet);
}

-- The packet loop on one packet: it is offered for persistence, queued for the hub and counted.
unfoldable pub consume_packet : ℕ → PacketMessage → System → System
unfolding update_of
consume_packet now m s = record s {
  packet_queue = s.packet_queue ++ update_of now m ∷ [];
  stats = Consumer.step (consume m) s.stats;
  worker = Persistence.step (arrive (update_of now m)) s.worker;
}

unfoldable pub send_message : Message → System → System
send_message m s = record s { wire = s.wire ++ m ∷ [] }

-- A step from `s`, with the packets that it captures.
pub data Step (s : System) : List CapturedPacket → System → Type 0 where
  capture : (packet : CapturedPacket) → Step s (packet ∷ []) (send_captured packet s)
  broadcast :
      {packet : CapturedPacket} {rest : List CapturedPacket}
      → s.captured_queue ≡ packet ∷ rest
      → Step s [] (record s {
        captured_queue = rest;
        packet_stream = s.packet_stream ++ packet_message packet ∷ [];
      })
  -- Without a subscriber `send` fails, and the error is ignored.
  unheard :
      {packet : CapturedPacket} {rest : List CapturedPacket}
      → s.captured_queue ≡ packet ∷ rest
      → Step s [] (record s { captured_queue = rest })
  broadcast_report :
      {connection : SuspiciousConnection} {rest : List SuspiciousConnection}
      → s.reported_queue ≡ connection ∷ rest
      → Step s [] (record s {
        reported_queue = rest;
        report_stream = s.report_stream ++ suspicious_message connection ∷ [];
      })
  unheard_report :
      {connection : SuspiciousConnection} {rest : List SuspiciousConnection}
      → s.reported_queue ≡ connection ∷ rest
      → Step s [] (record s { reported_queue = rest })
  -- A subscriber that lags misses the oldest message, which `res.ok()` passes over.
  lag :
      {m : PacketMessage} {rest : List PacketMessage}
      → s.packet_stream ≡ m ∷ rest
      → Step s [] (record s { packet_stream = rest })
  lag_report :
      {m : SuspiciousConnectionMessage} {rest : List SuspiciousConnectionMessage}
      → s.report_stream ≡ m ∷ rest
      → Step s [] (record s { report_stream = rest })
  break_stream : Step s [] (record s { packet_stream = [] })
  break_report_stream : Step s [] (record s { report_stream = [] })
  write :
      {m : PacketMessage} {rest : List PacketMessage}
      → s.packet_stream ≡ m ∷ rest
      → Step s [] (record s {
        packet_stream = rest;
        packet_channel = enqueue packet_capacity m s.packet_channel;
      })
  write_report :
      {m : SuspiciousConnectionMessage} {rest : List SuspiciousConnectionMessage}
      → s.report_stream ≡ m ∷ rest
      → Step s [] (record s {
        report_stream = rest;
        report_channel = enqueue report_capacity m s.report_channel;
      })
  read :
      (now : ℕ) {m : PacketMessage} {rest : List PacketMessage}
      → s.packet_channel ≡ m ∷ rest
      → Step s [] (consume_packet now m (record s { packet_channel = rest }))
  -- The packet loop found its channel empty.
  flush :
      {u : PacketUpdate} {us : List PacketUpdate}
      → s.packet_channel ≡ []
      → s.packet_queue ≡ u ∷ us
      → Step s [] (send_message (packets (drain (u ∷ us) [])) (record s { packet_queue = [] }))
  alert :
      {item : SuspiciousConnectionMessage} {rest : List SuspiciousConnectionMessage}
      → s.report_channel ≡ item ∷ rest
      → Step s [] (send_message (anomaly (alert_of item)) (record s { report_channel = rest }))
  look_at : (process : Text) → Step s [] (record s { stats = Consumer.step (look process) s.stats })
  send_stats :
      (now : ℕ) {process : Text} {metric : Counter}
      → s.stats.held ≡ some (process, metric)
      → Step s [] (
          send_message
            (process_stats (stats_of now process metric))
            (record s { stats = Consumer.step (report now) s.stats }))
  measure :
      (round : Double → ℕ → Double) (rates : Rates) (grpc_connected : Bool) (start_time now : ℕ)
      → Step s []
          (send_message (health (health_message round rates grpc_connected start_time now)) s)
  persist :
      (answers : Attempts)
      → Step s [] (record s { worker = Persistence.step (turn answers) s.worker })
  handle :
      {m : Message} {rest : List Message}
      → s.wire ≡ m ∷ rest
      → Step s [] (record s { wire = rest; store = act_if (receive (encode m)) s.store })
  -- The connection of the dashboard is lost, with all that is on the way.
  break_wire : Step s [] (record s { wire = [] })
  tell : (r : Report) → Step s [] (record s { store = on_report r s.store })

-- The system is reached from its start while the packets are captured, in this order.
pub data Reach : List CapturedPacket → System → Type 0 where
  start : Reach [] initial_system
  later :
      {captured new : List CapturedPacket} {s t : System}
      → Reach captured s
      → Step s new t
      → Reach (captured ++ new) t
