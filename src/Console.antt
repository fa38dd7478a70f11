-- ===== src/Console.antt =====
-- web-dashboard/src/components/LiveConsole.tsx: the log of the live console. The subscriptions to
-- the store hand their listener the new value; each call of a listener is a `Notice` here, in the
-- order of the calls. What `crypto.randomUUID` and the clock return comes with the notice.
pub mod Window
use aether_lens.Prelude.{
  ℕ, ◌-◌, Bool, true, false, Option, none, some, List, [], ◌∷◌, ◌++◌, Text, codes, or_text, length,
  drop, ltb, ◌==◌, if◌then◌else◌,
}
use aether_lens.Number.{number_text}
use aether_lens.Types.{PacketUpdate, SuspiciousOutboundConnection, SystemHealthData}

pub data Level : Type 0 where
  info warn error debug : Level

pub record LogEntry : Type 0 where
  pub id : Text
  pub timestamp : Text
  pub level : Level
  pub message : Text

pub record Console : Type 0 where
  pub logs : List LogEntry
  pub last_packet : ℕ  -- `lastPacketRef.current`

-- What the environment gives a new entry.
pub record Stamp : Type 0 where
  pub id : Text
  pub time : Text

-- A packet as the listener reads it, with the properties `LocalAddress` and `RemoteAddress` that a
-- message with legacy keys would have.
pub record Arrived : Type 0 where
  pub packet : PacketUpdate
  pub legacy_local : Option Text
  pub legacy_remote : Option Text

unfoldable pub empty : Console
empty = record { logs = []; last_packet = 0 }

-- `setLogs`: the entry comes last, and of more than 50 the last 50 stay.
unfoldable pub append : LogEntry → List LogEntry → List LogEntry
append entry prev =
    let next = prev ++ entry ∷ [] in
    if ltb 50 (length next) then drop (length next - 50) next else next

abbrev add_log : Stamp → Level → Text → Console → Console
add_log stamp level message c = record c {
  logs =
      append (record { id = stamp.id; timestamp = stamp.time; level = level; message = message })
        c.logs;
}

abbrev legacy : Option Text → Text
legacy none = []
legacy (some s) = s

unfoldable pub packet_line : Arrived → Text
packet_line a =
    let p = a.packet in
    let unknown = codes "Unknown" in
    let local = or_text (or_text p.local_address (legacy a.legacy_local)) unknown in
    let remote = or_text (or_text p.remote_address (legacy a.legacy_remote)) unknown in
    codes "[PACKET] "
    ++ (p.protocol
        ++ (codes " "
            ++ (local
                ++ (codes " -> "
                    ++ (remote ++ (codes " (" ++ (number_text p.bytes ++ codes "b)")))))))

unfoldable pub anomaly_line : SuspiciousOutboundConnection → Text
anomaly_line a = codes "[ANOMALY] " ++ (a.reason ++ (codes " detected for " ++ a.process))

on_packets : Stamp → List Arrived → Console → Console
on_packets stamp [] c = c
on_packets stamp (latest ∷ older) c =
    if latest.packet.timestamp == c.last_packet
    then c
    else add_log stamp info (packet_line latest)
        (record c { last_packet = latest.packet.timestamp })

on_anomalies : Stamp → List SuspiciousOutboundConnection → Console → Console
on_anomalies stamp [] c = c
on_anomalies stamp (latest ∷ older) c = add_log stamp warn (anomaly_line latest) c

-- The listener's only statement is commented out.
on_health : Option SystemHealthData → Console → Console
on_health health c = c

unfoldable pub connection_line : Bool → Text
connection_line connected =
    codes "[SIGNALR] Connection " ++ (if connected then codes "established" else codes "lost")

on_connected : Stamp → Bool → Console → Console
on_connected stamp connected c =
    add_log stamp (if connected then info else error) (connection_line connected) c

pub data Notice : Type 0 where
  packets : Stamp → List Arrived → Notice
  anomalies : Stamp → List SuspiciousOutboundConnection → Notice
  health : Option SystemHealthData → Notice
  connected : Stamp → Bool → Notice

unfoldable pub notify : Notice → Console → Console
unfolding on_packets on_anomalies on_health on_connected
notify (packets stamp ps) c = on_packets stamp ps c
notify (anomalies stamp found) c = on_anomalies stamp found c
notify (health h) c = on_health h c
notify (connected stamp b) c = on_connected stamp b c

unfoldable pub run : List Notice → Console → Console
unfolding notify append packet_line anomaly_line connection_line number_text
run [] c = c
run (n ∷ notices) c = run notices (notify n c)
