-- ===== src/Wire.antt =====
-- The four messages on the wire: api-server/Hubs/Contracts.cs gives the fields in PascalCase, and
-- the handlers of web-dashboard/src/lib/signalr.ts read the camelized object as the interfaces of
-- web-dashboard/src/types/index.ts. A cast to an interface checks nothing when it runs; here it is
-- the read of every field, and `none` where one is missing or of another type.
pub mod RoundTrip
use aether_lens.Prelude.{
  ℕ, zero, suc, Bool, ◌≡◌, refl, Option, none, some, List, [], ◌∷◌, map, Text, codes, text_eq,
}
use aether_lens.Number.{Double, integer}
use aether_lens.Types.{
  PacketUpdate, ProcessBandwidthUpdate, SuspiciousOutboundConnection, SystemHealthData,
}
use aether_lens.Camelize.{
  Value, null, boolean, number, string, array, object, Items, nil, cons, Fields, end, field,
  camelize_key, put, get, camelize,
}

infixl 5 ◌>>=◌
abbrev ◌>>=◌ {ℓ κ} : {A : Type ℓ} {B : Type κ} → Option A → (A → Option B) → Option B
none >>= f = none
some a >>= f = f a

abbrev int : ℕ → Value
int n = number (integer n)

pub encode_packet : PacketUpdate → Value
encode_packet p = object (
    field (codes "Process") (string p.process) (
      field (codes "LocalAddress") (string p.local_address) (
        field (codes "RemoteAddress") (string p.remote_address) (
          field (codes "Protocol") (string p.protocol) (
            field (codes "Bytes") (int p.bytes) (
              field (codes "Outbound") (boolean p.outbound) (
                field (codes "Timestamp") (int p.timestamp)
                  (field (codes "LatencyMs") (number p.latency_ms) end))))))))

pub encode_process : ProcessBandwidthUpdate → Value
encode_process p = object (
    field (codes "Process") (string p.process) (
      field (codes "BytesPerSecond") (int p.bytes_per_second) (
        field (codes "PacketsPerSecond") (int p.packets_per_second) (
          field (codes "Protocol") (string p.protocol) (
            field (codes "Timestamp") (int p.timestamp)
              (field (codes "Tier") (string p.tier) end))))))

pub encode_suspicious : SuspiciousOutboundConnection → Value
encode_suspicious a = object (
    field (codes "Process") (string a.process) (
      field (codes "RemoteAddress") (string a.remote_address) (
        field (codes "Reason") (string a.reason) (
          field (codes "Severity") (string a.severity) (
            field (codes "Score") (number a.score)
              (field (codes "Timestamp") (int a.timestamp) end))))))

pub encode_health : SystemHealthData → Value
encode_health h = object (
    field (codes "GrpcConnected") (boolean h.grpc_connected) (
      field (codes "PacketsPerSecond") (number h.packets_per_second) (
        field (codes "AvgLatencyMs") (number h.avg_latency_ms) (
          field (codes "MaxLatencyMs") (number h.max_latency_ms)
            (field (codes "Uptime") (string h.uptime) end)))))

abbrev as_text : Value → Option Text
as_text (string s) = some s
as_text _ = none

abbrev as_number : Value → Option Double
as_number (number x) = some x
as_number _ = none

abbrev as_bool : Value → Option Bool
as_bool (boolean b) = some b
as_bool _ = none

abbrev integral : Double → ℕ → Option ℕ
integral x zero = some x.mantissa
integral x (suc _) = none

abbrev as_integer : Value → Option ℕ
as_integer (number x) = integral x x.scale
as_integer _ = none

abbrev fields_of : Value → Fields
fields_of (object fs) = fs
fields_of _ = end

-- `camelize<PacketUpdate>(raw)` as its readers see it; so the other three.
unfoldable pub read_packet : Value → Option PacketUpdate
read_packet v = do
  let fs = fields_of v
  process ← get (codes "process") fs >>= as_text
  local_address ← get (codes "localAddress") fs >>= as_text
  remote_address ← get (codes "remoteAddress") fs >>= as_text
  protocol ← get (codes "protocol") fs >>= as_text
  bytes ← get (codes "bytes") fs >>= as_integer
  outbound ← get (codes "outbound") fs >>= as_bool
  timestamp ← get (codes "timestamp") fs >>= as_integer
  latency_ms ← get (codes "latencyMs") fs >>= as_number
  some (record {
    process = process;
    local_address = local_address;
    remote_address = remote_address;
    protocol = protocol;
    bytes = bytes;
    outbound = outbound;
    timestamp = timestamp;
    latency_ms = latency_ms;
  })

unfoldable pub read_process : Value → Option ProcessBandwidthUpdate
read_process v = do
  let fs = fields_of v
  process ← get (codes "process") fs >>= as_text
  bytes_per_second ← get (codes "bytesPerSecond") fs >>= as_integer
  packets_per_second ← get (codes "packetsPerSecond") fs >>= as_integer
  protocol ← get (codes "protocol") fs >>= as_text
  timestamp ← get (codes "timestamp") fs >>= as_integer
  tier ← get (codes "tier") fs >>= as_text
  some (record {
    process = process;
    bytes_per_second = bytes_per_second;
    packets_per_second = packets_per_second;
    protocol = protocol;
    timestamp = timestamp;
    tier = tier;
  })

unfoldable pub read_suspicious : Value → Option SuspiciousOutboundConnection
read_suspicious v = do
  let fs = fields_of v
  process ← get (codes "process") fs >>= as_text
  remote_address ← get (codes "remoteAddress") fs >>= as_text
  reason ← get (codes "reason") fs >>= as_text
  severity ← get (codes "severity") fs >>= as_text
  score ← get (codes "score") fs >>= as_number
  timestamp ← get (codes "timestamp") fs >>= as_integer
  some (record {
    process = process;
    remote_address = remote_address;
    reason = reason;
    severity = severity;
    score = score;
    timestamp = timestamp;
  })

unfoldable pub read_health : Value → Option SystemHealthData
read_health v = do
  let fs = fields_of v
  grpc_connected ← get (codes "grpcConnected") fs >>= as_bool
  packets_per_second ← get (codes "packetsPerSecond") fs >>= as_number
  avg_latency_ms ← get (codes "avgLatencyMs") fs >>= as_number
  max_latency_ms ← get (codes "maxLatencyMs") fs >>= as_number
  uptime ← get (codes "uptime") fs >>= as_text
  some (record {
    grpc_connected = grpc_connected;
    packets_per_second = packets_per_second;
    avg_latency_ms = avg_latency_ms;
    max_latency_ms = max_latency_ms;
    uptime = uptime;
  })

-- The batch of `ReceivePackets`.
pub encode_packets : List PacketUpdate → Items
unfolding encode_packet
encode_packets [] = nil
encode_packets (p ∷ ps) = cons (encode_packet p) (encode_packets ps)

items_of : Value → Items
items_of (array items) = items
items_of _ = nil

read_items : Items → Option (List PacketUpdate)
unfolding read_packet
read_items nil = some []
read_items (cons v items) = do p ← read_packet v; ps ← read_items items; some (p ∷ ps)

unfoldable pub read_packets : Value → Option (List PacketUpdate)
unfolding read_items items_of
read_packets v = read_items (items_of v)

-- A call that the hub makes on its clients, with what the server hands over.
pub data Message : Type 0 where
  packets : List PacketUpdate → Message
  process_stats : ProcessBandwidthUpdate → Message
  health : SystemHealthData → Message
  anomaly : SuspiciousOutboundConnection → Message

-- The name of the client method, and its argument as it arrives.
pub record HubCall : Type 0 where
  pub method : Text
  pub raw : Value

unfoldable pub encode : Message → HubCall
unfolding encode_packets encode_process encode_suspicious encode_health
encode (packets ps) = record { method = codes "ReceivePackets"; raw = array (encode_packets ps) }
encode (process_stats p) = record { method = codes "ReceiveProcessStats"; raw = encode_process p }
encode (health h) = record { method = codes "ReceiveHealth"; raw = encode_health h }
encode (anomaly a) = record { method = codes "ReceiveAnomaly"; raw = encode_suspicious a }
