-- ===== src/Wire/RoundTrip.antt =====
-- The fields of api-server/Hubs/Contracts.cs and, camelized, those of web-dashboard/src/types/index.ts.
use aether_lens.Prelude.{◌≡◌, refl, List, [], ◌∷◌, some, text_eq}
use aether_lens.Types.{
  PacketUpdate, ProcessBandwidthUpdate, SuspiciousOutboundConnection, SystemHealthData,
}
use aether_lens.Camelize.{array, put, get, camelize, camelize_items, camelize_key}
use aether_lens.Wire.{
  encode_packet, encode_packets, encode_process, encode_suspicious, encode_health, read_packet,
  read_items, read_packets, read_process, read_suspicious, read_health,
}

-- Literals and all functions of the way there and back.
wire : Unit {0}
unfolding camelize camelize_key put get text_eq
wire = tt

read_packet-encode : (p : PacketUpdate) → read_packet (camelize (encode_packet p)) ≡ some p
unfolding wire read_packet encode_packet
read_packet-encode p = refl

read_items-encode :
    (ps : List PacketUpdate) → read_items (camelize_items (encode_packets ps)) ≡ some ps
unfolding read_items encode_packets camelize
read_items-encode [] = refl
read_items-encode (p ∷ ps) = rw (read_packet-encode p, read_items-encode ps)

pub read_packets-encode :
    (ps : List PacketUpdate) → read_packets (camelize (array (encode_packets ps))) ≡ some ps
unfolding read_packets camelize
read_packets-encode ps = read_items-encode ps

pub read_process-encode :
    (p : ProcessBandwidthUpdate) → read_process (camelize (encode_process p)) ≡ some p
unfolding wire read_process encode_process
read_process-encode p = refl

pub read_suspicious-encode :
    (a : SuspiciousOutboundConnection) → read_suspicious (camelize (encode_suspicious a)) ≡ some a
unfolding wire read_suspicious encode_suspicious
read_suspicious-encode a = refl

pub read_health-encode : (h : SystemHealthData) → read_health (camelize (encode_health h)) ≡ some h
unfolding wire read_health encode_health
read_health-encode h = refl
