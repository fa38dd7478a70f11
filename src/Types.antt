-- ===== src/Types.antt =====
-- web-dashboard/src/types/index.ts: the four messages that the dashboard stores. Byte counts and
-- times are integers; rates, latencies and scores are floating-point numbers.
use aether_lens.Prelude.{ℕ, Bool, Text}
use aether_lens.Number.{Double}

pub record PacketUpdate : Type 0 where
  pub process : Text
  pub local_address : Text
  pub remote_address : Text
  pub protocol : Text
  pub bytes : ℕ
  pub outbound : Bool
  pub timestamp : ℕ
  pub latency_ms : Double

pub record ProcessBandwidthUpdate : Type 0 where
  pub process : Text
  pub bytes_per_second : ℕ
  pub packets_per_second : ℕ
  pub protocol : Text
  pub timestamp : ℕ
  pub tier : Text

pub record SuspiciousOutboundConnection : Type 0 where
  pub process : Text
  pub remote_address : Text
  pub reason : Text
  pub severity : Text
  pub score : Double
  pub timestamp : ℕ

pub record SystemHealthData : Type 0 where
  pub grpc_connected : Bool
  pub packets_per_second : Double
  pub avg_latency_ms : Double
  pub max_latency_ms : Double
  pub uptime : Text
