-- ===== src/Engine/Messages.antt =====
-- core-engine/src/engine/processor.rs and shared/proto/aether.proto: what the engine broadcasts for a
-- captured packet and for a suspicious connection. The streams of the subscribers are tokio's.
use aether_lens.Prelude.{ℕ, Bool, Text}
use aether_lens.Number.{Double}
use aether_lens.Engine.Scoring.{CapturedPacket, SuspiciousConnection}

pub record PacketMessage : Type 0 where
  pub process : Text
  pub local_addr : Text
  pub remote_addr : Text
  pub protocol : Text
  pub bytes : ℕ
  pub timestamp : ℕ
  pub outbound : Bool

pub record SuspiciousConnectionMessage : Type 0 where
  pub process : Text
  pub remote_addr : Text
  pub reason : Text
  pub score : Double
  pub timestamp : ℕ

unfoldable pub packet_message : CapturedPacket → PacketMessage
packet_message p = record {
  process = p.process;
  local_addr = p.local_addr;
  remote_addr = p.remote_addr;
  protocol = p.protocol;
  bytes = p.bytes;
  timestamp = p.timestamp;
  outbound = p.outbound;
}

unfoldable pub suspicious_message : SuspiciousConnection → SuspiciousConnectionMessage
suspicious_message item = record {
  process = item.process;
  remote_addr = item.remote_addr;
  reason = item.reason;
  score = item.score;
  timestamp = item.timestamp;
}
