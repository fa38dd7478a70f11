-- ===== src/System/Upstream.antt =====
-- The packets that are still on the way to the server's packet loop, and what a step does to them,
-- over core-engine/src/engine/processor.rs and api-server/Services/GrpcStreamService.cs.
use mathlib.Core.List.{Sublist}
use mathlib.Core.List.Sublist
use mathlib.Core.Path.{subst}
use aether_lens.Prelude.{◌≡◌, sym, ◌∙◌, List, [], ◌∷◌, ◌++◌, map, append-nil, Sublist-tail}
use aether_lens.Types.{PacketUpdate}
use aether_lens.Engine.Scoring.{CapturedPacket}
use aether_lens.Engine.Messages.{PacketMessage, packet_message}
use aether_lens.System.Transit.{
  passing, queued, broadcasted, dropped, lagged, broken, written, was_read,
}
use aether_lens.System.{
  System, Step, capture, broadcast, unheard, lag, break_stream, write, read, packet_capacity,
  send_captured, consume_packet, send_message,
}

-- The message that an update was made of.
abbrev pub origin : PacketUpdate → PacketMessage
origin u = record {
  process = u.process;
  local_addr = u.local_address;
  remote_addr = u.remote_address;
  protocol = u.protocol;
  bytes = u.bytes;
  timestamp = u.timestamp;
  outbound = u.outbound;
}

abbrev pub messages : List CapturedPacket → List PacketMessage
messages captured = map packet_message captured

-- What the packet loop has still to read, first things first.
abbrev pub upstream : System → List PacketMessage
upstream s = passing packet_message s.packet_channel s.packet_stream s.captured_queue

pub upstream-read :
    (s : System) {m : PacketMessage} {rest : List PacketMessage}
    → s.packet_channel ≡ m ∷ rest
    → upstream s ≡ m ∷ upstream (record s { packet_channel = rest })
upstream-read s {m} {rest} e =
    was_read packet_message s.packet_channel s.packet_stream s.captured_queue m rest e

-- A step leaves a part of what was on the way and puts the packets that it captures behind it.
pub Step-upstream :
    {s t : System} {new : List CapturedPacket}
    → Step s new t
    → Sublist (upstream t) (upstream s ++ messages new)
unfolding send_captured consume_packet send_message
Step-upstream {s} (capture packet) =
    subst (Sublist _)
      (queued packet_message s.packet_channel s.packet_stream s.captured_queue (packet ∷ []))
      (Sublist.refl _)
Step-upstream {s} (broadcast {packet} {rest} e) =
    subst (Sublist _)
      (broadcasted packet_message s.packet_channel s.packet_stream s.captured_queue packet rest e)
      (Sublist.refl _)
Step-upstream {s} (unheard {packet} {rest} e) =
    dropped packet_message s.packet_channel s.packet_stream s.captured_queue packet rest e
Step-upstream {s} (lag {m} {rest} e) =
    lagged packet_message s.packet_channel s.packet_stream s.captured_queue m rest e
Step-upstream {s} break_stream =
    broken packet_message s.packet_channel s.packet_stream s.captured_queue
Step-upstream {s} (write {m} {rest} e) =
    written packet_message s.packet_channel s.packet_stream s.captured_queue packet_capacity m rest
      e
Step-upstream {s} (read now {m} {rest} e) =
    subst (Sublist _) (sym (upstream-read s e) ∙ sym (append-nil (upstream s)))
      (Sublist-tail m (upstream (record s { packet_channel = rest })))
Step-upstream {s} _ = rw append-nil (Sublist.refl (upstream s))
