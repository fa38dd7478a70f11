-- ===== src/Signalr/Delivery.antt =====
-- From a call of the hub to the action of the store, web-dashboard/src/lib/signalr.ts.

use aether_lens.Prelude.{◌≡◌, some, text_eq}
use aether_lens.Wire.{Message, packets, process_stats, health, anomaly, encode}
use aether_lens.Wire.RoundTrip.{
  read_packets-encode, read_process-encode, read_suspicious-encode, read_health-encode,
}
use aether_lens.Store.{Action, packets_added, process_upserted, anomaly_added, health_set}
use aether_lens.Signalr.{receive}

-- The action that a message of the server is meant to cause.
unfoldable pub action_of : Message → Action
action_of (packets ps) = packets_added ps
action_of (process_stats p) = process_upserted p
action_of (health h) = health_set h
action_of (anomaly a) = anomaly_added a

-- Whatever the server sends, the handler registered for it calls the store's action for that kind of
-- message, with every field of the message as the server set it.
pub receive-encode : (m : Message) → receive (encode m) ≡ some (action_of m)
unfolding receive encode action_of text_eq
receive-encode (packets ps) = rw (read_packets-encode ps)
receive-encode (process_stats p) = rw (read_process-encode p)
receive-encode (health h) = rw (read_health-encode h)
receive-encode (anomaly a) = rw (read_suspicious-encode a)
