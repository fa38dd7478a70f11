-- ===== src/Pipeline.antt =====
-- The way of the traffic through all three parts: what the engine broadcasts (core-engine), the
-- messages that the server makes of it (api-server) and the dashboard's store after they arrived
-- (web-dashboard). Messages arrive in the order in which they are sent.
pub mod Actions
pub mod Latest
pub mod Dashboard
pub mod Feed
use mathlib.Core.Option
use aether_lens.Prelude.{ℕ, Option, Bool, none, some, List, [], ◌∷◌, Text}
use aether_lens.Types.{PacketUpdate}
use aether_lens.Wire.{Message, packets, process_stats, health, anomaly, encode}
use aether_lens.Signalr.{Report, receive, on_report}
use aether_lens.Store.{AetherState, Action, act, initial}
use aether_lens.Engine.Messages.{PacketMessage, SuspiciousConnectionMessage}
use aether_lens.Server.Alerts.{alert_of}
use aether_lens.Server.Batches.{wake, quiet_loop}
use aether_lens.Server.Consumer.{Counter, stats_of}
use aether_lens.Server.Health.{Rates, health_message}
use aether_lens.Number.{Double}

-- What sets the parts in motion: the packets that one wake of the server's packet loop reads, each
-- with the time of the read; a suspicious connection; a turn of the process loop on a process with
-- its counter, at a time; a turn of the health monitor; or a report of the dashboard's connection.
pub data Arrival : Type 0 where
  drained : List (ℕ × PacketMessage) → Arrival
  flagged : SuspiciousConnectionMessage → Arrival
  counted : ℕ → Text → Counter → Arrival
  measured : (Double → ℕ → Double) → Rates → Bool → ℕ → ℕ → Arrival
  told : Report → Arrival

batch_messages : List (List PacketUpdate) → List Message
batch_messages [] = []
batch_messages (batch ∷ batches) = packets batch ∷ batch_messages batches

-- The messages that the server sends for an arrival.
unfoldable pub server_sends : Arrival → List Message
unfolding batch_messages wake alert_of stats_of health_message
server_sends (drained waiting) = batch_messages (wake waiting quiet_loop).batches
server_sends (flagged item) = anomaly (alert_of item) ∷ []
server_sends (counted now process metric) = process_stats (stats_of now process metric) ∷ []
server_sends (measured round rates grpc_connected start_time now) =
    health (health_message round rates grpc_connected start_time now) ∷ []
server_sends (told report) = []

-- A handler that finds nothing to call leaves the store as it is.
unfoldable pub act_if : Option Action → AetherState → AetherState
unfolding act
act_if none state = state
act_if (some action) state = act action state

unfoldable pub deliver : List Message → AetherState → AetherState
unfolding receive encode act_if
deliver [] state = state
deliver (m ∷ messages) state = deliver messages (act_if (receive (encode m)) state)

-- What an arrival does to the dashboard's store.
unfoldable pub reach : Arrival → AetherState → AetherState
unfolding server_sends deliver on_report
reach (drained waiting) state = deliver (server_sends (drained waiting)) state
reach (flagged item) state = deliver (server_sends (flagged item)) state
reach (counted now process metric) state = deliver (server_sends (counted now process metric)) state
reach (measured round rates grpc_connected start_time now) state =
    deliver (server_sends (measured round rates grpc_connected start_time now)) state
reach (told report) state = on_report report state

unfoldable pub dashboard : List Arrival → AetherState → AetherState
unfolding reach
dashboard [] state = state
dashboard (a ∷ arrivals) state = dashboard arrivals (reach a state)
