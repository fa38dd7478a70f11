-- ===== src/Pipeline/Latest.antt =====
-- What the histories of Store.History and Store.Recency are for the actions that arrivals cause.
use aether_lens.Prelude.{◌≡◌, refl, ◌∙◌, Bool, Option, none, some, List, [], ◌∷◌, ◌++◌}
use aether_lens.Types.{
  PacketUpdate, ProcessBandwidthUpdate, SuspiciousOutboundConnection, SystemHealthData,
}
use aether_lens.Store.{Action}
use aether_lens.Store.History.{all_packets, all_anomalies, last_health, last_connected}
use aether_lens.Store.Recency.{all_updates}
use aether_lens.Server.Alerts.{alert_of}
use aether_lens.Server.Batches.Delivery.{updates}
use aether_lens.Server.Consumer.{stats_of}
use aether_lens.Server.Health.{health_message}
use aether_lens.Pipeline.{Arrival, drained, flagged, counted, measured, told}
use aether_lens.Pipeline.Actions.{packet_actions, says, set_actions, actions_of}

abbrev or_else : Option Bool → Bool → Bool
or_else none b = b
or_else (some a) b = a

-- All updates of packets that arrived, the latest batch first and each in its own order.
abbrev pub latest_packets : List Arrival → (List PacketUpdate) → (List PacketUpdate)
latest_packets [] old = old
latest_packets (drained waiting ∷ arrivals) old = latest_packets arrivals (updates waiting ++ old)
latest_packets (flagged item ∷ arrivals) old = latest_packets arrivals old
latest_packets (counted now process metric ∷ arrivals) old = latest_packets arrivals old
latest_packets (measured round rates grpc_connected start_time now ∷ arrivals) old =
    latest_packets arrivals old
latest_packets (told report ∷ arrivals) old = latest_packets arrivals old

-- All alerts, latest first.
abbrev pub latest_alerts :
    List Arrival → (List SuspiciousOutboundConnection) → (List SuspiciousOutboundConnection)
latest_alerts [] old = old
latest_alerts (drained waiting ∷ arrivals) old = latest_alerts arrivals old
latest_alerts (flagged item ∷ arrivals) old = latest_alerts arrivals (alert_of item ∷ old)
latest_alerts (counted now process metric ∷ arrivals) old = latest_alerts arrivals old
latest_alerts (measured round rates grpc_connected start_time now ∷ arrivals) old =
    latest_alerts arrivals old
latest_alerts (told report ∷ arrivals) old = latest_alerts arrivals old

-- All updates of processes, latest first.
abbrev pub latest_stats :
    List Arrival → (List ProcessBandwidthUpdate) → (List ProcessBandwidthUpdate)
latest_stats [] old = old
latest_stats (drained waiting ∷ arrivals) old = latest_stats arrivals old
latest_stats (flagged item ∷ arrivals) old = latest_stats arrivals old
latest_stats (counted now process metric ∷ arrivals) old =
    latest_stats arrivals (stats_of now process metric ∷ old)
latest_stats (measured round rates grpc_connected start_time now ∷ arrivals) old =
    latest_stats arrivals old
latest_stats (told report ∷ arrivals) old = latest_stats arrivals old

-- The last measurement, else an earlier one.
abbrev pub latest_health : List Arrival → (Option SystemHealthData) → (Option SystemHealthData)
latest_health [] old = old
latest_health (drained waiting ∷ arrivals) old = latest_health arrivals old
latest_health (flagged item ∷ arrivals) old = latest_health arrivals old
latest_health (counted now process metric ∷ arrivals) old = latest_health arrivals old
latest_health (measured round rates grpc_connected start_time now ∷ arrivals) old =
    latest_health arrivals (some (health_message round rates grpc_connected start_time now))
latest_health (told report ∷ arrivals) old = latest_health arrivals old

-- What the last report that says so says of the connection.
abbrev pub latest_status : List Arrival → Bool → Bool
latest_status [] old = old
latest_status (drained waiting ∷ arrivals) old = latest_status arrivals old
latest_status (flagged item ∷ arrivals) old = latest_status arrivals old
latest_status (counted now process metric ∷ arrivals) old = latest_status arrivals old
latest_status (measured round rates grpc_connected start_time now ∷ arrivals) old =
    latest_status arrivals old
latest_status (told report ∷ arrivals) old = latest_status arrivals (or_else (says report) old)

all_packets-packets :
    (batch : List PacketUpdate) (actions : List Action) (old : List PacketUpdate)
    → all_packets (packet_actions batch ++ actions) old ≡ all_packets actions (batch ++ old)
unfolding all_packets packet_actions
all_packets-packets [] actions old = refl
all_packets-packets (u ∷ us) actions old = refl

all_packets-status :
    (status : Option Bool) (actions : List Action) (old : List PacketUpdate)
    → all_packets (set_actions status ++ actions) old ≡ all_packets actions old
unfolding all_packets set_actions
all_packets-status none actions old = refl
all_packets-status (some b) actions old = refl

pub all_packets-actions_of :
    (arrivals : List Arrival) (old : List PacketUpdate)
    → all_packets (actions_of arrivals) old ≡ latest_packets arrivals old
unfolding all_packets actions_of
all_packets-actions_of [] old = refl
all_packets-actions_of (drained waiting ∷ arrivals) old =
    all_packets-packets (updates waiting) (actions_of arrivals) old
    ∙ all_packets-actions_of arrivals _
all_packets-actions_of (flagged item ∷ arrivals) old = all_packets-actions_of arrivals _
all_packets-actions_of (counted now process metric ∷ arrivals) old =
    all_packets-actions_of arrivals _
all_packets-actions_of (measured round rates grpc_connected start_time now ∷ arrivals) old =
    all_packets-actions_of arrivals _
all_packets-actions_of (told report ∷ arrivals) old =
    all_packets-status (says report) (actions_of arrivals) old ∙ all_packets-actions_of arrivals _

all_anomalies-packets :
    (batch : List PacketUpdate) (actions : List Action) (old : List SuspiciousOutboundConnection)
    → all_anomalies (packet_actions batch ++ actions) old ≡ all_anomalies actions old
unfolding all_anomalies packet_actions
all_anomalies-packets [] actions old = refl
all_anomalies-packets (u ∷ us) actions old = refl

all_anomalies-status :
    (status : Option Bool) (actions : List Action) (old : List SuspiciousOutboundConnection)
    → all_anomalies (set_actions status ++ actions) old ≡ all_anomalies actions old
unfolding all_anomalies set_actions
all_anomalies-status none actions old = refl
all_anomalies-status (some b) actions old = refl

pub all_anomalies-actions_of :
    (arrivals : List Arrival) (old : List SuspiciousOutboundConnection)
    → all_anomalies (actions_of arrivals) old ≡ latest_alerts arrivals old
unfolding all_anomalies actions_of
all_anomalies-actions_of [] old = refl
all_anomalies-actions_of (drained waiting ∷ arrivals) old =
    all_anomalies-packets (updates waiting) (actions_of arrivals) old
    ∙ all_anomalies-actions_of arrivals _
all_anomalies-actions_of (flagged item ∷ arrivals) old = all_anomalies-actions_of arrivals _
all_anomalies-actions_of (counted now process metric ∷ arrivals) old =
    all_anomalies-actions_of arrivals _
all_anomalies-actions_of (measured round rates grpc_connected start_time now ∷ arrivals) old =
    all_anomalies-actions_of arrivals _
all_anomalies-actions_of (told report ∷ arrivals) old =
    all_anomalies-status (says report) (actions_of arrivals) old
    ∙ all_anomalies-actions_of arrivals _

all_updates-packets :
    (batch : List PacketUpdate) (actions : List Action) (old : List ProcessBandwidthUpdate)
    → all_updates (packet_actions batch ++ actions) old ≡ all_updates actions old
unfolding all_updates packet_actions
all_updates-packets [] actions old = refl
all_updates-packets (u ∷ us) actions old = refl

all_updates-status :
    (status : Option Bool) (actions : List Action) (old : List ProcessBandwidthUpdate)
    → all_updates (set_actions status ++ actions) old ≡ all_updates actions old
unfolding all_updates set_actions
all_updates-status none actions old = refl
all_updates-status (some b) actions old = refl

pub all_updates-actions_of :
    (arrivals : List Arrival) (old : List ProcessBandwidthUpdate)
    → all_updates (actions_of arrivals) old ≡ latest_stats arrivals old
unfolding all_updates actions_of
all_updates-actions_of [] old = refl
all_updates-actions_of (drained waiting ∷ arrivals) old =
    all_updates-packets (updates waiting) (actions_of arrivals) old
    ∙ all_updates-actions_of arrivals _
all_updates-actions_of (flagged item ∷ arrivals) old = all_updates-actions_of arrivals _
all_updates-actions_of (counted now process metric ∷ arrivals) old =
    all_updates-actions_of arrivals _
all_updates-actions_of (measured round rates grpc_connected start_time now ∷ arrivals) old =
    all_updates-actions_of arrivals _
all_updates-actions_of (told report ∷ arrivals) old =
    all_updates-status (says report) (actions_of arrivals) old ∙ all_updates-actions_of arrivals _

last_health-packets :
    (batch : List PacketUpdate) (actions : List Action) (old : Option SystemHealthData)
    → last_health (packet_actions batch ++ actions) old ≡ last_health actions old
unfolding last_health packet_actions
last_health-packets [] actions old = refl
last_health-packets (u ∷ us) actions old = refl

last_health-status :
    (status : Option Bool) (actions : List Action) (old : Option SystemHealthData)
    → last_health (set_actions status ++ actions) old ≡ last_health actions old
unfolding last_health set_actions
last_health-status none actions old = refl
last_health-status (some b) actions old = refl

pub last_health-actions_of :
    (arrivals : List Arrival) (old : Option SystemHealthData)
    → last_health (actions_of arrivals) old ≡ latest_health arrivals old
unfolding last_health actions_of
last_health-actions_of [] old = refl
last_health-actions_of (drained waiting ∷ arrivals) old =
    last_health-packets (updates waiting) (actions_of arrivals) old
    ∙ last_health-actions_of arrivals _
last_health-actions_of (flagged item ∷ arrivals) old = last_health-actions_of arrivals _
last_health-actions_of (counted now process metric ∷ arrivals) old =
    last_health-actions_of arrivals _
last_health-actions_of (measured round rates grpc_connected start_time now ∷ arrivals) old =
    last_health-actions_of arrivals _
last_health-actions_of (told report ∷ arrivals) old =
    last_health-status (says report) (actions_of arrivals) old ∙ last_health-actions_of arrivals _

last_connected-packets :
    (batch : List PacketUpdate) (actions : List Action) (old : Bool)
    → last_connected (packet_actions batch ++ actions) old ≡ last_connected actions old
unfolding last_connected packet_actions
last_connected-packets [] actions old = refl
last_connected-packets (u ∷ us) actions old = refl

last_connected-status :
    (status : Option Bool) (actions : List Action) (old : Bool)
    → last_connected (set_actions status ++ actions) old
      ≡ last_connected actions (or_else status old)
unfolding last_connected set_actions
last_connected-status none actions old = refl
last_connected-status (some b) actions old = refl

pub last_connected-actions_of :
    (arrivals : List Arrival) (old : Bool)
    → last_connected (actions_of arrivals) old ≡ latest_status arrivals old
unfolding last_connected actions_of
last_connected-actions_of [] old = refl
last_connected-actions_of (drained waiting ∷ arrivals) old =
    last_connected-packets (updates waiting) (actions_of arrivals) old
    ∙ last_connected-actions_of arrivals _
last_connected-actions_of (flagged item ∷ arrivals) old = last_connected-actions_of arrivals _
last_connected-actions_of (counted now process metric ∷ arrivals) old =
    last_connected-actions_of arrivals _
last_connected-actions_of (measured round rates grpc_connected start_time now ∷ arrivals) old =
    last_connected-actions_of arrivals _
last_connected-actions_of (told report ∷ arrivals) old =
    last_connected-status (says report) (actions_of arrivals) old
    ∙ last_connected-actions_of arrivals _
