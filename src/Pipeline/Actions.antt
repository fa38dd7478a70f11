-- ===== src/Pipeline/Actions.antt =====
-- What arrives as actions of the dashboard's store.
use aether_lens.Prelude.{
  ℕ, ◌≡◌, refl, ap, sym, ◌∙◌, Bool, true, false, Option, none, some, List, [], ◌∷◌, ◌++◌,
  append-nil,
}
use aether_lens.Types.{PacketUpdate}
use aether_lens.Wire.{encode, Message, packets, process_stats, health, anomaly}
use aether_lens.Signalr.{
  receive, Report, start_succeeded, reconnecting, reconnected, closed, start_failed, on_report,
}
use aether_lens.Signalr.Delivery.{action_of, receive-encode}
use aether_lens.Store.{
  AetherState, Action, packets_added, anomaly_added, process_upserted, health_set, connected_set,
  act, run, set_connected,
}
use aether_lens.Engine.Messages.{PacketMessage}
use aether_lens.Server.Alerts.{alert_of}
use aether_lens.Server.Batches.{wake, quiet_loop, run_packet_loop}
use aether_lens.Server.Batches.Delivery.{updates, some_batch, run_packet_loop-quiet_loop}
use aether_lens.Server.Consumer.{stats_of}
use aether_lens.Server.Health.{health_message}
use aether_lens.Pipeline.{
  Arrival, drained, flagged, counted, measured, told, batch_messages, server_sends, act_if, deliver,
  reach, dashboard,
}

unfoldable pub packet_actions : List PacketUpdate → List Action
packet_actions [] = []
packet_actions (u ∷ us) = packets_added (u ∷ us) ∷ []

-- What a report says of the connection.
abbrev pub says : Report → Option Bool
says start_succeeded = some true
says reconnecting = some false
says reconnected = some true
says closed = some false
says (start_failed msg) = none

unfoldable pub set_actions : Option Bool → List Action
set_actions none = []
set_actions (some b) = connected_set b ∷ []

-- The actions that an arrival is to cause.
unfoldable pub arrival_actions : Arrival → List Action
unfolding packet_actions set_actions
arrival_actions (drained waiting) = packet_actions (updates waiting)
arrival_actions (flagged item) = anomaly_added (alert_of item) ∷ []
arrival_actions (counted now process metric) = process_upserted (stats_of now process metric) ∷ []
arrival_actions (measured round rates grpc_connected start_time now) =
    health_set (health_message round rates grpc_connected start_time now) ∷ []
arrival_actions (told report) = set_actions (says report)

unfoldable pub actions_of : List Arrival → List Action
unfolding arrival_actions
actions_of [] = []
actions_of (a ∷ arrivals) = arrival_actions a ++ actions_of arrivals

-- The handler of a message calls its action.
pub act_if-receive :
    (m : Message) (state : AetherState)
    → act_if (receive (encode m)) state ≡ act (action_of m) state
unfolding act_if
act_if-receive m state = rw (receive-encode m)

deliver-run : (m : Message) (state : AetherState) → deliver (m ∷ []) state ≡ act (action_of m) state
unfolding deliver
deliver-run m state = act_if-receive m state

wake-batches :
    (waiting : List (ℕ × PacketMessage))
    → (wake waiting quiet_loop).batches ≡ some_batch (updates waiting)
unfolding run_packet_loop
wake-batches waiting =
    ap (λ l. l.batches) (run_packet_loop-quiet_loop (waiting ∷ []))
    ∙ append-nil (some_batch (updates waiting))

deliver-batch :
    (batch : List PacketUpdate) (state : AetherState)
    → deliver (batch_messages (some_batch batch)) state ≡ run (packet_actions batch) state
unfolding batch_messages packet_actions run deliver action_of
deliver-batch [] state = refl
deliver-batch (u ∷ us) state = deliver-run (packets (u ∷ us)) state

pub on_report-run :
    (report : Report) (state : AetherState)
    → on_report report state ≡ run (set_actions (says report)) state
unfolding on_report run set_actions act
on_report-run start_succeeded state = refl
on_report-run reconnecting state = refl
on_report-run reconnected state = refl
on_report-run closed state = refl
on_report-run (start_failed msg) state = refl

-- A report leaves the lists of the store as they are.
pub on_report-lists :
    (r : Report) (state : AetherState)
    → ((on_report r state).packets ≡ state.packets)
      × ((on_report r state).anomalies ≡ state.anomalies)
      × ((on_report r state).process_stats ≡ state.process_stats)
unfolding on_report set_connected
on_report-lists start_succeeded state = (refl, refl, refl)
on_report-lists reconnecting state = (refl, refl, refl)
on_report-lists reconnected state = (refl, refl, refl)
on_report-lists closed state = (refl, refl, refl)
on_report-lists (start_failed msg) state = (refl, refl, refl)

-- An arrival does to the store what its actions do.
reach-run : (a : Arrival) (state : AetherState) → reach a state ≡ run (arrival_actions a) state
unfolding reach server_sends arrival_actions run action_of
reach-run (drained waiting) state =
    ap (λ bs. deliver (batch_messages bs) state) (wake-batches waiting)
    ∙ deliver-batch (updates waiting) state
reach-run (flagged item) state = deliver-run (anomaly (alert_of item)) state
reach-run (counted now process metric) state =
    deliver-run (process_stats (stats_of now process metric)) state
reach-run (measured round rates grpc_connected start_time now) state =
    deliver-run (health (health_message round rates grpc_connected start_time now)) state
reach-run (told report) state = on_report-run report state

run-append :
    (first later : List Action) (state : AetherState)
    → run (first ++ later) state ≡ run later (run first state)
unfolding run
run-append [] later state = refl
run-append (a ∷ first) later state = run-append first later (act a state)

pub dashboard-run :
    (arrivals : List Arrival) (state : AetherState)
    → dashboard arrivals state ≡ run (actions_of arrivals) state
unfolding dashboard actions_of run
dashboard-run [] state = refl
dashboard-run (a ∷ arrivals) state =
    ap (dashboard arrivals) (reach-run a state)
    ∙ (dashboard-run arrivals (run (arrival_actions a) state)
        ∙ sym (run-append (arrival_actions a) (actions_of arrivals) state))
