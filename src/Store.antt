-- ===== src/Store.antt =====
-- web-dashboard/src/store/aether-store.ts: the dashboard's state, and its five actions. An action
-- returns the new state; zustand's `set` replaces the fields that the action names.
pub mod Bounds
pub mod History
pub mod Recency
use aether_lens.Prelude.{
  ℕ, Bool, true, false, not, List, [], ◌∷◌, ◌++◌, Option, none, some, take, filter, text_eq,
}
use aether_lens.Types.{
  PacketUpdate, ProcessBandwidthUpdate, SuspiciousOutboundConnection, SystemHealthData,
}

abbrev pub max_packets : ℕ
max_packets = 500

abbrev pub max_processes : ℕ
max_processes = 100

abbrev pub max_anomalies : ℕ
max_anomalies = 50

pub record AetherState : Type 0 where
  pub packets : List PacketUpdate
  pub process_stats : List ProcessBandwidthUpdate
  pub anomalies : List SuspiciousOutboundConnection
  pub health : Option SystemHealthData
  pub connected : Bool

unfoldable pub initial : AetherState
initial = record {
  packets = [];
  process_stats = [];
  anomalies = [];
  health = none;
  connected = false;
}

unfoldable pub add_packets : List PacketUpdate → AetherState → AetherState
add_packets packets state = record state { packets = take max_packets (packets ++ state.packets) }

-- `p.process !== process.process`
abbrev pub is_other : ProcessBandwidthUpdate → ProcessBandwidthUpdate → Bool
is_other process p = not (text_eq p.process process.process)

unfoldable pub upsert_process : ProcessBandwidthUpdate → AetherState → AetherState
upsert_process process state = record state {
  process_stats = take max_processes (process ∷ filter (is_other process) state.process_stats);
}

unfoldable pub add_anomaly : SuspiciousOutboundConnection → AetherState → AetherState
add_anomaly a state = record state { anomalies = take max_anomalies (a ∷ state.anomalies) }

unfoldable pub set_health : SystemHealthData → AetherState → AetherState
set_health health state = record state { health = some health }

unfoldable pub set_connected : Bool → AetherState → AetherState
set_connected connected state = record state { connected = connected }

-- A call of one of the actions.
pub data Action : Type 0 where
  packets_added : List PacketUpdate → Action
  process_upserted : ProcessBandwidthUpdate → Action
  anomaly_added : SuspiciousOutboundConnection → Action
  health_set : SystemHealthData → Action
  connected_set : Bool → Action

unfoldable pub act : Action → AetherState → AetherState
unfolding add_packets upsert_process add_anomaly set_health set_connected
act (packets_added packets) state = add_packets packets state
act (process_upserted process) state = upsert_process process state
act (anomaly_added a) state = add_anomaly a state
act (health_set health) state = set_health health state
act (connected_set connected) state = set_connected connected state

-- The state after a row of calls.
unfoldable pub run : List Action → AetherState → AetherState
unfolding act
run [] state = state
run (a ∷ actions) state = run actions (act a state)
