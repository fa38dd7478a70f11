-- ===== src/Store/History.antt =====
-- The store of web-dashboard/src/store/aether-store.ts against everything that was ever added.
use aether_lens.Prelude.{
  Bool, ◌≡◌, refl, ap, ◌∙◌, List, [], ◌∷◌, ◌++◌, Option, some, arith, take, take-append-take,
}
use aether_lens.Types.{PacketUpdate, SuspiciousOutboundConnection, SystemHealthData}
use aether_lens.Store.{
  AetherState, Action, packets_added, process_upserted, anomaly_added, health_set, connected_set,
  max_packets, max_anomalies, initial, act, run,
}

-- All packets ever added: the batches, latest first, each in its own order.
unfoldable pub all_packets : List Action → List PacketUpdate → List PacketUpdate
all_packets [] older = older
all_packets (packets_added batch ∷ actions) older = all_packets actions (batch ++ older)
all_packets (_ ∷ actions) older = all_packets actions older

-- All anomalies ever added, latest first.
unfoldable pub all_anomalies :
    List Action → List SuspiciousOutboundConnection → List SuspiciousOutboundConnection
all_anomalies [] older = older
all_anomalies (anomaly_added a ∷ actions) older = all_anomalies actions (a ∷ older)
all_anomalies (_ ∷ actions) older = all_anomalies actions older

unfoldable pub last_health : List Action → Option SystemHealthData → Option SystemHealthData
last_health [] h = h
last_health (health_set h ∷ actions) _ = last_health actions (some h)
last_health (_ ∷ actions) h = last_health actions h

unfoldable pub last_connected : List Action → Bool → Bool
last_connected [] c = c
last_connected (connected_set c ∷ actions) _ = last_connected actions c
last_connected (_ ∷ actions) c = last_connected actions c

-- `state` shows what the history `actions`, on top of older items, left behind.
pub record Shows (actions : List Action) (old : List PacketUpdate)
    (noted : List SuspiciousOutboundConnection) (before after : AetherState) : Type 0 where
  pub packets : after.packets ≡ take max_packets (all_packets actions old)
  pub anomalies : after.anomalies ≡ take max_anomalies (all_anomalies actions noted)
  pub health : after.health ≡ last_health actions before.health
  pub connected : after.connected ≡ last_connected actions before.connected

run-Shows :
    (actions : List Action) (state : AetherState) (old : List PacketUpdate)
    (noted : List SuspiciousOutboundConnection)
    → state.packets ≡ take max_packets old
    → state.anomalies ≡ take max_anomalies noted
    → Shows actions old noted state (run actions state)
unfolding run act all_packets all_anomalies last_health last_connected
run-Shows [] state old noted p q = record {
  packets = p;
  anomalies = q;
  health = refl;
  connected = refl;
}
run-Shows (packets_added batch ∷ actions) state old noted p q =
    let r =
      run-Shows actions (act (packets_added batch) state) (batch ++ old) noted
        (ap (λ t. take max_packets (batch ++ t)) p
          ∙ take-append-take max_packets max_packets batch old (omega arith))
        q in
    record {
      packets = r.packets;
      anomalies = r.anomalies;
      health = r.health;
      connected = r.connected;
    }
run-Shows (process_upserted u ∷ actions) state old noted p q =
    let r = run-Shows actions (act (process_upserted u) state) old noted p q in
    record {
      packets = r.packets;
      anomalies = r.anomalies;
      health = r.health;
      connected = r.connected;
    }
run-Shows (anomaly_added a ∷ actions) state old noted p q =
    let r = run-Shows actions (act (anomaly_added a) state) old (a ∷ noted) p (
      ap (λ t. take max_anomalies (a ∷ t)) q
      ∙ take-append-take max_anomalies max_anomalies (a ∷ []) noted (omega arith)) in
    record {
      packets = r.packets;
      anomalies = r.anomalies;
      health = r.health;
      connected = r.connected;
    }
run-Shows (health_set h ∷ actions) state old noted p q =
    let r = run-Shows actions (act (health_set h) state) old noted p q in
    record {
      packets = r.packets;
      anomalies = r.anomalies;
      health = r.health;
      connected = r.connected;
    }
run-Shows (connected_set c ∷ actions) state old noted p q =
    let r = run-Shows actions (act (connected_set c) state) old noted p q in
    record {
      packets = r.packets;
      anomalies = r.anomalies;
      health = r.health;
      connected = r.connected;
    }

-- After any row of actions on the initial store: the packets are the first 500 of all packets ever
-- added, latest batch first and each batch in its own order; the anomalies are the latest 50,
-- latest first; health and connection are those last set, at first none and false.
pub run-initial-Shows : (actions : List Action) → Shows actions [] [] initial (run actions initial)
unfolding initial
run-initial-Shows actions = run-Shows actions initial [] [] refl refl
