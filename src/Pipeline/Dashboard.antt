-- ===== src/Pipeline/Dashboard.antt =====
-- The store of the dashboard against everything that the engine broadcast and the server measured.
use aether_lens.Prelude.{◌≡◌, ap, ◌∙◌, false, none, List, [], take}
use aether_lens.Store.{initial}
use aether_lens.Store.History.{run-initial-Shows}
use aether_lens.Store.Recency.{firsts, run-initial-firsts}
use aether_lens.Pipeline.{Arrival, dashboard}
use aether_lens.Pipeline.Actions.{actions_of, dashboard-run}
use aether_lens.Pipeline.Latest.{
  latest_packets, latest_alerts, latest_stats, latest_health, latest_status, all_packets-actions_of,
  all_anomalies-actions_of, all_updates-actions_of, last_health-actions_of,
  last_connected-actions_of,
}

-- From the engine's and the server's messages to the dashboard: after any row of arrivals the store has
-- the first 500 of the updates of all packets, the latest batch first and each batch in the order of
-- the reads; the latest 50 of the alerts of all suspicious connections, latest first; the latest
-- update of each process, latest first, and of these the first 100; the last health; and the state
-- of the connection by the last report other than a failed start, at first false.
pub dashboard-latest :
    (arrivals : List Arrival)
    → let state = dashboard arrivals initial in
      (state.packets ≡ take 500 (latest_packets arrivals []))
      × (state.anomalies ≡ take 50 (latest_alerts arrivals []))
      × (state.process_stats ≡ take 100 (firsts [] (latest_stats arrivals [])))
      × (state.health ≡ latest_health arrivals none)
      × (state.connected ≡ latest_status arrivals false)
unfolding initial
dashboard-latest arrivals =
    let same = dashboard-run arrivals initial in
    let shown = run-initial-Shows (actions_of arrivals) in
    (
      ap (λ s. s.packets) same
          ∙ (shown.packets ∙ ap (take 500) (all_packets-actions_of arrivals [])),
      ap (λ s. s.anomalies) same
          ∙ (shown.anomalies ∙ ap (take 50) (all_anomalies-actions_of arrivals [])),
      ap (λ s. s.process_stats) same
          ∙ (run-initial-firsts (actions_of arrivals)
              ∙ ap (λ us. take 100 (firsts [] us)) (all_updates-actions_of arrivals [])),
      ap (λ s. s.health) same ∙ (shown.health ∙ last_health-actions_of arrivals none),
      ap (λ s. s.connected) same ∙ (shown.connected ∙ last_connected-actions_of arrivals false),
    )
