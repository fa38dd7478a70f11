-- ===== src/Store/Bounds.antt =====
-- The limits of the lists of web-dashboard/src/store/aether-store.ts.
use aether_lens.Prelude.{
  ℕ, zero, suc, ◌≤◌, ◌≡◌, inl, inr, Bool, true, List, [], ◌∷◌, ◌++◌, arith, All, All-take,
  All-filter, All-filter_self, length, take, filter, length-take-le, Bool-cases,
}
use aether_lens.Types.{ProcessBandwidthUpdate}
use aether_lens.Store.{
  AetherState, Action, packets_added, process_upserted, anomaly_added, health_set, connected_set,
  max_packets, max_processes, max_anomalies, is_other, initial, act, run,
}

-- No two entries name the same process.
abbrev pub HasDistinctNames : List ProcessBandwidthUpdate → Type 0
HasDistinctNames [] = Unit
HasDistinctNames (p ∷ ps) = All (λ q. is_other p q ≡ true) ps × HasDistinctNames ps

pub record IsValid (state : AetherState) : Type 0 where
  pub packets_bounded : length state.packets ≤ max_packets
  pub processes_bounded : length state.process_stats ≤ max_processes
  pub anomalies_bounded : length state.anomalies ≤ max_anomalies
  pub distinct : HasDistinctNames state.process_stats

HasDistinctNames-take :
    (n : ℕ) (ps : List ProcessBandwidthUpdate) → HasDistinctNames ps → HasDistinctNames (take n ps)
HasDistinctNames-take zero ps h = tt
HasDistinctNames-take (suc n) [] h = tt
HasDistinctNames-take (suc n) (p ∷ ps) (others, h) =
    (All-take (λ q. is_other p q ≡ true) n ps others, HasDistinctNames-take n ps h)

pub HasDistinctNames-filter :
    (f : ProcessBandwidthUpdate → Bool) (ps : List ProcessBandwidthUpdate)
    → HasDistinctNames ps
    → HasDistinctNames (filter f ps)
unfolding filter
HasDistinctNames-filter f [] h = tt
HasDistinctNames-filter f (p ∷ ps) (others, h) = elim (Bool-cases (f p)) [
  | inl keep ↦
      rw keep (All-filter (λ q. is_other p q ≡ true) f ps others, HasDistinctNames-filter f ps h)
  | inr drop ↦ rw drop (HasDistinctNames-filter f ps h)
]

-- Every action keeps the state valid.
pub act-IsValid : (a : Action) (state : AetherState) → IsValid state → IsValid (act a state)
unfolding act
act-IsValid (packets_added packets) state v = record {
  packets_bounded = length-take-le max_packets (packets ++ state.packets);
  processes_bounded = v.processes_bounded;
  anomalies_bounded = v.anomalies_bounded;
  distinct = v.distinct;
}
act-IsValid (process_upserted process) state v =
    let rest = filter (is_other process) state.process_stats in
    record {
      packets_bounded = v.packets_bounded;
      processes_bounded = length-take-le max_processes (process ∷ rest);
      anomalies_bounded = v.anomalies_bounded;
      distinct = HasDistinctNames-take max_processes (process ∷ rest) (
        All-filter_self (is_other process) state.process_stats,
        HasDistinctNames-filter (is_other process) state.process_stats v.distinct,
      );
    }
act-IsValid (anomaly_added a) state v = record {
  packets_bounded = v.packets_bounded;
  processes_bounded = v.processes_bounded;
  anomalies_bounded = length-take-le max_anomalies (a ∷ state.anomalies);
  distinct = v.distinct;
}
act-IsValid (health_set h) state v = record {
  packets_bounded = v.packets_bounded;
  processes_bounded = v.processes_bounded;
  anomalies_bounded = v.anomalies_bounded;
  distinct = v.distinct;
}
act-IsValid (connected_set c) state v = record {
  packets_bounded = v.packets_bounded;
  processes_bounded = v.processes_bounded;
  anomalies_bounded = v.anomalies_bounded;
  distinct = v.distinct;
}

pub run-IsValid :
    (actions : List Action) (state : AetherState) → IsValid state → IsValid (run actions state)
unfolding run
run-IsValid [] state v = v
run-IsValid (a ∷ actions) state v = run-IsValid actions (act a state) (act-IsValid a state v)

pub initial-IsValid : IsValid initial
unfolding initial
initial-IsValid = omega arith

-- After any row of actions on the initial store there are at most 500 packets, 100 processes and
-- 50 anomalies, and no two entries of the process list name the same process.
pub run-initial-IsValid : (actions : List Action) → IsValid (run actions initial)
run-initial-IsValid actions = run-IsValid actions initial initial-IsValid
