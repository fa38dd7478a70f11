-- ===== src/Store/Recency.antt =====
-- The process list of web-dashboard/src/store/aether-store.ts against its whole history.
use aether_lens.Prelude.{
  ℕ, zero, suc, ◌≡◌, refl, ap, sym, ◌∙◌, Bool, true, false, ◌||◌, List, [], ◌∷◌, Text, arith, All,
  All-filter_self, All-take, take, take-take, filter, text_eq, text_eq_iff, Bool-cases, inl, inr,
  if◌then◌else◌,
}
use aether_lens.Types.{ProcessBandwidthUpdate}
use aether_lens.Store.{
  AetherState, Action, packets_added, process_upserted, anomaly_added, health_set, connected_set,
  max_processes, is_other, initial, act, run,
}
use aether_lens.Store.Bounds.{HasDistinctNames, HasDistinctNames-filter}

-- All updates ever made, latest first.
unfoldable pub all_updates : List Action → List ProcessBandwidthUpdate → List ProcessBandwidthUpdate
all_updates [] older = older
all_updates (process_upserted u ∷ actions) older = all_updates actions (u ∷ older)
all_updates (_ ∷ actions) older = all_updates actions older

contains : Text → List Text → Bool
contains a [] = false
contains a (x ∷ xs) = text_eq a x || contains a xs

-- The first update of each process that is not among `seen`.
unfoldable pub firsts : List Text → List ProcessBandwidthUpdate → List ProcessBandwidthUpdate
unfolding contains
firsts seen [] = []
firsts seen (u ∷ us) =
    let old = firsts seen us in
    let new = u ∷ firsts (u.process ∷ seen) us in if contains u.process seen then old else new

firsts_congr :
    (s t : List Text) (us : List ProcessBandwidthUpdate)
    → ((a : Text) → contains a s ≡ contains a t)
    → firsts s us ≡ firsts t us
unfolding firsts
firsts_congr s t [] h = refl
firsts_congr s t (u ∷ us) h = ground (
  arith,
  h u.process,
  firsts_congr s t us h,
  firsts_congr (u.process ∷ s) (u.process ∷ t) us (λ a. ap (λ b. text_eq a u.process || b) (h a)),
)

filter-firsts :
    (u : ProcessBandwidthUpdate) (seen : List Text) (us : List ProcessBandwidthUpdate)
    → filter (is_other u) (firsts seen us) ≡ firsts (u.process ∷ seen) us
unfolding firsts filter contains
filter-firsts u seen [] = refl
filter-firsts u seen (v ∷ us) = ground (
  arith,
  text_eq_iff v.process u.process,
  filter-firsts u seen us,
  filter-firsts u (v.process ∷ seen) us,
  firsts_congr (u.process ∷ v.process ∷ seen) (u.process ∷ seen) us,
  firsts_congr (u.process ∷ v.process ∷ seen) (v.process ∷ u.process ∷ seen) us,
)

-- The list that `upsert_process` would build without its limit.
upsert_all : List ProcessBandwidthUpdate → List ProcessBandwidthUpdate
upsert_all [] = []
upsert_all (u ∷ us) = u ∷ filter (is_other u) (upsert_all us)

upsert_all-firsts : (us : List ProcessBandwidthUpdate) → upsert_all us ≡ firsts [] us
unfolding upsert_all firsts contains
upsert_all-firsts [] = refl
upsert_all-firsts (u ∷ us) =
    ap (λ l. u ∷ filter (is_other u) l) (upsert_all-firsts us) ∙ ap (◌∷◌ u) (filter-firsts u [] us)

upsert_all-HasDistinctNames : (us : List ProcessBandwidthUpdate) → HasDistinctNames (upsert_all us)
unfolding upsert_all
upsert_all-HasDistinctNames [] = tt
upsert_all-HasDistinctNames (u ∷ us) = (
  All-filter_self (is_other u) (upsert_all us),
  HasDistinctNames-filter (is_other u) (upsert_all us) (upsert_all-HasDistinctNames us),
)

module _ (u x : ProcessBandwidthUpdate) where
  -- Where `x` names the process of `u`, no later entry does.
  filter_others :
      (xs : List ProcessBandwidthUpdate)
      → is_other u x ≡ false
      → All (λ q. is_other x q ≡ true) xs
      → filter (is_other u) xs ≡ xs
  unfolding filter
  filter_others [] e h = refl
  filter_others (y ∷ ys) e (p, h) = ground (
    arith,
    text_eq_iff x.process u.process,
    text_eq_iff y.process u.process,
    text_eq_iff y.process x.process,
    filter_others ys e h,
  )

-- One entry at most goes, so an entry beyond the limit never comes back.
take-filter-take :
    (n : ℕ) (u : ProcessBandwidthUpdate) (l : List ProcessBandwidthUpdate)
    → HasDistinctNames l
    → take n (filter (is_other u) (take (suc n) l)) ≡ take n (filter (is_other u) l)
unfolding filter
take-filter-take zero u l d = refl
take-filter-take (suc n) u [] d = refl
take-filter-take (suc n) u (x ∷ xs) (others, d) = elim (Bool-cases (is_other u x)) [
  | inl keep ↦ rw keep (ap (◌∷◌ x) (take-filter-take n u xs d))
  | inr gone ↦ rw gone (
      rw
        (
          filter_others u x xs gone others,
          filter_others u x (take (suc n) xs) gone (All-take _ (suc n) xs others),
        )
        (take-take (suc n) (suc n) xs (omega arith)))
]

run-all_updates :
    (actions : List Action) (state : AetherState) (us : List ProcessBandwidthUpdate)
    → state.process_stats ≡ take max_processes (upsert_all us)
    → (run actions state).process_stats ≡ take max_processes (upsert_all (all_updates actions us))
unfolding run act all_updates upsert_all
run-all_updates [] state us h = h
run-all_updates (process_upserted u ∷ actions) state us h =
    run-all_updates actions (act (process_upserted u) state) (u ∷ us)
      (rw h (ap (◌∷◌ u) (take-filter-take 99 u (upsert_all us) (upsert_all-HasDistinctNames us))))
run-all_updates (packets_added b ∷ actions) state us h =
    run-all_updates actions (act (packets_added b) state) us h
run-all_updates (anomaly_added a ∷ actions) state us h =
    run-all_updates actions (act (anomaly_added a) state) us h
run-all_updates (health_set a ∷ actions) state us h =
    run-all_updates actions (act (health_set a) state) us h
run-all_updates (connected_set a ∷ actions) state us h =
    run-all_updates actions (act (connected_set a) state) us h

-- After any row of actions on the initial store the process list holds the latest update of each
-- process, latest first, and of these the first 100.
pub run-initial-firsts :
    (actions : List Action)
    → (run actions initial).process_stats ≡ take max_processes (firsts [] (all_updates actions []))
unfolding initial upsert_all
run-initial-firsts actions =
    run-all_updates actions initial [] refl
    ∙ ap (take max_processes) (upsert_all-firsts (all_updates actions []))

-- The same for one more update.
pub upsert-firsts :
    (u : ProcessBandwidthUpdate) (state : AetherState) (us : List ProcessBandwidthUpdate)
    → state.process_stats ≡ take max_processes (firsts [] us)
    → (act (process_upserted u) state).process_stats ≡ take max_processes (firsts [] (u ∷ us))
unfolding run all_updates
upsert-firsts u state us h =
    run-all_updates (process_upserted u ∷ []) state us
      (h ∙ ap (take max_processes) (sym (upsert_all-firsts us)))
    ∙ ap (take max_processes) (upsert_all-firsts (u ∷ us))
