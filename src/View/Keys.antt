-- ===== src/View/Keys.antt =====
-- The keys of the rows that web-dashboard/src/components/ProcessTracker.tsx, AnomalyFeed.tsx and
-- ProtocolPieChart.tsx render: React wants the keys of siblings to be different.

use mathlib.Core.Path.{subst}
use aether_lens.Prelude.{
  ℕ, ◌+◌, ◌<◌, ◌≡◌, ◌≢◌, refl, sym, ap, ap₂, ◌∙◌, true, Option, some, List, [], ◌∷◌, ◌++◌,
  append_assoc, All, arith, Text, codes, text_eq, text_eq_refl, take,
}
use aether_lens.Types.{ProcessBandwidthUpdate, SuspiciousOutboundConnection}
use aether_lens.Number.{number_text}
use aether_lens.Number.Decimal.{IsDigits, number_text-IsDigits, read_from, read_from-number_text}
use aether_lens.Store.{Action, is_other, initial, run}
use aether_lens.Store.Bounds.{HasDistinctNames, run-initial-IsValid}
use aether_lens.Panels.Tracker.{tracker_row, tracker}
use aether_lens.Panels.Feed.{FeedRow, feed_row, rows_from, feed}
use aether_lens.Charts.Protocols.{ProtocolData}
use aether_lens.View.{Nodes, nil, ◌▷◌, key_of, each}
use aether_lens.View.Tracker.{process_row, process_rows}
use aether_lens.View.Feed.{anomaly_row, anomaly_rows}
use aether_lens.View.Charts.{cell, cells_from}

-- No sibling has the key of an earlier one.
abbrev AllKeys : (Option Text → Type 0) → Nodes → Type 0
AllKeys P nil = Unit
AllKeys P (n ▷ ns) = P (key_of n) × AllKeys P ns

abbrev pub HasDistinctKeys : Nodes → Type 0
HasDistinctKeys nil = Unit
HasDistinctKeys (n ▷ ns) = AllKeys (λ k. k ≢ key_of n) ns × HasDistinctKeys ns

-- A dash is no digit.
dash-IsDigits : (a s : Text) → IsDigits (a ++ b'-' ∷ s) → ⊥
dash-IsDigits [] s ((low, high), h) = omega arith
dash-IsDigits (c ∷ a) s (d, h) = dash-IsDigits a s h

-- Two texts that end in a dash and digits are equal only if both parts are.
dashed_inj :
    (a b s t : Text) → IsDigits s → IsDigits t → a ++ b'-' ∷ s ≡ b ++ b'-' ∷ t → (a ≡ b) × (s ≡ t)
dashed_inj [] [] s t h l e = (refl, cc)
dashed_inj [] (d ∷ b) s t h l e =
    let tail : s ≡ b ++ b'-' ∷ t = cc in absurd (dash-IsDigits b t (subst IsDigits tail h))
dashed_inj (c ∷ a) [] s t h l e =
    let tail : t ≡ a ++ b'-' ∷ s = cc in absurd (dash-IsDigits a s (subst IsDigits tail l))
dashed_inj (c ∷ a) (d ∷ b) s t h l e =
    let rest = dashed_inj a b s t h l cc in
    let same : c ≡ d = cc in (ap₂ (λ (x : ℕ) (y : Text). x ∷ y) same rest.0, rest.1)

number_text_inj : (n m : ℕ) → number_text n ≡ number_text m → n ≡ m
number_text_inj n m e = sym (read_from-number_text n) ∙ ap (read_from 0) e ∙ read_from-number_text m

-- A dash and a printed number at the end of a text tell its beginning and the number.
dashed_number_inj :
    (a b : Text) (n m : ℕ)
    → a ++ b'-' ∷ number_text n ≡ b ++ b'-' ∷ number_text m
    → (a ≡ b) × (n ≡ m)
dashed_number_inj a b n m e =
    let parts =
      dashed_inj a b (number_text n) (number_text m) (number_text-IsDigits n)
        (number_text-IsDigits m) e in
    (parts.0, number_text_inj n m parts.1)

key_of-process_row :
    (p : ProcessBandwidthUpdate)
    → key_of (process_row (tracker_row p)) ≡ some (p.process ++ b'-' ∷ number_text p.timestamp)
unfolding key_of process_row tracker_row text_eq
key_of-process_row p = refl

-- Rows of different processes have different keys, whatever their times.
process_row-keys :
    (p q : ProcessBandwidthUpdate)
    → is_other p q ≡ true
    → key_of (process_row (tracker_row q)) ≢ key_of (process_row (tracker_row p))
process_row-keys p q other e =
    let keys = sym (key_of-process_row q) ∙ e ∙ key_of-process_row p in
    let same = (dashed_number_inj q.process p.process q.timestamp p.timestamp cc).0 in
    let found : text_eq q.process p.process ≡ true = rw same (text_eq_refl p.process) in cc

AllKeys-tracker :
    (p : ProcessBandwidthUpdate) (ps : List ProcessBandwidthUpdate)
    → All (λ q. is_other p q ≡ true) ps
    → AllKeys (λ k. k ≢ key_of (process_row (tracker_row p))) (each process_row (tracker ps))
unfolding each tracker
AllKeys-tracker p [] h = tt
AllKeys-tracker p (q ∷ ps) (other, h) = (process_row-keys p q other, AllKeys-tracker p ps h)

HasDistinctKeys-each :
    (ps : List ProcessBandwidthUpdate)
    → HasDistinctNames ps
    → HasDistinctKeys (each process_row (tracker ps))
unfolding each tracker
HasDistinctKeys-each [] h = tt
HasDistinctKeys-each (p ∷ ps) (others, h) = (AllKeys-tracker p ps others, HasDistinctKeys-each ps h)

HasDistinctKeys-tracker :
    (ps : List ProcessBandwidthUpdate)
    → HasDistinctNames ps
    → HasDistinctKeys (process_rows (tracker ps))
unfolding process_rows tracker
HasDistinctKeys-tracker [] h = (tt, tt)
HasDistinctKeys-tracker (p ∷ ps) h = HasDistinctKeys-each (p ∷ ps) h

key_of-anomaly_row :
    (now : ℕ) (a : SuspiciousOutboundConnection) (i : ℕ)
    → key_of (anomaly_row (feed_row now a i))
      ≡ some ((number_text a.timestamp ++ b'-' ∷ a.reason) ++ b'-' ∷ number_text i)
unfolding key_of anomaly_row feed_row text_eq
key_of-anomaly_row now a i =
    ap some (sym (append_assoc (number_text a.timestamp) (b'-' ∷ a.reason) (b'-' ∷ number_text i)))

anomaly_row-keys :
    (now : ℕ) (a b : SuspiciousOutboundConnection) (i j : ℕ)
    → i < j
    → key_of (anomaly_row (feed_row now b j)) ≢ key_of (anomaly_row (feed_row now a i))
anomaly_row-keys now a b i j h e =
    let keys = sym (key_of-anomaly_row now b j) ∙ e ∙ key_of-anomaly_row now a i in
    let same =
      (dashed_number_inj (number_text b.timestamp ++ b'-' ∷ b.reason)
        (number_text a.timestamp ++ b'-' ∷ a.reason) j i cc).1 in
    omega arith

AllKeys-rows_from :
    (now : ℕ) (a : SuspiciousOutboundConnection) (i j : ℕ)
    (later : List SuspiciousOutboundConnection)
    → i < j
    → AllKeys
        (λ k. k ≢ key_of (anomaly_row (feed_row now a i)))
        (each anomaly_row (rows_from now j later))
unfolding each rows_from
AllKeys-rows_from now a i j [] h = tt
AllKeys-rows_from now a i j (b ∷ later) h =
    (anomaly_row-keys now a b i j h, AllKeys-rows_from now a i (j + 1) later (omega arith))

HasDistinctKeys-rows_from :
    (now i : ℕ) (anomalies : List SuspiciousOutboundConnection)
    → HasDistinctKeys (each anomaly_row (rows_from now i anomalies))
unfolding each rows_from
HasDistinctKeys-rows_from now i [] = tt
HasDistinctKeys-rows_from now i (a ∷ anomalies) = (
  AllKeys-rows_from now a i (i + 1) anomalies (omega arith),
  HasDistinctKeys-rows_from now (i + 1) anomalies,
)

HasDistinctKeys-anomaly_rows :
    (rows : List FeedRow)
    → HasDistinctKeys (each anomaly_row rows)
    → HasDistinctKeys (anomaly_rows rows)
unfolding anomaly_rows
HasDistinctKeys-anomaly_rows [] h = (tt, tt)
HasDistinctKeys-anomaly_rows (row ∷ rows) h = h

key_of-cell :
    (i : ℕ) (s : ProtocolData) → key_of (cell i s) ≡ some (codes "cell" ++ b'-' ∷ number_text i)
unfolding cell key_of text_eq
key_of-cell i s = refl

cell-keys : (s t : ProtocolData) (i j : ℕ) → i < j → key_of (cell j t) ≢ key_of (cell i s)
cell-keys s t i j h e =
    let keys = sym (key_of-cell j t) ∙ e ∙ key_of-cell i s in
    let same = (dashed_number_inj (codes "cell") (codes "cell") j i cc).1 in omega arith

AllKeys-cells_from :
    (s : ProtocolData) (i j : ℕ) (slices : List ProtocolData)
    → i < j
    → AllKeys (λ k. k ≢ key_of (cell i s)) (cells_from j slices)
unfolding cells_from
AllKeys-cells_from s i j [] h = tt
AllKeys-cells_from s i j (t ∷ slices) h =
    (cell-keys s t i j h, AllKeys-cells_from s i (j + 1) slices (omega arith))

HasDistinctKeys-cells_from :
    (i : ℕ) (slices : List ProtocolData) → HasDistinctKeys (cells_from i slices)
unfolding cells_from
HasDistinctKeys-cells_from i [] = tt
HasDistinctKeys-cells_from i (s ∷ slices) =
    (AllKeys-cells_from s i (i + 1) slices (omega arith), HasDistinctKeys-cells_from (i + 1) slices)

-- After any row of actions on the initial store no two rows of the process list have the same key,
-- nor two rows of the anomaly feed, at any time; nor two cells of the protocol chart, of any slices.
pub run-HasDistinctKeys :
    (actions : List Action) (now : ℕ) (slices : List ProtocolData)
    → let state = run actions initial in
      HasDistinctKeys (process_rows (tracker state.process_stats))
      × HasDistinctKeys (anomaly_rows (feed now state.anomalies))
      × HasDistinctKeys (cells_from 0 slices)
unfolding feed
run-HasDistinctKeys actions now slices =
    let state = run actions initial in
    (
      HasDistinctKeys-tracker state.process_stats (run-initial-IsValid actions).distinct,
      HasDistinctKeys-anomaly_rows (feed now state.anomalies)
          (HasDistinctKeys-rows_from now 0 (take 15 state.anomalies)),
      HasDistinctKeys-cells_from 0 slices,
    )
