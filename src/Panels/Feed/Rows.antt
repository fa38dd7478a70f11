-- ===== src/Panels/Feed/Rows.antt =====
-- The rows of web-dashboard/src/components/AnomalyFeed.tsx, one for each anomaly.
use aether_lens.Prelude.{ℕ, ◌+◌, List, [], ◌∷◌, take, All, All-take}
use aether_lens.Types.{SuspiciousOutboundConnection}
use aether_lens.Panels.Feed.{FeedRow, feed_row, rows_from, feed, max_visible}

module _ (now : ℕ) (P : FeedRow → Type 0) where
  All-rows_from :
      (i : ℕ) (anomalies : List SuspiciousOutboundConnection)
      → All (λ a. (i : ℕ) → P (feed_row now a i)) anomalies
      → All P (rows_from now i anomalies)
  unfolding rows_from
  All-rows_from i [] h = tt
  All-rows_from i (a ∷ rest) (p, h) = (p i, All-rows_from (i + 1) rest h)

  pub All-feed :
      (anomalies : List SuspiciousOutboundConnection)
      → All (λ a. (i : ℕ) → P (feed_row now a i)) anomalies
      → All P (feed now anomalies)
  unfolding feed
  All-feed anomalies h =
      All-rows_from 0 (take max_visible anomalies) (All-take _ max_visible anomalies h)
