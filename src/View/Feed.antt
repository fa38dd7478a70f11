-- ===== src/View/Feed.antt =====
-- What web-dashboard/src/components/AnomalyFeed.tsx renders, from the rows of Panels.Feed.
use aether_lens.Prelude.{ℕ, List, [], ◌∷◌, ◌++◌, length, codes}
use aether_lens.Number.{number_text}
use aether_lens.Types.{SuspiciousOutboundConnection}
use aether_lens.Panels.Feed.{FeedRow, feed}
use aether_lens.View.{
  Node, Nodes, text, element, nil, ◌▷◌, key, class, literal, div, span, icon, each,
}

unfoldable pub anomaly_row : FeedRow → Node
anomaly_row row =
    element (codes "motion.div")
      (key row.key
        ∷ class (
            codes "flex items-center justify-between rounded-lg px-3 py-2 text-xs "
            ++ (row.style.border ++ (codes " " ++ row.style.flash)))
        ∷ [])
      (div "flex items-center gap-2" (
          element (codes "span")
            (class (codes "rounded px-1.5 py-0.5 text-[10px] font-bold " ++ row.style.badge) ∷ [])
            (text row.badge ▷ nil)
          ▷ span "font-semibold text-[var(--text-primary)]" (text row.process ▷ nil)
          ▷ span "text-[var(--text-secondary)]" (text row.label ▷ nil)
          ▷ nil)
        ▷ div "flex items-center gap-3" (
            span "font-mono text-[var(--text-primary)]" (text row.remote_address ▷ nil)
            ▷ span "font-mono text-[10px] text-[var(--accent-blue)]" (text row.score ▷ nil)
            ▷ span "text-[var(--text-secondary)]" (text row.age ▷ nil)
            ▷ nil)
        ▷ nil)

unfoldable pub anomaly_rows : List FeedRow → Nodes
unfolding anomaly_row each
anomaly_rows [] =
    div "flex h-20 items-center justify-center text-sm text-[var(--text-secondary)]"
      (literal "No anomalies detected" ▷ nil)
    ▷ nil
anomaly_rows (row ∷ rows) = each anomaly_row (row ∷ rows)

-- `anomalies.length > 0 && ...`
unfoldable pub count_badge : List SuspiciousOutboundConnection → Nodes
unfolding number_text
count_badge [] = nil
count_badge (a ∷ anomalies) =
    span
      "ml-auto rounded bg-[var(--bg-card-hover)] px-1.5 py-0.5 text-[10px] font-mono text-[var(--text-secondary)]"
      (text (number_text (length (a ∷ anomalies))) ▷ nil)
    ▷ nil

unfoldable pub anomaly_feed : ℕ → List SuspiciousOutboundConnection → Node
unfolding anomaly_rows count_badge feed
anomaly_feed now anomalies = div "card flex flex-col gap-3 overflow-hidden h-full" (
    div "flex items-center gap-2 shrink-0" (
      icon "AlertTriangle" "h-4 w-4 text-[var(--accent-amber)]"
      ▷ span "text-sm font-semibold tracking-wide" (literal "Suspicious Outbound Connections" ▷ nil)
      ▷ count_badge anomalies)
    ▷ div "flex-1 overflow-y-auto custom-scrollbar flex flex-col gap-1.5 min-h-0" (
        element (codes "AnimatePresence") ((codes "initial", codes "false") ∷ [])
          (anomaly_rows (feed now anomalies))
        ▷ nil)
    ▷ nil)
