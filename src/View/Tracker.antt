-- ===== src/View/Tracker.antt =====
-- What web-dashboard/src/components/ProcessTracker.tsx renders, from the rows of Panels.Tracker.
use aether_lens.Prelude.{List, [], ◌∷◌, ◌++◌, codes}
use aether_lens.Types.{ProcessBandwidthUpdate}
use aether_lens.Panels.Tracker.{TrackerRow, tracker}
use aether_lens.View.{
  Node, Nodes, text, element, nil, ◌▷◌, key, class, literal, div, span, icon, each,
}

unfoldable pub process_row : TrackerRow → Node
process_row row =
    element (codes "div")
      (key row.key ∷ class (codes "rounded-lg border border-white/10 bg-white/5 px-3 py-2") ∷ [])
      (div "flex items-center justify-between" (
          div "flex items-center gap-2" (
            icon "ArrowUpRight" "h-3.5 w-3.5 text-[var(--accent-amber)]"
            ▷ span "font-semibold text-[var(--text-primary)]" (text row.process ▷ nil)
            ▷ span "text-[10px] text-[var(--text-secondary)] uppercase" (text row.protocol ▷ nil)
            ▷ nil)
          ▷ element (codes "span")
              (class (codes "text-[10px] px-1.5 py-0.5 rounded " ++ row.tier_class) ∷ [])
              (text row.tier ▷ nil)
          ▷ nil)
        ▷ div
            "mt-1.5 flex items-center justify-between text-xs font-mono text-[var(--text-secondary)]"
            (element (codes "span") [] (text row.rate ▷ nil)
              ▷ element (codes "span") [] (text row.packets ▷ nil)
              ▷ nil)
        ▷ nil)

unfoldable pub process_rows : List TrackerRow → Nodes
unfolding process_row each
process_rows [] =
    div "flex h-full items-center justify-center text-sm text-[var(--text-secondary)] opacity-60"
      (literal "Waiting for network process activity..." ▷ nil)
    ▷ nil
process_rows (row ∷ rows) = each process_row (row ∷ rows)

unfoldable pub process_tracker : List ProcessBandwidthUpdate → Node
unfolding process_rows tracker
process_tracker process_stats = div "card flex flex-col gap-3 h-full" (
    div "flex items-center gap-2 shrink-0" (
      icon "Activity" "h-4 w-4 text-[var(--accent-blue)]"
      ▷ span "text-sm font-semibold tracking-wide" (literal "Process Tracker" ▷ nil)
      ▷ nil)
    ▷ div "flex-1 overflow-y-auto pr-1 custom-scrollbar min-h-0 space-y-1.5"
        (process_rows (tracker process_stats))
    ▷ nil)
