-- ===== src/View/Console.antt =====
-- What web-dashboard/src/components/LiveConsole.tsx renders.
pub mod Lines
use aether_lens.Prelude.{List, [], ◌∷◌, ◌++◌, Text, codes}
use aether_lens.Console.{Level, info, warn, error, debug, LogEntry}
use aether_lens.View.{
  Node, Nodes, text, element, nil, ◌▷◌, key, class, literal, div, span, icon, each,
}

unfoldable pub level_text : Level → Text
level_text info = codes "INFO"
level_text warn = codes "WARN"
level_text error = codes "ERROR"
level_text debug = codes "DEBUG"

unfoldable pub level_class : Level → Text
level_class info = codes "text-[#58A6FF]"
level_class warn = codes "text-[#D29922]"
level_class error = codes "text-[#F85149]"
level_class debug = codes "text-[#8B949E]"

unfoldable pub log_row : LogEntry → Node
unfolding level_text level_class
log_row log =
    element (codes "div")
      (key log.id
        ∷ class (codes "flex gap-2 leading-tight break-all hover:bg-white/5 px-1 rounded")
        ∷ [])
      (span "text-[#8B949E] opacity-75 shrink-0"
          (literal "[" ▷ text log.timestamp ▷ literal "]" ▷ nil)
        ▷ element (codes "span")
            (class (codes "shrink-0 font-bold w-12 text-center " ++ level_class log.level) ∷ [])
            (text (level_text log.level) ▷ nil)
        ▷ span "text-[#C9D1D9]" (text log.message ▷ nil)
        ▷ nil)

unfoldable pub log_rows : List LogEntry → Nodes
unfolding log_row each
log_rows [] =
    div "text-[var(--text-secondary)] animate-pulse p-2"
      (literal "Waiting for packet stream..." ▷ nil)
    ▷ nil
log_rows (log ∷ logs) = each log_row (log ∷ logs)

abbrev pub console_header : Node
console_header = div "flex items-center gap-2 border-b border-[#30363D] pb-2 p-2 relative z-10" (
    icon "Terminal" "h-4 w-4 text-[var(--accent-green)]"
    ▷ span "text-xs font-semibold text-[var(--text-secondary)] tracking-widest uppercase"
        (literal "Live Engine Console" ▷ nil)
    ▷ span
        "ml-auto flex items-center gap-1.5 rounded bg-[var(--accent-green)]/10 px-2 py-0.5 text-[10px] text-[var(--accent-green)] font-mono"
        (span "relative flex h-2 w-2" (
            span
              "animate-ping absolute inline-flex h-full w-full rounded-full bg-[var(--accent-green)] opacity-75"
              nil
            ▷ span "relative inline-flex rounded-full h-2 w-2 bg-[var(--accent-green)]" nil
            ▷ nil)
          ▷ literal "ACTIVE"
          ▷ nil)
    ▷ nil)

unfoldable pub live_console : List LogEntry → Node
unfolding log_rows
live_console logs =
    div
      "flex h-full flex-col overflow-hidden bg-[#0D1117] border-[#30363D] relative after:content-[''] after:absolute after:inset-0 after:pointer-events-none after:bg-[linear-gradient(transparent_50%,rgba(0,0,0,0.1)_50%)] after:bg-[length:100%_4px]"
      (console_header
        ▷ element (codes "div")
            (class (codes "flex-1 overflow-y-auto space-y-1 text-[10px] p-2 relative z-10")
              ∷ (codes "style.fontFamily", codes "'JetBrains Mono', monospace")
              ∷ [])
            (log_rows logs)
        ▷ nil)
