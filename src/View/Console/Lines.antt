-- ===== src/View/Console/Lines.antt =====
-- The text of the live console of web-dashboard/src/components/LiveConsole.tsx.
use aether_lens.Prelude.{
  ◌≡◌, refl, ap₂, List, [], ◌∷◌, ◌++◌, append_assoc, append-nil, Text, codes, take_last,
}
use aether_lens.Console.{LogEntry, Notice, empty, run}
use aether_lens.Console.Window.{logged, run-empty-logged}
use aether_lens.View.{text_content, texts, each}
use aether_lens.View.Console.{level_text, log_row, log_rows, live_console}

-- An entry as a line: the time in brackets, the level and the message.
abbrev pub line : LogEntry → Text
line log = codes "[" ++ (log.timestamp ++ (codes "]" ++ (level_text log.level ++ log.message)))

abbrev lines : List LogEntry → Text
lines [] = []
lines (log ∷ logs) = line log ++ lines logs

-- What stands under the heading.
abbrev pub log_text : List LogEntry → Text
log_text [] = codes "Waiting for packet stream..."
log_text (log ∷ logs) = lines (log ∷ logs)

text_content-log_row : (log : LogEntry) → text_content (log_row log) ≡ line log
unfolding text_content log_row
text_content-log_row log = simp (append-nil, append_assoc)

texts-each : (logs : List LogEntry) → texts (each log_row logs) ≡ lines logs
unfolding texts each
texts-each [] = refl
texts-each (log ∷ logs) = ap₂ (λ (s t : Text). s ++ t) (text_content-log_row log) (texts-each logs)

texts-log_rows : (logs : List LogEntry) → texts (log_rows logs) ≡ log_text logs
unfolding texts log_rows
texts-log_rows [] = refl
texts-log_rows (log ∷ logs) = texts-each (log ∷ logs)

-- After any row of notices the console reads as its heading, then the last 50 of all entries that
-- were logged, each with its time, level and message, or the waiting text if nothing was logged.
pub text_content-live_console :
    (notices : List Notice)
    → text_content (live_console (run notices empty).logs)
      ≡ codes "Live Engine ConsoleACTIVE" ++ log_text (take_last 50 (logged 0 notices))
unfolding text_content live_console
text_content-live_console notices = rw (append-nil, texts-log_rows, run-empty-logged) refl
