-- ===== src/Server/Suspicions.antt =====
-- api-server/Services/SuspiciousGrpcStreamService.cs: the loop that subscribes to the engine's
-- suspicious connections, with the turns of Server.Stream.
pub mod Delivered
use aether_lens.Prelude.{ℕ, ◌+◌, Option, none, some, List, [], ◌∷◌, ◌++◌}
use aether_lens.Server.Stream.{
  Exception, unavailable, cancelled, unexpected, Turn, at_call, on_stream, Status, running, stopped,
  faulted,
}

-- The items written to the channel, and how often the loop waited two seconds.
pub record Listener (A : Type 0) : Type 0 where
  pub status : Status
  pub written : List A
  pub waits : ℕ

abbrev pub listening : {A : Type 0} → Listener A
listening = record { status = running; written = []; waits = 0 }

-- The `catch` clauses.
unfoldable pub catch_failure : {A : Type 0} → Exception → Listener A → Listener A
catch_failure unavailable l = record l { waits = l.waits + 1 }
catch_failure cancelled l = record l { status = stopped }
catch_failure unexpected l = record l { status = faulted }

unfoldable pub write_all : {A : Type 0} → List A → Listener A → Listener A
write_all items l = record l { written = l.written ++ items }

unfoldable pub listen : {A : Type 0} → Turn A → Listener A → Listener A
unfolding catch_failure write_all
listen (at_call e) l = catch_failure e l
listen (on_stream items none) l = write_all items l
listen (on_stream items (some e)) l = catch_failure e (write_all items l)

-- The loop goes on while the service runs.
unfoldable pub listen_if : {A : Type 0} → Status → Turn A → Listener A → Listener A
unfolding listen
listen_if running t l = listen t l
listen_if stopped t l = l
listen_if faulted t l = l

unfoldable pub listen_all : {A : Type 0} → List (Turn A) → Listener A → Listener A
unfolding listen_if
listen_all [] l = l
listen_all (t ∷ turns) l = listen_all turns (listen_if l.status t l)
