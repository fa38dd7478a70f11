-- ===== src/Server/Database.antt =====
-- api-server/Persistence/AetherDb.cs: the connection, which is opened again when it is lost, the rows of
-- the table, and an insertion in a transaction with its second attempt. What SQLite answers to an
-- attempt is an argument. A connection is the number of its construction.
pub mod Insertions
pub mod Connections
use aether_lens.Prelude.{
  ℕ, ◌+◌, Bool, true, false, Option, none, some, List, [], ◌∷◌, ◌++◌, Text, if◌then◌else◌,
}
use aether_lens.Number.{Double}
use aether_lens.Types.{PacketUpdate}

-- A row of `packet_events`, without the number that the table gives it.
pub record Row : Type 0 where
  pub process_name : Text
  pub local_address : Text
  pub remote_address : Text
  pub protocol : Text
  pub bytes : ℕ
  pub outbound : ℕ
  pub event_time_ms : ℕ
  pub latency_ms : Double

unfoldable pub row_of : PacketUpdate → Row
row_of item = record {
  process_name = item.process;
  local_address = item.local_address;
  remote_address = item.remote_address;
  protocol = item.protocol;
  bytes = item.bytes;
  outbound = if item.outbound then 1 else 0;
  event_time_ms = item.timestamp;
  latency_ms = item.latency_ms;
}

-- The connection that `_conn` has, how many were constructed, those that were disposed of, the latest
-- first, and what is committed.
pub record Database : Type 0 where
  pub conn : Option ℕ
  pub next : ℕ
  pub disposed : List ℕ
  pub rows : List Row

-- The answers to one attempt: whether the connection that is there is open, and whether the calls
-- succeed, those of the statements by their position in the batch.
pub record Answers : Type 0 where
  pub is_open : Bool
  pub opens : Bool
  pub begins : Bool
  pub executes : ℕ → Bool
  pub commits : Bool

-- `_conn?.Dispose()`
abbrev pub dispose : Option ℕ → List ℕ → List ℕ
dispose none disposed = disposed
dispose (some c) disposed = c ∷ disposed

-- `new SqliteConnection`, in place of what `_conn` has.
unfoldable pub construct : Database → Database
construct db = record db {
  conn = some db.next;
  next = db.next + 1;
  disposed = dispose db.conn db.disposed;
}

-- Whether the connection of `_conn` is there and open.
abbrev pub is_connected : Bool → Option ℕ → Bool
is_connected is_open none = false
is_connected is_open (some c) = is_open

-- Whether the call returns, and the state after it; `OpenAsync` comes after the assignment.
unfoldable pub ensure_connected : Answers → Database → Bool × Database
unfolding construct
ensure_connected a db =
    if is_connected a.is_open db.conn then (true, db) else (a.opens, construct db)

-- The rows of the transaction after the statements from a position on, if all of them succeed.
unfoldable pub execute_all : (ℕ → Bool) → ℕ → List PacketUpdate → List Row → Option (List Row)
unfolding row_of
execute_all executes i [] pending = some pending
execute_all executes i (item ∷ batch) pending =
    let rest = execute_all executes (i + 1) batch (pending ++ row_of item ∷ []) in
    if executes i then rest else none

-- A transaction that is not committed is rolled back when it is disposed of.
unfoldable pub commit : Bool → Option (List Row) → Database → Bool × Database
commit commits none db = (false, db)
commit commits (some pending) db =
    if commits then (true, record db { rows = db.rows ++ pending }) else (false, db)

unfoldable pub transact : Answers → List PacketUpdate → Database → Bool × Database
unfolding execute_all commit
transact a batch db =
    if a.begins then commit a.commits (execute_all a.executes 0 batch []) db else (false, db)

-- The body of the `try`.
unfoldable pub attempt : Answers → List PacketUpdate → Database → Bool × Database
unfolding ensure_connected transact
attempt a batch db =
    let (connected, after) = ensure_connected a db in
    let (done, changed) = transact a batch after in
    if connected then (done, changed) else (false, after)

-- `catch when (attempt == 0)`
unfoldable pub drop_connection : Database → Database
drop_connection db = record db { conn = none; disposed = dispose db.conn db.disposed }

-- Whether `BulkInsertPacketsAsync` returns, and the state after it; else it throws what the second
-- attempt threw.
unfoldable pub bulk_insert_packets :
    Answers → Answers → List PacketUpdate → Database → Bool × Database
unfolding attempt drop_connection
bulk_insert_packets first second batch db =
    let (done, after) = attempt first batch db in
    if done then (true, after) else attempt second batch (drop_connection after)

-- An insertion: what is answered to its attempts, and its packets.
pub record Insertion : Type 0 where
  pub first : Answers
  pub second : Answers
  pub batch : List PacketUpdate

unfoldable pub insert_all : List Insertion → Database → Database
unfolding bulk_insert_packets
insert_all [] db = db
insert_all (i ∷ insertions) db =
    insert_all insertions (bulk_insert_packets i.first i.second i.batch db).1

abbrev pub constructed : Database
constructed = record { conn = none; next = 0; disposed = []; rows = [] }

-- `InitializeAsync`, which is called once when the server starts: whether it returns, which is whether its
-- calls succeed, and the state after it.
unfoldable pub initialize : Bool → Database → Bool × Database
initialize succeeds db = (succeeds, record db { conn = some db.next; next = db.next + 1 })

-- `DisposeAsync`
unfoldable pub dispose_async : Database → Database
dispose_async db = record db { disposed = dispose db.conn db.disposed }
