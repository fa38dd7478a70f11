-- ===== src/Server/Persistence.antt =====
-- api-server/Persistence/PacketPersistenceWorker.cs, and `BulkInsertPacketsAsync` of
-- api-server/Persistence/AetherDb.cs. A row of rounds is one run of the worker's loop; what the
-- database answers to each attempt is an argument, and a transaction that is not committed writes
-- nothing.
pub mod Batch
pub mod Order
pub mod Drain
pub mod Limits
pub mod Failures
use aether_lens.Prelude.{ℕ, Bool, true, false, List, [], ◌∷◌, ◌++◌, length, ltb, if◌then◌else◌}

-- What the database answers to the first and to the second attempt: whether the transaction, with the
-- connection before it, succeeds.
pub record Attempts : Type 0 where
  pub first : Bool
  pub second : Bool

-- The channel's waiting packets, the worker's buffer, and the rows of the table.
pub record Worker (A : Type 0) : Type 0 where
  pub waiting : List A
  pub buffer : List A
  pub stored : List A

abbrev pub capacity : ℕ
capacity = 256

-- `while (_reader.TryRead(out var extra) && buffer.Count < 256) buffer.Add(extra)`: the buffer, and
-- what still waits. The packet whose read ends the loop is in neither.
unfoldable pub fill : {A : Type 0} → List A → List A → List A × List A
fill buffer [] = (buffer, [])
fill buffer (extra ∷ waiting) =
    let rest = fill (buffer ++ extra ∷ []) waiting in
    if ltb (length buffer) capacity then rest else (buffer, waiting)

-- The rows after an insertion, and whether it returned.
unfoldable pub bulk_insert : {A : Type 0} → Attempts → List A → List A → Bool × List A
bulk_insert answers batch stored =
    if answers.first
    then (true, stored ++ batch)
    else if answers.second
    then (true, stored ++ batch)
    else (false, stored)

-- `buffer.Clear()` is passed over when the insertion throws.
unfoldable pub flush : {A : Type 0} → Attempts → List A × List A → List A → Worker A
unfolding bulk_insert
flush answers (batch, waiting) stored =
    let (returned, rows) = bulk_insert answers batch stored in
    record { waiting = waiting; buffer = if returned then [] else batch; stored = rows }

take_turn : {A : Type 0} → Attempts → Worker A → List A → Worker A
unfolding fill flush
take_turn answers w [] = w
take_turn answers w (item ∷ waiting) = flush answers (fill (w.buffer ++ item ∷ []) waiting) w.stored

-- One round of the loop; with an empty channel it waits.
unfoldable pub round : {A : Type 0} → Attempts → Worker A → Worker A
unfolding take_turn
round answers w = take_turn answers w w.waiting

-- `new BoundedChannelOptions(50_000) { FullMode = DropOldest }`
abbrev pub channel_capacity : ℕ
channel_capacity = 50_000

unfoldable pub enqueue : {A : Type 0} → ℕ → A → List A → List A
enqueue limit x [] = x ∷ []
enqueue limit x (oldest ∷ waiting) =
    if ltb (length (oldest ∷ waiting)) limit
    then oldest ∷ (waiting ++ x ∷ [])
    else waiting ++ x ∷ []

pub data Event (A : Type 0) : Type 0 where
  arrive : A → Event A
  turn : Attempts → Event A

-- A packet that arrives waits; a full channel drops its oldest packet for it.
unfoldable pub step : {A : Type 0} → Event A → Worker A → Worker A
unfolding round enqueue
step (arrive x) w = record w { waiting = enqueue channel_capacity x w.waiting }
step (turn answers) w = round answers w

unfoldable pub run : {A : Type 0} → List (Event A) → Worker A → Worker A
unfolding step
run [] w = w
run (e ∷ events) w = run events (step e w)
