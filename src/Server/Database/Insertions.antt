-- ===== src/Server/Database/Insertions.antt =====
-- The insertion of api-server/Persistence/AetherDb.cs against that of the persistence worker, which
-- knows only whether an attempt succeeds.
use aether_lens.Prelude.{
  ℕ, ◌+◌, ◌≡◌, refl, ap, sym, ◌∙◌, Bool, true, false, Option, none, some, List, [], ◌∷◌, ◌++◌, map,
  Bool-cases, inl, inr, if◌then◌else◌, append_assoc, append-nil,
}
use aether_lens.Types.{PacketUpdate}
use aether_lens.Server.Persistence.{Attempts, bulk_insert}
use aether_lens.Server.Database.{
  Row, row_of, Database, Answers, construct, is_connected, ensure_connected, execute_all, commit,
  transact, attempt, drop_connection, bulk_insert_packets,
}

-- The rows after an attempt that inserts all or nothing.
abbrev rows_if : Bool → List PacketUpdate → List Row → List Row
rows_if done batch rows = if done then rows ++ map row_of batch else rows

-- All statements succeeded, and the transaction has a row for each.
Executed : List PacketUpdate → List Row → Option (List Row) → Type 0
Executed batch pending none = Unit
Executed batch pending (some result) = result ≡ pending ++ map row_of batch

Executed-next :
    (item : PacketUpdate) (batch : List PacketUpdate) (pending : List Row) (o : Option (List Row))
    → Executed batch (pending ++ row_of item ∷ []) o
    → Executed (item ∷ batch) pending o
unfolding Executed
Executed-next item batch pending none h = tt
Executed-next item batch pending (some result) h =
    h ∙ append_assoc pending (row_of item ∷ []) (map row_of batch)

execute_all-Executed :
    (executes : ℕ → Bool) (i : ℕ) (batch : List PacketUpdate) (pending : List Row)
    → Executed batch pending (execute_all executes i batch pending)
unfolding execute_all Executed
execute_all-Executed executes i [] pending = sym (append-nil pending)
execute_all-Executed executes i (item ∷ batch) pending = elim (Bool-cases (executes i)) [
  | inl ok ↦ rw ok (
      Executed-next item batch pending _
        (execute_all-Executed executes (i + 1) batch (pending ++ row_of item ∷ [])))
  | inr failed ↦ rw failed tt
]

commit-rows :
    (commits : Bool) (batch : List PacketUpdate) (o : Option (List Row)) (db : Database)
    → Executed batch [] o
    → (commit commits o db).1.rows ≡ rows_if (commit commits o db).0 batch db.rows
unfolding commit Executed
commit-rows commits batch none db h = refl
commit-rows true batch (some result) db h = ap (db.rows ++◌) h
commit-rows false batch (some result) db h = refl

transact-rows :
    (a : Answers) (batch : List PacketUpdate) (db : Database)
    → (transact a batch db).1.rows ≡ rows_if (transact a batch db).0 batch db.rows
unfolding transact
transact-rows a batch db = elim (Bool-cases a.begins) [
  | inl ok ↦ rw ok (
      commit-rows a.commits batch (execute_all a.executes 0 batch []) db
        (execute_all-Executed a.executes 0 batch []))
  | inr failed ↦ rw failed refl
]

ensure_connected-rows : (a : Answers) (db : Database) → (ensure_connected a db).1.rows ≡ db.rows
unfolding ensure_connected construct
ensure_connected-rows a db = elim (Bool-cases (is_connected a.is_open db.conn)) [
  | inl ok ↦ rw ok refl
  | inr failed ↦ rw failed refl
]

attempt-rows :
    (a : Answers) (batch : List PacketUpdate) (db : Database)
    → (attempt a batch db).1.rows ≡ rows_if (attempt a batch db).0 batch db.rows
unfolding attempt
attempt-rows a batch db =
    let same = ensure_connected-rows a db in
    let after = (ensure_connected a db).1 in
    elim (Bool-cases (ensure_connected a db).0) [
      | inl ok ↦
          rw ok (transact-rows a batch after ∙ ap (rows_if (transact a batch after).0 batch) same)
      | inr failed ↦ rw failed same
    ]

drop_connection-rows : (db : Database) → (drop_connection db).rows ≡ db.rows
unfolding drop_connection
drop_connection-rows db = refl

-- The first attempt's result or, where it failed, that of the second.
either :
    (r s : Bool × Database) (batch : List PacketUpdate) (rows : List Row)
    → r.1.rows ≡ rows_if r.0 batch rows
    → s.1.rows ≡ rows_if s.0 batch r.1.rows
    → ((if r.0 then (true, r.1) else s).0, (if r.0 then (true, r.1) else s).1.rows)
      ≡ bulk_insert (record { first = r.0; second = s.0 }) (map row_of batch) rows
unfolding bulk_insert
either (true, after) s batch rows h k = ap (λ (l : List Row). (true, l)) h
either (false, after) (true, later) batch rows h k =
    ap (λ (l : List Row). (true, l)) (k ∙ ap (rows_if true batch) h)
either (false, after) (false, later) batch rows h k = ap (λ (l : List Row). (false, l)) (k ∙ h)

-- The attempts of an insertion as the worker's model knows them: whether each succeeds.
abbrev pub attempts_of : Answers → Answers → List PacketUpdate → Database → Attempts
attempts_of first second batch db = record {
  first = (attempt first batch db).0;
  second = (attempt second batch (drop_connection (attempt first batch db).1)).0;
}

-- Whatever SQLite answers, the insertion returns exactly if one of its attempts succeeds; it adds all
-- rows of the batch, once and in their order, if it returns, and none if it throws.
pub bulk_insert_packets-refines :
    (first second : Answers) (batch : List PacketUpdate) (db : Database)
    → (
      (bulk_insert_packets first second batch db).0,
      (bulk_insert_packets first second batch db).1.rows,
    )
      ≡ bulk_insert (attempts_of first second batch db) (map row_of batch) db.rows
unfolding bulk_insert_packets
bulk_insert_packets-refines first second batch db =
    let r = attempt first batch db in
    let dropped = drop_connection r.1 in
    either r (attempt second batch dropped) batch db.rows (attempt-rows first batch db) (
      attempt-rows second batch dropped
      ∙ ap (rows_if (attempt second batch dropped).0 batch) (drop_connection-rows r.1))
