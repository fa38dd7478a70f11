-- ===== src/Server/Database/Connections.antt =====
-- What becomes of the connections that api-server/Persistence/AetherDb.cs constructs.
use aether_lens.Prelude.{
  ℕ, zero, suc, ◌+◌, arith, ◌≡◌, refl, ap, ◌∙◌, Bool, true, false, Option, none, some, List, [],
  ◌∷◌, Bool-cases, inl, inr,
}
use aether_lens.Types.{PacketUpdate}
use aether_lens.Server.Database.{
  Row, Database, Answers, dispose, construct, is_connected, ensure_connected, commit, transact,
  execute_all, attempt, drop_connection, bulk_insert_packets, Insertion, insert_all, constructed,
  initialize, dispose_async,
}

-- The numbers below, the largest first.
abbrev pub below : ℕ → List ℕ
below zero = []
below (suc n) = n ∷ below n

-- The current connection before those that were disposed of are all that were constructed.
abbrev Owned : Database → Type 0
Owned db = dispose db.conn db.disposed ≡ below db.next

construct-Owned : (db : Database) → Owned db → Owned (construct db)
unfolding construct
construct-Owned db h =
    ap (db.next ∷◌) h ∙ ap below {x = suc db.next} {y = db.next + 1} (omega arith)

ensure_connected-Owned : (a : Answers) (db : Database) → Owned db → Owned (ensure_connected a db).1
unfolding ensure_connected
ensure_connected-Owned a db h = elim (Bool-cases (is_connected a.is_open db.conn)) [
  | inl ok ↦ rw ok h
  | inr failed ↦ rw failed (construct-Owned db h)
]

commit-Owned :
    (commits : Bool) (o : Option (List Row)) (db : Database)
    → Owned db
    → Owned (commit commits o db).1
unfolding commit
commit-Owned commits none db h = h
commit-Owned true (some pending) db h = h
commit-Owned false (some pending) db h = h

transact-Owned :
    (a : Answers) (batch : List PacketUpdate) (db : Database)
    → Owned db
    → Owned (transact a batch db).1
unfolding transact
transact-Owned a batch db h = elim (Bool-cases a.begins) [
  | inl ok ↦ rw ok (commit-Owned a.commits (execute_all a.executes 0 batch []) db h)
  | inr failed ↦ rw failed h
]

attempt-Owned :
    (a : Answers) (batch : List PacketUpdate) (db : Database)
    → Owned db
    → Owned (attempt a batch db).1
unfolding attempt
attempt-Owned a batch db h =
    let owned = ensure_connected-Owned a db h in
    elim (Bool-cases (ensure_connected a db).0) [
      | inl ok ↦ rw ok (transact-Owned a batch (ensure_connected a db).1 owned)
      | inr failed ↦ rw failed owned
    ]

drop_connection-Owned : (db : Database) → Owned db → Owned (drop_connection db)
unfolding drop_connection
drop_connection-Owned db h = h

bulk_insert_packets-Owned :
    (first second : Answers) (batch : List PacketUpdate) (db : Database)
    → Owned db
    → Owned (bulk_insert_packets first second batch db).1
unfolding bulk_insert_packets
bulk_insert_packets-Owned first second batch db h =
    let owned = attempt-Owned first batch db h in
    let after = (attempt first batch db).1 in
    elim (Bool-cases (attempt first batch db).0) [
      | inl ok ↦ rw ok owned
      | inr failed ↦
          rw failed
            (attempt-Owned second batch (drop_connection after) (drop_connection-Owned after owned))
    ]

insert_all-Owned :
    (insertions : List Insertion) (db : Database) → Owned db → Owned (insert_all insertions db)
unfolding insert_all
insert_all-Owned [] db h = h
insert_all-Owned (i ∷ insertions) db h =
    insert_all-Owned insertions (bulk_insert_packets i.first i.second i.batch db).1
      (bulk_insert_packets-Owned i.first i.second i.batch db h)

initialize-Owned : (succeeds : Bool) → Owned (initialize succeeds constructed).1
unfolding initialize
initialize-Owned succeeds = refl

-- When the database is disposed of after its start and any row of insertions, whatever SQLite answers,
-- each connection that was constructed was disposed of, once and in the order of construction.
pub disposed-insert_all :
    (succeeds : Bool) (insertions : List Insertion)
    → let db = insert_all insertions (initialize succeeds constructed).1 in
      (dispose_async db).disposed ≡ below db.next
unfolding dispose_async
disposed-insert_all succeeds insertions =
    insert_all-Owned insertions (initialize succeeds constructed).1 (initialize-Owned succeeds)
