-- ===== src/Tests/Database.antt =====
-- Insertions of api-server/Persistence/AetherDb.cs whose attempts fail in different places.
use aether_lens.Prelude.{◌==◌, not, ◌≡◌, refl, true, [], ◌∷◌, List, codes, map}
use aether_lens.Number.{integer}
use aether_lens.Types.{PacketUpdate}
use aether_lens.Server.Persistence.{bulk_insert}
use aether_lens.Server.Database.{
  Database, Answers, row_of, bulk_insert_packets, Insertion, insert_all, constructed, initialize,
  dispose_async,
}
use aether_lens.Server.Database.Insertions.{attempts_of, bulk_insert_packets-refines}
use aether_lens.Server.Database.Connections.{below, disposed-insert_all}

abbrev update : PacketUpdate
update = record {
  process = codes "ssh";
  local_address = codes "192.168.1.10:40000";
  remote_address = codes "1.2.3.4:22";
  protocol = codes "TCP";
  bytes = 60;
  timestamp = 5;
  outbound = true;
  latency_ms = integer 2;
}

-- The second statement fails.
abbrev locked : Answers
locked = record {
  is_open = true;
  opens = true;
  begins = true;
  executes = λ i. not (i == 1);
  commits = true;
}

abbrev well : Answers
well = record { is_open = true; opens = true; begins = true; executes = λ i. true; commits = true }

abbrev started : Database
started = (initialize true constructed).1

abbrev batch : List PacketUpdate
batch = update ∷ update ∷ []

bulk_insert_packets-refines_example :
    (
      (bulk_insert_packets locked well batch started).0,
      (bulk_insert_packets locked well batch started).1.rows,
    )
    ≡ bulk_insert (attempts_of locked well batch started) (map row_of batch) started.rows
bulk_insert_packets-refines_example = bulk_insert_packets-refines locked well batch started

abbrev insertions : List Insertion
insertions =
    record { first = locked; second = well; batch = batch }
    ∷ record { first = locked; second = locked; batch = batch }
    ∷ []

disposed-insert_all_example :
    let db = insert_all insertions started in (dispose_async db).disposed ≡ below db.next
disposed-insert_all_example = disposed-insert_all true insertions

-- Three connections are constructed, and only the rows of the first insertion are there.
insertions_run :
    ((insert_all insertions started).disposed ≡ 1 ∷ 0 ∷ [])
    × ((insert_all insertions started).rows ≡ map row_of batch)
unfolding insert_all initialize
insertions_run = (refl, refl)
