-- ===== src/Replication/Status.antt =====
-- What a store reports of its replication.
use thingd.Base.{
  ℕ, Bytes, none, List, ◌==◌, nat_ord, list_ord, pair_ord, length, take, filter, last?,
}
use thingd.Base.BTreeMap.{values}
use thingd.Events.Paging.{from}
use thingd.Objects.{MemoryObject}
use thingd.Replication.{Json, quarantine_collection, ReplicationRole, ReplicationConfig, Engine}
use thingd.Replication.Source.{feed, last_sequence}
use thingd.Replication.Changes.{read_applied_cursor}

pub record ReplicationStatus : Type 0 where
  pub source_id : Bytes
  pub role : ReplicationRole
  pub latest_cursor : ℕ
  pub change_count : ℕ
  pub last_applied_cursor : ℕ
  pub quarantined_conflicts : ℕ

module _ (j : Json) where
  unfoldable pub conflicts : Engine → List MemoryObject
  conflicts e =
      take 10000 (filter (λ object. object.key.0 == quarantine_collection) (values e.store.objects))

  unfoldable pub status : ReplicationConfig → Engine → ReplicationStatus
  status config e = record {
    source_id = config.source_id;
    role = config.role;
    latest_cursor = last_sequence j 0 (last? (feed j e.log (from none none none)));
    change_count = length (feed j e.log (from none none none));
    last_applied_cursor = read_applied_cursor j e config.source_id;
    quarantined_conflicts = length (conflicts e);
  }
