-- ===== src/Replication/Snapshot.antt =====
-- Bootstrap snapshots: `snapshot` on the source and `apply_snapshot` on the replica.
use thingd.Base.{
  ℕ, ◌+◌, Bytes, Bool, not, none, some, List, [], ◌∷◌, if◌then◌else◌, nat_ord, list_ord, pair_ord,
  filter, last?,
}
use thingd.Model.{MemoryEvent, ThingdResult, ok, err, invalid_input}
use thingd.Events.{list_events}
use thingd.Events.Paging.{from}
use thingd.Objects.{MemoryObject}
use thingd.Replication.{
  Json, and_then, ReplicationConfig, is_source, is_system, allowed, Engine, append_event,
  delete_object, list_objects, put_with_source,
}
use thingd.Replication.Source.{last_sequence, feed}
use thingd.Replication.Changes.{
  ReplicationApplyResult, nothing_applied, ReplicationSnapshot, write_applied_cursor,
}

abbrev pub snapshot_limit : ℕ
snapshot_limit = 100000

module _ (j : Json) where
  unfoldable pub snapshot : ReplicationConfig → Engine → ReplicationSnapshot j
  snapshot config e = record {
    source_id = config.source_id;
    cursor = last_sequence j 0 (last? (feed j e.log (from none (some snapshot_limit) none)));
    objects = filter (λ object. allowed config object.key.0) (list_objects e snapshot_limit);
    events =
        filter (λ event. not (is_system event.stream))
          (list_events e.log none (from none (some snapshot_limit) none));
  }

  unfoldable pub delete_allowed : ReplicationConfig → Engine → List MemoryObject → Engine
  delete_allowed config e [] = e
  delete_allowed config e (object ∷ more) =
      delete_allowed config
        (if allowed config object.key.0 then delete_object e object.key.0 object.key.1 else e) more

  abbrev pub one_more : ReplicationApplyResult → ReplicationApplyResult
  one_more r = record r { applied = r.applied + 1 }

  unfoldable pub put_one :
      ReplicationConfig
      → Bytes
      → Engine
      → ReplicationApplyResult
      → MemoryObject
      → Engine × ThingdResult ReplicationApplyResult
  put_one config now e r object =
      if allowed config object.key.0
      then and_then (put_with_source j e object none now) (λ e' done. (e', ok (one_more r)))
      else (e, ok r)

  unfoldable pub put_all :
      ReplicationConfig
      → Bytes
      → Engine
      → ReplicationApplyResult
      → List MemoryObject
      → Engine × ThingdResult ReplicationApplyResult
  put_all config now e r [] = (e, ok r)
  put_all config now e r (object ∷ more) =
      and_then (put_one config now e r object) (λ e' r'. put_all config now e' r' more)

  unfoldable pub append_one : Bytes → Engine → MemoryEvent → Engine × ThingdResult (Unit {0})
  append_one now e event = if is_system event.stream then (e, ok tt) else append_event e event now

  unfoldable pub append_all : Bytes → Engine → List MemoryEvent → Engine × ThingdResult (Unit {0})
  append_all now e [] = (e, ok tt)
  append_all now e (event ∷ more) =
      and_then (append_one now e event) (λ e' done. append_all now e' more)

  -- The events and the checkpoint, after the objects.
  unfoldable pub finish_snapshot :
      Bytes
      → ReplicationSnapshot j
      → Engine
      → ReplicationApplyResult
      → Engine × ThingdResult ReplicationApplyResult
  finish_snapshot now snapshot e r = and_then (append_all now e snapshot.events) λ e' done.
      and_then (write_applied_cursor j e' snapshot.source_id snapshot.cursor now)
        λ e'' written. (e'', ok (record r { last_applied_cursor = snapshot.cursor }))

  unfoldable pub cleared : ReplicationConfig → Bool → Engine → Engine
  cleared config replace e =
      if replace then delete_allowed config e (list_objects e snapshot_limit) else e

  unfoldable pub apply_snapshot :
      ReplicationConfig
      → Bytes
      → Bool
      → Engine
      → ReplicationSnapshot j
      → Engine × ThingdResult ReplicationApplyResult
  apply_snapshot config now replace e snapshot =
      if is_source config.role
      then (e, err invalid_input)
      else and_then (put_all config now (cleared config replace e) nothing_applied snapshot.objects)
          (finish_snapshot now snapshot)
