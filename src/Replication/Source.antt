-- ===== src/Replication/Source.antt =====
-- The source's side: the records of changes, and the feed that replicas read page by page.
use thingd.Base.{
  ℕ, min, max, Bytes, codes, Bool, false, not, ◌&&◌, Option, none, some, List, [], ◌∷◌, ◌++◌, ltb,
  if◌then◌else◌, u64_max, sat_add, nat_ord, list_ord, pair_ord, last?,
}
use thingd.Model.{
  MemoryEvent, new_event, ListEventsOptions, ThingdResult, ok, err, conflict, invalid_input,
}
use thingd.Events.{EventLog, list_events}
use thingd.Events.Paging.{from}
use thingd.Objects.{MemoryObject}
use thingd.Replication.{
  Json, replication_stream, ReplicationConfig, is_source, is_system, allowed, colon, Engine,
  append_event, ReplicationChange, text_member, parse_or_null,
}

module _ (j : Json) where
  unfoldable pub record_change :
      ReplicationConfig → Engine → j.Value → Bytes → Engine × ThingdResult (Unit {0})
  record_change config e change now =
      let operation : Bytes = elim (text_member j (codes "operation") change) [
        | none ↦ codes "change"
        | some operation ↦ operation
      ] in
      if not (is_source config.role)
      then (e, err invalid_input)
      else append_event e (new_event replication_stream operation (j.to_string change)) now

  unfoldable pub upsert_change : MemoryObject → j.Value
  upsert_change object = j.object (
      (codes "operation", j.text (codes "object.upsert"))
      ∷ (codes "collection", j.text object.key.0)
      ∷ (codes "id", j.text object.key.1)
      ∷ (
        codes "payload",
        j.object (
            (codes "id", j.text object.key.1)
            ∷ (codes "collection", j.text object.key.0)
            ∷ (codes "body", parse_or_null j object.body)
            ∷ (codes "version", j.number object.version)
            ∷ (codes "createdAt", j.text object.created_at)
            ∷ (codes "updatedAt", j.text object.updated_at)
            ∷ []),
      )
      ∷ [])

  unfoldable pub record_object_upsert :
      ReplicationConfig → Engine → MemoryObject → Bytes → Engine × ThingdResult (Unit {0})
  record_object_upsert config e object now =
      if not (allowed config object.key.0)
      then (e, ok tt)
      else record_change config e (upsert_change object) now

  unfoldable pub delete_change : Bytes → Bytes → j.Value
  delete_change collection id = j.object (
      (codes "operation", j.text (codes "object.delete"))
      ∷ (codes "collection", j.text collection)
      ∷ (codes "id", j.text id)
      ∷ (codes "payload", j.null)
      ∷ [])

  unfoldable pub record_object_delete :
      ReplicationConfig → Engine → Bytes → Bytes → Bytes → Engine × ThingdResult (Unit {0})
  record_object_delete config e collection id now =
      if not (allowed config collection)
      then (e, ok tt)
      else record_change config e (delete_change collection id) now

  unfoldable pub append_change : MemoryEvent → j.Value
  append_change event = j.object (
      (codes "operation", j.text (codes "event.append"))
      ∷ (codes "collection", j.null)
      ∷ (codes "id", j.null)
      ∷ (
        codes "payload",
        j.object (
            (codes "stream", j.text event.stream)
            ∷ (codes "type", j.text event.event_type)
            ∷ (codes "body", parse_or_null j event.body)
            ∷ (codes "idempotencyKey", j.text event.idempotency_key)
            ∷ []),
      )
      ∷ [])

  unfoldable pub record_event_append :
      ReplicationConfig → Engine → MemoryEvent → Bytes → Engine × ThingdResult (Unit {0})
  record_event_append config e event now =
      if is_system event.stream
      then (e, ok tt)
      else record_change config e (append_change event) now

  pub record ReplicationPage : Type 0 where
    pub source_id : Bytes
    pub after : ℕ
    pub next : ℕ
    pub changes : List (ReplicationChange j)

  unfoldable pub change_of : ReplicationConfig → MemoryEvent → Option (ReplicationChange j)
  change_of config event = elim (j.from_str event.body) [
    | none ↦ none
    | some change ↦ some (record {
      source_id = config.source_id;
      cursor = event.sequence;
      idempotency_key = config.source_id ++ colon ++ j.decimal event.sequence;
      change = change;
    })
  ]

  -- `filter_map`
  abbrev pub keep :
      Option (ReplicationChange j) → List (ReplicationChange j) → List (ReplicationChange j)
  keep none changes = changes
  keep (some change) changes = change ∷ changes

  unfoldable pub changes_of : ReplicationConfig → List MemoryEvent → List (ReplicationChange j)
  changes_of config [] = []
  changes_of config (event ∷ more) = keep (change_of config event) (changes_of config more)

  unfoldable pub feed : EventLog → ListEventsOptions → List MemoryEvent
  feed log options = list_events log (some replication_stream) options

  -- The first retained event lies behind a gap.
  unfoldable pub is_lost : EventLog → ℕ → Bool
  is_lost log after = elim (feed log (from none (some 1) none)) [
    | [] ↦ false
    | first ∷ more ↦ ltb (sat_add u64_max after 1) first.sequence
  ]

  unfoldable pub last_sequence : ℕ → Option MemoryEvent → ℕ
  last_sequence after none = after
  last_sequence after (some event) = event.sequence

  unfoldable pub page_of : ReplicationConfig → ℕ → List MemoryEvent → ReplicationPage
  page_of config after listed = record {
    source_id = config.source_id;
    after = after;
    next = last_sequence after (last? listed);
    changes = changes_of config listed;
  }

  abbrev pub clamped : ℕ → ℕ
  clamped limit = min (max limit 1) 1000

  unfoldable pub events : ReplicationConfig → Engine → ℕ → ℕ → ThingdResult ReplicationPage
  events config e after limit =
      if ltb 0 after && is_lost e.log after
      then err conflict
      else ok (page_of config after (feed e.log (from (some after) (some (clamped limit)) none)))

  -- All changes after a cursor.
  unfoldable pub changes_after : ReplicationConfig → Engine → ℕ → List (ReplicationChange j)
  changes_after config e after = changes_of config (feed e.log (from (some after) none none))
