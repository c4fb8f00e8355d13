-- ===== src/Replication/Replica.antt =====
-- A replica's `apply`: the loop over a batch of changes, and the checkpoint.
use thingd.Base.{
  ℕ, ◌+◌, max, Bytes, codes, Bool, false, not, ◌&&◌, Option, none, some, List, [], ◌∷◌, ltb, leb,
  if◌then◌else◌, ◌==◌, nat_ord, list_ord, pair_ord,
}
use thingd.Model.{ThingdResult, ok, err, invalid_input}
use thingd.Replication.{
  Json, and_then, ok_or, ReplicationConfig, is_source, allowed, Engine, ReplicationChange,
  text_member,
}
use thingd.Replication.Changes.{
  ReplicationApplyResult, nothing_applied, read_applied_cursor, write_applied_cursor,
  apply_operation,
}

module _ (j : Json) where
  -- The loop of `apply`: the source that the batch has named, the cursor that was read, and counts.
  pub record Batch : Type 0 where
    pub source_id : Option Bytes
    pub checkpoint : ℕ
    pub result : ReplicationApplyResult

  abbrev pub is_other : Option Bytes → Bytes → Bool
  is_other none s = false
  is_other (some existing) s = not (existing == s)

  abbrev pub is_filtered : ReplicationConfig → Option Bytes → Bool
  is_filtered config none = false
  is_filtered config (some collection) = not (allowed config collection)

  abbrev pub skip_one : Batch → Batch
  skip_one b = record b { result = record b.result { skipped = b.result.skipped + 1 } }

  abbrev pub seen_to : ℕ → Batch → Batch
  seen_to cursor b = record b {
    result = record b.result { last_applied_cursor = max b.result.last_applied_cursor cursor };
  }

  abbrev pub count_one : Batch → Batch
  count_one b = record b { result = record b.result { applied = b.result.applied + 1 } }

  -- An item behind the checkpoint is a duplicate.
  unfoldable pub is_duplicate : Batch → ReplicationChange j → Bool
  is_duplicate b item = ltb 0 item.cursor && leb item.cursor b.checkpoint

  unfoldable pub apply_new :
      ReplicationConfig → Bytes → Engine → Batch → ReplicationChange j → Engine × ThingdResult Batch
  apply_new config now e b item =
      ok_or e (text_member j (codes "operation") item.change) λ operation.
        let collection = text_member j (codes "collection") item.change in
        if is_filtered config collection
        then (e, ok (seen_to item.cursor (skip_one b)))
        else and_then (apply_operation j e item operation collection now)
            (λ e' done. (e', ok (seen_to item.cursor (count_one b))))

  unfoldable pub enter : Engine → Batch → ReplicationChange j → Batch
  enter e b item = record b {
    source_id = some item.source_id;
    checkpoint = if b.checkpoint == 0 then read_applied_cursor j e item.source_id else b.checkpoint;
  }

  unfoldable pub apply_item :
      ReplicationConfig → Bytes → Engine → Batch → ReplicationChange j → Engine × ThingdResult Batch
  apply_item config now e b item =
      if is_other b.source_id item.source_id
      then (e, err invalid_input)
      else if is_duplicate (enter e b item) item
      then (e, ok (skip_one (enter e b item)))
      else apply_new config now e (enter e b item) item

  unfoldable pub apply_items :
      ReplicationConfig
      → Bytes
      → Engine
      → Batch
      → List (ReplicationChange j)
      → Engine × ThingdResult Batch
  apply_items config now e b [] = (e, ok b)
  apply_items config now e b (item ∷ more) =
      and_then (apply_item config now e b item) (λ e' b'. apply_items config now e' b' more)

  unfoldable pub write_checkpoint :
      Bytes → Engine → Batch → Engine × ThingdResult ReplicationApplyResult
  write_checkpoint now e b = elim b.source_id [
    | none ↦ (e, ok b.result)
    | some source_id ↦
        if ltb b.checkpoint b.result.last_applied_cursor
        then and_then (write_applied_cursor j e source_id b.result.last_applied_cursor now)
            (λ e' done. (e', ok b.result))
        else (e, ok b.result)
  ]

  abbrev pub empty_batch : Batch
  empty_batch = record { source_id = none; checkpoint = 0; result = nothing_applied }

  unfoldable pub apply :
      ReplicationConfig
      → Bytes
      → Engine
      → List (ReplicationChange j)
      → Engine × ThingdResult ReplicationApplyResult
  apply config now e changes =
      if is_source config.role
      then (e, err invalid_input)
      else and_then (apply_items config now e empty_batch changes) (write_checkpoint now)
