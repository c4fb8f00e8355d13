-- ===== src/Replication/Again.antt =====
-- A replica that applies a batch again skips all of it.
use thingd.Base.{
  ℕ, ◌+◌, max, Bytes, ◌≡◌, refl, ap, ◌∙◌, inl, inr, false, List, [], ◌∷◌, arith, ltb, Bool-cases,
  Option-cases, ==_refl, nat_ord, list_ord, pair_ord, length, All,
}
use thingd.Model.{ThingdResult, ok}
use thingd.Replication.{Json, ReplicationConfig, is_source, Engine, ReplicationChange}
use thingd.Replication.Changes.{ReplicationApplyResult, read_applied_cursor, write_applied_cursor}
use thingd.Replication.Replica.{
  Batch, skip_one, enter, apply_item, apply_items, write_checkpoint, apply, empty_batch,
}
use thingd.Replication.Checkpoint.{and_then-ok, read-written}
use thingd.Replication.Run.{
  IsAt, enter-checkpoint, skip-item, apply_item-Stepped, IsNumbered, IsBehind, Ran, item_keeps,
  run_from,
}

module _ (j : Json) where
  abbrev skip_many : ℕ → ReplicationApplyResult → ReplicationApplyResult
  skip_many n r = record r { skipped = r.skipped + n }

  abbrev all_skipped : ℕ → ReplicationApplyResult
  all_skipped n = record { applied = 0; skipped = n; conflicts = 0; last_applied_cursor = 0 }

  skip_items :
      (config : ReplicationConfig) (now s : Bytes) (m : ℕ) (e : Engine)
      (items : List (ReplicationChange j)) (b : Batch j)
      → IsAt j s m b
      → read_applied_cursor j e s ≡ m
      → All (IsBehind j s m) items
      → (b' : Batch j) × (apply_items j config now e b items ≡ (e, ok b'))
        × (b'.result ≡ skip_many (length items) b.result)
  unfolding apply_items enter
  skip_items config now s m e [] b at reads behind = (b, refl, ground arith)
  skip_items config now s m e (item ∷ more) b at reads behind =
      let same : item.source_id ≡ s = behind.0.0 in
      let at_item : IsAt j item.source_id m b = (rw same at) in
      let reads_item = ap (read_applied_cursor j e) same ∙ reads in
      let skips = skip-item j config now e b item m at_item reads_item (behind.0.1) (behind.0.2) in
      let b1 = skip_one j (enter j e b item) in
      let at1 : IsAt j s m b1 = (
        rw (same, ==_refl s) refl,
        inr (enter-checkpoint j e b item item.source_id m refl reads_item at_item),
      ) in
      let (b', rest, counted) = skip_items config now s m e more b1 at1 reads (behind.1) in
      (b', rw (skips) rest, ground (arith, counted))

  -- A written checkpoint is the furthest cursor, and one that is not written was.
  write_checkpoint-reads :
      (now s : Bytes) (r : ℕ) (e e' : Engine) (b b0 : Batch j) (items : List (ReplicationChange j))
      (result : ReplicationApplyResult)
      → Ran j s r e b0 b items
      → write_checkpoint j now e b ≡ (e', ok result)
      → read_applied_cursor j e' s ≡ max r b.result.last_applied_cursor
  unfolding write_checkpoint
  write_checkpoint-reads now s r e e' b b0 items result ran h =
      elim (Bool-cases (ltb b.checkpoint b.result.last_applied_cursor)) [
        | inr y ↦
            let k = rw (write_checkpoint, ran.named, y) at h in
            let at : e ≡ e' = ap (λ (x : Engine × ThingdResult ReplicationApplyResult). x.0) k in
            rw (← at) (ground (arith, ran.reads, ran.checked, y))
        | inl y ↦
            let (e1, done, wrote, k) =
              and_then-ok (write_applied_cursor j e s b.result.last_applied_cursor now) _ e' result
                (rw (write_checkpoint, ran.named, y) at h) in
            let at : e1 ≡ e' = ap (λ (x : Engine × ThingdResult ReplicationApplyResult). x.0) k in
            let read = read-written j e e1 s b.result.last_applied_cursor now ran.small wrote in
            rw (← at) (ground (arith, read, ran.checked, y))
      ]

  -- Nothing new was seen: the checkpoint stays.
  write_checkpoint-none :
      (now : Bytes) (e : Engine) (b : Batch j)
      → b.result.last_applied_cursor ≡ 0
      → write_checkpoint j now e b ≡ (e, ok b.result)
  unfolding write_checkpoint
  write_checkpoint-none now e b h = elim (Option-cases b.source_id) [
    | inl y ↦ rw (y, write_checkpoint) refl
    | inr (s, y) ↦
        let no_more : ltb b.checkpoint b.result.last_applied_cursor ≡ false = ground (arith, h) in
        rw (y, write_checkpoint, no_more) refl
  ]

  again_skips :
      (config : ReplicationConfig) (later s : Bytes) (m : ℕ) (e : Engine)
      (changes : List (ReplicationChange j))
      → is_source config.role ≡ false
      → read_applied_cursor j e s ≡ m
      → All (IsBehind j s m) changes
      → apply j config later e changes ≡ (e, ok (all_skipped (length changes)))
  unfolding apply
  again_skips config later s m e changes role reads behind =
      let (b', skips, counted) =
        skip_items config later s m e changes (empty_batch j) (refl, inl refl) reads behind in
      let stays =
        write_checkpoint-none later e b'
          (ap (λ (x : ReplicationApplyResult). x.last_applied_cursor) counted) in
      let total : b'.result ≡ all_skipped (length changes) = ground (arith, counted) in
      rw (apply, role, skips) (stays ∙ ap (λ (x : ReplicationApplyResult). (e, ok x)) total)

  apply-role :
      (config : ReplicationConfig) (now : Bytes) (e e' : Engine)
      (changes : List (ReplicationChange j)) (result : ReplicationApplyResult)
      → apply j config now e changes ≡ (e', ok result)
      → is_source config.role ≡ false
  unfolding apply
  apply-role config now e e' changes result h = elim (Bool-cases (is_source config.role)) [
    | inr y ↦ y
    | inl y ↦ absurd (ground (arith, rw (apply, y) at h))
  ]

  -- When a replica has applied a batch of changes with positive cursors, applying the batch again,
  -- at any time, skips every change of it, changes nothing in the engine, and reports neither an
  -- applied change nor a cursor.
  pub apply-apply :
      (config : ReplicationConfig) (now later : Bytes) (e e' : Engine)
      (changes : List (ReplicationChange j)) (result : ReplicationApplyResult)
      → All (IsNumbered j) changes
      → apply j config now e changes ≡ (e', ok result)
      → apply j config later e' changes ≡ (
        e',
        ok (record {
          applied = 0;
          skipped = length changes;
          conflicts = 0;
          last_applied_cursor = 0;
        }),
      )
  unfolding apply apply_items
  apply-apply config now later e e' [] result good h =
      again_skips config later [] (read_applied_cursor j e' []) e' []
        (apply-role config now e e' [] result h) refl tt
  apply-apply config now later e e' (item ∷ more) result good h =
      let role = apply-role config now e e' (item ∷ more) result h in
      let s = item.source_id in
      let r = read_applied_cursor j e s in
      let (e2, b2, ran, wrote) =
        and_then-ok (apply_items j config now e (empty_batch j) (item ∷ more)) _ e' result
          (rw (apply, role) at h) in
      let (e1, b1, first, rest) =
        and_then-ok (apply_item j config now e (empty_batch j) item) _ e2 b2 ran in
      let step =
        apply_item-Stepped j config now e e1 (empty_batch j) b1 item r (refl, inl refl) refl
          first in
      let tail =
        run_from j config now s r more e1 e2 b1 b2 step.named step.checked
          (item_keeps j config now s e e1 (empty_batch j) b1 item first)
          (omega (arith, step.bounded, good.0.1)) (good.1) rest in
      let read = write_checkpoint-reads now s r e2 e' b2 b1 more result tail wrote in
      again_skips config later s (max r b2.result.last_applied_cursor) e' (item ∷ more) role read
        ((refl, good.0.0, omega (arith, step.seen, tail.grows)), tail.behind)
