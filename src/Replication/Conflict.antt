-- ===== src/Replication/Conflict.antt =====
-- An update of an object that replication has no provenance of is a conflict.
use thingd.Base.{
  ℕ, ◌≤◌, ◌<◌, Bytes, codes, ◌≡◌, refl, ap, Bool, true, false, ◌&&◌, none, some, [], ◌∷◌, arith,
  ltb, leb, u64_max, ==_refl, nat_ord, list_ord, pair_ord, In,
}
use thingd.Model.{ThingdResult, ThingdError, ok, err, conflict}
use thingd.Objects.{MemoryObject}
use thingd.Objects
use thingd.Objects.Others.{put_object-refused}
use thingd.Replication.{
  Json, and_then, provenance_collection, ReplicationConfig, is_source, allowed, Engine, metadata_id,
  get_object, ReplicationChange, put_object, text_member,
}
use thingd.Replication.Changes.{
  ReplicationApplyResult, ReplicationSnapshot, write_conflict, is_foreign, refuse_upsert,
  apply_object, apply_operation, nothing_applied,
}
use thingd.Replication.Replica.{
  is_duplicate, apply_new, enter, apply_item, apply_items, apply, empty_batch, Batch,
}
use thingd.Replication.Snapshot.{apply_snapshot}
use thingd.Replication.Bootstrap.{IsBootstrapped, apply_snapshot-IsBootstrapped}

and_then-err {ℓ κ ι} :
    {S : Type ℓ} {A : Type κ} {B : Type ι} (r : S × ThingdResult A)
    (next : S → A → S × ThingdResult B) (x : ThingdError)
    → r.1 ≡ err x
    → (and_then r next).1 ≡ err x
and_then-err (s, err y) next x h = cc
and_then-err (s, ok a) next x h = cc

module _ (j : Json) where
  -- The record of a conflict is written, or refused by a unique index: a conflict in either case.
  put_object-then :
      {A : Type 0} (e : Engine) (object : MemoryObject) (now : Bytes)
      (next : Engine → Unit {0} → Engine × ThingdResult A)
      → ((e' : Engine) (done : Unit {0}) → (next e' done).1 ≡ err conflict)
      → (and_then (put_object j e object now) next).1 ≡ err conflict
  unfolding put_object
  put_object-then {A} e object now next h =
      refused_in (Objects.put_object j.indexed j.value_eq e.store object now)
        (put_object-refused j.indexed j.value_eq e.store object now)
    where
      refused_in :
          (r : Objects.ObjectStore × ThingdResult MemoryObject)
          → ((x : ThingdError) → r.1 ≡ err x → x ≡ conflict)
          → ◌≡◌ {A = ThingdResult A}
              (and_then
                (record e { store = r.0 }, elim r.1 [ ok stored ↦ ok tt | err x ↦ err x ])
                next).1
              (err conflict)
      refused_in (store, err x) f = ap err (f x refl)
      refused_in (store, ok stored) f = h (record e { store = store }) tt

  refuse_upsert-conflict :
      (e : Engine) (item : ReplicationChange j) (c id now : Bytes)
      → (refuse_upsert j e item c id now).1 ≡ err conflict
  unfolding refuse_upsert write_conflict
  refuse_upsert-conflict e item c id now = put_object-then e _ now _ (λ e' done. refl)

  -- An upsert of the object, as a change of the source.
  pub record IsUpsert (item : ReplicationChange j) (c id : Bytes) : Type 0 where
    pub operation : text_member j (codes "operation") item.change ≡ some (codes "object.upsert")
    pub collection : text_member j (codes "collection") item.change ≡ some c
    pub identifier : text_member j (codes "id") item.change ≡ some id

  foreign_conflict :
      (e : Engine) (item : ReplicationChange j) (c id now : Bytes) (cursor : ℕ)
      → IsBootstrapped j e item.source_id c id cursor
      → text_member j (codes "id") item.change ≡ some id
      → (apply_object j e item (some c) now).1 ≡ err conflict
  unfolding apply_object is_foreign
  foreign_conflict e item c id now cursor b named =
      rw (named, apply_object, b.held, b.unproven) (refuse_upsert-conflict e item c id now)

  apply_new-conflict :
      (config : ReplicationConfig) (now : Bytes) (e : Engine) (batch : Batch j)
      (item : ReplicationChange j) (c id : Bytes) (cursor : ℕ)
      → IsBootstrapped j e item.source_id c id cursor
      → IsUpsert item c id
      → allowed config c ≡ true
      → (apply_new j config now e batch item).1 ≡ err conflict
  unfolding apply_new apply_operation
  apply_new-conflict config now e batch item c id cursor b u a =
      rw (u.operation, apply_new, u.collection, a, ==_refl (codes "object.upsert"))
        (and_then-err (apply_object j e item (some c) now) _ conflict
          (foreign_conflict e item c id now cursor b u.identifier))

  -- A replica takes a snapshot of a source, and had no provenance of one of the snapshot's
  -- replicated objects. The source's next update of that object is then refused as a conflict,
  -- although the object is the source's own: a snapshot leaves no provenance.
  pub apply_snapshot-apply :
      (config : ReplicationConfig) (now later : Bytes) (replace : Bool) (e e' : Engine)
      (snapshot : ReplicationSnapshot j) (result : ReplicationApplyResult) (object : MemoryObject)
      (item : ReplicationChange j)
      → apply_snapshot j config now replace e snapshot ≡ (e', ok result)
      → In object snapshot.objects
      → allowed config object.key.0 ≡ true
      → is_source config.role ≡ false
      → snapshot.cursor ≤ u64_max
      → get_object e provenance_collection
          (metadata_id snapshot.source_id object.key.0 object.key.1)
        ≡ none
      → item.source_id ≡ snapshot.source_id
      → snapshot.cursor < item.cursor
      → IsUpsert item object.key.0 object.key.1
      → (apply j config later e' (item ∷ [])).1 ≡ err conflict
  unfolding apply apply_items apply_item is_duplicate enter
  apply_snapshot-apply config now later replace e e' snapshot result object item h i a role small
        gone same newer u =
      let b =
        apply_snapshot-IsBootstrapped j config now replace e e' snapshot result object h i a small
          gone in
      let b_item : IsBootstrapped j e' item.source_id object.key.0 object.key.1 snapshot.cursor =
        (rw same b) in
      let fresh : leb item.cursor snapshot.cursor ≡ false = ground arith in
      let not_seen : ltb 0 item.cursor && leb item.cursor snapshot.cursor ≡ false =
        ground (arith, fresh) in
      let refused =
        apply_new-conflict config later e'
          (record {
            source_id = some item.source_id;
            checkpoint = snapshot.cursor;
            result = nothing_applied;
          })
          item object.key.0 object.key.1 snapshot.cursor b_item u a in
      rw role (
        and_then-err (apply_items j config later e' (empty_batch j) (item ∷ [])) _ conflict (
          and_then-err (apply_item j config later e' (empty_batch j) item) _ conflict
            (rw (b_item.reads, not_seen) refused)))
