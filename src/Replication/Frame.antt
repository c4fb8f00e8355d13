-- ===== src/Replication/Frame.antt =====
-- What a replica's apply leaves alone.
use thingd.Base.{
  ℕ, Bytes, codes, ◌≡◌, refl, ap, ◌∙◌, inl, inr, true, false, Option, none, some, List, [], ◌∷◌,
  arith, ltb, Bool-cases, Option-cases, ◌==◌, ==_iff, nat_ord, list_ord, pair_ord, pair_beq,
}
use thingd.Base.BTreeMap.{get}
use thingd.Model.{MemoryEvent, ThingdResult, ok, err}
use thingd.Objects.{ObjectKey, MemoryObject}
use thingd.Objects.Others.{
  delete_object-other, put_object-other, put_object_with_source_metadata-other,
}
use thingd.Replication.{
  Json, and_then, ok_or, state_collection, provenance_collection, tombstone_collection,
  quarantine_collection, ReplicationConfig, is_source, allowed, Engine, new_object, append_event,
  delete_object, ReplicationChange, put_object, put_with_source, text_member,
}
use thingd.Replication.Changes.{
  write_applied_cursor, write_provenance, write_conflict, payload_object, is_foreign, refuse_upsert,
  upsert, apply_object, write_tombstone, apply_delete, apply_event, apply_operation,
}
use thingd.Replication.Replica.{
  Batch, is_other, is_filtered, is_duplicate, apply_new, enter, apply_item, apply_items,
  write_checkpoint, apply, empty_batch,
}

abbrev pub Keeps : ObjectKey → Engine → Engine → Type 0
Keeps key e e' = get key e'.store.objects ≡ get key e.store.objects

-- A collection that replication does not write: not replicated, and none of its own three.
pub record IsAside (config : ReplicationConfig) (collection : Bytes) : Type 0 where
  pub not_allowed : allowed config collection ≡ false
  pub not_provenance : (provenance_collection == collection) ≡ false
  pub not_tombstone : (tombstone_collection == collection) ≡ false
  pub not_quarantine : (quarantine_collection == collection) ≡ false

pub key_apart :
    (c id : Bytes) (key : ObjectKey)
    → (c == key.0) ≡ false
    → ◌==◌ {A = ObjectKey} (c, id) key ≡ false
unfolding pair_beq
key_apart c id (d, i) h = ground (arith, h)

pub allowed_apart :
    (config : ReplicationConfig) (c d : Bytes)
    → allowed config c ≡ true
    → allowed config d ≡ false
    → (c == d) ≡ false
allowed_apart config c d a b = elim (Bool-cases (c == d)) [
  | inr e ↦ e
  | inl e ↦ let same = ap (allowed config) ((==_iff c d).0 e) in ground (arith, same, a, b)
]

-- The first part of `?` keeps what the second keeps.
pub and_then-Keeps {ℓ κ} :
    {A : Type ℓ} {B : Type κ} (key : ObjectKey) (e : Engine) (r : Engine × ThingdResult A)
    (next : Engine → A → Engine × ThingdResult B)
    → Keeps key e r.0
    → ((e' : Engine) (a : A) → Keeps key e' (next e' a).0)
    → Keeps key e (and_then r next).0
and_then-Keeps key e (e', err x) next h k = h
and_then-Keeps key e (e', ok a) next h k = k e' a ∙ h

ok_or-Keeps {ℓ κ} :
    {A : Type ℓ} {B : Type κ} (key : ObjectKey) (e : Engine) (o : Option A)
    (next : A → Engine × ThingdResult B)
    → ((a : A) → o ≡ some a → Keeps key e (next a).0)
    → Keeps key e (ok_or e o next).0
ok_or-Keeps key e none next h = refl
ok_or-Keeps key e (some a) next h = h a refl

pub append_event-Keeps :
    (key : ObjectKey) (e : Engine) (event : MemoryEvent) (now : Bytes)
    → Keeps key e (append_event e event now).0
unfolding append_event
append_event-Keeps key e event now = refl

module _ (j : Json) where
  pub put_object-Keeps :
      (key : ObjectKey) (e : Engine) (object : MemoryObject) (now : Bytes)
      → (object.key == key) ≡ false
      → Keeps key e (put_object j e object now).0
  unfolding put_object
  put_object-Keeps key e object now apart =
      put_object-other j.indexed j.value_eq e.store object now key apart

  pub put_with_source-Keeps :
      (key : ObjectKey) (e : Engine) (object : MemoryObject) (expected : Option ℕ) (now : Bytes)
      → (object.key == key) ≡ false
      → Keeps key e (put_with_source j e object expected now).0
  unfolding put_with_source
  put_with_source-Keeps key e object expected now apart =
      put_object_with_source_metadata-other j.indexed j.value_eq e.store object _ now key apart

  module _ (config : ReplicationConfig) (key : ObjectKey) (aside : IsAside config key.0) where
    upsert-Keeps :
        (e : Engine) (item : ReplicationChange j) (c id : Bytes) (payload : j.Value) (now : Bytes)
        → allowed config c ≡ true
        → Keeps key e (upsert j e item c id payload now).0
    unfolding upsert payload_object write_provenance new_object
    upsert-Keeps e item c id payload now a =
        and_then-Keeps key e _ _
          (put_with_source-Keeps key e (payload_object j c id payload) _ now
            (key_apart c id key (allowed_apart config c key.0 a aside.not_allowed)))
          (λ e' done. put_object-Keeps key e' _ now (key_apart _ _ key aside.not_provenance))

    refuse_upsert-Keeps :
        (e : Engine) (item : ReplicationChange j) (c id now : Bytes)
        → Keeps key e (refuse_upsert j e item c id now).0
    unfolding refuse_upsert write_conflict new_object
    refuse_upsert-Keeps e item c id now =
        and_then-Keeps key e _ _
          (put_object-Keeps key e _ now (key_apart _ _ key aside.not_quarantine)) (λ e' done. refl)

    apply_object-Keeps :
        (e : Engine) (item : ReplicationChange j) (collection : Option Bytes) (now : Bytes)
        → is_filtered j config collection ≡ false
        → Keeps key e (apply_object j e item collection now).0
    unfolding apply_object
    apply_object-Keeps e item none now f = refl
    apply_object-Keeps e item (some c) now f =
        ok_or-Keeps key e (text_member j (codes "id") item.change) _ λ id found.
          elim (Bool-cases (is_foreign j e item.source_id c id)) [
            | inl y ↦ rw y (refuse_upsert-Keeps e item c id now)
            | inr y ↦ rw y (upsert-Keeps e item c id _ now (ground (arith, f)))
          ]

    apply_delete-Keeps :
        (e : Engine) (item : ReplicationChange j) (collection : Option Bytes) (now : Bytes)
        → is_filtered j config collection ≡ false
        → Keeps key e (apply_delete j e item collection now).0
    unfolding apply_delete write_tombstone new_object delete_object
    apply_delete-Keeps e item none now f = refl
    apply_delete-Keeps e item (some c) now f =
        ok_or-Keeps key e (text_member j (codes "id") item.change) _ λ id found.
          put_object-Keeps key (delete_object e c id) _ now (key_apart _ _ key aside.not_tombstone)
          ∙ delete_object-other e.store c id key (
              key_apart c id key
                (allowed_apart config c key.0 (ground (arith, f)) aside.not_allowed))

    apply_event-Keeps :
        (e : Engine) (item : ReplicationChange j) (now : Bytes)
        → Keeps key e (apply_event j e item now).0
    unfolding apply_event
    apply_event-Keeps e item now =
        ok_or-Keeps key e (j.member (codes "payload") item.change) _ λ payload p.
          ok_or-Keeps key e (text_member j (codes "stream") payload) _ λ stream s.
            ok_or-Keeps key e (text_member j (codes "type") payload) _
              λ event_type t. append_event-Keeps key e _ now

    apply_operation-Keeps :
        (e : Engine) (item : ReplicationChange j) (operation : Bytes) (collection : Option Bytes)
        (now : Bytes)
        → is_filtered j config collection ≡ false
        → Keeps key e (apply_operation j e item operation collection now).0
    unfolding apply_operation
    apply_operation-Keeps e item operation collection now f =
        elim (Bool-cases (operation == codes "object.upsert")) [
          | inl y ↦ rw y (apply_object-Keeps e item collection now f)
          | inr y ↦ elim (Bool-cases (operation == codes "object.delete")) [
            | inl z ↦ rw (y, z) (apply_delete-Keeps e item collection now f)
            | inr z ↦ elim (Bool-cases (operation == codes "event.append")) [
              | inl w ↦ rw (y, z, w) (apply_event-Keeps e item now)
              | inr w ↦ rw (y, z, w) refl
            ]
          ]
        ]

    apply_new-Keeps :
        (now : Bytes) (e : Engine) (b : Batch j) (item : ReplicationChange j)
        → Keeps key e (apply_new j config now e b item).0
    unfolding apply_new
    apply_new-Keeps now e b item =
        ok_or-Keeps key e (text_member j (codes "operation") item.change) _ λ operation found.
          elim (Bool-cases
            (is_filtered j config (text_member j (codes "collection") item.change))) [
              | inl y ↦ rw y refl
              | inr y ↦ rw y (
                  and_then-Keeps key e _ _ (apply_operation-Keeps e item operation _ now y)
                    (λ e' done. refl))
            ]

    pub apply_item-Keeps :
        (now : Bytes) (e : Engine) (b : Batch j) (item : ReplicationChange j)
        → Keeps key e (apply_item j config now e b item).0
    unfolding apply_item
    apply_item-Keeps now e b item = elim (Bool-cases (is_other j b.source_id item.source_id)) [
      | inl y ↦ rw y refl
      | inr y ↦ elim (Bool-cases (is_duplicate j (enter j e b item) item)) [
        | inl z ↦ rw (y, z) refl
        | inr z ↦ rw (y, z) (apply_new-Keeps now e (enter j e b item) item)
      ]
    ]

    apply_items-Keeps :
        (now : Bytes) (e : Engine) (b : Batch j) (items : List (ReplicationChange j))
        → Keeps key e (apply_items j config now e b items).0
    unfolding apply_items
    apply_items-Keeps now e b [] = refl
    apply_items-Keeps now e b (item ∷ more) =
        and_then-Keeps key e (apply_item j config now e b item) _ (apply_item-Keeps now e b item)
          (λ e' b'. apply_items-Keeps now e' b' more)

    write_checkpoint-Keeps :
        (now : Bytes) (e : Engine) (b : Batch j)
        → (state_collection == key.0) ≡ false
        → Keeps key e (write_checkpoint j now e b).0
    unfolding write_checkpoint write_applied_cursor new_object
    write_checkpoint-Keeps now e b apart = elim (Option-cases b.source_id) [
      | inl none_yet ↦ rw (none_yet, write_checkpoint) refl
      | inr (s, named) ↦ elim (Bool-cases (ltb b.checkpoint b.result.last_applied_cursor)) [
        | inr y ↦ rw (named, write_checkpoint, y) refl
        | inl y ↦
            rw (named, write_checkpoint, y)
              (and_then-Keeps key e (write_applied_cursor j e s b.result.last_applied_cursor now) _
                (put_object-Keeps key e _ now (key_apart _ _ key apart)) (λ e' done. refl))
      ]
    ]

  -- An apply, whether it succeeds, fails or stops half-way in a conflict, changes no object outside
  -- the replicated collections and the four that keep the state of replication.
  pub apply-Keeps :
      (config : ReplicationConfig) (now : Bytes) (e : Engine) (changes : List (ReplicationChange j))
      (key : ObjectKey)
      → IsAside config key.0
      → (state_collection == key.0) ≡ false
      → get key (apply j config now e changes).0.store.objects ≡ get key e.store.objects
  unfolding apply
  apply-Keeps config now e changes key aside apart = elim (Bool-cases (is_source config.role)) [
    | inl y ↦ rw y refl
    | inr y ↦ rw y (
        and_then-Keeps key e (apply_items j config now e (empty_batch j) changes) _
          (apply_items-Keeps config key aside now e (empty_batch j) changes)
          (λ e' b. write_checkpoint-Keeps config key aside now e' b apart))
  ]
