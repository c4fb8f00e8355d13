-- ===== src/Replication.antt =====
-- Replication between two engines (crates/thingd/src/replication.rs), over the in-memory engine.
-- JSON values are those of the serde_json crate, a parameter. The writes of one call read the same
-- time, its argument `now`.
use thingd.Base.{
  ℕ, zero, suc, ◌+◌, ◌-◌, ◌*◌, ◌/◌, ◌%◌, ◌^◌, ◌≤◌, ◌<◌, min, max, Bytes, codes, ◌≡◌, refl, sym, ap,
  ◌∙◌, ◌≢◌, ◌↔◌, ◌⊎◌, inl, inr, Bool, true, false, not, ◌&&◌, ◌||◌, Option, none, some, List, [],
  ◌∷◌, ◌++◌, map, arith, ltb, leb, nat_beq, ltb→lt, lt→ltb, leb→le, le→leb, Bool-cases,
  Option-cases, if◌then◌else◌, u32_max, u64_max, i64_max, sat_add, Ord, ◌==◌, ◌<?◌, ==_iff, ==_refl,
  nat_ord, list_ord, pair_ord, list_beq, list_blt, length, take, drop, find, any, all, filter,
  last?, All, In, Empty, update_find, find-test, find-In, find-none-In, length-append, length-take,
  length-drop, take-append, drop-append, length-filter-le, contains, starts_with,
  starts_with-append,
}
use thingd.Base.BTreeMap.{values}
use thingd.Model.{MemoryEvent, ThingdResult, ok, err, conflict, invalid_input}
use thingd.Events.{EventLog}
use thingd.Objects.{ObjectStore, MemoryObject, PutObjectOptions}
use thingd.Events
use thingd.Objects
pub mod Source
pub mod Changes
pub mod Replica
pub mod Snapshot
pub mod Status
mod Feed
mod Frame
mod Checkpoint
mod Run
mod Again
mod Stored
mod Bootstrap
mod Conflict
mod Tests

-- What replication and the engine use of serde_json. `member` is `get` on a value, and `json!` makes
-- objects of named members; `decimal` is the standard library's form of a number. `indexed` and `value_eq` are what the unique indexes of the engine read.
pub record Json : Type 1 where
  pub Value : Type 0
  pub from_str : Bytes → Option Value
  pub to_string : Value → Bytes
  pub member : Bytes → Value → Option Value
  pub as_str : Value → Option Bytes
  pub as_u64 : Value → Option ℕ
  pub null : Value
  pub text : Bytes → Value
  pub number : ℕ → Value
  pub boolean : Bool → Value
  pub object : List (Bytes × Value) → Value
  pub decimal : ℕ → Bytes
  pub indexed : Bytes → Bytes → Option Value
  pub value_eq : Value → Value → Bool
  pub from_str-to_string : (v : Value) → from_str (to_string v) ≡ some v
  pub member-second :
      (a b : Bytes) (v w : Value)
      → (a == b) ≡ false
      → member b (object ((a, v) ∷ (b, w) ∷ [])) ≡ some w
  pub as_u64-number : (n : ℕ) → n ≤ u64_max → as_u64 (number n) ≡ some n

-- `?` on a call that changes the engine.
abbrev pub and_then {ℓ κ ι} :
    {S : Type ℓ} {A : Type κ} {B : Type ι}
    → S × ThingdResult A
    → (S → A → S × ThingdResult B)
    → S × ThingdResult B
and_then (s, err e) next = (s, err e)
and_then (s, ok a) next = next s a

abbrev pub ok_or {ℓ κ ι} :
    {S : Type ℓ} {A : Type κ} {B : Type ι}
    → S
    → Option A
    → (A → S × ThingdResult B)
    → S × ThingdResult B
ok_or s none next = (s, err invalid_input)
ok_or s (some a) next = next a

abbrev pub replication_stream : Bytes
replication_stream = codes "__thingd:system:replication"

abbrev pub state_collection : Bytes
state_collection = codes "__thingd:sync_state"

abbrev pub provenance_collection : Bytes
provenance_collection = codes "__thingd:sync_provenance"

abbrev pub tombstone_collection : Bytes
tombstone_collection = codes "__thingd:sync_tombstones"

abbrev pub quarantine_collection : Bytes
quarantine_collection = codes "__thingd:sync_conflicts"

pub data ReplicationRole : Type 0 where
  source replica : ReplicationRole

pub record ReplicationConfig : Type 0 where
  pub source_id : Bytes
  pub role : ReplicationRole
  pub collections : List Bytes

abbrev pub is_source : ReplicationRole → Bool
is_source source = true
is_source replica = false

abbrev pub has_none : List Bytes → Bool
has_none [] = true
has_none (c ∷ cs) = false

unfoldable pub is_system : Bytes → Bool
is_system name = starts_with name (codes "__thingd")

unfoldable pub allowed : ReplicationConfig → Bytes → Bool
allowed config collection =
    not (is_system collection)
    && (has_none config.collections || contains collection config.collections)

-- The parts of `MemoryEngine` that replication works on.
pub record Engine : Type 0 where
  pub store : ObjectStore
  pub log : EventLog

-- `MemoryObject::new`
unfoldable pub new_object : Bytes → Bytes → Bytes → MemoryObject
new_object collection id body = record {
  key = (collection, id);
  body = body;
  version = 0;
  created_at = [];
  updated_at = [];
  vector = none;
}

abbrev pub colon : Bytes
colon = codes ":"

unfoldable pub metadata_id : Bytes → Bytes → Bytes → Bytes
metadata_id source_id collection id = source_id ++ colon ++ collection ++ colon ++ id

unfoldable pub append_event : Engine → MemoryEvent → Bytes → Engine × ThingdResult (Unit {0})
append_event e event now =
    let (log, result) = Events.append_event e.log event now in
    (record e { log = log }, elim result [ ok stored ↦ ok tt | err x ↦ err x ])

unfoldable pub get_object : Engine → Bytes → Bytes → Option MemoryObject
get_object e collection id = Objects.get_object e.store collection id

unfoldable pub delete_object : Engine → Bytes → Bytes → Engine
delete_object e collection id = record e { store = (Objects.delete_object e.store collection id).0 }

-- `list_objects` of every collection, with nothing but a limit.
unfoldable pub list_objects : Engine → ℕ → List MemoryObject
list_objects e limit = take limit (values e.store.objects)

module _ (j : Json) where
  pub record ReplicationChange : Type 0 where
    pub source_id : Bytes
    pub cursor : ℕ
    pub idempotency_key : Bytes
    pub change : j.Value

  unfoldable pub put_object : Engine → MemoryObject → Bytes → Engine × ThingdResult (Unit {0})
  put_object e object now =
      let (store, result) = Objects.put_object j.indexed j.value_eq e.store object now in
      (record e { store = store }, elim result [ ok stored ↦ ok tt | err x ↦ err x ])

  unfoldable pub put_with_source :
      Engine → MemoryObject → Option ℕ → Bytes → Engine × ThingdResult (Unit {0})
  put_with_source e object expected now =
      let (store, result) =
        Objects.put_object_with_source_metadata j.indexed j.value_eq e.store object
          (record { index = true; expected_version = expected }) now in
      (record e { store = store }, elim result [ ok stored ↦ ok tt | err x ↦ err x ])

  -- `get(..).and_then(Value::as_str)`, and the others.
  unfoldable pub text_member : Bytes → j.Value → Option Bytes
  text_member name v = elim (j.member name v) [ none ↦ none | some w ↦ j.as_str w ]

  unfoldable pub u64_member : Bytes → j.Value → Option ℕ
  u64_member name v = elim (j.member name v) [ none ↦ none | some w ↦ j.as_u64 w ]

  unfoldable pub member_or_null : Bytes → j.Value → j.Value
  member_or_null name v = elim (j.member name v) [ none ↦ j.null | some w ↦ w ]

  unfoldable pub text_or_empty : Bytes → j.Value → Bytes
  text_or_empty name v = elim (text_member name v) [ none ↦ [] | some s ↦ s ]

  unfoldable pub u64_or_zero : Bytes → j.Value → ℕ
  u64_or_zero name v = elim (u64_member name v) [ none ↦ 0 | some n ↦ n ]

  unfoldable pub parse_or_null : Bytes → j.Value
  parse_or_null body = elim (j.from_str body) [ none ↦ j.null | some v ↦ v ]
