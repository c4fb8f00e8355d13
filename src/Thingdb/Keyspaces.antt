-- ===== src/Thingdb/Keyspaces.antt =====
-- Batches, and how the in-memory mode and the durable mode apply them (crates/thingdb/src/lib.rs).
-- Whether a name is valid UTF-8 is decided by the standard library, a parameter.
pub mod Modes
pub mod Pending
mod Tests
use mathlib.Core.Option
use thingd.Base.{
  ℕ, zero, suc, ◌+◌, ◌-◌, ◌*◌, ◌/◌, ◌%◌, ◌^◌, ◌≤◌, ◌<◌, min, max, Bytes, codes, ◌≡◌, refl, sym, ap,
  ◌∙◌, ◌≢◌, ◌↔◌, ◌⊎◌, inl, inr, Bool, true, false, not, ◌&&◌, ◌||◌, Option, none, some, List, [],
  ◌∷◌, ◌++◌, map, arith, ltb, leb, nat_beq, ltb→lt, lt→ltb, leb→le, le→leb, Bool-cases,
  Option-cases, if◌then◌else◌, u32_max, u64_max, i64_max, sat_add, Ord, ◌==◌, ◌<?◌, ==_iff, ==_refl,
  nat_ord, list_ord, pair_ord, list_beq, list_blt, length, take, drop, find, any, all, filter,
  last?, All, In, Empty, update_find, find-test, find-In, find-none-In, length-append, length-take,
  length-drop, take-append, drop-append, length-filter-le, contains, starts_with,
  starts_with-append,
}
use thingd.Base.BTreeMap.{BTreeMap, get, insert, remove}
use thingd.Thingdb.Codec.{
  Result, ok, err, ◌>>=◌, ◌>>◌, ensure, invalid_memory_key, invalid_memory_keyspace,
}
use thingd.Thingdb.Wal.{Operation, put, delete, State, apply_operation}
use thingd.Thingdb.Keys.{physical_key, namespace, physical_key_from_namespace}

pub record BatchOperation : Type 0 where
  pub keyspace : Bytes
  pub key : Bytes
  pub value : Option Bytes

abbrev pub Batch : Type 0
Batch = List BatchOperation

-- The name check of `Database::keyspace`.
unfoldable pub is_keyspace_name : Bytes → Bool
is_keyspace_name [] = false
is_keyspace_name (b ∷ bs) = not (contains 0 (b ∷ bs))

unfoldable pub batch_key : Bool → Bytes → Bytes → Bytes
batch_key memory_mode name key =
    if memory_mode then key else physical_key_from_namespace (namespace name) key

unfoldable pub batch_put : Bool → Batch → Bytes → Bytes → Bytes → Batch
batch_put memory_mode batch name key value =
    batch
    ++ (record { keyspace = name; key = batch_key memory_mode name key; value = some value }) ∷ []

unfoldable pub batch_delete : Bool → Batch → Bytes → Bytes → Batch
batch_delete memory_mode batch name key =
    batch ++ (record { keyspace = name; key = batch_key memory_mode name key; value = none }) ∷ []

abbrev pub Keyspaces : Type 0
Keyspaces = BTreeMap Bytes State

-- `entry(name).or_default()`, and `get` of a keyspace
unfoldable pub entries_of : Keyspaces → Bytes → State
entries_of keyspaces name = elim (get name keyspaces) [ none ↦ [] | some entries ↦ entries ]

unfoldable pub write_entry : State → Bytes → Option Bytes → State
write_entry entries key (some value) = insert key value entries
write_entry entries key none = remove key entries

unfoldable pub validate_memory_batch_operation : BatchOperation → Result (Unit {0})
validate_memory_batch_operation operation =
    ensure (is_keyspace_name operation.keyspace) invalid_memory_keyspace

unfoldable pub apply_memory_batch_operation : Keyspaces → BatchOperation → Keyspaces
apply_memory_batch_operation keyspaces operation =
    insert operation.keyspace
      (write_entry (entries_of keyspaces operation.keyspace) operation.key operation.value)
      keyspaces

unfoldable pub validate_all : Batch → Result (Unit {0})
validate_all [] = ok tt
validate_all (operation ∷ batch) = validate_memory_batch_operation operation >> validate_all batch

unfoldable pub apply_all : Keyspaces → Batch → Keyspaces
apply_all keyspaces [] = keyspaces
apply_all keyspaces (operation ∷ batch) =
    apply_all (apply_memory_batch_operation keyspaces operation) batch

-- `commit_batch` in memory: every operation is validated before the first is applied.
unfoldable pub commit_memory : Keyspaces → Batch → Result Keyspaces
commit_memory keyspaces batch = do validate_all batch; ok (apply_all keyspaces batch)

-- `commit_batch` of a durable database: what goes to the log.
unfoldable pub to_operation : BatchOperation → Operation
to_operation operation = elim operation.value [
  | some value ↦ put operation.key value
  | none ↦ delete operation.key
]

-- `position` of the first NUL: what stands before it and behind it.
unfoldable pub split_nul : Bytes → Option (Bytes × Bytes)
split_nul [] = none
split_nul (b ∷ bs) =
    let rest = split_nul bs in
    if b == 0 then some ([], bs) else Option.map (λ p. (b ∷ p.0, p.1)) rest

unfoldable pub operation_key : Operation → Bytes
operation_key (put key value) = key
operation_key (delete key) = key

unfoldable pub operation_value : Operation → Option Bytes
operation_value (put key value) = some value
operation_value (delete key) = none

module _ (from_utf8 : Bytes → Bool) where
  unfoldable pub split_key : Bytes → Result (Bytes × Bytes)
  split_key key = elim (split_nul key) [
    | none ↦ err invalid_memory_key
    | some (name, user_key) ↦
        if from_utf8 name then ok (name, user_key) else err invalid_memory_keyspace
  ]

  unfoldable pub validate_memory_operation : Operation → Result (Unit {0})
  validate_memory_operation operation = do parts ← split_key (operation_key operation); ok tt

  unfoldable pub apply_memory_operation : Keyspaces → Operation → Result Keyspaces
  apply_memory_operation keyspaces operation = do
    (name, user_key) ← split_key (operation_key operation)
    ok (
        insert name (write_entry (entries_of keyspaces name) user_key (operation_value operation))
          keyspaces)

-- The table's state, what is to be written to the next table, and its size.
pub record PendingTable : Type 0 where
  pub state : State
  pub pending : BTreeMap Bytes (Option Bytes)
  pub pending_bytes : ℕ

unfoldable pub value_bytes : Option Bytes → ℕ
value_bytes none = 0
value_bytes (some value) = length value

unfoldable pub entry_bytes : Bytes → Option Bytes → ℕ
entry_bytes key value = sat_add u64_max (sat_add u64_max (length key) 1) (value_bytes value)

unfoldable pub replaced_bytes : Bytes → Option (Option Bytes) → ℕ
replaced_bytes key none = 0
replaced_bytes key (some previous) = entry_bytes key previous

unfoldable pub apply_operation_with_pending : PendingTable → Operation → PendingTable
apply_operation_with_pending p operation =
    let key = operation_key operation in
    let value = operation_value operation in
    record {
      state = write_entry p.state key value;
      pending = insert key value p.pending;
      pending_bytes =
          sat_add u64_max (p.pending_bytes - replaced_bytes key (get key p.pending))
            (entry_bytes key value);
    }
