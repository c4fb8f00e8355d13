-- ===== src/Thingdb/Tables/Deleted.antt =====
-- What a deletion in the log becomes when a database is opened on it.
use thingd.Base.{
  ℕ, Bytes, ◌≡◌, ◌∙◌, none, List, [], ◌∷◌, ◌++◌, arith, ==_refl, nat_ord, list_ord, pair_ord,
}
use thingd.Base.BTreeMap.{get, get-remove}
use thingd.Thingdb.Wal.{Operation, delete, State, absorb, apply_operation, apply_operations}
use thingd.Thingdb.Wal.Recovery.{Log}
use thingd.Thingdb.Keyspaces.{operation_key, operation_value}
use thingd.Thingdb.Tables.{
  Layer, read, layer_value, flat, get_durable_value, commit, open_locked, replayed, reopened,
}
use thingd.Thingdb.Tables.Session.{View, write_view, write_all}
use thingd.Thingdb.Tables.Commits.{write_all-append}
use thingd.Thingdb.Tables.Reopened.{commit_read}

get_deleted :
    (key : Bytes) (ops : List Operation) (state : State)
    → get key (apply_operations state (ops ++ delete key ∷ [])) ≡ none
unfolding apply_operations apply_operation
get_deleted key [] state = ground (arith, get-remove key key state, ==_refl key)
get_deleted key (op ∷ ops) state = get_deleted key ops (apply_operation state op)

write_view_deleted : (key : Bytes) (view : View) → write_view (delete key) view key ≡ none
unfolding operation_key operation_value
write_view_deleted key view = ground (arith, ==_refl key)

opened_absent :
    (tables : List Layer) (table_sequence : ℕ) (wal : Log) (key : Bytes)
    → get key (replayed table_sequence wal).state ≡ none
    → get_durable_value (open_locked tables table_sequence wal) key ≡ flat (layer_value key tables)
unfolding open_locked get_durable_value read get
opened_absent tables table_sequence wal key h = ground (arith, h)

-- A log whose only frame ends in the key's deletion sets the key to nothing.
replayed_deleted :
    (table_sequence sequence : ℕ) (ops : List Operation) (key : Bytes)
    → get key (replayed table_sequence ((sequence, ops ++ delete key ∷ []) ∷ [])).state ≡ none
unfolding replayed absorb get
replayed_deleted table_sequence sequence ops key = ground (arith, get_deleted key ops [])

-- Open a database on an empty log, and commit operations of which the last deletes a key. The key is
-- gone. Reopen the database with its tables and its log, the deletion's frame included: the key reads
-- as what the tables have.
pub open_locked_resurrects :
    (tables : List Layer) (table_sequence : ℕ) (ops : List Operation) (key : Bytes)
    → (get_durable_value
          (commit (ops ++ delete key ∷ []) (open_locked tables table_sequence []))
          key
        ≡ none)
      × (get_durable_value
            (reopened (commit (ops ++ delete key ∷ []) (open_locked tables table_sequence [])))
            key
          ≡ flat (layer_value key tables))
unfolding commit open_locked write_all
open_locked_resurrects tables table_sequence ops key =
    let inner = open_locked tables table_sequence [] in
    (
      commit_read (ops ++ delete key ∷ []) inner key
          ∙ write_all-append ops (delete key ∷ []) (get_durable_value inner) key
          ∙ write_view_deleted key (write_all ops (get_durable_value inner)),
      opened_absent tables table_sequence _ key (replayed_deleted table_sequence _ ops key),
    )
