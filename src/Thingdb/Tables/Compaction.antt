-- ===== src/Thingdb/Tables/Compaction.antt =====
-- A compaction changes no read, and neither does a reopening after it.
use thingd.Base.{
  Bytes, ◌≡◌, refl, ◌∙◌, Bool, true, false, Option, none, some, List, [], ◌∷◌, nat_ord, list_ord,
  pair_ord,
}
use thingd.Base.BTreeMap.{get, insert, IsSorted, Above, insert-IsSorted, remove-IsSorted}
use thingd.Thingdb.Codec.{Result}
use thingd.Thingdb.Wal.{State}
use thingd.Thingdb.Keyspaces.{PendingTable, write_entry}
use thingd.Thingdb.Tables.{
  Layer, Inner, Fault, no_fault, unpublished, unrecorded, unread, untruncated, unsynced, written,
  no_pending, name_tables, layer_value, flat, get_durable_value, read, materialize_state,
  add_entries, add_layers, add_values, present, publish, load, truncate, guarded, compacted,
  compact_tables,
}
use thingd.Thingdb.Tables.Merge.{AreKept, IsKept, get-materialize_state, get-present}

merged_read :
    (inner : Inner) (key : Bytes)
    → IsKept inner
    → flat (layer_value key (present (materialize_state inner) ∷ [])) ≡ get_durable_value inner key
unfolding layer_value
merged_read inner key kept =
    get-present key (materialize_state inner) ∙ get-materialize_state inner key kept

-- A call that is refused changes nothing.
pub guarded_either {ℓ} :
    (P : Inner → Type ℓ) (b : Bool) (inner : Inner) (written : Inner × Result (Unit {0}))
    → P inner
    → P written.0
    → P (guarded b inner written).0
unfolding guarded
guarded_either P true inner written p q = p
guarded_either P false inner written p q = q

-- What holds of the engine before, and of it with new layers and either table, holds wherever the
-- files fail. `P` looks at the table and the layers.
pub written_either {ℓ} :
    (P : PendingTable → List Layer → Type ℓ) (fault : Fault) (files layers : List Layer)
    (done failed : PendingTable) (inner : Inner)
    → P inner.table inner.layers
    → P done layers
    → P failed layers
    → P
        (written fault files layers done failed inner).table
        (written fault files layers done failed inner).layers
unfolding written publish name_tables load truncate
written_either P no_fault files layers done failed inner p d f = d
written_either P unpublished files layers done failed inner p d f = p
written_either P unrecorded files layers done failed inner p d f = p
written_either P unread files layers done failed inner p d f = p
written_either P untruncated files layers done failed inner p d f = f
written_either P unsynced files layers done failed inner p d f = f

compacted-get :
    (fault : Fault) (inner : Inner) (key : Bytes)
    → IsKept inner
    → get_durable_value (compacted fault inner) key ≡ get_durable_value inner key
unfolding compacted get_durable_value read get
compacted-get fault inner key kept =
    let merged = merged_read inner key kept in
    written_either (λ table layers. read table layers key ≡ get_durable_value inner key) fault _ _ _
      _ inner refl merged merged

-- Reads after a compaction, whether it is done, refused, or stopped at any point by a failing file,
-- are the reads before it.
pub compact_tables-get :
    (fault : Fault) (inner : Inner) (key : Bytes)
    → IsKept inner
    → get_durable_value (compact_tables fault inner).0 key ≡ get_durable_value inner key
unfolding compact_tables
compact_tables-get fault inner key kept =
    guarded_either (λ x. get_durable_value x key ≡ get_durable_value inner key)
      inner.recovery_required inner _ refl (compacted-get fault inner key kept)

pub write_entry-IsSorted :
    (state : State) (key : Bytes) (value : Option Bytes)
    → IsSorted state
    → IsSorted (write_entry state key value)
unfolding write_entry
write_entry-IsSorted state key (some value) s = insert-IsSorted key value state s
write_entry-IsSorted state key none s = remove-IsSorted key state s

add_entries-IsSorted :
    (entries : Layer) (state : State) → IsSorted state → IsSorted (add_entries entries state)
unfolding add_entries
add_entries-IsSorted [] state s = s
add_entries-IsSorted ((k, v) ∷ entries) state s =
    add_entries-IsSorted entries (write_entry state k v) (write_entry-IsSorted state k v s)

add_layers-IsSorted :
    (layers : List Layer) (state : State) → IsSorted state → IsSorted (add_layers layers state)
unfolding add_layers
add_layers-IsSorted [] state s = s
add_layers-IsSorted (layer ∷ layers) state s =
    add_layers-IsSorted layers (add_entries layer state) (add_entries-IsSorted layer state s)

add_values-IsSorted : (values state : State) → IsSorted state → IsSorted (add_values values state)
unfolding add_values
add_values-IsSorted [] state s = s
add_values-IsSorted ((k, v) ∷ values) state s =
    add_values-IsSorted values (insert k v state) (insert-IsSorted k v state s)

present-Above : (k : Bytes) (state : State) → Above k state → Above k (present state)
unfolding present
present-Above k [] a = tt
present-Above k ((j, v) ∷ state) a = (a.0, present-Above k state (a.1))

present-IsSorted : (state : State) → IsSorted state → IsSorted (present state)
unfolding present
present-IsSorted [] s = tt
present-IsSorted ((k, v) ∷ state) s = (present-Above k state (s.0), present-IsSorted state (s.1))

merged-IsSorted : (inner : Inner) → IsSorted (present (materialize_state inner))
unfolding materialize_state
merged-IsSorted inner = present-IsSorted (materialize_state inner) (
    add_entries-IsSorted inner.table.pending _
      (add_values-IsSorted inner.table.state _ (add_layers-IsSorted inner.layers [] tt)))

pub compacted-IsKept :
    (fault : Fault) (inner : Inner) → IsKept inner → IsKept (compacted fault inner)
unfolding compacted
compacted-IsKept fault inner kept =
    let merged : AreKept no_pending (present (materialize_state inner) ∷ []) =
      (tt, tt, (merged-IsSorted inner, tt)) in
    written_either AreKept fault _ _ _ _ inner kept merged merged
