-- ===== src/Thingdb/Tables/Commits.antt =====
-- What a commit does to reads and to the order of the maps.
use thingd.Base.{Bytes, ◌≡◌, refl, ◌∙◌, List, [], ◌∷◌, ◌++◌, arith, nat_ord, list_ord, pair_ord}
use thingd.Base.BTreeMap.{get-insert, insert-IsSorted}
use thingd.Thingdb.Wal.{Operation}
use thingd.Thingdb.Keyspaces.{
  PendingTable, operation_key, operation_value, apply_operation_with_pending,
}
use thingd.Thingdb.Keyspaces.Pending.{apply_all_pending, get-write_entry}
use thingd.Thingdb.Tables.{Layer, read}
use thingd.Thingdb.Tables.Compaction.{write_entry-IsSorted}
use thingd.Thingdb.Tables.Session.{View, write_view, write_all, Holds}

-- One operation of a commit.
apply_operation_with_pending-Holds :
    (table : PendingTable) (layers : List Layer) (op : Operation)
    → Holds table layers
    → Holds (apply_operation_with_pending table op) layers
unfolding apply_operation_with_pending
apply_operation_with_pending-Holds table layers op ((state, pending, sorted), backed) = (
  (
    write_entry-IsSorted table.state (operation_key op) (operation_value op) state,
    insert-IsSorted (operation_key op) (operation_value op) table.pending pending,
    sorted,
  ),
  λ key h.
      let pending = get-insert (operation_key op) key (operation_value op) table.pending in
      let state = get-write_entry table.state (operation_key op) key (operation_value op) in
      ground (arith, pending, state, h, backed key),
)

apply_operation_with_pending-read :
    (table : PendingTable) (layers : List Layer) (op : Operation) (key : Bytes)
    → read (apply_operation_with_pending table op) layers key
      ≡ write_view op (read table layers) key
unfolding apply_operation_with_pending read
apply_operation_with_pending-read table layers op key =
    let pending = get-insert (operation_key op) key (operation_value op) table.pending in
    let state = get-write_entry table.state (operation_key op) key (operation_value op) in
    ground (arith, pending, state)

pub apply_all_pending-Holds :
    (table : PendingTable) (layers : List Layer) (ops : List Operation)
    → Holds table layers
    → Holds (apply_all_pending table ops) layers
unfolding apply_all_pending
apply_all_pending-Holds table layers [] h = h
apply_all_pending-Holds table layers (op ∷ ops) h =
    apply_all_pending-Holds (apply_operation_with_pending table op) layers ops
      (apply_operation_with_pending-Holds table layers op h)

pub write_all_same :
    (ops : List Operation) (a b : View)
    → ((key : Bytes) → a key ≡ b key)
    → (key : Bytes) → write_all ops a key ≡ write_all ops b key
unfolding write_all
write_all_same [] a b h key = h key
write_all_same (op ∷ ops) a b h key =
    write_all_same ops (write_view op a) (write_view op b) (λ k. ground (arith, h k)) key

pub apply_all_pending-read :
    (table : PendingTable) (layers : List Layer) (ops : List Operation) (key : Bytes)
    → read (apply_all_pending table ops) layers key ≡ write_all ops (read table layers) key
unfolding apply_all_pending write_all
apply_all_pending-read table layers [] key = refl
apply_all_pending-read table layers (op ∷ ops) key =
    apply_all_pending-read (apply_operation_with_pending table op) layers ops key
    ∙ write_all_same ops _ _ (apply_operation_with_pending-read table layers op) key

pub write_all-append :
    (a b : List Operation) (view : View) (key : Bytes)
    → write_all (a ++ b) view key ≡ write_all b (write_all a view) key
unfolding write_all
write_all-append [] b view key = refl
write_all-append (op ∷ a) b view key = write_all-append a b (write_view op view) key
