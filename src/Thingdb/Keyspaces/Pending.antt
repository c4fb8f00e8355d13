-- ===== src/Thingdb/Keyspaces/Pending.antt =====
-- The entries that wait for the next table, and their size.
use thingd.Base.{
  ℕ, ◌+◌, ◌-◌, ◌≤◌, Bytes, ◌≡◌, Option, none, some, List, [], ◌∷◌, arith, if◌then◌else◌, u64_max,
  sat_add, ◌==◌, nat_ord, list_ord, pair_ord, length,
}
use thingd.Base.BTreeMap.{
  get, insert, remove, IsSorted, insert-IsSorted, weigh, weigh-insert, weigh-remove, held,
  get-insert, get-remove,
}
use thingd.Thingdb.Wal.{Operation, State}
use thingd.Thingdb.Keyspaces.{
  PendingTable, operation_key, operation_value, write_entry, value_bytes, entry_bytes,
  replaced_bytes, apply_operation_with_pending,
}

unfoldable pub apply_all_pending : PendingTable → List Operation → PendingTable
apply_all_pending p [] = p
apply_all_pending p (op ∷ ops) = apply_all_pending (apply_operation_with_pending p op) ops

-- The size of an entry: its key, its value if it has one, and a byte for which of the two it is.
abbrev pub size : Bytes → Option Bytes → ℕ
size key value = length key + 1 + value_bytes value

-- The size that is kept is that of the entries.
abbrev pub IsAccounted : PendingTable → Type 0
IsAccounted p = IsSorted p.pending × (p.pending_bytes ≡ weigh size p.pending)

-- A table of the state with the pending entries on top.
unfoldable pub overlay : Option (Option Bytes) → Option Bytes → Option Bytes
overlay none stored = stored
overlay (some value) stored = value

step-IsAccounted :
    (p : PendingTable) (op : Operation)
    → IsAccounted p
    → weigh size p.pending + size (operation_key op) (operation_value op) ≤ u64_max
    → IsAccounted (apply_operation_with_pending p op)
unfolding apply_operation_with_pending replaced_bytes entry_bytes
step-IsAccounted p op (s, w) room =
    let k = operation_key op in
    let v = operation_value op in
    let total = weigh-insert size k v p.pending s in
    (
      insert-IsSorted k v p.pending s,
      given (get k p.pending) total (weigh-remove size k p.pending s),
    )
  where
    given :
        (o : Option (Option Bytes))
        → weigh size (insert (operation_key op) (operation_value op) p.pending)
            + held size (operation_key op) o
          ≡ weigh size p.pending + size (operation_key op) (operation_value op)
        → weigh size (remove (operation_key op) p.pending) + held size (operation_key op) o
          ≡ weigh size p.pending
        → sat_add u64_max
            (p.pending_bytes - replaced_bytes (operation_key op) o)
            (entry_bytes (operation_key op) (operation_value op))
          ≡ weigh size (insert (operation_key op) (operation_value op) p.pending)
    given none total part = omega (arith, total, part, w, room)
    given (some previous) total part = omega (arith, total, part, w, room)

-- What the operations may add at most.
unfoldable pub total_size : List Operation → ℕ
total_size [] = 0
total_size (op ∷ ops) = size (operation_key op) (operation_value op) + total_size ops

step-weigh :
    (p : PendingTable) (op : Operation)
    → IsSorted p.pending
    → weigh size (apply_operation_with_pending p op).pending
      ≤ weigh size p.pending + size (operation_key op) (operation_value op)
unfolding apply_operation_with_pending
step-weigh p op s =
    omega (arith, weigh-insert size (operation_key op) (operation_value op) p.pending s)

-- Through any operations whose sizes, with that of the pending entries, fit 64 bits, the size that is
-- kept for the pending entries is the sum of their sizes, also where keys are written again.
pub apply_all_pending-IsAccounted :
    (p : PendingTable) (ops : List Operation)
    → IsAccounted p
    → weigh size p.pending + total_size ops ≤ u64_max
    → IsAccounted (apply_all_pending p ops)
unfolding apply_all_pending total_size
apply_all_pending-IsAccounted p [] a room = a
apply_all_pending-IsAccounted p (op ∷ ops) a room =
    apply_all_pending-IsAccounted (apply_operation_with_pending p op) ops
      (step-IsAccounted p op a (omega (arith, room))) (omega (arith, room, step-weigh p op (a.0)))

pub get-write_entry :
    (state : State) (key j : Bytes) (value : Option Bytes)
    → get j (write_entry state key value) ≡ (if key == j then value else get j state)
unfolding write_entry
get-write_entry state key j (some value) = get-insert key j value state
get-write_entry state key j none = get-remove key j state
