-- ===== src/Thingdb/Tables/Follows.antt =====
-- What flushes, compactions and commits do to reads.
use thingd.Base.{Bytes, ◌≡◌, refl, sym, ◌∙◌, List, [], ◌∷◌, ◌++◌, nat_ord, list_ord, pair_ord}
use thingd.Base.BTreeMap.{get}
use thingd.Thingdb.Wal.{Operation}
use thingd.Thingdb.Tables.{
  Inner, Fault, get_durable_value, compacted, compact_tables, commit, flush_table,
}
use thingd.Thingdb.Tables.Compaction.{
  guarded_either, written_either, compact_tables-get, compacted-IsKept,
}
use thingd.Thingdb.Tables.Session.{
  write_all, all_operations, IsBacked, Holds, flushed-get, flushed-Holds, flush_table_either,
}
use thingd.Thingdb.Tables.Commits.{
  apply_all_pending-Holds, write_all_same, apply_all_pending-read, write_all-append,
}
use thingd.Thingdb.Tables.Group.{commit_all}

compacted-IsBacked :
    (fault : Fault) (inner : Inner) → IsBacked inner.table → IsBacked (compacted fault inner).table
unfolding compacted get
compacted-IsBacked fault inner backed =
    written_either (λ table layers. IsBacked table) fault _ _ _ _ inner backed (λ key h. refl)
      (λ key h. refl)

compact_tables-Holds :
    (fault : Fault) (inner : Inner)
    → Holds inner.table inner.layers
    → Holds (compact_tables fault inner).0.table (compact_tables fault inner).0.layers
unfolding compact_tables
compact_tables-Holds fault inner (kept, backed) =
    guarded_either (λ (x : Inner). Holds x.table x.layers) inner.recovery_required inner _
      (kept, backed) (compacted-IsKept fault inner kept, compacted-IsBacked fault inner backed)

-- The second engine is well-formed, and reads as the first after the operations.
abbrev pub Follows : Inner → List Operation → Inner → Type 0
Follows a ops b =
    Holds b.table b.layers
    × ((key : Bytes) → get_durable_value b key ≡ write_all ops (get_durable_value a) key)

pub flush_table-Follows :
    (fault : Fault) (inner : Inner)
    → Holds inner.table inner.layers
    → Follows inner [] (flush_table fault inner).0
unfolding write_all
flush_table-Follows fault inner h =
    flush_table_either (Follows inner []) fault inner (h, λ key. refl)
      (flushed-Holds fault inner h, λ key. flushed-get fault inner key (h.1))

pub compact_tables-Follows :
    (fault : Fault) (inner : Inner)
    → Holds inner.table inner.layers
    → Follows inner [] (compact_tables fault inner).0
unfolding write_all
compact_tables-Follows fault inner h =
    (compact_tables-Holds fault inner h, λ key. compact_tables-get fault inner key (h.0))

commit-Follows :
    (ops : List Operation) (inner : Inner)
    → Holds inner.table inner.layers
    → Follows inner ops (commit ops inner)
unfolding commit get_durable_value
commit-Follows ops inner h = (
  apply_all_pending-Holds inner.table inner.layers ops h,
  λ key. apply_all_pending-read inner.table inner.layers ops key,
)

pub Follows-trans :
    (a b c : Inner) (x y : List Operation) → Follows a x b → Follows b y c → Follows a (x ++ y) c
Follows-trans a b c x y f g = (
  g.0,
  λ key.
      g.1 key
      ∙ write_all_same y _ _ (f.1) key
      ∙ sym (write_all-append x y (get_durable_value a) key),
)

pub Follows-refl : (a : Inner) → Holds a.table a.layers → Follows a [] a
unfolding write_all
Follows-refl a h = (h, λ key. refl)

pub commit_all-Follows :
    (requests : List (List Operation)) (inner : Inner)
    → Holds inner.table inner.layers
    → Follows inner (all_operations requests) (commit_all requests inner)
unfolding commit_all all_operations
commit_all-Follows [] inner h = Follows-refl inner h
commit_all-Follows (request ∷ requests) inner h =
    let first = commit-Follows request inner h in
    Follows-trans inner (commit request inner) (commit_all requests (commit request inner)) request
      (all_operations requests) first (commit_all-Follows requests (commit request inner) (first.0))

-- Nothing that follows a step changes what it contributed.
pub then_nothing :
    (a b c : Inner) (x : List Operation) → Follows a x b → Follows b [] c → Follows a x c
unfolding write_all
then_nothing a b c x f g = (g.0, λ key. g.1 key ∙ f.1 key)
