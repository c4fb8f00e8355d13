-- ===== src/Thingdb/Tables/Session.antt =====
-- A session of a database that was opened on an empty log: reads are those of a plain map.
use thingd.Base.{
  ℕ, Bytes, ◌≡◌, refl, ◌⊎◌, inl, inr, Bool, true, false, Option, none, some, List, [], ◌∷◌, ◌++◌,
  arith, Option-cases, if◌then◌else◌, ◌==◌, nat_ord, list_ord, pair_ord, All,
}
use thingd.Base.BTreeMap.{get, IsSorted}
use thingd.Thingdb.Wal.{Operation}
use thingd.Thingdb.Keyspaces.{PendingTable, operation_key, operation_value}
use thingd.Thingdb.Tables.{
  Layer, Inner, Fault, no_pending, read, layer_value, flat, get_durable_value, flushed, flush_if,
  has_pending, flush_table, compact_tables,
}
use thingd.Thingdb.Tables.Worker.{flush_round}
use thingd.Thingdb.Tables.Group.{Limits, GroupEvents, process_group}
use thingd.Thingdb.Codec.{Result, ok, err}
use thingd.Thingdb.Tables.Merge.{AreKept}
use thingd.Thingdb.Tables.Compaction.{guarded_either, written_either}

pub data Step : Type 0 where
  write : Limits → GroupEvents → List (List Operation) → Step
  flush : Fault → Step
  compact : Fault → Step
  work : ℕ → Fault → Fault → Step

unfoldable pub step : Inner → Step → Inner
step inner (write limits events requests) = (process_group limits events requests inner).0
step inner (flush fault) = (flush_table fault inner).0
step inner (compact fault) = (compact_tables fault inner).0
step inner (work max_table_layers flushing compacting) =
    flush_round max_table_layers flushing compacting inner

unfoldable pub run : Inner → List Step → Inner
run inner [] = inner
run inner (s ∷ steps) = run (step inner s) steps

-- The plain map: what a key holds.
abbrev pub View : Type 0
View = Bytes → Option Bytes

abbrev pub write_view : Operation → View → View
write_view op view key = if operation_key op == key then operation_value op else view key

unfoldable pub write_all : List Operation → View → View
write_all [] view = view
write_all (op ∷ ops) view = write_all ops (write_view op view)

unfoldable pub all_operations : List (List Operation) → List Operation
all_operations [] = []
all_operations (request ∷ requests) = request ++ all_operations requests

-- What a group contributes to the map, given its answer: all of its operations when it is answered
-- with success; when it is answered with an error nothing, or all and the database takes no more
-- writes until it is reopened.
abbrev pub Contributes : Inner × Result (Unit {0}) → List (List Operation) → List Operation → Type 0
Contributes (inner, ok done) requests ops = ops ≡ all_operations requests
Contributes (inner, err e) requests ops =
    (ops ≡ []) ⊎ ((ops ≡ all_operations requests) × (inner.recovery_required ≡ true))

abbrev pub StepContributes : Inner → Step → List Operation → Type 0
StepContributes inner (write limits events requests) ops =
    Contributes (process_group limits events requests inner) requests ops
StepContributes inner (flush fault) ops = ops ≡ []
StepContributes inner (compact fault) ops = ops ≡ []
StepContributes inner (work max_table_layers flushing compacting) ops = ops ≡ []

-- A history of a session: the contributions of its steps, one after the other.
abbrev pub IsHistory : Inner → List Step → List Operation → Type 0
IsHistory inner [] ops = ops ≡ []
IsHistory inner (s ∷ steps) ops =
    (here : List Operation) × (rest : List Operation) × StepContributes inner s here
    × IsHistory (step inner s) steps rest
    × (ops ≡ here ++ rest)

-- The state holds nothing that is not pending.
abbrev pub IsBacked : PendingTable → Type 0
IsBacked table = (key : Bytes) → get key table.pending ≡ none → get key table.state ≡ none

pub layer_value-append :
    (key : Bytes) (layers : List Layer) (layer : Layer)
    → get key layer ≡ none
    → layer_value key (layers ++ layer ∷ []) ≡ layer_value key layers
unfolding layer_value
layer_value-append key [] layer h = rw h refl
layer_value-append key (l ∷ layers) layer h = ground (arith, layer_value-append key layers layer h)

layer_value_last :
    (key : Bytes) (layers : List Layer) (layer : Layer) (value : Option Bytes)
    → get key layer ≡ some value
    → layer_value key (layers ++ layer ∷ []) ≡ some value
unfolding layer_value
layer_value_last key [] layer value h = rw h refl
layer_value_last key (l ∷ layers) layer value h =
    ground (arith, layer_value_last key layers layer value h)

-- The layers of a flush, read behind an empty table, and behind the pending entries alone.
layers_read :
    (table : PendingTable) (layers : List Layer) (key : Bytes)
    → IsBacked table
    → (read no_pending (layers ++ table.pending ∷ []) key ≡ read table layers key)
      × (read (record table { state = [] }) (layers ++ table.pending ∷ []) key
          ≡ read table layers key)
unfolding read flat get
layers_read table layers key backed = elim (Option-cases (get key table.pending)) [
  | inr (value, h) ↦
      let last = layer_value_last key layers table.pending value h in
      (ground (arith, last, h), ground (arith, h))
  | inl h ↦
      let same = layer_value-append key layers table.pending h in
      let empty = backed key h in (ground (arith, same, h, empty), ground (arith, same, h, empty))
]

pub flushed-get :
    (fault : Fault) (inner : Inner) (key : Bytes)
    → IsBacked inner.table
    → get_durable_value (flushed fault inner) key ≡ get_durable_value inner key
unfolding flushed get_durable_value
flushed-get fault inner key backed =
    let (done, failed) = layers_read inner.table inner.layers key backed in
    written_either (λ table layers. read table layers key ≡ get_durable_value inner key) fault _ _ _
      _ inner refl done failed

layers-IsSorted :
    (layers : List Layer) (layer : Layer)
    → All IsSorted layers
    → IsSorted layer
    → All IsSorted (layers ++ layer ∷ [])
layers-IsSorted [] layer s h = (h, tt)
layers-IsSorted (l ∷ layers) layer s h = (s.0, layers-IsSorted layers layer (s.1) h)

-- What holds in a session.
abbrev pub Holds : PendingTable → List Layer → Type 0
Holds table layers = AreKept table layers × IsBacked table

pub flushed-Holds :
    (fault : Fault) (inner : Inner)
    → Holds inner.table inner.layers
    → Holds (flushed fault inner).table (flushed fault inner).layers
unfolding flushed get
flushed-Holds fault inner ((state, pending, layers), backed) =
    let added = layers-IsSorted inner.layers inner.table.pending layers pending in
    written_either Holds fault _ _ _ _ inner ((state, pending, layers), backed)
      ((tt, tt, added), λ key h. refl) ((tt, pending, added), λ key h. refl)

flush_if_either {ℓ} :
    (P : Inner → Type ℓ) (b : Bool) (fault : Fault) (inner : Inner)
    → P inner
    → P (flushed fault inner)
    → P (flush_if b fault inner)
flush_if_either P true fault inner p q = q
flush_if_either P false fault inner p q = p

-- A property of the engine, and of a flush that writes, is one of every flush.
pub flush_table_either {ℓ} :
    (P : Inner → Type ℓ) (fault : Fault) (inner : Inner)
    → P inner
    → P (flushed fault inner)
    → P (flush_table fault inner).0
unfolding flush_table
flush_table_either P fault inner p q =
    guarded_either P inner.recovery_required inner _ p
      (flush_if_either P (has_pending inner) fault inner p q)
