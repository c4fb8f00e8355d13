-- ===== src/Thingdb/Tables/Merge.antt =====
-- The merged state of a compaction has, for every key, what a read finds.
use thingd.Base.{
  Bytes, ◌≡◌, refl, ap, inl, inr, true, Option, none, some, List, [], ◌∷◌, arith, Bool-cases,
  Option-cases, ◌==◌, ==_iff, nat_ord, list_ord, pair_ord, All,
}
use thingd.Base.BTreeMap.{BTreeMap, get, insert, IsSorted, Above, get-Above, get-insert}
use thingd.Thingdb.Wal.{State}
use thingd.Thingdb.Keyspaces.{PendingTable, write_entry}
use thingd.Thingdb.Keyspaces.Pending.{overlay, get-write_entry}
use thingd.Thingdb.Tables.{
  Layer, Inner, layer_value, flat, get_durable_value, read, add_entries, add_layers, add_values,
  materialize_state, present,
}

module _ {V : Type 0} where
  pub get-here :
      (k key : Bytes) (m : BTreeMap Bytes V) → (k == key) ≡ true → Above k m → get key m ≡ none
  get-here k key m e a =
      let same : k ≡ key = (==_iff k key).0 e in
      let above = ap (λ (x : Bytes). Above x m) same in get-Above key m (ground (arith, above, a))

pub get-add_entries :
    (key : Bytes) (entries : Layer) (state : State)
    → IsSorted entries
    → get key (add_entries entries state) ≡ overlay (get key entries) (get key state)
unfolding add_entries overlay get
get-add_entries key [] state s = refl
get-add_entries key ((k, v) ∷ entries) state s =
    let ih = get-add_entries key entries (write_entry state k v) (s.1) in
    let written = get-write_entry state k key v in
    elim (Bool-cases (k == key)) [
      | inl e ↦ let gone = get-here k key entries e (s.0) in ground (arith, ih, written, gone, e)
      | inr e ↦ ground (arith, ih, written, e)
    ]

abbrev pub first_of : Option Bytes → Option Bytes → Option Bytes
first_of none stored = stored
first_of (some value) stored = some value

get-add_values :
    (key : Bytes) (values state : State)
    → IsSorted values
    → get key (add_values values state) ≡ first_of (get key values) (get key state)
unfolding add_values get
get-add_values key [] state s = refl
get-add_values key ((k, v) ∷ values) state s =
    let ih = get-add_values key values (insert k v state) (s.1) in
    let written = get-insert k key v state in
    elim (Bool-cases (k == key)) [
      | inl e ↦ let gone = get-here k key values e (s.0) in ground (arith, ih, written, gone, e)
      | inr e ↦ ground (arith, ih, written, e)
    ]

get-add_layers :
    (key : Bytes) (layers : List Layer) (state : State)
    → All IsSorted layers
    → get key (add_layers layers state) ≡ overlay (layer_value key layers) (get key state)
unfolding add_layers layer_value overlay
get-add_layers key [] state s = refl
get-add_layers key (layer ∷ layers) state s =
    let ih = get-add_layers key layers (add_entries layer state) (s.1) in
    let here = get-add_entries key layer state (s.0) in
    ground (arith, ih, here, Option-cases (layer_value key layers))

-- The maps of an engine are in key order.
abbrev pub AreKept : PendingTable → List Layer → Type 0
AreKept table layers = IsSorted table.state × IsSorted table.pending × All IsSorted layers

abbrev pub IsKept : Inner → Type 0
IsKept inner = AreKept inner.table inner.layers

pub get-materialize_state :
    (inner : Inner) (key : Bytes)
    → IsKept inner
    → get key (materialize_state inner) ≡ get_durable_value inner key
unfolding materialize_state get_durable_value read overlay flat get
get-materialize_state inner key kept =
    let merged = add_layers inner.layers [] in
    let a =
      get-add_entries key inner.table.pending (add_values inner.table.state merged) (kept.1) in
    let b = get-add_values key inner.table.state merged (kept.0) in
    let c = get-add_layers key inner.layers [] (kept.2) in
    ground (
      arith,
      a,
      b,
      c,
      Option-cases (get key inner.table.pending),
      Option-cases (get key inner.table.state),
      Option-cases (layer_value key inner.layers),
    )

pub get-present : (key : Bytes) (state : State) → flat (get key (present state)) ≡ get key state
unfolding present get flat
get-present key [] = refl
get-present key ((k, v) ∷ state) = ground (arith, get-present key state)
