-- ===== src/Thingdb/Keyspaces/Modes.antt =====
-- The two modes keep the same keyspaces: the flat table of the durable mode implements them.
use mathlib.Core.List.{append_assoc, append-nil}
use thingd.Base.{
  Bytes, ◌≡◌, refl, sym, ap, ◌∙◌, ◌≢◌, inl, inr, Bool, true, false, ◌&&◌, Option, none, some, List,
  [], ◌∷◌, ◌++◌, map, arith, Bool-cases, Option-cases, if◌then◌else◌, ◌==◌, ==_iff, ==_refl,
  nat_ord, list_ord, pair_ord, list_beq, All, contains, starts_with, starts_with-append,
}
use thingd.Base.BTreeMap.{get, insert, get-insert}
use thingd.Thingdb.Codec.{ok}
use thingd.Thingdb.Wal.{State, apply_operation, apply_operations}
use thingd.Thingdb.Keys.{physical_key, namespace, physical_key_from_namespace}
use thingd.Thingdb.Keys.Scan.{HasNoNul, namespace-apart}
use thingd.Thingdb.Keyspaces.{
  BatchOperation, Batch, Keyspaces, is_keyspace_name, batch_key, batch_put, batch_delete,
  entries_of, write_entry, validate_memory_batch_operation, apply_memory_batch_operation,
  validate_all, apply_all, commit_memory, to_operation,
}
use thingd.Thingdb.Keyspaces.Pending.{get-write_entry}

-- A user's changes: the keyspace, the key, and the value to put, or none to delete it.
abbrev pub Change : Type 0
Change = Bytes × Bytes × Option Bytes

unfoldable pub add : Bool → Batch → Change → Batch
add memory_mode batch (name, key, some value) = batch_put memory_mode batch name key value
add memory_mode batch (name, key, none) = batch_delete memory_mode batch name key

-- The batch that the changes make, in one of the modes.
unfoldable pub batch_of : Bool → Batch → List Change → Batch
batch_of memory_mode batch [] = batch
batch_of memory_mode batch (change ∷ changes) =
    batch_of memory_mode (add memory_mode batch change) changes

abbrev pub IsNamed : Change → Type 0
IsNamed change = is_keyspace_name change.0 ≡ true

-- Both modes give the same value for every key of every keyspace.
abbrev pub Agree : State → Keyspaces → Type 0
Agree state keyspaces =
    (name key : Bytes)
    → HasNoNul name
    → get (physical_key name key) state ≡ get key (entries_of keyspaces name)

beq-append : (a b c : Bytes) → ((a ++ b) == (a ++ c)) ≡ (b == c)
unfolding list_beq
beq-append [] b c = refl
beq-append (x ∷ a) b c = ground (arith, beq-append a b c, ==_refl x)

-- A physical key says which keyspace and which key it stands for.
pub physical_key-injective :
    (name other key user : Bytes)
    → HasNoNul name
    → HasNoNul other
    → (physical_key name key == physical_key other user) ≡ (name == other && key == user)
unfolding physical_key physical_key_from_namespace namespace
physical_key-injective name other key user h k = elim (Bool-cases (name == other)) [
  | inl e ↦
      let same : name ≡ other = (==_iff name other).0 e in
      ap (λ (x : Bytes). (x ++ 0 ∷ []) ++ key == ((other ++ 0 ∷ []) ++ user)) same
      ∙ beq-append (other ++ 0 ∷ []) key user
      ∙ ground (arith, e)
  | inr e ↦
      let apart : name ≢ other = λ f. ground (arith, e, ==_iff name other, f) in
      let no =
        ap (λ (x : Bytes). starts_with x (other ++ 0 ∷ [])) (append_assoc name (0 ∷ []) key)
        ∙ namespace-apart other name key k h apart in
      let yes = starts_with-append (other ++ 0 ∷ []) user in
      let differ : (name ++ 0 ∷ []) ++ key ≢ (other ++ 0 ∷ []) ++ user = λ f.
        let both = ap (λ (x : Bytes). starts_with x (other ++ 0 ∷ [])) f in
        ground (arith, both, yes, no) in
      ground (arith, e, ==_iff ((name ++ 0 ∷ []) ++ key) ((other ++ 0 ∷ []) ++ user), differ)
]

-- The two modes' forms of one change.
abbrev in_mode : Bool → Change → BatchOperation
in_mode memory_mode (name, key, value) = record {
  keyspace = name;
  key = batch_key memory_mode name key;
  value = value;
}

add-in_mode : (m : Bool) (batch : Batch) (c : Change) → add m batch c ≡ batch ++ in_mode m c ∷ []
unfolding add batch_put batch_delete
add-in_mode m batch (name, key, some value) = refl
add-in_mode m batch (name, key, none) = refl

batch_of-map :
    (m : Bool) (batch : Batch) (cs : List Change)
    → batch_of m batch cs ≡ batch ++ map (in_mode m) cs
unfolding batch_of
batch_of-map m batch [] = sym (append-nil batch)
batch_of-map m batch (c ∷ cs) =
    batch_of-map m (add m batch c) cs
    ∙ ap (λ (b : Batch). b ++ map (in_mode m) cs) (add-in_mode m batch c)
    ∙ append_assoc batch (in_mode m c ∷ []) (map (in_mode m) cs)

-- A change that is applied in both modes.
is_keyspace_name-HasNoNul : (name : Bytes) → is_keyspace_name name ≡ true → HasNoNul name
unfolding is_keyspace_name
is_keyspace_name-HasNoNul [] h = tt
is_keyspace_name-HasNoNul (b ∷ bs) h = (λ e. ground (arith, h, e), rest bs (ground (arith, h)))
  where
    rest : (bs : Bytes) → contains 0 bs ≡ false → HasNoNul bs
    rest [] h = tt
    rest (b ∷ bs) h = (λ e. ground (arith, h, e), rest bs (ground (arith, h)))

apply-to_operation :
    (state : State) (op : BatchOperation)
    → apply_operation state (to_operation op) ≡ write_entry state op.key op.value
unfolding apply_operation to_operation write_entry
apply-to_operation state op = ground (arith, Option-cases op.value)

entries_of-insert :
    (keyspaces : Keyspaces) (name other : Bytes) (entries : State)
    → entries_of (insert name entries keyspaces) other
      ≡ (if name == other then entries else entries_of keyspaces other)
unfolding entries_of
entries_of-insert keyspaces name other entries =
    ground (arith, get-insert name other entries keyspaces)

change_Agree :
    (state : State) (keyspaces : Keyspaces) (c : Change)
    → Agree state keyspaces
    → IsNamed c
    → Agree
        (apply_operation state (to_operation (in_mode false c)))
        (apply_memory_batch_operation keyspaces (in_mode true c))
unfolding apply_memory_batch_operation batch_key physical_key
change_Agree state keyspaces (name, key, value) agree named other user clean =
    ap (get (physical_key other user)) (apply-to_operation state (in_mode false (name, key, value)))
    ∙ get-write_entry state (physical_key name key) (physical_key other user) value
    ∙ ground (
      arith,
      physical_key-injective name other key user (is_keyspace_name-HasNoNul name named) clean,
      entries_of-insert keyspaces name other (write_entry (entries_of keyspaces name) key value),
      get-write_entry (entries_of keyspaces name) key user value,
      ==_iff name other,
      ap (λ (x : Bytes). get user (entries_of keyspaces x)) {x = name} {y = other},
      agree other user clean,
    )

validate_all-ok : (cs : List Change) → All IsNamed cs → validate_all (map (in_mode true) cs) ≡ ok tt
unfolding validate_all validate_memory_batch_operation
validate_all-ok [] a = refl
validate_all-ok ((name, key, value) ∷ cs) a = rw (a.0) (validate_all-ok cs (a.1))

changes_Agree :
    (cs : List Change) (state : State) (keyspaces : Keyspaces)
    → Agree state keyspaces
    → All IsNamed cs
    → Agree
        (apply_operations state (map to_operation (map (in_mode false) cs)))
        (apply_all keyspaces (map (in_mode true) cs))
unfolding apply_operations apply_all
changes_Agree [] state keyspaces agree named = agree
changes_Agree (c ∷ cs) state keyspaces agree named =
    changes_Agree cs (apply_operation state (to_operation (in_mode false c)))
      (apply_memory_batch_operation keyspaces (in_mode true c))
      (change_Agree state keyspaces c agree (named.0)) (named.1)

-- Take a durable table and in-memory keyspaces that give the same value for every key of every
-- keyspace, and any puts and deletions in keyspaces whose names the database accepts. The batch that
-- they make in memory mode is accepted, the batch that they make in durable mode is applied to the
-- table, and the two give the same value for every key again.
pub commit-Agree :
    (state : State) (keyspaces : Keyspaces) (changes : List Change)
    → Agree state keyspaces
    → All IsNamed changes
    → (after : Keyspaces) × (commit_memory keyspaces (batch_of true [] changes) ≡ ok after)
      × Agree (apply_operations state (map to_operation (batch_of false [] changes))) after
unfolding commit_memory
commit-Agree state keyspaces changes agree named =
    rw (batch_of-map true [] changes, batch_of-map false [] changes, validate_all-ok changes named)
      (
        apply_all keyspaces (map (in_mode true) changes),
        refl,
        changes_Agree changes state keyspaces agree named,
      )
