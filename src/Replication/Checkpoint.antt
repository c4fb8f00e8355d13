-- ===== src/Replication/Checkpoint.antt =====
-- The checkpoint that a replica keeps: what is written is read, and the items of a batch leave it.
use thingd.Base.{
  ℕ, ◌≤◌, Bytes, codes, ◌≡◌, refl, ap, ◌∙◌, some, arith, u64_max, nat_ord, list_ord, pair_ord,
  list_beq, starts_with,
}
use thingd.Base.BTreeMap.{get}
use thingd.Model.{ThingdResult, ok, err}
use thingd.Objects.{ObjectKey, MemoryObject}
use thingd.Objects
use thingd.Objects.Others.{put_object-found}
use thingd.Replication.{
  Json, and_then, state_collection, ReplicationConfig, is_system, allowed, Engine, new_object,
  get_object, put_object, u64_member,
}
use thingd.Replication.Changes.{
  state_id, cursor_in, cursor_of, read_applied_cursor, cursor_body, write_applied_cursor,
}
use thingd.Replication.Frame.{Keeps, IsAside}

-- Inversion of `?`.
pub and_then-ok {ℓ κ ι} :
    {S : Type ℓ} {A : Type κ} {B : Type ι} (r : S × ThingdResult A)
    (next : S → A → S × ThingdResult B) (s : S) (b : B)
    → and_then r next ≡ (s, ok b)
    → (t : S) × (a : A) × (r ≡ (t, ok a)) × (next t a ≡ (s, ok b))
and_then-ok (t, err e) next s b h = cc
and_then-ok (t, ok a) next s b h = (t, a, refl, h)

abbrev pub state_key : Bytes → ObjectKey
state_key s = (state_collection, state_id s)

module _ (j : Json) where
  -- The checkpoint that was written is read.
  cursor_of-written :
      (object : MemoryObject) (s : Bytes) (n : ℕ)
      → n ≤ u64_max
      → object.body ≡ cursor_body j s n
      → cursor_of j (some object) ≡ n
  unfolding cursor_of cursor_in cursor_body u64_member
  cursor_of-written object s n h e =
      let parsed = ap j.from_str e ∙ j.from_str-to_string _ in
      let named =
        j.member-second (codes "sourceId") (codes "lastAppliedCursor") (j.text s) (j.number n)
          (unfold list_beq in refl) in
      let read = j.as_u64-number n h in ground (arith, parsed, named, read)

  put_object-stored :
      (e e' : Engine) (object : MemoryObject) (now : Bytes)
      → put_object j e object now ≡ (e', ok tt)
      → (found : MemoryObject) × (get object.key e'.store.objects ≡ some found)
        × (found.body ≡ object.body)
  unfolding put_object
  put_object-stored e e' object now w =
      stored_in (Objects.put_object j.indexed j.value_eq e.store object now)
        (λ stored. put_object-found j.indexed j.value_eq e.store object stored now) w
    where
      stored_in :
          (r : Objects.ObjectStore × ThingdResult MemoryObject)
          → ((stored : MemoryObject)
              → r.1 ≡ ok stored
              → (found : MemoryObject) × (get object.key r.0.objects ≡ some found)
                × (found.body ≡ object.body))
          → ◌≡◌ {A = Engine × ThingdResult (Unit {0})}
              (record e { store = r.0 }, elim r.1 [ ok stored ↦ ok tt | err x ↦ err x ])
              (e', ok tt)
          → (found : MemoryObject) × (get object.key e'.store.objects ≡ some found)
            × (found.body ≡ object.body)
      stored_in (store, err x) f w = cc
      stored_in (store, ok stored) f w =
          let (found, there, body) = f stored refl in
          let same : store ≡ e'.store =
            ap (λ (x : Engine × ThingdResult (Unit {0})). x.0.store) w in
          (found, rw (← same) there, body)

  pub read-written :
      (e e' : Engine) (s : Bytes) (n : ℕ) (now : Bytes)
      → n ≤ u64_max
      → write_applied_cursor j e s n now ≡ (e', ok tt)
      → read_applied_cursor j e' s ≡ n
  unfolding write_applied_cursor read_applied_cursor get_object new_object Objects.get_object
  read-written e e' s n now h w =
      let (found, there, body) =
        put_object-stored e e' (new_object state_collection (state_id s) (cursor_body j s n)) now
          w in
      ap (cursor_of j) there ∙ cursor_of-written found s n h body

  pub read-Keeps :
      (e e' : Engine) (s : Bytes)
      → Keeps (state_key s) e e'
      → read_applied_cursor j e' s ≡ read_applied_cursor j e s
  unfolding read_applied_cursor get_object Objects.get_object
  read-Keeps e e' s k = ap (cursor_of j) k

  pub state-IsAside : (config : ReplicationConfig) → IsAside config state_collection
  unfolding allowed is_system starts_with list_beq
  state-IsAside config = record {
    not_allowed = refl;
    not_provenance = refl;
    not_tombstone = refl;
    not_quarantine = refl;
  }
