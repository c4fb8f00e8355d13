-- ===== src/Objects/Puts.antt =====
-- A compare-and-set stores the next version of one object, and no writer's update is lost.
use thingd.Base.{
  ℕ, ◌<◌, Bytes, ◌≡◌, refl, ap, ◌∙◌, ◌⊎◌, inl, inr, Bool, true, false, Option, none, some, arith,
  Option-cases, if◌then◌else◌, u64_max, ◌==◌, ==_refl, nat_ord, list_ord, pair_ord, all,
}
use thingd.Base.BTreeMap.{values, get, get-insert}
use thingd.Model.{ThingdResult, ok, err, conflict}
use thingd.Events.{add_one_u64}
use thingd.Objects.{
  ObjectKey, MemoryObject, PutObjectOptions, ObjectStore, put_vector, next_version, stamp_object,
  write_object, put_validated, index_allows, version_matches, guard_version,
  validate_unique_indexes, put_object, put_object_with_options,
}

write_object-get :
    (store : ObjectStore) (object : MemoryObject) (key : ObjectKey)
    → get key (write_object store object).objects
      ≡ (if object.key == key then some object else get key store.objects)
unfolding write_object put_vector
write_object-get store object key =
    ground (arith, Option-cases object.vector, get-insert object.key key object store.objects)

write_object-indexes :
    (store : ObjectStore) (object : MemoryObject)
    → (write_object store object).indexes ≡ store.indexes
unfolding write_object put_vector
write_object-indexes store object = ground (arith, Option-cases object.vector)

-- What a put did: nothing, with a conflict, or the next version of the object and nothing else.
abbrev pub Outcome : ObjectStore → MemoryObject → ObjectStore × ThingdResult MemoryObject → Type 0
Outcome store object (after, result) =
    ((result ≡ err conflict) × (after ≡ store))
    ⊎ ((stored : MemoryObject) × (result ≡ ok stored)
        × (stored.version ≡ next_version (get object.key store.objects))
        × (stored.body ≡ object.body)
        × (after.indexes ≡ store.indexes)
        × ((key : ObjectKey)
            → get key after.objects
              ≡ (if object.key == key then some stored else get key store.objects)))

stored-Outcome :
    (store : ObjectStore) (object : MemoryObject) (now : Bytes)
    → Outcome store object (put_validated store object now (ok tt))
unfolding put_validated
stored-Outcome store object now = inr (
  stamp_object store object now,
  refl,
  unfold stamp_object in refl,
  unfold stamp_object in refl,
  write_object-indexes store (stamp_object store object now),
  (unfold stamp_object in write_object-get store (stamp_object store object now)),
)

refused-Outcome :
    (store : ObjectStore) (object : MemoryObject) (now : Bytes)
    → Outcome store object (put_validated store object now (err conflict))
unfolding put_validated
refused-Outcome store object now = inl (refl, refl)

-- What a successful put left under its key.
Outcome-stored :
    (store after : ObjectStore) (object stored : MemoryObject) (result : ThingdResult MemoryObject)
    → Outcome store object (after, result)
    → result ≡ ok stored
    → (written : MemoryObject) × (get object.key after.objects ≡ some written)
      × (written.version ≡ next_version (get object.key store.objects))
Outcome-stored store after object stored result (inl (refused, same)) done = cc
Outcome-stored store after object stored result (inr (written, r, v, b, i, others)) done =
    (written, ground (arith, others object.key, ==_refl {A = ObjectKey} object.key), v)

-- The version that was written is not the one that was expected.
version_matches-next :
    (o : Option MemoryObject) (written : MemoryObject) (expected : ℕ)
    → version_matches o expected ≡ true
    → expected < u64_max
    → written.version ≡ next_version o
    → version_matches (some written) expected ≡ false
unfolding version_matches next_version add_one_u64
version_matches-next none written expected m room v = ground (arith, m)
version_matches-next (some existing) written expected m room v = ground (arith, m, v)

module _ {V : Type 0} (field : Bytes → Bytes → Option V) (value_eq : V → V → Bool) where
  pub put_object-Outcome :
      (store : ObjectStore) (object : MemoryObject) (now : Bytes)
      → Outcome store object (put_object field value_eq store object now)
  unfolding put_object validate_unique_indexes
  put_object-Outcome store object now =
      given (all (index_allows field value_eq store object) (values store.indexes))
    where
      given :
          (b : Bool)
          → Outcome store object
              (put_validated store object now (if b then ok tt else err conflict))
      given true = stored-Outcome store object now
      given false = refused-Outcome store object now

  -- A put with options, whatever the check of the unique indexes says, either conflicts and changes
  -- nothing, or stores the object with the next version, and changes no other object and no index.
  pub put_object_with_options-Outcome :
      (store : ObjectStore) (object : MemoryObject) (options : PutObjectOptions) (now : Bytes)
      → Outcome store object (put_object_with_options field value_eq store object options now)
  unfolding put_object_with_options
  put_object_with_options-Outcome store object options now =
      given (guard_version version_matches (get object.key store.objects) options.expected_version)
    where
      given :
          (b : Bool)
          → Outcome store object
              (if b then put_object field value_eq store object now else (store, err conflict))
      given true = put_object-Outcome store object now
      given false = inl (refl, refl)

  success-matches :
      (store : ObjectStore) (object stored : MemoryObject) (expected : ℕ) (index : Bool)
      (now : Bytes)
      → (put_object_with_options field value_eq store object
          (record { index = index; expected_version = some expected })
          now).1
        ≡ ok stored
      → version_matches (get object.key store.objects) expected ≡ true
  unfolding put_object_with_options guard_version
  success-matches store object stored expected index now done =
      given (version_matches (get object.key store.objects) expected)
        (put_object field value_eq store object now) done
    where
      given :
          (b : Bool) (r : ObjectStore × ThingdResult MemoryObject)
          → ◌≡◌ {A = ThingdResult MemoryObject}
              ((λ (x : ObjectStore × ThingdResult MemoryObject). x.1)
                (if b then r else (store, err conflict)))
              (ok stored)
          → b ≡ true
      given true r e = refl
      given false r e = cc

  failing :
      (store : ObjectStore) (object : MemoryObject) (expected : ℕ) (index : Bool) (now : Bytes)
      → version_matches (get object.key store.objects) expected ≡ false
      → put_object_with_options field value_eq store object
          (record { index = index; expected_version = some expected })
          now
        ≡ (store, err conflict)
  unfolding put_object_with_options guard_version
  failing store object expected index now e = rw e refl

  -- Two writers expect the same version of an object. When the first one's put succeeds, and the
  -- version had room in its 64 bits, the second one's put conflicts and changes nothing: the first
  -- update is not lost.
  pub put_object_with_options-conflict :
      (store : ObjectStore) (first second stored : MemoryObject) (expected : ℕ) (index : Bool)
      (now later : Bytes)
      → second.key ≡ first.key
      → expected < u64_max
      → (put_object_with_options field value_eq store first
          (record { index = index; expected_version = some expected })
          now).1
        ≡ ok stored
      → put_object_with_options field value_eq
          (put_object_with_options field value_eq store first
            (record { index = index; expected_version = some expected })
            now).0
          second
          (record { index = index; expected_version = some expected })
          later
        ≡ (
          (put_object_with_options field value_eq store first
              (record { index = index; expected_version = some expected })
              now).0,
          err conflict,
        )
  put_object_with_options-conflict store first second stored expected index now later same room
        done =
      let options : PutObjectOptions = record { index = index; expected_version = some expected } in
      let r = put_object_with_options field value_eq store first options now in
      let (written, found, next) =
        Outcome-stored store (r.0) first stored (r.1)
          (put_object_with_options-Outcome store first options now) done in
      let fails =
        version_matches-next (get first.key store.objects) written expected
          (success-matches store first stored expected index now done) room next in
      failing (r.0) second expected index later (
        ap (λ (k : ObjectKey). version_matches (get k (r.0).objects) expected) same
        ∙ ap (λ (o : Option MemoryObject). version_matches o expected) found
        ∙ fails)
