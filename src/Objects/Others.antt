-- ===== src/Objects/Others.antt =====
-- A put or a deletion changes no object but its own.
use thingd.Base.{
  Bytes, ◌≡◌, refl, ap, ◌∙◌, inl, inr, Bool, false, Option, some, arith, Bool-cases, ◌==◌, ==_refl,
  nat_ord, list_ord, pair_ord,
}
use thingd.Base.BTreeMap.{get, get-insert, get-remove}
use thingd.Model.{ThingdResult, ThingdError, ok, err, conflict}
use thingd.Objects.{
  ObjectKey, MemoryObject, PutObjectOptions, ObjectStore, replicate, replicate_put, source_matches,
  guard_version, put_object, put_object_with_source_metadata, delete_object,
}
use thingd.Objects.Puts.{Outcome, put_object-Outcome}

Outcome-other :
    (store : ObjectStore) (object : MemoryObject) (r : ObjectStore × ThingdResult MemoryObject)
    (key : ObjectKey)
    → (object.key == key) ≡ false
    → Outcome store object r
    → get key r.0.objects ≡ get key store.objects
Outcome-other store object (after, result) key apart (inl (e, same)) =
    ap (λ (s : ObjectStore). get key s.objects) same
Outcome-other store object (after, result) key apart (inr (stored, r, v, b, i, others)) =
    ground (arith, others key, apart)

pub delete_object-other :
    (store : ObjectStore) (collection id : Bytes) (key : ObjectKey)
    → ◌==◌ {A = ObjectKey} (collection, id) key ≡ false
    → get key (delete_object store collection id).0.objects ≡ get key store.objects
unfolding delete_object
delete_object-other store collection id key apart =
    ground (arith, get-remove {K = ObjectKey} (collection, id) key store.objects, apart)

module _ {V : Type 0} (field : Bytes → Bytes → Option V) (value_eq : V → V → Bool) where
  pub put_object-other :
      (store : ObjectStore) (object : MemoryObject) (now : Bytes) (key : ObjectKey)
      → (object.key == key) ≡ false
      → get key (put_object field value_eq store object now).0.objects ≡ get key store.objects
  put_object-other store object now key apart =
      Outcome-other store object (put_object field value_eq store object now) key apart
        (put_object-Outcome field value_eq store object now)

  replicate_put-other :
      (object : MemoryObject) (r : ObjectStore × ThingdResult MemoryObject) (key : ObjectKey)
      → (object.key == key) ≡ false
      → get key (replicate_put field value_eq object r).0.objects ≡ get key r.0.objects
  unfolding replicate_put
  replicate_put-other object (store, err e) key apart = refl
  replicate_put-other object (store, ok stored) key apart =
      ground (arith, get-insert object.key key (replicate object stored) store.objects, apart)

  pub put_object_with_source_metadata-other :
      (store : ObjectStore) (object : MemoryObject) (options : PutObjectOptions) (now : Bytes)
      (key : ObjectKey)
      → (object.key == key) ≡ false
      → get key (put_object_with_source_metadata field value_eq store object options now).0.objects
        ≡ get key store.objects
  unfolding put_object_with_source_metadata
  put_object_with_source_metadata-other store object options now key apart =
      elim (Bool-cases
        (guard_version source_matches (get object.key store.objects) options.expected_version)) [
          | inr e ↦ rw e refl
          | inl e ↦ rw e (
              replicate_put-other object (put_object field value_eq store object now) key apart
              ∙ put_object-other store object now key apart)
        ]

  -- What a successful put leaves under its key.
  pub put_object-found :
      (store : ObjectStore) (object stored : MemoryObject) (now : Bytes)
      → (put_object field value_eq store object now).1 ≡ ok stored
      → (found : MemoryObject) × (get object.key
            (put_object field value_eq store object now).0.objects
          ≡ some found)
        × (found.body ≡ object.body)
  put_object-found store object stored now done =
      found_in (put_object field value_eq store object now) done
        (put_object-Outcome field value_eq store object now)
    where
      found_in :
          (r : ObjectStore × ThingdResult MemoryObject)
          → r.1 ≡ ok stored
          → Outcome store object r
          → (found : MemoryObject) × (get object.key r.0.objects ≡ some found)
            × (found.body ≡ object.body)
      found_in (after, result) d (inl (e, same)) = cc
      found_in (after, result) d (inr (written, r, v, b, i, others)) =
          (written, ground (arith, others object.key, ==_refl object.key), b)

  replicate_put-present :
      (store : ObjectStore) (object x : MemoryObject) (r : ObjectStore × ThingdResult MemoryObject)
      (key : ObjectKey)
      → Outcome store object r
      → get key store.objects ≡ some x
      → (y : MemoryObject) × (get key (replicate_put field value_eq object r).0.objects ≡ some y)
  unfolding replicate_put
  replicate_put-present store object x (after, err e) key (inl (refused, same)) h =
      (x, ap (λ (s : ObjectStore). get key s.objects) same ∙ h)
  replicate_put-present store object x (after, err e) key (inr (stored, r, v, b, i, others)) h = cc
  replicate_put-present store object x (after, ok done) key (inl (refused, same)) h = cc
  replicate_put-present store object x (after, ok done) key (inr (stored, r, v, b, i, others)) h =
      let written = get-insert object.key key (replicate object done) after.objects in
      elim (Bool-cases (object.key == key)) [
        | inl e ↦ (replicate object done, ground (arith, written, e))
        | inr e ↦ (x, ground (arith, written, e, others key, h))
      ]

  -- An object that is there stays there under a put of the source's copy.
  pub put_object_with_source_metadata-present :
      (store : ObjectStore) (object x : MemoryObject) (options : PutObjectOptions) (now : Bytes)
      (key : ObjectKey)
      → get key store.objects ≡ some x
      → (y : MemoryObject) × (get key
            (put_object_with_source_metadata field value_eq store object options now).0.objects
          ≡ some y)
  unfolding put_object_with_source_metadata
  put_object_with_source_metadata-present store object x options now key h =
      elim (Bool-cases
        (guard_version source_matches (get object.key store.objects) options.expected_version)) [
          | inr e ↦ rw e (x, h)
          | inl e ↦ rw e (
              replicate_put-present store object x (put_object field value_eq store object now) key
                (put_object-Outcome field value_eq store object now) h)
        ]

  replicate_put-stored :
      (object stored : MemoryObject) (r : ObjectStore × ThingdResult MemoryObject)
      → (replicate_put field value_eq object r).1 ≡ ok stored
      → get object.key (replicate_put field value_eq object r).0.objects ≡ some stored
  unfolding replicate_put
  replicate_put-stored object stored (after, err e) h = cc
  replicate_put-stored object stored (after, ok done) h =
      let written = get-insert object.key object.key (replicate object done) after.objects in
      let here = ==_refl object.key in ground (arith, written, here, h)

  -- A put of the source's copy that succeeds stores what it returns.
  pub put_object_with_source_metadata-stored :
      (store : ObjectStore) (object stored : MemoryObject) (options : PutObjectOptions)
      (now : Bytes)
      → (put_object_with_source_metadata field value_eq store object options now).1 ≡ ok stored
      → get object.key
          (put_object_with_source_metadata field value_eq store object options now).0.objects
        ≡ some stored
  unfolding put_object_with_source_metadata
  put_object_with_source_metadata-stored store object stored options now h =
      elim (Bool-cases
        (guard_version source_matches (get object.key store.objects) options.expected_version)) [
          | inr e ↦ absurd (ground (arith, rw e at h))
          | inl e ↦ rw e (replicate_put-stored object stored _ (rw e at h))
        ]

  -- A put is refused for nothing but a conflict.
  pub put_object-refused :
      (store : ObjectStore) (object : MemoryObject) (now : Bytes) (x : ThingdError)
      → (put_object field value_eq store object now).1 ≡ err x
      → x ≡ conflict
  put_object-refused store object now x h =
      refused_in (put_object field value_eq store object now) h
        (put_object-Outcome field value_eq store object now)
    where
      refused_in :
          (r : ObjectStore × ThingdResult MemoryObject)
          → r.1 ≡ err x
          → Outcome store object r
          → x ≡ conflict
      refused_in (after, result) d (inl (refused, same)) = cc
      refused_in (after, result) d (inr (stored, r, v, b, i, others)) = cc
