-- ===== src/Replication/Stored.antt =====
-- What the objects of a snapshot leave in a replica, and what they leave alone.
use thingd.Base.{
  ℕ, Bytes, ◌≡◌, refl, sym, ap, ◌∙◌, ◌⊎◌, inl, inr, true, false, Option, none, some, List, [], ◌∷◌,
  arith, Bool-cases, ◌==◌, ==_iff, nat_ord, list_ord, pair_ord, list_beq, In, starts_with,
}
use thingd.Base.BTreeMap.{get}
use thingd.Model.{ThingdResult, ok, err}
use thingd.Objects.{ObjectKey, MemoryObject}
use thingd.Objects
use thingd.Objects.Others.{
  delete_object-other, put_object_with_source_metadata-present,
  put_object_with_source_metadata-stored,
}
use thingd.Replication.{
  Json, state_collection, ReplicationConfig, is_system, allowed, Engine, delete_object,
  put_with_source,
}
use thingd.Replication.Changes.{ReplicationApplyResult}
use thingd.Replication.Snapshot.{delete_allowed, put_one, put_all}
use thingd.Replication.Frame.{Keeps, allowed_apart, key_apart, put_with_source-Keeps}
use thingd.Replication.Checkpoint.{and_then-ok}

-- An object stands under the key.
abbrev pub Holds : ObjectKey → Engine → Type 0
Holds key e = (x : MemoryObject) × (get key e.store.objects ≡ some x)

pub system_apart :
    (config : ReplicationConfig) (c : Bytes)
    → allowed config c ≡ true
    → (state_collection == c) ≡ false
unfolding allowed is_system starts_with list_beq
system_apart config c a = elim (Bool-cases (state_collection == c)) [
  | inr e ↦ e
  | inl e ↦
      let same : allowed config state_collection ≡ true =
        (ap (allowed config) ((==_iff state_collection c).0 e) ∙ a) in
      absurd (let x : false ≡ true = same in cc)
]

module _ (j : Json) where
  put_with_source-Holds :
      (key : ObjectKey) (e : Engine) (object : MemoryObject) (expected : Option ℕ) (now : Bytes)
      → Holds key e
      → Holds key (put_with_source j e object expected now).0
  unfolding put_with_source
  put_with_source-Holds key e object expected now (x, h) =
      put_object_with_source_metadata-present j.indexed j.value_eq e.store object x _ now key h

  put_with_source-stored :
      (e e' : Engine) (object : MemoryObject) (expected : Option ℕ) (now : Bytes)
      → put_with_source j e object expected now ≡ (e', ok tt)
      → Holds object.key e'
  unfolding put_with_source
  put_with_source-stored e e' object expected now w =
      stored_in
        (Objects.put_object_with_source_metadata j.indexed j.value_eq e.store object
          (record { index = true; expected_version = expected }) now)
        (λ stored.
          put_object_with_source_metadata-stored j.indexed j.value_eq e.store object stored _ now)
        w
    where
      stored_in :
          (r : Objects.ObjectStore × ThingdResult MemoryObject)
          → ((stored : MemoryObject) → r.1 ≡ ok stored → get object.key r.0.objects ≡ some stored)
          → ◌≡◌ {A = Engine × ThingdResult (Unit {0})}
              (record e { store = r.0 }, elim r.1 [ ok stored ↦ ok tt | err x ↦ err x ])
              (e', ok tt)
          → Holds object.key e'
      stored_in (store, err x) f w = cc
      stored_in (store, ok stored) f w =
          let same : store ≡ e'.store =
            ap (λ (x : Engine × ThingdResult (Unit {0})). x.0.store) w in
          (stored, rw (← same) (f stored refl))

  module _ (config : ReplicationConfig) (now : Bytes) where
    put_one-forms :
        (e e' : Engine) (r r' : ReplicationApplyResult) (object : MemoryObject)
        → put_one j config now e r object ≡ (e', ok r')
        → ((allowed config object.key.0 ≡ false) × (e ≡ e'))
          ⊎ ((allowed config object.key.0 ≡ true)
              × (put_with_source j e object none now ≡ (e', ok tt)))
    unfolding put_one
    put_one-forms e e' r r' object h = elim (Bool-cases (allowed config object.key.0)) [
      | inr y ↦
          let k = rw (put_one, y) at h in
          inl (y, ap (λ (p : Engine × ThingdResult ReplicationApplyResult). p.0) k)
      | inl y ↦
          let (e1, done, put, k) =
            and_then-ok (put_with_source j e object none now) _ e' r' (rw (put_one, y) at h) in
          let same : e1 ≡ e' = ap (λ (p : Engine × ThingdResult ReplicationApplyResult). p.0) k in
          inr (y, rw same at put)
    ]

    put_one-Holds :
        (key : ObjectKey) (e e' : Engine) (r r' : ReplicationApplyResult) (object : MemoryObject)
        → put_one j config now e r object ≡ (e', ok r')
        → Holds key e
        → Holds key e'
    put_one-Holds key e e' r r' object h (x, there) = elim (put_one-forms e e' r r' object h) [
      | inl (y, same) ↦ (x, rw (← same) there)
      | inr (y, put) ↦
          let (z, found) = put_with_source-Holds key e object none now (x, there) in
          let at = ap (λ (p : Engine × ThingdResult (Unit {0})). get key p.0.store.objects) put in
          (z, sym at ∙ found)
    ]

    put_all-Holds :
        (key : ObjectKey) (objects : List MemoryObject) (e e' : Engine)
        (r r' : ReplicationApplyResult)
        → put_all j config now e r objects ≡ (e', ok r')
        → Holds key e
        → Holds key e'
    unfolding put_all
    put_all-Holds key [] e e' r r' h (x, there) =
        let same : e ≡ e' = ap (λ (p : Engine × ThingdResult ReplicationApplyResult). p.0) h in
        (x, rw (← same) there)
    put_all-Holds key (object ∷ more) e e' r r' h holds =
        let (e1, r1, one, rest) = and_then-ok (put_one j config now e r object) _ e' r' h in
        put_all-Holds key more e1 e' r1 r' rest (put_one-Holds key e e1 r r1 object one holds)

    -- Every object of the snapshot that may be replicated is there.
    pub put_all-In :
        (object : MemoryObject) (objects : List MemoryObject) (e e' : Engine)
        (r r' : ReplicationApplyResult)
        → put_all j config now e r objects ≡ (e', ok r')
        → In object objects
        → allowed config object.key.0 ≡ true
        → Holds object.key e'
    unfolding put_all
    put_all-In object [] e e' r r' h i a = elim i [ ]
    put_all-In object (first ∷ more) e e' r r' h (inr i) a =
        let (e1, r1, one, rest) = and_then-ok (put_one j config now e r first) _ e' r' h in
        put_all-In object more e1 e' r1 r' rest i a
    put_all-In object (first ∷ more) e e' r r' h (inl same) a =
        let (e1, r1, one, rest) = and_then-ok (put_one j config now e r first) _ e' r' h in
        let here : Holds object.key e1 = elim (put_one-forms e e1 r r1 first one) [
          | inl (y, z) ↦ absurd (
              let x = ap (λ (o : MemoryObject). allowed config o.key.0) same in
              ground (arith, x, y, a))
          | inr (y, put) ↦ rw same (put_with_source-stored e e1 first none now put)
        ] in
        put_all-Holds object.key more e1 e' r1 r' rest here

    -- What no snapshot writes: a key outside the replicated collections.
    pub put_all-Keeps :
        (key : ObjectKey) (objects : List MemoryObject) (e e' : Engine)
        (r r' : ReplicationApplyResult)
        → allowed config key.0 ≡ false
        → put_all j config now e r objects ≡ (e', ok r')
        → Keeps key e e'
    unfolding put_all
    put_all-Keeps key [] e e' r r' a h =
        ap (λ (p : Engine × ThingdResult ReplicationApplyResult). get key p.0.store.objects) (sym h)
    put_all-Keeps key (object ∷ more) e e' r r' a h =
        let (e1, r1, one, rest) = and_then-ok (put_one j config now e r object) _ e' r' h in
        let first : Keeps key e e1 = elim (put_one-forms e e1 r r1 object one) [
          | inl (y, same) ↦ ap (λ (x : Engine). get key x.store.objects) (sym same)
          | inr (y, put) ↦
              let apart =
                key_apart object.key.0 object.key.1 key
                  (allowed_apart config object.key.0 key.0 y a) in
              let kept = put_with_source-Keeps j key e object none now apart in
              let at =
                ap (λ (p : Engine × ThingdResult (Unit {0})). get key p.0.store.objects) put in
              sym at ∙ kept
        ] in
        put_all-Keeps key more e1 e' r1 r' a rest ∙ first

    pub delete_allowed-Keeps :
        (key : ObjectKey) (objects : List MemoryObject) (e : Engine)
        → allowed config key.0 ≡ false
        → Keeps key e (delete_allowed j config e objects)
    unfolding delete_allowed delete_object
    delete_allowed-Keeps key [] e a = refl
    delete_allowed-Keeps key (object ∷ more) e a = elim (Bool-cases (allowed config object.key.0)) [
      | inr y ↦ rw (y, delete_allowed) (delete_allowed-Keeps key more e a)
      | inl y ↦
          let apart =
            key_apart object.key.0 object.key.1 key (allowed_apart config object.key.0 key.0 y a) in
          rw (y, delete_allowed)
            (delete_allowed-Keeps key more (delete_object e object.key.0 object.key.1) a
              ∙ delete_object-other e.store object.key.0 object.key.1 key apart)
    ]
