-- ===== src/Replication/Bootstrap.antt =====
-- A replica that was bootstrapped from a snapshot: what it holds, and how it takes later changes.
use thingd.Base.{
  ℕ, ◌≤◌, Bytes, ◌≡◌, refl, ap, ◌∙◌, inl, inr, Bool, true, false, none, List, [], ◌∷◌, arith,
  Bool-cases, u64_max, ◌==◌, nat_ord, list_ord, pair_ord, list_beq, In, starts_with,
}
use thingd.Model.{MemoryEvent, ThingdResult, ok}
use thingd.Objects.{ObjectKey, MemoryObject}
use thingd.Objects
use thingd.Replication.{
  Json, state_collection, provenance_collection, ReplicationConfig, is_source, is_system, allowed,
  Engine, new_object, metadata_id, append_event, get_object, list_objects,
}
use thingd.Replication.Changes.{
  ReplicationApplyResult, ReplicationSnapshot, nothing_applied, read_applied_cursor,
  write_applied_cursor, is_present,
}
use thingd.Replication.Snapshot.{
  put_all, append_one, append_all, finish_snapshot, cleared, apply_snapshot, snapshot_limit,
}
use thingd.Replication.Frame.{
  Keeps, key_apart, and_then-Keeps, append_event-Keeps, put_object-Keeps,
}
use thingd.Replication.Checkpoint.{and_then-ok, read-written}
use thingd.Replication.Stored.{Holds, system_apart, put_all-In, put_all-Keeps, delete_allowed-Keeps}

module _ (j : Json) where
  append_all-Keeps :
      (key : ObjectKey) (now : Bytes) (events : List MemoryEvent) (e : Engine)
      → Keeps key e (append_all j now e events).0
  unfolding append_all append_one append_event
  append_all-Keeps key now [] e = refl
  append_all-Keeps key now (event ∷ more) e =
      and_then-Keeps key e (append_one j now e event) _
        (elim (Bool-cases (is_system event.stream)) [
          | inl y ↦ rw y refl
          | inr y ↦ rw y (append_event-Keeps key e event now)
        ])
        (λ e' done. append_all-Keeps key now more e')

  finish_snapshot-Keeps :
      (key : ObjectKey) (now : Bytes) (snapshot : ReplicationSnapshot j) (e : Engine)
      (r : ReplicationApplyResult)
      → (state_collection == key.0) ≡ false
      → Keeps key e (finish_snapshot j now snapshot e r).0
  unfolding finish_snapshot write_applied_cursor new_object
  finish_snapshot-Keeps key now snapshot e r apart =
      and_then-Keeps key e (append_all j now e snapshot.events) _
        (append_all-Keeps key now snapshot.events e)
        (λ e' done.
          and_then-Keeps key e' _ _ (put_object-Keeps j key e' _ now (key_apart _ _ key apart))
            (λ e'' written. refl))

  finish_snapshot-reads :
      (now : Bytes) (snapshot : ReplicationSnapshot j) (e e' : Engine)
      (r r' : ReplicationApplyResult)
      → snapshot.cursor ≤ u64_max
      → finish_snapshot j now snapshot e r ≡ (e', ok r')
      → read_applied_cursor j e' snapshot.source_id ≡ snapshot.cursor
  unfolding finish_snapshot
  finish_snapshot-reads now snapshot e e' r r' small h =
      let (e1, done, appended, rest) = and_then-ok (append_all j now e snapshot.events) _ e' r' h in
      let (e2, written, wrote, last) =
        and_then-ok (write_applied_cursor j e1 snapshot.source_id snapshot.cursor now) _ e' r'
          rest in
      let at : e2 ≡ e' = ap (λ (p : Engine × ThingdResult ReplicationApplyResult). p.0) last in
      rw (← at) (read-written j e1 e2 snapshot.source_id snapshot.cursor now small wrote)

  -- An engine in which a replicated object stands without provenance.
  pub record IsBootstrapped (e : Engine) (source_id c id : Bytes) (cursor : ℕ) : Type 0 where
    pub held : is_present j (get_object e c id) ≡ true
    pub unproven :
        is_present j (get_object e provenance_collection (metadata_id source_id c id)) ≡ false
    pub reads : read_applied_cursor j e source_id ≡ cursor

  Holds-present :
      (e : Engine) (c id : Bytes) → Holds (c, id) e → is_present j (get_object e c id) ≡ true
  unfolding get_object Objects.get_object is_present
  Holds-present e c id (x, h) = rw h refl

  none_there :
      (e e' : Engine) (m : Bytes)
      → get_object e provenance_collection m ≡ none
      → Keeps (provenance_collection, m) e e'
      → is_present j (get_object e' provenance_collection m) ≡ false
  unfolding get_object Objects.get_object is_present
  none_there e e' m h k = let gone = k ∙ h in rw gone refl

  cleared-Keeps :
      (config : ReplicationConfig) (replace : Bool) (key : ObjectKey) (e : Engine)
      → allowed config key.0 ≡ false
      → Keeps key e (cleared j config replace e)
  unfolding cleared
  cleared-Keeps config true key e a =
      delete_allowed-Keeps j config [] key (list_objects e snapshot_limit) e a
  cleared-Keeps config false key e a = refl

  system_not_allowed : (config : ReplicationConfig) → allowed config provenance_collection ≡ false
  unfolding allowed is_system starts_with list_beq
  system_not_allowed config = refl

  state_not_provenance : (state_collection == provenance_collection) ≡ false
  unfolding list_beq
  state_not_provenance = refl

  pub apply_snapshot-IsBootstrapped :
      (config : ReplicationConfig) (now : Bytes) (replace : Bool) (e e' : Engine)
      (snapshot : ReplicationSnapshot j) (result : ReplicationApplyResult) (object : MemoryObject)
      → apply_snapshot j config now replace e snapshot ≡ (e', ok result)
      → In object snapshot.objects
      → allowed config object.key.0 ≡ true
      → snapshot.cursor ≤ u64_max
      → get_object e provenance_collection
          (metadata_id snapshot.source_id object.key.0 object.key.1)
        ≡ none
      → IsBootstrapped e' snapshot.source_id object.key.0 object.key.1 snapshot.cursor
  unfolding apply_snapshot
  apply_snapshot-IsBootstrapped config now replace e e' snapshot result object h i a small gone =
      elim (Bool-cases (is_source config.role)) [
        | inl y ↦ absurd (ground (arith, rw (apply_snapshot, y) at h))
        | inr y ↦
            let m = metadata_id snapshot.source_id object.key.0 object.key.1 in
            let start = cleared j config replace e in
            let (e1, r1, put, rest) =
              and_then-ok (put_all j config now start nothing_applied snapshot.objects) _ e' result
                (rw (apply_snapshot, y) at h) in
            let at = ap (λ (p : Engine × ThingdResult ReplicationApplyResult). p.0) rest in
            let (x, here) =
              put_all-In j config now object snapshot.objects start e1 nothing_applied r1 put i a in
            let kept =
              finish_snapshot-Keeps object.key now snapshot e1 r1
                (system_apart config object.key.0 a) in
            let proof =
              finish_snapshot-Keeps (provenance_collection, m) now snapshot e1 r1
                state_not_provenance in
            let held_at : Keeps object.key e1 e' = (rw at at kept) in
            let proof_at : Keeps (provenance_collection, m) e1 e' = (rw at at proof) in
            record {
              held = Holds-present e' object.key.0 object.key.1 (x, held_at ∙ here);
              unproven = none_there e e' m gone (
                  proof_at
                  ∙ put_all-Keeps j config now (provenance_collection, m) snapshot.objects start e1
                      nothing_applied r1 (system_not_allowed config) put
                  ∙ cleared-Keeps config replace (provenance_collection, m) e
                      (system_not_allowed config));
              reads = finish_snapshot-reads now snapshot e1 e' r1 result small rest;
            }
      ]
