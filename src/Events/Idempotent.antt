-- ===== src/Events/Idempotent.antt =====
-- An append with a known key finds its first event again.
use thingd.Base.{
  ℕ, ◌≤◌, ◌<◌, Bytes, ◌≡◌, refl, ap, ◌∙◌, ◌≢◌, Bool, true, false, Option, none, some, List, [], ◌∷◌,
  ◌++◌, arith, if◌then◌else◌, u64_max, ==_iff, ==_refl, nat_ord, list_ord, pair_ord, find,
}
use thingd.Base.BTreeMap.{BTreeMap, get, get-insert}
use thingd.Model.{MemoryEvent, ok}
use thingd.Events.{
  EventLog, add_one_u64, has_sequence, is_empty, known_event, stamp_event, track_key, store_event,
  append_unless, append_event,
}
use thingd.Events.Order.{Rising, IsOrdered}

-- A run of appends, with their clock readings.
unfoldable pub append_all : EventLog → List (MemoryEvent × Bytes) → EventLog
append_all log [] = log
append_all log ((event, now) ∷ more) = append_all (append_event log event now).0 more

find-append :
    (p : MemoryEvent → Bool) (xs ys : List MemoryEvent) (e : MemoryEvent)
    → find p xs ≡ some e
    → find p (xs ++ ys) ≡ some e
find-append p [] ys e h = cc
find-append p (x ∷ xs) ys e h = ground (arith, find-append p xs ys e)

find-fresh :
    (low high n : ℕ) (xs : List MemoryEvent)
    → Rising low xs high
    → high < n
    → find (has_sequence n) xs ≡ none
find-fresh low high n [] r h = refl
find-fresh low high n (x ∷ xs) r h =
    let rest = find-fresh x.sequence high n xs (r.1) h in
    let small = below x.sequence high xs (r.1) in ground (arith, ==_iff x.sequence n, rest, small)
  where
    below : (low high : ℕ) (xs : List MemoryEvent) → Rising low xs high → low ≤ high
    below low high [] r = r
    below low high (x ∷ xs) r = omega (arith, r.0, below x.sequence high xs (r.1))

find-append-fresh :
    (n : ℕ) (xs : List MemoryEvent) (e : MemoryEvent)
    → find (has_sequence n) xs ≡ none
    → e.sequence ≡ n
    → find (has_sequence n) (xs ++ e ∷ []) ≡ some e
find-append-fresh n [] e h s = ground (arith, ==_iff e.sequence n, s)
find-append-fresh n (x ∷ xs) e h s = ground (arith, find-append-fresh n xs e, s)

-- Only the stream and the key of an event matter for finding it again.
known_event-same :
    (log : EventLog) (a b : MemoryEvent)
    → a.stream ≡ b.stream
    → a.idempotency_key ≡ b.idempotency_key
    → known_event log a ≡ known_event log b
unfolding known_event
known_event-same log a b s k = rw (s, k) refl

known_event-get :
    (log : EventLog) (event e : MemoryEvent)
    → known_event log event ≡ some e
    → (n : ℕ) × (is_empty event.idempotency_key ≡ false)
      × (get (event.stream, event.idempotency_key) log.event_idempotency_keys ≡ some n)
      × (find (has_sequence n) log.events ≡ some e)
unfolding known_event
known_event-get log event e h =
    given (is_empty event.idempotency_key) refl
      (get (event.stream, event.idempotency_key) log.event_idempotency_keys) refl h
  where
    given :
        (b : Bool)
        → is_empty event.idempotency_key ≡ b
        → (o : Option ℕ) → get (event.stream, event.idempotency_key) log.event_idempotency_keys ≡ o
        → (if b then none else elim o [
          | none ↦ none
          | some existing_seq ↦ find (has_sequence existing_seq) log.events
        ])
          ≡ some e
        → (n : ℕ) × (is_empty event.idempotency_key ≡ false)
          × (get (event.stream, event.idempotency_key) log.event_idempotency_keys ≡ some n)
          × (find (has_sequence n) log.events ≡ some e)
    given true y o z h = cc
    given false y none z h = cc
    given false y (some n) z h = (n, y, z, h)

-- A stored event is found by its stream and key.
known_event-store_event :
    (log : EventLog) (event : MemoryEvent) (now : Bytes)
    → IsOrdered log
    → log.next_event_sequence < u64_max
    → is_empty event.idempotency_key ≡ false
    → known_event
        (store_event log (stamp_event (add_one_u64 log.next_event_sequence) now event))
        event
      ≡ some (stamp_event (add_one_u64 log.next_event_sequence) now event)
unfolding known_event store_event stamp_event track_key
known_event-store_event log event now ordered room k =
    rw
      (
        k,
        get-insert (event.stream, event.idempotency_key) (event.stream, event.idempotency_key)
            (add_one_u64 log.next_event_sequence) log.event_idempotency_keys,
        ==_refl {A = Bytes × Bytes} (event.stream, event.idempotency_key),
      )
      (find-append-fresh (add_one_u64 log.next_event_sequence) log.events _
        (find-fresh 0 log.next_event_sequence (add_one_u64 log.next_event_sequence) log.events
          ordered (unfold add_one_u64 in omega (arith, room)))
        refl)

known_event-found :
    (log : EventLog) (event e : MemoryEvent) (n : ℕ)
    → is_empty event.idempotency_key ≡ false
    → get (event.stream, event.idempotency_key) log.event_idempotency_keys ≡ some n
    → find (has_sequence n) log.events ≡ some e
    → known_event log event ≡ some e
unfolding known_event
known_event-found log event e n k g f = rw (k, g) f

-- A key that is tracked for another event leaves what is known of this one.
track_key-get :
    (other : MemoryEvent) (key : Bytes × Bytes) (keys : BTreeMap (Bytes × Bytes) ℕ)
    → ◌≢◌ {A = Bytes × Bytes} (other.stream, other.idempotency_key) key
    → get key (track_key other keys) ≡ get key keys
unfolding track_key
track_key-get other key keys apart = ground (
  arith,
  get-insert (other.stream, other.idempotency_key) key other.sequence keys,
  ==_iff {A = Bytes × Bytes} (other.stream, other.idempotency_key) key,
)

-- Storing another event leaves what is found.
known_event-store_other :
    (log : EventLog) (event other e : MemoryEvent) (n : ℕ) (now : Bytes)
    → known_event log event ≡ some e
    → known_event log other ≡ none
    → known_event (store_event log (stamp_event n now other)) event ≡ some e
unfolding store_event stamp_event
known_event-store_other log event other e n now h o =
    let (m, k, g, f) = known_event-get log event e h in
    known_event-found (store_event log (stamp_event n now other)) event e m k
      (track_key-get (stamp_event n now other) (event.stream, event.idempotency_key)
          log.event_idempotency_keys distinct
        ∙ g)
      (find-append (has_sequence m) log.events _ e f)
  where
    distinct :
        ◌≢◌ {A = Bytes × Bytes}
          (other.stream, other.idempotency_key)
          (event.stream, event.idempotency_key)
    distinct same =
        let known =
          known_event-same log other event (ap (λ (p : Bytes × Bytes). p.0) same)
            (ap (λ (p : Bytes × Bytes). p.1) same) in
        cc

append_event-known :
    (log : EventLog) (event other e : MemoryEvent) (now : Bytes)
    → known_event log event ≡ some e
    → known_event (append_event log other now).0 event ≡ some e
unfolding append_event
append_event-known log event other e now h = given (known_event log other) refl
  where
    given :
        (o : Option MemoryEvent)
        → known_event log other ≡ o
        → known_event (append_unless log other now o).0 event ≡ some e
    given (some existing) y = unfold append_unless in h
    given none y =
        unfold append_unless in
        known_event-store_other log event other e (add_one_u64 log.next_event_sequence) now h y

append_all-known :
    (log : EventLog) (event e : MemoryEvent) (more : List (MemoryEvent × Bytes))
    → known_event log event ≡ some e
    → known_event (append_all log more) event ≡ some e
unfolding append_all
append_all-known log event e [] h = h
append_all-known log event e ((other, now) ∷ more) h =
    append_all-known (append_event log other now).0 event e more
      (append_event-known log event other e now h)

append_event-first :
    (log : EventLog) (event stored : MemoryEvent) (now : Bytes)
    → IsOrdered log
    → log.next_event_sequence < u64_max
    → is_empty event.idempotency_key ≡ false
    → (append_event log event now).1 ≡ ok stored
    → known_event (append_event log event now).0 event ≡ some stored
unfolding append_event
append_event-first log event stored now ordered room k h = given (known_event log event) refl h
  where
    given :
        (o : Option MemoryEvent)
        → known_event log event ≡ o
        → (append_unless log event now o).1 ≡ ok stored
        → known_event (append_unless log event now o).0 event ≡ some stored
    given (some existing) y z =
        unfold append_unless in let same : existing ≡ stored = cc in y ∙ ap some same
    given none y z =
        unfold append_unless in
        let same : stamp_event (add_one_u64 log.next_event_sequence) now event ≡ stored = cc in
        known_event-store_event log event now ordered room k ∙ ap some same

-- Take a log whose sequences rise and have room for one more. An event with an idempotency key is
-- appended, then any other events are. Appending an event of the same stream and key again returns
-- the event that was stored first, and leaves the log as it is.
pub append_event-again :
    (log : EventLog) (event again stored : MemoryEvent) (now later : Bytes)
    (more : List (MemoryEvent × Bytes))
    → IsOrdered log
    → log.next_event_sequence < u64_max
    → is_empty event.idempotency_key ≡ false
    → (append_event log event now).1 ≡ ok stored
    → again.stream ≡ event.stream
    → again.idempotency_key ≡ event.idempotency_key
    → append_event (append_all (append_event log event now).0 more) again later
      ≡ (append_all (append_event log event now).0 more, ok stored)
append_event-again log event again stored now later more ordered room k h s j =
    again_known (append_all (append_event log event now).0 more) (
      known_event-same _ again event s j
      ∙ append_all-known (append_event log event now).0 event stored more
          (append_event-first log event stored now ordered room k h))
  where
    again_known :
        (state : EventLog)
        → known_event state again ≡ some stored
        → append_event state again later ≡ (state, ok stored)
    again_known state e = unfold append_event in unfold append_unless in rw e refl
