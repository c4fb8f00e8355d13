-- ===== src/Events.antt =====
-- The event log of `MemoryEngine` (crates/thingd/src/in_memory.rs). The clock reading that an append
-- makes is its argument `now`; a `usize` is taken to be 64 bits wide.
pub mod Order
pub mod Protected
pub mod Idempotent
pub mod Paging
mod Tests
use thingd.Base.{
  ℕ, zero, suc, ◌+◌, ◌-◌, ◌*◌, ◌/◌, ◌%◌, ◌^◌, ◌≤◌, ◌<◌, min, max, Bytes, codes, ◌≡◌, refl, sym, ap,
  ◌∙◌, ◌≢◌, ◌↔◌, ◌⊎◌, inl, inr, Bool, true, false, not, ◌&&◌, ◌||◌, Option, none, some, List, [],
  ◌∷◌, ◌++◌, map, arith, ltb, leb, nat_beq, ltb→lt, lt→ltb, leb→le, le→leb, Bool-cases,
  Option-cases, if◌then◌else◌, u32_max, u64_max, i64_max, sat_add, Ord, ◌==◌, ◌<?◌, ==_iff, ==_refl,
  nat_ord, list_ord, pair_ord, list_beq, list_blt, length, take, drop, find, any, all, filter,
  last?, All, In, Empty, update_find, find-test, find-In, find-none-In, length-append, length-take,
  length-drop, take-append, drop-append, length-filter-le, contains, starts_with,
  starts_with-append,
}
use thingd.Base.BTreeMap.{BTreeMap, get, insert}
use thingd.Model.{MemoryEvent, ListEventsOptions, ThingdResult, ok, err, protected}

pub record EventLog : Type 0 where
  pub events : List MemoryEvent
  pub next_event_sequence : ℕ
  pub event_idempotency_keys : BTreeMap (Bytes × Bytes) ℕ

-- `n += 1` on a `u64`, in a build that wraps around.
unfoldable pub add_one_u64 : ℕ → ℕ
add_one_u64 n = (n + 1) % (u64_max + 1)

abbrev pub protected_stream : Bytes
protected_stream = codes "__thingd:mcp:audit"

unfoldable pub is_protected_stream : Bytes → Bool
is_protected_stream stream = stream == protected_stream

abbrev pub of_stream : Bytes → MemoryEvent → Bool
of_stream stream event = event.stream == stream

abbrev pub has_sequence : ℕ → MemoryEvent → Bool
has_sequence sequence event = event.sequence == sequence

abbrev pub is_empty : Bytes → Bool
is_empty [] = true
is_empty (b ∷ bs) = false

-- The event that an append with this stream and key finds again.
unfoldable pub known_event : EventLog → MemoryEvent → Option MemoryEvent
known_event log event =
    if is_empty event.idempotency_key
    then none
    else elim (get (event.stream, event.idempotency_key) log.event_idempotency_keys) [
      | none ↦ none
      | some existing_seq ↦ find (has_sequence existing_seq) log.events
    ]

-- The event as it is stored.
unfoldable pub stamp_event : ℕ → Bytes → MemoryEvent → MemoryEvent
stamp_event sequence now event = record event {
  sequence = sequence;
  created_at = if is_empty event.created_at then now else event.created_at;
}

unfoldable pub track_key : MemoryEvent → BTreeMap (Bytes × Bytes) ℕ → BTreeMap (Bytes × Bytes) ℕ
track_key event keys =
    if is_empty event.idempotency_key
    then keys
    else insert (event.stream, event.idempotency_key) event.sequence keys

unfoldable pub store_event : EventLog → MemoryEvent → EventLog
store_event log event = record {
  events = log.events ++ event ∷ [];
  next_event_sequence = event.sequence;
  event_idempotency_keys = track_key event log.event_idempotency_keys;
}

-- The end of an append: the event that was found, or the new one in the log.
unfoldable pub append_unless :
    EventLog → MemoryEvent → Bytes → Option MemoryEvent → EventLog × ThingdResult MemoryEvent
append_unless log event now (some existing) = (log, ok existing)
append_unless log event now none =
    let stored = stamp_event (add_one_u64 log.next_event_sequence) now event in
    (store_event log stored, ok stored)

unfoldable pub append_event : EventLog → MemoryEvent → Bytes → EventLog × ThingdResult MemoryEvent
append_event log event now = append_unless log event now (known_event log event)

unfoldable pub in_stream : Option Bytes → MemoryEvent → Bool
in_stream none event = true
in_stream (some target) event = event.stream == target

unfoldable pub is_after : Option ℕ → MemoryEvent → Bool
is_after none event = true
is_after (some seq) event = ltb seq event.sequence

unfoldable pub is_since : Option Bytes → MemoryEvent → Bool
is_since none event = true
is_since (some since) event = not (event.created_at <? since)

unfoldable pub up_to {ℓ} : {A : Type ℓ} → Option ℕ → List A → List A
up_to none xs = xs
up_to (some limit) xs = take limit xs

unfoldable pub list_events : EventLog → Option Bytes → ListEventsOptions → List MemoryEvent
list_events log stream options = up_to options.limit (
    filter (is_since options.since)
      (filter (is_after options.from_sequence) (filter (in_stream stream) log.events)))

unfoldable pub count_events : EventLog → ℕ
count_events log = length log.events

-- `sort` and `dedup` of texts
unfoldable pub insert_text : Bytes → List Bytes → List Bytes
insert_text t [] = t ∷ []
insert_text t (u ∷ us) = let rest = insert_text t us in if u <? t then u ∷ rest else t ∷ u ∷ us

unfoldable pub sort_texts : List Bytes → List Bytes
sort_texts [] = []
sort_texts (t ∷ ts) = insert_text t (sort_texts ts)

unfoldable pub dedup : List Bytes → List Bytes
dedup [] = []
dedup (t ∷ []) = t ∷ []
dedup (t ∷ u ∷ us) = let rest = dedup (u ∷ us) in if t == u then rest else t ∷ rest

unfoldable pub list_streams : EventLog → List Bytes
list_streams log = dedup (sort_texts (map (λ event. event.stream) log.events))

-- `rposition`, and `remove` at what it finds
unfoldable pub remove_at :
    (MemoryEvent → Bool)
    → MemoryEvent
    → List MemoryEvent
    → Option (MemoryEvent × List MemoryEvent)
    → Option (MemoryEvent × List MemoryEvent)
remove_at p x xs (some (found, rest)) = some (found, x ∷ rest)
remove_at p x xs none = if p x then some (x, xs) else none

unfoldable pub remove_last :
    (MemoryEvent → Bool) → List MemoryEvent → Option (MemoryEvent × List MemoryEvent)
remove_last p [] = none
remove_last p (x ∷ xs) = remove_at p x xs (remove_last p xs)

unfoldable pub without_last :
    EventLog
    → Option (MemoryEvent × List MemoryEvent)
    → EventLog × ThingdResult (Option MemoryEvent)
without_last log (some (found, rest)) = (record log { events = rest }, ok (some found))
without_last log none = (log, ok none)

unfoldable pub delete_last_event : EventLog → Bytes → EventLog × ThingdResult (Option MemoryEvent)
delete_last_event log stream =
    if is_protected_stream stream
    then (log, err protected)
    else without_last log (remove_last (of_stream stream) log.events)

unfoldable pub delete_stream : EventLog → Bytes → EventLog × ThingdResult ℕ
delete_stream log stream =
    let kept = filter (λ event. not (of_stream stream event)) log.events in
    if is_protected_stream stream
    then (log, err protected)
    else (record log { events = kept }, ok (length log.events - length kept))

-- The calls of `EventLog` that change the log, with the clock reading of an append.
pub data Op : Type 0 where
  append : MemoryEvent → Bytes → Op
  delete_last : Bytes → Op
  delete_all : Bytes → Op

unfoldable pub step : EventLog → Op → EventLog
step log (append event now) = (append_event log event now).0
step log (delete_last stream) = (delete_last_event log stream).0
step log (delete_all stream) = (delete_stream log stream).0

unfoldable pub run : EventLog → List Op → EventLog
run log [] = log
run log (op ∷ ops) = run (step log op) ops
