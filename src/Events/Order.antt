-- ===== src/Events/Order.antt =====
-- The sequences of the log rise, and no event of the protected stream is lost.
use thingd.Base.{
  ℕ, ◌+◌, ◌≤◌, ◌<◌, Bytes, ◌≡◌, refl, inl, inr, Bool, true, false, not, Option, none, some, List,
  [], ◌∷◌, ◌++◌, arith, Bool-cases, Option-cases, u64_max, nat_ord, list_ord, pair_ord, length,
  filter,
}
use thingd.Model.{MemoryEvent}
use thingd.Events.{
  EventLog, add_one_u64, of_stream, known_event, stamp_event, store_event, append_unless,
  append_event, remove_at, remove_last, without_last, delete_last_event, delete_stream, Op, append,
  delete_last, delete_all, step, run,
}

-- Sequences rise strictly along the list, from above a number up to another.
abbrev pub Rising : ℕ → List MemoryEvent → ℕ → Type 0
Rising low [] high = low ≤ high
Rising low (event ∷ events) high = (low < event.sequence) × Rising event.sequence events high

abbrev pub IsOrdered : EventLog → Type 0
IsOrdered log = Rising 0 log.events log.next_event_sequence

Rising-append :
    (low high : ℕ) (events : List MemoryEvent) (event : MemoryEvent)
    → Rising low events high
    → high < event.sequence
    → Rising low (events ++ event ∷ []) event.sequence
Rising-append low high [] event r h = (omega (arith, r, h), omega arith)
Rising-append low high (e ∷ events) event r h =
    (r.0, Rising-append e.sequence high events event (r.1) h)

Rising-lower :
    (low lower high : ℕ) (events : List MemoryEvent)
    → lower ≤ low
    → Rising low events high
    → Rising lower events high
Rising-lower low lower high [] l r = omega (arith, l, r)
Rising-lower low lower high (e ∷ events) l r = (omega (arith, l, r.0), r.1)

Rising-filter :
    (p : MemoryEvent → Bool) (low high : ℕ) (events : List MemoryEvent)
    → Rising low events high
    → Rising low (filter p events) high
Rising-filter p low high [] r = r
Rising-filter p low high (e ∷ events) r = elim (Bool-cases (p e)) [
  | inl y ↦ rw (y, Rising) (r.0, Rising-filter p e.sequence high events (r.1))
  | inr y ↦
      rw (y, Rising)
        (Rising-lower e.sequence low high (filter p events) (omega (arith, r.0))
          (Rising-filter p e.sequence high events (r.1)))
]

-- What a removal leaves behind.
abbrev Left :
    (MemoryEvent → Bool)
    → ℕ
    → List MemoryEvent
    → ℕ
    → Option (MemoryEvent × List MemoryEvent)
    → Type 0
Left p low events high none = Unit
Left p low events high (some (found, rest)) =
    Rising low rest high
    × ((q : MemoryEvent → Bool)
        → ((e : MemoryEvent) → q e ≡ true → p e ≡ false)
        → filter q rest ≡ filter q events)

remove_at-Left :
    (p : MemoryEvent → Bool) (low high : ℕ) (e : MemoryEvent) (events : List MemoryEvent)
    (o : Option (MemoryEvent × List MemoryEvent)) (b : Bool)
    → p e ≡ b
    → Rising low (e ∷ events) high
    → Left p e.sequence events high o
    → Left p low (e ∷ events) high (remove_at p e events o)
unfolding remove_at
remove_at-Left p low high e events none true y r l =
    rw (y, Left)
      (
        Rising-lower e.sequence low high events (omega (arith, r.0)) (r.1),
        λ q apart. ground (arith, apart e, y),
      )
remove_at-Left p low high e events none false y r l = rw (y, Left) tt
remove_at-Left p low high e events (some (found, rest)) b y r l =
    ((r.0, l.0), λ q apart. ground (arith, l.1 q apart))

remove_last-Left :
    (p : MemoryEvent → Bool) (low high : ℕ) (events : List MemoryEvent)
    → Rising low events high
    → Left p low events high (remove_last p events)
unfolding remove_last
remove_last-Left p low high [] r = tt
remove_last-Left p low high (e ∷ events) r =
    remove_at-Left p low high e events (remove_last p events) (p e) refl r
      (remove_last-Left p e.sequence high events (r.1))

append_unless-IsOrdered :
    (log : EventLog) (event : MemoryEvent) (now : Bytes) (o : Option MemoryEvent)
    → IsOrdered log
    → log.next_event_sequence < u64_max
    → IsOrdered (append_unless log event now o).0
unfolding append_unless store_event stamp_event add_one_u64
append_unless-IsOrdered log event now (some existing) ordered room = ordered
append_unless-IsOrdered log event now none ordered room =
    Rising-append 0 log.next_event_sequence log.events _ ordered (omega (arith, room))

without_last-IsOrdered :
    (log : EventLog) (p : MemoryEvent → Bool) (o : Option (MemoryEvent × List MemoryEvent))
    → IsOrdered log
    → Left p 0 log.events log.next_event_sequence o
    → IsOrdered (without_last log o).0
unfolding without_last
without_last-IsOrdered log p none ordered l = ordered
without_last-IsOrdered log p (some (found, rest)) ordered l = l.0

pub step-IsOrdered :
    (log : EventLog) (op : Op)
    → IsOrdered log
    → log.next_event_sequence < u64_max
    → IsOrdered (step log op)
unfolding step append_event delete_last_event delete_stream
step-IsOrdered log (append event now) ordered room =
    append_unless-IsOrdered log event now (known_event log event) ordered room
step-IsOrdered log (delete_last stream) ordered room = ground (
  arith,
  without_last-IsOrdered log (of_stream stream) (remove_last (of_stream stream) log.events) ordered
      (remove_last-Left (of_stream stream) 0 log.next_event_sequence log.events ordered),
)
step-IsOrdered log (delete_all stream) ordered room = ground (
  arith,
  Rising-filter (λ event. not (of_stream stream event)) 0 log.next_event_sequence log.events
      ordered,
)

step-next :
    (log : EventLog) (op : Op)
    → log.next_event_sequence < u64_max
    → (step log op).next_event_sequence ≤ log.next_event_sequence + 1
unfolding step append_event delete_last_event delete_stream append_unless store_event stamp_event
    add_one_u64 without_last
step-next log (append event now) room = ground (arith, Option-cases (known_event log event))
step-next log (delete_last stream) room =
    ground (arith, Option-cases (remove_last (of_stream stream) log.events))
step-next log (delete_all stream) room = ground arith

-- Through any appends and deletions, while the sequence has room in its 64 bits, the sequences rise
-- strictly in the order of the log, start above zero and do not pass the last one given out.
pub run-IsOrdered :
    (log : EventLog) (ops : List Op)
    → IsOrdered log
    → log.next_event_sequence + length ops ≤ u64_max
    → IsOrdered (run log ops)
unfolding run
run-IsOrdered log [] ordered room = ordered
run-IsOrdered log (op ∷ ops) ordered room =
    run-IsOrdered (step log op) ops (step-IsOrdered log op ordered (omega (arith, room)))
      (omega (arith, room, step-next log op (omega (arith, room))))
