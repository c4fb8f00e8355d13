-- ===== src/Events/Tests.antt =====
-- The event log's properties at a concrete log.
use thingd.Base.{
  Bytes, codes, ◌≡◌, refl, none, some, List, [], ◌∷◌, ◌++◌, map, arith, nat_ord, list_ord, pair_ord,
  list_beq, list_blt,
}
use thingd.Base.BTreeMap.{get, insert}
use thingd.Model.{MemoryEvent, new_event, ok, err, protected}
use thingd.Events.{
  EventLog, add_one_u64, protected_stream, is_protected_stream, known_event, stamp_event, track_key,
  store_event, append_unless, append_event, in_stream, is_after, is_since, up_to, list_events,
  count_events, insert_text, sort_texts, dedup, list_streams, remove_at, remove_last, without_last,
  delete_last_event, delete_stream, Op, append, delete_last, delete_all, step, run,
}
use thingd.Base.{pair_beq}
use thingd.Events.Order.{IsOrdered, run-IsOrdered}
use thingd.Events.Protected.{Extends, audit, run-Extends}
use thingd.Events.Idempotent.{append_all, append_event-again}
use thingd.Events.Paging.{from, list_events-pages}

program : Unit {0}
unfolding add_one_u64 is_protected_stream known_event stamp_event track_key store_event
    append_unless append_event in_stream is_after is_since up_to list_events count_events
    insert_text sort_texts dedup list_streams remove_at remove_last without_last delete_last_event
    delete_stream step run append_all get insert new_event list_beq list_blt pair_beq
program = tt

abbrev blank : EventLog
blank = record { events = []; next_event_sequence = 0; event_idempotency_keys = [] }

abbrev orders : Bytes
orders = codes "orders"

abbrev paid : Bytes
paid = codes "paid"

abbrev keyed : MemoryEvent
keyed = record (new_event orders paid (codes "1")) { idempotency_key = codes "k" }

abbrev history : List Op
history =
    append (new_event orders paid (codes "0")) (codes "t0")
    ∷ append (new_event protected_stream paid (codes "a")) (codes "t1")
    ∷ append keyed (codes "t2")
    ∷ delete_last protected_stream
    ∷ delete_all protected_stream
    ∷ append keyed (codes "t3")
    ∷ delete_last orders
    ∷ append (new_event (codes "mail") paid (codes "2")) (codes "t4")
    ∷ []

history_ends :
    (map (λ (e : MemoryEvent). e.sequence) (run blank history).events ≡ 1 ∷ 2 ∷ 4 ∷ [])
    × (list_streams (run blank history) ≡ protected_stream ∷ codes "mail" ∷ orders ∷ [])
    × ((delete_stream (run blank history) protected_stream).1 ≡ err protected)
    × (count_events (delete_stream (run blank history) orders).0 ≡ 2)
unfolding program
history_ends = (refl, refl, refl, refl)

run-IsOrdered_example : IsOrdered (run blank history)
run-IsOrdered_example = run-IsOrdered blank history (omega arith) (omega arith)

run-Extends_example : Extends (audit (run blank history)) (audit (run (run blank history) history))
run-Extends_example = run-Extends (run blank history) history

abbrev stored : MemoryEvent
stored = record keyed { sequence = 1; created_at = codes "t0" }

append_event-again_example :
    append_event
      (append_all
        (append_event blank keyed (codes "t0")).0
        ((new_event orders paid [], codes "t1") ∷ []))
      (record keyed { body = codes "other" })
      (codes "t2")
    ≡ (
      append_all
          (append_event blank keyed (codes "t0")).0
          ((new_event orders paid [], codes "t1") ∷ []),
      ok stored,
    )
unfolding program
append_event-again_example =
    append_event-again blank keyed (record keyed { body = codes "other" }) stored (codes "t0")
      (codes "t2") ((new_event orders paid [], codes "t1") ∷ []) (omega arith) (omega arith) refl
      refl refl refl

abbrev seen : MemoryEvent
seen = record (new_event orders paid (codes "0")) { sequence = 1; created_at = codes "t0" }

list_events-pages_example :
    list_events (run blank history) none (from none (some 1) none)
      ++ list_events (run blank history) none (from (some 1) none none)
    ≡ list_events (run blank history) none (from none none none)
unfolding program
list_events-pages_example =
    list_events-pages (run blank history) none none 1 none seen
      (run-IsOrdered blank history (omega arith) (omega arith)) refl
