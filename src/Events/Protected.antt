-- ===== src/Events/Protected.antt =====
-- The audit stream can be appended to, and nothing else.
use mathlib.Core.List.{append_assoc, append-nil}
use thingd.Base.{
  Bytes, ◌≡◌, refl, sym, ap, ◌∙◌, inl, inr, Bool, true, false, not, Option, none, some, List, [],
  ◌∷◌, ◌++◌, arith, Bool-cases, ==_iff, nat_ord, list_ord, pair_ord, filter,
}
use thingd.Model.{MemoryEvent}
use thingd.Events.{
  EventLog, protected_stream, is_protected_stream, of_stream, known_event, store_event,
  append_unless, append_event, remove_at, remove_last, without_last, delete_last_event,
  delete_stream, Op, append, delete_last, delete_all, step, run,
}

abbrev pub is_audit : MemoryEvent → Bool
is_audit event = is_protected_stream event.stream

-- The events of the protected stream, in order.
abbrev pub audit : EventLog → List MemoryEvent
audit log = filter is_audit log.events

-- The list goes on behind what it was.
abbrev pub Extends : List MemoryEvent → List MemoryEvent → Type 0
Extends xs ys = (more : List MemoryEvent) × (ys ≡ xs ++ more)

filter-append :
    (p : MemoryEvent → Bool) (xs ys : List MemoryEvent)
    → filter p (xs ++ ys) ≡ filter p xs ++ filter p ys
filter-append p [] ys = refl
filter-append p (x ∷ xs) ys = ground (arith, filter-append p xs ys)

filter-filter :
    (p q : MemoryEvent → Bool) (xs : List MemoryEvent)
    → ((e : MemoryEvent) → p e ≡ true → q e ≡ true)
    → filter p (filter q xs) ≡ filter p xs
filter-filter p q [] h = refl
filter-filter p q (x ∷ xs) h = ground (arith, filter-filter p q xs h, h x)

-- What a removal leaves of the events that its test does not take.
abbrev Spares :
    (MemoryEvent → Bool)
    → (MemoryEvent → Bool)
    → List MemoryEvent
    → Option (MemoryEvent × List MemoryEvent)
    → Type 0
Spares p q events none = Unit
Spares p q events (some (found, rest)) = filter q rest ≡ filter q events

remove_at-Spares :
    (p q : MemoryEvent → Bool) (e : MemoryEvent) (events : List MemoryEvent)
    (o : Option (MemoryEvent × List MemoryEvent)) (b : Bool)
    → p e ≡ b
    → (q e ≡ true → p e ≡ false)
    → Spares p q events o
    → Spares p q (e ∷ events) (remove_at p e events o)
unfolding remove_at
remove_at-Spares p q e events none true y apart l = rw (y, Spares) (ground (arith, apart, y))
remove_at-Spares p q e events none false y apart l = rw (y, Spares) tt
remove_at-Spares p q e events (some (found, rest)) b y apart l = ground (arith, l)

remove_last-Spares :
    (p q : MemoryEvent → Bool) (events : List MemoryEvent)
    → ((e : MemoryEvent) → q e ≡ true → p e ≡ false)
    → Spares p q events (remove_last p events)
unfolding remove_last
remove_last-Spares p q [] apart = tt
remove_last-Spares p q (e ∷ events) apart =
    remove_at-Spares p q e events (remove_last p events) (p e) refl (apart e)
      (remove_last-Spares p q events apart)

same_Extends : (xs ys : List MemoryEvent) → ys ≡ xs → Extends xs ys
same_Extends xs ys e = ([], e ∙ sym (append-nil xs))

-- A stream that is not protected has no event of the protected one.
apart :
    (stream : Bytes)
    → is_protected_stream stream ≡ false
    → (e : MemoryEvent) → is_audit e ≡ true
    → of_stream stream e ≡ false
unfolding is_protected_stream
apart stream h e a = ground (
  arith,
  ==_iff e.stream stream,
  ==_iff e.stream protected_stream,
  ==_iff stream protected_stream,
)

without_last-audit :
    (log : EventLog) (p : MemoryEvent → Bool) (o : Option (MemoryEvent × List MemoryEvent))
    → Spares p is_audit log.events o
    → audit (without_last log o).0 ≡ audit log
unfolding without_last
without_last-audit log p none s = refl
without_last-audit log p (some (found, rest)) s = s

append_unless-audit :
    (log : EventLog) (event : MemoryEvent) (now : Bytes) (o : Option MemoryEvent)
    → Extends (audit log) (audit (append_unless log event now o).0)
unfolding append_unless store_event
append_unless-audit log event now (some existing) = same_Extends (audit log) (audit log) refl
append_unless-audit log event now none = (_, filter-append is_audit log.events _)

step-Extends : (log : EventLog) (op : Op) → Extends (audit log) (audit (step log op))
unfolding step append_event delete_last_event delete_stream
step-Extends log (append event now) = append_unless-audit log event now (known_event log event)
step-Extends log (delete_last stream) = elim (Bool-cases (is_protected_stream stream)) [
  | inl y ↦ same_Extends (audit log) _ (rw (y, step) refl)
  | inr y ↦ same_Extends (audit log) _ (
      rw (y, step)
        (without_last-audit log (of_stream stream) (remove_last (of_stream stream) log.events)
          (remove_last-Spares (of_stream stream) is_audit log.events (apart stream y))))
]
step-Extends log (delete_all stream) = elim (Bool-cases (is_protected_stream stream)) [
  | inl y ↦ same_Extends (audit log) _ (rw (y, step) refl)
  | inr y ↦ same_Extends (audit log) _ (
      rw (y, step)
        (filter-filter is_audit (λ event. not (of_stream stream event)) log.events
          (λ e a. ground (arith, apart stream y e a))))
]

-- Through any appends and deletions, the protected stream only grows at its end: none of its events is
-- changed, removed or moved.
pub run-Extends : (log : EventLog) (ops : List Op) → Extends (audit log) (audit (run log ops))
unfolding run
run-Extends log [] = same_Extends (audit log) (audit log) refl
run-Extends log (op ∷ ops) =
    let (more, e) = step-Extends log op in
    let (rest, f) = run-Extends (step log op) ops in
    (
      more ++ rest,
      f ∙ ap (λ (y : List MemoryEvent). y ++ rest) e ∙ append_assoc (audit log) more rest,
    )
