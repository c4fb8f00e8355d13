-- ===== src/Events/Paging.antt =====
-- A reader that goes on from the last sequence it has seen misses no event and sees none twice.
use thingd.Base.{
  ℕ, zero, suc, ◌≤◌, ◌<◌, Bytes, ◌≡◌, refl, sym, ap, ◌∙◌, ◌⊎◌, inl, inr, Bool, Option, none, some,
  List, [], ◌∷◌, ◌++◌, arith, ltb, ltb→lt, Bool-cases, nat_ord, list_ord, pair_ord, take, filter,
  last?,
}
use thingd.Model.{MemoryEvent, ListEventsOptions}
use thingd.Events.{EventLog, in_stream, is_after, is_since, up_to, list_events}
use thingd.Events.Order.{Rising, IsOrdered}

-- The options of a reader, from a sequence on.
abbrev pub from : Option ℕ → Option ℕ → Option Bytes → ListEventsOptions
from sequence limit since = record { from_sequence = sequence; limit = limit; since = since }

-- Sequences rise strictly within the list, from above a number.
abbrev Rises : ℕ → List MemoryEvent → Type 0
Rises low [] = Unit
Rises low (e ∷ events) = (low < e.sequence) × Rises e.sequence events

Rises-lower :
    (low lower : ℕ) (events : List MemoryEvent)
    → lower ≤ low
    → Rises low events
    → Rises lower events
Rises-lower low lower [] h r = tt
Rises-lower low lower (e ∷ events) h r = (omega (arith, r.0, h), r.1)

Rising-Rises :
    (low high : ℕ) (events : List MemoryEvent) → Rising low events high → Rises low events
Rising-Rises low high [] r = tt
Rising-Rises low high (e ∷ events) r = (r.0, Rising-Rises e.sequence high events (r.1))

Rises-filter :
    (p : MemoryEvent → Bool) (low : ℕ) (events : List MemoryEvent)
    → Rises low events
    → Rises low (filter p events)
Rises-filter p low [] r = tt
Rises-filter p low (e ∷ events) r = elim (Bool-cases (p e)) [
  | inl y ↦ rw (y, Rises) (r.0, Rises-filter p e.sequence events (r.1))
  | inr y ↦
      rw (y, Rises)
        (Rises-lower e.sequence low (filter p events) (omega (arith, r.0))
          (Rises-filter p e.sequence events (r.1)))
]

-- Nothing is dropped below the first sequence.
filter-is_after :
    (low n : ℕ) (events : List MemoryEvent)
    → Rises low events
    → n ≤ low
    → filter (is_after (some n)) events ≡ events
unfolding is_after
filter-is_after low n [] r h = refl
filter-is_after low n (e ∷ events) r h =
    ground (arith, filter-is_after e.sequence n events (r.1), r.0)

last-cons : (e : MemoryEvent) (xs : List MemoryEvent) → (xs ≡ []) ⊎ (last? (e ∷ xs) ≡ last? xs)
last-cons e [] = inl refl
last-cons e (x ∷ xs) = inr refl

last-above :
    (limit low : ℕ) (events : List MemoryEvent) (seen : MemoryEvent)
    → Rises low events
    → last? (take limit events) ≡ some seen
    → low < seen.sequence
last-above zero low events seen r h = cc
last-above (suc limit) low [] seen r h = cc
last-above (suc limit) low (e ∷ events) seen r h = elim (last-cons e (take limit events)) [
  | inl none_left ↦
      let same : e ≡ seen = cc in omega (arith, r.0, ap (λ (x : MemoryEvent). x.sequence) same)
  | inr y ↦ omega (arith, r.0, last-above limit e.sequence events seen (r.1) (sym y ∙ h))
]

filter-is_after-skip :
    (n : ℕ) (e : MemoryEvent) (events : List MemoryEvent)
    → e.sequence ≤ n
    → filter (is_after (some n)) (e ∷ events) ≡ filter (is_after (some n)) events
unfolding is_after
filter-is_after-skip n e events h = ground (arith, h)

-- What stands behind the page is what is above its last sequence.
page_rest :
    (limit low : ℕ) (events : List MemoryEvent) (seen : MemoryEvent)
    → Rises low events
    → last? (take limit events) ≡ some seen
    → take limit events ++ filter (is_after (some seen.sequence)) events ≡ events
page_rest zero low events seen r h = cc
page_rest (suc limit) low [] seen r h = cc
page_rest (suc limit) low (e ∷ events) seen r h = elim (last-cons e (take limit events)) [
  | inl none_left ↦
      let same : e ≡ seen = cc in
      let seq = ap (λ (x : MemoryEvent). x.sequence) same in
      rw (none_left) (
        unfold is_after in
        ground (arith, filter-is_after e.sequence seen.sequence events (r.1), seq))
  | inr y ↦
      let above = last-above limit e.sequence events seen (r.1) (sym y ∙ h) in
      ap (◌∷◌ e) (
        ap (λ (xs : List MemoryEvent). take limit events ++ xs)
          (filter-is_after-skip seen.sequence e events (omega (arith, above)))
        ∙ page_rest limit e.sequence events seen (r.1) (sym y ∙ h))
]

filter-swap :
    (p q : MemoryEvent → Bool) (xs : List MemoryEvent)
    → filter p (filter q xs) ≡ filter q (filter p xs)
filter-swap p q [] = refl
filter-swap p q (x ∷ xs) = ground (arith, filter-swap p q xs)

-- The number that a reader starts above.
abbrev start : Option ℕ → ℕ
start none = 0
start (some n) = n

Rises-is_after :
    (sequence : Option ℕ) (low : ℕ) (xs : List MemoryEvent)
    → Rises low xs
    → Rises (start sequence) (filter (is_after sequence) xs)
unfolding is_after
Rises-is_after none low [] r = tt
Rises-is_after none low (x ∷ xs) r = (omega (arith, r.0), all_after xs x.sequence (r.1))
  where
    all_after :
        (xs : List MemoryEvent) (low : ℕ) → Rises low xs → Rises low (filter (is_after none) xs)
    all_after [] low r = tt
    all_after (x ∷ xs) low r = (r.0, all_after xs x.sequence (r.1))
Rises-is_after (some n) low [] r = tt
Rises-is_after (some n) low (x ∷ xs) r = elim (Bool-cases (ltb n x.sequence)) [
  | inl y ↦
      rw (y, Rises) (ltb→lt n x.sequence y, Rises-filter (is_after (some n)) x.sequence xs (r.1))
  | inr y ↦ rw (y, Rises) (Rises-is_after (some n) x.sequence xs (r.1))
]

filter-is_after-is_after :
    (sequence : Option ℕ) (n : ℕ) (xs : List MemoryEvent)
    → start sequence ≤ n
    → filter (is_after (some n)) (filter (is_after sequence) xs) ≡ filter (is_after (some n)) xs
unfolding is_after
filter-is_after-is_after none n [] h = refl
filter-is_after-is_after none n (x ∷ xs) h = ground (arith, filter-is_after-is_after none n xs h)
filter-is_after-is_after (some m) n [] h = refl
filter-is_after-is_after (some m) n (x ∷ xs) h =
    ground (arith, filter-is_after-is_after (some m) n xs h)

-- Take a log whose sequences rise. A reader lists a page of at most `limit` events, of one stream or
-- of all, from any sequence on and since any time, and the page ends with an event. The page and what
-- is listed from that event's sequence on are together, in order, what a list without a limit gives.
pub list_events-pages :
    (log : EventLog) (stream : Option Bytes) (sequence : Option ℕ) (limit : ℕ)
    (since : Option Bytes) (seen : MemoryEvent)
    → IsOrdered log
    → last? (list_events log stream (from sequence (some limit) since)) ≡ some seen
    → list_events log stream (from sequence (some limit) since)
        ++ list_events log stream (from (some seen.sequence) none since)
      ≡ list_events log stream (from sequence none since)
unfolding list_events up_to
list_events-pages log stream sequence limit since seen ordered h =
    ap (λ (xs : List MemoryEvent). take limit listed ++ xs)
      (sym (
        filter-swap (is_after (some seen.sequence)) (is_since since)
          (filter (is_after sequence) chosen)
        ∙ ap (filter (is_since since)) (
            filter-is_after-is_after sequence seen.sequence chosen
              (omega (arith, last-above limit (start sequence) listed seen rises h)))))
    ∙ page_rest limit (start sequence) listed seen rises h
  where
    chosen : List MemoryEvent
    chosen = filter (in_stream stream) log.events

    listed : List MemoryEvent
    listed = filter (is_since since) (filter (is_after sequence) chosen)

    rises : Rises (start sequence) listed
    rises = Rises-filter (is_since since) (start sequence) (filter (is_after sequence) chosen) (
        Rises-is_after sequence 0 chosen (
          Rises-filter (in_stream stream) 0 log.events
            (Rising-Rises 0 log.next_event_sequence log.events ordered)))
