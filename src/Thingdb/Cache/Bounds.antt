-- ===== src/Thingdb/Cache/Bounds.antt =====
-- The cache never holds more entries or bytes than its options allow.
use thingd.Base.{
  ℕ, zero, suc, ◌+◌, ◌≤◌, ◌<◌, Bytes, ◌≡◌, refl, sym, ap, ◌∙◌, ◌≢◌, Bool, true, false, Option, none,
  some, [], ◌∷◌, arith, if◌then◌else◌, u64_max, ◌==◌, ==_iff, ==_refl, nat_ord, list_ord, pair_ord,
  length,
}
use thingd.Base.BTreeMap.{
  BTreeMap, get, remove, get-remove, IsSorted, remove-IsSorted, weigh, weigh-remove, held,
}
use thingd.Base.{pair_beq}
use thingd.Thingdb.Cache.{
  CacheState, CacheStats, Entry, Index, entry_size, remove_indexes, drop_entry, evict_entry, evict,
  is_over,
}

abbrev pub size : Bytes → Entry → ℕ
size key entry = length key + length entry.value

-- Whether an entry is listed under an access order.
unfoldable pub listed : ℕ → Option Entry → Option (Unit {0})
listed order none = none
listed order (some entry) = if entry.access_order == order then some tt else none

-- Whether an entry is listed under an instant of expiry.
unfoldable pub timed : ℕ → Option Entry → Option (Unit {0})
timed at none = none
timed at (some entry) = if entry.expires_at == at then some tt else none

-- Both indexes list exactly the entries, and the bytes are those of the entries.
pub record IsKept (state : CacheState) : Type 0 where
  pub sorted : IsSorted state.entries
  pub accounted : state.bytes ≡ weigh size state.entries
  pub fits : weigh size state.entries ≤ u64_max
  pub indexed :
      (order : ℕ) (key : Bytes) → get (order, key) state.lru ≡ listed order (get key state.entries)
  pub expiring :
      (at : ℕ) (key : Bytes) → get (at, key) state.by_expiry ≡ timed at (get key state.entries)

-- The bounds of the options.
abbrev pub IsBounded : CacheState → Type 0
IsBounded state =
    (length state.entries ≤ state.options.max_entries) × (state.bytes ≤ state.options.max_bytes)

pub drop_entry-IsKept :
    (state : CacheState) (key : Bytes) (entry : Entry)
    → IsKept state
    → get key state.entries ≡ some entry
    → IsKept (drop_entry state key entry)
unfolding drop_entry remove_indexes listed timed pair_beq
drop_entry-IsKept state key entry kept found = record {
  sorted = remove-IsSorted key state.entries kept.sorted;
  accounted = unfold entry_size in omega (arith, part, kept.accounted, kept.fits);
  fits = omega (arith, part, kept.fits);
  indexed = λ order j. ground (
    arith,
    get-remove key j state.entries,
    get-remove (entry.access_order, key) (order, j) state.lru,
    kept.indexed order j,
    kept.indexed order key,
    ==_iff key j,
    found,
    ap (λ (x : Bytes). get x state.entries) {x = key} {y = j},
  );
  expiring = λ at j. ground (
    arith,
    get-remove key j state.entries,
    get-remove (entry.expires_at, key) (at, j) state.by_expiry,
    kept.expiring at j,
    kept.expiring at key,
    ==_iff key j,
    found,
    ap (λ (x : Bytes). get x state.entries) {x = key} {y = j},
  );
}
  where
    part :
        weigh size (remove key state.entries) + (length key + length entry.value)
        ≡ weigh size state.entries
    part =
        ap (λ (o : Option Entry). weigh size (remove key state.entries) + held size key o)
          (sym found)
        ∙ weigh-remove size key state.entries kept.sorted

-- Statistics do not matter.
pub IsKept-stats :
    (state : CacheState) (stats : CacheStats)
    → IsKept state
    → IsKept (record state { stats = stats })
IsKept-stats state stats kept = record {
  sorted = kept.sorted;
  accounted = kept.accounted;
  fits = kept.fits;
  indexed = kept.indexed;
  expiring = kept.expiring;
}

pub length-remove-le : (key : Bytes) (m : BTreeMap Bytes Entry) → length (remove key m) ≤ length m
unfolding remove
length-remove-le key [] = omega arith
length-remove-le key ((j, e) ∷ m) = ground (arith, length-remove-le key m)

length-remove :
    (key : Bytes) (entry : Entry) (m : BTreeMap Bytes Entry)
    → get key m ≡ some entry
    → length (remove key m) < length m
unfolding remove get
length-remove key entry [] h = cc
length-remove key entry ((j, e) ∷ m) h =
    ground (arith, length-remove-le key m, length-remove key entry m, h)

-- What the eviction keeps of the state that it starts from.
abbrev pub Evicts : CacheState → CacheState → Type 0
Evicts before state = IsKept state × IsBounded state × (state.options ≡ before.options)

evict_entry-IsKept :
    (state : CacheState) (key : Bytes) (entry : Entry)
    → IsKept state
    → get key state.entries ≡ some entry
    → IsKept (evict_entry state key (some entry))
unfolding evict_entry
evict_entry-IsKept state key entry kept found =
    IsKept-stats (drop_entry state key entry) _ (drop_entry-IsKept state key entry kept found)

not_listed :
    (key : Bytes) (entry : Entry) (m : BTreeMap Bytes Entry)
    → get {K = ℕ × Bytes} (entry.access_order, key) []
      ≢ listed entry.access_order (get key ((key, entry) ∷ m))
unfolding get listed
not_listed key entry m f = ground (arith, f, ==_refl key)

-- The index names no key that has no entry.
dangling :
    (state : CacheState) (order : ℕ) (oldest : Bytes) (u : Unit {0}) (rest : Index)
    → IsKept state
    → state.lru ≡ ((order, oldest), u) ∷ rest
    → get oldest state.entries ≢ none
unfolding get listed
dangling state order oldest u rest kept e found =
    let here =
      sym (ap (get (order, oldest)) e) ∙ kept.indexed order oldest ∙ ap (listed order) found in
    ground (arith, here, ==_refl {A = ℕ × Bytes} (order, oldest))

-- With no entry in the index there is no entry at all.
no_lru_IsBounded : (state : CacheState) → IsKept state → state.lru ≡ [] → IsBounded state
no_lru_IsBounded state kept none_listed = given state.entries refl
  where
    given : (m : BTreeMap Bytes Entry) → state.entries ≡ m → IsBounded state
    given [] e =
        let no_bytes = kept.accounted ∙ ap (weigh size) e in
        let no_entries = ap length e in
        (omega (arith, no_entries), unfold weigh in omega (arith, no_bytes))
    given ((key, entry) ∷ m) e =
        let here = kept.indexed entry.access_order key in
        absurd (
          not_listed key entry m (
            sym (ap (get (entry.access_order, key)) none_listed)
            ∙ here
            ∙ ap (λ (x : BTreeMap Bytes Entry). listed entry.access_order (get key x)) e))

pub evict-Evicts :
    (fuel : ℕ) (state : CacheState)
    → IsKept state
    → length state.entries < fuel
    → Evicts state (evict fuel state)
unfolding evict evict_entry drop_entry remove_indexes
evict-Evicts zero state kept room = absurd (omega (arith, room))
evict-Evicts (suc fuel) state kept room =
    round (is_over state) refl
      (λ next less kept'. evict-Evicts fuel next kept' (omega (arith, less, room)))
  where
    next_round :
        ((next : CacheState)
          → length next.entries < length state.entries
          → IsKept next
          → Evicts next (evict fuel next))
        → (order : ℕ) (oldest : Bytes) (u : Unit {0}) (rest : Index)
        → state.lru ≡ ((order, oldest), u) ∷ rest
        → (o : Option Entry) → get oldest state.entries ≡ o
        → Evicts state (evict fuel (evict_entry state oldest o))
    next_round go order oldest u rest e none found =
        absurd (dangling state order oldest u rest kept e found)
    next_round go order oldest u rest e (some entry) found =
        go (evict_entry state oldest (some entry)) (length-remove oldest entry state.entries found)
          (evict_entry-IsKept state oldest entry kept found)

    evict_round :
        ((next : CacheState)
          → length next.entries < length state.entries
          → IsKept next
          → Evicts next (evict fuel next))
        → (lru : Index) → state.lru ≡ lru
        → Evicts state (elim lru [
          | [] ↦ state
          | ((order, oldest), u) ∷ rest ↦
              evict fuel (evict_entry state oldest (get oldest state.entries))
        ])
    evict_round go [] e = (kept, no_lru_IsBounded state kept e, refl)
    evict_round go (((order, oldest), u) ∷ rest) e =
        next_round go order oldest u rest e (get oldest state.entries) refl

    round :
        (b : Bool)
        → is_over state ≡ b
        → ((next : CacheState)
            → length next.entries < length state.entries
            → IsKept next
            → Evicts next (evict fuel next))
        → Evicts state (elim b [
          | false ↦ state
          | true ↦ elim state.lru [
            | [] ↦ state
            | ((order, oldest), u) ∷ rest ↦
                evict fuel (evict_entry state oldest (get oldest state.entries))
          ]
        ])
    round false e go = (kept, unfold is_over in ground (arith, e), refl)
    round true e go = evict_round go state.lru refl
