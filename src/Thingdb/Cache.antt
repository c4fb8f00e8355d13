-- ===== src/Thingdb/Cache.antt =====
-- The bounded cache of crates/thingdb/src/cache.rs. A call takes the state and the reading of the
-- clock, in nanoseconds; the lock is not modelled. The `BTreeSet`s are maps to the unit type.
pub mod Bounds
pub mod Inserts
mod Tests
use thingd.Base.{
  ℕ, zero, suc, ◌+◌, ◌-◌, ◌*◌, ◌/◌, ◌%◌, ◌^◌, ◌≤◌, ◌<◌, min, max, Bytes, codes, ◌≡◌, refl, sym, ap,
  ◌∙◌, ◌≢◌, ◌↔◌, ◌⊎◌, inl, inr, Bool, true, false, not, ◌&&◌, ◌||◌, Option, none, some, List, [],
  ◌∷◌, ◌++◌, map, arith, ltb, leb, nat_beq, ltb→lt, lt→ltb, leb→le, le→leb, Bool-cases,
  Option-cases, if◌then◌else◌, u32_max, u64_max, i64_max, sat_add, Ord, ◌==◌, ◌<?◌, ==_iff, ==_refl,
  nat_ord, list_ord, pair_ord, list_beq, list_blt, length, take, drop, find, any, all, filter,
  last?, All, In, Empty, update_find, find-test, find-In, find-none-In, length-append, length-take,
  length-drop, take-append, drop-append, length-filter-le, contains, starts_with,
  starts_with-append,
}
use thingd.Base.BTreeMap.{BTreeMap, get, insert, remove, keys}

pub data CacheError : Type 0 where
  empty_key value_exceeds_max_bytes : CacheError

pub data CacheResult {ℓ} (A : Type ℓ) : Type ℓ where
  ok : A → CacheResult A
  err : CacheError → CacheResult A

pub record CacheOptions : Type 0 where
  pub max_entries : ℕ
  pub max_bytes : ℕ
  pub default_ttl : ℕ

pub record CacheStats : Type 0 where
  pub hits : ℕ
  pub misses : ℕ
  pub inserts : ℕ
  pub removals : ℕ
  pub expirations : ℕ
  pub evictions : ℕ
  pub current_entries : ℕ
  pub current_bytes : ℕ
  pub max_entries : ℕ
  pub max_bytes : ℕ

pub record Entry : Type 0 where
  pub value : Bytes
  pub expires_at : ℕ
  pub access_order : ℕ

abbrev pub Index : Type 0
Index = BTreeMap (ℕ × Bytes) (Unit {0})

pub record CacheState : Type 0 where
  pub entries : BTreeMap Bytes Entry
  pub lru : Index
  pub by_expiry : Index
  pub next_access_order : ℕ
  pub bytes : ℕ
  pub options : CacheOptions
  pub stats : CacheStats

abbrev pub bump : ℕ → ℕ
bump n = sat_add u64_max n 1

-- `MemoryCache::with_clock`
unfoldable pub new_cache : CacheOptions → CacheState
new_cache options = record {
  entries = [];
  lru = [];
  by_expiry = [];
  next_access_order = 0;
  bytes = 0;
  options = options;
  stats = record {
    hits = 0;
    misses = 0;
    inserts = 0;
    removals = 0;
    expirations = 0;
    evictions = 0;
    current_entries = 0;
    current_bytes = 0;
    max_entries = options.max_entries;
    max_bytes = options.max_bytes;
  };
}

unfoldable pub entry_size : Bytes → Bytes → ℕ
entry_size key value = sat_add u64_max (length key) (length value)

unfoldable pub insert_indexes : CacheState → Bytes → Entry → CacheState
insert_indexes state key entry = record state {
  lru = insert (entry.access_order, key) tt state.lru;
  by_expiry = insert (entry.expires_at, key) tt state.by_expiry;
}

unfoldable pub remove_indexes : CacheState → Bytes → Entry → CacheState
remove_indexes state key entry = record state {
  lru = remove (entry.access_order, key) state.lru;
  by_expiry = remove (entry.expires_at, key) state.by_expiry;
}

unfoldable pub refresh_current_stats : CacheState → CacheState
refresh_current_stats state = record state {
  stats = record state.stats {
    current_entries = length state.entries;
    current_bytes = state.bytes;
  };
}

-- An entry taken out, with its index entries and its bytes.
unfoldable pub drop_entry : CacheState → Bytes → Entry → CacheState
drop_entry state key entry =
    let taken = remove_indexes (record state { entries = remove key state.entries }) key entry in
    record taken { bytes = taken.bytes - entry_size key entry.value }

unfoldable pub count_miss : CacheState → CacheState
count_miss state = record state { stats = record state.stats { misses = bump state.stats.misses } }

unfoldable pub count_expiration : CacheState → CacheState
count_expiration state = record state {
  stats = record state.stats { expirations = bump state.stats.expirations };
}

-- A live entry that was read: it is written back as the one used last.
unfoldable pub touch_entry : CacheState → Bytes → Entry → CacheState
touch_entry state key entry =
    let taken = remove_indexes (record state { entries = remove key state.entries }) key entry in
    let fresh = record entry { access_order = taken.next_access_order } in
    let stamped = record taken { next_access_order = bump taken.next_access_order } in
    let listed = insert_indexes stamped key fresh in
    record listed {
      entries = insert key fresh listed.entries;
      stats = record listed.stats { hits = bump listed.stats.hits };
    }

unfoldable pub get_entry :
    CacheState → Bytes → ℕ → Option Entry → CacheState × CacheResult (Option Bytes)
get_entry state key now none = (count_miss state, ok none)
get_entry state key now (some entry) =
    if leb entry.expires_at now
    then (
      refresh_current_stats (count_miss (count_expiration (drop_entry state key entry))),
      ok none,
    )
    else (touch_entry state key entry, ok (some entry.value))

abbrev pub is_empty_key : Bytes → Bool
is_empty_key [] = true
is_empty_key (b ∷ bs) = false

unfoldable pub get_value : CacheState → Bytes → ℕ → CacheState × CacheResult (Option Bytes)
get_value state key now =
    if is_empty_key key
    then (state, err empty_key)
    else get_entry state key now (get key state.entries)

-- The keys of `take_while(|(expires_at, _)| *expires_at <= now)`
unfoldable pub expired_keys : Index → ℕ → List Bytes
expired_keys [] now = []
expired_keys (((expires_at, key), u) ∷ index) now =
    let rest = expired_keys index now in if leb expires_at now then key ∷ rest else []

unfoldable pub expire_key : CacheState → Bytes → Option Entry → CacheState
expire_key state key none = state
expire_key state key (some entry) = count_expiration (drop_entry state key entry)

unfoldable pub expire_keys : CacheState → List Bytes → CacheState
expire_keys state [] = state
expire_keys state (key ∷ rest) = expire_keys (expire_key state key (get key state.entries)) rest

unfoldable pub remove_expired : CacheState → ℕ → CacheState
remove_expired state now =
    refresh_current_stats (expire_keys state (expired_keys state.by_expiry now))

unfoldable pub is_over : CacheState → Bool
is_over state =
    ltb state.options.max_entries (length state.entries) || ltb state.options.max_bytes state.bytes

-- A round of the eviction: the entry that was used longest ago. `lru` names no key without an entry.
unfoldable pub evict_entry : CacheState → Bytes → Option Entry → CacheState
evict_entry state oldest none = state
evict_entry state oldest (some entry) =
    let taken = drop_entry state oldest entry in
    record taken { stats = record taken.stats { evictions = bump taken.stats.evictions } }

-- The loop, with the rounds that are left. Every round takes an entry.
unfoldable pub evict : ℕ → CacheState → CacheState
evict zero state = state
evict (suc fuel) state = elim (is_over state) [
  | false ↦ state
  | true ↦ elim state.lru [
    | [] ↦ state
    | ((order, oldest), u) ∷ rest ↦ evict fuel (evict_entry state oldest (get oldest state.entries))
  ]
]

unfoldable pub take_previous : CacheState → Bytes → Option Entry → CacheState
take_previous state key none = state
take_previous state key (some previous) = drop_entry state key previous

unfoldable pub store_entry : CacheState → Bytes → Bytes → ℕ → CacheState
store_entry state key value expires_at =
    let entry : Entry = record {
      value = value;
      expires_at = expires_at;
      access_order = state.next_access_order;
    } in
    let stamped = record state {
      next_access_order = bump state.next_access_order;
      bytes = sat_add u64_max state.bytes (entry_size key value);
    } in
    let listed = insert_indexes stamped key entry in
    record listed {
      entries = insert key entry listed.entries;
      stats = record listed.stats { inserts = bump listed.stats.inserts };
    }

unfoldable pub exceeds : CacheState → Bytes → Bytes → Bool
exceeds state key value =
    ltb state.options.max_bytes (entry_size key value) && not (state.options.max_bytes == 0)

unfoldable pub is_disabled : CacheState → Bool
is_disabled state = state.options.max_entries == 0 || state.options.max_bytes == 0

-- The insertion behind its checks.
unfoldable pub insert_live : CacheState → Bytes → Bytes → ℕ → CacheState
insert_live state key value expires_at =
    let stored =
      store_entry (take_previous state key (get key state.entries)) key value expires_at in
    refresh_current_stats (evict (suc (length stored.entries)) stored)

-- `now.checked_add(ttl).unwrap_or(now)`; the range of an `Instant` is the standard library's.
unfoldable pub expiry : (ℕ → ℕ → Option ℕ) → ℕ → ℕ → ℕ
expiry checked_add now ttl = elim (checked_add now ttl) [ none ↦ now | some at ↦ at ]

module _ (checked_add : ℕ → ℕ → Option ℕ) where
  unfoldable pub insert_with_ttl :
      CacheState → Bytes → Bytes → ℕ → ℕ → CacheState × CacheResult (Unit {0})
  insert_with_ttl state key value ttl now =
      if is_empty_key key
      then (state, err empty_key)
      else if exceeds state key value
      then (state, err value_exceeds_max_bytes)
      else if is_disabled state
      then (remove_expired state now, ok tt)
      else (insert_live (remove_expired state now) key value (expiry checked_add now ttl), ok tt)

  unfoldable pub insert_value : CacheState → Bytes → Bytes → ℕ → CacheState × CacheResult (Unit {0})
  insert_value state key value now = insert_with_ttl state key value state.options.default_ttl now

unfoldable pub remove_entry : CacheState → Bytes → Option Entry → CacheState × CacheResult Bool
remove_entry state key none = (state, ok false)
remove_entry state key (some entry) =
    let taken = drop_entry state key entry in
    (
      refresh_current_stats
          (record taken { stats = record taken.stats { removals = bump taken.stats.removals } }),
      ok true,
    )

unfoldable pub remove_value : CacheState → Bytes → CacheState × CacheResult Bool
remove_value state key =
    if is_empty_key key
    then (state, err empty_key)
    else remove_entry state key (get key state.entries)

unfoldable pub clear : CacheState → CacheState
clear state =
    refresh_current_stats (record state { entries = []; lru = []; by_expiry = []; bytes = 0 })

unfoldable pub read_stats : CacheState → ℕ → CacheState × CacheStats
read_stats state now =
    let swept = refresh_current_stats (remove_expired state now) in (swept, swept.stats)
