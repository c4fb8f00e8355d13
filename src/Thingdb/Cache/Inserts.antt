-- ===== src/Thingdb/Cache/Inserts.antt =====
-- An insertion keeps the cache within its bounds.
use thingd.Base.{
  ℕ, suc, ◌+◌, ◌≤◌, Bytes, ◌≡◌, refl, sym, ap, ◌∙◌, Bool, true, false, Option, none, some, List, [],
  ◌∷◌, arith, if◌then◌else◌, u64_max, ==_iff, ==_refl, nat_ord, list_ord, pair_ord, length,
}
use thingd.Base.{pair_beq}
use thingd.Base.BTreeMap.{
  get, insert, get-insert, get-remove, insert-IsSorted, weigh, weigh-insert, weigh-remove, held,
}
use thingd.Thingdb.Cache.{
  CacheOptions, CacheState, CacheResult, ok, err, empty_key, value_exceeds_max_bytes, Entry,
  entry_size, insert_indexes, remove_indexes, refresh_current_stats, count_expiration, drop_entry,
  expired_keys, expire_key, expire_keys, remove_expired, evict, take_previous, store_entry, exceeds,
  is_disabled, is_empty_key, insert_live, expiry, insert_with_ttl,
}
use thingd.Thingdb.Cache.Bounds.{
  size, listed, timed, IsKept, IsBounded, Evicts, length-remove-le, IsKept-stats, drop_entry-IsKept,
  evict-Evicts,
}

store_entry-IsKept :
    (state : CacheState) (key value : Bytes) (expires_at : ℕ)
    → IsKept state
    → get key state.entries ≡ none
    → weigh size state.entries + (length key + length value) ≤ u64_max
    → IsKept (store_entry state key value expires_at)
unfolding store_entry insert_indexes listed timed pair_beq
store_entry-IsKept state key value expires_at kept absent room = record {
  sorted = insert-IsSorted key entry state.entries kept.sorted;
  accounted = unfold entry_size in omega (arith, part, kept.accounted, room);
  fits = omega (arith, part, room);
  indexed = λ order j. ground (
    arith,
    get-insert key j entry state.entries,
    get-insert (state.next_access_order, key) (order, j) tt state.lru,
    kept.indexed order j,
    ==_iff key j,
    ap (λ (x : Bytes). get x state.entries) {x = key} {y = j},
    absent,
  );
  expiring = λ at j. ground (
    arith,
    get-insert key j entry state.entries,
    get-insert (expires_at, key) (at, j) tt state.by_expiry,
    kept.expiring at j,
    ==_iff key j,
    ap (λ (x : Bytes). get x state.entries) {x = key} {y = j},
    absent,
  );
}
  where
    entry : Entry
    entry = record {
      value = value;
      expires_at = expires_at;
      access_order = state.next_access_order;
    }

    part :
        weigh size (insert key entry state.entries) + 0
        ≡ weigh size state.entries + (length key + length value)
    part =
        ap (λ (o : Option Entry). weigh size (insert key entry state.entries) + held size key o)
          (sym absent)
        ∙ weigh-insert size key entry state.entries kept.sorted

-- What an insertion keeps before it writes.
abbrev Keeps : CacheState → CacheState → Type 0
Keeps before state =
    IsKept state
    × (weigh size state.entries ≤ weigh size before.entries)
    × (length state.entries ≤ length before.entries)
    × (state.options ≡ before.options)

drop_entry-Keeps :
    (state : CacheState) (key : Bytes) (entry : Entry)
    → IsKept state
    → get key state.entries ≡ some entry
    → Keeps state (drop_entry state key entry)
unfolding drop_entry remove_indexes
drop_entry-Keeps state key entry kept found = (
  drop_entry-IsKept state key entry kept found,
  omega (arith, weigh-remove size key state.entries kept.sorted),
  length-remove-le key state.entries,
  refl,
)

Keeps-trans : (a b c : CacheState) → Keeps a b → Keeps b c → Keeps a c
Keeps-trans a b c (k, w, l, o) (k', w', l', o') =
    (k', omega (arith, w, w'), omega (arith, l, l'), o' ∙ o)

expire_key-Keeps :
    (state : CacheState) (key : Bytes) (o : Option Entry)
    → IsKept state
    → get key state.entries ≡ o
    → Keeps state (expire_key state key o)
unfolding expire_key count_expiration
expire_key-Keeps state key none kept found = (kept, omega arith, omega arith, refl)
expire_key-Keeps state key (some entry) kept found =
    let (k, w, l, o) = drop_entry-Keeps state key entry kept found in
    (IsKept-stats (drop_entry state key entry) _ k, w, l, o)

expire_keys-Keeps :
    (state : CacheState) (expired : List Bytes)
    → IsKept state
    → Keeps state (expire_keys state expired)
unfolding expire_keys
expire_keys-Keeps state [] kept = (kept, omega arith, omega arith, refl)
expire_keys-Keeps state (key ∷ rest) kept =
    let first = expire_key-Keeps state key (get key state.entries) kept refl in
    Keeps-trans state (expire_key state key (get key state.entries)) _ first
      (expire_keys-Keeps (expire_key state key (get key state.entries)) rest (first.0))

remove_expired-Keeps :
    (state : CacheState) (now : ℕ) → IsKept state → Keeps state (remove_expired state now)
unfolding remove_expired refresh_current_stats
remove_expired-Keeps state now kept =
    let (k, w, l, o) = expire_keys-Keeps state (expired_keys state.by_expiry now) kept in
    (IsKept-stats (expire_keys state (expired_keys state.by_expiry now)) _ k, w, l, o)

take_previous-Keeps :
    (state : CacheState) (key : Bytes) (o : Option Entry)
    → IsKept state
    → get key state.entries ≡ o
    → Keeps state (take_previous state key o) × (get key (take_previous state key o).entries ≡ none)
unfolding take_previous
take_previous-Keeps state key none kept found = ((kept, omega arith, omega arith, refl), found)
take_previous-Keeps state key (some entry) kept found = (
  drop_entry-Keeps state key entry kept found,
  unfold drop_entry in
      unfold remove_indexes in ground (arith, get-remove key key state.entries, ==_refl key),
)

insert_live-Evicts :
    (state : CacheState) (key value : Bytes) (expires_at : ℕ)
    → IsKept state
    → weigh size state.entries + (length key + length value) ≤ u64_max
    → Evicts state (insert_live state key value expires_at)
unfolding insert_live refresh_current_stats
insert_live-Evicts state key value expires_at kept room =
    let ((k, w, l, o), absent) = take_previous-Keeps state key (get key state.entries) kept refl in
    let taken = take_previous state key (get key state.entries) in
    let stored = store_entry taken key value expires_at in
    let (k', bounded, o') =
      evict-Evicts (suc (length stored.entries)) stored
        (store_entry-IsKept taken key value expires_at k absent (omega (arith, w, room)))
        (omega arith) in
    (
      IsKept-stats (evict (suc (length stored.entries)) stored) _ k',
      bounded,
      o' ∙ (unfold store_entry in unfold insert_indexes in o),
    )

-- What a call leaves behind is coherent and within the bounds.
abbrev pub Within : CacheState × CacheResult (Unit {0}) → Type 0
Within r = IsKept r.0 × IsBounded r.0

-- Take a cache whose two indexes, of uses and of expirations, list exactly its entries, whose bytes
-- are those of its entries, which is within its bounds, and whose bytes with the new key and value fit
-- 64 bits. An insertion with any time to live, refused or not, and whether or not the clock can hold
-- the instant of expiry, leaves such a cache: at most `max_entries` entries, and at most `max_bytes`
-- bytes of keys and values.
pub insert_with_ttl-IsBounded :
    (checked_add : ℕ → ℕ → Option ℕ) (state : CacheState) (key value : Bytes) (ttl now : ℕ)
    → IsKept state
    → IsBounded state
    → weigh size state.entries + (length key + length value) ≤ u64_max
    → Within (insert_with_ttl checked_add state key value ttl now)
unfolding insert_with_ttl
insert_with_ttl-IsBounded checked_add state key value ttl now kept bounded room =
    given (is_empty_key key) (exceeds state key value) (is_disabled state)
  where
    swept : Keeps state (remove_expired state now)
    swept = remove_expired-Keeps state now kept

    given :
        (a b c : Bool)
        → Within (
            if a
            then (state, err empty_key)
            else if b
            then (state, err value_exceeds_max_bytes)
            else if c
            then (remove_expired state now, ok tt)
            else (
              insert_live (remove_expired state now) key value (expiry checked_add now ttl),
              ok tt,
            ))
    given true b c = (kept, bounded)
    given false true c = (kept, bounded)
    given false false true =
        let (k, w, l, o) = swept in
        (
          k,
          (
            omega (arith, l, bounded, ap (λ (x : CacheOptions). x.max_entries) o),
            omega (
              arith,
              w,
              bounded,
              k.accounted,
              kept.accounted,
              ap (λ (x : CacheOptions). x.max_bytes) o,
            ),
          ),
        )
    given false false false =
        let (k, w, l, o) = swept in
        let (k', b', o') =
          insert_live-Evicts (remove_expired state now) key value (expiry checked_add now ttl) k
            (omega (arith, w, room)) in
        (k', b')
