-- ===== src/Thingdb/Cache/Tests.antt =====
-- A cache of two entries, and an insertion that evicts one.
use thingd.Base.{
  ℕ, ◌+◌, Option, leb, if◌then◌else◌, codes, ◌≡◌, refl, true, none, some, [], ◌∷◌, arith, nat_ord,
  list_ord, pair_ord, list_beq, list_blt,
}
use thingd.Base.{pair_beq, pair_blt}
use thingd.Base.BTreeMap.{get, insert, remove, keys, weigh}
use thingd.Thingdb.Cache.{
  CacheState, ok, err, empty_key, new_cache, entry_size, insert_indexes, remove_indexes,
  refresh_current_stats, drop_entry, count_miss, count_expiration, touch_entry, get_entry,
  get_value, expired_keys, expire_key, expire_keys, remove_expired, is_over, evict_entry, evict,
  take_previous, store_entry, exceeds, is_disabled, insert_live, expiry, insert_with_ttl,
  insert_value, remove_entry, remove_value, clear, read_stats,
}
use thingd.Thingdb.Cache.Bounds.{timed, IsKept, listed}
use thingd.Thingdb.Cache.Inserts.{Within, insert_with_ttl-IsBounded}

program : Unit {0}
unfolding new_cache entry_size insert_indexes remove_indexes refresh_current_stats drop_entry
    count_miss count_expiration touch_entry get_entry get_value expired_keys expire_key expire_keys
    remove_expired is_over evict_entry evict take_previous store_entry exceeds is_disabled
    insert_live expiry insert_with_ttl insert_value remove_entry remove_value clear read_stats get
    insert remove weigh list_beq list_blt pair_beq pair_blt listed timed
program = tt

-- A clock that holds instants up to a thousand.
abbrev in_range : ℕ → ℕ → Option ℕ
in_range now ttl = if leb (now + ttl) 1000 then some (now + ttl) else none

abbrev blank : CacheState
blank = new_cache (record { max_entries = 2; max_bytes = 64; default_ttl = 100 })

abbrev two : CacheState
two =
    (get_value
      (insert_value in_range (insert_value in_range blank (codes "a") (codes "1") 0).0 (codes "b")
        (codes "2") 1).0
      (codes "a") 2).0

-- The entry that was read stays, and the other one goes; a value that is too large is refused; after
-- its time to live an entry is gone; one whose time to live the clock cannot hold is gone at once.
evicts :
    (keys (insert_value in_range two (codes "c") (codes "3") 3).0.entries
      ≡ codes "a" ∷ codes "c" ∷ [])
    × ((get_value two (codes "b") 4).1 ≡ ok (some (codes "2")))
    × ((get_value two (codes "b") 101).1 ≡ ok none)
    × ((read_stats two 101).1.current_bytes ≡ 0)
    × ((remove_value two []).1 ≡ err empty_key)
    × ((remove_value two (codes "b")).1 ≡ ok true)
    × ((clear two).entries ≡ [])
    × ((get_value (insert_with_ttl in_range two (codes "c") (codes "3") 5000 3).0 (codes "c") 3).1
        ≡ ok none)
unfolding program
evicts = (refl, refl, refl, refl, refl, refl, refl, refl)

blank-IsKept : IsKept blank
unfolding program
blank-IsKept = record {
  sorted = tt;
  accounted = refl;
  fits = omega arith;
  indexed = λ order key. refl;
  expiring = λ at key. refl;
}

insert_with_ttl-IsBounded_example :
    Within (insert_with_ttl in_range blank (codes "a") (codes "1") 10 5)
unfolding program
insert_with_ttl-IsBounded_example =
    insert_with_ttl-IsBounded in_range blank (codes "a") (codes "1") 10 5 blank-IsKept
      (omega arith, omega arith) (omega arith)
