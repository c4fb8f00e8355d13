-- ===== src/Thingdb/Keys.antt =====
-- The physical keys of the durable mode, and the bounds of its scans (crates/thingdb/src/lib.rs).
pub mod Order
pub mod Scan
mod Tests
use thingd.Base.{
  ℕ, zero, suc, ◌+◌, ◌-◌, ◌*◌, ◌/◌, ◌%◌, ◌^◌, ◌≤◌, ◌<◌, min, max, Bytes, codes, ◌≡◌, refl, sym, ap,
  ◌∙◌, ◌≢◌, ◌↔◌, ◌⊎◌, inl, inr, Bool, true, false, not, ◌&&◌, ◌||◌, Option, none, some, List, [],
  ◌∷◌, ◌++◌, map, arith, ltb, leb, nat_beq, ltb→lt, lt→ltb, leb→le, le→leb, Bool-cases,
  Option-cases, if◌then◌else◌, u32_max, u64_max, i64_max, sat_add, Ord, ◌==◌, ◌<?◌, ==_iff, ==_refl,
  nat_ord, list_ord, pair_ord, list_beq, list_blt, length, take, drop, find, any, all, filter,
  last?, All, In, Empty, update_find, find-test, find-In, find-none-In, length-append, length-take,
  length-drop, take-append, drop-append, length-filter-le, contains, starts_with,
  starts_with-append,
}
use mathlib.Core.Option
use thingd.Thingdb.Codec.{byte_at}

unfoldable pub namespace : Bytes → Bytes
namespace name = name ++ 0 ∷ []

unfoldable pub physical_key_from_namespace : Bytes → Bytes → Bytes
physical_key_from_namespace ns key = ns ++ key

unfoldable pub physical_key : Bytes → Bytes → Bytes
physical_key name key = physical_key_from_namespace (namespace name) key

-- The loop of `successor` over the indices below a number, from the last one down. An index is
-- always within the key.
unfoldable pub successor_below : Bytes → ℕ → Option Bytes
successor_below key zero = none
successor_below key (suc index) =
    let rest = successor_below key index in
    elim (byte_at key index) [
      | none ↦ rest
      | some b ↦ if b == 255 then rest else some (take index key ++ (b + 1) ∷ [])
    ]

unfoldable pub successor : Bytes → Option Bytes
successor key = successor_below key (length key)

unfoldable pub durable_scan_lower : Bytes → Option Bytes → Option (Bytes × Bool) → Bytes
durable_scan_lower ns none none = physical_key_from_namespace ns []
durable_scan_lower ns none (some (start, inclusive)) = physical_key_from_namespace ns start
durable_scan_lower ns (some prefix) none = physical_key_from_namespace ns prefix
durable_scan_lower ns (some prefix) (some (start, inclusive)) =
    physical_key_from_namespace ns (if start <? prefix then prefix else start)

-- `min` of the bounds that are there
unfoldable pub least : Option Bytes → Option Bytes → Option Bytes
least none b = b
least (some a) none = some a
least (some a) (some b) = some (if b <? a then b else a)

unfoldable pub prefix_end : Bytes → Option Bytes → Option Bytes
prefix_end ns none = none
prefix_end ns (some prefix) = Option.map (physical_key_from_namespace ns) (successor prefix)

unfoldable pub explicit_end : Bytes → Option (Bytes × Bool) → Option Bytes
explicit_end ns none = none
explicit_end ns (some (end, inclusive)) =
    if inclusive
    then successor (physical_key_from_namespace ns end)
    else some (physical_key_from_namespace ns end)

unfoldable pub durable_scan_upper : Bytes → Option Bytes → Option (Bytes × Bool) → Option Bytes
durable_scan_upper ns prefix end =
    least (successor ns) (least (prefix_end ns prefix) (explicit_end ns end))

-- The keys that a scan visits lie from its lower bound on, below its upper bound.
unfoldable pub below : Bytes → Option Bytes → Bool
below key none = true
below key (some upper) = key <? upper

unfoldable pub scan_visits :
    Bytes → Option Bytes → Option (Bytes × Bool) → Option (Bytes × Bool) → Bytes → Bool
scan_visits ns prefix start end key =
    not (key <? durable_scan_lower ns prefix start) && below key (durable_scan_upper ns prefix end)

unfoldable pub strip_prefix : Bytes → Bytes → Option Bytes
strip_prefix key ns = if starts_with key ns then some (drop (length ns) key) else none

unfoldable pub prefix_matches : Option Bytes → Bytes → Bool
prefix_matches none user_key = true
prefix_matches (some prefix) user_key = starts_with user_key prefix

unfoldable pub start_matches : Option (Bytes × Bool) → Bytes → Bool
start_matches none user_key = true
start_matches (some (start, inclusive)) user_key =
    if inclusive then not (user_key <? start) else start <? user_key

unfoldable pub end_matches : Option (Bytes × Bool) → Bytes → Bool
end_matches none user_key = true
end_matches (some (end, inclusive)) user_key =
    if inclusive then not (end <? user_key) else user_key <? end

-- What a scan asks for: the prefix, the start and the end, each inclusive or not.
unfoldable pub scan_matches :
    Option Bytes → Option (Bytes × Bool) → Option (Bytes × Bool) → Bytes → Bool
scan_matches prefix start end user_key =
    prefix_matches prefix user_key && (start_matches start user_key && end_matches end user_key)

-- The test of the scan's loop on a key that it visits.
unfoldable pub scan_takes :
    Bytes → Option Bytes → Option (Bytes × Bool) → Option (Bytes × Bool) → Bytes → Bool
scan_takes ns prefix start end key =
    scan_visits ns prefix start end key && (elim (strip_prefix key ns) [
      | none ↦ false
      | some user_key ↦ scan_matches prefix start end user_key
    ])
