-- ===== src/Server/RateLimit.antt =====
-- The token-bucket limiter of crates/thingd-server/src/rate_limit.rs. Instants and durations are
-- nanoseconds. The one computation on doubles, the tokens that an elapsed time is worth, is a
-- parameter with the accuracy of IEEE 754 arithmetic.
use thingd.Base.{
  ℕ, zero, suc, ◌+◌, ◌-◌, ◌*◌, ◌/◌, ◌%◌, ◌^◌, ◌≤◌, ◌<◌, min, max, Bytes, codes, ◌≡◌, refl, sym, ap,
  ◌∙◌, ◌≢◌, ◌↔◌, ◌⊎◌, inl, inr, Bool, true, false, not, ◌&&◌, ◌||◌, Option, none, some, List, [],
  ◌∷◌, ◌++◌, map, arith, ltb, leb, nat_beq, ltb→lt, lt→ltb, leb→le, le→leb, Bool-cases,
  Option-cases, if◌then◌else◌, u32_max, u64_max, i64_max, sat_add, Ord, ◌==◌, ◌<?◌, ==_iff, ==_refl,
  nat_ord, list_ord, pair_ord, list_beq, list_blt, length, take, drop, find, any, all, filter,
  last?, All, In, Empty, update_find, find-test, find-In, find-none-In, length-append, length-take,
  length-drop, take-append, drop-append, length-filter-le, contains, starts_with,
  starts_with-append,
}
use thingd.Base.BTreeMap.{BTreeMap, get, insert, retain}
mod Budget
mod Bound
mod Return
mod Tests

-- The relative error of the chain of double operations is below one part in 2 ^ 50.
abbrev pub precision : ℕ
precision = 1125899906842624

-- `(elapsed.as_secs_f64() / interval.as_secs_f64() * top as f64).floor() as u64`.
pub record Doubles : Type 0 where
  pub refilled : ℕ → ℕ → ℕ → ℕ
  pub refilled_le :
      (elapsed interval top : ℕ)
      → refilled elapsed interval top * (interval * precision) ≤ elapsed * (top * (precision + 1))
  pub refilled_pos :
      (elapsed interval top : ℕ)
      → 0 < interval
      → 2 * interval ≤ elapsed * top
      → 0 < refilled elapsed interval top
  pub refilled_u64 : (elapsed interval top : ℕ) → refilled elapsed interval top ≤ u64_max

pub record Bucket : Type 0 where
  pub tokens : ℕ
  pub last_refill : ℕ

pub record RateLimiter : Type 0 where
  pub max_tokens : ℕ
  pub refill_interval : ℕ
  pub buckets : BTreeMap Bytes Bucket

abbrev pub minute : ℕ
minute = 60000000000

abbrev pub max_buckets : ℕ
max_buckets = 10000

unfoldable pub new : ℕ → RateLimiter
new rpm = record { max_tokens = rpm; refill_interval = minute; buckets = [] }

-- `now - Duration::from_secs(120)` panics when the clock has not run that long: `none`.
unfoldable pub prune : ℕ → BTreeMap Bytes Bucket → Option (BTreeMap Bytes Bucket)
prune now buckets =
    if ltb max_buckets (length buckets)
    then if ltb now (2 * minute)
      then none
      else some (retain (λ k b. ltb (now - 2 * minute) b.last_refill) buckets)
    else some buckets

-- `entry(key).or_insert(..)`.
unfoldable pub or_insert : ℕ → ℕ → Option Bucket → Bucket
or_insert now top none = record { tokens = top; last_refill = now }
or_insert now top (some b) = b

unfoldable pub refill : Doubles → ℕ → ℕ → ℕ → Bucket → Bucket
refill d now interval top b =
    let add = d.refilled (now - b.last_refill) interval top in
    if ltb 0 add
    then record { tokens = min ((b.tokens + add) % (u64_max + 1)) top; last_refill = now }
    else b

unfoldable pub spend : Bucket → Bucket × Bool
spend b = if ltb 0 b.tokens then (record b { tokens = b.tokens - 1 }, true) else (b, false)

-- A pruned map, the key's bucket taken out, refilled, spent from and put back.
unfoldable pub take_token :
    Doubles → ℕ → Bytes → RateLimiter → BTreeMap Bytes Bucket → RateLimiter × Option Bool
take_token d now key l kept =
    let bucket = or_insert now l.max_tokens (get key kept) in
    let (left, allowed) = spend (refill d now l.refill_interval l.max_tokens bucket) in
    (record l { buckets = insert key left kept }, some allowed)

-- A panic leaves the map as it was: `retain` has not run.
unfoldable pub check : Doubles → ℕ → Bytes → RateLimiter → RateLimiter × Option Bool
check d now key l = elim (prune now l.buckets) [
  | none ↦ (l, none)
  | some kept ↦ take_token d now key l kept
]

-- The requests of a run: when each comes and from which client; and how many of a client's pass.
unfoldable pub passes : Bytes → Bytes → Option Bool → ℕ
passes client key none = 0
passes client key (some allowed) = if key == client && allowed then 1 else 0

unfoldable pub serve : Doubles → RateLimiter → List (ℕ × Bytes) → RateLimiter
serve d l [] = l
serve d l ((now, key) ∷ rest) = serve d (check d now key l).0 rest

unfoldable pub passed : Doubles → Bytes → RateLimiter → List (ℕ × Bytes) → ℕ
passed d client l [] = 0
passed d client l ((now, key) ∷ rest) =
    passes client key (check d now key l).1 + passed d client (check d now key l).0 rest

-- The clock does not run backwards, and the last request comes at `end`.
abbrev pub IsTimed : ℕ → List (ℕ × Bytes) → ℕ → Type 0
IsTimed start [] end = start ≤ end
IsTimed start ((now, key) ∷ rest) end = (start ≤ now) × IsTimed now rest end
