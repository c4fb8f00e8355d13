-- ===== src/Server/RateLimit/Budget.antt =====
-- What a client's bucket is worth in requests, and what one check of the limiter does to it.
use thingd.Base.{
  ℕ, ◌+◌, ◌-◌, ◌*◌, ◌%◌, ◌≤◌, ◌<◌, min, Bytes, ◌≡◌, refl, ◌⊎◌, inl, inr, Bool, true, false, Option,
  none, some, arith, ltb, ltb→lt, Bool-cases, u64_max, nat_ord, list_ord, pair_ord, length,
}
use mathlib.Core.Path.{subst}
use thingd.Base.BTreeMap.{BTreeMap, get, retain, kept, IsSorted, get-retain, retain-IsSorted}
use thingd.Server.RateLimit.{
  precision, Doubles, Bucket, minute, prune, or_insert, refill, spend, max_buckets,
}

-- Scaled by the length of a minute and by the precision of the doubles.
abbrev pub unit : ℕ
unit = minute * precision

abbrev pub rate : ℕ → ℕ
rate top = top * (precision + 1)

-- The tokens there are and the time since the last refill; a client not seen has a full bucket.
abbrev pub worth : ℕ → ℕ → Option Bucket → ℕ
worth now top none = top * unit
worth now top (some b) = b.tokens * unit + (now - b.last_refill) * rate top

abbrev pub Fits : ℕ → ℕ → Option Bucket → Type 0
Fits now top none = Unit
Fits now top (some b) = (b.tokens ≤ top) × (b.last_refill ≤ now)

pub Fits-later : (t u top : ℕ) (o : Option Bucket) → t ≤ u → Fits t top o → Fits u top o
Fits-later t u top none le f = tt
Fits-later t u top (some b) le f = (f.0, omega (arith, f.1))

-- Time passes: the worth grows at most at the refill rate.
pub split_time : (t u last r : ℕ) → last ≤ t → t ≤ u → (u - last) * r ≡ (t - last) * r + (u - t) * r
split_time t u last r a b =
    let e : u - last ≡ (t - last) + (u - t) = omega arith in rw e (grind arith)

pub worth_later :
    (t u top : ℕ) (o : Option Bucket)
    → t ≤ u
    → Fits t top o
    → worth u top o ≤ worth t top o + (u - t) * rate top
worth_later t u top none le f = omega arith
worth_later t u top (some b) le f = omega (arith, split_time t u b.last_refill (rate top) (f.1) le)

mul_le : (a b c : ℕ) → a ≤ b → a * c ≤ b * c
mul_le a b c h = grind arith

pub mul_add : (a b c : ℕ) → (a + b) * c ≡ a * c + b * c
mul_add a b c = grind arith

no_time : (a c : ℕ) → (a - a) * c ≡ 0
no_time a c = let e : a - a ≡ 0 = omega arith in rw e (omega arith)

refill_le : (t add top : ℕ) → min ((t + add) % (u64_max + 1)) top ≤ t + add
refill_le t add top = omega arith

pub worth-refill :
    (d : Doubles) (now top : ℕ) (b : Bucket)
    → worth now top (some (refill d now minute top b)) ≤ worth now top (some b)
unfolding refill
worth-refill d now top b = elim (Bool-cases (ltb 0 (d.refilled (now - b.last_refill) minute top))) [
  | inl e ↦
      let add = d.refilled (now - b.last_refill) minute top in
      let fresh = min ((b.tokens + add) % (u64_max + 1)) top in
      let less = mul_le fresh (b.tokens + add) unit (refill_le b.tokens add top) in
      let sum = mul_add b.tokens add unit in
      let law = d.refilled_le (now - b.last_refill) minute top in
      rw e (omega (arith, less, sum, law, no_time now (rate top)))
  | inr e ↦ rw e (omega arith)
]

pub Fits-refill :
    (d : Doubles) (now interval top : ℕ) (b : Bucket)
    → Fits now top (some b)
    → Fits now top (some (refill d now interval top b))
unfolding refill
Fits-refill d now interval top b f = ground arith

-- A token spent is a unit less.
abbrev pub cost : Bool → ℕ
cost true = unit
cost false = 0

one_less : (t : ℕ) → 0 < t → (t - 1) * unit + unit ≡ t * unit
one_less t h = omega arith

pub worth-spend :
    (now top : ℕ) (b : Bucket)
    → worth now top (some (spend b).0) + cost (spend b).1 ≡ worth now top (some b)
unfolding spend
worth-spend now top b = elim (Bool-cases (ltb 0 b.tokens)) [
  | inl e ↦ rw e (omega (arith, one_less b.tokens (ltb→lt 0 b.tokens e)))
  | inr e ↦ rw e (omega arith)
]

pub Fits-spend :
    (now top : ℕ) (b : Bucket) → Fits now top (some b) → Fits now top (some (spend b).0)
unfolding spend
Fits-spend now top b f = ground arith

-- A client without a bucket gets a full one.
pub worth-or_insert :
    (now top : ℕ) (o : Option Bucket) → worth now top (some (or_insert now top o)) ≡ worth now top o
unfolding or_insert
worth-or_insert now top none = omega (arith, no_time now (rate top))
worth-or_insert now top (some b) = refl

pub Fits-or_insert :
    (now top : ℕ) (o : Option Bucket) → Fits now top o → Fits now top (some (or_insert now top o))
unfolding or_insert
Fits-or_insert now top none f = omega arith
Fits-or_insert now top (some b) f = f

-- A bucket is dropped when it is so old that it is full again.
two_minutes : (e top : ℕ) → 2 * minute ≤ e → top * unit ≤ e * rate top
two_minutes e top h = let a = mul_le (2 * minute) e (rate top) h in omega (arith, a)

abbrev pub is_recent : ℕ → Bytes → Bucket → Bool
is_recent now key b = ltb (now - 2 * minute) b.last_refill

pub worth-kept :
    (now top : ℕ) (key : Bytes) (o : Option Bucket)
    → 2 * minute ≤ now
    → worth now top (kept (is_recent now) key o) ≤ worth now top o
worth-kept now top key none h = omega arith
worth-kept now top key (some b) h = elim (Bool-cases (ltb (now - 2 * minute) b.last_refill)) [
  | inl e ↦ rw e (omega arith)
  | inr e ↦
      let old : b.last_refill ≤ now - 2 * minute = ground arith in
      rw e (omega (arith, two_minutes (now - b.last_refill) top (omega (arith, old, h))))
]

pub Fits-kept :
    (p : Bytes → Bucket → Bool) (now top : ℕ) (key : Bytes) (o : Option Bucket)
    → Fits now top o
    → Fits now top (kept p key o)
Fits-kept p now top key none f = tt
Fits-kept p now top key (some b) f = elim (Bool-cases (p key b)) [
  | inl e ↦ rw e f
  | inr e ↦ rw e tt
]

pub prune_forms :
    (now : ℕ) (m left : BTreeMap Bytes Bucket)
    → prune now m ≡ some left
    → (m ≡ left) ⊎ ((2 * minute ≤ now) × (retain (is_recent now) m ≡ left))
unfolding prune
prune_forms now m left e = elim (Bool-cases (ltb max_buckets (length m))) [
  | inl big ↦ elim (Bool-cases (ltb now (2 * minute))) [
    | inl early ↦ absurd (ground (arith, e))
    | inr late ↦ inr (ground arith, ground (arith, e))
  ]
  | inr small ↦ inl (ground (arith, e))
]

-- What pruning leaves: order, worth and ranges.
pub record Pruned (now top : ℕ) (client : Bytes) (m left : BTreeMap Bytes Bucket) : Type 0 where
  pub sorted : IsSorted left
  pub worth_le : worth now top (get client left) ≤ worth now top (get client m)
  pub fits : Fits now top (get client left)

pub prune-Pruned :
    (now top : ℕ) (client : Bytes) (m left : BTreeMap Bytes Bucket)
    → IsSorted m
    → Fits now top (get client m)
    → prune now m ≡ some left
    → Pruned now top client m left
prune-Pruned now top client m left s f e = elim (prune_forms now m left e) [
  | inl same ↦
      subst (Pruned now top client m) same (record { sorted = s; worth_le = omega arith; fits = f })
  | inr (late, same) ↦
      let looked = get-retain (is_recent now) client m s in
      subst (Pruned now top client m) same (record {
        sorted = retain-IsSorted (is_recent now) m s;
        worth_le = rw looked (worth-kept now top client (get client m) late);
        fits = rw looked (Fits-kept (is_recent now) now top client (get client m) f);
      })
]
