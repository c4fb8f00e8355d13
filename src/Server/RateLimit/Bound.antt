-- ===== src/Server/RateLimit/Bound.antt =====
-- The limiter's bound: over any run of requests, a client's passes are paid from its bucket.
use thingd.Base.{
  ℕ, ◌+◌, ◌-◌, ◌*◌, ◌≤◌, Bytes, ◌≡◌, refl, inl, inr, Bool, true, false, Option, some, List, [], ◌∷◌,
  arith, Bool-cases, Option-cases, if◌then◌else◌, ◌==◌, ==_iff, ==_refl, nat_ord, list_ord,
  pair_ord,
}
use thingd.Base.BTreeMap.{BTreeMap, get, IsSorted, get-insert, insert-IsSorted}
use thingd.Server.RateLimit.{
  precision, Doubles, Bucket, RateLimiter, minute, new, prune, or_insert, refill, spend, take_token,
  check, passes, serve, passed, IsTimed,
}
use thingd.Server.RateLimit.Budget.{
  unit, rate, worth, Fits, Fits-later, worth_later, worth-refill, Fits-refill, cost, worth-spend,
  Fits-spend, worth-or_insert, Fits-or_insert, Pruned, prune-Pruned, split_time, mul_add,
}

-- The map in key order, the settings of `new`, and the client's bucket in range at `now`.
pub record IsReady (now top : ℕ) (client : Bytes) (l : RateLimiter) : Type 0 where
  pub sorted : IsSorted l.buckets
  pub fits : Fits now top (get client l.buckets)
  pub top_same : l.max_tokens ≡ top
  pub interval : l.refill_interval ≡ minute

-- One request pays for itself.
abbrev pub Pays : ℕ → ℕ → Bytes → Bytes → RateLimiter → RateLimiter × Option Bool → Type 0
Pays now top client key l r =
    (passes client key r.1 * unit + worth now top (get client r.0.buckets)
      ≤ worth now top (get client l.buckets))
    × IsReady now top client r.0

-- The key's bucket after the request, and what it paid.
unfoldable pub spent : Doubles → ℕ → ℕ → Option Bucket → Bucket × Bool
spent d now top o = spend (refill d now minute top (or_insert now top o))

spent_paid :
    (d : Doubles) (now top : ℕ) (o : Option Bucket)
    → cost (spent d now top o).1 + worth now top (some (spent d now top o).0) ≤ worth now top o
unfolding spent
spent_paid d now top o =
    let b = or_insert now top o in
    omega (
      arith,
      worth-spend now top (refill d now minute top b),
      worth-refill d now top b,
      worth-or_insert now top o,
    )

pub spent-Fits :
    (d : Doubles) (now top : ℕ) (o : Option Bucket)
    → Fits now top o
    → Fits now top (some (spent d now top o).0)
unfolding spent
spent-Fits d now top o f =
    let b = or_insert now top o in
    Fits-spend now top (refill d now minute top b)
      (Fits-refill d now minute top b (Fits-or_insert now top o f))

cost_same : (b : Bool) → (if b then 1 else 0) * unit ≡ cost b
cost_same true = omega arith
cost_same false = omega arith

take_token-Pays :
    (d : Doubles) (now top : ℕ) (client key : Bytes) (l : RateLimiter)
    (left : BTreeMap Bytes Bucket)
    → IsReady now top client l
    → Pruned now top client l.buckets left
    → Pays now top client key l (take_token d now key l left)
unfolding take_token passes spent
take_token-Pays d now top client key l left r p =
    let s = spent d now top (get key left) in
    let looked = get-insert key client s.0 left in
    rw (r.top_same, r.interval)
      (elim (Bool-cases (key == client)) [
        | inl e ↦
            let same : key ≡ client = (==_iff key client).0 e in
            let pay = spent_paid d now top (get client left) in
            rw (looked, e, same)
              (
                omega (arith, cost_same (spent d now top (get client left)).1, pay, p.worth_le),
                record {
                  sorted = insert-IsSorted client _ left p.sorted;
                  fits =
                      rw
                        (
                          get-insert client client (spent d now top (get client left)).0 left,
                          ==_refl client,
                        )
                        (spent-Fits d now top (get client left) p.fits);
                  top_same = refl;
                  interval = refl;
                },
              )
        | inr e ↦
            rw (looked, e)
              (
                omega (arith, p.worth_le),
                record {
                  sorted = insert-IsSorted key _ left p.sorted;
                  fits = rw (get-insert key client s.0 left, e) p.fits;
                  top_same = refl;
                  interval = refl;
                },
              )
      ])

pub check-Pays :
    (d : Doubles) (now top : ℕ) (client key : Bytes) (l : RateLimiter)
    → IsReady now top client l
    → Pays now top client key l (check d now key l)
unfolding check passes
check-Pays d now top client key l r = elim (Option-cases (prune now l.buckets)) [
  | inl e ↦ rw (e, check) (omega arith, r)
  | inr (left, e) ↦
      rw (e, check)
        (take_token-Pays d now top client key l left r
          (prune-Pruned now top client l.buckets left r.sorted r.fits e))
]

pub IsReady-later :
    (t u top : ℕ) (client : Bytes) (l : RateLimiter)
    → t ≤ u
    → IsReady t top client l
    → IsReady u top client l
IsReady-later t u top client l le r = record {
  sorted = r.sorted;
  fits = Fits-later t u top (get client l.buckets) le r.fits;
  top_same = r.top_same;
  interval = r.interval;
}

IsTimed-le : (start end : ℕ) (reqs : List (ℕ × Bytes)) → IsTimed start reqs end → start ≤ end
IsTimed-le start end [] h = h
IsTimed-le start end ((now, key) ∷ rest) h = omega (arith, h.0, IsTimed-le now end rest (h.1))

pub serve-IsReady :
    (d : Doubles) (top : ℕ) (client : Bytes) (l : RateLimiter) (reqs : List (ℕ × Bytes))
    (start end : ℕ)
    → IsTimed start reqs end
    → IsReady start top client l
    → IsReady end top client (serve d l reqs)
unfolding serve
serve-IsReady d top client l [] start end h r = IsReady-later start end top client l h r
serve-IsReady d top client l ((now, key) ∷ rest) start end h r =
    let ready = IsReady-later start now top client l (h.0) r in
    serve-IsReady d top client (check d now key l).0 rest now end (h.1)
      (check-Pays d now top client key l ready).1

pub new-IsReady : (start rpm : ℕ) (client : Bytes) → IsReady start rpm client (new rpm)
unfolding new get
new-IsReady start rpm client = record { sorted = tt; fits = tt; top_same = refl; interval = refl }

passed_paid :
    (d : Doubles) (top : ℕ) (client : Bytes) (l : RateLimiter) (reqs : List (ℕ × Bytes))
    (start end : ℕ)
    → IsTimed start reqs end
    → IsReady start top client l
    → passed d client l reqs * unit
      ≤ worth start top (get client l.buckets) + (end - start) * rate top
unfolding passed
passed_paid d top client l [] start end h r = omega arith
passed_paid d top client l ((now, key) ∷ rest) start end h r =
    let ready = IsReady-later start now top client l (h.0) r in
    let paid = check-Pays d now top client key l ready in
    let ih = passed_paid d top client (check d now key l).0 rest now end (h.1) (paid.1) in
    omega (
      arith,
      paid.0,
      ih,
      worth_later start now top (get client l.buckets) (h.0) r.fits,
      split_time now end start (rate top) (h.0) (IsTimed-le now end rest (h.1)),
      mul_add (passes client key (check d now key l).1) (passed d client (check d now key l).0 rest)
          unit,
    )

-- From a new limiter of `rpm` requests, any run of requests with a clock that does not run
-- backwards lets at most `rpm` requests of a client pass, and `rpm` more for each minute of the
-- run (up to the relative error 2 ^ -50 of the doubles), whatever the other clients do and
-- whenever the map is pruned.
pub passed_bound :
    (d : Doubles) (rpm : ℕ) (client : Bytes) (reqs : List (ℕ × Bytes)) (start end : ℕ)
    → IsTimed start reqs end
    → passed d client (new rpm) reqs * (minute * precision)
      ≤ rpm * (minute * precision) + (end - start) * (rpm * (precision + 1))
unfolding new get
passed_bound d rpm client reqs start end h =
    passed_paid d rpm client (new rpm) reqs start end h (new-IsReady start rpm client)
