-- ===== src/Server/RateLimit/Return.antt =====
-- The limiter lets a client back in.
use thingd.Base.{
  [], ◌∷◌, All, ◌==◌, ℕ, ◌-◌, ◌*◌, ◌≤◌, ◌<◌, Bytes, ◌≡◌, ap, ◌≢◌, inl, inr, true, false, Option,
  none, some, List, arith, lt→ltb, Bool-cases, Option-cases, ==_refl, nat_ord, list_ord, pair_ord,
}
use mathlib.Core.Path.{subst}
use thingd.Base.BTreeMap.{BTreeMap, get, kept, get-insert, get-retain, IsSorted}
use thingd.Server.RateLimit.{
  Doubles, Bucket, RateLimiter, new, prune, or_insert, refill, spend, take_token, check, serve,
  IsTimed, minute,
}
use thingd.Server.RateLimit.Budget.{is_recent, prune_forms, prune-Pruned}
use thingd.Server.RateLimit.Bound.{
  spent, spent-Fits, IsReady, IsReady-later, serve-IsReady, new-IsReady, check-Pays,
}

-- A client without a bucket, or with an empty one that was last filled by `since`.
abbrev IsEmptyAt : ℕ → Option Bucket → Type 0
IsEmptyAt since none = Unit
IsEmptyAt since (some b) = (b.tokens ≡ 0) × (b.last_refill ≤ since)

spend_refused : (b : Bucket) → (spend b).1 ≡ false → (spend b).0.tokens ≡ 0
unfolding spend
spend_refused b h = ground arith

spend_allowed : (b : Bucket) → 0 < b.tokens → (spend b).1 ≡ true
unfolding spend
spend_allowed b h = ground arith

mul_mono : (a b c : ℕ) → a ≤ b → a * c ≤ b * c
mul_mono a b c h = grind arith

-- After the wait the bucket holds a token again.
waited_tokens :
    (d : Doubles) (since now top : ℕ) (b : Bucket)
    → 0 < top
    → 2 * minute ≤ (now - since) * top
    → (b.tokens ≡ 0)
    → b.last_refill ≤ since
    → 0 < (refill d now minute top b).tokens
unfolding refill
waited_tokens d since now top b pos wait e old =
    let more = mul_mono (now - since) (now - b.last_refill) top (omega (arith, old)) in
    let back =
      d.refilled_pos (now - b.last_refill) minute top (omega arith) (omega (arith, more, wait)) in
    let fits = d.refilled_u64 (now - b.last_refill) minute top in
    rw (lt→ltb _ _ back) (omega (arith, e, back, fits, pos))

full_tokens :
    (d : Doubles) (now top : ℕ)
    → 0 < top
    → 0 < (refill d now minute top (record { tokens = top; last_refill = now })).tokens
unfolding refill
full_tokens d now top pos =
    let none_yet : now - now ≡ 0 = omega arith in
    let law = d.refilled_le 0 minute top in
    let nothing : d.refilled 0 minute top ≡ 0 = omega (arith, law) in rw (none_yet, nothing) pos

spent_waited :
    (d : Doubles) (since now top : ℕ) (o : Option Bucket)
    → 0 < top
    → 2 * minute ≤ (now - since) * top
    → IsEmptyAt since o
    → (spent d now top o).1 ≡ true
unfolding spent or_insert
spent_waited d since now top none pos wait h = spend_allowed _ (full_tokens d now top pos)
spent_waited d since now top (some b) pos wait h =
    spend_allowed _ (waited_tokens d since now top b pos wait (h.0) (h.1))

kept-IsEmptyAt :
    (now since : ℕ) (key : Bytes) (o : Option Bucket)
    → IsEmptyAt since o
    → IsEmptyAt since (kept (is_recent now) key o)
kept-IsEmptyAt now since key none h = tt
kept-IsEmptyAt now since key (some b) h = elim (Bool-cases (is_recent now key b)) [
  | inl e ↦ rw e h
  | inr e ↦ rw e tt
]

prune-IsEmptyAt :
    (now since : ℕ) (key : Bytes) (m left : BTreeMap Bytes Bucket)
    → IsSorted m
    → prune now m ≡ some left
    → IsEmptyAt since (get key m)
    → IsEmptyAt since (get key left)
prune-IsEmptyAt now since key m left s e h = elim (prune_forms now m left e) [
  | inl same ↦ subst (λ x. IsEmptyAt since (get key x)) same h
  | inr (late, same) ↦
      subst (λ x. IsEmptyAt since (get key x)) same
        (rw (get-retain (is_recent now) key m s) (kept-IsEmptyAt now since key (get key m) h))
]

prune_late : (now : ℕ) (m : BTreeMap Bytes Bucket) → 2 * minute ≤ now → prune now m ≢ none
unfolding prune
prune_late now m late e = ground (arith, e)

-- What a refused check leaves.
refused-IsEmptyAt :
    (d : Doubles) (now top : ℕ) (key : Bytes) (l : RateLimiter)
    → IsReady now top key l
    → (check d now key l).1 ≡ some false
    → IsEmptyAt now (get key (check d now key l).0.buckets)
unfolding check take_token spent
refused-IsEmptyAt d now top key l r e = elim (Option-cases (prune now l.buckets)) [
  | inl gone ↦ absurd (let x : none ≡ some false = (rw (gone, check) at e) in cc)
  | inr (left, found) ↦
      let p = prune-Pruned now top key l.buckets left r.sorted r.fits found in
      let s = spent d now top (get key left) in
      let b = or_insert now top (get key left) in
      let f : s.1 ≡ false = (let x = rw (found, check, r.top_same, r.interval) at e in cc) in
      let fits = spent-Fits d now top (get key left) p.fits in
      rw (found, check, r.top_same, r.interval, get-insert key key s.0 left, ==_refl key)
        (spend_refused (refill d now minute top b) f, fits.1)
]

allowed_waited :
    (d : Doubles) (since now top : ℕ) (key : Bytes) (l : RateLimiter)
    → IsReady now top key l
    → IsEmptyAt since (get key l.buckets)
    → 0 < top
    → 2 * minute ≤ now
    → 2 * minute ≤ (now - since) * top
    → (check d now key l).1 ≡ some true
unfolding check take_token spent
allowed_waited d since now top key l r h pos late wait = elim (Option-cases (prune now l.buckets)) [
  | inl gone ↦ absurd (prune_late now l.buckets late gone)
  | inr (left, found) ↦
      let gave =
        spent_waited d since now top (get key left) pos wait
          (prune-IsEmptyAt now since key l.buckets left r.sorted found h) in
      rw (found, check, r.top_same, r.interval) (ap some gave)
]

-- The requests of a list are of other clients.
abbrev pub AreOthers : Bytes → List (ℕ × Bytes) → Type 0
AreOthers key reqs = All (λ (r : ℕ × Bytes). (r.1 == key) ≡ false) reqs

other-IsEmptyAt :
    (d : Doubles) (since now : ℕ) (key other : Bytes) (l : RateLimiter)
    → IsSorted l.buckets
    → (other == key) ≡ false
    → IsEmptyAt since (get key l.buckets)
    → IsEmptyAt since (get key (check d now other l).0.buckets)
unfolding check take_token
other-IsEmptyAt d since now key other l s n h = elim (Option-cases (prune now l.buckets)) [
  | inl gone ↦ rw (gone, check) h
  | inr (left, found) ↦
      let still = prune-IsEmptyAt now since key l.buckets left s found h in
      let b = or_insert now l.max_tokens (get other left) in
      let spared = (spend (refill d now l.refill_interval l.max_tokens b)).0 in
      rw (found, check, get-insert other key spared left, n) still
]

-- While other clients are served, an empty bucket stays as it is, or is pruned.
serve-IsEmptyAt :
    (d : Doubles) (since start end top : ℕ) (key : Bytes) (l : RateLimiter)
    (reqs : List (ℕ × Bytes))
    → IsTimed start reqs end
    → AreOthers key reqs
    → IsReady start top key l
    → IsEmptyAt since (get key l.buckets)
    → IsEmptyAt since (get key (serve d l reqs).buckets)
unfolding serve
serve-IsEmptyAt d since start end top key l [] timed others r h = h
serve-IsEmptyAt d since start end top key l ((now, other) ∷ rest) timed others r h =
    let ready = IsReady-later start now top key l (timed.0) r in
    let next = (check-Pays d now top key other l ready).1 in
    serve-IsEmptyAt d since now end top key (check d now other l).0 rest (timed.1) (others.1) next
      (other-IsEmptyAt d since now key other l r.sorted (others.0) h)

-- A limiter's client that is refused at some time of a run passes at its next request, whatever
-- other clients ask for in between, if that request comes two minutes after the clock's start or
-- later and so long after the refusal that the rate `rpm` gives two tokens (for `rpm` at least 1, two
-- minutes are always enough). Pruning cannot panic by then.
pub refused-allowed :
    (d : Doubles) (rpm : ℕ) (key : Bytes) (reqs between : List (ℕ × Bytes)) (start since now : ℕ)
    → IsTimed start reqs since
    → (check d since key (serve d (new rpm) reqs)).1 ≡ some false
    → IsTimed since between now
    → AreOthers key between
    → 0 < rpm
    → 2 * minute ≤ now
    → 2 * minute ≤ (now - since) * rpm
    → (check d now key (serve d (check d since key (serve d (new rpm) reqs)).0 between)).1
      ≡ some true
refused-allowed d rpm key reqs between start since now timed e later others pos late wait =
    let l = serve d (new rpm) reqs in
    let ready =
      serve-IsReady d rpm key (new rpm) reqs start since timed (new-IsReady start rpm key) in
    let next = (check-Pays d since rpm key key l ready).1 in
    let empty = refused-IsEmptyAt d since rpm key l ready e in
    let refused = (check d since key l).0 in
    allowed_waited d since now rpm key (serve d refused between)
      (serve-IsReady d rpm key refused between since now later next)
      (serve-IsEmptyAt d since since now rpm key refused between later others next empty) pos late
      wait
