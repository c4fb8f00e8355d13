-- ===== src/Queue/Claim/Handed.antt =====
-- Where the jobs come from that a call hands out.
use thingd.Base.{
  ℕ, zero, suc, ◌+◌, ◌%◌, ◌^◌, Bytes, ◌≡◌, refl, sym, ap, ◌∙◌, inl, inr, Bool, true, some, List, [],
  ◌∷◌, arith, Bool-cases, Option-cases, u32_max, sat_add, nat_ord, list_ord, pair_ord, find, In,
  update_find, find-test, find-In,
}
use thingd.Base.Int.{ℤ}
use thingd.Model.{QueueJob, QueueClaimOptions, ok}
use thingd.Queue.{
  Queues, claimable, claim_one, claim_batched, lease_job, claim_first, claim_up_to,
  claim_job_with_options, claim_jobs_with_options, sort_by_priority, list_jobs,
}
use thingd.Queue.Jobs.{In-sort_by_priority_inv}
use thingd.Queue.Machine.{Op, claim, claims, step}
use thingd.Queue.Lifecycle.{Claiming}
use thingd.Queue.Claim.{released, claim-claim_first, claims-claim_up_to, claims_open}

-- What the claim returns stands in the queue after it.
In-update_find :
    (test : QueueJob → Bool) (f : QueueJob → QueueJob) (xs : List QueueJob) (j : QueueJob)
    → find test xs ≡ some j
    → In (f j) (update_find test f xs)
In-update_find test f [] j e = cc
In-update_find test f (x ∷ xs) j e =
    ground (arith, In-update_find test f xs j, ap f {x = x} {y = j})

-- The call hands the job out.
abbrev pub HandsOut : Queues → Op → Bytes → QueueJob → Type 0
HandsOut queues (claim q' options t now) q k =
    (q' ≡ q) × ((claim_job_with_options queues q' options t now).1 ≡ ok (some k))
HandsOut queues (claims q' options limit t now) q k =
    (q' ≡ q)
    × ((jobs : List QueueJob) × ((claim_jobs_with_options queues q' options limit t now).1
          ≡ ok jobs)
        × In k jobs)
HandsOut queues _ q k = ⊥

-- Where a job comes from that a call hands out: it was to be had, and stands in the queue as leased.
unfoldable pub Handed : Queues → Op → Bytes → QueueJob → Type 0
Handed queues op q k =
    (b : QueueJob) × (options : QueueClaimOptions) × (t : ℤ) × (now : ℤ) × (n : ℕ) × Claiming op q
      options t now
    × In b (released queues q t)
    × (claimable now b ≡ true)
    × (k ≡ lease_job now options n b)
    × In k (list_jobs (step queues op) q)

first_claimed :
    (now : ℤ) (options : QueueClaimOptions) (xs : List QueueJob) (k : QueueJob)
    → (claim_first now options xs).1 ≡ some k
    → (b : QueueJob) × In b xs
      × (claimable now b ≡ true)
      × (k ≡ claim_one now options b)
      × In k (claim_first now options xs).0
unfolding claim_first
first_claimed now options xs k e = elim (Option-cases (find (claimable now) xs)) [
  | inl f ↦ absurd (ground arith)
  | inr (b, f) ↦
      let same : k ≡ claim_one now options b = ground arith in
      (
        b,
        find-In (claimable now) xs b f,
        find-test (claimable now) xs b f,
        same,
        rw (f, claim_first, same) (In-update_find _ _ xs b f),
      )
]

up_to_claimed :
    (now : ℤ) (options : QueueClaimOptions) (limit : ℕ) (xs : List QueueJob) (k : QueueJob)
    → In k (claim_up_to now options limit xs).1
    → (b : QueueJob) × In b xs
      × (claimable now b ≡ true)
      × (k ≡ claim_batched now options b)
      × In k (claim_up_to now options limit xs).0
unfolding claim_up_to
up_to_claimed now options zero xs k h = elim h [ ]
up_to_claimed now options (suc limit) [] k h = elim h [ ]
up_to_claimed now options (suc limit) (x ∷ xs) k h = elim (Bool-cases (claimable now x)) [
  | inl hit ↦ elim (rw (hit, claim_up_to) at h) [
    | inl same ↦ (x, inl refl, hit, same, rw (hit, claim_up_to) (inl same))
    | inr i ↦
        let (b, m, able, same, l) = up_to_claimed now options limit xs k i in
        (b, inr m, able, same, rw (hit, claim_up_to) (inr l))
  ]
  | inr miss ↦
      let (b, m, able, same, l) =
        up_to_claimed now options (suc limit) xs k (rw (miss, claim_up_to) at h) in
      (b, inr m, able, same, rw (miss, claim_up_to) (inr l))
]

pub HandsOut-Handed :
    (queues : Queues) (op : Op) (q : Bytes) (k : QueueJob)
    → HandsOut queues op q k
    → Handed queues op q k
unfolding Handed step claim_one claim_batched
HandsOut-Handed queues (claim q' options t now) q k (same, e) =
    let (answer, left) = claim-claim_first queues q' options t now in
    let found : (claim_first now options (sort_by_priority (released queues q' t))).1 ≡ some k =
      ground (arith, answer, e) in
    let (b, m, able, made, i) =
      first_claimed now options (sort_by_priority (released queues q' t)) k found in
    rw (← same) (
      b,
      options,
      t,
      now,
      (b.attempts + 1) % 2 ^ 32,
      (refl, refl, refl, refl),
      In-sort_by_priority_inv b (released queues q' t) m,
      able,
      made,
      rw left i,
    )
HandsOut-Handed queues (claims q' options limit t now) q k (same, (jobs, e, h)) =
    let (few, wanted) = claims_open queues q' options limit t now jobs k e h in
    let (answer, left) = claims-claim_up_to queues q' options limit t now few wanted in
    let choice = sort_by_priority (released queues q' t) in
    let all_same : jobs ≡ (claim_up_to now options limit choice).1 =
      (let x = sym e ∙ answer in cc) in
    let (b, m, able, made, i) = up_to_claimed now options limit choice k (rw all_same at h) in
    rw (← same) (
      b,
      options,
      t,
      now,
      sat_add u32_max b.attempts 1,
      (refl, refl, refl, refl),
      In-sort_by_priority_inv b (released queues q' t) m,
      able,
      made,
      rw left i,
    )
HandsOut-Handed queues _ q k h = absurd h
