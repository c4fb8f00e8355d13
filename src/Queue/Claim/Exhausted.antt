-- ===== src/Queue/Claim/Exhausted.antt =====
-- A lease that runs out gives its job back whatever its attempts: the limit binds rejections only.
use thingd.Base.{
  ℕ, zero, suc, ◌≤◌, ◌<◌, Bytes, ◌≡◌, refl, ap, inl, inr, true, some, List, [], ◌∷◌, map, arith,
  Bool-cases, u32_max, nat_ord, list_ord, pair_ord, length, In,
}
use thingd.Base.Int.{ℤ, leb_ℤ}
use thingd.Model.{QueueJob, QueueClaimOptions, leased, ok}
use thingd.Queue.{
  Queues, is_leased, is_ready, lease_expired, release_job, claimable, claim_batched, lease_job,
  claim_up_to, claim_jobs_with_options, insert_by_priority, sort_by_priority, list_jobs,
  max_queue_batch_items,
}
use thingd.Queue.Jobs.{In-map, In-sort_by_priority}
use thingd.Queue.Claim.{released, claims-claim_up_to}

length-insert_by_priority :
    (j : QueueJob) (xs : List QueueJob) → length (insert_by_priority j xs) ≡ suc (length xs)
unfolding insert_by_priority
length-insert_by_priority j [] = refl
length-insert_by_priority j (x ∷ xs) = ground (arith, length-insert_by_priority j xs)

length-sort_by_priority : (xs : List QueueJob) → length (sort_by_priority xs) ≡ length xs
unfolding sort_by_priority
length-sort_by_priority [] = refl
length-sort_by_priority (x ∷ xs) =
    omega (arith, length-insert_by_priority x (sort_by_priority xs), length-sort_by_priority xs)

length-map : (f : QueueJob → QueueJob) (xs : List QueueJob) → length (map f xs) ≡ length xs
length-map f [] = refl
length-map f (x ∷ xs) = omega (arith, length-map f xs)

length-In : (xs : List QueueJob) (j : QueueJob) → In j xs → 1 ≤ length xs
length-In [] j h = elim h [ ]
length-In (x ∷ xs) j h = omega arith

-- A batch that is large enough takes every job that is to be had.
In-claimed :
    (now : ℤ) (options : QueueClaimOptions) (limit : ℕ) (xs : List QueueJob) (b : QueueJob)
    → In b xs
    → claimable now b ≡ true
    → length xs ≤ limit
    → In (claim_batched now options b) (claim_up_to now options limit xs).1
unfolding claim_up_to
In-claimed now options limit [] b h able room = elim h [ ]
In-claimed now options zero (x ∷ xs) b h able room = absurd (omega (arith, room))
In-claimed now options (suc limit) (x ∷ xs) b (inl same) able room =
    let able_too = rw same at able in
    rw (able_too, claim_up_to) (inl (ap (claim_batched now options) same))
In-claimed now options (suc limit) (x ∷ xs) b (inr h) able room =
    elim (Bool-cases (claimable now x)) [
      | inl hit ↦
          rw (hit, claim_up_to)
            (inr (In-claimed now options limit xs b h able (omega (arith, room))))
      | inr miss ↦
          rw (miss, claim_up_to)
            (In-claimed now options (suc limit) xs b h able (omega (arith, room)))
    ]

worn_job :
    (t now e : ℤ) (options : QueueClaimOptions) (j : QueueJob)
    → j.status ≡ leased
    → j.lease_expires_at_ms ≡ some e
    → leb_ℤ e t ≡ true
    → leb_ℤ j.available_at_ms now ≡ true
    → j.max_attempts ≤ j.attempts
    → j.attempts < u32_max
    → (claimable now (release_job t j) ≡ true)
      × ((claim_batched now options (release_job t j)).id ≡ j.id)
      × (j.max_attempts < (claim_batched now options (release_job t j)).attempts)
unfolding release_job lease_expired is_leased claimable is_ready claim_batched lease_job
worn_job t now e options j s x l a m b = (ground arith, ground arith, ground arith)

-- In a queue with any jobs, a job that is leased for the last of its attempts and whose lease has
-- run out at the release is handed out again by a batch claim that may take as many jobs as the queue
-- has, if the job is available then. It then has more attempts than its limit (the counter of attempts
-- is taken not to be at its end).
pub claim_jobs_exhausted :
    (queues : Queues) (q : Bytes) (options : QueueClaimOptions) (limit : ℕ) (t now e : ℤ)
    (j : QueueJob)
    → In j (list_jobs queues q)
    → j.status ≡ leased
    → j.lease_expires_at_ms ≡ some e
    → leb_ℤ e t ≡ true
    → leb_ℤ j.available_at_ms now ≡ true
    → j.max_attempts ≤ j.attempts
    → j.attempts < u32_max
    → length (list_jobs queues q) ≤ limit
    → limit ≤ max_queue_batch_items
    → (jobs : List QueueJob) × (k : QueueJob) × ((claim_jobs_with_options queues q options limit t
          now).1
        ≡ ok jobs)
      × In k jobs
      × (k.id ≡ j.id)
      × (j.max_attempts < k.attempts)
unfolding released
claim_jobs_exhausted queues q options limit t now e j h s x l a m b room few =
    let waiting = map (release_job t) (list_jobs queues q) in
    let choice = sort_by_priority waiting in
    let (able, named, more) = worn_job t now e options j s x l a m b in
    let size = length-sort_by_priority waiting in
    let size' = length-map (release_job t) (list_jobs queues q) in
    let some_there = length-In (list_jobs queues q) j h in
    let (answer, left) =
      claims-claim_up_to queues q options limit t now (ground (arith, few))
        (ground (arith, some_there, room)) in
    (
      (claim_up_to now options limit choice).1,
      claim_batched now options (release_job t j),
      answer,
      In-claimed now options limit choice (release_job t j)
          (In-sort_by_priority (release_job t j) waiting
            (In-map (release_job t) j (list_jobs queues q) h))
          able (omega (arith, size, size', room)),
      named,
      more,
    )
