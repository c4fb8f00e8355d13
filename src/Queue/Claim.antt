-- ===== src/Queue/Claim.antt =====
-- Which job a claim hands out, and to how many workers at once.
pub mod Priority
pub mod Handed
pub mod Lease
pub mod Exhausted
use thingd.Base.{
  ℕ, zero, suc, ◌+◌, ◌-◌, ◌*◌, ◌/◌, ◌%◌, ◌^◌, ◌≤◌, ◌<◌, min, max, Bytes, codes, ◌≡◌, refl, sym, ap,
  ◌∙◌, ◌≢◌, ◌↔◌, ◌⊎◌, inl, inr, Bool, true, false, not, ◌&&◌, ◌||◌, Option, none, some, List, [],
  ◌∷◌, ◌++◌, map, arith, ltb, leb, nat_beq, ltb→lt, lt→ltb, leb→le, le→leb, Bool-cases,
  Option-cases, if◌then◌else◌, u32_max, u64_max, i64_max, sat_add, Ord, ◌==◌, ◌<?◌, ==_iff, ==_refl,
  nat_ord, list_ord, pair_ord, list_beq, list_blt, length, take, drop, find, any, all, filter,
  last?, All, In, Empty, update_find, find-test, find-In, find-none-In, length-append, length-take,
  length-drop, take-append, drop-append, length-filter-le, contains, starts_with,
  starts_with-append,
}
use thingd.Base.BTreeMap.{get, get-insert}
use thingd.Base.Int.{ℤ}
use thingd.Model.{QueueJob, QueueClaimOptions, ok}
use thingd.Queue.{
  Queues, claimable, claim_one, claim_first, claim_up_to, claim_jobs_with_options,
  max_queue_batch_items, claim_job_with_options, release_job, release_expired_leases,
  sort_by_priority, list_jobs,
}
use thingd.Queue.Jobs.{list_jobs-insert}

-- The jobs that a claim at `t` chooses from: the queue's, with the leases run out at `t` given back.
unfoldable pub released : Queues → Bytes → ℤ → List QueueJob
released queues q t = map (release_job t) (list_jobs queues q)

pub list_jobs-release :
    (queues : Queues) (q : Bytes) (t : ℤ)
    → list_jobs (release_expired_leases queues q t) q ≡ released queues q t
unfolding released list_jobs release_expired_leases
list_jobs-release queues q t = elim (Option-cases (get q queues)) [
  | inl e ↦ ground arith
  | inr (jobs, e) ↦ ground (arith, get-insert q q (map (release_job t) jobs) queues, ==_refl q)
]

-- What a lookup of the queue finds after the release.
get-released :
    (queues : Queues) (q : Bytes) (t : ℤ) (jobs : List QueueJob)
    → get q (release_expired_leases queues q t) ≡ some jobs
    → jobs ≡ released queues q t
unfolding list_jobs
get-released queues q t jobs e = ground (arith, list_jobs-release queues q t)

get-released-none :
    (queues : Queues) (q : Bytes) (t : ℤ)
    → get q (release_expired_leases queues q t) ≡ none
    → [] ≡ released queues q t
unfolding list_jobs
get-released-none queues q t e = ground (arith, list_jobs-release queues q t)

claim_first-nil :
    (now : ℤ) (options : QueueClaimOptions)
    → claim_first now options (sort_by_priority []) ≡ ([], none)
unfolding claim_first sort_by_priority
claim_first-nil now options = refl

-- A claim is the scan of the sorted choice, written back.
pub claim-claim_first :
    (queues : Queues) (q : Bytes) (options : QueueClaimOptions) (t now : ℤ)
    → let scan = claim_first now options (sort_by_priority (released queues q t)) in
      ((claim_job_with_options queues q options t now).1 ≡ ok scan.1)
      × (list_jobs (claim_job_with_options queues q options t now).0 q ≡ scan.0)
unfolding claim_job_with_options
claim-claim_first queues q options t now =
    elim (Option-cases (get q (release_expired_leases queues q t))) [
      | inl e ↦
          rw
            (
              e,
              claim_job_with_options,
              list_jobs-release queues q t,
              ← get-released-none queues q t e,
              claim_first-nil now options,
            )
            (refl, refl)
      | inr (jobs, e) ↦
          rw
            (
              e,
              claim_job_with_options,
              ← get-released queues q t jobs e,
              list_jobs-insert (release_expired_leases queues q t) q q
                  (claim_first now options (sort_by_priority jobs)).0,
              ==_refl q,
            )
            (refl, refl)
    ]

claim_up_to-nil :
    (now : ℤ) (options : QueueClaimOptions) (limit : ℕ)
    → claim_up_to now options limit (sort_by_priority []) ≡ ([], [])
unfolding claim_up_to sort_by_priority
claim_up_to-nil now options zero = refl
claim_up_to-nil now options (suc limit) = refl

-- The same of a batch that is not refused or empty.
pub claims-claim_up_to :
    (queues : Queues) (q : Bytes) (options : QueueClaimOptions) (limit : ℕ) (t now : ℤ)
    → ltb max_queue_batch_items limit ≡ false
    → (limit == 0) ≡ false
    → let scan = claim_up_to now options limit (sort_by_priority (released queues q t)) in
      ((claim_jobs_with_options queues q options limit t now).1 ≡ ok scan.1)
      × (list_jobs (claim_jobs_with_options queues q options limit t now).0 q ≡ scan.0)
unfolding claim_jobs_with_options
claims-claim_up_to queues q options limit t now few some_wanted =
    elim (Option-cases (get q (release_expired_leases queues q t))) [
      | inl e ↦
          rw
            (
              few,
              some_wanted,
              e,
              claim_jobs_with_options,
              list_jobs-release queues q t,
              ← get-released-none queues q t e,
              claim_up_to-nil now options limit,
            )
            (refl, refl)
      | inr (jobs, e) ↦
          rw
            (
              few,
              some_wanted,
              e,
              claim_jobs_with_options,
              ← get-released queues q t jobs e,
              list_jobs-insert (release_expired_leases queues q t) q q
                  (claim_up_to now options limit (sort_by_priority jobs)).0,
              ==_refl q,
            )
            (refl, refl)
    ]

-- A batch that hands out a job is not refused or empty.
pub claims_open :
    (queues : Queues) (q : Bytes) (options : QueueClaimOptions) (limit : ℕ) (t now : ℤ)
    (jobs : List QueueJob) (k : QueueJob)
    → (claim_jobs_with_options queues q options limit t now).1 ≡ ok jobs
    → In k jobs
    → (ltb max_queue_batch_items limit ≡ false) × ((limit == 0) ≡ false)
unfolding claim_jobs_with_options
claims_open queues q options limit t now jobs k e h =
    elim (Bool-cases (ltb max_queue_batch_items limit)) [
      | inl big ↦ absurd (let x = rw (big, claim_jobs_with_options) at e in cc)
      | inr few ↦ elim (Bool-cases (limit == 0)) [
        | inr wanted ↦ (few, wanted)
        | inl nothing ↦
            let x = rw (few, nothing, claim_jobs_with_options) at e in
            let same : [] ≡ jobs = cc in absurd (given (rw (← same) at h))
      ]
    ]
  where
    given : In k [] → ⊥
    given i = elim i [ ]
