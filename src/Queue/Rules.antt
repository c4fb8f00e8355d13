-- ===== src/Queue/Rules.antt =====
-- What a relation on one queue's jobs needs to hold across every operation of the queue.
use thingd.Base.{
  ℕ, Bytes, ◌≡◌, refl, none, inl, inr, true, false, some, List, [], map, arith, ltb, Bool-cases,
  Option-cases, ◌==◌, ==_iff, ==_refl, nat_ord, list_ord, pair_ord, length, find, update_find,
}
use thingd.Base.BTreeMap.{get, insert, get-insert}
use thingd.Base.Int.{ℤ}
use thingd.Model.{QueueJob, QueueClaimOptions, QueueNackOptions}
use thingd.Queue.{
  Queues, is_leased, has_id, push_job, release_job, release_expired_leases, claim_first, push_into,
  max_queue_batch_items, claim_job_with_options, claim_up_to, claim_jobs_with_options, complete_job,
  find_job, write_job, ack_job, has_duplicate, all_leased, complete_jobs, ack_jobs, nacked,
  nack_job_with_options, sort_by_priority, list_jobs,
}
use thingd.Queue.Jobs.{list_jobs-insert}
use thingd.Queue.Machine.{Op, push, claim, claims, ack, acks, nack, step}

-- A relation between the jobs before and after an operation, and each change that an operation makes
-- to its queue.
pub record Rules (R : Op → Bytes → List QueueJob → List QueueJob → Type 0) : Type 0 where
  pub at_refl : (op : Op) (q : Bytes) (xs : List QueueJob) → R op q xs xs
  pub at_push :
      (xs : List QueueJob) (job : QueueJob) → R (push job) job.queue xs (push_into xs job).0
  pub at_claim :
      (q : Bytes) (options : QueueClaimOptions) (t now : ℤ) (xs : List QueueJob)
      → R
          (claim q options t now)
          q
          xs
          (claim_first now options (sort_by_priority (map (release_job t) xs))).0
  pub at_claims :
      (q : Bytes) (options : QueueClaimOptions) (limit : ℕ) (t now : ℤ) (xs : List QueueJob)
      → R
          (claims q options limit t now)
          q
          xs
          (claim_up_to now options limit (sort_by_priority (map (release_job t) xs))).0
  pub at_ack :
      (q id : Bytes) (now : ℤ) (xs : List QueueJob) (job : QueueJob)
      → find (has_id id) xs ≡ some job
      → is_leased job.status ≡ true
      → R (ack q id now) q xs (update_find (has_id id) (λ _. complete_job now job) xs)
  pub at_nack :
      (q id : Bytes) (options : QueueNackOptions) (now : ℤ) (xs : List QueueJob) (job : QueueJob)
      → find (has_id id) xs ≡ some job
      → is_leased job.status ≡ true
      → R (nack q id options now) q xs (update_find (has_id id) (λ _. nacked now options job) xs)
  pub at_acks :
      (q : Bytes) (now : ℤ) (xs : List QueueJob) (ids : List Bytes)
      → all_leased xs ids ≡ true
      → has_duplicate [] ids ≡ false
      → R (acks q ids now) q xs (complete_jobs now xs ids).0

list_jobs-get :
    (queues : Queues) (q : Bytes) (jobs : List QueueJob)
    → get q queues ≡ some jobs
    → list_jobs queues q ≡ jobs
unfolding list_jobs
list_jobs-get queues q jobs e = rw (e, list_jobs)

release_none :
    (queues : Queues) (q : Bytes) (t : ℤ)
    → get q queues ≡ none
    → release_expired_leases queues q t ≡ queues
unfolding release_expired_leases
release_none queues q t e = rw (e, release_expired_leases) refl

release_some :
    (queues : Queues) (q : Bytes) (t : ℤ) (jobs : List QueueJob)
    → get q queues ≡ some jobs
    → release_expired_leases queues q t ≡ insert q (map (release_job t) jobs) queues
unfolding release_expired_leases
release_some queues q t jobs e = rw (e, release_expired_leases) refl

module _ (R : Op → Bytes → List QueueJob → List QueueJob → Type 0) (r : Rules R) where
  abbrev Related : Op → Queues → Queues → Type 0
  Related op a b = (q : Bytes) → R op q (list_jobs a q) (list_jobs b q)

  Related-refl : (op : Op) (a : Queues) → Related op a a
  Related-refl op a q = r.at_refl op q (list_jobs a q)

  -- A write to one queue is judged at that queue.
  Related-insert :
      (op : Op) (queues : Queues) (k : Bytes) (jobs : List QueueJob)
      → R op k (list_jobs queues k) jobs
      → Related op queues (insert k jobs queues)
  Related-insert op queues k jobs f q = elim (Bool-cases (k == q)) [
    | inl e ↦ rw (list_jobs-insert queues k q jobs, e) (rw (← (==_iff k q).0 e) f)
    | inr e ↦ rw (list_jobs-insert queues k q jobs, e) (r.at_refl op q (list_jobs queues q))
  ]

  -- A write to a queue that is there.
  Related-write :
      (op : Op) (queues : Queues) (q : Bytes) (jobs after : List QueueJob)
      → get q queues ≡ some jobs
      → R op q jobs after
      → Related op queues (insert q after queues)
  Related-write op queues q jobs after e f =
      Related-insert op queues q after (rw (list_jobs-get queues q jobs e) f)

  push-Related :
      (queues : Queues) (job : QueueJob) → Related (push job) queues (push_job queues job).0
  unfolding push_job
  push-Related queues job =
      Related-insert (push job) queues job.queue _ (r.at_push (list_jobs queues job.queue) job)

  -- A release and a write of the same queue.
  Related-claimed :
      (op : Op) (queues : Queues) (k : Bytes) (t : ℤ) (jobs after : List QueueJob)
      → get k queues ≡ some jobs
      → R op k jobs after
      → Related op queues (insert k after (insert k (map (release_job t) jobs) queues))
  Related-claimed op queues k t jobs after e f q =
      let twice = list_jobs-insert (insert k (map (release_job t) jobs) queues) k q after in
      let once = list_jobs-insert queues k q (map (release_job t) jobs) in
      let here = list_jobs-insert queues k q after in
      let same : list_jobs (insert k after queues) q
          ≡ list_jobs (insert k after (insert k (map (release_job t) jobs) queues)) q =
        ground (arith, twice, once, here) in
      rw (← same) (Related-write op queues k jobs after e f q)

  claim-Related :
      (queues : Queues) (q : Bytes) (options : QueueClaimOptions) (t now : ℤ)
      → Related (claim q options t now) queues (claim_job_with_options queues q options t now).0
  unfolding claim_job_with_options
  claim-Related queues q options t now = elim (Option-cases (get q queues)) [
    | inl e ↦
        rw (release_none queues q t e, e, claim_job_with_options, release_none queues q t e)
          (Related-refl (claim q options t now) queues)
    | inr (jobs, e) ↦
        rw
          (
            release_some queues q t jobs e,
            claim_job_with_options,
            get-insert q q (map (release_job t) jobs) queues,
            ==_refl q,
            release_some queues q t jobs e,
          )
          (Related-claimed (claim q options t now) queues q t jobs _ e
            (r.at_claim q options t now jobs))
  ]

  claims-Related :
      (queues : Queues) (q : Bytes) (options : QueueClaimOptions) (limit : ℕ) (t now : ℤ)
      → Related
          (claims q options limit t now)
          queues
          (claim_jobs_with_options queues q options limit t now).0
  unfolding claim_jobs_with_options
  claims-Related queues q options limit t now =
      elim (Bool-cases (ltb max_queue_batch_items limit)) [
        | inl e ↦ rw (e, claim_jobs_with_options) (Related-refl op queues)
        | inr e ↦ elim (Bool-cases (limit == 0)) [
          | inl f ↦ rw (e, f, claim_jobs_with_options) (Related-refl op queues)
          | inr f ↦ elim (Option-cases (get q queues)) [
            | inl g ↦
                rw
                  (
                    e,
                    f,
                    release_none queues q t g,
                    g,
                    claim_jobs_with_options,
                    release_none queues q t g,
                  )
                  (Related-refl op queues)
            | inr (jobs, g) ↦
                rw
                  (
                    e,
                    f,
                    release_some queues q t jobs g,
                    claim_jobs_with_options,
                    get-insert q q (map (release_job t) jobs) queues,
                    ==_refl q,
                    release_some queues q t jobs g,
                  )
                  (Related-claimed op queues q t jobs _ g (r.at_claims q options limit t now jobs))
          ]
        ]
      ]
    where
      op : Op
      op = claims q options limit t now

  -- A write through the found job.
  write_job-Related :
      (op : Op) (queues : Queues) (q id : Bytes) (job job' : QueueJob)
      → find_job queues q id ≡ some job
      → ((jobs : List QueueJob)
          → find (has_id id) jobs ≡ some job
          → R op q jobs (update_find (has_id id) (λ _. job') jobs))
      → Related op queues (write_job queues q id job')
  unfolding find_job write_job
  write_job-Related op queues q id job job' e v = elim (Option-cases (get q queues)) [
    | inl g ↦ absurd (ground arith)
    | inr (jobs, g) ↦
        rw (g, write_job) (Related-write op queues q jobs _ g (v jobs (rw (g, find_job) at e)))
  ]

  ack-Related :
      (queues : Queues) (q id : Bytes) (now : ℤ)
      → Related (ack q id now) queues (ack_job queues q id now).0
  unfolding ack_job
  ack-Related queues q id now = elim (Option-cases (find_job queues q id)) [
    | inl e ↦ rw (e, ack_job) (Related-refl (ack q id now) queues)
    | inr (job, e) ↦ elim (Bool-cases (is_leased job.status)) [
      | inl f ↦
          rw (e, ack_job)
            (rw f (
              write_job-Related (ack q id now) queues q id job _ e
                (λ jobs g. r.at_ack q id now jobs job g f)))
      | inr f ↦ rw (e, ack_job) (rw f (Related-refl (ack q id now) queues))
    ]
  ]

  nack-Related :
      (queues : Queues) (q id : Bytes) (options : QueueNackOptions) (now : ℤ)
      → Related (nack q id options now) queues (nack_job_with_options queues q id options now).0
  unfolding nack_job_with_options
  nack-Related queues q id options now = elim (Option-cases (find_job queues q id)) [
    | inl e ↦ rw (e, nack_job_with_options) (Related-refl op queues)
    | inr (job, e) ↦ elim (Bool-cases (is_leased job.status)) [
      | inl f ↦
          rw (e, nack_job_with_options)
            (rw f (
              write_job-Related op queues q id job _ e
                (λ jobs g. r.at_nack q id options now jobs job g f)))
      | inr f ↦ rw (e, nack_job_with_options) (rw f (Related-refl op queues))
    ]
  ]
    where
      op : Op
      op = nack q id options now

  acks-Related :
      (queues : Queues) (q : Bytes) (ids : List Bytes) (now : ℤ)
      → Related (acks q ids now) queues (ack_jobs queues q ids now).0
  unfolding ack_jobs
  acks-Related queues q ids now = elim (Bool-cases (ltb max_queue_batch_items (length ids))) [
    | inl e ↦ rw (e, ack_jobs) (Related-refl op queues)
    | inr e ↦ elim (Bool-cases (has_duplicate [] ids)) [
      | inl f ↦ rw (e, f, ack_jobs) (Related-refl op queues)
      | inr f ↦ elim (Bool-cases (length ids == 0)) [
        | inl g ↦ rw (e, f, g, ack_jobs) (Related-refl op queues)
        | inr g ↦ elim (Option-cases (get q queues)) [
          | inl h ↦ rw (e, f, g, h, ack_jobs) (Related-refl op queues)
          | inr (jobs, h) ↦ elim (Bool-cases (all_leased jobs ids)) [
            | inl l ↦
                rw (e, f, g, h, l, ack_jobs)
                  (Related-write op queues q jobs _ h (r.at_acks q now jobs ids l f))
            | inr l ↦ rw (e, f, g, h, l, ack_jobs) (Related-refl op queues)
          ]
        ]
      ]
    ]
  ]
    where
      op : Op
      op = acks q ids now

  pub step-Related : (queues : Queues) (op : Op) → Related op queues (step queues op)
  unfolding step
  step-Related queues (push job) = push-Related queues job
  step-Related queues (claim q options t now) = claim-Related queues q options t now
  step-Related queues (claims q options limit t now) = claims-Related queues q options limit t now
  step-Related queues (ack q id now) = ack-Related queues q id now
  step-Related queues (acks q ids now) = acks-Related queues q ids now
  step-Related queues (nack q id options now) = nack-Related queues q id options now
