-- ===== src/Queue/Batch.antt =====
-- A batch of acknowledgements is all or nothing.
use mathlib.Core.Option
use thingd.Base.{
  Bytes, ◌≡◌, refl, ap, ◌∙◌, inl, inr, true, false, Option, none, some, List, [], ◌∷◌, arith, ltb,
  Bool-cases, Option-cases, if◌then◌else◌, ◌==◌, ==_iff, ==_refl, nat_ord, list_ord, pair_ord,
  length, find, update_find, contains,
}
use thingd.Base.BTreeMap.{get, insert, get-insert}
use thingd.Base.Int.{ℤ}
use thingd.Model.{QueueJob, ThingdResult, ThingdError, ok, err, conflict, invalid_input}
use thingd.Queue.{
  Queues, is_leased, has_id, complete_job, has_duplicate, all_leased, complete_jobs, ack_jobs,
  find_job, max_queue_batch_items,
}
use thingd.Queue.Lifecycle.Acks.{has_duplicate-contains}

find-update_find :
    (id i : Bytes) (now : ℤ) (jobs : List QueueJob)
    → find (has_id i) (update_find (has_id id) (complete_job now) jobs) ≡ (
        if id == i
        then Option.map (complete_job now) (find (has_id i) jobs)
        else find (has_id i) jobs)
unfolding complete_job
find-update_find id i now [] = ground arith
find-update_find id i now (x ∷ xs) =
    ground (arith, ==_iff x.id id, ==_iff x.id i, ==_iff id i, find-update_find id i now xs)

find-complete_jobs :
    (now : ℤ) (i : Bytes) (jobs : List QueueJob) (ids seen : List Bytes)
    → has_duplicate seen ids ≡ false
    → find (has_id i) (complete_jobs now jobs ids).0 ≡ (
        if contains i ids
        then Option.map (complete_job now) (find (has_id i) jobs)
        else find (has_id i) jobs)
unfolding complete_jobs has_duplicate
find-complete_jobs now i jobs [] seen d = refl
find-complete_jobs now i jobs (id ∷ ids) seen d = ground (
  arith,
  ==_iff id i,
  ==_refl id,
  ap (λ (y : Bytes). contains y ids) {x = id} {y = i},
  has_duplicate-contains ids (id ∷ seen) id,
  find-update_find id i now jobs,
  find-complete_jobs now i (update_find (has_id id) (complete_job now) jobs) ids (id ∷ seen),
)

all_leased-find :
    (jobs : List QueueJob) (ids : List Bytes) (i : Bytes)
    → all_leased jobs ids ≡ true
    → contains i ids ≡ true
    → (job : QueueJob) × (find (has_id i) jobs ≡ some job) × (is_leased job.status ≡ true)
unfolding all_leased
all_leased-find jobs [] i l c = cc
all_leased-find jobs (id ∷ ids) i l c = elim (Bool-cases (id == i)) [
  | inl e ↦ rw (← (==_iff id i).0 e) (here (find (has_id id) jobs) (ground arith))
  | inr e ↦ all_leased-find jobs ids i (ground arith) (ground arith)
]
  where
    here :
        (o : Option QueueJob)
        → elim o [ none ↦ false | some job ↦ is_leased job.status ] ≡ true
        → (job : QueueJob) × (o ≡ some job) × (is_leased job.status ≡ true)
    here none h = cc
    here (some job) h = (job, refl, h)

-- What a batch of acknowledgements may do.
pub data Outcome (queues : Queues) (q : Bytes) (ids : List Bytes) (now : ℤ)
    : Queues × ThingdResult (List QueueJob) → Type 0 where
  refused : (e : ThingdError) → Outcome queues q ids now (queues, err e)
  idle : length ids ≡ 0 → Outcome queues q ids now (queues, ok [])
  done :
      (after : Queues) (jobs : List QueueJob)
      → ((i : Bytes)
          → contains i ids ≡ true
          → (job : QueueJob) × (find_job queues q i ≡ some job)
            × (is_leased job.status ≡ true)
            × (find_job after q i ≡ some (complete_job now job)))
      → ((i : Bytes) → contains i ids ≡ false → find_job after q i ≡ find_job queues q i)
      → ((q' i : Bytes) → (q == q') ≡ false → find_job after q' i ≡ find_job queues q' i)
      → Outcome queues q ids now (after, ok jobs)

find_job_written :
    (queues : Queues) (q q' i : Bytes) (jobs : List QueueJob)
    → find_job (insert q jobs queues) q' i
      ≡ (if q == q' then find (has_id i) jobs else find_job queues q' i)
unfolding find_job
find_job_written queues q q' i jobs = ground (arith, get-insert q q' jobs queues)

find_job_at :
    (queues : Queues) (q i : Bytes) (jobs : List QueueJob)
    → get q queues ≡ some jobs
    → find_job queues q i ≡ find (has_id i) jobs
unfolding find_job
find_job_at queues q i jobs e = ground arith

batch-Outcome :
    (queues : Queues) (q : Bytes) (ids : List Bytes) (now : ℤ) (jobs : List QueueJob)
    → get q queues ≡ some jobs
    → all_leased jobs ids ≡ true
    → has_duplicate [] ids ≡ false
    → Outcome queues q ids now
        (insert q (complete_jobs now jobs ids).0 queues, ok (complete_jobs now jobs ids).1)
batch-Outcome queues q ids now jobs e l d =
    done (insert q after queues) (complete_jobs now jobs ids).1
      (λ i c.
        let (job, f, held) = all_leased-find jobs ids i l c in
        (
          job,
          find_job_at queues q i jobs e ∙ f,
          held,
          ground (
            arith,
            f,
            find_job_written queues q q i after,
            ==_refl q,
            find-complete_jobs now i jobs ids [],
          ),
        ))
      (λ i c. ground (
        arith,
        find_job_at queues q i jobs e,
        find_job_written queues q q i after,
        ==_refl q,
        find-complete_jobs now i jobs ids [],
      ))
      (λ q' i n. ground (arith, find_job_written queues q q' i after))
  where
    after : List QueueJob
    after = (complete_jobs now jobs ids).0

-- A batch of acknowledgements changes nothing and reports an error, or changes nothing for an empty
-- batch, or finds every listed job leased and completes exactly those: each listed job of the queue
-- is marked completed at the batch's clock reading, and every other job, of this queue or another,
-- is as before.
pub ack_jobs-Outcome :
    (queues : Queues) (q : Bytes) (ids : List Bytes) (now : ℤ)
    → Outcome queues q ids now (ack_jobs queues q ids now)
unfolding ack_jobs
ack_jobs-Outcome queues q ids now = elim (Bool-cases (ltb max_queue_batch_items (length ids))) [
  | inl e ↦ rw (e, ack_jobs) (refused invalid_input)
  | inr e ↦ elim (Bool-cases (has_duplicate [] ids)) [
    | inl f ↦ rw (e, f, ack_jobs) (refused invalid_input)
    | inr f ↦ elim (Bool-cases (length ids == 0)) [
      | inl g ↦ rw (e, f, g, ack_jobs) (idle ((==_iff (length ids) 0).0 g))
      | inr g ↦ elim (Option-cases (get q queues)) [
        | inl h ↦ rw (e, f, g, h, ack_jobs) (refused conflict)
        | inr (jobs, h) ↦ elim (Bool-cases (all_leased jobs ids)) [
          | inl l ↦ rw (e, f, g, h, l, ack_jobs) (batch-Outcome queues q ids now jobs h l f)
          | inr l ↦ rw (e, f, g, h, l, ack_jobs) (refused conflict)
        ]
      ]
    ]
  ]
]
