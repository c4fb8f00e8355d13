-- ===== src/Queue/Unique.antt =====
-- Identifiers stay distinct within a queue.
use thingd.Base.{
  map, ℕ, zero, suc, ◌≤◌, max, Bytes, ◌≡◌, refl, sym, ap, ◌∙◌, some, List, [], ◌∷◌, arith, ==_iff,
  nat_ord, list_ord, pair_ord, find, update_find, find-test,
}
use thingd.Base.Int.{ℤ}
use thingd.Model.{QueueJob, QueueClaimOptions, QueueNackOptions}
use thingd.Queue.{
  Queues, has_id, push_into, release_job, claimable, lease_job, claim_one, claim_batched,
  claim_first, claim_up_to, sort_by_priority, complete_job, complete_jobs, nacked, list_jobs,
}
use thingd.Queue.Jobs.{
  count_id, count_id-append, count_id-map, count_id-update_find, count_id-find-none,
  count_id-sort_by_priority,
}
use thingd.Queue.Machine.{Op, step, run}
use thingd.Queue.Rules.{Rules, step-Related}

-- No identifier stands more often than before, but for a first time.
abbrev Bounded : List QueueJob → List QueueJob → Type 0
Bounded xs ys = (i : Bytes) → count_id i ys ≤ max 1 (count_id i xs)

push_into-Bounded : (xs : List QueueJob) (job : QueueJob) → Bounded xs (push_into xs job).0
unfolding push_into count_id
push_into-Bounded xs job i = ground (
  arith,
  ==_iff job.id i,
  ap (λ (y : Bytes). count_id y xs) {x = job.id} {y = i},
  count_id-append i xs (job ∷ []),
  count_id-find-none job.id xs,
)

pub release_job-id : (now : ℤ) (x : QueueJob) → (release_job now x).id ≡ x.id
unfolding release_job
release_job-id now x = ground arith

pub claim_one-id :
    (now : ℤ) (options : QueueClaimOptions) (x : QueueJob) → (claim_one now options x).id ≡ x.id
unfolding claim_one lease_job
claim_one-id now options x = refl

nacked-id : (now : ℤ) (options : QueueNackOptions) (x : QueueJob) → (nacked now options x).id ≡ x.id
unfolding nacked
nacked-id now options x = ground arith

claim_first-count :
    (now : ℤ) (options : QueueClaimOptions) (xs : List QueueJob) (i : Bytes)
    → count_id i (claim_first now options xs).0 ≡ count_id i xs
unfolding claim_first
claim_first-count now options xs i = ground (
  arith,
  count_id-update_find i (claimable now) (claim_one now options) xs
      (λ x _. claim_one-id now options x),
)

claim_up_to-count :
    (now : ℤ) (options : QueueClaimOptions) (limit : ℕ) (xs : List QueueJob) (i : Bytes)
    → count_id i (claim_up_to now options limit xs).0 ≡ count_id i xs
unfolding claim_up_to count_id claim_batched lease_job
claim_up_to-count now options zero xs i = refl
claim_up_to-count now options (suc limit) [] i = refl
claim_up_to-count now options (suc limit) (x ∷ xs) i = ground (
  arith,
  claim_up_to-count now options limit xs i,
  claim_up_to-count now options (suc limit) xs i,
)

released-count :
    (t : ℤ) (xs : List QueueJob) (i : Bytes)
    → count_id i (sort_by_priority (map (release_job t) xs)) ≡ count_id i xs
released-count t xs i =
    count_id-sort_by_priority i (map (release_job t) xs)
    ∙ count_id-map i (release_job t) xs (release_job-id t)

-- A found job is replaced by one with its identifier.
replace-count :
    (id i : Bytes) (xs : List QueueJob) (job job' : QueueJob)
    → find (has_id id) xs ≡ some job
    → job'.id ≡ job.id
    → count_id i (update_find (has_id id) (λ _. job') xs) ≡ count_id i xs
replace-count id i xs job job' e same =
    count_id-update_find i (has_id id) (λ _. job') xs
      (λ x h.
        same ∙ (==_iff job.id id).0 (find-test (has_id id) xs job e) ∙ sym ((==_iff x.id id).0 h))

complete_jobs-count :
    (now : ℤ) (xs : List QueueJob) (ids : List Bytes) (i : Bytes)
    → count_id i (complete_jobs now xs ids).0 ≡ count_id i xs
unfolding complete_jobs complete_job
complete_jobs-count now xs [] i = refl
complete_jobs-count now xs (id ∷ ids) i = ground (
  arith,
  complete_jobs-count now (update_find (has_id id) (complete_job now) xs) ids i,
  count_id-update_find i (has_id id) (complete_job now) xs (λ x _. refl),
)

Bounded-Rules : Rules (λ op q. Bounded)
unfolding complete_job
Bounded-Rules = record {
  at_refl = λ op q xs i. omega arith;
  at_push = push_into-Bounded;
  at_claim = λ q options t now xs i. omega (
    arith,
    claim_first-count now options (sort_by_priority (map (release_job t) xs)) i,
    released-count t xs i,
  );
  at_claims = λ q options limit t now xs i. omega (
    arith,
    claim_up_to-count now options limit (sort_by_priority (map (release_job t) xs)) i,
    released-count t xs i,
  );
  at_ack = λ q id now xs job e l i.
      omega (arith, replace-count id i xs job (complete_job now job) e refl);
  at_nack = λ q id options now xs job e l i.
      omega
        (arith, replace-count id i xs job (nacked now options job) e (nacked-id now options job));
  at_acks = λ q now xs ids l d i. omega (arith, complete_jobs-count now xs ids i);
}

-- No queue ever holds two jobs with one identifier, if none did at the start.
abbrev pub IsUnique : Queues → Type 0
IsUnique queues = (q i : Bytes) → count_id i (list_jobs queues q) ≤ 1

-- Through any sequence of queue operations no queue comes to hold two jobs with one identifier.
pub run-IsUnique : (queues : Queues) (ops : List Op) → IsUnique queues → IsUnique (run queues ops)
unfolding run
run-IsUnique queues [] u = u
run-IsUnique queues (op ∷ ops) u =
    run-IsUnique (step queues op) ops
      (λ q i. omega (arith, step-Related (λ op q. Bounded) Bounded-Rules queues op q i, u q i))
