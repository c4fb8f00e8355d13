-- ===== src/Queue.antt =====
-- The durable queue of the in-memory engine: `impl QueueStore for MemoryEngine` in
-- crates/thingd/src/in_memory.rs. An operation returns the queues after it beside its result, and
-- takes each clock reading that it makes as an argument, in the order in which it makes them.
pub mod Jobs
pub mod Machine
pub mod Rules
pub mod Unique
pub mod Claim
pub mod Batch
mod Tests
pub mod Lifecycle
use thingd.Base.{
  ℕ, zero, suc, ◌+◌, ◌-◌, ◌*◌, ◌/◌, ◌%◌, ◌^◌, ◌≤◌, ◌<◌, min, max, Bytes, codes, ◌≡◌, refl, sym, ap,
  ◌∙◌, ◌≢◌, ◌↔◌, ◌⊎◌, inl, inr, Bool, true, false, not, ◌&&◌, ◌||◌, Option, none, some, List, [],
  ◌∷◌, ◌++◌, map, arith, ltb, leb, nat_beq, ltb→lt, lt→ltb, leb→le, le→leb, Bool-cases,
  Option-cases, if◌then◌else◌, u32_max, u64_max, i64_max, sat_add, Ord, ◌==◌, ◌<?◌, ==_iff, ==_refl,
  nat_ord, list_ord, pair_ord, list_beq, list_blt, length, take, drop, find, any, all, filter,
  last?, All, In, Empty, update_find, find-test, find-In, find-none-In, length-append, length-take,
  length-drop, take-append, drop-append, length-filter-le, contains, starts_with,
  starts_with-append,
}
use thingd.Base.BTreeMap.{BTreeMap, get, insert, keys, values}
use thingd.Base.Int.{ℤ, pos, leb_ℤ, sat_add_i64}
use thingd.Model.{
  QueueJob, QueueJobStatus, ready, leased, completed, dead, QueueClaimOptions, QueueNackOptions,
  ThingdResult, ok, err, conflict, invalid_input,
}

abbrev pub Queues : Type 0
Queues = BTreeMap Bytes (List QueueJob)

-- `MAX_QUEUE_BATCH_ITEMS`
abbrev pub max_queue_batch_items : ℕ
max_queue_batch_items = 1000

unfoldable pub is_ready : QueueJobStatus → Bool
is_ready ready = true
is_ready _ = false

unfoldable pub is_leased : QueueJobStatus → Bool
is_leased leased = true
is_leased _ = false

unfoldable pub is_dead : QueueJobStatus → Bool
is_dead dead = true
is_dead _ = false

-- `u64_to_i64`
unfoldable pub u64_to_i64 : ℕ → ℕ
u64_to_i64 n = min n i64_max

abbrev pub has_id : Bytes → QueueJob → Bool
has_id id job = job.id == id

-- A queue that is not there holds no job, also for `entry(queue).or_default()`.
unfoldable pub list_jobs : Queues → Bytes → List QueueJob
list_jobs queues queue = elim (get queue queues) [ none ↦ [] | some jobs ↦ jobs ]

-- The body of `push_job` on the queue's jobs.
unfoldable pub push_into : List QueueJob → QueueJob → List QueueJob × QueueJob
push_into jobs job = elim (find (has_id job.id) jobs) [
  | some existing ↦ (jobs, existing)
  | none ↦ (jobs ++ job ∷ [], job)
]

unfoldable pub push_job : Queues → QueueJob → Queues × ThingdResult QueueJob
push_job queues job =
    let (after, pushed) = push_into (list_jobs queues job.queue) job in
    (insert job.queue after queues, ok pushed)

-- One job of `release_expired_leases`.
unfoldable pub lease_expired : ℤ → QueueJob → Bool
lease_expired now job =
    is_leased job.status
    && elim job.lease_expires_at_ms [ none ↦ false | some expires ↦ leb_ℤ expires now ]

unfoldable pub release_job : ℤ → QueueJob → QueueJob
release_job now job =
    if lease_expired now job
    then record job { status = ready; leased_at_ms = none; lease_expires_at_ms = none }
    else job

unfoldable pub release_expired_leases : Queues → Bytes → ℤ → Queues
release_expired_leases queues queue now = elim (get queue queues) [
  | none ↦ queues
  | some jobs ↦ insert queue (map (release_job now) jobs) queues
]

-- `sort_by_key(Reverse(priority))`: stable, the highest priority first.
unfoldable pub insert_by_priority : QueueJob → List QueueJob → List QueueJob
insert_by_priority job [] = job ∷ []
insert_by_priority job (k ∷ ks) =
    let rest = insert_by_priority job ks in
    if leb_ℤ k.priority job.priority then job ∷ k ∷ ks else k ∷ rest

unfoldable pub sort_by_priority : List QueueJob → List QueueJob
sort_by_priority [] = []
sort_by_priority (job ∷ jobs) = insert_by_priority job (sort_by_priority jobs)

unfoldable pub claimable : ℤ → QueueJob → Bool
claimable now job = is_ready job.status && leb_ℤ job.available_at_ms now

-- The lease that a claim writes; `attempts` is the count that the caller computed.
unfoldable pub lease_job : ℤ → QueueClaimOptions → ℕ → QueueJob → QueueJob
lease_job now options attempts job = record job {
  status = leased;
  attempts = attempts;
  leased_at_ms = some now;
  lease_expires_at_ms = some (sat_add_i64 now (u64_to_i64 options.lease_ms));
}

-- `attempts += 1` on a `u32`, which wraps in a release build.
unfoldable pub claim_one : ℤ → QueueClaimOptions → QueueJob → QueueJob
claim_one now options job = lease_job now options ((job.attempts + 1) % 2 ^ 32) job

-- The scan of `claim_job_with_options` over the sorted jobs.
unfoldable pub claim_first : ℤ → QueueClaimOptions → List QueueJob → List QueueJob × Option QueueJob
claim_first now options jobs = elim (find (claimable now) jobs) [
  | none ↦ (jobs, none)
  | some job ↦
      (update_find (claimable now) (claim_one now options) jobs, some (claim_one now options job))
]

unfoldable pub claim_job_with_options :
    Queues → Bytes → QueueClaimOptions → ℤ → ℤ → Queues × ThingdResult (Option QueueJob)
claim_job_with_options queues queue options released_at now =
    let queues' = release_expired_leases queues queue released_at in
    elim (get queue queues') [
      | none ↦ (queues', ok none)
      | some jobs ↦
          let (after, claimed) = claim_first now options (sort_by_priority jobs) in
          (insert queue after queues', ok claimed)
    ]

-- `attempts.saturating_add(1)`
unfoldable pub claim_batched : ℤ → QueueClaimOptions → QueueJob → QueueJob
claim_batched now options job = lease_job now options (sat_add u32_max job.attempts 1) job

-- The iterator chain of `claim_jobs_with_options`: the jobs after it, and those that it claimed.
unfoldable pub claim_up_to :
    ℤ → QueueClaimOptions → ℕ → List QueueJob → List QueueJob × List QueueJob
claim_up_to now options zero jobs = (jobs, [])
claim_up_to now options (suc limit) [] = ([], [])
claim_up_to now options (suc limit) (job ∷ jobs) = elim (claimable now job) [
  | true ↦
      let (after, claimed) = claim_up_to now options limit jobs in
      (claim_batched now options job ∷ after, claim_batched now options job ∷ claimed)
  | false ↦
      let (after, claimed) = claim_up_to now options (suc limit) jobs in (job ∷ after, claimed)
]

unfoldable pub claim_jobs_with_options :
    Queues → Bytes → QueueClaimOptions → ℕ → ℤ → ℤ → Queues × ThingdResult (List QueueJob)
claim_jobs_with_options queues queue options limit released_at now =
    if ltb max_queue_batch_items limit
    then (queues, err invalid_input)
    else if limit == 0
    then (queues, ok [])
    else let queues' = release_expired_leases queues queue released_at in
      elim (get queue queues') [
        | none ↦ (queues', ok [])
        | some jobs ↦
            let (after, claimed) = claim_up_to now options limit (sort_by_priority jobs) in
            (insert queue after queues', ok claimed)
      ]

unfoldable pub complete_job : ℤ → QueueJob → QueueJob
complete_job now job = record job { status = completed; completed_at_ms = some now }

-- `find_job_mut`, as the value that it points to.
unfoldable pub find_job : Queues → Bytes → Bytes → Option QueueJob
find_job queues queue id = elim (get queue queues) [
  | none ↦ none
  | some jobs ↦ find (has_id id) jobs
]

-- A write through the reference that `find_job_mut` returned.
unfoldable pub write_job : Queues → Bytes → Bytes → QueueJob → Queues
write_job queues queue id job = elim (get queue queues) [
  | none ↦ queues
  | some jobs ↦ insert queue (update_find (has_id id) (λ _. job) jobs) queues
]

unfoldable pub ack_job : Queues → Bytes → Bytes → ℤ → Queues × ThingdResult (Option QueueJob)
ack_job queues queue id now = elim (find_job queues queue id) [
  | none ↦ (queues, ok none)
  | some job ↦
      if not (is_leased job.status)
      then (queues, err conflict)
      else (write_job queues queue id (complete_job now job), ok (some (complete_job now job)))
]

-- The duplicate scan of `ack_jobs`; `seen` is the hash set.
unfoldable pub has_duplicate : List Bytes → List Bytes → Bool
has_duplicate seen [] = false
has_duplicate seen (id ∷ ids) = contains id seen || has_duplicate (id ∷ seen) ids

-- The validation loop: every identifier names a leased job.
unfoldable pub all_leased : List QueueJob → List Bytes → Bool
all_leased jobs [] = true
all_leased jobs (id ∷ ids) =
    elim (find (has_id id) jobs) [ none ↦ false | some job ↦ is_leased job.status ]
    && all_leased jobs ids

-- The write loop; the job is there, since the validation found it.
unfoldable pub complete_jobs : ℤ → List QueueJob → List Bytes → List QueueJob × List QueueJob
complete_jobs now jobs [] = (jobs, [])
complete_jobs now jobs (id ∷ ids) =
    let (after, done) = complete_jobs now (update_find (has_id id) (complete_job now) jobs) ids in
    elim (find (has_id id) jobs) [
      | none ↦ (after, done)
      | some job ↦ (after, complete_job now job ∷ done)
    ]

unfoldable pub ack_jobs : Queues → Bytes → List Bytes → ℤ → Queues × ThingdResult (List QueueJob)
ack_jobs queues queue ids now =
    if ltb max_queue_batch_items (length ids)
    then (queues, err invalid_input)
    else if has_duplicate [] ids
    then (queues, err invalid_input)
    else if length ids == 0
    then (queues, ok [])
    else elim (get queue queues) [
      | none ↦ (queues, err conflict)
      | some jobs ↦
          if not (all_leased jobs ids)
          then (queues, err conflict)
          else let (after, done) = complete_jobs now jobs ids in
            (insert queue after queues, ok done)
    ]

unfoldable pub nacked : ℤ → QueueNackOptions → QueueJob → QueueJob
nacked now options job =
    let job' : QueueJob = record job {
      leased_at_ms = none;
      lease_expires_at_ms = none;
      last_error = if length options.error == 0 then job.last_error else options.error;
    } in
    if leb job.max_attempts job.attempts
    then record job' { status = dead; dead_at_ms = some now }
    else record job' {
      status = ready;
      available_at_ms = sat_add_i64 now (u64_to_i64 options.delay_ms);
    }

unfoldable pub nack_job_with_options :
    Queues → Bytes → Bytes → QueueNackOptions → ℤ → Queues × ThingdResult (Option QueueJob)
nack_job_with_options queues queue id options now = elim (find_job queues queue id) [
  | none ↦ (queues, ok none)
  | some job ↦
      if not (is_leased job.status)
      then (queues, err conflict)
      else (write_job queues queue id (nacked now options job), ok (some (nacked now options job)))
]

unfoldable pub list_dead_jobs : Queues → Bytes → List QueueJob
list_dead_jobs queues queue = elim (get queue queues) [
  | none ↦ []
  | some jobs ↦ filter (λ job. is_dead job.status) jobs
]

unfoldable pub list_queues : Queues → List Bytes
list_queues queues = keys queues

-- A count over every job of every queue.
unfoldable pub count_where : (QueueJob → Bool) → List (List QueueJob) → ℕ
count_where p [] = 0
count_where p (jobs ∷ rest) = length (filter p jobs) + count_where p rest

unfoldable pub count_active_jobs : Queues → ℕ
count_active_jobs queues =
    count_where (λ job. is_ready job.status || is_leased job.status) (values queues)

unfoldable pub count_dead_jobs : Queues → ℕ
count_dead_jobs queues = count_where (λ job. is_dead job.status) (values queues)
