-- ===== src/Queue/Lifecycle/Runs.antt =====
-- The lifecycle over whole runs of the queue.
use thingd.Base.{
  ℕ, zero, suc, ◌+◌, ◌%◌, ◌^◌, Bytes, ◌≡◌, refl, sym, ◌⊎◌, inl, inr, true, some, List, [], ◌∷◌, map,
  arith, Bool-cases, Option-cases, u32_max, sat_add, ==_iff, nat_ord, list_ord, pair_ord, find, In,
  update_find, find-test,
}
use thingd.Base.Int.{ℤ}
use thingd.Model.{QueueJob, QueueClaimOptions}
use thingd.Queue.{
  Queues, has_id, list_jobs, push_into, claim_first, claim_one, claim_up_to, claim_batched,
  claimable, release_job, sort_by_priority, complete_job, nacked,
}
use thingd.Queue.Jobs.{In-append_left, In-map, In-sort_by_priority}
use thingd.Queue.Machine.{Op, push, claim, claims, ack, nack, step, run}
use thingd.Queue.Rules.{Rules, step-Related}
use thingd.Queue.Lifecycle.{Change, stays, Claiming, Life, Follows, IsTerminal, terminal-Life}
use thingd.Queue.Lifecycle.Changes.{
  release_job-Change, lease_job-Change, complete_job-Change, nacked-Change, In-update_find_either,
  In-update_found,
}
use thingd.Queue.Lifecycle.Acks.{complete_jobs-Follows}

push_into-Follows :
    (xs : List QueueJob) (job : QueueJob) → Follows (push job) job.queue xs (push_into xs job).0
unfolding push_into
push_into-Follows xs job j h = elim (Option-cases (find (has_id job.id) xs)) [
  | inl e ↦ rw (e, push_into) (j, In-append_left j xs (job ∷ []) h, stays refl)
  | inr (x, e) ↦ rw (e, push_into) (j, h, stays refl)
]

-- Where the jobs go that a claim releases and sorts.
In-released :
    (t : ℤ) (xs : List QueueJob) (j : QueueJob)
    → In j xs
    → In (release_job t j) (sort_by_priority (map (release_job t) xs))
In-released t xs j h =
    In-sort_by_priority (release_job t j) (map (release_job t) xs) (In-map (release_job t) j xs h)

claim_first-Follows :
    (q : Bytes) (options : QueueClaimOptions) (t now : ℤ) (xs : List QueueJob)
    → Follows
        (claim q options t now)
        q
        xs
        (claim_first now options (sort_by_priority (map (release_job t) xs))).0
unfolding claim_first claim_one
claim_first-Follows q options t now xs j h =
    let sorted = sort_by_priority (map (release_job t) xs) in
    let r = release_job t j in
    let i : In r sorted = In-released t xs j h in
    let op : Op = claim q options t now in
    let same : Claiming op q options t now = (refl, refl, refl, refl) in
    elim (Option-cases (find (claimable now) sorted)) [
      | inl e ↦ rw (e, claim_first) (r, i, release_job-Change op q options t now j same)
      | inr (x, e) ↦
          rw (e, claim_first)
            (elim (In-update_find_either (claimable now) (claim_one now options) sorted r i) [
              | inl m ↦ (r, m, release_job-Change op q options t now j same)
              | inr (m, able) ↦ (
                claim_one now options r,
                m,
                lease_job-Change op q options t now ((r.attempts + 1) % 2 ^ 32) j same able
                    (λ few. omega (arith, few)),
              )
            ])
    ]

In-claim_up_to :
    (now : ℤ) (options : QueueClaimOptions) (limit : ℕ) (xs : List QueueJob) (j : QueueJob)
    → In j xs
    → In j (claim_up_to now options limit xs).0
      ⊎ (In (claim_batched now options j) (claim_up_to now options limit xs).0
          × (claimable now j ≡ true))
unfolding claim_up_to
In-claim_up_to now options zero xs j h = inl h
In-claim_up_to now options (suc limit) [] j h = elim h [ ]
In-claim_up_to now options (suc limit) (x ∷ xs) j (inl same) = elim (Bool-cases (claimable now x)) [
  | inl hit ↦ inr (rw (hit, claim_up_to, same) (inl refl), rw same hit)
  | inr miss ↦ inl (rw (miss, claim_up_to) (inl same))
]
In-claim_up_to now options (suc limit) (x ∷ xs) j (inr h) = elim (Bool-cases (claimable now x)) [
  | inl hit ↦ elim (In-claim_up_to now options limit xs j h) [
    | inl i ↦ inl (rw (hit, claim_up_to) (inr i))
    | inr (i, e) ↦ inr (rw (hit, claim_up_to) (inr i), e)
  ]
  | inr miss ↦ elim (In-claim_up_to now options (suc limit) xs j h) [
    | inl i ↦ inl (rw (miss, claim_up_to) (inr i))
    | inr (i, e) ↦ inr (rw (miss, claim_up_to) (inr i), e)
  ]
]

claim_up_to-Follows :
    (q : Bytes) (options : QueueClaimOptions) (limit : ℕ) (t now : ℤ) (xs : List QueueJob)
    → Follows
        (claims q options limit t now)
        q
        xs
        (claim_up_to now options limit (sort_by_priority (map (release_job t) xs))).0
unfolding claim_batched
claim_up_to-Follows q options limit t now xs j h =
    let sorted = sort_by_priority (map (release_job t) xs) in
    let r = release_job t j in
    let op : Op = claims q options limit t now in
    let same : Claiming op q options t now = (refl, refl, refl, refl) in
    elim (In-claim_up_to now options limit sorted r (In-released t xs j h)) [
      | inl m ↦ (r, m, release_job-Change op q options t now j same)
      | inr (m, able) ↦ (
        claim_batched now options r,
        m,
        lease_job-Change op q options t now (sat_add u32_max r.attempts 1) j same able
            (λ few. omega (arith, few)),
      )
    ]

-- A found job rewritten.
found-Follows :
    (op : Op) (q id : Bytes) (new : QueueJob) (xs : List QueueJob) (x : QueueJob)
    → find (has_id id) xs ≡ some x
    → (x.id ≡ id → Change op q x new)
    → Follows op q xs (update_find (has_id id) (λ _. new) xs)
found-Follows op q id new xs x e v j h = elim (In-update_found (has_id id) (λ _. new) xs x j e h) [
  | inl i ↦ (j, i, stays refl)
  | inr (same, i) ↦ (new, i, rw same (v ((==_iff x.id id).0 (find-test (has_id id) xs x e))))
]

Follows-Rules : Rules Follows
Follows-Rules = record {
  at_refl = λ op q xs j h. (j, h, stays refl);
  at_push = push_into-Follows;
  at_claim = claim_first-Follows;
  at_claims = claim_up_to-Follows;
  at_ack = λ q id now xs job e l.
      found-Follows (ack q id now) q id (complete_job now job) xs job e
        (λ same. complete_job-Change (ack q id now) q now job (refl, sym same, refl) l);
  at_nack = λ q id options now xs job e l.
      found-Follows (nack q id options now) q id (nacked now options job) xs job e (λ same.
        nacked-Change (nack q id options now) q options now job (refl, sym same, refl, refl) l);
  at_acks = λ q now xs ids l d. complete_jobs-Follows q now xs ids l d;
}

-- Through any sequence of calls, with any clock readings, every job of every queue stays in its
-- queue, and each call makes at most one change of it, with its identifier, body, priority, creation
-- time and attempt limit kept. A claim from its queue gives it back when its lease had run out at the
-- claim's first reading, or leases it when it was ready or its lease had run out. An acknowledgement
-- of it completes it when it was leased. A rejection of it, when it was leased, makes it ready after
-- the delay when attempts are left, and dead when they are used up. No other call changes it.
pub run-Follows :
    (queues : Queues) (ops : List Op) (q : Bytes) (j : QueueJob)
    → In j (list_jobs queues q)
    → (k : QueueJob) × In k (list_jobs (run queues ops) q) × Life q ops j k
unfolding run
run-Follows queues [] q j h = (j, h, refl)
run-Follows queues (op ∷ ops) q j h =
    let (k, i, c) = step-Related Follows Follows-Rules queues op q j h in
    let (l, m, life) = run-Follows (step queues op) ops q k i in (l, m, (k, c, life))

-- A completed or dead job is never changed or lost by any sequence of queue operations.
pub run-IsTerminal :
    (queues : Queues) (ops : List Op) (q : Bytes) (j : QueueJob)
    → In j (list_jobs queues q)
    → IsTerminal j
    → In j (list_jobs (run queues ops) q)
run-IsTerminal queues ops q j h t =
    let (k, i, life) = run-Follows queues ops q j h in rw (terminal-Life q ops j k t life) i
