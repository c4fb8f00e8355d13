-- ===== src/Queue/Tests.antt =====
-- The queue's properties at concrete queues, and runs of the unit tests in in_memory.rs.
use thingd.Base.{
  ◌<◌, Bytes, codes, ◌≡◌, refl, ◌≢◌, inl, inr, Option, some, List, [], ◌∷◌, map, arith, ==_iff,
  nat_ord, list_ord, pair_ord, list_beq, list_blt, In,
}
use thingd.Base.BTreeMap.{get, insert}
use thingd.Base.Int.{pos, sat_add_i64}
use thingd.Model.{QueueJob, new_job, leased, completed, dead, QueueClaimOptions, ok, err, conflict}
use thingd.Queue.{
  Queues, is_ready, is_leased, is_dead, u64_to_i64, push_into, push_job, lease_expired, release_job,
  release_expired_leases, insert_by_priority, sort_by_priority, claimable, lease_job, claim_one,
  claim_first, claim_job_with_options, claim_up_to, claim_batched, claim_jobs_with_options,
  complete_job, find_job, write_job, ack_job, has_duplicate, all_leased, complete_jobs, ack_jobs,
  nacked, nack_job_with_options, list_jobs, list_dead_jobs, list_queues, count_where,
  count_active_jobs, count_dead_jobs,
}
use thingd.Queue.Jobs.{count_id}
use thingd.Queue.Machine.{Op, claim, claims, ack, nack, step, run}
use thingd.Queue.Unique.{IsUnique, run-IsUnique}
use thingd.Queue.Lifecycle.{Life}
use thingd.Queue.Lifecycle.Runs.{run-Follows, run-IsTerminal}
use thingd.Queue.Claim.{released}
use thingd.Queue.Claim.Priority.{Choice, claim-Choice}
use thingd.Queue.Claim.Lease.{Spares, claim-claim}
use thingd.Queue.Claim.Exhausted.{claim_jobs_exhausted}
use thingd.Queue.Batch.{Outcome, ack_jobs-Outcome}

program : Unit {0}
unfolding is_ready is_leased is_dead u64_to_i64 push_into push_job lease_expired release_job
    release_expired_leases insert_by_priority sort_by_priority claimable lease_job claim_one
    claim_first claim_job_with_options claim_up_to claim_batched claim_jobs_with_options
    complete_job find_job write_job ack_job has_duplicate all_leased complete_jobs ack_jobs nacked
    nack_job_with_options list_jobs list_dead_jobs list_queues count_where count_active_jobs
    count_dead_jobs step run get insert new_job list_beq list_blt sat_add_i64 released count_id
program = tt

abbrev mail : Bytes
mail = codes "mail"

abbrev two : Queues
two =
    (
      mail,
      (new_job mail (codes "a") (codes "{}") 3)
          ∷ (record (new_job mail (codes "b") (codes "{}") 1) { priority = pos 5 })
          ∷ [],
    )
    ∷ []

abbrev lease : QueueClaimOptions
lease = record { lease_ms = 100 }

abbrev history : List Op
history =
    claim mail lease (pos 10) (pos 10)
    ∷ nack mail (codes "b") (record { delay_ms = 0; error = codes "no" }) (pos 20)
    ∷ claim mail lease (pos 30) (pos 30)
    ∷ ack mail (codes "a") (pos 40)
    ∷ []

-- The urgent job dies at its only attempt, and the other one is completed.
history_ends :
    (map (λ (j : QueueJob). j.status) (list_jobs (run two history) mail) ≡ dead ∷ completed ∷ [])
    × (count_dead_jobs (run two history) ≡ 1)
    × (count_active_jobs (run two history) ≡ 0)
unfolding program
history_ends = (refl, refl, refl)

run-Follows_example :
    (k : QueueJob) × In k (list_jobs (run two history) mail)
    × Life mail history (new_job mail (codes "a") (codes "{}") 3) k
unfolding program
run-Follows_example =
    run-Follows two history mail (new_job mail (codes "a") (codes "{}") 3) (inl refl)

abbrev done_job : QueueJob
done_job = record (new_job mail (codes "c") (codes "{}") 1) { status = completed }

run-IsTerminal_example : In done_job (list_jobs (run ((mail, done_job ∷ []) ∷ []) history) mail)
unfolding program
run-IsTerminal_example =
    run-IsTerminal ((mail, done_job ∷ []) ∷ []) history mail done_job (inl refl) (inl refl)

two-IsUnique : IsUnique two
unfolding program
two-IsUnique q i = ground (arith, ==_iff mail q, ==_iff (codes "a") i, ==_iff (codes "b") i)

run-IsUnique_example : IsUnique (run two history)
run-IsUnique_example = run-IsUnique two history two-IsUnique

claim-Choice_example :
    (r : Option QueueJob) × ((claim_job_with_options two mail lease (pos 10) (pos 10)).1 ≡ ok r)
    × Choice (released two mail (pos 10)) (pos 10) lease r
claim-Choice_example = claim-Choice two mail lease (pos 10) (pos 10)

abbrev claimed_urgent : QueueJob
claimed_urgent =
    claim_one (pos 10) lease (record (new_job mail (codes "b") (codes "{}") 1) { priority = pos 5 })

abbrev claimed_first : QueueJob
claimed_first = claim_batched (pos 50) lease (new_job mail (codes "a") (codes "{}") 3)

abbrev stray_ack : Op
stray_ack = ack mail (codes "z") (pos 20)

stray_ack-Spares : Spares mail (codes "b") (pos 110) stray_ack
stray_ack-Spares = (λ o t n c. absurd c, λ n c. ground (arith, c.1), λ o n c. c)

abbrev late_claims : Op
late_claims = claims mail lease 5 (pos 50) (pos 50)

late_claims-Spares : Spares mail (codes "b") (pos 110) late_claims
late_claims-Spares = (λ o t n c. rw (← c.2) refl, λ n c. c, λ o n c. c)

claim-claim_example : claimed_first.id ≢ claimed_urgent.id
unfolding program
claim-claim_example =
    claim-claim two (claim mail lease (pos 10) (pos 10)) late_claims (stray_ack ∷ []) mail
      claimed_urgent claimed_first (pos 110) two-IsUnique (refl, refl) refl (stray_ack-Spares, tt)
      late_claims-Spares (refl, (claimed_first ∷ [], refl, inl refl))

abbrev held : Queues
held = (claim_job_with_options two mail lease (pos 10) (pos 10)).0

ack_jobs-Outcome_example :
    Outcome held mail (codes "b" ∷ []) (pos 20) (ack_jobs held mail (codes "b" ∷ []) (pos 20))
ack_jobs-Outcome_example = ack_jobs-Outcome held mail (codes "b" ∷ []) (pos 20)

ack_jobs_completes :
    (ack_jobs held mail (codes "b" ∷ []) (pos 20)).1
    ≡ ok (complete_job (pos 20) claimed_urgent ∷ [])
unfolding program
ack_jobs_completes = refl

ack_jobs_refuses : (ack_jobs held mail (codes "b" ∷ codes "a" ∷ []) (pos 20)).1 ≡ err conflict
unfolding program
ack_jobs_refuses = refl

abbrev worn_job : QueueJob
worn_job = record (new_job mail (codes "w") (codes "{}") 1) {
  attempts = 1;
  status = leased;
  lease_expires_at_ms = some (pos 20);
}

abbrev worn_out : Queues
worn_out = (mail, new_job mail (codes "v") (codes "{}") 1 ∷ worn_job ∷ []) ∷ []

claim_jobs_exhausted_example :
    (jobs : List QueueJob) × (k : QueueJob) × ((claim_jobs_with_options worn_out mail lease 2
        (pos 30)
        (pos 30)).1
      ≡ ok jobs)
    × In k jobs
    × (k.id ≡ codes "w")
    × (1 < k.attempts)
unfolding program
claim_jobs_exhausted_example =
    claim_jobs_exhausted worn_out mail lease 2 (pos 30) (pos 30) (pos 20) worn_job (inr (inl refl))
      refl refl refl refl (omega arith) (omega arith) (omega arith) (omega arith)
