-- ===== src/Queue/Machine.antt =====
-- The queue's operations as the steps of one machine.
use thingd.Base.{ℕ, Bytes, List, [], ◌∷◌, nat_ord, list_ord, pair_ord}
use thingd.Base.Int.{ℤ}
use thingd.Model.{QueueJob, QueueClaimOptions, QueueNackOptions}
use thingd.Queue.{
  Queues, push_job, claim_job_with_options, claim_jobs_with_options, ack_job, ack_jobs,
  nack_job_with_options,
}

-- The calls of `QueueStore` that change the queues, with the clock readings that they make.
pub data Op : Type 0 where
  push : QueueJob → Op
  claim : Bytes → QueueClaimOptions → ℤ → ℤ → Op
  claims : Bytes → QueueClaimOptions → ℕ → ℤ → ℤ → Op
  ack : Bytes → Bytes → ℤ → Op
  acks : Bytes → List Bytes → ℤ → Op
  nack : Bytes → Bytes → QueueNackOptions → ℤ → Op

unfoldable pub step : Queues → Op → Queues
step queues (push job) = (push_job queues job).0
step queues (claim q options t now) = (claim_job_with_options queues q options t now).0
step queues (claims q options limit t now) =
    (claim_jobs_with_options queues q options limit t now).0
step queues (ack q id now) = (ack_job queues q id now).0
step queues (acks q ids now) = (ack_jobs queues q ids now).0
step queues (nack q id options now) = (nack_job_with_options queues q id options now).0

unfoldable pub run : Queues → List Op → Queues
run queues [] = queues
run queues (op ∷ ops) = run (step queues op) ops
