-- ===== src/Queue/Lifecycle.antt =====
-- The life of a job: which changes of status a queue operation may make.
pub mod Changes
pub mod Acks
pub mod Runs
use thingd.Base.{
  ℕ, zero, suc, ◌+◌, ◌-◌, ◌*◌, ◌/◌, ◌%◌, ◌^◌, ◌≤◌, ◌<◌, min, max, Bytes, codes, ◌≡◌, refl, sym, ap,
  ◌∙◌, ◌≢◌, ◌↔◌, ◌⊎◌, inl, inr, Bool, true, false, not, ◌&&◌, ◌||◌, Option, none, some, List, [],
  ◌∷◌, ◌++◌, map, arith, ltb, leb, nat_beq, ltb→lt, lt→ltb, leb→le, le→leb, Bool-cases,
  Option-cases, if◌then◌else◌, u32_max, u64_max, i64_max, sat_add, Ord, ◌==◌, ◌<?◌, ==_iff, ==_refl,
  nat_ord, list_ord, pair_ord, list_beq, list_blt, length, take, drop, find, any, all, filter,
  last?, All, In, Empty, update_find, find-test, find-In, find-none-In, length-append, length-take,
  length-drop, take-append, drop-append, length-filter-le, contains, starts_with,
  starts_with-append,
}
use thingd.Base.Int.{ℤ, leb_ℤ, sat_add_i64}
use thingd.Model.{
  QueueJob, QueueJobStatus, ready, leased, completed, dead, QueueClaimOptions, QueueNackOptions,
}
use thingd.Queue.{
  is_leased, is_ready, lease_expired, release_job, claimable, lease_job, complete_job, nacked,
  u64_to_i64,
}
use thingd.Queue.Machine.{Op, claim, claims, ack, acks, nack}

-- What no operation rewrites.
pub record SamePayload (j k : QueueJob) : Type 0 where
  pub same_id : k.id ≡ j.id
  pub same_queue : k.queue ≡ j.queue
  pub same_body : k.body ≡ j.body
  pub same_max : k.max_attempts ≡ j.max_attempts
  pub same_priority : k.priority ≡ j.priority
  pub same_created : k.created_at ≡ j.created_at

-- The calls that claim from a queue, with their clock readings; those that acknowledge a job; and
-- those that reject one.
abbrev pub Claiming : Op → Bytes → QueueClaimOptions → ℤ → ℤ → Type 0
Claiming (claim q' o t' n) q options t now = (q' ≡ q) × (o ≡ options) × (t' ≡ t) × (n ≡ now)
Claiming (claims q' o limit t' n) q options t now = (q' ≡ q) × (o ≡ options) × (t' ≡ t) × (n ≡ now)
Claiming _ q options t now = ⊥

abbrev pub Acking : Op → Bytes → Bytes → ℤ → Type 0
Acking (ack q' i n) q id now = (q' ≡ q) × (i ≡ id) × (n ≡ now)
Acking (acks q' ids n) q id now = (q' ≡ q) × (contains id ids ≡ true) × (n ≡ now)
Acking _ q id now = ⊥

abbrev pub Nacking : Op → Bytes → Bytes → QueueNackOptions → ℤ → Type 0
Nacking (nack q' i o n) q id options now = (q' ≡ q) × (i ≡ id) × (o ≡ options) × (n ≡ now)
Nacking _ q id options now = ⊥

-- A lease that has run out at a clock reading.
abbrev pub IsExpired : ℤ → QueueJob → Type 0
IsExpired t j =
    (j.status ≡ leased) × ((e : ℤ) × (j.lease_expires_at_ms ≡ some e) × (leb_ℤ e t ≡ true))

-- The job under a new lease, with one attempt more.
abbrev pub IsLease : QueueClaimOptions → ℤ → QueueJob → QueueJob → Type 0
IsLease options now j k =
    SamePayload j k
    × (k.status ≡ leased)
    × (k.lease_expires_at_ms ≡ some (sat_add_i64 now (u64_to_i64 options.lease_ms)))
    × (j.attempts < u32_max → k.attempts ≡ j.attempts + 1)

-- What one call may do to a job of a queue: leave it, give it back because its lease had run out when
-- the call began, lease it when it was ready or had run out, complete it when it was leased and is
-- acknowledged, or, when it was leased and is rejected, retry it while attempts are left and bury it
-- otherwise.
pub data Change (op : Op) (q : Bytes) (j k : QueueJob) : Type 0 where
  stays : j ≡ k → Change op q j k
  expires :
      (options : QueueClaimOptions) (t now : ℤ)
      → Claiming op q options t now
      → IsExpired t j
      → SamePayload j k
      → k.status ≡ ready
      → k.attempts ≡ j.attempts
      → Change op q j k
  leases :
      (options : QueueClaimOptions) (t now : ℤ)
      → Claiming op q options t now
      → (j.status ≡ ready) ⊎ IsExpired t j
      → leb_ℤ j.available_at_ms now ≡ true
      → IsLease options now j k
      → Change op q j k
  completes :
      (now : ℤ)
      → Acking op q j.id now
      → j.status ≡ leased
      → SamePayload j k
      → k.status ≡ completed
      → k.attempts ≡ j.attempts
      → Change op q j k
  retries :
      (options : QueueNackOptions) (now : ℤ)
      → Nacking op q j.id options now
      → j.status ≡ leased
      → j.attempts < j.max_attempts
      → SamePayload j k
      → k.status ≡ ready
      → k.attempts ≡ j.attempts
      → k.available_at_ms ≡ sat_add_i64 now (u64_to_i64 options.delay_ms)
      → Change op q j k
  buries :
      (options : QueueNackOptions) (now : ℤ)
      → Nacking op q j.id options now
      → j.status ≡ leased
      → j.max_attempts ≤ j.attempts
      → SamePayload j k
      → k.status ≡ dead
      → k.attempts ≡ j.attempts
      → Change op q j k

-- The changes of a job through a run, one for each call.
abbrev pub Life : Bytes → List Op → QueueJob → QueueJob → Type 0
Life q [] j l = j ≡ l
Life q (op ∷ ops) j l = (k : QueueJob) × Change op q j k × Life q ops k l

-- Nothing leaves a completed or a dead job.
abbrev pub IsTerminal : QueueJob → Type 0
IsTerminal j = (j.status ≡ completed) ⊎ (j.status ≡ dead)

terminal_change : (op : Op) (q : Bytes) (j k : QueueJob) → IsTerminal j → Change op q j k → j ≡ k
terminal_change op q j k t (stays e) = e
terminal_change op q j k t (expires o u n c (s, x) p a b) = absurd (ground (arith, s))
terminal_change op q j k t (leases o u n c (inl s) l p) = absurd (ground (arith, s))
terminal_change op q j k t (leases o u n c (inr (s, x)) l p) = absurd (ground (arith, s))
terminal_change op q j k t (completes n c s p a b) = absurd (ground (arith, s))
terminal_change op q j k t (retries o n c s l p a b d) = absurd (ground (arith, s))
terminal_change op q j k t (buries o n c s l p a b) = absurd (ground (arith, s))

pub terminal-Life :
    (q : Bytes) (ops : List Op) (j l : QueueJob) → IsTerminal j → Life q ops j l → j ≡ l
terminal-Life q [] j l t e = e
terminal-Life q (op ∷ ops) j l t (k, c, more) =
    let same = terminal_change op q j k t c in same ∙ terminal-Life q ops k l (rw (← same) t) more

-- Every job of the first list lives on in the second, changed as the call may change it.
abbrev pub Follows : Op → Bytes → List QueueJob → List QueueJob → Type 0
Follows op q xs ys = (j : QueueJob) → In j xs → (k : QueueJob) × In k ys × Change op q j k
