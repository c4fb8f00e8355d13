-- ===== src/Queue/Lifecycle/Changes.antt =====
-- What releasing, leasing, completing and rejecting do to one job.
use thingd.Base.{
  ℕ, ◌+◌, ◌<◌, Bytes, ◌≡◌, refl, ◌∙◌, ◌⊎◌, inl, inr, Bool, true, false, Option, none, some, List,
  [], ◌∷◌, arith, leb, leb→le, Bool-cases, u32_max, nat_ord, list_ord, pair_ord, find, In,
  update_find,
}
use thingd.Base.Int.{ℤ, leb_ℤ}
use thingd.Model.{QueueJob, QueueJobStatus, ready, leased, QueueClaimOptions, QueueNackOptions}
use thingd.Queue.{
  is_leased, is_ready, lease_expired, release_job, claimable, lease_job, complete_job, nacked,
}
use thingd.Queue.Machine.{Op}
use thingd.Queue.Lifecycle.{
  SamePayload, Claiming, Acking, Nacking, IsExpired, Change, stays, expires, leases, completes,
  retries, buries,
}

is_leased_eq : (s : QueueJobStatus) → is_leased s ≡ true → s ≡ leased
unfolding is_leased
is_leased_eq leased e = refl
is_leased_eq _ e = cc

is_ready_eq : (s : QueueJobStatus) → is_ready s ≡ true → s ≡ ready
unfolding is_ready
is_ready_eq ready e = refl
is_ready_eq _ e = cc

lease_expired-IsExpired : (t : ℤ) (j : QueueJob) → lease_expired t j ≡ true → IsExpired t j
unfolding lease_expired
lease_expired-IsExpired t j h =
    (is_leased_eq j.status (ground (arith, h)), given j.lease_expires_at_ms (ground (arith, h)))
  where
    given :
        (o : Option ℤ)
        → elim o [ none ↦ false | some e ↦ leb_ℤ e t ] ≡ true
        → (e : ℤ) × (o ≡ some e) × (leb_ℤ e t ≡ true)
    given none h = cc
    given (some e) h = (e, refl, h)

same_payload :
    (j k : QueueJob)
    → k.id ≡ j.id
    → k.queue ≡ j.queue
    → k.body ≡ j.body
    → k.max_attempts ≡ j.max_attempts
    → k.priority ≡ j.priority
    → k.created_at ≡ j.created_at
    → SamePayload j k
same_payload j k a b c d e f = record {
  same_id = a;
  same_queue = b;
  same_body = c;
  same_max = d;
  same_priority = e;
  same_created = f;
}

-- What a claim does to a job that it does not hand out, and to one that it does.
pub release_job-Change :
    (op : Op) (q : Bytes) (options : QueueClaimOptions) (t now : ℤ) (j : QueueJob)
    → Claiming op q options t now
    → Change op q j (release_job t j)
unfolding release_job
release_job-Change op q options t now j c = elim (Bool-cases (lease_expired t j)) [
  | inl e ↦ rw e (
      expires options t now c (lease_expired-IsExpired t j e)
        (same_payload _ _ refl refl refl refl refl refl) refl refl)
  | inr e ↦ rw e (stays refl)
]

pub lease_job-Change :
    (op : Op) (q : Bytes) (options : QueueClaimOptions) (t now : ℤ) (n : ℕ) (j : QueueJob)
    → Claiming op q options t now
    → claimable now (release_job t j) ≡ true
    → ((release_job t j).attempts < u32_max → n ≡ (release_job t j).attempts + 1)
    → Change op q j (lease_job now options n (release_job t j))
unfolding lease_job release_job claimable
lease_job-Change op q options t now n j c h more = elim (Bool-cases (lease_expired t j)) [
  | inl e ↦
      let ready_now = rw e at h in
      let next = rw e at more in
      rw e (
        leases options t now c (inr (lease_expired-IsExpired t j e)) (ground (arith, ready_now))
          (same_payload _ _ refl refl refl refl refl refl, refl, refl, next))
  | inr e ↦
      let ready_now = rw e at h in
      let next = rw e at more in
      rw e (
        leases options t now c (inl (is_ready_eq j.status (ground (arith, ready_now))))
          (ground (arith, ready_now))
          (same_payload _ _ refl refl refl refl refl refl, refl, refl, next))
]

pub complete_job-Change :
    (op : Op) (q : Bytes) (now : ℤ) (j : QueueJob)
    → Acking op q j.id now
    → is_leased j.status ≡ true
    → Change op q j (complete_job now j)
unfolding complete_job
complete_job-Change op q now j c h =
    completes now c (is_leased_eq j.status h) (same_payload _ _ refl refl refl refl refl refl) refl
      refl

pub nacked-Change :
    (op : Op) (q : Bytes) (options : QueueNackOptions) (now : ℤ) (j : QueueJob)
    → Nacking op q j.id options now
    → is_leased j.status ≡ true
    → Change op q j (nacked now options j)
unfolding nacked
nacked-Change op q options now j c h = elim (Bool-cases (leb j.max_attempts j.attempts)) [
  | inl e ↦ rw e (
      buries options now c (is_leased_eq j.status h) (leb→le _ _ e)
        (same_payload _ _ refl refl refl refl refl refl) refl refl)
  | inr e ↦ rw e (
      retries options now c (is_leased_eq j.status h) (ground arith)
        (same_payload _ _ refl refl refl refl refl refl) refl refl refl)
]

-- A member of a list after an update of the first job that passes a test.
pub In-update_find_either :
    (p : QueueJob → Bool) (f : QueueJob → QueueJob) (xs : List QueueJob) (j : QueueJob)
    → In j xs
    → In j (update_find p f xs) ⊎ (In (f j) (update_find p f xs) × (p j ≡ true))
In-update_find_either p f [] j h = elim h [ ]
In-update_find_either p f (x ∷ xs) j (inl same) = elim (Bool-cases (p x)) [
  | inl hit ↦ inr (rw (hit, same) (inl refl), rw same hit)
  | inr miss ↦ inl (rw miss (inl same))
]
In-update_find_either p f (x ∷ xs) j (inr h) = elim (Bool-cases (p x)) [
  | inl hit ↦ inl (rw hit (inr h))
  | inr miss ↦ elim (In-update_find_either p f xs j h) [
    | inl i ↦ inl (rw miss (inr i))
    | inr (i, e) ↦ inr (rw miss (inr i), e)
  ]
]

-- The same where the job that passes is known.
pub In-update_found :
    (p : QueueJob → Bool) (f : QueueJob → QueueJob) (xs : List QueueJob) (x j : QueueJob)
    → find p xs ≡ some x
    → In j xs
    → In j (update_find p f xs) ⊎ ((j ≡ x) × In (f x) (update_find p f xs))
In-update_found p f [] x j e h = cc
In-update_found p f (y ∷ ys) x j e h = elim (Bool-cases (p y)) [
  | inl hit ↦
      let q : y ≡ x = ground (arith, e, hit) in
      elim h [ inl same ↦ inr (same ∙ q, rw (hit, ← q) (inl refl)) | inr i ↦ inl (rw hit (inr i)) ]
  | inr miss ↦ elim h [
    | inl same ↦ inl (rw miss (inl same))
    | inr i ↦ elim (In-update_found p f ys x j (rw miss at e) i) [
      | inl k ↦ inl (rw miss (inr k))
      | inr (same, k) ↦ inr (same, rw miss (inr k))
    ]
  ]
]
