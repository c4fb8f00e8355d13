-- ===== src/Queue/Claim/Priority.antt =====
-- A claim hands out a job of the highest priority, and of these the one that was queued first.
use thingd.Base.{
  Bytes, ◌≡◌, refl, inl, inr, Bool, true, false, ◌&&◌, Option, none, some, List, [], ◌∷◌, arith,
  leb→le, Bool-cases, Option-cases, nat_ord, list_ord, pair_ord, find, filter, All, In, find-test,
  find-In, find-none-In,
}
use thingd.Base.Int.{ℤ, leb_ℤ, ◌≤ℤ◌}
use thingd.Model.{QueueJob, QueueClaimOptions, ok}
use thingd.Queue.{
  Queues, claimable, claim_one, claim_first, claim_job_with_options, insert_by_priority,
  sort_by_priority,
}
use thingd.Queue.Jobs.{In-sort_by_priority, In-sort_by_priority_inv}
use thingd.Queue.Claim.{released, claim-claim_first}

-- Priorities fall along the list.
abbrev Falls : List QueueJob → Type 0
Falls [] = Unit
Falls (x ∷ xs) = All (λ k. k.priority ≤ℤ x.priority) xs × Falls xs

All-le_mono :
    (a b : QueueJob) (xs : List QueueJob)
    → a.priority ≤ℤ b.priority
    → All (λ k. k.priority ≤ℤ a.priority) xs
    → All (λ k. k.priority ≤ℤ b.priority) xs
All-le_mono a b [] h s = tt
All-le_mono a b (x ∷ xs) h s = (omega arith, All-le_mono a b xs h s.1)

All-insert :
    (p : ℤ) (job : QueueJob) (xs : List QueueJob)
    → job.priority ≤ℤ p
    → All (λ k. k.priority ≤ℤ p) xs
    → All (λ k. k.priority ≤ℤ p) (insert_by_priority job xs)
unfolding insert_by_priority
All-insert p job [] h s = (h, tt)
All-insert p job (x ∷ xs) h s = ground (arith, All-insert p job xs h s.1)

insert_by_priority-Falls :
    (job : QueueJob) (xs : List QueueJob) → Falls xs → Falls (insert_by_priority job xs)
unfolding insert_by_priority
insert_by_priority-Falls job [] s = (tt, tt)
insert_by_priority-Falls job (x ∷ xs) s = elim (Bool-cases (leb_ℤ x.priority job.priority)) [
  | inl e ↦
      let le : x.priority ≤ℤ job.priority = leb→le _ _ e in
      rw e ((le, All-le_mono x job xs le s.0), s)
  | inr e ↦
      rw e (All-insert x.priority job xs (ground arith) s.0, insert_by_priority-Falls job xs s.1)
]

sort_by_priority-Falls : (xs : List QueueJob) → Falls (sort_by_priority xs)
unfolding sort_by_priority
sort_by_priority-Falls [] = tt
sort_by_priority-Falls (x ∷ xs) =
    insert_by_priority-Falls x (sort_by_priority xs) (sort_by_priority-Falls xs)

All-In :
    (p : ℤ) (xs : List QueueJob) (k : QueueJob)
    → All (λ k. k.priority ≤ℤ p) xs
    → In k xs
    → k.priority ≤ℤ p
All-In p [] k s h = elim h [ ]
All-In p (x ∷ xs) k s (inl e) = rw e (s.0)
All-In p (x ∷ xs) k s (inr h) = All-In p xs k s.1 h

-- The first job that passes a test bounds the priority of all that pass it.
find-best :
    (test : QueueJob → Bool) (xs : List QueueJob) (j k : QueueJob)
    → Falls xs
    → find test xs ≡ some j
    → In k xs
    → test k ≡ true
    → k.priority ≤ℤ j.priority
find-best test [] j k s e h t = cc
find-best test (x ∷ xs) j k s e h t = elim (Bool-cases (test x)) [
  | inl hit ↦
      let same : x ≡ j = ground arith in
      rw (← same)
        (elim h [ inl here ↦ rw here (omega arith) | inr there ↦ All-In x.priority xs k s.0 there ])
  | inr miss ↦ elim h [
    | inl here ↦ absurd (ground arith)
    | inr there ↦ find-best test xs j k s.1 (rw miss at e) there t
  ]
]

-- Of one priority the sort keeps the order.
abbrev pub at_priority : ℤ → QueueJob → Bool
at_priority p k = leb_ℤ k.priority p && leb_ℤ p k.priority

filter-insert_by_priority :
    (p : ℤ) (job : QueueJob) (xs : List QueueJob)
    → filter (at_priority p) (insert_by_priority job xs) ≡ filter (at_priority p) (job ∷ xs)
unfolding insert_by_priority
filter-insert_by_priority p job [] = refl
filter-insert_by_priority p job (x ∷ xs) = ground (arith, filter-insert_by_priority p job xs)

filter-sort_by_priority :
    (p : ℤ) (xs : List QueueJob)
    → filter (at_priority p) (sort_by_priority xs) ≡ filter (at_priority p) xs
unfolding sort_by_priority
filter-sort_by_priority p [] = refl
filter-sort_by_priority p (x ∷ xs) =
    ground
      (arith, filter-insert_by_priority p x (sort_by_priority xs), filter-sort_by_priority p xs)

find-filter :
    (test sel : QueueJob → Bool) (xs : List QueueJob) (j : QueueJob)
    → find test xs ≡ some j
    → sel j ≡ true
    → find test (filter sel xs) ≡ some j
find-filter test sel [] j e h = e
find-filter test sel (x ∷ xs) j e h = ground (arith, find-filter test sel xs j)

-- What a claim may answer, from the jobs that it chooses from.
pub data Choice (jobs : List QueueJob) (now : ℤ) (options : QueueClaimOptions)
    : Option QueueJob → Type 0 where
  nothing : ((k : QueueJob) → In k jobs → claimable now k ≡ false) → Choice jobs now options none
  best :
      (j : QueueJob)
      → In j jobs
      → claimable now j ≡ true
      → ((k : QueueJob) → In k jobs → claimable now k ≡ true → k.priority ≤ℤ j.priority)
      → find (claimable now) (filter (at_priority j.priority) jobs) ≡ some j
      → Choice jobs now options (some (claim_one now options j))

claim_first-Choice :
    (now : ℤ) (options : QueueClaimOptions) (jobs : List QueueJob)
    → Choice jobs now options (claim_first now options (sort_by_priority jobs)).1
unfolding claim_first
claim_first-Choice now options jobs =
    elim (Option-cases (find (claimable now) (sort_by_priority jobs))) [
      | inl e ↦
          rw (e, claim_first)
            (nothing (λ k h.
              find-none-In (claimable now) (sort_by_priority jobs) k e
                (In-sort_by_priority k jobs h)))
      | inr (j, e) ↦
          rw (e, claim_first)
            (best j
              (In-sort_by_priority_inv j jobs (find-In (claimable now) (sort_by_priority jobs) j e))
              (find-test (claimable now) (sort_by_priority jobs) j e)
              (λ k h t.
                find-best (claimable now) (sort_by_priority jobs) j k (sort_by_priority-Falls jobs)
                  e (In-sort_by_priority k jobs h) t)
              (rw (← filter-sort_by_priority j.priority jobs) (
                find-filter (claimable now) (at_priority j.priority) (sort_by_priority jobs) j e
                  (ground arith))))
    ]

-- A claim never fails. It answers with no job only if no job of the queue, after the leases run out
-- at its first clock reading are given back, is ready and available at its second; otherwise with a
-- ready and available job that no other such job of the queue exceeds in priority, and of those of
-- its priority with the one that stands first.
pub claim-Choice :
    (queues : Queues) (q : Bytes) (options : QueueClaimOptions) (t now : ℤ)
    → (r : Option QueueJob) × ((claim_job_with_options queues q options t now).1 ≡ ok r)
      × Choice (released queues q t) now options r
claim-Choice queues q options t now = (
  _,
  (claim-claim_first queues q options t now).0,
  claim_first-Choice now options (released queues q t),
)
