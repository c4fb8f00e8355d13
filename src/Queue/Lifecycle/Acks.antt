-- ===== src/Queue/Lifecycle/Acks.antt =====
-- A batch of acknowledgements completes distinct leased jobs, one after the other.
use thingd.Base.{
  In, Bytes, ◌≡◌, refl, sym, ap, ◌⊎◌, find-test, inl, inr, true, false, List, [], ◌∷◌, arith,
  Option-cases, ◌==◌, ==_iff, ==_refl, nat_ord, list_ord, pair_ord, find, update_find, contains,
}
use thingd.Base.Int.{ℤ}
use thingd.Model.{QueueJob}
use thingd.Queue.{is_leased, has_id, complete_job, has_duplicate, all_leased, complete_jobs}
use thingd.Queue.Machine.{acks}
use thingd.Queue.Lifecycle.{Follows, stays}
use thingd.Queue.Lifecycle.Changes.{In-update_found, complete_job-Change}

-- What the scan has seen does not come again.
pub has_duplicate-contains :
    (ids seen : List Bytes) (i : Bytes)
    → has_duplicate seen ids ≡ false
    → contains i seen ≡ true
    → contains i ids ≡ false
unfolding has_duplicate
has_duplicate-contains [] seen i d c = refl
has_duplicate-contains (id ∷ ids) seen i d c = ground (
  arith,
  ==_iff id i,
  ap (λ (y : Bytes). contains y seen) {x = id} {y = i},
  has_duplicate-contains ids (id ∷ seen) i,
)

pub find-update_find_ne :
    (id i : Bytes) (now : ℤ) (jobs : List QueueJob)
    → (id == i) ≡ false
    → find (has_id i) (update_find (has_id id) (complete_job now) jobs) ≡ find (has_id i) jobs
unfolding complete_job
find-update_find_ne id i now [] n = refl
find-update_find_ne id i now (x ∷ xs) n =
    ground (arith, ==_iff x.id id, ==_iff x.id i, ==_iff id i, find-update_find_ne id i now xs)

all_leased-update :
    (id : Bytes) (now : ℤ) (jobs : List QueueJob) (ids : List Bytes)
    → contains id ids ≡ false
    → all_leased jobs ids ≡ true
    → all_leased (update_find (has_id id) (complete_job now) jobs) ids ≡ true
unfolding all_leased
all_leased-update id now jobs [] n l = refl
all_leased-update id now jobs (i ∷ ids) n l = ground (
  arith,
  ==_iff i id,
  ==_iff id i,
  find-update_find_ne id i now jobs,
  all_leased-update id now jobs ids,
)

-- A member stays, or is one of the acknowledged and is completed.
Completes : ℤ → List Bytes → QueueJob → QueueJob → Type 0
Completes now ids j k =
    (j ≡ k) ⊎ ((contains j.id ids ≡ true) × (is_leased j.status ≡ true) × (k ≡ complete_job now j))

complete_jobs-In :
    (now : ℤ) (jobs : List QueueJob) (ids seen : List Bytes) (j : QueueJob)
    → all_leased jobs ids ≡ true
    → has_duplicate seen ids ≡ false
    → In j jobs
    → (k : QueueJob) × In k (complete_jobs now jobs ids).0 × Completes now ids j k
unfolding complete_jobs all_leased has_duplicate Completes
complete_jobs-In now jobs [] seen j l d h = (j, h, inl refl)
complete_jobs-In now jobs (id ∷ ids) seen j l d h = elim (Option-cases (find (has_id id) jobs)) [
  | inl e ↦ absurd (ground arith)
  | inr (job, e) ↦
      let after : List QueueJob = update_find (has_id id) (complete_job now) jobs in
      let still =
        all_leased-update id now jobs ids
          (has_duplicate-contains ids (id ∷ seen) id (ground arith) (ground (arith, ==_refl id)))
          (ground arith) in
      let distinct : has_duplicate (id ∷ seen) ids ≡ false = ground arith in
      let held : is_leased job.status ≡ true = ground arith in
      rw (e, complete_jobs)
        (elim (In-update_found (has_id id) (complete_job now) jobs job j e h) [
          | inl i ↦
              let (k, m, c) = complete_jobs-In now after ids (id ∷ seen) j still distinct i in
              (k, m, later id c)
          | inr (same, i) ↦
              let (k, m, c) =
                complete_jobs-In now after ids (id ∷ seen) (complete_job now job) still distinct
                  i in
              (k, m, first id job same held (find-test (has_id id) jobs job e) c)
        ])
]
  where
    later : {k : QueueJob} (id : Bytes) → Completes now ids j k → Completes now (id ∷ ids) j k
    later id (inl same) = inl same
    later id (inr (c, s, e)) = inr (ground (arith, c), s, e)

    first :
        {k : QueueJob} (id : Bytes) (job : QueueJob)
        → j ≡ job
        → is_leased job.status ≡ true
        → has_id id job ≡ true
        → Completes now ids (complete_job now job) k
        → Completes now (id ∷ ids) j k
    first id job same held named (inl e) =
        let found : (id == job.id) ≡ true =
          ground (arith, ==_iff id job.id, ==_iff job.id id, named) in
        rw same (inr (ground (arith, found), held, sym e))
    first id job same held named (inr (c, s, e)) =
        absurd (unfold complete_job is_leased in ground (arith, s))

pub complete_jobs-Follows :
    (q : Bytes) (now : ℤ) (jobs : List QueueJob) (ids : List Bytes)
    → all_leased jobs ids ≡ true
    → has_duplicate [] ids ≡ false
    → Follows (acks q ids now) q jobs (complete_jobs now jobs ids).0
unfolding Completes
complete_jobs-Follows q now jobs ids l d j h =
    let (k, m, c) = complete_jobs-In now jobs ids [] j l d h in
    elim c [
      | inl same ↦ (k, m, stays same)
      | inr (listed, held, same) ↦
          (k, m, rw same (complete_job-Change (acks q ids now) q now j (refl, listed, refl) held))
    ]
