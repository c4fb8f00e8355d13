-- ===== src/Queue/Jobs.antt =====
-- Facts on one queue's list of jobs: who is in it, and how many bear an identifier.
use thingd.Base.{
  ℕ, ◌+◌, ◌≤◌, Bytes, ◌≡◌, refl, sym, ap, ◌∙◌, inl, inr, Bool, true, none, List, [], ◌∷◌, ◌++◌, map,
  arith, if◌then◌else◌, ◌==◌, ==_iff, nat_ord, list_ord, pair_ord, find, In, update_find,
}
use thingd.Base.BTreeMap.{insert, get-insert}
use thingd.Model.{QueueJob}
use thingd.Queue.{Queues, has_id, insert_by_priority, sort_by_priority, list_jobs}

module _ {A : Type 0} where
  pub In-map : {B : Type 0} (f : A → B) (a : A) (xs : List A) → In a xs → In (f a) (map f xs)
  In-map f a [] h = elim h [ ]
  In-map f a (x ∷ xs) (inl e) = inl (ap f e)
  In-map f a (x ∷ xs) (inr h) = inr (In-map f a xs h)

  pub In-map_inv :
      {B : Type 0} (f : A → B) (b : B) (xs : List A)
      → In b (map f xs)
      → (a : A) × In a xs × (b ≡ f a)
  In-map_inv f b [] h = elim h [ ]
  In-map_inv f b (x ∷ xs) (inl e) = (x, inl refl, e)
  In-map_inv f b (x ∷ xs) (inr h) = let (a, i, e) = In-map_inv f b xs h in (a, inr i, e)

  pub In-append_left : (a : A) (xs ys : List A) → In a xs → In a (xs ++ ys)
  In-append_left a [] ys h = elim h [ ]
  In-append_left a (x ∷ xs) ys (inl e) = inl e
  In-append_left a (x ∷ xs) ys (inr h) = inr (In-append_left a xs ys h)

-- Sorting keeps the members.
pub In-insert_by_priority :
    (j k : QueueJob) (ks : List QueueJob) → In j (k ∷ ks) → In j (insert_by_priority k ks)
unfolding insert_by_priority
In-insert_by_priority j k [] h = h
In-insert_by_priority j k (l ∷ ks) h = ground (arith, In-insert_by_priority j k ks)

pub In-insert_by_priority_inv :
    (j k : QueueJob) (ks : List QueueJob) → In j (insert_by_priority k ks) → In j (k ∷ ks)
unfolding insert_by_priority
In-insert_by_priority_inv j k [] h = h
In-insert_by_priority_inv j k (l ∷ ks) h = ground (arith, In-insert_by_priority_inv j k ks)

pub In-sort_by_priority : (j : QueueJob) (ks : List QueueJob) → In j ks → In j (sort_by_priority ks)
unfolding sort_by_priority
In-sort_by_priority j [] h = h
In-sort_by_priority j (k ∷ ks) h =
    In-insert_by_priority j k (sort_by_priority ks)
      (elim h [ inl e ↦ inl e | inr i ↦ inr (In-sort_by_priority j ks i) ])

pub In-sort_by_priority_inv :
    (j : QueueJob) (ks : List QueueJob) → In j (sort_by_priority ks) → In j ks
unfolding sort_by_priority
In-sort_by_priority_inv j [] h = h
In-sort_by_priority_inv j (k ∷ ks) h =
    ground
      (arith, In-insert_by_priority_inv j k (sort_by_priority ks), In-sort_by_priority_inv j ks)

-- How many jobs of the list bear an identifier.
unfoldable pub count_id : Bytes → List QueueJob → ℕ
count_id i [] = 0
count_id i (job ∷ jobs) = (if has_id i job then 1 else 0) + count_id i jobs

pub count_id-insert_by_priority :
    (i : Bytes) (k : QueueJob) (ks : List QueueJob)
    → count_id i (insert_by_priority k ks) ≡ count_id i (k ∷ ks)
unfolding insert_by_priority count_id
count_id-insert_by_priority i k [] = refl
count_id-insert_by_priority i k (l ∷ ks) = ground (arith, count_id-insert_by_priority i k ks)

pub count_id-sort_by_priority :
    (i : Bytes) (ks : List QueueJob) → count_id i (sort_by_priority ks) ≡ count_id i ks
unfolding sort_by_priority count_id
count_id-sort_by_priority i [] = refl
count_id-sort_by_priority i (k ∷ ks) =
    omega
      (arith, count_id-insert_by_priority i k (sort_by_priority ks), count_id-sort_by_priority i ks)

pub count_id-append :
    (i : Bytes) (xs ys : List QueueJob) → count_id i (xs ++ ys) ≡ count_id i xs + count_id i ys
unfolding count_id
count_id-append i [] ys = omega arith
count_id-append i (x ∷ xs) ys = omega (arith, count_id-append i xs ys)

pub count_id-map :
    (i : Bytes) (f : QueueJob → QueueJob) (xs : List QueueJob)
    → ((x : QueueJob) → (f x).id ≡ x.id)
    → count_id i (map f xs) ≡ count_id i xs
unfolding count_id
count_id-map i f [] h = refl
count_id-map i f (x ∷ xs) h = ground (arith, h x, count_id-map i f xs h)

pub count_id-update_find :
    (i : Bytes) (p : QueueJob → Bool) (f : QueueJob → QueueJob) (xs : List QueueJob)
    → ((x : QueueJob) → p x ≡ true → (f x).id ≡ x.id)
    → count_id i (update_find p f xs) ≡ count_id i xs
unfolding count_id
count_id-update_find i p f [] h = refl
count_id-update_find i p f (x ∷ xs) h = ground (arith, h x, count_id-update_find i p f xs h)

pub count_id-find-none :
    (i : Bytes) (xs : List QueueJob) → find (has_id i) xs ≡ none → count_id i xs ≡ 0
unfolding count_id
count_id-find-none i [] e = refl
count_id-find-none i (x ∷ xs) e = ground (arith, count_id-find-none i xs)

pub count_id-In : (xs : List QueueJob) (j : QueueJob) → In j xs → 1 ≤ count_id j.id xs
unfolding count_id
count_id-In [] j h = elim h [ ]
count_id-In (x ∷ xs) j (inl e) = ground (arith, ==_iff x.id j.id, ap (λ (y : QueueJob). y.id) e)
count_id-In (x ∷ xs) j (inr h) = ground (arith, count_id-In xs j h)

-- Two members with one identifier are one, where no identifier stands twice.
pub same_of_id :
    (xs : List QueueJob) (j k : QueueJob)
    → In j xs
    → In k xs
    → j.id ≡ k.id
    → count_id j.id xs ≤ 1
    → j ≡ k
unfolding count_id
same_of_id [] j k h g e u = elim h [ ]
same_of_id (x ∷ xs) j k (inl h) (inl g) e u = h ∙ sym g
same_of_id (x ∷ xs) j k (inl h) (inr g) e u = absurd (
    ground (
      arith,
      ==_iff x.id j.id,
      ap (λ (y : QueueJob). y.id) h,
      count_id-In xs k g,
      ap (λ (i : Bytes). count_id i xs) e,
    ))
same_of_id (x ∷ xs) j k (inr h) (inl g) e u =
    absurd (ground (arith, ==_iff x.id j.id, ap (λ (y : QueueJob). y.id) g, count_id-In xs j h))
same_of_id (x ∷ xs) j k (inr h) (inr g) e u = same_of_id xs j k h g e (ground arith)

-- What a queue holds after a write to a queue.
pub list_jobs-insert :
    (queues : Queues) (k q : Bytes) (jobs : List QueueJob)
    → list_jobs (insert k jobs queues) q ≡ (if k == q then jobs else list_jobs queues q)
unfolding list_jobs
list_jobs-insert queues k q jobs = ground (arith, get-insert k q jobs queues)
