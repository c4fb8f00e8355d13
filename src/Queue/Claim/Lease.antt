-- ===== src/Queue/Claim/Lease.antt =====
-- A lease keeps a job from every other claim until it runs out.
use thingd.Base.{
  Bytes, ◌≡◌, sym, ap, ◌∙◌, ◌≢◌, inl, inr, false, some, List, [], ◌∷◌, map, arith, nat_ord,
  list_ord, pair_ord, All, In,
}
use mathlib.Core.Path.{subst}
use thingd.Base.Int.{ℤ, leb_ℤ}
use thingd.Model.{QueueJob, QueueClaimOptions, QueueNackOptions, leased}
use thingd.Queue.{
  Queues, is_leased, is_ready, claimable, lease_job, release_job, lease_expired, list_jobs,
}
use thingd.Queue.Jobs.{count_id-map, same_of_id, In-map}
use thingd.Queue.Machine.{Op, step, run}
use thingd.Queue.Unique.{IsUnique, run-IsUnique, release_job-id}
use thingd.Queue.Lifecycle.{
  Claiming, Acking, Nacking, Change, stays, expires, leases, completes, retries, buries, Life,
}
use thingd.Queue.Lifecycle.Runs.{run-Follows}
use thingd.Queue.Claim.{released}
use thingd.Queue.Claim.Handed.{HandsOut, Handed, HandsOut-Handed}

-- The call leaves the job alone: it acknowledges and rejects another one, or of another queue, and a
-- claim reads the clock before the instant.
abbrev pub Spares : Bytes → Bytes → ℤ → Op → Type 0
Spares q id e op =
    ((options : QueueClaimOptions) (t now : ℤ) → Claiming op q options t now → leb_ℤ e t ≡ false)
    × ((now : ℤ) → Acking op q id now → ⊥)
    × ((options : QueueNackOptions) (now : ℤ) → Nacking op q id options now → ⊥)

held_change :
    (op : Op) (q : Bytes) (j k : QueueJob) (e : ℤ)
    → j.status ≡ leased
    → j.lease_expires_at_ms ≡ some e
    → Spares q j.id e op
    → Change op q j k
    → j ≡ k
held_change op q j k e s x (early, no_ack, no_nack) (stays same) = same
held_change op q j k e s x (early, no_ack, no_nack) (expires o t n c (u, (e', x', old)) p a b) =
    absurd (ground (arith, early o t n c, old, ap (λ (y : ℤ). leb_ℤ y t) (same_end x x')))
  where
    same_end : {e' : ℤ} → j.lease_expires_at_ms ≡ some e → j.lease_expires_at_ms ≡ some e' → e ≡ e'
    same_end x x' = cc
held_change op q j k e s x (early, no_ack, no_nack) (leases o t n c (inl u) l p) =
    absurd (ground (arith, s, u))
held_change op q j k e s x (early, no_ack, no_nack) (leases o t n c (inr (u, (e', x', old))) l p) =
    absurd (ground (arith, early o t n c, old, ap (λ (y : ℤ). leb_ℤ y t) (same_end x x')))
  where
    same_end : {e' : ℤ} → j.lease_expires_at_ms ≡ some e → j.lease_expires_at_ms ≡ some e' → e ≡ e'
    same_end x x' = cc
held_change op q j k e s x (early, no_ack, no_nack) (completes n c u p a b) = absurd (no_ack n c)
held_change op q j k e s x (early, no_ack, no_nack) (retries o n c u l p a b d) =
    absurd (no_nack o n c)
held_change op q j k e s x (early, no_ack, no_nack) (buries o n c u l p a b) =
    absurd (no_nack o n c)

held-Life :
    (q : Bytes) (ops : List Op) (j k : QueueJob) (e : ℤ)
    → j.status ≡ leased
    → j.lease_expires_at_ms ≡ some e
    → All (Spares q j.id e) ops
    → Life q ops j k
    → j ≡ k
held-Life q [] j k e s x spared same = same
held-Life q (op ∷ ops) j l e s x spared (k, c, more) =
    let same = held_change op q j k e s x (spared.0) c in
    let sx : k.status ≡ leased = ap (λ (y : QueueJob). y.status) (sym same) ∙ s in
    let xx : k.lease_expires_at_ms ≡ some e =
      ap (λ (y : QueueJob). y.lease_expires_at_ms) (sym same) ∙ x in
    same
    ∙ held-Life q ops k l e sx xx
        (subst (λ (y : QueueJob). All (Spares q y.id e) ops) same (spared.1)) more

-- A job under a lease is released by no claim that reads the clock before its end, and is not to be had.
held_not_claimable :
    (now t : ℤ) (j : QueueJob) (e : ℤ)
    → j.status ≡ leased
    → j.lease_expires_at_ms ≡ some e
    → leb_ℤ e t ≡ false
    → (release_job t j ≡ j) × (claimable now j ≡ false)
unfolding release_job lease_expired claimable is_ready is_leased
held_not_claimable now t j e s x l = (ground arith, ground arith)

-- A held job of the queue is not the one that a call hands out.
held-Handed :
    (queues : Queues) (op : Op) (q : Bytes) (j k : QueueJob) (e : ℤ)
    → IsUnique queues
    → In j (list_jobs queues q)
    → j.status ≡ leased
    → j.lease_expires_at_ms ≡ some e
    → Spares q j.id e op
    → Handed queues op q k
    → k.id ≢ j.id
unfolding Handed released lease_job
held-Handed queues op q j k e u h s x spared (b, o, t, now, n, c, m, able, made, i) same =
    let (kept, not_had) = held_not_claimable now t j e s x (spared.0 o t now c) in
    let mine : In j (map (release_job t) (list_jobs queues q)) =
      rw kept at (In-map (release_job t) j (list_jobs queues q) h) in
    let named : b.id ≡ j.id = sym (ap (λ (y : QueueJob). y.id) made) ∙ same in
    let equal : b ≡ j = same_of_id (map (release_job t) (list_jobs queues q)) b j m mine named (
      omega (
        arith,
        count_id-map b.id (release_job t) (list_jobs queues q) (release_job-id t),
        u q b.id,
      )) in
    absurd (ground (arith, ap (claimable now) equal, able, not_had))

-- In queues with distinct identifiers, take a call that hands out a job of a queue, alone or in a
-- batch, under a lease up to some instant. Let any calls follow that neither acknowledge nor reject
-- the job and, where they claim from the queue, first read the clock before that instant. A claim of
-- the queue that also does so, alone or in a batch, does not hand out the job again.
pub claim-claim :
    (queues : Queues) (first next : Op) (ops : List Op) (q : Bytes) (j k : QueueJob) (e : ℤ)
    → IsUnique queues
    → HandsOut queues first q j
    → j.lease_expires_at_ms ≡ some e
    → All (Spares q j.id e) ops
    → Spares q j.id e next
    → HandsOut (run (step queues first) ops) next q k
    → k.id ≢ j.id
unfolding Handed lease_job run
claim-claim queues first next ops q j k e u given x spared spares again =
    let (b, o, t, now, n, c, m, able, made, here) = HandsOut-Handed queues first q j given in
    let s : j.status ≡ leased = ap (λ (y : QueueJob). y.status) made in
    let (l, there, life) = run-Follows (step queues first) ops q j here in
    let same = held-Life q ops j l e s x spared life in
    held-Handed (run (step queues first) ops) next q j k e (run-IsUnique queues (first ∷ ops) u)
      (rw (← same) at there) s x spares
      (HandsOut-Handed (run (step queues first) ops) next q k again)
