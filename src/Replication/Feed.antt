-- ===== src/Replication/Feed.antt =====
-- A replica that reads the feed page by page gets every change once.
use thingd.Base.{
  ℕ, ◌≡◌, refl, sym, ap, ◌∙◌, inl, inr, ◌&&◌, none, some, List, [], ◌∷◌, ◌++◌, arith, ltb,
  Bool-cases, Option-cases, nat_ord, list_ord, pair_ord, last?,
}
use thingd.Model.{MemoryEvent, ok}
use thingd.Events.Order.{IsOrdered}
use thingd.Events.Paging.{from, list_events-pages}
use thingd.Replication.{Json, replication_stream, ReplicationConfig, Engine}
use thingd.Replication.Source.{
  ReplicationPage, change_of, changes_of, feed, is_lost, last_sequence, page_of, clamped, events,
  changes_after,
}

module _ (j : Json) where
  changes_of-append :
      (config : ReplicationConfig) (xs ys : List MemoryEvent)
      → changes_of j config (xs ++ ys) ≡ changes_of j config xs ++ changes_of j config ys
  unfolding changes_of
  changes_of-append config [] ys = refl
  changes_of-append config (x ∷ xs) ys =
      ground (arith, Option-cases (change_of j config x), changes_of-append config xs ys)

  last-none : (xs : List MemoryEvent) → last? xs ≡ none → xs ≡ []
  last-none [] h = refl
  last-none (x ∷ []) h = cc
  last-none (x ∷ y ∷ ys) h = absurd (let e = last-none (y ∷ ys) h in cc)

  -- On a log whose sequences rise, a page of the feed and the changes after the page's cursor are
  -- together, in order, the changes after the cursor that was asked for: a replica that goes on from
  -- each page's cursor misses no change and gets none twice.
  pub events-pages :
      (config : ReplicationConfig) (e : Engine) (after limit : ℕ) (page : ReplicationPage j)
      → IsOrdered e.log
      → events j config e after limit ≡ ok page
      → page.changes ++ changes_after j config e page.next ≡ changes_after j config e after
  unfolding events changes_after page_of last_sequence changes_of
  events-pages config e after limit page ordered h =
      elim (Bool-cases (ltb 0 after && is_lost j e.log after)) [
        | inl y ↦ absurd (ground (arith, rw (events, y) at h))
        | inr y ↦
            let listed = feed j e.log (from (some after) (some (clamped j limit)) none) in
            let is : page_of j config after listed ≡ page = (let k = rw (events, y) at h in cc) in
            rw (← is) (elim (Option-cases (last? listed)) [
              | inl nothing ↦ rw (nothing, last-none listed nothing) refl
              | inr (seen, there) ↦ rw there (
                  sym (
                    changes_of-append config listed
                      (feed j e.log (from (some seen.sequence) none none)))
                  ∙ ap (changes_of j config) (
                      unfold feed in
                      list_events-pages e.log (some replication_stream) (some after)
                        (clamped j limit) none seen ordered there))
            ])
      ]
