-- ===== src/Thingdb/Tables/Answers.antt =====
-- What a group of writes contributes to reads, by its answer.
use thingd.Base.{
  ℕ, ◌*◌, min, refl, inl, inr, Bool, true, false, ◌&&◌, ◌||◌, List, [], ltb, leb, if◌then◌else◌,
  u64_max, nat_ord, list_ord, pair_ord, length,
}
use thingd.Thingdb.Codec.{Result, ok, err}
use thingd.Thingdb.Wal.{Operation}
use thingd.Thingdb.Tables.{Inner, Fault, get_durable_value, compact_tables, flush_table}
use thingd.Thingdb.Tables.Session.{all_operations, Contributes, Holds}
use thingd.Thingdb.Tables.Group.{
  Limits, GroupEvents, Reach, to_state, not_logged, not_applied, not_synced, commit_all,
  compact_after, flush_after, stopped, execute_group, flush_before, admitted, process_group,
}
use thingd.Thingdb.Codec.{requires_recovery, file_failure}
use thingd.Thingdb.Tables.Follows.{
  Follows, Follows-refl, Follows-trans, commit_all-Follows, compact_tables-Follows,
  flush_table-Follows, then_nothing,
}

compact_after-Follows :
    (n : ℕ) (fault : Fault) (inner : Inner) (ended : Inner × Result (Unit {0}))
    → Follows inner [] ended.0
    → Follows inner [] (compact_after n fault ended).0
unfolding compact_after
compact_after-Follows n fault inner (next, err e) f = f
compact_after-Follows n fault inner (next, ok done) f = given (leb n (length next.layers))
  where
    given : (b : Bool) → Follows inner [] (if b then compact_tables fault next else (next, ok tt)).0
    given true = then_nothing inner next _ [] f (compact_tables-Follows fault next (f.0))
    given false = f

flush_after-Follows :
    (limits : Limits) (events : GroupEvents) (inner : Inner)
    → Holds inner.table inner.layers
    → Follows inner [] (flush_after limits events inner).0
unfolding flush_after
flush_after-Follows limits events inner h =
    given (leb limits.max_memtable_bytes inner.table.pending_bytes || events.wal_over_budget)
      (leb limits.max_memtable_bytes 1) events.scheduled
  where
    at_once : Inner × Result (Unit {0})
    at_once =
        compact_after limits.max_table_layers events.compacting (flush_table events.flushing inner)

    given :
        (a b c : Bool)
        → Follows inner []
            (if a
              then (if b then at_once else if c then (inner, ok tt) else (inner, err file_failure))
              else (inner, ok tt)).0
    given false b c = Follows-refl inner h
    given true true c =
        compact_after-Follows limits.max_table_layers events.compacting inner
          (flush_table events.flushing inner) (flush_table-Follows events.flushing inner h)
    given true false true = Follows-refl inner h
    given true false false = Follows-refl inner h

stopped-Follows :
    (a : Inner) (x : List Operation) (ended : Inner × Result (Unit {0}))
    → Follows a x ended.0
    → Follows a x (stopped ended).0
unfolding stopped get_durable_value
stopped-Follows a x (b, ok done) f = f
stopped-Follows a x (b, err e) f = f

-- An answer with what the group contributed.
abbrev pub Answers : Inner → List (List Operation) → Inner × Result (Unit {0}) → Type 0
Answers a requests r = (ops : List Operation) × Contributes r requests ops × Follows a ops r.0

stopped-Answers :
    (a : Inner) (requests : List (List Operation)) (ended : Inner × Result (Unit {0}))
    → Follows a (all_operations requests) ended.0
    → Answers a requests (stopped ended)
unfolding stopped get_durable_value
stopped-Answers a requests (b, ok done) f = (all_operations requests, refl, f)
stopped-Answers a requests (b, err e) f = (all_operations requests, inr (refl, refl), f)

execute_group-Answers :
    (limits : Limits) (events : GroupEvents) (requests : List (List Operation)) (reach : Reach)
    (a inner : Inner)
    → Follows a [] inner
    → Answers a requests (execute_group limits events requests reach inner)
unfolding execute_group stopped get_durable_value
execute_group-Answers limits events requests to_state a inner f =
    let done = commit_all-Follows requests inner (f.0) in
    let after = (flush_after limits events (commit_all requests inner)).0 in
    let flushed = flush_after-Follows limits events (commit_all requests inner) (done.0) in
    stopped-Answers a requests (flush_after limits events (commit_all requests inner)) (
      Follows-trans a inner after [] (all_operations requests) f (
        then_nothing inner (commit_all requests inner) after (all_operations requests) done
          flushed))
execute_group-Answers limits events requests not_logged a inner f = ([], inl refl, f)
execute_group-Answers limits events requests (not_synced left) a inner f = ([], inl refl, f)
execute_group-Answers limits events requests not_applied a inner f = ([], inl refl, f)

admitted-Answers :
    (limits : Limits) (events : GroupEvents) (requests : List (List Operation)) (a : Inner)
    (ended : Inner × Result (Unit {0}))
    → Follows a [] ended.0
    → Answers a requests (admitted limits events requests ended)
unfolding admitted
admitted-Answers limits events requests a (b, err e) f = ([], inl refl, f)
admitted-Answers limits events requests a (b, ok done) f =
    execute_group-Answers limits events requests events.reach a b f

flush_before-Follows :
    (limits : Limits) (events : GroupEvents) (inner : Inner)
    → Holds inner.table inner.layers
    → Follows inner [] (flush_before limits events inner).0
unfolding flush_before
flush_before-Follows limits events inner h = given (
    ltb 1 limits.max_memtable_bytes
    && leb (min (limits.max_memtable_bytes * 2) u64_max) inner.table.pending_bytes)
  where
    given :
        (b : Bool)
        → Follows inner []
            (if b then stopped (flush_table events.before inner) else (inner, ok tt)).0
    given true =
        stopped-Follows inner [] (flush_table events.before inner)
          (flush_table-Follows events.before inner h)
    given false = Follows-refl inner h

pub process_group-Answers :
    (limits : Limits) (events : GroupEvents) (requests : List (List Operation)) (inner : Inner)
    → Holds inner.table inner.layers
    → Answers inner requests (process_group limits events requests inner)
unfolding process_group
process_group-Answers limits events requests inner h = given inner.recovery_required
  where
    given :
        (b : Bool)
        → Answers inner requests (
            if b
            then (inner, err requires_recovery)
            else admitted limits events requests (flush_before limits events inner))
    given true = ([], inl refl, Follows-refl inner h)
    given false =
        admitted-Answers limits events requests inner (flush_before limits events inner)
          (flush_before-Follows limits events inner h)
