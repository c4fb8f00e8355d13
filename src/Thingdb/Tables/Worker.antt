-- ===== src/Thingdb/Tables/Worker.antt =====
-- The rounds of the worker that flushes in the background.
use thingd.Base.{ℕ, true, not, ◌||◌, leb, if◌then◌else◌, nat_ord, list_ord, pair_ord, length}
use thingd.Thingdb.Codec.{Result, ok, err}
use thingd.Thingdb.Tables.{Inner, Fault, has_pending, flush_table, compact_tables}

-- After an error of the worker, the database is not written before it is reopened.
unfoldable pub stop_on_error : Inner × Result (Unit {0}) → Inner
stop_on_error (inner, ok done) = inner
stop_on_error (inner, err e) = record inner { recovery_required = true }

unfoldable pub compact_layers : ℕ → Fault → Inner × Result (Unit {0}) → Inner
compact_layers max_table_layers fault (inner, ok done) =
    if leb max_table_layers (length inner.layers)
    then stop_on_error (compact_tables fault inner)
    else inner
compact_layers max_table_layers fault (inner, err e) = stop_on_error (inner, err e)

-- A flush, and a compaction when there are too many layers.
unfoldable pub flush_round : ℕ → Fault → Fault → Inner → Inner
flush_round max_table_layers flushing compacting inner =
    if inner.recovery_required || not (has_pending inner)
    then inner
    else compact_layers max_table_layers compacting (flush_table flushing inner)
