-- ===== src/Thingdb/Tables/Reads.antt =====
-- Reads through a session are those of a plain map, wherever its flushes and compactions fail.
use thingd.Base.{nat_ord, list_ord, pair_ord}
use thingd.Thingdb.Tables.Follows.{Follows}
