-- ===== src/Thingdb.antt =====
-- ThingDB, the embedded key-value database (crates/thingdb).
pub mod Codec
pub mod Wal
pub mod Keys
pub mod Keyspaces
pub mod Cache
pub mod Tables
