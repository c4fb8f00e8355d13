-- ===== src/Lib.antt =====
-- A verification library for the core of thingd: the in-memory engine and its replication
-- (crates/thingd), the embedded key-value database ThingDB that the persistent engine stands on
-- (crates/thingdb), and the guards in front of the server's handlers (crates/thingd-server).
--
-- The parts, and the files that model them:
--
--   Base      what the modules share: tests on numbers, total orders as instances (Base/Order),
--             lists (Base/Lists), i64 (Base/Int), and the maps of the standard library
--             (Base/BTreeMap). A byte string is a list of numbers, compared as Rust does.
--   Model     the records and errors of crates/thingd/src/model.rs and error.rs.
--   Queue     QueueStore for MemoryEngine of crates/thingd/src/in_memory.rs: push_job,
--             claim_job_with_options, claim_jobs_with_options, ack_job, ack_jobs,
--             nack_job_with_options, the listings and counts. Queue/Machine makes one machine of the
--             calls, and Queue/Rules is the interface by which a relation between a queue's jobs before
--             and after is carried through every call; Queue/Unique, Queue/Lifecycle, Queue/Claim and
--             Queue/Batch hold the proofs.
--   Events    EventLog for MemoryEngine: append_event with its idempotency keys, list_events,
--             list_streams, delete_last_event, delete_stream, and a machine of the three that write.
--             Events/Order, Events/Idempotent, Events/Protected and Events/Paging hold the proofs.
--   Objects   ObjectStore for MemoryEngine: put_object, put_object_with_options,
--             put_object_with_source_metadata, get_object, delete_object, the counts, and the index
--             definitions with their checks. Objects/Puts holds the proofs.
--   Links     LinkStore for MemoryEngine: create_link, import_link, delete_link, get_link, list_links,
--             get_neighbors. Links/Fresh holds the proofs.
--   Replication  ReplicationService of crates/thingd/src/replication.rs over the in-memory engine:
--             recording of changes and the feed of a source (Source, Changes), application, provenance,
--             conflicts and checkpoints of a replica (Replica), snapshots (Snapshot), Status. Feed,
--             Frame, Again, Conflict and the modules that they use hold the proofs.
--   Server    RateLimit is crates/thingd-server/src/rate_limit.rs, a token bucket for each caller;
--             Auth is crates/thingd-server/src/auth.rs: the constant-time comparison, the rules on a
--             tenant's identifier, the key cache and the middleware (Tokens and Gate hold its proofs).
--   Thingdb/Codec      the readers and writers of integers and byte strings of
--                      crates/thingdb/src/lib.rs (read_u64, write_bytes and the like).
--   Thingdb/Wal        the write-ahead log: encode_frame, replay_wal. Thingdb/Wal/Frame has the bytes
--                      of a frame written out, Reading and Frames read them back, Recovery is about
--                      whole logs, Termination about the loop.
--   Thingdb/Keys       namespaces, physical keys, successor, and the bounds and filters of a scan.
--   Thingdb/Keyspaces  batches in memory mode and in durable mode (Modes), and the table of pending
--                      entries (Pending).
--   Thingdb/Cache      MemoryCache of crates/thingdb/src/cache.rs; Bounds is about the eviction,
--                      Inserts about a whole insertion.
--   Thingdb/Tables     durable reads, flush, compaction and reopening (flush_table_locked,
--                      compact_tables_locked, materialize_state, get_durable_value, open_locked), with
--                      the points where files fail. A table is the entries that its file was written
--                      with. Group is the way of a group of writes (process_group, execute_group), Worker
--                      a round of the background flush (background_flush_worker). Merge, Compaction,
--                      Session, Commits, Follows, Answers, Reads, Reopened and Deleted hold the proofs.
--
-- State is passed explicitly: an operation takes the state and returns the new one beside its result.
-- Readings of the clock are arguments. Errors keep their kind and drop the text of the message. An
-- integer is a number with the source's saturating, checked or wrapping operation written out; a usize
-- is taken to have 64 bits. Reading and updating a shared object under its lock is one step.
--
-- The loops of replay_wal and of the cache's eviction run on fuel. The replay is given one round for each
-- byte of the log and one more, and the eviction one round for each entry and one more; each round reads
-- a frame, or takes an entry, so the rounds never run out.
--
-- Parameters stand for code outside the repository: the checksum of the crc32fast crate, of which only
-- that it has 32 bits is used; the UTF-8 check, and the formatting and parsing of a u64 of the standard
-- library, of which only that a formatted number is parsed back is used; the equality of two weights;
-- the reading, the writing and the equality of JSON values of the serde_json crate, of which it is used
-- that a member is read back from the object that it was written in; the tables of Unicode for a
-- tenant's identifier; the header map of a request and the keys and the verification of tokens, of
-- the http and jsonwebtoken crates; the range of an instant in the cache; and the arithmetic of doubles
-- of the rate limiter.
--
-- Not modelled: listings of objects with a filter or a sort and the schemas, vectors, search and
-- aggregation of the engine; the format, the blocks and the names of ThingDB's table files, the channels and
-- threads of its writer and its snapshots, and the bytes that a failing write leaves behind the last
-- whole frame of its log; the persistent engine, the handlers of the HTTP and MCP server, encryption,
-- the schema language, the connectors and the bindings. The diagnostics counters of ThingDB change no
-- result and are left out.
pub mod Base
pub mod Events
pub mod Links
pub mod Model
pub mod Objects
pub mod Queue
pub mod Replication
pub mod Server
pub mod Thingdb
