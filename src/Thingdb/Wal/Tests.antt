-- ===== src/Thingdb/Wal/Tests.antt =====
-- A log of three frames, the last one torn, and its replay.
use thingd.Base.{
  ℕ, zero, suc, ◌+◌, ◌-◌, ◌*◌, ◌/◌, ◌%◌, ◌^◌, ◌≤◌, ◌<◌, min, max, Bytes, codes, ◌≡◌, refl, sym, ap,
  ◌∙◌, ◌≢◌, ◌↔◌, ◌⊎◌, inl, inr, Bool, true, false, not, ◌&&◌, ◌||◌, Option, none, some, List, [],
  ◌∷◌, ◌++◌, map, arith, ltb, leb, nat_beq, ltb→lt, lt→ltb, leb→le, le→leb, Bool-cases,
  Option-cases, if◌then◌else◌, u32_max, u64_max, i64_max, sat_add, Ord, ◌==◌, ◌<?◌, ==_iff, ==_refl,
  nat_ord, list_ord, pair_ord, list_beq, list_blt, length, take, drop, find, any, all, filter,
  last?, All, In, Empty, update_find, find-test, find-In, find-none-In, length-append, length-take,
  length-drop, take-append, drop-append, length-filter-le, contains, starts_with,
  starts_with-append,
}
use thingd.Thingdb.Codec.{
  Result, ok, err, to_be_bytes, be_bytes_from, write_u32, write_u64, write_bytes, slice, slice_or,
  checked_add, byte_at, read_byte, read_u32, read_u64, read_bytes, invalid_magic, out_of_fuel,
}
use thingd.Thingdb.Wal.{
  put, delete, Replay, apply_operation, apply_operations, encode_operation, encode_operations,
  patch, absorb, read_operation, read_operations, seal_frame, encode_frame_into, encode_frame,
  verify_checksum, check_frame, frame_at, replay_loop, replay_wal,
}
use thingd.Thingdb.Wal.Recovery.{Log, encode_log, replay_wal-recovers}
use thingd.Thingdb.Wal.Termination.{replay_wal-out_of_fuel}

program : Unit {0}
unfolding to_be_bytes be_bytes_from write_u32 write_u64 write_bytes slice slice_or checked_add
    byte_at read_byte read_u32 read_u64 read_bytes apply_operation apply_operations encode_operation
    encode_operations patch absorb read_operation read_operations seal_frame encode_frame_into
    encode_frame verify_checksum check_frame frame_at replay_loop replay_wal encode_log
program = tt

-- A checksum for the tests: the sum of the bytes, in 32 bits.
abbrev sum : Bytes → ℕ
sum [] = 0
sum (b ∷ bs) = b + sum bs

abbrev checksum : Bytes → ℕ
checksum bytes = min (sum bytes) u32_max

abbrev bytes_of : Result Bytes → Bytes
bytes_of (ok bytes) = bytes
bytes_of (err e) = []

abbrev old : Log
old = (1, put (codes "k") (codes "old") ∷ []) ∷ []

abbrev log : Log
log =
    (2, put (codes "k") (codes "new") ∷ put (codes "l") (codes "x") ∷ [])
    ∷ (3, delete (codes "l") ∷ [])
    ∷ []

abbrev logged : Bytes
logged = bytes_of (encode_log checksum (old ++ log))

abbrev last : Bytes
last = bytes_of (encode_frame checksum 4 (delete (codes "k") ∷ []))

abbrev replayed : Replay
replayed = record { last_sequence = 3; frame_count = 3; state = (codes "k", codes "new") ∷ [] }

replay_wal-recovers_example :
    replay_wal checksum (logged ++ take 20 last) 1 ((codes "k", codes "old") ∷ [])
    ≡ ok (replayed, length logged)
unfolding program list_beq list_blt thingd.Base.BTreeMap.insert thingd.Base.BTreeMap.remove
replay_wal-recovers_example =
    replay_wal-recovers checksum (λ b. omega arith) ((codes "k", codes "old") ∷ []) 1 old log logged
      4 20 (delete (codes "k") ∷ []) last ((omega arith, omega arith, tt))
      ((omega arith, omega arith, (omega arith, omega arith, tt))) refl refl (omega arith)
      (omega arith)

-- A log whose first byte is damaged.
replay_wal-out_of_fuel_example : replay_wal checksum (0 ∷ drop 1 logged) 0 [] ≢ err out_of_fuel
replay_wal-out_of_fuel_example = replay_wal-out_of_fuel checksum (0 ∷ drop 1 logged) 0 []

replay_wal_refuses : replay_wal checksum (0 ∷ drop 1 logged) 0 [] ≡ err invalid_magic
unfolding program list_beq list_blt
replay_wal_refuses = refl
