-- ===== src/Thingdb/Wal.antt =====
-- The write-ahead log of crates/thingdb/src/lib.rs: its frames and their replay. The checksum is
-- that of the crc32fast crate, a parameter.
pub mod Frame
pub mod Reading
pub mod Frames
pub mod Recovery
pub mod Termination
mod Tests
use thingd.Base.{
  ℕ, zero, suc, ◌+◌, ◌-◌, ◌*◌, ◌/◌, ◌%◌, ◌^◌, ◌≤◌, ◌<◌, min, max, Bytes, codes, ◌≡◌, refl, sym, ap,
  ◌∙◌, ◌≢◌, ◌↔◌, ◌⊎◌, inl, inr, Bool, true, false, not, ◌&&◌, ◌||◌, Option, none, some, List, [],
  ◌∷◌, ◌++◌, map, arith, ltb, leb, nat_beq, ltb→lt, lt→ltb, leb→le, le→leb, Bool-cases,
  Option-cases, if◌then◌else◌, u32_max, u64_max, i64_max, sat_add, Ord, ◌==◌, ◌<?◌, ==_iff, ==_refl,
  nat_ord, list_ord, pair_ord, list_beq, list_blt, length, take, drop, find, any, all, filter,
  last?, All, In, Empty, update_find, find-test, find-In, find-none-In, length-append, length-take,
  length-drop, take-append, drop-append, length-filter-le, contains, starts_with,
  starts_with-append,
}
use thingd.Base.BTreeMap.{BTreeMap, insert, remove}
use thingd.Thingdb.Codec.{
  Result, ok, err, ◌>>=◌, ◌>>◌, ensure, too_many_operations, frame_too_large, invalid_magic,
  invalid_frame_length, invalid_operation, invalid_payload_length, checksum_mismatch, out_of_fuel,
  from_be_bytes, to_be_bytes, write_u32, write_u64, write_bytes, read_byte, read_u32, read_u64,
  read_bytes,
}

pub data Operation : Type 0 where
  put : Bytes → Bytes → Operation
  delete : Bytes → Operation

abbrev pub wal_magic : Bytes
wal_magic = codes "TDBWAL01"

abbrev pub State : Type 0
State = BTreeMap Bytes Bytes

unfoldable pub apply_operation : State → Operation → State
apply_operation state (put key value) = insert key value state
apply_operation state (delete key) = remove key state

unfoldable pub apply_operations : State → List Operation → State
apply_operations state [] = state
apply_operations state (op ∷ ops) = apply_operations (apply_operation state op) ops

unfoldable pub encode_operation : Bytes → Operation → Result Bytes
encode_operation output (put key value) = do
  output ← write_bytes (output ++ 1 ∷ []) key
  write_bytes output value
encode_operation output (delete key) = do
  output ← write_bytes (output ++ 2 ∷ []) key
  ok (write_u64 output 0)

unfoldable pub encode_operations : Bytes → List Operation → Result Bytes
encode_operations output [] = ok output
encode_operations output (op ∷ ops) = do
  output ← encode_operation output op
  encode_operations output ops

-- `output[offset..offset + 8].copy_from_slice(..)`
unfoldable pub patch : Bytes → ℕ → Bytes → Bytes
patch output offset bytes = take offset output ++ (bytes ++ drop (offset + length bytes) output)

-- `bytes[start..end]`, where the range is known to lie in the bytes.
abbrev pub range : Bytes → ℕ → ℕ → Bytes
range bytes start end = take (end - start) (drop start bytes)

-- The state that a replay builds, with the last sequence that it applied and the frames that it read.
pub record Replay : Type 0 where
  pub last_sequence : ℕ
  pub frame_count : ℕ
  pub state : State

-- The end of a round of `replay_wal`: a sequence that is not above the last one is passed over.
unfoldable pub absorb : Replay → ℕ → List Operation → Replay
absorb r sequence operations =
    if ltb r.last_sequence sequence
    then record {
      last_sequence = sequence;
      frame_count = r.frame_count + 1;
      state = apply_operations r.state operations;
    }
    else record r { frame_count = r.frame_count + 1 }

unfoldable pub read_operation : Bytes → ℕ → Result (Operation × ℕ)
read_operation bytes cursor = do
  (kind, cursor) ← read_byte bytes cursor
  (key, cursor) ← read_bytes bytes cursor
  (value, cursor) ← read_bytes bytes cursor
  if kind == 1
      then ok (put key value, cursor)
      else if kind == 2
      then ok (delete key, cursor)
      else err invalid_operation

unfoldable pub read_operations : ℕ → Bytes → ℕ → Result (List Operation × ℕ)
read_operations zero bytes cursor = ok ([], cursor)
read_operations (suc count) bytes cursor = do
  (op, cursor) ← read_operation bytes cursor
  (ops, cursor) ← read_operations count bytes cursor
  ok (op ∷ ops, cursor)

module _ (checksum : Bytes → ℕ) where
  -- The end of `encode_frame_into`: the checksum, and the length in the place kept for it.
  unfoldable pub seal_frame : Bytes → ℕ → ℕ → Result Bytes
  seal_frame body_output length_offset body_start = do
    let output = write_u32 body_output (checksum (drop body_start body_output))
    let frame_len = length output - body_start
    ensure (leb frame_len u64_max) frame_too_large
    ok (patch output length_offset (to_be_bytes 8 frame_len))

  unfoldable pub encode_frame_into : Bytes → ℕ → List Operation → Result Bytes
  encode_frame_into output sequence operations = do
    let opened = write_u64 (output ++ wal_magic) 0
    ensure (leb (length operations) u32_max) too_many_operations
    body_output ←
        encode_operations (write_u32 (write_u64 opened sequence) (length operations)) operations
    seal_frame body_output (length (output ++ wal_magic)) (length opened)

  unfoldable pub encode_frame : ℕ → List Operation → Result Bytes
  encode_frame sequence operations = encode_frame_into [] sequence operations

  unfoldable pub verify_checksum : Bytes → ℕ → ℕ → ℕ → Result (Unit {0})
  verify_checksum bytes body_start checksum_offset frame_end =
      ensure
        (from_be_bytes (range bytes checksum_offset frame_end)
          == checksum (range bytes body_start checksum_offset))
        checksum_mismatch

  -- The checks on a frame that is there in full: its sequence, its operations and its end.
  unfoldable pub check_frame : Bytes → ℕ → ℕ → Result (ℕ × List Operation × ℕ)
  check_frame bytes body_start frame_len = do
    let frame_end = body_start + frame_len
    (sequence, cursor) ← read_u64 bytes body_start
    (count, cursor) ← read_u32 bytes cursor
    (operations, cursor) ← read_operations count bytes cursor
    let checksum_offset = frame_end - 4
    ensure (cursor == checksum_offset) invalid_payload_length
    verify_checksum bytes body_start checksum_offset frame_end
    ok (sequence, operations, frame_end)

  -- One round of `replay_wal`; `none` is a frame that the log does not hold in full.
  unfoldable pub frame_at : Bytes → ℕ → Result (Option (ℕ × List Operation × ℕ))
  frame_at bytes cursor = elim (ltb (length bytes - cursor) (length wal_magic + 8)) [
    | true ↦ ok none
    | false ↦ do
      ensure (list_beq (range bytes cursor (cursor + length wal_magic)) wal_magic) invalid_magic
      (frame_len, body_start) ← read_u64 bytes (cursor + length wal_magic)
      ensure (leb 12 frame_len) invalid_frame_length
      elim (ltb (length bytes - body_start) frame_len) [
        | true ↦ ok none
        | false ↦ do frame ← check_frame bytes body_start frame_len; ok (some frame)
      ]
  ]

  -- The loop, with the rounds that are left: the replayed state, and the end of the last whole frame.
  unfoldable pub replay_loop : ℕ → Bytes → ℕ → Replay → Result (Replay × ℕ)
  replay_loop zero bytes cursor r = err out_of_fuel
  replay_loop (suc fuel) bytes cursor r = elim (ltb cursor (length bytes)) [
    | false ↦ ok (r, cursor)
    | true ↦ do
      found ← frame_at bytes cursor
      elim found [
        | none ↦ ok (r, cursor)
        | some (sequence, operations, frame_end) ↦
            replay_loop fuel bytes frame_end (absorb r sequence operations)
      ]
  ]

  -- Every round but the last reads a frame, so a round for each byte and one more are enough.
  unfoldable pub replay_wal : Bytes → ℕ → State → Result (Replay × ℕ)
  replay_wal bytes table_sequence state =
      replay_loop (suc (length bytes)) bytes 0
        (record { last_sequence = table_sequence; frame_count = 0; state = state })
