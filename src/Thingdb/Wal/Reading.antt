-- ===== src/Thingdb/Wal/Reading.antt =====
-- The reader on the bytes of a frame, whole or cut short.
use mathlib.Core.List.{append_assoc, append-nil}
use thingd.Base.{
  ℕ, ◌+◌, ◌-◌, ◌≤◌, Bytes, ◌≡◌, refl, ap, List, [], ◌∷◌, ◌++◌, arith, u32_max, u64_max, ==_refl,
  nat_ord, list_ord, pair_ord, length, length-append,
}
use thingd.Thingdb.Codec.{ok, to_be_bytes, read_u64, read_u32}
use thingd.Thingdb.Codec.Laws.{
  At, At-next, range_At, Fits, prefixed, read_u64-At, read_u32-At, read_byte-At, read_bytes-At,
  length-to_be_bytes, from_be_bytes-to_be_bytes,
}
use thingd.Thingdb.Wal.{
  Operation, put, delete, read_operation, read_operations, check_frame, verify_checksum,
}
use thingd.Thingdb.Wal.Frame.{
  operation_bytes, operations_bytes, body_bytes, payload_bytes, frame_bytes,
}

-- Past two parts that stand one after the other.
At-skip :
    (bytes a b rest : Bytes) (cursor : ℕ)
    → At bytes cursor ((a ++ b) ++ rest)
    → At bytes (cursor + length a) (b ++ rest)
At-skip bytes a b rest cursor h =
    At-next bytes a (b ++ rest) cursor (rw (← append_assoc a b rest) h)

read_operation-At :
    (bytes rest : Bytes) (cursor : ℕ) (op : Operation)
    → Fits bytes
    → At bytes cursor (operation_bytes op ++ rest)
    → read_operation bytes cursor ≡ ok (op, cursor + length (operation_bytes op))
unfolding read_operation
read_operation-At bytes rest cursor (put key value) fits at =
    let at1 = At-next bytes (1 ∷ []) ((prefixed key ++ prefixed value) ++ rest) cursor at in
    let at1' : At bytes (cursor + 1) (prefixed key ++ (prefixed value ++ rest)) =
      rw (← append_assoc (prefixed key) (prefixed value) rest) at1 in
    let at2 = At-next bytes (prefixed key) (prefixed value ++ rest) (cursor + 1) at1' in
    ground (
      arith,
      read_byte-At bytes ((prefixed key ++ prefixed value) ++ rest) cursor 1 at,
      read_bytes-At bytes key (prefixed value ++ rest) (cursor + 1) fits at1',
      read_bytes-At bytes value rest (cursor + 1 + length (prefixed key)) fits at2,
      length-append (prefixed key) (prefixed value),
    )
read_operation-At bytes rest cursor (delete key) fits at =
    let at1 = At-next bytes (2 ∷ []) ((prefixed key ++ to_be_bytes 8 0) ++ rest) cursor at in
    let at1' : At bytes (cursor + 1) (prefixed key ++ (prefixed [] ++ rest)) =
      rw (append-nil (to_be_bytes 8 0), ← append_assoc (prefixed key) (to_be_bytes 8 0) rest) at1 in
    let at2 = At-next bytes (prefixed key) (prefixed [] ++ rest) (cursor + 1) at1' in
    ground (
      arith,
      read_byte-At bytes ((prefixed key ++ to_be_bytes 8 0) ++ rest) cursor 2 at,
      read_bytes-At bytes key (prefixed [] ++ rest) (cursor + 1) fits at1',
      read_bytes-At bytes [] rest (cursor + 1 + length (prefixed key)) fits at2,
      length-append (prefixed key) (to_be_bytes 8 0),
      ap length (append-nil (to_be_bytes 8 0)),
    )

read_operations-At :
    (bytes rest : Bytes) (cursor : ℕ) (ops : List Operation)
    → Fits bytes
    → At bytes cursor (operations_bytes ops ++ rest)
    → read_operations (length ops) bytes cursor ≡ ok (ops, cursor + length (operations_bytes ops))
unfolding read_operations operations_bytes
read_operations-At bytes rest cursor [] fits at = ground arith
read_operations-At bytes rest cursor (op ∷ ops) fits at =
    let first : At bytes cursor (operation_bytes op ++ (operations_bytes ops ++ rest)) =
      rw (← append_assoc (operation_bytes op) (operations_bytes ops) rest) at in
    ground (
      arith,
      read_operation-At bytes (operations_bytes ops ++ rest) cursor op fits first,
      read_operations-At bytes rest (cursor + length (operation_bytes op)) ops fits
          (At-next bytes (operation_bytes op) (operations_bytes ops ++ rest) cursor first),
      length-append (operation_bytes op) (operations_bytes ops),
    )

pub At-eq :
    (bytes : Bytes) (cursor : ℕ) (a b : Bytes) → a ≡ b → At bytes cursor a → At bytes cursor b
At-eq bytes cursor a b e at = rw e at at

-- A frame passes its checks where each of its parts is read and the checksum agrees.
check_frame_reads :
    (checksum : Bytes → ℕ) (bytes : Bytes) (cursor size sequence : ℕ) (ops : List Operation)
    → read_u64 bytes cursor ≡ ok (sequence, cursor + 8)
    → read_u32 bytes (cursor + 8) ≡ ok (length ops, cursor + 8 + 4)
    → read_operations (length ops) bytes (cursor + 8 + 4)
      ≡ ok (ops, cursor + 8 + 4 + length (operations_bytes ops))
    → cursor + 8 + 4 + length (operations_bytes ops) ≡ cursor + size - 4
    → verify_checksum checksum bytes cursor (cursor + size - 4) (cursor + size) ≡ ok tt
    → check_frame checksum bytes cursor size ≡ ok (sequence, ops, cursor + size)
unfolding check_frame
check_frame_reads checksum bytes cursor size sequence ops a b c d e =
    rw (a, b, c, d, ==_refl (cursor + size - 4), e) refl

pub length-body_bytes :
    (sequence : ℕ) (ops : List Operation)
    → length (body_bytes sequence ops) ≡ 12 + length (operations_bytes ops)
length-body_bytes sequence ops = omega (
  arith,
  length-append (to_be_bytes 8 sequence) (to_be_bytes 4 (length ops) ++ operations_bytes ops),
  length-append (to_be_bytes 4 (length ops)) (operations_bytes ops),
  length-to_be_bytes 8 sequence,
  length-to_be_bytes 4 (length ops),
)

module _ (checksum : Bytes → ℕ) (crc : (b : Bytes) → checksum b ≤ u32_max) where
  pub length-payload_bytes :
      (sequence : ℕ) (ops : List Operation)
      → length (payload_bytes checksum sequence ops) ≡ length (body_bytes sequence ops) + 4
  length-payload_bytes sequence ops = omega (
    arith,
    length-append (body_bytes sequence ops) (to_be_bytes 4 (checksum (body_bytes sequence ops))),
    length-to_be_bytes 4 (checksum (body_bytes sequence ops)),
  )

  verify_checksum-At :
      (bytes rest : Bytes) (cursor sequence size : ℕ) (ops : List Operation)
      → At bytes cursor (payload_bytes checksum sequence ops ++ rest)
      → size ≡ length (body_bytes sequence ops) + 4
      → verify_checksum checksum bytes cursor (cursor + size - 4) (cursor + size) ≡ ok tt
  unfolding verify_checksum
  verify_checksum-At bytes rest cursor sequence size ops at e =
      rw
        (
          place,
          sized,
          range_At bytes sum rest (cursor + length body) 4
              (At-next bytes body (sum ++ rest) cursor whole)
              (length-to_be_bytes 4 (checksum body)),
          range_At bytes body (sum ++ rest) cursor (length body) whole refl,
          from_be_bytes-to_be_bytes 4 (checksum body) (omega (arith, crc body)),
          ==_refl (checksum body),
        )
        refl
    where
      body : Bytes
      body = body_bytes sequence ops

      sum : Bytes
      sum = to_be_bytes 4 (checksum body)

      whole : At bytes cursor (body ++ (sum ++ rest))
      whole = rw (← append_assoc body sum rest) at

      place : cursor + size - 4 ≡ cursor + length body
      place = omega (arith, e)

      sized : cursor + size ≡ cursor + length body + 4
      sized = omega (arith, e)

  pub check_frame-At :
      (bytes rest : Bytes) (cursor sequence : ℕ) (ops : List Operation)
      → Fits bytes
      → sequence ≤ u64_max
      → length ops ≤ u32_max
      → At bytes cursor (payload_bytes checksum sequence ops ++ rest)
      → check_frame checksum bytes cursor (length (payload_bytes checksum sequence ops))
        ≡ ok (sequence, ops, cursor + length (payload_bytes checksum sequence ops))
  check_frame-At bytes rest cursor sequence ops fits s n at =
      checked (length (payload_bytes checksum sequence ops)) (length-payload_bytes sequence ops)
        (length-body_bytes sequence ops)
    where
      sum : Bytes
      sum = to_be_bytes 4 (checksum (body_bytes sequence ops))

      at1 : At bytes cursor (
          to_be_bytes 8 sequence
          ++ (to_be_bytes 4 (length ops) ++ (operations_bytes ops ++ (sum ++ rest))))
      at1 = At-eq bytes cursor _ _ (simp append_assoc) at

      at2 :
          At bytes
            (cursor + 8)
            (to_be_bytes 4 (length ops) ++ (operations_bytes ops ++ (sum ++ rest)))
      at2 =
          rw (length-to_be_bytes 8 sequence) at
            (At-next bytes (to_be_bytes 8 sequence) _ cursor at1)

      at3 : At bytes (cursor + 8 + 4) (operations_bytes ops ++ (sum ++ rest))
      at3 =
          rw (length-to_be_bytes 4 (length ops)) at
            (At-next bytes (to_be_bytes 4 (length ops)) _ (cursor + 8) at2)

      checked :
          (size : ℕ)
          → size ≡ length (body_bytes sequence ops) + 4
          → length (body_bytes sequence ops) ≡ 12 + length (operations_bytes ops)
          → check_frame checksum bytes cursor size ≡ ok (sequence, ops, cursor + size)
      checked size e f =
          check_frame_reads checksum bytes cursor size sequence ops
            (read_u64-At bytes _ cursor fits sequence at1 s)
            (read_u32-At bytes _ (cursor + 8) fits (length ops) at2 n)
            (read_operations-At bytes (sum ++ rest) (cursor + 8 + 4) ops fits at3)
            (omega (arith, e, f)) (verify_checksum-At bytes rest cursor sequence size ops at e)

  pub length-frame_bytes :
      (sequence : ℕ) (ops : List Operation)
      → length (frame_bytes checksum sequence ops)
        ≡ 16 + length (payload_bytes checksum sequence ops)
  length-frame_bytes sequence ops = omega (
    arith,
    length-append (to_be_bytes 8 (length (payload_bytes checksum sequence ops)))
        (payload_bytes checksum sequence ops),
    length-to_be_bytes 8 (length (payload_bytes checksum sequence ops)),
  )
