-- ===== src/Thingdb/Wal/Frames.antt =====
-- One round of the replay, at a whole frame and at one that a crash cut short.
use mathlib.Core.List.{append_assoc}
use thingd.Base.{
  ℕ, suc, ◌+◌, ◌-◌, ◌≤◌, ◌<◌, Bytes, ◌≡◌, refl, sym, ap, ◌∙◌, inl, inr, none, some, List, [], ◌∷◌,
  ◌++◌, arith, ltb, ltb→lt, lt→ltb, Bool-cases, if◌then◌else◌, u32_max, u64_max, ==_refl, nat_ord,
  list_ord, pair_ord, length, take, length-append, length-take,
}
use thingd.Thingdb.Codec.{ok, ◌>>=◌, to_be_bytes, read_u64}
use thingd.Thingdb.Codec.Laws.{At, At-next, range_At, Fits, read_u64-At, length-to_be_bytes}
use thingd.Thingdb.Wal.{Operation, wal_magic, range, check_frame, frame_at}
use thingd.Thingdb.Wal.Frame.{payload_bytes, frame_bytes}
use thingd.Thingdb.Wal.Reading.{
  At-eq, length-body_bytes, length-payload_bytes, length-frame_bytes, check_frame-At,
}

pub take-append_add : (a b : Bytes) (m : ℕ) → take (length a + m) (a ++ b) ≡ a ++ take m b
take-append_add [] b m = ap (λ (k : ℕ). take k b) {x = 0 + m} {y = m} (omega arith)
take-append_add (x ∷ a) b m =
    ap (λ (k : ℕ). take k (x ∷ (a ++ b))) {x = suc (length a) + m} {y = suc (length a + m)}
      (omega arith)
    ∙ ap (◌∷◌ x) (take-append_add a b m)

module _ (checksum : Bytes → ℕ) where
  -- A round whose magic and length have been read.
  frame_at_reads :
      (bytes : Bytes) (cursor size : ℕ)
      → cursor + 16 ≤ length bytes
      → range bytes cursor (cursor + 8) ≡ wal_magic
      → read_u64 bytes (cursor + 8) ≡ ok (size, cursor + 8 + 8)
      → 12 ≤ size
      → frame_at checksum bytes cursor ≡ (
          if ltb (length bytes - (cursor + 8 + 8)) size
          then ok none
          else check_frame checksum bytes (cursor + 8 + 8) size >>= λ frame. ok (some frame))
  unfolding frame_at
  frame_at_reads bytes cursor size room magic len big =
      ground (arith, magic, len, ==_refl wal_magic)

  module _ (crc : (b : Bytes) → checksum b ≤ u32_max) where
    -- The magic and the length, at the front of what the log holds.
    header_At :
        (bytes tail : Bytes) (cursor size : ℕ)
        → Fits bytes
        → size ≤ u64_max
        → At bytes cursor (wal_magic ++ (to_be_bytes 8 size ++ tail))
        → (range bytes cursor (cursor + 8) ≡ wal_magic)
          × (read_u64 bytes (cursor + 8) ≡ ok (size, cursor + 8 + 8))
          × At bytes (cursor + 8 + 8) tail
    header_At bytes tail cursor size fits small at = (
      range_At bytes wal_magic (to_be_bytes 8 size ++ tail) cursor 8 at refl,
      read_u64-At bytes tail (cursor + 8) fits size past small,
      rw (length-to_be_bytes 8 size) at (At-next bytes (to_be_bytes 8 size) tail (cursor + 8) past),
    )
      where
        past : At bytes (cursor + 8) (to_be_bytes 8 size ++ tail)
        past = At-next bytes wal_magic (to_be_bytes 8 size ++ tail) cursor at

    payload_big :
        (sequence : ℕ) (ops : List Operation) → 12 ≤ length (payload_bytes checksum sequence ops)
    payload_big sequence ops =
        omega
          (arith, length-payload_bytes checksum crc sequence ops, length-body_bytes sequence ops)

    pub frame_at_whole :
        (bytes rest : Bytes) (cursor sequence : ℕ) (ops : List Operation)
        → Fits bytes
        → sequence ≤ u64_max
        → length ops ≤ u32_max
        → At bytes cursor (frame_bytes checksum sequence ops ++ rest)
        → frame_at checksum bytes cursor
          ≡ ok (some (sequence, ops, cursor + length (frame_bytes checksum sequence ops)))
    frame_at_whole bytes rest cursor sequence ops fits s n at =
        let size = length (payload_bytes checksum sequence ops) in
        let front : At bytes cursor
            (wal_magic ++ (to_be_bytes 8 size ++ (payload_bytes checksum sequence ops ++ rest))) =
          At-eq bytes cursor _ _ (simp append_assoc) at in
        let total = length-append (payload_bytes checksum sequence ops) rest in
        let prefix =
          length-append (to_be_bytes 8 size) (payload_bytes checksum sequence ops ++ rest) in
        let width = length-to_be_bytes 8 size in
        let (magic, len, past) =
          header_At bytes (payload_bytes checksum sequence ops ++ rest) cursor size fits
            (omega (arith, front.1, total, prefix)) front in
        frame_at_reads bytes cursor size (omega (arith, past.1)) magic len
          (payload_big sequence ops)
        ∙ whole_if bytes cursor size (omega (arith, past.1, total))
            (check_frame-At checksum crc bytes rest (cursor + 8 + 8) sequence ops fits s n past)
            (omega (arith, length-frame_bytes checksum crc sequence ops))
      where
        whole_if :
            (bytes : Bytes) (cursor size : ℕ)
            → cursor + 8 + 8 + size ≤ length bytes
            → check_frame checksum bytes (cursor + 8 + 8) size
              ≡ ok (sequence, ops, cursor + 8 + 8 + size)
            → cursor + 8 + 8 + size ≡ cursor + length (frame_bytes checksum sequence ops)
            → (if ltb (length bytes - (cursor + 8 + 8)) size
                then ok none
                else check_frame checksum bytes (cursor + 8 + 8) size >>= λ frame. ok (some frame))
              ≡ ok (some (sequence, ops, cursor + length (frame_bytes checksum sequence ops)))
        whole_if bytes cursor size room e f = rw (e, ← f) (ground arith)

    torn_long :
        (bytes : Bytes) (cursor sequence m : ℕ) (ops : List Operation)
        → Fits bytes
        → length (payload_bytes checksum sequence ops) ≤ u64_max
        → m < length (payload_bytes checksum sequence ops)
        → At bytes cursor (take (16 + m) (frame_bytes checksum sequence ops))
        → frame_at checksum bytes cursor ≡ ok none
    torn_long bytes cursor sequence m ops fits small short at =
        let size = length (payload_bytes checksum sequence ops) in
        let cut : take (16 + m) (frame_bytes checksum sequence ops)
            ≡ wal_magic ++ (to_be_bytes 8 size ++ take m (payload_bytes checksum sequence ops)) =
          ap (λ (k : ℕ). take k (frame_bytes checksum sequence ops)) {x = 16 + m} {y = 8 + (8 + m)}
            (omega arith)
          ∙ take-append_add wal_magic (to_be_bytes 8 size ++ payload_bytes checksum sequence ops)
              (8 + m)
          ∙ ap (λ (y : Bytes). wal_magic ++ y)
              (ap
                  (λ (k : ℕ).
                    take (k + m) (to_be_bytes 8 size ++ payload_bytes checksum sequence ops))
                  {y = length (to_be_bytes 8 size)} (sym (length-to_be_bytes 8 size))
                ∙ take-append_add (to_be_bytes 8 size) (payload_bytes checksum sequence ops) m) in
        let (magic, len, past) =
          header_At bytes (take m (payload_bytes checksum sequence ops)) cursor size fits small
            (At-eq bytes cursor _ _ cut at) in
        frame_at_reads bytes cursor size (omega (arith, past.1)) magic len
          (payload_big sequence ops)
        ∙ rw
            (lt→ltb (length bytes - (cursor + 8 + 8)) size
              (omega (arith, past.1, length-take m (payload_bytes checksum sequence ops))))
            refl

    torn_short :
        (bytes tail : Bytes) (cursor : ℕ)
        → At bytes cursor tail
        → length tail < 16
        → frame_at checksum bytes cursor ≡ ok none
    unfolding frame_at
    torn_short bytes tail cursor at short = ground (arith, at.1)

    -- A frame of which only the front was written is not read, and is no error.
    pub frame_at_torn :
        (bytes : Bytes) (cursor sequence n : ℕ) (ops : List Operation)
        → Fits bytes
        → length (frame_bytes checksum sequence ops) ≤ u64_max
        → n < length (frame_bytes checksum sequence ops)
        → At bytes cursor (take n (frame_bytes checksum sequence ops))
        → frame_at checksum bytes cursor ≡ ok none
    frame_at_torn bytes cursor sequence n ops fits small short at = elim (Bool-cases (ltb n 16)) [
      | inl e ↦
          torn_short bytes (take n (frame_bytes checksum sequence ops)) cursor at
            (omega (arith, ltb→lt n 16 e, length-take n (frame_bytes checksum sequence ops)))
      | inr e ↦
          let whole = length-frame_bytes checksum crc sequence ops in
          let big : 16 ≤ n = ground arith in
          let split : n ≡ 16 + (n - 16) = omega (arith, big) in
          torn_long bytes cursor sequence (n - 16) ops fits (omega (arith, whole))
            (omega (arith, whole, big))
            (At-eq bytes cursor _ _
              (ap (λ (k : ℕ). take k (frame_bytes checksum sequence ops)) split) at)
    ]
