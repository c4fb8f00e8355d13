-- ===== src/Thingdb/Codec.antt =====
-- The byte codec of crates/thingdb/src/lib.rs. A reader takes the bytes and its cursor, and returns
-- the value beside the cursor after it. A `usize` is taken to be 64 bits wide.
pub mod Laws
use thingd.Base.{
  ℕ, zero, suc, ◌+◌, ◌-◌, ◌*◌, ◌/◌, ◌%◌, ◌^◌, ◌≤◌, ◌<◌, min, max, Bytes, codes, ◌≡◌, refl, sym, ap,
  ◌∙◌, ◌≢◌, ◌↔◌, ◌⊎◌, inl, inr, Bool, true, false, not, ◌&&◌, ◌||◌, Option, none, some, List, [],
  ◌∷◌, ◌++◌, map, arith, ltb, leb, nat_beq, ltb→lt, lt→ltb, leb→le, le→leb, Bool-cases,
  Option-cases, if◌then◌else◌, u32_max, u64_max, i64_max, sat_add, Ord, ◌==◌, ◌<?◌, ==_iff, ==_refl,
  nat_ord, list_ord, pair_ord, list_beq, list_blt, length, take, drop, find, any, all, filter,
  last?, All, In, Empty, update_find, find-test, find-In, find-none-In, length-append, length-take,
  length-drop, take-append, drop-append, length-filter-le, contains, starts_with,
  starts_with-append,
}

-- The messages of `Error`, one constructor for each that the modelled code can give; `out_of_fuel`
-- is the model's own, and stands for a loop that was given too few rounds.
pub data Error : Type 0 where
  truncated_record length_overflow value_length_overflow truncated_value value_too_large : Error
  too_many_operations frame_too_large invalid_magic invalid_frame_length : Error
  invalid_operation invalid_frame invalid_payload_length checksum_mismatch : Error
  invalid_memory_key invalid_memory_keyspace : Error
  requires_recovery file_failure : Error
  out_of_fuel : Error

pub data Result {ℓ} (T : Type ℓ) : Type ℓ where
  err : Error → Result T
  ok : T → Result T

-- `?`: an error ends the function, a value goes on.
infixl 5 ◌>>=◌
abbrev pub ◌>>=◌ {ℓ ℓ'} : {T : Type ℓ} {U : Type ℓ'} → Result T → (T → Result U) → Result U
err error >>= next = err error
ok value >>= next = next value

infixl 5 ◌>>◌
abbrev pub ◌>>◌ {ℓ'} : {U : Type ℓ'} → Result (Unit {0}) → Result U → Result U
first >> second = first >>= λ done. second

-- An early `return Err(e)` unless the test passes.
abbrev pub ensure : Bool → Error → Result (Unit {0})
ensure true e = ok tt
ensure false e = err e

-- `to_be_bytes` of an integer of `width` bytes, and `from_be_bytes`.
unfoldable pub to_be_bytes : ℕ → ℕ → Bytes
to_be_bytes zero n = []
to_be_bytes (suc width) n = to_be_bytes width (n / 256) ++ n % 256 ∷ []

unfoldable pub be_bytes_from : ℕ → Bytes → ℕ
be_bytes_from acc [] = acc
be_bytes_from acc (b ∷ bs) = be_bytes_from (acc * 256 + b) bs

abbrev pub from_be_bytes : Bytes → ℕ
from_be_bytes = be_bytes_from 0

unfoldable pub write_u32 : Bytes → ℕ → Bytes
write_u32 output value = output ++ to_be_bytes 4 value

unfoldable pub write_u64 : Bytes → ℕ → Bytes
write_u64 output value = output ++ to_be_bytes 8 value

unfoldable pub write_bytes : Bytes → Bytes → Result Bytes
write_bytes output bytes = do
  ensure (leb (length bytes) u64_max) value_too_large
  ok (write_u64 output (length bytes) ++ bytes)

-- `bytes.get(start..end)`
unfoldable pub slice : Bytes → ℕ → ℕ → Option Bytes
slice bytes start end =
    if leb start end && leb end (length bytes)
    then some (take (end - start) (drop start bytes))
    else none

unfoldable pub slice_or : Bytes → ℕ → ℕ → Error → Result Bytes
slice_or bytes start end e = elim (slice bytes start end) [ none ↦ err e | some part ↦ ok part ]

-- `checked_add`
unfoldable pub checked_add : ℕ → ℕ → Error → Result ℕ
checked_add a b e = if leb (a + b) u64_max then ok (a + b) else err e

unfoldable pub byte_at : Bytes → ℕ → Option ℕ
byte_at [] i = none
byte_at (b ∷ bs) zero = some b
byte_at (b ∷ bs) (suc i) = byte_at bs i

unfoldable pub read_byte : Bytes → ℕ → Result (ℕ × ℕ)
read_byte bytes cursor = elim (byte_at bytes cursor) [
  | none ↦ err truncated_record
  | some b ↦ ok (b, cursor + 1)
]

unfoldable pub read_u32 : Bytes → ℕ → Result (ℕ × ℕ)
read_u32 bytes cursor = do
  end ← checked_add cursor 4 length_overflow
  value ← slice_or bytes cursor end truncated_record
  ok (from_be_bytes value, end)

unfoldable pub read_u64 : Bytes → ℕ → Result (ℕ × ℕ)
read_u64 bytes cursor = do
  end ← checked_add cursor 8 length_overflow
  value ← slice_or bytes cursor end truncated_record
  ok (from_be_bytes value, end)

unfoldable pub read_bytes : Bytes → ℕ → Result (Bytes × ℕ)
read_bytes bytes cursor = do
  (len, start) ← read_u64 bytes cursor
  end ← checked_add start len value_length_overflow
  value ← slice_or bytes start end truncated_value
  ok (value, end)

unfoldable pub skip_bytes : Bytes → ℕ → Result ℕ
skip_bytes bytes cursor = do
  (len, start) ← read_u64 bytes cursor
  end ← checked_add start len value_length_overflow
  ensure (leb end (length bytes)) truncated_value
  ok end
