-- ===== src/Thingdb/Codec/Laws.antt =====
-- What is written is read back, whatever stands before and after it.
use mathlib.Core.List.{append_assoc}
use native.Mathlib.Nat.{pow-suc}
use thingd.Base.{
  ℕ, zero, suc, ◌+◌, ◌-◌, ◌*◌, ◌/◌, ◌%◌, ◌^◌, ◌≤◌, ◌<◌, Bytes, ◌≡◌, refl, sym, ap, ◌∙◌, some, [],
  ◌∷◌, ◌++◌, arith, u32_max, u64_max, nat_ord, list_ord, pair_ord, length, take, drop,
  length-append, take-append, drop-append,
}
use thingd.Thingdb.Codec.{
  ok, to_be_bytes, be_bytes_from, from_be_bytes, slice, slice_or, checked_add, byte_at, read_byte,
  read_u32, read_u64, read_bytes,
}

pub length-to_be_bytes : (width n : ℕ) → length (to_be_bytes width n) ≡ width
unfolding to_be_bytes
length-to_be_bytes zero n = refl
length-to_be_bytes (suc width) n = omega (
  arith,
  length-append (to_be_bytes width (n / 256)) (n % 256 ∷ []),
  length-to_be_bytes width (n / 256),
)

be_bytes_from-append :
    (acc b : ℕ) (bs : Bytes) → be_bytes_from acc (bs ++ b ∷ []) ≡ be_bytes_from acc bs * 256 + b
unfolding be_bytes_from
be_bytes_from-append acc b [] = refl
be_bytes_from-append acc b (c ∷ bs) = be_bytes_from-append (acc * 256 + c) b bs

-- An integer that fits its width is read back.
pub from_be_bytes-to_be_bytes :
    (width n : ℕ) → n < 256 ^ width → from_be_bytes (to_be_bytes width n) ≡ n
unfolding to_be_bytes
from_be_bytes-to_be_bytes zero n h = unfold be_bytes_from in omega arith
from_be_bytes-to_be_bytes (suc width) n h =
    rw
      (
        be_bytes_from-append 0 (n % 256) (to_be_bytes width (n / 256)),
        from_be_bytes-to_be_bytes width (n / 256) small,
      )
      (omega arith)
  where
    small : n / 256 < 256 ^ width
    small = let e : 256 ^ suc width ≡ 256 ^ width * 256 = pow-suc 256 width in omega (arith, e)

-- What the bytes hold from a cursor on.
abbrev pub At : Bytes → ℕ → Bytes → Type 0
At bytes cursor rest = (drop cursor bytes ≡ rest) × (cursor + length rest ≡ length bytes)

drop-drop : (m n : ℕ) (xs : Bytes) → drop (m + n) xs ≡ drop n (drop m xs)
drop-drop zero n xs = ap (λ (k : ℕ). drop k xs) (omega arith)
drop-drop (suc m) n [] =
    ap (λ (k : ℕ). drop k []) {x = suc m + n} {y = suc (m + n)} (omega arith) ∙ sym (drop-nil n)
  where
    drop-nil : (n : ℕ) → drop {A = ℕ} n [] ≡ []
    drop-nil zero = refl
    drop-nil (suc n) = refl
drop-drop (suc m) n (x ∷ xs) =
    ap (λ (k : ℕ). drop k (x ∷ xs)) {x = suc m + n} {y = suc (m + n)} (omega arith)
    ∙ drop-drop m n xs

pub At-zero : (bytes : Bytes) → At bytes 0 bytes
At-zero bytes = (refl, omega arith)

-- Past what was read.
pub At-next :
    (bytes part rest : Bytes) (cursor : ℕ)
    → At bytes cursor (part ++ rest)
    → At bytes (cursor + length part) rest
At-next bytes part rest cursor h = (
  drop-drop cursor (length part) bytes ∙ ap (drop (length part)) (h.0) ∙ drop-append part rest,
  omega (arith, h.1, length-append part rest),
)

pub range_At :
    (bytes part rest : Bytes) (cursor size : ℕ)
    → At bytes cursor (part ++ rest)
    → length part ≡ size
    → take (cursor + size - cursor) (drop cursor bytes) ≡ part
range_At bytes part rest cursor size h e = rw (h.0) (
    ap (λ (k : ℕ). take k (part ++ rest)) {x = cursor + size - cursor} {y = length part}
      (omega arith)
    ∙ take-append part rest)

slice-At :
    (bytes part rest : Bytes) (cursor size : ℕ)
    → At bytes cursor (part ++ rest)
    → length part ≡ size
    → slice bytes cursor (cursor + size) ≡ some part
unfolding slice
slice-At bytes part rest cursor size h e =
    ground (arith, range_At bytes part rest cursor size h e, length-append part rest)

-- The bounds under which the codec works: a buffer that a `usize` indexes.
abbrev pub Fits : Bytes → Type 0
Fits bytes = length bytes ≤ u64_max

module _ (bytes rest : Bytes) (cursor : ℕ) (fits : Fits bytes) where
  pub read_u64-At :
      (n : ℕ)
      → At bytes cursor (to_be_bytes 8 n ++ rest)
      → n ≤ u64_max
      → read_u64 bytes cursor ≡ ok (n, cursor + 8)
  unfolding read_u64 checked_add slice_or
  read_u64-At n at h = ground (
    arith,
    length-append (to_be_bytes 8 n) rest,
    length-to_be_bytes 8 n,
    slice-At bytes (to_be_bytes 8 n) rest cursor 8 at,
    from_be_bytes-to_be_bytes 8 n,
  )

  pub read_u32-At :
      (n : ℕ)
      → At bytes cursor (to_be_bytes 4 n ++ rest)
      → n ≤ u32_max
      → read_u32 bytes cursor ≡ ok (n, cursor + 4)
  unfolding read_u32 checked_add slice_or
  read_u32-At n at h = ground (
    arith,
    length-append (to_be_bytes 4 n) rest,
    length-to_be_bytes 4 n,
    slice-At bytes (to_be_bytes 4 n) rest cursor 4 at,
    from_be_bytes-to_be_bytes 4 n,
  )

byte_at-drop :
    (bytes rest : Bytes) (cursor b : ℕ)
    → drop cursor bytes ≡ b ∷ rest
    → byte_at bytes cursor ≡ some b
unfolding byte_at
byte_at-drop [] rest zero b e = cc
byte_at-drop [] rest (suc cursor) b e = cc
byte_at-drop (x ∷ xs) rest zero b e = cc
byte_at-drop (x ∷ xs) rest (suc cursor) b e = byte_at-drop xs rest cursor b e

pub read_byte-At :
    (bytes rest : Bytes) (cursor b : ℕ)
    → At bytes cursor (b ∷ rest)
    → read_byte bytes cursor ≡ ok (b, cursor + 1)
unfolding read_byte
read_byte-At bytes rest cursor b at = ground (arith, byte_at-drop bytes rest cursor b (at.0))

-- A length-prefixed part, as `write_bytes` writes it.
abbrev pub prefixed : Bytes → Bytes
prefixed part = to_be_bytes 8 (length part) ++ part

pub read_bytes-At :
    (bytes part rest : Bytes) (cursor : ℕ)
    → Fits bytes
    → At bytes cursor (prefixed part ++ rest)
    → read_bytes bytes cursor ≡ ok (part, cursor + length (prefixed part))
unfolding read_bytes checked_add slice_or
read_bytes-At bytes part rest cursor fits at =
    let at' : At bytes cursor (to_be_bytes 8 (length part) ++ (part ++ rest)) =
      rw (← append_assoc (to_be_bytes 8 (length part)) part rest) at in
    let next = At-next bytes (to_be_bytes 8 (length part)) (part ++ rest) cursor at' in
    let next8 : At bytes (cursor + 8) (part ++ rest) =
      rw (length-to_be_bytes 8 (length part)) at next in
    ground (
      arith,
      length-append part rest,
      length-append (to_be_bytes 8 (length part)) part,
      length-to_be_bytes 8 (length part),
      read_u64-At bytes (part ++ rest) cursor fits (length part) at',
      slice-At bytes part rest (cursor + 8) (length part) next8 refl,
      next8.1,
    )
