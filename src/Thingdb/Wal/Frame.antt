-- ===== src/Thingdb/Wal/Frame.antt =====
-- The bytes of a frame, written out, and that the encoder writes them.
use mathlib.Core.List.{append_assoc, append-nil}
use thingd.Base.{
  ℕ, ◌+◌, ◌-◌, ◌≤◌, Bytes, ◌≡◌, refl, sym, ap, ◌∙◌, inl, inr, List, [], ◌∷◌, ◌++◌, arith, leb,
  leb→le, Bool-cases, u32_max, nat_ord, list_ord, pair_ord, length, drop, length-append,
  take-append, drop-append,
}
use thingd.Thingdb.Codec.{Result, ok, err, ◌>>=◌, to_be_bytes, write_u32, write_u64, write_bytes}
use thingd.Thingdb.Codec.Laws.{prefixed, length-to_be_bytes}
use thingd.Thingdb.Wal.{
  Operation, put, delete, wal_magic, encode_operation, encode_operations, patch, seal_frame,
  encode_frame_into, encode_frame,
}

abbrev pub operation_bytes : Operation → Bytes
operation_bytes (put key value) = 1 ∷ (prefixed key ++ prefixed value)
operation_bytes (delete key) = 2 ∷ (prefixed key ++ to_be_bytes 8 0)

unfoldable pub operations_bytes : List Operation → Bytes
operations_bytes [] = []
operations_bytes (op ∷ ops) = operation_bytes op ++ operations_bytes ops

abbrev pub body_bytes : ℕ → List Operation → Bytes
body_bytes sequence ops =
    to_be_bytes 8 sequence ++ (to_be_bytes 4 (length ops) ++ operations_bytes ops)

module _ (checksum : Bytes → ℕ) where
  abbrev pub payload_bytes : ℕ → List Operation → Bytes
  payload_bytes sequence ops =
      body_bytes sequence ops ++ to_be_bytes 4 (checksum (body_bytes sequence ops))

  abbrev pub frame_bytes : ℕ → List Operation → Bytes
  frame_bytes sequence ops =
      wal_magic
      ++ (to_be_bytes 8 (length (payload_bytes sequence ops)) ++ payload_bytes sequence ops)

write_bytes-eq :
    (output part out : Bytes) → write_bytes output part ≡ ok out → out ≡ output ++ prefixed part
unfolding write_bytes write_u64
write_bytes-eq output part out e =
    ground (arith, append_assoc output (to_be_bytes 8 (length part)) part)

encode_operation-eq :
    (output : Bytes) (op : Operation) (out : Bytes)
    → encode_operation output op ≡ ok out
    → out ≡ output ++ operation_bytes op
unfolding encode_operation write_u64
encode_operation-eq output (put key value) out e = two (write_bytes (output ++ 1 ∷ []) key) refl e
  where
    two :
        (r : Result Bytes)
        → write_bytes (output ++ 1 ∷ []) key ≡ r
        → (r >>= λ o. write_bytes o value) ≡ ok out
        → out ≡ output ++ operation_bytes (put key value)
    two (err x) f g = cc
    two (ok o) f g =
        write_bytes-eq o value out g
        ∙ ap (λ (y : Bytes). y ++ prefixed value) (write_bytes-eq _ key o f)
        ∙ simp append_assoc
encode_operation-eq output (delete key) out e = two (write_bytes (output ++ 2 ∷ []) key) refl e
  where
    two :
        (r : Result Bytes)
        → write_bytes (output ++ 2 ∷ []) key ≡ r
        → (r >>= λ o. ok (o ++ to_be_bytes 8 0)) ≡ ok out
        → out ≡ output ++ operation_bytes (delete key)
    two (err x) f g = cc
    two (ok o) f g =
        let given : out ≡ o ++ to_be_bytes 8 0 = cc in
        given
        ∙ ap (λ (y : Bytes). y ++ to_be_bytes 8 0) (write_bytes-eq _ key o f)
        ∙ simp append_assoc

encode_operations-eq :
    (output : Bytes) (ops : List Operation) (out : Bytes)
    → encode_operations output ops ≡ ok out
    → out ≡ output ++ operations_bytes ops
unfolding encode_operations operations_bytes
encode_operations-eq output [] out e =
    let given : output ≡ out = cc in sym given ∙ sym (append-nil output)
encode_operations-eq output (op ∷ ops) out e =
    next (encode_operation output op) refl e (λ o. encode_operations-eq o ops out)
  where
    next :
        (r : Result Bytes)
        → encode_operation output op ≡ r
        → (r >>= λ o. encode_operations o ops) ≡ ok out
        → ((o : Bytes) → encode_operations o ops ≡ ok out → out ≡ o ++ operations_bytes ops)
        → out ≡ output ++ (operation_bytes op ++ operations_bytes ops)
    next (err x) f g ih = cc
    next (ok o) f g ih =
        ih o g
        ∙ ap (λ (y : Bytes). y ++ operations_bytes ops) (encode_operation-eq output op o f)
        ∙ append_assoc output (operation_bytes op) (operations_bytes ops)

patch_at :
    (pre old new post : Bytes)
    → length new ≡ length old
    → patch (pre ++ (old ++ post)) (length pre) new ≡ pre ++ (new ++ post)
unfolding patch
patch_at pre old new post e = rw (take-append pre (old ++ post)) (
    ap (λ (y : Bytes). pre ++ (new ++ y))
      (ap (λ (k : ℕ). drop k (pre ++ (old ++ post))) {x = length pre + length new}
          {y = length (pre ++ old)} (omega (arith, length-append pre old))
        ∙ ap (drop (length (pre ++ old))) (sym (append_assoc pre old post))
        ∙ drop-append (pre ++ old) post))

abbrev opened : Bytes
opened = wal_magic ++ to_be_bytes 8 0

start : ℕ → List Operation → Bytes
start sequence ops = (opened ++ to_be_bytes 8 sequence) ++ to_be_bytes 4 (length ops)

start_body :
    (sequence : ℕ) (ops : List Operation)
    → start sequence ops ++ operations_bytes ops ≡ opened ++ body_bytes sequence ops
unfolding start
start_body sequence ops = simp append_assoc

-- The length goes into the place kept for it.
patch-length :
    (m z b c : Bytes)
    → length z ≡ 8
    → patch
        (((m ++ z) ++ b) ++ c)
        (length m)
        (to_be_bytes 8 (length (((m ++ z) ++ b) ++ c) - length (m ++ z)))
      ≡ m ++ (to_be_bytes 8 (length (b ++ c)) ++ (b ++ c))
patch-length m z b c e =
    ap (λ (n : ℕ). patch (((m ++ z) ++ b) ++ c) (length m) (to_be_bytes 8 n)) {y = length (b ++ c)}
      (omega (arith, length-append ((m ++ z) ++ b) c, length-append (m ++ z) b, length-append b c))
    ∙ ap (λ (y : Bytes). patch y (length m) (to_be_bytes 8 (length (b ++ c))))
        {y = m ++ (z ++ (b ++ c))} (simp append_assoc)
    ∙ patch_at m z _ (b ++ c) (length-to_be_bytes 8 (length (b ++ c)) ∙ sym e)

module _ (checksum : Bytes → ℕ) where
  sealed-eq :
      (sequence : ℕ) (ops : List Operation)
      → let output =
          (opened ++ body_bytes sequence ops)
          ++ to_be_bytes 4 (checksum (drop (length opened) (opened ++ body_bytes sequence ops))) in
        patch output (length wal_magic) (to_be_bytes 8 (length output - length opened))
        ≡ frame_bytes checksum sequence ops
  sealed-eq sequence ops = rw (drop-append opened (body_bytes sequence ops)) (
      patch-length wal_magic (to_be_bytes 8 0) (body_bytes sequence ops)
        (to_be_bytes 4 (checksum (body_bytes sequence ops))) (length-to_be_bytes 8 0))

  seal_frame-eq :
      (sequence : ℕ) (ops : List Operation) (o out : Bytes)
      → o ≡ opened ++ body_bytes sequence ops
      → seal_frame checksum o (length wal_magic) (length opened) ≡ ok out
      → out ≡ frame_bytes checksum sequence ops
  unfolding seal_frame write_u32
  seal_frame-eq sequence ops o out e h = ground (arith, sealed-eq sequence ops, rw e at h)

  -- What the encoder returns, and that the number of operations fits its field.
  pub encode_frame-eq :
      (sequence : ℕ) (ops : List Operation) (out : Bytes)
      → encode_frame checksum sequence ops ≡ ok out
      → (out ≡ frame_bytes checksum sequence ops) × (length ops ≤ u32_max)
  unfolding encode_frame encode_frame_into write_u32 write_u64 start
  encode_frame-eq sequence ops out e = elim (Bool-cases (leb (length ops) u32_max)) [
    | inr over ↦ absurd (ground arith)
    | inl fits ↦ (
      written (encode_operations (start sequence ops) ops) refl
          (rw (fits, encode_frame, encode_frame_into) at e),
      leb→le _ _ fits,
    )
  ]
    where
      written :
          (r : Result Bytes)
          → encode_operations (start sequence ops) ops ≡ r
          → (r >>= λ o. seal_frame checksum o (length wal_magic) (length opened)) ≡ ok out
          → out ≡ frame_bytes checksum sequence ops
      written (err x) f g = cc
      written (ok o) f g =
          seal_frame-eq sequence ops o out
            (encode_operations-eq (start sequence ops) ops o f ∙ start_body sequence ops) g
