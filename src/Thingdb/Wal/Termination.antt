-- ===== src/Thingdb/Wal/Termination.antt =====
-- The replay loop of the write-ahead log always ends within the rounds it is given.
use mathlib.Core.Path.{subst}
use thingd.Base.{
  ℕ, zero, suc, ◌+◌, ◌-◌, ◌<◌, Bytes, ◌≡◌, refl, ◌≢◌, inl, inr, Bool, true, false, Option, none,
  some, List, arith, ltb, leb, ltb→lt, Bool-cases, if◌then◌else◌, u64_max, ◌==◌, nat_ord, list_ord,
  pair_ord, list_beq, length,
}
use thingd.Thingdb.Codec.{
  from_be_bytes, Result, ok, err, Error, ◌>>=◌, ◌>>◌, ensure, slice, slice_or, checked_add,
  read_byte, read_u32, read_u64, read_bytes, out_of_fuel, byte_at, truncated_record,
  invalid_operation, invalid_payload_length, checksum_mismatch, invalid_magic, invalid_frame_length,
}
use thingd.Thingdb.Wal.{
  Operation, put, delete, State, Replay, absorb, wal_magic, range, read_operation, read_operations,
  verify_checksum, check_frame, frame_at, replay_loop, replay_wal,
}

-- A value with the property, or an error of the source.
abbrev Ends {ℓ} : {T : Type ℓ} → (T → Type 0) → Result T → Type 0
Ends P (err error) = error ≢ out_of_fuel
Ends P (ok value) = P value

abbrev Ok {ℓ} : {A : Type ℓ} → A → Type 0
Ok a = Unit

ensure-Ends : (b : Bool) (e : Error) → e ≢ out_of_fuel → Ends Ok (ensure b e)
ensure-Ends true e h = tt
ensure-Ends false e h = h

bind_Ends {ℓ κ} :
    {A : Type ℓ} {B : Type κ} (Q : A → Type 0) (P : B → Type 0) (m : Result A) (f : A → Result B)
    → Ends Q m
    → ((a : A) → Q a → Ends P (f a))
    → Ends P (m >>= f)
bind_Ends Q P (ok a) f h k = k a h
bind_Ends Q P (err e) f h k = h

checked_add-Ends :
    (a b : ℕ) (e : Error) → e ≢ out_of_fuel → Ends (λ n. n ≡ a + b) (checked_add a b e)
unfolding checked_add
checked_add-Ends a b e h = elim (Bool-cases (leb (a + b) u64_max)) [
  | inl y ↦ rw y refl
  | inr y ↦ rw y h
]

slice_or-Ends :
    (bytes : Bytes) (a b : ℕ) (e : Error) → e ≢ out_of_fuel → Ends Ok (slice_or bytes a b e)
unfolding slice_or
slice_or-Ends bytes a b e h = given (slice bytes a b)
  where
    given : (o : Option Bytes) → Ends Ok (elim o [ none ↦ err e | some part ↦ ok part ])
    given none = h
    given (some part) = tt

read_u32-Ends : (bytes : Bytes) (cursor : ℕ) → Ends Ok (read_u32 bytes cursor)
unfolding read_u32
read_u32-Ends bytes cursor =
    bind_Ends (λ n. n ≡ cursor + 4) Ok _ _ (checked_add-Ends cursor 4 _ (λ e. cc))
      (λ end h. bind_Ends Ok Ok _ _ (slice_or-Ends bytes cursor end _ (λ e. cc)) (λ v k. tt))

-- A read that succeeds moves its cursor by its width.
abbrev Moves : ℕ → ℕ × ℕ → Type 0
Moves cursor r = r.1 ≡ cursor + 8

read_u64-Ends : (bytes : Bytes) (cursor : ℕ) → Ends (Moves cursor) (read_u64 bytes cursor)
unfolding read_u64
read_u64-Ends bytes cursor =
    bind_Ends (λ n. n ≡ cursor + 8) (Moves cursor) _ _ (checked_add-Ends cursor 8 _ (λ e. cc))
      (λ end h.
        bind_Ends Ok (Moves cursor) _ _ (slice_or-Ends bytes cursor end _ (λ e. cc)) (λ v k. h))

read_byte-Ends : (bytes : Bytes) (cursor : ℕ) → Ends Ok (read_byte bytes cursor)
unfolding read_byte
read_byte-Ends bytes cursor = given (byte_at bytes cursor)
  where
    given :
        (o : Option ℕ)
        → Ends {T = ℕ × ℕ} Ok (elim o [ none ↦ err truncated_record | some b ↦ ok (b, cursor + 1) ])
    given none = λ e. cc
    given (some b) = tt

read_bytes-Ends : (bytes : Bytes) (cursor : ℕ) → Ends Ok (read_bytes bytes cursor)
unfolding read_bytes
read_bytes-Ends bytes cursor = bind_Ends (Moves cursor) Ok _ _ (read_u64-Ends bytes cursor) (λ a h.
    bind_Ends (λ n. n ≡ a.1 + a.0) Ok _ _ (checked_add-Ends (a.1) (a.0) _ (λ e. cc))
      (λ end h. bind_Ends Ok Ok _ _ (slice_or-Ends bytes (a.1) end _ (λ e. cc)) (λ v k. tt)))

read_operation-Ends : (bytes : Bytes) (cursor : ℕ) → Ends Ok (read_operation bytes cursor)
unfolding read_operation
read_operation-Ends bytes cursor = bind_Ends Ok Ok _ _ (read_byte-Ends bytes cursor) (λ kind h.
    bind_Ends Ok Ok _ _ (read_bytes-Ends bytes (kind.1)) (λ key h.
      bind_Ends Ok Ok _ _ (read_bytes-Ends bytes (key.1))
        (λ value h. given (kind.0 == 1) (kind.0 == 2) (key.0) (value.0) (value.1))))
  where
    given :
        (a b : Bool) (key value : Bytes) (cursor : ℕ)
        → Ends {T = Operation × ℕ} Ok (
            if a
            then ok (put key value, cursor)
            else if b
            then ok (delete key, cursor)
            else err invalid_operation)
    given true b key value cursor = tt
    given false true key value cursor = tt
    given false false key value cursor = λ e. cc

read_operations-Ends :
    (count : ℕ) (bytes : Bytes) (cursor : ℕ) → Ends Ok (read_operations count bytes cursor)
unfolding read_operations
read_operations-Ends zero bytes cursor = tt
read_operations-Ends (suc count) bytes cursor =
    bind_Ends Ok Ok _ _ (read_operation-Ends bytes cursor)
      (λ op h. bind_Ends Ok Ok _ _ (read_operations-Ends count bytes (op.1)) (λ ops k. tt))

-- A frame ends behind the cursor.
abbrev Behind : ℕ → Option (ℕ × List Operation × ℕ) → Type 0
Behind cursor none = Unit
Behind cursor (some frame) = cursor < frame.2

abbrev StopsAt : ℕ → ℕ × List Operation × ℕ → Type 0
StopsAt end frame = frame.2 ≡ end

module _ (checksum : Bytes → ℕ) where
  check_frame-Ends :
      (bytes : Bytes) (start len : ℕ)
      → Ends (StopsAt (start + len)) (check_frame checksum bytes start len)
  unfolding check_frame verify_checksum
  check_frame-Ends bytes start len =
      bind_Ends (Moves start) (StopsAt (start + len)) _ _ (read_u64-Ends bytes start) (λ s h.
        bind_Ends Ok (StopsAt (start + len)) _ _ (read_u32-Ends bytes (s.1)) (λ n h.
          bind_Ends Ok (StopsAt (start + len)) _ _ (read_operations-Ends (n.0) bytes (n.1))
            (λ ops h.
              checked (ops.1 == (start + len - 4))
                (from_be_bytes (range bytes (start + len - 4) (start + len))
                  == checksum (range bytes start (start + len - 4)))
                (s.0, ops.0, start + len))))
    where
      checked :
          (a b : Bool) (r : ℕ × List Operation × ℕ)
          → Ends
              (StopsAt (r.2))
              (ensure a invalid_payload_length >> (ensure b checksum_mismatch >> ok r))
      checked true true r = refl
      checked true false r = λ e. cc
      checked false b r = λ e. cc

  frame_at-Ends :
      (bytes : Bytes) (cursor : ℕ) → Ends (Behind cursor) (frame_at checksum bytes cursor)
  unfolding frame_at
  frame_at-Ends bytes cursor = short (ltb (length bytes - cursor) (length wal_magic + 8))
    where
      rest :
          (body_start frame_len : ℕ)
          → body_start ≡ cursor + length wal_magic + 8
          → (b : Bool)
          → Ends (Behind cursor) (elim b [
            | true ↦ ok none
            | false ↦ check_frame checksum bytes body_start frame_len >>= λ frame. ok (some frame)
          ])
      rest body_start frame_len e true = tt
      rest body_start frame_len e false =
          bind_Ends (StopsAt (body_start + frame_len)) (Behind cursor) _ _
            (check_frame-Ends bytes body_start frame_len) (λ r h. omega (arith, e, h))

      short :
          (b : Bool)
          → Ends (Behind cursor) (elim b [
            | true ↦ ok none
            | false ↦
                ensure
                  (list_beq (range bytes cursor (cursor + length wal_magic)) wal_magic)
                  invalid_magic
                >> (read_u64 bytes (cursor + length wal_magic) >>= λ len.
                    ensure (leb 12 (len.0)) invalid_frame_length
                    >> (elim (ltb (length bytes - len.1) (len.0)) [
                      | true ↦ ok none
                      | false ↦
                          check_frame checksum bytes (len.1) (len.0) >>= λ frame. ok (some frame)
                    ]))
          ])
      short true = tt
      short false =
          bind_Ends Ok (Behind cursor) _ _
            (ensure-Ends (list_beq (range bytes cursor (cursor + length wal_magic)) wal_magic)
              invalid_magic (λ e. cc))
            (λ u h.
              bind_Ends (Moves (cursor + length wal_magic)) (Behind cursor) _ _
                (read_u64-Ends bytes (cursor + length wal_magic))
                (λ len h.
                  bind_Ends Ok (Behind cursor) _ _
                    (ensure-Ends (leb 12 (len.0)) invalid_frame_length (λ e. cc))
                    (λ v k. rest (len.1) (len.0) h (ltb (length bytes - len.1) (len.0)))))

  replay_loop-Ends :
      (fuel : ℕ) (bytes : Bytes) (cursor : ℕ) (r : Replay)
      → length bytes < fuel + cursor
      → 0 < fuel
      → Ends Ok (replay_loop checksum fuel bytes cursor r)
  unfolding replay_loop
  replay_loop-Ends zero bytes cursor r h k = absurd (omega (arith, k))
  replay_loop-Ends (suc fuel) bytes cursor r h k =
      round (ltb cursor (length bytes)) refl (λ end q ops room some_left.
        replay_loop-Ends fuel bytes end (absorb r q ops) room some_left)
    where
      next :
          cursor < length bytes
          → ((end q : ℕ) (ops : List Operation)
              → length bytes < fuel + end
              → 0 < fuel
              → Ends Ok (replay_loop checksum fuel bytes end (absorb r q ops)))
          → (found : Option (ℕ × List Operation × ℕ)) → Behind cursor found
          → Ends {T = Replay × ℕ} Ok (elim found [
            | none ↦ ok (r, cursor)
            | some (sequence, operations, frame_end) ↦
                replay_loop checksum fuel bytes frame_end (absorb r sequence operations)
          ])
      next more go none b = tt
      next more go (some (sequence, operations, frame_end)) b =
          go frame_end sequence operations (omega (arith, b, h)) (omega (arith, more, h))

      round :
          (b : Bool)
          → ltb cursor (length bytes) ≡ b
          → ((end q : ℕ) (ops : List Operation)
              → length bytes < fuel + end
              → 0 < fuel
              → Ends Ok (replay_loop checksum fuel bytes end (absorb r q ops)))
          → Ends {T = Replay × ℕ} Ok (elim b [
            | false ↦ ok (r, cursor)
            | true ↦ frame_at checksum bytes cursor >>= λ found. elim found [
              | none ↦ ok (r, cursor)
              | some (sequence, operations, frame_end) ↦
                  replay_loop checksum fuel bytes frame_end (absorb r sequence operations)
            ]
          ])
      round false e go = tt
      round true e go =
          bind_Ends (Behind cursor) Ok _ _ (frame_at-Ends bytes cursor)
            (λ found b. next (ltb→lt cursor (length bytes) e) go found b)

  -- The replay ends: on any bytes and for any checksum, the rounds it is given are enough.
  pub replay_wal-out_of_fuel :
      (bytes : Bytes) (table_sequence : ℕ) (state : State)
      → replay_wal checksum bytes table_sequence state ≢ err out_of_fuel
  unfolding replay_wal
  replay_wal-out_of_fuel bytes table_sequence state e =
      let ends =
        replay_loop-Ends (suc (length bytes)) bytes 0
          (record { last_sequence = table_sequence; frame_count = 0; state = state }) (omega arith)
          (omega arith) in
      subst (Ends Ok) e ends refl
