-- ===== src/Thingdb/Wal/Recovery.antt =====
-- Replaying a log rebuilds what its frames wrote, also when a crash cut its last frame short.
use mathlib.Core.List.{append_assoc}
use thingd.Base.{
  ℕ, zero, suc, ◌+◌, ◌≤◌, ◌<◌, Bytes, ◌≡◌, refl, sym, ap, ◌∙◌, some, List, [], ◌∷◌, ◌++◌, arith,
  u32_max, u64_max, nat_ord, list_ord, pair_ord, length, take, length-append, length-take,
}
use thingd.Thingdb.Codec.{Result, ok, err, ◌>>=◌}
use thingd.Thingdb.Codec.Laws.{At, At-zero, At-next, Fits}
use thingd.Thingdb.Wal.{
  Operation, State, Replay, apply_operations, apply_operation, absorb, encode_frame, frame_at,
  replay_loop, replay_wal,
}
use thingd.Thingdb.Wal.Frame.{frame_bytes, encode_frame-eq}
use thingd.Thingdb.Wal.Reading.{At-eq, length-frame_bytes}
use thingd.Thingdb.Wal.Frames.{frame_at_whole, frame_at_torn}

-- What was committed: the batches in order, each with its sequence.
abbrev pub Log : Type 0
Log = List (ℕ × List Operation)

-- The frames of the batches, one after the other.
unfoldable pub encode_log : (Bytes → ℕ) → Log → Result Bytes
encode_log checksum [] = ok []
encode_log checksum ((sequence, ops) ∷ log) = do
  frame ← encode_frame checksum sequence ops
  rest ← encode_log checksum log
  ok (frame ++ rest)

-- Sequences rise from the first number on, and fit their field.
abbrev pub Rises : ℕ → Log → Type 0
Rises last [] = Unit
Rises last ((sequence, ops) ∷ log) = (last < sequence) × (sequence ≤ u64_max) × Rises sequence log

-- Every sequence is at most the number.
abbrev pub Below : ℕ → Log → Type 0
Below last [] = Unit
Below last ((sequence, ops) ∷ log) = (sequence ≤ last) × (sequence ≤ u64_max) × Below last log

-- The operations of all batches, in order; the last sequence; the state after them.
abbrev pub operations_of : Log → List Operation
operations_of [] = []
operations_of ((sequence, ops) ∷ log) = ops ++ operations_of log

abbrev pub last_of : ℕ → Log → ℕ
last_of last [] = last
last_of last ((sequence, ops) ∷ log) = last_of sequence log

abbrev pub absorb_all : Replay → Log → Replay
absorb_all r [] = r
absorb_all r ((sequence, ops) ∷ log) = absorb_all (absorb r sequence ops) log

abbrev Sequences : Log → Type 0
Sequences [] = Unit
Sequences ((sequence, ops) ∷ log) = (sequence ≤ u64_max) × Sequences log

-- The first frame, and the rest.
encode_log-cons :
    (checksum : Bytes → ℕ) (sequence : ℕ) (ops : List Operation) (log : Log) (logged : Bytes)
    → encode_log checksum ((sequence, ops) ∷ log) ≡ ok logged
    → (rest : Bytes) × (length ops ≤ u32_max)
      × (encode_log checksum log ≡ ok rest)
      × (logged ≡ frame_bytes checksum sequence ops ++ rest)
unfolding encode_log
encode_log-cons checksum sequence ops log logged e =
    parts (encode_frame checksum sequence ops) refl (encode_log checksum log) refl e
  where
    parts :
        (a : Result Bytes)
        → encode_frame checksum sequence ops ≡ a
        → (b : Result Bytes) → encode_log checksum log ≡ b
        → (a >>= λ frame. b >>= λ rest. ok (frame ++ rest)) ≡ ok logged
        → (rest : Bytes) × (length ops ≤ u32_max)
          × (encode_log checksum log ≡ ok rest)
          × (logged ≡ frame_bytes checksum sequence ops ++ rest)
    parts (err x) f b g h = cc
    parts (ok a) f (err x) g h = cc
    parts (ok a) f (ok b) g h =
        let (same, few) = encode_frame-eq checksum sequence ops a f in
        let joined : a ++ b ≡ logged = cc in
        (b, few, g, sym joined ∙ ap (λ (y : Bytes). y ++ b) same)

-- A round that read a frame goes on behind it.
replay_loop-next :
    (checksum : Bytes → ℕ) (fuel : ℕ) (bytes : Bytes) (cursor end sequence : ℕ)
    (ops : List Operation) (r : Replay)
    → cursor < length bytes
    → frame_at checksum bytes cursor ≡ ok (some (sequence, ops, end))
    → replay_loop checksum (suc fuel) bytes cursor r
      ≡ replay_loop checksum fuel bytes end (absorb r sequence ops)
unfolding replay_loop
replay_loop-next checksum fuel bytes cursor end sequence ops r more e = ground (arith, e)

module _ (checksum : Bytes → ℕ) (crc : (b : Bytes) → checksum b ≤ u32_max) where
  -- Rounds enough for what is left, then the state of every whole frame.
  replay_loop-At :
      (fuel : ℕ) (bytes logged : Bytes) (cursor : ℕ) (r : Replay) (log : Log) (sequence n : ℕ)
      (ops : List Operation)
      → Fits bytes
      → length (frame_bytes checksum sequence ops) ≤ u64_max
      → n < length (frame_bytes checksum sequence ops)
      → encode_log checksum log ≡ ok logged
      → Sequences log
      → length bytes < fuel + cursor
      → At bytes cursor (logged ++ take n (frame_bytes checksum sequence ops))
      → replay_loop checksum fuel bytes cursor r ≡ ok (absorb_all r log, cursor + length logged)
  unfolding replay_loop encode_log
  replay_loop-At zero bytes logged cursor r log sequence n ops fits small short e s h at =
      absurd (omega (arith, at.1))
  replay_loop-At (suc fuel) bytes logged cursor r [] sequence n ops fits small short e s h at =
      let empty : [] ≡ logged = cc in
      let torn = frame_at_torn checksum crc bytes cursor sequence n ops fits small short (
        At-eq bytes cursor _ _
          (ap (λ (y : Bytes). y ++ take n (frame_bytes checksum sequence ops)) (sym empty)) at) in
      ground (arith, torn, ap length empty)
  replay_loop-At (suc fuel) bytes logged cursor r ((q, qs) ∷ log) sequence n ops fits small short e
        s h at =
      let tail = take n (frame_bytes checksum sequence ops) in
      let (rest, few, e', joined) = encode_log-cons checksum q qs log logged e in
      let front : At bytes cursor (frame_bytes checksum q qs ++ (rest ++ tail)) =
        At-eq bytes cursor _ _
          (ap (λ (y : Bytes). y ++ tail) joined
            ∙ append_assoc (frame_bytes checksum q qs) rest tail)
          at in
      let behind = At-next bytes (frame_bytes checksum q qs) (rest ++ tail) cursor front in
      let size = length-frame_bytes checksum crc q qs in
      replay_loop-next checksum fuel bytes cursor _ q qs r (omega (arith, behind.1, size))
        (frame_at_whole checksum crc bytes (rest ++ tail) cursor q qs fits (s.0) few front)
      ∙ replay_loop-At fuel bytes rest (cursor + length (frame_bytes checksum q qs)) (absorb r q qs)
          log sequence n ops fits small short e' (s.1) (omega (arith, h, size)) behind
      ∙ ap (λ (k : ℕ). ok (absorb_all (absorb r q qs) log, k))
          (omega (arith, ap length joined, length-append (frame_bytes checksum q qs) rest))

apply_operations-append :
    (state : State) (a b : List Operation)
    → apply_operations state (a ++ b) ≡ apply_operations (apply_operations state a) b
unfolding apply_operations
apply_operations-append state [] b = refl
apply_operations-append state (op ∷ a) b = apply_operations-append (apply_operation state op) a b

-- Frames at or below the last sequence are only counted; frames that rise above it are all applied.
absorb_all-Below :
    (r : Replay) (log more : Log)
    → Below r.last_sequence log
    → absorb_all r (log ++ more)
      ≡ absorb_all (record r { frame_count = r.frame_count + length log }) more
unfolding absorb
absorb_all-Below r [] more b =
    ap (λ (k : ℕ). absorb_all (record r { frame_count = k }) more) (omega arith)
absorb_all-Below r ((q, qs) ∷ log) more b =
    ap (λ (x : Replay). absorb_all x (log ++ more)) skipped
    ∙ absorb_all-Below (record r { frame_count = r.frame_count + 1 }) log more (b.2)
    ∙ ap (λ (k : ℕ). absorb_all (record r { frame_count = k }) more) (omega arith)
  where
    skipped : absorb r q qs ≡ record r { frame_count = r.frame_count + 1 }
    skipped = ground (arith, b.0)

absorb_all-Rises :
    (r : Replay) (log : Log)
    → Rises r.last_sequence log
    → absorb_all r log ≡ record {
      last_sequence = last_of r.last_sequence log;
      frame_count = r.frame_count + length log;
      state = apply_operations r.state (operations_of log);
    }
absorb_all-Rises r [] b = unfold apply_operations in ground arith
absorb_all-Rises r ((q, qs) ∷ log) b =
    ap (λ (x : Replay). absorb_all x log) applied
    ∙ absorb_all-Rises next log (b.2)
    ∙ ap
        (λ (k : ℕ). record next {
          last_sequence = last_of q log;
          frame_count = k;
          state = apply_operations next.state (operations_of log);
        })
        (omega arith)
    ∙ ap
        (λ (x : State). record r {
          last_sequence = last_of q log;
          frame_count = r.frame_count + length ((q, qs) ∷ log);
          state = x;
        })
        (sym (apply_operations-append r.state qs (operations_of log)))
  where
    next : Replay
    next = record {
      last_sequence = q;
      frame_count = r.frame_count + 1;
      state = apply_operations r.state qs;
    }

    applied : absorb r q qs ≡ next
    applied = unfold absorb in ground (arith, b.0)

Sequences-append :
    (last : ℕ) (old log : Log) → Below last old → Rises last log → Sequences (old ++ log)
Sequences-append last [] log b r = rising last log r
  where
    rising : (last : ℕ) (log : Log) → Rises last log → Sequences log
    rising last [] r = tt
    rising last ((q, qs) ∷ log) r = (r.1, rising q log (r.2))
Sequences-append last ((q, qs) ∷ old) log b r = (b.1, Sequences-append last old log (b.2) r)

module _ (checksum : Bytes → ℕ) (crc : (b : Bytes) → checksum b ≤ u32_max) where
  -- Recovery. Take a log whose first frames the tables hold already, whose other frames rise above
  -- the tables' sequence, and whose last frame was written only in part, or not at all. The replay
  -- succeeds, applies the operations of exactly the whole frames that the tables lack, in order and
  -- once each, and reports the last sequence, the number of whole frames, and where they end.
  pub replay_wal-recovers :
      (state : State) (table_sequence : ℕ) (old log : Log) (logged : Bytes) (sequence n : ℕ)
      (ops : List Operation) (last : Bytes)
      → Below table_sequence old
      → Rises table_sequence log
      → encode_log checksum (old ++ log) ≡ ok logged
      → encode_frame checksum sequence ops ≡ ok last
      → n < length last
      → Fits (logged ++ last)
      → replay_wal checksum (logged ++ take n last) table_sequence state
        ≡ ok (
          record {
            last_sequence = last_of table_sequence log;
            frame_count = length old + length log;
            state = apply_operations state (operations_of log);
          },
          length logged,
        )
  unfolding replay_wal
  replay_wal-recovers state table_sequence old log logged sequence n ops last b r e f short fits =
      let same = (encode_frame-eq checksum sequence ops last f).0 in
      let size = ap length same in
      let total = length-append logged last in
      replay_loop-At checksum crc (suc (length (logged ++ take n last))) (logged ++ take n last)
        logged 0 start (old ++ log) sequence n ops
        (omega (arith, fits, total, length-append logged (take n last), length-take n last))
        (omega (arith, fits, total, size)) (omega (arith, short, size)) e
        (Sequences-append table_sequence old log b r) (omega arith)
        (At-eq (logged ++ take n last) 0 _ _ (ap (λ (y : Bytes). logged ++ take n y) same)
          (At-zero (logged ++ take n last)))
      ∙ ap (λ (x : Replay). ok (x, 0 + length logged))
          (absorb_all-Below start old log b
            ∙ absorb_all-Rises (record start { frame_count = 0 + length old }) log r)
      ∙ ground arith
    where
      start : Replay
      start = record { last_sequence = table_sequence; frame_count = 0; state = state }
