-- ===== src/Replication/Run.antt =====
-- What a replica knows after the items of a batch: the cursors that it has seen, and its checkpoint.
use thingd.Base.{
  ℕ, ◌≤◌, ◌<◌, max, Bytes, codes, ◌≡◌, refl, sym, ap, ◌∙◌, ◌⊎◌, inl, inr, false, not, some, List,
  [], ◌∷◌, arith, lt→ltb, le→leb, Bool-cases, Option-cases, u64_max, ◌==◌, ==_iff, nat_ord,
  list_ord, pair_ord, All,
}
use thingd.Model.{ThingdResult, ok}
use thingd.Replication.{Json, ReplicationConfig, Engine, ReplicationChange, text_member}
use thingd.Replication.Changes.{read_applied_cursor, apply_operation}
use thingd.Replication.Replica.{
  Batch, is_other, is_filtered, skip_one, seen_to, count_one, is_duplicate, apply_new, enter,
  apply_item, apply_items,
}
use thingd.Replication.Frame.{apply_item-Keeps}
use thingd.Replication.Checkpoint.{and_then-ok, state_key, read-Keeps, state-IsAside}

module _ (j : Json) where
  -- A batch that is about the source `s` and has read the cursor `r`, or is still to read it.
  abbrev pub IsAt : Bytes → ℕ → Batch j → Type 0
  IsAt s r b = (is_other j b.source_id s ≡ false) × ((b.checkpoint ≡ 0) ⊎ (b.checkpoint ≡ r))

  pub enter-checkpoint :
      (e : Engine) (b : Batch j) (item : ReplicationChange j) (s : Bytes) (r : ℕ)
      → item.source_id ≡ s
      → read_applied_cursor j e s ≡ r
      → IsAt s r b
      → (enter j e b item).checkpoint ≡ r
  unfolding enter
  enter-checkpoint e b item s r same reads at =
      let there = ap (read_applied_cursor j e) same in
      elim (Bool-cases (b.checkpoint == 0)) [
        | inl y ↦ rw y (there ∙ reads)
        | inr y ↦ rw y (ground (arith, at, y))
      ]

  -- An item that is behind the cursor is skipped, and changes nothing.
  pub skip-item :
      (config : ReplicationConfig) (now : Bytes) (e : Engine) (b : Batch j)
      (item : ReplicationChange j) (r : ℕ)
      → IsAt item.source_id r b
      → read_applied_cursor j e item.source_id ≡ r
      → 0 < item.cursor
      → item.cursor ≤ r
      → apply_item j config now e b item ≡ (e, ok (skip_one j (enter j e b item)))
  unfolding apply_item is_duplicate
  skip-item config now e b item r at reads pos behind =
      let same = enter-checkpoint e b item item.source_id r refl reads at in
      rw (at.0, same, lt→ltb 0 item.cursor pos, le→leb item.cursor r behind) refl

  -- What the loop knows after an item of the source `s`, whose cursor `r` it read at the start.
  pub record Stepped (s : Bytes) (r : ℕ) (b b' : Batch j) (cursor : ℕ) : Type 0 where
    pub named : b'.source_id ≡ some s
    pub checked : b'.checkpoint ≡ r
    pub seen : cursor ≤ max r b'.result.last_applied_cursor
    pub grows : b.result.last_applied_cursor ≤ b'.result.last_applied_cursor
    pub bounded : b'.result.last_applied_cursor ≤ max b.result.last_applied_cursor cursor

  apply_new-forms :
      (config : ReplicationConfig) (now : Bytes) (e e' : Engine) (b b' : Batch j)
      (item : ReplicationChange j)
      → apply_new j config now e b item ≡ (e', ok b')
      → (seen_to j item.cursor (skip_one j b) ≡ b') ⊎ (seen_to j item.cursor (count_one j b) ≡ b')
  unfolding apply_new
  apply_new-forms config now e e' b b' item h =
      elim (Option-cases (text_member j (codes "operation") item.change)) [
        | inl missing ↦ absurd (ground (arith, rw (missing, apply_new) at h))
        | inr (operation, found) ↦
            elim (Bool-cases
              (is_filtered j config (text_member j (codes "collection") item.change))) [
                | inl y ↦ inl (let k = rw (found, apply_new, y) at h in cc)
                | inr y ↦
                    let (e1, done, a, k) =
                      and_then-ok
                        (apply_operation j e item operation
                          (text_member j (codes "collection") item.change) now)
                        _ e' b' (rw (found, apply_new, y) at h) in
                    inr (cc)
              ]
      ]

  pub apply_item-Stepped :
      (config : ReplicationConfig) (now : Bytes) (e e' : Engine) (b b' : Batch j)
      (item : ReplicationChange j) (r : ℕ)
      → IsAt item.source_id r b
      → read_applied_cursor j e item.source_id ≡ r
      → apply_item j config now e b item ≡ (e', ok b')
      → Stepped item.source_id r b b' item.cursor
  unfolding apply_item is_duplicate enter
  apply_item-Stepped config now e e' b b' item r at reads h =
      let same = enter-checkpoint e b item item.source_id r refl reads at in
      elim (Bool-cases (is_duplicate j (enter j e b item) item)) [
        | inl y ↦
            let is : skip_one j (enter j e b item) ≡ b' =
              (let k = rw (apply_item, at.0, y) at h in cc) in
            rw (← is) (ground (arith, same, y))
        | inr y ↦
            elim (apply_new-forms config now e e' (enter j e b item) b' item
              (rw (apply_item, at.0, y) at h)) [
                | inl is ↦ rw (← is) (ground (arith, same))
                | inr is ↦ rw (← is) (ground (arith, same))
              ]
      ]

  -- An item of a batch as a source sends it: its cursor is positive and a `u64`.
  abbrev pub IsNumbered : ReplicationChange j → Type 0
  IsNumbered item = (0 < item.cursor) × (item.cursor ≤ u64_max)

  abbrev pub IsBehind : Bytes → ℕ → ReplicationChange j → Type 0
  IsBehind s m item = (item.source_id ≡ s) × (0 < item.cursor) × (item.cursor ≤ m)

  All-IsBehind-le :
      (s : Bytes) (m n : ℕ) (items : List (ReplicationChange j))
      → m ≤ n
      → All (IsBehind s m) items
      → All (IsBehind s n) items
  All-IsBehind-le s m n [] h a = tt
  All-IsBehind-le s m n (item ∷ more) h a =
      ((a.0.0, a.0.1, omega (arith, a.0.2, h)), All-IsBehind-le s m n more h (a.1))

  pub record Ran (s : Bytes) (r : ℕ) (e' : Engine) (b b' : Batch j)
      (items : List (ReplicationChange j)) : Type 0 where
    pub named : b'.source_id ≡ some s
    pub checked : b'.checkpoint ≡ r
    pub reads : read_applied_cursor j e' s ≡ r
    pub grows : b.result.last_applied_cursor ≤ b'.result.last_applied_cursor
    pub small : b'.result.last_applied_cursor ≤ u64_max
    pub behind : All (IsBehind s (max r b'.result.last_applied_cursor)) items

  pub apply_item-same :
      (config : ReplicationConfig) (now : Bytes) (e e' : Engine) (b b' : Batch j)
      (item : ReplicationChange j)
      → apply_item j config now e b item ≡ (e', ok b')
      → is_other j b.source_id item.source_id ≡ false
  unfolding apply_item
  apply_item-same config now e e' b b' item h =
      elim (Bool-cases (is_other j b.source_id item.source_id)) [
        | inr y ↦ y
        | inl y ↦ absurd (ground (arith, rw (apply_item, y) at h))
      ]

  same_source :
      (b : Batch j) (s t : Bytes) → b.source_id ≡ some s → is_other j b.source_id t ≡ false → t ≡ s
  same_source b s t e h =
      let k : not (s == t) ≡ false = (rw e at h) in let test = ==_iff s t in ground (arith, k, test)

  pub item_keeps :
      (config : ReplicationConfig) (now s : Bytes) (e e' : Engine) (b b' : Batch j)
      (item : ReplicationChange j)
      → apply_item j config now e b item ≡ (e', ok b')
      → read_applied_cursor j e' s ≡ read_applied_cursor j e s
  item_keeps config now s e e' b b' item h =
      let kept = apply_item-Keeps j config (state_key s) (state-IsAside j config) now e b item in
      let there = ap (λ (x : Engine × ThingdResult (Batch j)). read_applied_cursor j x.0 s) h in
      sym there ∙ read-Keeps j e (apply_item j config now e b item).0 s kept

  pub run_from :
      (config : ReplicationConfig) (now s : Bytes) (r : ℕ) (items : List (ReplicationChange j))
      (e e' : Engine) (b b' : Batch j)
      → b.source_id ≡ some s
      → b.checkpoint ≡ r
      → read_applied_cursor j e s ≡ r
      → b.result.last_applied_cursor ≤ u64_max
      → All IsNumbered items
      → apply_items j config now e b items ≡ (e', ok b')
      → Ran s r e' b b' items
  unfolding apply_items
  run_from config now s r [] e e' b b' named checked reads small good h =
      let is : b ≡ b' = cc in
      let at : e ≡ e' = ap (λ (x : Engine × ThingdResult (Batch j)). x.0) h in
      rw (← is, ← at)
        (record {
          named = named;
          checked = checked;
          reads = reads;
          grows = omega arith;
          small = small;
          behind = tt;
        })
  run_from config now s r (item ∷ more) e e' b b' named checked reads small good h =
      let (e1, b1, first, rest) = and_then-ok (apply_item j config now e b item) _ e' b' h in
      let same =
        same_source b s item.source_id named (apply_item-same config now e e1 b b1 item first) in
      let step =
        apply_item-Stepped config now e e1 b b1 item r
          (apply_item-same config now e e1 b b1 item first, inr checked)
          (ap (read_applied_cursor j e) same ∙ reads) first in
      let later =
        run_from config now s r more e1 e' b1 b' (step.named ∙ ap some same) step.checked
          (item_keeps config now s e e1 b b1 item first ∙ reads)
          (omega (arith, step.bounded, small, good.0.1)) (good.1) rest in
      record {
        named = later.named;
        checked = later.checked;
        reads = later.reads;
        grows = omega (arith, step.grows, later.grows);
        small = later.small;
        behind = ((same, good.0.0, omega (arith, step.seen, later.grows)), later.behind);
      }
