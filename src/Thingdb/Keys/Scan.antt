-- ===== src/Thingdb/Keys/Scan.antt =====
-- A scan of the durable mode takes exactly the keys of its keyspace that it was asked for.
use thingd.Base.{
  Bytes, ◌≡◌, refl, ap, ◌∙◌, ◌≢◌, inl, inr, Bool, true, false, ◌&&◌, Option, none, some, [], ◌∷◌,
  ◌++◌, arith, Bool-cases, if◌then◌else◌, ◌==◌, ◌<?◌, ==_iff, nat_ord, list_ord, pair_ord, list_blt,
  All, drop-append, starts_with, starts_with-append,
}
use thingd.Thingdb.Keys.{
  namespace, physical_key_from_namespace, physical_key, successor, durable_scan_lower, least,
  prefix_end, explicit_end, durable_scan_upper, below, scan_visits, strip_prefix, prefix_matches,
  start_matches, end_matches, scan_matches, scan_takes,
}
use mathlib.Core.Option
use mathlib.Core.List.{append_assoc}
use thingd.Base.{list_trans, list_total, list_irrefl}
use thingd.Thingdb.Keys.Order.{AreBytes, successor-range}

abbrev pub PrefixIsBytes : Option Bytes → Type 0
PrefixIsBytes none = Unit
PrefixIsBytes (some prefix) = AreBytes prefix

abbrev pub EndIsBytes : Option (Bytes × Bool) → Type 0
EndIsBytes none = Unit
EndIsBytes (some (end, inclusive)) = AreBytes end

-- A common front does not matter to the order.
blt-append : (ns a b : Bytes) → ((ns ++ a) <? (ns ++ b)) ≡ (a <? b)
unfolding list_blt
blt-append [] a b = refl
blt-append (n ∷ ns) a b = ground (arith, blt-append ns a b)

below-least :
    (key : Bytes) (a b : Option Bytes) → below key (least a b) ≡ (below key a && below key b)
unfolding below least
below-least key none b = refl
below-least key (some a) none = ground arith
below-least key (some a) (some b) = elim (Bool-cases (b <? a)) [
  | inl e ↦ rw e (ground (arith, list_trans key b a, e))
  | inr e ↦ rw e (ground (arith, list_trans key a b, list_total b a, ==_iff a b, ==_iff b a, e))
]

blt-prefix : (a b : Bytes) → starts_with a b ≡ true → (a <? b) ≡ false
unfolding list_blt starts_with
blt-prefix a [] h = refl
blt-prefix [] (y ∷ b) h = cc
blt-prefix (x ∷ a) (y ∷ b) h = ground (arith, blt-prefix a b)

AreBytes-append : (a b : Bytes) → AreBytes a → AreBytes b → AreBytes (a ++ b)
AreBytes-append [] b h k = k
AreBytes-append (x ∷ a) b h k = (h.0, AreBytes-append a b (h.1) k)

starts_with_self : (a : Bytes) → starts_with a a ≡ true
unfolding starts_with
starts_with_self [] = refl
starts_with_self (x ∷ a) = ground (arith, starts_with_self a, ==_iff x x)

below_trans :
    (a b : Bytes) (o : Option Bytes) → (a <? b) ≡ true → below b o ≡ true → below a o ≡ true
unfolding below
below_trans a b none h k = refl
below_trans a b (some c) h k = list_trans a b c h k

below-successor-prefix :
    (key prefix : Bytes)
    → AreBytes key
    → AreBytes prefix
    → starts_with key prefix ≡ true
    → below key (successor prefix) ≡ true
below-successor-prefix key prefix ks ps h = ground (arith, successor-range key prefix ks ps, h)

-- A key that is not above another lies below its successor.
below-successor :
    (key end : Bytes)
    → AreBytes key
    → AreBytes end
    → (end <? key) ≡ false
    → below key (successor end) ≡ true
below-successor key end ks es h = elim (Bool-cases (end == key)) [
  | inl e ↦
      let same : end ≡ key = (==_iff end key).0 e in
      below-successor-prefix key end ks es
        (ap (λ (x : Bytes). starts_with key x) same ∙ starts_with_self key)
  | inr e ↦
      below_trans key end (successor end) (list_total end key e h)
        (below-successor-prefix end end es es (starts_with_self end))
]

strip_prefix-append : (ns key : Bytes) → strip_prefix (ns ++ key) ns ≡ some key
unfolding strip_prefix
strip_prefix-append ns key = ground (arith, starts_with-append ns key, drop-append ns key)

start_not_above :
    (key start : Bytes) (inclusive : Bool)
    → start_matches (some (start, inclusive)) key ≡ true
    → (key <? start) ≡ false
unfolding start_matches
start_not_above key start true h = ground (arith, h)
start_not_above key start false h = ground (arith, h, list_trans key start key, list_irrefl key)

module _ (ns : Bytes) (nb : AreBytes ns) (key : Bytes) (ks : AreBytes key) where
  end_in :
      (end : Option (Bytes × Bool))
      → EndIsBytes end
      → end_matches end key ≡ true
      → below (ns ++ key) (explicit_end ns end) ≡ true
  unfolding end_matches explicit_end physical_key_from_namespace
  end_in none es h = unfold below in refl
  end_in (some (end, true)) es h =
      below-successor (ns ++ key) (ns ++ end) (AreBytes-append ns key nb ks)
        (AreBytes-append ns end nb es) (ground (arith, blt-append ns end key, h))
  end_in (some (end, false)) es h = unfold below in blt-append ns key end ∙ h

  prefix_in :
      (prefix : Option Bytes)
      → PrefixIsBytes prefix
      → prefix_matches prefix key ≡ true
      → below (ns ++ key) (prefix_end ns prefix) ≡ true
  unfolding prefix_matches prefix_end physical_key_from_namespace below
  prefix_in none ps h = refl
  prefix_in (some prefix) ps h =
      shifted (successor prefix) (below-successor-prefix key prefix ks ps h)
    where
      shifted :
          (o : Option Bytes)
          → below key o ≡ true
          → below (ns ++ key) (Option.map (λ p. ns ++ p) o) ≡ true
      shifted none h = refl
      shifted (some p) h = blt-append ns key p ∙ h

  lower_in :
      (prefix : Option Bytes) (start : Option (Bytes × Bool))
      → prefix_matches prefix key ≡ true
      → start_matches start key ≡ true
      → ((ns ++ key) <? durable_scan_lower ns prefix start) ≡ false
  unfolding prefix_matches start_matches durable_scan_lower physical_key_from_namespace starts_with
  lower_in none none p s = blt-append ns key [] ∙ blt-prefix key [] refl
  lower_in none (some (start, inclusive)) p s =
      blt-append ns key start ∙ start_not_above key start inclusive s
  lower_in (some prefix) none p s = blt-append ns key prefix ∙ blt-prefix key prefix p
  lower_in (some prefix) (some (start, inclusive)) p s =
      blt-append ns key (if start <? prefix then prefix else start)
      ∙ ground (arith, start_not_above key start inclusive s, blt-prefix key prefix p)

  matches_visits :
      (prefix : Option Bytes) (start end : Option (Bytes × Bool))
      → PrefixIsBytes prefix
      → EndIsBytes end
      → scan_matches prefix start end key ≡ true
      → scan_visits ns prefix start end (ns ++ key) ≡ true
  unfolding scan_visits durable_scan_upper scan_matches
  matches_visits prefix start end ps es h =
      let matched : (prefix_matches prefix key ≡ true)
          × ((start_matches start key ≡ true) × (end_matches end key ≡ true)) =
        ground (arith, h) in
      let p = prefix_in prefix ps (matched.0) in
      let e = end_in end es (matched.1.1) in
      let n =
        below-successor-prefix (ns ++ key) ns (AreBytes-append ns key nb ks) nb
          (starts_with-append ns key) in
      let l = lower_in prefix start (matched.0) (matched.1.0) in
      rw
        (
          l,
          below-least (ns ++ key) (successor ns)
              (least (prefix_end ns prefix) (explicit_end ns end)),
          below-least (ns ++ key) (prefix_end ns prefix) (explicit_end ns end),
          n,
          p,
          e,
        )
        refl

-- Take any names and keys of bytes, and a scan by a prefix, a start and an end, each given or not. Of
-- the keys of its own keyspace, the scan takes exactly those that start with the prefix and lie
-- between the start and the end: its bounds lose none of them.
pub scan_takes-scan_matches :
    (name key : Bytes) (prefix : Option Bytes) (start end : Option (Bytes × Bool))
    → AreBytes name
    → AreBytes key
    → PrefixIsBytes prefix
    → EndIsBytes end
    → scan_takes (namespace name) prefix start end (physical_key name key)
      ≡ scan_matches prefix start end key
unfolding scan_takes physical_key physical_key_from_namespace
scan_takes-scan_matches name key prefix start end nb ks ps es =
    rw (strip_prefix-append (namespace name) key) (
      ground (
        arith,
        matches_visits (namespace name)
            (unfold namespace in AreBytes-append name (0 ∷ []) nb (omega arith, tt)) key ks prefix
            start end ps es,
      ))

-- The name of a keyspace has no NUL in it.
abbrev pub HasNoNul : Bytes → Type 0
HasNoNul = All (λ b. b ≢ 0)

pub namespace-apart :
    (name other key : Bytes)
    → HasNoNul name
    → HasNoNul other
    → other ≢ name
    → starts_with (other ++ 0 ∷ key) (name ++ 0 ∷ []) ≡ false
unfolding starts_with
namespace-apart [] [] key h k d = absurd (d refl)
namespace-apart [] (y ∷ other) key h k d = ground (arith, k.0)
namespace-apart (x ∷ name) [] key h k d = ground (arith, h.0)
namespace-apart (x ∷ name) (y ∷ other) key h k d = elim (Bool-cases (y == x)) [
  | inr e ↦ ground (arith, e)
  | inl e ↦
      let same : y ≡ x = (==_iff y x).0 e in
      ground (arith, e, namespace-apart name other key (h.1) (k.1) (λ f. d cc))
]

-- Two keyspaces whose names are distinct and have no NUL do not share a key: no scan of the one takes
-- a key of the other, whatever the scan asks for.
pub scan_takes-other :
    (name other key : Bytes) (prefix : Option Bytes) (start end : Option (Bytes × Bool))
    → HasNoNul name
    → HasNoNul other
    → other ≢ name
    → scan_takes (namespace name) prefix start end (physical_key other key) ≡ false
unfolding scan_takes physical_key physical_key_from_namespace strip_prefix namespace
scan_takes-other name other key prefix start end h k d =
    let no =
      ap (λ (x : Bytes). starts_with x (name ++ 0 ∷ [])) (append_assoc other (0 ∷ []) key)
      ∙ namespace-apart name other key h k d in
    ground (arith, no)
