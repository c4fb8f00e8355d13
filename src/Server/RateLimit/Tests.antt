-- ===== src/Server/RateLimit/Tests.antt =====
-- Runs of the limiter, the doubles taken as exact.
use thingd.Base.{
  ℕ, ◌+◌, ◌*◌, ◌/◌, ◌≤◌, ◌<◌, min, Bytes, codes, ◌≡◌, refl, true, false, some, List, [], ◌∷◌, arith,
  u64_max, nat_ord, list_ord, pair_ord, list_beq, list_blt,
}
use native.Mathlib.Nat.{div-mul-le_self, le-div_iff_mul-le}
use thingd.Base.BTreeMap.{get, insert}
use thingd.Server.RateLimit.{
  prune, take_token, or_insert, refill, spend, Doubles, new, check, serve, passed, minute,
  precision,
}
use thingd.Server.RateLimit.Bound.{passed_bound}
use thingd.Server.RateLimit.Return.{AreOthers, refused-allowed}

exact_refilled : ℕ → ℕ → ℕ → ℕ
exact_refilled elapsed interval top = min (elapsed * top / interval) u64_max

capped_le : (q i p : ℕ) → min q u64_max * (i * p) ≤ q * i * p
capped_le q i p = grind arith

exact_le :
    (elapsed interval top : ℕ)
    → exact_refilled elapsed interval top * (interval * precision)
      ≤ elapsed * (top * (precision + 1))
unfolding exact_refilled
exact_le elapsed interval top =
    let part = div-mul-le_self (elapsed * top) interval in
    let less = capped_le (elapsed * top / interval) interval precision in grind (arith, part, less)

exact_pos :
    (elapsed interval top : ℕ)
    → 0 < interval
    → 2 * interval ≤ elapsed * top
    → 0 < exact_refilled elapsed interval top
unfolding exact_refilled
exact_pos elapsed interval top h k =
    let most =
      (le-div_iff_mul-le {k = interval} {x = 1} {y = elapsed * top} h).1 (omega (arith, k)) in
    omega (arith, most)

exact_u64 : (elapsed interval top : ℕ) → exact_refilled elapsed interval top ≤ u64_max
unfolding exact_refilled
exact_u64 elapsed interval top = omega arith

abbrev exact : Doubles
unfolding exact_refilled
exact = record {
  refilled = exact_refilled;
  refilled_le = exact_le;
  refilled_pos = exact_pos;
  refilled_u64 = exact_u64;
}

abbrev ann : Bytes
ann = codes "ann"

abbrev bob : Bytes
bob = codes "bob"

abbrev requests : List (ℕ × Bytes)
requests = (130 * 1000000000, ann) ∷ (131 * 1000000000, bob) ∷ (132 * 1000000000, ann) ∷ []

test_third : (check exact (133 * 1000000000) ann (serve exact (new 2) requests)).1 ≡ some false
unfolding check serve new prune take_token or_insert refill spend get insert list_beq list_blt
    exact_refilled
test_third = refl

passed_bound_example :
    passed exact ann (new 2) requests * (minute * precision)
    ≤ 2 * (minute * precision) + (70 * 1000000000) * (2 * (precision + 1))
passed_bound_example =
    passed_bound exact 2 ann requests (70 * 1000000000) (140 * 1000000000) (omega arith)

abbrev bobs : List (ℕ × Bytes)
bobs = (140 * 1000000000, bob) ∷ (190 * 1000000000, bob) ∷ []

bobs-AreOthers : AreOthers ann bobs
unfolding list_beq
bobs-AreOthers = (refl, (refl, tt))

refused-allowed_example :
    (check exact
      (200 * 1000000000)
      ann
      (serve exact (check exact (133 * 1000000000) ann (serve exact (new 2) requests)).0 bobs)).1
    ≡ some true
refused-allowed_example =
    refused-allowed exact 2 ann requests bobs (70 * 1000000000) (133 * 1000000000)
      (200 * 1000000000) (omega arith) test_third (omega arith) bobs-AreOthers (omega arith)
      (omega arith) (omega arith)
