-- ===== src/Thingdb/Keys/Tests.antt =====
-- Scans of concrete keyspaces.
use thingd.Base.{
  codes, ◌≡◌, refl, ap, true, false, not, ◌&&◌, none, some, [], ◌∷◌, arith, ◌<?◌, nat_ord, list_ord,
  pair_ord, list_beq, list_blt, length, starts_with,
}
use thingd.Thingdb.Codec.{byte_at}
use thingd.Thingdb.Keys.{
  namespace, physical_key_from_namespace, physical_key, successor_below, successor,
  durable_scan_lower, least, prefix_end, explicit_end, durable_scan_upper, below, scan_visits,
  strip_prefix, prefix_matches, start_matches, end_matches, scan_matches, scan_takes,
}
use thingd.Thingdb.Keys.Order.{successor-range}
use thingd.Thingdb.Keys.Scan.{scan_takes-scan_matches, scan_takes-other}

program : Unit {0}
unfolding namespace physical_key_from_namespace physical_key successor_below successor
    durable_scan_lower least prefix_end explicit_end durable_scan_upper below scan_visits
    strip_prefix prefix_matches start_matches end_matches scan_matches scan_takes byte_at list_beq
    list_blt starts_with
program = tt

successors :
    (successor (1 ∷ 255 ∷ 255 ∷ []) ≡ some (2 ∷ []))
    × (successor (255 ∷ []) ≡ none)
    × (successor (codes "a") ≡ some (codes "b"))
unfolding program
successors = (refl, refl, refl)

-- A scan up to an inclusive end takes the end, and not a key that goes on behind it.
scan_takes-scan_matches_example :
    scan_takes
      (namespace (codes "users"))
      (some (codes "a"))
      none
      (some (codes "al", true))
      (physical_key (codes "users") (codes "al"))
    ≡ true
unfolding program
scan_takes-scan_matches_example =
    scan_takes-scan_matches (codes "users") (codes "al") (some (codes "a")) none
      (some (codes "al", true))
      (omega arith, (omega arith, (omega arith, (omega arith, (omega arith, tt)))))
      (omega arith, (omega arith, tt)) (omega arith, tt) (omega arith, (omega arith, tt))

scan_takes-other_example :
    scan_takes (namespace (codes "a")) none none none (physical_key (codes "bc") (codes "x"))
    ≡ false
scan_takes-other_example =
    scan_takes-other (codes "a") (codes "bc") (codes "x") none none none (λ e. omega (arith, e), tt)
      (λ e. omega (arith, e), (λ e. omega (arith, e), tt)) (λ e. omega (arith, ap length e))

successor-range_example :
    (not (codes "ab" <? codes "a") && below (codes "ab") (successor (codes "a")))
    ≡ starts_with (codes "ab") (codes "a")
successor-range_example =
    successor-range (codes "ab") (codes "a") (omega arith, (omega arith, tt)) (omega arith, tt)
