-- ===== src/Links/Tests.antt =====
-- Links created, imported and deleted.
use thingd.Base.{
  ℕ, ◌≤◌, Bytes, codes, ◌≡◌, refl, Bool, true, false, Option, none, some, [], ◌∷◌, ◌++◌, arith,
  ◌==◌, nat_ord, list_ord, pair_ord, list_beq, list_blt, starts_with,
}
use thingd.Model.{ok, err, conflict, invalid_input}
use thingd.Events.{add_one_u64}
use thingd.Links.{
  Link, LinkStore, outgoing, incoming, link_prefix, get_link, delete_link, matches_direction,
  matches_type, get_neighbors, count_links, insert_link, sort_links, list_links, create_link,
  link_number, raise_to, link_eq, import_unless, import_link,
}
use thingd.Links.Fresh.{IsNumbered, create_link-IsNumbered, import_link-IsNumbered}

program : Unit {0}
unfolding get_link delete_link matches_direction matches_type get_neighbors count_links insert_link
    sort_links list_links create_link link_number raise_to link_eq import_unless import_link
    add_one_u64 list_beq list_blt starts_with
program = tt

-- Numbers of one digit, in the base of all numbers.
abbrev to_string : ℕ → Bytes
to_string n = n ∷ []

abbrev parse_u64 : Bytes → Option ℕ
parse_u64 [] = none
parse_u64 (n ∷ []) = some n
parse_u64 (n ∷ m ∷ more) = none

abbrev weight_eq : Option ℕ → Option ℕ → Bool
weight_eq none none = true
weight_eq none (some b) = false
weight_eq (some a) none = false
weight_eq (some a) (some b) = a == b

abbrev blank : LinkStore
blank = record { links = []; next_link_id = 0 }

abbrev link : Link
link = record {
  id = [];
  from_ref = codes "a";
  link_type = codes "supports";
  to_ref = codes "b";
  weight = none;
  metadata_json = codes "{}";
  created_at = [];
}

abbrev named : Link
named = record link { id = link_prefix ++ 7 ∷ []; created_at = codes "t" }

abbrev imported : LinkStore
imported = (import_link to_string parse_u64 weight_eq blank named).0

abbrev created : Link
created = record link { id = link_prefix ++ 8 ∷ []; created_at = codes "t1" }

calls :
    ((create_link to_string parse_u64 weight_eq imported link (codes "t1")).1 ≡ ok created)
    × ((import_link to_string parse_u64 weight_eq imported named).1 ≡ ok named)
    × ((import_link to_string parse_u64 weight_eq imported (record named { to_ref = [] })).1
        ≡ err conflict)
    × ((import_link to_string parse_u64 weight_eq imported link).1 ≡ err invalid_input)
    × (get_neighbors imported (codes "a") outgoing (record { link_type = none; limit = some 5 })
        ≡ named ∷ [])
    × (get_neighbors imported (codes "a") incoming (record { link_type = none; limit = none }) ≡ [])
    × (list_links imported 0 9 ≡ named ∷ [])
    × ((delete_link imported named.id).1 ≡ ok true)
    × (count_links (delete_link imported named.id).0 ≡ 0)
unfolding program
calls = (refl, refl, refl, refl, refl, refl, refl, refl, refl)

blank-IsNumbered : IsNumbered to_string parse_u64 weight_eq (λ n h. refl) blank
unfolding program
blank-IsNumbered = λ id n above is_n. refl

create_link-IsNumbered_example :
    (get_link blank (link_prefix ++ 1 ∷ []) ≡ none)
    × IsNumbered to_string parse_u64 weight_eq
        (λ n h. refl)
        (create_link to_string parse_u64 weight_eq blank link (codes "t")).0
unfolding program
create_link-IsNumbered_example =
    create_link-IsNumbered to_string parse_u64 weight_eq (λ n h. refl) blank link
      (record link { id = link_prefix ++ 1 ∷ []; created_at = codes "t" }) (codes "t")
      blank-IsNumbered (omega arith) refl

import_link-IsNumbered_example :
    (0 ≤ (import_link to_string parse_u64 weight_eq blank named).0.next_link_id)
    × IsNumbered to_string parse_u64 weight_eq
        (λ n h. refl)
        (import_link to_string parse_u64 weight_eq blank named).0
import_link-IsNumbered_example =
    import_link-IsNumbered to_string parse_u64 weight_eq (λ n h. refl) blank named blank-IsNumbered
