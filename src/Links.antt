-- ===== src/Links.antt =====
-- The links of `MemoryEngine` (crates/thingd/src/in_memory.rs). The formatting and the parsing of a
-- `u64` and the equality of two weights are the standard library's, parameters; a weight's `f64`
-- stands by its bits. The clock reading of a creation is its argument `now`.
pub mod Fresh
mod Tests
use thingd.Base.{
  ℕ, zero, suc, ◌+◌, ◌-◌, ◌*◌, ◌/◌, ◌%◌, ◌^◌, ◌≤◌, ◌<◌, min, max, Bytes, codes, ◌≡◌, refl, sym, ap,
  ◌∙◌, ◌≢◌, ◌↔◌, ◌⊎◌, inl, inr, Bool, true, false, not, ◌&&◌, ◌||◌, Option, none, some, List, [],
  ◌∷◌, ◌++◌, map, arith, ltb, leb, nat_beq, ltb→lt, lt→ltb, leb→le, le→leb, Bool-cases,
  Option-cases, if◌then◌else◌, u32_max, u64_max, i64_max, sat_add, Ord, ◌==◌, ◌<?◌, ==_iff, ==_refl,
  nat_ord, list_ord, pair_ord, list_beq, list_blt, length, take, drop, find, any, all, filter,
  last?, All, In, Empty, update_find, find-test, find-In, find-none-In, length-append, length-take,
  length-drop, take-append, drop-append, length-filter-le, contains, starts_with,
  starts_with-append,
}
use thingd.Model.{ThingdResult, ok, err, conflict, invalid_input}
use thingd.Events.{add_one_u64, is_empty}

pub record Link : Type 0 where
  pub id : Bytes
  pub from_ref : Bytes
  pub link_type : Bytes
  pub to_ref : Bytes
  pub weight : Option ℕ
  pub metadata_json : Bytes
  pub created_at : Bytes

pub data LinkDirection : Type 0 where
  outgoing incoming both : LinkDirection

pub record LinkQueryOptions : Type 0 where
  pub link_type : Option Bytes
  pub limit : Option ℕ

pub record LinkStore : Type 0 where
  pub links : List Link
  pub next_link_id : ℕ

abbrev pub link_prefix : Bytes
link_prefix = codes "link-"

abbrev pub has_link_id : Bytes → Link → Bool
has_link_id id link = link.id == id

unfoldable pub get_link : LinkStore → Bytes → Option Link
get_link store id = find (has_link_id id) store.links

unfoldable pub delete_link : LinkStore → Bytes → LinkStore × ThingdResult Bool
delete_link store id =
    let kept = filter (λ link. not (has_link_id id link)) store.links in
    (record store { links = kept }, ok (ltb (length kept) (length store.links)))

unfoldable pub matches_direction : Bytes → LinkDirection → Link → Bool
matches_direction reference outgoing link = link.from_ref == reference
matches_direction reference incoming link = link.to_ref == reference
matches_direction reference both link = link.from_ref == reference || link.to_ref == reference

unfoldable pub matches_type : Option Bytes → Link → Bool
matches_type none link = true
matches_type (some t) link = link.link_type == t

unfoldable pub get_neighbors : LinkStore → Bytes → LinkDirection → LinkQueryOptions → List Link
get_neighbors store reference direction options =
    let neighbors =
      filter
        (λ link. matches_direction reference direction link && matches_type options.link_type link)
        store.links in
    elim options.limit [ none ↦ neighbors | some limit ↦ take limit neighbors ]

unfoldable pub count_links : LinkStore → ℕ
count_links store = length store.links

-- `sort_by` the identifiers, which keeps the order of equal ones
unfoldable pub insert_link : Link → List Link → List Link
insert_link link [] = link ∷ []
insert_link link (l ∷ ls) =
    let rest = insert_link link ls in if l.id <? link.id then l ∷ rest else link ∷ l ∷ ls

unfoldable pub sort_links : List Link → List Link
sort_links [] = []
sort_links (l ∷ ls) = insert_link l (sort_links ls)

unfoldable pub list_links : LinkStore → ℕ → ℕ → List Link
list_links store offset limit = take limit (drop offset (sort_links store.links))

module _ (to_string : ℕ → Bytes) (parse_u64 : Bytes → Option ℕ)
    (weight_eq : Option ℕ → Option ℕ → Bool) where
  unfoldable pub create_link : LinkStore → Link → Bytes → LinkStore × ThingdResult Link
  create_link store link now =
      let next = add_one_u64 store.next_link_id in
      let created = record link {
        id = link_prefix ++ to_string next;
        created_at = if is_empty link.created_at then now else link.created_at;
      } in
      (record { links = store.links ++ created ∷ []; next_link_id = next }, ok created)

  -- The number of an identifier that the engine gave out.
  unfoldable pub link_number : Bytes → Option ℕ
  link_number id =
      if starts_with id link_prefix then parse_u64 (drop (length link_prefix) id) else none

  unfoldable pub raise_to : ℕ → Option ℕ → ℕ
  raise_to next none = next
  raise_to next (some sequence) = max next sequence

  unfoldable pub link_eq : Link → Link → Bool
  link_eq a b =
      a.id == b.id
      && (a.from_ref == b.from_ref
          && (a.link_type == b.link_type
              && (a.to_ref == b.to_ref
                  && (weight_eq a.weight b.weight
                      && (a.metadata_json == b.metadata_json && a.created_at == b.created_at)))))

  unfoldable pub import_unless : LinkStore → Link → Option Link → LinkStore × ThingdResult Link
  import_unless store link (some existing) =
      if link_eq existing link then (store, ok link) else (store, err conflict)
  import_unless store link none = (
    record {
      links = store.links ++ link ∷ [];
      next_link_id = raise_to store.next_link_id (link_number link.id);
    },
    ok link,
  )

  unfoldable pub import_link : LinkStore → Link → LinkStore × ThingdResult Link
  import_link store link =
      if is_empty link.id
      then (store, err invalid_input)
      else import_unless store link (get_link store link.id)
