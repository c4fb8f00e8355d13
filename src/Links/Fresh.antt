-- ===== src/Links/Fresh.antt =====
-- The identifier of a created link is new.
use thingd.Base.{
  ℕ, ◌+◌, ◌≤◌, ◌<◌, Bytes, ◌≡◌, sym, ap, ◌∙◌, ◌≢◌, Bool, true, false, Option, none, some, List, [],
  ◌∷◌, ◌++◌, arith, Option-cases, if◌then◌else◌, u64_max, ◌==◌, ==_iff, nat_ord, list_ord, pair_ord,
  find, drop-append, starts_with-append,
}
use thingd.Model.{ThingdResult, ok, err, conflict, invalid_input}
use thingd.Events.{add_one_u64, is_empty}
use thingd.Links.{
  Link, LinkStore, link_prefix, has_link_id, get_link, create_link, link_number, raise_to, link_eq,
  import_unless, import_link,
}

-- The identifier of a result.
abbrev id_of : Link → ThingdResult Link → Bytes
id_of link (ok created) = created.id
id_of link (err e) = link.id

find-append-none :
    (p : Link → Bool) (xs : List Link) (x : Link)
    → find p xs ≡ none
    → p x ≡ false
    → find p (xs ++ x ∷ []) ≡ none
find-append-none p [] x h k = ground (arith, k)
find-append-none p (y ∷ ys) x h k = ground (arith, find-append-none p ys x, h, k)

module _ (to_string : ℕ → Bytes) (parse_u64 : Bytes → Option ℕ)
    (weight_eq : Option ℕ → Option ℕ → Bool)
    (parses : (n : ℕ) → n ≤ u64_max → parse_u64 (to_string n) ≡ some n) where
  -- No link has a number above the last one given out.
  abbrev pub IsNumbered : LinkStore → Type 0
  IsNumbered store =
      (id : Bytes) (n : ℕ)
      → store.next_link_id < n
      → link_number to_string parse_u64 weight_eq id ≡ some n
      → get_link store id ≡ none

  number_of_created :
      (n : ℕ)
      → n ≤ u64_max
      → link_number to_string parse_u64 weight_eq (link_prefix ++ to_string n) ≡ some n
  unfolding link_number
  number_of_created n small =
      rw (starts_with-append link_prefix (to_string n), drop-append link_prefix (to_string n))
        (parses n small)

  -- Take links none of which has a number above the last one given out, with room for one more in 64
  -- bits. A created link has an identifier that no link had, and the links are numbered so again.
  pub create_link-IsNumbered :
      (store : LinkStore) (link created : Link) (now : Bytes)
      → IsNumbered store
      → store.next_link_id < u64_max
      → (create_link to_string parse_u64 weight_eq store link now).1 ≡ ok created
      → (get_link store created.id ≡ none)
        × IsNumbered (create_link to_string parse_u64 weight_eq store link now).0
  unfolding create_link
  create_link-IsNumbered store link created now numbered room done = (
    numbered created.id (add_one_u64 store.next_link_id) (omega (arith, next))
        (ap (link_number to_string parse_u64 weight_eq) (sym same) ∙ number),
    λ id n above is_n. appended id n (numbered id n (omega (arith, above, next)) is_n) above is_n,
  )
    where
      next : add_one_u64 store.next_link_id ≡ store.next_link_id + 1
      next = unfold add_one_u64 in omega (arith, room)

      number :
          link_number to_string parse_u64 weight_eq
            (link_prefix ++ to_string (add_one_u64 store.next_link_id))
          ≡ some (add_one_u64 store.next_link_id)
      number = number_of_created (add_one_u64 store.next_link_id) (omega (arith, next, room))

      same : link_prefix ++ to_string (add_one_u64 store.next_link_id) ≡ created.id
      same = ap (id_of link) done

      appended :
          (id : Bytes) (n : ℕ)
          → get_link store id ≡ none
          → add_one_u64 store.next_link_id < n
          → link_number to_string parse_u64 weight_eq id ≡ some n
          → get_link (create_link to_string parse_u64 weight_eq store link now).0 id ≡ none
      appended id n absent above is_n =
          unfold get_link in
          find-append-none (has_link_id id) store.links _ absent (differs id n above is_n)
        where
          differs :
              (id : Bytes) (n : ℕ)
              → add_one_u64 store.next_link_id < n
              → link_number to_string parse_u64 weight_eq id ≡ some n
              → (link_prefix ++ to_string (add_one_u64 store.next_link_id) == id) ≡ false
          differs id n above is_n = ground (
            arith,
            ==_iff (link_prefix ++ to_string (add_one_u64 store.next_link_id)) id,
            ap (link_number to_string parse_u64 weight_eq)
                {x = link_prefix ++ to_string (add_one_u64 store.next_link_id)} {y = id},
            number,
            is_n,
            above,
          )

  abbrev Numbered : LinkStore × ThingdResult Link → Type 0
  Numbered r = IsNumbered r.0

  raise_to_lower :
      (next n : ℕ) (o : Option ℕ)
      → raise_to to_string parse_u64 weight_eq next o < n
      → (next < n) × (o ≢ some n)
  unfolding raise_to
  raise_to_lower next n none h = (h, λ e. cc)
  raise_to_lower next n (some m) h = (omega (arith, h), λ e. ground (arith, e, h))

  import_unless-Numbered :
      (store : LinkStore) (link : Link) (o : Option Link)
      → IsNumbered store
      → Numbered (import_unless to_string parse_u64 weight_eq store link o)
  unfolding import_unless get_link
  import_unless-Numbered store link (some existing) numbered =
      given (link_eq to_string parse_u64 weight_eq existing link)
    where
      given : (b : Bool) → Numbered (if b then (store, ok link) else (store, err conflict))
      given true = numbered
      given false = numbered
  import_unless-Numbered store link none numbered = λ id n above is_n.
      let (low, apart) =
        raise_to_lower store.next_link_id n (link_number to_string parse_u64 weight_eq link.id)
          above in
      missing id n (numbered id n low is_n) apart is_n
    where
      missing :
          (id : Bytes) (n : ℕ)
          → get_link store id ≡ none
          → link_number to_string parse_u64 weight_eq link.id ≢ some n
          → link_number to_string parse_u64 weight_eq id ≡ some n
          → find (has_link_id id) (store.links ++ link ∷ []) ≡ none
      missing id n absent apart is_n = find-append-none (has_link_id id) store.links link absent (
          ground (
            arith,
            ==_iff link.id id,
            ap (link_number to_string parse_u64 weight_eq) {x = link.id} {y = id},
            is_n,
            apart,
          ))

  import_link-next :
      (store : LinkStore) (link : Link)
      → store.next_link_id ≤ (import_link to_string parse_u64 weight_eq store link).0.next_link_id
  unfolding import_link import_unless raise_to
  import_link-next store link = ground (
    arith,
    Option-cases (get_link store link.id),
    Option-cases (link_number to_string parse_u64 weight_eq link.id),
  )

  import_link-Numbered :
      (store : LinkStore) (link : Link)
      → IsNumbered store
      → Numbered (import_link to_string parse_u64 weight_eq store link)
  unfolding import_link
  import_link-Numbered store link numbered = given (is_empty link.id)
    where
      given :
          (b : Bool)
          → Numbered (
              if b
              then (store, err invalid_input)
              else import_unless to_string parse_u64 weight_eq store link (get_link store link.id))
      given true = numbered
      given false = import_unless-Numbered store link (get_link store link.id) numbered

  -- An import, whatever it does, keeps the numbers of links at or below the last one given out, which
  -- it never lowers.
  pub import_link-IsNumbered :
      (store : LinkStore) (link : Link)
      → IsNumbered store
      → (store.next_link_id ≤ (import_link to_string parse_u64 weight_eq store link).0.next_link_id)
        × IsNumbered (import_link to_string parse_u64 weight_eq store link).0
  import_link-IsNumbered store link numbered =
      (import_link-next store link, import_link-Numbered store link numbered)
