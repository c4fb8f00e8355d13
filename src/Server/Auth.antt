-- ===== src/Server/Auth.antt =====
-- Authentication of crates/thingd-server/src/auth.rs: the comparison of tokens, tenant identities, the
-- signing-key cache and the middleware. An error keeps its status and drops its text. The crates
-- http, jsonwebtoken and reqwest, and the Unicode tables of the standard library, are parameters.
use thingd.Base.{
  ℕ, zero, suc, ◌+◌, ◌-◌, ◌*◌, ◌/◌, ◌%◌, ◌^◌, ◌≤◌, ◌<◌, min, max, Bytes, codes, ◌≡◌, refl, sym, ap,
  ◌∙◌, ◌≢◌, ◌↔◌, ◌⊎◌, inl, inr, Bool, true, false, not, ◌&&◌, ◌||◌, Option, none, some, List, [],
  ◌∷◌, ◌++◌, map, arith, ltb, leb, nat_beq, ltb→lt, lt→ltb, leb→le, le→leb, Bool-cases,
  Option-cases, if◌then◌else◌, u32_max, u64_max, i64_max, sat_add, Ord, ◌==◌, ◌<?◌, ==_iff, ==_refl,
  nat_ord, list_ord, pair_ord, list_beq, list_blt, length, take, drop, find, any, all, filter,
  last?, All, In, Empty, update_find, find-test, find-In, find-none-In, length-append, length-take,
  length-drop, take-append, drop-append, length-filter-le, contains, starts_with,
  starts_with-append,
}
use Prim.Native.Nat.{bit_or, bit_xor}
use thingd.Base.BTreeMap.{BTreeMap, get, insert}
use thingd.Events.{is_empty}
mod Compare
mod Tenants
mod Keys
pub mod Middleware
mod Gate
mod Tokens
mod Tests

pub data AppError : Type 0 where
  unauthorized bad_request : AppError

pub data AppResult {ℓ} (A : Type ℓ) : Type ℓ where
  ok : A → AppResult A
  err : AppError → AppResult A

-- `ok_or_else`, and `?` on its result.
abbrev pub ok_or {ℓ} : {A : Type ℓ} → Option A → AppError → AppResult A
ok_or none e = err e
ok_or (some a) e = ok a

abbrev pub and_then {ℓ κ} :
    {A : Type ℓ} {B : Type κ} → AppResult A → (A → AppResult B) → AppResult B
and_then (err e) next = err e
and_then (ok a) next = next a

-- `a.bytes().zip(b.bytes()).fold(acc, |acc, (x, y)| acc | (x ^ y))`
unfoldable pub fold_differences : ℕ → Bytes → Bytes → ℕ
fold_differences acc [] b = acc
fold_differences acc (x ∷ a) [] = acc
fold_differences acc (x ∷ a) (y ∷ b) = fold_differences (bit_or acc (bit_xor x y)) a b

unfoldable pub constant_time_eq : Bytes → Bytes → Bool
constant_time_eq a b = if length a == length b then fold_differences 0 a b == 0 else false

abbrev pub public_path_prefixes : List Bytes
public_path_prefixes = codes "/healthz" ∷ codes "/ready" ∷ codes "/metrics" ∷ []

unfoldable pub skip_auth_for_path : Bytes → Bool
skip_auth_for_path path = any (λ p. starts_with path p) public_path_prefixes

-- The standard library's view of a text: `chars`, `char::is_alphanumeric` and `str::trim`. UTF-8
-- keeps each ASCII character as its byte.
pub record Text : Type 0 where
  pub chars : Bytes → List ℕ
  pub is_alphanumeric : ℕ → Bool
  pub trim : Bytes → Bytes
  pub chars_ascii : (s : Bytes) (b : ℕ) → In b s → b < 128 → In b (chars s)
  pub alphanumeric_ascii :
      (c : ℕ)
      → c < 128
      → is_alphanumeric c
        ≡ (leb b'0' c && leb c b'9' || (leb b'A' c && leb c b'Z' || leb b'a' c && leb c b'z'))

-- `contains` on a text.
unfoldable pub contains_str : Bytes → Bytes → Bool
contains_str [] p = starts_with [] p
contains_str (b ∷ s) p = starts_with (b ∷ s) p || contains_str s p

unfoldable pub is_tenant_char : Text → ℕ → Bool
is_tenant_char text c = text.is_alphanumeric c || (c == b'-' || c == b'_')

unfoldable pub validate_tenant_id : Text → Bytes → AppResult Bytes
validate_tenant_id text tenant_id =
    if is_empty tenant_id || (contains_str tenant_id (codes "..") || contains b'/' tenant_id)
    then err unauthorized
    else if all (is_tenant_char text) (text.chars tenant_id)
    then ok tenant_id
    else err unauthorized

-- What the middleware uses of the http crate: a header's first value if it is visible ASCII, the
-- names and values that parse, and an insertion, which replaces all values of a name.
pub record Http : Type 1 where
  pub Headers : Type 0
  pub header : Bytes → Headers → Option Bytes
  pub parse_name : Bytes → Option Bytes
  pub parse_value : Bytes → Option Bytes
  pub insert_header : Bytes → Bytes → Headers → Headers
  pub header_insert :
      (name value n v : Bytes) (h : Headers)
      → parse_name name ≡ some n
      → parse_value value ≡ some v
      → header name (insert_header n v h) ≡ some value

pub record TokenHeader : Type 0 where
  pub is_rs256 : Bool
  pub kid : Option Bytes

-- What the verifier uses of the jsonwebtoken crate and of a JSON value.
pub record Jwt : Type 1 where
  pub Key : Type 0
  pub Claims : Type 0
  pub from_rsa_components : Bytes → Bytes → Option Key
  pub decode_header : Bytes → Option TokenHeader
  pub decode : Bytes → Key → Bytes → Bytes → Option Claims
  pub claim : Bytes → Claims → Option Bytes

pub record JsonWebKey : Type 0 where
  pub kid : Bytes
  pub kty : Bytes
  pub n : Option Bytes
  pub e : Option Bytes

pub record KeyCache (K : Type 0) : Type 0 where
  pub fetched_at : Option ℕ
  pub keys : BTreeMap Bytes K

pub record AuthVerifier (K : Type 0) : Type 0 where
  pub issuer : Bytes
  pub audience : Bytes
  pub tenant_claim : Bytes
  pub cache_ttl : ℕ
  pub cache : KeyCache K

-- One answer of the key server, and when it came; none is a failed request or an unreadable answer.
abbrev pub Answer : Type 0
Answer = ℕ × Option (List JsonWebKey)

-- The clock at the call, and the answers to the at most two requests of one call.
pub record Outside : Type 0 where
  pub now : ℕ
  pub first : Answer
  pub second : Answer

module _ (j : Jwt) where
  unfoldable pub rsa_key : JsonWebKey → Option (Bytes × Bytes)
  rsa_key jwk =
      if jwk.kty == codes "RSA"
      then elim jwk.n [ none ↦ none | some n ↦ elim jwk.e [ none ↦ none | some e ↦ some (n, e) ] ]
      else none

  unfoldable pub load_key : JsonWebKey → BTreeMap Bytes j.Key → AppResult (BTreeMap Bytes j.Key)
  load_key jwk keys = elim (rsa_key jwk) [
    | none ↦ ok keys
    | some (n, e) ↦
        and_then (ok_or (j.from_rsa_components n e) unauthorized)
          (λ key. ok (insert jwk.kid key keys))
  ]

  unfoldable pub load_keys :
      List JsonWebKey → BTreeMap Bytes j.Key → AppResult (BTreeMap Bytes j.Key)
  load_keys [] keys = ok keys
  load_keys (jwk ∷ more) keys = and_then (load_key jwk keys) (load_keys more)

  -- The end of a fetch: the loaded keys take the cache's place.
  unfoldable pub store_keys :
      ℕ → KeyCache j.Key → AppResult (BTreeMap Bytes j.Key) → KeyCache j.Key × AppResult (Unit {0})
  store_keys now cache (err e) = (cache, err e)
  store_keys now cache (ok []) = (cache, err unauthorized)
  store_keys now cache (ok (entry ∷ keys)) =
      (record { fetched_at = some now; keys = entry ∷ keys }, ok tt)

  unfoldable pub fetch_keys : Answer → KeyCache j.Key → KeyCache j.Key × AppResult (Unit {0})
  fetch_keys (now, none) cache = (cache, err unauthorized)
  fetch_keys (now, some keys) cache = store_keys now cache (load_keys keys [])

  unfoldable pub is_fresh : ℕ → ℕ → KeyCache j.Key → Bool
  is_fresh now ttl cache = elim cache.fetched_at [
    | none ↦ false
    | some fetched ↦ ltb (now - fetched) ttl
  ]

  -- A second fetch for a key that is not there, and the last look.
  unfoldable pub retry_key :
      Bytes → KeyCache j.Key × AppResult (Unit {0}) → KeyCache j.Key × AppResult j.Key
  retry_key kid (cache, err e) = (cache, err e)
  retry_key kid (cache, ok done) = (cache, ok_or (get kid cache.keys) unauthorized)

  unfoldable pub find_key :
      Bytes → Answer → KeyCache j.Key × AppResult (Unit {0}) → KeyCache j.Key × AppResult j.Key
  find_key kid second (cache, err e) = (cache, err e)
  find_key kid second (cache, ok done) = elim (get kid cache.keys) [
    | some key ↦ (cache, ok key)
    | none ↦ retry_key kid (fetch_keys second cache)
  ]

  unfoldable pub key_for : Outside → ℕ → Bytes → KeyCache j.Key → KeyCache j.Key × AppResult j.Key
  key_for outside ttl kid cache =
      let has_key : Bool = elim (get kid cache.keys) [ none ↦ false | some key ↦ true ] in
      find_key kid outside.second (
        if not (is_fresh outside.now ttl cache) && not has_key
        then fetch_keys outside.first cache
        else (cache, ok tt))

  -- The tenant that a token's claims name, and the claims of a token that the key signed.
  unfoldable pub claimed_tenant : Text → AuthVerifier j.Key → j.Claims → AppResult Bytes
  claimed_tenant text verifier claims =
      and_then (ok_or (j.claim verifier.tenant_claim claims) unauthorized) (validate_tenant_id text)

  unfoldable pub signed_tenant : Text → AuthVerifier j.Key → Bytes → j.Key → AppResult Bytes
  signed_tenant text verifier token key =
      and_then (ok_or (j.decode token key verifier.issuer verifier.audience) unauthorized)
        (claimed_tenant text verifier)

  unfoldable pub tenant_of : Text → AuthVerifier j.Key → Bytes → AppResult j.Key → AppResult Bytes
  tenant_of text verifier token found = and_then found (signed_tenant text verifier token)

  unfoldable pub tenant_id :
      Text → Outside → AuthVerifier j.Key → Bytes → AuthVerifier j.Key × AppResult Bytes
  tenant_id text outside verifier token = elim (j.decode_header token) [
    | none ↦ (verifier, err unauthorized)
    | some token_header ↦
        if token_header.is_rs256
        then elim token_header.kid [
          | none ↦ (verifier, err unauthorized)
          | some kid ↦
              let (cache, found) = key_for outside verifier.cache_ttl kid verifier.cache in
              (record verifier { cache = cache }, tenant_of text verifier token found)
        ]
        else (verifier, err unauthorized)
  ]
