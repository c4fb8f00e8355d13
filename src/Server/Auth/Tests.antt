-- ===== src/Server/Auth/Tests.antt =====
-- Requests through the middleware, with ASCII texts, a plain header map and tokens that are their
-- own claims.
use thingd.Base.{
  ℕ, Bytes, codes, ◌≡◌, refl, ◌↔◌, Bool, true, false, ◌&&◌, ◌||◌, Option, none, some, [], ◌∷◌, leb,
  ◌==◌, ==_refl, nat_ord, list_ord, pair_ord, list_beq, list_blt, starts_with,
}
use thingd.Base.BTreeMap.{BTreeMap, get, insert, get-insert}
use thingd.Server.Auth.{
  ok, err, unauthorized, Text, Http, Jwt, KeyCache, AuthVerifier, Outside, constant_time_eq,
  fold_differences, validate_tenant_id, contains_str, is_tenant_char, tenant_id, tenant_of,
  signed_tenant, claimed_tenant, key_for, find_key, is_fresh, skip_auth_for_path,
}
use thingd.Server.Auth.Compare.{constant_time_eq-equality}
use thingd.Server.Auth.Tenants.{IsTenantId, validate_tenant_id-IsTenantId}
use thingd.Server.Auth.Keys.{key_for-cached}
use thingd.Server.Auth.Middleware.{
  AppState, Request, multi_tenant, is_exempt, strip_bearer, provided, names_tenant, set_tenant,
  pass_by_jwt, active_verifier, auth_middleware,
}
use thingd.Server.Auth.Tokens.{IsGood}
use thingd.Server.Auth.Gate.{auth_middleware-token, auth_middleware-jwt}

abbrev ascii_alphanumeric : ℕ → Bool
ascii_alphanumeric c =
    leb b'0' c && leb c b'9' || (leb b'A' c && leb c b'Z' || leb b'a' c && leb c b'z')

abbrev ascii : Text
ascii = record {
  chars = λ s. s;
  is_alphanumeric = ascii_alphanumeric;
  trim = λ s. s;
  chars_ascii = λ s b i h. i;
  alphanumeric_ascii = λ c h. refl;
}

found_again :
    (name value n v : Bytes) (h : BTreeMap Bytes Bytes)
    → some name ≡ some n
    → some value ≡ some v
    → get name (insert n v h) ≡ some value
found_again name value n v h e f =
    let a : name ≡ n = cc in
    let b : value ≡ v = cc in rw (get-insert n name v h, a, ==_refl n, b) refl

abbrev plain_http : Http
plain_http = record {
  Headers = BTreeMap Bytes Bytes;
  header = get;
  parse_name = some;
  parse_value = some;
  insert_header = insert;
  header_insert = found_again;
}

abbrev plain_jwt : Jwt
plain_jwt = record {
  Key = ℕ;
  Claims = Bytes;
  from_rsa_components = λ n e. some 7;
  decode_header = λ token. some (record { is_rs256 = true; kid = some (codes "k1") });
  decode = λ token key issuer audience. some token;
  claim = λ name claims. some claims;
}

abbrev cached : KeyCache ℕ
cached = record { fetched_at = some 100; keys = (codes "k1", 7) ∷ [] }

abbrev verifier : AuthVerifier ℕ
verifier = record {
  issuer = codes "https://cloud.example";
  audience = codes "thingd-runtime";
  tenant_claim = codes "tenant_id";
  cache_ttl = 300;
  cache = cached;
}

-- The key server is down, and the cache is old.
abbrev outage : Outside
outage = record { now = 9000; first = (9000, none); second = (9001, none) }

abbrev tenants : Option (AuthVerifier ℕ) → AppState ascii plain_http plain_jwt
tenants v = record {
  auth_token = codes "server";
  tenant_config = record { mode = multi_tenant; header = codes "x-tenant-id" };
  auth_verifier = v;
  tenant_tokens = (codes "acme", codes "acme-token") ∷ [];
  allow_unauthenticated = false;
}

abbrev request : Request ascii plain_http plain_jwt
request = record {
  method = codes "POST";
  path = codes "/v1/objects";
  headers = (codes "authorization", codes "Bearer acme") ∷ [];
}

abbrev tagged_request : Request ascii plain_http plain_jwt
tagged_request = record {
  method = codes "POST";
  path = codes "/v1/objects";
  headers =
      (codes "authorization", codes "Bearer acme-token") ∷ (codes "x-tenant-id", codes "acme") ∷ [];
}

abbrev passed_on : Request ascii plain_http plain_jwt
passed_on = record request {
  headers = (codes "authorization", codes "Bearer acme") ∷ (codes "x-tenant-id", codes "acme") ∷ [];
}

test_differ : constant_time_eq (codes "secret") (codes "secreT") ≡ false
unfolding constant_time_eq fold_differences
test_differ = refl

constant_time_eq-equality_example :
    constant_time_eq (codes "secret") (codes "secreT") ≡ (codes "secret" == codes "secreT")
constant_time_eq-equality_example = constant_time_eq-equality (codes "secret") (codes "secreT")

test_accepted : validate_tenant_id ascii (codes "team_4-b") ≡ ok (codes "team_4-b")
unfolding validate_tenant_id contains_str is_tenant_char starts_with list_beq
test_accepted = refl

test_path : validate_tenant_id ascii (codes "a/b") ≡ err unauthorized
unfolding validate_tenant_id contains_str is_tenant_char starts_with list_beq
test_path = refl

validate_tenant_id-IsTenantId_example :
    (codes "team_4-b" ≡ codes "team_4-b") × IsTenantId (codes "team_4-b")
validate_tenant_id-IsTenantId_example =
    validate_tenant_id-IsTenantId ascii (codes "team_4-b") (codes "team_4-b") test_accepted

test_cached : get (codes "k1") cached.keys ≡ some 7
unfolding get list_beq
test_cached = refl

key_for-cached_example : key_for plain_jwt outage 300 (codes "k1") cached ≡ (cached, ok 7)
key_for-cached_example = key_for-cached plain_jwt outage 300 (codes "k1") cached 7 test_cached

test_guarded : is_exempt ascii plain_http plain_jwt (tenants none) tagged_request ≡ false
unfolding is_exempt skip_auth_for_path starts_with list_beq
test_guarded = refl

test_guarded_jwt : is_exempt ascii plain_http plain_jwt (tenants (some verifier)) request ≡ false
unfolding is_exempt skip_auth_for_path starts_with list_beq
test_guarded_jwt = refl

test_no_verifier : active_verifier ascii plain_http plain_jwt (tenants none) ≡ none
unfolding active_verifier
test_no_verifier = refl

test_verifier : active_verifier ascii plain_http plain_jwt (tenants (some verifier)) ≡ some verifier
unfolding active_verifier
test_verifier = refl

auth_middleware-token_example :
    ((auth_middleware ascii plain_http plain_jwt outage (tenants none) tagged_request).1
      ≡ ok tagged_request)
    ↔ ((token : Bytes) × (provided ascii plain_http plain_jwt tagged_request.headers ≡ some token)
        × IsGood ascii plain_http plain_jwt (tenants none) tagged_request token
        × (tagged_request ≡ tagged_request))
auth_middleware-token_example =
    auth_middleware-token ascii plain_http plain_jwt outage (tenants none) tagged_request
      tagged_request test_guarded test_no_verifier refl

test_jwt :
    (auth_middleware ascii plain_http plain_jwt outage (tenants (some verifier)) request).1
    ≡ ok passed_on
unfolding auth_middleware is_exempt skip_auth_for_path starts_with list_beq list_blt active_verifier
    pass_by_jwt provided strip_bearer tenant_id tenant_of signed_tenant claimed_tenant key_for
    find_key is_fresh validate_tenant_id contains_str is_tenant_char set_tenant names_tenant get
    insert
test_jwt = refl

auth_middleware-jwt_example :
    (token : Bytes) × (tenant : Bytes) × (provided ascii plain_http plain_jwt request.headers
      ≡ some token)
    × ((tenant_id plain_jwt ascii outage verifier token).1 ≡ ok tenant)
    × IsTenantId tenant
    × (get (codes "x-tenant-id") passed_on.headers ≡ some tenant)
    × (names_tenant ascii plain_http plain_jwt (get (codes "x-tenant-id") request.headers) tenant
        ≡ true)
auth_middleware-jwt_example =
    auth_middleware-jwt ascii plain_http plain_jwt outage (tenants (some verifier)) verifier request
      passed_on test_guarded_jwt test_verifier test_jwt
