-- ===== src/Server/Auth/Middleware.antt =====
-- The middleware of crates/thingd-server/src/auth.rs: what it does to a request before the handler.
use thingd.Base.{
  Bytes, codes, Bool, true, false, not, ◌&&◌, ◌||◌, Option, none, some, if◌then◌else◌, ◌==◌,
  nat_ord, list_ord, pair_ord, drop, starts_with,
}
use thingd.Base.BTreeMap.{BTreeMap, get}
use thingd.Events.{is_empty}
use thingd.Server.Auth.{
  AppResult, ok, err, unauthorized, bad_request, ok_or, and_then, Text, Http, Jwt, AuthVerifier,
  Outside, constant_time_eq, skip_auth_for_path, validate_tenant_id, tenant_id,
}

pub data TenantMode : Type 0 where
  single multi_tenant : TenantMode

abbrev pub is_multi : TenantMode → Bool
is_multi single = false
is_multi multi_tenant = true

pub record TenantConfig : Type 0 where
  pub mode : TenantMode
  pub header : Bytes

module _ (t : Text) (h : Http) (j : Jwt) where
  open h use {Headers, header, parse_name, parse_value, insert_header}

  pub record AppState : Type 0 where
    pub auth_token : Bytes
    pub tenant_config : TenantConfig
    pub auth_verifier : Option (AuthVerifier j.Key)
    pub tenant_tokens : BTreeMap Bytes Bytes
    pub allow_unauthenticated : Bool

  pub record Request : Type 0 where
    pub method : Bytes
    pub path : Bytes
    pub headers : Headers

  unfoldable pub is_exempt : AppState → Request → Bool
  is_exempt state req =
      (is_empty state.auth_token && not (is_multi state.tenant_config.mode))
      || (req.method == codes "OPTIONS" || skip_auth_for_path req.path)

  unfoldable pub strip_bearer : Bytes → Option Bytes
  strip_bearer v = if starts_with v (codes "Bearer ") then some (drop 7 v) else none

  unfoldable pub provided : Headers → Option Bytes
  provided headers = elim (header (codes "authorization") headers) [
    | none ↦ none
    | some v ↦ strip_bearer v
  ]

  -- A tenant that the request names is the token's, if it names one.
  unfoldable pub names_tenant : Option Bytes → Bytes → Bool
  names_tenant none tenant = true
  names_tenant (some named) tenant = t.trim named == tenant

  unfoldable pub set_tenant : TenantConfig → Request → Bytes → AppResult Request
  set_tenant config req tenant =
      if not (names_tenant (header config.header req.headers) tenant)
      then err unauthorized
      else and_then (ok_or (parse_name config.header) unauthorized) λ name.
        and_then (ok_or (parse_value tenant) unauthorized)
          λ value. ok (record req { headers = insert_header name value req.headers })

  unfoldable pub extract_tenant_id : Headers → TenantConfig → AppResult (Option Bytes)
  extract_tenant_id headers config =
      if not (is_multi config.mode) then ok none else elim (header config.header headers) [
        | none ↦ err bad_request
        | some v ↦
            if is_empty (t.trim v)
            then err bad_request
            else and_then (validate_tenant_id t (t.trim v)) (λ tid. ok (some tid))
      ]

  unfoldable pub expected_token : AppState → Headers → AppResult Bytes
  expected_token state headers =
      if not (is_multi state.tenant_config.mode)
      then ok state.auth_token
      else and_then (extract_tenant_id headers state.tenant_config) λ found.
        and_then (ok_or found unauthorized)
          λ tenant. ok_or (get tenant state.tenant_tokens) unauthorized

  unfoldable pub matches_token : Option Bytes → Bytes → Bool
  matches_token none expected = false
  matches_token (some p) expected = constant_time_eq p expected

  unfoldable pub pass_by_token : AppState → Request → AppResult Request
  pass_by_token state req = and_then (expected_token state req.headers) λ expected.
      if matches_token (provided req.headers) expected
      then ok req
      else if state.allow_unauthenticated
      then ok req
      else err unauthorized

  unfoldable pub pass_by_jwt :
      Outside → AppState → AuthVerifier j.Key → Request → AppState × AppResult Request
  pass_by_jwt outside state verifier req = elim (provided req.headers) [
    | none ↦ (state, err unauthorized)
    | some token ↦
        let (verifier', tenant) = tenant_id j t outside verifier token in
        (
          record state { auth_verifier = some verifier' },
          and_then tenant (set_tenant state.tenant_config req),
        )
  ]

  -- The verifier that this mode uses.
  unfoldable pub active_verifier : AppState → Option (AuthVerifier j.Key)
  active_verifier state = if is_multi state.tenant_config.mode then state.auth_verifier else none

  -- The request that the handler runs on, or the refusal.
  unfoldable pub auth_middleware : Outside → AppState → Request → AppState × AppResult Request
  auth_middleware outside state req =
      if is_exempt state req then (state, ok req) else elim (active_verifier state) [
        | some verifier ↦ pass_by_jwt outside state verifier req
        | none ↦ (state, pass_by_token state req)
      ]
