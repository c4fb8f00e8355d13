-- ===== src/Server/Auth/Gate.antt =====
-- What lets a request pass the middleware.
use thingd.Base.{
  Bytes, ◌≡◌, sym, ap, ◌↔◌, inl, inr, true, false, Option, none, some, arith, Bool-cases,
  Option-cases, ==_iff, nat_ord, list_ord, pair_ord,
}
use thingd.Server.Auth.{
  AppResult, ok, unauthorized, ok_or, Text, Http, Jwt, AuthVerifier, Outside, validate_tenant_id,
  tenant_id, tenant_of, claimed_tenant, signed_tenant, key_for,
}
use thingd.Server.Auth.Compare.{constant_time_eq-equality}
use thingd.Server.Auth.Tenants.{IsTenantId, validate_tenant_id-IsTenantId}
use thingd.Server.Auth.Middleware.{
  AppState, Request, TenantConfig, is_exempt, provided, names_tenant, set_tenant, matches_token,
  pass_by_token, pass_by_jwt, active_verifier, auth_middleware,
}
use thingd.Server.Auth.Tokens.{and_then-ok, ok_or-ok, IsGood, expected_token-IsGood, token_good}

module _ (t : Text) (h : Http) (j : Jwt) where
  set_tenant-header :
      (config : TenantConfig) (req req' : Request t h j) (tenant : Bytes)
      → set_tenant t h j config req tenant ≡ ok req'
      → h.header config.header req'.headers ≡ some tenant
  unfolding set_tenant
  set_tenant-header config req req' tenant e =
      elim (Bool-cases (names_tenant t h j (h.header config.header req.headers) tenant)) [
        | inr other ↦ absurd (ground (arith, rw (set_tenant, other) at e))
        | inl named ↦
            let (n, en, more) = and_then-ok _ _ req' (rw (set_tenant, named) at e) in
            let (v, ev, last) = and_then-ok _ _ req' more in
            let same : record req { headers = h.insert_header n v req.headers } ≡ req' = cc in
            rw (← same) (
              h.header_insert config.header tenant n v req.headers (ok_or-ok _ n en)
                (ok_or-ok _ v ev))
      ]

  set_tenant-names :
      (config : TenantConfig) (req req' : Request t h j) (tenant : Bytes)
      → set_tenant t h j config req tenant ≡ ok req'
      → names_tenant t h j (h.header config.header req.headers) tenant ≡ true
  unfolding set_tenant
  set_tenant-names config req req' tenant e = ground (arith, e)

  matches_token-found :
      (o : Option Bytes) (expected : Bytes)
      → (matches_token t h j o expected ≡ true) ↔ (o ≡ some expected)
  unfolding matches_token
  matches_token-found none expected = (λ e. cc, λ e. cc)
  matches_token-found (some p) expected =
      let same = constant_time_eq-equality p expected in
      let test = ==_iff p expected in ground (arith, same, test)

  -- Without a verifier, and with no permission to pass unauthenticated, a request that is not
  -- exempt passes exactly when its bearer token is good for it: the server's own in single mode,
  -- and in multi-tenant mode the one kept for the tenant that the request names in the tenant
  -- header. It then passes unchanged.
  pub auth_middleware-token :
      (outside : Outside) (state : AppState t h j) (req req' : Request t h j)
      → is_exempt t h j state req ≡ false
      → active_verifier t h j state ≡ none
      → state.allow_unauthenticated ≡ false
      → ((auth_middleware t h j outside state req).1 ≡ ok req') ↔ (
          (token : Bytes) × (provided t h j req.headers ≡ some token)
          × IsGood t h j state req token
          × (req' ≡ req))
  unfolding auth_middleware pass_by_token
  auth_middleware-token outside state req req' f g k = (
    λ e.
        (let (expected, x, more) = and_then-ok _ _ req' (rw (auth_middleware, f, g) at e) in
          elim (Bool-cases (matches_token t h j (provided t h j req.headers) expected)) [
            | inl m ↦ (
              expected,
              (matches_token-found (provided t h j req.headers) expected).0 m,
              expected_token-IsGood t h j state req expected x,
              (let r = rw m at more in cc),
            )
            | inr m ↦ absurd (ground (arith, rw (m, k) at more))
          ]),
    λ (token, p, good, same).
        let m = (matches_token-found (provided t h j req.headers) token).1 p in
        let x = token_good t h j state req token good in
        rw (auth_middleware, f, g, pass_by_token, x, m) (ap ok (sym same)),
  )

  tenant_of-IsTenantId :
      (verifier : AuthVerifier j.Key) (token tenant : Bytes) (found : AppResult j.Key)
      → tenant_of j t verifier token found ≡ ok tenant
      → IsTenantId tenant
  unfolding tenant_of signed_tenant claimed_tenant
  tenant_of-IsTenantId verifier token tenant found e =
      let (key, ek, a) = and_then-ok found (signed_tenant j t verifier token) tenant e in
      let decoded = ok_or (j.decode token key verifier.issuer verifier.audience) unauthorized in
      let (claims, ec, b) = and_then-ok decoded (claimed_tenant j t verifier) tenant a in
      let claim = ok_or (j.claim verifier.tenant_claim claims) unauthorized in
      let (named, en, c) = and_then-ok claim (validate_tenant_id t) tenant b in
      (validate_tenant_id-IsTenantId t named tenant c).1

  pub tenant_id-IsTenantId :
      (outside : Outside) (verifier : AuthVerifier j.Key) (token tenant : Bytes)
      → (tenant_id j t outside verifier token).1 ≡ ok tenant
      → IsTenantId tenant
  unfolding tenant_id
  tenant_id-IsTenantId outside verifier token tenant e =
      elim (Option-cases (j.decode_header token)) [
        | inl none_there ↦ absurd (ground (arith, rw (none_there, tenant_id) at e))
        | inr (head, there) ↦ elim (Bool-cases head.is_rs256) [
          | inr other ↦ absurd (ground (arith, rw (there, tenant_id, other) at e))
          | inl rs ↦ elim (Option-cases head.kid) [
            | inl no_kid ↦ absurd (ground (arith, rw (there, tenant_id, rs, no_kid) at e))
            | inr (kid, has) ↦
                tenant_of-IsTenantId verifier token tenant
                  (key_for j outside verifier.cache_ttl kid verifier.cache).1
                  (rw (there, tenant_id, rs, has) at e)
          ]
        ]
      ]

  -- In multi-tenant mode with a verifier, a request that is not exempt and passes carries a token
  -- that the verifier accepts for some tenant; the tenant's identity is of the safe form; the
  -- request passed on has exactly this tenant in the tenant header; and a tenant that the caller
  -- put there was the same.
  pub auth_middleware-jwt :
      (outside : Outside) (state : AppState t h j) (verifier : AuthVerifier j.Key)
      (req req' : Request t h j)
      → is_exempt t h j state req ≡ false
      → active_verifier t h j state ≡ some verifier
      → (auth_middleware t h j outside state req).1 ≡ ok req'
      → (token : Bytes) × (tenant : Bytes) × (provided t h j req.headers ≡ some token)
        × ((tenant_id j t outside verifier token).1 ≡ ok tenant)
        × IsTenantId tenant
        × (h.header state.tenant_config.header req'.headers ≡ some tenant)
        × (names_tenant t h j (h.header state.tenant_config.header req.headers) tenant ≡ true)
  unfolding auth_middleware pass_by_jwt
  auth_middleware-jwt outside state verifier req req' f g e =
      let passed = rw (auth_middleware, f, g) at e in
      elim (Option-cases (provided t h j req.headers)) [
        | inl missing ↦ absurd (ground (arith, rw (pass_by_jwt, missing) at passed))
        | inr (token, there) ↦
            let (tenant, accepted, last) =
              and_then-ok _ _ req' (rw (pass_by_jwt, there) at passed) in
            (
              token,
              tenant,
              there,
              accepted,
              tenant_id-IsTenantId outside verifier token tenant accepted,
              set_tenant-header state.tenant_config req req' tenant last,
              set_tenant-names state.tenant_config req req' tenant last,
            )
      ]
