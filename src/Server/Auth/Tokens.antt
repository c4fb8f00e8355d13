-- ===== src/Server/Auth/Tokens.antt =====
-- The bearer tokens that are good for a request.
use thingd.Base.{
  Bytes, ◌≡◌, refl, sym, ap, ◌∙◌, inl, inr, true, false, Option, none, some, Bool-cases,
  Option-cases, nat_ord, list_ord, pair_ord,
}
use thingd.Server.Auth.{
  AppResult, ok, err, unauthorized, ok_or, and_then, Text, Http, Jwt, validate_tenant_id,
}
use thingd.Server.Auth.Tenants.{validate_tenant_id-IsTenantId}
use thingd.Events.{is_empty}
use thingd.Base.BTreeMap.{get}
use thingd.Server.Auth.Middleware.{is_multi, extract_tenant_id, AppState, Request, expected_token}

-- Inversion of `?`.
pub and_then-ok {ℓ κ} :
    {A : Type ℓ} {B : Type κ} (r : AppResult A) (next : A → AppResult B) (b : B)
    → and_then r next ≡ ok b
    → (a : A) × (r ≡ ok a) × (next a ≡ ok b)
and_then-ok (err x) next b e = cc
and_then-ok (ok a) next b e = (a, refl, e)

pub ok_or-ok {ℓ} :
    {A : Type ℓ} (o : Option A) (a : A)
    → ◌≡◌ {A = AppResult A} (ok_or o unauthorized) (ok a)
    → o ≡ some a
ok_or-ok none a e = cc
ok_or-ok (some b) a e = cc

module _ (t : Text) (h : Http) (j : Jwt) where
  -- The tenant that a request names: its header, trimmed, of the safe form.
  abbrev pub Names : AppState t h j → Request t h j → Bytes → Type 0
  Names state req tenant =
      (v : Bytes) × (h.header state.tenant_config.header req.headers ≡ some v)
      × (tenant ≡ t.trim v)
      × (◌≡◌ {A = AppResult Bytes} (validate_tenant_id t tenant) (ok tenant))

  -- The tokens that are good for a request: the server's own in single mode, and in multi-tenant
  -- mode that of the tenant that the request names.
  pub data IsGood (state : AppState t h j) (req : Request t h j) (token : Bytes) : Type 0 where
    of_server :
        is_multi state.tenant_config.mode ≡ false
        → token ≡ state.auth_token
        → IsGood state req token
    of_tenant :
        (tenant : Bytes)
        → is_multi state.tenant_config.mode ≡ true
        → Names state req tenant
        → get tenant state.tenant_tokens ≡ some token
        → IsGood state req token

  named_tenant :
      (state : AppState t h j) (req : Request t h j) (o : Option Bytes)
      → is_multi state.tenant_config.mode ≡ true
      → extract_tenant_id t h j req.headers state.tenant_config ≡ ok o
      → (tenant : Bytes) × (o ≡ some tenant) × Names state req tenant
  unfolding extract_tenant_id
  named_tenant state req o multi e =
      let chosen = rw multi at e in
      elim (Option-cases (h.header state.tenant_config.header req.headers)) [
        | inl missing ↦ absurd (let x = rw missing at chosen in cc)
        | inr (v, there) ↦ elim (Bool-cases (is_empty (t.trim v))) [
          | inl empty ↦ absurd (let x = rw (there, empty) at chosen in cc)
          | inr full ↦
              let (tenant, valid, last) = and_then-ok _ _ o (rw (there, full) at chosen) in
              let same = (validate_tenant_id-IsTenantId t (t.trim v) tenant valid).0 in
              (
                tenant,
                (let x = last in cc),
                (v, there, same, ap (validate_tenant_id t) same ∙ valid),
              )
        ]
      ]

  pub expected_token-IsGood :
      (state : AppState t h j) (req : Request t h j) (token : Bytes)
      → expected_token t h j state req.headers ≡ ok token
      → IsGood state req token
  unfolding expected_token
  expected_token-IsGood state req token e = elim (Bool-cases (is_multi state.tenant_config.mode)) [
    | inr mode ↦ of_server mode (let r = rw mode at e in cc)
    | inl mode ↦
        let (o, eo, more) = and_then-ok _ _ token (rw mode at e) in
        let (found, ef, last) = and_then-ok _ _ token more in
        let (tenant, same, names) = named_tenant state req o mode eo in
        let found_same = ok_or-ok o found ef in
        let hit : some tenant ≡ some found = sym same ∙ found_same in
        let at_found : tenant ≡ found = cc in
        of_tenant tenant mode names (rw at_found (ok_or-ok _ token last))
  ]

  pub token_good :
      (state : AppState t h j) (req : Request t h j) (token : Bytes)
      → IsGood state req token
      → expected_token t h j state req.headers ≡ ok token
  unfolding expected_token extract_tenant_id
  token_good state req token (of_server mode same) = rw mode (ap ok (sym same))
  token_good state req token (of_tenant tenant mode (v, there, same, valid) found) =
      let full = (validate_tenant_id-IsTenantId t tenant tenant valid).1.0 in
      rw (mode, there, ← same, full, valid, found) refl
