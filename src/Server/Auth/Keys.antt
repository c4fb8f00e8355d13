-- ===== src/Server/Auth/Keys.antt =====
-- The signing keys of the verifier: what its cache serves and when it asks the key server.
use thingd.Base.{
  ℕ, Bytes, ◌≡◌, refl, ap, inl, inr, Option, none, some, arith, Option-cases, nat_ord, list_ord,
  pair_ord,
}
use thingd.Base.BTreeMap.{get}
use thingd.Server.Auth.{
  AppResult, ok, err, unauthorized, ok_or, Jwt, KeyCache, Answer, Outside, fetch_keys, retry_key,
  find_key, key_for,
}

module _ (j : Jwt) where
  -- A key that the cache has under the token's key identifier is returned whatever the age of the
  -- cache, the time to live and the key server's answers: nothing is fetched, and the cache stays.
  pub key_for-cached :
      (outside : Outside) (ttl : ℕ) (kid : Bytes) (cache : KeyCache j.Key) (key : j.Key)
      → get kid cache.keys ≡ some key
      → key_for j outside ttl kid cache ≡ (cache, ok key)
  unfolding key_for find_key
  key_for-cached outside ttl kid cache key e = ground (arith, e)

  ok_or-found :
      {A : Type 0} (o : Option A) (a : A)
      → ◌≡◌ {A = AppResult A} (ok_or o unauthorized) (ok a)
      → o ≡ some a
  ok_or-found none a e = cc
  ok_or-found (some b) a e = cc

  retry_key-found :
      (kid : Bytes) (r : KeyCache j.Key × AppResult (Unit {0})) (cache : KeyCache j.Key)
      (key : j.Key)
      → retry_key j kid r ≡ (cache, ok key)
      → get kid cache.keys ≡ some key
  unfolding retry_key
  retry_key-found kid (before, err x) cache key e = cc
  retry_key-found kid (before, ok done) cache key e =
      let same : before ≡ cache = ap (λ r. r.0) e in
      let found = ok_or-found (get kid before.keys) key (ap (λ r. r.1) e) in rw same at found

  find_key-found :
      (kid : Bytes) (second : Answer) (r : KeyCache j.Key × AppResult (Unit {0}))
      (cache : KeyCache j.Key) (key : j.Key)
      → find_key j kid second r ≡ (cache, ok key)
      → get kid cache.keys ≡ some key
  unfolding find_key
  find_key-found kid second (before, err x) cache key e = cc
  find_key-found kid second (before, ok done) cache key e =
      elim (Option-cases (get kid before.keys)) [
        | inr (found, f) ↦
            let same : before ≡ cache = (let x = rw (f, find_key) at e in ap (λ r. r.0) x) in
            let which : found ≡ key = (let x = rw (f, find_key) at e in cc) in
            rw (← same, f, which) refl
        | inl f ↦ retry_key-found kid (fetch_keys j second before) cache key (rw (f, find_key) at e)
      ]

  -- Whatever key is returned stands in the cache, as it is after the call, under the token's key
  -- identifier.
  pub key_for-found :
      (outside : Outside) (ttl : ℕ) (kid : Bytes) (cache cache' : KeyCache j.Key) (key : j.Key)
      → key_for j outside ttl kid cache ≡ (cache', ok key)
      → get kid cache'.keys ≡ some key
  unfolding key_for
  key_for-found outside ttl kid cache cache' key e =
      find_key-found kid outside.second _ cache' key e
