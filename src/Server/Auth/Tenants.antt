-- ===== src/Server/Auth/Tenants.antt =====
-- What an accepted tenant identity looks like.
use thingd.Base.{
  ℕ, ◌<◌, Bytes, codes, ◌≡◌, refl, inl, inr, Bool, true, false, ◌&&◌, ◌||◌, List, [], ◌∷◌, arith,
  leb, Bool-cases, ◌==◌, nat_ord, list_ord, pair_ord, all, All, In, contains,
}
use thingd.Events.{is_empty}
use thingd.Server.Auth.{ok, Text, contains_str, is_tenant_char, validate_tenant_id}

-- A byte of a tenant identity: an ASCII letter, digit, dash or underscore, or part of a character
-- beyond ASCII.
abbrev pub is_plain : ℕ → Bool
is_plain b =
    leb 128 b
    || (leb b'0' b && leb b b'9'
        || (leb b'A' b && leb b b'Z' || (leb b'a' b && leb b b'z' || (b == b'-' || b == b'_'))))

abbrev pub IsTenantId : Bytes → Type 0
IsTenantId s = (is_empty s ≡ false) × All (λ b. is_plain b ≡ true) s

all-In : (p : ℕ → Bool) (xs : List ℕ) (b : ℕ) → all p xs ≡ true → In b xs → p b ≡ true
all-In p [] b e i = elim i [ ]
all-In p (x ∷ xs) b e i = ground (arith, all-In p xs b)

plain_byte :
    (text : Text) (s : Bytes) (b : ℕ)
    → all (is_tenant_char text) (text.chars s) ≡ true
    → In b s
    → is_plain b ≡ true
unfolding is_tenant_char
plain_byte text s b e i = elim (Bool-cases (leb 128 b)) [
  | inl big ↦ rw big refl
  | inr small ↦
      let low : b < 128 = ground arith in
      let found = text.chars_ascii s b i low in
      let char = all-In (is_tenant_char text) (text.chars s) b e found in
      let table = text.alphanumeric_ascii b low in ground (arith, char, table)
]

plain_bytes :
    (text : Text) (s more : Bytes)
    → all (is_tenant_char text) (text.chars s) ≡ true
    → ((b : ℕ) → In b more → In b s)
    → All (λ b. is_plain b ≡ true) more
plain_bytes text s [] e inside = tt
plain_bytes text s (b ∷ more) e inside = (
  plain_byte text s b e (inside b (inl refl)),
  plain_bytes text s more e (λ c i. inside c (inr i)),
)

-- An accepted tenant identity is the text itself, is not empty, and each of its ASCII bytes is a
-- letter, a digit, a dash or an underscore: no path separator, dot or control character is let
-- through, whatever the Unicode tables say beyond ASCII.
pub validate_tenant_id-IsTenantId :
    (text : Text) (s tenant : Bytes)
    → validate_tenant_id text s ≡ ok tenant
    → (tenant ≡ s) × IsTenantId tenant
unfolding validate_tenant_id
validate_tenant_id-IsTenantId text s tenant e =
    elim (Bool-cases (is_empty s || (contains_str s (codes "..") || contains b'/' s))) [
      | inl bad ↦ absurd (ground (arith, rw (validate_tenant_id, bad) at e))
      | inr good ↦ elim (Bool-cases (all (is_tenant_char text) (text.chars s))) [
        | inr strange ↦ absurd (ground (arith, rw (validate_tenant_id, good, strange) at e))
        | inl chars ↦
            let same : tenant ≡ s = (let f = rw (validate_tenant_id, good, chars) at e in cc) in
            (same, rw same (ground (arith, good), plain_bytes text s s chars (λ b i. i)))
      ]
    ]
