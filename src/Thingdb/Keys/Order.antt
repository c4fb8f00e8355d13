-- ===== src/Thingdb/Keys/Order.antt =====
-- A prefix and its successor enclose exactly the keys that start with the prefix.
use thingd.Base.{
  ℕ, zero, suc, ◌+◌, ◌≤◌, Bytes, ◌≡◌, refl, not, ◌&&◌, Option, none, some, [], ◌∷◌, arith,
  Option-cases, if◌then◌else◌, ◌==◌, ◌<?◌, nat_ord, list_ord, pair_ord, list_blt, length, All,
  starts_with,
}
use thingd.Thingdb.Codec.{byte_at}
use thingd.Thingdb.Keys.{below, successor_below, successor}

-- `u8`s
abbrev pub AreBytes : Bytes → Type 0
AreBytes = All (λ b. b ≤ 255)

-- The successor by the structure of the key.
after : ℕ → Option Bytes → Option Bytes
after b (some s) = some (b ∷ s)
after b none = if b == 255 then none else some ((b + 1) ∷ [])

successor_below-cons :
    (b : ℕ) (bs : Bytes) (n : ℕ) → successor_below (b ∷ bs) (suc n) ≡ after b (successor_below bs n)
unfolding successor_below after byte_at
successor_below-cons b bs zero = refl
successor_below-cons b bs (suc n) =
    ground (arith, successor_below-cons b bs n, Option-cases (byte_at bs n))

successor-cons : (b : ℕ) (bs : Bytes) → successor (b ∷ bs) ≡ after b (successor bs)
unfolding successor
successor-cons b bs = successor_below-cons b bs (length bs)

range_step :
    (k p : ℕ) (key prefix : Bytes) (o : Option Bytes)
    → k ≤ 255
    → p ≤ 255
    → (not (key <? prefix) && below key o) ≡ starts_with key prefix
    → (not ((k ∷ key) <? (p ∷ prefix)) && below (k ∷ key) (after p o))
      ≡ starts_with (k ∷ key) (p ∷ prefix)
unfolding list_blt starts_with below after
range_step k p key prefix none kb pb ih = ground (arith, ih)
range_step k p key prefix (some s) kb pb ih = ground (arith, ih)

-- Take a key and a prefix of bytes. The key lies at or above the prefix and below its successor, if
-- it has one, exactly when it starts with the prefix.
pub successor-range :
    (key prefix : Bytes)
    → AreBytes key
    → AreBytes prefix
    → (not (key <? prefix) && below key (successor prefix)) ≡ starts_with key prefix
unfolding list_blt starts_with below
successor-range key [] ks ps = unfold successor in unfold successor_below in refl
successor-range [] (p ∷ prefix) ks ps = refl
successor-range (k ∷ key) (p ∷ prefix) ks ps = rw (successor-cons p prefix) (
    range_step k p key prefix (successor prefix) (ks.0) (ps.0)
      (successor-range key prefix (ks.1) (ps.1)))
