-- ===== src/Server/Auth/Compare.antt =====
-- The comparison of tokens agrees with equality.
use thingd.Base.{
  ℕ, zero, suc, ◌/◌, ◌%◌, ◌≤◌, max, Bytes, ◌≡◌, refl, inl, inr, [], ◌∷◌, arith, Bool-cases, ◌==◌,
  ==_iff, ==_refl, nat_ord, list_ord, pair_ord, length,
}
use mathlib.Core.Path.{ap₂}
use Prim.Native.Nat.{bit_or, bit_xor, digits, differ, bit_or-bitwise, bit_xor-bitwise}
use thingd.Server.Auth.{fold_differences, constant_time_eq}

abbrev or_digits : ℕ → ℕ → ℕ → ℕ
or_digits n a b = digits (λ b. b) max n a b

abbrev xor_digits : ℕ → ℕ → ℕ → ℕ
xor_digits n a b = digits (λ b. b) differ n a b

or_digits_zero : (n a b : ℕ) → a ≤ n → or_digits n a b ≡ 0 → (a ≡ 0) × (b ≡ 0)
or_digits_zero zero a b h e = (omega (arith, h), e)
or_digits_zero (suc n) zero b h e = (refl, e)
or_digits_zero (suc n) (suc a) b h e =
    let halves = or_digits_zero n (suc a / 2) (b / 2) (omega arith) (omega (arith, e)) in
    omega (arith, e, halves)

bit_or_zero : (a b : ℕ) → bit_or a b ≡ 0 → (a ≡ 0) × (b ≡ 0)
bit_or_zero a b e = or_digits_zero a a b (omega arith) (omega (arith, e, bit_or-bitwise a b))

differ_zero : (a b : ℕ) → differ a b ≡ 0 → a ≡ b
differ_zero zero b e = omega (arith, e)
differ_zero (suc a) zero e = absurd (omega (arith, e))
differ_zero (suc a) (suc b) e = omega (arith, differ_zero a b e)

differ_self : (a : ℕ) → differ a a ≡ 0
differ_self zero = refl
differ_self (suc a) = differ_self a

xor_digits_zero : (n a b : ℕ) → a ≤ n → xor_digits n a b ≡ 0 → a ≡ b
xor_digits_zero zero a b h e = omega (arith, h, e)
xor_digits_zero (suc n) zero b h e = omega (arith, e)
xor_digits_zero (suc n) (suc a) b h e =
    let halves = xor_digits_zero n (suc a / 2) (b / 2) (omega arith) (omega (arith, e)) in
    let low = differ_zero (suc a % 2) (b % 2) (omega (arith, e)) in omega (arith, halves, low)

xor_digits_self : (n a : ℕ) → a ≤ n → xor_digits n a a ≡ 0
xor_digits_self zero a h = omega (arith, h)
xor_digits_self (suc n) zero h = refl
xor_digits_self (suc n) (suc a) h =
    omega (arith, xor_digits_self n (suc a / 2) (omega arith), differ_self (suc a % 2))

bit_xor_zero : (a b : ℕ) → bit_xor a b ≡ 0 → a ≡ b
bit_xor_zero a b e = xor_digits_zero a a b (omega arith) (omega (arith, e, bit_xor-bitwise a b))

bit_xor_self : (a : ℕ) → bit_xor a a ≡ 0
bit_xor_self a = omega (arith, xor_digits_self a a (omega arith), bit_xor-bitwise a a)

differences_zero :
    (acc : ℕ) (a b : Bytes)
    → length a ≡ length b
    → fold_differences acc a b ≡ 0
    → (acc ≡ 0) × (a ≡ b)
unfolding fold_differences
differences_zero acc [] [] l e = (e, refl)
differences_zero acc [] (y ∷ b) l e = absurd (omega (arith, l))
differences_zero acc (x ∷ a) [] l e = absurd (omega (arith, l))
differences_zero acc (x ∷ a) (y ∷ b) l e =
    let rest = differences_zero (bit_or acc (bit_xor x y)) a b (omega (arith, l)) e in
    let none_here = bit_or_zero acc (bit_xor x y) (rest.0) in
    (none_here.0, ap₂ ◌∷◌ (bit_xor_zero x y (none_here.1)) (rest.1))

differences_self : (a : Bytes) → fold_differences 0 a a ≡ 0
unfolding fold_differences
differences_self [] = refl
differences_self (x ∷ a) =
    let same : bit_or 0 (bit_xor x x) ≡ 0 = rw (bit_xor_self x) refl in rw same (differences_self a)

-- The comparison that looks at every byte says what equality says, on every two texts.
pub constant_time_eq-equality : (a b : Bytes) → constant_time_eq a b ≡ (a == b)
unfolding constant_time_eq
constant_time_eq-equality a b = elim (Bool-cases (a == b)) [
  | inl e ↦
      let same : a ≡ b = (==_iff a b).0 e in
      rw (e, same, ==_refl (length b), differences_self b) refl
  | inr e ↦ elim (Bool-cases (length a == length b)) [
    | inr f ↦ rw (e, f) refl
    | inl f ↦ elim (Bool-cases (fold_differences 0 a b == 0)) [
      | inr g ↦ rw (e, f, g) refl
      | inl g ↦
          let same = (differences_zero 0 a b (ground arith) (ground arith)).1 in
          ground (arith, ==_iff a b, same, e)
    ]
  ]
]
