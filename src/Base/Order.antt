-- ===== src/Base/Order.antt =====
-- Total orders as instances: those of the numbers, of byte strings and of pairs, as Rust derives.
use Prim.Native.Nat.{ℕ}
use mathlib.Core.Path.{◌≡◌, refl}
use mathlib.Core.Logic.{◌↔◌}
use mathlib.Core.Bool.{Bool, true, false, ◌&&◌, ◌||◌}
use mathlib.Core.List.{List, [], ◌∷◌}
use native.Mathlib.Omega.{arith}
use thingd.Base.Tests.{ltb, nat_beq}

pub record Ord {ℓ} (A : Type ℓ) : Type ℓ where
  pub beq : A → A → Bool
  pub blt : A → A → Bool
  pub beq_iff : (x y : A) → (beq x y ≡ true) ↔ (x ≡ y)
  pub blt_irrefl : (a : A) → blt a a ≡ false
  pub blt_trans : (a b c : A) → blt a b ≡ true → blt b c ≡ true → blt a c ≡ true
  pub blt_total : (a b : A) → beq a b ≡ false → blt a b ≡ false → blt b a ≡ true

infix 50 ◌==◌ ◌<?◌
abbrev pub ◌==◌ {ℓ} : {A : Type ℓ} ⦃o : Ord A⦄ → A → A → Bool
◌==◌ ⦃o⦄ = o.beq

abbrev pub ◌<?◌ {ℓ} : {A : Type ℓ} ⦃o : Ord A⦄ → A → A → Bool
◌<?◌ ⦃o⦄ = o.blt

pub nat_beq_iff : (a b : ℕ) → (nat_beq a b ≡ true) ↔ (a ≡ b)
nat_beq_iff a b = ground arith

pub nat_irrefl : (a : ℕ) → ltb a a ≡ false
nat_irrefl a = ground arith

pub nat_trans : (a b c : ℕ) → ltb a b ≡ true → ltb b c ≡ true → ltb a c ≡ true
nat_trans a b c h k = ground arith

pub nat_total : (a b : ℕ) → nat_beq a b ≡ false → ltb a b ≡ false → ltb b a ≡ true
nat_total a b h k = ground arith

instance abbrev pub nat_ord : Ord ℕ
nat_ord = record {
  beq = nat_beq;
  blt = ltb;
  beq_iff = nat_beq_iff;
  blt_irrefl = nat_irrefl;
  blt_trans = nat_trans;
  blt_total = nat_total;
}

-- Lexicographic order on lists.
module _ {ℓ} {A : Type ℓ} ⦃o : Ord A⦄ where
  unfoldable pub list_beq : List A → List A → Bool
  list_beq [] [] = true
  list_beq [] (y ∷ ys) = false
  list_beq (x ∷ xs) [] = false
  list_beq (x ∷ xs) (y ∷ ys) = x == y && list_beq xs ys

  unfoldable pub list_blt : List A → List A → Bool
  list_blt xs [] = false
  list_blt [] (y ∷ ys) = true
  list_blt (x ∷ xs) (y ∷ ys) = x <? y || x == y && list_blt xs ys

  pub list_beq_iff : (a b : List A) → (list_beq a b ≡ true) ↔ (a ≡ b)
  unfolding list_beq
  list_beq_iff [] [] = ground arith
  list_beq_iff [] (y ∷ ys) = ground arith
  list_beq_iff (x ∷ xs) [] = ground arith
  list_beq_iff (x ∷ xs) (y ∷ ys) = ground (arith, o.beq_iff x y, list_beq_iff xs ys)

  pub list_irrefl : (a : List A) → list_blt a a ≡ false
  unfolding list_blt
  list_irrefl [] = refl
  list_irrefl (x ∷ xs) = ground (arith, o.blt_irrefl x, list_irrefl xs)

  pub list_trans :
      (a b c : List A) → list_blt a b ≡ true → list_blt b c ≡ true → list_blt a c ≡ true
  unfolding list_blt
  list_trans a b [] h k = ground arith
  list_trans [] [] (z ∷ zs) h k = ground arith
  list_trans [] (y ∷ ys) (z ∷ zs) h k = refl
  list_trans (x ∷ xs) [] (z ∷ zs) h k = ground arith
  list_trans (x ∷ xs) (y ∷ ys) (z ∷ zs) h k =
      ground
        (arith, o.beq_iff x y, o.beq_iff y z, o.beq_iff x z, o.blt_trans x y z, list_trans xs ys zs)

  pub list_total :
      (a b : List A) → list_beq a b ≡ false → list_blt a b ≡ false → list_blt b a ≡ true
  unfolding list_beq list_blt
  list_total [] [] h k = ground arith
  list_total [] (y ∷ ys) h k = ground arith
  list_total (x ∷ xs) [] h k = refl
  list_total (x ∷ xs) (y ∷ ys) h k =
      ground (arith, o.beq_iff x y, o.beq_iff y x, o.blt_total x y, list_total xs ys)

  instance abbrev pub list_ord : Ord (List A)
  list_ord = record {
    beq = list_beq;
    blt = list_blt;
    beq_iff = list_beq_iff;
    blt_irrefl = list_irrefl;
    blt_trans = list_trans;
    blt_total = list_total;
  }

module _ {ℓ κ} {A : Type ℓ} {B : Type κ} ⦃o : Ord A⦄ ⦃p : Ord B⦄ where
  unfoldable pub pair_beq : A × B → A × B → Bool
  pair_beq (a, b) (c, d) = a == c && b == d

  unfoldable pub pair_blt : A × B → A × B → Bool
  pair_blt (a, b) (c, d) = a <? c || a == c && b <? d

  pub pair_beq_iff : (x y : A × B) → (pair_beq x y ≡ true) ↔ (x ≡ y)
  unfolding pair_beq
  pair_beq_iff (a, b) (c, d) = ground (arith, o.beq_iff a c, p.beq_iff b d)

  pub pair_irrefl : (x : A × B) → pair_blt x x ≡ false
  unfolding pair_blt
  pair_irrefl (a, b) = ground (arith, o.blt_irrefl a, p.blt_irrefl b)

  pub pair_trans : (x y z : A × B) → pair_blt x y ≡ true → pair_blt y z ≡ true → pair_blt x z ≡ true
  unfolding pair_blt
  pair_trans (a, b) (c, d) (e, f) h k =
      ground
        (arith, o.beq_iff a c, o.beq_iff c e, o.beq_iff a e, o.blt_trans a c e, p.blt_trans b d f)

  pub pair_total : (x y : A × B) → pair_beq x y ≡ false → pair_blt x y ≡ false → pair_blt y x ≡ true
  unfolding pair_beq pair_blt
  pair_total (a, b) (c, d) h k =
      ground (arith, o.beq_iff a c, o.beq_iff c a, o.blt_total a c, p.blt_total b d)

  instance abbrev pub pair_ord : Ord (A × B)
  pair_ord = record {
    beq = pair_beq;
    blt = pair_blt;
    beq_iff = pair_beq_iff;
    blt_irrefl = pair_irrefl;
    blt_trans = pair_trans;
    blt_total = pair_total;
  }

module _ {ℓ} {A : Type ℓ} ⦃o : Ord A⦄ where
  pub ==_iff : (a b : A) → ((a == b) ≡ true) ↔ (a ≡ b)
  ==_iff a b = o.beq_iff a b

  pub ==_refl : (a : A) → (a == a) ≡ true
  ==_refl a = (o.beq_iff a a).1 refl
