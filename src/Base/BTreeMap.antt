-- ===== src/Base/BTreeMap.antt =====
-- The standard library's `BTreeMap`, `BTreeSet` and `HashMap`: an association list in key order.
use mathlib.Core.Path.{◌≡◌, refl}
use Prim.Native.Nat.{ℕ, ◌+◌}
use mathlib.Core.Path.{ap}
use mathlib.Core.Logic.{inl, inr}
use mathlib.Core.Bool.{Bool, true}
use mathlib.Core.Option.{Option, none, some}
use mathlib.Core.List.{List, [], ◌∷◌, map}
use native.Mathlib.Omega.{arith}
use thingd.Base.Tests.{if◌then◌else◌, Bool-cases}
use thingd.Base.Order.{Ord, ◌==◌, ◌<?◌, ==_iff}

abbrev pub BTreeMap {ℓ κ} : Type ℓ → Type κ → Type (ℓ ⊔ κ)
BTreeMap K V = List (K × V)

module _ {ℓ κ} {K : Type ℓ} {V : Type κ} where
  abbrev pub keys : BTreeMap K V → List K
  keys = map (λ e. e.0)

  abbrev pub values : BTreeMap K V → List V
  values = map (λ e. e.1)

module _ {ℓ κ} {K : Type ℓ} {V : Type κ} ⦃o : Ord K⦄ where
  unfoldable pub get : K → BTreeMap K V → Option V
  get k [] = none
  get k ((j, v) ∷ m) = if j == k then some v else get k m

  unfoldable pub insert : K → V → BTreeMap K V → BTreeMap K V
  insert k v [] = (k, v) ∷ []
  insert k v ((j, w) ∷ m) =
      let rest = insert k v m in
      if j == k then (k, v) ∷ m else if k <? j then (k, v) ∷ (j, w) ∷ m else (j, w) ∷ rest

  unfoldable pub remove : K → BTreeMap K V → BTreeMap K V
  remove k [] = []
  remove k ((j, w) ∷ m) = let rest = remove k m in if j == k then rest else (j, w) ∷ rest

  pub get-insert :
      (k j : K) (v : V) (m : BTreeMap K V)
      → get j (insert k v m) ≡ (if k == j then some v else get j m)
  unfolding get insert
  get-insert k j v [] = refl
  get-insert k j v ((i, w) ∷ m) =
      ground (arith, ==_iff k j, ==_iff i k, ==_iff i j, get-insert k j v m)

  pub get-remove :
      (k j : K) (m : BTreeMap K V) → get j (remove k m) ≡ (if k == j then none else get j m)
  unfolding get remove
  get-remove k j [] = ground arith
  get-remove k j ((i, w) ∷ m) = ground (arith, ==_iff k j, ==_iff i k, ==_iff i j, get-remove k j m)

  -- Keys in strictly ascending order: what every map of the source is.
  abbrev pub Above : K → BTreeMap K V → Type (ℓ ⊔ κ)
  Above k [] = Unit
  Above k ((j, w) ∷ m) = (k <? j ≡ true) × Above k m

  abbrev pub IsSorted : BTreeMap K V → Type (ℓ ⊔ κ)
  IsSorted [] = Unit
  IsSorted ((j, w) ∷ m) = Above j m × IsSorted m

  Above-trans : (k j : K) (m : BTreeMap K V) → k <? j ≡ true → Above j m → Above k m
  Above-trans k j [] h a = tt
  Above-trans k j ((i, w) ∷ m) h a = (o.blt_trans k j i h (a.0), Above-trans k j m h (a.1))

  Above-insert :
      (i k : K) (v : V) (m : BTreeMap K V) → i <? k ≡ true → Above i m → Above i (insert k v m)
  unfolding insert
  Above-insert i k v [] h a = (h, tt)
  Above-insert i k v ((j, w) ∷ m) h a = elim (Bool-cases (j == k)) [
    | inl e ↦ rw (e, Above) (h, a.1)
    | inr e ↦ elim (Bool-cases (k <? j)) [
      | inl f ↦ rw (e, f, Above) (h, (a.0, a.1))
      | inr f ↦ rw (e, f, Above) (a.0, Above-insert i k v m h (a.1))
    ]
  ]

  pub insert-IsSorted : (k : K) (v : V) (m : BTreeMap K V) → IsSorted m → IsSorted (insert k v m)
  unfolding insert
  insert-IsSorted k v [] s = (tt, tt)
  insert-IsSorted k v ((j, w) ∷ m) s = elim (Bool-cases (j == k)) [
    | inl e ↦
        let same : j ≡ k = (o.beq_iff j k).0 e in
        rw (e, IsSorted) (ground (arith, ap (λ (x : K). Above x m) same, s.0), s.1)
    | inr e ↦ elim (Bool-cases (k <? j)) [
      | inl f ↦ rw (e, f, IsSorted) ((f, Above-trans k j m f (s.0)), (s.0, s.1))
      | inr f ↦
          rw (e, f, IsSorted)
            (
              Above-insert j k v m
                  (o.blt_total k j (ground (arith, o.beq_iff j k, o.beq_iff k j, e)) f) (s.0),
              insert-IsSorted k v m (s.1),
            )
    ]
  ]

  Above-remove : (i k : K) (m : BTreeMap K V) → Above i m → Above i (remove k m)
  unfolding remove
  Above-remove i k [] a = tt
  Above-remove i k ((j, w) ∷ m) a = elim (Bool-cases (j == k)) [
    | inl e ↦ rw (e, Above) (Above-remove i k m (a.1))
    | inr e ↦ rw (e, Above) (a.0, Above-remove i k m (a.1))
  ]

  pub remove-IsSorted : (k : K) (m : BTreeMap K V) → IsSorted m → IsSorted (remove k m)
  unfolding remove
  remove-IsSorted k [] s = tt
  remove-IsSorted k ((j, w) ∷ m) s = elim (Bool-cases (j == k)) [
    | inl e ↦ rw (e, IsSorted) (remove-IsSorted k m (s.1))
    | inr e ↦ rw (e, IsSorted) (Above-remove j k m (s.0), remove-IsSorted k m (s.1))
  ]

  pub get-Above : (k : K) (m : BTreeMap K V) → Above k m → get k m ≡ none
  unfolding get
  get-Above k [] a = refl
  get-Above k ((j, w) ∷ m) a = ground (
    arith,
    get-Above k m (a.1),
    a.0,
    o.beq_iff j k,
    o.blt_irrefl k,
    ap (λ (x : K). k <? x) {x = j} {y = k},
  )

  remove-Above : (k : K) (m : BTreeMap K V) → Above k m → remove k m ≡ m
  unfolding remove
  remove-Above k [] a = refl
  remove-Above k ((j, w) ∷ m) a = ground (
    arith,
    remove-Above k m (a.1),
    a.0,
    o.beq_iff j k,
    o.blt_irrefl k,
    ap (λ (x : K). k <? x) {x = j} {y = k},
  )

  -- The sum of the entries' sizes.
  unfoldable pub weigh : (K → V → ℕ) → BTreeMap K V → ℕ
  weigh size [] = 0
  weigh size ((j, w) ∷ m) = size j w + weigh size m

  abbrev pub held : (K → V → ℕ) → K → Option V → ℕ
  held size k none = 0
  held size k (some v) = size k v

  pub weigh-insert :
      (size : K → V → ℕ) (k : K) (v : V) (m : BTreeMap K V)
      → IsSorted m
      → weigh size (insert k v m) + held size k (get k m) ≡ weigh size m + size k v
  unfolding weigh insert get
  weigh-insert size k v [] s = omega arith
  weigh-insert size k v ((j, w) ∷ m) s = elim (Bool-cases (j == k)) [
    | inl e ↦
        let same : j ≡ k = (o.beq_iff j k).0 e in
        let z = ap (λ (x : K). size x w) same in ground (arith, e, z)
    | inr e ↦ elim (Bool-cases (k <? j)) [
      | inl f ↦
          let absent = get-Above k m (Above-trans k j m f (s.0)) in ground (arith, e, f, absent)
      | inr f ↦ let ih = weigh-insert size k v m (s.1) in ground (arith, e, f, ih)
    ]
  ]

  pub weigh-remove :
      (size : K → V → ℕ) (k : K) (m : BTreeMap K V)
      → IsSorted m
      → weigh size (remove k m) + held size k (get k m) ≡ weigh size m
  unfolding weigh remove get
  weigh-remove size k [] s = omega arith
  weigh-remove size k ((j, w) ∷ m) s = elim (Bool-cases (j == k)) [
    | inl e ↦
        let same : j ≡ k = (o.beq_iff j k).0 e in
        let z = ap (λ (x : K). size x w) same in
        let above = ap (λ (x : K). Above x m) same in
        let gone = remove-Above k m (ground (arith, above, s.0)) in ground (arith, e, z, gone)
    | inr e ↦ let ih = weigh-remove size k m (s.1) in ground (arith, e, ih)
  ]

  -- `retain`
  unfoldable pub retain : (K → V → Bool) → BTreeMap K V → BTreeMap K V
  retain p [] = []
  retain p ((j, w) ∷ m) = let rest = retain p m in if p j w then (j, w) ∷ rest else rest

  abbrev pub kept : (K → V → Bool) → K → Option V → Option V
  kept p k none = none
  kept p k (some v) = if p k v then some v else none

  Above-retain : (p : K → V → Bool) (i : K) (m : BTreeMap K V) → Above i m → Above i (retain p m)
  unfolding retain
  Above-retain p i [] a = tt
  Above-retain p i ((j, w) ∷ m) a = elim (Bool-cases (p j w)) [
    | inl e ↦ rw (e, Above) (a.0, Above-retain p i m (a.1))
    | inr e ↦ rw (e, Above) (Above-retain p i m (a.1))
  ]

  pub retain-IsSorted : (p : K → V → Bool) (m : BTreeMap K V) → IsSorted m → IsSorted (retain p m)
  unfolding retain
  retain-IsSorted p [] s = tt
  retain-IsSorted p ((j, w) ∷ m) s = elim (Bool-cases (p j w)) [
    | inl e ↦ rw (e, IsSorted) (Above-retain p j m (s.0), retain-IsSorted p m (s.1))
    | inr e ↦ rw (e, IsSorted) (retain-IsSorted p m (s.1))
  ]

  pub get-retain :
      (p : K → V → Bool) (k : K) (m : BTreeMap K V)
      → IsSorted m
      → get k (retain p m) ≡ kept p k (get k m)
  unfolding get retain
  get-retain p k [] s = refl
  get-retain p k ((j, w) ∷ m) s = elim (Bool-cases (j == k)) [
    | inl e ↦
        let same : j ≡ k = (o.beq_iff j k).0 e in
        let above = ap (λ (x : K). Above x m) same in
        let absent = get-Above k m (ground (arith, above, s.0)) in
        let test = ap (λ (x : K). p x w) same in
        ground (arith, e, test, absent, get-retain p k m (s.1))
    | inr e ↦ ground (arith, e, get-retain p k m (s.1))
  ]
