-- ===== src/Prelude/Lists.antt =====
-- Lists measured by native numbers, and Boolean and typed quantifiers over a list.
use Prim.Native.Nat.{ℕ, suc, ◌+◌}
use mathlib.Core.Path.{◌≡◌, refl}
use mathlib.Core.Logic.{◌⊎◌, inl, inr}
use mathlib.Core.Bool.{Bool, true, false, ◌&&◌, ◌||◌}
use mathlib.Core.List.{List, [], ◌∷◌, ◌++◌}
use native.Mathlib.Omega.{arith}
use gh_report.Prelude.Tests.{Bool-cases, if◌then◌else◌}

module _ {ℓ} {A : Type ℓ} where
  abbrev pub length : List A → ℕ
  length [] = 0
  length (x ∷ xs) = suc (length xs)

  abbrev pub is_empty : List A → Bool
  is_empty [] = true
  is_empty (x ∷ xs) = false

  -- `Iterator::any` and `Iterator::all`
  abbrev pub any : (A → Bool) → List A → Bool
  any p [] = false
  any p (x ∷ xs) = p x || any p xs

  abbrev pub all : (A → Bool) → List A → Bool
  all p [] = true
  all p (x ∷ xs) = p x && all p xs

module _ {ℓ} {A : Type ℓ} where
  pub List-cases : (xs : List A) → (xs ≡ []) ⊎ ((y : A) × (ys : List A) × (xs ≡ y ∷ ys))
  List-cases [] = inl refl
  List-cases (y ∷ ys) = inr (y, ys, refl)

  pub length-append : (xs ys : List A) → length (xs ++ ys) ≡ length xs + length ys
  length-append [] ys = omega arith
  length-append (x ∷ xs) ys = omega (arith, length-append xs ys)

module _ {ℓ κ} {A : Type ℓ} (P : A → Type κ) where
  -- every element satisfies `P`
  abbrev pub All : List A → Type κ
  All [] = Unit
  All (x ∷ xs) = P x × All xs

module _ {ℓ} {A : Type ℓ} where
  -- the places that `(0..=xs.len())` cuts `xs` at: `xs` itself first, the empty list last
  abbrev pub suffixes : List A → List (List A)
  suffixes [] = [] ∷ []
  suffixes (x ∷ xs) = (x ∷ xs) ∷ suffixes xs

  pub any_witness : (p : A → Bool) (xs : List A) → any p xs ≡ true → (x : A) × (p x ≡ true)
  any_witness p [] h = ground arith
  any_witness p (x ∷ xs) h = elim (Bool-cases (p x)) [
    | inl e ↦ (x, e)
    | inr e ↦ any_witness p xs (rw e at h)
  ]

module _ {ℓ} {A : Type ℓ} where
  pub data In (x : A) : List A → Type ℓ where
    here : {y : A} {ys : List A} → x ≡ y → In x (y ∷ ys)
    there : {y : A} {ys : List A} → In x ys → In x (y ∷ ys)

  pub In-left : {x : A} {xs : List A} (ys : List A) → In x xs → In x (xs ++ ys)
  In-left ys (here e) = In.here e
  In-left ys (there i) = In.there (In-left ys i)

  pub In-right : {x : A} (xs : List A) {ys : List A} → In x ys → In x (xs ++ ys)
  In-right [] i = i
  In-right (x ∷ xs) i = In.there (In-right xs i)

  pub In-append-cases : {x : A} (xs ys : List A) → In x (xs ++ ys) → In x xs ⊎ In x ys
  In-append-cases [] ys i = inr i
  In-append-cases (x ∷ xs) ys (here e) = inl (In.here e)
  In-append-cases (x ∷ xs) ys (there i) = elim (In-append-cases xs ys i) [
    | inl j ↦ inl (In.there j)
    | inr j ↦ inr j
  ]

  pub In-any : (p : A → Bool) {x : A} {xs : List A} → In x xs → p x ≡ true → any p xs ≡ true
  In-any p (here {y} {ys} e) h = let first : p y ≡ true = rw (← e) h in rw first refl
  In-any p (there {y} {ys} i) h = ground (arith, In-any p i h)

  pub any-In : (p : A → Bool) (xs : List A) → any p xs ≡ true → (x : A) × In x xs × (p x ≡ true)
  any-In p [] h = ground arith
  any-In p (x ∷ xs) h = elim (Bool-cases (p x)) [
    | inl e ↦ (x, In.here refl, e)
    | inr e ↦ let (y, i, q) = any-In p xs (rw e at h) in (y, In.there i, q)
  ]

module _ {ℓ} {A : Type ℓ} where
  -- `Iterator::filter`
  abbrev pub keep : (A → Bool) → List A → List A
  keep p [] = []
  keep p (x ∷ xs) = let rest = keep p xs in if p x then x ∷ rest else rest

-- the stable sorts of slices, over the test `not (a > b)`
module _ {ℓ} {A : Type ℓ} (le : A → A → Bool) where
  unfoldable pub insert_by : A → List A → List A
  insert_by x [] = x ∷ []
  insert_by x (y ∷ ys) = let later = insert_by x ys in if le x y then x ∷ y ∷ ys else y ∷ later

  unfoldable pub sort_by : List A → List A
  unfolding insert_by
  sort_by [] = []
  sort_by (x ∷ xs) = insert_by x (sort_by xs)
