-- ===== src/OrderedMap.antt =====
-- The standard library's `BTreeMap<String, _>` as its entries in key order.
pub mod Sorted
use gh_report.Prelude.{
  ◌≡◌, refl, Bool, true, false, Option, none, some, List, [], ◌∷◌, map, Text, arith, Ordering,
  text_cmp, text_eq, text_eq_iff, text_cmp-eq, text_cmp_refl, if◌then◌else◌, is_some, length, ℕ,
}

abbrev pub OrderedMap {ℓ} : Type ℓ → Type ℓ
OrderedMap V = List (Text × V)

module _ {ℓ} {V : Type ℓ} where
  unfoldable pub get : Text → OrderedMap V → Option V
  get k [] = none
  get k ((j, v) ∷ m) = if text_eq k j then some v else get k m

  unfoldable pub insert : Text → V → OrderedMap V → OrderedMap V
  insert k v [] = (k, v) ∷ []
  insert k v ((j, w) ∷ m) = elim (text_cmp k j) [
    | Ordering.lt ↦ (k, v) ∷ (j, w) ∷ m
    | Ordering.eq ↦ (k, v) ∷ m
    | Ordering.gt ↦ (j, w) ∷ insert k v m
  ]

  unfoldable pub remove : Text → OrderedMap V → OrderedMap V
  remove k [] = []
  remove k ((j, w) ∷ m) = let rest = remove k m in if text_eq k j then rest else (j, w) ∷ rest

  pub get-insert :
      (k j : Text) (v : V) (m : OrderedMap V)
      → get j (insert k v m) ≡ (if text_eq j k then some v else get j m)
  unfolding get insert
  get-insert k j v [] = refl
  get-insert k j v ((i, w) ∷ m) = ground (
    arith,
    text_cmp-eq k i,
    text_eq_iff j k,
    text_eq_iff j i,
    text_eq_iff i k,
    text_cmp_refl k,
    get-insert k j v m,
  )

  pub get-remove :
      (k j : Text) (m : OrderedMap V) → get j (remove k m) ≡ (if text_eq j k then none else get j m)
  unfolding get remove
  get-remove k j [] = ground arith
  get-remove k j ((i, w) ∷ m) =
      ground (arith, text_eq_iff j k, text_eq_iff j i, text_eq_iff k i, get-remove k j m)

  abbrev pub contains_key : Text → OrderedMap V → Bool
  contains_key k m = is_some (get k m)

pub get-empty {ℓ} : {V : Type ℓ} (k : Text) → get {V = V} k [] ≡ none
unfolding get
get-empty k = refl

pub ruleset map_laws = (get-empty, get-insert, get-remove)

module _ {ℓ} {V : Type ℓ} where
  pub insert-insert :
      (k : Text) (v w : V) (m : OrderedMap V) → insert k v (insert k w m) ≡ insert k v m
  unfolding insert
  insert-insert k v w [] = ground (arith, text_cmp_refl k)
  insert-insert k v w ((i, u) ∷ m) = ground (arith, text_cmp_refl k, insert-insert k v w m)

  pub remove-remove : (k : Text) (m : OrderedMap V) → remove k (remove k m) ≡ remove k m
  unfolding remove
  remove-remove k [] = refl
  remove-remove k ((i, u) ∷ m) = ground (arith, remove-remove k m)
