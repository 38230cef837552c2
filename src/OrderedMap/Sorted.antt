-- ===== src/OrderedMap/Sorted.antt =====
-- The entries stay in strictly increasing key order, which is what iteration shows.
use gh_report.Prelude.{
  ◌≡◌, [], ◌∷◌, Text, arith, Ordering, text_cmp, text_cmp_flip, text_cmp_trans, text_cmp-eq,
}
use gh_report.OrderedMap.{OrderedMap, insert, remove}

module _ {ℓ} {V : Type ℓ} where
  abbrev pub Above : Text → OrderedMap V → Type 0
  Above k [] = Unit
  Above k ((j, w) ∷ m) = (text_cmp k j ≡ Ordering.lt) × Above k m

  abbrev pub Sorted : OrderedMap V → Type 0
  Sorted [] = Unit
  Sorted ((j, w) ∷ m) = Above j m × Sorted m

  Above-trans : (k j : Text) (m : OrderedMap V) → text_cmp k j ≡ Ordering.lt → Above j m → Above k m
  Above-trans k j [] h a = tt
  Above-trans k j ((i, w) ∷ m) h (ji, a) = (text_cmp_trans k j i h ji, Above-trans k j m h a)

  Above-insert :
      (l k : Text) (v : V) (m : OrderedMap V)
      → text_cmp l k ≡ Ordering.lt
      → Above l m
      → Above l (insert k v m)
  unfolding insert
  Above-insert l k v [] h a = (h, tt)
  Above-insert l k v ((j, w) ∷ m) h (lj, a) = ground (arith, Above-insert l k v m h a)

  Above-remove : (l k : Text) (m : OrderedMap V) → Above l m → Above l (remove k m)
  unfolding remove
  Above-remove l k [] a = tt
  Above-remove l k ((j, w) ∷ m) (lj, a) = ground (arith, Above-remove l k m a)

  pub insert-Sorted : (k : Text) (v : V) (m : OrderedMap V) → Sorted m → Sorted (insert k v m)
  unfolding insert
  insert-Sorted k v [] s = (tt, tt)
  insert-Sorted k v ((j, w) ∷ m) (a, s) = ground (
    arith,
    Above-trans k j m,
    Above-insert j k v m,
    insert-Sorted k v m s,
    text_cmp_flip k j,
    text_cmp-eq k j,
  )

  pub remove-Sorted : (k : Text) (m : OrderedMap V) → Sorted m → Sorted (remove k m)
  unfolding remove
  remove-Sorted k [] s = tt
  remove-Sorted k ((j, w) ∷ m) (a, s) = ground (arith, Above-remove j k m a, remove-Sorted k m s)
