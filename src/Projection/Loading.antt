-- ===== src/Projection/Loading.antt =====
-- `load_baseline` and `load_resumed_checkpoint`.
use gh_report.Prelude.{
  ◌≡◌, refl, Option, none, some, List, [], ◌∷◌, ◌++◌, Text, arith, text_eq, or_else, if◌then◌else◌,
}
use gh_report.OrderedMap
use gh_report.OrderedMap.{OrderedMap, get-insert}
use gh_report.OrderedMap.Sorted.{Sorted, insert-Sorted}
use gh_report.Evidence.{RepositoryEvidence}
use gh_report.Projection.{EvidenceProjection, extend, bulk_load}

-- the last entry of a batch under a key
abbrev pub last_for : Text → List RepositoryEvidence → Option RepositoryEvidence
last_for key [] = none
last_for key (e ∷ entries) =
    or_else (last_for key entries) (if text_eq key e.repository.inventory_key then some e else none)

extend_get :
    (key : Text) (m : OrderedMap RepositoryEvidence) (entries : List RepositoryEvidence)
    → OrderedMap.get key (extend m entries) ≡ or_else (last_for key entries) (OrderedMap.get key m)
unfolding extend
extend_get key m [] = refl
extend_get key m (e ∷ entries) = ground (
  arith,
  extend_get key (OrderedMap.insert e.repository.inventory_key e m) entries,
  get-insert e.repository.inventory_key key e m,
)

extend-append :
    (m : OrderedMap RepositoryEvidence) (xs ys : List RepositoryEvidence)
    → extend (extend m xs) ys ≡ extend m (xs ++ ys)
unfolding extend
extend-append m [] ys = refl
extend-append m (x ∷ xs) ys = extend-append (OrderedMap.insert x.repository.inventory_key x m) xs ys

extend-Sorted :
    (m : OrderedMap RepositoryEvidence) (entries : List RepositoryEvidence)
    → Sorted m
    → Sorted (extend m entries)
unfolding extend
extend-Sorted m [] s = s
extend-Sorted m (e ∷ entries) s =
    extend-Sorted (OrderedMap.insert e.repository.inventory_key e m) entries
      (insert-Sorted e.repository.inventory_key e m s)

-- After a bulk load each key holds the last entry loaded for it, or else what it held before; a
-- second load adds to the first, as if both batches had been loaded as one.
pub bulk_load_merges :
    (p : EvidenceProjection) (key : Text) (xs ys : List RepositoryEvidence)
    → (OrderedMap.get key (bulk_load p xs).repositories
        ≡ or_else (last_for key xs) (OrderedMap.get key p.repositories))
      × (bulk_load (bulk_load p xs) ys ≡ bulk_load p (xs ++ ys))
unfolding bulk_load
bulk_load_merges p key xs ys =
    (extend_get key p.repositories xs, rw (extend-append p.repositories xs ys))

-- A bulk load keeps the repositories in key order and touches nothing else.
pub bulk_load-Sorted :
    (p : EvidenceProjection) (entries : List RepositoryEvidence)
    → Sorted p.repositories
    → Sorted (bulk_load p entries).repositories × ((bulk_load p entries).deleted ≡ p.deleted)
unfolding bulk_load
bulk_load-Sorted p entries s = (extend-Sorted p.repositories entries s, refl)
