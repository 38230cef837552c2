-- ===== src/Projection/Snapshot.antt =====
-- The snapshots that the report renders.
use mathlib.Core.List.{Perm}
use mathlib.Core.List.Perm
use gh_report.Prelude.{
  ◌≡◌, true, false, List, [], ◌∷◌, arith, Ordering, text_cmp_flip, text_cmp-eq, text_cmp_refl,
  Bool-cases, inl, inr,
}
use gh_report.Repository
use gh_report.Repository.{Repository}
use gh_report.Evidence.{RepositoryEvidence}
use gh_report.Projection.{
  EvidenceProjection, values, not_above, insert_sorted, sort_evidence, sorted_snapshot,
}

-- each entry is not above the next
abbrev pub Ordered : List RepositoryEvidence → Type 0
Ordered [] = Unit
Ordered (x ∷ []) = Unit
Ordered (x ∷ y ∷ xs) = (not_above x y ≡ true) × Ordered (y ∷ xs)

cmp_flip : (a b : Repository) → Repository.cmp a b ≡ Ordering.gt → Repository.cmp b a ≡ Ordering.lt
unfolding Repository.cmp
cmp_flip a b h = ground (
  arith,
  text_cmp_flip a.id b.id,
  text_cmp_flip a.name b.name,
  text_cmp-eq a.id b.id,
  text_cmp_refl a.id,
)

not_above_total : (a b : RepositoryEvidence) → not_above a b ≡ false → not_above b a ≡ true
not_above_total a b h = ground (arith, cmp_flip a.repository b.repository)

insert_sorted-Ordered_below :
    (z e : RepositoryEvidence) (xs : List RepositoryEvidence)
    → not_above z e ≡ true
    → Ordered (z ∷ xs)
    → Ordered xs
    → Ordered (insert_sorted e xs)
    → Ordered (z ∷ insert_sorted e xs)
unfolding insert_sorted
insert_sorted-Ordered_below z e [] h o o' r = (h, tt)
insert_sorted-Ordered_below z e (x ∷ xs) h (zx, o) o' r = elim (Bool-cases (not_above e x)) [
  | inl b ↦ rw b (h, (b, o))
  | inr b ↦ rw b (zx, rw b at r)
]

Ordered-tail :
    (x : RepositoryEvidence) (xs : List RepositoryEvidence) → Ordered (x ∷ xs) → Ordered xs
Ordered-tail x [] o = tt
Ordered-tail x (y ∷ xs) (xy, o) = o

insert_sorted-Ordered :
    (e : RepositoryEvidence) (xs : List RepositoryEvidence)
    → Ordered xs
    → Ordered (insert_sorted e xs)
unfolding insert_sorted
insert_sorted-Ordered e [] o = tt
insert_sorted-Ordered e (x ∷ xs) o = elim (Bool-cases (not_above e x)) [
  | inl b ↦ rw b (b, o)
  | inr b ↦
      let o' = Ordered-tail x xs o in
      rw b (
        insert_sorted-Ordered_below x e xs (not_above_total e x b) o o'
          (insert_sorted-Ordered e xs o'))
]

sort_evidence-Ordered : (xs : List RepositoryEvidence) → Ordered (sort_evidence xs)
unfolding sort_evidence
sort_evidence-Ordered [] = tt
sort_evidence-Ordered (x ∷ xs) =
    insert_sorted-Ordered x (sort_evidence xs) (sort_evidence-Ordered xs)

insert_sorted-perm :
    (e : RepositoryEvidence) (xs : List RepositoryEvidence) → Perm (insert_sorted e xs) (e ∷ xs)
unfolding insert_sorted
insert_sorted-perm e [] = Perm.refl (e ∷ [])
insert_sorted-perm e (x ∷ xs) = elim (Bool-cases (not_above e x)) [
  | inl b ↦ rw b (Perm.refl (e ∷ x ∷ xs))
  | inr b ↦ rw b (Perm.trans (Perm.cons x (insert_sorted-perm e xs)) (Perm.swap e x xs))
]

sort_evidence-perm : (xs : List RepositoryEvidence) → Perm (sort_evidence xs) xs
unfolding sort_evidence
sort_evidence-perm [] = Perm.refl []
sort_evidence-perm (x ∷ xs) =
    Perm.trans (insert_sorted-perm x (sort_evidence xs)) (Perm.cons x (sort_evidence-perm xs))

-- The render-stable snapshot holds every live repository's evidence once, in the order of id and
-- name.
pub sorted_snapshot_lem :
    (p : EvidenceProjection)
    → Perm (sorted_snapshot p) (values p.repositories) × Ordered (sorted_snapshot p)
unfolding sorted_snapshot
sorted_snapshot_lem p =
    (sort_evidence-perm (values p.repositories), sort_evidence-Ordered (values p.repositories))
