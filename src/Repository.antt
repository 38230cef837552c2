-- ===== src/Repository.antt =====
-- domain/repository.rs: a repository of the inventory, its equality and its order.
use gh_report.Prelude.{
  ◌≡◌, ◌↔◌, refl, Bool, true, false, ◌&&◌, Option, none, some, List, [], ◌∷◌, Text, arith, Ordering,
  text_eq, text_eq_iff, text_cmp, text_cmp-eq, text_cmp_refl, and_true, ◌⊎◌, inl, inr, Bool-cases,
}

-- `UpdatedAt`: a spelling that is not empty
pub record UpdatedAt : Type 0 where
  pub raw : Text

unfoldable pub new_updated_at : Text → Option UpdatedAt
new_updated_at [] = none
new_updated_at (c ∷ raw) = some (record { raw = c ∷ raw })

pub data Visibility : Type 0 where
  public internal private : Visibility

pub record Repository : Type 0 where
  pub id : Text
  pub node_id : Option Text
  pub name : Text
  pub visibility : Visibility
  pub language : Option Text
  pub default_branch : Text
  pub archived : Bool
  pub inventory_key : Text
  pub updated_at : Option UpdatedAt
  pub has_issues : Bool
  pub pushed_at : Option Text
  pub created_at : Option Text
  pub description : Option Text
  pub fork : Bool
  pub is_empty : Bool
  pub html_url : Option Text
  pub topics : List Text
  pub license_spdx : Option Text

abbrev pub visibility_eq : Visibility → Visibility → Bool
visibility_eq public public = true
visibility_eq internal internal = true
visibility_eq private private = true
visibility_eq _ _ = false

abbrev pub bool_eq : Bool → Bool → Bool
bool_eq true true = true
bool_eq false false = true
bool_eq _ _ = false

abbrev pub updated_at_eq : Option UpdatedAt → Option UpdatedAt → Bool
updated_at_eq none none = true
updated_at_eq (some a) (some b) = text_eq a.raw b.raw
updated_at_eq _ _ = false

-- `PartialEq for Repository`
unfoldable pub eq : Repository → Repository → Bool
eq a b =
    text_eq a.id b.id
    && (text_eq a.name b.name
        && (visibility_eq a.visibility b.visibility
            && (text_eq a.default_branch b.default_branch
                && (bool_eq a.archived b.archived
                    && (text_eq a.inventory_key b.inventory_key
                        && updated_at_eq a.updated_at b.updated_at)))))

unfoldable pub is_public : Repository → Bool
is_public r = visibility_eq r.visibility public

-- `Ordering::then`
abbrev pub then_cmp : Ordering → Ordering → Ordering
then_cmp Ordering.eq o = o
then_cmp Ordering.lt o = Ordering.lt
then_cmp Ordering.gt o = Ordering.gt

-- `Ord for Repository`
unfoldable pub cmp : Repository → Repository → Ordering
cmp a b = then_cmp (text_cmp a.id b.id) (text_cmp a.name b.name)

-- the fields that the equality compares
pub record SameIdentity (a b : Repository) : Type 0 where
  pub ids : a.id ≡ b.id
  pub names : a.name ≡ b.name
  pub visibilities : a.visibility ≡ b.visibility
  pub branches : a.default_branch ≡ b.default_branch
  pub archived_flags : a.archived ≡ b.archived
  pub keys : a.inventory_key ≡ b.inventory_key
  pub updates : a.updated_at ≡ b.updated_at

visibility_eq_iff : (a b : Visibility) → (visibility_eq a b ≡ true) ↔ (a ≡ b)
visibility_eq_iff a b = (ground arith, ground arith)

bool_eq_iff : (a b : Bool) → (bool_eq a b ≡ true) ↔ (a ≡ b)
bool_eq_iff a b = (ground arith, ground arith)

updated_at_eq_iff : (a b : Option UpdatedAt) → (updated_at_eq a b ≡ true) ↔ (a ≡ b)
updated_at_eq_iff none none = (λ h. refl, λ h. refl)
updated_at_eq_iff none (some b) = (ground arith, ground arith)
updated_at_eq_iff (some a) none = (ground arith, ground arith)
updated_at_eq_iff (some a) (some b) = (
  λ h. let e = (text_eq_iff a.raw b.raw).0 h in λ i. some (record { raw = e i }),
  λ h. (text_eq_iff a.raw b.raw).1 (cc h),
)

-- Two repositories are equal exactly when their seven identity fields are, whatever their
-- informational fields hold.
pub eq-SameIdentity : (a b : Repository) → (eq a b ≡ true) ↔ SameIdentity a b
unfolding eq
eq-SameIdentity a b = (
  λ h.
      let (h1, r1) = and_true (text_eq a.id b.id) _ h in
      let (h2, r2) = and_true (text_eq a.name b.name) _ r1 in
      let (h3, r3) = and_true (visibility_eq a.visibility b.visibility) _ r2 in
      let (h4, r4) = and_true (text_eq a.default_branch b.default_branch) _ r3 in
      let (h5, r5) = and_true (bool_eq a.archived b.archived) _ r4 in
      let (h6, h7) = and_true (text_eq a.inventory_key b.inventory_key) _ r5 in
      record {
        ids = (text_eq_iff a.id b.id).0 h1;
        names = (text_eq_iff a.name b.name).0 h2;
        visibilities = (visibility_eq_iff a.visibility b.visibility).0 h3;
        branches = (text_eq_iff a.default_branch b.default_branch).0 h4;
        archived_flags = (bool_eq_iff a.archived b.archived).0 h5;
        keys = (text_eq_iff a.inventory_key b.inventory_key).0 h6;
        updates = (updated_at_eq_iff a.updated_at b.updated_at).0 h7;
      },
  λ s. rw (
    (text_eq_iff a.id b.id).1 s.ids,
    (text_eq_iff a.name b.name).1 s.names,
    (visibility_eq_iff a.visibility b.visibility).1 s.visibilities,
    (text_eq_iff a.default_branch b.default_branch).1 s.branches,
    (bool_eq_iff a.archived b.archived).1 s.archived_flags,
    (text_eq_iff a.inventory_key b.inventory_key).1 s.keys,
    (updated_at_eq_iff a.updated_at b.updated_at).1 s.updates,
  ),
)

-- The order looks at the id and then the name alone: it ties exactly the repositories that share
-- both, which equal repositories do.
pub cmp_ties :
    (a b : Repository)
    → ((cmp a b ≡ Ordering.eq) ↔ ((a.id ≡ b.id) × (a.name ≡ b.name)))
      × ((eq a b ≡ false) ⊎ (cmp a b ≡ Ordering.eq))
unfolding cmp
cmp_ties a b =
    let tie : (a.id ≡ b.id) × (a.name ≡ b.name) → cmp a b ≡ Ordering.eq =
      λ (p, q). rw (p, q, text_cmp_refl b.id, text_cmp_refl b.name) in
    (
      (ground (arith, text_cmp-eq a.id b.id, text_cmp-eq a.name b.name), tie),
      elim (Bool-cases (eq a b)) [
        | inl h ↦ let s = (eq-SameIdentity a b).0 h in inr (tie (s.ids, s.names))
        | inr h ↦ inl h
      ],
    )
