-- ===== src/Scanning/Inventory.antt =====
-- The scope that the repositories of the inventory make, by the keys that they have.
use gh_report.Prelude.{
  ◌≡◌, ◌≢◌, ◌↔◌, ◌⊎◌, inl, inr, refl, sym, ap, ◌∙◌, Bool, true, false, ◌||◌, Option, none, some,
  List, [], ◌∷◌, Text, arith, text_eq, text_eq_iff, Bool-cases, Option-cases, false≢true, In, here,
  there,
}
use mathlib.Core.Path.{subst}
use mathlib.Core.Option.{some-injective, none-ne-some}
use gh_report.OrderedMap.{OrderedMap, get-insert}
use gh_report.OrderedMap
use gh_report.Repository.{Repository}
use gh_report.Scanning.Collect.{Scope, scope_other, add_scope, add_node, known_scope_of}

-- the id and the node id of a repository
abbrev pub HasKey : Repository → Text → Type 0
HasKey r key = (key ≡ r.id) ⊎ (r.node_id ≡ some key)

abbrev Relation : Type 1
Relation = Text → Repository → Type 0

-- the scope is that of the entries that `E` names
record Holds (E : Relation) (s : Scope) : Type 0 where
  entered : (key : Text) (r : Repository) → OrderedMap.get key s.0 ≡ some r → E key r
  agrees :
      (key : Text) (r : Repository)
      → s.1 ≡ false
      → E key r
      → (found : Repository) × (OrderedMap.get key s.0 ≡ some found) × (found.id ≡ r.id)
  clash :
      s.1 ≡ true
      → (key : Text) × (a : Repository) × (b : Repository) × E key a × E key b × (a.id ≢ b.id)

Holds-iff :
    {E F : Relation} {s : Scope}
    → ((key : Text) (r : Repository) → E key r → F key r)
    → ((key : Text) (r : Repository) → F key r → E key r)
    → Holds E s
    → Holds F s
Holds-iff to from h = record {
  entered = λ key r e. to key r (h.entered key r e);
  agrees = λ key r apart f. h.agrees key r apart (from key r f);
  clash = λ t. let (key, a, b, p, q, n) = h.clash t in (key, a, b, to key a p, to key b q, n);
}

abbrev with : Text → Repository → Relation → Relation
with key repo E k r = E k r ⊎ ((k ≡ key) × (r ≡ repo))

or_false : (a b : Bool) → (a || b) ≡ false → (a ≡ false) × (b ≡ false)
or_false a b h = (ground arith, ground arith)

same_id :
    (repo existing : Repository) → scope_other repo (some existing) ≡ false → existing.id ≡ repo.id
unfolding scope_other
same_id repo existing h = ground (arith, text_eq_iff existing.id repo.id)

add_scope-Holds :
    (key : Text) (repo : Repository) {E : Relation} (s : Scope)
    → Holds E s
    → Holds (with key repo E) (add_scope key repo s)
unfolding add_scope scope_other
add_scope-Holds key repo (m, flag) h = record {
  entered = λ k r e. elim (Bool-cases (text_eq k key)) [
    | inl same ↦
        inr ((text_eq_iff k key).0 same, sym (some-injective repo r (simp (get-insert, same) at e)))
    | inr other ↦ inl (h.entered k r (simp (get-insert, other) at e))
  ];
  agrees = λ k r apart e.
      let (fine, alike) = or_false flag _ apart in
      elim e [
        | inl old ↦
            let (found, got, ids) = h.agrees k r fine old in
            elim (Bool-cases (text_eq k key)) [
              | inl same ↦
                  let at_key : OrderedMap.get key m ≡ some found =
                    ap (λ x. OrderedMap.get x m) (sym ((text_eq_iff k key).0 same)) ∙ got in
                  let one = same_id repo found (ap (scope_other repo) (sym at_key) ∙ alike) in
                  (repo, rw (get-insert, same) refl, sym one ∙ ids)
              | inr other ↦ (found, rw (get-insert, other) got, ids)
            ]
        | inr (k_key, r_repo) ↦
            (repo, rw (get-insert, (text_eq_iff k key).1 k_key) refl, ap (λ x. x.id) (sym r_repo))
      ];
  clash = λ t. elim (Bool-cases flag) [
    | inl before ↦ let (k, a, b, p, q, n) = h.clash before in (k, a, b, inl p, inl q, n)
    | inr fine ↦ elim (Option-cases (OrderedMap.get key m)) [
      | inl e ↦ absurd (false≢true (simp (fine, e) at t))
      | inr (existing, e) ↦ (
        key,
        existing,
        repo,
        inl (h.entered key existing e),
        inr (refl, refl),
        λ same.
            let alike : text_eq existing.id repo.id ≡ true =
              (text_eq_iff existing.id repo.id).1 same in
            false≢true (simp (fine, e, alike) at t),
      )
    ]
  ];
}

-- the repository enters the scope under each of its keys
abbrev entering : Repository → Relation → Relation
entering repo E k r = E k r ⊎ ((r ≡ repo) × HasKey repo k)

add_node-Holds :
    (repo : Repository) (node : Option Text) {E : Relation} (s : Scope)
    → Holds E s
    → Holds (λ k r. E k r ⊎ ((node ≡ some k) × (r ≡ repo))) (add_node node repo s)
unfolding add_node
add_node-Holds repo none s h =
    Holds-iff (λ k r e. inl e)
      (λ k r e. elim e [ inl old ↦ old | inr (n, same) ↦ absurd (none-ne-some k n) ]) h
add_node-Holds repo (some node) s h =
    Holds-iff (λ k r e. elim e [ inl old ↦ inl old | inr (n, same) ↦ inr (ap some (sym n), same) ])
      (λ k r e. elim e [
        | inl old ↦ inl old
        | inr (n, same) ↦ inr (sym (some-injective node k n), same)
      ])
      (add_scope-Holds node repo s h)

repository-Holds :
    (repo : Repository) {E : Relation} (s : Scope)
    → Holds E s
    → Holds (entering repo E) (add_node repo.node_id repo (add_scope repo.id repo s))
repository-Holds repo {E} s h =
    Holds-iff
      (λ k r e. elim e [
        | inl first ↦ elim first [ inl old ↦ inl old | inr (n, same) ↦ inr (same, inl n) ]
        | inr (n, same) ↦ inr (same, inr n)
      ])
      (λ k r e. elim e [
        | inl old ↦ inl (inl old)
        | inr (same, key) ↦ elim key [ inl n ↦ inl (inr (n, same)) | inr n ↦ inr (n, same) ]
      ])
      (add_node-Holds repo repo.node_id (add_scope repo.id repo s)
        (add_scope-Holds repo.id repo s h))

known_scope_of-Holds :
    (repositories : List Repository) {E : Relation} (s : Scope)
    → Holds E s
    → Holds (λ k r. E k r ⊎ (In r repositories × HasKey r k)) (known_scope_of repositories s)
unfolding known_scope_of
known_scope_of-Holds [] s h =
    Holds-iff (λ k r e. inl e) (λ k r e. elim e [ inl old ↦ old | inr (i, key) ↦ absurd (no_In i) ])
      h
  where
    no_In : {r : Repository} → In r [] → ⊥
    no_In i = elim i [ ]
known_scope_of-Holds (repo ∷ repositories) s h =
    Holds-iff
      (λ k r e. elim e [
        | inl first ↦ elim first [
          | inl old ↦ inl old
          | inr (same, key) ↦ inr (In.here same, subst (λ x. HasKey x k) (sym same) key)
        ]
        | inr (i, key) ↦ inr (In.there i, key)
      ])
      (λ k r e. elim e [
        | inl old ↦ inl (inl old)
        | inr (i, key) ↦ elim (first_or_later i) [
          | inl same ↦ inl (inr (same, subst (λ x. HasKey x k) same key))
          | inr later ↦ inr (later, key)
        ]
      ])
      (known_scope_of-Holds repositories (add_node repo.node_id repo (add_scope repo.id repo s))
        (repository-Holds repo s h))
  where
    first_or_later :
        {r first : Repository} {rs : List Repository} → In r (first ∷ rs) → (r ≡ first) ⊎ In r rs
    first_or_later (here e) = inl e
    first_or_later (there i) = inr i

module _ (repositories : List Repository) where
  -- a repository of the inventory has the key
  abbrev pub Entry : Text → Repository → Type 0
  Entry key r = In r repositories × HasKey r key

  -- no key is that of two repositories
  abbrev pub Apart : Type 0
  Apart = (key : Text) (a b : Repository) → Entry key a → Entry key b → a.id ≡ b.id

  abbrev pub inventory : Scope
  inventory = known_scope_of repositories ([], false)

  inventory-Holds : Holds Entry inventory
  unfolding OrderedMap.get
  inventory-Holds =
      Holds-iff {E = λ k r. ⊥ ⊎ Entry k r} (λ k r e. elim e [ inl n ↦ absurd n | inr i ↦ i ])
        (λ k r i. inr i)
        (known_scope_of-Holds repositories {E = λ k r. ⊥} ([], false)
          (record {
            entered = λ key r e. none-ne-some r e;
            agrees = λ key r apart e. absurd e;
            clash = λ t. absurd (false≢true t);
          }))

  pub collision-Apart : (inventory.1 ≡ false) ↔ Apart
  collision-Apart = (
    λ fine key a b p q.
        let (x, got_a, ids_a) = inventory-Holds.agrees key a fine p in
        let (y, got_b, ids_b) = inventory-Holds.agrees key b fine q in
        let one : x ≡ y = some-injective x y (sym got_a ∙ got_b) in
        sym ids_a ∙ (ap (λ r. r.id) one ∙ ids_b),
    λ apart. elim (Bool-cases inventory.1) [
      | inl t ↦ let (key, a, b, p, q, n) = inventory-Holds.clash t in absurd (n (apart key a b p q))
      | inr fine ↦ fine
    ],
  )

  pub found-Entry :
      (key : Text) (r : Repository) → OrderedMap.get key inventory.0 ≡ some r → Entry key r
  found-Entry key r e = inventory-Holds.entered key r e

  pub Entry-found :
      (key : Text) (r : Repository)
      → inventory.1 ≡ false
      → Entry key r
      → (found : Repository) × (OrderedMap.get key inventory.0 ≡ some found) × (found.id ≡ r.id)
  Entry-found key r fine e = inventory-Holds.agrees key r fine e
