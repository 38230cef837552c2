-- ===== src/Pagination/Single.antt =====
-- When a response names one next page.
use gh_report.Prelude.{
  List-cases, ◌≡◌, ◌≢◌, ◌↔◌, refl, sym, ◌∙◌, Option, none, some, List, [], ◌∷◌, Text, arith,
  Option-cases, inl, inr, All, text_eq, text_eq_iff, if◌then◌else◌,
}
use gh_report.Pagination.{one, uninterpretable, next_link, collect_fields, dedup, link_of}

abbrev onto : Text → Text → List Text → List Text
onto x y ys = if text_eq x y then x ∷ ys else x ∷ y ∷ ys

dedup_last : (x : Text) (xs : List Text) → dedup xs ≡ [] → dedup (x ∷ xs) ≡ x ∷ []
unfolding dedup
dedup_last x xs h = ground arith

dedup-onto : (x y : Text) (xs ys : List Text) → dedup xs ≡ y ∷ ys → dedup (x ∷ xs) ≡ onto x y ys
unfolding dedup
dedup-onto x y xs ys h = ground arith

onto_one : (x y u : Text) (ys : List Text) → onto x y ys ≡ u ∷ [] → (x ≡ u) × (y ≡ u) × (ys ≡ [])
onto_one x y u ys h = ground (arith, text_eq_iff x y)

onto_same : (x u : Text) → x ≡ u → onto x u [] ≡ u ∷ []
onto_same x u h = ground (arith, text_eq_iff x u)

onto_some : (x y : Text) (ys : List Text) → onto x y ys ≢ []
onto_some x y ys = ground arith

dedup_none : (xs : List Text) → dedup xs ≡ [] → xs ≡ []
dedup_none [] h = refl
dedup_none (x ∷ xs) h = elim (List-cases (dedup xs)) [
  | inl e ↦ absurd (some_left x (sym (dedup_last x xs e) ∙ h))
  | inr (y, ys, e) ↦ absurd (onto_some x y ys (sym (dedup-onto x y xs ys e) ∙ h))
]
  where
    some_left : (x : Text) → x ∷ [] ≢ []
    some_left x = ground arith

one_head : (x u : Text) → x ∷ [] ≡ u ∷ [] → x ≡ u
one_head x u h = ground arith

dedup_sound : (xs : List Text) (u : Text) → dedup xs ≡ u ∷ [] → All (λ t. t ≡ u) xs
dedup_sound [] u h = tt
dedup_sound (x ∷ xs) u h = elim (List-cases (dedup xs)) [
  | inl e ↦ (one_head x u (sym (dedup_last x xs e) ∙ h), rw (dedup_none xs e) tt)
  | inr (y, ys, e) ↦
      let (xu, yu, nil) = onto_one x y u ys (sym (dedup-onto x y xs ys e) ∙ h) in
      (xu, dedup_sound xs u (cc (e, yu, nil)))
]

dedup_nil : dedup [] ≡ []
unfolding dedup
dedup_nil = refl

dedup_complete : (x u : Text) (xs : List Text) → All (λ t. t ≡ u) (x ∷ xs) → dedup (x ∷ xs) ≡ u ∷ []
dedup_complete x u [] (e, h) = dedup_last x [] dedup_nil ∙ cc e
dedup_complete x u (y ∷ xs) (e, h) =
    dedup-onto x u (y ∷ xs) [] (dedup_complete y u xs h) ∙ onto_same x u e

link_one : (ts : List Text) (u : Text) → (link_of ts ≡ one u) ↔ (ts ≡ u ∷ [])
unfolding link_of
link_one [] u = (ground arith, ground arith)
link_one (t ∷ []) u = (ground arith, ground arith)
link_one (t ∷ s ∷ ts) u = (ground arith, ground arith)

collected :
    (fields : List (Option Text)) (ts : List Text)
    → collect_fields fields [] ≡ some ts
    → next_link fields ≡ link_of (dedup ts)
unfolding next_link
collected fields ts e = ground arith

uncollected :
    (fields : List (Option Text))
    → collect_fields fields [] ≡ none
    → next_link fields ≡ uninterpretable
unfolding next_link
uncollected fields e = ground arith

not_one : (u : Text) → uninterpretable ≢ one u
not_one u = ground arith

some_one : (xs : List Text) (u : Text) → dedup xs ≡ u ∷ [] → xs ≢ []
unfolding dedup
some_one [] u h = ground arith
some_one (x ∷ xs) u h = ground arith

-- A response has one next link exactly when all its fields could be interpreted, they name at least
-- one next target, and every target that they name is that link.
pub next_link_one :
    (fields : List (Option Text)) (u : Text)
    → (next_link fields ≡ one u)
      ↔ ((ts : List Text) × (collect_fields fields [] ≡ some ts) × (ts ≢ []) × All (λ t. t ≡ u) ts)
next_link_one fields u = (to', from')
  where
    to' :
        next_link fields ≡ one u
        → (ts : List Text) × (collect_fields fields [] ≡ some ts) × (ts ≢ []) × All (λ t. t ≡ u) ts
    to' h = elim (Option-cases (collect_fields fields [])) [
      | inl e ↦ absurd (not_one u (sym (uncollected fields e) ∙ h))
      | inr (ts, e) ↦
          let d = (link_one (dedup ts) u).0 (sym (collected fields ts e) ∙ h) in
          (ts, e, some_one ts u d, dedup_sound ts u d)
    ]

    from' :
        ((ts : List Text) × (collect_fields fields [] ≡ some ts) × (ts ≢ []) × All (λ t. t ≡ u) ts)
        → next_link fields ≡ one u
    from' ([], e, n, a) = absurd (n refl)
    from' (t ∷ ts, e, n, a) =
        collected fields (t ∷ ts) e ∙ (link_one (dedup (t ∷ ts)) u).1 (dedup_complete t u ts a)
