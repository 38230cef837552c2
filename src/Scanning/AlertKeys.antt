-- ===== src/Scanning/AlertKeys.antt =====
-- The keys of an alert's repository, its id and its node id, in the words of the API.
use gh_report.Prelude.{
  bind_iff, ℕ, ◌≡◌, ◌≢◌, ◌↔◌, ◌⊎◌, inl, inr, refl, sym, ap, ◌∙◌, true, Option, none, some, [], ◌∷◌,
  Text, codes, arith, to_string, Option-cases, ◌>>=◌,
}
use mathlib.Core.Option.{some-injective, none-ne-some}
use gh_report.Api.{Json}
use gh_report.Scanning.{not_empty, id_text}

module _ (J : Json) where
  open J use {Value, get, as_str, as_u64, is_object}

  -- an id, which is a number or a text
  abbrev pub NumberOrText : Value → Text → Type 0
  NumberOrText v key =
      ((n : ℕ) × (as_u64 v ≡ some n) × (key ≡ to_string n))
      ⊎ ((as_u64 v ≡ none) × (as_str v ≡ some key))

  abbrev pub NamedById : Value → Text → Type 0
  NamedById repository key =
      (v : Value) × (get repository (codes "id") ≡ some v) × NumberOrText v key

  abbrev pub NamedByNode : Value → Text → Type 0
  NamedByNode repository key =
      (v : Value) × (get repository (codes "node_id") ≡ some v) × (as_str v ≡ some key)

  -- the alert's repository is an object that has the key, which is not empty
  abbrev pub AlertKey : Value → Text → Type 0
  AlertKey alert key =
      (repository : Value) × (get alert (codes "repository") ≡ some repository)
      × (is_object repository ≡ true)
      × (key ≢ [])
      × (NamedById repository key ⊎ NamedByNode repository key)

  not_empty_iff :
      (o : Option Text) (key : Text) → (not_empty J o ≡ some key) ↔ ((o ≡ some key) × (key ≢ []))
  not_empty_iff none key = (λ h. absurd (none-ne-some key h), λ (h, n). h)
  not_empty_iff (some []) key =
      (λ h. absurd (none-ne-some key h), λ (h, n). absurd (n (sym (some-injective [] key h))))
  not_empty_iff (some (c ∷ s)) key = (λ h. (h, filled c s key h), λ (h, n). h)
    where
      filled : (c : ℕ) (s key : Text) → some (c ∷ s) ≡ some key → key ≢ []
      filled c s key h n = ground arith

  id_text_iff : (v : Value) (key : Text) → (id_text J v ≡ some key) ↔ NumberOrText v key
  unfolding id_text
  id_text_iff v key = elim (Option-cases (as_u64 v)) [
    | inl e ↦ rw e (
      λ h. inr (refl, h),
      λ h. elim h [ inl (n, is_n, text) ↦ absurd (none-ne-some n is_n) | inr (no_n, text) ↦ text ],
    )
    | inr (n, e) ↦ rw e (
      λ h. inl (n, refl, sym (some-injective (to_string n) key h)),
      λ h. elim h [
        | inl (m, is_m, text) ↦ ap some (ap to_string (some-injective n m is_m) ∙ sym text)
        | inr (no_n, text) ↦ absurd (none-ne-some n (sym no_n))
      ],
    )
  ]

  abbrev pub num_id : Value → Option Text
  num_id repository = not_empty J (do v ← get repository (codes "id"); id_text J v)

  abbrev pub node_id_of : Value → Option Text
  node_id_of repository = not_empty J (do v ← get repository (codes "node_id"); as_str v)

  pub num_iff :
      (repository : Value) (key : Text)
      → (num_id repository ≡ some key) ↔ ((key ≢ []) × NamedById repository key)
  num_iff repository key =
      let full = not_empty_iff (do v ← get repository (codes "id"); id_text J v) key in
      let bound = bind_iff (get repository (codes "id")) (id_text J) key in
      (
        λ h.
            let (e, n) = full.0 h in
            let (v, g, t) = bound.0 e in (n, (v, g, (id_text_iff v key).0 t)),
        λ (n, (v, g, t)). full.1 (bound.1 (v, g, (id_text_iff v key).1 t), n),
      )

  pub node_iff :
      (repository : Value) (key : Text)
      → (node_id_of repository ≡ some key) ↔ ((key ≢ []) × NamedByNode repository key)
  node_iff repository key =
      let full = not_empty_iff (do v ← get repository (codes "node_id"); as_str v) key in
      let bound = bind_iff (get repository (codes "node_id")) as_str key in
      (λ h. let (e, n) = full.0 h in (n, bound.0 e), λ (n, named). full.1 (bound.1 named, n))
