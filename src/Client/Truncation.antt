-- ===== src/Client/Truncation.antt =====
-- What is kept of an error's text.
use gh_report.Prelude.{
  List-cases, ℕ, zero, suc, ◌≤◌, ◌<◌, ◌≡◌, ◌⊎◌, inl, inr, refl, ap, ◌∙◌, sym, true, [], ◌∷◌, ◌++◌,
  Text, leb, arith, length, Bool-cases,
}
use mathlib.Core.Path.{subst}
use mathlib.Core.List.{nil≢cons}
use gh_report.Client.Bodies.{
  floor_prefix, truncate_error_body, max_error_body_len, truncation_mark, starts_character,
}

-- where a text of UTF-8 may be cut: behind `kept` a character begins, or the text ends
pub record Cut (text kept : Text) : Type 0 where
  pub rest : Text
  pub joined : text ≡ kept ++ rest
  pub boundary : starts_character rest ≡ true

floor_prefix-cases : (n : ℕ) (s : Text) → (floor_prefix n s ≡ []) ⊎ Cut s (floor_prefix n s)
unfolding floor_prefix
floor_prefix-cases n [] = inl refl
floor_prefix-cases zero (c ∷ s) = inl refl
floor_prefix-cases (suc n) (c ∷ s) = elim (List-cases (floor_prefix n s)) [
  | inl e ↦ elim (Bool-cases (starts_character s)) [
    | inl here ↦ rw (e, here) (inr (record { rest = s; joined = refl; boundary = here }))
    | inr inside ↦ rw (e, inside) (inl refl)
  ]
  | inr (d, t, e) ↦ elim (floor_prefix-cases n s) [
    | inl f ↦ absurd (nil≢cons (sym f ∙ e))
    | inr cut ↦
        let joined : s ≡ (d ∷ t) ++ cut.rest = cut.joined ∙ ap (λ p. p ++ cut.rest) e in
        rw e (inr (record { rest = cut.rest; joined = ap (◌∷◌ c) joined; boundary = cut.boundary }))
  ]
]

floor_prefix-Cut : (n : ℕ) (s : Text) → starts_character s ≡ true → Cut s (floor_prefix n s)
floor_prefix-Cut n s h = elim (floor_prefix-cases n s) [
  | inl e ↦ rw e (record { rest = s; joined = refl; boundary = h })
  | inr cut ↦ cut
]

length-floor_prefix : (n : ℕ) (s : Text) → length (floor_prefix n s) ≤ n
unfolding floor_prefix
length-floor_prefix n [] = omega arith
length-floor_prefix zero (c ∷ s) = omega arith
length-floor_prefix (suc n) (c ∷ s) = elim (List-cases (floor_prefix n s)) [
  | inl e ↦ elim (Bool-cases (starts_character s)) [
    | inl here ↦ rw (e, here) (omega arith)
    | inr inside ↦ rw (e, inside) (omega arith)
  ]
  | inr (d, t, e) ↦
      let h : length (d ∷ t) ≤ n = subst (λ p. length p ≤ n) e (length-floor_prefix n s) in
      rw e (omega (arith, h))
]

empty_starts :
    (kept rest : Text)
    → length kept ≤ 0
    → starts_character rest ≡ true
    → starts_character (kept ++ rest) ≡ true
empty_starts [] rest h b = b
empty_starts (c ∷ kept) rest h b = absurd (omega arith)

floor_prefix-longest :
    (n : ℕ) (kept rest : Text)
    → starts_character rest ≡ true
    → length kept ≤ n
    → length kept ≤ length (floor_prefix n (kept ++ rest))
unfolding floor_prefix
floor_prefix-longest n [] rest b h = omega arith
floor_prefix-longest zero (c ∷ kept) rest b h = absurd (omega arith)
floor_prefix-longest (suc n) (c ∷ kept) rest b h =
    let shorter = floor_prefix-longest n kept rest b (omega arith) in
    elim (List-cases (floor_prefix n (kept ++ rest))) [
      | inl e ↦
          let none_kept : length kept ≤ 0 = subst (λ p. length kept ≤ length p) e shorter in
          let here : starts_character (kept ++ rest) ≡ true = empty_starts kept rest none_kept b in
          rw (e, here) (omega (arith, none_kept))
      | inr (d, t, e) ↦
          let le : length kept ≤ length (d ∷ t) = subst (λ p. length kept ≤ length p) e shorter in
          rw e (omega (arith, le))
    ]

-- The text of an error that fits within 1024 bytes is kept as it is. Of a longer text of UTF-8 the
-- longest beginning of at most 1024 bytes that ends between two characters is kept, with the mark
-- of truncation behind it.
pub truncate_error_body_lem :
    (body : Text)
    → starts_character body ≡ true
    → ((length body ≤ max_error_body_len) × (truncate_error_body body ≡ body))
      ⊎ ((max_error_body_len < length body)
          × ((kept : Text) × (truncate_error_body body ≡ kept ++ truncation_mark)
              × Cut body kept
              × (length kept ≤ max_error_body_len)
              × ((other : Text)
                  → Cut body other
                  → length other ≤ max_error_body_len
                  → length other ≤ length kept)))
unfolding truncate_error_body
truncate_error_body_lem body h = elim (Bool-cases (leb (length body) max_error_body_len)) [
  | inl fits ↦ inl (ground (arith, fits), rw fits refl)
  | inr long ↦ inr (
    ground (arith, long),
    (
      floor_prefix max_error_body_len body,
      rw long refl,
      floor_prefix-Cut max_error_body_len body h,
      length-floor_prefix max_error_body_len body,
      λ other cut bound.
          subst (λ t. length other ≤ length (floor_prefix max_error_body_len t)) (sym cut.joined)
            (floor_prefix-longest max_error_body_len other cut.rest cut.boundary bound),
    ),
  )
]
