-- ===== src/Aggregate/Tallies.antt =====
-- A counter over a list of evidence stops at the bound of 32 bits, and otherwise counts what its
-- classification names.
use gh_report.Prelude.{
  ℕ, ◌+◌, ◌≤◌, ◌≡◌, refl, min, Bool, true, false, not, List, [], ◌∷◌, map, keep, length, is_empty,
  arith, if◌then◌else◌, ◌==◌,
}
use gh_report.Metrics.{u32_max, saturating_add}
use gh_report.Evidence.{RepositoryEvidence}
use gh_report.Aggregate.Counts.{count_statuses}

abbrev pub bit : Bool → ℕ
bit true = 1
bit false = 0

module _ {ℓ} {A : Type ℓ} where
  abbrev pub count : (A → Bool) → List A → ℕ
  count p [] = 0
  count p (x ∷ xs) = bit (p x) + count p xs

  pub length-keep : (p : A → Bool) (xs : List A) → length (keep p xs) ≡ count p xs
  length-keep p [] = refl
  length-keep p (x ∷ xs) = ground (arith, length-keep p xs)

  pub count-add :
      (p q r : A → Bool)
      → ((x : A) → bit (p x) + bit (q x) ≡ bit (r x))
      → (xs : List A) → count p xs + count q xs ≡ count r xs
  count-add p q r h [] = omega arith
  count-add p q r h (x ∷ xs) = omega (arith, h x, count-add p q r h xs)

  pub count-not : (p : A → Bool) (xs : List A) → count p xs + count (λ x. not (p x)) xs ≡ length xs
  count-not p [] = omega arith
  count-not p (x ∷ xs) = ground (arith, count-not p xs)

  pub is_empty-length : (xs : List A) → is_empty xs ≡ (length xs == 0)
  is_empty-length [] = refl
  is_empty-length (x ∷ xs) = ground arith

pub length-map {ℓ κ} :
    {A : Type ℓ} {B : Type κ} (f : A → B) (xs : List A) → length (map f xs) ≡ length xs
length-map f [] = refl
length-map f (x ∷ xs) = ground (arith, length-map f xs)

pub count-map {ℓ κ} :
    {A : Type ℓ} {B : Type κ} (p : B → Bool) (f : A → B) (xs : List A)
    → count p (map f xs) ≡ count (λ x. p (f x)) xs
count-map p f [] = refl
count-map p f (x ∷ xs) = ground (arith, count-map p f xs)

-- `get` reads a counter off the counts: it goes up by one, to the bound, where `p` holds
abbrev pub Counts {ℓ} :
    {T : Type ℓ} → (RepositoryEvidence → T → T) → (T → ℕ) → (RepositoryEvidence → Bool) → Type ℓ
Counts {T} classify get p =
    (r : RepositoryEvidence) (c : T)
    → get c ≤ u32_max
    → get (classify r c) ≡ (if p r then saturating_add (get c) 1 else get c)

module _ {ℓ} {T : Type ℓ} (classify : RepositoryEvidence → T → T) (get : T → ℕ)
    (p : RepositoryEvidence → Bool) (step : Counts classify get p) where
  pub count_statuses-get_from :
      (repos : List RepositoryEvidence) (c : T)
      → get c ≤ u32_max
      → get (count_statuses classify c repos) ≡ min u32_max (get c + count p repos)
  unfolding count_statuses
  count_statuses-get_from [] c h = omega arith
  count_statuses-get_from (r ∷ rs) c h =
      ground
        (arith, step r c h, count_statuses-get_from rs (classify r c) (ground (arith, step r c h)))

  pub count_statuses-get :
      (repos : List RepositoryEvidence) (c : T)
      → get c ≡ 0
      → get (count_statuses classify c repos) ≡ min u32_max (count p repos)
  count_statuses-get repos c h = omega (arith, count_statuses-get_from repos c (omega arith))
