-- ===== src/Evidence/Coverage.antt =====
-- domain/evidence.rs: `CollectionCoverage`, and what is made of the fields of its wire form. The
-- platform's `usize::MAX` is a parameter; a `NonZeroU64` is a number with `0 < limit`.
use gh_report.Prelude.{
  ℕ, ◌≤◌, ◌<◌, ◌≡◌, ◌↔◌, ◌⊎◌, Bool, true, false, Option, none, some, arith, min, ltb, leb, ◌==◌,
  if◌then◌else◌,
}

pub data CollectionCoverage : Type 0 where
  unknown : CollectionCoverage
  -- the total and the limit
  known : ℕ → ℕ → CollectionCoverage

-- `usize::try_from(limit.get()).unwrap_or(usize::MAX)`
abbrev pub limit_val : ℕ → ℕ → ℕ
limit_val usize_max limit = if leb limit usize_max then limit else usize_max

unfoldable pub is_known : CollectionCoverage → Bool
is_known unknown = false
is_known (known total limit) = true

unfoldable pub total_of : CollectionCoverage → Option ℕ
total_of unknown = none
total_of (known total limit) = some total

unfoldable pub limit_of : CollectionCoverage → Option ℕ
limit_of unknown = none
limit_of (known total limit) = some limit

unfoldable pub selected : ℕ → CollectionCoverage → Option ℕ
selected usize_max unknown = none
selected usize_max (known total limit) = some (min total (limit_val usize_max limit))

unfoldable pub is_capped : ℕ → CollectionCoverage → Bool
is_capped usize_max unknown = false
is_capped usize_max (known total limit) = ltb (limit_val usize_max limit) total

-- `RawCoverageTagged`: what the fields of the wire form can hold
pub data RawCoverage : Type 0 where
  raw_unknown : RawCoverage
  -- total, limit, selected, capped
  raw_known : ℕ → ℕ → Option ℕ → Option Bool → RawCoverage

pub data CoverageError : Type 0 where
  unreadable contradictory_selected contradictory_capped : CoverageError

pub data Read : Type 0 where
  ok : CollectionCoverage → Read
  err : CoverageError → Read

abbrev disagrees_ℕ : Option ℕ → ℕ → Bool
disagrees_ℕ none n = false
disagrees_ℕ (some m) n = if m == n then false else true

abbrev disagrees_bool : Option Bool → Bool → Bool
disagrees_bool none b = false
disagrees_bool (some true) b = if b then false else true
disagrees_bool (some false) b = b

-- what is made of the fields that were read
unfoldable pub deserialize : ℕ → RawCoverage → Read
deserialize usize_max raw_unknown = ok unknown
deserialize usize_max (raw_known total limit sel cap) =
    if disagrees_ℕ sel (min total (limit_val usize_max limit))
    then err contradictory_selected
    else if disagrees_bool cap (ltb (limit_val usize_max limit) total)
    then err contradictory_capped
    else ok (known total limit)

-- what is derived from the total and the limit is no contradiction
pub deserialize-derived :
    (usize_max total limit : ℕ)
    → deserialize usize_max (
        raw_known total limit
          (some (min total (limit_val usize_max limit)))
          (some (ltb (limit_val usize_max limit) total)))
      ≡ ok (known total limit)
unfolding deserialize
deserialize-derived usize_max total limit = ground arith

-- Whatever is read carries the written total and limit, and agrees with the written selection and
-- cap wherever these are present: a contradiction is never read.
pub deserialize_agrees :
    (usize_max total limit : ℕ) (sel : Option ℕ) (cap : Option Bool) (c : CollectionCoverage)
    → deserialize usize_max (raw_known total limit sel cap) ≡ ok c
    → (c ≡ known total limit)
      × ((sel ≡ none) ⊎ (sel ≡ selected usize_max c))
      × ((cap ≡ none) ⊎ (cap ≡ some (is_capped usize_max c)))
unfolding deserialize selected is_capped
deserialize_agrees usize_max total limit sel cap c h = (ground arith, ground arith, ground arith)

-- For a total that fits the platform, the selection is at most the total and at most the limit, and
-- the coverage is capped exactly when something was left out.
pub selected_bounds :
    (usize_max total limit n : ℕ)
    → total ≤ usize_max
    → selected usize_max (known total limit) ≡ some n
    → (n ≤ total) × (n ≤ limit) × ((is_capped usize_max (known total limit) ≡ true) ↔ (n < total))
unfolding selected is_capped
selected_bounds usize_max total limit n fits h =
    (ground arith, ground arith, (ground arith, ground arith))
