-- ===== src/Evidence/Written.antt =====
-- Writing a collection coverage and reading it.
use gh_report.Prelude.{
  ℕ, ◌≤◌, ◌<◌, ◌^◌, ◌≡◌, refl, ◌∙◌, true, ◌&&◌, Option, none, some, arith, min, ltb, leb, text_eq,
}
use gh_report.Evidence.Coverage.{
  CollectionCoverage, unknown, known, limit_val, RawCoverage, raw_unknown, raw_known, Read, ok, err,
  deserialize, deserialize-derived,
}
use gh_report.Evidence.Wire.{
  Wire, Object, serialize, field_of, distinct, only, as_tag, known_of, read_known, read_unknown,
  read_raw, deserialize_object,
}

-- the total is a `usize`, and the limit a `NonZeroU64`
abbrev pub Fits : ℕ → CollectionCoverage → Type 0
Fits usize_max unknown = Unit
Fits usize_max (known total limit) = (total ≤ usize_max) × (0 < limit) × (limit < 2 ^ 64)

read_serialized :
    (usize_max total limit : ℕ)
    → Fits usize_max (known total limit)
    → read_raw usize_max (serialize usize_max (known total limit))
      ≡ some (
          raw_known total limit
            (some (min total (limit_val usize_max limit)))
            (some (ltb (limit_val usize_max limit) total)))
unfolding read_raw serialize read_known known_of field_of only as_tag text_eq distinct
read_serialized usize_max total limit (fits, positive, bounded) =
    let total_fits : leb total usize_max ≡ true = ground (arith, fits) in
    let limit_fits : (ltb 0 limit && ltb limit (2 ^ 64)) ≡ true =
      ground (arith, positive, bounded) in
    let selected_fits : leb (min total (limit_val usize_max limit)) usize_max ≡ true =
      ground (arith, fits) in
    rw (total_fits, limit_fits, selected_fits) refl

read_as :
    (usize_max : ℕ) (object : Object) (raw : RawCoverage)
    → read_raw usize_max object ≡ some raw
    → deserialize_object usize_max object ≡ deserialize usize_max raw
unfolding deserialize_object
read_as usize_max object raw e = rw (deserialize_object, e) refl

-- Writing a coverage as a JSON object and reading the object gives the coverage back, where its
-- total is within the platform's bound and its limit is a positive 64-bit number.
pub deserialize_object-serialize :
    (usize_max : ℕ) (c : CollectionCoverage)
    → Fits usize_max c
    → deserialize_object usize_max (serialize usize_max c) ≡ ok c
unfolding deserialize_object deserialize serialize read_raw read_known read_unknown field_of only
    as_tag text_eq distinct
deserialize_object-serialize usize_max unknown fits = refl
deserialize_object-serialize usize_max (known total limit) fits =
    read_as usize_max (serialize usize_max (known total limit)) _
      (read_serialized usize_max total limit fits)
    ∙ deserialize-derived usize_max total limit

abbrev RawFits : ℕ → RawCoverage → Type 0
RawFits usize_max raw_unknown = Unit
RawFits usize_max (raw_known total limit selected capped) = Fits usize_max (known total limit)

pass : Read → Option CollectionCoverage
pass (ok c) = some c
pass (err e) = none
