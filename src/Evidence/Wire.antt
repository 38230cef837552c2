-- ===== src/Evidence/Wire.antt =====
-- domain/evidence.rs: the JSON object of a `CollectionCoverage`, field by field. A JSON value is
-- one of the kinds that the fields take, or another. The derives of serde read an object field by
-- field: a field that is unknown, there twice, missing where it is not optional, or of another kind
-- is an error. A status given as an object is not modelled.
use gh_report.Prelude.{
  ℕ, ◌^◌, Bool, true, not, ◌&&◌, Option, none, some, List, [], ◌∷◌, Text, codes, min, ltb, leb,
  if◌then◌else◌, text_eq, any, all, or_else, ◌>>=◌,
}
use gh_report.Evidence.Coverage.{
  CollectionCoverage, unknown, known, limit_val, RawCoverage, raw_unknown, raw_known, Read, err,
  unreadable, deserialize,
}

pub data Wire : Type 0 where
  text : Text → Wire
  number : ℕ → Wire
  boolean : Bool → Wire
  null other : Wire

abbrev pub Object : Type 0
Object = List (Text × Wire)

unfoldable pub serialize : ℕ → CollectionCoverage → Object
serialize usize_max unknown = (codes "status", text (codes "unknown")) ∷ []
serialize usize_max (known total limit) =
    (codes "status", text (codes "known"))
    ∷ (codes "total", number total)
    ∷ (codes "limit", number limit)
    ∷ (codes "selected", number (min total (limit_val usize_max limit)))
    ∷ (codes "capped", boolean (ltb (limit_val usize_max limit) total))
    ∷ []

unfoldable pub field_of : Text → Object → Option Wire
unfolding text_eq
field_of name [] = none
field_of name ((key, value) ∷ rest) = if text_eq key name then some value else field_of name rest

-- no field twice
unfoldable pub distinct : Object → Bool
unfolding text_eq
distinct [] = true
distinct ((key, value) ∷ rest) = not (any (λ e. text_eq e.0 key) rest) && distinct rest

-- `deny_unknown_fields`, and the error of serde on a field that is there twice
unfoldable pub only : List Text → Object → Bool
unfolding distinct text_eq
only names object = all (λ e. any (λ name. text_eq name e.0) names) object && distinct object

-- `KnownTag` and `UnknownTag`
unfoldable pub as_tag : Text → Wire → Option Text
unfolding text_eq
as_tag tag (text s) = if text_eq s tag then some s else none
as_tag tag _ = none

abbrev pub as_usize : ℕ → Wire → Option ℕ
as_usize usize_max (number n) = if leb n usize_max then some n else none
as_usize usize_max _ = none

-- `NonZeroU64`
abbrev pub as_non_zero : Wire → Option ℕ
as_non_zero (number n) = if ltb 0 n && ltb n (2 ^ 64) then some n else none
as_non_zero _ = none

abbrev pub as_flag : Wire → Option Bool
as_flag (boolean b) = some b
as_flag _ = none

-- an optional field may be missing or null
abbrev pub optional : {A : Type 0} → (Wire → Option A) → Option Wire → Option (Option A)
optional read none = some none
optional read (some null) = some none
optional read (some value) = do a ← read value; some (some a)

abbrev pub known_fields : List Text
known_fields =
    codes "status" ∷ codes "total" ∷ codes "limit" ∷ codes "selected" ∷ codes "capped" ∷ []

-- the fields of `RawKnownCoverage`
unfoldable pub known_of : ℕ → Object → Option RawCoverage
unfolding field_of as_tag
known_of usize_max object = do
  s ← field_of (codes "status") object
  status ← as_tag (codes "known") s
  t ← field_of (codes "total") object
  total ← as_usize usize_max t
  l ← field_of (codes "limit") object
  limit ← as_non_zero l
  selected ← optional (as_usize usize_max) (field_of (codes "selected") object)
  capped ← optional as_flag (field_of (codes "capped") object)
  some (raw_known total limit selected capped)

unfoldable pub read_known : ℕ → Object → Option RawCoverage
unfolding known_of only
read_known usize_max object = if only known_fields object then known_of usize_max object else none

-- the field of `RawUnknownCoverage`
unfoldable pub unknown_of : Object → Option RawCoverage
unfolding field_of as_tag
unknown_of object = do
  s ← field_of (codes "status") object
  status ← as_tag (codes "unknown") s
  some raw_unknown

unfoldable pub read_unknown : Object → Option RawCoverage
unfolding unknown_of only
read_unknown object = if only (codes "status" ∷ []) object then unknown_of object else none

-- `RawCoverageTagged`, untagged: the first form that the object has
unfoldable pub read_raw : ℕ → Object → Option RawCoverage
unfolding read_known read_unknown
read_raw usize_max object = or_else (read_known usize_max object) (read_unknown object)

unfoldable pub deserialize_object : ℕ → Object → Read
unfolding read_raw deserialize
deserialize_object usize_max object = elim (read_raw usize_max object) [
  | none ↦ err unreadable
  | some raw ↦ deserialize usize_max raw
]
