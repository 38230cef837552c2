-- ===== src/PatternMatch.antt =====
-- pattern_match.rs: slash-sensitive wildcard matching. A text is its bytes and a slice
-- `&candidate[i..]` is a suffix of the list.
pub mod Glob
pub mod Bytes
pub mod Collapse
pub mod Paths
pub mod Plain
use gh_report.Prelude.{
  ℕ, suc, ◌+◌, Bool, true, false, ◌&&◌, List, [], ◌∷◌, ◌++◌, Text, codes, text_eq, ltb, ◌==◌,
  if◌then◌else◌, any, suffixes, is_empty,
}

-- `b'*'` and `b'?'`
abbrev pub star : ℕ
star = b'*'

abbrev pub question : ℕ
question = b'?'

-- a match of the first element by `test` and of the others by `rest`; false on an empty list
abbrev pub step_one {ℓ} : {A : Type ℓ} → (A → Bool) → (List A → Bool) → List A → Bool
step_one test rest [] = false
step_one test rest (x ∷ xs) = if test x then rest xs else false

unfoldable pub fnmatch_bytes : Text → Text → ℕ → ℕ → Bool
fnmatch_bytes [] candidate depth max_depth =
    if ltb max_depth depth then false else is_empty candidate
fnmatch_bytes (ch ∷ pattern) candidate depth max_depth =
    let rest = λ (s : Text). fnmatch_bytes pattern s (depth + 1) max_depth in
    if ltb max_depth depth
    then false
    else if ch == star
    then any rest (suffixes candidate)
    else if ch == question
    then step_one (λ _. true) rest candidate
    else step_one (λ c. c == ch) rest candidate

abbrev pub ends_in_star : Text → Bool
ends_in_star [] = false
ends_in_star (b ∷ []) = b == star
ends_in_star (b ∷ c ∷ out) = ends_in_star (c ∷ out)

-- the loop that collapses consecutive stars, over the bytes written so far
unfoldable pub collapse : Text → Text → Text
collapse out [] = out
collapse out (b ∷ raw) = collapse (if b == star && ends_in_star out then out else out ++ b ∷ []) raw

unfoldable pub fnmatch_segment : Text → Text → ℕ → Bool
fnmatch_segment pattern candidate max_depth =
    fnmatch_bytes (collapse [] pattern) candidate 0 max_depth

-- `MAX_SEGMENT_RECURSION_DEPTH`
abbrev pub max_segment_recursion_depth : ℕ
max_segment_recursion_depth = 64

abbrev pub double_star : Text
double_star = codes "**"

unfoldable pub match_path_segments : List Text → List Text → ℕ → ℕ → Bool
match_path_segments [] candidate_parts depth max_fnmatch_depth =
    if ltb max_segment_recursion_depth depth then false else is_empty candidate_parts
match_path_segments (head ∷ tail) candidate_parts depth max_fnmatch_depth =
    let rest =
      λ (parts : List Text). match_path_segments tail parts (depth + 1) max_fnmatch_depth in
    if ltb max_segment_recursion_depth depth
    then false
    else if text_eq head double_star
    then if is_empty tail then true else any rest (suffixes candidate_parts)
    else step_one (λ part. fnmatch_segment head part max_fnmatch_depth) rest candidate_parts

-- the loop of `split('/')` over the segment read so far
unfoldable pub split_from : Text → Text → List Text
split_from cur [] = cur ∷ []
split_from cur (c ∷ s) = elim (c == b'/') [
  | true ↦ cur ∷ split_from [] s
  | false ↦ split_from (cur ++ c ∷ []) s
]

unfoldable pub split_slash : Text → List Text
split_slash s = split_from [] s

unfoldable pub path_pattern_matches : Text → Text → ℕ → Bool
path_pattern_matches pattern candidate max_fnmatch_depth =
    match_path_segments (split_slash pattern) (split_slash candidate) 0 max_fnmatch_depth
