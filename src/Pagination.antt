-- ===== src/Pagination.antt =====
-- github/pagination.rs: the next page that the `Link` fields of a response name. A field is `none`
-- where `HeaderValue::to_str` fails, and otherwise holds visible ASCII, spaces and tabs.
pub mod Fuel
pub mod Single
pub mod Printed
use gh_report.Prelude.{
  ℕ, zero, suc, ◌+◌, ◌≤◌, Bool, true, false, ◌&&◌, ◌||◌, not, Option, none, some, List, [], ◌∷◌,
  ◌++◌, Text, codes, text_eq, any, all, length, is_empty, map, leb, ◌==◌, if◌then◌else◌, ◌>>=◌,
  strip_prefix, split_once,
}

pub data NextLink : Type 0 where
  no_link : NextLink
  one : Text → NextLink
  uninterpretable : NextLink

-- `trim_start_matches` and `trim_end_matches`
unfoldable pub trim_start : (ℕ → Bool) → Text → Text
trim_start p [] = []
trim_start p (c ∷ s) = let rest = trim_start p s in if p c then rest else c ∷ s

unfoldable pub trim_end : (ℕ → Bool) → Text → Text
trim_end p [] = []
trim_end p (c ∷ s) = let rest = trim_end p s in if is_empty rest && p c then [] else c ∷ rest

abbrev pub is_blank : ℕ → Bool
is_blank c = c == b' ' || c == b'\t'

abbrev pub is_blank_or_comma : ℕ → Bool
is_blank_or_comma c = is_blank c || c == b','

-- inside or outside of a quoted string; `escaped` stands behind a backslash
pub data Quote : Type 0 where
  outside quoted escaped : Quote

-- the loop of `scan_one_parameter`, with `scan_quoted` inside: the parameter's bytes and the rest
unfoldable pub scan : Quote → Text → Option (Text × Text)
scan outside [] = some ([], [])
scan quoted [] = none
scan escaped [] = none
scan outside (c ∷ s) =
    let open' = scan quoted s in
    let on = scan outside s in
    if c == b';' || c == b','
    then some ([], c ∷ s)
    else do (a, b) ← (if c == b'"' then open' else on); some (c ∷ a, b)
scan quoted (c ∷ s) =
    let skip = scan escaped s in
    let close = scan outside s in
    let on = scan quoted s in
    do (a, b) ← (if c == b'\\' then skip else if c == b'"' then close else on); some (c ∷ a, b)
scan escaped (c ∷ s) = do (a, b) ← scan quoted s; some (c ∷ a, b)

unfoldable pub scan_one_parameter : Text → Option (Text × Text)
unfolding trim_start trim_end scan
scan_one_parameter s = do
  (a, b) ← scan outside (trim_start is_blank s)
  some (trim_end is_blank a, b)

-- the loop of `scan_parameters`, on fuel
unfoldable pub parameters_loop : ℕ → Text → Option (List Text × Text)
unfolding scan_one_parameter
parameters_loop fuel [] = some ([], [])
parameters_loop zero (c ∷ s) = if c == b',' then some ([], c ∷ s) else none
parameters_loop (suc fuel) (c ∷ s) =
    if c == b','
    then some ([], c ∷ s)
    else if c == b';'
    then (do
      (p, rest) ← scan_one_parameter s
      (ps, end) ← parameters_loop fuel rest
      some (p ∷ ps, end))
    else none

unfoldable pub scan_parameters : Text → Option (List Text × Text)
unfolding parameters_loop trim_start
scan_parameters s = let input = trim_start is_blank s in parameters_loop (length input) input

abbrev is_alphanumeric : ℕ → Bool
is_alphanumeric c =
    leb b'0' c && leb c b'9' || (leb b'A' c && leb c b'Z' || leb b'a' c && leb c b'z')

abbrev pub is_token : Text → Bool
is_token s =
    not (is_empty s)
    && all (λ c. is_alphanumeric c || any (λ d. c == d) (codes "!#$%&'*+-.^_`|~")) s

abbrev lower : ℕ → ℕ
lower c = if leb b'A' c && leb c b'Z' then c + 32 else c

-- `eq_ignore_ascii_case`
abbrev pub same_ignoring_case : Text → Text → Bool
same_ignoring_case a b = text_eq (map lower a) (map lower b)

-- the string up to the closing quote, and what stands behind it; the flag is set behind a backslash
unfoldable pub quoted_body : Bool → Text → Option (Text × Text)
quoted_body esc [] = none
quoted_body true (c ∷ s) = do (a, b) ← quoted_body false s; some (c ∷ a, b)
quoted_body false (c ∷ s) =
    let skip = quoted_body true s in
    let on = quoted_body false s in
    if c == b'"'
    then some ([], s)
    else do (a, b) ← (if c == b'\\' then skip else on); some (c ∷ a, b)

unfoldable pub parameter_value : Text → Option Text
unfolding quoted_body
parameter_value [] = none
parameter_value (c ∷ s) =
    if c == b'"'
    then (do (body, rest) ← quoted_body false s; (if is_empty rest then some body else none))
    else if is_token (c ∷ s)
    then some (c ∷ s)
    else none

-- `split_whitespace`, over the word read so far
unfoldable pub words_from : Text → Text → List Text
words_from word [] = if is_empty word then [] else word ∷ []
words_from word (c ∷ s) =
    let broken = words_from [] s in
    let on = words_from (word ++ c ∷ []) s in
    if c == b' ' || (leb 9 c && leb c 13)
    then if is_empty word then broken else word ∷ broken
    else on

unfoldable pub relation_types : Text → Option (List Text)
unfolding words_from
relation_types value =
    let types = words_from [] value in
    if is_empty types || not (all is_token types) then none else some types

-- the loop over the parameters, with the relations found so far
unfoldable pub names_loop : Option (List Text) → List Text → Option (Option (List Text))
unfolding split_once trim_start trim_end parameter_value relation_types
names_loop relations [] = some relations
names_loop relations (param ∷ params) = do
  (raw, rest) ← split_once b'=' param
  name ← (let n = trim_end is_blank raw in if is_token n then some n else none)
  value ← parameter_value (trim_start is_blank rest)
  found ←
      (if same_ignoring_case name (codes "rel")
        then elim relations [
          | some r ↦ none
          | none ↦ do types ← relation_types value; some (some types)
        ]
        else some relations)
  names_loop found params

unfoldable pub parameters_name_next : List Text → Option Bool
unfolding names_loop
parameters_name_next params = do
  relations ← names_loop none params
  some (elim relations [
    | none ↦ false
    | some types ↦ any (λ rel. same_ignoring_case rel (codes "next")) types
  ])

-- one turn of the loop of `collect_next_targets`, behind the opening bracket: the targets found so
-- far with the one that it adds, and what is left
unfoldable pub link_value : Text → List Text → Option (List Text × Text)
unfolding split_once scan_parameters parameters_name_next
link_value s targets = do
  (url, behind) ← split_once b'>' s
  (params, rest) ← scan_parameters behind
  next ← parameters_name_next params
  some (if next then targets ++ url ∷ [] else targets, rest)

unfoldable pub collect_loop : ℕ → Text → List Text → Option (List Text)
unfolding trim_start link_value
collect_loop zero field targets = none
collect_loop (suc fuel) field targets = elim (trim_start is_blank_or_comma field) [
  | [] ↦ some targets
  | c ∷ s ↦
      if c == b'<'
      then (do (found, rest) ← link_value s targets; collect_loop fuel rest found)
      else none
]

unfoldable pub collect_next_targets : Text → List Text → Option (List Text)
unfolding collect_loop
collect_next_targets field targets = collect_loop (suc (length field)) field targets

-- the loop over the fields
unfoldable pub collect_fields : List (Option Text) → List Text → Option (List Text)
unfolding collect_next_targets
collect_fields [] targets = some targets
collect_fields (none ∷ fields) targets = none
collect_fields (some field ∷ fields) targets = do
  found ← collect_next_targets field targets
  collect_fields fields found

-- `Vec::dedup`: of neighbours that are the same the first stays
unfoldable pub dedup : List Text → List Text
dedup [] = []
dedup (x ∷ xs) = elim (dedup xs) [
  | [] ↦ x ∷ []
  | y ∷ ys ↦ if text_eq x y then x ∷ ys else x ∷ y ∷ ys
]

unfoldable pub link_of : List Text → NextLink
link_of [] = no_link
link_of (u ∷ []) = one u
link_of (u ∷ v ∷ us) = uninterpretable

unfoldable pub next_link : List (Option Text) → NextLink
unfolding collect_fields dedup link_of
next_link fields = elim (collect_fields fields []) [
  | none ↦ uninterpretable
  | some targets ↦ link_of (dedup targets)
]

unfoldable pub next_url : List (Option Text) → Option Text
unfolding next_link
next_url fields = elim (next_link fields) [
  | one url ↦ some url
  | no_link ↦ none
  | uninterpretable ↦ none
]

-- the scheme with its `://`, and what stands behind
unfoldable pub split_scheme : Text → Option (Text × Text)
split_scheme [] = none
split_scheme (c ∷ s) =
    let later = split_scheme s in
    elim (strip_prefix (codes "://") (c ∷ s)) [
      | some rest ↦ some (codes "://", rest)
      | none ↦ do (a, b) ← later; some (c ∷ a, b)
    ]

unfoldable pub up_to_slash : Text → Text
up_to_slash [] = []
up_to_slash (c ∷ s) = let rest = up_to_slash s in if c == b'/' then [] else c ∷ rest

unfoldable pub extract_origin : Text → Option Text
unfolding split_scheme up_to_slash
extract_origin url = do (scheme, rest) ← split_scheme url; some (scheme ++ up_to_slash rest)

unfoldable pub same_origin : Text → Text → Bool
unfolding extract_origin
same_origin a b = elim (extract_origin a) [
  | none ↦ false
  | some oa ↦ elim (extract_origin b) [ none ↦ false | some ob ↦ same_ignoring_case oa ob ]
]

unfoldable pub next_url_same_origin : List (Option Text) → Text → Option Text
unfolding next_url same_origin
next_url_same_origin fields original_url = do
  candidate ← next_url fields
  (if same_origin candidate original_url then some candidate else none)
