-- ===== src/Pagination/Printed.antt =====
-- The field that names one next page.
use gh_report.Prelude.{
  split_once, ℕ, suc, ◌≡◌, ◌≢◌, refl, ◌∙◌, true, some, List, [], ◌∷◌, ◌++◌, Text, codes, All, arith,
  length, text_eq,
}
use gh_report.Pagination.{
  one, next_link, collect_fields, collect_next_targets, link_value, scan_parameters,
  parameters_loop, scan_one_parameter, scan, trim_start, trim_end, parameters_name_next, names_loop,
  parameter_value, quoted_body, relation_types, words_from, is_blank_or_comma,
}
use gh_report.Pagination.Single.{next_link_one}
use gh_report.Pagination.Fuel.{collect_done, collect_turn}

abbrev behind_url : Text
behind_url = codes "; rel=\"next\""

-- `<url>; rel="next"`
abbrev pub print_next : Text → Text
print_next url = b'<' ∷ (url ++ (b'>' ∷ behind_url))

split_once_lem :
    (c : ℕ) (a b : Text) → All (λ x. x ≢ c) a → split_once c (a ++ (c ∷ b)) ≡ some (a, b)
unfolding split_once
split_once_lem c [] b h = ground arith
split_once_lem c (x ∷ a) b (n, h) = ground (arith, split_once_lem c a b h)

scanned : scan_parameters behind_url ≡ some (codes "rel=\"next\"" ∷ [], [])
unfolding scan_parameters parameters_loop scan_one_parameter scan trim_start trim_end
scanned = refl

named : parameters_name_next (codes "rel=\"next\"" ∷ []) ≡ some true
unfolding parameters_name_next names_loop split_once parameter_value quoted_body relation_types
    words_from trim_start trim_end text_eq
named = refl

printed_value :
    (url : Text)
    → All (λ x. x ≢ b'>') url
    → link_value (url ++ (b'>' ∷ behind_url)) [] ≡ some (url ∷ [], [])
unfolding link_value
printed_value url h = ground (arith, split_once_lem b'>' url behind_url h, scanned, named)

nothing_left : trim_start is_blank_or_comma [] ≡ []
unfolding trim_start
nothing_left = refl

printed_trim : (s : Text) → trim_start is_blank_or_comma (b'<' ∷ s) ≡ b'<' ∷ s
unfolding trim_start
printed_trim s = refl

one_field :
    (field : Text) (ts : List Text)
    → collect_next_targets field [] ≡ some ts
    → collect_fields (some field ∷ []) [] ≡ some ts
unfolding collect_fields
one_field field ts e = ground arith

printed_targets :
    (url : Text)
    → All (λ x. x ≢ b'>') url
    → collect_next_targets (print_next url) [] ≡ some (url ∷ [])
unfolding collect_next_targets
printed_targets url h =
    let s = url ++ (b'>' ∷ behind_url) in
    collect_turn (suc (length s)) b'<' (b'<' ∷ s) s [] (printed_trim s)
    ∙ rw (printed_value url h) (collect_done (length s) [] (url ∷ []) nothing_left)

nonempty : (url : Text) → url ∷ [] ≢ []
nonempty url = ground arith

-- The usual spelling of a next link is read back: a field `<url>; rel="next"` alone names exactly
-- its URL, for any URL without a closing bracket.
pub next_link-print_next :
    (url : Text) → All (λ x. x ≢ b'>') url → next_link (some (print_next url) ∷ []) ≡ one url
next_link-print_next url h = (next_link_one (some (print_next url) ∷ []) url).1 (
  url ∷ [],
  one_field (print_next url) (url ∷ []) (printed_targets url h),
  nonempty url,
  (refl, tt),
)
