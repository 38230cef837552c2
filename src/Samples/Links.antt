-- ===== src/Samples/Links.antt =====
-- The theorems on pagination, on short `Link` fields.
use gh_report.Prelude.{◌≡◌, ◌≢◌, some, [], ◌∷◌, Text, codes, All, arith}
use gh_report.Pagination.{next_link, one, collect_loop, collect_next_targets}
use gh_report.Pagination.Fuel.{collect_next_targets_enough}
use gh_report.Pagination.Printed.{print_next, next_link-print_next}

abbrev page : Text
page = codes "https://h/p?page=2"

abbrev short_field : Text
short_field = codes "<u>; rel=next"

collect_next_targets_enough_example :
    collect_loop 100 short_field [] ≡ collect_next_targets short_field []
collect_next_targets_enough_example = collect_next_targets_enough 100 short_field [] (omega arith)

page_unbracketed : All (λ x. x ≢ b'>') page
page_unbracketed = ground arith

next_link-print_next_example : next_link (some (print_next page) ∷ []) ≡ one page
next_link-print_next_example = next_link-print_next page page_unbracketed
