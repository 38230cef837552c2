-- ===== src/Samples/Addresses.antt =====
-- The theorems on request targets, on short ones.
use gh_report.Prelude.{◌≡◌, ◌≢◌, refl, none, Text, codes, All, arith, strip_prefix, ◌∷◌}
use gh_report.Routes.{route_of, route_of_target}
use gh_report.Routes.Targets.{Bare, absolute, origin_ignored}

abbrev plain_target : Text
plain_target = codes "/user"

abbrev token : Text
token = codes "access_token=a#b"

plain_target-Bare : Bare plain_target
plain_target-Bare = ground arith

abbrev secure : Text
secure = codes "https"

abbrev login : Text
login = codes "u:p@h"

abbrev user_path : Text
user_path = codes "user"

absolute-Bare : Bare (absolute secure login user_path)
absolute-Bare = ground arith

secure_colonless : All (λ x. x ≢ b':') secure
secure_colonless = ground arith

login_slashless : All (λ x. x ≢ b'/') login
login_slashless = ground arith

single_slash : strip_prefix (codes "//") (b'/' ∷ user_path) ≡ none
unfolding strip_prefix
single_slash = refl

origin_ignored_example :
    route_of_target (absolute secure login user_path) ≡ route_of (b'/' ∷ user_path)
origin_ignored_example =
    origin_ignored secure login user_path absolute-Bare secure_colonless login_slashless
      single_slash
