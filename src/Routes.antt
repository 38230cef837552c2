-- ===== src/Routes.antt =====
-- github/route_template.rs: the route that names a request target in logs and counters.
pub mod Targets
use gh_report.Prelude.{
  ℕ, zero, suc, Bool, true, false, ◌&&◌, Option, none, some, List, [], ◌∷◌, Text, codes, text_eq,
  strip_prefix, is_empty, not, keep, length, ltb, ◌==◌, if◌then◌else◌,
}
use gh_report.PatternMatch.{split_slash}
use gh_report.Budget.{Route}

unfoldable pub template : Route → Text
template Route.user = codes "/user"
template Route.rate_limit = codes "/rate_limit"
template Route.installation_access_tokens =
    codes "/app/installations/{installation_id}/access_tokens"
template Route.org_repos = codes "/orgs/{org}/repos"
template Route.org_members = codes "/orgs/{org}/members"
template Route.org_teams = codes "/orgs/{org}/teams"
template Route.team_members = codes "/orgs/{org}/teams/{team_slug}/members"
template Route.org_secret_scanning_alerts = codes "/orgs/{org}/secret-scanning/alerts"
template Route.repo = codes "/repos/{owner}/{repo}"
template Route.repo_rulesets = codes "/repos/{owner}/{repo}/rulesets"
template Route.repo_commits = codes "/repos/{owner}/{repo}/commits"
template Route.repo_secret_scanning_alerts = codes "/repos/{owner}/{repo}/secret-scanning/alerts"
template Route.branch_protection = codes "/repos/{owner}/{repo}/branches/{branch}/protection"
template Route.repo_contents = codes "/repos/{owner}/{repo}/contents/{path}"
template Route.unmatched = codes "/{unmatched}"

-- a slice pattern: `none` for `_`, a literal otherwise
abbrev pub Shape : Type 0
Shape = List (Option Text)

unfoldable pub is_shape : Shape → List Text → Bool
is_shape [] [] = true
is_shape (none ∷ shape) (s ∷ segments) = is_shape shape segments
is_shape (some word ∷ shape) (s ∷ segments) = text_eq s word && is_shape shape segments
is_shape _ _ = false

-- a slice pattern that ends in `..`
unfoldable pub starts_with_shape : Shape → List Text → Bool
starts_with_shape [] segments = true
starts_with_shape (p ∷ shape) [] = false
starts_with_shape (none ∷ shape) (s ∷ segments) = starts_with_shape shape segments
starts_with_shape (some word ∷ shape) (s ∷ segments) =
    text_eq s word && starts_with_shape shape segments

abbrev lit : Text → Option Text
lit word = some word

-- the arms with a pattern of fixed length, in their order
abbrev pub arms : List (Shape × Route)
arms =
    (lit (codes "user") ∷ [], Route.user)
    ∷ (lit (codes "rate_limit") ∷ [], Route.rate_limit)
    ∷ (
      lit (codes "app") ∷ lit (codes "installations") ∷ none ∷ lit (codes "access_tokens") ∷ [],
      Route.installation_access_tokens,
    )
    ∷ (lit (codes "orgs") ∷ none ∷ lit (codes "repos") ∷ [], Route.org_repos)
    ∷ (lit (codes "orgs") ∷ none ∷ lit (codes "members") ∷ [], Route.org_members)
    ∷ (lit (codes "orgs") ∷ none ∷ lit (codes "teams") ∷ [], Route.org_teams)
    ∷ (
      lit (codes "orgs") ∷ none ∷ lit (codes "teams") ∷ none ∷ lit (codes "members") ∷ [],
      Route.team_members,
    )
    ∷ (
      lit (codes "orgs") ∷ none ∷ lit (codes "secret-scanning") ∷ lit (codes "alerts") ∷ [],
      Route.org_secret_scanning_alerts,
    )
    ∷ (lit (codes "repos") ∷ none ∷ none ∷ [], Route.repo)
    ∷ (lit (codes "repos") ∷ none ∷ none ∷ lit (codes "rulesets") ∷ [], Route.repo_rulesets)
    ∷ (lit (codes "repos") ∷ none ∷ none ∷ lit (codes "commits") ∷ [], Route.repo_commits)
    ∷ (
      lit (codes "repos") ∷ none ∷ none ∷ lit (codes "secret-scanning") ∷ lit (codes "alerts") ∷ [],
      Route.repo_secret_scanning_alerts,
    )
    ∷ (
      lit (codes "repos")
          ∷ none
          ∷ none
          ∷ lit (codes "branches")
          ∷ none
          ∷ lit (codes "protection")
          ∷ [],
      Route.branch_protection,
    )
    ∷ []

abbrev pub contents_shape : Shape
contents_shape = lit (codes "repos") ∷ none ∷ none ∷ lit (codes "contents") ∷ []

abbrev pub contents_or_unmatched : List Text → Route
contents_or_unmatched segments =
    if starts_with_shape contents_shape segments then Route.repo_contents else Route.unmatched

unfoldable pub first_arm : List (Shape × Route) → List Text → Route
first_arm [] segments = contents_or_unmatched segments
first_arm ((shape, route) ∷ rest) segments =
    let otherwise = first_arm rest segments in if is_shape shape segments then route else otherwise

-- `MAX_TRACKED_SEGMENTS` and the first segments that are tracked
abbrev pub max_tracked_segments : ℕ
max_tracked_segments = 8

unfoldable pub take : ℕ → List Text → List Text
take zero segments = []
take (suc n) [] = []
take (suc n) (s ∷ segments) = s ∷ take n segments

unfoldable pub route_of : Text → Route
unfolding first_arm take
route_of path =
    let segments = keep (λ s. not (is_empty s)) (split_slash path) in
    if ltb max_tracked_segments (length segments)
    then contents_or_unmatched (take max_tracked_segments segments)
    else first_arm arms segments

-- `split(c).next()`: what stands before the first `c`
unfoldable pub before : ℕ → Text → Text
before c [] = []
before c (x ∷ s) = let rest = before c s in if x == c then [] else x ∷ rest

-- what stands behind the first `://`
unfoldable pub after_scheme : Text → Option Text
after_scheme [] = none
after_scheme (x ∷ s) =
    let later = after_scheme s in
    elim (strip_prefix (codes "://") (x ∷ s)) [ some rest ↦ some rest | none ↦ later ]

unfoldable pub authority_tail : Text → Text
authority_tail [] = []
authority_tail (x ∷ s) = let later = authority_tail s in if x == b'/' then x ∷ s else later

-- the authority behind a scheme, or behind two slashes, is passed over
unfoldable pub past_scheme : Text → Text
unfolding after_scheme authority_tail
past_scheme s = elim (after_scheme s) [ some rest ↦ authority_tail rest | none ↦ s ]

unfoldable pub past_slashes : Text → Text
unfolding authority_tail
past_slashes s = elim (strip_prefix (codes "//") s) [ some rest ↦ authority_tail rest | none ↦ s ]

unfoldable pub path_for_matching : Text → Text
unfolding before past_scheme past_slashes
path_for_matching target = past_slashes (past_scheme (before b'?' (before b'#' target)))

unfoldable pub route_of_target : Text → Route
unfolding route_of path_for_matching
route_of_target target = route_of (path_for_matching target)

unfoldable pub route_template : Text → Text
unfolding template route_of_target
route_template target = template (route_of_target target)
