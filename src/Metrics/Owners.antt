-- ===== src/Metrics/Owners.antt =====
-- domain/metrics.rs: who owns a repository by its CODEOWNERS file, and the teams among the owners.
use gh_report.Prelude.{
  sort_by, split_once, ℕ, Bool, true, false, not, ◌&&◌, ◌||◌, Option, none, some, List, [], ◌∷◌,
  ◌++◌, Text, codes, ◌==◌, ◌>>=◌, is_some, is_empty, any, keep, strip_prefix, starts_with, text_cmp,
  then_some, filter_map, Ordering,
}
use gh_report.OrderedMap.{OrderedMap}
use gh_report.OrderedMap
use gh_report.Checks.Codeowners
use gh_report.Checks.Codeowners.{ParsedCodeowners}
use gh_report.Evidence.{RepositoryEvidence}

abbrev pub is_active : RepositoryEvidence → Bool
is_active r = not r.repository.archived

abbrev pub contains : ℕ → Text → Bool
contains c = any (λ d. d == c)

-- `* ? [ ] !`
abbrev is_glob : ℕ → Bool
is_glob c = c == b'*' || (c == b'?' || (c == b'[' || (c == b']' || c == b'!')))

unfoldable pub team_slug_from_canonical_owner : Text → Option Text
unfolding strip_prefix split_once
team_slug_from_canonical_owner owner = do
  stripped ← strip_prefix (codes "@") owner
  (org, slug) ← split_once b'/' stripped
  then_some (not (is_empty slug) && not (any is_glob slug)) slug

unfoldable pub is_wildcard_owner : Text → Bool
unfolding starts_with team_slug_from_canonical_owner
is_wildcard_owner owner =
    starts_with (codes "@") owner
    && (contains b'/' owner && not (is_some (team_slug_from_canonical_owner owner)))

-- one owner's entry: the first spelling that was seen, and the repositories
abbrev pub OwnerEntry : Type 0
OwnerEntry = Text × List RepositoryEvidence

-- an owner's entry with one more repository, begun by `or_insert_with` where there is none
abbrev pub push_into : Option OwnerEntry → Text → RepositoryEvidence → OwnerEntry
push_into none owner repo = (owner, repo ∷ [])
push_into (some (display, repos)) owner repo = (display, repos ++ repo ∷ [])

unfoldable pub push_repo :
    Text → Text → RepositoryEvidence → OrderedMap OwnerEntry → OrderedMap OwnerEntry
push_repo key owner repo m = OrderedMap.insert key (push_into (OrderedMap.get key m) owner repo) m

-- `not (a > b)` on pairs of strings
abbrev pair_leb : Text × Text → Text × Text → Bool
pair_leb (a, s) (b, t) = elim (text_cmp a b) [
  | Ordering.lt ↦ true
  | Ordering.gt ↦ false
  | Ordering.eq ↦ elim (text_cmp s t) [ Ordering.gt ↦ false | _ ↦ true ]
]

-- `str::to_lowercase` is a parameter
module _ (to_lowercase : Text → Text) where
  -- the loop over one repository's owners
  unfoldable pub push_owners :
      RepositoryEvidence → List Text → OrderedMap OwnerEntry → OrderedMap OwnerEntry
  unfolding push_repo
  push_owners repo [] m = m
  push_owners repo (owner ∷ owners) m =
      push_owners repo owners (push_repo (to_lowercase owner) owner repo m)

  unfoldable pub push_parsed :
      RepositoryEvidence → Option ParsedCodeowners → OrderedMap OwnerEntry → OrderedMap OwnerEntry
  unfolding push_owners
  push_parsed repo none m = m
  push_parsed repo (some parsed) m = push_owners repo parsed.unique_owners m

  -- the loop over the repositories
  unfoldable pub push_repos :
      List RepositoryEvidence → OrderedMap OwnerEntry → OrderedMap OwnerEntry
  unfolding push_parsed
  push_repos [] m = m
  push_repos (repo ∷ repos) m =
      push_repos repos (push_parsed repo (Codeowners.parsed_of repo.checks.codeowners) m)

  unfoldable pub build_owner_repo_map : List RepositoryEvidence → OrderedMap OwnerEntry
  unfolding push_repos
  build_owner_repo_map repositories = push_repos (keep is_active repositories) []

  unfoldable pub team_owner_slugs : List RepositoryEvidence → List (Text × Text)
  unfolding build_owner_repo_map team_slug_from_canonical_owner sort_by
  team_owner_slugs repositories = sort_by pair_leb (
      filter_map (λ entry. do slug ← team_slug_from_canonical_owner entry.0; some (entry.0, slug))
        (build_owner_repo_map repositories))
