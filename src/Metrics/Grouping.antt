-- ===== src/Metrics/Grouping.antt =====
-- The owner map as a grouping: what a key's entry holds.
use gh_report.Prelude.{
  ◌≡◌, refl, ap, ◌∙◌, sym, Bool, true, false, not, Option, none, some, List, [], ◌∷◌, ◌++◌, map,
  append_assoc, append-nil, Text, text_eq, text_eq_iff, if◌then◌else◌, keep, Bool-cases, inl, inr,
}
use gh_report.OrderedMap.{OrderedMap, get-insert, get-empty}
use gh_report.OrderedMap
use gh_report.Checks.Codeowners
use gh_report.Checks.Codeowners.{ParsedCodeowners}
use gh_report.Evidence.{RepositoryEvidence}
use gh_report.Metrics.Owners.{
  OwnerEntry, is_active, push_into, push_repo, push_owners, push_parsed, push_repos,
  build_owner_repo_map,
}

-- a mention of an owner in the spelling of the file, with the repository
abbrev pub Mention : Type 0
Mention = Text × RepositoryEvidence

abbrev repos_of : List Mention → List RepositoryEvidence
repos_of ms = map (λ m. m.1) ms

-- the entry for the mentions of one owner: the first spelling, and each repository in order
abbrev pub entry_of : List Mention → Option OwnerEntry
entry_of [] = none
entry_of ((owner, repo) ∷ ms) = some (owner, repo ∷ map (λ m. m.1) ms)

abbrev extend : Option OwnerEntry → List Mention → Option OwnerEntry
extend none ms = entry_of ms
extend (some (display, repos)) ms = some (display, repos ++ repos_of ms)

extend-nil : (e : Option OwnerEntry) → extend e [] ≡ e
extend-nil none = refl
extend-nil (some (display, repos)) = λ i. some (display, append-nil repos i)

repos_of-append : (xs ys : List Mention) → repos_of (xs ++ ys) ≡ repos_of xs ++ repos_of ys
repos_of-append [] ys = refl
repos_of-append (x ∷ xs) ys = λ i. x.1 ∷ repos_of-append xs ys i

extend-append :
    (e : Option OwnerEntry) (xs ys : List Mention) → extend (extend e xs) ys ≡ extend e (xs ++ ys)
extend-append none [] ys = refl
extend-append none ((o, r) ∷ xs) ys = ap (λ l. some (o, r ∷ l)) (sym (repos_of-append xs ys))
extend-append (some (d, rs)) xs ys =
    ap (λ l. some (d, l))
      (append_assoc rs (repos_of xs) (repos_of ys)
        ∙ ap (λ l. rs ++ l) (sym (repos_of-append xs ys)))

extend-one :
    (e : Option OwnerEntry) (owner : Text) (repo : RepositoryEvidence)
    → some (push_into e owner repo) ≡ extend e ((owner, repo) ∷ [])
extend-one none owner repo = refl
extend-one (some (d, rs)) owner repo = refl

module _ (to_lowercase : Text → Text) (k : Text) where
  -- the mentions of the owner of key `k` among a file's owners, in a repository, and in all
  abbrev pub owners_mentions : RepositoryEvidence → List Text → List Mention
  owners_mentions repo [] = []
  owners_mentions repo (owner ∷ owners) =
      let rest = owners_mentions repo owners in
      if text_eq k (to_lowercase owner) then (owner, repo) ∷ rest else rest

  abbrev pub parsed_mentions : RepositoryEvidence → Option ParsedCodeowners → List Mention
  parsed_mentions repo none = []
  parsed_mentions repo (some parsed) = owners_mentions repo parsed.unique_owners

  abbrev pub repo_mentions : RepositoryEvidence → List Mention
  repo_mentions repo =
      if repo.repository.archived
      then []
      else parsed_mentions repo (Codeowners.parsed_of repo.checks.codeowners)

  abbrev pub mentions : List RepositoryEvidence → List Mention
  mentions [] = []
  mentions (repo ∷ repos) = repo_mentions repo ++ mentions repos

  get-push_owners :
      (repo : RepositoryEvidence) (owners : List Text) (m : OrderedMap OwnerEntry)
      → OrderedMap.get k (push_owners to_lowercase repo owners m)
        ≡ extend (OrderedMap.get k m) (owners_mentions repo owners)
  unfolding push_owners push_repo
  get-push_owners repo [] m = sym (extend-nil (OrderedMap.get k m))
  get-push_owners repo (owner ∷ owners) m =
      let key = to_lowercase owner in
      let entry = push_into (OrderedMap.get key m) owner repo in
      get-push_owners repo owners (push_repo key owner repo m) ∙ elim (Bool-cases (text_eq k key)) [
        | inl same ↦
            let first : OrderedMap.get k (OrderedMap.insert key entry m)
                ≡ extend (OrderedMap.get k m) ((owner, repo) ∷ []) =
              get-insert key k entry m
              ∙ rw same (
                  rw ((text_eq_iff k key).0 same) (extend-one (OrderedMap.get key m) owner repo)) in
            rw (same, first)
              (extend-append (OrderedMap.get k m) ((owner, repo) ∷ [])
                (owners_mentions repo owners))
        | inr other ↦ rw (other, get-insert key k entry m, other)
      ]

  get-push_parsed :
      (repo : RepositoryEvidence) (o : Option ParsedCodeowners) (m : OrderedMap OwnerEntry)
      → OrderedMap.get k (push_parsed to_lowercase repo o m)
        ≡ extend (OrderedMap.get k m) (parsed_mentions repo o)
  unfolding push_parsed
  get-push_parsed repo none m = sym (extend-nil (OrderedMap.get k m))
  get-push_parsed repo (some p) m = get-push_owners repo p.unique_owners m

  get-push_active :
      (archived : Bool) (repo : RepositoryEvidence) (rest : List RepositoryEvidence)
      (later : List Mention)
      → ((m : OrderedMap OwnerEntry)
          → OrderedMap.get k (push_repos to_lowercase rest m) ≡ extend (OrderedMap.get k m) later)
      → (m : OrderedMap OwnerEntry)
      → OrderedMap.get k (push_repos to_lowercase (if not archived then repo ∷ rest else rest) m)
        ≡ extend (OrderedMap.get k m) (
            (if archived
              then []
              else parsed_mentions repo (Codeowners.parsed_of repo.checks.codeowners))
            ++ later)
  unfolding push_repos
  get-push_active true repo rest later ih m = ih m
  get-push_active false repo rest later ih m =
      let o = Codeowners.parsed_of repo.checks.codeowners in
      ih (push_parsed to_lowercase repo o m)
      ∙ ap (λ e. extend e later) (get-push_parsed repo o m)
      ∙ extend-append (OrderedMap.get k m) (parsed_mentions repo o) later

  get-push_repos :
      (repos : List RepositoryEvidence) (m : OrderedMap OwnerEntry)
      → OrderedMap.get k (push_repos to_lowercase (keep is_active repos) m)
        ≡ extend (OrderedMap.get k m) (mentions repos)
  unfolding push_repos
  get-push_repos [] m = sym (extend-nil (OrderedMap.get k m))
  get-push_repos (repo ∷ repos) m =
      get-push_active repo.repository.archived repo (keep is_active repos) (mentions repos)
        (get-push_repos repos) m

  -- The entry of an owner's key lists, in the order of the evidence, the active repositories whose
  -- parsed CODEOWNERS file names the owner in any spelling with that lower case, once for each such
  -- spelling; its display name is the first spelling. Without such a repository there is no entry.
  pub owner_entry-mentions :
      (repositories : List RepositoryEvidence)
      → OrderedMap.get k (build_owner_repo_map to_lowercase repositories)
        ≡ entry_of (mentions repositories)
  unfolding build_owner_repo_map
  owner_entry-mentions repositories =
      get-push_repos repositories [] ∙ ap (λ e. extend e (mentions repositories)) (get-empty k)
