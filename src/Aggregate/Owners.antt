-- ===== src/Aggregate/Owners.antt =====
-- aggregate/metrics.rs: the metrics of each owner.
use gh_report.Prelude.{
  ℕ, Bool, true, false, ◌&&◌, ◌||◌, Option, none, some, List, [], map, keep, length, Text, codes,
  Ordering, text_eq, text_cmp, ltb, ◌==◌, if◌then◌else◌, is_some, sort_by, strip_prefix, any,
}
use gh_report.Metrics.{
  saturating_add, saturating_sub, RateMetric, new_rate, with_extra, OwnerMetrics, OwnerType, team,
  ambiguous_team_shaped, user, CollectionHealthCheckKind, ScoreExclusionCount,
}
use gh_report.Metrics.Owners.{
  OwnerEntry, build_owner_repo_map, team_slug_from_canonical_owner, contains,
}
use gh_report.OrderedMap.{OrderedMap}
use gh_report.OrderedMap
use gh_report.Evidence.{RepositoryEvidence}
use gh_report.Checks.Score.{ScoreCategory}
use gh_report.Checks.SecurityPolicy
use gh_report.Checks.SecretScanning
use gh_report.Checks.Dependabot
use gh_report.Checks.BranchProtection
use gh_report.Checks.Codeowners
use gh_report.Checks.Codeowners.{CodeownersStatus}
use gh_report.Aggregate.Counts.{count_as_u32, count_statuses, alert_observable_enabled}
use gh_report.Aggregate.Coverage.{
  ExclusionTally, tally_default, record_reason, push_counts, coverage_metric,
}

-- the three counters that the loop of `build_per_control_coverage` keeps for a control
pub record ControlCounts : Type 0 where
  pub pass : ℕ
  pub fail : ℕ
  pub tally : ExclusionTally

abbrev pub control_default : ControlCounts
control_default = record { pass = 0; fail = 0; tally = tally_default }

abbrev pub count_category : ScoreCategory → ControlCounts → ControlCounts
count_category ScoreCategory.pass c = record c { pass = saturating_add c.pass 1 }
count_category ScoreCategory.fail c = record c { fail = saturating_add c.fail 1 }
count_category (ScoreCategory.excluded reason) c = record c { tally = record_reason reason c.tally }

abbrev pub is_present : CodeownersStatus → Bool
is_present CodeownersStatus.conforming = true
is_present CodeownersStatus.non_conforming = true
is_present CodeownersStatus.absent = false
is_present CodeownersStatus.unknown = false

abbrev count_presence : ScoreCategory → CodeownersStatus → ControlCounts → ControlCounts
count_presence (ScoreCategory.excluded reason) status c = record c {
  tally = record_reason reason c.tally;
}
count_presence _ status c =
    if is_present status
    then record c { pass = saturating_add c.pass 1 }
    else record c { fail = saturating_add c.fail 1 }

pub record OwnerCounts : Type 0 where
  pub sp : ControlCounts
  pub secret : ControlCounts
  pub db : ControlCounts
  pub bp : ControlCounts
  pub co : ControlCounts

abbrev pub owner_default : OwnerCounts
owner_default = record {
  sp = control_default;
  secret = control_default;
  db = control_default;
  bp = control_default;
  co = control_default;
}

unfoldable pub classify_owner : RepositoryEvidence → OwnerCounts → OwnerCounts
unfolding SecurityPolicy.score SecretScanning.score Dependabot.score_of_status
    BranchProtection.score Codeowners.score Codeowners.status
classify_owner repo c = record {
  sp = count_category (SecurityPolicy.score repo.checks.security_policy) c.sp;
  secret = count_category (SecretScanning.score repo.checks.secret_scanning) c.secret;
  db =
      count_category (Dependabot.score_of_status repo.checks.dependabot_security_updates.status)
        c.db;
  bp = count_category (BranchProtection.score repo.checks.branch_protection) c.bp;
  co =
      count_presence (Codeowners.score repo.checks.codeowners)
        (Codeowners.status repo.checks.codeowners) c.co;
}

pub record OwnerControlCoverage : Type 0 where
  pub per_control_coverage : OrderedMap RateMetric
  pub score_exclusion_counts : List ScoreExclusionCount

unfoldable pub control_coverage : ControlCounts → RateMetric
unfolding coverage_metric
control_coverage c = coverage_metric c.pass c.fail c.tally

unfoldable pub build_per_control_coverage : List RepositoryEvidence → OwnerControlCoverage
unfolding count_statuses classify_owner control_coverage push_counts
build_per_control_coverage repos =
    let c = count_statuses classify_owner owner_default repos in
    record {
      per_control_coverage = OrderedMap.insert (codes "codeowners") (control_coverage c.co) (
          OrderedMap.insert (codes "branch_protection") (control_coverage c.bp) (
            OrderedMap.insert (codes "dependabot_security_updates") (control_coverage c.db) (
              OrderedMap.insert (codes "secret_scanning") (control_coverage c.secret)
                (OrderedMap.insert (codes "security_policy") (control_coverage c.sp) []))));
      score_exclusion_counts = push_counts c.co.tally CollectionHealthCheckKind.codeowners (
          push_counts c.bp.tally CollectionHealthCheckKind.branch_protection (
            push_counts c.db.tally CollectionHealthCheckKind.dependabot (
              push_counts c.secret.tally CollectionHealthCheckKind.secret_scanning
                (push_counts c.sp.tally CollectionHealthCheckKind.security_policy []))));
    }

unfoldable pub owner_type_of : Text → OwnerType
unfolding team_slug_from_canonical_owner
owner_type_of canonical =
    if is_some (team_slug_from_canonical_owner canonical)
    then team
    else if contains b'/' canonical
    then ambiguous_team_shaped
    else user

abbrev pub type_rank : OwnerType → ℕ
type_rank team = 0
type_rank ambiguous_team_shaped = 1
type_rank user = 2

abbrev is_gt : Ordering → Bool
is_gt Ordering.gt = true
is_gt Ordering.lt = false
is_gt Ordering.eq = false

unfoldable pub owner_leb : OwnerMetrics → OwnerMetrics → Bool
unfolding text_cmp
owner_leb a b =
    ltb (type_rank a.owner_type) (type_rank b.owner_type)
    || (type_rank a.owner_type == type_rank b.owner_type
        && (if is_gt (text_cmp a.owner b.owner) then false else true))

unfoldable pub owner_metrics_of : Text × OwnerEntry → OwnerMetrics
unfolding count_as_u32 build_per_control_coverage owner_type_of
owner_metrics_of (canonical, (display, repos)) =
    let c = build_per_control_coverage repos in
    record {
      owner = canonical;
      display_name = display;
      owner_type = owner_type_of canonical;
      total_repos = count_as_u32 (length repos);
      per_control_coverage = c.per_control_coverage;
      score_exclusion_counts = c.score_exclusion_counts;
      in_org = none;
    }

unfoldable pub is_clean : RepositoryEvidence → Bool
unfolding SecretScanning.has_open_alerts
is_clean r = elim (SecretScanning.has_open_alerts r.checks.secret_scanning) [
  | some false ↦ true
  | some true ↦ false
  | none ↦ false
]

-- `enrich_owner_metrics_with_lifecycle` for one owner; staleness, which compares timestamps of a
-- time library, is a parameter
unfoldable pub enrich_owner :
    (RepositoryEvidence → Bool) → List RepositoryEvidence → OwnerMetrics → OwnerMetrics
unfolding count_as_u32 new_rate with_extra alert_observable_enabled is_clean
enrich_owner is_stale repos owner =
    let total = count_as_u32 (length repos) in
    let stale_count = count_as_u32 (length (keep is_stale repos)) in
    let observable = keep alert_observable_enabled repos in
    let observable_count = count_as_u32 (length observable) in
    let alert_free_count = count_as_u32 (length (keep is_clean observable)) in
    let non_stale = new_rate (saturating_sub total stale_count) total in
    let alert_free =
      with_extra (codes "unobservable") (saturating_sub total observable_count)
        (new_rate alert_free_count observable_count) in
    record owner {
      per_control_coverage =
          OrderedMap.insert (codes "alert_free") alert_free
            (OrderedMap.insert (codes "non_stale") non_stale owner.per_control_coverage);
    }

module _ (to_lowercase : Text → Text) where
  unfoldable pub build_owner_metrics : List RepositoryEvidence → List OwnerMetrics
  unfolding build_owner_repo_map owner_metrics_of sort_by owner_leb
  build_owner_metrics repositories =
      sort_by owner_leb (map owner_metrics_of (build_owner_repo_map to_lowercase repositories))

  unfoldable pub enrich_owner_metrics_with_lifecycle :
      (RepositoryEvidence → Bool) → List RepositoryEvidence → List OwnerMetrics → List OwnerMetrics
  unfolding build_owner_repo_map enrich_owner
  enrich_owner_metrics_with_lifecycle is_stale repositories owners =
      let owner_repo_map = build_owner_repo_map to_lowercase repositories in
      map
        (λ owner. elim (OrderedMap.get owner.owner owner_repo_map) [
          | none ↦ owner
          | some (display, repos) ↦ enrich_owner is_stale repos owner
        ])
        owners

  -- `unwrap_or`: an owner without `@` is taken whole
  unfoldable pub login_of : Text → Text
  unfolding strip_prefix
  login_of owner =
      to_lowercase (elim (strip_prefix (codes "@") owner) [ none ↦ owner | some rest ↦ rest ])

  unfoldable pub member_of : List Text → Text → Bool
  unfolding text_eq
  member_of set login = any (λ m. text_eq m login) set

  unfoldable pub check_membership : Option (List Text) → OwnerMetrics → OwnerMetrics
  unfolding login_of member_of
  check_membership org_members owner = elim owner.owner_type [
    | user ↦ record owner {
      in_org = elim org_members [
        | none ↦ none
        | some set ↦ some (member_of set (login_of owner.owner))
      ];
    }
    | team ↦ owner
    | ambiguous_team_shaped ↦ owner
  ]

  unfoldable pub enrich_owner_metrics_with_org_membership :
      List OwnerMetrics → Option (List Text) → List OwnerMetrics
  unfolding check_membership
  enrich_owner_metrics_with_org_membership owners org_members =
      map (check_membership org_members) owners
