-- ===== src/Aggregate.antt =====
-- aggregate/metrics.rs: the aggregation of the evidence into the figures of a report.
pub mod Counts
pub mod Health
pub mod Coverage
pub mod Population
pub mod Owners
pub mod Tallies
pub mod Measures
pub mod DrillDown
pub mod Exclusions
pub mod Accounting
pub mod Statistics
pub mod Alerts
pub mod OwnerCoverage
use gh_report.Prelude.{
  ℕ, Bool, true, false, not, ◌&&◌, ◌||◌, Option, none, some, List, [], ◌∷◌, Text, codes, keep, ltb,
  min, if◌then◌else◌,
}
use gh_report.Metrics.{
  u32_max, saturating_add, AggregatedMetrics, SecretScanningObservability,
  CollectionHealthCheckKind,
}
use gh_report.Metrics.Owners.{is_active}
use gh_report.OrderedMap.{OrderedMap}
use gh_report.OrderedMap
use gh_report.Repository.{is_public}
use gh_report.Org.{CollectionStatus, OrgAlertSummary, RepoAlertSummary}
use gh_report.Evidence.{RepositoryEvidence}
use gh_report.Checks.SecretScanning
use gh_report.Checks.SecretScanning.{SecretScanningStatus}
use Counts.{
  count_statuses, count_policy_statuses, count_secret_scanning_statuses, count_dependabot_statuses,
  count_branch_protection_statuses, count_codeowners_statuses, count_secret_alert_observability,
  count_alert_observable_enabled, is_enabled,
}
use Health.{count_collection_health_reasons, into_counts}
use Coverage.{
  CoverageInputs, ExclusionTally, tally_default, build_coverage_metrics, push_counts,
  exclusion_tally_from_policy, exclusion_tally_from_secret_scanning,
  exclusion_tally_from_dependabot, exclusion_tally_from_codeowners, classify_branch_exclusion,
}
use Owners.{build_owner_metrics}

unfoldable pub is_public_repo : RepositoryEvidence → Bool
unfolding is_public
is_public_repo r = is_public r.repository

unfoldable pub count_branch_protection_exclusion_reasons : List RepositoryEvidence → ExclusionTally
unfolding count_statuses classify_branch_exclusion
count_branch_protection_exclusion_reasons = count_statuses classify_branch_exclusion tally_default

-- the counts of the two populations, as `aggregate_metrics` hands them on
unfoldable pub coverage_inputs : List RepositoryEvidence → List RepositoryEvidence → CoverageInputs
unfolding count_policy_statuses count_secret_scanning_statuses count_dependabot_statuses
    count_branch_protection_statuses count_codeowners_statuses count_secret_alert_observability
    count_collection_health_reasons count_alert_observable_enabled
    count_branch_protection_exclusion_reasons
coverage_inputs public_policy active =
    let policy = count_policy_statuses public_policy in
    let secret = count_secret_scanning_statuses active in
    let dependabot = count_dependabot_statuses active in
    let codeowners = count_codeowners_statuses active in
    record {
      policy_counts = policy;
      secret_counts = secret;
      dependabot_counts = dependabot;
      branch_counts = count_branch_protection_statuses active;
      codeowners_counts = codeowners;
      secret_alert_counts = count_secret_alert_observability active;
      taxonomy = count_collection_health_reasons active;
      alert_observable_enabled = count_alert_observable_enabled active;
      policy_tally = exclusion_tally_from_policy policy;
      secret_tally = exclusion_tally_from_secret_scanning secret;
      dependabot_tally = exclusion_tally_from_dependabot dependabot;
      branch_tally = count_branch_protection_exclusion_reasons active;
      codeowners_tally = exclusion_tally_from_codeowners codeowners;
    }

unfoldable pub aggregate_metrics : (Text → Text) → List RepositoryEvidence → AggregatedMetrics
unfolding coverage_inputs build_coverage_metrics into_counts build_owner_metrics push_counts
    is_public_repo
aggregate_metrics to_lowercase repositories =
    let input = coverage_inputs (keep is_public_repo repositories) (keep is_active repositories) in
    let coverage = build_coverage_metrics input in
    record {
      security_policy_coverage = coverage.security_policy;
      policy_counts = input.policy_counts;
      secret_scanning_coverage = coverage.secret_scanning;
      secret_scanning_counts = input.secret_counts;
      dependabot_security_updates_coverage = coverage.dependabot;
      dependabot_security_updates_counts = input.dependabot_counts;
      open_secret_alert_prevalence = coverage.open_secret_alerts;
      secret_alert_counts = input.secret_alert_counts;
      branch_protection_coverage = coverage.branch_protection;
      branch_protection_counts = input.branch_counts;
      codeowners_coverage = coverage.codeowners;
      codeowners_counts = input.codeowners_counts;
      owner_metrics = build_owner_metrics to_lowercase repositories;
      collection_health_counts = into_counts input.taxonomy;
      score_exclusion_counts =
          push_counts input.codeowners_tally CollectionHealthCheckKind.codeowners (
            push_counts input.branch_tally CollectionHealthCheckKind.branch_protection (
              push_counts input.dependabot_tally CollectionHealthCheckKind.dependabot (
                push_counts input.secret_tally CollectionHealthCheckKind.secret_scanning
                  (push_counts input.policy_tally CollectionHealthCheckKind.security_policy []))));
      team_rosters = [];
    }

abbrev pub empty_age_buckets : OrderedMap ℕ
empty_age_buckets = OrderedMap.insert (codes "unknown") 0 (
    OrderedMap.insert (codes "91_plus_days") 0 (
      OrderedMap.insert (codes "31_90_days") 0
        (OrderedMap.insert (codes "8_30_days") 0 (OrderedMap.insert (codes "0_7_days") 0 []))))

abbrev merge_loop : List (Text × ℕ) → OrderedMap ℕ → OrderedMap ℕ
merge_loop [] buckets = buckets
merge_loop ((key, value) ∷ source) buckets =
    merge_loop source (OrderedMap.insert key (min value u32_max) buckets)

unfoldable pub merge_age_buckets : List (Text × ℕ) → OrderedMap ℕ
merge_age_buckets source = merge_loop source empty_age_buckets

unfoldable pub new_observability_summary : SecretScanningObservability
new_observability_summary = record {
  collection_status = CollectionStatus.not_collected;
  collection_reason = none;
  total_open_secret_alerts = 0;
  open_secret_alert_age_buckets = empty_age_buckets;
  oldest_open_secret_alert_created_at = none;
  newest_open_secret_alert_created_at = none;
  status_mismatch_count = 0;
  observable_enabled_repositories = 0;
  unobservable_repositories = 0;
}

unfoldable pub with_alert_summary :
    Option OrgAlertSummary → SecretScanningObservability → SecretScanningObservability
unfolding merge_age_buckets
with_alert_summary none summary = summary
with_alert_summary (some a) summary = record summary {
  collection_status = a.collection_status;
  collection_reason = a.collection_reason;
  total_open_secret_alerts = min a.total_open_secret_alerts u32_max;
  open_secret_alert_age_buckets = merge_age_buckets a.open_secret_alert_age_buckets;
  oldest_open_secret_alert_created_at = a.oldest_open_secret_alert_created_at;
  newest_open_secret_alert_created_at = a.newest_open_secret_alert_created_at;
}

abbrev is_disabled : SecretScanningStatus → Bool
is_disabled SecretScanningStatus.disabled = true
is_disabled _ = false

-- the alerts that the organisation's endpoint reports for a repository
abbrev pub open_alerts : OrderedMap RepoAlertSummary → RepositoryEvidence → ℕ
open_alerts per_repo repo = elim (OrderedMap.get repo.repository.inventory_key per_repo) [
  | none ↦ 0
  | some s ↦ s.open_alert_count
]

unfoldable pub classify_observability :
    OrderedMap RepoAlertSummary
    → RepositoryEvidence
    → SecretScanningObservability
    → SecretScanningObservability
unfolding SecretScanning.status SecretScanning.has_status_mismatch SecretScanning.alerts_observable
classify_observability per_repo repo s =
    let ss = repo.checks.secret_scanning in
    record s {
      status_mismatch_count =
          if SecretScanning.has_status_mismatch ss
            || (is_disabled (SecretScanning.status ss) && ltb 0 (open_alerts per_repo repo))
          then saturating_add s.status_mismatch_count 1
          else s.status_mismatch_count;
      observable_enabled_repositories =
          if is_enabled (SecretScanning.status ss) && SecretScanning.alerts_observable ss
          then saturating_add s.observable_enabled_repositories 1
          else s.observable_enabled_repositories;
      unobservable_repositories =
          if not (SecretScanning.alerts_observable ss)
          then saturating_add s.unobservable_repositories 1
          else s.unobservable_repositories;
    }

abbrev per_repo_of : Option OrgAlertSummary → OrderedMap RepoAlertSummary
per_repo_of none = []
per_repo_of (some s) = s.per_repo

unfoldable pub build_secret_scanning_observability_summary :
    List RepositoryEvidence → Option OrgAlertSummary → SecretScanningObservability
unfolding count_statuses classify_observability new_observability_summary with_alert_summary
build_secret_scanning_observability_summary repositories org_alert_summary =
    count_statuses (classify_observability (per_repo_of org_alert_summary))
      (with_alert_summary org_alert_summary new_observability_summary) (keep is_active repositories)
