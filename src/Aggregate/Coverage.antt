-- ===== src/Aggregate/Coverage.antt =====
-- aggregate/metrics.rs: the exclusion tallies and the coverage rates that are computed from the
-- counts.
use gh_report.Prelude.{
  ℕ, Bool, ◌&&◌, ◌||◌, List, [], ◌∷◌, ◌++◌, codes, if◌then◌else◌, ltb, ◌==◌, Text,
}
use gh_report.Metrics.{
  saturating_add, RateMetric, new_rate, with_extra, PolicyCounts, SecretScanningCounts,
  DependabotCounts, BranchProtectionCounts, CodeownersCounts, SecretAlertCounts,
  CollectionHealthCheckKind, ScoreExclusionCount,
}
use gh_report.Evidence.{RepositoryEvidence}
use gh_report.Checks.Score.{ExclusionReason, ScoreCategory}
use gh_report.Checks.BranchProtection
use gh_report.Aggregate.Health.{CollectionHealthTaxonomyCounts}

pub record ExclusionTally : Type 0 where
  pub permission_denied : ℕ
  pub unknown : ℕ
  pub not_applicable : ℕ
  pub other : ℕ

abbrev pub tally_default : ExclusionTally
tally_default = record { permission_denied = 0; unknown = 0; not_applicable = 0; other = 0 }

abbrev pub has_measurement_failure : ExclusionTally → Bool
has_measurement_failure t = ltb 0 t.permission_denied || (ltb 0 t.unknown || ltb 0 t.other)

abbrev pub record_reason : ExclusionReason → ExclusionTally → ExclusionTally
record_reason ExclusionReason.permission_denied t = record t {
  permission_denied = saturating_add t.permission_denied 1;
}
record_reason ExclusionReason.unknown t = record t { unknown = saturating_add t.unknown 1 }
record_reason ExclusionReason.not_applicable t = record t {
  not_applicable = saturating_add t.not_applicable 1;
}
record_reason ExclusionReason.other t = record t { other = saturating_add t.other 1 }

abbrev pub push_count :
    CollectionHealthCheckKind
    → ExclusionReason
    → ℕ
    → List ScoreExclusionCount
    → List ScoreExclusionCount
push_count kind why n out =
    if ltb 0 n then out ++ record { check_kind = kind; reason = why; count = n } ∷ [] else out

unfoldable pub push_counts :
    ExclusionTally → CollectionHealthCheckKind → List ScoreExclusionCount → List ScoreExclusionCount
push_counts t kind out = push_count kind ExclusionReason.other t.other (
    push_count kind ExclusionReason.not_applicable t.not_applicable (
      push_count kind ExclusionReason.unknown t.unknown
        (push_count kind ExclusionReason.permission_denied t.permission_denied out)))

unfoldable pub coverage_metric : ℕ → ℕ → ExclusionTally → RateMetric
coverage_metric pass fail tally =
    let denominator = saturating_add pass fail in
    if denominator == 0 && has_measurement_failure tally
    then new_rate 0 1
    else new_rate pass denominator

abbrev pub exclusion_tally_from_policy : PolicyCounts → ExclusionTally
exclusion_tally_from_policy c = record tally_default { unknown = c.unknown }

abbrev pub exclusion_tally_from_secret_scanning : SecretScanningCounts → ExclusionTally
exclusion_tally_from_secret_scanning c = record tally_default {
  permission_denied = c.permission_denied;
  unknown = c.unknown;
}

abbrev pub exclusion_tally_from_dependabot : DependabotCounts → ExclusionTally
exclusion_tally_from_dependabot c = record tally_default { unknown = c.unknown }

abbrev pub exclusion_tally_from_codeowners : CodeownersCounts → ExclusionTally
exclusion_tally_from_codeowners c = record tally_default { unknown = c.unknown }

abbrev pub record_exclusion : ScoreCategory → ExclusionTally → ExclusionTally
record_exclusion ScoreCategory.pass t = t
record_exclusion ScoreCategory.fail t = t
record_exclusion (ScoreCategory.excluded reason) t = record_reason reason t

unfoldable pub classify_branch_exclusion : RepositoryEvidence → ExclusionTally → ExclusionTally
unfolding BranchProtection.score
classify_branch_exclusion repo =
    record_exclusion (BranchProtection.score repo.checks.branch_protection)

pub record CoverageMetrics : Type 0 where
  pub security_policy : RateMetric
  pub secret_scanning : RateMetric
  pub dependabot : RateMetric
  pub open_secret_alerts : RateMetric
  pub branch_protection : RateMetric
  pub codeowners : RateMetric

pub record CoverageInputs : Type 0 where
  pub policy_counts : PolicyCounts
  pub secret_counts : SecretScanningCounts
  pub dependabot_counts : DependabotCounts
  pub branch_counts : BranchProtectionCounts
  pub codeowners_counts : CodeownersCounts
  pub secret_alert_counts : SecretAlertCounts
  pub taxonomy : CollectionHealthTaxonomyCounts
  pub alert_observable_enabled : ℕ
  pub policy_tally : ExclusionTally
  pub secret_tally : ExclusionTally
  pub dependabot_tally : ExclusionTally
  pub branch_tally : ExclusionTally
  pub codeowners_tally : ExclusionTally

-- `.with_extra` once for each pair, in their order
abbrev pub with_extras : List (Text × ℕ) → RateMetric → RateMetric
with_extras [] m = m
with_extras ((key, value) ∷ rest) m = with_extras rest (with_extra key value m)

abbrev pub secret_scanning_extras : CoverageInputs → List (Text × ℕ)
secret_scanning_extras input =
    let c = input.secret_counts in
    (codes "disabled", c.disabled)
    ∷ (codes "permission_denied", c.permission_denied)
    ∷ (codes "unknown", c.unknown)
    ∷ (codes "observable_repositories", saturating_add c.enabled c.disabled)
    ∷ (
      codes "collection_health_secret_scanning_permission_denied",
      input.taxonomy.secret_scanning_permission_denied,
    )
    ∷ []

unfoldable pub secret_scanning_coverage : CoverageInputs → RateMetric
unfolding coverage_metric with_extra
secret_scanning_coverage input =
    let c = input.secret_counts in
    with_extras (secret_scanning_extras input)
      (coverage_metric c.enabled c.disabled input.secret_tally)

abbrev pub dependabot_extras : CoverageInputs → List (Text × ℕ)
dependabot_extras input =
    let c = input.dependabot_counts in
    let non_enabled = saturating_add c.paused c.disabled in
    (codes "paused", c.paused)
    ∷ (codes "disabled", c.disabled)
    ∷ (codes "unknown", c.unknown)
    ∷ (codes "observable_repositories", saturating_add c.enabled non_enabled)
    ∷ []

unfoldable pub dependabot_coverage : CoverageInputs → RateMetric
unfolding coverage_metric with_extra
dependabot_coverage input =
    let c = input.dependabot_counts in
    let non_enabled = saturating_add c.paused c.disabled in
    with_extras (dependabot_extras input)
      (coverage_metric c.enabled non_enabled input.dependabot_tally)

unfoldable pub open_secret_alert_prevalence : CoverageInputs → RateMetric
unfolding new_rate with_extra
open_secret_alert_prevalence input =
    with_extras
      ((codes "repos_without_open_alerts", input.secret_alert_counts.repos_without_open_alerts)
        ∷ (codes "unobservable", input.secret_alert_counts.unobservable)
        ∷ [])
      (new_rate input.secret_alert_counts.repos_with_open_alerts input.alert_observable_enabled)

abbrev pub branch_protection_extras : CoverageInputs → List (Text × ℕ)
branch_protection_extras input =
    let c = input.branch_counts in
    (codes "insufficient", c.fail)
    ∷ (codes "unknown", c.unknown)
    ∷ (codes "observable_repositories", saturating_add c.pass c.fail)
    ∷ (
      codes "collection_health_branch_protection_permission_suspected",
      input.taxonomy.branch_protection_permission_suspected,
    )
    ∷ (
      codes "collection_health_branch_protection_not_found_absent",
      input.taxonomy.branch_protection_not_found_absent,
    )
    ∷ []

unfoldable pub branch_protection_coverage : CoverageInputs → RateMetric
unfolding coverage_metric with_extra
branch_protection_coverage input =
    let c = input.branch_counts in
    with_extras (branch_protection_extras input) (coverage_metric c.pass c.fail input.branch_tally)

abbrev pub codeowners_extras : CoverageInputs → List (Text × ℕ)
codeowners_extras input =
    let c = input.codeowners_counts in
    let present = saturating_add c.conforming c.non_conforming in
    (codes "non_conforming", c.non_conforming)
    ∷ (codes "absent", c.absent)
    ∷ (codes "unknown", c.unknown)
    ∷ (codes "truncated", c.truncated)
    ∷ (codes "observable_repositories", saturating_add present c.absent)
    ∷ []

unfoldable pub codeowners_coverage : CoverageInputs → RateMetric
unfolding coverage_metric with_extra
codeowners_coverage input =
    let c = input.codeowners_counts in
    let present = saturating_add c.conforming c.non_conforming in
    with_extras (codeowners_extras input) (coverage_metric present c.absent input.codeowners_tally)

abbrev pub security_policy_extras : CoverageInputs → List (Text × ℕ)
security_policy_extras input =
    let c = input.policy_counts in
    let policy_pass = saturating_add c.via_setting c.via_file in
    (codes "observable_repositories", saturating_add policy_pass c.missing)
    ∷ (codes "unknown", c.unknown)
    ∷ []

unfoldable pub security_policy_coverage : CoverageInputs → RateMetric
unfolding coverage_metric with_extra
security_policy_coverage input =
    let c = input.policy_counts in
    let policy_pass = saturating_add c.via_setting c.via_file in
    with_extras (security_policy_extras input)
      (coverage_metric policy_pass c.missing input.policy_tally)

unfoldable pub build_coverage_metrics : CoverageInputs → CoverageMetrics
unfolding security_policy_coverage secret_scanning_coverage dependabot_coverage
    open_secret_alert_prevalence branch_protection_coverage codeowners_coverage
build_coverage_metrics input = record {
  security_policy = security_policy_coverage input;
  secret_scanning = secret_scanning_coverage input;
  dependabot = dependabot_coverage input;
  open_secret_alerts = open_secret_alert_prevalence input;
  branch_protection = branch_protection_coverage input;
  codeowners = codeowners_coverage input;
}
